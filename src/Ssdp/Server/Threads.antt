-- ===== src/Ssdp/Server/Threads.antt =====
-- The threads of one `SSDPServerImpl` of src/ssdpserver.cpp, interleaved: the announcing thread, the
-- thread that constructs, uses and destroys the server, and the one that receives.
pub mod Announcing
pub mod Invariant
pub mod Shutdown
pub mod Farewell
pub mod Ending
pub mod Bound
use upnp.Prelude.{
  ℕ, zero, suc, String, Bool, true, false, ◌≡◌, List, [], ◌∷◌, Fault, Result, ok, err, leb,
  if◌then◌else◌,
}
use upnp.Prelude.Exec.{Exec, ◌>>=◌, ◌>>◌, pure}
use upnp.Prelude.StdMap.{StdMap}
use upnp.Config.{Config}
use upnp.Server.Http.{Request}
use upnp.Ssdp.Headers.{Host, network_count}
use upnp.Ssdp.Server.{
  Datagram, Network, Sending, send_anounce, send_suppress, seconds, handle_receive,
}

-- Where the announcing thread stands, with `_announce_time`. In its loops, `rounds` are the rounds that
-- follow the current one, and `rest` is what is left of the namespaces in it.
pub data Announcer : Type 0 where
  begin : Announcer
  head : (announce_time : ℕ) → Announcer
  check : (announce_time : ℕ) → Announcer
  greeting : (announce_time rounds : ℕ) (rest : StdMap String) → Announcer
  sleeping : (announce_time : ℕ) → Announcer
  finished : Announcer

-- Where the owner of the server stands: between calls, in `suppress` or in the second loop of
-- `announce`, before the `join` of the destructor, after its body, or after the connection, the last
-- member that is destroyed. `last` tells the `suppress` of the destructor from that of `announce`.
pub data Owner : Type 0 where
  using : Owner
  suppressing : (last : Bool) (rounds : ℕ) (rest : StdMap String) → Owner
  announcing : (rounds : ℕ) (rest : StdMap String) → Owner
  joining : Owner
  destroyed : Owner
  closed : Owner

-- What the threads share; whether a receive operation is pending, and where two of them stand.
pub record System : Type 0 where
  pub announce_thread_run : Bool
  pub sent : List Datagram
  pub receiving : Bool
  pub announcer : Announcer
  pub owner : Owner

module _ (net : Network) (h : Host) (config : Config) (namespaces : StdMap String) where
  -- The next statement of `annouceThread` that reads or changes what is shared, or the clock.
  unfoldable pub announcer_step :
      (flag : Bool) (clock : ℕ) → Announcer → Exec (List Datagram) Announcer
  unfolding seconds send_anounce
  announcer_step flag clock begin = pure (head clock)
  announcer_step flag clock (head t) = pure (if flag then check t else finished)
  announcer_step flag clock (check t) =
      pure (if leb 60 (seconds t clock) then greeting t network_count [] else sleeping t)
  announcer_step flag clock (greeting t rounds ((nt, location) ∷ rest)) = do
    send_anounce net h config nt location
    pure (greeting t rounds rest)
  announcer_step flag clock (greeting t (suc rounds) []) = pure (greeting t rounds namespaces)
  announcer_step flag clock (greeting t zero []) = pure (sleeping clock)
  announcer_step flag clock (sleeping t) = pure (head t)
  announcer_step flag clock finished = pure finished

  -- The next step of the loops of `suppress` and of `announce`.
  unfoldable pub owner_step : Owner → Exec (List Datagram) Owner
  unfolding send_suppress send_anounce
  owner_step (suppressing last rounds ((nt, location) ∷ rest)) = do
    send_suppress net h config nt
    pure (suppressing last rounds rest)
  owner_step (suppressing last (suc rounds) []) = pure (suppressing last rounds namespaces)
  owner_step (suppressing true zero []) = pure destroyed
  owner_step (suppressing false zero []) = pure (announcing network_count [])
  owner_step (announcing rounds ((nt, location) ∷ rest)) = do
    send_anounce net h config nt location
    pure (announcing rounds rest)
  owner_step (announcing (suc rounds) []) = pure (announcing rounds namespaces)
  owner_step (announcing zero []) = pure using
  owner_step using = pure using
  owner_step joining = pure joining
  owner_step destroyed = pure destroyed
  owner_step closed = pure closed

-- The threads that are in the middle of something.
abbrev pub is_alive : Announcer → Bool
is_alive finished = false
is_alive _ = true

abbrev pub is_looping : Owner → Bool
is_looping (suppressing _ _ _) = true
is_looping (announcing _ _) = true
is_looping _ = false

-- Who makes a step; an announcement of the announcing thread is told from its other steps.
pub data Act : Type 0 where
  greets runs owns receives : Act

abbrev pub act_of : Announcer → Act
act_of (greeting _ _ (_ ∷ _)) = greets
act_of _ = runs

module _ (net : Network) (h : Host) (config : Config) (namespaces : StdMap String) where
  -- The steps after which the process goes on. One that throws ends it: no thread catches what is thrown.
  pub data Step (s : System) : Act → System → Type 0 where
    announcer_goes :
        (clock : ℕ) {pc : Announcer} {sent : List Datagram}
        → is_alive s.announcer ≡ true
        → announcer_step net h config namespaces s.announce_thread_run clock s.announcer s.sent
          ≡ (ok pc, sent)
        → Step s (act_of s.announcer) (record s { announcer = pc; sent = sent })
    owner_goes :
        {pc : Owner} {sent : List Datagram}
        → is_looping s.owner ≡ true
        → owner_step net h config namespaces s.owner s.sent ≡ (ok pc, sent)
        → Step s owns (record s { owner = pc; sent = sent })
    -- `announce()`
    announces :
        s.owner ≡ using → Step s owns (record s { owner = suppressing false network_count [] })
    -- The destructor resets the flag, waits for the thread, and suppresses.
    destroys :
        s.owner ≡ using → Step s owns (record s { announce_thread_run = false; owner = joining })
    joins :
        s.owner ≡ joining
        → s.announcer ≡ finished
        → Step s owns (record s { owner = suppressing true network_count [] })
    -- A request is handled and the next receive operation started; or the operation fails.
    hears :
        (request : Request) {sent : List Datagram}
        → s.receiving ≡ true
        → handle_receive net h config namespaces request s.sent ≡ (ok tt, sent)
        → Step s receives (record s { sent = sent })
    fails : s.receiving ≡ true → Step s receives (record s { receiving = false })
    -- The destructor of the connection, the last member that goes.
    closes : s.owner ≡ destroyed → Step s owns (record s { receiving = false; owner = closed })

  -- The steps of a run, by who makes them.
  pub data Run : System → List Act → System → Type 0 where
    done : {s : System} → Run s [] s
    then :
        {a : Act} {acts : List Act} {s t u : System}
        → Step s a t
        → Run t acts u
        → Run s (a ∷ acts) u

-- What the constructor leaves behind.
abbrev pub newly_made : List Datagram → System
newly_made sent = record {
  announce_thread_run = true;
  sent = sent;
  receiving = true;
  announcer = begin;
  owner = using;
}
