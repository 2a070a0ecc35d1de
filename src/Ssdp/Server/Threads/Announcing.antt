-- ===== src/Ssdp/Server/Threads/Announcing.antt =====
-- The steps of the announcing thread, and how many of them are left once the flag is reset.
use upnp.Prelude.{
  ℕ, zero, suc, String, ◌+◌, ◌*◌, ◌≤◌, Bool, true, false, ◌≡◌, List, [], ◌∷◌, length, if◌then◌else◌,
  Result, ok, err, leb, arith,
}
use upnp.Prelude.Exec.{◌>>◌, pure}
use upnp.Prelude.StdMap.{StdMap}
use upnp.Config.{Config}
use upnp.Ssdp.Headers.{Host, network_count}
use upnp.Ssdp.Server.{Datagram, Network, Sending, send_anounce, seconds}
use upnp.Ssdp.Server.Threads.{
  Announcer, begin, head, check, greeting, sleeping, finished, announcer_step, is_alive, Act,
  greets, runs, act_of,
}

-- Where a thread stands after a step that does not throw.
pub the_value :
    {A : Type 0} (pc next : A) {sent sent' : List Datagram}
    → ◌≡◌ {A = Result A × List Datagram} (ok next, sent) (ok pc, sent')
    → pc ≡ next
the_value pc next h = cc

pub sends_then :
    {A : Type 0} (m : Sending) (next : A) (sent : List Datagram) {pc : A} {sent' : List Datagram}
    → (m >> pure next) sent ≡ (ok pc, sent')
    → pc ≡ next
sends_then {A} m next sent {pc} {sent'} h = after (m sent) h
  where
    after :
        (r : Result (Unit {0}) × List Datagram)
        → ((λ s. r) >> pure next) sent ≡ (ok pc, sent')
        → pc ≡ next
    after (ok _, s) e = cc
    after (err f, s) e = absurd cc

-- Whether a step is an announcement of the announcing thread, and whether it is a step of that thread.
abbrev pub greeted : Act → ℕ
greeted greets = 1
greeted _ = 0

abbrev pub stepped : Act → ℕ
stepped greets = 1
stepped runs = 1
stepped _ = 0

abbrev pub greetings : List Act → ℕ
greetings [] = 0
greetings (a ∷ acts) = greeted a + greetings acts

abbrev pub thread_steps : List Act → ℕ
thread_steps [] = 0
thread_steps (a ∷ acts) = stepped a + thread_steps acts

module _ (net : Network) (h : Host) (config : Config) (namespaces : StdMap String) where
  -- Where the announcing thread stands after a step that does not throw.
  unfoldable pub next : (flag : Bool) (clock : ℕ) → Announcer → Announcer
  unfolding seconds
  next flag clock begin = head clock
  next flag clock (head t) = if flag then check t else finished
  next flag clock (check t) =
      if leb 60 (seconds t clock) then greeting t network_count [] else sleeping t
  next flag clock (greeting t rounds (ns ∷ rest)) = greeting t rounds rest
  next flag clock (greeting t (suc rounds) []) = greeting t rounds namespaces
  next flag clock (greeting t zero []) = sleeping clock
  next flag clock (sleeping t) = head t
  next flag clock finished = finished

  pub announcer_step-next :
      (flag : Bool) (clock : ℕ) (pc : Announcer) (sent : List Datagram) {pc' : Announcer}
      {sent' : List Datagram}
      → announcer_step net h config namespaces flag clock pc sent ≡ (ok pc', sent')
      → pc' ≡ next flag clock pc
  unfolding announcer_step next
  announcer_step-next flag clock (greeting t rounds ((nt, location) ∷ rest)) sent e =
      sends_then (send_anounce net h config nt location) (greeting t rounds rest) sent e
  announcer_step-next flag clock (greeting t (suc rounds) []) sent {pc'} e = the_value pc' _ e
  announcer_step-next flag clock (greeting t zero []) sent {pc'} e = the_value pc' _ e
  announcer_step-next flag clock begin sent {pc'} e = the_value pc' _ e
  announcer_step-next flag clock (head t) sent {pc'} e = the_value pc' _ e
  announcer_step-next flag clock (check t) sent {pc'} e = the_value pc' _ e
  announcer_step-next flag clock (sleeping t) sent {pc'} e = the_value pc' _ e
  announcer_step-next flag clock finished sent {pc'} e = the_value pc' _ e

  -- The announcements that the thread may still make once the flag is reset, and its steps.
  unfoldable pub greetings_left : Announcer → ℕ
  greetings_left (check t) = 3 * length namespaces
  greetings_left (greeting t rounds rest) = rounds * length namespaces + length rest
  greetings_left _ = 0

  unfoldable pub steps_left : Announcer → ℕ
  steps_left begin = 2
  steps_left (head t) = 1
  steps_left (check t) = 3 * length namespaces + 7
  steps_left (greeting t rounds rest) = rounds * suc (length namespaces) + length rest + 3
  steps_left (sleeping t) = 2
  steps_left finished = 0

  pub next-left :
      (clock : ℕ) (pc : Announcer)
      → is_alive pc ≡ true
      → (greetings_left (next false clock pc) + greeted (act_of pc) ≤ greetings_left pc)
        × (steps_left (next false clock pc) + 1 ≤ steps_left pc)
  unfolding next greetings_left steps_left
  next-left clock begin a = (omega arith, omega arith)
  next-left clock (head t) a = (omega arith, omega arith)
  next-left clock (check t) a = (ground arith, ground arith)
  next-left clock (greeting t rounds (ns ∷ rest)) a = (omega arith, omega arith)
  next-left clock (greeting t (suc rounds) []) a = (omega arith, omega arith)
  next-left clock (greeting t zero []) a = (omega arith, omega arith)
  next-left clock (sleeping t) a = (omega arith, omega arith)
  next-left clock finished a = absurd cc

  -- The loops do not run past their bounds.
  abbrev pub IsWithin : Announcer → Type 0
  IsWithin pc =
      (greetings_left pc ≤ 3 * length namespaces) × (steps_left pc ≤ 3 * length namespaces + 7)

  pub next-IsWithin :
      (flag : Bool) (clock : ℕ) (pc : Announcer) → IsWithin pc → IsWithin (next flag clock pc)
  unfolding next greetings_left steps_left
  next-IsWithin flag clock begin w = (omega arith, omega arith)
  next-IsWithin flag clock (head t) w = (ground arith, ground arith)
  next-IsWithin flag clock (check t) w = (ground arith, ground arith)
  next-IsWithin flag clock (greeting t rounds (ns ∷ rest)) (g, l) =
      (omega (arith, g), omega (arith, l))
  next-IsWithin flag clock (greeting t (suc rounds) []) (g, l) =
      (omega (arith, g), omega (arith, l))
  next-IsWithin flag clock (greeting t zero []) w = (omega arith, omega arith)
  next-IsWithin flag clock (sleeping t) w = (omega arith, omega arith)
  next-IsWithin flag clock finished w = w
