-- ===== src/Ssdp/Server/Threads/Ending.antt =====
-- That the destructor of a server comes to its end.
use mathlib.Core.List.{append_assoc, append-nil}
use upnp.Prelude.{
  ℕ, zero, suc, String, ◌≤◌, Bool, true, false, ◌≡◌, ◌⊎◌, inl, inr, refl, sym, ◌∙◌, List, [], ◌∷◌,
  ◌++◌, map, ok, arith,
}
use upnp.Prelude.StdMap.{StdMap}
use upnp.Config.{Config}
use upnp.Ssdp.Headers.{
  Host, network_count, ssdp_header_request_line, anounce_headers, suppress_headers,
}
use upnp.Ssdp.Server.{Datagram, Network, send_anounce, send_suppress}
use upnp.Ssdp.Server.Announcements.{IsOpen}
use upnp.Ssdp.Server.Threads.Farewell.{send-Appends, thrice, farewell}
use upnp.Ssdp.Server.Threads.{
  Announcer, begin, head, check, greeting, sleeping, finished, suppressing, joining, destroyed,
  closed, System, announcer_step, owner_step, is_alive, Act, act_of, owns, announcer_goes,
  owner_goes, joins, closes, Run, done, then, newly_made,
}
use upnp.Ssdp.Server.Threads.Announcing.{steps_left, next, next-left}
use upnp.Ssdp.Server.Threads.Invariant.{Run-Inv, newly_made-Inv}

module _ (net : Network) (h : Host) (config : Config) (namespaces : StdMap String)
    (net_open : IsOpen net h config) where
  append_run :
      {s t u : System} {acts acts' : List Act}
      → Run net h config namespaces s acts t
      → Run net h config namespaces t acts' u
      → Run net h config namespaces s (acts ++ acts') u
  append_run done run' = run'
  append_run (then step run) run' = then step (append_run run run')

  announcer_step-open :
      (flag : Bool) (clock : ℕ) (pc : Announcer) (sent : List Datagram)
      → (sent' : List Datagram) × (announcer_step net h config namespaces flag clock pc sent
          ≡ (ok (next net h config namespaces flag clock pc), sent'))
  unfolding announcer_step next send_anounce
  announcer_step-open flag clock (greeting t rounds ((nt, location) ∷ rest)) sent =
      let e =
        send-Appends net h config net_open ssdp_header_request_line
          (anounce_headers h config nt location) sent in
      ((send_anounce net h config nt location sent).1, rw e refl)
  announcer_step-open flag clock (greeting t (suc rounds) []) sent = (sent, refl)
  announcer_step-open flag clock (greeting t zero []) sent = (sent, refl)
  announcer_step-open flag clock begin sent = (sent, refl)
  announcer_step-open flag clock (head t) sent = (sent, refl)
  announcer_step-open flag clock (check t) sent = (sent, refl)
  announcer_step-open flag clock (sleeping t) sent = (sent, refl)
  announcer_step-open flag clock finished sent = (sent, refl)

  -- What a run that lets the announcing thread go to its end leads to.
  record Finishes (s : System) : Type 0 where
    acts : List Act
    end : System
    run : Run net h config namespaces s acts end
    end_finished : end.announcer ≡ finished
    same_owner : end.owner ≡ s.owner

  is_alive-cases : (pc : Announcer) → (is_alive pc ≡ true) ⊎ (pc ≡ finished)
  is_alive-cases finished = inr refl
  is_alive-cases pc = inl (ground arith)

  finishes :
      (k : ℕ) (s : System)
      → s.announce_thread_run ≡ false
      → steps_left net h config namespaces s.announcer ≤ k
      → Finishes s
  finishes zero s f l = elim (is_alive-cases s.announcer) [
    | inl alive ↦
        let (_, less) = next-left net h config namespaces 0 s.announcer alive in
        absurd (omega (arith, l, less))
    | inr end ↦ record { acts = []; end = s; run = done; end_finished = end; same_owner = refl }
  ]
  finishes (suc k) s f l = elim (is_alive-cases s.announcer) [
    | inl alive ↦
        let (_, less) = next-left net h config namespaces 0 s.announcer alive in
        let (sent, e) = announcer_step-open s.announce_thread_run 0 s.announcer s.sent in
        let t : System = record s {
          announcer = next net h config namespaces s.announce_thread_run 0 s.announcer;
          sent = sent;
        } in
        let rest = finishes k t f (rw f (omega (arith, l, less))) in
        record {
          acts = act_of s.announcer ∷ rest.acts;
          end = rest.end;
          run = then (announcer_goes 0 alive e) rest.run;
          end_finished = rest.end_finished;
          same_owner = rest.same_owner;
        }
    | inr end ↦ record { acts = []; end = s; run = done; end_finished = end; same_owner = refl }
  ]

  -- The datagrams of the suppressions that are left.
  abbrev rounds_left : ℕ → List Datagram
  rounds_left zero = []
  rounds_left (suc rounds) = map (farewell net h config) namespaces ++ rounds_left rounds

  abbrev left : ℕ → StdMap String → List Datagram
  left rounds rest = map (farewell net h config) rest ++ rounds_left rounds

  record Destroys (s : System) (datagrams : List Datagram) : Type 0 where
    acts : List Act
    end : System
    run : Run net h config namespaces s acts end
    end_destroyed : end.owner ≡ destroyed
    same_announcer : end.announcer ≡ s.announcer
    end_sent : end.sent ≡ s.sent ++ datagrams

  abbrev suppressing_from : ℕ → StdMap String → System → System
  suppressing_from rounds rest s = record s { owner = suppressing true rounds rest }

  suppresses :
      (rounds : ℕ) (rest : StdMap String) (s : System)
      → Destroys (suppressing_from rounds rest s) (left rounds rest)
  unfolding owner_step send_suppress
  suppresses zero [] s = record {
    acts = owns ∷ [];
    end = record s { owner = destroyed };
    run = then (owner_goes refl refl) done;
    end_destroyed = refl;
    same_announcer = refl;
    end_sent = sym (append-nil s.sent);
  }
  suppresses (suc rounds) [] s =
      let rest = suppresses rounds namespaces s in
      record {
        acts = owns ∷ rest.acts;
        end = rest.end;
        run = then (owner_goes refl refl) rest.run;
        end_destroyed = rest.end_destroyed;
        same_announcer = rest.same_announcer;
        end_sent = rest.end_sent;
      }
  suppresses rounds ((nt, location) ∷ others) s =
      let d = farewell net h config (nt, location) in
      let e =
        send-Appends net h config net_open ssdp_header_request_line (suppress_headers h config nt)
          s.sent in
      let rest = suppresses rounds others (record s { sent = s.sent ++ d ∷ [] }) in
      record {
        acts = owns ∷ rest.acts;
        end = rest.end;
        run = then (owner_goes refl (rw e refl)) rest.run;
        end_destroyed = rest.end_destroyed;
        same_announcer = rest.same_announcer;
        end_sent = rest.end_sent ∙ append_assoc s.sent (d ∷ []) (left rounds others);
      }

  -- In whatever place the announcing thread is when the destructor of a server waits for it, there
  -- are steps of the threads that lead to the end of the destructor and of the connection, with
  -- the thread finished, nothing received any more, and three suppressions of each namespace as
  -- the last datagrams; where the network takes every datagram and the text of the multicast
  -- address is an address.
  pub destruction-ends :
      (sent : List Datagram) {s : System} {before : List Act}
      → Run net h config namespaces (newly_made sent) before s
      → s.owner ≡ joining
      → (after : List Act) × (t : System) × (until : List Datagram) × Run net h config namespaces s
          after t
        × (t.owner ≡ closed)
        × (t.announcer ≡ finished)
        × (t.receiving ≡ false)
        × (t.sent ≡ until ++ thrice (map (farewell net h config) namespaces))
  destruction-ends sent {s} run joining_is =
      let inv = Run-Inv net h config namespaces run (newly_made-Inv net h config namespaces sent) in
      let ended =
        finishes (steps_left net h config namespaces s.announcer) s (inv.reset (rw joining_is refl))
          (omega arith) in
      let gone = suppresses network_count [] ended.end in
      let t : System = record gone.end { receiving = false; owner = closed } in
      (
        ended.acts ++ owns ∷ (gone.acts ++ owns ∷ []),
        t,
        ended.end.sent,
        append_run ended.run (
            then (joins (ended.same_owner ∙ joining_is) ended.end_finished)
              (append_run gone.run (then (closes gone.end_destroyed) done))),
        refl,
        gone.same_announcer ∙ ended.end_finished,
        refl,
        gone.end_sent,
      )
