-- ===== src/Ssdp/Server/Threads/Shutdown.antt =====
-- The destruction of a server whose threads are running.
use upnp.Prelude.{ℕ, String, ◌+◌, ◌*◌, ◌≤◌, true, false, ◌≡◌, refl, List, [], ◌∷◌, length, arith}
use upnp.Prelude.StdMap.{StdMap}
use upnp.Config.{Config}
use upnp.Ssdp.Headers.{Host}
use upnp.Ssdp.Server.{Datagram, Network}
use upnp.Ssdp.Server.Threads.{
  Announcer, greeting, finished, Owner, suppressing, destroyed, closed, System, Act, act_of, Step,
  announcer_goes, owner_goes, announces, destroys, joins, hears, fails, closes, Run, done, then,
  newly_made,
}
use upnp.Ssdp.Server.Threads.Announcing.{
  greeted, stepped, greetings, thread_steps, announcer_step-next, greetings_left, steps_left,
  next-left,
}
use upnp.Ssdp.Server.Threads.Invariant.{has_reset, has_joined, Run-Inv, newly_made-Inv}

module _ (net : Network) (h : Host) (config : Config) (namespaces : StdMap String) where
  -- What a step of any thread leaves for the announcing thread to do.
  abbrev Leaves : System → ℕ → ℕ → System → Type 0
  Leaves s greeted stepped t =
      (t.announce_thread_run ≡ false)
      × (greetings_left net h config namespaces t.announcer + greeted
          ≤ greetings_left net h config namespaces s.announcer)
      × (steps_left net h config namespaces t.announcer + stepped
          ≤ steps_left net h config namespaces s.announcer)

  stepped-act_of : (pc : Announcer) → stepped (act_of pc) ≡ 1
  stepped-act_of (greeting t rounds (ns ∷ rest)) = refl
  stepped-act_of (greeting t rounds []) = refl
  stepped-act_of pc = ground arith

  Step-Leaves :
      {s t : System} {a : Act}
      → Step net h config namespaces s a t
      → s.announce_thread_run ≡ false
      → Leaves s (greeted a) (stepped a) t
  Step-Leaves {s} (announcer_goes clock {pc} {sent} alive e) f =
      let is_next =
        announcer_step-next net h config namespaces false clock s.announcer s.sent (rw f at e) in
      let (g, l) = next-left net h config namespaces clock s.announcer alive in
      (
        f,
        rw is_next (omega (arith, g)),
        rw (is_next, stepped-act_of s.announcer) (omega (arith, l)),
      )
  Step-Leaves (owner_goes looping e) f = (f, omega arith, omega arith)
  Step-Leaves (announces u) f = (f, omega arith, omega arith)
  Step-Leaves (destroys u) f = (refl, omega arith, omega arith)
  Step-Leaves (joins j d) f = (f, omega arith, omega arith)
  Step-Leaves (hears request r e) f = (f, omega arith, omega arith)
  Step-Leaves (fails r) f = (f, omega arith, omega arith)
  Step-Leaves (closes d) f = (f, omega arith, omega arith)

  Run-Leaves :
      {s t : System} {acts : List Act}
      → Run net h config namespaces s acts t
      → s.announce_thread_run ≡ false
      → Leaves s (greetings acts) (thread_steps acts) t
  Run-Leaves done f = (f, omega arith, omega arith)
  Run-Leaves (then step run) f =
      let (f', g, l) = Step-Leaves step f in
      let (f'', g', l') = Run-Leaves run f' in (f'', omega (arith, g, g'), omega (arith, l, l'))

  none_left : (pc : Announcer) → steps_left net h config namespaces pc ≤ 0 → pc ≡ finished
  unfolding steps_left
  none_left finished l = refl
  none_left pc l = absurd (ground arith)

  joined_reset : (pc : Owner) → has_joined pc ≡ true → has_reset pc ≡ true
  joined_reset (suppressing last rounds rest) j = j
  joined_reset destroyed j = refl
  joined_reset closed j = refl
  joined_reset pc j = ground arith

  -- However the threads of a server are interleaved, after the flag is reset the announcing thread
  -- makes at most 3 n further announcements and 3 n + 7 further steps, where n is the number of
  -- namespaces, also where the network does not take every datagram.
  pub reset-bounds :
      (sent : List Datagram) {s t : System} {before after : List Act}
      → Run net h config namespaces (newly_made sent) before s
      → s.announce_thread_run ≡ false
      → Run net h config namespaces s after t
      → (greetings after ≤ 3 * length namespaces) × (thread_steps after ≤ 3 * length namespaces + 7)
  reset-bounds sent run reset run' =
      let (g, l) =
        (Run-Inv net h config namespaces run
          (newly_made-Inv net h config namespaces sent)).within in
      let (_, g', l') = Run-Leaves run' reset in (omega (arith, g, g'), omega (arith, l, l'))

  -- However the threads of a server are interleaved, once the destructor has waited for the
  -- announcing thread, that thread is finished and makes no step.
  pub joined-silent :
      (sent : List Datagram) {s t : System} {before after : List Act}
      → Run net h config namespaces (newly_made sent) before s
      → has_joined s.owner ≡ true
      → Run net h config namespaces s after t
      → (thread_steps after ≡ 0) × (t.announcer ≡ finished)
  unfolding steps_left
  joined-silent sent {s} {t} run joined run' =
      let inv = Run-Inv net h config namespaces run (newly_made-Inv net h config namespaces sent) in
      let (_, _, l) = Run-Leaves run' (inv.reset (joined_reset s.owner joined)) in
      let l' = rw (inv.joined joined) at l in
      (omega (arith, l'), none_left t.announcer (omega (arith, l')))
