-- ===== src/Ssdp/Server/Threads/Bound.antt =====
-- How many steps the threads of a server still make once its destructor has begun.
use upnp.Prelude.{
  ℕ, zero, suc, String, ◌+◌, ◌*◌, ◌≤◌, true, false, ◌≡◌, refl, List, [], ◌∷◌, length, arith,
}
use upnp.Prelude.StdMap.{StdMap}
use upnp.Config.{Config}
use upnp.Ssdp.Headers.{Host}
use upnp.Ssdp.Server.{Datagram, Network}
use upnp.Ssdp.Server.Threads.{
  Announcer, greeting, Owner, using, suppressing, announcing, joining, destroyed, closed, System,
  is_looping, Act, owns, act_of, Step, announcer_goes, owner_goes, announces, destroys, joins,
  hears, fails, closes, Run, done, then, newly_made,
}
use upnp.Ssdp.Server.Threads.Announcing.{thread_steps}
use upnp.Ssdp.Server.Threads.Invariant.{
  has_reset, owner_next, owner_step-next, Run-Inv, newly_made-Inv,
}
use upnp.Ssdp.Server.Threads.Shutdown.{reset-bounds}

-- Whether a step is one of the owner.
abbrev pub owned : Act → ℕ
owned owns = 1
owned _ = 0

abbrev pub owner_steps : List Act → ℕ
owner_steps [] = 0
owner_steps (a ∷ acts) = owned a + owner_steps acts

owned-act_of : (pc : Announcer) → owned (act_of pc) ≡ 0
owned-act_of (greeting t rounds (ns ∷ rest)) = refl
owned-act_of (greeting t rounds []) = refl
owned-act_of pc = ground arith

module _ (net : Network) (h : Host) (config : Config) (namespaces : StdMap String) where
  -- The steps of the destructor that are left.
  unfoldable owner_left : Owner → ℕ
  owner_left joining = 3 * suc (length namespaces) + 3
  owner_left (suppressing true rounds rest) = rounds * suc (length namespaces) + length rest + 2
  owner_left destroyed = 1
  owner_left _ = 0

  owner_next-left :
      (pc : Owner)
      → is_looping pc ≡ true
      → has_reset pc ≡ true
      → (has_reset (owner_next net h config namespaces pc) ≡ true)
        × (owner_left (owner_next net h config namespaces pc) + 1 ≤ owner_left pc)
  unfolding owner_next owner_left
  owner_next-left (suppressing true rounds (ns ∷ rest)) l r = (refl, omega arith)
  owner_next-left (suppressing true (suc rounds) []) l r = (refl, omega arith)
  owner_next-left (suppressing true zero []) l r = (refl, omega arith)
  owner_next-left (suppressing false rounds rest) l r = absurd cc
  owner_next-left (announcing rounds rest) l r = absurd cc
  owner_next-left pc l r = absurd (ground arith)

  Step-owner_left :
      {s t : System} {a : Act}
      → Step net h config namespaces s a t
      → has_reset s.owner ≡ true
      → (has_reset t.owner ≡ true) × (owner_left t.owner + owned a ≤ owner_left s.owner)
  unfolding owner_left
  Step-owner_left {s} (announcer_goes clock alive e) r =
      (r, rw (owned-act_of s.announcer) (omega arith))
  Step-owner_left {s} (owner_goes looping e) r =
      let (r', l) = owner_next-left s.owner looping r in
      rw (owner_step-next net h config namespaces s.owner s.sent e) (r', l)
  Step-owner_left (announces u) r = absurd (cc (rw u at r))
  Step-owner_left (destroys u) r = absurd (cc (rw u at r))
  Step-owner_left (joins j d) r = (refl, rw j (omega arith))
  Step-owner_left (hears request p e) r = (r, omega arith)
  Step-owner_left (fails p) r = (r, omega arith)
  Step-owner_left (closes d) r = (refl, rw d (omega arith))

  Run-owner_left :
      {s t : System} {acts : List Act}
      → Run net h config namespaces s acts t
      → has_reset s.owner ≡ true
      → owner_left t.owner + owner_steps acts ≤ owner_left s.owner
  Run-owner_left done r = omega arith
  Run-owner_left (then step run) r =
      let (r', l) = Step-owner_left step r in omega (arith, l, Run-owner_left run r')

  -- The loops of the owner do not run past their bounds.
  abbrev bound : ℕ
  bound = 3 * length namespaces + 6

  owner_next-bound :
      (pc : Owner)
      → owner_left pc ≤ bound
      → owner_left (owner_next net h config namespaces pc) ≤ bound
  unfolding owner_next owner_left
  owner_next-bound (suppressing true rounds (ns ∷ rest)) b = omega (arith, b)
  owner_next-bound (suppressing true (suc rounds) []) b = omega (arith, b)
  owner_next-bound (suppressing true zero []) b = omega arith
  owner_next-bound (suppressing false rounds (ns ∷ rest)) b = omega arith
  owner_next-bound (suppressing false (suc rounds) []) b = omega arith
  owner_next-bound (suppressing false zero []) b = omega arith
  owner_next-bound (announcing rounds (ns ∷ rest)) b = omega arith
  owner_next-bound (announcing (suc rounds) []) b = omega arith
  owner_next-bound (announcing zero []) b = omega arith
  owner_next-bound using b = b
  owner_next-bound joining b = b
  owner_next-bound destroyed b = b
  owner_next-bound closed b = b

  Step-bound :
      {s t : System} {a : Act}
      → Step net h config namespaces s a t
      → owner_left s.owner ≤ bound
      → owner_left t.owner ≤ bound
  unfolding owner_left
  Step-bound (announcer_goes clock alive e) b = b
  Step-bound {s} (owner_goes looping e) b =
      rw (owner_step-next net h config namespaces s.owner s.sent e) (owner_next-bound s.owner b)
  Step-bound (announces u) b = omega arith
  Step-bound (destroys u) b = omega arith
  Step-bound (joins j d) b = omega arith
  Step-bound (hears request p e) b = b
  Step-bound (fails p) b = b
  Step-bound (closes d) b = omega arith

  Run-bound :
      {s t : System} {acts : List Act}
      → Run net h config namespaces s acts t
      → owner_left s.owner ≤ bound
      → owner_left t.owner ≤ bound
  Run-bound done b = b
  Run-bound (then step run) b = Run-bound run (Step-bound step b)

  -- However the threads of a server are interleaved, once its destructor has begun they make at
  -- most 6 n + 13 steps besides those of receiving, where n is the number of namespaces, also
  -- where the network does not take every datagram.
  pub shutdown-bound :
      (sent : List Datagram) {s t : System} {before after : List Act}
      → Run net h config namespaces (newly_made sent) before s
      → has_reset s.owner ≡ true
      → Run net h config namespaces s after t
      → thread_steps after + owner_steps after ≤ 6 * length namespaces + 13
  unfolding owner_left
  shutdown-bound sent run r run' =
      let inv = Run-Inv net h config namespaces run (newly_made-Inv net h config namespaces sent) in
      let (_, l) = reset-bounds net h config namespaces sent run (inv.reset r) run' in
      omega (arith, l, Run-owner_left run' r, Run-bound run (omega arith))
