-- ===== src/Ssdp/Server/Threads/Invariant.antt =====
-- What holds of a server whose threads are running, whatever they do.
use upnp.Prelude.{
  zero, suc, String, Bool, true, false, ◌≡◌, refl, sym, ◌∙◌, List, [], ◌∷◌, ok, arith,
}
use upnp.Prelude.StdMap.{StdMap}
use upnp.Config.{Config}
use upnp.Ssdp.Headers.{Host, network_count}
use upnp.Ssdp.Server.{Datagram, Network, send_anounce, send_suppress}
use upnp.Ssdp.Server.Threads.{
  finished, Owner, using, suppressing, announcing, joining, destroyed, closed, System, owner_step,
  is_looping, Act, Step, announcer_goes, owner_goes, announces, destroys, joins, hears, fails,
  closes, Run, done, then, newly_made,
}
use upnp.Ssdp.Server.Threads.Announcing.{
  the_value, sends_then, announcer_step-next, greetings_left, steps_left, IsWithin, next-IsWithin,
}

-- The destructor has reset the flag; and it has waited for the thread.
abbrev pub has_reset : Owner → Bool
has_reset (suppressing last _ _) = last
has_reset joining = true
has_reset destroyed = true
has_reset closed = true
has_reset _ = false

abbrev pub has_joined : Owner → Bool
has_joined (suppressing last _ _) = last
has_joined destroyed = true
has_joined closed = true
has_joined _ = false

module _ (net : Network) (h : Host) (config : Config) (namespaces : StdMap String) where
  pub record Inv (s : System) : Type 0 where
    pub within : IsWithin net h config namespaces s.announcer
    pub reset : has_reset s.owner ≡ true → s.announce_thread_run ≡ false
    pub joined : has_joined s.owner ≡ true → s.announcer ≡ finished

  -- Where the owner stands after a step of its loops that does not throw.
  unfoldable pub owner_next : Owner → Owner
  owner_next (suppressing last rounds (ns ∷ rest)) = suppressing last rounds rest
  owner_next (suppressing last (suc rounds) []) = suppressing last rounds namespaces
  owner_next (suppressing true zero []) = destroyed
  owner_next (suppressing false zero []) = announcing network_count []
  owner_next (announcing rounds (ns ∷ rest)) = announcing rounds rest
  owner_next (announcing (suc rounds) []) = announcing rounds namespaces
  owner_next (announcing zero []) = using
  owner_next pc = pc

  pub owner_step-next :
      (pc : Owner) (sent : List Datagram) {pc' : Owner} {sent' : List Datagram}
      → owner_step net h config namespaces pc sent ≡ (ok pc', sent')
      → pc' ≡ owner_next pc
  unfolding owner_step owner_next
  owner_step-next (suppressing last rounds ((nt, location) ∷ rest)) sent e =
      sends_then (send_suppress net h config nt) (suppressing last rounds rest) sent e
  owner_step-next (suppressing last (suc rounds) []) sent {pc'} e = the_value pc' _ e
  owner_step-next (suppressing true zero []) sent {pc'} e = the_value pc' _ e
  owner_step-next (suppressing false zero []) sent {pc'} e = the_value pc' _ e
  owner_step-next (announcing rounds ((nt, location) ∷ rest)) sent e =
      sends_then (send_anounce net h config nt location) (announcing rounds rest) sent e
  owner_step-next (announcing (suc rounds) []) sent {pc'} e = the_value pc' _ e
  owner_step-next (announcing zero []) sent {pc'} e = the_value pc' _ e
  owner_step-next using sent {pc'} e = the_value pc' _ e
  owner_step-next joining sent {pc'} e = the_value pc' _ e
  owner_step-next destroyed sent {pc'} e = the_value pc' _ e
  owner_step-next closed sent {pc'} e = the_value pc' _ e

  owner_next-last :
      (pc : Owner)
      → is_looping pc ≡ true
      → (has_reset (owner_next pc) ≡ has_reset pc) × (has_joined (owner_next pc) ≡ has_joined pc)
  unfolding owner_next
  owner_next-last (suppressing last rounds (ns ∷ rest)) l = (refl, refl)
  owner_next-last (suppressing last (suc rounds) []) l = (refl, refl)
  owner_next-last (suppressing true zero []) l = (refl, refl)
  owner_next-last (suppressing false zero []) l = (refl, refl)
  owner_next-last (announcing rounds (ns ∷ rest)) l = (refl, refl)
  owner_next-last (announcing (suc rounds) []) l = (refl, refl)
  owner_next-last (announcing zero []) l = (refl, refl)
  owner_next-last pc l = ground arith

  pub Step-Inv : {s t : System} {a : Act} → Step net h config namespaces s a t → Inv s → Inv t
  Step-Inv {s} (announcer_goes clock {pc} {sent} alive e) inv =
      let is_next =
        announcer_step-next net h config namespaces s.announce_thread_run clock s.announcer s.sent
          e in
      record {
        within = rw is_next (
            next-IsWithin net h config namespaces s.announce_thread_run clock s.announcer
              inv.within);
        reset = inv.reset;
        joined = λ j. absurd (cc (inv.joined j, alive));
      }
  Step-Inv {s} (owner_goes {pc} {sent} looping e) inv =
      let is_next = owner_step-next s.owner s.sent e in
      let (reset, joined) = owner_next-last s.owner looping in
      record {
        within = inv.within;
        reset = λ r. inv.reset (sym reset ∙ rw is_next at r);
        joined = λ j. inv.joined (sym joined ∙ rw is_next at j);
      }
  Step-Inv (announces u) inv = record {
    within = inv.within;
    reset = λ r. absurd cc;
    joined = λ j. absurd cc;
  }
  Step-Inv (destroys u) inv = record {
    within = inv.within;
    reset = λ r. refl;
    joined = λ j. absurd cc;
  }
  Step-Inv (joins j f) inv = record {
    within = inv.within;
    reset = λ r. inv.reset (rw j refl);
    joined = λ p. f;
  }
  Step-Inv (hears request r e) inv = record {
    within = inv.within;
    reset = inv.reset;
    joined = inv.joined;
  }
  Step-Inv (fails r) inv = record { within = inv.within; reset = inv.reset; joined = inv.joined }
  Step-Inv (closes d) inv = record {
    within = inv.within;
    reset = λ r. inv.reset (rw d refl);
    joined = λ j. inv.joined (rw d refl);
  }

  pub Run-Inv :
      {s t : System} {acts : List Act} → Run net h config namespaces s acts t → Inv s → Inv t
  Run-Inv done inv = inv
  Run-Inv (then step run) inv = Run-Inv run (Step-Inv step inv)

  pub newly_made-Inv : (sent : List Datagram) → Inv (newly_made sent)
  unfolding greetings_left steps_left
  newly_made-Inv sent = record {
    within = (omega arith, omega arith);
    reset = λ r. absurd cc;
    joined = λ j. absurd cc;
  }
