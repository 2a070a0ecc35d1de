-- ===== src/Ssdp/Connection/Receiving.antt =====
-- When a connection stops to receive.
use upnp.Prelude.{◌≡◌, refl, true, false, ◌⊎◌, inl, inr, sym, Fault, Result, err}
use upnp.Ssdp.Connection.{
  Connection, Completion, failed, received, handle_receive_from, Step, completes,
}

module _ {S M : Type 0} (handler : M → S → Result (Unit {0}) × S) where
  -- The connections that steps lead to.
  pub data Reachable (c : Connection S) : Connection S → Type 0 where
    start : Reachable c c
    then : {d e : Connection S} → Reachable c d → Step handler d e → Reachable c e

  Step-pending : {c d : Connection S} → Step handler c d → c.pending ≡ true
  Step-pending (completes completion s) = refl

  -- What a connection has in hand after an error: it is the last it will ever have.
  deaf : {c d : Connection S} → c.pending ≡ false → Reachable c d → c ≡ d
  deaf {c} {d} h start = refl
  deaf {c} {d} h (then {d = d'} r step) =
      let same : c ≡ d' = deaf h r in let pending = Step-pending step in absurd (cc (rw same at h))

  stopped :
      (completion : Completion M) (s : S)
      → (completion ≡ failed)
        ⊎ ((m : M) × (e : Fault) × (completion ≡ received m) × ((handler m s).0 ≡ err e))
      → (handle_receive_from handler completion s).1.pending ≡ false
  unfolding handle_receive_from
  stopped completion s (inl e) = rw e
  stopped completion s (inr (m, f, e, h)) = rw (e, h)

  -- Once a receive operation completes with an error, or with a message whose handler throws,
  -- nothing more is received: every connection that steps lead to is the one of that moment.
  pub failure-deaf :
      (completion : Completion M) (s : S) (d : Connection S)
      → (completion ≡ failed)
        ⊎ ((m : M) × (e : Fault) × (completion ≡ received m) × ((handler m s).0 ≡ err e))
      → Reachable (handle_receive_from handler completion s).1 d
      → d ≡ (handle_receive_from handler completion s).1
  failure-deaf completion s d stop r = sym (deaf (stopped completion s stop) r)
