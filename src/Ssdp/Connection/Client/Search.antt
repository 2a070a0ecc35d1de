-- ===== src/Ssdp/Connection/Client/Search.antt =====
-- How a search ends.
use upnp.Prelude.{◌≡◌, refl, false, List, [], ◌∷◌, Result, ok}
use upnp.Ssdp.Connection.Client.{run}

module _ {S M : Type 0} (handler : M → S → Result (Unit {0}) × S) where
  -- What handling some responses, one after another, makes of the state.
  abbrev pub handled : List M → S → S
  handled [] s = s
  handled (m ∷ ms) s = handled ms (handler m s).1

  -- Where the handler of a search returns for every response, the thread of the client connection
  -- ends for any number of responses: each is handled once, in order, and no operation is pending.
  pub run-ends :
      (returns : (m : M) (s : S) → (handler m s).0 ≡ ok tt) (responses : List M) (s : S)
      → run handler responses s ≡ (ok tt, record { pending = false; state = handled responses s })
  unfolding run
  run-ends returns [] s = refl
  run-ends returns (m ∷ ms) s = rw (returns m s) (run-ends returns ms (handler m s).1)
