-- ===== src/Server/Headers/Calls.antt =====
-- The headers that the calls of a response set, and the bytes that they write.
use upnp.Prelude.{
  ℕ, ◌+◌, String, Bool, Option-cases, true, false, ◌≡◌, refl, ◌==◌, inl, inr, Option, none, some,
  List, [], ◌∷◌, ◌++◌, All, if◌then◌else◌, arith,
}
use upnp.Server.Http.{
  Call, write, parameter, status_ok, publish, version_major, version_minor, protocol,
}

-- The value that a header is set to last.
abbrev pub header : String → List Call → Option String
header name [] = none
header name (parameter key value ∷ calls) = elim (header name calls) [
  | none ↦ if key == name then some value else none
  | some later ↦ some later
]
header name (_ ∷ calls) = header name calls

-- The bytes that are written.
abbrev pub written : (String → ℕ) → List Call → ℕ
written bytes [] = 0
written bytes (write text ∷ calls) = bytes text + written bytes calls
written bytes (_ ∷ calls) = written bytes calls

abbrev pub is_some : {A : Type 0} → Option A → Bool
is_some none = false
is_some (some a) = true

module _ (name : String) where
  pub header-snoc :
      (calls : List Call) (c : Call)
      → header name (calls ++ c ∷ [])
        ≡ (elim (header name (c ∷ [])) [ none ↦ header name calls | some v ↦ some v ])
  header-snoc [] c =
      elim (header name (c ∷ [])) as (λ h. h ≡ (elim h [ none ↦ none | some v ↦ some v ])) [
        | none ↦ refl
        | some v ↦ refl
      ]
  header-snoc (parameter k v ∷ calls) c =
      rw (header-snoc calls c)
        (elim (Option-cases (header name (c ∷ []))) [ inl e ↦ rw e refl | inr (w, e) ↦ rw e refl ])
  header-snoc (write text ∷ calls) c = header-snoc calls c
  header-snoc (status_ok ∷ calls) c = header-snoc calls c
  header-snoc (publish _ _ ∷ calls) c = header-snoc calls c
  header-snoc (version_major n ∷ calls) c = header-snoc calls c
  header-snoc (version_minor n ∷ calls) c = header-snoc calls c
  header-snoc (protocol n ∷ calls) c = header-snoc calls c

  -- A call that does not set the header.
  pub header-kept :
      (calls : List Call) (c : Call)
      → header name (c ∷ []) ≡ none
      → header name (calls ++ c ∷ []) ≡ header name calls
  header-kept calls c h = rw (header-snoc calls c, h) refl

  pub header-other :
      (calls : List Call) (key value : String)
      → (key == name) ≡ false
      → header name (calls ++ parameter key value ∷ []) ≡ header name calls
  header-other calls key value h = header-kept calls (parameter key value) (rw h refl)

pub header-none :
    (name : String) (calls : List Call)
    → All (λ c. header name (c ∷ []) ≡ none) calls
    → header name calls ≡ none
header-none name [] h = refl
header-none name (parameter key value ∷ calls) (h, hs) = rw (header-none name calls hs) h
header-none name (write text ∷ calls) (h, hs) = header-none name calls hs
header-none name (status_ok ∷ calls) (h, hs) = header-none name calls hs
header-none name (publish channel message ∷ calls) (h, hs) = header-none name calls hs
header-none name (version_major n ∷ calls) (h, hs) = header-none name calls hs
header-none name (version_minor n ∷ calls) (h, hs) = header-none name calls hs
header-none name (protocol n ∷ calls) (h, hs) = header-none name calls hs

pub written-append :
    (bytes : String → ℕ) (calls more : List Call)
    → written bytes (calls ++ more) ≡ written bytes calls + written bytes more
written-append bytes [] more = omega arith
written-append bytes (write text ∷ calls) more = omega (arith, written-append bytes calls more)
written-append bytes (parameter k v ∷ calls) more = written-append bytes calls more
written-append bytes (status_ok ∷ calls) more = written-append bytes calls more
written-append bytes (publish c m ∷ calls) more = written-append bytes calls more
written-append bytes (version_major n ∷ calls) more = written-append bytes calls more
written-append bytes (version_minor n ∷ calls) more = written-append bytes calls more
written-append bytes (protocol n ∷ calls) more = written-append bytes calls more
