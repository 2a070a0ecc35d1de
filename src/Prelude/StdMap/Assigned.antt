-- ===== src/Prelude/StdMap/Assigned.antt =====
-- A `std::map` that is filled by assignments to different keys.
use mathlib.Core.List.Memᴰ.{head, tail, not-nil}
use mathlib.Core.List.{Memᴰ}
use Prim.Native.Nat.{Ordering}
use Prim.Native.String.{compare}
use upnp.Prelude.Basics.{
  Option, Bool-cases, inl, inr, subst, ◌∙◌, some, String, false, ◌≡◌, refl, sym, ap, none, [], ◌∷◌,
  ◌==◌, eq_iff, arith,
}
use upnp.Prelude.StdMap.{StdMap, find, put, find-put, IsSorted, Above, Above-head, compare_flip_lt}

apart : (s t : String) → compare s t ≡ Ordering.lt → (t == s) ≡ false
apart s t h = elim (Bool-cases (t == s)) [
  | inl e ↦
      let same : t ≡ s = (eq_iff t s).0 e in
      let less : compare s s ≡ Ordering.lt = subst (λ x. compare s x ≡ Ordering.lt) same h in
      let more : compare s s ≡ Ordering.gt = compare_flip_lt s s less in cc
  | inr e ↦ e
]

module _ {ℓ} {V : Type ℓ} where
  -- The assignments of a list, its head last.
  abbrev pub put_all : StdMap V → StdMap V
  put_all [] = []
  put_all ((k, v) ∷ m) = put k v (put_all m)

  -- None of the assignments is to this key.
  abbrev pub Unset : String → StdMap V → Type 0
  Unset key [] = Unit
  Unset key ((k, v) ∷ m) = ((k == key) ≡ false) × Unset key m

  abbrev pub Distinct : StdMap V → Type 0
  Distinct [] = Unit
  Distinct ((k, v) ∷ m) = Unset k m × Distinct m

  pub find-put_all-Unset : (key : String) (m : StdMap V) → Unset key m → find key (put_all m) ≡ none
  unfolding find
  find-put_all-Unset key [] h = refl
  find-put_all-Unset key ((k, v) ∷ m) (h, hs) =
      rw (find-put k key v (put_all m), h) (find-put_all-Unset key m hs)

  Unset-other :
      (key : String) (v : V) (m : StdMap V) (k : String)
      → Unset k m
      → Memᴰ (key, v) m
      → (k == key) ≡ false
  Unset-other key v [] k u m = absurd (not-nil m)
  Unset-other key v ((j, w) ∷ rest) k (u, us) (head same) =
      let e : key ≡ j = ap (λ p. p.0) same in ground (arith, eq_iff k key, eq_iff j k, sym e)
  Unset-other key v ((j, w) ∷ rest) k (u, us) (tail m) = Unset-other key v rest k us m

  pub find-put_all :
      (key : String) (v : V) (m : StdMap V)
      → Distinct m
      → Memᴰ (key, v) m
      → find key (put_all m) ≡ some v
  find-put_all key v [] d m = absurd (not-nil m)
  find-put_all key v ((k, w) ∷ rest) (u, d) (head same) =
      let e : k ≡ key = sym (ap (λ p. p.0) same) in
      let e' : w ≡ v = sym (ap (λ p. p.1) same) in
      rw (find-put k key w (put_all rest), (eq_iff k key).1 e) (ap some e')
  find-put_all key v ((k, w) ∷ rest) (u, d) (tail m) =
      rw (find-put k key w (put_all rest), Unset-other key v rest k u m)
        (find-put_all key v rest d m)

  -- The assignments of a list, its head first.
  abbrev pub put_each : StdMap V → StdMap V → StdMap V
  put_each [] m = m
  put_each ((k, v) ∷ ps) m = put_each ps (put k v m)

  abbrev pub or_else : Option V → Option V → Option V
  or_else none other = other
  or_else (some v) other = some v

  pub or_else-none : (o : Option V) → or_else o none ≡ o
  or_else-none none = refl
  or_else-none (some v) = refl

  find-Unset : (key : String) (m : StdMap V) → Unset key m → find key m ≡ none
  unfolding find
  find-Unset key [] u = refl
  find-Unset key ((k, v) ∷ m) (u, us) = rw u (find-Unset key m us)

  pub find-put_each :
      (key : String) (ps m : StdMap V)
      → Distinct ps
      → find key (put_each ps m) ≡ or_else (find key ps) (find key m)
  unfolding find
  find-put_each key [] m d = refl
  find-put_each key ((k, v) ∷ ps) m (u, d) =
      find-put_each key ps (put k v m) d ∙ elim (Bool-cases (k == key)) [
        | inl e ↦
            let same : k ≡ key = (eq_iff k key).0 e in
            let unset : find key ps ≡ none = find-Unset key ps (subst (λ x. Unset x ps) same u) in
            rw (find-put k key v m, e, unset) refl
        | inr e ↦ rw (find-put k key v m, e) refl
      ]

  Above-Unset : (key : String) (m : StdMap V) → Above key m → IsSorted m → Unset key m
  Above-Unset key [] a s = tt
  Above-Unset key ((k, v) ∷ m) a (b, s) =
      (apart key k a, Above-Unset key m (Above-head key k m a b) s)

  pub IsSorted-Distinct : (m : StdMap V) → IsSorted m → Distinct m
  IsSorted-Distinct [] s = tt
  IsSorted-Distinct ((k, v) ∷ m) (a, s) = (Above-Unset k m a s, IsSorted-Distinct m s)
