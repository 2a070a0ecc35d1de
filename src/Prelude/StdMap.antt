-- ===== src/Prelude/StdMap.antt =====
-- `std::map` with string keys: the pairs in the order of its iteration, ascending by key.
pub mod Assigned
use Prim.Native.Nat.{Ordering, compare as compare_ℕ}
use Prim.Native.String.{compare}
use Prim.Native.String.compare
use text.Mathlib.TextEquality.{path_by_compare}
use upnp.Prelude.Basics.{
  ℕ, code, String, ◌≡◌, refl, Option, none, some, List, [], ◌∷◌, ◌++◌, ap, arith, ◌==◌, eq_iff,
  if◌then◌else◌,
}

abbrev pub StdMap {ℓ} : Type ℓ → Type ℓ
StdMap V = List (String × V)

module _ {ℓ} {V : Type ℓ} where
  -- m.find( k )
  unfoldable pub find : String → StdMap V → Option V
  find k [] = none
  find k ((j, v) ∷ m) = if j == k then some v else find k m

  -- m[k] = v
  unfoldable pub put : String → V → StdMap V → StdMap V
  put k v [] = (k, v) ∷ []
  put k v ((j, w) ∷ m) = elim (compare k j) [
    | Ordering.lt ↦ (k, v) ∷ (j, w) ∷ m
    | Ordering.eq ↦ (k, v) ∷ m
    | Ordering.gt ↦ (j, w) ∷ put k v m
  ]

  pub find-put :
      (k j : String) (v : V) (m : StdMap V)
      → find j (put k v m) ≡ (if k == j then some v else find j m)
  unfolding find put
  find-put k j v [] = refl
  find-put k j v ((i, w) ∷ m) =
      ground (arith, eq_iff k j, eq_iff i j, path_by_compare k i, find-put k j v m)

flip_code : (m n : ℕ) → compare_ℕ m n ≡ Ordering.gt → compare_ℕ n m ≡ Ordering.lt
flip_code m n h = ground arith

tie_code : (m n : ℕ) → compare_ℕ m n ≡ Ordering.eq → compare_ℕ n m ≡ Ordering.eq
tie_code m n h = ground arith

compare_flip : (s t : String) → compare s t ≡ Ordering.gt → compare t s ≡ Ordering.lt
compare_flip String.[] String.[] h = cc
compare_flip String.[] (String.◌∷◌ d t) h = absurd (cc (compare.nil-cons d t))
compare_flip (String.◌∷◌ c s) String.[] h = compare.nil-cons c s
compare_flip (String.◌∷◌ c s) (String.◌∷◌ d t) h = ground (
  arith,
  compare.cons-cons c d s t,
  compare.cons-cons d c t s,
  compare_flip s t,
  flip_code (code c) (code d),
  tie_code (code c) (code d),
)

less_code : (m n : ℕ) → compare_ℕ m n ≡ Ordering.lt → compare_ℕ n m ≡ Ordering.gt
less_code m n h = ground arith

pub compare_flip_lt : (s t : String) → compare s t ≡ Ordering.lt → compare t s ≡ Ordering.gt
compare_flip_lt String.[] String.[] h = cc
compare_flip_lt String.[] (String.◌∷◌ d t) h = compare.cons-nil d t
compare_flip_lt (String.◌∷◌ c s) String.[] h = absurd (cc (compare.cons-nil c s))
compare_flip_lt (String.◌∷◌ c s) (String.◌∷◌ d t) h = ground (
  arith,
  compare.cons-cons c d s t,
  compare.cons-cons d c t s,
  compare_flip_lt s t,
  less_code (code c) (code d),
  tie_code (code c) (code d),
)

compare_code_trans :
    (l m n : ℕ)
    → compare_ℕ l m ≡ Ordering.lt
    → compare_ℕ m n ≡ Ordering.lt
    → compare_ℕ l n ≡ Ordering.lt
compare_code_trans l m n h h' = ground arith

not_below_nil : (t : String) {A : Type 0} → compare t String.[] ≡ Ordering.lt → A
not_below_nil String.[] h = cc
not_below_nil (String.◌∷◌ d t) h = absurd (cc (compare.cons-nil d t))

compare_trans :
    (s t u : String)
    → compare s t ≡ Ordering.lt
    → compare t u ≡ Ordering.lt
    → compare s u ≡ Ordering.lt
compare_trans s t String.[] h h' = not_below_nil t h'
compare_trans s String.[] (String.◌∷◌ e u) h h' = not_below_nil s h
compare_trans String.[] (String.◌∷◌ d t) (String.◌∷◌ e u) h h' = compare.nil-cons e u
compare_trans (String.◌∷◌ c s) (String.◌∷◌ d t) (String.◌∷◌ e u) h h' = ground (
  arith,
  compare.cons-cons c d s t,
  compare.cons-cons d e t u,
  compare.cons-cons c e s u,
  compare_trans s t u,
  compare_code_trans (code c) (code d) (code e),
)

-- Ascending by key, as the red-black tree keeps its nodes.
module _ {ℓ} {V : Type ℓ} where
  abbrev pub Above : String → StdMap V → Type 0
  Above i [] = Unit
  Above i ((j, _) ∷ m) = compare i j ≡ Ordering.lt

  abbrev pub IsSorted : StdMap V → Type 0
  IsSorted [] = Unit
  IsSorted ((j, _) ∷ m) = Above j m × IsSorted m

  put-Above :
      (i k : String) (v : V) (m : StdMap V)
      → compare i k ≡ Ordering.lt
      → Above i m
      → Above i (put k v m)
  unfolding put
  put-Above i k v [] h a = h
  put-Above i k v ((j, w) ∷ m) h a = ground arith

  pub put-IsSorted : (k : String) (v : V) (m : StdMap V) → IsSorted m → IsSorted (put k v m)
  unfolding put
  put-IsSorted k v [] s = (tt, tt)
  put-IsSorted k v ((j, w) ∷ m) (a, s) =
      ground (arith, compare_flip k j, path_by_compare k j, put-IsSorted k v m s, put-Above j k v m)

  pub Above-head : (i j : String) (m : StdMap V) → compare i j ≡ Ordering.lt → Above j m → Above i m
  Above-head i j [] h a = tt
  Above-head i j ((k, v) ∷ m) h a = compare_trans i j k h a

  -- All keys of a map are before this key.
  abbrev Before : String → StdMap V → Type 0
  Before k [] = Unit
  Before k ((j, _) ∷ m) = (compare j k ≡ Ordering.lt) × Before k m

  put_last : (k : String) (v : V) (m : StdMap V) → Before k m → put k v m ≡ m ++ (k, v) ∷ []
  unfolding put
  put_last k v [] b = refl
  put_last k v ((j, w) ∷ m) (h, b) =
      rw (compare_flip_lt j k h, put) (ap (◌∷◌ (j, w)) (put_last k v m b))

  Above-append : (i : String) (m n : StdMap V) → Above i (m ++ n) → IsSorted (m ++ n) → Above i n
  Above-append i [] n a s = a
  Above-append i ((j, w) ∷ m) n a (b, s) = Above-head i j n a (Above-append j m n b s)

  Before-append : (k : String) (v : V) (m n : StdMap V) → IsSorted (m ++ (k, v) ∷ n) → Before k m
  Before-append k v [] n s = tt
  Before-append k v ((j, w) ∷ m) n (a, s) =
      (Above-append j m ((k, v) ∷ n) a s, Before-append k v m n s)

  -- A key that is put into a sorted map behind all its keys goes to the end.
  pub put-sorted :
      (k : String) (v : V) (m n : StdMap V)
      → IsSorted (m ++ (k, v) ∷ n)
      → put k v m ≡ m ++ (k, v) ∷ []
  put-sorted k v m n s = put_last k v m (Before-append k v m n s)
