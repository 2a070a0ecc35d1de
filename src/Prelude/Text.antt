-- ===== src/Prelude/Text.antt =====
-- `std::string` as a native text: the members and C functions that the program calls on it.
use upnp.Prelude.Basics.{
  Char, code, String, ◌≡◌, refl, ap, inl, inr, Bool-cases, Bool, true, false, ◌&&◌, ◌||◌, Option,
  none, some, nat_eq, arith, if◌then◌else◌,
}
use Prim.Native.String.{[], ◌∷◌, ◌++◌}
use text.Mathlib.TextLemmas.{nil-append, cons-append}

-- s.empty()
unfoldable pub is_empty : String → Bool
is_empty [] = true
is_empty (c ∷ s) = false

-- A text read through a `const char*` ends before its first NUL.
unfoldable pub c_str : String → String
c_str [] = []
c_str (c ∷ s) = let rest = c_str s in if nat_eq (code c) 0 then [] else c ∷ rest

pub c_str_idem : (s : String) → c_str (c_str s) ≡ c_str s
unfolding c_str
c_str_idem [] = refl
c_str_idem (c ∷ s) = elim (Bool-cases (nat_eq (code c) 0)) [
  | inl e ↦ rw e
  | inr e ↦ rw e (rw e (ap (◌∷◌ c) (c_str_idem s)))
]

-- Whether `s` begins with `t`.
unfoldable pub begins_with : String → String → Bool
begins_with s [] = true
begins_with [] (d ∷ t) = false
begins_with (c ∷ s) (d ∷ t) = nat_eq (code c) (code d) && begins_with s t

-- s.find( t ) != npos
unfoldable pub contains : String → String → Bool
unfolding begins_with
contains [] t = begins_with [] t
contains (c ∷ s) t = begins_with (c ∷ s) t || contains s t

begins_with-append : (t u : String) → begins_with (t ++ u) t ≡ true
unfolding begins_with
begins_with-append [] u = refl
begins_with-append (c ∷ t) u = rw cons-append (ground (arith, begins_with-append t u))

contains_of_begins_with : (s t : String) → begins_with s t ≡ true → contains s t ≡ true
unfolding contains
contains_of_begins_with [] t h = h
contains_of_begins_with (c ∷ s) t h = rw h

pub contains-append : (s t u : String) → contains (s ++ (t ++ u)) t ≡ true
unfolding contains
contains-append [] t u = rw nil-append (contains_of_begins_with (t ++ u) t (begins_with-append t u))
contains-append (c ∷ s) t u = rw cons-append (ground (arith, contains-append s t u))

-- s.substr( t.size() ) of a text `s` that begins with `t`
unfoldable pub drop_prefix : String → String → String
drop_prefix s [] = s
drop_prefix [] (d ∷ t) = []
drop_prefix (c ∷ s) (d ∷ t) = drop_prefix s t

pub drop_prefix-append : (t u : String) → drop_prefix (t ++ u) t ≡ u
unfolding drop_prefix
drop_prefix-append [] u = nil-append u
drop_prefix-append (c ∷ t) u = rw cons-append (drop_prefix-append t u)

pub begins_with_self : (t u : String) → begins_with (t ++ u) t ≡ true
begins_with_self = begins_with-append

-- s.at( 0 )
unfoldable pub first : String → Option Char
first [] = none
first (c ∷ s) = some c

-- s.erase( 0, 1 )
unfoldable pub drop_first : String → String
drop_first [] = []
drop_first (c ∷ s) = s

-- s.at( s.length() - 1 )
unfoldable pub last : String → Option Char
last [] = none
last (c ∷ []) = some c
last (c ∷ (d ∷ s)) = last (d ∷ s)

-- s.erase( s.length() - 1 )
unfoldable pub drop_last : String → String
drop_last [] = []
drop_last (c ∷ []) = []
drop_last (c ∷ (d ∷ s)) = c ∷ drop_last (d ∷ s)

pub last-concat : (s : String) (c : Char) → last (s ++ c ∷ []) ≡ some c
unfolding last
last-concat [] c = rw nil-append
last-concat (d ∷ []) c = rw (cons-append, nil-append)
last-concat (d ∷ (e ∷ s)) c =
    rw (cons-append, cons-append) (rw cons-append at (last-concat (e ∷ s) c))

pub drop_last-concat : (s : String) (c : Char) → drop_last (s ++ c ∷ []) ≡ s
unfolding drop_last
drop_last-concat [] c = rw nil-append
drop_last-concat (d ∷ []) c = rw (cons-append, nil-append)
drop_last-concat (d ∷ (e ∷ s)) c =
    rw (cons-append, cons-append) (ap (◌∷◌ d) (rw cons-append at (drop_last-concat (e ∷ s) c)))
