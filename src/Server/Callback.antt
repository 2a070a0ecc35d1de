-- ===== src/Server/Callback.antt =====
-- The callback URL of a subscription, as `Server::cds` and `Server::cms` strip it of its brackets.
use Prim.Native.String.{◌++◌}
use upnp.Prelude.{
  ℕ, Char, code, String, ◌≡◌, ◌≢◌, ◌↔◌, inl, inr, refl, sym, ap, subst, ◌∙◌, Bool-cases, Bool, true,
  false, Option, none, some, nat_eq, Result, ok, err, out_of_range, arith, if◌then◌else◌,
}
use text.Mathlib.TextEquality.{Char-path}
use text.Mathlib.TextLemmas.{nil-append, cons-append}
use upnp.Prelude.Text.{first, drop_first, last, drop_last, last-concat, drop_last-concat}

-- Whether a character is there and has this code.
abbrev is_char : ℕ → Option Char → Bool
is_char n none = false
is_char n (some c) = nat_eq (code c) n

-- The first `if`: an opening bracket is erased.
unfoldable pub open_erased : String → String
unfolding first drop_first
open_erased callback = if is_char b'<' (first callback) then drop_first callback else callback

-- The second `if`: `at( length() - 1 )` throws on an empty text.
unfoldable pub close_erased : String → Result String
unfolding last drop_last
close_erased callback = elim (last callback) [
  | none ↦ err out_of_range
  | some c ↦ ok (if nat_eq (code c) b'>' then drop_last callback else callback)
]

unfoldable pub strip : String → Result String
unfolding open_erased close_erased
strip callback = close_erased (open_erased callback)

open_erased_bracket : (s : String) → open_erased ("<" ++ s) ≡ s
unfolding open_erased
open_erased_bracket s = ap open_erased (cons-append "<" "" s ∙ ap (String.◌∷◌ "<") (nil-append s))

close_erased_bracket : (s : String) → close_erased (s ++ ">") ≡ ok s
unfolding close_erased
close_erased_bracket s = rw (last-concat s ">", close_erased) (rw (drop_last-concat s ">"))

-- A URL in angle brackets is stripped of both.
pub strip_brackets : (url : String) → strip ("<" ++ (url ++ ">")) ≡ ok url
unfolding strip
strip_brackets url = rw (open_erased_bracket (url ++ ">")) (close_erased_bracket url)

last-some : (c : Char) (s : String) → (d : Char) × (last (String.◌∷◌ c s) ≡ some d)
unfolding last
last-some c String.[] = (c, refl)
last-some c (String.◌∷◌ d s) = last-some d s

close_erased-ne-err : (c : Char) (s : String) → close_erased (String.◌∷◌ c s) ≢ err out_of_range
unfolding close_erased
close_erased-ne-err c s h = let (d, e) = last-some c s in cc (rw (e, close_erased) at h)

is_open : (c : Char) → nat_eq (code c) b'<' ≡ true → c ≡ "<"
is_open c h = Char-path c "<" (ground arith)

strip_open : {cb : String} → cb ≡ "<" → strip cb ≡ err out_of_range
unfolding strip
strip_open h = subst (λ cb. strip cb ≡ err out_of_range) (sym h) refl

-- Of the callbacks that are not empty, exactly the single opening bracket makes the stripping
-- throw.
pub strip-err_iff : (cb : String) → cb ≢ "" → (strip cb ≡ err out_of_range) ↔ (cb ≡ "<")
unfolding strip
strip-err_iff String.[] ne = absurd (ne refl)
strip-err_iff (String.◌∷◌ c String.[]) ne = elim (Bool-cases (nat_eq (code c) b'<')) [
  | inl e ↦ (λ h. ap (λ a. String.◌∷◌ a "") (is_open c e), strip_open)
  | inr e ↦ (λ h. absurd (close_erased-ne-err c "" (rw e at h)), strip_open)
]
strip-err_iff (String.◌∷◌ c (String.◌∷◌ d s)) ne = (
  λ h. elim (Bool-cases (nat_eq (code c) b'<')) [
    | inl e ↦ absurd (close_erased-ne-err d s (rw e at h))
    | inr e ↦ absurd (close_erased-ne-err c (String.◌∷◌ d s) (rw e at h))
  ],
  λ h. cc,
)
