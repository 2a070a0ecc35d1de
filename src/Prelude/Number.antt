-- ===== src/Prelude/Number.antt =====
-- C++'s `int`, `std::to_string` and `std::stoi`, over the native numbers.
pub mod RoundTrip
use Prim.Native.String.{[], ◌∷◌}
use upnp.Prelude.Basics.{
  ℕ, zero, suc, ◌+◌, ◌-◌, ◌*◌, ◌/◌, ◌%◌, ◌≤◌, ◌<◌, Char, code, String, ◌≡◌, refl, ◌∙◌, ap, Bool,
  true, false, ◌&&◌, ◌||◌, nat_eq, ltb, leb, arith, if◌then◌else◌,
}
use upnp.Prelude.Outcome.{Result, ok, err, invalid_argument, out_of_range, overflow, ◌>>=◌}

-- `negsuc n` is -(n + 1).
pub data ℤ : Type 0 where
  pos : ℕ → ℤ
  negsuc : ℕ → ℤ

abbrev pub pos_part : ℤ → ℕ
pos_part (pos n) = n
pos_part (negsuc n) = 0

abbrev pub neg_part : ℤ → ℕ
neg_part (pos n) = 0
neg_part (negsuc n) = suc n

-- a - b, as an integer.
abbrev pub sub_ℕ : ℕ → ℕ → ℤ
sub_ℕ a b = if leb b a then pos (a - b) else negsuc (b - a - 1)

infixl 65 ◌+ℤ◌
unfoldable pub ◌+ℤ◌ : ℤ → ℤ → ℤ
a +ℤ b = sub_ℕ (pos_part a + pos_part b) (neg_part a + neg_part b)

-- `int` has 32 bits.
abbrev pub int_limit : ℕ
int_limit = 2147483648

unfoldable pub in_int : ℤ → Bool
in_int (pos n) = ltb n int_limit
in_int (negsuc n) = ltb n int_limit

-- Signed overflow is undefined behaviour.
unfoldable pub int_add : ℤ → ℤ → Result ℤ
unfolding in_int ◌+ℤ◌
int_add a b = if in_int (a +ℤ b) then ok (a +ℤ b) else err overflow

unfoldable pub digit : ℕ → Char
digit zero = "0"
digit (suc zero) = "1"
digit (suc (suc zero)) = "2"
digit (suc (suc (suc zero))) = "3"
digit (suc (suc (suc (suc zero)))) = "4"
digit (suc (suc (suc (suc (suc zero))))) = "5"
digit (suc (suc (suc (suc (suc (suc zero)))))) = "6"
digit (suc (suc (suc (suc (suc (suc (suc zero))))))) = "7"
digit (suc (suc (suc (suc (suc (suc (suc (suc zero)))))))) = "8"
digit (suc (suc (suc (suc (suc (suc (suc (suc (suc n))))))))) = "9"

-- The decimal digits of `n` in front of `out`; `n` rounds are enough.
emit : ℕ → ℕ → String → String
unfolding digit
emit zero n out = out
emit (suc f) n out =
    let rest = emit f (n / 10) (digit (n % 10) ∷ out) in if nat_eq n 0 then out else rest

unfoldable pub of_ℕ : ℕ → String
unfolding emit
of_ℕ n = if nat_eq n 0 then "0" else emit n n ""

-- std::to_string
unfoldable pub to_string : ℤ → String
unfolding of_ℕ
to_string (pos n) = of_ℕ n
to_string (negsuc n) = "-" ∷ of_ℕ (suc n)

unfoldable pub is_digit : Char → Bool
is_digit c = leb 48 (code c) && leb (code c) 57

-- The value of the leading digits, after those read so far.
scan : String → ℕ → ℕ
unfolding is_digit
scan [] n = n
scan (c ∷ s) n = if is_digit c then scan s (n * 10 + (code c - 48)) else n

magnitude : String → Result ℕ
unfolding scan
magnitude [] = err invalid_argument
magnitude (c ∷ s) = if is_digit c then ok (scan (c ∷ s) 0) else err invalid_argument

is_space : Char → Bool
is_space c = nat_eq (code c) 32 || (leb 9 (code c) && leb (code c) 13)

skip_space : String → String
unfolding is_space
skip_space [] = []
skip_space (c ∷ s) = let rest = skip_space s in if is_space c then rest else c ∷ s

fit_int : ℤ → Result ℤ
unfolding in_int
fit_int z = if in_int z then ok z else err out_of_range

negate : ℕ → ℤ
negate zero = pos zero
negate (suc n) = negsuc n

signed : String → Result ℤ
unfolding magnitude negate
signed [] = err invalid_argument
signed (c ∷ s) =
    if nat_eq (code c) 45
    then (magnitude s >>= λ n. ok (negate n))
    else if nat_eq (code c) 43
    then (magnitude s >>= λ n. ok (pos n))
    else (magnitude (c ∷ s) >>= λ n. ok (pos n))

-- The number at the front of a text, of any size.
unfoldable pub read_integer : String → Result ℤ
unfolding skip_space signed
read_integer s = signed (skip_space s)

-- std::stoi: leading white space, a sign, digits; what follows them is not read.
unfoldable pub stoi : String → Result ℤ
unfolding read_integer fit_int
stoi s = read_integer s >>= fit_int

stoi_tests :
    (stoi " 12x" ≡ ok (pos 12))
    × (stoi "-1" ≡ ok (negsuc 0))
    × (stoi "x" ≡ err invalid_argument)
    × (stoi "2147483648" ≡ err out_of_range)
    × (to_string (negsuc 1799) ≡ "-1800")
    × (to_string (pos 0) ≡ "0")
unfolding stoi to_string
stoi_tests = (refl, refl, refl, refl, refl, refl)
