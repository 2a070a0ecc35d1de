-- ===== src/Prelude/Number/RoundTrip.antt =====
-- `stoi` reads back what `to_string` prints.
use Prim.Native.String.{[], ◌∷◌}
use upnp.Prelude.Basics.{
  ℕ, zero, suc, ◌+◌, ◌/◌, ◌%◌, ◌≤◌, ◌<◌, code, String, ◌≡◌, refl, ◌∙◌, true, arith,
}
use upnp.Prelude.Outcome.{ok}
use upnp.Prelude.Number.{
  ℤ, pos, negsuc, in_int, digit, emit, of_ℕ, to_string, is_digit, scan, magnitude, skip_space,
  negate, signed, fit_int, stoi, read_integer,
}

code-digit : (d : ℕ) → d < 10 → code (digit d) ≡ 48 + d
unfolding digit
code-digit zero h = refl
code-digit (suc zero) h = refl
code-digit (suc (suc zero)) h = refl
code-digit (suc (suc (suc zero))) h = refl
code-digit (suc (suc (suc (suc zero)))) h = refl
code-digit (suc (suc (suc (suc (suc zero))))) h = refl
code-digit (suc (suc (suc (suc (suc (suc zero)))))) h = refl
code-digit (suc (suc (suc (suc (suc (suc (suc zero))))))) h = refl
code-digit (suc (suc (suc (suc (suc (suc (suc (suc zero)))))))) h = refl
code-digit (suc (suc (suc (suc (suc (suc (suc (suc (suc n))))))))) h = omega arith

-- Reading the last digit of `n` after the digits before it gives `n`.
scan_last : (n : ℕ) (out : String) → scan (digit (n % 10) ∷ out) (n / 10) ≡ scan out n
unfolding scan is_digit
scan_last n out = ground (arith, code-digit (n % 10))

is_digit-digit : (n : ℕ) → is_digit (digit (n % 10)) ≡ true
unfolding is_digit
is_digit-digit n = ground (arith, code-digit (n % 10))

scan-emit : (f n : ℕ) (out : String) → n ≤ f → scan (emit f n out) 0 ≡ scan out n
unfolding emit
scan-emit zero n out h = let e : n ≡ 0 = omega arith in rw e
scan-emit (suc f) n out h =
    ground (arith, scan-emit f (n / 10) (digit (n % 10) ∷ out), scan_last n out)

-- A text that begins with a digit.
abbrev StartsDigit : String → Type 0
StartsDigit [] = ⊥
StartsDigit (c ∷ s) = is_digit c ≡ true

emit-StartsDigit : (f n : ℕ) (out : String) → StartsDigit out → StartsDigit (emit f n out)
unfolding emit
emit-StartsDigit zero n out h = h
emit-StartsDigit (suc f) n out h =
    ground (arith, emit-StartsDigit f (n / 10) (digit (n % 10) ∷ out), is_digit-digit n)

of_ℕ-suc : (n : ℕ) → of_ℕ (suc n) ≡ emit n (suc n / 10) (digit (suc n % 10) ∷ "")
unfolding of_ℕ emit
of_ℕ-suc n = ground arith

of_ℕ-StartsDigit : (n : ℕ) → StartsDigit (of_ℕ n)
unfolding of_ℕ is_digit
of_ℕ-StartsDigit zero = refl
of_ℕ-StartsDigit (suc n) =
    rw of_ℕ-suc (emit-StartsDigit n (suc n / 10) (digit (suc n % 10) ∷ "") (is_digit-digit (suc n)))

scan-of_ℕ : (n : ℕ) → scan (of_ℕ n) 0 ≡ n
unfolding of_ℕ scan
scan-of_ℕ zero = refl
scan-of_ℕ (suc n) = rw of_ℕ-suc (scan-emit n (suc n / 10) _ (omega arith) ∙ scan_last (suc n) "")

-- On a text that begins with a digit nothing is skipped, and no sign is read.
signed-StartsDigit : (s : String) → StartsDigit s → signed (skip_space s) ≡ ok (pos (scan s 0))
unfolding signed skip_space magnitude is_digit
signed-StartsDigit [] h = absurd h
signed-StartsDigit (c ∷ s) h = ground arith

signed-minus : (s : String) → StartsDigit s → signed (skip_space ("-" ∷ s)) ≡ ok (negate (scan s 0))
unfolding signed skip_space magnitude
signed-minus [] h = absurd h
signed-minus (c ∷ s) h = ground arith

-- Every integer is read back from its decimal print.
pub read_integer-to_string : (z : ℤ) → read_integer (to_string z) ≡ ok z
unfolding read_integer to_string
read_integer-to_string (pos n) = rw (signed-StartsDigit (of_ℕ n) (of_ℕ-StartsDigit n), scan-of_ℕ n)
read_integer-to_string (negsuc n) =
    rw (signed-minus (of_ℕ (suc n)) (of_ℕ-StartsDigit (suc n)), scan-of_ℕ (suc n))
      (unfold negate in refl)

-- Every `int` is read back from its decimal print by `stoi`.
pub stoi-to_string : (z : ℤ) → in_int z ≡ true → stoi (to_string z) ≡ ok z
unfolding stoi fit_int
stoi-to_string z h = rw (read_integer-to_string z, h)
