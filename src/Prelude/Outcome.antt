-- ===== src/Prelude/Outcome.antt =====
-- What a C++ call may do instead of returning: throw, fail an `assert`, or run into undefined
-- behaviour. A chain of such calls is a `do` block.
use mathlib.Core.Path.{◌≡◌, refl}
use mathlib.Core.Logic.{◌⊎◌, inl, inr}

-- `overflow` is that of a signed integer, `null_pointer` a read through a null pointer, `assertion` a
-- failed `assert`.
pub data Fault : Type 0 where
  out_of_range invalid_argument bad_cast parse_error system_error overflow null_pointer assertion
        redis_error :
      Fault

pub data Result {ℓ} (A : Type ℓ) : Type ℓ where
  ok : A → Result A
  err : Fault → Result A

module _ {ℓ κ} {A : Type ℓ} {B : Type κ} where
  infixl 5 ◌>>=◌ ◌>>◌
  abbrev pub ◌>>=◌ : Result A → (A → Result B) → Result B
  err fault >>= next = err fault
  ok value >>= next = next value

  abbrev pub ◌>>◌ : Result A → Result B → Result B
  call >> next = call >>= λ value. next

  -- A chain that returns has a first call that returns, and goes on from its value.
  pub >>=-eq-ok :
      (call : Result A) (next : A → Result B) {b : B}
      → (call >>= next) ≡ ok b
      → (value : A) × (call ≡ ok value) × (next value ≡ ok b)
  >>=-eq-ok (err fault) next returned = cc
  >>=-eq-ok (ok value) next returned = (value, refl, returned)

pub Result-cases {ℓ} :
    {A : Type ℓ} (result : Result A)
    → ((value : A) × (result ≡ ok value)) ⊎ ((fault : Fault) × (result ≡ err fault))
Result-cases (ok value) = inl (value, refl)
Result-cases (err fault) = inr (fault, refl)
