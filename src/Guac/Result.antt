-- ===== src/Guac/Result.antt =====
-- The errors of wwt/internal/guac as values, one for each place that makes one.
use waas.Prelude.{◌≡◌, refl, Option, none, some}

pub data Error : Type 0 where
  no_length bad_length illegal_length no_value no_separator bad_separator : Error
  too_long malformed_length malformed_separator no_boundary : Error
  not_args not_ready refused write_failed out_of_fuel : Error

-- Go's `(A, error)`
pub data Result {ℓ} (A : Type ℓ) : Type ℓ where
  err : Error → Result A
  ok : A → Result A

-- A failed read, as the error of the place that reads.
abbrev pub or_err {ℓ} : {A : Type ℓ} → Option A → Error → Result A
or_err (some value) reason = ok value
or_err none reason = err reason

-- `if err != nil { return err }`
infixl 5 ◌>>=◌
abbrev pub ◌>>=◌ {ℓ₁ ℓ₂} : {A : Type ℓ₁} {B : Type ℓ₂} → Result A → (A → Result B) → Result B
err reason >>= next = err reason
ok value >>= next = next value

pub err_injective {ℓ} : {A : Type ℓ} (x y : Error) → ◌≡◌ {A = Result A} (err x) (err y) → x ≡ y
err_injective x y p = cc

pub or_err-eq-ok {ℓ} :
    {A : Type ℓ} (o : Option A) (e : Error) {a : A} → or_err o e ≡ ok a → o ≡ some a
or_err-eq-ok none e h = cc
or_err-eq-ok (some a) e h = cc

pub >>=-eq-ok {ℓ₁ ℓ₂} :
    {A : Type ℓ₁} {B : Type ℓ₂} (read : Result A) (next : A → Result B) {result : B}
    → (read >>= next) ≡ ok result
    → (value : A) × (read ≡ ok value) × (next value ≡ ok result)
>>=-eq-ok (err reason) next h = cc
>>=-eq-ok (ok value) next h = (value, refl, h)
