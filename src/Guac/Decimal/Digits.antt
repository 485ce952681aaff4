-- ===== src/Guac/Decimal/Digits.antt =====
-- What `decimal` writes, as `digits_value` and `atoi` read it.
use waas.Prelude.{
  ℕ, zero, suc, ◌+◌, ◌/◌, ◌%◌, ◌<◌, ◌≤◌, ◌≡◌, refl, ◌∙◌, ◌≢◌, [], ◌∷◌, ◌++◌, some, Bytes, All,
  All-append, arith, append_assoc, append-nil, inl, inr, Bool-cases, ltb,
}
use waas.Guac.Decimal.{decimal_fuel, decimal, pos, digits_value, atoi, in_int}

abbrev pub IsDigit : ℕ → Type 0
IsDigit c = (48 ≤ c) × (c ≤ 57)

decimal_fuel-digits : (f n : ℕ) → All IsDigit (decimal_fuel f n)
unfolding decimal_fuel
decimal_fuel-digits zero n = tt
decimal_fuel-digits (suc f) n = elim (Bool-cases (ltb n 10)) [
  | inl small ↦ rw small ((ground arith, ground arith), tt)
  | inr large ↦ rw large (
      All-append IsDigit (decimal_fuel f (n / 10)) ((48 + n % 10) ∷ [])
        (decimal_fuel-digits f (n / 10)) ((ground arith, ground arith), tt))
]

pub decimal-digits : (n : ℕ) → All IsDigit (decimal n)
unfolding decimal
decimal-digits n = decimal_fuel-digits (suc n) n

digits_value-decimal_fuel :
    (f n : ℕ) (rest : Bytes)
    → n < f
    → digits_value 0 (decimal_fuel f n ++ rest) ≡ digits_value n rest
unfolding decimal_fuel digits_value
digits_value-decimal_fuel zero n rest h = absurd (omega arith)
digits_value-decimal_fuel (suc f) n rest h = elim (Bool-cases (ltb n 10)) [
  | inl small ↦ rw small (ground arith)
  | inr large ↦
      rw (large, append_assoc)
        (digits_value-decimal_fuel f (n / 10) ((48 + n % 10) ∷ rest) (ground arith) ∙ ground arith)
]

pub digits_value-decimal : (n : ℕ) → digits_value 0 (decimal n) ≡ some n
unfolding decimal digits_value
digits_value-decimal n =
    rw (← append-nil (decimal_fuel (suc n) n))
      (digits_value-decimal_fuel (suc n) n [] (omega arith))

decimal_fuel-ne-nil : (f n : ℕ) → n < f → decimal_fuel f n ≢ []
unfolding decimal_fuel
decimal_fuel-ne-nil zero n h e = absurd (omega arith)
decimal_fuel-ne-nil (suc f) n h e = elim (Bool-cases (ltb n 10)) [
  | inl small ↦ cc (rw small at e)
  | inr large ↦ snoc_ne (decimal_fuel f (n / 10)) (48 + n % 10) (rw large at e)
]
  where
    snoc_ne : (xs : Bytes) (x : ℕ) → xs ++ x ∷ [] ≢ []
    snoc_ne [] x p = cc
    snoc_ne (y ∷ ys) x p = cc

atoi_digits :
    (b : Bytes) (n : ℕ)
    → b ≢ []
    → All IsDigit b
    → digits_value 0 b ≡ some n
    → atoi b ≡ in_int (some n)
unfolding atoi digits_value
atoi_digits [] n ne d h = absurd (ne refl)
atoi_digits (c ∷ cs) n ne d h = ground arith

-- `Atoi` reads a printed number back, in the range of a 64-bit int.
pub atoi-decimal : (n : ℕ) → n < 9223372036854775808 → atoi (decimal n) ≡ some (pos n)
unfolding in_int
atoi-decimal n h =
    atoi_digits (decimal n) n (unfold decimal in decimal_fuel-ne-nil (suc n) n (omega arith))
      (decimal-digits n) (digits_value-decimal n)
    ∙ ground arith
