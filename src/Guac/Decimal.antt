-- ===== src/Guac/Decimal.antt =====
-- What the wire code uses of `fmt` and `strconv`: decimal numbers to bytes and back.
pub mod Digits
use waas.Prelude.{
  ℕ, zero, suc, ◌+◌, ◌-◌, ◌*◌, ◌/◌, ◌%◌, Bool, ◌&&◌, List, [], ◌∷◌, ◌++◌, Option, none, some, Bytes,
  ltb, leb, ◌==◌, if◌then◌else◌,
}

-- `%d` of a number that is not negative. The fuel `n + 1` is enough, as each round divides by ten.
unfoldable pub decimal_fuel : ℕ → ℕ → Bytes
decimal_fuel zero n = []
decimal_fuel (suc f) n =
    let more = decimal_fuel f (n / 10) in
    if ltb n 10 then (48 + n) ∷ [] else more ++ (48 + n % 10) ∷ []

unfoldable pub decimal : ℕ → Bytes
unfolding decimal_fuel
decimal n = decimal_fuel (suc n) n

-- An `int` of Go; `negsuc n` is -(n + 1).
pub data ℤ : Type 0 where
  pos : ℕ → ℤ
  negsuc : ℕ → ℤ

abbrev pub is_digit : ℕ → Bool
is_digit c = leb 48 c && leb c 57

unfoldable pub digits_value : ℕ → Bytes → Option ℕ
digits_value n [] = some n
digits_value n (c ∷ cs) = if is_digit c then digits_value (n * 10 + (c - 48)) cs else none

unfoldable pub unsigned : Bytes → Option ℕ
unfolding digits_value
unsigned [] = none
unsigned (c ∷ cs) = digits_value 0 (c ∷ cs)

abbrev pub int_limit : ℕ
int_limit = 9223372036854775808

-- the magnitude, in the range of a 64-bit int
unfoldable pub in_int : Option ℕ → Option ℤ
in_int none = none
in_int (some n) = if ltb n int_limit then some (pos n) else none

unfoldable pub in_negative_int : Option ℕ → Option ℤ
in_negative_int none = none
in_negative_int (some zero) = some (pos 0)
in_negative_int (some (suc n)) = if ltb n int_limit then some (negsuc n) else none

-- `strconv.Atoi`: an optional sign, digits, and the range of a 64-bit int.
unfoldable pub atoi : Bytes → Option ℤ
unfolding unsigned in_int in_negative_int
atoi [] = none
atoi (c ∷ cs) =
    if c == b'+'
    then in_int (unsigned cs)
    else if c == b'-'
    then in_negative_int (unsigned cs)
    else in_int (unsigned (c ∷ cs))
