-- ===== src/Guac/Utf8.antt =====
-- What the wire code uses of Go's `unicode/utf8`: runes to bytes and back, with the replacement
-- rune of width one for a malformed sequence. Bytes are numbers below 256.
pub mod RoundTrip
use waas.Prelude.{
  ℕ, zero, suc, ◌+◌, ◌-◌, ◌*◌, ◌/◌, ◌%◌, ◌<◌, ◌≤◌, ◌≡◌, refl, ◌⊎◌, Bool, true, false, ◌&&◌, ◌||◌,
  List, [], ◌∷◌, ◌++◌, Bytes, ltb, leb, ◌==◌, if◌then◌else◌,
}

abbrev pub rune_error : ℕ
rune_error = 0xFFFD

-- A code point that has an encoding: no surrogate, and below 0x110000.
abbrev pub IsRune : ℕ → Type 0
IsRune r = (r < 0x110000) × ((r < 0xD800) ⊎ (0xE000 ≤ r))

-- `utf8.AppendRune` of a valid rune; the masks and shifts as arithmetic.
unfoldable pub encode_rune : ℕ → Bytes
encode_rune r =
    if ltb r 0x80
    then r ∷ []
    else if ltb r 0x800
    then (0xC0 + r / 64) ∷ (0x80 + r % 64) ∷ []
    else if ltb r 0x10000
    then (0xE0 + r / 4096) ∷ (0x80 + r / 64 % 64) ∷ (0x80 + r % 64) ∷ []
    else (0xF0 + r / 262144) ∷ (0x80 + r / 4096 % 64) ∷ (0x80 + r / 64 % 64) ∷ (0x80 + r % 64) ∷ []

-- What the first byte says: the length of the sequence and the range of the second byte.
pub data Lead : Type 0 where
  ascii invalid two : Lead
  three four : ℕ → ℕ → Lead

unfoldable pub lead : ℕ → Lead
lead b =
    if ltb b 0x80
    then ascii
    else if ltb b 0xC2
    then invalid
    else if ltb b 0xE0
    then two
    else if b == 0xE0
    then three 0xA0 0xBF
    else if b == 0xED
    then three 0x80 0x9F
    else if ltb b 0xF0
    then three 0x80 0xBF
    else if b == 0xF0
    then four 0x90 0xBF
    else if ltb b 0xF4
    then four 0x80 0xBF
    else if b == 0xF4
    then four 0x80 0x8F
    else invalid

abbrev within : ℕ → ℕ → ℕ → Bool
within lo hi b = leb lo b && leb b hi

abbrev continues : ℕ → Bool
continues = within 0x80 0xBF

-- `utf8.DecodeRune` behind the first byte: the rune and its width.
unfoldable pub decode_with : Lead → ℕ → Bytes → ℕ × ℕ
decode_with ascii b0 _ = (b0, 1)
decode_with two b0 (b1 ∷ _) = if continues b1 then (b0 % 32 * 64 + b1 % 64, 2) else (rune_error, 1)
decode_with (three lo hi) b0 (b1 ∷ b2 ∷ _) =
    if within lo hi b1 && continues b2
    then (b0 % 16 * 4096 + b1 % 64 * 64 + b2 % 64, 3)
    else (rune_error, 1)
decode_with (four lo hi) b0 (b1 ∷ b2 ∷ b3 ∷ _) =
    if within lo hi b1 && (continues b2 && continues b3)
    then (b0 % 8 * 262144 + b1 % 64 * 4096 + b2 % 64 * 64 + b3 % 64, 4)
    else (rune_error, 1)
decode_with _ _ _ = (rune_error, 1)

-- `utf8.DecodeRune`; of an empty slice the width is 0.
unfoldable pub decode_rune : Bytes → ℕ × ℕ
unfolding decode_with lead
decode_rune [] = (rune_error, 0)
decode_rune (b0 ∷ rest) = decode_with (lead b0) b0 rest

-- `utf8.FullRune` behind the first byte: a malformed start is a full rune of width one.
unfoldable pub full_with : Lead → Bytes → Bool
full_with two [] = false
full_with (three lo hi) [] = false
full_with (three lo hi) (b1 ∷ []) = if within lo hi b1 then false else true
full_with (four lo hi) [] = false
full_with (four lo hi) (b1 ∷ []) = if within lo hi b1 then false else true
full_with (four lo hi) (b1 ∷ b2 ∷ []) = if within lo hi b1 && continues b2 then false else true
full_with _ _ = true

unfoldable pub full_rune : Bytes → Bool
unfolding full_with lead
full_rune [] = false
full_rune (b0 ∷ rest) = full_with (lead b0) rest

-- `string(runes)`
unfoldable pub encode_runes : List ℕ → Bytes
encode_runes [] = []
encode_runes (r ∷ rs) = encode_rune r ++ encode_runes rs
