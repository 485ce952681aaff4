-- ===== src/Guac/Framing.antt =====
-- wwt/internal/guac/framing.go: the splitter of the guacd byte stream into whole instructions.
pub mod Fuel
pub mod Element
pub mod Cut
pub mod Stream
pub mod Frames
pub mod Total
use waas.Prelude.{
  ℕ, zero, suc, ◌+◌, ◌-◌, ◌*◌, Bool, true, false, not, ◌||◌, List, [], ◌∷◌, ◌++◌, Option, none,
  some, Bytes, codes, length, take, drop, ltb, leb, ◌==◌, if◌then◌else◌, has_prefix,
}
use waas.Guac.Utf8.{decode_rune, full_rune}
use waas.Guac.Decimal.{is_digit}
use waas.Guac.Result.{
  Error, too_long, malformed_length, malformed_separator, no_boundary, out_of_fuel, Result, ok, err,
}
use waas.Guac.Instruction.{max_pending_bytes}

-- How a step of the scan ends: the input is over first, the stream is malformed, or a value.
pub data Scan {ℓ} (A : Type ℓ) : Type ℓ where
  more : Scan A
  bad : Error → Scan A
  got : A → Scan A

-- the loop over the length digits, and the test for the dot behind them
unfoldable pub scan_length : ℕ → ℕ → ℕ → Bytes → Scan (ℕ × ℕ × Bytes)
scan_length len digits p [] = more
scan_length len digits p (c ∷ b) =
    let len' = len * 10 + (c - b'0') in
    let rest = scan_length len' (digits + 1) (p + 1) b in
    if is_digit c
    then (if ltb max_pending_bytes len' then bad too_long else rest)
    else if digits == 0 || not (c == b'.')
    then bad malformed_length
    else got (len, p + 1, b)

-- the width of the next code point, with the ASCII case peeled off
abbrev rune_width : Bytes → ℕ
rune_width [] = 0
rune_width (c ∷ b) = if ltb c 0x80 then 1 else (decode_rune (c ∷ b)).1

-- the loop over the code points of an element
unfoldable pub skip_runes : ℕ → ℕ → Bytes → Scan (ℕ × Bytes)
skip_runes zero p b = got (p, b)
skip_runes (suc n) p [] = more
skip_runes (suc n) p (c ∷ b) =
    let size = rune_width (c ∷ b) in
    let rest = skip_runes n (p + size) (drop size (c ∷ b)) in
    if ltb c 0x80 || full_rune (c ∷ b) then rest else more

-- the switch on the separator; `next` is the rest of the loop
unfoldable pub after_value : (ℕ → ℕ → Bytes → Result ℕ) → ℕ → ℕ → Bytes → Result ℕ
after_value next last p [] = ok last
after_value next last p (c ∷ b) =
    if c == b','
    then next (p + 1) last b
    else if c == b';'
    then next (p + 1) (p + 1) b
    else err malformed_separator

unfoldable pub after_skip : (ℕ → ℕ → Bytes → Result ℕ) → ℕ → Scan (ℕ × Bytes) → Result ℕ
unfolding after_value
after_skip next last more = ok last
after_skip next last (bad e) = err e
after_skip next last (got (p, b)) = after_value next last p b

unfoldable pub after_length : (ℕ → ℕ → Bytes → Result ℕ) → ℕ → Scan (ℕ × ℕ × Bytes) → Result ℕ
unfolding after_skip skip_runes
after_length next last more = ok last
after_length next last (bad e) = err e
after_length next last (got (len, p, b)) = after_skip next last (skip_runes len p b)

-- the loop of `completePrefix` from offset `p`, on the bytes from there on
unfoldable pub complete_from : ℕ → ℕ → ℕ → Bytes → Result ℕ
complete_from zero p last b = err out_of_fuel
complete_from (suc f) p last [] = ok last
complete_from (suc f) p last (c ∷ b) =
    after_length (complete_from f) last (scan_length 0 0 p (c ∷ b))

-- `completePrefix`: every round takes a byte at least, so the fuel is never used up.
unfoldable pub complete_prefix : Bytes → Result ℕ
unfolding complete_from after_length scan_length
complete_prefix b = complete_from (suc (length b)) 0 0 b

pub record Framer : Type 0 where
  pub buf : Bytes
  pub start : ℕ

abbrev pub new_framer : Framer
new_framer = record { buf = []; start = 0 }

-- the emitted prefix dropped from the buffer, and the new bytes behind what is left
abbrev pub refill : Framer → Bytes → Bytes
refill f input = (if ltb 0 f.start then drop f.start f.buf else f.buf) ++ input

-- what `Push` makes of the length of the complete prefix
unfoldable pub emit : Bytes → Result ℕ → Framer × Result (Option Bytes)
emit buf (err e) = (record { buf = buf; start = 0 }, err e)
emit buf (ok zero) = (
  record { buf = buf; start = 0 },
  if ltb max_pending_bytes (length buf) then err no_boundary else ok none,
)
emit buf (ok (suc n)) = (record { buf = buf; start = suc n }, ok (some (take (suc n) buf)))

-- `(*Framer).Push`
unfoldable pub push : Framer → Bytes → Framer × Result (Option Bytes)
unfolding emit
push f input = let buf = refill f input in emit buf (complete_prefix buf)

unfoldable pub is_internal_ping : Bytes → Bool
is_internal_ping msg = has_prefix msg (codes "0.,4.ping,")

unfoldable pub is_internal_message : Bytes → Bool
is_internal_message msg = has_prefix msg (codes "0.,") || has_prefix msg (codes "0.;")
