-- ===== src/Guac/Framing/Element.antt =====
-- The scan over one element that the wire can carry, and over a cut one.
use waas.Prelude.{
  ℕ, zero, suc, ◌+◌, ◌/◌, ◌%◌, ◌<◌, ◌≤◌, ◌≡◌, refl, ◌∙◌, ◌≢◌, ap, inl, inr, List, [], ◌∷◌, ◌++◌,
  Bytes, All, arith, length, drop, true, Bool-cases, ltb, append_assoc, length-append,
  drop-append_length,
}
use waas.Guac.Utf8.{IsRune, encode_rune, decode_rune, full_rune, encode_runes}
use waas.Guac.Utf8.RoundTrip.{decode_rune-encode_rune, full_rune-encode_rune, encode_rune-ne-nil}
use waas.Guac.Decimal.{decimal_fuel, decimal}
use waas.Guac.Instruction.{max_pending_bytes, write_element, IsElement}
use waas.Guac.Instruction.RoundTrip.{runes-encode_runes}
use waas.Guac.Framing.{
  got, scan_length, skip_runes, after_value, after_skip, after_length, complete_from, rune_width,
}

-- Peeling the ASCII case off changes no width.
rune_width_lem : (b : Bytes) → rune_width b ≡ (decode_rune b).1
unfolding decode_rune
rune_width_lem [] = refl
rune_width_lem (c ∷ b) = ground arith

pub scan_length-decimal_fuel :
    (f n k p : ℕ) (rest : Bytes)
    → n < f
    → n ≤ max_pending_bytes
    → scan_length 0 k p (decimal_fuel f n ++ rest)
      ≡ scan_length n (k + length (decimal_fuel f n)) (p + length (decimal_fuel f n)) rest
unfolding scan_length decimal_fuel
scan_length-decimal_fuel zero n k p rest h b = absurd (omega arith)
scan_length-decimal_fuel (suc f) n k p rest h b = elim (Bool-cases (ltb n 10)) [
  | inl small ↦ rw small (ground arith)
  | inr large ↦
      let ds = decimal_fuel f (n / 10) in
      rw (large, append_assoc)
        (scan_length-decimal_fuel f (n / 10) k p ((48 + n % 10) ∷ rest) (ground arith) (omega arith)
          ∙ ground (arith, length-append ds ((48 + n % 10) ∷ [])))
]

decimal-length : (n : ℕ) → 0 < length (decimal n)
unfolding decimal decimal_fuel
decimal-length n = elim (Bool-cases (ltb n 10)) [
  | inl small ↦ rw small (omega arith)
  | inr large ↦
      rw large (omega (arith, length-append (decimal_fuel n (n / 10)) ((48 + n % 10) ∷ [])))
]

pub scan_length-decimal :
    (n p : ℕ) (rest : Bytes)
    → n ≤ max_pending_bytes
    → scan_length 0 0 p (decimal n ++ b'.' ∷ rest) ≡ got (n, p + length (decimal n) + 1, rest)
scan_length-decimal n p rest h =
    unfold decimal in
    scan_length-decimal_fuel (suc n) n 0 p (b'.' ∷ rest) (omega arith) h
    ∙ dot (length (decimal n)) (decimal-length n)
  where
    dot : (k : ℕ) → 0 < k → scan_length n (0 + k) (p + k) (b'.' ∷ rest) ≡ got (n, p + k + 1, rest)
    dot k h = unfold scan_length in ground arith

skip_runes_step :
    (n p : ℕ) (b : Bytes)
    → b ≢ []
    → full_rune b ≡ true
    → skip_runes (suc n) p b ≡ skip_runes n (p + rune_width b) (drop (rune_width b) b)
unfolding skip_runes
skip_runes_step n p [] h e = absurd (h refl)
skip_runes_step n p (c ∷ b) h e = ground arith

pub skip_runes-encode_rune :
    (n p r : ℕ) (rest : Bytes)
    → IsRune r
    → skip_runes (suc n) p (encode_rune r ++ rest) ≡ skip_runes n (p + length (encode_rune r)) rest
skip_runes-encode_rune n p r rest h =
    skip_runes_step n p (encode_rune r ++ rest) (encode_rune-ne-nil r rest)
      (full_rune-encode_rune r rest h)
    ∙ rw (
      rune_width_lem (encode_rune r ++ rest),
      decode_rune-encode_rune r rest h,
      drop-append_length (encode_rune r) rest,
    )

pub encode_runes_cons :
    (r : ℕ) (rs : List ℕ) → encode_runes (r ∷ rs) ≡ encode_rune r ++ encode_runes rs
unfolding encode_runes
encode_runes_cons r rs = refl

pub skip_runes-encode_runes :
    (rs : List ℕ) (p : ℕ) (rest : Bytes)
    → All IsRune rs
    → skip_runes (length rs) p (encode_runes rs ++ rest) ≡ got (p + length (encode_runes rs), rest)
skip_runes-encode_runes [] p rest h = unfold skip_runes encode_runes in ground arith
skip_runes-encode_runes (r ∷ rs) p rest h =
    ap (skip_runes (suc (length rs)) p) (
      ap (λ b. b ++ rest) (encode_runes_cons r rs)
      ∙ append_assoc (encode_rune r) (encode_runes rs) rest)
    ∙ skip_runes-encode_rune (length rs) p r (encode_runes rs ++ rest) h.0
    ∙ skip_runes-encode_runes rs (p + length (encode_rune r)) rest h.1
    ∙ ap (λ q. got (q, rest)) (omega (arith, length-encode_runes_cons r rs))
  where
    length-encode_runes_cons :
        (r : ℕ) (rs : List ℕ)
        → length (encode_runes (r ∷ rs)) ≡ length (encode_rune r) + length (encode_runes rs)
    length-encode_runes_cons r rs =
        ap length (encode_runes_cons r rs) ∙ length-append (encode_rune r) (encode_runes rs)

-- A round of the loop, also at the end of the input.
pub complete_from_step :
    (f p last : ℕ) (b : Bytes)
    → complete_from (suc f) p last b ≡ after_length (complete_from f) last (scan_length 0 0 p b)
unfolding complete_from after_length scan_length
complete_from_step f p last [] = refl
complete_from_step f p last (c ∷ b) = refl

element_points :
    (f p last : ℕ) (rs : List ℕ) (rest : Bytes)
    → All IsRune rs
    → length rs ≤ max_pending_bytes
    → after_length
        (complete_from f)
        last
        (scan_length 0 0 p (decimal (length rs) ++ b'.' ∷ (encode_runes rs ++ rest)))
      ≡ after_value
          (complete_from f)
          last
          (p + length (decimal (length rs)) + 1 + length (encode_runes rs))
          rest
element_points f p last rs rest valid short =
    ap (after_length (complete_from f) last)
      (scan_length-decimal (length rs) p (encode_runes rs ++ rest) short)
    ∙ unfold after_length in
      ap (after_skip (complete_from f) last)
        (skip_runes-encode_runes rs (p + length (decimal (length rs)) + 1) rest valid)

write_element_points :
    (rs : List ℕ)
    → All IsRune rs
    → write_element (encode_runes rs) ≡ decimal (length rs) ++ b'.' ∷ encode_runes rs
write_element_points rs h = unfold write_element in rw (runes-encode_runes rs h)

pub write_element_lem :
    (v : Bytes) (e : IsElement v)
    → write_element v ≡ decimal (length e.points) ++ b'.' ∷ encode_runes e.points
write_element_lem v e = ap write_element e.spelled ∙ write_element_points e.points e.valid

-- One whole element takes the loop to the switch on the byte behind it.
pub complete_from-write_element :
    (f p last : ℕ) (v rest : Bytes)
    → IsElement v
    → complete_from (suc f) p last (write_element v ++ rest)
      ≡ after_value (complete_from f) last (p + length (write_element v)) rest
complete_from-write_element f p last v rest e =
    complete_from_step f p last (write_element v ++ rest)
    ∙ rw (write_element_lem v e, append_assoc)
        (element_points f p last e.points rest e.valid e.short
          ∙ ap (λ q. after_value (complete_from f) last q rest)
              (omega
                (arith, length-append (decimal (length e.points)) (b'.' ∷ encode_runes e.points))))
