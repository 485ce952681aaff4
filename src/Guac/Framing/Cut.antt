-- ===== src/Guac/Framing/Cut.antt =====
-- The scan over an element that is cut anywhere.
use waas.Prelude.{
  ℕ, zero, suc, ◌+◌, ◌-◌, ◌*◌, ◌/◌, ◌%◌, ◌<◌, ◌≤◌, ◌≡◌, refl, ◌∙◌, ap, inl, inr, List, [], ◌∷◌,
  ◌++◌, Bytes, All, arith, length, take, false, Bool-cases, ltb, leb, length-append, take-append_le,
  take-append_ge, take_all,
}
use waas.Guac.Utf8.{IsRune, encode_rune, full_rune, encode_runes}
use waas.Guac.Utf8.RoundTrip.{full_rune-take}
use waas.Guac.Decimal.{decimal_fuel, decimal}
use waas.Guac.Result.{ok}
use waas.Guac.Instruction.{max_pending_bytes, write_element, IsElement}
use waas.Guac.Framing.{more, got, scan_length, skip_runes, after_skip, after_length, complete_from}
use waas.Guac.Framing.Element.{
  scan_length-decimal_fuel, scan_length-decimal, skip_runes-encode_rune, complete_from_step,
  write_element_lem, encode_runes_cons,
}

-- one more digit, and then the end of the input
scan_length_last :
    (n k p d : ℕ)
    → d < 10
    → n * 10 + d ≤ max_pending_bytes
    → scan_length n k p ((48 + d) ∷ []) ≡ more
unfolding scan_length
scan_length_last n k p d h b = ground arith

scan_length-take_one : (n k p j : ℕ) → n < 10 → scan_length 0 k p (take j ((48 + n) ∷ [])) ≡ more
unfolding scan_length
scan_length-take_one n k p zero h = refl
scan_length-take_one n k p (suc j) h = rw (take_all {A = ℕ} j [] (omega arith)) (ground arith)

scan_length-take_fuel :
    (f n k p j : ℕ)
    → n < f
    → n ≤ max_pending_bytes
    → scan_length 0 k p (take j (decimal_fuel f n)) ≡ more
unfolding decimal_fuel
scan_length-take_fuel zero n k p j h b = absurd (omega arith)
scan_length-take_fuel (suc f) n k p j h b = elim (Bool-cases (ltb n 10)) [
  | inl small ↦ rw small (scan_length-take_one n k p j (ground arith))
  | inr large ↦ rw large (elim (Bool-cases (leb j (length ds))) [
    | inl before ↦
        rw (take-append_le j ds ((48 + n % 10) ∷ []) (ground arith))
          (scan_length-take_fuel f (n / 10) k p j (ground arith) (omega arith))
    | inr past ↦
        rw
          (take_all j (ds ++ (48 + n % 10) ∷ [])
            (omega (arith, length-append ds ((48 + n % 10) ∷ []), past_le past)))
          (scan_length-decimal_fuel f (n / 10) k p ((48 + n % 10) ∷ []) (ground arith) (omega arith)
            ∙ scan_length_last (n / 10) (k + length ds) (p + length ds) (n % 10) (omega arith)
                (omega arith))
  ])
]
  where
    ds : Bytes
    ds = decimal_fuel f (n / 10)

    past_le : leb j (length ds) ≡ false → length ds < j
    past_le e = ground arith

scan_length-take :
    (n p j : ℕ) → n ≤ max_pending_bytes → scan_length 0 0 p (take j (decimal n)) ≡ more
unfolding decimal
scan_length-take n p j h = scan_length-take_fuel (suc n) n 0 p j (omega arith) h

skip_runes_more : (n p : ℕ) (b : Bytes) → full_rune b ≡ false → skip_runes (suc n) p b ≡ more
unfolding skip_runes full_rune
skip_runes_more n p [] h = refl
skip_runes_more n p (c ∷ b) h = ground arith

-- The code points of a cut value: the input is over before the separator.
after_skip-take :
    (f p last j : ℕ) (rs : List ℕ)
    → All IsRune rs
    → after_skip (complete_from f) last (skip_runes (length rs) p (take j (encode_runes rs)))
      ≡ ok last
unfolding after_skip
after_skip-take f p last j [] h =
    unfold skip_runes encode_runes in rw (take_all {A = ℕ} j [] (omega arith))
after_skip-take f p last j (r ∷ rs) h = elim (Bool-cases (ltb j (length (encode_rune r)))) [
  | inl inside ↦
      ap (λ b. after_skip (complete_from f) last (skip_runes (suc (length rs)) p b))
        (ap (take j) (encode_runes_cons r rs)
          ∙ take-append_le j (encode_rune r) (encode_runes rs) (ground arith))
      ∙ ap (after_skip (complete_from f) last) (
          skip_runes_more (length rs) p (take j (encode_rune r))
            (full_rune-take r j h.0 (ground arith)))
  | inr past ↦
      ap (λ b. after_skip (complete_from f) last (skip_runes (suc (length rs)) p b))
        (ap (take j) (encode_runes_cons r rs)
          ∙ take-append_ge j (encode_rune r) (encode_runes rs) (ground arith))
      ∙ ap (after_skip (complete_from f) last) (
          skip_runes-encode_rune (length rs) p r
            (take (j - length (encode_rune r)) (encode_runes rs)) h.0)
      ∙ after_skip-take f (p + length (encode_rune r)) last (j - length (encode_rune r)) rs h.1
]

after_length_more : (f last : ℕ) → after_length (complete_from f) last more ≡ ok last
unfolding after_length
after_length_more f last = refl

after_length_got :
    (f last n p : ℕ) (b : Bytes)
    → after_length (complete_from f) last (got (n, p, b))
      ≡ after_skip (complete_from f) last (skip_runes n p b)
unfolding after_length
after_length_got f last n p b = refl

-- Wherever an element is cut, the loop returns the boundary that it has.
pub complete_from-take_element :
    (f p last k : ℕ) (v : Bytes)
    → IsElement v
    → complete_from (suc f) p last (take k (write_element v)) ≡ ok last
complete_from-take_element f p last k v e =
    complete_from_step f p last (take k (write_element v))
    ∙ rw (write_element_lem v e) (elim (Bool-cases (leb k (length ds))) [
      | inl before ↦ rw (take-append_le k ds (b'.' ∷ body) (ground arith)) (
          ap (after_length (complete_from f) last) (scan_length-take n p k e.short)
          ∙ after_length_more f last)
      | inr past ↦
          rw (take-append_ge k ds (b'.' ∷ body) (ground arith))
            (dotted (k - length ds) (ground arith))
    ])
  where
    n : ℕ
    n = length e.points

    ds : Bytes
    ds = decimal n

    body : Bytes
    body = encode_runes e.points

    dotted :
        (j : ℕ)
        → 0 < j
        → after_length (complete_from f) last (scan_length 0 0 p (ds ++ take j (b'.' ∷ body)))
          ≡ ok last
    dotted zero h = absurd (omega arith)
    dotted (suc j) h =
        ap (after_length (complete_from f) last) (scan_length-decimal n p (take j body) e.short)
        ∙ after_length_got f last n (p + length ds + 1) (take j body)
        ∙ after_skip-take f (p + length ds + 1) last j e.points e.valid
