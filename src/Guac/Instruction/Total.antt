-- ===== src/Guac/Instruction/Total.antt =====
-- The end of `ReadInstruction` on any input.
use waas.Prelude.{
  ℕ, zero, suc, ◌<◌, ◌≤◌, ◌≡◌, refl, ap, ◌≢◌, List, [], ◌∷◌, ◌++◌, some, Bytes, arith, length, drop,
  Option-cases, inl, inr,
}
use waas.Guac.Utf8.{decode_rune}
use waas.Guac.Decimal.{atoi}
use waas.Guac.Result.{
  out_of_fuel, Result, ok, err, ◌>>=◌, or_err, >>=-eq-ok, or_err-eq-ok, err_injective, no_length,
  bad_length, no_value, no_separator,
}
use waas.Guac.Instruction.{
  Instruction, read_string, read_runes, read_byte, legal_length, read_element, after_element,
  read_elements, read_instruction,
}

pub length-drop_le : (n : ℕ) (b : Bytes) → length (drop n b) ≤ length b
length-drop_le zero b = omega arith
length-drop_le (suc n) [] = omega arith
length-drop_le (suc n) (c ∷ b) = omega (arith, length-drop_le n b)

read_string-shorter :
    (d : ℕ) (b text left : Bytes) → read_string d b ≡ some (text, left) → length left < length b
unfolding read_string
read_string-shorter d [] text left h = cc
read_string-shorter d (c ∷ b) text left h = elim (Option-cases (read_string d b)) [
  | inl e ↦ ground arith
  | inr ((t, l), e) ↦ ground (arith, read_string-shorter d b t l e)
]

read_runes-shorter :
    (n : ℕ) (b : Bytes) (rs : List ℕ) (left : Bytes)
    → read_runes n b ≡ some (rs, left)
    → length left ≤ length b
unfolding read_runes
read_runes-shorter zero b rs left h = ground arith
read_runes-shorter (suc n) [] rs left h = cc
read_runes-shorter (suc n) (c ∷ b) rs left h =
    let tail = drop (decode_rune (c ∷ b)).1 (c ∷ b) in
    elim (Option-cases (read_runes n tail)) [
      | inl e ↦ ground arith
      | inr ((t, l), e) ↦
          ground
            (arith, read_runes-shorter n tail t l e, length-drop_le (decode_rune (c ∷ b)).1 (c ∷ b))
    ]

read_byte-shorter :
    (b : Bytes) (c : ℕ) (left : Bytes) → read_byte b ≡ some (c, left) → length left < length b
unfolding read_byte
read_byte-shorter [] c left h = cc
read_byte-shorter (x ∷ b) c left h = ground arith

pub read_element-shorter :
    (b value : Bytes) (sep : ℕ) (rest : Bytes)
    → read_element b ≡ ok (value, sep, rest)
    → length rest < length b
unfolding read_element
read_element-shorter b value sep rest h =
    let ((text, b1), p1, h1) = >>=-eq-ok (or_err (read_string b'.' b) no_length) _ h in
    let (n, p2, h2) = >>=-eq-ok (or_err (atoi text) bad_length) _ h1 in
    let (len, p3, h3) = >>=-eq-ok (legal_length n) _ h2 in
    let ((rs, b2), p4, h4) = >>=-eq-ok (or_err (read_runes len b1) no_value) _ h3 in
    let ((c, b3), p5, h5) = >>=-eq-ok (or_err (read_byte b2) no_separator) _ h4 in
    let first = read_string-shorter b'.' b text b1 (or_err-eq-ok _ _ p1) in
    let second = read_runes-shorter len b1 rs b2 (or_err-eq-ok _ _ p4) in
    let third = read_byte-shorter b2 c b3 (or_err-eq-ok _ _ p5) in ground arith

read_element-total : (b : Bytes) → read_element b ≢ err out_of_fuel
unfolding read_element legal_length
read_element-total b h = ground arith

after_element-total :
    (next : List Bytes → Bytes → Result (Instruction × Bytes)) (elements : List Bytes)
    (r : Result (Bytes × ℕ × Bytes))
    → r ≢ err out_of_fuel
    → ((value : Bytes) (sep : ℕ) (rest : Bytes) (es : List Bytes)
        → r ≡ ok (value, sep, rest)
        → next es rest ≢ err out_of_fuel)
    → (r >>= after_element next elements) ≢ err out_of_fuel
after_element-total next elements (err x) t n e =
    t (ap err (err_injective {A = Instruction × Bytes} x out_of_fuel e))
after_element-total next elements (ok (value, sep, rest)) t n e =
    ground (arith, n value sep rest (elements ++ value ∷ []) refl)

read_elements-total :
    (f : ℕ) (elements : List Bytes) (b : Bytes)
    → length b < f
    → read_elements f elements b ≢ err out_of_fuel
unfolding read_elements
read_elements-total zero elements b h e = absurd (omega arith)
read_elements-total (suc f) elements b h e =
    after_element-total (read_elements f) elements (read_element b) (read_element-total b)
      (λ value sep rest es r.
        let lt = read_element-shorter b value sep rest r in
        read_elements-total f es rest (omega arith))
      e

-- `ReadInstruction` ends on any bytes: the bound on its rounds is never used up.
pub read_instruction-total : (b : Bytes) → read_instruction b ≢ err out_of_fuel
unfolding read_instruction
read_instruction-total b = read_elements-total (suc (length b)) [] b (omega arith)

after_element-shorter :
    (next : List Bytes → Bytes → Result (Instruction × Bytes)) (elements : List Bytes)
    (value : Bytes) (sep : ℕ) (rest : Bytes) (n : ℕ) (i : Instruction) (left : Bytes)
    → length rest < n
    → ((es : List Bytes) → next es rest ≡ ok (i, left) → length left < n)
    → after_element next elements (value, sep, rest) ≡ ok (i, left)
    → length left < n
after_element-shorter next elements value sep rest n i left lt k e =
    ground (arith, k (elements ++ value ∷ []))

read_elements-shorter :
    (f : ℕ) (elements : List Bytes) (b : Bytes) (i : Instruction) (left : Bytes)
    → read_elements f elements b ≡ ok (i, left)
    → length left < length b
unfolding read_elements
read_elements-shorter zero elements b i left e = cc
read_elements-shorter (suc f) elements b i left e =
    let ((value, sep, rest), r, later) =
      >>=-eq-ok (read_element b) (after_element (read_elements f) elements) e in
    let lt = read_element-shorter b value sep rest r in
    after_element-shorter (read_elements f) elements value sep rest (length b) i left lt
      (λ es k. let more = read_elements-shorter f es rest i left k in omega arith) later

pub read_instruction-shorter :
    (b : Bytes) (i : Instruction) (left : Bytes)
    → read_instruction b ≡ ok (i, left)
    → length left < length b
unfolding read_instruction
read_instruction-shorter b i left e = read_elements-shorter (suc (length b)) [] b i left e
