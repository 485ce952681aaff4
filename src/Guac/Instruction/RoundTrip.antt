-- ===== src/Guac/Instruction/RoundTrip.antt =====
-- `ReadInstruction` on what `Encode` writes.
use waas.Prelude.{
  ℕ, zero, suc, ◌<◌, ◌≤◌, ◌≡◌, refl, ◌∙◌, ◌≢◌, List, [], ◌∷◌, ◌++◌, some, Bytes, All, arith, ap,
  append_assoc, length, drop, length-append, drop-append_length,
}
use waas.Guac.Utf8.{IsRune, encode_rune, decode_rune, encode_runes}
use waas.Guac.Utf8.RoundTrip.{decode_rune-encode_rune, encode_rune-ne-nil, encode_rune-length}
use waas.Guac.Decimal.{decimal}
use waas.Guac.Decimal.Digits.{IsDigit, decimal-digits, atoi-decimal}
use waas.Guac.Result.{ok}
use waas.Guac.Instruction.{
  max_pending_bytes, Instruction, decode_runes, runes, write_element, write_args, encode,
  read_string, read_runes, read_element, instruction_of, read_elements, read_instruction, IsElement,
  IsInstruction,
}

decode_runes_step :
    (f : ℕ) (b : Bytes)
    → b ≢ []
    → decode_runes (suc f) b ≡ (decode_rune b).0 ∷ decode_runes f (drop (decode_rune b).1 b)
unfolding decode_runes
decode_runes_step f [] h = absurd (h refl)
decode_runes_step f (c ∷ b) h = refl

decode_runes-encode_runes :
    (f : ℕ) (rs : List ℕ)
    → All IsRune rs
    → length (encode_runes rs) ≤ f
    → decode_runes f (encode_runes rs) ≡ rs
unfolding encode_runes
decode_runes-encode_runes zero [] h k = unfold decode_runes in refl
decode_runes-encode_runes (suc f) [] h k = unfold decode_runes in refl
decode_runes-encode_runes zero (r ∷ rs) h k =
    absurd (omega (arith, encode_rune-length r, length-append (encode_rune r) (encode_runes rs)))
decode_runes-encode_runes (suc f) (r ∷ rs) h k =
    rw
      (
        decode_runes_step f (encode_rune r ++ encode_runes rs) (encode_rune-ne-nil r _),
        decode_rune-encode_rune r (encode_runes rs) h.0,
        drop-append_length (encode_rune r) (encode_runes rs),
        decode_runes-encode_runes f rs h.1
            (omega (arith, encode_rune-length r, length-append (encode_rune r) (encode_runes rs))),
      )
      refl

pub runes-encode_runes : (rs : List ℕ) → All IsRune rs → runes (encode_runes rs) ≡ rs
unfolding runes
runes-encode_runes rs h = decode_runes-encode_runes (length (encode_runes rs)) rs h (omega arith)

read_runes_step :
    (n : ℕ) (b : Bytes) {rs : List ℕ} {left : Bytes}
    → b ≢ []
    → read_runes n (drop (decode_rune b).1 b) ≡ some (rs, left)
    → read_runes (suc n) b ≡ some ((decode_rune b).0 ∷ rs, left)
unfolding read_runes
read_runes_step n [] h e = absurd (h refl)
read_runes_step n (c ∷ b) h e = ground arith

pub read_runes-encode_runes :
    (rs : List ℕ) (rest : Bytes)
    → All IsRune rs
    → read_runes (length rs) (encode_runes rs ++ rest) ≡ some (rs, rest)
unfolding encode_runes
read_runes-encode_runes [] rest h = unfold read_runes in refl
read_runes-encode_runes (r ∷ rs) rest h =
    let b = encode_rune r ++ (encode_runes rs ++ rest) in
    let width = decode_rune-encode_rune r (encode_runes rs ++ rest) h.0 in
    rw append_assoc (
      read_runes_step (length rs) b {rs = rs} {left = rest} (encode_rune-ne-nil r _) (
        rw (width, drop-append_length (encode_rune r) (encode_runes rs ++ rest))
          (read_runes-encode_runes rs rest h.1))
      ∙ rw width)

read_string-digits :
    (ds b : Bytes) → All IsDigit ds → read_string b'.' (ds ++ b'.' ∷ b) ≡ some (ds, b)
unfolding read_string
read_string-digits [] b h = refl
read_string-digits (d ∷ ds) b h = ground (arith, read_string-digits ds b)

read_element-points :
    (rs : List ℕ) (c : ℕ) (rest : Bytes)
    → All IsRune rs
    → length rs ≤ max_pending_bytes
    → read_element (write_element (encode_runes rs) ++ c ∷ rest) ≡ ok (encode_runes rs, c, rest)
unfolding read_element write_element
read_element-points rs c rest valid short =
    rw
      (
        runes-encode_runes rs valid,
        append_assoc,
        read_string-digits (decimal (length rs)) (encode_runes rs ++ c ∷ rest)
            (decimal-digits (length rs)),
        atoi-decimal (length rs) (omega arith),
      )
      (ground (arith, read_runes-encode_runes rs (c ∷ rest) valid))

-- One element that the wire can carry is read back, with the byte behind it as its separator.
pub read_element-write_element :
    (v : Bytes) (c : ℕ) (rest : Bytes)
    → IsElement v
    → read_element (write_element v ++ c ∷ rest) ≡ ok (v, c, rest)
read_element-write_element v c rest e =
    rw e.spelled (read_element-points e.points c rest e.valid e.short)

read_elements_next :
    (f : ℕ) (elements : List Bytes) (b v rest : Bytes)
    → read_element b ≡ ok (v, b',', rest)
    → read_elements (suc f) elements b ≡ read_elements f (elements ++ v ∷ []) rest
unfolding read_elements
read_elements_next f elements b v rest e = rw e

read_elements_last :
    (f : ℕ) (elements : List Bytes) (b v rest : Bytes)
    → read_element b ≡ ok (v, b';', rest)
    → read_elements (suc f) elements b ≡ ok (instruction_of (elements ++ v ∷ []), rest)
unfolding read_elements
read_elements_last f elements b v rest e = rw e

pub write_args_cons :
    (arg : Bytes) (args : List Bytes) (rest : Bytes)
    → write_args (arg ∷ args) ++ rest ≡ b',' ∷ (write_element arg ++ (write_args args ++ rest))
unfolding write_args
write_args_cons arg args rest =
    ap (◌∷◌ b',') (append_assoc (write_element arg) (write_args args) rest)

read_elements-args :
    (args : List Bytes) (f : ℕ) (v : Bytes) (elements : List Bytes) (rest : Bytes)
    → IsElement v
    → All IsElement args
    → length args < f
    → read_elements f elements (write_element v ++ (write_args args ++ rest))
      ≡ ok (instruction_of (elements ++ v ∷ args), rest)
read_elements-args args zero v elements rest e h lt = absurd (omega arith)
read_elements-args [] (suc f) v elements rest e h lt =
    read_elements_last f elements _ v rest
      (unfold write_args in read_element-write_element v b';' rest e)
read_elements-args (arg ∷ args) (suc f) v elements rest e h lt =
    ap (λ b. read_elements (suc f) elements (write_element v ++ b)) (write_args_cons arg args rest)
    ∙ read_elements_next f elements _ v _ (read_element-write_element v b',' _ e)
    ∙ read_elements-args args f arg (elements ++ v ∷ []) rest h.0 h.1 (omega arith)
    ∙ rw (append_assoc elements (v ∷ []) (arg ∷ args))

pub length-write_args : (args : List Bytes) → length args < length (write_args args)
unfolding write_args
length-write_args [] = omega arith
length-write_args (arg ∷ args) =
    omega (arith, length-write_args args, length-append (write_element arg) (write_args args))

-- Whatever follows in the stream, `ReadInstruction` takes exactly the bytes that `Encode` wrote for
-- an instruction, and returns that instruction: every element being valid UTF-8 of at most
-- `MaxPendingBytes` code points.
pub read_instruction-encode :
    (i : Instruction) (rest : Bytes)
    → IsInstruction i
    → read_instruction (encode i ++ rest) ≡ ok (i, rest)
unfolding read_instruction encode
read_instruction-encode i rest h =
    rw (append_assoc (write_element i.opcode) (write_args i.args) rest) (
      read_elements-args i.args
        (suc (length (write_element i.opcode ++ (write_args i.args ++ rest)))) i.opcode [] rest
        h.opcode_fits h.args_fit
        (omega (
          arith,
          length-write_args i.args,
          length-append (write_element i.opcode) (write_args i.args ++ rest),
          length-append (write_args i.args) rest,
        )))

-- No encoding is empty.
pub length-encode : (i : Instruction) → 0 < length (encode i)
unfolding encode
length-encode i =
    omega
      (arith, length-write_args i.args, length-append (write_element i.opcode) (write_args i.args))
