-- ===== src/Guac/Framing/Stream.antt =====
-- `completePrefix` on the first bytes of a stream of instructions.
use waas.Prelude.{
  ℕ, zero, suc, ◌+◌, ◌-◌, ◌<◌, ◌≡◌, refl, ◌∙◌, ap, sym, inl, inr, List, [], ◌∷◌, ◌++◌, Bytes, All,
  arith, length, take, Bool-cases, leb, append_assoc, length-append, take-append_le, take-append_ge,
  take_all, length-take_le, if◌then◌else◌, leb→le,
}
use mathlib.Core.Path.{ap₂}
use waas.Guac.Result.{ok}
use waas.Guac.Instruction.{Instruction, write_element, write_args, encode, IsElement, IsInstruction}
use waas.Guac.Instruction.RoundTrip.{write_args_cons}
use waas.Guac.Framing.{after_value, complete_from, complete_prefix}
use waas.Guac.Framing.Fuel.{complete_from_fuel}
use waas.Guac.Framing.Element.{complete_from-write_element}
use waas.Guac.Framing.Cut.{complete_from-take_element}

unfoldable pub encode_all : List Instruction → Bytes
encode_all [] = []
encode_all (i ∷ is) = encode i ++ encode_all is

pub encode_all_nil : encode_all [] ≡ []
unfolding encode_all
encode_all_nil = refl

pub encode_all_cons :
    (i : Instruction) (is : List Instruction) → encode_all (i ∷ is) ≡ encode i ++ encode_all is
unfolding encode_all
encode_all_cons i is = refl

-- How many of the first `k` bytes of the stream are whole instructions.
unfoldable pub whole : ℕ → List Instruction → ℕ
whole k [] = 0
whole k (i ∷ is) =
    let n = length (encode i) in let rest = n + whole (k - n) is in if leb n k then rest else 0

after_value_comma :
    (f last p : ℕ) (b : Bytes)
    → after_value (complete_from f) last p (b',' ∷ b) ≡ complete_from f (p + 1) last b
unfolding after_value
after_value_comma f last p b = refl

after_value_end :
    (f last p : ℕ) (b : Bytes)
    → after_value (complete_from f) last p (b';' ∷ b) ≡ complete_from f (p + 1) (p + 1) b
unfolding after_value
after_value_end f last p b = refl

write_args_nil : write_args [] ≡ b';' ∷ []
unfolding write_args
write_args_nil = refl

length-write_args_cons :
    (arg : Bytes) (args : List Bytes) (rest : Bytes)
    → length (write_args (arg ∷ args) ++ rest)
      ≡ suc (length (write_element arg ++ (write_args args ++ rest)))
length-write_args_cons arg args rest = ap length (write_args_cons arg args rest)

write_args_more :
    (arg : Bytes) (args : List Bytes)
    → write_args (arg ∷ args) ≡ b',' ∷ (write_element arg ++ write_args args)
unfolding write_args
write_args_more arg args = refl

length-write_args_more :
    (arg : Bytes) (args : List Bytes)
    → length (write_args (arg ∷ args)) ≡ suc (length (write_element arg) + length (write_args args))
length-write_args_more arg args =
    ap length (write_args_more arg args)
    ∙ ap suc (length-append (write_element arg) (write_args args))

-- The rest of an instruction from the start of an element on.
complete_from-args :
    (args : List Bytes) (f p last : ℕ) (v rest : Bytes)
    → IsElement v
    → All IsElement args
    → length (write_element v ++ (write_args args ++ rest)) < f
    → complete_from f p last (write_element v ++ (write_args args ++ rest)) ≡ (
        let q = p + (length (write_element v) + length (write_args args)) in
        complete_from (suc (length rest)) q q rest)
complete_from-args args zero p last v rest e h lt = absurd (omega arith)
complete_from-args [] (suc f) p last v rest e h lt =
    complete_from-write_element f p last v (write_args [] ++ rest) e
    ∙ rw write_args_nil (
        after_value_end f last (p + length (write_element v)) rest
        ∙ complete_from_fuel f (suc (length rest)) _ _ rest
            (omega (
              arith,
              length-append (write_element v) (write_args [] ++ rest),
              length-append (write_args []) rest,
              ap length write_args_nil,
            ))
            (omega arith)
        ∙ ap (λ q. complete_from (suc (length rest)) q q rest) (omega arith))
complete_from-args (arg ∷ args) (suc f) p last v rest e h lt =
    complete_from-write_element f p last v (write_args (arg ∷ args) ++ rest) e
    ∙ rw (write_args_cons arg args rest) (after_value_comma f last (p + length (write_element v)) _)
    ∙ complete_from-args args f (p + length (write_element v) + 1) last arg rest h.0 h.1 (
        omega (
          arith,
          length-append (write_element v) (write_args (arg ∷ args) ++ rest),
          length-write_args_cons arg args rest,
        ))
    ∙ ap (λ q. complete_from (suc (length rest)) q q rest)
        (omega (arith, length-write_args_more arg args))

complete_from-encode :
    (f p last : ℕ) (i : Instruction) (rest : Bytes)
    → IsInstruction i
    → length (encode i ++ rest) < f
    → complete_from f p last (encode i ++ rest)
      ≡ (let q = p + length (encode i) in complete_from (suc (length rest)) q q rest)
unfolding encode
complete_from-encode f p last i rest h lt =
    let assoc = append_assoc (write_element i.opcode) (write_args i.args) rest in
    ap (complete_from f p last) assoc
    ∙ complete_from-args i.args f p last i.opcode rest h.opcode_fits h.args_fit
        (omega (arith, ap length assoc))
    ∙ ap (λ n. complete_from (suc (length rest)) (p + n) (p + n) rest)
        (sym (length-append (write_element i.opcode) (write_args i.args)))

-- An instruction that is cut anywhere adds nothing.
complete_from-take_args :
    (args : List Bytes) (f p last k : ℕ) (v : Bytes)
    → IsElement v
    → All IsElement args
    → k < length (write_element v ++ write_args args)
    → k < f
    → complete_from f p last (take k (write_element v ++ write_args args)) ≡ ok last
complete_from-take_args args zero p last k v e h lt enough = absurd (omega arith)
complete_from-take_args [] (suc f) p last k v e h lt enough =
    ap (complete_from (suc f) p last) (
      take-append_le k (write_element v) (write_args [])
        (omega (arith, length-append (write_element v) (write_args []), ap length write_args_nil)))
    ∙ complete_from-take_element f p last k v e
complete_from-take_args (arg ∷ args) (suc f) p last k v e h lt enough =
    elim (Bool-cases (leb k (length (write_element v)))) [
      | inl inside ↦
          ap (complete_from (suc f) p last)
            (take-append_le k (write_element v) (write_args (arg ∷ args)) (leb→le _ _ inside))
          ∙ complete_from-take_element f p last k v e
      | inr past ↦
          let gt : length (write_element v) < k = ground arith in
          let m = k - length (write_element v) - 1 in
          ap (complete_from (suc f) p last) (
            take-append_ge k (write_element v) (write_args (arg ∷ args)) (omega arith)
            ∙ ap (λ b. write_element v ++ b)
                (ap₂ take {x = k - length (write_element v)} {y = suc m} (omega arith)
                  (write_args_more arg args)))
          ∙ complete_from-write_element f p last v
              (b',' ∷ take m (write_element arg ++ write_args args)) e
          ∙ after_value_comma f last (p + length (write_element v)) _
          ∙ complete_from-take_args args f (p + length (write_element v) + 1) last m arg h.0 h.1
              (omega (
                arith,
                length-append (write_element v) (write_args (arg ∷ args)),
                length-write_args_more arg args,
                length-append (write_element arg) (write_args args),
              ))
              (omega arith)
    ]

complete_from-cut :
    (f p last k : ℕ) (i : Instruction)
    → IsInstruction i
    → k < length (encode i)
    → k < f
    → complete_from f p last (take k (encode i)) ≡ ok last
unfolding encode
complete_from-cut f p last k i h lt enough =
    complete_from-take_args i.args f p last k i.opcode h.opcode_fits h.args_fit lt enough

complete_from-stream :
    (is : List Instruction) (f p k : ℕ)
    → All IsInstruction is
    → length (take k (encode_all is)) < f
    → complete_from f p p (take k (encode_all is)) ≡ ok (p + whole k is)
unfolding encode_all whole
complete_from-stream [] zero p k h lt = absurd (omega arith)
complete_from-stream [] (suc f) p k h lt =
    rw (take_all {A = ℕ} k [] (omega arith)) (unfold complete_from in ap ok (omega arith))
complete_from-stream (i ∷ is) f p k h lt =
    let n = length (encode i) in
    elim (Bool-cases (leb n k)) [
      | inl fits ↦
          let at = take-append_ge k (encode i) (encode_all is) (leb→le _ _ fits) in
          let tail = take (k - n) (encode_all is) in
          ap (complete_from f p p) at
          ∙ complete_from-encode f p p i tail h.0 (omega (arith, ap length at))
          ∙ complete_from-stream is (suc (length tail)) (p + n) (k - n) h.1 (omega arith)
          ∙ rw fits (ap ok (omega arith))
      | inr cut ↦
          let short : k < n = ground arith in
          let at = take-append_le k (encode i) (encode_all is) (omega arith) in
          ap (complete_from f p p) at
          ∙ complete_from-cut f p p k i h.0 short
              (omega (arith, ap length at, length-take_le k (encode i) (omega arith)))
          ∙ rw cut (ap ok (omega arith))
    ]

-- On the first bytes of a stream of instructions, wherever they are cut, the complete prefix is
-- exactly the instructions that are whole.
pub complete_prefix-take :
    (is : List Instruction) (k : ℕ)
    → All IsInstruction is
    → complete_prefix (take k (encode_all is)) ≡ ok (whole k is)
unfolding complete_prefix
complete_prefix-take is k h =
    complete_from-stream is (suc (length (take k (encode_all is)))) 0 k h (omega arith)
    ∙ ap ok (omega arith)
