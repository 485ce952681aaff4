-- ===== src/Guac/Framing/Frames.antt =====
-- What the framer emits over a whole stream, however the network cuts it.
use waas.Prelude.{
  ℕ, zero, suc, ◌-◌, ◌≤◌, ◌≡◌, refl, ◌∙◌, ap, sym, inl, inr, List, [], ◌∷◌, ◌++◌, Option, none,
  some, Bytes, All, arith, length, take, drop, Bool-cases, leb, ltb, append_assoc, length-append,
  take-append_le, take-append_length, drop-append_length, take-append-drop, length-drop,
  if◌then◌else◌,
}
use waas.Guac.Result.{ok}
use waas.Guac.Instruction.{Instruction, encode, IsInstruction, max_pending_bytes}
use waas.Guac.Framing.{Framer, emit, push, complete_prefix}
use waas.Guac.Framing.Stream.{encode_all, whole, complete_prefix-take}

-- The bytes that a framer holds back.
abbrev pub pending : Framer → Bytes
pending f = if ltb 0 f.start then drop f.start f.buf else f.buf

-- The whole instructions among the first `k` bytes of the stream, and the others.
unfoldable pub group : ℕ → List Instruction → List Instruction
group k [] = []
group k (i ∷ is) =
    let n = length (encode i) in let rest = i ∷ group (k - n) is in if leb n k then rest else []

unfoldable pub left : ℕ → List Instruction → List Instruction
left k [] = []
left k (i ∷ is) =
    let n = length (encode i) in let rest = left (k - n) is in if leb n k then rest else i ∷ is

pub group-left : (k : ℕ) (is : List Instruction) → group k is ++ left k is ≡ is
unfolding group left
group-left k [] = refl
group-left k (i ∷ is) = elim (Bool-cases (leb (length (encode i)) k)) [
  | inl fits ↦ rw fits (ap (◌∷◌ i) (group-left (k - length (encode i)) is))
  | inr cut ↦ rw cut refl
]

pub encode_all-append :
    (is js : List Instruction) → encode_all (is ++ js) ≡ encode_all is ++ encode_all js
unfolding encode_all
encode_all-append [] js = refl
encode_all-append (i ∷ is) js =
    ap (λ b. encode i ++ b) (encode_all-append is js) ∙ sym (append_assoc (encode i) _ _)

pub whole-group : (k : ℕ) (is : List Instruction) → whole k is ≡ length (encode_all (group k is))
unfolding group whole encode_all
whole-group k [] = refl
whole-group k (i ∷ is) = elim (Bool-cases (leb (length (encode i)) k)) [
  | inl fits ↦ rw fits (
      omega (
        arith,
        whole-group (k - length (encode i)) is,
        length-append (encode i) (encode_all (group (k - length (encode i)) is)),
      ))
  | inr cut ↦ rw cut refl
]

encode_all-group-left :
    (k : ℕ) (is : List Instruction)
    → encode_all (group k is) ++ encode_all (left k is) ≡ encode_all is
encode_all-group-left k is =
    sym (encode_all-append (group k is) (left k is)) ∙ ap encode_all (group-left k is)

pub All-left {ℓ} :
    (P : Instruction → Type ℓ) (k : ℕ) (is : List Instruction) → All P is → All P (left k is)
unfolding left
All-left P k [] h = tt
All-left P k (i ∷ is) h = elim (Bool-cases (leb (length (encode i)) k)) [
  | inl fits ↦ rw fits (All-left P (k - length (encode i)) is h.1)
  | inr cut ↦ rw cut h
]

pub All-group {ℓ} :
    (P : Instruction → Type ℓ) (k : ℕ) (is : List Instruction) → All P is → All P (group k is)
unfolding group
All-group P k [] h = tt
All-group P k (i ∷ is) h = elim (Bool-cases (leb (length (encode i)) k)) [
  | inl fits ↦ rw fits (h.0, All-group P (k - length (encode i)) is h.1)
  | inr cut ↦ rw cut tt
]

append_cancel : (xs ys zs : Bytes) → xs ++ ys ≡ xs ++ zs → ys ≡ zs
append_cancel xs ys zs h =
    sym (drop-append_length xs ys) ∙ ap (drop (length xs)) h ∙ drop-append_length xs zs

abbrev pub frame_of : Bytes → Option Bytes
frame_of [] = none
frame_of (c ∷ b) = some (c ∷ b)

-- What libguac promises of an instruction: it is not longer than the framer's bound.
abbrev pub IsShort : Instruction → Type 0
IsShort i = length (encode i) ≤ max_pending_bytes

pub whole-le : (k : ℕ) (is : List Instruction) → whole k is ≤ k
unfolding whole
whole-le k [] = omega arith
whole-le k (i ∷ is) = ground (arith, whole-le (k - length (encode i)) is)

whole_zero :
    (k : ℕ) (is : List Instruction)
    → All IsShort is
    → k ≤ length (encode_all is)
    → whole k is ≡ 0
    → k ≤ max_pending_bytes
unfolding whole encode_all
whole_zero k [] h le e = omega arith
whole_zero k (i ∷ is) h le e =
    ground
      (arith, whole_zero (k - length (encode i)) is h.1, length-append (encode i) (encode_all is))

whole-rest : (k : ℕ) (is : List Instruction) → whole (k - whole k is) (left k is) ≡ 0
unfolding whole left
whole-rest k [] = refl
whole-rest k (i ∷ is) =
    let n = length (encode i) in
    elim (Bool-cases (leb n k)) [
      | inl fits ↦
          rw fits (ap (λ m. whole m (left (k - n) is)) (omega arith) ∙ whole-rest (k - n) is)
      | inr cut ↦
          rw cut (ap (λ m. whole m (i ∷ is)) {x = k - 0} {y = k} (omega arith) ∙ rw cut refl)
    ]

emit_ok :
    (buf : Bytes) (n : ℕ)
    → n ≤ length buf
    → (n ≡ 0 → length buf ≤ max_pending_bytes)
    → ((emit buf (ok n)).1 ≡ ok (frame_of (take n buf)))
      × (pending (emit buf (ok n)).0 ≡ drop n buf)
unfolding emit
emit_ok buf zero h z = (ground (arith, z refl), refl)
emit_ok [] (suc n) h z = absurd (omega arith)
emit_ok (c ∷ b) (suc n) h z = (refl, ground arith)

module _ (f : Framer) (is : List Instruction) (input later : Bytes) (fit : All IsInstruction is)
    (short : All IsShort is) (stream : pending f ++ (input ++ later) ≡ encode_all is) where
  abbrev seen : ℕ
  seen = length (pending f ++ input)

  buffered : (pending f ++ input) ++ later ≡ encode_all is
  buffered = append_assoc (pending f) input later ∙ stream

  as_take : pending f ++ input ≡ take seen (encode_all is)
  as_take = sym (take-append_length (pending f ++ input) later) ∙ ap (take seen) buffered

  prefix : complete_prefix (pending f ++ input) ≡ ok (whole seen is)
  prefix = ap complete_prefix as_take ∙ complete_prefix-take is seen fit

  emitted :
      ((push f input).1 ≡ ok (frame_of (take (whole seen is) (pending f ++ input))))
      × (pending (push f input).0 ≡ drop (whole seen is) (pending f ++ input))
  unfolding push
  emitted = rw prefix (
      emit_ok (pending f ++ input) (whole seen is) (whole-le seen is) (
        whole_zero seen is short
          (omega (arith, ap length buffered, length-append (pending f ++ input) later))))

  halves : encode_all (group seen is) ++ encode_all (left seen is) ≡ (pending f ++ input) ++ later
  halves = encode_all-group-left seen is ∙ sym buffered

  frame : take (whole seen is) (pending f ++ input) ≡ encode_all (group seen is)
  frame =
      sym (take-append_le (whole seen is) (pending f ++ input) later (whole-le seen is))
      ∙ ap (take (whole seen is)) (sym halves)
      ∙ rw (whole-group seen is)
          (take-append_length (encode_all (group seen is)) (encode_all (left seen is)))

  held : drop (whole seen is) (pending f ++ input) ++ later ≡ encode_all (left seen is)
  held = append_cancel (encode_all (group seen is)) _ _ (
      ap (λ b. b ++ (drop (whole seen is) (pending f ++ input) ++ later)) (sym frame)
      ∙ sym (append_assoc (take (whole seen is) (pending f ++ input)) _ later)
      ∙ ap (λ b. b ++ later) (take-append-drop (whole seen is) (pending f ++ input))
      ∙ sym halves)

  held_length : length (drop (whole seen is) (pending f ++ input)) ≡ seen - whole seen is
  held_length = length-drop (whole seen is) (pending f ++ input)

  -- One `Push` on a stream of instructions of at most `MaxPendingBytes` bytes each emits exactly the instructions that have
  -- become whole, and holds back what precedes the rest of the stream; no whole instruction is in what it holds back.
  pub push_stream :
      ((push f input).1 ≡ ok (frame_of (encode_all (group seen is))))
      × (pending (push f input).0 ++ later ≡ encode_all (left seen is))
      × (whole (length (pending (push f input).0)) (left seen is) ≡ 0)
  push_stream = (
    emitted.0 ∙ ap (λ b. ok (frame_of b)) frame,
    ap (λ b. b ++ later) emitted.1 ∙ held,
    ap (λ n. whole n (left seen is)) (ap length emitted.1 ∙ held_length) ∙ whole-rest seen is,
  )
