-- ===== src/Guac/Clipboard/Streams.antt =====
-- The filter as a function on instructions: which ones of a frame it keeps and which it refuses.
use waas.Prelude.{
  ℕ, zero, suc, ◌+◌, ◌<◌, ◌≡◌, refl, ◌∙◌, ap, sym, Bool, true, false, not, List, [], ◌∷◌, ◌++◌,
  Bytes, All, codes, arith, length, if◌then◌else◌, equal, member, append_assoc, append-nil,
  length-append,
}
use waas.Guac.Result.{ok}
use waas.Guac.Instruction.{Instruction, encode, read_instruction, IsInstruction}
use waas.Guac.Instruction.RoundTrip.{read_instruction-encode, length-encode}
use waas.Guac.Framing.Stream.{encode_all, encode_all_nil, encode_all_cons}
use waas.Guac.Clipboard.{
  ClipboardFilter, Side, block, unblock, Walk, refusal, walk_instruction, walk, store, start,
  rewrite_with_replies, blocked_of, direction_blocked_of,
}

-- What an instruction is to the clipboard: it opens a stream, carries it on, ends it, or is none of these.
pub data Kind : Type 0 where
  opens continues ends : Bytes → Kind
  other : Kind

unfoldable pub kind_with : Bytes → List Bytes → Kind
kind_with opcode [] = other
kind_with opcode (index ∷ args) =
    if equal opcode (codes "clipboard")
    then opens index
    else if equal opcode (codes "blob")
    then continues index
    else if equal opcode (codes "end")
    then ends index
    else other

abbrev pub kind : Instruction → Kind
kind i = kind_with i.opcode i.args

-- Does the filter let it through, and which streams are blocked behind it?
abbrev pub passes : Bool → List Bytes → Kind → Bool
passes closed blocked (opens index) = not closed
passes closed blocked (continues index) = not (member blocked index)
passes closed blocked (ends index) = not (member blocked index)
passes closed blocked other = true

abbrev pub behind : Bool → List Bytes → Kind → List Bytes
behind closed blocked (opens index) = if closed then block index blocked else blocked
behind closed blocked (continues index) = blocked
behind closed blocked (ends index) = if member blocked index then unblock index blocked else blocked
behind closed blocked other = blocked

abbrev pub refuses : Bool → Kind → List Bytes
refuses true (opens index) = index ∷ []
refuses _ _ = []

unfoldable pub kept : Bool → List Bytes → List Instruction → List Instruction
kept closed blocked [] = []
kept closed blocked (i ∷ is) =
    let rest = kept closed (behind closed blocked (kind i)) is in
    if passes closed blocked (kind i) then i ∷ rest else rest

unfoldable pub blocked_after : Bool → List Bytes → List Instruction → List Bytes
blocked_after closed blocked [] = blocked
blocked_after closed blocked (i ∷ is) = blocked_after closed (behind closed blocked (kind i)) is

-- the indices of the streams that are refused, in order
unfoldable pub refused : Bool → List Instruction → List Bytes
refused closed [] = []
refused closed (i ∷ is) = refuses closed (kind i) ++ refused closed is

unfoldable pub refusals : Side → List Bytes → Bytes
refusals side [] = []
refusals side (index ∷ more) = refusal side index ++ refusals side more

-- The walk that the specification says.
abbrev pub walked : Side → Bool → List Instruction → Walk → Walk
walked side closed is w = record {
  blocked = blocked_after closed w.blocked is;
  out = w.out ++ encode_all (kept closed w.blocked is);
  reply = w.reply ++ refusals side (refused closed is);
  opened = w.opened + length (refused closed is);
}

on_args :
    (side : Side) (closed : Bool) (i : Instruction) (args : List Bytes) (w : Walk)
    → i.args ≡ args
    → walk_instruction side closed i w ≡ record {
      blocked = behind closed w.blocked (kind i);
      out = w.out ++ (if passes closed w.blocked (kind i) then encode i else []);
      reply = w.reply ++ refusals side (refuses closed (kind i));
      opened = w.opened + length (refuses closed (kind i));
    }
unfolding walk_instruction kind_with refusals
on_args side closed i [] w e = ground (arith, append-nil w.reply)
on_args side true i (index ∷ more) w e =
    ground (arith, append-nil w.out, append-nil w.reply, append-nil (refusal side index))
on_args side false i (index ∷ more) w e = ground (arith, append-nil w.out, append-nil w.reply)

walk_instruction_lem :
    (side : Side) (closed : Bool) (i : Instruction) (w : Walk)
    → walk_instruction side closed i w ≡ record {
      blocked = behind closed w.blocked (kind i);
      out = w.out ++ (if passes closed w.blocked (kind i) then encode i else []);
      reply = w.reply ++ refusals side (refuses closed (kind i));
      opened = w.opened + length (refuses closed (kind i));
    }
walk_instruction_lem side closed i w = on_args side closed i i.args w refl

refusals-append :
    (side : Side) (xs ys : List Bytes)
    → refusals side (xs ++ ys) ≡ refusals side xs ++ refusals side ys
unfolding refusals
refusals-append side [] ys = refl
refusals-append side (x ∷ xs) ys =
    ap (λ b. refusal side x ++ b) (refusals-append side xs ys)
    ∙ sym (append_assoc (refusal side x) _ _)

blocked_after_cons :
    (closed : Bool) (blocked : List Bytes) (i : Instruction) (is : List Instruction)
    → blocked_after closed (behind closed blocked (kind i)) is
      ≡ blocked_after closed blocked (i ∷ is)
unfolding blocked_after
blocked_after_cons closed blocked i is = refl

pub kept_cons :
    (closed : Bool) (blocked : List Bytes) (i : Instruction) (is : List Instruction)
    → kept closed blocked (i ∷ is) ≡ (
        let rest = kept closed (behind closed blocked (kind i)) is in
        if passes closed blocked (kind i) then i ∷ rest else rest)
unfolding kept
kept_cons closed blocked i is = refl

out_step :
    (out : Bytes) (p : Bool) (i : Instruction) (rest : List Instruction) {all : List Instruction}
    → all ≡ (if p then i ∷ rest else rest)
    → (out ++ (if p then encode i else [])) ++ encode_all rest ≡ out ++ encode_all all
unfolding encode_all
out_step out true i rest e = append_assoc out (encode i) _ ∙ ap (λ is. out ++ encode_all is) (sym e)
out_step out false i rest e = append_assoc out [] _ ∙ ap (λ is. out ++ encode_all is) (sym e)

reply_step :
    (side : Side) (closed : Bool) (i : Instruction) (is : List Instruction) (reply : Bytes)
    → (reply ++ refusals side (refuses closed (kind i))) ++ refusals side (refused closed is)
      ≡ reply ++ refusals side (refused closed (i ∷ is))
unfolding refused
reply_step side closed i is reply =
    append_assoc reply _ _
    ∙ ap (λ b. reply ++ b)
        (sym (refusals-append side (refuses closed (kind i)) (refused closed is)))

opened_step :
    (closed : Bool) (i : Instruction) (is : List Instruction) (n : ℕ)
    → n + length (refuses closed (kind i)) + length (refused closed is)
      ≡ n + length (refused closed (i ∷ is))
unfolding refused
opened_step closed i is n =
    omega (arith, length-append (refuses closed (kind i)) (refused closed is))

pub walked_nil : (side : Side) (closed : Bool) (w : Walk) → walked side closed [] w ≡ w
unfolding encode_all kept blocked_after refused refusals
walked_nil side closed w = ground (arith, append-nil w.out, append-nil w.reply)

walk_nil : (f : ℕ) (side : Side) (closed : Bool) (w : Walk) → walk (suc f) side closed w [] ≡ ok w
unfolding walk
walk_nil f side closed w = refl

pub walked_step :
    (side : Side) (closed : Bool) (i : Instruction) (is : List Instruction) (w : Walk)
    → walked side closed is (walk_instruction side closed i w) ≡ walked side closed (i ∷ is) w
walked_step side closed i is w =
    ap (walked side closed is) (walk_instruction_lem side closed i w) ∙ λ k. record {
      blocked = blocked_after_cons closed w.blocked i is k;
      out =
          out_step w.out (passes closed w.blocked (kind i)) i _ (kept_cons closed w.blocked i is) k;
      reply = reply_step side closed i is w.reply k;
      opened = opened_step closed i is w.opened k;
    }

walk_step :
    (f : ℕ) (side : Side) (closed : Bool) (w : Walk) (b : Bytes) {i : Instruction} {rest : Bytes}
    → 0 < length b
    → read_instruction b ≡ ok (i, rest)
    → walk (suc f) side closed w b ≡ walk f side closed (walk_instruction side closed i w) rest
unfolding walk
walk_step f side closed w [] h e = absurd (omega arith)
walk_step f side closed w (c ∷ b) h e = rw e

walk-encode_all :
    (is : List Instruction) (f : ℕ) (side : Side) (closed : Bool) (w : Walk)
    → All IsInstruction is
    → length (encode_all is) < f
    → walk f side closed w (encode_all is) ≡ ok (walked side closed is w)
walk-encode_all is zero side closed w h lt = absurd (omega arith)
walk-encode_all [] (suc f) side closed w h lt =
    ap (walk (suc f) side closed w) encode_all_nil
    ∙ walk_nil f side closed w
    ∙ ap ok (sym (walked_nil side closed w))
walk-encode_all (i ∷ is) (suc f) side closed w h lt =
    ap (walk (suc f) side closed w) (encode_all_cons i is)
    ∙ walk_step f side closed w (encode i ++ encode_all is)
        (omega (arith, length-encode i, length-append (encode i) (encode_all is)))
        (read_instruction-encode i (encode_all is) h.0)
    ∙ walk-encode_all is f side closed (walk_instruction side closed i w) h.1 (
        omega (
          arith,
          length-encode i,
          length-append (encode i) (encode_all is),
          ap length (encode_all_cons i is),
        ))
    ∙ ap ok (walked_step side closed i is w)

-- On a frame of instructions, in either direction and in any state, the filter writes exactly the
-- instructions that the specification keeps, answers exactly the streams that it refuses (with an
-- error ack, on the browser's side), counts those, and blocks what the specification blocks.
pub rewrite_with_replies-encode_all :
    (side : Side) (is : List Instruction) (f : ClipboardFilter)
    → All IsInstruction is
    → let closed = direction_blocked_of side f in
      let w = walked side closed is (start side f) in
      rewrite_with_replies side (encode_all is) f
      ≡ ok (
        store side w f,
        encode_all (kept closed (blocked_of side f) is),
        refusals side (refused closed is),
      )
unfolding rewrite_with_replies
rewrite_with_replies-encode_all side is f h =
    rw
      (walk-encode_all is (suc (length (encode_all is))) side (direction_blocked_of side f)
        (start side f) h (omega arith))
      refl
