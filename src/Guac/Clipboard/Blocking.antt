-- ===== src/Guac/Clipboard/Blocking.antt =====
-- What the specification of the filter keeps out.
use waas.Prelude.{
  ◌≡◌, refl, ap, sym, inl, inr, ◌≢◌, Bool, true, false, List, [], ◌∷◌, Bytes, All, arith,
  Bool-cases, if◌then◌else◌, equal, equal_iff, member,
}
use waas.Guac.Result.{ok}
use waas.Guac.Instruction.{Instruction, IsInstruction}
use waas.Guac.Framing.Stream.{encode_all}
use waas.Guac.Clipboard.{
  ClipboardFilter, Side, server, client, Walk, block, unblock, blocked_of, direction_blocked_of,
  store, start, rewrite_with_replies,
}
use waas.Guac.Clipboard.Streams.{
  Kind, opens, continues, ends, other, kind, kept, behind, passes, blocked_after, refused, refusals,
  walked, rewrite_with_replies-encode_all,
}

All-if {ℓ} :
    {A : Type ℓ} (P : A → Type ℓ) (p : Bool) (a : A) (rest : List A)
    → (p ≡ true → P a)
    → All P rest
    → All P (if p then a ∷ rest else rest)
All-if P true a rest h r = (h refl, r)
All-if P false a rest h r = r

-- In a closed direction no instruction that opens a clipboard stream is kept.
pub kept_closed-opens :
    (blocked : List Bytes) (is : List Instruction)
    → All (λ i. (index : Bytes) → kind i ≢ opens index) (kept true blocked is)
unfolding kept
kept_closed-opens blocked [] = tt
kept_closed-opens blocked (i ∷ is) =
    All-if (λ j. (index : Bytes) → kind j ≢ opens index) (passes true blocked (kind i)) i _
      (λ p index e. let q : passes true blocked (opens index) ≡ true = rw e at p in cc)
      (kept_closed-opens (behind true blocked (kind i)) is)

member-unblock :
    (index j : Bytes) (blocked : List Bytes)
    → equal index j ≡ false
    → member blocked index ≡ true
    → member (unblock j blocked) index ≡ true
unfolding member unblock
member-unblock index j [] ne h = h
member-unblock index j (b ∷ bs) ne h =
    ground
      (arith, member-unblock index j bs ne, equal_iff b index, equal_iff b j, equal_iff index j)

member-block :
    (index j : Bytes) (blocked : List Bytes)
    → member blocked index ≡ true
    → member (block j blocked) index ≡ true
unfolding member block
member-block index j blocked h = ground arith

behind-member :
    (closed : Bool) (blocked : List Bytes) (index : Bytes) (k : Kind)
    → member blocked index ≡ true
    → k ≢ ends index
    → member (behind closed blocked k) index ≡ true
behind-member closed blocked index (opens j) h ne = ground (arith, member-block index j blocked)
behind-member closed blocked index (continues j) h ne = h
behind-member closed blocked index (ends j) h ne = elim (Bool-cases (equal index j)) [
  | inl e ↦ absurd (ne (ap ends (sym ((equal_iff index j).0 e))))
  | inr d ↦ ground (arith, member-unblock index j blocked d h)
]
behind-member closed blocked index other h ne = h

-- Once a stream is blocked, none of its data passes until the stream ends, also when the user has
-- meanwhile allowed the direction again.
pub kept-continues :
    (closed : Bool) (blocked : List Bytes) (index : Bytes) (is : List Instruction)
    → member blocked index ≡ true
    → All (λ i. kind i ≢ ends index) is
    → All (λ i. kind i ≢ continues index) (kept closed blocked is)
unfolding kept
kept-continues closed blocked index [] h n = tt
kept-continues closed blocked index (i ∷ is) h n =
    All-if (λ j. kind j ≢ continues index) (passes closed blocked (kind i)) i _
      (λ p e. let q : passes closed blocked (continues index) ≡ true = rw e at p in ground arith)
      (kept-continues closed (behind closed blocked (kind i)) index is
        (behind-member closed blocked index (kind i) h n.0) n.1)

blocked_after-member :
    (closed : Bool) (blocked : List Bytes) (index : Bytes) (is : List Instruction)
    → member blocked index ≡ true
    → All (λ i. kind i ≢ ends index) is
    → member (blocked_after closed blocked is) index ≡ true
unfolding blocked_after
blocked_after-member closed blocked index [] h n = h
blocked_after-member closed blocked index (i ∷ is) h n =
    blocked_after-member closed (behind closed blocked (kind i)) index is
      (behind-member closed blocked index (kind i) h n.0) n.1

stored :
    (side : Side) (w : Walk) (f : ClipboardFilter) (index : Bytes)
    → member w.blocked index ≡ true
    → member (blocked_of side (store side w f)) index ≡ true
stored server w f index h = h
stored client w f index h = h

-- A frame that does not end a blocked stream is forwarded with none of that stream's data, in
-- whichever state the user's toggle is by now.
pub rewrite_with_replies-continues :
    (side : Side) (f : ClipboardFilter) (index : Bytes) (is : List Instruction)
    → All IsInstruction is
    → member (blocked_of side f) index ≡ true
    → All (λ i. kind i ≢ ends index) is
    → (g : ClipboardFilter) × (js : List Instruction) × (reply : Bytes) × (rewrite_with_replies side
          (encode_all is)
          f
        ≡ ok (g, encode_all js, reply))
      × (member (blocked_of side g) index ≡ true)
      × All (λ i. kind i ≢ continues index) js
rewrite_with_replies-continues side f index is fit blocked open_ =
    let closed = direction_blocked_of side f in
    let w = walked side closed is (start side f) in
    (
      store side w f,
      kept closed (blocked_of side f) is,
      refusals side (refused closed is),
      rewrite_with_replies-encode_all side is f fit,
      stored side w f index
          (blocked_after-member closed (blocked_of side f) index is blocked open_),
      kept-continues closed (blocked_of side f) index is blocked open_,
    )
