-- ===== src/Guac/Clipboard/Total.antt =====
-- The end of the walk over a frame.
use waas.Prelude.{ℕ, zero, suc, ◌<◌, ◌≡◌, ◌≢◌, ap, [], ◌∷◌, Bool, Bytes, arith, length}
use waas.Guac.Result.{out_of_fuel, Result, ok, err, ◌>>=◌, err_injective}
use waas.Guac.Instruction.{Instruction, read_instruction}
use waas.Guac.Instruction.Total.{read_instruction-total, read_instruction-shorter}
use waas.Guac.Clipboard.{
  ClipboardFilter, Side, Walk, walk, walk_instruction, start, rewrite_with_replies,
  direction_blocked_of,
}

bind-total :
    {A B : Type 0} (r : Result A) (next : A → Result B)
    → r ≢ err out_of_fuel
    → ((a : A) → r ≡ ok a → next a ≢ err out_of_fuel)
    → (r >>= next) ≢ err out_of_fuel
bind-total {A} {B} (err x) next t n e = t (ap err (err_injective {A = B} x out_of_fuel e))
bind-total (ok a) next t n e = n a (λ i. ok a) e

walk-total :
    (f : ℕ) (side : Side) (closed : Bool) (w : Walk) (b : Bytes)
    → length b < f
    → walk f side closed w b ≢ err out_of_fuel
unfolding walk
walk-total zero side closed w b h e = absurd (omega arith)
walk-total (suc f) side closed w [] h e = cc
walk-total (suc f) side closed w (c ∷ b) h e =
    bind-total (read_instruction (c ∷ b)) _ (read_instruction-total (c ∷ b))
      (λ (r : Instruction × Bytes) p.
        let lt = read_instruction-shorter (c ∷ b) r.0 r.1 p in
        walk-total f side closed (walk_instruction side closed r.0 w) r.1 (omega arith))
      e

-- `rewriteWithReplies` ends on any bytes, in either direction: the bound on its rounds is never used up.
pub rewrite_with_replies-total :
    (side : Side) (frame : Bytes) (f : ClipboardFilter)
    → rewrite_with_replies side frame f ≢ err out_of_fuel
unfolding rewrite_with_replies
rewrite_with_replies-total side frame f =
    bind-total (walk (suc (length frame)) side (direction_blocked_of side f) (start side f) frame) _
      (walk-total (suc (length frame)) side (direction_blocked_of side f) (start side f) frame
        (omega arith))
      (λ w p e. ground arith)
