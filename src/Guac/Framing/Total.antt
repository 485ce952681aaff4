-- ===== src/Guac/Framing/Total.antt =====
-- The end of `completePrefix` on any input, and what becomes of the bytes of a `Push`.
use waas.Prelude.{
  ℕ, zero, suc, ◌+◌, ◌-◌, ◌*◌, ◌<◌, ◌≤◌, ◌≡◌, refl, ◌≢◌, ap, [], ◌∷◌, ◌++◌, Option, none, some,
  Bytes, arith, length, drop, take-append-drop,
}
use waas.Guac.Result.{out_of_fuel, Result, ok, err, err_injective}
use waas.Guac.Instruction.{max_pending_bytes}
use waas.Guac.Framing.{
  Scan, more, bad, got, scan_length, skip_runes, after_value, after_skip, after_length,
  complete_from, rune_width, complete_prefix, Framer, push, emit, refill,
}
use waas.Guac.Framing.Fuel.{scan_length-shorter, skip_runes-shorter}
use waas.Guac.Framing.Frames.{pending}

scan_length-total : (len digits p : ℕ) (b : Bytes) → scan_length len digits p b ≢ bad out_of_fuel
unfolding scan_length
scan_length-total len digits p [] h = cc
scan_length-total len digits p (c ∷ b) h =
    ground (arith, scan_length-total (len * 10 + (c - b'0')) (digits + 1) (p + 1) b)

skip_runes-total : (n p : ℕ) (b : Bytes) → skip_runes n p b ≢ bad out_of_fuel
unfolding skip_runes
skip_runes-total zero p b h = cc
skip_runes-total (suc n) p [] h = cc
skip_runes-total (suc n) p (c ∷ b) h =
    let size = rune_width (c ∷ b) in
    ground (arith, skip_runes-total n (p + size) (drop size (c ∷ b)))

module _ (next : ℕ → ℕ → Bytes → Result ℕ) (n : ℕ)
    (total : (p last : ℕ) (b : Bytes) → length b < n → next p last b ≢ err out_of_fuel) where
  after_value-total :
      (last p : ℕ) (b : Bytes) → length b ≤ n → after_value next last p b ≢ err out_of_fuel
  unfolding after_value
  after_value-total last p [] h e = cc
  after_value-total last p (c ∷ b) h e =
      ground (arith, total (p + 1) last b, total (p + 1) (p + 1) b)

  after_skip-total :
      (last : ℕ) (s : Scan (ℕ × Bytes))
      → s ≢ bad out_of_fuel
      → ((q : ℕ) (rest : Bytes) → s ≡ got (q, rest) → length rest ≤ n)
      → after_skip next last s ≢ err out_of_fuel
  unfolding after_skip
  after_skip-total last more t h e = cc
  after_skip-total last (bad x) t h e = t (ap bad (err_injective {A = ℕ} x out_of_fuel e))
  after_skip-total last (got (p, b)) t h e = after_value-total last p b (h p b refl) e

  after_length-total :
      (last : ℕ) (s : Scan (ℕ × ℕ × Bytes))
      → s ≢ bad out_of_fuel
      → ((len q : ℕ) (rest : Bytes) → s ≡ got (len, q, rest) → length rest ≤ n)
      → after_length next last s ≢ err out_of_fuel
  unfolding after_length
  after_length-total last more t h e = cc
  after_length-total last (bad x) t h e = t (ap bad (err_injective {A = ℕ} x out_of_fuel e))
  after_length-total last (got (len, p, b)) t h e =
      after_skip-total last (skip_runes len p b) (skip_runes-total len p b)
        (λ q rest k. let s = skip_runes-shorter len p b q rest k in omega (arith, h len p b refl)) e

complete_from-total :
    (f p last : ℕ) (b : Bytes) → length b < f → complete_from f p last b ≢ err out_of_fuel
unfolding complete_from
complete_from-total zero p last b h e = absurd (omega arith)
complete_from-total (suc f) p last [] h e = cc
complete_from-total (suc f) p last (c ∷ b) h e =
    after_length-total (complete_from f) (length (c ∷ b))
      (λ q l rest lt. complete_from-total f q l rest (omega arith)) last (scan_length 0 0 p (c ∷ b))
      (scan_length-total 0 0 p (c ∷ b))
      (λ len q rest k. let lt = scan_length-shorter 0 0 p (c ∷ b) len q rest k in omega arith) e

-- `completePrefix` ends on any bytes: the bound on its rounds is never used up.
pub complete_prefix-total : (b : Bytes) → complete_prefix b ≢ err out_of_fuel
unfolding complete_prefix
complete_prefix-total b = complete_from-total (suc (length b)) 0 0 b (omega arith)

abbrev pub bytes_of : Option Bytes → Bytes
bytes_of none = []
bytes_of (some b) = b

emit-conserves :
    (buf : Bytes) (r : Result ℕ) (o : Option Bytes)
    → (emit buf r).1 ≡ ok o
    → (bytes_of o ++ pending (emit buf r).0 ≡ buf)
      × (o ≡ none → length (pending (emit buf r).0) ≤ max_pending_bytes)
unfolding emit
emit-conserves buf (err e) o h = absurd (ground arith)
emit-conserves buf (ok zero) o h = (ground arith, ground arith)
emit-conserves buf (ok (suc n)) none h = absurd (ground arith)
emit-conserves buf (ok (suc n)) (some b) h =
    (ground (arith, take-append-drop (suc n) buf), λ e. absurd (ground arith))

-- On any bytes, a `Push` that reports no error loses, invents and reorders nothing: its frame and
-- what it holds back are what it held back before and the new bytes. With no frame it holds back at
-- most `MaxPendingBytes`.
pub push-conserves :
    (f : Framer) (input : Bytes) (o : Option Bytes)
    → (push f input).1 ≡ ok o
    → (bytes_of o ++ pending (push f input).0 ≡ pending f ++ input)
      × (o ≡ none → length (pending (push f input).0) ≤ max_pending_bytes)
unfolding push
push-conserves f input o h = emit-conserves (refill f input) (complete_prefix (refill f input)) o h
