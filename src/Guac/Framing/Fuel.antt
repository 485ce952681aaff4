-- ===== src/Guac/Framing/Fuel.antt =====
-- The bound on the rounds of the scan: any two above the input's length are compared.
use waas.Prelude.{
  ℕ, zero, suc, ◌+◌, ◌-◌, ◌*◌, ◌<◌, ◌≤◌, ◌≡◌, refl, [], ◌∷◌, Bytes, arith, length, drop,
}
use waas.Guac.Result.{Result}
use waas.Guac.Framing.{
  Scan, more, bad, got, scan_length, skip_runes, after_value, after_skip, after_length,
  complete_from, rune_width,
}

pub scan_length-shorter :
    (len digits p : ℕ) (b : Bytes) (n q : ℕ) (rest : Bytes)
    → scan_length len digits p b ≡ got (n, q, rest)
    → length rest < length b
unfolding scan_length
scan_length-shorter len digits p [] n q rest h = cc
scan_length-shorter len digits p (c ∷ b) n q rest h =
    ground (arith, scan_length-shorter (len * 10 + (c - b'0')) (digits + 1) (p + 1) b n q rest)

length-drop_le : (n : ℕ) (b : Bytes) → length (drop n b) ≤ length b
length-drop_le zero b = omega arith
length-drop_le (suc n) [] = omega arith
length-drop_le (suc n) (c ∷ b) = omega (arith, length-drop_le n b)

pub skip_runes-shorter :
    (n p : ℕ) (b : Bytes) (q : ℕ) (rest : Bytes)
    → skip_runes n p b ≡ got (q, rest)
    → length rest ≤ length b
unfolding skip_runes
skip_runes-shorter zero p b q rest h = ground arith
skip_runes-shorter (suc n) p [] q rest h = cc
skip_runes-shorter (suc n) p (c ∷ b) q rest h =
    let size = rune_width (c ∷ b) in
    ground (
      arith,
      skip_runes-shorter n (p + size) (drop size (c ∷ b)) q rest,
      length-drop_le size (c ∷ b),
    )

abbrev Next : Type 0
Next = ℕ → ℕ → Bytes → Result ℕ

-- Two continuations that agree on inputs below a length are not told apart by the steps.
module _ (next next' : Next) (n : ℕ)
    (same : (p last : ℕ) (b : Bytes) → length b < n → next p last b ≡ next' p last b) where
  after_value-same :
      (last p : ℕ) (b : Bytes)
      → length b ≤ n
      → after_value next last p b ≡ after_value next' last p b
  unfolding after_value
  after_value-same last p [] h = refl
  after_value-same last p (c ∷ b) h = ground (arith, same (p + 1) last b, same (p + 1) (p + 1) b)

  after_skip-same :
      (last : ℕ) (s : Scan (ℕ × Bytes))
      → ((q : ℕ) (rest : Bytes) → s ≡ got (q, rest) → length rest ≤ n)
      → after_skip next last s ≡ after_skip next' last s
  unfolding after_skip
  after_skip-same last more h = refl
  after_skip-same last (bad e) h = refl
  after_skip-same last (got (p, b)) h = after_value-same last p b (h p b refl)

  after_length-same :
      (last : ℕ) (s : Scan (ℕ × ℕ × Bytes))
      → ((len q : ℕ) (rest : Bytes) → s ≡ got (len, q, rest) → length rest ≤ n)
      → after_length next last s ≡ after_length next' last s
  unfolding after_length
  after_length-same last more h = refl
  after_length-same last (bad e) h = refl
  after_length-same last (got (len, p, b)) h =
      after_skip-same last (skip_runes len p b)
        (λ q rest e. let k = skip_runes-shorter len p b q rest e in omega (arith, h len p b refl))

pub complete_from_fuel :
    (f g p last : ℕ) (b : Bytes)
    → length b < f
    → length b < g
    → complete_from f p last b ≡ complete_from g p last b
unfolding complete_from
complete_from_fuel zero g p last b h k = absurd (omega arith)
complete_from_fuel (suc f) zero p last b h k = absurd (omega arith)
complete_from_fuel (suc f) (suc g) p last [] h k = refl
complete_from_fuel (suc f) (suc g) p last (c ∷ b) h k =
    after_length-same (complete_from f) (complete_from g) (length (c ∷ b))
      (λ q l rest lt. complete_from_fuel f g q l rest (omega arith) (omega arith)) last
      (scan_length 0 0 p (c ∷ b))
      (λ len q rest e. let lt = scan_length-shorter 0 0 p (c ∷ b) len q rest e in omega arith)
