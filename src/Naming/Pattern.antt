-- ===== src/Naming/Pattern.antt =====
-- The room that a pattern leaves for its placeholders.
use waas.Prelude.{
  ℕ, zero, suc, ◌+◌, ◌-◌, ◌*◌, ◌<◌, ◌≤◌, ◌≡◌, refl, ap, Bool, true, false, ◌&&◌, List, [], ◌∷◌,
  ◌++◌, Option, none, some, Bytes, codes, arith, if◌then◌else◌, equal, length, length-append,
}
use waas.Naming.{
  Tables, PatternValues, Piece, char, token, by_token, literal_length, token_count, divide,
  budget_of, expand, expand_token, prepend, normalize_label, identity_segment, fit_segment,
}
use waas.Naming.Label.{fit_segment-IsLabel}

budget_fits : (lit n : ℕ) → 0 < n → 7 ≤ divide (63 - lit) n → lit + n * divide (63 - lit) n ≤ 63
budget_fits lit zero pos h = absurd (omega arith)
budget_fits lit (suc n) pos h = grind arith

divide-small : (room n : ℕ) → room ≤ 63 → divide room n ≤ 63
divide-small room zero h = omega arith
divide-small room (suc n) h = grind arith

module _ (tables : Tables) (digest_length : (raw : Bytes) → length (tables.digest raw) ≡ 32) where
  fits :
      (raw out : Bytes) {budget : ℕ}
      → 7 ≤ budget
      → budget ≤ 63
      → some (fit_segment tables raw budget) ≡ some out
      → length out ≤ budget
  fits raw out {budget} room small e =
      let le = (fit_segment-IsLabel tables digest_length raw budget room small).1 in
      let same : fit_segment tables raw budget ≡ out = cc in omega (arith, le, ap length same)

  expand_token-length :
      (v : PatternValues) (budget : ℕ) (t out : Bytes)
      → 7 ≤ budget
      → budget ≤ 63
      → expand_token tables v budget t ≡ some out
      → length out ≤ budget
  unfolding expand_token
  expand_token-length v budget t out room small = by_value (by_token v t)
    where
      by_value :
          (r : Option Bytes)
          → (elim r as (λ _. Option Bytes) [
            | none ↦ some (fit_segment tables [] budget)
            | some raw ↦
                if equal t (codes "user") && equal (normalize_label tables raw 63) []
                then (if equal v.user_id []
                    then none
                    else some (fit_segment tables (identity_segment tables v.user_id) budget))
                else some (fit_segment tables raw budget)
          ])
            ≡ some out
          → length out ≤ budget
      by_value none = fits [] out room small
      by_value (some raw) =
          by_tests (equal t (codes "user") && equal (normalize_label tables raw 63) [])
            (equal v.user_id [])
        where
          by_tests :
              (b d : Bool)
              → (if b
                  then (if d
                      then none
                      else some (fit_segment tables (identity_segment tables v.user_id) budget))
                  else some (fit_segment tables raw budget))
                ≡ some out
              → length out ≤ budget
          by_tests true true = λ e. absurd cc
          by_tests true false = fits (identity_segment tables v.user_id) out room small
          by_tests false d = fits raw out room small

  expand-length :
      (v : PatternValues) (budget : ℕ) (ps : List Piece) (out : Bytes)
      → 7 ≤ budget
      → budget ≤ 63
      → expand tables v budget ps ≡ some out
      → length out ≤ literal_length ps + token_count ps * budget
  unfolding expand literal_length token_count
  expand-length v budget [] out room small =
      λ e. let same : [] ≡ out = cc in omega (arith, ap length same)
  expand-length v budget (char c ∷ ps) out room small =
      by_rest (expand tables v budget ps) refl (λ rest. expand-length v budget ps rest room small)
    where
      by_rest :
          (r : Option Bytes)
          → expand tables v budget ps ≡ r
          → ((rest : Bytes)
              → expand tables v budget ps ≡ some rest
              → length rest ≤ literal_length ps + token_count ps * budget)
          → prepend tables (some (c ∷ [])) r ≡ some out
          → length out ≤ suc (literal_length ps) + token_count ps * budget
      by_rest none k ih e = absurd cc
      by_rest (some rest) k ih e =
          let same : c ∷ rest ≡ out = cc in omega (arith, ap length same, ih rest k)
  expand-length v budget (token t ∷ ps) out room small =
      by_parts (expand_token tables v budget t) (expand tables v budget ps) refl refl
        (λ rest. expand-length v budget ps rest room small)
    where
      by_parts :
          (o r : Option Bytes)
          → expand_token tables v budget t ≡ o
          → expand tables v budget ps ≡ r
          → ((rest : Bytes)
              → expand tables v budget ps ≡ some rest
              → length rest ≤ literal_length ps + token_count ps * budget)
          → prepend tables o r ≡ some out
          → length out ≤ literal_length ps + suc (token_count ps) * budget
      by_parts none r k k' ih e = absurd cc
      by_parts (some s) none k k' ih e = absurd cc
      by_parts (some s) (some rest) k k' ih e =
          let same : s ++ rest ≡ out = cc in
          let le = expand_token-length v budget t s room small k in
          let le' = ih rest k' in grind (arith, ap length same, length-append s rest)

  -- If at least one placeholder stands in a pattern and there are seven bytes for each, then the expansion
  -- fits a namespace name: it has at most 63 bytes.
  pub expand-fits :
      (v : PatternValues) (ps : List Piece) (out : Bytes)
      → 0 < token_count ps
      → 7 ≤ budget_of ps
      → expand tables v (budget_of ps) ps ≡ some out
      → length out ≤ 63
  expand-fits v ps out some_token room e =
      let small = divide-small (63 - literal_length ps) (token_count ps) (omega arith) in
      let le = expand-length v (budget_of ps) ps out room small e in
      let fit = budget_fits (literal_length ps) (token_count ps) some_token room in grind arith
