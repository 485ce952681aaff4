-- ===== src/Naming/Personal.antt =====
-- The namespace of one user.
use waas.Prelude.{
  ◌≡◌, refl, ◌∙◌, ap, sym, ◌≢◌, inl, inr, true, false, ◌||◌, [], ◌++◌, none, some, Bytes, codes,
  arith, if◌then◌else◌, equal, equal_iff, equal_refl, length, append-nil, has_prefix, Bool-cases,
}
use waas.Naming.{
  Tables, builtin_pattern, PatternValues, pieces_from, by_token, all_known, has_brace,
  literal_length, token_count, expand, expand_token, prepend, validated, resolve_pieces,
  resolve_namespace, name, failed, normalize_label, fit_segment, identity_segment, validate_label,
  personal_namespace, is_personal_namespace_of,
}
use waas.Naming.Label.{IsLabel, IsLabel-append, validate_label-IsLabel, fit_segment-IsLabel}

waas-IsLabel : (seg : Bytes) → IsLabel seg → IsLabel (codes "waas-" ++ seg)
waas-IsLabel seg label =
    IsLabel-append (codes "waas") seg
      (record { inner = (refl, (refl, (refl, (refl, tt)))); begins = refl; closes = refl })
      label.inner label.closes

module _ (tables : Tables) where
  user_segment :
      (v : PatternValues)
      → v.user_id ≢ []
      → (raw : Bytes) × (expand_token tables v 58 (codes "user") ≡ some (fit_segment tables raw 58))
  unfolding expand_token by_token equal
  user_segment v given = elim (Bool-cases (equal (normalize_label tables v.user 63) [])) [
    | inr e ↦ (v.user, rw e refl)
    | inl e ↦ elim (Bool-cases (equal v.user_id [])) [
      | inl e' ↦ absurd (given ((equal_iff v.user_id []).0 e'))
      | inr e' ↦ (identity_segment tables v.user_id, rw e (rw e' refl))
    ]
  ]

  builtin :
      (v : PatternValues)
      → (s : Bytes) → expand_token tables v 58 (codes "user") ≡ some s
      → resolve_namespace tables builtin_pattern v
        ≡ validated tables (some (codes "waas-" ++ (s ++ [])))
  unfolding resolve_namespace resolve_pieces pieces_from by_token all_known has_brace literal_length
      token_count expand equal
  builtin v s e =
      ap
        (λ o. validated tables (
          prepend tables (some (codes "w")) (
            prepend tables (some (codes "a")) (
              prepend tables (some (codes "a")) (
                prepend tables (some (codes "s"))
                  (prepend tables (some (codes "-")) (prepend tables o (some []))))))))
        e

  validated-name :
      (out : Bytes) → validate_label out ≡ none → validated tables (some out) ≡ name out
  validated-name out e = rw (e, validated) refl

module _ (tables : Tables) (digest_length : (raw : Bytes) → length (tables.digest raw) ≡ 32) where
  personal-segment :
      (username user_id : Bytes)
      → user_id ≢ []
      → (raw : Bytes) × (personal_namespace tables username user_id
          ≡ codes "waas-" ++ fit_segment tables raw 58)
  unfolding personal_namespace
  personal-segment username user_id given =
      let v : PatternValues = record {
        user = username;
        user_id = user_id;
        workspace = [];
        template_name = [];
        os = [];
      } in
      let (raw, e) = user_segment tables v given in
      let seg : Bytes = fit_segment tables raw 58 in
      let (label, le) =
        fit_segment-IsLabel tables digest_length raw 58 (omega arith) (omega arith) in
      let valid =
        validate_label-IsLabel (codes "waas-" ++ seg) (waas-IsLabel seg label) (omega arith) in
      (
        raw,
        ap (λ r. elim r as (λ _. Bytes) [ name ns ↦ ns | failed x ↦ [] ])
            (builtin tables v seg e
              ∙ ap (λ t. validated tables (some (codes "waas-" ++ t))) (append-nil seg)
              ∙ validated-name tables (codes "waas-" ++ seg) valid),
      )

  -- Every account has a personal namespace, whatever its username: the built-in pattern resolves to a
  -- valid namespace name of at most 63 bytes that begins with "waas-", and it is the user's own.
  pub personal_namespace-IsLabel :
      (username user_id : Bytes)
      → user_id ≢ []
      → (seg : Bytes) × (personal_namespace tables username user_id ≡ codes "waas-" ++ seg)
        × (validate_label (personal_namespace tables username user_id) ≡ none)
        × (is_personal_namespace_of tables username user_id
              (personal_namespace tables username user_id)
            ≡ true)
  unfolding is_personal_namespace_of
  personal_namespace-IsLabel username user_id given =
      let (raw, e) = personal-segment username user_id given in
      let seg : Bytes = fit_segment tables raw 58 in
      let (label, le) =
        fit_segment-IsLabel tables digest_length raw 58 (omega arith) (omega arith) in
      (
        seg,
        e,
        ap validate_label e
            ∙ validate_label-IsLabel (codes "waas-" ++ seg) (waas-IsLabel seg label) (omega arith),
        own (personal_namespace tables username user_id) (λ empty. let k = sym empty ∙ e in cc),
      )
    where
      own :
          (ns : Bytes)
          → ns ≢ []
          → (if equal ns [] || equal ns []
              then false
              else equal ns ns || has_prefix ns (ns ++ codes "-"))
            ≡ true
      own ns filled =
          let r = equal_refl ns in
          elim (Bool-cases (equal ns [])) [
            | inl e ↦ absurd (filled ((equal_iff ns []).0 e))
            | inr e ↦ ground arith
          ]
