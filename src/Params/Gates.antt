-- ===== src/Params/Gates.antt =====
-- Which values the gates let through.
use waas.Prelude.{
  ℕ, ◌≤◌, ◌≡◌, refl, sym, ◌≢◌, ◌↔◌, ◌⊎◌, inl, inr, Bool, true, false, not, ◌&&◌, List, [], ◌∷◌,
  Option, none, some, Bytes, codes, arith, if◌then◌else◌, ◌==◌, equal, equal_iff, In, All,
  Bool-cases,
}
use mathlib.Core.Path.{subst}
use waas.Guac.Decimal.{ℤ, pos, negsuc, atoi}
use waas.Params.Types.{Param, platform, Kind, text, boolean, integer, choice}
use waas.Params.{
  is_in, tier_rank, lookup, Problem, Violation, violation, or_next, value_problem, below, above,
  check_override, validate_user_overrides, not_integer, too_small, too_large, not_registered,
  platform_parameter, not_configurable,
}
use waas.Params.Listing.{is_in_iff}
use waas.Params.Delegation.{or_next-none, not-platform, user-rank}

-- no bound, or a number on the right side of it
abbrev AtLeast : Option ℕ → ℤ → Type 0
AtLeast none n = Unit
AtLeast (some least) (pos n) = least ≤ n
AtLeast (some least) (negsuc n) = ⊥

abbrev AtMost : Option ℕ → ℤ → Type 0
AtMost none n = Unit
AtMost (some most) (pos n) = n ≤ most
AtMost (some most) (negsuc n) = Unit

-- The values of a kind.
abbrev pub IsValue : Kind → Bytes → Type 0
IsValue text value = Unit
IsValue boolean value = (value ≡ codes "true") ⊎ (value ≡ codes "false")
IsValue (integer least most) value =
    (n : ℤ) × (atoi value ≡ some n) × AtLeast least n × AtMost most n
IsValue (choice values) value = In value values

below_iff : (least : Option ℕ) (n : ℤ) → (below least n ≡ false) ↔ AtLeast least n
below_iff none n = (λ h. tt, λ h. refl)
below_iff (some least) (pos n) = (λ h. ground arith, λ h. ground arith)
below_iff (some least) (negsuc n) = (λ h. absurd cc, λ h. elim h [ ])

above_iff : (most : Option ℕ) (n : ℤ) → (above most n ≡ false) ↔ AtMost most n
above_iff none n = (λ h. tt, λ h. refl)
above_iff (some most) (pos n) = (λ h. ground arith, λ h. ground arith)
above_iff (some most) (negsuc n) = (λ h. tt, λ h. refl)

in_bounds :
    (b c : Bool)
    → (if b then some too_small else if c then some too_large else none) ≡ none
    → (b ≡ false) × (c ≡ false)
in_bounds true c h = absurd cc
in_bounds false true h = absurd cc
in_bounds false false h = (refl, refl)

value_problem-IsValue :
    (kind : Kind) (value : Bytes) → (value_problem kind value ≡ none) ↔ IsValue kind value
value_problem-IsValue text value = (λ h. tt, λ h. unfold value_problem in refl)
value_problem-IsValue boolean value =
    unfold value_problem in
    elim (Bool-cases (equal value (codes "true"))) [
      | inl e ↦ rw e ((λ h. inl ((equal_iff value (codes "true")).0 e), λ h. refl))
      | inr e ↦ rw e (elim (Bool-cases (equal value (codes "false"))) [
        | inl f ↦ rw f ((λ h. inr ((equal_iff value (codes "false")).0 f), λ h. refl))
        | inr f ↦ rw f (
            (
              λ h. absurd cc,
              λ h. elim h [
                | inl a ↦ absurd (let t = (equal_iff value (codes "true")).1 a in cc)
                | inr a ↦ absurd (let t = (equal_iff value (codes "false")).1 a in cc)
              ],
            ))
      ])
    ]
value_problem-IsValue (integer least most) value = unfold value_problem in by_number (atoi value)
  where
    by_number :
        (o : Option ℤ)
        → ((elim o as (λ _. Option Problem) [
          | none ↦ some not_integer
          | some n ↦
              if below least n
              then some too_small
              else if above most n
              then some too_large
              else none
        ])
            ≡ none)
          ↔ ((n : ℤ) × (o ≡ some n) × AtLeast least n × AtMost most n)
    by_number none = (λ h. absurd cc, λ h. absurd (let (n, e, a, b) = h in cc))
    by_number (some n) = (
      λ h.
          let (low, high) = in_bounds (below least n) (above most n) h in
          (n, refl, (below_iff least n).0 low, (above_iff most n).0 high),
      λ h.
          let (m, e, a, b) = h in
          let same : m ≡ n = cc in
          let low : below least n ≡ false = (below_iff least n).1 (subst (AtLeast least) same a) in
          let high : above most n ≡ false = (above_iff most n).1 (subst (AtMost most) same b) in
          rw (low, high) refl,
    )
value_problem-IsValue (choice values) value =
    unfold value_problem in
    elim (Bool-cases (is_in value values)) [
      | inl e ↦ rw e ((λ h. (is_in_iff value values).0 e, λ h. refl))
      | inr e ↦ rw e ((λ h. absurd cc, λ h. absurd (let t = (is_in_iff value values).1 h in cc)))
    ]

-- A value that a user may set: a parameter of the protocol that the platform does not own, on the
-- allow-list unless the user is an administrator, and a value of its kind.
abbrev pub MaySet : Bytes → List Bytes → Bool → Bytes × Bytes → Type 0
MaySet protocol allow_list admin (name, value) =
    (p : Param) × (lookup protocol name ≡ some p)
    × (p.tier ≢ platform)
    × ((admin ≡ true) ⊎ In name allow_list)
    × IsValue p.kind value

allowed_iff :
    (allow_list : List Bytes) (admin : Bool) (name : Bytes)
    → (not admin && not (is_in name allow_list) ≡ false) ↔ ((admin ≡ true) ⊎ In name allow_list)
allowed_iff allow_list true name = (λ h. inl refl, λ h. refl)
allowed_iff allow_list false name = (
  λ h. inr ((is_in_iff name allow_list).0 (ground arith)),
  λ h. elim h [ inl e ↦ absurd cc | inr i ↦ let t = (is_in_iff name allow_list).1 i in rw t refl ],
)

violation-none : (name : Bytes) (o : Option Problem) → (violation name o ≡ none) ↔ (o ≡ none)
violation-none name none = (λ h. refl, λ h. refl)
violation-none name (some problem) = (λ h. absurd cc, λ h. absurd cc)

passed :
    (b c : Bool) (v w x : Option Violation)
    → v ≢ none
    → w ≢ none
    → (if b then v else if c then w else x) ≡ none
    → (b ≡ false) × (c ≡ false) × (x ≡ none)
passed true c v w x hv hw h = absurd (hv h)
passed false true v w x hv hw h = absurd (hw h)
passed false false v w x hv hw h = (refl, refl, h)

check_override-MaySet :
    (protocol : Bytes) (allow_list : List Bytes) (admin : Bool) (name value : Bytes)
    → (check_override protocol allow_list admin name value ≡ none)
      ↔ MaySet protocol allow_list admin (name, value)
check_override-MaySet protocol allow_list admin name value =
    unfold check_override in by_lookup (lookup protocol name)
  where
    by_lookup :
        (o : Option Param)
        → ((elim o as (λ _. Option Violation) [
          | none ↦ violation name (some not_registered)
          | some p ↦
              if tier_rank p.tier == 2
              then violation name (some platform_parameter)
              else if not admin && not (is_in name allow_list)
              then violation name (some not_configurable)
              else violation p.name (value_problem p.kind value)
        ])
            ≡ none)
          ↔ ((p : Param) × (o ≡ some p)
              × (p.tier ≢ platform)
              × ((admin ≡ true) ⊎ In name allow_list)
              × IsValue p.kind value)
    by_lookup none = (λ h. absurd cc, λ h. absurd (let (p, e, t, a, v) = h in cc))
    by_lookup (some p) = (
      λ h.
          let (user, open_, fine) =
            passed (tier_rank p.tier == 2) (not admin && not (is_in name allow_list))
              (violation name (some platform_parameter)) (violation name (some not_configurable))
              (violation p.name (value_problem p.kind value)) (λ e. cc) (λ e. cc) h in
          (
            p,
            refl,
            not-platform p.tier user,
            (allowed_iff allow_list admin name).0 open_,
            (value_problem-IsValue p.kind value).0
                ((violation-none p.name (value_problem p.kind value)).0 fine),
          ),
      λ h.
          let (q, e, user, allowed, fine) = h in
          let same : p ≡ q = cc in
          let tier = user-rank p.tier (subst (λ r. r.tier ≢ platform) (sym same) user) in
          let open_ : not admin && not (is_in name allow_list) ≡ false =
            (allowed_iff allow_list admin name).1 allowed in
          let value_fine = (violation-none p.name (value_problem p.kind value)).1 (
            (value_problem-IsValue p.kind value).1
              (subst (λ r. IsValue r.kind value) (sym same) fine)) in
          rw (tier, open_) value_fine,
    )

or_next_iff : (v w : Option Violation) → (or_next v w ≡ none) ↔ ((v ≡ none) × (w ≡ none))
or_next_iff v w = (or_next-none v w, λ h. rw (h.0) h.1)

-- `ValidateUserOverrides` accepts a map exactly if every entry is one that the user may set: the parameter
-- is registered for the protocol, the platform does not own it, it is on the allow-list or the user is an
-- administrator, and the value is one of its kind, within its bounds or among its choices.
pub validate_user_overrides-MaySet :
    (protocol : Bytes) (entries : List (Bytes × Bytes)) (allow_list : List Bytes) (admin : Bool)
    → (validate_user_overrides protocol entries allow_list admin ≡ none)
      ↔ All (MaySet protocol allow_list admin) entries
unfolding validate_user_overrides
validate_user_overrides-MaySet protocol [] allow_list admin = (λ h. tt, λ h. refl)
validate_user_overrides-MaySet protocol ((name, value) ∷ entries) allow_list admin =
    let (there, back) = check_override-MaySet protocol allow_list admin name value in
    let (to, fro) = validate_user_overrides-MaySet protocol entries allow_list admin in
    let (split, join) =
      or_next_iff (check_override protocol allow_list admin name value)
        (validate_user_overrides protocol entries allow_list admin) in
    (λ h. let (first, later) = split h in (there first, to later), λ h. join (back h.0, fro h.1))
