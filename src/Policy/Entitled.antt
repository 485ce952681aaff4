-- ===== src/Policy/Entitled.antt =====
-- Who may override what.
use waas.Prelude.{
  ◌≡◌, refl, ◌≢◌, ◌↔◌, ◌⊎◌, inl, inr, Bool, true, false, not, ◌&&◌, List, [], ◌∷◌, Option, none,
  some, Bytes, codes, if◌then◌else◌, arith, equal, equal_iff, All, Bool-cases,
}
use waas.Metakeys.Merge.{lookup}
use waas.Naming.{Tables}
use waas.Policy.{Reason, override_not_allowed, protocol_mismatch, Identity, WorkspacePolicy}
use waas.Policy.Objects.{
  OverridableField, field_placement, field_resources, WorkspaceOverrides, Workspace,
  WorkspaceTemplate, WorkspaceProtocol, field_overridable, protocol_named,
}
use waas.Policy.Overrides.{
  used_collection, used_pointer, usage_of, claimed, override_claims, struct_fields, overrides_usage,
  ◌or◌, is_template_owner, policy_allows, check_field, check_fields, if_used, check_declared,
  deviates, is_admin, check_overrides, default_name, resolved_default_namespace, annotation,
  role_key,
}

pub or-none : (a b : Option Reason) → ((a or b) ≡ none) ↔ ((a ≡ none) × (b ≡ none))
or-none none b = (λ h. (refl, h), λ h. h.1)
or-none (some reason) b = (λ h. absurd cc, λ h. absurd (let e = h.0 in cc))

if_used-none :
    (used : Bool) (reason : Option Reason)
    → (if_used used reason ≡ none) ↔ (used ≡ true → reason ≡ none)
if_used-none true reason = (λ h e. h, λ h. h refl)
if_used-none false reason = (λ h e. absurd cc, λ h. refl)

used_collection-true {ℓ} : {A : Type ℓ} (xs : List A) → (used_collection xs ≡ true) ↔ (xs ≢ [])
used_collection-true [] = (λ h. absurd cc, λ h. absurd (h refl))
used_collection-true (x ∷ xs) = (λ h e. cc, λ h. refl)

used_pointer-true {ℓ} : {A : Type ℓ} (o : Option A) → (used_pointer o ≡ true) ↔ (o ≢ none)
used_pointer-true none = (λ h. absurd cc, λ h. absurd (h refl))
used_pointer-true (some x) = (λ h e. cc, λ h. refl)

-- The rights that an override block consumes, each held: volumes and their mounts share one, and so do
-- labels and annotations.
pub record EachUsed (P : OverridableField → Type 0) (ov : WorkspaceOverrides) : Type 0 where
  pub env : ov.env ≢ [] → P (codes "env")
  pub security_context : ov.security_context ≢ none → P (codes "securityContext")
  pub pod_security_context : ov.pod_security_context ≢ none → P (codes "podSecurityContext")
  pub volumes : ov.volumes ≢ [] → P (codes "volumes")
  pub volume_mounts : ov.volume_mounts ≢ [] → P (codes "volumes")
  pub node_selector : ov.node_selector ≢ [] → P (codes "nodeSelector")
  pub tolerations : ov.tolerations ≢ [] → P (codes "tolerations")
  pub protocol : ov.protocol ≢ [] → P (codes "protocol")
  pub schedule : ov.schedule ≢ none → P (codes "schedule")
  pub labels : ov.labels ≢ [] → P (codes "metadata")
  pub annotations : ov.annotations ≢ [] → P (codes "metadata")

abbrev Claim : (OverridableField → Type 0) → Option OverridableField → Type 0
Claim P none = Unit
Claim P (some field) = P field

abbrev Held : (OverridableField → Type 0) → Bytes × Bool → Type 0
Held P (json, used) = used ≡ true → Claim P (lookup json override_claims)

module _ (P : OverridableField → Type 0) where
  claimed-All :
      (o : Option OverridableField) (used : Bool) (rest : List OverridableField)
      → All P (claimed o used rest) ↔ ((used ≡ true → Claim P o) × All P rest)
  claimed-All none used rest = (λ h. (λ e. tt, h), λ h. h.1)
  claimed-All (some field) true rest = (λ h. (λ e. h.0, h.1), λ h. (h.0 refl, h.1))
  claimed-All (some field) false rest = (λ h. (λ e. absurd cc, h), λ h. h.1)

  usage_of-All : (fields : List (Bytes × Bool)) → All P (usage_of fields) ↔ All (Held P) fields
  unfolding usage_of
  usage_of-All [] = (λ h. h, λ h. h)
  usage_of-All ((json, used) ∷ fields) =
      let (there, back) = claimed-All (lookup json override_claims) used (usage_of fields) in
      let (to, fro) = usage_of-All fields in
      (λ h. let (p, r) = there h in (p, to r), λ h. back (h.0, fro h.1))

  struct_fields-EachUsed :
      (ov : WorkspaceOverrides) → All (Held P) (struct_fields ov) ↔ EachUsed P ov
  unfolding lookup equal
  struct_fields-EachUsed ov = (
    λ (a, (b, (c, (d, (e, (f, (g, (h, (i, (j, (k, l))))))))))). record {
      env = λ u. a ((used_collection-true ov.env).1 u);
      security_context = λ u. b ((used_pointer-true ov.security_context).1 u);
      pod_security_context = λ u. c ((used_pointer-true ov.pod_security_context).1 u);
      volumes = λ u. d ((used_collection-true ov.volumes).1 u);
      volume_mounts = λ u. e ((used_collection-true ov.volume_mounts).1 u);
      node_selector = λ u. f ((used_collection-true ov.node_selector).1 u);
      tolerations = λ u. g ((used_collection-true ov.tolerations).1 u);
      protocol = λ u. h ((used_collection-true ov.protocol).1 u);
      schedule = λ u. i ((used_pointer-true ov.schedule).1 u);
      labels = λ u. j ((used_collection-true ov.labels).1 u);
      annotations = λ u. k ((used_collection-true ov.annotations).1 u);
    },
    λ r. (
      λ t. r.env ((used_collection-true ov.env).0 t),
      (
        λ t. r.security_context ((used_pointer-true ov.security_context).0 t),
        (
          λ t. r.pod_security_context ((used_pointer-true ov.pod_security_context).0 t),
          (
            λ t. r.volumes ((used_collection-true ov.volumes).0 t),
            (
              λ t. r.volume_mounts ((used_collection-true ov.volume_mounts).0 t),
              (
                λ t. r.node_selector ((used_collection-true ov.node_selector).0 t),
                (
                  λ t. r.tolerations ((used_collection-true ov.tolerations).0 t),
                  (
                    λ t. r.protocol ((used_collection-true ov.protocol).0 t),
                    (
                      λ t. r.schedule ((used_pointer-true ov.schedule).0 t),
                      (
                        λ t. r.labels ((used_collection-true ov.labels).0 t),
                        (λ t. r.annotations ((used_collection-true ov.annotations).0 t), tt),
                      ),
                    ),
                  ),
                ),
              ),
            ),
          ),
        ),
      ),
    ),
  )

-- none used if there is no block
abbrev EachRight : (OverridableField → Type 0) → Option WorkspaceOverrides → Type 0
EachRight P none = Unit
EachRight P (some ov) = EachUsed P ov

overrides_usage-EachRight :
    (P : OverridableField → Type 0) (o : Option WorkspaceOverrides)
    → All P (overrides_usage o) ↔ EachRight P o
unfolding overrides_usage
overrides_usage-EachRight P none = (λ h. h, λ h. h)
overrides_usage-EachRight P (some ov) =
    let (there, back) = usage_of-All P (struct_fields ov) in
    let (to, fro) = struct_fields-EachUsed P ov in (λ h. to (there h), λ h. back (fro h))

module _ {Q : Type 0} where
  -- The template allows the field, or is the user's own; and the policy, if it restricts overrides, allows it.
  abbrev pub MayOverride :
      WorkspaceTemplate Q → Option (WorkspacePolicy Q) → Identity → OverridableField → Type 0
  MayOverride tpl pol id field =
      ((is_template_owner tpl id ≡ true) ⊎ (field_overridable tpl field ≡ true))
      × (policy_allows pol field ≡ true)

  check_field-MayOverride :
      (tpl : WorkspaceTemplate Q) (pol : Option (WorkspacePolicy Q)) (id : Identity)
      (field : OverridableField)
      → (check_field tpl pol id field ≡ none) ↔ MayOverride tpl pol id field
  check_field-MayOverride tpl pol id field =
      unfold check_field in
      by_tests (is_template_owner tpl id) (field_overridable tpl field) (policy_allows pol field)
    where
      by_tests :
          (own listed allowed : Bool)
          → ((if not own && not listed
                then some override_not_allowed
                else if not allowed
                then some override_not_allowed
                else none)
              ≡ none)
            ↔ (((own ≡ true) ⊎ (listed ≡ true)) × (allowed ≡ true))
      by_tests true listed true = (λ h. (inl refl, refl), λ h. refl)
      by_tests true listed false = (λ h. absurd cc, λ h. absurd (let e = h.1 in cc))
      by_tests false true true = (λ h. (inr refl, refl), λ h. refl)
      by_tests false true false = (λ h. absurd cc, λ h. absurd (let e = h.1 in cc))
      by_tests false false allowed =
          (λ h. absurd cc, λ h. elim h.0 [ inl e ↦ absurd cc | inr e ↦ absurd cc ])

  check_fields-MayOverride :
      (tpl : WorkspaceTemplate Q) (pol : Option (WorkspacePolicy Q)) (id : Identity)
      (fields : List OverridableField)
      → (check_fields tpl pol id fields ≡ none) ↔ All (MayOverride tpl pol id) fields
  unfolding check_fields
  check_fields-MayOverride tpl pol id [] = (λ h. tt, λ h. refl)
  check_fields-MayOverride tpl pol id (field ∷ fields) =
      let (split, join) = or-none (check_field tpl pol id field) (check_fields tpl pol id fields) in
      let (there, back) = check_field-MayOverride tpl pol id field in
      let (to, fro) = check_fields-MayOverride tpl pol id fields in
      (λ h. let (a, b) = split h in (there a, to b), λ h. join (back h.0, fro h.1))

  -- The protocol that the block picks, if any, is one of the template's.
  abbrev pub PicksDeclared : WorkspaceTemplate Q → Option WorkspaceOverrides → Type 0
  PicksDeclared tpl none = Unit
  PicksDeclared tpl (some ov) = ov.protocol ≢ [] → protocol_named tpl ov.protocol ≢ none

  check_declared-PicksDeclared :
      (tpl : WorkspaceTemplate Q) (o : Option WorkspaceOverrides)
      → (check_declared tpl o ≡ none) ↔ PicksDeclared tpl o
  unfolding equal
  check_declared-PicksDeclared tpl none = (λ h. tt, λ h. refl)
  check_declared-PicksDeclared tpl (some ov) = by_tests ov.protocol (protocol_named tpl ov.protocol)
    where
      by_tests :
          (p : Bytes) (o : Option WorkspaceProtocol)
          → ((if not (equal p []) && not (used_pointer o) then some protocol_mismatch else none)
              ≡ none)
            ↔ (p ≢ [] → o ≢ none)
      by_tests [] o = (λ h k. absurd (k refl), λ h. refl)
      by_tests (c ∷ p) none = (λ h. absurd cc, λ h. absurd (h (λ e. cc) refl))
      by_tests (c ∷ p) (some x) = (λ h k e. cc, λ h. refl)

  -- What a user who is no administrator is entitled to.
  pub record IsEntitled (tables : Tables) (ws : Workspace Q) (tpl : WorkspaceTemplate Q)
      (pol : Option (WorkspacePolicy Q)) (id : Identity) (global : Bytes) : Type 0 where
    pub placement :
        ws.target_namespace ≢ []
        → ws.target_namespace ≢ default_name (resolved_default_namespace tables ws tpl id global)
        → MayOverride tpl pol id field_placement
    pub resources : ws.resources ≢ none → MayOverride tpl pol id field_resources
    pub each : EachRight (MayOverride tpl pol id) ws.overrides
    pub declared : PicksDeclared tpl ws.overrides

  -- `CheckOverrides` lets a workspace through exactly if its creator is an administrator, or holds the right to
  -- each thing that it overrides (a target namespace other than the resolved default, a sizing, and every field
  -- of the override block that is set) and picks a protocol that the template declares. A right is held if the
  -- policy does not take it away, and the template lists it or is the creator's own.
  pub check_overrides-IsEntitled :
      (tables : Tables) (ws : Workspace Q) (tpl : WorkspaceTemplate Q)
      (pol : Option (WorkspacePolicy Q)) (id : Identity) (global : Bytes)
      → (check_overrides tables ws tpl pol id global ≡ none) ↔ (
          (annotation role_key ws.annotations ≡ codes "admin")
          ⊎ IsEntitled tables ws tpl pol id global)
  unfolding check_overrides
  check_overrides-IsEntitled tables ws tpl pol id global = elim (Bool-cases (is_admin ws)) [
    | inl e ↦ rw e (
        (
          λ h. inl ((equal_iff (annotation role_key ws.annotations) (codes "admin")).0 e),
          λ h. refl,
        ))
    | inr e ↦ rw e (
        (
          λ h. inr (rights.0 h),
          λ h. elim h [
            | inl admin ↦ absurd (
                let t = (equal_iff (annotation role_key ws.annotations) (codes "admin")).1 admin in
                cc)
            | inr entitled ↦ rights.1 entitled
          ],
        ))
  ]
    where
      deviates-true : (deviates tables ws tpl id global ≡ true) ↔ (
          (ws.target_namespace ≢ [])
          × (ws.target_namespace
              ≢ default_name (resolved_default_namespace tables ws tpl id global)))
      deviates-true =
          let ns : Bytes = ws.target_namespace in
          let def : Bytes = default_name (resolved_default_namespace tables ws tpl id global) in
          (
            λ h. (
              λ e. let t = (equal_iff ns []).1 e in ground arith,
              λ e. let t = (equal_iff ns def).1 e in ground arith,
            ),
            λ h. both ns def h.0 h.1,
          )
        where
          both :
              (ns def : Bytes) → ns ≢ [] → ns ≢ def → not (equal ns []) && not (equal ns def) ≡ true
          both ns def h k = elim (Bool-cases (equal ns [])) [
            | inl e ↦ absurd (h ((equal_iff ns []).0 e))
            | inr e ↦ elim (Bool-cases (equal ns def)) [
              | inl f ↦ absurd (k ((equal_iff ns def).0 f))
              | inr f ↦ ground arith
            ]
          ]

      placement_reason : Option Reason
      placement_reason =
          if_used (deviates tables ws tpl id global) (check_field tpl pol id field_placement)

      resources_reason : Option Reason
      resources_reason =
          if_used (used_pointer ws.resources) (check_field tpl pol id field_resources)

      fields_reason : Option Reason
      fields_reason = check_fields tpl pol id (overrides_usage ws.overrides)

      rights :
          ((placement_reason
              or resources_reason
              or fields_reason
              or check_declared tpl ws.overrides)
            ≡ none)
          ↔ IsEntitled tables ws tpl pol id global
      rights =
          let (split, join) =
            or-none placement_reason
              (resources_reason or fields_reason or check_declared tpl ws.overrides) in
          let (split', join') =
            or-none resources_reason (fields_reason or check_declared tpl ws.overrides) in
          let (split'', join'') = or-none fields_reason (check_declared tpl ws.overrides) in
          let placed =
            if_used-none (deviates tables ws tpl id global)
              (check_field tpl pol id field_placement) in
          let sized =
            if_used-none (used_pointer ws.resources) (check_field tpl pol id field_resources) in
          let may = check_field-MayOverride tpl pol id in
          let fields = check_fields-MayOverride tpl pol id (overrides_usage ws.overrides) in
          let each_right = overrides_usage-EachRight (MayOverride tpl pol id) ws.overrides in
          let picks = check_declared-PicksDeclared tpl ws.overrides in
          (
            λ h.
                let (a, r) = split h in
                let (b, r') = split' r in
                let (c, d) = split'' r' in
                record {
                  placement = λ n m. (may field_placement).0 (placed.0 a (deviates-true.1 (n, m)));
                  resources = λ n.
                      (may field_resources).0 (sized.0 b ((used_pointer-true ws.resources).1 n));
                  each = each_right.0 (fields.0 c);
                  declared = picks.0 d;
                },
            λ h. join (
              placed.1 (λ t.
                  (may field_placement).1
                    (h.placement (deviates-true.0 t).0 (deviates-true.0 t).1)),
              join' (
                sized.1 (λ t.
                    (may field_resources).1 (h.resources ((used_pointer-true ws.resources).0 t))),
                join'' (fields.1 (each_right.1 h.each), picks.1 h.declared),
              ),
            ),
          )
