-- ===== src/Controller/Owned.antt =====
-- The labels of the namespaces that the operator creates.
use waas.Prelude.{
  All, All-append, In-All, ◌≡◌, refl, ◌∙◌, ap, sym, ◌≢◌, inl, inr, Bool, true, false, not, ◌&&◌,
  List, [], ◌∷◌, Option, none, some, Bytes, if◌then◌else◌, equal, equal_iff, In, Bool-cases,
}
use mathlib.Core.Path.{subst}
use waas.Metakeys.{Meta, merge_allowed, check_key, cut, has_suffix}
use waas.Metakeys.Merge.{lookup, IsMap, or_else, if_fine, lookup-merge_allowed}
use waas.Naming.{Tables}
use waas.Policy.Objects.{
  Workspace, WorkspaceTemplate, effective_target_namespace, cleanup_policy_or_default,
}
use waas.Policy.Overrides.{annotation}
use waas.Controller.{label_managed_by, manager_name, label_owner, label_cleanup}
use waas.Controller.Status.{Fetch, found, not_found, failed}
use waas.Controller.Janitor.{Namespace}
use waas.Controller.Placement.{
  NetworkPolicy, Call, create_namespace, update_policy, create_quota, Config, Answers, Work, ◌next◌,
  platform_labels, is_personal_namespace, accepted, with_namespace, bootstrap_namespace, label_work,
  policy_work, same_policy, desired_policy, workspace_owner_labels, nothing_of,
  ensure_namespace_policy, ensure_namespace, namespace_quota, missing_cleanup,
}

abbrev is_create : {Q : Type 0} → Call Q → Bool
is_create (create_namespace name labels annotations) = true
is_create call = false

-- The work creates no namespace.
abbrev CreatesNone : {Q : Type 0} → Work Q → Type 0
CreatesNone w = All (λ c. is_create c ≡ false) w.0

next-CreatesNone :
    {Q : Type 0} (v w : Work Q) → CreatesNone v → CreatesNone w → CreatesNone (v next w)
next-CreatesNone (calls, false) w h k = h
next-CreatesNone (calls, true) (more, ok) h k = All-append (λ c. is_create c ≡ false) calls more h k

if-CreatesNone :
    {Q : Type 0} (b : Bool) (v w : Work Q)
    → CreatesNone v
    → CreatesNone w
    → CreatesNone (if b then v else w)
if-CreatesNone true v w h k = h
if-CreatesNone false v w h k = k

In-none :
    {Q : Type 0} (c : Call Q) (cs : List (Call Q))
    → is_create c ≡ true
    → All (λ c. is_create c ≡ false) cs
    → In c cs
    → ⊥
In-none c cs k h i = let e = In-All (λ c. is_create c ≡ false) c cs h i in cc

In-next :
    {Q : Type 0} (c d : Call Q) (b : Bool) (w : Work Q)
    → is_create c ≡ true
    → CreatesNone w
    → In c ((d ∷ [], b) next w).0
    → c ≡ d
In-next c d false w k h i = elim i [ inl e ↦ e | inr j ↦ elim j [ ] ]
In-next c d true (more, ok) k h i = elim i [ inl e ↦ e | inr j ↦ absurd (In-none c more k h j) ]

module _ {Q : Type 0} (tables : Tables) (ws : Workspace Q) (tpl : WorkspaceTemplate Q) where
  platform_labels-IsMap : IsMap (platform_labels tables ws tpl)
  unfolding platform_labels lookup equal
  platform_labels-IsMap = elim (Bool-cases (is_personal_namespace tables ws)) [
    | inl e ↦ rw e (refl, (refl, (refl, (refl, (refl, tt)))))
    | inr e ↦ rw e (refl, (refl, (refl, (refl, tt))))
  ]

  -- The labels of a namespace as the operator makes it.
  pub record IsStamped (labels : Meta) : Type 0 where
    pub managed : lookup label_managed_by labels ≡ some manager_name
    pub cleanup : lookup label_cleanup labels ≡ some (cleanup_policy_or_default tpl)
    pub owned :
        lookup label_owner labels
        ≡ (if is_personal_namespace tables ws then some ws.owner else none)

  merged :
      (k : Bytes) (user : Meta)
      → IsMap user
      → lookup k (merge_allowed user (platform_labels tables ws tpl))
        ≡ or_else (lookup k (platform_labels tables ws tpl)) (if_fine k (lookup k user))
  merged k user once =
      lookup-merge_allowed k user (platform_labels tables ws tpl) once platform_labels-IsMap

  managed_label : lookup label_managed_by (platform_labels tables ws tpl) ≡ some manager_name
  unfolding platform_labels lookup equal
  managed_label = elim (Bool-cases (is_personal_namespace tables ws)) [
    | inl e ↦ rw e refl
    | inr e ↦ rw e refl
  ]

  cleanup_label :
      lookup label_cleanup (platform_labels tables ws tpl) ≡ some (cleanup_policy_or_default tpl)
  unfolding platform_labels lookup equal
  cleanup_label = elim (Bool-cases (is_personal_namespace tables ws)) [
    | inl e ↦ rw e refl
    | inr e ↦ rw e refl
  ]

  owner_label :
      lookup label_owner (platform_labels tables ws tpl)
      ≡ (if is_personal_namespace tables ws then some ws.owner else none)
  unfolding platform_labels lookup equal
  owner_label = elim (Bool-cases (is_personal_namespace tables ws)) [
    | inl e ↦ rw e refl
    | inr e ↦ rw e refl
  ]

  -- The owner's label is reserved.
  owner-reserved : (o : Option Bytes) → if_fine label_owner o ≡ none
  unfolding check_key cut equal has_suffix
  owner-reserved o = refl

  or_else-none : (o : Option Bytes) → or_else o none ≡ o
  or_else-none none = refl
  or_else-none (some v) = refl

  merged-IsStamped :
      (user : Meta) → IsMap user → IsStamped (merge_allowed user (platform_labels tables ws tpl))
  merged-IsStamped user once = record {
    managed =
        merged label_managed_by user once
        ∙ ap (λ o. or_else o (if_fine label_managed_by (lookup label_managed_by user)))
            managed_label;
    cleanup =
        merged label_cleanup user once
        ∙ ap (λ o. or_else o (if_fine label_cleanup (lookup label_cleanup user))) cleanup_label;
    owned =
        merged label_owner user once
        ∙ ap (or_else (lookup label_owner (platform_labels tables ws tpl)))
            (owner-reserved (lookup label_owner user))
        ∙ or_else-none (lookup label_owner (platform_labels tables ws tpl))
        ∙ owner_label;
  }

  module _ (config : Config) (a : Answers Q) where
    policy-CreatesNone : (name : Bytes) → CreatesNone (policy_work tables config a ws name)
    policy-CreatesNone name = by_policy a.policy
      where
        by_policy :
            (f : Fetch (Meta × NetworkPolicy))
            → CreatesNone
                (ensure_namespace_policy config ws name f a.creates_policy a.updates_policy)
        by_policy not_found = unfold ensure_namespace_policy in (refl, tt)
        by_policy failed = unfold ensure_namespace_policy in tt
        by_policy (found (labels, policy)) =
            unfold ensure_namespace_policy in
            if-CreatesNone (not (equal (annotation label_managed_by labels) manager_name))
              ([], true)
              (if same_policy policy (desired_policy config ws)
                then ([], true)
                else (update_policy name (desired_policy config ws) ∷ [], a.updates_policy))
              tt
              (if-CreatesNone (same_policy policy (desired_policy config ws)) ([], true)
                (update_policy name (desired_policy config ws) ∷ [], a.updates_policy) tt
                (refl, tt))

    bootstrap-CreatesNone :
        (name : Bytes) → CreatesNone (bootstrap_namespace tables config a ws name)
    bootstrap-CreatesNone name =
        let wanted : Bool =
          not (nothing_of (namespace_quota a.policies ws)) && is_personal_namespace tables ws in
        let quota : Work Q =
          (if wanted
            then (
              create_quota name (workspace_owner_labels ws) (namespace_quota a.policies ws) ∷ [],
              accepted a.creates_quota,
            )
            else ([], true)) in
        next-CreatesNone quota (policy_work tables config a ws name)
          (if-CreatesNone wanted
            (
              create_quota name (workspace_owner_labels ws) (namespace_quota a.policies ws) ∷ [],
              accepted a.creates_quota,
            )
            ([], true) (refl, tt) tt)
          (policy-CreatesNone name)

    label-CreatesNone :
        (o : Option Meta) (name : Bytes) → CreatesNone (label_work tables config a o name)
    label-CreatesNone none name = tt
    label-CreatesNone (some labels) name = (refl, tt)

    -- A namespace that `ensureNamespace` creates is the workspace's target and not the platform's, and whatever labels the
    -- template asks for (each once), it is marked as the operator's, carries the cleanup policy of the template, and names
    -- the owner of the workspace if it is that user's personal namespace, and no owner otherwise.
    pub ensure_namespace-IsStamped :
        (user annotations : Meta) (name : Bytes) (labels stamped : Meta)
        → IsMap user
        → In
            (create_namespace name labels stamped)
            (ensure_namespace tables config a ws tpl user annotations).0
        → (name ≡ effective_target_namespace ws) × (name ≢ ws.namespace) × IsStamped labels
    unfolding ensure_namespace
    ensure_namespace-IsStamped user annotations name labels stamped once i =
        elim (Bool-cases (equal target ws.namespace)) [
          | inl e ↦ absurd (let j = rw e at i in elim j [ ])
          | inr e ↦ by_fetch a.namespace e (rw e at i)
        ]
      where
        target : Bytes
        target = effective_target_namespace ws

        by_fetch :
            (f : Fetch Namespace)
            → equal target ws.namespace ≡ false
            → In
                (create_namespace name labels stamped)
                (with_namespace tables config a f ws tpl user annotations target).0
            → (name ≡ target) × (name ≢ ws.namespace) × IsStamped labels
        by_fetch (found ns) e j =
            let o = missing_cleanup (cleanup_policy_or_default tpl) ns.labels in
            absurd (
              In-none (create_namespace name labels stamped)
                (with_namespace tables config a (found ns) ws tpl user annotations target).0 refl
                (next-CreatesNone (label_work tables config a o target)
                  (policy_work tables config a ws target) (label-CreatesNone o target)
                  (policy-CreatesNone target))
                j)
        by_fetch failed e j = elim j [ ]
        by_fetch not_found e j =
            let d : Call Q =
              create_namespace target (merge_allowed user (platform_labels tables ws tpl))
                (merge_allowed annotations []) in
            let same : create_namespace name labels stamped ≡ d =
              In-next (create_namespace name labels stamped) d (accepted a.creates_namespace)
                (bootstrap_namespace tables config a ws target) refl (bootstrap-CreatesNone target)
                j in
            let n : name ≡ target = cc in
            let l : labels ≡ merge_allowed user (platform_labels tables ws tpl) = cc in
            (
              n,
              (λ p. let t = (equal_iff target ws.namespace).1 (sym n ∙ p) in cc),
              subst IsStamped (sym l) (merged-IsStamped user once),
            )
