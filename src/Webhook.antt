-- ===== src/Webhook.antt =====
-- operator/internal/webhook/v1alpha1/workspace_webhook.go: the admission of a workspace. What the cluster answers is an
-- argument; the parts of a spec that are opaque here are read by `Details`.
pub mod Enforce
pub mod Denials
pub mod Frozen
pub mod Lawful
pub mod Placed
pub mod Governed
pub mod Unowned
use waas.Prelude.{
  ℕ, Bool, true, false, not, ◌&&◌, ◌||◌, List, [], ◌∷◌, ◌++◌, Option, none, some, Bytes, codes,
  if◌then◌else◌, any, equal, has_prefix, member,
}
use waas.Metakeys.{Meta}
use waas.Metakeys.{check}
use waas.Metakeys.Merge.{lookup}
use waas.Naming.{Tables, Resolved, name, failed, validate_label, is_personal_namespace_of}
use waas.Policy.{
  Reason, internal_error, image_not_in_catalog, protocol_mismatch, override_not_allowed,
  identity_violation, placement_denied, volume_denied, Identity, WorkspacePolicy, Resolution,
  denied, governed, Tie, resolve,
}
use waas.Policy.Catalog.{
  WorkspaceImage, find_image, image_allowed, check_tag_discipline, check_protocol,
}
use waas.Policy.Objects.{
  Workspace, WorkspaceOverrides, WorkspaceTemplate, effective_target_namespace,
  effective_workload_name, effective_protocols,
}
use waas.Policy.Overrides.{
  annotation, username_key, groups_key, role_key, groups_of, split_commas,
  resolved_default_namespace, is_admin, check_overrides, ◌or◌,
}
use waas.Policy.Quota.{Quantities, Load, load_of}
use waas.Policy.Quota.Limits.{check_limits}
use waas.Governance.{Cluster, sibling_loads, protocol_names}
use waas.Controller.{label_managed_by, manager_name, label_owner}
use waas.Controller.Status.{Fetch, found, not_found}

-- `WorkspaceValidator`
pub record Validator : Type 0 where
  pub kube_virt_available : Bool
  pub trusted_writers : List Bytes
  pub bypass_subjects : List Bytes
  pub default_namespace_pattern : Bytes

-- the user of an admission request
pub record Request : Type 0 where
  pub username : Bytes
  pub groups : List Bytes

-- `reflect.DeepEqual` of two specs, whether an entry of the environment has a ValueFrom, and whether a schedule is refused
pub record Details (Q : Type 0) : Type 0 where
  pub same_spec : Workspace Q → Workspace Q → Bool
  pub has_value_from : Bytes → Bool
  pub is_bad_schedule : Bytes → Bool

-- The target namespace is its labels if it can be fetched; a volume is its labels and its size if that is known.
pub record Answers (Q : Type 0) : Type 0 where
  pub template : Fetch (WorkspaceTemplate Q)
  pub target : Option Meta
  pub volume : Fetch (Meta × Option Q)
  pub cluster : Cluster Q

pub data Warning : Type 0 where
  template_missing bypassing : Bytes → Warning
  tied : List Tie → Warning

pub data Outcome : Type 0 where
  admitted : List Warning → Outcome
  rejected : Reason → Outcome
  errored : Outcome

abbrev pub label_retained : Bytes
label_retained = codes "waas.xorhub.io/retained"

abbrev pub identity_keys : List Bytes
identity_keys = username_key ∷ groups_key ∷ role_key ∷ []

abbrev pub same_annotations : List Bytes → Meta → Meta → Bool
same_annotations [] now before = true
same_annotations (k ∷ ks) now before =
    equal (annotation k now) (annotation k before) && same_annotations ks now before

abbrev pub is_set {ℓ} : {A : Type ℓ} → Option A → Bool
is_set none = false
is_set (some a) = true

abbrev pub deny_if : Bool → Reason → Option Reason
deny_if true reason = some reason
deny_if false reason = none

-- `splitGroups`
abbrev pub split_groups : Bytes → List Bytes
split_groups s = let parts = groups_of (split_commas s) in if equal s [] then [] else parts

-- `bypassed`
abbrev pub is_bypassed : Validator → Request → Bool
is_bypassed v req =
    member v.bypass_subjects req.username || any (λ g. member v.bypass_subjects g) req.groups

abbrev pub decided : List Warning → Option Reason → Outcome
decided warnings none = admitted warnings
decided warnings (some reason) = rejected reason

-- the checks in front, and what follows if there is no denial
abbrev pub after : Option Reason → Outcome → Outcome
after none rest = rest
after (some reason) rest = rejected reason

-- is the resolved default the target?
abbrev pub is_default : Resolved → Bytes → Bool
is_default (name def) target = equal target def
is_default (failed e) target = false

abbrev pub owner_of : Option Meta → Bytes
owner_of none = []
owner_of (some labels) = annotation label_owner labels

module _ {Q : Type 0} where
  -- what may not change, in the order of the checks
  unfoldable pub check_frozen : Option (Workspace Q) → Workspace Q → Option Reason
  check_frozen none ws = none
  check_frozen (some old) ws =
      deny_if (not (equal ws.owner old.owner)) identity_violation
      or deny_if (not (same_annotations identity_keys ws.annotations old.annotations))
          identity_violation
      or deny_if (not (equal ws.target_namespace old.target_namespace)) placement_denied
      or deny_if (not (equal ws.workload_name old.workload_name)) placement_denied
      or deny_if (not (equal ws.home_volume_name old.home_volume_name)) placement_denied

  -- `checkHomeVolumeAdoption`
  unfoldable pub check_home_volume_adoption : Fetch (Meta × Option Q) → Workspace Q → Option Reason
  check_home_volume_adoption not_found ws = some volume_denied
  check_home_volume_adoption Fetch.failed ws = some internal_error
  check_home_volume_adoption (found (labels, size)) ws =
      deny_if
        (not (equal (annotation label_managed_by labels) manager_name)
          || not (equal (annotation label_retained labels) (codes "true")))
        volume_denied
      or deny_if (not (equal (annotation label_owner labels) ws.owner)) volume_denied

  unfoldable pub check_adoption :
      Option (Workspace Q) → Fetch (Meta × Option Q) → Workspace Q → Option Reason
  check_adoption (some old) volume ws = none
  check_adoption none volume ws =
      let denial = check_home_volume_adoption volume ws in
      if equal ws.home_volume_name [] then none else denial

  unfoldable pub check_target : Workspace Q → Option Reason
  check_target ws =
      let denial =
        deny_if (is_set (validate_label ws.target_namespace)) placement_denied
        or deny_if
            (equal ws.target_namespace ws.namespace
              || has_prefix ws.target_namespace (codes "kube-"))
            placement_denied in
      if equal ws.target_namespace [] then none else denial

  abbrev pub check_override_shape : Details Q → Option WorkspaceOverrides → Option Reason
  check_override_shape details none = none
  check_override_shape details (some ov) =
      deny_if (is_set (check ov.labels)) override_not_allowed
      or deny_if (is_set (check ov.annotations)) override_not_allowed
      or deny_if (any details.has_value_from ov.env) override_not_allowed

  -- `validateShape`
  unfoldable pub validate_shape : Details Q → Workspace Q → Option Reason
  validate_shape details ws =
      check_target ws
      or deny_if (not (equal ws.workload_name []) && is_set (validate_label ws.workload_name))
          placement_denied
      or check_override_shape details ws.overrides

  -- the updates that no policy looks at: the spec is the same, or it is so but for a pause
  unfoldable pub is_exempt : Details Q → Option (Workspace Q) → Workspace Q → Bool
  is_exempt details none ws = false
  is_exempt details (some old) ws =
      details.same_spec old ws
      || (not old.paused && ws.paused && details.same_spec old (record ws { paused = old.paused }))

  -- `resolveIdentity`; none is a violation
  unfoldable pub resolve_identity : Validator → Request → Workspace Q → Option Identity
  resolve_identity v req ws =
      let trusted : Identity = record {
        owner = ws.owner;
        username = annotation username_key ws.annotations;
        groups = split_groups (annotation groups_key ws.annotations);
      } in
      let own : Identity = record {
        owner = req.username;
        username = req.username;
        groups = req.groups;
      } in
      if member v.trusted_writers req.username
      then some trusted
      else if is_set (lookup username_key ws.annotations)
          || is_set (lookup groups_key ws.annotations)
      then none
      else if not (equal ws.owner req.username)
      then none
      else some own
