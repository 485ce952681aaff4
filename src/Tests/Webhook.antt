-- ===== src/Tests/Webhook.antt =====
-- Runs of the admission of workspaces.
use waas.Prelude.{
  ℕ, ◌≡◌, refl, ◌≢◌, false, [], ◌∷◌, Option, none, some, codes, equal, has_prefix, member,
}
use waas.Metakeys.{Meta, check}
use waas.Metakeys.Merge.{lookup}
use waas.Naming.{validate_label, label_from}
use waas.Policy.{
  Identity, resolve, matched_via, matched_subject, names, before, insert_policy, sort_policies,
  identity_violation,
}
use waas.Policy.Catalog.{
  find_image, find_exact, find_registry, trim_slash, image_allowed, check_tag_discipline,
  tag_policy_of, check_protocol,
}
use waas.Policy.Objects.{Workspace, effective_protocols}
use waas.Policy.Overrides.{
  overrides_usage, usage_of, check_field, check_fields, check_overrides, split_commas, groups_of,
  trim_space, trim_left, space_width,
}
use waas.Policy.Quota.{load_of, owner_loads, retained_volume_loads}
use waas.Policy.Quota.Limits.{check_limits, count}
use waas.Governance.{sibling_loads, template_named}
use waas.Controller.Status.{found, not_found}
use waas.Webhook.{
  Validator, Request, Details, Answers, admitted, rejected, tied, check_frozen, check_adoption,
  check_target, validate_shape, is_exempt, is_bypassed, resolve_identity,
}
use waas.Webhook.Enforce.{
  check_placement_ownership, check_workload_name_collision, enforce, validate,
}
use waas.Webhook.Frozen.{IsFrozen, IsRetained}
use waas.Webhook.Lawful.{IsShaped, validate-IsLawful}
use waas.Webhook.Placed.{IsPlaced, IsAlone}
use waas.Webhook.Governed.{IsKnown, validate-IsPlaced}
use waas.Tests.Governance.{numbers, plain, own, desktop, cluster}

abbrev validator : Validator
validator = record {
  kube_virt_available = false;
  trusted_writers = codes "api" ∷ [];
  bypass_subjects = codes "gitops" ∷ [];
  default_namespace_pattern = [];
}

abbrev details : Details ℕ
details = record {
  same_spec = λ x y. false;
  has_value_from = λ e. false;
  is_bad_schedule = λ s. false;
}

abbrev answers : Answers ℕ
answers = record { template = found desktop; target = none; volume = not_found; cluster = cluster }

abbrev api : Request
api = record { username = codes "api"; groups = [] }

abbrev stranger : Request
stranger = record { username = codes "eve"; groups = [] }

stranger-test :
    validate numbers plain validator details answers stranger none own ≡ rejected identity_violation
unfolding validate check_frozen check_adoption validate_shape check_target is_exempt
    resolve_identity equal member check lookup
stranger-test = refl

admission : validate numbers plain validator details answers api none own ≡ admitted (tied [] ∷ [])
unfolding validate enforce check_frozen check_adoption validate_shape check_target is_exempt
    resolve_identity check_placement_ownership check_workload_name_collision equal member check
    lookup resolve matched_via matched_subject names before insert_policy sort_policies find_image
    find_exact find_registry trim_slash image_allowed check_tag_discipline tag_policy_of
    check_protocol effective_protocols overrides_usage usage_of check_field check_fields
    check_overrides split_commas groups_of trim_space trim_left space_width load_of owner_loads
    retained_volume_loads check_limits count sibling_loads template_named has_prefix
admission = refl

abbrev earlier : Option (Workspace ℕ)
earlier = some own

update : validate numbers plain validator details answers api earlier own ≡ admitted (tied [] ∷ [])
unfolding validate enforce check_frozen check_adoption validate_shape check_target is_exempt
    resolve_identity check_placement_ownership check_workload_name_collision equal member check
    lookup resolve matched_via matched_subject names before insert_policy sort_policies find_image
    find_exact find_registry trim_slash image_allowed check_tag_discipline tag_policy_of
    check_protocol effective_protocols overrides_usage usage_of check_field check_fields
    check_overrides split_commas groups_of trim_space trim_left space_width load_of owner_loads
    retained_volume_loads check_limits count sibling_loads template_named has_prefix
update = refl

validate-IsLawful_example :
    ((old : Workspace ℕ) → earlier ≡ some old → IsFrozen old own)
    × (earlier ≡ none → own.home_volume_name ≢ [] → IsRetained answers.volume own)
    × IsShaped details own
validate-IsLawful_example =
    validate-IsLawful numbers plain validator details answers api earlier own (tied [] ∷ []) update

exempt : is_exempt details none own ≡ false
unfolding is_exempt
exempt = refl

bypassed : is_bypassed validator api ≡ false
unfolding member equal
bypassed = refl

validate-IsPlaced_example :
    (id : Identity) × IsKnown validator api own id
    × IsPlaced plain validator none own desktop id
    × IsAlone cluster.workspaces own
validate-IsPlaced_example =
    validate-IsPlaced numbers plain validator details answers api none own desktop (tied [] ∷ [])
      refl exempt bypassed admission

-- She calls herself an administrator, asks for the namespace of another, and is admitted.
abbrev self_made : Workspace ℕ
self_made = record own {
  owner = codes "eve";
  annotations = (codes "waas.xorhub.io/role", codes "admin") ∷ [];
  target_namespace = codes "waas-ann";
}

self_made-test :
    validate numbers plain validator details answers stranger none self_made
    ≡ admitted (tied [] ∷ [])
unfolding validate enforce check_frozen check_adoption validate_shape check_target is_exempt
    resolve_identity check_placement_ownership check_workload_name_collision equal member check
    lookup resolve matched_via matched_subject names before insert_policy sort_policies find_image
    find_exact find_registry trim_slash image_allowed check_tag_discipline tag_policy_of
    check_protocol effective_protocols overrides_usage usage_of check_field check_fields
    check_overrides split_commas groups_of trim_space trim_left space_width load_of owner_loads
    retained_volume_loads check_limits count sibling_loads template_named has_prefix validate_label
    label_from
self_made-test = refl

-- the namespace of another user
abbrev of_ann : Meta
of_ann = (codes "waas.xorhub.io/owner", codes "u-ann") ∷ []
