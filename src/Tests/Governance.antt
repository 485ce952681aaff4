-- ===== src/Tests/Governance.antt =====
-- Runs of the governance of workspaces.
use waas.Prelude.{
  ℕ, ◌+◌, ◌≡◌, refl, ◌↔◌, ◌⊎◌, true, false, List, [], ◌∷◌, none, some, codes, ltb, equal, member,
  has_prefix,
}
use waas.Metakeys.Merge.{lookup}
use waas.Naming.{Tables}
use waas.Policy.{
  WorkspacePolicy, resolve, matched_via, matched_subject, names, before, insert_policy,
  sort_policies, override_not_allowed, image_not_in_catalog,
}
use waas.Policy.Catalog.{
  WorkspaceImage, find_image, find_exact, find_registry, trim_slash, image_allowed,
  check_tag_discipline, tag_policy_of, check_protocol,
}
use waas.Policy.Objects.{
  Requirements, WorkspaceOverrides, Workspace, WorkspaceTemplate, effective_protocols,
}
use waas.Policy.Overrides.{
  identity_of, split_commas, groups_of, trim_space, trim_left, space_width, usage_of,
  overrides_usage, check_field, check_fields, check_overrides, role_key, annotation,
}
use waas.Policy.Entitled.{IsEntitled, check_overrides-IsEntitled}
use waas.Policy.Quota.{Quantities, load_of, owner_loads, retained_volume_loads}
use waas.Policy.Quota.Limits.{check_limits, count}
use waas.Governance.{
  Cluster, evaluate_governance, sibling_loads, template_named, enforce_lifetime, Lifetime, done,
  refused, Deleted, expires_in, deletion_failed, home_volume, workspace,
}
use waas.Governance.Admission.{IsAdmissible, evaluate_governance-IsAdmissible}
use waas.Governance.Expiry.{IsExpired, Orderly, enforce_lifetime-IsExpired}

abbrev pub numbers : Quantities
numbers = record { Q = ℕ; nothing = 0; add = λ a b. a + b; less = ltb; default_home = 10 }

abbrev pub plain : Tables
plain = record { nfkd = λ s. s; is_mark = λ c. false; to_lower = λ c. c; digest = λ s. [] }

abbrev pub everyone : WorkspacePolicy ℕ
everyone = record {
  name = codes "default";
  priority = 0;
  subjects = [];
  images = [];
  limits = record {
    max_workspaces = some 2;
    max_running_workspaces = none;
    per_workspace = none;
    aggregate = none;
  };
  clipboard = none;
  remote_workspaces = false;
  overrides = some (codes "env" ∷ []);
  max_lifetime = some 100;
  idle_suspend_after = some 50;
}

abbrev pub ubuntu : WorkspaceImage ℕ
ubuntu = record {
  name = codes "ubuntu";
  image = codes "hub/ubuntu:24";
  registry = [];
  tag_policy = [];
  protocols = codes "vnc" ∷ [];
  enabled = true;
  allowed_groups = [];
  resources = none;
}

abbrev unsized : Requirements ℕ
unsized = record {
  limits = record { cpu = none; memory = none };
  requests = record { cpu = none; memory = none };
}

abbrev pub desktop : WorkspaceTemplate ℕ
desktop = record {
  name = codes "desktop";
  os = codes "linux";
  image = codes "hub/ubuntu:24";
  port = 0;
  protocols = [];
  resources = unsized;
  home_size = none;
  overrides =
      some (record { owner = codes "root"; allowed_fields = codes "env" ∷ codes "volumes" ∷ [] });
  placement = none;
}

abbrev pub nothing_over : WorkspaceOverrides
nothing_over = record {
  env = [];
  security_context = none;
  pod_security_context = none;
  volumes = [];
  volume_mounts = [];
  node_selector = [];
  tolerations = [];
  protocol = [];
  schedule = none;
  labels = [];
  annotations = [];
}

abbrev pub ann_workspace : WorkspaceOverrides → Workspace ℕ
ann_workspace ov = record {
  namespace = codes "waas";
  name = codes "w1";
  annotations = (codes "waas.xorhub.io/groups", codes "dev, ops ,") ∷ [];
  uid = codes "u-w1";
  created = 1000;
  owner = codes "u-1";
  display_name = codes "w";
  template_ref = codes "desktop";
  paused = false;
  deleting = false;
  target_namespace = [];
  workload_name = [];
  home_volume_name = [];
  resources = none;
  overrides = some ov;
}

abbrev pub own : Workspace ℕ
own = ann_workspace nothing_over

abbrev with_env : WorkspaceOverrides
with_env = record nothing_over { env = codes "LANG" ∷ [] }

abbrev with_mounts : WorkspaceOverrides
with_mounts = record nothing_over { volume_mounts = codes "data" ∷ [] }

abbrev pub cluster : Cluster ℕ
cluster = record {
  catalog = some (ubuntu ∷ []);
  policies = some (everyone ∷ []);
  workspaces = some (own ∷ []);
  templates = some (desktop ∷ []);
  retained = some [];
}

identity_of-test : identity_of own ≡ record {
  owner = codes "u-1";
  username = codes "u-1";
  groups = codes "dev" ∷ codes "ops" ∷ [];
}
unfolding identity_of lookup equal split_commas groups_of trim_space trim_left space_width
    has_prefix
identity_of-test = refl

check_overrides-env_test :
    check_overrides plain (ann_workspace with_env) desktop (some everyone) (identity_of own) []
    ≡ none
unfolding check_overrides identity_of lookup equal overrides_usage usage_of check_field check_fields
    member
check_overrides-env_test = refl

check_overrides-policy_test :
    check_overrides plain (ann_workspace with_mounts) desktop (some everyone) (identity_of own) []
    ≡ some override_not_allowed
unfolding check_overrides identity_of lookup equal overrides_usage usage_of check_field check_fields
    member
check_overrides-policy_test = refl

admitted : (evaluate_governance numbers plain [] cluster own desktop).1 ≡ none
unfolding evaluate_governance resolve matched_via matched_subject names before insert_policy
    sort_policies identity_of lookup equal find_image find_exact find_registry image_allowed
    check_tag_discipline tag_policy_of check_protocol effective_protocols check_overrides
    overrides_usage usage_of check_fields sibling_loads owner_loads retained_volume_loads load_of
    check_limits count member template_named
admitted = refl

evaluate-unknown_test :
    (evaluate_governance numbers plain [] cluster own
      (record desktop { image = codes "hub/other" })).1
    ≡ some image_not_in_catalog
unfolding evaluate_governance resolve matched_via matched_subject names before insert_policy
    sort_policies identity_of lookup equal find_image find_exact find_registry trim_slash
evaluate-unknown_test = refl

check_overrides-IsEntitled_example :
    (check_overrides plain (ann_workspace with_env) desktop (some everyone) (identity_of own) []
      ≡ none)
    ↔ ((annotation role_key own.annotations ≡ codes "admin")
        ⊎ IsEntitled plain (ann_workspace with_env) desktop (some everyone) (identity_of own) [])
check_overrides-IsEntitled_example =
    check_overrides-IsEntitled plain (ann_workspace with_env) desktop (some everyone)
      (identity_of own) []

evaluate_governance-IsAdmissible_example :
    (catalog : List (WorkspaceImage ℕ)) × (policies : List (WorkspacePolicy ℕ)) × (cluster.catalog
      ≡ some catalog)
    × (cluster.policies ≡ some policies)
    × (((catalog ≡ []) × (policies ≡ []))
        ⊎ ((pol : WorkspacePolicy ℕ) × (img : WorkspaceImage ℕ) × IsAdmissible numbers plain []
              cluster catalog policies own desktop pol img))
evaluate_governance-IsAdmissible_example =
    evaluate_governance-IsAdmissible numbers plain [] cluster own desktop admitted

enforce_lifetime-test :
    enforce_lifetime (some (everyone ∷ [])) 1100 done refused own
    ≡ some (
      deletion_failed,
      home_volume (codes "waas") (codes "ws-w1-home") ∷ workspace (codes "w1") ∷ [],
    )
unfolding enforce_lifetime resolve matched_via matched_subject names before insert_policy
    sort_policies identity_of lookup equal
enforce_lifetime-test = refl

enforce_lifetime-young_test :
    enforce_lifetime (some (everyone ∷ [])) 1090 done done own ≡ some (expires_in 10, [])
unfolding enforce_lifetime resolve matched_via matched_subject names before insert_policy
    sort_policies identity_of lookup equal
enforce_lifetime-young_test = refl

enforce_lifetime-IsExpired_example :
    (out : Lifetime) × (calls : List Deleted) × (enforce_lifetime
        (some (everyone ∷ []))
        1100
        done
        done
        own
      ≡ some (out, calls))
    × (((calls ≡ []) × (IsExpired (everyone ∷ []) 1100 own → ⊥))
        ⊎ (IsExpired (everyone ∷ []) 1100 own × Orderly done done own (out, calls)))
enforce_lifetime-IsExpired_example = enforce_lifetime-IsExpired (everyone ∷ []) 1100 done done own
