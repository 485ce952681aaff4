-- ===== src/Tests/Controller.antt =====
-- Runs of the controller's parts.
use waas.Prelude.{
  ℕ, ◌≡◌, refl, ◌≢◌, ◌↔◌, inl, true, false, [], ◌∷◌, none, some, Bytes, codes, In, equal, member,
  if◌then◌else◌,
}
use waas.Metakeys.{Meta, merge_allowed}
use waas.Metakeys.Merge.{lookup, IsMap}
use waas.Controller.{label_pull_secret, manager_name}
use waas.Controller.Status.{
  Condition, WorkspaceStatus, set_condition_in, set_typed_condition, found, not_found,
}
use waas.Controller.Conditions.{
  condition_of, EachOnce, IsCurrent, since_of, set_typed_condition-IsCurrent,
}
use waas.Controller.Failure.{
  Pod, ContainerStatus, detect_workload_failure, detect_from, detail_of, pod_failure,
  containers_failure, container_failure, container,
}
use waas.Controller.Janitor.{
  Namespace, Listed, objects, reconcile, reclaimed, is_empty, is_target, content_of, any_pins,
}
use waas.Controller.Reclaim.{IsReclaimable, reconcile-IsReclaimable}
use waas.Controller.Placement.{
  Config, Answers, create_namespace, created, ensure_namespace, platform_labels,
}
use waas.Controller.Owned.{IsStamped, ensure_namespace-IsStamped}
use waas.Policy.Objects.{Workspace, effective_target_namespace}
use waas.Tests.Governance.{plain, own, desktop}

abbrev pending : Condition
pending = record {
  kind = codes "Ready";
  status = codes "False";
  reason = codes "Provisioning";
  message = [];
  since = 5;
  generation = 1;
}

abbrev status : WorkspaceStatus
status = record { phase = codes "Pending"; generation = 1; conditions = pending ∷ [] }

condition-refined_test :
    condition_of
      (codes "Ready")
      (set_typed_condition 9
        (codes "Ready")
        (codes "False")
        (codes "Scheduling")
        []
        status).conditions
    ≡ some (record {
      kind = codes "Ready";
      status = codes "False";
      reason = codes "Scheduling";
      message = [];
      since = 5;
      generation = 0;
    })
unfolding set_typed_condition set_condition_in equal
condition-refined_test = refl

set_typed_condition-IsCurrent_example :
    EachOnce (set_typed_condition 9 (codes "Ready") (codes "True") [] [] status).conditions
    × ((other : Bytes)
        → other ≢ codes "Ready"
        → condition_of other
            (set_typed_condition 9 (codes "Ready") (codes "True") [] [] status).conditions
          ≡ condition_of other status.conditions)
    × IsCurrent
        (codes "True")
        []
        []
        (since_of (condition_of (codes "Ready") status.conditions) (codes "True") 9)
        (condition_of
          (codes "Ready")
          (set_typed_condition 9 (codes "Ready") (codes "True") [] [] status).conditions)
set_typed_condition-IsCurrent_example =
    set_typed_condition-IsCurrent 9 (codes "Ready") (codes "True") [] [] status (tt, tt)

abbrev crashing : ContainerStatus
crashing = record {
  name = codes "desktop";
  waiting = some (codes "CrashLoopBackOff", []);
  terminated = some (137, codes "OOMKilled");
  restarts = 4;
}

abbrev crashing_pod : Pod
crashing_pod = record {
  name = codes "p";
  deleting = false;
  phase = codes "Running";
  reason = [];
  message = [];
  init_statuses = [];
  statuses = crashing ∷ [];
  conditions = [];
}

detect-test :
    detect_workload_failure (record crashing_pod { deleting = true } ∷ crashing_pod ∷ []) ≡ (
      some (record {
        reason = codes "CrashLoopBackOff";
        message =
            container
              (codes "desktop")
              (codes "CrashLoopBackOff")
              []
              (some (137, codes "OOMKilled", 4));
      }),
      [],
    )
unfolding detect_from detail_of pod_failure containers_failure container_failure equal member
detect-test = refl

abbrev placed : Namespace
placed = record {
  name = codes "waas-ann";
  deleting = false;
  labels =
      (codes "app.kubernetes.io/managed-by", manager_name)
      ∷ (codes "waas.xorhub.io/cleanup", codes "DeleteWhenEmpty")
      ∷ [];
}

abbrev pull_secret_only : Bytes → Listed
pull_secret_only kind =
    if equal kind (codes "Secret")
    then objects (((label_pull_secret, codes "true") ∷ []) ∷ [])
    else objects []

reconcile-test : reconcile (found placed) (some (own ∷ [])) pull_secret_only true ≡ reclaimed
unfolding reconcile is_empty is_target content_of any_pins lookup equal
reconcile-test = refl

reconcile-IsReclaimable_example :
    (reconcile (found placed) (some (own ∷ [])) pull_secret_only true ≡ reclaimed)
    ↔ IsReclaimable placed (own ∷ []) pull_secret_only
reconcile-IsReclaimable_example = reconcile-IsReclaimable placed (own ∷ []) pull_secret_only

abbrev config : Config
config = record { platform_namespace = codes "waas"; egress = none }

abbrev fresh_cluster : Answers ℕ
fresh_cluster = record {
  namespace = not_found;
  creates_namespace = created;
  updates_labels = true;
  policies = some [];
  creates_quota = created;
  policy = not_found;
  creates_policy = created;
  updates_policy = true;
}

abbrev placed_workspace : Workspace ℕ
placed_workspace = record own { target_namespace = codes "lab" }

-- The template asks for the owner's label.
abbrev asked_labels : Meta
asked_labels = (codes "waas.xorhub.io/owner", codes "eve") ∷ (codes "team", codes "a") ∷ []

abbrev stamped : Meta
stamped = merge_allowed asked_labels (platform_labels plain placed_workspace desktop)

creates :
    In
      (create_namespace (codes "lab") stamped (merge_allowed [] []))
      (ensure_namespace plain config fresh_cluster placed_workspace desktop asked_labels []).0
unfolding ensure_namespace equal
creates = inl refl

asked_labels-IsMap : IsMap asked_labels
unfolding lookup equal
asked_labels-IsMap = (refl, (refl, tt))

ensure_namespace-IsStamped_example :
    (codes "lab" ≡ effective_target_namespace placed_workspace)
    × (codes "lab" ≢ placed_workspace.namespace)
    × IsStamped plain placed_workspace desktop stamped
ensure_namespace-IsStamped_example =
    ensure_namespace-IsStamped plain placed_workspace desktop config fresh_cluster asked_labels []
      (codes "lab") stamped (merge_allowed [] []) asked_labels-IsMap creates
