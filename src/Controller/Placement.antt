-- ===== src/Controller/Placement.antt =====
-- operator/internal/controller/placement.go: the namespace of a placed workspace. The egress rules of the network
-- policy are an argument, as is what the cluster answers; a call that fails ends the work with an error.
use waas.Prelude.{
  Bool, true, false, not, ◌&&◌, ◌||◌, List, [], ◌∷◌, ◌++◌, Option, none, some, Bytes, codes,
  if◌then◌else◌, equal,
}
use waas.Metakeys.{Meta, put, merge_allowed}
use waas.Naming.{Tables, is_personal_namespace_of}
use waas.Policy.{WorkspacePolicy, AggregateCaps, Resolution, denied, governed, resolve}
use waas.Policy.Objects.{
  Workspace, WorkspaceTemplate, effective_target_namespace, effective_workload_name,
  cleanup_policy_or_default,
}
use waas.Policy.Overrides.{annotation, identity_of, username_key}
use waas.Controller.{label_managed_by, manager_name, label_owner, label_cleanup}
use waas.Controller.Status.{Fetch, found, not_found, failed}
use waas.Controller.Janitor.{Namespace, workspace_content_kinds}

-- the spec of a network policy: the labels of its pods, its types, the namespaces that its ingress lets in, and its egress,
-- if there is one
pub record NetworkPolicy : Type 0 where
  pub pod_selector : Meta
  pub policy_types : List Bytes
  pub admitted : List Bytes
  pub egress : Option (List Bytes)

pub data Call (Q : Type 0) : Type 0 where
  create_namespace : Bytes → Meta → Meta → Call Q
  update_labels : Bytes → Meta → Call Q
  create_policy : Bytes → Meta → NetworkPolicy → Call Q
  update_policy : Bytes → NetworkPolicy → Call Q
  create_quota : Bytes → Meta → List (Bytes × Q) → Call Q
  delete_object : Bytes → Bytes → Bytes → Call Q

pub data Created : Type 0 where
  created already_exists create_failed : Created

-- the reconciler's own configuration
pub record Config : Type 0 where
  pub platform_namespace : Bytes
  pub egress : Option (List Bytes)

abbrev pub same_list : List Bytes → List Bytes → Bool
same_list [] [] = true
same_list [] (y ∷ ys) = false
same_list (x ∷ xs) [] = false
same_list (x ∷ xs) (y ∷ ys) = equal x y && same_list xs ys

abbrev pub same_egress : Option (List Bytes) → Option (List Bytes) → Bool
same_egress none none = true
same_egress none (some y) = false
same_egress (some x) none = false
same_egress (some x) (some y) = same_list x y

abbrev pub same_meta : Meta → Meta → Bool
same_meta [] [] = true
same_meta [] (y ∷ ys) = false
same_meta (x ∷ xs) [] = false
same_meta ((k, v) ∷ xs) ((l, w) ∷ ys) = equal k l && equal v w && same_meta xs ys

-- `equality.Semantic.DeepEqual` of two specs; the entries of a map are in the order of their keys
abbrev pub same_policy : NetworkPolicy → NetworkPolicy → Bool
same_policy p q =
    same_meta p.pod_selector q.pod_selector
    && same_list p.policy_types q.policy_types
    && same_list p.admitted q.admitted
    && same_egress p.egress q.egress

abbrev pub pod_security : Meta → Meta
pod_security labels =
    put (codes "pod-security.kubernetes.io/enforce") (codes "baseline")
      (put (codes "pod-security.kubernetes.io/warn") (codes "restricted") labels)

-- `ensureCleanupLabel`: the labels that are written, if any
unfoldable pub missing_cleanup : Bytes → Meta → Option Meta
missing_cleanup cleanup labels =
    if not (equal (annotation label_managed_by labels) manager_name)
      || not (equal (annotation label_cleanup labels) [])
    then none
    else some (put label_cleanup cleanup labels)

-- the amounts of `namespaceQuota`, by their names
abbrev pub quota_entry {ℓ} :
    {Q : Type ℓ} → Option Q → List Bytes → List (Bytes × Q) → List (Bytes × Q)
quota_entry none names rest = rest
quota_entry (some q) [] rest = rest
quota_entry (some q) (n ∷ names) rest = (n, q) ∷ quota_entry (some q) names rest

abbrev pub quota_of : {Q : Type 0} → Option (AggregateCaps Q) → List (Bytes × Q)
quota_of none = []
quota_of (some agg) = quota_entry agg.cpu (codes "requests.cpu" ∷ codes "limits.cpu" ∷ []) (
    quota_entry agg.memory (codes "requests.memory" ∷ codes "limits.memory" ∷ [])
      (quota_entry agg.storage (codes "requests.storage" ∷ []) []))

abbrev pub quota_under : {Q : Type 0} → Resolution Q → List (Bytes × Q)
quota_under (denied reason) = []
quota_under (governed pol ties) = quota_of pol.limits.aggregate

abbrev pub accepted : Created → Bool
accepted created = true
accepted already_exists = true
accepted create_failed = false

-- calls in their order, and whether all went well
abbrev pub Work : Type 0 → Type 0
Work Q = List (Call Q) × Bool

infixr 3 ◌next◌
abbrev pub ◌next◌ : {Q : Type 0} → Work Q → Work Q → Work Q
(calls, false) next w = (calls, false)
(calls, true) next (more, ok) = (calls ++ more, ok)

-- the objects other than the volume, which `finalizeHomeVolume` treats
unfoldable pub teardown_calls : {Q : Type 0} → Bytes → Bytes → (Bytes → Bool) → List Bytes → Work Q
teardown_calls namespace name deletes [] = ([], true)
teardown_calls namespace name deletes (kind ∷ kinds) =
    let rest = teardown_calls namespace name deletes kinds in
    if equal kind (codes "PersistentVolumeClaim")
    then rest
    else (delete_object kind namespace name ∷ [], deletes kind) next rest

module _ {Q : Type 0} where
  -- `namespaceQuota`; a list of policies that fails gives no quota
  unfoldable pub namespace_quota :
      Option (List (WorkspacePolicy Q)) → Workspace Q → List (Bytes × Q)
  namespace_quota none ws = []
  namespace_quota (some policies) ws = quota_under (resolve policies (identity_of ws))

  -- `isPersonalNamespace`
  unfoldable pub is_personal_namespace : Tables → Workspace Q → Bool
  is_personal_namespace tables ws =
      let username = annotation username_key ws.annotations in
      let own = is_personal_namespace_of tables username ws.owner (effective_target_namespace ws) in
      if equal username [] then false else own

  -- `workspaceOwnerLabels`
  abbrev pub workspace_owner_labels : Workspace Q → Meta
  workspace_owner_labels ws = put label_managed_by manager_name (put label_owner ws.owner [])

  -- the policy of `ensureNamespacePolicy`
  abbrev pub desired_policy : Config → Workspace Q → NetworkPolicy
  desired_policy config ws = record {
    pod_selector = [];
    policy_types = elim config.egress [
      | none ↦ codes "Ingress" ∷ []
      | some rules ↦ codes "Ingress" ∷ codes "Egress" ∷ []
    ];
    admitted =
        if not (equal config.platform_namespace [])
          && not (equal config.platform_namespace ws.namespace)
        then ws.namespace ∷ config.platform_namespace ∷ []
        else ws.namespace ∷ [];
    egress = config.egress;
  }

  -- `ensureNamespacePolicy`: the policy that is there with its labels, and what a creation and an update answer
  unfoldable pub ensure_namespace_policy :
      Config → Workspace Q → Bytes → Fetch (Meta × NetworkPolicy) → Created → Bool → Work Q
  ensure_namespace_policy config ws name not_found answer updates = (
    create_policy name (workspace_owner_labels ws) (desired_policy config ws) ∷ [],
    accepted answer,
  )
  ensure_namespace_policy config ws name failed answer updates = ([], false)
  ensure_namespace_policy config ws name (found (labels, policy)) answer updates =
      if not (equal (annotation label_managed_by labels) manager_name)
      then ([], true)
      else if same_policy policy (desired_policy config ws)
      then ([], true)
      else (update_policy name (desired_policy config ws) ∷ [], updates)

  -- the platform's labels of a new namespace
  unfoldable pub platform_labels : Tables → Workspace Q → WorkspaceTemplate Q → Meta
  platform_labels tables ws tpl =
      let labels : Meta =
        put label_managed_by manager_name
          (put label_cleanup (cleanup_policy_or_default tpl) (pod_security [])) in
      if is_personal_namespace tables ws then put label_owner ws.owner labels else labels

  -- `teardownPlacement`, with whether the deletion of a kind goes well (a missing object or kind does)
  unfoldable pub teardown_placement : Workspace Q → (Bytes → Bool) → Work Q
  teardown_placement ws deletes =
      let calls =
        teardown_calls (effective_target_namespace ws) (effective_workload_name ws) deletes
          workspace_content_kinds in
      if equal (effective_target_namespace ws) ws.namespace then ([], true) else calls

-- what the cluster answers while a namespace is ensured
pub record Answers (Q : Type 0) : Type 0 where
  pub namespace : Fetch Namespace
  pub creates_namespace : Created
  pub updates_labels : Bool
  pub policies : Option (List (WorkspacePolicy Q))
  pub creates_quota : Created
  pub policy : Fetch (Meta × NetworkPolicy)
  pub creates_policy : Created
  pub updates_policy : Bool

abbrev pub nothing_of {ℓ} : {A : Type ℓ} → List A → Bool
nothing_of [] = true
nothing_of (x ∷ xs) = false

module _ {Q : Type 0} (tables : Tables) (config : Config) (a : Answers Q) where
  abbrev pub policy_work : Workspace Q → Bytes → Work Q
  policy_work ws name =
      ensure_namespace_policy config ws name a.policy a.creates_policy a.updates_policy

  -- `bootstrapNamespace`
  abbrev pub bootstrap_namespace : Workspace Q → Bytes → Work Q
  bootstrap_namespace ws name =
      (if not (nothing_of (namespace_quota a.policies ws)) && is_personal_namespace tables ws
        then (
          create_quota name (workspace_owner_labels ws) (namespace_quota a.policies ws) ∷ [],
          accepted a.creates_quota,
        )
        else ([], true))
      next policy_work ws name

  abbrev pub label_work : Option Meta → Bytes → Work Q
  label_work none name = ([], true)
  label_work (some labels) name = (update_labels name labels ∷ [], a.updates_labels)

  abbrev pub with_namespace :
      Fetch Namespace → Workspace Q → WorkspaceTemplate Q → Meta → Meta → Bytes → Work Q
  with_namespace (found ns) ws tpl labels annotations name =
      label_work (missing_cleanup (cleanup_policy_or_default tpl) ns.labels) name
      next policy_work ws name
  with_namespace failed ws tpl labels annotations name = ([], false)
  with_namespace not_found ws tpl labels annotations name =
      (
        create_namespace name (merge_allowed labels (platform_labels tables ws tpl))
              (merge_allowed annotations [])
            ∷ [],
        accepted a.creates_namespace,
      )
      next bootstrap_namespace ws name

  -- `ensureNamespace`, with the labels and annotations that the template wants on a namespace
  unfoldable pub ensure_namespace : Workspace Q → WorkspaceTemplate Q → Meta → Meta → Work Q
  ensure_namespace ws tpl labels annotations =
      let work =
        with_namespace a.namespace ws tpl labels annotations (effective_target_namespace ws) in
      if equal (effective_target_namespace ws) ws.namespace then ([], true) else work
