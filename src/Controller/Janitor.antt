-- ===== src/Controller/Janitor.antt =====
-- operator/internal/controller/namespace_janitor.go, with the inventory of operator/api/v1alpha1/managed.go: the
-- reclaiming of empty namespaces.
use waas.Prelude.{
  Bool, false, not, ◌&&◌, ◌||◌, List, [], ◌∷◌, Option, none, some, Bytes, codes, if◌then◌else◌,
  equal, take,
}
use waas.Metakeys.{Meta}
use waas.Policy.Objects.{Workspace, effective_target_namespace}
use waas.Policy.Overrides.{annotation}
use waas.Controller.{label_managed_by, manager_name, label_cleanup, label_pull_secret}
use waas.Controller.Status.{Fetch, found, not_found, failed}

-- the kinds of `WorkspaceContentGVKs`, in their order
abbrev pub workspace_content_kinds : List Bytes
workspace_content_kinds =
    codes "Deployment"
    ∷ codes "StatefulSet"
    ∷ codes "Pod"
    ∷ codes "Service"
    ∷ codes "PersistentVolumeClaim"
    ∷ codes "Secret"
    ∷ codes "ConfigMap"
    ∷ codes "VirtualMachine"
    ∷ []

-- what the list of the managed objects of a kind returns: their labels; or that the kind is not installed
pub data Listed : Type 0 where
  objects : List Meta → Listed
  not_installed list_failed : Listed

pub record Namespace : Type 0 where
  pub name : Bytes
  pub deleting : Bool
  pub labels : Meta

pub data Verdict : Type 0 where
  occupied empty unknown : Verdict

abbrev pub is_secret : Bytes → Bool
is_secret kind = equal kind (codes "Secret")

-- does an object keep the namespace: a copy of a pull secret does not
abbrev pub pins : Bytes → Meta → Bool
pins kind labels =
    not (is_secret kind && equal (annotation label_pull_secret labels) (codes "true"))

unfoldable pub any_pins : Bytes → List Meta → Bool
any_pins kind [] = false
any_pins kind (o ∷ os) = pins kind o || any_pins kind os

-- `client.Limit(1)`, but for secrets
abbrev pub limited : Bytes → List Meta → List Meta
limited kind os = if is_secret kind then os else take 1 os

abbrev pub with_listed : Listed → Bytes → Verdict → Verdict
with_listed not_installed kind rest = rest
with_listed list_failed kind rest = unknown
with_listed (objects os) kind rest = if any_pins kind (limited kind os) then occupied else rest

unfoldable pub content_of : (Bytes → Listed) → List Bytes → Verdict
content_of list [] = empty
content_of list (kind ∷ kinds) = with_listed (list kind) kind (content_of list kinds)

pub data Reconciled : Type 0 where
  kept errored reclaimed : Reconciled

abbrev pub reclaim : Verdict → Bool → Reconciled
reclaim occupied deletes = kept
reclaim unknown deletes = errored
reclaim empty deletes = if deletes then reclaimed else errored

abbrev pub is_reclaimable : Namespace → Bool
is_reclaimable ns =
    equal (annotation label_managed_by ns.labels) manager_name
    && equal (annotation label_cleanup ns.labels) (codes "DeleteWhenEmpty")

module _ {Q : Type 0} where
  unfoldable pub is_target : Bytes → List (Workspace Q) → Bool
  is_target name [] = false
  is_target name (ws ∷ wss) = equal (effective_target_namespace ws) name || is_target name wss

  -- `isEmpty`; the workspaces are none if they cannot be listed
  unfoldable pub is_empty : Option (List (Workspace Q)) → (Bytes → Listed) → Bytes → Verdict
  is_empty none list name = unknown
  is_empty (some wss) list name =
      let content = content_of list workspace_content_kinds in
      if is_target name wss then occupied else content

  -- `Reconcile`, with whether the deletion succeeds (a namespace that is gone by then counts as deleted)
  unfoldable pub reconcile :
      Fetch Namespace → Option (List (Workspace Q)) → (Bytes → Listed) → Bool → Reconciled
  reconcile not_found wss list deletes = kept
  reconcile failed wss list deletes = errored
  reconcile (found ns) wss list deletes =
      let verdict = reclaim (is_empty wss list ns.name) deletes in
      if ns.deleting then kept else if not (is_reclaimable ns) then kept else verdict
