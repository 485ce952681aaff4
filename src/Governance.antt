-- ===== src/Governance.antt =====
-- operator/internal/controller/workspace_governance.go: the checks before a workspace gets compute, and the
-- end of its life. A list that the cluster does not return is none; what a deletion returns is an argument.
pub mod Admission
pub mod Expiry
use waas.Prelude.{
  ℕ, zero, suc, ◌+◌, ◌-◌, ◌≡◌, Bool, true, false, not, ◌&&◌, ◌||◌, List, [], ◌∷◌, ◌++◌, Option,
  none, some, Bytes, codes, if◌then◌else◌, ltb, ◌==◌, equal,
}
use waas.Naming.{Tables}
use waas.Policy.{
  Reason, internal_error, image_not_in_catalog, Identity, WorkspacePolicy, Resolution, denied,
  governed, resolve,
}
use waas.Policy.Catalog.{
  WorkspaceImage, find_image, image_allowed, check_tag_discipline, check_protocol,
}
use waas.Policy.Objects.{
  Workspace, WorkspaceTemplate, WorkspaceProtocol, Volume, effective_target_namespace,
  effective_workload_name, effective_protocols,
}
use waas.Policy.Overrides.{identity_of, check_overrides, ◌or◌}
use waas.Policy.Quota.{Quantities, Load, load_of, owner_loads, retained_volume_loads}
use waas.Policy.Quota.Limits.{check_limits}

-- what the cluster returns for the namespace of the workspace, and the volumes retained for its owner
pub record Cluster (Q : Type 0) : Type 0 where
  pub catalog : Option (List (WorkspaceImage Q))
  pub policies : Option (List (WorkspacePolicy Q))
  pub workspaces : Option (List (Workspace Q))
  pub templates : Option (List (WorkspaceTemplate Q))
  pub retained : Option (List (Volume Q))

abbrev pub protocol_names : List WorkspaceProtocol → List Bytes
protocol_names [] = []
protocol_names (p ∷ ps) = p.name ∷ protocol_names ps

-- an architecture affinity: the key and the values of its one requirement
abbrev pub arch_affinity : List Bytes → Option (Bytes × List Bytes)
arch_affinity [] = none
arch_affinity (a ∷ archs) = some (codes "kubernetes.io/arch", a ∷ archs)

abbrev nothing_set {ℓ} : {A B : Type ℓ} → List A → List B → Bool
nothing_set [] [] = true
nothing_set [] (y ∷ ys) = false
nothing_set (x ∷ xs) ys = false

-- `TemplatesByName`: of two templates of one name the map keeps the later one
unfoldable pub template_named :
    {Q : Type 0} → List (WorkspaceTemplate Q) → Bytes → Option (WorkspaceTemplate Q)
template_named [] name = none
template_named (t ∷ ts) name = elim (template_named ts name) [
  | some later ↦ some later
  | none ↦ if equal t.name name then some t else none
]

-- what becomes of a workspace with a time to live
pub data Lifetime : Type 0 where
  lives : Lifetime
  expires_in : ℕ → Lifetime
  deletion_failed : Lifetime
  deleted : Lifetime

pub data Deletion : Type 0 where
  done not_found refused : Deletion

-- the calls that delete
pub data Deleted : Type 0 where
  home_volume : Bytes → Bytes → Deleted
  workspace : Bytes → Deleted

-- `err != nil && !IsNotFound(err)`
abbrev pub fails : Deletion → Bool
fails done = false
fails not_found = false
fails refused = true

module _ {Q : Type 0} where
  -- `homePVCName`
  abbrev pub home_pvc_name : Workspace Q → Bytes
  home_pvc_name ws =
      if not (equal ws.home_volume_name [])
      then ws.home_volume_name
      else effective_workload_name ws ++ codes "-home"

  abbrev pub max_lifetime_of : Resolution Q → Option ℕ
  max_lifetime_of (denied reason) = none
  max_lifetime_of (governed pol ties) = pol.max_lifetime

  abbrev expire : Deletion → Deletion → Workspace Q → Lifetime × List Deleted
  expire home own ws =
      let volume : Deleted = home_volume (effective_target_namespace ws) (home_pvc_name ws) in
      if fails home
      then (deletion_failed, volume ∷ [])
      else (if fails own then deletion_failed else deleted, volume ∷ workspace ws.name ∷ [])

  -- a time to live, now: it is in nanoseconds, and one that is not positive is ignored
  abbrev live_until : ℕ → ℕ → Deletion → Deletion → Workspace Q → Lifetime × List Deleted
  live_until ttl now home own ws =
      if ttl == 0
      then (lives, [])
      else if ltb now (ws.created + ttl)
      then (expires_in (ws.created + ttl - now), [])
      else expire home own ws

  -- `enforceLifetime`; none is the error of the list of policies
  unfoldable pub enforce_lifetime :
      Option (List (WorkspacePolicy Q))
      → ℕ
      → Deletion
      → Deletion
      → Workspace Q
      → Option (Lifetime × List Deleted)
  enforce_lifetime none now home own ws = none
  enforce_lifetime (some policies) now home own ws =
      elim (max_lifetime_of (resolve policies (identity_of ws))) [
        | none ↦ some (lives, [])
        | some ttl ↦ some (live_until ttl now home own ws)
      ]

module _ (quantities : Quantities) (tables : Tables) where
  open quantities use {Q}

  -- `siblingLoads`
  unfoldable pub sibling_loads :
      Cluster Q → Workspace Q → List (WorkspaceImage Q) → Option (List (Load Q))
  sibling_loads cluster ws catalog = elim cluster.workspaces [
    | none ↦ none
    | some all ↦ elim cluster.templates [
      | none ↦ none
      | some templates ↦ elim cluster.retained [
        | none ↦ none
        | some retained ↦ some (
            owner_loads quantities all ws.owner ws.name (template_named templates) catalog
            ++ retained_volume_loads quantities retained (effective_target_namespace ws)
                ws.home_volume_name)
      ]
    ]
  ]

  abbrev pub check_size :
      Option (List (Load Q))
      → Workspace Q
      → WorkspaceTemplate Q
      → WorkspaceImage Q
      → WorkspacePolicy Q
      → Option Reason
  check_size none ws tpl img pol = some internal_error
  check_size (some others) ws tpl img pol =
      check_limits quantities (load_of quantities ws tpl (some img)).0
        (load_of quantities ws tpl (some img)).1 img pol others

  -- the checks once the policy is known, from the image on
  abbrev pub check_image_of :
      Option (WorkspaceImage Q)
      → Bytes
      → Cluster Q
      → Workspace Q
      → WorkspaceTemplate Q
      → WorkspacePolicy Q
      → Identity
      → List (WorkspaceImage Q)
      → Option Reason
  check_image_of none global cluster ws tpl pol id catalog = some image_not_in_catalog
  check_image_of (some img) global cluster ws tpl pol id catalog =
      image_allowed img pol id
      or check_tag_discipline img tpl.image
      or check_protocol (protocol_names (effective_protocols tpl)) img
      or check_overrides tables ws tpl (some pol) id global
      or check_size (sibling_loads cluster ws catalog) ws tpl img pol

  abbrev pub govern :
      Resolution Q
      → Bytes
      → Cluster Q
      → Workspace Q
      → WorkspaceTemplate Q
      → List (WorkspaceImage Q)
      → Option (WorkspacePolicy Q) × Option Reason
  govern (denied reason) global cluster ws tpl catalog = (none, some reason)
  govern (governed pol ties) global cluster ws tpl catalog = (
    some pol,
    check_image_of (find_image catalog tpl.image) global cluster ws tpl pol (identity_of ws)
        catalog,
  )

  abbrev evaluate_on :
      Option (List (WorkspaceImage Q))
      → Option (List (WorkspacePolicy Q))
      → Bytes
      → Cluster Q
      → Workspace Q
      → WorkspaceTemplate Q
      → Option (WorkspacePolicy Q) × Option Reason
  evaluate_on none policies global cluster ws tpl = (none, some internal_error)
  evaluate_on (some catalog) none global cluster ws tpl = (none, some internal_error)
  evaluate_on (some catalog) (some policies) global cluster ws tpl =
      let decision = govern (resolve policies (identity_of ws)) global cluster ws tpl catalog in
      if nothing_set policies catalog then (none, none) else decision

  -- `evaluateGovernance`: the policy, and the denial if there is one
  unfoldable pub evaluate_governance :
      Bytes
      → Cluster Q
      → Workspace Q
      → WorkspaceTemplate Q
      → Option (WorkspacePolicy Q) × Option Reason
  evaluate_governance global cluster ws tpl =
      evaluate_on cluster.catalog cluster.policies global cluster ws tpl
