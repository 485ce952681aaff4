-- ===== src/Policy/Quota.antt =====
-- operator/pkg/policy/policy.go: the footprints of workspaces and retained volumes, from `Load` to
-- `LoadOf`; `CheckLimits` is in Limits.
pub mod Limits
pub mod Lighter
use waas.Prelude.{
  ℕ, zero, suc, ◌+◌, ◌%◌, ◌^◌, ◌≡◌, ◌≢◌, Bool, true, false, not, ◌&&◌, ◌||◌, List, [], ◌∷◌, ◌++◌,
  Option, none, some, Bytes, if◌then◌else◌, ltb, equal, leb,
}
use waas.Policy.{
  Reason, resources_invalid, quota_exceeded, WorkspacePolicy, PolicyLimits, PerWorkspaceCaps,
  AggregateCaps,
}
use waas.Policy.Objects.{Requirements, Workspace, WorkspaceTemplate, Volume}
use waas.Policy.Catalog.{WorkspaceImage, ImageResources, ComputeSize, find_image}

-- `resource.Quantity`: its zero value, `Add`, and `a.Cmp(b) < 0`; and `MustParse("10Gi")`.
pub record Quantities : Type 1 where
  pub Q : Type 0
  pub nothing : Q
  pub add : Q → Q → Q
  pub less : Q → Q → Bool
  pub default_home : Q

pub record Load (Q : Type 0) : Type 0 where
  pub cpu : Q
  pub memory : Q
  pub storage : Q
  pub paused : Bool
  pub detached : Bool

abbrev pub or_none {ℓ} : {A : Type ℓ} → Option A → Option A → Option A
or_none (some a) other = some a
or_none none other = other

abbrev pub is_some {ℓ} : {A : Type ℓ} → Option A → Bool
is_some none = false
is_some (some a) = true

-- `pick`, of the cpu and of the memory
abbrev pub pick_cpu : {Q : Type 0} → Requirements Q → Option Q
pick_cpu r = or_none r.limits.cpu r.requests.cpu

abbrev pub pick_memory : {Q : Type 0} → Requirements Q → Option Q
pick_memory r = or_none r.limits.memory r.requests.memory

abbrev default_of : {Q : Type 0} → (ComputeSize Q → Option Q) → Option (WorkspaceImage Q) → Option Q
default_of field none = none
default_of field (some img) = elim img.resources [
  | none ↦ none
  | some r ↦ elim r.default [ none ↦ none | some size ↦ field size ]
]

module _ (quantities : Quantities) where
  open quantities use {Q, nothing, add, less, default_home}

  abbrev pub or_zero : Option Q → Q
  or_zero none = nothing
  or_zero (some q) = q

  abbrev pub sizing : Workspace Q → WorkspaceTemplate Q → Requirements Q
  sizing ws tpl = elim ws.resources [ none ↦ tpl.resources | some r ↦ r ]

  abbrev pub home_of : WorkspaceTemplate Q → Q
  home_of tpl = elim tpl.home_size [ none ↦ default_home | some size ↦ size ]

  abbrev footprint : Workspace Q → WorkspaceTemplate Q → Option Q → Option Q → Load Q × Bool
  footprint ws tpl cpu memory = (
    record {
      cpu = or_zero cpu;
      memory = or_zero memory;
      storage = home_of tpl;
      paused = ws.paused;
      detached = false;
    },
    is_some cpu && is_some memory,
  )

  -- `LoadOf`
  unfoldable pub load_of :
      Workspace Q → WorkspaceTemplate Q → Option (WorkspaceImage Q) → Load Q × Bool
  load_of ws tpl img =
      let r = sizing ws tpl in
      footprint ws tpl (or_none (pick_cpu r) (default_of (λ size. size.cpu) img))
        (or_none (pick_memory r) (default_of (λ size. size.memory) img))

  -- the load of one sibling: without its template it still holds its home volume
  abbrev sibling_load :
      Workspace Q → Option (WorkspaceTemplate Q) → List (WorkspaceImage Q) → Load Q
  sibling_load ws none catalog = record {
    cpu = nothing;
    memory = nothing;
    storage = default_home;
    paused = ws.paused;
    detached = false;
  }
  sibling_load ws (some tpl) catalog = (load_of ws tpl (find_image catalog tpl.image)).0

  -- `OwnerLoads`; the map of the templates is a function
  unfoldable pub owner_loads :
      List (Workspace Q)
      → Bytes
      → Bytes
      → (Bytes → Option (WorkspaceTemplate Q))
      → List (WorkspaceImage Q)
      → List (Load Q)
  owner_loads [] owner exclude templates catalog = []
  owner_loads (ws ∷ workspaces) owner exclude templates catalog =
      let rest = owner_loads workspaces owner exclude templates catalog in
      if equal ws.name exclude || not (equal ws.owner owner) || ws.deleting
      then rest
      else sibling_load ws (templates ws.template_ref) catalog ∷ rest

  -- `RetainedLoad`
  abbrev pub retained_load : Q → Load Q
  retained_load size = record {
    cpu = nothing;
    memory = nothing;
    storage = size;
    paused = true;
    detached = true;
  }

  -- `RetainedVolumeLoads`
  unfoldable pub retained_volume_loads : List (Volume Q) → Bytes → Bytes → List (Load Q)
  retained_volume_loads [] namespace name = []
  retained_volume_loads (v ∷ volumes) namespace name =
      let rest = retained_volume_loads volumes namespace name in
      if v.deleting || (equal v.namespace namespace && equal v.name name)
      then rest
      else retained_load v.storage ∷ rest
