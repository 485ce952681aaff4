-- ===== src/Policy/Quota/Limits.antt =====
-- operator/pkg/policy/policy.go: `CheckLimits`. `int32(n)+1` keeps its wrap-around.
use waas.Prelude.{
  ℕ, suc, ◌+◌, ◌%◌, ◌^◌, Bool, true, false, not, ◌&&◌, ◌||◌, List, [], ◌∷◌, Option, none, some,
  if◌then◌else◌, ltb,
}
use waas.Policy.{
  Reason, resources_invalid, quota_exceeded, WorkspacePolicy, PerWorkspaceCaps, AggregateCaps,
}
use waas.Policy.Catalog.{WorkspaceImage, ImageResources, ComputeSize}
use waas.Policy.Quota.{Quantities, Load, is_some}

-- `int32(n)+1 > m`
abbrev pub exceeds : ℕ → ℕ → Bool
exceeds n m = let k = (n + 1) % 2 ^ 32 in ltb k (2 ^ 31) && ltb m k

-- `if denied { return … }` before the next check
abbrev pub deny_if : Bool → Reason → Option Reason
deny_if true reason = some reason
deny_if false reason = none

infixr 3 ◌then◌
abbrev pub ◌then◌ : Option Reason → Option Reason → Option Reason
some reason then next = some reason
none then next = next

module _ (quantities : Quantities) where
  open quantities use {Q, nothing, add, less}

  -- `m != nil && x.Cmp(*m) > 0`, and `< 0`
  abbrev pub over : Option Q → Q → Bool
  over none x = false
  over (some m) x = less m x

  abbrev pub under : Option Q → Q → Bool
  under none x = false
  under (some m) x = less x m

  unfoldable pub count : (Load Q → Bool) → List (Load Q) → ℕ
  count p [] = 0
  count p (o ∷ others) = let rest = count p others in if p o then suc rest else rest

  abbrev pub is_live : Load Q → Bool
  is_live o = not o.detached

  abbrev pub is_running : Load Q → Bool
  is_running o = not o.detached && not o.paused

  -- the sum over the others, from `start`; those that `p` leaves out do not count
  unfoldable pub total : (Load Q → Bool) → (Load Q → Q) → Q → List (Load Q) → Q
  total p field start [] = start
  total p field start (o ∷ others) =
      total p field (if p o then add start (field o) else start) others

  abbrev pub check_count : Option ℕ → ℕ → Option Reason
  check_count none n = none
  check_count (some m) n = deny_if (exceeds n m) quota_exceeded

  abbrev pub check_running : Option ℕ → Load Q → List (Load Q) → Option Reason
  check_running none load others = none
  check_running (some m) load others =
      deny_if (not load.paused && exceeds (count is_running others) m) quota_exceeded

  abbrev pub caps_per : Option (PerWorkspaceCaps Q) → Bool
  caps_per none = false
  caps_per (some c) = is_some c.cpu || is_some c.memory

  abbrev pub caps_aggregate : Option (AggregateCaps Q) → Bool
  caps_aggregate none = false
  caps_aggregate (some c) = is_some c.cpu || is_some c.memory

  abbrev pub caps_image : Option (ImageResources Q) → Bool
  caps_image none = false
  caps_image (some r) = is_some r.max

  abbrev pub check_min : Option (ComputeSize Q) → Load Q → Option Reason
  check_min none load = none
  check_min (some m) load =
      deny_if (under m.cpu load.cpu) resources_invalid
      then deny_if (under m.memory load.memory) resources_invalid

  abbrev pub check_max : Option (ComputeSize Q) → Load Q → Option Reason
  check_max none load = none
  check_max (some m) load =
      deny_if (over m.cpu load.cpu) resources_invalid
      then deny_if (over m.memory load.memory) resources_invalid

  abbrev pub check_image : Option (ImageResources Q) → Load Q → Option Reason
  check_image none load = none
  check_image (some r) load = check_min r.min load then check_max r.max load

  abbrev pub check_per : Option (PerWorkspaceCaps Q) → Load Q → Option Reason
  check_per none load = none
  check_per (some c) load =
      deny_if (over c.cpu load.cpu) resources_invalid
      then deny_if (over c.memory load.memory) resources_invalid
      then deny_if (over c.home load.storage) resources_invalid

  abbrev pub runs : Load Q → Bool
  runs o = not o.paused

  -- the sum with the load itself, which comes last
  abbrev pub sum : (Load Q → Bool) → (Load Q → Q) → Load Q → List (Load Q) → Q
  sum p field load others =
      let t = total p field nothing others in if p load then add t (field load) else t

  abbrev pub check_aggregate : Option (AggregateCaps Q) → Load Q → List (Load Q) → Option Reason
  check_aggregate none load others = none
  check_aggregate (some c) load others =
      deny_if (over c.cpu (sum runs (λ o. o.cpu) load others)) quota_exceeded
      then deny_if (over c.memory (sum runs (λ o. o.memory) load others)) quota_exceeded
      then deny_if (over c.storage (sum (λ _. true) (λ o. o.storage) load others)) quota_exceeded

  -- `if capsCompute && !computeKnown`
  abbrev pub check_known : Bool → WorkspaceImage Q → WorkspacePolicy Q → Option Reason
  check_known known img pol =
      deny_if
        ((caps_per pol.limits.per_workspace
            || caps_aggregate pol.limits.aggregate
            || caps_image img.resources)
          && not known)
        resources_invalid

  -- `CheckLimits`
  unfoldable pub check_limits :
      Load Q → Bool → WorkspaceImage Q → WorkspacePolicy Q → List (Load Q) → Option Reason
  check_limits load known img pol others =
      check_count pol.limits.max_workspaces (count is_live others)
      then check_running pol.limits.max_running_workspaces load others
      then check_known known img pol
      then check_image img.resources load
      then check_per pol.limits.per_workspace load
      then check_aggregate pol.limits.aggregate load others
