-- ===== src/Policy.antt =====
-- operator/pkg/policy: which policy governs a user, which images and which sizes it grants, and which
-- overrides of a template. A denial is its reason code; its message is left out.
-- Policies, images and templates are the fields of the API types (operator/api/v1alpha1) that the
-- package reads. `Q` stands for `resource.Quantity` of the Kubernetes libraries.
pub mod Resolve
pub mod Catalog
pub mod Objects
pub mod Overrides
pub mod Entitled
pub mod Quota
use waas.Prelude.{
  ℕ, zero, suc, ◌+◌, ◌≡◌, Bool, true, false, not, ◌&&◌, ◌||◌, List, [], ◌∷◌, ◌++◌, Option, none,
  some, Bytes, codes, if◌then◌else◌, ltb, ◌==◌, equal, less, member, keep,
}

pub data Reason : Type 0 where
  no_policy image_tag_policy image_disabled image_not_allowed protocol_mismatch : Reason
  resources_invalid quota_exceeded override_not_allowed image_not_in_catalog internal_error : Reason
  identity_violation placement_denied volume_denied : Reason

pub record Identity : Type 0 where
  pub owner : Bytes
  pub username : Bytes
  pub groups : List Bytes

pub record PolicySubject : Type 0 where
  pub kind : Bytes
  pub name : Bytes

pub record PerWorkspaceCaps (Q : Type 0) : Type 0 where
  pub cpu : Option Q
  pub memory : Option Q
  pub home : Option Q

pub record AggregateCaps (Q : Type 0) : Type 0 where
  pub cpu : Option Q
  pub memory : Option Q
  pub storage : Option Q

pub record PolicyLimits (Q : Type 0) : Type 0 where
  pub max_workspaces : Option ℕ
  pub max_running_workspaces : Option ℕ
  pub per_workspace : Option (PerWorkspaceCaps Q)
  pub aggregate : Option (AggregateCaps Q)

pub record ClipboardPolicy : Type 0 where
  pub copy_from_workspace : Option Bool
  pub paste_to_workspace : Option Bool

pub record WorkspacePolicy (Q : Type 0) : Type 0 where
  pub name : Bytes
  pub priority : ℕ
  pub subjects : List PolicySubject
  pub images : List Bytes
  pub limits : PolicyLimits Q
  pub clipboard : Option ClipboardPolicy
  pub remote_workspaces : Bool
  -- `spec.overrides.allowedFields`; none if there is no such block
  pub overrides : Option (List Bytes)
  -- `spec.lifecycle.maxLifetime` in nanoseconds, where both are set
  pub max_lifetime : Option ℕ
  -- `spec.lifecycle.idleSuspendAfter`, likewise
  pub idle_suspend_after : Option ℕ

-- the branches of the switch that return: does the subject name the identity?
unfoldable pub names : PolicySubject → Identity → Bool
names s id =
    if equal s.kind (codes "User")
    then equal s.name id.owner || (not (equal id.username []) && equal s.name id.username)
    else equal s.kind (codes "Group") && member id.groups s.name

unfoldable pub matched_subject : List PolicySubject → Identity → Bytes
unfolding names
matched_subject [] id = []
matched_subject (s ∷ subjects) id =
    let rest = matched_subject subjects id in
    if names s id then s.kind ++ (codes ":" ++ s.name) else rest

-- `MatchedVia`
unfoldable pub matched_via : List PolicySubject → Identity → Bytes
matched_via [] id = codes "*"
matched_via (s ∷ subjects) id = matched_subject (s ∷ subjects) id

-- `subjectsMatch`
abbrev pub subjects_match : List PolicySubject → Identity → Bool
subjects_match subjects id = not (equal (matched_via subjects id) [])

-- The warning on two policies of the same priority, of which the first is taken.
pub record Tie : Type 0 where
  pub chosen : Bytes
  pub other : Bytes
  pub at_priority : ℕ

pub data Resolution (Q : Type 0) : Type 0 where
  denied : Reason → Resolution Q
  governed : WorkspacePolicy Q → List Tie → Resolution Q

abbrev allows : Option Bool → Bool
allows none = true
allows (some b) = b

abbrev clipboard_rights : Option ClipboardPolicy → Bool × Bool
clipboard_rights none = (true, true)
clipboard_rights (some c) = (allows c.copy_from_workspace, allows c.paste_to_workspace)

module _ {Q : Type 0} where
  -- the order of `sort.Slice`
  unfoldable pub before : WorkspacePolicy Q → WorkspacePolicy Q → Bool
  before p q =
      if not (p.priority == q.priority) then ltb q.priority p.priority else less p.name q.name

  unfoldable pub insert_policy :
      WorkspacePolicy Q → List (WorkspacePolicy Q) → List (WorkspacePolicy Q)
  insert_policy p [] = p ∷ []
  insert_policy p (q ∷ qs) =
      let rest = insert_policy p qs in if before p q then p ∷ q ∷ qs else q ∷ rest

  unfoldable pub sort_policies : List (WorkspacePolicy Q) → List (WorkspacePolicy Q)
  sort_policies [] = []
  sort_policies (p ∷ ps) = insert_policy p (sort_policies ps)

  abbrev pub choose : List (WorkspacePolicy Q) → Resolution Q
  choose [] = denied no_policy
  choose (p ∷ []) = governed p []
  choose (p ∷ q ∷ ps) = governed p (
      if p.priority == q.priority
      then record { chosen = p.name; other = q.name; at_priority = p.priority } ∷ []
      else [])

  -- `Resolve`
  unfoldable pub resolve : List (WorkspacePolicy Q) → Identity → Resolution Q
  resolve policies id = choose (sort_policies (keep (λ p. subjects_match p.subjects id) policies))

  -- `ClipboardOf`: the rights to copy and to paste
  unfoldable pub clipboard_of : Option (WorkspacePolicy Q) → Bool × Bool
  clipboard_of none = (false, false)
  clipboard_of (some p) = clipboard_rights p.clipboard

  -- `RemoteWorkspacesAllowed`
  unfoldable pub remote_workspaces_allowed : Option (WorkspacePolicy Q) → Bool
  remote_workspaces_allowed none = false
  remote_workspaces_allowed (some p) = p.remote_workspaces
