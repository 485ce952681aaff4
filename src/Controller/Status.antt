-- ===== src/Controller/Status.antt =====
-- operator/internal/controller/workspace_status.go: the conditions of a workspace, and the patch of its status.
use waas.Prelude.{ℕ, Bool, false, ◌&&◌, List, [], ◌∷◌, Bytes, codes, if◌then◌else◌, equal}

pub record Condition : Type 0 where
  pub kind : Bytes
  pub status : Bytes
  pub reason : Bytes
  pub message : Bytes
  pub since : ℕ
  pub generation : ℕ

pub record WorkspaceStatus : Type 0 where
  pub phase : Bytes
  pub generation : ℕ
  pub conditions : List Condition

-- what a condition becomes in place of an existing one of its type
abbrev pub refreshed : Condition → Condition → Condition
refreshed existing cond =
    if equal existing.status cond.status
      && equal existing.reason cond.reason
      && equal existing.message cond.message
    then existing
    else if equal existing.status cond.status
    then record cond { since = existing.since }
    else cond

-- `setTypedCondition`, with the time of `metav1.Now`; a new condition has no generation yet
unfoldable pub set_condition_in : Condition → List Condition → List Condition
set_condition_in cond [] = cond ∷ []
set_condition_in cond (existing ∷ conditions) =
    let rest = set_condition_in cond conditions in
    if equal existing.kind cond.kind then refreshed existing cond ∷ conditions else existing ∷ rest

unfoldable pub set_typed_condition :
    ℕ → Bytes → Bytes → Bytes → Bytes → WorkspaceStatus → WorkspaceStatus
set_typed_condition now kind status reason message st = record st {
  conditions =
      set_condition_in
        (record {
          kind = kind;
          status = status;
          reason = reason;
          message = message;
          since = now;
          generation = 0;
        })
        st.conditions;
}

abbrev pub condition_ready : Bytes
condition_ready = codes "Ready"

abbrev pub condition_template_drifted : Bytes
condition_template_drifted = codes "TemplateDrifted"

-- `setCondition`
abbrev pub set_condition : ℕ → Bytes → Bytes → Bytes → WorkspaceStatus → WorkspaceStatus
set_condition now status reason message st =
    set_typed_condition now condition_ready status reason message st

-- `setDriftCondition`
abbrev pub set_drift_condition : ℕ → Bool → WorkspaceStatus → WorkspaceStatus
set_drift_condition now drifted st =
    if drifted
    then set_typed_condition now condition_template_drifted (codes "True") (codes "TemplateChanged")
        (codes
          "the desired configuration (template or overrides) changed since this workspace started; the new shape applies at the next resume or on manual reload (the desktop will restart with updates)")
        st
    else set_typed_condition now condition_template_drifted (codes "False") (codes "InSync")
        (codes "the workload matches its desired configuration") st

-- `hasDriftCondition`
unfoldable pub has_drift_condition : List Condition → Bool
has_drift_condition [] = false
has_drift_condition (c ∷ cs) =
    let rest = has_drift_condition cs in
    if equal c.kind condition_template_drifted then equal c.status (codes "True") else rest

-- every condition is stamped with the generation
unfoldable pub stamp : ℕ → List Condition → List Condition
stamp generation [] = []
stamp generation (c ∷ cs) = record c { generation = generation } ∷ stamp generation cs

pub data Fetch (A : Type 0) : Type 0 where
  found : A → Fetch A
  not_found failed : Fetch A

pub data Patch : Type 0 where
  gone get_failed update_failed : Patch
  patched : WorkspaceStatus → Patch

-- `patchStatus`: on the workspace as it is fetched (its generation and status), with whether the update succeeds
unfoldable pub patch_status :
    (WorkspaceStatus → WorkspaceStatus) → Fetch (ℕ × WorkspaceStatus) → Bool → Patch
patch_status mutate not_found updates = gone
patch_status mutate failed updates = get_failed
patch_status mutate (found (generation, st)) updates =
    let st' : WorkspaceStatus = mutate st in
    if updates
    then patched
        (record st' { generation = generation; conditions = stamp generation st'.conditions })
    else update_failed

-- `setUnready`
abbrev pub set_unready : ℕ → Bytes → Bytes → Bytes → Fetch (ℕ × WorkspaceStatus) → Bool → Patch
set_unready now phase reason message fresh updates =
    patch_status
      (λ st. set_condition now (codes "False") reason message (record st { phase = phase })) fresh
      updates
