-- ===== src/Controller/Failure.antt =====
-- operator/internal/controller/workload_failure.go: why a desktop is not ready. A message keeps the parts that are
-- put together, not their wording.
use waas.Prelude.{
  ℕ, Bool, ◌&&◌, List, [], ◌∷◌, ◌++◌, Option, none, some, Bytes, codes, if◌then◌else◌, equal,
  member,
}

-- the last termination: exit code and reason; `restarts` is the count
pub record ContainerStatus : Type 0 where
  pub name : Bytes
  pub waiting : Option (Bytes × Bytes)
  pub terminated : Option (ℕ × Bytes)
  pub restarts : ℕ

pub record PodCondition : Type 0 where
  pub kind : Bytes
  pub status : Bytes
  pub reason : Bytes
  pub message : Bytes

pub record Pod : Type 0 where
  pub name : Bytes
  pub deleting : Bool
  pub phase : Bytes
  pub reason : Bytes
  pub message : Bytes
  pub init_statuses : List ContainerStatus
  pub statuses : List ContainerStatus
  pub conditions : List PodCondition

pub data Message : Type 0 where
  pod_failed : Bytes → Bytes → Message
  container : Bytes → Bytes → Bytes → Option (ℕ × Bytes × ℕ) → Message

-- `workloadFailure`
pub record WorkloadFailure : Type 0 where
  pub reason : Bytes
  pub message : Message

abbrev pub failure_waiting_reasons : List Bytes
failure_waiting_reasons =
    codes "CrashLoopBackOff"
    ∷ codes "ImagePullBackOff"
    ∷ codes "ErrImagePull"
    ∷ codes "CreateContainerConfigError"
    ∷ codes "CreateContainerError"
    ∷ codes "InvalidImageName"
    ∷ codes "RunContainerError"
    ∷ []

abbrev pub last_exit : Option (ℕ × Bytes) → ℕ → Option (ℕ × Bytes × ℕ)
last_exit none restarts = none
last_exit (some (code, reason)) restarts = some (code, reason, restarts)

-- `containerFailure`
unfoldable pub container_failure : ContainerStatus → Option WorkloadFailure
container_failure cs = elim cs.waiting [
  | none ↦ none
  | some (reason, message) ↦
      if member failure_waiting_reasons reason
      then some (record {
        reason = reason;
        message = container cs.name reason message (last_exit cs.terminated cs.restarts);
      })
      else none
]

abbrev pub or_later : Option WorkloadFailure → Option WorkloadFailure → Option WorkloadFailure
or_later none later = later
or_later (some f) later = some f

unfoldable pub containers_failure : List ContainerStatus → Option WorkloadFailure
containers_failure [] = none
containers_failure (cs ∷ rest) = or_later (container_failure cs) (containers_failure rest)

-- `podFailure`
unfoldable pub pod_failure : Pod → Option WorkloadFailure
pod_failure pod =
    if equal pod.phase (codes "Failed")
    then some (record {
      reason = if equal pod.reason [] then codes "PodFailed" else pod.reason;
      message = pod_failed pod.name pod.message;
    })
    else containers_failure (pod.init_statuses ++ pod.statuses)

abbrev pub is_unschedulable : PodCondition → Bool
is_unschedulable c =
    equal c.kind (codes "PodScheduled")
    && equal c.status (codes "False")
    && equal c.reason (codes "Unschedulable")

unfoldable pub detail_of : Bytes → List PodCondition → Bytes
detail_of detail [] = detail
detail_of detail (c ∷ cs) = detail_of (if is_unschedulable c then c.message else detail) cs

abbrev pub reported :
    Option WorkloadFailure → Option WorkloadFailure × Bytes → Option WorkloadFailure × Bytes
reported (some f) rest = (some f, [])
reported none rest = rest

-- `detectWorkloadFailure` over the pods of the workspace: the failure, and the detail
unfoldable pub detect_from : Bytes → List Pod → Option WorkloadFailure × Bytes
detect_from detail [] = (none, detail)
detect_from detail (pod ∷ pods) =
    let skipped = detect_from detail pods in
    let checked = reported (pod_failure pod) (detect_from (detail_of detail pod.conditions) pods) in
    if pod.deleting then skipped else checked

abbrev pub detect_workload_failure : List Pod → Option WorkloadFailure × Bytes
detect_workload_failure pods = detect_from [] pods
