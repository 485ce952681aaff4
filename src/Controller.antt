-- ===== src/Controller.antt =====
-- operator/internal/controller: parts of the workspace reconciler, and the namespace janitor. The cluster's
-- answers are arguments; its errors keep which call failed.
pub mod Status
pub mod Conditions
pub mod Failure
pub mod Janitor
pub mod Reclaim
pub mod Placement
pub mod Owned
use waas.Prelude.{Bytes, codes}

abbrev pub label_managed_by : Bytes
label_managed_by = codes "app.kubernetes.io/managed-by"

abbrev pub manager_name : Bytes
manager_name = codes "waas-operator"

abbrev pub label_owner : Bytes
label_owner = codes "waas.xorhub.io/owner"

abbrev pub label_cleanup : Bytes
label_cleanup = codes "waas.xorhub.io/cleanup"

abbrev pub label_pull_secret : Bytes
label_pull_secret = codes "waas.xorhub.io/pull-secret"
