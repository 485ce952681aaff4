-- ===== src/Webhook/Frozen.antt =====
-- What an update may not change, and which volumes a new workspace adopts.
use waas.Prelude.{◌≡◌, refl, not, ◌||◌, Option, none, some, codes, arith, equal, equal_iff, All}
use waas.Metakeys.{Meta}
use waas.Policy.{Reason, identity_violation, placement_denied, volume_denied}
use waas.Policy.Objects.{Workspace}
use waas.Policy.Overrides.{annotation, ◌or◌}
use waas.Controller.{label_managed_by, manager_name, label_owner}
use waas.Controller.Status.{Fetch, found, not_found}
use waas.Webhook.{
  label_retained, identity_keys, same_annotations, deny_if, check_frozen,
  check_home_volume_adoption,
}
use waas.Webhook.Denials.{or-none, deny_if-none, same, kept_annotations}

module _ {Q : Type 0} where
  -- An update leaves the owner, the identity, and the place as they were.
  pub record IsFrozen (old ws : Workspace Q) : Type 0 where
    pub owner : ws.owner ≡ old.owner
    pub identity :
        All (λ k. annotation k ws.annotations ≡ annotation k old.annotations) identity_keys
    pub target : ws.target_namespace ≡ old.target_namespace
    pub workload : ws.workload_name ≡ old.workload_name
    pub volume : ws.home_volume_name ≡ old.home_volume_name

  pub check_frozen-IsFrozen :
      (old ws : Workspace Q) → check_frozen (some old) ws ≡ none → IsFrozen old ws
  unfolding check_frozen
  check_frozen-IsFrozen old ws h =
      let place : Option Reason =
        deny_if (not (equal ws.workload_name old.workload_name)) placement_denied
        or deny_if (not (equal ws.home_volume_name old.home_volume_name)) placement_denied in
      let (o, h1) =
        or-none (deny_if (not (equal ws.owner old.owner)) identity_violation)
          (deny_if (not (same_annotations identity_keys ws.annotations old.annotations))
              identity_violation
            or deny_if (not (equal ws.target_namespace old.target_namespace)) placement_denied
            or place)
          h in
      let (i, h2) =
        or-none
          (deny_if (not (same_annotations identity_keys ws.annotations old.annotations))
            identity_violation)
          (deny_if (not (equal ws.target_namespace old.target_namespace)) placement_denied or place)
          h1 in
      let (t, h3) =
        or-none (deny_if (not (equal ws.target_namespace old.target_namespace)) placement_denied)
          place h2 in
      let (w, v) =
        or-none (deny_if (not (equal ws.workload_name old.workload_name)) placement_denied)
          (deny_if (not (equal ws.home_volume_name old.home_volume_name)) placement_denied) h3 in
      let kept =
        deny_if-none (not (same_annotations identity_keys ws.annotations old.annotations))
          identity_violation i in
      record {
        owner = same ws.owner old.owner identity_violation o;
        identity = kept_annotations identity_keys ws.annotations old.annotations (ground arith);
        target = same ws.target_namespace old.target_namespace placement_denied t;
        workload = same ws.workload_name old.workload_name placement_denied w;
        volume = same ws.home_volume_name old.home_volume_name placement_denied v;
      }

  -- A volume of the platform that was kept from a workspace of the same owner.
  pub record IsRetained (volume : Fetch (Meta × Option Q)) (ws : Workspace Q) : Type 0 where
    pub labels : Meta
    pub size : Option Q
    pub exists_ : volume ≡ found (labels, size)
    pub managed : annotation label_managed_by labels ≡ manager_name
    pub retained : annotation label_retained labels ≡ codes "true"
    pub same_owner : annotation label_owner labels ≡ ws.owner

  pub check-IsRetained :
      (volume : Fetch (Meta × Option Q)) (ws : Workspace Q)
      → check_home_volume_adoption volume ws ≡ none
      → IsRetained volume ws
  unfolding check_home_volume_adoption
  check-IsRetained not_found ws h = absurd cc
  check-IsRetained Fetch.failed ws h = absurd cc
  check-IsRetained (found (labels, size)) ws h =
      let (p, o) =
        or-none
          (deny_if
            (not (equal (annotation label_managed_by labels) manager_name)
              || not (equal (annotation label_retained labels) (codes "true")))
            volume_denied)
          (deny_if (not (equal (annotation label_owner labels) ws.owner)) volume_denied) h in
      let q =
        deny_if-none
          (not (equal (annotation label_managed_by labels) manager_name)
            || not (equal (annotation label_retained labels) (codes "true")))
          volume_denied p in
      record {
        labels = labels;
        size = size;
        exists_ = refl;
        managed = (equal_iff (annotation label_managed_by labels) manager_name).0 (ground arith);
        retained = (equal_iff (annotation label_retained labels) (codes "true")).0 (ground arith);
        same_owner = same (annotation label_owner labels) ws.owner volume_denied o;
      }
