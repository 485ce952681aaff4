-- ===== src/Webhook/Enforce.antt =====
-- operator/internal/webhook/v1alpha1/workspace_webhook.go: placement, governance, and the whole decision.
use waas.Prelude.{
  Bool, false, not, ◌&&◌, ◌||◌, List, [], ◌∷◌, Option, none, some, codes, if◌then◌else◌, any, equal,
}
use waas.Metakeys.{Meta}
use waas.Naming.{Tables, is_personal_namespace_of}
use waas.Policy.{
  Reason, internal_error, image_not_in_catalog, protocol_mismatch, override_not_allowed,
  identity_violation, placement_denied, Identity, WorkspacePolicy, Resolution, denied, governed,
  resolve,
}
use waas.Policy.Catalog.{
  WorkspaceImage, find_image, image_allowed, check_tag_discipline, check_protocol,
}
use waas.Policy.Objects.{
  Workspace, WorkspaceOverrides, WorkspaceTemplate, effective_target_namespace,
  effective_workload_name, effective_protocols,
}
use waas.Policy.Overrides.{resolved_default_namespace, is_admin, check_overrides, ◌or◌}
use waas.Policy.Quota.{Quantities, Load, load_of}
use waas.Policy.Quota.Limits.{check_limits}
use waas.Governance.{sibling_loads, protocol_names}
use waas.Controller.Status.{Fetch, found, not_found}
use waas.Webhook.{
  Validator, Request, Details, Answers, template_missing, bypassing, tied, Outcome, admitted,
  rejected, errored, is_set, deny_if, is_bypassed, decided, after, is_default, owner_of,
  check_frozen, check_adoption, validate_shape, is_exempt, resolve_identity,
}

module _ {Q : Type 0} where
  -- `checkPlacementOwnership`
  unfoldable pub check_placement_ownership :
      Tables
      → Validator
      → Option Meta
      → Workspace Q
      → WorkspaceTemplate Q
      → Identity
      → Option Reason
  check_placement_ownership tables v target ws tpl id =
      if equal ws.target_namespace [] || is_admin ws
      then none
      else if is_default (resolved_default_namespace tables ws tpl id v.default_namespace_pattern)
          ws.target_namespace
      then none
      else if is_set target && equal (owner_of target) ws.owner
      then none
      else if is_personal_namespace_of tables id.username id.owner ws.target_namespace
      then deny_if (is_set target && not (equal (owner_of target) [])) placement_denied
      else some placement_denied

  abbrev pub collides : Workspace Q → Workspace Q → Bool
  collides ws sib =
      not (equal sib.name ws.name)
      && equal (effective_target_namespace sib) (effective_target_namespace ws)
      && equal (effective_workload_name sib) (effective_workload_name ws)

  -- `checkWorkloadNameCollision`
  unfoldable pub check_workload_name_collision :
      Option (List (Workspace Q)) → Workspace Q → Option Reason
  check_workload_name_collision none ws = some internal_error
  check_workload_name_collision (some all) ws = deny_if (any (collides ws) all) placement_denied

  abbrev pub bad_schedule : Details Q → Option WorkspaceOverrides → Bool
  bad_schedule details none = false
  bad_schedule details (some ov) = elim ov.schedule [
    | none ↦ false
    | some s ↦ details.is_bad_schedule s
  ]

  -- the size of an adopted volume takes the place of that of the template
  abbrev pub adopted_load : Fetch (Meta × Option Q) → Workspace Q → Load Q → Load Q
  adopted_load not_found ws load = load
  adopted_load Fetch.failed ws load = load
  adopted_load (found (labels, none)) ws load = load
  adopted_load (found (labels, some size)) ws load =
      if equal ws.home_volume_name [] then load else record load { storage = size }

module _ (quantities : Quantities) (tables : Tables) where
  open quantities use {Q}

  abbrev pub check_size :
      Option (List (Load Q))
      → Answers Q
      → Workspace Q
      → WorkspaceTemplate Q
      → WorkspaceImage Q
      → WorkspacePolicy Q
      → Option Reason
  check_size none a ws tpl img pol = some internal_error
  check_size (some others) a ws tpl img pol =
      let (load, known) = load_of quantities ws tpl (some img) in
      check_limits quantities (adopted_load a.volume ws load) known img pol others

  abbrev pub check_image_of :
      Option (WorkspaceImage Q)
      → Validator
      → Details Q
      → Answers Q
      → Workspace Q
      → WorkspaceTemplate Q
      → WorkspacePolicy Q
      → Identity
      → List (WorkspaceImage Q)
      → Option Reason
  check_image_of none v details a ws tpl pol id catalog = some image_not_in_catalog
  check_image_of (some img) v details a ws tpl pol id catalog =
      image_allowed img pol id
      or check_tag_discipline img tpl.image
      or check_protocol (protocol_names (effective_protocols tpl)) img
      or check_overrides tables ws tpl (some pol) id v.default_namespace_pattern
      or deny_if (bad_schedule details ws.overrides) override_not_allowed
      or check_size
          (sibling_loads quantities tables a.cluster (record ws { owner = id.owner }) catalog) a ws
          tpl img pol

  abbrev pub govern :
      Resolution Q
      → Validator
      → Details Q
      → Answers Q
      → Workspace Q
      → WorkspaceTemplate Q
      → Identity
      → List (WorkspaceImage Q)
      → Outcome
  govern (denied reason) v details a ws tpl id catalog = rejected reason
  govern (governed pol ties) v details a ws tpl id catalog =
      decided (tied ties ∷ [])
        (check_image_of (find_image catalog tpl.image) v details a ws tpl pol id catalog)

  abbrev pub with_lists :
      Option (List (WorkspaceImage Q))
      → Option (List (WorkspacePolicy Q))
      → Validator
      → Details Q
      → Answers Q
      → Workspace Q
      → WorkspaceTemplate Q
      → Identity
      → Outcome
  with_lists none policies v details a ws tpl id = rejected internal_error
  with_lists (some catalog) none v details a ws tpl id = rejected internal_error
  with_lists (some catalog) (some policies) v details a ws tpl id =
      govern (resolve policies id) v details a ws tpl id catalog

  -- `enforce`
  unfoldable pub enforce :
      Validator → Details Q → Answers Q → Workspace Q → WorkspaceTemplate Q → Identity → Outcome
  enforce v details a ws tpl id =
      after
        (check_placement_ownership tables v a.target ws tpl id
          or check_workload_name_collision a.cluster.workspaces ws)
        (with_lists a.cluster.catalog a.cluster.policies v details a ws tpl id)

  abbrev pub identified :
      Option Identity
      → Validator
      → Details Q
      → Answers Q
      → Workspace Q
      → WorkspaceTemplate Q
      → Outcome
  identified none v details a ws tpl = rejected identity_violation
  identified (some id) v details a ws tpl = enforce v details a ws tpl id

  abbrev pub with_template :
      Fetch (WorkspaceTemplate Q)
      → Validator
      → Details Q
      → Answers Q
      → Request
      → Workspace Q
      → Outcome
  with_template not_found v details a req ws = admitted (template_missing ws.template_ref ∷ [])
  with_template Fetch.failed v details a req ws = errored
  with_template (found tpl) v details a req ws =
      let governance = identified (resolve_identity v req ws) v details a ws tpl in
      if equal tpl.os (codes "windows") && not v.kube_virt_available
      then rejected protocol_mismatch
      else if is_bypassed v req
      then admitted (bypassing req.username ∷ [])
      else governance

  -- `validate`, on the workspace before the update, if it is one
  unfoldable pub validate :
      Validator → Details Q → Answers Q → Request → Option (Workspace Q) → Workspace Q → Outcome
  validate v details a req old ws =
      let rest = with_template a.template v details a req ws in
      after (check_frozen old ws or check_adoption old a.volume ws or validate_shape details ws)
        (if is_exempt details old ws then admitted [] else rest)
