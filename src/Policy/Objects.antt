-- ===== src/Policy/Objects.antt =====
-- operator/api/v1alpha1: what the operator reads of workspaces, templates and volumes, and the defaults
-- that the types carry. What is inside an override, and what is only displayed, is left out or opaque.
use waas.Prelude.{
  ℕ, Bool, true, false, not, List, [], ◌∷◌, ◌++◌, Option, none, some, Bytes, codes, if◌then◌else◌,
  ◌==◌, equal, member,
}
use waas.Metakeys.{Meta}
use waas.Policy.Catalog.{ComputeSize}

-- `OverridableField` is a string.
abbrev pub OverridableField : Type 0
OverridableField = Bytes

abbrev pub field_placement : OverridableField
field_placement = codes "placement"

abbrev pub field_resources : OverridableField
field_resources = codes "resources"

-- limits and requests of `corev1.ResourceRequirements`, by the two names that are read
pub record Requirements (Q : Type 0) : Type 0 where
  pub limits : ComputeSize Q
  pub requests : ComputeSize Q

-- a collection by its entries, a pointer by what it points to
pub record WorkspaceOverrides : Type 0 where
  pub env : List Bytes
  pub security_context : Option Bytes
  pub pod_security_context : Option Bytes
  pub volumes : List Bytes
  pub volume_mounts : List Bytes
  pub node_selector : Meta
  pub tolerations : List Bytes
  pub protocol : Bytes
  pub schedule : Option Bytes
  pub labels : Meta
  pub annotations : Meta

pub record Workspace (Q : Type 0) : Type 0 where
  pub namespace : Bytes
  pub name : Bytes
  pub annotations : Meta
  pub uid : Bytes
  pub created : ℕ
  pub owner : Bytes
  pub display_name : Bytes
  pub template_ref : Bytes
  pub paused : Bool
  pub deleting : Bool
  pub target_namespace : Bytes
  pub workload_name : Bytes
  pub home_volume_name : Bytes
  pub resources : Option (Requirements Q)
  pub overrides : Option WorkspaceOverrides

pub record WorkspaceProtocol : Type 0 where
  pub name : Bytes
  pub port : ℕ
  pub default : Bool

pub record TemplateOverrides : Type 0 where
  pub owner : Bytes
  pub allowed_fields : List OverridableField

pub record WorkspacePlacement : Type 0 where
  pub namespace : Bytes
  pub cleanup : Bytes

pub record WorkspaceTemplate (Q : Type 0) : Type 0 where
  pub name : Bytes
  pub os : Bytes
  pub image : Bytes
  pub port : ℕ
  pub protocols : List WorkspaceProtocol
  pub resources : Requirements Q
  pub home_size : Option Q
  pub overrides : Option TemplateOverrides
  pub placement : Option WorkspacePlacement

pub record Volume (Q : Type 0) : Type 0 where
  pub namespace : Bytes
  pub name : Bytes
  pub deleting : Bool
  pub storage : Q

-- the loop of `ProtocolNamed`
abbrev named : Bytes → List WorkspaceProtocol → Option WorkspaceProtocol
named name [] = none
named name (p ∷ ps) = let rest = named name ps in if equal p.name name then some p else rest

abbrev first_default : List WorkspaceProtocol → Option WorkspaceProtocol
first_default [] = none
first_default (p ∷ ps) = let rest = first_default ps in if p.default then some p else rest

-- the protocol of a template that declares none
abbrev legacy_protocol : Bytes → ℕ → WorkspaceProtocol
legacy_protocol os port = record {
  name = if equal os (codes "windows") then codes "rdp" else codes "vnc";
  port = if port == 0 then (if equal os (codes "windows") then 3389 else 5901) else port;
  default = true;
}

abbrev declared_or : List WorkspaceProtocol → WorkspaceProtocol → List WorkspaceProtocol
declared_or [] p = p ∷ []
declared_or (q ∷ qs) p = q ∷ qs

abbrev or_head : Option WorkspaceProtocol → List WorkspaceProtocol → Option WorkspaceProtocol
or_head (some p) ps = some p
or_head none [] = none
or_head none (p ∷ ps) = some p

module _ {Q : Type 0} where
  -- `EffectiveTargetNamespace`
  abbrev pub effective_target_namespace : Workspace Q → Bytes
  effective_target_namespace ws =
      if not (equal ws.target_namespace []) then ws.target_namespace else ws.namespace

  -- `EffectiveWorkloadName`
  abbrev pub effective_workload_name : Workspace Q → Bytes
  effective_workload_name ws =
      if not (equal ws.workload_name []) then ws.workload_name else codes "ws-" ++ ws.name

  -- `PlacementNamespacePattern`
  abbrev pub placement_namespace_pattern : WorkspaceTemplate Q → Bytes
  placement_namespace_pattern tpl = elim tpl.placement [ none ↦ [] | some p ↦ p.namespace ]

  -- `CleanupPolicyOrDefault`
  abbrev pub cleanup_policy_or_default : WorkspaceTemplate Q → Bytes
  cleanup_policy_or_default tpl = elim tpl.placement [
    | none ↦ codes "Retain"
    | some p ↦ if equal p.cleanup [] then codes "Retain" else p.cleanup
  ]

  -- `EffectiveProtocols`
  unfoldable pub effective_protocols : WorkspaceTemplate Q → List WorkspaceProtocol
  effective_protocols tpl = declared_or tpl.protocols (legacy_protocol tpl.os tpl.port)

  -- `DefaultProtocol`; it is never none, as there is an effective protocol
  unfoldable pub default_protocol : WorkspaceTemplate Q → Option WorkspaceProtocol
  default_protocol tpl = or_head (first_default (effective_protocols tpl)) (effective_protocols tpl)

  -- `ProtocolNamed`
  unfoldable pub protocol_named : WorkspaceTemplate Q → Bytes → Option WorkspaceProtocol
  protocol_named tpl name = named name (effective_protocols tpl)

  -- `FieldOverridable`
  abbrev pub field_overridable : WorkspaceTemplate Q → OverridableField → Bool
  field_overridable tpl field = elim tpl.overrides [
    | none ↦ false
    | some o ↦ member o.allowed_fields field
  ]
