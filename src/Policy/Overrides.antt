-- ===== src/Policy/Overrides.antt =====
-- operator/pkg/policy: the identity of an owner, the rights that overrides consume (overrides.go), and
-- `CheckOverrides`.
use waas.Prelude.{
  ℕ, zero, suc, Bool, true, false, not, ◌&&◌, List, [], ◌∷◌, Option, none, some, Bytes, codes,
  if◌then◌else◌, ◌==◌, equal, member, has_prefix, length, drop,
}
use waas.Metakeys.{Meta}
use waas.Metakeys.Merge.{lookup}
use waas.Naming.{
  Tables, PatternValues, Resolved, name, failed, effective_pattern, resolve_namespace,
}
use waas.Policy.{Reason, override_not_allowed, protocol_mismatch, Identity, WorkspacePolicy}
use waas.Policy.Objects.{
  OverridableField, field_placement, field_resources, WorkspaceOverrides, Workspace,
  WorkspaceTemplate, placement_namespace_pattern, field_overridable, protocol_named,
}

-- a map of strings read at a key: a missing one is empty
abbrev pub value_of : Option Bytes → Bytes
value_of none = []
value_of (some v) = v

abbrev pub annotation : Bytes → Meta → Bytes
annotation key entries = value_of (lookup key entries)

-- `strings.Split(s, ",")`
abbrev into_first : ℕ → List Bytes → List Bytes
into_first c [] = (c ∷ []) ∷ []
into_first c (part ∷ parts) = (c ∷ part) ∷ parts

unfoldable pub split_commas : Bytes → List Bytes
split_commas [] = [] ∷ []
split_commas (c ∷ s) =
    let rest = split_commas s in if c == b',' then [] ∷ rest else into_first c rest

-- `strings.TrimSpace`: the white space of Unicode, each character in UTF-8
abbrev spaces : List Bytes
spaces =
    (9 ∷ [])
    ∷ (10 ∷ [])
    ∷ (11 ∷ [])
    ∷ (12 ∷ [])
    ∷ (13 ∷ [])
    ∷ (32 ∷ [])
    ∷ (194 ∷ 133 ∷ [])
    ∷ (194 ∷ 160 ∷ [])
    ∷ (225 ∷ 154 ∷ 128 ∷ [])
    ∷ (226 ∷ 128 ∷ 128 ∷ [])
    ∷ (226 ∷ 128 ∷ 129 ∷ [])
    ∷ (226 ∷ 128 ∷ 130 ∷ [])
    ∷ (226 ∷ 128 ∷ 131 ∷ [])
    ∷ (226 ∷ 128 ∷ 132 ∷ [])
    ∷ (226 ∷ 128 ∷ 133 ∷ [])
    ∷ (226 ∷ 128 ∷ 134 ∷ [])
    ∷ (226 ∷ 128 ∷ 135 ∷ [])
    ∷ (226 ∷ 128 ∷ 136 ∷ [])
    ∷ (226 ∷ 128 ∷ 137 ∷ [])
    ∷ (226 ∷ 128 ∷ 138 ∷ [])
    ∷ (226 ∷ 128 ∷ 168 ∷ [])
    ∷ (226 ∷ 128 ∷ 169 ∷ [])
    ∷ (226 ∷ 128 ∷ 175 ∷ [])
    ∷ (226 ∷ 129 ∷ 159 ∷ [])
    ∷ (227 ∷ 128 ∷ 128 ∷ [])
    ∷ []

abbrev reversed_onto : Bytes → Bytes → Bytes
reversed_onto [] t = t
reversed_onto (c ∷ s) t = reversed_onto s (c ∷ t)

abbrev reversed : Bytes → Bytes
reversed s = reversed_onto s []

abbrev reversed_all : List Bytes → List Bytes
reversed_all [] = []
reversed_all (s ∷ ss) = reversed s ∷ reversed_all ss

-- the width of the space that a text begins with, 0 for none
unfoldable pub space_width : List Bytes → Bytes → ℕ
unfolding has_prefix
space_width [] s = 0
space_width (w ∷ ws) s = let rest = space_width ws s in if has_prefix s w then length w else rest

-- one round per space; each takes a byte at least
unfoldable pub trim_left : ℕ → List Bytes → Bytes → Bytes
unfolding space_width
trim_left zero ws s = s
trim_left (suc fuel) ws s =
    let trimmed = trim_left fuel ws (drop (space_width ws s) s) in
    if space_width ws s == 0 then s else trimmed

abbrev pub trim_start : List Bytes → Bytes → Bytes
trim_start ws s = trim_left (length s) ws s

unfoldable pub trim_space : Bytes → Bytes
unfolding trim_left
trim_space s = reversed (trim_start (reversed_all spaces) (reversed (trim_start spaces s)))

unfoldable pub groups_of : List Bytes → List Bytes
unfolding trim_space
groups_of [] = []
groups_of (g ∷ gs) =
    let rest = groups_of gs in if equal (trim_space g) [] then rest else trim_space g ∷ rest

abbrev pub username_key : Bytes
username_key = codes "waas.xorhub.io/username"

abbrev pub groups_key : Bytes
groups_key = codes "waas.xorhub.io/groups"

abbrev pub role_key : Bytes
role_key = codes "waas.xorhub.io/role"

-- the claims of `overrideClaims`
abbrev pub override_claims : Meta
override_claims =
    (codes "env", codes "env")
    ∷ (codes "securityContext", codes "securityContext")
    ∷ (codes "podSecurityContext", codes "podSecurityContext")
    ∷ (codes "volumes", codes "volumes")
    ∷ (codes "volumeMounts", codes "volumes")
    ∷ (codes "nodeSelector", codes "nodeSelector")
    ∷ (codes "tolerations", codes "tolerations")
    ∷ (codes "protocol", codes "protocol")
    ∷ (codes "schedule", codes "schedule")
    ∷ (codes "labels", codes "metadata")
    ∷ (codes "annotations", codes "metadata")
    ∷ []

-- `valueUsed`, by the kind of the field
abbrev pub used_collection {ℓ} : {A : Type ℓ} → List A → Bool
used_collection [] = false
used_collection (x ∷ xs) = true

abbrev pub used_pointer {ℓ} : {A : Type ℓ} → Option A → Bool
used_pointer none = false
used_pointer (some x) = true

-- the fields of the struct in their order: the JSON name, and whether the field is used
abbrev pub struct_fields : WorkspaceOverrides → List (Bytes × Bool)
struct_fields ov =
    (codes "env", used_collection ov.env)
    ∷ (codes "securityContext", used_pointer ov.security_context)
    ∷ (codes "podSecurityContext", used_pointer ov.pod_security_context)
    ∷ (codes "volumes", used_collection ov.volumes)
    ∷ (codes "volumeMounts", used_collection ov.volume_mounts)
    ∷ (codes "nodeSelector", used_collection ov.node_selector)
    ∷ (codes "tolerations", used_collection ov.tolerations)
    ∷ (codes "protocol", used_collection ov.protocol)
    ∷ (codes "schedule", used_pointer ov.schedule)
    ∷ (codes "labels", used_collection ov.labels)
    ∷ (codes "annotations", used_collection ov.annotations)
    ∷ []

-- the right that one field consumes
abbrev pub claimed : Option Bytes → Bool → List OverridableField → List OverridableField
claimed none used rest = rest
claimed (some field) used rest = if used then field ∷ rest else rest

unfoldable pub usage_of : List (Bytes × Bool) → List OverridableField
usage_of [] = []
usage_of ((json, used) ∷ fields) = claimed (lookup json override_claims) used (usage_of fields)

-- `overridesUsage`: the rights, of which the code makes a set
unfoldable pub overrides_usage : Option WorkspaceOverrides → List OverridableField
overrides_usage none = []
overrides_usage (some ov) = usage_of (struct_fields ov)

infixr 3 ◌or◌
abbrev pub ◌or◌ : Option Reason → Option Reason → Option Reason
some reason or next = some reason
none or next = next

-- the name alone, empty if it does not resolve
abbrev pub default_name : Resolved → Bytes
default_name (name ns) = ns
default_name (failed e) = []

abbrev pub if_used : Bool → Option Reason → Option Reason
if_used used reason = if used then reason else none

module _ {Q : Type 0} where
  -- `IdentityOf`
  unfoldable pub identity_of : Workspace Q → Identity
  identity_of ws =
      let username = annotation username_key ws.annotations in
      let groups = annotation groups_key ws.annotations in
      record {
        owner = ws.owner;
        username = if equal username [] then ws.owner else username;
        groups = if equal groups [] then [] else groups_of (split_commas groups);
      }

  -- `PlacementValues`
  abbrev pub placement_values : Workspace Q → WorkspaceTemplate Q → Identity → PatternValues
  placement_values ws tpl id = record {
    user = id.username;
    user_id = id.owner;
    workspace = ws.display_name;
    template_name = tpl.name;
    os = tpl.os;
  }

  -- `ResolvedDefaultNamespace`
  unfoldable pub resolved_default_namespace :
      Tables → Workspace Q → WorkspaceTemplate Q → Identity → Bytes → Resolved
  resolved_default_namespace tables ws tpl id global =
      resolve_namespace tables (effective_pattern (placement_namespace_pattern tpl) global)
        (placement_values ws tpl id)

  abbrev pub is_template_owner : WorkspaceTemplate Q → Identity → Bool
  is_template_owner tpl id = elim tpl.overrides [
    | none ↦ false
    | some o ↦ not (equal o.owner []) && equal o.owner id.username
  ]

  abbrev pub policy_allows : Option (WorkspacePolicy Q) → OverridableField → Bool
  policy_allows none field = true
  policy_allows (some pol) field = elim pol.overrides [
    | none ↦ true
    | some allowed ↦ member allowed field
  ]

  -- `checkField`
  unfoldable pub check_field :
      WorkspaceTemplate Q → Option (WorkspacePolicy Q) → Identity → OverridableField → Option Reason
  check_field tpl pol id field =
      if not (is_template_owner tpl id) && not (field_overridable tpl field)
      then some override_not_allowed
      else if not (policy_allows pol field)
      then some override_not_allowed
      else none

  unfoldable pub check_fields :
      WorkspaceTemplate Q
      → Option (WorkspacePolicy Q)
      → Identity
      → List OverridableField
      → Option Reason
  check_fields tpl pol id [] = none
  check_fields tpl pol id (field ∷ fields) =
      check_field tpl pol id field or check_fields tpl pol id fields

  -- does the target namespace deviate from the resolved default?
  abbrev pub deviates : Tables → Workspace Q → WorkspaceTemplate Q → Identity → Bytes → Bool
  deviates tables ws tpl id global =
      not (equal ws.target_namespace [])
      && not (
          equal ws.target_namespace
            (default_name (resolved_default_namespace tables ws tpl id global)))

  abbrev pub check_declared : WorkspaceTemplate Q → Option WorkspaceOverrides → Option Reason
  check_declared tpl none = none
  check_declared tpl (some ov) =
      if not (equal ov.protocol []) && not (used_pointer (protocol_named tpl ov.protocol))
      then some protocol_mismatch
      else none

  abbrev pub is_admin : Workspace Q → Bool
  is_admin ws = equal (annotation role_key ws.annotations) (codes "admin")

  -- `CheckOverrides`
  unfoldable pub check_overrides :
      Tables
      → Workspace Q
      → WorkspaceTemplate Q
      → Option (WorkspacePolicy Q)
      → Identity
      → Bytes
      → Option Reason
  check_overrides tables ws tpl pol id global =
      let checked =
        if_used (deviates tables ws tpl id global) (check_field tpl pol id field_placement)
        or if_used (used_pointer ws.resources) (check_field tpl pol id field_resources)
        or check_fields tpl pol id (overrides_usage ws.overrides)
        or check_declared tpl ws.overrides in
      if is_admin ws then none else checked
