-- ===== src/Templates.antt =====
-- operator/internal/webhook/v1alpha1/workspacetemplate_webhook.go and operator/pkg/kasmcfg/kasmcfg.go: the admission of a
-- template. A parsed YAML document is a tree; the parser is an argument.
pub mod Sound
use waas.Prelude.{
  ℕ, zero, suc, ◌+◌, Bool, true, false, not, ◌&&◌, ◌||◌, List, [], ◌∷◌, Option, none, some, Bytes,
  codes, if◌then◌else◌, ltb, ◌==◌, length, any, equal, member, join,
}
use waas.Metakeys.{Meta, check}
use waas.Naming.{Tables, validate_pattern}
use waas.Params.{validate_template_params, validate_user_param_names}
use waas.Policy.Overrides.{trim_space}
use waas.Schedule.{Cron, Spec}
use waas.Schedule

-- a value is a mapping, or another value
mutual
  pub data Yaml : Type 0 where
    leaf : Yaml
    mapping : Mapping → Yaml

  pub data Mapping : Type 0 where
    nothing : Mapping
    entry : Bytes → Yaml → Mapping → Mapping

abbrev pub at_key : Bytes → Mapping → Option Yaml
at_key k nothing = none
at_key k (entry key value m) = let rest = at_key k m in if equal key k then some value else rest

abbrev pub as_mapping : Option Yaml → Option Mapping
as_mapping none = none
as_mapping (some leaf) = none
as_mapping (some (mapping m)) = some m

abbrev pub is_some {ℓ} : {A : Type ℓ} → Option A → Bool
is_some none = false
is_some (some a) = true

-- `hasNestedKey`
unfoldable pub has_nested_key : Mapping → List Bytes → Bool
has_nested_key root [] = false
has_nested_key root (k ∷ []) = is_some (at_key k root)
has_nested_key root (k ∷ j ∷ keys) = elim (as_mapping (at_key k root)) [
  | none ↦ false
  | some m ↦ has_nested_key m (j ∷ keys)
]

abbrev pub managed_clipboard_key_paths : List (List Bytes)
managed_clipboard_key_paths =
    (codes "data_loss_prevention"
      ∷ codes "clipboard"
      ∷ codes "server_to_client"
      ∷ codes "enabled"
      ∷ [])
    ∷ (codes "data_loss_prevention"
        ∷ codes "clipboard"
        ∷ codes "client_to_server"
        ∷ codes "enabled"
        ∷ [])
    ∷ (codes "runtime_configuration" ∷ codes "allow_client_to_override_kasm_server_settings" ∷ [])
    ∷ []

unfoldable pub keys_found : Mapping → List (List Bytes) → List Bytes
keys_found root [] = []
keys_found root (path ∷ paths) =
    let rest = keys_found root paths in
    if has_nested_key root path then join (codes ".") path ∷ rest else rest

abbrev pub found_in : Option Mapping → Option (List Bytes)
found_in none = none
found_in (some root) = some (keys_found root managed_clipboard_key_paths)

-- `PolicyManagedClipboardKeys`; none is a document that is not YAML
unfoldable pub policy_managed_clipboard_keys :
    (Bytes → Option Mapping) → Bytes → Option (List Bytes)
policy_managed_clipboard_keys unmarshal raw =
    let keys = found_in (unmarshal raw) in if equal (trim_space raw) [] then some [] else keys

pub record Protocol : Type 0 where
  pub name : Bytes
  pub port : ℕ
  pub default : Bool
  pub expose_audio_port : Bool
  pub params : List (Bytes × Bytes)
  pub user_params : List Bytes

pub record Metadata : Type 0 where
  pub labels : Meta
  pub annotations : Meta

-- the namespace pattern of a placement, and the metadata of its namespace
pub record Template : Type 0 where
  pub os : Bytes
  pub protocols : List Protocol
  pub kasmvnc_config : Bytes
  pub schedule : Option Spec
  pub placement : Option (Bytes × Metadata)
  pub workload : Option Metadata
  pub home_volume : Option Metadata

pub data Denial : Type 0 where
  declared_twice bad_params bad_user_params kasmvnc_on_windows rdp_elsewhere audio_elsewhere :
      Denial
  port_collides many_defaults kasmvnc_combined config_without_kasmvnc bad_config managed_config :
      Denial
  bad_schedule bad_pattern bad_labels bad_annotations : Denial

infixr 3 ◌orelse◌
abbrev pub ◌orelse◌ : Option Denial → Option Denial → Option Denial
some d orelse next = some d
none orelse next = next

abbrev pub refuse : Bool → Denial → Option Denial
refuse true d = some d
refuse false d = none

abbrev pub is_named : Bytes → Protocol → Bool
is_named n p = equal p.name n

-- one round of the loop over the protocols, once it is known that the name is new
unfoldable pub check_entry : Bytes → Protocol → Option Denial
check_entry os p =
    refuse (is_some (validate_template_params p.name p.params)) bad_params
    orelse refuse (is_some (validate_user_param_names p.name p.user_params)) bad_user_params
    orelse refuse (is_named (codes "kasmvnc") p && equal os (codes "windows")) kasmvnc_on_windows
    orelse refuse (is_named (codes "rdp") p && not (equal os (codes "windows"))) rdp_elsewhere
    orelse refuse (p.expose_audio_port && not (is_named (codes "vnc") p)) audio_elsewhere

unfoldable pub check_entries : Bytes → List Bytes → List Protocol → Option Denial
check_entries os seen [] = none
check_entries os seen (p ∷ ps) =
    refuse (member seen p.name) declared_twice
    orelse check_entry os p
    orelse check_entries os (p.name ∷ seen) ps

unfoldable pub defaults : List Protocol → ℕ
defaults [] = 0
defaults (p ∷ ps) = let rest = defaults ps in if p.default then suc rest else rest

abbrev pub pulse_audio_port : ℕ
pulse_audio_port = 4713

abbrev pub check_keys_in : Option Metadata → Option Denial
check_keys_in none = none
check_keys_in (some m) =
    refuse (is_some (check m.labels)) bad_labels
    orelse refuse (is_some (check m.annotations)) bad_annotations

abbrev pub config_denial : Option (List Bytes) → Option Denial
config_denial none = some bad_config
config_denial (some []) = none
config_denial (some (k ∷ ks)) = some managed_config

-- the protocols together; as no name is declared twice, there are as many names as entries
unfoldable pub check_together : Template → Option Denial
check_together tpl =
    let exposed = any (λ p. p.expose_audio_port) tpl.protocols in
    let kasm = any (is_named (codes "kasmvnc")) tpl.protocols in
    refuse (exposed && any (λ p. p.port == pulse_audio_port) tpl.protocols) port_collides
    orelse refuse (ltb 1 (defaults tpl.protocols)) many_defaults
    orelse refuse (kasm && ltb 1 (length tpl.protocols)) kasmvnc_combined
    orelse refuse (not (equal tpl.kasmvnc_config []) && not kasm) config_without_kasmvnc

module _ (cron : Cron) (tables : Tables) (unmarshal : Bytes → Option Mapping) where
  unfoldable pub check_config : Bytes → Option Denial
  check_config config =
      let denial = config_denial (policy_managed_clipboard_keys unmarshal config) in
      if equal config [] then none else denial

  abbrev pub check_schedule : Option Spec → Option Denial
  check_schedule none = none
  check_schedule (some s) = refuse (is_some (Schedule.validate cron s)) bad_schedule

  abbrev pub check_placement : Option (Bytes × Metadata) → Option Denial
  check_placement none = none
  check_placement (some (namespace, m)) =
      refuse (not (equal namespace []) && is_some (validate_pattern tables namespace)) bad_pattern
      orelse check_keys_in (some m)

  -- `validate`
  unfoldable pub validate : Template → Option Denial
  validate tpl =
      check_entries tpl.os [] tpl.protocols
      orelse check_together tpl
      orelse check_config tpl.kasmvnc_config
      orelse check_schedule tpl.schedule
      orelse check_placement tpl.placement
      orelse check_keys_in tpl.workload
      orelse check_keys_in tpl.home_volume
