-- ===== src/Tests/Templates.antt =====
-- Runs of the admission of templates.
use waas.Prelude.{
  ◌≡◌, refl, false, List, [], ◌∷◌, Option, none, some, Bytes, codes, equal, member, join,
}
use waas.Params.{validate_template_params, validate_user_param_names}
use waas.Templates.{
  Mapping, Protocol, Template, kasmvnc_combined, declared_twice, leaf, mapping, nothing, entry,
  check_entry, check_entries, defaults, check_together, check_config, validate, has_nested_key,
  keys_found, managed_clipboard_key_paths,
}
use waas.Templates.Sound.{IsSound, validate-IsSound}
use waas.Tests.Governance.{plain}
use waas.Tests.Schedule.{daily}

abbrev plain_protocol : Bytes → Protocol
plain_protocol n = record {
  name = n;
  port = 5901;
  default = false;
  expose_audio_port = false;
  params = [];
  user_params = [];
}

abbrev linux : List Protocol → Template
linux ps = record {
  os = codes "linux";
  protocols = ps;
  kasmvnc_config = [];
  schedule = none;
  placement = none;
  workload = none;
  home_volume = none;
}

abbrev no_yaml : Bytes → Option Mapping
no_yaml s = none

combined-test :
    validate daily plain no_yaml
      (linux (plain_protocol (codes "vnc") ∷ plain_protocol (codes "kasmvnc") ∷ []))
    ≡ some kasmvnc_combined
unfolding validate check_entries check_entry check_together defaults validate_template_params
    validate_user_param_names equal member
combined-test = refl

twice-test :
    validate daily plain no_yaml
      (linux (plain_protocol (codes "vnc") ∷ plain_protocol (codes "vnc") ∷ []))
    ≡ some declared_twice
unfolding validate check_entries check_entry check_together defaults validate_template_params
    validate_user_param_names equal member
twice-test = refl

abbrev clipboard_yaml : Mapping
clipboard_yaml =
    entry (codes "data_loss_prevention")
      (mapping (
        entry (codes "clipboard")
          (mapping (
            entry (codes "server_to_client") (mapping (entry (codes "enabled") leaf nothing))
              nothing))
          nothing))
      nothing

keys-test :
    keys_found clipboard_yaml managed_clipboard_key_paths
    ≡ codes "data_loss_prevention.clipboard.server_to_client.enabled" ∷ []
unfolding keys_found has_nested_key equal join
keys-test = refl

accepted : validate daily plain no_yaml (linux (plain_protocol (codes "vnc") ∷ [])) ≡ none
unfolding validate check_entries check_entry check_together check_config defaults
    validate_template_params validate_user_param_names equal member
accepted = refl

validate-IsSound_example : IsSound daily plain no_yaml (linux (plain_protocol (codes "vnc") ∷ []))
validate-IsSound_example =
    validate-IsSound daily plain no_yaml (linux (plain_protocol (codes "vnc") ∷ [])) accepted
