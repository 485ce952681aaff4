-- ===== src/Tests/Params.antt =====
-- Runs of operator/pkg/params.
use waas.Prelude.{
  ◌≡◌, refl, ◌≢◌, ◌↔◌, inl, inr, true, false, List, [], ◌∷◌, none, some, Bytes, codes, All, equal,
  has_prefix, less,
}
use waas.Params.Types.{Param, platform}
use waas.Params.{
  lookup, lookup_in, registry, for_protocol, sort_params, insert_param, precedes, rank_from,
  resolve_user_param_names, add, add_category, add_entries, selected_category,
  validate_user_overrides, validate_user_param_names, check_override, check_name, value_problem,
  validate_template_params, check_locked, platform_parameter, too_large,
}
use waas.Guac.Decimal.{atoi, unsigned, digits_value, in_int}
use waas.Params.Delegation.{resolve_user_param_names-IsOpen}
use waas.Params.Gates.{MaySet, validate_user_overrides-MaySet}

abbrev delegated : List Bytes
delegated = codes "audio-servername" ∷ codes "cat:audio" ∷ []

resolve-test :
    resolve_user_param_names (codes "vnc") delegated
    ≡ codes "audio-servername" ∷ codes "enable-audio" ∷ []
unfolding registry for_protocol sort_params insert_param precedes rank_from add add_category
    add_entries selected_category equal has_prefix less
resolve-test = refl

overrides-bound_test :
    validate_user_overrides
      (codes "ssh")
      ((codes "font-size", codes "49") ∷ [])
      (codes "font-size" ∷ [])
      false
    ≡ some (record { name = codes "font-size"; problem = too_large })
unfolding registry lookup_in validate_user_overrides check_override value_problem equal atoi
    unsigned digits_value in_int
overrides-bound_test = refl

overrides-platform_test :
    validate_user_overrides (codes "vnc") ((codes "dest-host", codes "evil") ∷ []) [] true
    ≡ some (record { name = codes "dest-host"; problem = platform_parameter })
unfolding registry lookup_in validate_user_overrides check_override equal
overrides-platform_test = refl

template-test :
    validate_template_params (codes "rdp") ((codes "color-depth", codes "24") ∷ []) ≡ none
unfolding registry lookup_in validate_template_params check_locked value_problem equal
template-test = refl

names-valid : validate_user_param_names (codes "vnc") delegated ≡ none
unfolding registry lookup_in validate_user_param_names check_name selected_category equal has_prefix
names-valid = refl

resolve_user_param_names-IsOpen_example :
    (p : Param) × (lookup (codes "vnc") (codes "enable-audio") ≡ some p) × (p.tier ≢ platform)
unfolding registry for_protocol sort_params insert_param precedes rank_from add add_category
    add_entries selected_category equal has_prefix less
resolve_user_param_names-IsOpen_example =
    resolve_user_param_names-IsOpen (codes "vnc") delegated (codes "enable-audio") names-valid
      (inr (inl refl))

validate_user_overrides-MaySet_example :
    (validate_user_overrides
        (codes "ssh")
        ((codes "font-size", codes "14") ∷ [])
        (codes "font-size" ∷ [])
        false
      ≡ none)
    ↔ All
        (MaySet (codes "ssh") (codes "font-size" ∷ []) false)
        ((codes "font-size", codes "14") ∷ [])
validate_user_overrides-MaySet_example =
    validate_user_overrides-MaySet (codes "ssh") ((codes "font-size", codes "14") ∷ [])
      (codes "font-size" ∷ []) false
