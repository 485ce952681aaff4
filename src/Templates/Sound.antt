-- ===== src/Templates/Sound.antt =====
-- Which templates are admitted.
use waas.Prelude.{
  ℕ, ◌≤◌, ◌≡◌, refl, ◌∙◌, ap, sym, ◌≢◌, inl, inr, Bool, true, false, not, ◌&&◌, List, [], ◌∷◌,
  Option, none, some, Bytes, codes, arith, ltb, ◌==◌, length, any, equal, equal_iff, member,
  Bool-cases, All,
}
use waas.Metakeys.{check}
use waas.Naming.{Tables, validate_pattern}
use waas.Params.{validate_template_params, validate_user_param_names}
use waas.Schedule.{Cron, Spec}
use waas.Schedule
use waas.Templates.{
  Mapping, policy_managed_clipboard_keys, Protocol, Metadata, Template, Denial, declared_twice,
  bad_params, bad_user_params, kasmvnc_on_windows, rdp_elsewhere, audio_elsewhere, port_collides,
  many_defaults, kasmvnc_combined, config_without_kasmvnc, bad_schedule, bad_pattern, bad_labels,
  bad_annotations, ◌orelse◌, refuse, is_some, is_named, check_entry, check_entries, defaults,
  pulse_audio_port, check_keys_in, config_denial, check_together, check_config, check_schedule,
  check_placement, validate,
}

orelse-none : (a b : Option Denial) → (a orelse b) ≡ none → (a ≡ none) × (b ≡ none)
orelse-none none b h = (refl, h)
orelse-none (some d) b h = absurd cc

refuse-none : (b : Bool) (d : Denial) → refuse b d ≡ none → b ≡ false
refuse-none true d h = absurd cc
refuse-none false d h = refl

refuse-some {ℓ} : {A : Type ℓ} (o : Option A) (d : Denial) → refuse (is_some o) d ≡ none → o ≡ none
refuse-some none d h = refl
refuse-some (some a) d h = absurd cc

-- What the operator can serve under an entry.
pub record IsServed (os : Bytes) (p : Protocol) : Type 0 where
  pub params : validate_template_params p.name p.params ≡ none
  pub user_params : validate_user_param_names p.name p.user_params ≡ none
  pub kasmvnc : p.name ≡ codes "kasmvnc" → os ≢ codes "windows"
  pub rdp : p.name ≡ codes "rdp" → os ≡ codes "windows"
  pub audio : p.expose_audio_port ≡ true → p.name ≡ codes "vnc"

check_entry-IsServed : (os : Bytes) (p : Protocol) → check_entry os p ≡ none → IsServed os p
unfolding check_entry
check_entry-IsServed os p h =
    let audio : Option Denial =
      refuse (p.expose_audio_port && not (is_named (codes "vnc") p)) audio_elsewhere in
    let rdp : Option Denial =
      refuse (is_named (codes "rdp") p && not (equal os (codes "windows"))) rdp_elsewhere in
    let kasm : Option Denial =
      refuse (is_named (codes "kasmvnc") p && equal os (codes "windows")) kasmvnc_on_windows in
    let users : Option Denial =
      refuse (is_some (validate_user_param_names p.name p.user_params)) bad_user_params in
    let (a, h1) =
      orelse-none (refuse (is_some (validate_template_params p.name p.params)) bad_params)
        (users orelse kasm orelse rdp orelse audio) h in
    let (b, h2) = orelse-none users (kasm orelse rdp orelse audio) h1 in
    let (c, h3) = orelse-none kasm (rdp orelse audio) h2 in
    let (d, e) = orelse-none rdp audio h3 in
    let c' =
      refuse-none (is_named (codes "kasmvnc") p && equal os (codes "windows")) kasmvnc_on_windows
        c in
    let d' =
      refuse-none (is_named (codes "rdp") p && not (equal os (codes "windows"))) rdp_elsewhere d in
    let e' =
      refuse-none (p.expose_audio_port && not (is_named (codes "vnc") p)) audio_elsewhere e in
    record {
      params = refuse-some (validate_template_params p.name p.params) bad_params a;
      user_params = refuse-some (validate_user_param_names p.name p.user_params) bad_user_params b;
      kasmvnc = λ n w.
          let n' = (equal_iff p.name (codes "kasmvnc")).1 n in
          let w' = (equal_iff os (codes "windows")).1 w in ground arith;
      rdp = λ n.
          let n' = (equal_iff p.name (codes "rdp")).1 n in
          (equal_iff os (codes "windows")).0 (ground arith);
      audio = λ x. (equal_iff p.name (codes "vnc")).0 (ground arith);
    }

-- No name is in the list or stands twice.
abbrev pub Fresh : List Bytes → List Protocol → Type 0
Fresh seen [] = Unit
Fresh seen (p ∷ ps) = (member seen p.name ≡ false) × Fresh (p.name ∷ seen) ps

check_entries-IsServed :
    (os : Bytes) (seen : List Bytes) (ps : List Protocol)
    → check_entries os seen ps ≡ none
    → Fresh seen ps × All (IsServed os) ps
unfolding check_entries
check_entries-IsServed os seen [] h = (tt, tt)
check_entries-IsServed os seen (p ∷ ps) h =
    let (f, h1) =
      orelse-none (refuse (member seen p.name) declared_twice)
        (check_entry os p orelse check_entries os (p.name ∷ seen) ps) h in
    let (e, h2) = orelse-none (check_entry os p) (check_entries os (p.name ∷ seen) ps) h1 in
    let (fresh, served) = check_entries-IsServed os (p.name ∷ seen) ps h2 in
    (
      (refuse-none (member seen p.name) declared_twice f, fresh),
      (check_entry-IsServed os p e, served),
    )

-- The protocols fit together.
pub record IsCombined (tpl : Template) : Type 0 where
  pub port :
      any (λ p. p.expose_audio_port) tpl.protocols ≡ true
      → any (λ p. p.port == pulse_audio_port) tpl.protocols ≡ false
  pub default : defaults tpl.protocols ≤ 1
  pub exclusive : any (is_named (codes "kasmvnc")) tpl.protocols ≡ true → length tpl.protocols ≤ 1
  pub configured : tpl.kasmvnc_config ≢ [] → any (is_named (codes "kasmvnc")) tpl.protocols ≡ true

check_together-IsCombined : (tpl : Template) → check_together tpl ≡ none → IsCombined tpl
unfolding check_together
check_together-IsCombined tpl h =
    let exposed : Bool = any (λ p. p.expose_audio_port) tpl.protocols in
    let kasm : Bool = any (is_named (codes "kasmvnc")) tpl.protocols in
    let taken : Bool = any (λ p. p.port == pulse_audio_port) tpl.protocols in
    let config : Option Denial =
      refuse (not (equal tpl.kasmvnc_config []) && not kasm) config_without_kasmvnc in
    let alone : Option Denial = refuse (kasm && ltb 1 (length tpl.protocols)) kasmvnc_combined in
    let one : Option Denial = refuse (ltb 1 (defaults tpl.protocols)) many_defaults in
    let (a, h1) =
      orelse-none (refuse (exposed && taken) port_collides) (one orelse alone orelse config) h in
    let (b, h2) = orelse-none one (alone orelse config) h1 in
    let (c, d) = orelse-none alone config h2 in
    let a' = refuse-none (exposed && taken) port_collides a in
    let b' = refuse-none (ltb 1 (defaults tpl.protocols)) many_defaults b in
    let c' = refuse-none (kasm && ltb 1 (length tpl.protocols)) kasmvnc_combined c in
    let d' = refuse-none (not (equal tpl.kasmvnc_config []) && not kasm) config_without_kasmvnc d in
    record {
      port = λ e. second exposed taken a' e;
      default = ground arith;
      exclusive =
          λ k. at_most (length tpl.protocols) (second kasm (ltb 1 (length tpl.protocols)) c' k);
      configured = λ n. elim (Bool-cases (equal tpl.kasmvnc_config [])) [
        | inl t ↦ absurd (n ((equal_iff tpl.kasmvnc_config []).0 t))
        | inr t ↦ needed (equal tpl.kasmvnc_config []) kasm d' t
      ];
    }
  where
    second : (x y : Bool) → x && y ≡ false → x ≡ true → y ≡ false
    second x y k e = ground arith

    at_most : (n : ℕ) → ltb 1 n ≡ false → n ≤ 1
    at_most n k = ground arith

    needed : (x y : Bool) → not x && not y ≡ false → x ≡ false → y ≡ true
    needed x y k e = ground arith

-- The keys of the metadata may be set by a user.
abbrev pub HasFreeKeys : Option Metadata → Type 0
HasFreeKeys none = Unit
HasFreeKeys (some m) = (check m.labels ≡ none) × (check m.annotations ≡ none)

check_keys_in-HasFreeKeys : (o : Option Metadata) → check_keys_in o ≡ none → HasFreeKeys o
check_keys_in-HasFreeKeys none h = tt
check_keys_in-HasFreeKeys (some m) h =
    let (l, a) =
      orelse-none (refuse (is_some (check m.labels)) bad_labels)
        (refuse (is_some (check m.annotations)) bad_annotations) h in
    (refuse-some (check m.labels) bad_labels l, refuse-some (check m.annotations) bad_annotations a)

module _ (cron : Cron) (tables : Tables) (unmarshal : Bytes → Option Mapping) where
  -- The config is one that sets no key of the policy, the schedule and the pattern are valid, and no key is reserved.
  pub record IsSound (tpl : Template) : Type 0 where
    pub once : Fresh [] tpl.protocols
    pub served : All (IsServed tpl.os) tpl.protocols
    pub combined : IsCombined tpl
    pub config :
        tpl.kasmvnc_config ≢ []
        → policy_managed_clipboard_keys unmarshal tpl.kasmvnc_config ≡ some []
    pub schedule : (s : Spec) → tpl.schedule ≡ some s → Schedule.validate cron s ≡ none
    pub pattern :
        (namespace : Bytes) (m : Metadata)
        → tpl.placement ≡ some (namespace, m)
        → (namespace ≢ [] → validate_pattern tables namespace ≡ none) × HasFreeKeys (some m)
    pub workload : HasFreeKeys tpl.workload
    pub home_volume : HasFreeKeys tpl.home_volume

  check_config-managed :
      (config : Bytes)
      → check_config cron tables unmarshal config ≡ none
      → config ≢ []
      → policy_managed_clipboard_keys unmarshal config ≡ some []
  unfolding check_config
  check_config-managed config h n = elim (Bool-cases (equal config [])) [
    | inl t ↦ absurd (n ((equal_iff config []).0 t))
    | inr t ↦ no_keys (policy_managed_clipboard_keys unmarshal config) (rw t at h)
  ]
    where
      no_keys : (o : Option (List Bytes)) → config_denial o ≡ none → o ≡ some []
      no_keys none k = absurd cc
      no_keys (some []) k = refl
      no_keys (some (x ∷ xs)) k = absurd cc

  -- The webhook admits a template only if no protocol is declared twice, each can be served with parameters that a template
  -- may set, at most one is the default, KasmVNC stands alone, its config is YAML that sets no key of the clipboard policy,
  -- and schedule, namespace pattern and metadata keys are valid.
  pub validate-IsSound : (tpl : Template) → validate cron tables unmarshal tpl ≡ none → IsSound tpl
  unfolding validate
  validate-IsSound tpl h =
      let home : Option Denial = check_keys_in tpl.home_volume in
      let work : Option Denial = check_keys_in tpl.workload in
      let place : Option Denial = check_placement cron tables unmarshal tpl.placement in
      let times : Option Denial = check_schedule cron tables unmarshal tpl.schedule in
      let config : Option Denial = check_config cron tables unmarshal tpl.kasmvnc_config in
      let (a, h1) =
        orelse-none (check_entries tpl.os [] tpl.protocols)
          (check_together tpl orelse config orelse times orelse place orelse work orelse home) h in
      let (b, h2) =
        orelse-none (check_together tpl) (config orelse times orelse place orelse work orelse home)
          h1 in
      let (c, h3) = orelse-none config (times orelse place orelse work orelse home) h2 in
      let (d, h4) = orelse-none times (place orelse work orelse home) h3 in
      let (e, h5) = orelse-none place (work orelse home) h4 in
      let (f, g) = orelse-none work home h5 in
      let (fresh, served) = check_entries-IsServed tpl.os [] tpl.protocols a in
      record {
        once = fresh;
        served = served;
        combined = check_together-IsCombined tpl b;
        config = check_config-managed tpl.kasmvnc_config c;
        schedule = λ s k.
            refuse-some (Schedule.validate cron s) bad_schedule
              (sym (ap (check_schedule cron tables unmarshal) k) ∙ d);
        pattern = λ namespace m k.
            placed namespace m (sym (ap (check_placement cron tables unmarshal) k) ∙ e);
        workload = check_keys_in-HasFreeKeys tpl.workload f;
        home_volume = check_keys_in-HasFreeKeys tpl.home_volume g;
      }
    where
      placed :
          (namespace : Bytes) (m : Metadata)
          → check_placement cron tables unmarshal (some (namespace, m)) ≡ none
          → (namespace ≢ [] → validate_pattern tables namespace ≡ none) × HasFreeKeys (some m)
      placed namespace m k =
          let (p, q) =
            orelse-none
              (refuse (not (equal namespace []) && is_some (validate_pattern tables namespace))
                bad_pattern)
              (check_keys_in (some m)) k in
          let p' =
            refuse-none (not (equal namespace []) && is_some (validate_pattern tables namespace))
              bad_pattern p in
          (
            λ n. elim (Bool-cases (equal namespace [])) [
              | inl t ↦ absurd (n ((equal_iff namespace []).0 t))
              | inr t ↦
                  refuse-some (validate_pattern tables namespace) bad_pattern
                    (let u = rw t at p' in ap (λ b. refuse b bad_pattern) u)
            ],
            check_keys_in-HasFreeKeys (some m) q,
          )
