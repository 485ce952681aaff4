-- ===== src/Webhook/Lawful.antt =====
-- Which workspaces are admitted.
use waas.Prelude.{
  ◌≡◌, ◌∙◌, ap, sym, ◌≢◌, false, not, ◌&&◌, ◌||◌, List, [], Option, none, some, codes,
  if◌then◌else◌, arith, any, equal, equal_iff, has_prefix, All,
}
use mathlib.Core.Path.{subst}
use waas.Metakeys.{check}
use waas.Naming.{Tables, validate_label}
use waas.Policy.{placement_denied, override_not_allowed}
use waas.Policy.Objects.{Workspace, WorkspaceOverrides}
use waas.Policy.Overrides.{◌or◌}
use waas.Policy.Quota.{Quantities}
use waas.Webhook.{
  Validator, Request, Details, Answers, Warning, Outcome, admitted, is_set, deny_if, check_frozen,
  check_adoption, check_target, check_override_shape, validate_shape, is_exempt,
}
use waas.Webhook.Enforce.{with_template, validate}
use waas.Webhook.Denials.{or-none, deny_if-none, is_set-none, all_false, unset, after-admitted}
use waas.Webhook.Frozen.{IsFrozen, check_frozen-IsFrozen, IsRetained, check-IsRetained}

module _ {Q : Type 0} where
  -- A target other than the own namespace and those of the system, and overrides with neither reserved keys nor values that
  -- are read from elsewhere.
  pub record IsShaped (details : Details Q) (ws : Workspace Q) : Type 0 where
    pub target_label : ws.target_namespace ≢ [] → validate_label ws.target_namespace ≡ none
    pub target_free :
        ws.target_namespace ≢ []
        → (ws.target_namespace ≢ ws.namespace)
          × (has_prefix ws.target_namespace (codes "kube-") ≡ false)
    pub workload_label : ws.workload_name ≢ [] → validate_label ws.workload_name ≡ none
    pub metadata :
        (ov : WorkspaceOverrides)
        → ws.overrides ≡ some ov
        → (check ov.labels ≡ none) × (check ov.annotations ≡ none)
    pub literal :
        (ov : WorkspaceOverrides)
        → ws.overrides ≡ some ov
        → All (λ e. details.has_value_from e ≡ false) ov.env

  check_target-free :
      (ws : Workspace Q)
      → check_target ws ≡ none
      → ws.target_namespace ≢ []
      → (validate_label ws.target_namespace ≡ none)
        × (ws.target_namespace ≢ ws.namespace)
        × (has_prefix ws.target_namespace (codes "kube-") ≡ false)
  unfolding check_target
  check_target-free ws h named =
      let e = unset ws.target_namespace named in
      let (l, f) =
        or-none (deny_if (is_set (validate_label ws.target_namespace)) placement_denied)
          (deny_if
            (equal ws.target_namespace ws.namespace
              || has_prefix ws.target_namespace (codes "kube-"))
            placement_denied)
          (rw e at h) in
      let q =
        deny_if-none
          (equal ws.target_namespace ws.namespace || has_prefix ws.target_namespace (codes "kube-"))
          placement_denied f in
      (
        is_set-none (validate_label ws.target_namespace)
            (deny_if-none (is_set (validate_label ws.target_namespace)) placement_denied l),
        (λ k. let t = (equal_iff ws.target_namespace ws.namespace).1 k in ground arith),
        ground arith,
      )

  check_override_shape-literal :
      (details : Details Q) (ov : WorkspaceOverrides)
      → check_override_shape details (some ov) ≡ none
      → (check ov.labels ≡ none)
        × (check ov.annotations ≡ none)
        × All (λ e. details.has_value_from e ≡ false) ov.env
  check_override_shape-literal details ov h =
      let (l, h1) =
        or-none (deny_if (is_set (check ov.labels)) override_not_allowed)
          (deny_if (is_set (check ov.annotations)) override_not_allowed
            or deny_if (any details.has_value_from ov.env) override_not_allowed)
          h in
      let (a, e) =
        or-none (deny_if (is_set (check ov.annotations)) override_not_allowed)
          (deny_if (any details.has_value_from ov.env) override_not_allowed) h1 in
      (
        is_set-none (check ov.labels)
            (deny_if-none (is_set (check ov.labels)) override_not_allowed l),
        is_set-none (check ov.annotations)
            (deny_if-none (is_set (check ov.annotations)) override_not_allowed a),
        all_false details.has_value_from ov.env
            (deny_if-none (any details.has_value_from ov.env) override_not_allowed e),
      )

  validate_shape-IsShaped :
      (details : Details Q) (ws : Workspace Q)
      → validate_shape details ws ≡ none
      → IsShaped details ws
  unfolding validate_shape
  validate_shape-IsShaped details ws h =
      let (t, h1) =
        or-none (check_target ws)
          (deny_if (not (equal ws.workload_name []) && is_set (validate_label ws.workload_name))
              placement_denied
            or check_override_shape details ws.overrides)
          h in
      let (w, o) =
        or-none
          (deny_if (not (equal ws.workload_name []) && is_set (validate_label ws.workload_name))
            placement_denied)
          (check_override_shape details ws.overrides) h1 in
      let q =
        deny_if-none (not (equal ws.workload_name []) && is_set (validate_label ws.workload_name))
          placement_denied w in
      let shape : (ov : WorkspaceOverrides)
          → ws.overrides ≡ some ov
          → check_override_shape details (some ov) ≡ none =
        λ ov e. sym (ap (check_override_shape details) e) ∙ o in
      record {
        target_label = λ n. (check_target-free ws t n).0;
        target_free = λ n. let (l, f, k) = check_target-free ws t n in (f, k);
        workload_label = λ n.
            let e = unset ws.workload_name n in
            is_set-none (validate_label ws.workload_name) (ground arith);
        metadata =
            λ ov e. let s = check_override_shape-literal details ov (shape ov e) in (s.0, s.1);
        literal = λ ov e. (check_override_shape-literal details ov (shape ov e)).2;
      }

module _ (quantities : Quantities) (tables : Tables) where
  open quantities use {Q}

  -- What the webhook admits, whoever asks and whether or not a policy applies: an update leaves the owner, the claims of the
  -- identity, the target namespace, the workload name and the home volume as they were; a new workspace adopts only a
  -- volume of the platform that was kept from a workspace of the same owner; the target is no namespace of the platform or
  -- the system, and the overrides have no reserved keys and only literal values.
  pub validate-IsLawful :
      (v : Validator) (details : Details Q) (a : Answers Q) (req : Request)
      (old : Option (Workspace Q)) (ws : Workspace Q) (warnings : List Warning)
      → validate quantities tables v details a req old ws ≡ admitted warnings
      → ((before : Workspace Q) → old ≡ some before → IsFrozen before ws)
        × (old ≡ none → ws.home_volume_name ≢ [] → IsRetained a.volume ws)
        × IsShaped details ws
  unfolding validate check_adoption
  validate-IsLawful v details a req old ws warnings h =
      let rest : Outcome = with_template quantities tables a.template v details a req ws in
      let (front, out) =
        after-admitted
          (check_frozen old ws or check_adoption old a.volume ws or validate_shape details ws)
          (if is_exempt details old ws then admitted [] else rest) warnings h in
      let (f, front1) =
        or-none (check_frozen old ws) (check_adoption old a.volume ws or validate_shape details ws)
          front in
      let (d, s) = or-none (check_adoption old a.volume ws) (validate_shape details ws) front1 in
      (frozen old f, adopted old d, validate_shape-IsShaped details ws s)
    where
      frozen :
          (o : Option (Workspace Q))
          → check_frozen o ws ≡ none
          → (before : Workspace Q) → o ≡ some before
          → IsFrozen before ws
      frozen none f before e = absurd cc
      frozen (some p) f before e =
          let k : p ≡ before = cc in subst (λ b. IsFrozen b ws) k (check_frozen-IsFrozen p ws f)

      adopted :
          (o : Option (Workspace Q))
          → check_adoption o a.volume ws ≡ none
          → o ≡ none
          → ws.home_volume_name ≢ []
          → IsRetained a.volume ws
      adopted none d e named =
          let u = unset ws.home_volume_name named in check-IsRetained a.volume ws (rw u at d)
      adopted (some p) d e named = absurd cc
