-- ===== src/Webhook/Placed.antt =====
-- Which placements, and which names of workloads, pass.
use waas.Prelude.{
  ◌≡◌, refl, ap, sym, ◌≢◌, inl, inr, true, false, not, ◌&&◌, List, [], ◌∷◌, Option, none, some,
  Bytes, codes, arith, any, equal, equal_iff, Bool-cases, All,
}
use waas.Metakeys.{Meta}
use waas.Naming.{Tables, Resolved, name, failed, is_personal_namespace_of}
use waas.Policy.{placement_denied, Identity}
use waas.Policy.Objects.{
  Workspace, WorkspaceTemplate, effective_target_namespace, effective_workload_name,
}
use waas.Policy.Overrides.{annotation, role_key, resolved_default_namespace, is_admin}
use waas.Controller.{label_owner}
use waas.Webhook.{Validator, is_set, deny_if, is_default, owner_of}
use waas.Webhook.Enforce.{check_placement_ownership, collides, check_workload_name_collision}
use waas.Webhook.Denials.{deny_if-none}

default_name : (r : Resolved) (target : Bytes) → is_default r target ≡ true → r ≡ name target
default_name (name def) target h = ap name (sym ((equal_iff target def).0 h))
default_name (failed e) target h = absurd cc

module _ {Q : Type 0} where
  -- The namespace is the platform's own choice or the owner's to use, or the workspace is marked as an administrator's.
  pub data IsPlaced (tables : Tables) (v : Validator) (target : Option Meta) (ws : Workspace Q)
      (tpl : WorkspaceTemplate Q) (id : Identity) : Type 0 where
    unplaced : ws.target_namespace ≡ [] → IsPlaced tables v target ws tpl id
    by_admin :
        annotation role_key ws.annotations ≡ codes "admin" → IsPlaced tables v target ws tpl id
    by_default :
        resolved_default_namespace tables ws tpl id v.default_namespace_pattern
          ≡ name ws.target_namespace
        → IsPlaced tables v target ws tpl id
    in_owned :
        (labels : Meta)
        → target ≡ some labels
        → annotation label_owner labels ≡ ws.owner
        → IsPlaced tables v target ws tpl id
    in_personal :
        is_personal_namespace_of tables id.username id.owner ws.target_namespace ≡ true
        → owner_of target ≡ []
        → IsPlaced tables v target ws tpl id

  pub check_placement_ownership-IsPlaced :
      (tables : Tables) (v : Validator) (target : Option Meta) (ws : Workspace Q)
      (tpl : WorkspaceTemplate Q) (id : Identity)
      → check_placement_ownership tables v target ws tpl id ≡ none
      → IsPlaced tables v target ws tpl id
  unfolding check_placement_ownership
  check_placement_ownership-IsPlaced tables v target ws tpl id h =
      elim (Bool-cases (equal ws.target_namespace [])) [
        | inl e ↦ unplaced ((equal_iff ws.target_namespace []).0 e)
        | inr e ↦ elim (Bool-cases (is_admin ws)) [
          | inl a ↦ by_admin ((equal_iff (annotation role_key ws.annotations) (codes "admin")).0 a)
          | inr a ↦
              elim (Bool-cases (
                is_default (resolved_default_namespace tables ws tpl id v.default_namespace_pattern)
                  ws.target_namespace)) [
                    | inl d ↦ by_default (
                        default_name
                          (resolved_default_namespace tables ws tpl id v.default_namespace_pattern)
                          ws.target_namespace d)
                    | inr d ↦
                        elim (Bool-cases (is_set target && equal (owner_of target) ws.owner)) [
                          | inl o ↦ owned target refl o
                          | inr o ↦
                              elim (Bool-cases (
                                is_personal_namespace_of tables id.username id.owner
                                  ws.target_namespace)) [
                                    | inl p ↦ in_personal p (free target (rw (e, a, d, o, p) at h))
                                    | inr p ↦ absurd (let k = rw (e, a, d, o, p) at h in cc)
                                  ]
                        ]
                  ]
        ]
      ]
    where
      owned :
          (o : Option Meta)
          → target ≡ o
          → is_set o && equal (owner_of o) ws.owner ≡ true
          → IsPlaced tables v target ws tpl id
      owned none e k = absurd cc
      owned (some labels) e k =
          in_owned labels e ((equal_iff (annotation label_owner labels) ws.owner).0 k)

      free :
          (o : Option Meta)
          → deny_if (is_set o && not (equal (owner_of o) [])) placement_denied ≡ none
          → owner_of o ≡ []
      free none k = refl
      free (some labels) k =
          let b =
            deny_if-none (not (equal (annotation label_owner labels) [])) placement_denied k in
          (equal_iff (annotation label_owner labels) []).0 (ground arith)

  any-collides :
      (ws : Workspace Q) (all : List (Workspace Q))
      → any (collides ws) all ≡ false
      → All
          (λ sib.
            sib.name ≢ ws.name
            → effective_target_namespace sib ≡ effective_target_namespace ws
            → effective_workload_name sib ≢ effective_workload_name ws)
          all
  any-collides ws [] h = tt
  any-collides ws (sib ∷ all) h = (
    (λ other n w.
        let n' = (equal_iff (effective_target_namespace sib) (effective_target_namespace ws)).1 n in
        let w' = (equal_iff (effective_workload_name sib) (effective_workload_name ws)).1 w in
        let o : equal sib.name ws.name ≡ false = elim (Bool-cases (equal sib.name ws.name)) [
          | inl t ↦ absurd (other ((equal_iff sib.name ws.name).0 t))
          | inr t ↦ t
        ] in
        ground arith),
    any-collides ws all (ground arith),
  )

  -- No other workspace has the workload's name in the namespace.
  pub record IsAlone (workspaces : Option (List (Workspace Q))) (ws : Workspace Q) : Type 0 where
    pub all : List (Workspace Q)
    pub listed : workspaces ≡ some all
    pub apart :
        All
          (λ sib.
            sib.name ≢ ws.name
            → effective_target_namespace sib ≡ effective_target_namespace ws
            → effective_workload_name sib ≢ effective_workload_name ws)
          all

  pub check_workload_name_collision-IsAlone :
      (o : Option (List (Workspace Q))) (ws : Workspace Q)
      → check_workload_name_collision o ws ≡ none
      → IsAlone o ws
  unfolding check_workload_name_collision
  check_workload_name_collision-IsAlone none ws h = absurd cc
  check_workload_name_collision-IsAlone (some all) ws h = record {
    all = all;
    listed = refl;
    apart = any-collides ws all (deny_if-none (any (collides ws) all) placement_denied h);
  }
