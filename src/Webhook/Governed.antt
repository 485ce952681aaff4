-- ===== src/Webhook/Governed.antt =====
-- Whose identity, and which placement, the policies of the webhook are applied to.
use waas.Prelude.{
  ◌≡◌, refl, ap, sym, inl, inr, Bool, true, false, not, ◌&&◌, ◌||◌, List, [], ◌∷◌, Option, none,
  some, codes, if◌then◌else◌, arith, equal, equal_iff, member, Bool-cases,
}
use mathlib.Core.Path.{subst}
use waas.Metakeys.Merge.{lookup}
use waas.Naming.{Tables}
use waas.Policy.{protocol_mismatch, Identity}
use waas.Policy.Objects.{Workspace, WorkspaceTemplate}
use waas.Policy.Overrides.{annotation, username_key, groups_key, ◌or◌}
use waas.Policy.Quota.{Quantities}
use waas.Controller.Status.{found}
use waas.Webhook.{
  Validator, Request, Details, Answers, Warning, bypassing, Outcome, admitted, rejected, is_set,
  is_bypassed, check_frozen, check_adoption, validate_shape, is_exempt, resolve_identity,
}
use waas.Webhook.Enforce.{
  check_placement_ownership, check_workload_name_collision, with_lists, enforce, identified,
  with_template, validate,
}
use waas.Webhook.Denials.{or-none, is_set-none, after-admitted}
use waas.Webhook.Placed.{
  IsPlaced, check_placement_ownership-IsPlaced, IsAlone, check_workload_name_collision-IsAlone,
}

module _ {Q : Type 0} where
  -- The caller writes for the platform, or is the owner and makes no claim of a name or of groups.
  pub data IsKnown (v : Validator) (req : Request) (ws : Workspace Q) (id : Identity) : Type 0 where
    for_platform :
        member v.trusted_writers req.username ≡ true
        → id.owner ≡ ws.owner
        → id.username ≡ annotation username_key ws.annotations
        → IsKnown v req ws id
    for_owner :
        lookup username_key ws.annotations ≡ none
        → lookup groups_key ws.annotations ≡ none
        → ws.owner ≡ req.username
        → id ≡ record { owner = req.username; username = req.username; groups = req.groups }
        → IsKnown v req ws id

  resolve_identity-IsKnown :
      (v : Validator) (req : Request) (ws : Workspace Q) (id : Identity)
      → resolve_identity v req ws ≡ some id
      → IsKnown v req ws id
  unfolding resolve_identity
  resolve_identity-IsKnown v req ws id h =
      elim (Bool-cases (member v.trusted_writers req.username)) [
        | inl t ↦
            let k = rw t at h in
            for_platform t (ap (λ i. i.owner) (sym (some_inj k)))
              (ap (λ i. i.username) (sym (some_inj k)))
        | inr t ↦
            elim (Bool-cases (
              is_set (lookup username_key ws.annotations)
              || is_set (lookup groups_key ws.annotations))) [
                | inl c ↦ absurd (let k = rw (t, c) at h in cc)
                | inr c ↦ elim (Bool-cases (equal ws.owner req.username)) [
                  | inr o ↦ absurd (let k = rw (t, c, o) at h in cc)
                  | inl o ↦
                      let k = rw (t, c, o) at h in
                      for_owner (is_set-none (lookup username_key ws.annotations) (ground arith))
                        (is_set-none (lookup groups_key ws.annotations) (ground arith))
                        ((equal_iff ws.owner req.username).0 o) (sym (some_inj k))
                ]
              ]
      ]
    where
      some_inj : {a b : Identity} → some a ≡ some b → a ≡ b
      some_inj h = cc

module _ (quantities : Quantities) (tables : Tables) where
  open quantities use {Q}

  -- If the template is there, the update is not one of those that no policy looks at, and the caller is not exempt, the
  -- webhook admits a workspace only with a known identity, a rightful placement, and no other workspace that has its name
  -- in the namespace.
  pub validate-IsPlaced :
      (v : Validator) (details : Details Q) (a : Answers Q) (req : Request)
      (old : Option (Workspace Q)) (ws : Workspace Q) (tpl : WorkspaceTemplate Q)
      (warnings : List Warning)
      → a.template ≡ found tpl
      → is_exempt details old ws ≡ false
      → is_bypassed v req ≡ false
      → validate quantities tables v details a req old ws ≡ admitted warnings
      → (id : Identity) × IsKnown v req ws id
        × IsPlaced tables v a.target ws tpl id
        × IsAlone a.cluster.workspaces ws
  unfolding validate enforce
  validate-IsPlaced v details a req old ws tpl warnings t e b h =
      let (front, out) =
        after-admitted
          (check_frozen old ws or check_adoption old a.volume ws or validate_shape details ws)
          (if is_exempt details old ws
            then admitted []
            else with_template quantities tables a.template v details a req ws)
          warnings h in
      by_identity (resolve_identity v req ws) refl (
        governed_only (equal tpl.os (codes "windows") && not v.kube_virt_available)
          (is_bypassed v req)
          (identified quantities tables (resolve_identity v req ws) v details a ws tpl) b
          (subst (λ f. with_template quantities tables f v details a req ws ≡ admitted warnings) t
            (rw e at out)))
    where
      governed_only :
          (w p : Bool) (rest : Outcome)
          → p ≡ false
          → (if w
              then rejected protocol_mismatch
              else if p
              then admitted (bypassing req.username ∷ [])
              else rest)
            ≡ admitted warnings
          → rest ≡ admitted warnings
      governed_only true p rest k m = absurd cc
      governed_only false true rest k m = absurd cc
      governed_only false false rest k m = m

      by_identity :
          (o : Option Identity)
          → resolve_identity v req ws ≡ o
          → identified quantities tables o v details a ws tpl ≡ admitted warnings
          → (id : Identity) × IsKnown v req ws id
            × IsPlaced tables v a.target ws tpl id
            × IsAlone a.cluster.workspaces ws
      by_identity none k m = absurd cc
      by_identity (some id) k m =
          let (placed, rest) =
            after-admitted
              (check_placement_ownership tables v a.target ws tpl id
                or check_workload_name_collision a.cluster.workspaces ws)
              (with_lists quantities tables a.cluster.catalog a.cluster.policies v details a ws tpl
                id)
              warnings m in
          let (p, c) =
            or-none (check_placement_ownership tables v a.target ws tpl id)
              (check_workload_name_collision a.cluster.workspaces ws) placed in
          (
            id,
            resolve_identity-IsKnown v req ws id k,
            check_placement_ownership-IsPlaced tables v a.target ws tpl id p,
            check_workload_name_collision-IsAlone a.cluster.workspaces ws c,
          )
