-- ===== src/Governance/Admission.antt =====
-- Which workspaces get compute.
use waas.Prelude.{
  ◌≡◌, refl, ap, ◌⊎◌, inl, inr, Bool, true, false, List, [], ◌∷◌, Option, none, some, Bytes, codes,
  if◌then◌else◌, member, In, All, Bool-cases,
}
use waas.Naming.{Tables}
use waas.Policy.{WorkspacePolicy, Resolution, denied, governed, resolve}
use waas.Policy.Resolve.{IsRuling, IsFirst, matches, resolve-IsRuling}
use waas.Policy.Catalog.{
  WorkspaceImage, find_image, image_allowed, is_allowed, check_tag_discipline, check_protocol,
}
use waas.Policy.Catalog.Find.{IsApproving, find_image-IsApproving}
use waas.Policy.Catalog.Allowed.{IsUsable, image_allowed_iff, member_iff}
use waas.Policy.Objects.{Workspace, WorkspaceTemplate, effective_protocols}
use waas.Policy.Overrides.{identity_of, check_overrides, ◌or◌, annotation, role_key}
use waas.Policy.Entitled.{IsEntitled, check_overrides-IsEntitled, or-none}
use waas.Policy.Quota.{Quantities, Load, load_of}
use waas.Policy.Quota.Limits.{check_limits}
use waas.Governance.{
  Cluster, protocol_names, nothing_set, sibling_loads, check_size, check_image_of, govern,
  evaluate_on, evaluate_governance,
}

check_protocol-All :
    {Q : Type 0} (names : List Bytes) (img : WorkspaceImage Q)
    → check_protocol names img ≡ none
    → All (λ p. In p img.protocols) names
unfolding check_protocol
check_protocol-All [] img h = tt
check_protocol-All (p ∷ names) img h = elim (Bool-cases (member img.protocols p)) [
  | inl e ↦ ((member_iff img.protocols p).0 e, check_protocol-All names img (rw e at h))
  | inr e ↦ absurd (let k = rw e at h in cc)
]

nothing_set-true :
    {A B : Type 0} (xs : List A) (ys : List B) → nothing_set xs ys ≡ true → (xs ≡ []) × (ys ≡ [])
nothing_set-true [] [] h = (refl, refl)
nothing_set-true [] (y ∷ ys) h = absurd cc
nothing_set-true (x ∷ xs) ys h = absurd cc

module _ (quantities : Quantities) (tables : Tables) where
  open quantities use {Q}

  -- What an admitted workspace fulfils, under the policy and the image that decide.
  pub record IsAdmissible (global : Bytes) (cluster : Cluster Q) (catalog : List (WorkspaceImage Q))
      (policies : List (WorkspacePolicy Q)) (ws : Workspace Q) (tpl : WorkspaceTemplate Q)
      (pol : WorkspacePolicy Q) (img : WorkspaceImage Q) : Type 0 where
    pub listed : In pol policies
    pub matched : matches (identity_of ws) pol ≡ true
    pub first :
        (q : WorkspacePolicy Q) → In q policies → matches (identity_of ws) q ≡ true → IsFirst pol q
    pub approved : IsApproving catalog tpl.image (some img)
    pub usable : IsUsable img pol (identity_of ws)
    pub pinned : check_tag_discipline img tpl.image ≡ none
    pub spoken : All (λ p. In p img.protocols) (protocol_names (effective_protocols tpl))
    pub entitled :
        (annotation role_key ws.annotations ≡ codes "admin")
        ⊎ IsEntitled tables ws tpl (some pol) (identity_of ws) global
    pub fits :
        (others : List (Load Q)) × (sibling_loads quantities tables cluster ws catalog
          ≡ some others)
        × (check_limits quantities
              (load_of quantities ws tpl (some img)).0
              (load_of quantities ws tpl (some img)).1
              img
              pol
              others
            ≡ none)

  fits_of :
      (o : Option (List (Load Q))) (ws : Workspace Q) (tpl : WorkspaceTemplate Q)
      (img : WorkspaceImage Q) (pol : WorkspacePolicy Q)
      → check_size quantities tables o ws tpl img pol ≡ none
      → (others : List (Load Q)) × (o ≡ some others)
        × (check_limits quantities
              (load_of quantities ws tpl (some img)).0
              (load_of quantities ws tpl (some img)).1
              img
              pol
              others
            ≡ none)
  fits_of none ws tpl img pol h = absurd cc
  fits_of (some others) ws tpl img pol h = (others, refl, h)

  module _ (global : Bytes) (cluster : Cluster Q) (ws : Workspace Q) (tpl : WorkspaceTemplate Q)
      (catalog : List (WorkspaceImage Q)) (policies : List (WorkspacePolicy Q)) where
    admissible :
        (pol : WorkspacePolicy Q) (o : Option (WorkspaceImage Q))
        → In pol policies
        → matches (identity_of ws) pol ≡ true
        → ((q : WorkspacePolicy Q)
            → In q policies
            → matches (identity_of ws) q ≡ true
            → IsFirst pol q)
        → IsApproving catalog tpl.image o
        → check_image_of quantities tables o global cluster ws tpl pol (identity_of ws) catalog
          ≡ none
        → (img : WorkspaceImage Q) × IsAdmissible global cluster catalog policies ws tpl pol img
    admissible pol none listed matched first approved h = absurd cc
    admissible pol (some img) listed matched first approved h =
        let id = identity_of ws in
        let protocols = check_protocol (protocol_names (effective_protocols tpl)) img in
        let overrides = check_overrides tables ws tpl (some pol) id global in
        let size =
          check_size quantities tables (sibling_loads quantities tables cluster ws catalog) ws tpl
            img pol in
        let (a, r) =
          (or-none (image_allowed img pol id)
              (check_tag_discipline img tpl.image or protocols or overrides or size)).0
            h in
        let (b, r') =
          (or-none (check_tag_discipline img tpl.image) (protocols or overrides or size)).0 r in
        let (c, r'') = (or-none protocols (overrides or size)).0 r' in
        let (d, e) = (or-none overrides size).0 r'' in
        (
          img,
          record {
            listed = listed;
            matched = matched;
            first = first;
            approved = approved;
            usable = (image_allowed_iff img pol id).0 (ap is_allowed a);
            pinned = b;
            spoken = check_protocol-All (protocol_names (effective_protocols tpl)) img c;
            entitled = (check_overrides-IsEntitled tables ws tpl (some pol) id global).0 d;
            fits = fits_of (sibling_loads quantities tables cluster ws catalog) ws tpl img pol e;
          },
        )

    governed_only :
        (x : Resolution Q)
        → IsRuling policies (identity_of ws) x
        → (govern quantities tables x global cluster ws tpl catalog).1 ≡ none
        → (pol : WorkspacePolicy Q) × (img : WorkspaceImage Q) × IsAdmissible global cluster catalog
            policies ws tpl pol img
    governed_only (denied reason) ruling h = absurd cc
    governed_only (governed pol ties) ruling h =
        let (listed, matched, first, rest) = ruling in
        let (img, ok) =
          admissible pol (find_image catalog tpl.image) listed matched first
            (find_image-IsApproving catalog tpl.image) h in
        (pol, img, ok)

  -- A workspace gets compute only if the namespace has neither policies nor a catalog, or if it is admissible:
  -- of the matching policies one that the order puts first governs it, the catalog approves the image, which is
  -- enabled, open to its groups and named by the policy, the reference obeys the tag policy, the image speaks
  -- every protocol of the template, the creator is entitled to each override, and the size fits the limits
  -- with what the owner has already.
  pub evaluate_governance-IsAdmissible :
      (global : Bytes) (cluster : Cluster Q) (ws : Workspace Q) (tpl : WorkspaceTemplate Q)
      → (evaluate_governance quantities tables global cluster ws tpl).1 ≡ none
      → (catalog : List (WorkspaceImage Q)) × (policies : List (WorkspacePolicy Q))
        × (cluster.catalog ≡ some catalog)
        × (cluster.policies ≡ some policies)
        × (((catalog ≡ []) × (policies ≡ []))
            ⊎ ((pol : WorkspacePolicy Q) × (img : WorkspaceImage Q) × IsAdmissible global cluster
                  catalog policies ws tpl pol img))
  evaluate_governance-IsAdmissible global cluster ws tpl h =
      by_lists cluster.catalog cluster.policies (unfold evaluate_governance in h)
    where
      by_decision :
          (catalog : List (WorkspaceImage Q)) (policies : List (WorkspacePolicy Q)) (b : Bool)
          → nothing_set policies catalog ≡ b
          → (if b
              then (none, none)
              else govern quantities tables
                  (resolve policies (identity_of ws))
                  global
                  cluster
                  ws
                  tpl
                  catalog).1
            ≡ none
          → ((catalog ≡ []) × (policies ≡ []))
            ⊎ ((pol : WorkspacePolicy Q) × (img : WorkspaceImage Q) × IsAdmissible global cluster
                  catalog policies ws tpl pol img)
      by_decision catalog policies true e k =
          let (p, c) = nothing_set-true policies catalog e in inl (c, p)
      by_decision catalog policies false e k = inr (
          governed_only global cluster ws tpl catalog policies (resolve policies (identity_of ws))
            (resolve-IsRuling policies (identity_of ws)) k)

      by_lists :
          (c : Option (List (WorkspaceImage Q))) (p : Option (List (WorkspacePolicy Q)))
          → (evaluate_on quantities tables c p global cluster ws tpl).1 ≡ none
          → (catalog : List (WorkspaceImage Q)) × (policies : List (WorkspacePolicy Q)) × (c
              ≡ some catalog)
            × (p ≡ some policies)
            × (((catalog ≡ []) × (policies ≡ []))
                ⊎ ((pol : WorkspacePolicy Q) × (img : WorkspaceImage Q) × IsAdmissible global
                      cluster catalog policies ws tpl pol img))
      by_lists none p k = absurd cc
      by_lists (some catalog) none k = absurd cc
      by_lists (some catalog) (some policies) k = (
        catalog,
        policies,
        refl,
        refl,
        by_decision catalog policies (nothing_set policies catalog) refl k,
      )
