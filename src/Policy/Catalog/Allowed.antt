-- ===== src/Policy/Catalog/Allowed.antt =====
-- Which images of the catalog a user may deploy.
use waas.Prelude.{
  ◌≡◌, refl, ap, sym, ◌↔◌, ◌⊎◌, inl, inr, true, ◌||◌, List, [], ◌∷◌, Bytes, arith, equal, equal_iff,
  member, any, In, In-keep, Bool-cases,
}
use waas.Policy.{Identity, WorkspacePolicy}
use waas.Policy.Catalog.{WorkspaceImage, is_nil, image_allowed, is_allowed, allowed_images}

pub member_iff : (xs : List Bytes) (x : Bytes) → (member xs x ≡ true) ↔ In x xs
unfolding member
member_iff [] x = (λ h. cc, λ h. elim h [ ])
member_iff (y ∷ ys) x =
    let (there, back) = member_iff ys x in
    elim (Bool-cases (equal y x)) [
      | inl e ↦ (λ h. inl (sym ((equal_iff y x).0 e)), λ h. ground arith)
      | inr e ↦ (
        λ h. inr (there (ground arith)),
        λ h. elim h [
          | inl same ↦ absurd (let t = (equal_iff y x).1 (sym same) in ground arith)
          | inr i ↦ let t = back i in ground arith
        ],
      )
    ]

any-member :
    (groups allowed : List Bytes)
    → (any (member groups) allowed ≡ true) ↔ ((g : Bytes) × In g allowed × In g groups)
any-member groups [] = (λ h. cc, λ (g, i, k). elim i [ ])
any-member groups (a ∷ allowed) =
    let (there, back) = any-member groups allowed in
    elim (Bool-cases (member groups a)) [
      | inl e ↦ (λ h. (a, inl refl, (member_iff groups a).0 e), λ h. ground arith)
      | inr e ↦ (
        λ h. let (g, i, k) = there (ground arith) in (g, inr i, k),
        λ (g, i, k). elim i [
          | inl same ↦
              absurd (
                let t = (member_iff groups g).1 k in
                let u = ap (member groups) same in ground arith)
          | inr j ↦ let t = back (g, j, k) in ground arith
        ],
      )
    ]

nil_or : (xs : List Bytes) → (is_nil xs ≡ true) → xs ≡ []
nil_or [] h = refl
nil_or (x ∷ xs) h = cc

module _ {Q : Type 0} where
  -- Enabled, open to one of the user's groups if it is closed to others, and named by the policy if
  -- the policy names images.
  pub record IsUsable (i : WorkspaceImage Q) (pol : WorkspacePolicy Q) (id : Identity)
      : Type 0 where
    pub enabled : i.enabled ≡ true
    pub group_fits :
        (i.allowed_groups ≡ []) ⊎ ((g : Bytes) × In g i.allowed_groups × In g id.groups)
    pub policy_fits : (pol.images ≡ []) ⊎ In i.name pol.images

  pub image_allowed_iff :
      (i : WorkspaceImage Q) (pol : WorkspacePolicy Q) (id : Identity)
      → (is_allowed (image_allowed i pol id) ≡ true) ↔ IsUsable i pol id
  unfolding image_allowed
  image_allowed_iff i pol id = (there, back)
    where
      there : is_allowed (image_allowed i pol id) ≡ true → IsUsable i pol id
      there h = record {
        enabled = ground arith;
        group_fits = elim (Bool-cases (is_nil i.allowed_groups)) [
          | inl e ↦ inl (nil_or i.allowed_groups e)
          | inr e ↦ inr ((any-member id.groups i.allowed_groups).0 (ground arith))
        ];
        policy_fits = elim (Bool-cases (is_nil pol.images)) [
          | inl e ↦ inl (nil_or pol.images e)
          | inr e ↦ inr ((member_iff pol.images i.name).0 (ground arith))
        ];
      }

      group_test :
          (i.allowed_groups ≡ []) ⊎ ((g : Bytes) × In g i.allowed_groups × In g id.groups)
          → (is_nil i.allowed_groups || any (member id.groups) i.allowed_groups) ≡ true
      group_test (inl e) = let t = ap is_nil e in ground arith
      group_test (inr g) = let t = (any-member id.groups i.allowed_groups).1 g in ground arith

      policy_test :
          (pol.images ≡ []) ⊎ In i.name pol.images
          → (is_nil pol.images || member pol.images i.name) ≡ true
      policy_test (inl e) = let t = ap is_nil e in ground arith
      policy_test (inr m) = let t = (member_iff pol.images i.name).1 m in ground arith

      back : IsUsable i pol id → is_allowed (image_allowed i pol id) ≡ true
      back u =
          let a = u.enabled in
          let b = group_test u.group_fits in let c = policy_test u.policy_fits in ground arith

  -- The catalog that the portal shows to a user is exactly the usable images of the catalog.
  pub allowed_images-IsUsable :
      (catalog : List (WorkspaceImage Q)) (pol : WorkspacePolicy Q) (id : Identity)
      (i : WorkspaceImage Q)
      → In i (allowed_images catalog pol id) ↔ (In i catalog × IsUsable i pol id)
  unfolding allowed_images
  allowed_images-IsUsable catalog pol id i =
      let (there, back) = In-keep (λ j. is_allowed (image_allowed j pol id)) i catalog in
      let (usable, allowed) = image_allowed_iff i pol id in
      (λ h. let (k, t) = there h in (k, usable t), λ (k, u). back (k, allowed u))
