-- ===== src/Controller/Reclaim.antt =====
-- Which namespaces the janitor reclaims.
use waas.Prelude.{
  ◌≡◌, refl, ◌≢◌, ◌↔◌, ◌⊎◌, inl, inr, Bool, true, false, not, ◌||◌, List, [], ◌∷◌, some, Bytes,
  codes, if◌then◌else◌, arith, equal, equal_iff, take, All, Bool-cases,
}
use waas.Metakeys.{Meta}
use waas.Policy.Objects.{Workspace, effective_target_namespace}
use waas.Policy.Overrides.{annotation}
use waas.Controller.{label_managed_by, manager_name, label_cleanup, label_pull_secret}
use waas.Controller.Status.{found}
use waas.Controller.Janitor.{
  workspace_content_kinds, Listed, objects, not_installed, list_failed, Namespace, Verdict,
  occupied, empty, unknown, is_secret, pins, any_pins, limited, with_listed, content_of, is_target,
  is_empty, kept, reclaimed, reclaim, is_reclaimable, reconcile,
}

-- Nothing that keeps a namespace: the kind is not installed, or there is no managed object of it but, of secrets, copies of
-- pull secrets.
abbrev pub Vacant : Bytes → Listed → Type 0
Vacant kind not_installed = Unit
Vacant kind list_failed = ⊥
Vacant kind (objects os) =
    (os ≡ [])
    ⊎ ((kind ≡ codes "Secret") × All (λ o. annotation label_pull_secret o ≡ codes "true") os)

any_pins-secret :
    (kind : Bytes) (os : List Meta)
    → is_secret kind ≡ true
    → any_pins kind os ≡ false
    → All (λ o. annotation label_pull_secret o ≡ codes "true") os
unfolding any_pins
any_pins-secret kind [] s h = tt
any_pins-secret kind (o ∷ os) s h = (
  (equal_iff (annotation label_pull_secret o) (codes "true")).0 (ground arith),
  any_pins-secret kind os s (ground arith),
)

secret-any_pins :
    (kind : Bytes) (os : List Meta)
    → is_secret kind ≡ true
    → All (λ o. annotation label_pull_secret o ≡ codes "true") os
    → any_pins kind os ≡ false
unfolding any_pins
secret-any_pins kind [] s h = refl
secret-any_pins kind (o ∷ os) s h =
    let t = (equal_iff (annotation label_pull_secret o) (codes "true")).1 h.0 in
    let rest = secret-any_pins kind os s h.1 in ground arith

limited-Vacant :
    (kind : Bytes) (os : List Meta)
    → (any_pins kind (limited kind os) ≡ false) ↔ Vacant kind (objects os)
limited-Vacant kind os = elim (Bool-cases (is_secret kind)) [
  | inl s ↦ rw s (
      (
        λ h. inr ((equal_iff kind (codes "Secret")).0 s, any_pins-secret kind os s h),
        λ h. elim h [
          | inl e ↦ rw e (unfold any_pins in refl)
          | inr p ↦ secret-any_pins kind os s p.1
        ],
      ))
  | inr s ↦ rw s (by_first os s)
]
  where
    by_first :
        (os : List Meta)
        → is_secret kind ≡ false
        → (any_pins kind (take 1 os) ≡ false) ↔ Vacant kind (objects os)
    by_first [] s = (λ h. inl refl, λ h. unfold any_pins in refl)
    by_first (o ∷ os) s = (
      λ h.
          absurd (
            let k : pins kind o || any_pins kind [] ≡ false = unfold any_pins in h in ground arith),
      λ h. elim h [
        | inl e ↦ absurd cc
        | inr p ↦ absurd (let t = (equal_iff kind (codes "Secret")).1 p.0 in cc)
      ],
    )

with_listed-empty :
    (l : Listed) (kind : Bytes) (rest : Verdict)
    → (with_listed l kind rest ≡ empty) ↔ (Vacant kind l × (rest ≡ empty))
with_listed-empty not_installed kind rest = (λ h. (tt, h), λ h. h.1)
with_listed-empty list_failed kind rest = (λ h. absurd cc, λ h. elim h.0 [ ])
with_listed-empty (objects os) kind rest =
    let (there, back) = limited-Vacant kind os in
    elim (Bool-cases (any_pins kind (limited kind os))) [
      | inl p ↦ (λ h. absurd (let k = rw p at h in cc), λ h. absurd (let q = back h.0 in cc))
      | inr p ↦ (λ h. (there p, rw p at h), λ h. rw p h.1)
    ]

content_of-empty :
    (list : Bytes → Listed) (kinds : List Bytes)
    → (content_of list kinds ≡ empty) ↔ All (λ kind. Vacant kind (list kind)) kinds
unfolding content_of
content_of-empty list [] = (λ h. tt, λ h. refl)
content_of-empty list (kind ∷ kinds) =
    let (there, back) = with_listed-empty (list kind) kind (content_of list kinds) in
    let (to, fro) = content_of-empty list kinds in
    (λ h. let (v, r) = there h in (v, to r), λ h. back (h.0, fro h.1))

reclaim-reclaimed : (v : Verdict) → (reclaim v true ≡ reclaimed) ↔ (v ≡ empty)
reclaim-reclaimed occupied = (λ h. absurd cc, λ h. absurd cc)
reclaim-reclaimed unknown = (λ h. absurd cc, λ h. absurd cc)
reclaim-reclaimed empty = (λ h. refl, λ h. refl)

module _ {Q : Type 0} where
  is_target-All :
      (name : Bytes) (wss : List (Workspace Q))
      → (is_target name wss ≡ false) ↔ All (λ ws. effective_target_namespace ws ≢ name) wss
  unfolding is_target
  is_target-All name [] = (λ h. tt, λ h. refl)
  is_target-All name (ws ∷ wss) =
      let (there, back) = is_target-All name wss in
      (
        λ h. (
          (λ e. let t = (equal_iff (effective_target_namespace ws) name).1 e in ground arith),
          there (ground arith),
        ),
        λ h. elim (Bool-cases (equal (effective_target_namespace ws) name)) [
          | inl e ↦ absurd (h.0 ((equal_iff (effective_target_namespace ws) name).0 e))
          | inr e ↦ let rest = back h.1 in ground arith
        ],
      )

  -- A namespace that may go: the operator made it, its frozen policy says so, it is not going already, no workspace (one
  -- that is being deleted included) targets it, and nothing of what the operator creates for a workspace is left in it.
  pub record IsReclaimable (ns : Namespace) (wss : List (Workspace Q)) (list : Bytes → Listed)
      : Type 0 where
    pub alive : ns.deleting ≡ false
    pub managed : annotation label_managed_by ns.labels ≡ manager_name
    pub policy : annotation label_cleanup ns.labels ≡ codes "DeleteWhenEmpty"
    pub untargeted : All (λ ws. effective_target_namespace ws ≢ ns.name) wss
    pub vacant : All (λ kind. Vacant kind (list kind)) workspace_content_kinds

  is_empty-empty :
      (wss : List (Workspace Q)) (list : Bytes → Listed) (name : Bytes)
      → is_empty (some wss) list name ≡ empty
      → All (λ ws. effective_target_namespace ws ≢ name) wss
        × All (λ kind. Vacant kind (list kind)) workspace_content_kinds
  unfolding is_empty
  is_empty-empty wss list name h = elim (Bool-cases (is_target name wss)) [
    | inl t ↦ absurd (let k = rw t at h in cc)
    | inr t ↦ (
      (is_target-All name wss).0 t,
      (content_of-empty list workspace_content_kinds).0 (rw t at h),
    )
  ]

  empty-is_empty :
      (wss : List (Workspace Q)) (list : Bytes → Listed) (name : Bytes)
      → All (λ ws. effective_target_namespace ws ≢ name) wss
      → All (λ kind. Vacant kind (list kind)) workspace_content_kinds
      → is_empty (some wss) list name ≡ empty
  unfolding is_empty
  empty-is_empty wss list name free vacant =
      let t = (is_target-All name wss).1 free in
      rw t ((content_of-empty list workspace_content_kinds).1 vacant)

  -- If the workspaces can be listed and the deletion succeeds, the janitor reclaims a namespace exactly if it may go; one
  -- with a kind that cannot be listed may not.
  pub reconcile-IsReclaimable :
      (ns : Namespace) (wss : List (Workspace Q)) (list : Bytes → Listed)
      → (reconcile (found ns) (some wss) list true ≡ reclaimed) ↔ IsReclaimable ns wss list
  unfolding reconcile
  reconcile-IsReclaimable ns wss list = (there, back)
    where
      by_tests :
          (d r : Bool) (v : Verdict)
          → (if d then kept else if not r then kept else reclaim v true) ≡ reclaimed
          → (d ≡ false) × (r ≡ true) × (v ≡ empty)
      by_tests true r v h = absurd cc
      by_tests false false v h = absurd cc
      by_tests false true v h = (refl, refl, (reclaim-reclaimed v).0 h)

      there :
          (if ns.deleting
              then kept
              else if not (is_reclaimable ns)
              then kept
              else reclaim (is_empty (some wss) list ns.name) true)
            ≡ reclaimed
          → IsReclaimable ns wss list
      there h =
          let (d, r, v) =
            by_tests ns.deleting (is_reclaimable ns) (is_empty (some wss) list ns.name) h in
          let (free, vacant) = is_empty-empty wss list ns.name v in
          record {
            alive = d;
            managed =
                (equal_iff (annotation label_managed_by ns.labels) manager_name).0 (ground arith);
            policy =
                (equal_iff (annotation label_cleanup ns.labels) (codes "DeleteWhenEmpty")).0
                  (ground arith);
            untargeted = free;
            vacant = vacant;
          }

      back :
          IsReclaimable ns wss list
          → (if ns.deleting
              then kept
              else if not (is_reclaimable ns)
              then kept
              else reclaim (is_empty (some wss) list ns.name) true)
            ≡ reclaimed
      back h =
          let m = (equal_iff (annotation label_managed_by ns.labels) manager_name).1 h.managed in
          let p =
            (equal_iff (annotation label_cleanup ns.labels) (codes "DeleteWhenEmpty")).1 h.policy in
          let e = empty-is_empty wss list ns.name h.untargeted h.vacant in
          let a = h.alive in rw (a, m, p, e) refl
