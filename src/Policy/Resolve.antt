-- ===== src/Policy/Resolve.antt =====
-- The policy that governs a user: the sort of `Resolve` against the rule in its comment.
use waas.Prelude.{
  ℕ, ◌≤◌, ◌≡◌, refl, ◌∙◌, ap, sym, ◌≢◌, ◌↔◌, inl, inr, Bool, true, false, List, [], ◌∷◌, Option,
  none, some, Bytes, arith, if◌then◌else◌, ◌==◌, less, less_irrefl, less_trans, less_total, keep,
  In, All, In-All, In-keep, Bool-cases,
}
use mathlib.Core.Path.{subst}
use waas.Policy.{
  Identity, WorkspacePolicy, Resolution, denied, governed, no_policy, Tie, subjects_match, before,
  insert_policy, sort_policies, choose, resolve,
}

not_less_trans : (x y z : Bytes) → less y x ≡ false → less z y ≡ false → less z x ≡ false
not_less_trans x y z h k = elim (Bool-cases (less z x)) [
  | inr e ↦ e
  | inl e ↦ elim (Bool-cases (less x y)) [
    | inl f ↦ ground (arith, less_trans z x y e f)
    | inr f ↦ let same = less_total x y f h in ground arith
  ]
]

no_tie : (a b : ℕ) (tie : Tie) → (if a == b then tie ∷ [] else []) ≡ [] → a ≢ b
no_tie a b tie h e = elim (Bool-cases (a == b)) [
  | inl t ↦ absurd (let k = ap (λ x. if x then tie ∷ [] else []) (sym t) ∙ h in cc)
  | inr f ↦ ground arith
]

module _ {Q : Type 0} where
  -- `p` is put nowhere behind `q` by the order.
  abbrev pub IsFirst : WorkspacePolicy Q → WorkspacePolicy Q → Type 0
  IsFirst p q = before q p ≡ false

  before_asym : (p q : WorkspacePolicy Q) → before p q ≡ true → IsFirst p q
  unfolding before
  before_asym p q h = elim (Bool-cases (less q.name p.name)) [
    | inr e ↦ ground arith
    | inl e ↦ ground (arith, less_trans p.name q.name p.name, less_irrefl p.name)
  ]

  before_irrefl : (p : WorkspacePolicy Q) → IsFirst p p
  unfolding before
  before_irrefl p = ground (arith, less_irrefl p.name)

  priority_le : (p q : WorkspacePolicy Q) → IsFirst p q → q.priority ≤ p.priority
  unfolding before
  priority_le p q h = ground arith

  IsFirst-trans : (p q r : WorkspacePolicy Q) → IsFirst p q → IsFirst q r → IsFirst p r
  unfolding before
  IsFirst-trans p q r h k = ground (arith, not_less_trans p.name q.name r.name)

  All-IsFirst :
      (p q : WorkspacePolicy Q) (qs : List (WorkspacePolicy Q))
      → IsFirst p q
      → All (IsFirst q) qs
      → All (IsFirst p) qs
  All-IsFirst p q [] h k = tt
  All-IsFirst p q (r ∷ rs) h k = (IsFirst-trans p q r h k.0, All-IsFirst p q rs h k.1)

  abbrev IsSorted : List (WorkspacePolicy Q) → Type 0
  IsSorted [] = Unit
  IsSorted (p ∷ ps) = All (IsFirst p) ps × IsSorted ps

  All-insert_policy :
      (P : WorkspacePolicy Q → Type 0) (p : WorkspacePolicy Q) (qs : List (WorkspacePolicy Q))
      → P p
      → All P qs
      → All P (insert_policy p qs)
  unfolding insert_policy
  All-insert_policy P p [] h k = (h, tt)
  All-insert_policy P p (q ∷ qs) h k = elim (Bool-cases (before p q)) [
    | inl e ↦ rw e (h, k)
    | inr e ↦ rw e (k.0, All-insert_policy P p qs h k.1)
  ]

  insert_policy-IsSorted :
      (p : WorkspacePolicy Q) (qs : List (WorkspacePolicy Q))
      → IsSorted qs
      → IsSorted (insert_policy p qs)
  unfolding insert_policy
  insert_policy-IsSorted p [] h = (tt, tt)
  insert_policy-IsSorted p (q ∷ qs) h = elim (Bool-cases (before p q)) [
    | inl e ↦ rw e ((before_asym p q e, All-IsFirst p q qs (before_asym p q e) h.0), h)
    | inr e ↦ rw e (All-insert_policy (IsFirst q) p qs e h.0, insert_policy-IsSorted p qs h.1)
  ]

  sort_policies-IsSorted : (ps : List (WorkspacePolicy Q)) → IsSorted (sort_policies ps)
  unfolding sort_policies
  sort_policies-IsSorted [] = tt
  sort_policies-IsSorted (p ∷ ps) =
      insert_policy-IsSorted p (sort_policies ps) (sort_policies-IsSorted ps)

  In-insert_policy :
      (x p : WorkspacePolicy Q) (qs : List (WorkspacePolicy Q))
      → In x (insert_policy p qs) ↔ In x (p ∷ qs)
  unfolding insert_policy
  In-insert_policy x p [] = (λ h. h, λ h. h)
  In-insert_policy x p (q ∷ qs) = elim (Bool-cases (before p q)) [
    | inl e ↦ rw e ((λ h. h, λ h. h))
    | inr e ↦ rw e (
        (
          λ h. elim h [
            | inl a ↦ inr (inl a)
            | inr b ↦ elim ((In-insert_policy x p qs).0 b) [ inl c ↦ inl c | inr c ↦ inr (inr c) ]
          ],
          λ h. elim h [
            | inl a ↦ inr ((In-insert_policy x p qs).1 (inl a))
            | inr b ↦ elim b [ inl c ↦ inl c | inr c ↦ inr ((In-insert_policy x p qs).1 (inr c)) ]
          ],
        ))
  ]

  In-sort_policies :
      (x : WorkspacePolicy Q) (ps : List (WorkspacePolicy Q)) → In x (sort_policies ps) ↔ In x ps
  unfolding sort_policies
  In-sort_policies x [] = (λ h. h, λ h. h)
  In-sort_policies x (p ∷ ps) =
      let (there, back) = In-insert_policy x p (sort_policies ps) in
      let (to, fro) = In-sort_policies x ps in
      (
        λ h. elim (there h) [ inl a ↦ inl a | inr b ↦ inr (to b) ],
        λ h. back (elim h [ inl a ↦ inl a | inr b ↦ inr (fro b) ]),
      )

  abbrev pub matches : Identity → WorkspacePolicy Q → Bool
  matches id p = subjects_match p.subjects id

  -- The rule in the comment of `Resolve`.
  abbrev pub IsRuling : List (WorkspacePolicy Q) → Identity → Resolution Q → Type 0
  IsRuling ps id (denied reason) =
      (reason ≡ no_policy) × ((q : WorkspacePolicy Q) → In q ps → matches id q ≡ false)
  IsRuling ps id (governed p ties) =
      In p ps
      × (matches id p ≡ true)
      × ((q : WorkspacePolicy Q) → In q ps → matches id q ≡ true → IsFirst p q)
      × (ties ≡ []
          → (q : WorkspacePolicy Q) → In q ps
          → matches id q ≡ true
          → q.priority ≡ p.priority
          → q ≡ p)

  choose-IsRuling :
      (ps : List (WorkspacePolicy Q)) (id : Identity) (sorted : List (WorkspacePolicy Q))
      → IsSorted sorted
      → ((x : WorkspacePolicy Q) → In x sorted ↔ (In x ps × (matches id x ≡ true)))
      → IsRuling ps id (choose sorted)
  choose-IsRuling ps id [] h same = (
    refl,
    λ q i. elim (Bool-cases (matches id q)) [ inl e ↦ elim ((same q).1 (i, e)) [ ] | inr e ↦ e ],
  )
  choose-IsRuling ps id (p ∷ []) h same =
      let (i, m) = (same p).0 (inl refl) in
      let alone : (q : WorkspacePolicy Q) → In q ps → matches id q ≡ true → q ≡ p =
        λ q iq mq. elim ((same q).1 (iq, mq)) [ inl e ↦ e | inr none_left ↦ elim none_left [ ] ] in
      (
        i,
        m,
        λ q iq mq. subst (IsFirst p) (sym (alone q iq mq)) (before_irrefl p),
        λ t q iq mq e. alone q iq mq,
      )
  choose-IsRuling ps id (p ∷ r ∷ rs) h same =
      let (i, m) = (same p).0 (inl refl) in
      (
        i,
        m,
        λ q iq mq. elim ((same q).1 (iq, mq)) [
          | inl e ↦ subst (IsFirst p) (sym e) (before_irrefl p)
          | inr there ↦ In-All (IsFirst p) q (r ∷ rs) h.0 there
        ],
        λ t q iq mq e. elim ((same q).1 (iq, mq)) [
          | inl same_policy ↦ same_policy
          | inr there ↦
              let apart : p.priority ≢ r.priority = no_tie p.priority r.priority _ t in
              let le = priority_le p r h.0.0 in
              let le' =
                priority_le r q (In-All (IsFirst r) q (r ∷ rs) (before_irrefl r, h.1.0) there) in
              absurd (apart (omega arith))
        ],
      )

  -- `Resolve` denies exactly if no policy matches; else it takes a matching policy before which the
  -- order (higher priority, then smaller name) puts no matching policy; and if it does not warn, no
  -- other matching policy has the same priority.
  pub resolve-IsRuling :
      (ps : List (WorkspacePolicy Q)) (id : Identity) → IsRuling ps id (resolve ps id)
  unfolding resolve
  resolve-IsRuling ps id =
      choose-IsRuling ps id (sort_policies (keep (matches id) ps))
        (sort_policies-IsSorted (keep (matches id) ps))
        (λ x.
          let (a, b) = In-sort_policies x (keep (matches id) ps) in
          let (c, d) = In-keep (matches id) x ps in (λ h. c (a h), λ h. b (d h)))

  abbrev pub winner : Resolution Q → Option (WorkspacePolicy Q)
  winner (denied reason) = none
  winner (governed p ties) = some p

  first_unique : (p q : WorkspacePolicy Q) → IsFirst p q → IsFirst q p → p.name ≡ q.name
  unfolding before
  first_unique p q h k = less_total p.name q.name (ground arith) (ground arith)

  -- The policy that `Resolve` takes depends only on which policies there are, not on their order in
  -- the list (nor on repetitions), if they have distinct names.
  pub resolve-order :
      (ps qs : List (WorkspacePolicy Q)) (id : Identity)
      → ((p : WorkspacePolicy Q) → In p ps → In p qs)
      → ((p : WorkspacePolicy Q) → In p qs → In p ps)
      → ((p q : WorkspacePolicy Q) → In p ps → In q ps → p.name ≡ q.name → p ≡ q)
      → winner (resolve ps id) ≡ winner (resolve qs id)
  resolve-order ps qs id there back distinct =
      same_winner (resolve ps id) (resolve qs id) (resolve-IsRuling ps id) (resolve-IsRuling qs id)
    where
      same_winner : (x y : Resolution Q) → IsRuling ps id x → IsRuling qs id y → winner x ≡ winner y
      same_winner (denied a) (denied b) h k = refl
      same_winner (denied a) (governed q t) h k =
          absurd (let e = h.1 q (back q k.0) in let f = k.1 in cc)
      same_winner (governed p t) (denied b) h k =
          absurd (let e = k.1 p (there p h.0) in let f = h.1 in cc)
      same_winner (governed p t) (governed q u) h k = ap some (
          distinct p q h.0 (back q k.0)
            (first_unique p q (h.2 q (back q k.0) k.1) (k.2 p (there p h.0) h.1)))
