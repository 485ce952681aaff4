-- ===== src/Params/Delegation.antt =====
-- What the allow-list of a template delegates to its users.
use waas.Prelude.{
  ◌≡◌, refl, ◌∙◌, sym, ◌≢◌, ◌↔◌, ◌⊎◌, inl, inr, true, false, List, [], ◌∷◌, ◌++◌, Option, none,
  some, Bytes, arith, if◌then◌else◌, ◌==◌, equal_iff, has_prefix, In, Bool-cases, Option-cases,
}
use mathlib.Core.Path.{subst}
use waas.Params.Types.{Param, Tier, ui, advanced, platform, Category}
use waas.Params.{
  is_in, tier_rank, for_protocol, lookup, selected_category, add, is_delegated, add_category,
  add_entry, add_entries, resolve_user_param_names, Violation, violation, or_next, check_name,
  validate_user_param_names, not_registered, platform_parameter,
}
use waas.Params.Listing.{is_in_iff, lookup-for_protocol}

platform_iff : (t : Tier) → (tier_rank t == 2 ≡ true) ↔ (t ≡ platform)
platform_iff ui = (λ h. absurd cc, λ h. absurd cc)
platform_iff advanced = (λ h. absurd cc, λ h. absurd cc)
platform_iff platform = (λ h. refl, λ h. refl)

pub not-platform : (t : Tier) → tier_rank t == 2 ≡ false → t ≢ platform
not-platform t h e = let k = (platform_iff t).1 e in cc

pub user-rank : (t : Tier) → t ≢ platform → tier_rank t == 2 ≡ false
user-rank ui h = refl
user-rank advanced h = refl
user-rank platform h = absurd (h refl)

-- The entry names the parameter, or the category of one that is not the platform's.
pub data Delegates (protocol entry name : Bytes) : Type 0 where
  by_name : selected_category entry ≡ none → entry ≡ name → Delegates protocol entry name
  by_category :
      (c : Category) (p : Param)
      → selected_category entry ≡ some c
      → In p (for_protocol protocol)
      → p.category ≡ c
      → p.tier ≢ platform
      → p.name ≡ name
      → Delegates protocol entry name

-- Some entry of the list does.
abbrev pub IsDelegated : Bytes → List Bytes → Bytes → Type 0
IsDelegated protocol [] name = ⊥
IsDelegated protocol (entry ∷ entries) name =
    Delegates protocol entry name ⊎ IsDelegated protocol entries name

In-append : (x : Bytes) (xs : List Bytes) (y : Bytes) → In x (xs ++ y ∷ []) ↔ (In x xs ⊎ (y ≡ x))
In-append x [] y = (
  λ h. elim h [ inl e ↦ inr (sym e) | inr k ↦ elim k [ ] ],
  λ h. elim h [ inl k ↦ elim k [ ] | inr e ↦ inl (sym e) ],
)
In-append x (z ∷ xs) y =
    let (there, back) = In-append x xs y in
    (
      λ h. elim h [
        | inl e ↦ inl (inl e)
        | inr k ↦ elim (there k) [ inl i ↦ inl (inr i) | inr e ↦ inr e ]
      ],
      λ h. elim h [
        | inl k ↦ elim k [ inl e ↦ inl e | inr i ↦ inr (back (inl i)) ]
        | inr e ↦ inr (back (inr e))
      ],
    )

In-add : (x name : Bytes) (out : List Bytes) → In x (add name out) ↔ (In x out ⊎ (name ≡ x))
unfolding add
In-add x name out = elim (Bool-cases (is_in name out)) [
  | inr e ↦ rw e (In-append x out name)
  | inl e ↦
      rw e (
        λ h. inl h,
        λ h. elim h [ inl i ↦ i | inr same ↦ rw (sym same) ((is_in_iff name out).0 e) ],
      )
]

-- One of the parameters has the name and is delegated by the category.
abbrev Named : Category → List Param → Bytes → Type 0
Named c [] x = ⊥
Named c (p ∷ ps) x = ((is_delegated c p ≡ true) × (p.name ≡ x)) ⊎ Named c ps x

In-add_category :
    (x : Bytes) (c : Category) (ps : List Param) (out : List Bytes)
    → In x (add_category c ps out) ↔ (In x out ⊎ Named c ps x)
unfolding add_category
In-add_category x c [] out = (λ h. inl h, λ h. elim h [ inl i ↦ i | inr k ↦ elim k [ ] ])
In-add_category x c (p ∷ ps) out = elim (Bool-cases (is_delegated c p)) [
  | inr e ↦ rw e (
      let (there, back) = In-add_category x c ps out in
      (
        λ h. elim (there h) [ inl i ↦ inl i | inr k ↦ inr (inr k) ],
        λ h. elim h [
          | inl i ↦ back (inl i)
          | inr k ↦ elim k [ inl f ↦ absurd (let g = f.0 in cc) | inr n ↦ back (inr n) ]
        ],
      ))
  | inl e ↦ rw e (
      let (there, back) = In-add_category x c ps (add p.name out) in
      let (to, fro) = In-add x p.name out in
      (
        λ h. elim (there h) [
          | inl i ↦ elim (to i) [ inl j ↦ inl j | inr same ↦ inr (inl (refl, same)) ]
          | inr k ↦ inr (inr k)
        ],
        λ h. elim h [
          | inl i ↦ back (inl (fro (inl i)))
          | inr k ↦ elim k [ inl f ↦ back (inl (fro (inr f.1))) | inr n ↦ back (inr n) ]
        ],
      ))
]

Named-In :
    (c : Category) (ps : List Param) (x : Bytes)
    → Named c ps x ↔ ((p : Param) × In p ps × (p.category ≡ c) × (p.tier ≢ platform) × (p.name ≡ x))
Named-In c [] x = (λ h. elim h [ ], λ h. elim h.1 [ ])
Named-In c (p ∷ ps) x =
    let (there, back) = Named-In c ps x in
    (
      λ h. elim h [
        | inl f ↦
            let d = f.0 in
            (
              p,
              inl refl,
              (equal_iff p.category c).0 (ground arith),
              not-platform p.tier (ground arith),
              f.1,
            )
        | inr k ↦ let (q, j, same, user, named) = there k in (q, inr j, same, user, named)
      ],
      λ h.
          let (q, j, same, user, named) = h in
          elim j [
            | inr further ↦ inr (back (q, further, same, user, named))
            | inl e ↦ inl (
                subst (λ r. (is_delegated c r ≡ true) × (r.name ≡ x)) e
                  (
                    (let t = (equal_iff q.category c).1 same in
                        let u = user-rank q.tier user in ground arith),
                    named,
                  ))
          ],
    )

In-add_entry :
    (protocol entry x : Bytes) (out : List Bytes)
    → In x (add_entry protocol entry out) ↔ (In x out ⊎ Delegates protocol entry x)
unfolding selected_category has_prefix
In-add_entry protocol entry x out = elim (Option-cases (selected_category entry)) [
  | inl e ↦ rw e (
      let (there, back) = In-add x entry out in
      (
        λ h. elim (there h) [ inl i ↦ inl i | inr same ↦ inr (by_name e same) ],
        λ h. elim h [
          | inl i ↦ back (inl i)
          | inr d ↦ elim d [
            | by_name n same ↦ back (inr same)
            | by_category c p s i k t n ↦ absurd cc
          ]
        ],
      ))
  | inr found ↦ rw (found.1) (
      let (there, back) = In-add_category x found.0 (for_protocol protocol) out in
      let (to, fro) = Named-In found.0 (for_protocol protocol) x in
      (
        λ h. elim (there h) [
          | inl i ↦ inl i
          | inr k ↦ let (p, i, c, t, n) = to k in inr (by_category found.0 p found.1 i c t n)
        ],
        λ h. elim h [
          | inl i ↦ back (inl i)
          | inr d ↦ elim d [
            | by_name n same ↦ absurd (let e = found.1 in cc)
            | by_category c p s i k t n ↦
                back
                  (inr (fro (p, i, (let e = found.1 in let g : c ≡ found.0 = cc in k ∙ g), t, n)))
          ]
        ],
      ))
]

In-add_entries :
    (protocol : Bytes) (entries : List Bytes) (x : Bytes) (out : List Bytes)
    → In x (add_entries protocol entries out) ↔ (In x out ⊎ IsDelegated protocol entries x)
unfolding add_entries
In-add_entries protocol [] x out = (λ h. inl h, λ h. elim h [ inl i ↦ i | inr k ↦ elim k [ ] ])
In-add_entries protocol (entry ∷ entries) x out =
    let (there, back) = In-add_entries protocol entries x (add_entry protocol entry out) in
    let (to, fro) = In-add_entry protocol entry x out in
    (
      λ h. elim (there h) [
        | inl i ↦ elim (to i) [ inl j ↦ inl j | inr d ↦ inr (inl d) ]
        | inr k ↦ inr (inr k)
      ],
      λ h. elim h [
        | inl i ↦ back (inl (fro (inl i)))
        | inr k ↦ elim k [ inl d ↦ back (inl (fro (inr d))) | inr n ↦ back (inr n) ]
      ],
    )

-- The resolved allow-list has exactly the names that some entry delegates: the entry is the name, or it
-- selects the category of a parameter of the protocol that has the name and is not the platform's.
pub resolve_user_param_names-IsDelegated :
    (protocol : Bytes) (entries : List Bytes) (x : Bytes)
    → In x (resolve_user_param_names protocol entries) ↔ IsDelegated protocol entries x
resolve_user_param_names-IsDelegated protocol entries x =
    let (there, back) = In-add_entries protocol entries x [] in
    (λ h. elim (there h) [ inl i ↦ elim i [ ] | inr d ↦ d ], λ d. back (inr d))

pub or_next-none : (v w : Option Violation) → or_next v w ≡ none → (v ≡ none) × (w ≡ none)
or_next-none none w h = (refl, h)
or_next-none (some v) w h = absurd cc

named-IsOpen :
    (protocol x : Bytes)
    → selected_category x ≡ none
    → check_name protocol x ≡ none
    → (p : Param) × (lookup protocol x ≡ some p) × (p.tier ≢ platform)
unfolding check_name selected_category has_prefix
named-IsOpen protocol x plain h = by_lookup (lookup protocol x) refl (
    let k : (elim (lookup protocol x) as (λ _. Option Violation) [
      | none ↦ violation x (some not_registered)
      | some p ↦ if tier_rank p.tier == 2 then violation x (some platform_parameter) else none
    ])
        ≡ none =
      rw plain at h in
    k)
  where
    by_lookup :
        (o : Option Param)
        → lookup protocol x ≡ o
        → (elim o as (λ _. Option Violation) [
          | none ↦ violation x (some not_registered)
          | some p ↦ if tier_rank p.tier == 2 then violation x (some platform_parameter) else none
        ])
          ≡ none
        → (p : Param) × (lookup protocol x ≡ some p) × (p.tier ≢ platform)
    by_lookup none e k = absurd cc
    by_lookup (some p) e k = (
      p,
      e,
      elim (Bool-cases (tier_rank p.tier == 2)) [
        | inr f ↦ not-platform p.tier f
        | inl f ↦ absurd (let g = rw f at k in cc)
      ],
    )

-- What a template may delegate, if its allow-list passes `ValidateUserParamNames`: every name of the
-- resolved list is one that `Lookup` finds for the protocol, and that the platform does not own.
pub resolve_user_param_names-IsOpen :
    (protocol : Bytes) (entries : List Bytes) (x : Bytes)
    → validate_user_param_names protocol entries ≡ none
    → In x (resolve_user_param_names protocol entries)
    → (p : Param) × (lookup protocol x ≡ some p) × (p.tier ≢ platform)
resolve_user_param_names-IsOpen protocol entries x valid i =
    delegated entries valid ((resolve_user_param_names-IsDelegated protocol entries x).0 i)
  where
    of_entry :
        (entry : Bytes)
        → check_name protocol entry ≡ none
        → Delegates protocol entry x
        → (p : Param) × (lookup protocol x ≡ some p) × (p.tier ≢ platform)
    of_entry entry ok (by_name plain same) =
        subst (λ n. (p : Param) × (lookup protocol n ≡ some p) × (p.tier ≢ platform)) same
          (named-IsOpen protocol entry plain ok)
    of_entry entry ok (by_category c p s i k t n) =
        (p, subst (λ m. lookup protocol m ≡ some p) n (lookup-for_protocol protocol p i), t)

    delegated :
        (entries : List Bytes)
        → validate_user_param_names protocol entries ≡ none
        → IsDelegated protocol entries x
        → (p : Param) × (lookup protocol x ≡ some p) × (p.tier ≢ platform)
    delegated [] h d = elim d [ ]
    delegated (entry ∷ entries) h d =
        let (first, later) =
          or_next-none (check_name protocol entry) (validate_user_param_names protocol entries)
            (unfold validate_user_param_names in h) in
        elim d [ inl here ↦ of_entry entry first here | inr there ↦ delegated entries later there ]
