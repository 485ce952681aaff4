-- ===== src/Params/Listing.antt =====
-- The listing of the parameters of a protocol, and the search for one of them.
use waas.Prelude.{
  ◌≡◌, refl, ap, sym, ◌↔◌, inl, inr, Bool, true, false, not, ◌&&◌, List, [], ◌∷◌, some, Bytes,
  arith, if◌then◌else◌, equal, equal_iff, equal_refl, less, less_irrefl, less_trans, keep, In,
  In-keep, Bool-cases,
}
use waas.Params.Types.{Param}
use waas.Params.{
  registry, is_in, applies, precedes, insert_param, sort_params, for_protocol, lookup, lookup_in,
}

pub is_in_iff : (x : Bytes) (ys : List Bytes) → (is_in x ys ≡ true) ↔ In x ys
is_in_iff x [] = (λ h. absurd cc, λ h. elim h [ ])
is_in_iff x (y ∷ ys) = elim (Bool-cases (equal x y)) [
  | inl e ↦ rw e ((λ h. inl ((equal_iff x y).0 e), λ h. refl))
  | inr e ↦ rw e (
      (
        λ h. inr ((is_in_iff x ys).0 h),
        λ h. elim h [
          | inl same ↦ absurd (let t = (equal_iff x y).1 same in cc)
          | inr there ↦ (is_in_iff x ys).1 there
        ],
      ))
]

-- `p` does not belong behind `q`.
abbrev pub InOrder : Param → Param → Type 0
InOrder p q = precedes q p ≡ false

InOrder-precedes : (p q : Param) → precedes p q ≡ true → InOrder p q
unfolding precedes
InOrder-precedes p q h = elim (Bool-cases (less q.name p.name)) [
  | inr e ↦ ground arith
  | inl e ↦ ground (arith, less_trans p.name q.name p.name, less_irrefl p.name)
]

-- Each one, against the one behind it.
abbrev pub IsSorted : List Param → Type 0
IsSorted [] = Unit
IsSorted (p ∷ []) = Unit
IsSorted (p ∷ q ∷ ps) = InOrder p q × IsSorted (q ∷ ps)

before_either :
    (b : Bool) (q p r : Param) (xs ys : List Param)
    → InOrder q r
    → InOrder q p
    → IsSorted (if b then r ∷ xs else p ∷ ys)
    → IsSorted (q ∷ (if b then r ∷ xs else p ∷ ys))
before_either true q p r xs ys h k s = (h, s)
before_either false q p r xs ys h k s = (k, s)

insert_param-IsSorted : (p : Param) (qs : List Param) → IsSorted qs → IsSorted (insert_param p qs)
unfolding insert_param
insert_param-IsSorted p [] h = tt
insert_param-IsSorted p (q ∷ []) h = elim (Bool-cases (precedes q p)) [
  | inl e ↦ rw e (InOrder-precedes q p e, tt)
  | inr e ↦ rw e (e, tt)
]
insert_param-IsSorted p (q ∷ r ∷ qs) h =
    let rest = insert_param-IsSorted p (r ∷ qs) h.1 in
    elim (Bool-cases (precedes q p)) [
      | inr e ↦ rw e (e, h)
      | inl e ↦ rw e (
          before_either (precedes r p) q p r (insert_param p qs) (r ∷ qs) h.0
            (InOrder-precedes q p e) rest)
    ]

sort_params-IsSorted : (ps : List Param) → IsSorted (sort_params ps)
unfolding sort_params
sort_params-IsSorted [] = tt
sort_params-IsSorted (p ∷ ps) = insert_param-IsSorted p (sort_params ps) (sort_params-IsSorted ps)

In-insert_param : (x p : Param) (qs : List Param) → In x (insert_param p qs) ↔ In x (p ∷ qs)
unfolding insert_param
In-insert_param x p [] = (λ h. h, λ h. h)
In-insert_param x p (q ∷ qs) = elim (Bool-cases (precedes q p)) [
  | inr e ↦ rw e ((λ h. h, λ h. h))
  | inl e ↦ rw e (
      (
        λ h. elim h [
          | inl a ↦ inr (inl a)
          | inr b ↦ elim ((In-insert_param x p qs).0 b) [ inl c ↦ inl c | inr c ↦ inr (inr c) ]
        ],
        λ h. elim h [
          | inl a ↦ inr ((In-insert_param x p qs).1 (inl a))
          | inr b ↦ elim b [ inl c ↦ inl c | inr c ↦ inr ((In-insert_param x p qs).1 (inr c)) ]
        ],
      ))
]

In-sort_params : (x : Param) (ps : List Param) → In x (sort_params ps) ↔ In x ps
unfolding sort_params
In-sort_params x [] = (λ h. h, λ h. h)
In-sort_params x (p ∷ ps) =
    let (there, back) = In-insert_param x p (sort_params ps) in
    let (to, fro) = In-sort_params x ps in
    (
      λ h. elim (there h) [ inl a ↦ inl a | inr b ↦ inr (to b) ],
      λ h. back (elim h [ inl a ↦ inl a | inr b ↦ inr (fro b) ]),
    )

-- `ForProtocol` lists exactly the parameters of the table that apply to the protocol, and in order: by
-- category, then by tier, then by name.
pub for_protocol-IsSorted :
    (protocol : Bytes)
    → IsSorted (for_protocol protocol)
      × ((p : Param) → In p (for_protocol protocol) ↔ (In p registry × (applies protocol p ≡ true)))
unfolding for_protocol
for_protocol-IsSorted protocol =
    let ps : List Param = keep (applies protocol) registry in
    (
      sort_params-IsSorted ps,
      λ p. (
        λ h. (In-keep (applies protocol) p registry).0 ((In-sort_params p ps).0 h),
        λ h. (In-sort_params p ps).1 ((In-keep (applies protocol) p registry).1 h),
      ),
    )

-- No name stands twice in the table.
abbrev names_of : List Param → List Bytes
names_of [] = []
names_of (p ∷ ps) = p.name ∷ names_of ps

abbrev distinct : List Bytes → Bool
distinct [] = true
distinct (x ∷ xs) = not (is_in x xs) && distinct xs

registry-distinct : distinct (names_of registry) ≡ true
unfolding registry equal
registry-distinct = refl

In-names_of : (p : Param) (ps : List Param) → In p ps → In p.name (names_of ps)
In-names_of p [] h = elim h [ ]
In-names_of p (q ∷ ps) h = elim h [
  | inl e ↦ inl (ap (λ r. r.name) e)
  | inr there ↦ inr (In-names_of p ps there)
]

lookup_in-found :
    (protocol : Bytes) (p : Param) (ps : List Param)
    → distinct (names_of ps) ≡ true
    → In p ps
    → applies protocol p ≡ true
    → lookup_in ps protocol p.name ≡ some p
unfolding lookup_in
lookup_in-found protocol p [] d h a = elim h [ ]
lookup_in-found protocol p (q ∷ ps) d h a = elim h [
  | inl e ↦ let s = equal_refl p.name in rw (sym e, s, a) refl
  | inr there ↦ elim (Bool-cases (equal q.name p.name)) [
    | inr f ↦ rw f (lookup_in-found protocol p ps (ground arith) there a)
    | inl f ↦ absurd (
        let same = (equal_iff q.name p.name).0 f in
        let i = (is_in_iff q.name (names_of ps)).1 (rw same (In-names_of p ps there)) in
        ground arith)
  ]
]

-- `Lookup` finds each parameter that the listing of its protocol shows.
pub lookup-for_protocol :
    (protocol : Bytes) (p : Param) → In p (for_protocol protocol) → lookup protocol p.name ≡ some p
lookup-for_protocol protocol p h =
    let (i, a) = ((for_protocol-IsSorted protocol).1 p).0 h in
    lookup_in-found protocol p registry registry-distinct i a
