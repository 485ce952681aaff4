-- ===== src/Policy/Catalog/Find.antt =====
-- `FindImage` against the rule in its comment: exact entries first, then the longest registry prefix.
use waas.Prelude.{
  ◌≤◌, ◌≡◌, refl, ◌∙◌, ap, sym, ◌≢◌, ◌↔◌, ◌⊎◌, inl, inr, Bool, true, false, List, [], ◌∷◌, ◌++◌,
  Option, none, some, Bytes, codes, arith, if◌then◌else◌, ltb, equal, equal_iff, has_prefix,
  has_prefix-append, length, In, Bool-cases, append_assoc,
}
use waas.Policy.Catalog.{
  WorkspaceImage, is_exact, prefix_of, covers, find_exact, longer, find_registry, exact_or,
  find_image,
}

has_prefix-parts : (s p : Bytes) → has_prefix s p ≡ true → (rest : Bytes) × (s ≡ p ++ rest)
unfolding has_prefix
has_prefix-parts s [] h = (s, refl)
has_prefix-parts [] (y ∷ ys) h = cc
has_prefix-parts (x ∷ xs) (y ∷ ys) h =
    let (rest, e) = has_prefix-parts xs ys (ground arith) in
    let same : x ≡ y = ground arith in (rest, cc)

module _ {Q : Type 0} where
  -- A registry entry approves exactly the references below its path: "docker.io/kasmweb" is no
  -- prefix of "docker.io/kasmweb-evil/…".
  pub covers_iff :
      (ref : Bytes) (i : WorkspaceImage Q)
      → (covers ref i ≡ true)
        ↔ ((prefix_of i ≢ []) × ((rest : Bytes) × (ref ≡ prefix_of i ++ b'/' ∷ rest)))
  covers_iff ref i = (
    λ h.
        let (rest, e) = has_prefix-parts ref (prefix_of i ++ codes "/") (ground arith) in
        (
          (λ empty. let t = (equal_iff (prefix_of i) []).1 empty in ground arith),
          (rest, e ∙ append_assoc (prefix_of i) (codes "/") rest),
        ),
    λ (filled, (rest, e)). back filled (
        ap (λ r. has_prefix r (prefix_of i ++ codes "/"))
          (e ∙ sym (append_assoc (prefix_of i) (codes "/") rest))
        ∙ has_prefix-append (prefix_of i ++ codes "/") rest),
  )
    where
      back :
          (prefix_of i ≢ [])
          → has_prefix ref (prefix_of i ++ codes "/") ≡ true
          → covers ref i ≡ true
      back filled h = elim (Bool-cases (equal (prefix_of i) [])) [
        | inl e ↦ absurd (filled ((equal_iff (prefix_of i) []).0 e))
        | inr e ↦ ground arith
      ]

  abbrev IsExact : Bytes → List (WorkspaceImage Q) → Option (WorkspaceImage Q) → Type 0
  IsExact ref catalog none = (i : WorkspaceImage Q) → In i catalog → is_exact ref i ≡ false
  IsExact ref catalog (some i) = In i catalog × (is_exact ref i ≡ true)

  IsExact-cons :
      (ref : Bytes) (j : WorkspaceImage Q) (catalog : List (WorkspaceImage Q))
      (rest : Option (WorkspaceImage Q)) (b : Bool)
      → is_exact ref j ≡ b
      → IsExact ref catalog rest
      → IsExact ref (j ∷ catalog) (if b then some j else rest)
  IsExact-cons ref j catalog rest true e h = (inl refl, e)
  IsExact-cons ref j catalog none false e h =
      λ i k. elim k [ inl same ↦ ap (is_exact ref) same ∙ e | inr there ↦ h i there ]
  IsExact-cons ref j catalog (some i) false e h = (inr h.0, h.1)

  find_exact-IsExact :
      (ref : Bytes) (catalog : List (WorkspaceImage Q))
      → IsExact ref catalog (find_exact ref catalog)
  unfolding find_exact
  find_exact-IsExact ref [] = λ i k. elim k [ ]
  find_exact-IsExact ref (j ∷ catalog) =
      IsExact-cons ref j catalog (find_exact ref catalog) (is_exact ref j) refl
        (find_exact-IsExact ref catalog)

  -- what the second loop has found so far among the entries that it has seen
  abbrev pub IsLongest : Bytes → (WorkspaceImage Q → Type 0) → Option (WorkspaceImage Q) → Type 0
  IsLongest ref seen none = (i : WorkspaceImage Q) → seen i → covers ref i ≡ false
  IsLongest ref seen (some b) =
      seen b
      × (covers ref b ≡ true)
      × ((i : WorkspaceImage Q)
          → seen i
          → covers ref i ≡ true
          → length (prefix_of i) ≤ length (prefix_of b))

  IsLongest-iff :
      (ref : Bytes) (seen seen' : WorkspaceImage Q → Type 0) (o : Option (WorkspaceImage Q))
      → ((i : WorkspaceImage Q) → seen i → seen' i)
      → ((i : WorkspaceImage Q) → seen' i → seen i)
      → IsLongest ref seen o
      → IsLongest ref seen' o
  IsLongest-iff ref seen seen' none to fro h = λ i k. h i (fro i k)
  IsLongest-iff ref seen seen' (some b) to fro h = (to b h.0, h.1, λ i k c. h.2 i (fro i k) c)

  IsLongest-longer :
      (ref : Bytes) (seen : WorkspaceImage Q → Type 0) (j : WorkspaceImage Q)
      (best : Option (WorkspaceImage Q)) (c : Bool)
      → covers ref j ≡ c
      → IsLongest ref seen best
      → IsLongest ref (λ i. seen i ⊎ (i ≡ j)) (if c then longer j best else best)
  IsLongest-longer ref seen j none true e h = (
    inr refl,
    e,
    λ i k t. elim k [
      | inl s ↦ absurd (let f = h i s in cc)
      | inr same ↦
          let m : length (prefix_of i) ≡ length (prefix_of j) =
            ap (λ x. length (prefix_of x)) same in
          omega arith
    ],
  )
  IsLongest-longer ref seen j none false e h =
      λ i k. elim k [ inl s ↦ h i s | inr same ↦ ap (covers ref) same ∙ e ]
  IsLongest-longer ref seen j (some b) false e h = (
    inl h.0,
    h.1,
    λ i k t. elim k [
      | inl s ↦ h.2 i s t
      | inr same ↦ absurd (let f = ap (covers ref) same ∙ e in cc)
    ],
  )
  IsLongest-longer ref seen j (some b) true e h =
      by_length (ltb (length (prefix_of b)) (length (prefix_of j))) refl
    where
      by_length :
          (t : Bool)
          → ltb (length (prefix_of b)) (length (prefix_of j)) ≡ t
          → IsLongest ref (λ i. seen i ⊎ (i ≡ j)) (if t then some j else some b)
      by_length true l = (
        inr refl,
        e,
        λ i k c. elim k [
          | inl s ↦ let le = h.2 i s c in ground arith
          | inr same ↦
              let m : length (prefix_of i) ≡ length (prefix_of j) =
                ap (λ x. length (prefix_of x)) same in
              omega arith
        ],
      )
      by_length false l = (
        inl h.0,
        h.1,
        λ i k c. elim k [
          | inl s ↦ h.2 i s c
          | inr same ↦
              let m : length (prefix_of i) ≡ length (prefix_of j) =
                ap (λ x. length (prefix_of x)) same in
              ground arith
        ],
      )

  find_registry-IsLongest :
      (ref : Bytes) (catalog : List (WorkspaceImage Q)) (seen : WorkspaceImage Q → Type 0)
      (best : Option (WorkspaceImage Q))
      → IsLongest ref seen best
      → IsLongest ref (λ i. seen i ⊎ In i catalog) (find_registry ref best catalog)
  unfolding find_registry
  find_registry-IsLongest ref [] seen best h =
      IsLongest-iff ref seen (λ i. seen i ⊎ ⊥) best (λ i k. inl k)
        (λ i k. elim k [ inl s ↦ s | inr never ↦ elim never [ ] ]) h
  find_registry-IsLongest ref (j ∷ catalog) seen best h =
      IsLongest-iff ref (λ i. (seen i ⊎ (i ≡ j)) ⊎ In i catalog) (λ i. seen i ⊎ In i (j ∷ catalog))
        _
        (λ i k. elim k [
          | inl s ↦ elim s [ inl a ↦ inl a | inr b ↦ inr (inl b) ]
          | inr c ↦ inr (inr c)
        ])
        (λ i k. elim k [
          | inl s ↦ inl (inl s)
          | inr s ↦ elim s [ inl b ↦ inl (inr b) | inr c ↦ inr c ]
        ])
        (find_registry-IsLongest ref catalog (λ i. seen i ⊎ (i ≡ j))
          (if covers ref j then longer j best else best)
          (IsLongest-longer ref seen j best (covers ref j) refl h))

  -- The rule in the comment of `FindImage`.
  abbrev pub IsApproving : List (WorkspaceImage Q) → Bytes → Option (WorkspaceImage Q) → Type 0
  IsApproving catalog ref o =
      ((i : WorkspaceImage Q) × (o ≡ some i) × In i catalog × (is_exact ref i ≡ true))
      ⊎ (((i : WorkspaceImage Q) → In i catalog → is_exact ref i ≡ false)
          × IsLongest ref (λ i. In i catalog) o)

  -- `FindImage` returns an exact entry if there is one; else, of the registry entries whose path the
  -- reference lies below, one with the longest path; and none only if no entry of either kind fits.
  pub find_image-IsApproving :
      (catalog : List (WorkspaceImage Q)) (ref : Bytes)
      → IsApproving catalog ref (find_image catalog ref)
  unfolding find_image
  find_image-IsApproving catalog ref =
      by_exact (find_exact ref catalog) (find_exact-IsExact ref catalog)
    where
      registry : IsLongest ref (λ i. In i catalog) (find_registry ref none catalog)
      registry =
          IsLongest-iff ref (λ i. ⊥ ⊎ In i catalog) (λ i. In i catalog)
            (find_registry ref none catalog)
            (λ i k. elim k [ inl never ↦ elim never [ ] | inr s ↦ s ]) (λ i k. inr k)
            (find_registry-IsLongest ref catalog (λ i. ⊥) none (λ i k. elim k [ ]))

      by_exact :
          (o : Option (WorkspaceImage Q))
          → IsExact ref catalog o
          → IsApproving catalog ref (exact_or o (find_registry ref none catalog))
      by_exact none h = inr (h, registry)
      by_exact (some i) h = inl (i, refl, h.0, h.1)
