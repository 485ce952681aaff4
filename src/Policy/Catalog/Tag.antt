-- ===== src/Policy/Catalog/Tag.antt =====
-- The tag of a reference, and the tag discipline of a registry entry that sets none.
use waas.Prelude.{
  ℕ, suc, ◌≤◌, ◌≡◌, refl, ◌∙◌, ap, sym, ◌≢◌, ◌↔◌, ◌⊎◌, inl, inr, Bool, true, false, ◌||◌, [], ◌∷◌,
  ◌++◌, none, some, Bytes, codes, All, arith, if◌then◌else◌, equal, equal_iff, has_prefix,
  has_prefix-append, contains, length, drop, All-append, Bool-cases,
}
use waas.Policy.{image_tag_policy}
use waas.Policy.Catalog.{
  WorkspaceImage, last_end, before_at, tag_of, image_tag, tag_policy_of, check_tag,
  check_tag_discipline,
}

abbrev pub IsPath : Bytes → Type 0
IsPath s = All (λ c. c ≢ b'@') s

-- a part of a reference with no separator in it
abbrev pub IsName : Bytes → Type 0
IsName s = All (λ c. (c ≢ b'@') × (c ≢ b'/') × (c ≢ b':')) s

IsPath-of_name : (s : Bytes) → IsName s → IsPath s
IsPath-of_name [] h = tt
IsPath-of_name (c ∷ s) h = (h.0.0, IsPath-of_name s h.1)

before_at-IsPath : (s : Bytes) → IsPath s → before_at s ≡ s
unfolding before_at
before_at-IsPath [] h = refl
before_at-IsPath (c ∷ s) h = let ne = h.0 in ground (arith, before_at-IsPath s h.1)

before_at-digest : (s digest : Bytes) → IsPath s → before_at (s ++ b'@' ∷ digest) ≡ s
unfolding before_at
before_at-digest [] digest h = refl
before_at-digest (c ∷ s) digest h = let ne = h.0 in ground (arith, before_at-digest s digest h.1)

last_end-le : (c : ℕ) (s : Bytes) → last_end c s ≤ length s
unfolding last_end
last_end-le c [] = omega arith
last_end-le c (x ∷ s) = ground (arith, last_end-le c s)

last_end-absent : (c : ℕ) (s : Bytes) → All (λ x. x ≢ c) s → last_end c s ≡ 0
unfolding last_end
last_end-absent c [] h = refl
last_end-absent c (x ∷ s) h = let ne = h.0 in ground (arith, last_end-absent c s h.1)

-- only the name after the last separator `d` is searched
last_end-before :
    (c d : ℕ) (path name : Bytes)
    → c ≢ d
    → All (λ x. x ≢ c) name
    → last_end c (path ++ d ∷ name) ≡ last_end c path
unfolding last_end
last_end-before c d [] name ne h = ground (arith, last_end-absent c name h)
last_end-before c d (x ∷ path) name ne h = ground (arith, last_end-before c d path name ne h)

last_end-there :
    (d : ℕ) (path name : Bytes)
    → All (λ x. x ≢ d) name
    → last_end d (path ++ d ∷ name) ≡ suc (length path)
unfolding last_end
last_end-there d [] name h = ground (arith, last_end-absent d name h)
last_end-there d (x ∷ path) name h = ground (arith, last_end-there d path name h)

drop-past : (d : ℕ) (path name : Bytes) → drop (suc (length path)) (path ++ d ∷ name) ≡ name
drop-past d [] name = refl
drop-past d (x ∷ path) name = drop-past d path name

no_char : (c : ℕ) (s : Bytes) → (c ≡ b'/') ⊎ (c ≡ b':') → IsName s → All (λ x. x ≢ c) s
no_char c [] e h = tt
no_char c (x ∷ s) e h = (
  let a = h.0.1 in let b = h.0.2 in elim e [ inl e' ↦ λ k. a (k ∙ e') | inr e' ↦ λ k. b (k ∙ e') ],
  no_char c s e h.1,
)

tag_of-tag : (path tag : Bytes) → IsName tag → tag_of (path ++ b':' ∷ tag) ≡ tag
tag_of-tag path tag h =
    rw (last_end-before b'/' b':' path tag (λ e. omega arith) (no_char b'/' tag (inl refl) h)) (
      rw (last_end-there b':' path tag (no_char b':' tag (inr refl) h))
        (rw (drop-past b':' path tag) (let le = last_end-le b'/' path in ground arith)))

tag_of-port : (path name : Bytes) → IsName name → tag_of (path ++ b'/' ∷ name) ≡ []
tag_of-port path name h = rw (last_end-there b'/' path name (no_char b'/' name (inl refl) h)) (
    rw (last_end-before b':' b'/' path name (λ e. omega arith) (no_char b':' name (inr refl) h))
      (let le = last_end-le b':' path in ground arith))

-- The tag of a reference is what follows the colon of its last path element, with a digest or
-- without one; a colon further left, of a registry's port, is none.
pub image_tag-tag :
    (path name digest : Bytes)
    → IsPath path
    → IsName name
    → (image_tag (path ++ b':' ∷ name) ≡ name)
      × (image_tag ((path ++ b':' ∷ name) ++ b'@' ∷ digest) ≡ name)
      × (image_tag (path ++ b'/' ∷ name) ≡ [])
unfolding image_tag
image_tag-tag path name digest p h = (
  ap tag_of (before_at-IsPath (path ++ b':' ∷ name) (whole b':' (λ e. omega arith)))
      ∙ tag_of-tag path name h,
  ap tag_of (before_at-digest (path ++ b':' ∷ name) digest (whole b':' (λ e. omega arith)))
      ∙ tag_of-tag path name h,
  ap tag_of (before_at-IsPath (path ++ b'/' ∷ name) (whole b'/' (λ e. omega arith)))
      ∙ tag_of-port path name h,
)
  where
    whole : (c : ℕ) → c ≢ b'@' → IsPath (path ++ c ∷ name)
    whole c ne = All-append (λ x. x ≢ b'@') path (c ∷ name) p (ne, IsPath-of_name name h)

contains-absent : (c : ℕ) (p s : Bytes) → All (λ x. x ≢ c) s → contains s (c ∷ p) ≡ false
unfolding contains has_prefix
contains-absent c p [] h = refl
contains-absent c p (x ∷ s) h = let ne = h.0 in ground (arith, contains-absent c p s h.1)

contains-there : (s p rest : Bytes) → contains (s ++ (p ++ rest)) p ≡ true
unfolding contains
contains-there [] [] [] = refl
contains-there [] [] (x ∷ rest) = refl
contains-there [] (c ∷ p) rest =
    ap (λ b. b || contains (p ++ rest) (c ∷ p)) (has_prefix-append (c ∷ p) rest)
contains-there (x ∷ s) p rest =
    rw (contains-there s p rest) (or_true (has_prefix (x ∷ (s ++ (p ++ rest))) p))
  where
    or_true : (b : Bool) → (b || true) ≡ true
    or_true true = refl
    or_true false = refl

tag_policy_of_default :
    {Q : Type 0} (i : WorkspaceImage Q)
    → i.tag_policy ≡ []
    → i.image ≡ []
    → tag_policy_of i ≡ codes "tag"
unfolding tag_policy_of equal
tag_policy_of_default i e f =
    let a = ap (λ t. equal t []) e in let b = ap (λ t. equal t []) f in ground arith

default_check :
    {Q : Type 0} (i : WorkspaceImage Q) (ref : Bytes)
    → i.tag_policy ≡ []
    → i.image ≡ []
    → check_tag_discipline i ref ≡ (if contains ref (codes "@sha256:") then none else check_tag ref)
unfolding check_tag_discipline equal
default_check i ref e f =
    ap
      (λ t.
        if equal t (codes "any")
        then none
        else if equal t (codes "digest")
        then (if contains ref (codes "@sha256:") then none else some image_tag_policy)
        else (if contains ref (codes "@sha256:") then none else check_tag ref))
      policy
  where
    policy : tag_policy_of i ≡ codes "tag"
    policy = tag_policy_of_default i e f

check_tag-name :
    (ref name : Bytes)
    → image_tag ref ≡ name
    → (check_tag ref ≡ none) ↔ ((name ≢ []) × (name ≢ codes "latest"))
unfolding check_tag
check_tag-name ref name e = rw e (
    (
      λ h. (
        λ k. let t = (equal_iff name []).1 k in ground arith,
        λ k. let t = (equal_iff name (codes "latest")).1 k in ground arith,
      ),
      λ (a, b). elim (Bool-cases (equal name [])) [
        | inl t ↦ absurd (a ((equal_iff name []).0 t))
        | inr t ↦ elim (Bool-cases (equal name (codes "latest"))) [
          | inl u ↦ absurd (b ((equal_iff name (codes "latest")).0 u))
          | inr u ↦ ground arith
        ]
      ],
    ))

-- A registry entry that sets no tag policy accepts a tagged reference exactly if its tag is there and
-- is not "latest", and every reference that carries a digest.
pub check_tag_discipline-default :
    {Q : Type 0} (i : WorkspaceImage Q) (path name digest : Bytes)
    → i.tag_policy ≡ []
    → i.image ≡ []
    → IsPath path
    → IsName name
    → ((check_tag_discipline i (path ++ b':' ∷ name) ≡ none)
        ↔ ((name ≢ []) × (name ≢ codes "latest")))
      × (check_tag_discipline i ((path ++ b':' ∷ name) ++ (codes "@sha256:" ++ digest)) ≡ none)
check_tag_discipline-default i path name digest e f p h =
    let tagged : Bytes = path ++ b':' ∷ name in
    let absent =
      contains-absent b'@' (codes "sha256:") tagged (
        All-append (λ x. x ≢ b'@') path (b':' ∷ name) p
          (λ k. omega arith, IsPath-of_name name h)) in
    let (there, back) = check_tag-name tagged name (image_tag-tag path name [] p h).0 in
    let plain : check_tag_discipline i tagged ≡ check_tag tagged =
      default_check i tagged e f ∙ ap (λ b. if b then none else check_tag tagged) absent in
    (
      (λ k. there (sym plain ∙ k), λ k. plain ∙ back k),
      default_check i (tagged ++ (codes "@sha256:" ++ digest)) e f
          ∙ ap (λ b. if b then none else check_tag (tagged ++ (codes "@sha256:" ++ digest)))
              (contains-there tagged (codes "@sha256:") digest),
    )
