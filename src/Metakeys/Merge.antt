-- ===== src/Metakeys/Merge.antt =====
-- What a key reads as in the merged metadata.
use waas.Prelude.{
  ◌≡◌, refl, ◌∙◌, ap, sym, Bool, true, false, [], ◌∷◌, Option, none, some, Bytes, if◌then◌else◌,
  equal, equal_iff,
}
use waas.Metakeys.{Meta, check_key, is_fine, put, copy_allowed, copy_all, merge_allowed}

-- the value under a key
unfoldable pub lookup : Bytes → Meta → Option Bytes
lookup k [] = none
lookup k ((k', v) ∷ entries) = let rest = lookup k entries in if equal k' k then some v else rest

-- A map has each key once.
abbrev pub IsMap : Meta → Type 0
IsMap [] = Unit
IsMap ((k, v) ∷ entries) = (lookup k entries ≡ none) × IsMap entries

abbrev pub or_else : Option Bytes → Option Bytes → Option Bytes
or_else none other = other
or_else (some v) other = some v

abbrev pub if_fine : Bytes → Option Bytes → Option Bytes
if_fine k o = if is_fine (check_key k) then o else none

lookup-copy_all :
    (k : Bytes) (entries out : Meta)
    → IsMap entries
    → lookup k (copy_all entries out) ≡ or_else (lookup k entries) (lookup k out)
unfolding copy_all lookup
lookup-copy_all k [] out h = refl
lookup-copy_all k ((k', v) ∷ entries) out h =
    lookup-copy_all k entries (put k' v out) h.1 ∙ by_key (equal k' k) refl
  where
    by_key :
        (b : Bool)
        → equal k' k ≡ b
        → or_else (lookup k entries) (if b then some v else lookup k out)
          ≡ or_else (if b then some v else lookup k entries) (lookup k out)
    by_key false e = refl
    by_key true e =
        ap (λ o. or_else o (some v))
          (ap (λ key. lookup key entries) (sym ((equal_iff k' k).0 e)) ∙ h.0)

fine_none : (b : Bool) (o : Option Bytes) → or_else (if b then none else none) o ≡ o
fine_none true o = refl
fine_none false o = refl

none_behind : (o : Option Bytes) → or_else o none ≡ o
none_behind none = refl
none_behind (some v) = refl

-- one round of the loop over the user's entries: `b` the key is this one, `c` it is fine, `d` the
-- key asked for is fine
round :
    (v : Bytes) (b c d : Bool) (later out : Option Bytes)
    → (b ≡ true → (c ≡ d) × (later ≡ none))
    → or_else (if d then later else none) (if c then (if b then some v else out) else out)
      ≡ or_else (if d then (if b then some v else later) else none) out
round v false true d later out h = refl
round v false false d later out h = refl
round v true true true later out h = ap (λ o. or_else o (some v)) (h refl).1
round v true false false later out h = refl
round v true true false later out h = absurd (let e = (h refl).0 in cc)
round v true false true later out h = absurd (let e = (h refl).0 in cc)

lookup-if :
    (k k' v : Bytes) (c : Bool) (out : Meta)
    → lookup k (if c then put k' v out else out)
      ≡ (if c then (if equal k' k then some v else lookup k out) else lookup k out)
unfolding lookup
lookup-if k k' v true out = refl
lookup-if k k' v false out = refl

lookup-copy_allowed :
    (k : Bytes) (entries out : Meta)
    → IsMap entries
    → lookup k (copy_allowed entries out) ≡ or_else (if_fine k (lookup k entries)) (lookup k out)
unfolding copy_allowed lookup
lookup-copy_allowed k [] out h = sym (fine_none (is_fine (check_key k)) (lookup k out))
lookup-copy_allowed k ((k', v) ∷ entries) out h =
    lookup-copy_allowed k entries (if is_fine (check_key k') then put k' v out else out) h.1
    ∙ ap (or_else (if_fine k (lookup k entries))) (lookup-if k k' v (is_fine (check_key k')) out)
    ∙ round v (equal k' k) (is_fine (check_key k')) (is_fine (check_key k)) (lookup k entries)
        (lookup k out)
        (λ e.
          let same : k' ≡ k = (equal_iff k' k).0 e in
          (
            ap (λ key. is_fine (check_key key)) same,
            ap (λ key. lookup key entries) (sym same) ∙ h.0,
          ))

-- A key of the merged metadata reads as the platform set it; if the platform did not, as the user
-- set it, provided that the key is not reserved.
pub lookup-merge_allowed :
    (k : Bytes) (user platform : Meta)
    → IsMap user
    → IsMap platform
    → lookup k (merge_allowed user platform)
      ≡ or_else (lookup k platform) (if_fine k (lookup k user))
unfolding merge_allowed lookup
lookup-merge_allowed k user platform h h' =
    lookup-copy_all k platform (copy_allowed user []) h'
    ∙ ap (or_else (lookup k platform))
        (lookup-copy_allowed k user [] h ∙ none_behind (if_fine k (lookup k user)))
