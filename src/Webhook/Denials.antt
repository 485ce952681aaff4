-- ===== src/Webhook/Denials.antt =====
-- What it says that a check of the webhook denies nothing.
use waas.Prelude.{
  ◌≡◌, refl, ◌≢◌, inl, inr, Bool, true, false, not, List, [], ◌∷◌, Option, none, some, Bytes, arith,
  any, equal, equal_iff, Bool-cases, All,
}
use waas.Metakeys.{Meta}
use waas.Policy.{Reason}
use waas.Policy.Overrides.{annotation, ◌or◌}
use waas.Webhook.{Warning, Outcome, admitted, same_annotations, is_set, deny_if, after}

pub or-none : (a b : Option Reason) → (a or b) ≡ none → (a ≡ none) × (b ≡ none)
or-none none b h = (refl, h)
or-none (some r) b h = absurd cc

pub deny_if-none : (b : Bool) (r : Reason) → deny_if b r ≡ none → b ≡ false
deny_if-none true r h = absurd cc
deny_if-none false r h = refl

pub same : (x y : Bytes) (r : Reason) → deny_if (not (equal x y)) r ≡ none → x ≡ y
same x y r h = let b = deny_if-none (not (equal x y)) r h in (equal_iff x y).0 (ground arith)

pub is_set-none {ℓ} : {A : Type ℓ} (o : Option A) → is_set o ≡ false → o ≡ none
is_set-none none h = refl
is_set-none (some a) h = absurd cc

pub all_false {ℓ} :
    {A : Type ℓ} (p : A → Bool) (xs : List A) → any p xs ≡ false → All (λ x. p x ≡ false) xs
all_false p [] h = tt
all_false p (x ∷ xs) h = (ground arith, all_false p xs (ground arith))

pub kept_annotations :
    (ks : List Bytes) (now before : Meta)
    → same_annotations ks now before ≡ true
    → All (λ k. annotation k now ≡ annotation k before) ks
kept_annotations [] now before h = tt
kept_annotations (k ∷ ks) now before h = (
  (equal_iff (annotation k now) (annotation k before)).0 (ground arith),
  kept_annotations ks now before (ground arith),
)

pub unset : (x : Bytes) → x ≢ [] → equal x [] ≡ false
unset x h = elim (Bool-cases (equal x [])) [ inl t ↦ absurd (h ((equal_iff x []).0 t)) | inr t ↦ t ]

pub after-admitted :
    (o : Option Reason) (rest : Outcome) (ws : List Warning)
    → after o rest ≡ admitted ws
    → (o ≡ none) × (rest ≡ admitted ws)
after-admitted none rest ws h = (refl, h)
after-admitted (some r) rest ws h = absurd cc
