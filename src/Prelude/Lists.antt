-- ===== src/Prelude/Lists.antt =====
-- Lists measured by native numbers, under the library's names, and predicates over lists.
use Prim.Native.Nat.{ℕ, zero, suc, ◌+◌, ◌-◌, ◌≤◌}
use mathlib.Core.Path.{◌≡◌, refl, ap, ◌∙◌, sym, subst}
use mathlib.Core.Bool.{Bool, true, false, ◌||◌}
use mathlib.Core.List.{List, [], ◌∷◌, ◌++◌}
use mathlib.Core.Logic.{◌⊎◌, ◌↔◌, inl, inr}
use native.Mathlib.Omega.{arith}
use waas.Prelude.Tests.{if◌then◌else◌, Bool-cases}

-- Membership, as a place in the list.
abbrev pub In : {A : Type 0} → A → List A → Type 0
In x [] = ⊥
In x (y ∷ ys) = (x ≡ y) ⊎ In x ys

module _ {ℓ} {A : Type ℓ} where
  abbrev pub length : List A → ℕ
  length [] = 0
  length (x ∷ xs) = suc (length xs)

  abbrev pub take : ℕ → List A → List A
  take zero xs = []
  take (suc n) [] = []
  take (suc n) (x ∷ xs) = x ∷ take n xs

  abbrev pub drop : ℕ → List A → List A
  drop zero xs = xs
  drop (suc n) [] = []
  drop (suc n) (x ∷ xs) = drop n xs

  abbrev pub any : (A → Bool) → List A → Bool
  any p [] = false
  any p (x ∷ xs) = p x || any p xs

  abbrev pub keep : (A → Bool) → List A → List A
  keep p [] = []
  keep p (x ∷ xs) = let rest = keep p xs in if p x then x ∷ rest else rest

  pub length-append : (xs ys : List A) → length (xs ++ ys) ≡ length xs + length ys
  length-append [] ys = omega arith
  length-append (x ∷ xs) ys = omega (arith, length-append xs ys)

  pub take-append_length : (xs ys : List A) → take (length xs) (xs ++ ys) ≡ xs
  take-append_length [] ys = refl
  take-append_length (x ∷ xs) ys = ap (◌∷◌ x) (take-append_length xs ys)

  pub drop-append_length : (xs ys : List A) → drop (length xs) (xs ++ ys) ≡ ys
  drop-append_length [] ys = refl
  drop-append_length (x ∷ xs) ys = drop-append_length xs ys

  pub take-append_le : (k : ℕ) (xs ys : List A) → k ≤ length xs → take k (xs ++ ys) ≡ take k xs
  take-append_le zero xs ys h = refl
  take-append_le (suc k) [] ys h = absurd (omega arith)
  take-append_le (suc k) (x ∷ xs) ys h = ap (◌∷◌ x) (take-append_le k xs ys (omega arith))

  pub take-append_ge :
      (k : ℕ) (xs ys : List A) → length xs ≤ k → take k (xs ++ ys) ≡ xs ++ take (k - length xs) ys
  take-append_ge k [] ys h = ap (λ n. take n ys) (omega arith)
  take-append_ge zero (x ∷ xs) ys h = absurd (omega arith)
  take-append_ge (suc k) (x ∷ xs) ys h =
      ap (◌∷◌ x) (take-append_ge k xs ys (omega arith) ∙ ap (λ n. xs ++ take n ys) (omega arith))

  pub take_all : (k : ℕ) (xs : List A) → length xs ≤ k → take k xs ≡ xs
  take_all k [] h = take_nil k
    where
      take_nil : (k : ℕ) → take k [] ≡ []
      take_nil zero = refl
      take_nil (suc k) = refl
  take_all zero (x ∷ xs) h = absurd (omega arith)
  take_all (suc k) (x ∷ xs) h = ap (◌∷◌ x) (take_all k xs (omega arith))

  pub length-take_le : (k : ℕ) (xs : List A) → k ≤ length xs → length (take k xs) ≡ k
  length-take_le zero xs h = refl
  length-take_le (suc k) [] h = absurd (omega arith)
  length-take_le (suc k) (x ∷ xs) h = ap suc (length-take_le k xs (omega arith))

  pub length-drop : (n : ℕ) (xs : List A) → length (drop n xs) ≡ length xs - n
  length-drop zero xs = omega arith
  length-drop (suc n) [] = omega arith
  length-drop (suc n) (x ∷ xs) = omega (arith, length-drop n xs)

  pub take-append-drop : (n : ℕ) (xs : List A) → take n xs ++ drop n xs ≡ xs
  take-append-drop zero xs = refl
  take-append-drop (suc n) [] = refl
  take-append-drop (suc n) (x ∷ xs) = rw (take-append-drop n xs)

abbrev pub All {ℓ κ} : {A : Type ℓ} → (A → Type κ) → List A → Type κ
All P [] = Unit
All P (x ∷ xs) = P x × All P xs

pub All-append {ℓ κ} :
    {A : Type ℓ} (P : A → Type κ) (xs ys : List A) → All P xs → All P ys → All P (xs ++ ys)
All-append P [] ys hx hy = hy
All-append P (x ∷ xs) ys hx hy = (hx.0, All-append P xs ys hx.1 hy)

module _ {A : Type 0} where
  pub In-All : (P : A → Type 0) (x : A) (xs : List A) → All P xs → In x xs → P x
  In-All P x [] h k = elim k [ ]
  In-All P x (y ∷ ys) h k = elim k [
    | inl e ↦ subst P (sym e) h.0
    | inr there ↦ In-All P x ys h.1 there
  ]

  pub In-keep : (f : A → Bool) (x : A) (xs : List A) → In x (keep f xs) ↔ (In x xs × (f x ≡ true))
  In-keep f x [] = (λ h. elim h [ ], λ h. h.0)
  In-keep f x (y ∷ ys) =
      let (there, back) = In-keep f x ys in
      elim (Bool-cases (f y)) [
        | inl e ↦ rw e (
            (
              λ h. elim h [
                | inl a ↦ (inl a, ap f a ∙ e)
                | inr b ↦ let (i, t) = there b in (inr i, t)
              ],
              λ h. elim h.0 [ inl a ↦ inl a | inr b ↦ inr (back (b, h.1)) ],
            ))
        | inr e ↦ rw e (
            (
              λ h. let (i, t) = there h in (inr i, t),
              λ h. elim h.0 [
                | inl a ↦ absurd (let t = h.1 in let s = ap f a in cc)
                | inr b ↦ back (b, h.1)
              ],
            ))
      ]
