-- ===== src/Prelude/Strings.antt =====
-- Go strings and byte slices as lists of byte values, and what the code uses of `bytes` and `strings`.
use Prim.Native.Nat.{ℕ}
use Prim.Native.Char.{code}
use Prim.Native.String.{String}
use mathlib.Core.Path.{◌≡◌, refl}
use mathlib.Core.Logic.{◌↔◌}
use mathlib.Core.Bool.{Bool, true, false, ◌&&◌, ◌||◌}
use mathlib.Core.List.{List, [], ◌∷◌, ◌++◌}
use native.Mathlib.Omega.{arith}
use waas.Prelude.Tests.{◌==◌, ltb}

abbrev pub Bytes : Type 0
Bytes = List ℕ

-- The code points of a literal: its bytes, as every literal of the program is ASCII.
abbrev pub codes : String → Bytes
codes String.[] = []
codes (String.◌∷◌ c s) = code c ∷ codes s

-- Equality of strings.
unfoldable pub equal : Bytes → Bytes → Bool
equal [] [] = true
equal [] (y ∷ ys) = false
equal (x ∷ xs) [] = false
equal (x ∷ xs) (y ∷ ys) = x == y && equal xs ys

pub equal_sound : (xs ys : Bytes) → equal xs ys ≡ true → xs ≡ ys
unfolding equal
equal_sound [] [] h = refl
equal_sound [] (y ∷ ys) h = cc
equal_sound (x ∷ xs) [] h = cc
equal_sound (x ∷ xs) (y ∷ ys) h = ground (arith, equal_sound xs ys)

pub equal_refl : (xs : Bytes) → equal xs xs ≡ true
unfolding equal
equal_refl [] = refl
equal_refl (x ∷ xs) = ground (arith, equal_refl xs)

pub equal_iff : (xs ys : Bytes) → (equal xs ys ≡ true) ↔ (xs ≡ ys)
equal_iff xs ys = (equal_sound xs ys, λ e. rw e (equal_refl ys))

-- The order of strings: bytewise lexicographic.
unfoldable pub less : Bytes → Bytes → Bool
less xs [] = false
less [] (y ∷ ys) = true
less (x ∷ xs) (y ∷ ys) = ltb x y || (x == y && less xs ys)

-- `strings.HasPrefix(s, p)`, `bytes.HasPrefix`
unfoldable pub has_prefix : Bytes → Bytes → Bool
has_prefix s [] = true
has_prefix [] (y ∷ ys) = false
has_prefix (x ∷ xs) (y ∷ ys) = x == y && has_prefix xs ys

-- `strings.Contains(s, sub)`, `bytes.Contains`
unfoldable pub contains : Bytes → Bytes → Bool
unfolding has_prefix
contains [] sub = has_prefix [] sub
contains (x ∷ xs) sub = has_prefix (x ∷ xs) sub || contains xs sub

-- `slices.Contains(list, s)`
unfoldable pub member : List Bytes → Bytes → Bool
unfolding equal
member [] s = false
member (x ∷ xs) s = equal x s || member xs s

-- `strings.Join(list, sep)`
unfoldable pub join : Bytes → List Bytes → Bytes
join sep [] = []
join sep (x ∷ []) = x
join sep (x ∷ y ∷ ys) = x ++ (sep ++ join sep (y ∷ ys))

pub has_prefix-append : (p rest : Bytes) → has_prefix (p ++ rest) p ≡ true
unfolding has_prefix
has_prefix-append [] rest = refl
has_prefix-append (x ∷ xs) rest = ground (arith, has_prefix-append xs rest)

pub less_irrefl : (xs : Bytes) → less xs xs ≡ false
unfolding less
less_irrefl [] = refl
less_irrefl (x ∷ xs) = ground (arith, less_irrefl xs)

pub less_trans : (xs ys zs : Bytes) → less xs ys ≡ true → less ys zs ≡ true → less xs zs ≡ true
unfolding less
less_trans xs ys [] h k = cc
less_trans xs [] (z ∷ zs) h k = cc
less_trans [] (y ∷ ys) (z ∷ zs) h k = refl
less_trans (x ∷ xs) (y ∷ ys) (z ∷ zs) h k = ground (arith, less_trans xs ys zs)

-- Two strings of which neither is less are equal.
pub less_total : (xs ys : Bytes) → less xs ys ≡ false → less ys xs ≡ false → xs ≡ ys
unfolding less
less_total [] [] h k = refl
less_total [] (y ∷ ys) h k = cc
less_total (x ∷ xs) [] h k = cc
less_total (x ∷ xs) (y ∷ ys) h k = ground (arith, less_total xs ys)
