-- ===== src/Policy/Quota/Lighter.antt =====
-- The limits over lighter sets of siblings: some removed, some paused.
use waas.Prelude.{
  ℕ, ◌+◌, ◌<◌, ◌≤◌, ◌≡◌, refl, ◌∙◌, ap, Bool, true, false, not, ◌&&◌, List, [], ◌∷◌, Option, none,
  some, inl, inr, arith, if◌then◌else◌, length, Bool-cases,
}
use waas.Policy.{Reason, quota_exceeded, WorkspacePolicy, AggregateCaps}
use waas.Policy.Catalog.{WorkspaceImage}
use waas.Policy.Quota.{Quantities, Load}
use waas.Policy.Quota.Limits.{
  exceeds, deny_if, ◌then◌, over, count, is_live, is_running, runs, total, sum, check_count,
  check_running, check_aggregate, check_limits, check_image, check_per, check_known,
}

-- What the code relies on of quantities: `Cmp` orders them, and `Add` keeps the order.
pub record QuantityLaws (quantities : Quantities) : Type 0 where
  pub le_refl : (a : quantities.Q) → quantities.less a a ≡ false
  pub le_trans :
      (a b c : quantities.Q)
      → quantities.less b a ≡ false
      → quantities.less c b ≡ false
      → quantities.less c a ≡ false
  pub add_mono :
      (a b c : quantities.Q)
      → quantities.less b a ≡ false
      → quantities.less (quantities.add b c) (quantities.add a c) ≡ false
  pub add_grows :
      (a b : quantities.Q)
      → quantities.less b quantities.nothing ≡ false
      → quantities.less (quantities.add a b) a ≡ false

then-none : (a b : Option Reason) → (a then b) ≡ none → (a ≡ none) × (b ≡ none)
then-none none b h = (refl, h)
then-none (some r) b h = cc

none-then : (a b : Option Reason) → a ≡ none → b ≡ none → (a then b) ≡ none
none-then none b h k = k
none-then (some r) b h k = cc

deny_if-none : (b : Bool) (r : Reason) → deny_if b r ≡ none → b ≡ false
deny_if-none true r h = cc
deny_if-none false r h = refl

exceeds-lower :
    (n n' m : ℕ) → n ≤ n' → n' + 1 < 2147483648 → exceeds n' m ≡ false → exceeds n m ≡ false
exceeds-lower n n' m le short h = ground arith

module _ (quantities : Quantities) (laws : QuantityLaws quantities) where
  open quantities use {Q, nothing, add, less}
  open laws use {le_refl, le_trans, add_mono, add_grows}

  -- No amount of the load is negative.
  pub record IsWeight (o : Load Q) : Type 0 where
    pub cpu : less o.cpu nothing ≡ false
    pub memory : less o.memory nothing ≡ false
    pub storage : less o.storage nothing ≡ false

  -- `Lighter xs ys`: the siblings `ys`, of which some are gone and some are paused, are `xs`.
  pub data Lighter : List (Load Q) → List (Load Q) → Type 0 where
    no_siblings : Lighter [] []
    same : (o : Load Q) {xs ys : List (Load Q)} → Lighter xs ys → Lighter (o ∷ xs) (o ∷ ys)
    gone : (o : Load Q) {xs ys : List (Load Q)} → IsWeight o → Lighter xs ys → Lighter xs (o ∷ ys)
    now_paused :
        (o : Load Q) {xs ys : List (Load Q)}
        → IsWeight o
        → Lighter xs ys
        → Lighter (record o { paused = true } ∷ xs) (o ∷ ys)

  count-Lighter :
      (p : Load Q → Bool)
      → ((o : Load Q) → p o ≡ false → p (record o { paused = true }) ≡ false)
      → {xs ys : List (Load Q)} → Lighter xs ys
      → (count quantities p xs ≤ count quantities p ys) × (count quantities p ys ≤ length ys)
  unfolding count
  count-Lighter p k no_siblings = (omega arith, omega arith)
  count-Lighter p k (same o {xs} {ys} l) =
      let (a, b) = count-Lighter p k l in (ground arith, ground arith)
  count-Lighter p k (gone o {xs} {ys} w l) =
      let (a, b) = count-Lighter p k l in (ground arith, ground arith)
  count-Lighter p k (now_paused o {xs} {ys} w l) =
      let (a, b) = count-Lighter p k l in
      elim (Bool-cases (p o)) [
        | inl e ↦ (ground arith, ground arith)
        | inr e ↦ let e' = k o e in (ground arith, ground arith)
      ]

  total-Lighter :
      (p : Load Q → Bool) (field : Load Q → Q)
      → ((o : Load Q) → IsWeight o → less (field o) nothing ≡ false)
      → ((o : Load Q) → field (record o { paused = true }) ≡ field o)
      → ((o : Load Q) → p o ≡ false → p (record o { paused = true }) ≡ false)
      → {xs ys : List (Load Q)} → Lighter xs ys
      → (a b : Q) → less b a ≡ false
      → less (total quantities p field b ys) (total quantities p field a xs) ≡ false
  unfolding total
  total-Lighter p field w f k no_siblings a b h = h
  total-Lighter p field w f k (same o l) a b h =
      total-Lighter p field w f k l (if p o then add a (field o) else a)
        (if p o then add b (field o) else b)
        (elim (Bool-cases (p o)) [ inl e ↦ rw e (add_mono a b (field o) h) | inr e ↦ rw e h ])
  total-Lighter p field w f k (gone o v l) a b h =
      total-Lighter p field w f k l a (if p o then add b (field o) else b)
        (elim (Bool-cases (p o)) [
          | inl e ↦ rw e (le_trans a b (add b (field o)) h (add_grows b (field o) (w o v)))
          | inr e ↦ rw e h
        ])
  total-Lighter p field w f k (now_paused o v l) a b h =
      total-Lighter p field w f k l
        (if p (record o { paused = true }) then add a (field (record o { paused = true })) else a)
        (if p o then add b (field o) else b) (added (p o) (p (record o { paused = true })) (k o))
    where
      added :
          (x y : Bool)
          → (x ≡ false → y ≡ false)
          → less
              (if x then add b (field o) else b)
              (if y then add a (field (record o { paused = true })) else a)
            ≡ false
      added true true g =
          ap (λ q. less (add b (field o)) (add a q)) (f o) ∙ add_mono a b (field o) h
      added true false g = le_trans a b (add b (field o)) h (add_grows b (field o) (w o v))
      added false true g = absurd (let t = g refl in cc)
      added false false g = h

  over-lower :
      (cap : Option Q) (a b : Q)
      → less b a ≡ false
      → over quantities cap b ≡ false
      → over quantities cap a ≡ false
  over-lower none a b h k = refl
  over-lower (some m) a b h k = le_trans a b m h k

  deny_over-lower :
      (cap : Option Q) (a b : Q)
      → less b a ≡ false
      → deny_if (over quantities cap b) quota_exceeded ≡ none
      → deny_if (over quantities cap a) quota_exceeded ≡ none
  deny_over-lower cap a b h k =
      ap (λ t. deny_if t quota_exceeded)
        (over-lower cap a b h (deny_if-none (over quantities cap b) quota_exceeded k))

  sum-Lighter :
      (p : Load Q → Bool) (field : Load Q → Q) (load : Load Q)
      → ((o : Load Q) → IsWeight o → less (field o) nothing ≡ false)
      → ((o : Load Q) → field (record o { paused = true }) ≡ field o)
      → ((o : Load Q) → p o ≡ false → p (record o { paused = true }) ≡ false)
      → {xs ys : List (Load Q)} → Lighter xs ys
      → less (sum quantities p field load ys) (sum quantities p field load xs) ≡ false
  sum-Lighter p field load w f k {xs} {ys} l =
      with_load (p load) (total-Lighter p field w f k l nothing nothing (le_refl nothing))
    where
      with_load :
          (b : Bool)
          → less (total quantities p field nothing ys) (total quantities p field nothing xs) ≡ false
          → less
              (if b
                then add (total quantities p field nothing ys) (field load)
                else total quantities p field nothing ys)
              (if b
                then add (total quantities p field nothing xs) (field load)
                else total quantities p field nothing xs)
            ≡ false
      with_load true h = add_mono _ _ (field load) h
      with_load false h = h

  check_aggregate-Lighter :
      (c : Option (AggregateCaps Q)) (load : Load Q) {xs ys : List (Load Q)}
      → Lighter xs ys
      → check_aggregate quantities c load ys ≡ none
      → check_aggregate quantities c load xs ≡ none
  check_aggregate-Lighter none load l h = refl
  check_aggregate-Lighter (some c) load {xs} {ys} l h =
      let (cpu, rest) = then-none _ _ h in
      let (memory, storage) = then-none _ _ rest in
      none-then _ _
        (deny_over-lower c.cpu (sum quantities (runs quantities) (λ o. o.cpu) load xs)
          (sum quantities (runs quantities) (λ o. o.cpu) load ys)
          (sum-Lighter (runs quantities) (λ o. o.cpu) load (λ o w. w.cpu) (λ o. refl) (λ o e. refl)
            l)
          cpu)
        (none-then _ _
          (deny_over-lower c.memory (sum quantities (runs quantities) (λ o. o.memory) load xs)
            (sum quantities (runs quantities) (λ o. o.memory) load ys)
            (sum-Lighter (runs quantities) (λ o. o.memory) load (λ o w. w.memory) (λ o. refl)
              (λ o e. refl) l)
            memory)
          (deny_over-lower c.storage (sum quantities (λ _. true) (λ o. o.storage) load xs)
            (sum quantities (λ _. true) (λ o. o.storage) load ys)
            (sum-Lighter (λ _. true) (λ o. o.storage) load (λ o w. w.storage) (λ o. refl) (λ o e. e)
              l)
            storage))

  check_count-lower :
      (m : Option ℕ) (n n' : ℕ)
      → n ≤ n'
      → n' + 1 < 2147483648
      → check_count quantities m n' ≡ none
      → check_count quantities m n ≡ none
  check_count-lower none n n' le short h = refl
  check_count-lower (some m) n n' le short h =
      ap (λ t. deny_if t quota_exceeded)
        (exceeds-lower n n' m le short (deny_if-none (exceeds n' m) quota_exceeded h))

  check_running-Lighter :
      (m : Option ℕ) (load : Load Q) {xs ys : List (Load Q)}
      → Lighter xs ys
      → length ys + 1 < 2147483648
      → check_running quantities m load ys ≡ none
      → check_running quantities m load xs ≡ none
  check_running-Lighter none load l short h = refl
  check_running-Lighter (some m) load {xs} {ys} l short h =
      let (le, bound) = count-Lighter (is_running quantities) (λ o e. ground arith) l in
      ap (λ t. deny_if t quota_exceeded)
        (lower load.paused (exceeds (count quantities (is_running quantities) ys) m)
          (exceeds (count quantities (is_running quantities) xs) m)
          (deny_if-none _ quota_exceeded h)
          (exceeds-lower (count quantities (is_running quantities) xs)
            (count quantities (is_running quantities) ys) m le (omega arith)))
    where
      lower : (p y x : Bool) → (not p && y) ≡ false → (y ≡ false → x ≡ false) → (not p && x) ≡ false
      lower true y x e f = refl
      lower false y x e f = f e

  -- A workspace that fits with the user's other workspaces and retained volumes still fits when some
  -- of them are gone or paused: deleting and pausing never lead to a denial. (No amount is negative,
  -- and there are less than 2^31 - 1 of them.)
  pub check_limits-Lighter :
      (load : Load Q) (known : Bool) (img : WorkspaceImage Q) (pol : WorkspacePolicy Q)
      {xs ys : List (Load Q)}
      → Lighter xs ys
      → length ys + 1 < 2147483648
      → check_limits quantities load known img pol ys ≡ none
      → check_limits quantities load known img pol xs ≡ none
  unfolding check_limits
  check_limits-Lighter load known img pol {xs} {ys} l short h =
      let (counted, h1) = then-none _ _ h in
      let (running, h2) = then-none _ _ h1 in
      let (compute, h3) = then-none (check_known quantities known img pol) _ h2 in
      let (image, h4) = then-none (check_image quantities img.resources load) _ h3 in
      let (per, aggregate) = then-none (check_per quantities pol.limits.per_workspace load) _ h4 in
      let (le, bound) = count-Lighter (is_live quantities) (λ o e. e) l in
      none-then _ _
        (check_count-lower pol.limits.max_workspaces (count quantities (is_live quantities) xs)
          (count quantities (is_live quantities) ys) le
          (let b : count quantities (is_live quantities) ys ≤ length ys = bound in
            omega (b, short, arith))
          counted)
        (none-then _ _
          (check_running-Lighter pol.limits.max_running_workspaces load l short running)
          (none-then _ _ compute (
            none-then _ _ image
              (none-then _ _ per (check_aggregate-Lighter pol.limits.aggregate load l aggregate)))))
