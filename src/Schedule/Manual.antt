-- ===== src/Schedule/Manual.antt =====
-- How long a manual action wins over the schedule.
use waas.Prelude.{
  ℕ, ◌+◌, ◌<◌, ◌≤◌, ◌≡◌, refl, ◌∙◌, ap, inl, inr, Bool, true, false, List, [], ◌∷◌, Option, none,
  some, All, arith, if◌then◌else◌, ltb,
}
use waas.Schedule.{
  Cron, Spec, Decision, located, location, next_of, next_edge, next_edge_of_kind, scheduled_down,
  parse_all, at_location, manual_holds, with_opinion, resolve,
}
use waas.Schedule.Laws.{CronLaws}
use waas.Schedule.Edges.{Covers, IsAfter, IsA, IsFirst, FiresIn, crons_of, next_of-IsFirst}

-- Is `now` before the activation, if there is one?
abbrev pub before : ℕ → Option ℕ → Bool
before now none = false
before now (some u) = ltb now u

module _ (cron : Cron) (laws : CronLaws cron) where
  open cron use {CronSchedule, Location}
  open laws use {Fires, reach}

  -- The first activation after a time, within the library's reach; or there is none at all.
  abbrev pub IsFirstAfter : Location → List CronSchedule → ℕ → Option ℕ → Type 0
  IsFirstAfter loc scs at none = (u : ℕ) → FiresIn cron laws loc u scs → at < u → ⊥
  IsFirstAfter loc scs at (some opposite) =
      (at < opposite)
      × (opposite ≤ at + reach)
      × FiresIn cron laws loc opposite scs
      × ((u : ℕ) → FiresIn cron laws loc u scs → at < u → opposite ≤ u)

  All-FiresIn :
      (loc : Location) (t u : ℕ) (o : Option ℕ) (scs : List CronSchedule)
      → All (IsFirst cron laws loc t o) scs
      → FiresIn cron laws loc u scs
      → t < u
      → u ≤ t + reach
      → Covers o u
  All-FiresIn loc t u o [] h f p q = elim f [ ]
  All-FiresIn loc t u o (sc ∷ scs) h f p q = elim f [
    | inl x ↦ h.0 u x p q
    | inr x ↦ All-FiresIn loc t u o scs h.1 x p q
  ]

  next_of-IsFirstAfter :
      (loc : Location) (scs : List CronSchedule) (at : ℕ) (o : Option ℕ)
      → IsFirstAfter loc scs at o
      → next_of cron loc scs at ≡ o
  next_of-IsFirstAfter loc scs at o h =
      let (after, first, active) = next_of-IsFirst cron laws loc scs at in
      unique (next_of cron loc scs at) o after first active h
    where
      unique :
          (r o : Option ℕ)
          → IsAfter at r
          → All (IsFirst cron laws loc at r) scs
          → IsA (λ u. FiresIn cron laws loc u scs) r
          → IsFirstAfter loc scs at o
          → r ≡ o
      unique none none a f x k = refl
      unique none (some v) a f x k = absurd (All-FiresIn loc at v none scs f k.2 k.0 k.1)
      unique (some b) none a f x k = absurd (k b x a)
      unique (some b) (some v) a f x k =
          let le : b ≤ v = All-FiresIn loc at v (some b) scs f k.2 k.0 k.1 in
          let ge : v ≤ b = k.3 b x a in ap some (omega arith)

  next_edge_of_kind_lem :
      (s : Spec) (loc : Location) (at : ℕ) (want_up : Bool)
      → location cron s ≡ located loc
      → next_edge_of_kind cron s at want_up ≡ next_of cron loc (crons_of cron laws s want_up) at
  unfolding next_edge_of_kind
  next_edge_of_kind_lem s loc at true zone =
      ap (λ l. at_location cron l (λ m. next_of cron m (parse_all cron s.uptime) at)) zone
  next_edge_of_kind_lem s loc at false zone =
      ap (λ l. at_location cron l (λ m. next_of cron m (parse_all cron s.downtime) at)) zone

  -- While the schedule has an opinion, an action by hand at `at` wins over it exactly until the first activation of the
  -- opposite kind after `at` (of an uptime cron after a pause, of a downtime cron after a resume), if there is one within the
  -- library's reach: before it the workspace is as the user asked, and from it on as the schedule says. If no such cron fires
  -- after `at` at all, the schedule decides.
  pub resolve-IsFirstAfter :
      (s : Spec) (loc : Location) (now at : ℕ) (paused scheduled : Bool) (opposite : Option ℕ)
      → location cron s ≡ located loc
      → scheduled_down cron s now ≡ some scheduled
      → IsFirstAfter loc (crons_of cron laws s paused) at opposite
      → ((resolve cron s now paused (some at)).manual ≡ before now opposite)
        × ((resolve cron s now paused (some at)).down
            ≡ (if before now opposite then paused else scheduled))
  unfolding resolve
  resolve-IsFirstAfter s loc now at paused scheduled opposite zone e first =
      let edge : next_edge_of_kind cron s at paused ≡ opposite =
        next_edge_of_kind_lem s loc at paused zone
        ∙ next_of-IsFirstAfter loc (crons_of cron laws s paused) at opposite first in
      let holds : manual_holds cron s now paused (some at) ≡ before now opposite =
        held (next_edge_of_kind cron s at paused) ∙ ap (before now) edge in
      let same : resolve cron s now paused (some at) ≡ decided (before now opposite) =
        ap (with_opinion cron s now paused (some at)) e ∙ ap decided holds in
      (
        ap (λ r. r.manual) same ∙ manual_of (before now opposite),
        ap (λ r. r.down) same ∙ down_of (before now opposite),
      )
    where
      held :
          (o : Option ℕ)
          → (elim o as (λ _. Bool) [ none ↦ false | some opp ↦ ltb now opp ]) ≡ before now o
      held none = refl
      held (some opp) = refl

      decided : Bool → Decision
      decided b =
          if b
          then record { down = paused; manual = true; next_edge = next_edge cron s now }
          else record { down = scheduled; manual = false; next_edge = next_edge cron s now }

      manual_of : (b : Bool) → (decided b).manual ≡ b
      manual_of true = refl
      manual_of false = refl

      down_of : (b : Bool) → (decided b).down ≡ (if b then paused else scheduled)
      down_of true = refl
      down_of false = refl
