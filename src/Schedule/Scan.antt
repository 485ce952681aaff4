-- ===== src/Schedule/Scan.antt =====
-- The backward scan of `lastOf`, over one schedule and over several.
use waas.Prelude.{
  ℕ, zero, suc, ◌+◌, ◌-◌, ◌*◌, ◌<◌, ◌≤◌, ◌≡◌, refl, ◌∙◌, ap, sym, ◌≢◌, inl, inr, true, false, ◌||◌,
  List, [], ◌∷◌, ◌++◌, Option, none, some, arith, ltb, Bool-cases, ltb→lt,
}
use mathlib.Core.Path.{subst}
use waas.Schedule.{
  Cron, zero_time, is_zero_time, minute, scan_horizon, max_scans, scan_fires, last_from, last_of,
}
use waas.Schedule.Laws.{CronLaws}

not_after : (a b : ℕ) → (a < b → ⊥) → b ≤ a
not_after a b h = elim (Bool-cases (ltb a b)) [
  | inl e ↦ absurd (h (ltb→lt a b e))
  | inr e ↦ ground arith
]

module _ (cron : Cron) (laws : CronLaws cron) where
  open cron use {CronSchedule, Location, next}
  open laws use {
    Fires, reach, reach_horizon, next-fires, next-after, next-found, next-least, minutes_apart,
  }

  -- The latest activation after `lo`, up to `t`.
  abbrev pub IsLatest : CronSchedule → Location → ℕ → ℕ → Option ℕ → Type 0
  IsLatest sc loc lo t none = (v : ℕ) → Fires sc loc v → lo < v → v ≤ t → ⊥
  IsLatest sc loc lo t (some u) =
      Fires sc loc u × (lo < u) × (u ≤ t) × ((v : ℕ) → Fires sc loc v → v ≤ t → v ≤ u)

  -- When the scan stops at `cur`, no activation lies between `cur` and `t`.
  stopped :
      (sc : CronSchedule) (loc : Location) (t cur v : ℕ)
      → (is_zero_time (next sc loc cur) || ltb t (next sc loc cur)) ≡ true
      → t ≤ cur + reach
      → Fires sc loc v
      → cur < v
      → v ≤ t
      → ⊥
  stopped sc loc t cur v stop near fv lt le =
      let found = next-found sc loc cur v fv lt (omega arith) in
      let least = next-least sc loc cur v fv lt (omega arith) in ground arith

  -- When it goes on, it goes on to an activation not after `t`.
  went_on :
      (sc : CronSchedule) (loc : Location) (t cur : ℕ)
      → (is_zero_time (next sc loc cur) || ltb t (next sc loc cur)) ≡ false
      → (next sc loc cur ≢ zero_time) × (next sc loc cur ≤ t)
  went_on sc loc t cur go = (λ e. ground arith, ground arith)

  -- From an activation on, the scan ends at the last one, if the rounds cover the time left.
  scan_from_fire :
      (sc : CronSchedule) (loc : Location) (t i cur : ℕ)
      → Fires sc loc cur
      → cur ≤ t
      → t < cur + i * minute
      → t ≤ cur + reach
      → (u : ℕ) × (scan_fires cron sc loc t i cur (some cur) ≡ some u)
        × Fires sc loc u
        × (cur ≤ u)
        × (u ≤ t)
        × ((v : ℕ) → Fires sc loc v → v ≤ t → v ≤ u)
  unfolding scan_fires
  scan_from_fire sc loc t zero cur fires le room near = absurd (omega arith)
  scan_from_fire sc loc t (suc i) cur fires le room near =
      elim (Bool-cases (is_zero_time (next sc loc cur) || ltb t (next sc loc cur))) [
        | inl stop ↦ (
          cur,
          rw stop,
          fires,
          omega arith,
          le,
          λ v fv vt. not_after cur v (λ lt. stopped sc loc t cur v stop near fv lt vt),
        )
        | inr go ↦
            let n = next sc loc cur in
            let (ne, nt) = went_on sc loc t cur go in
            let fn : Fires sc loc n = next-fires sc loc cur ne in
            let after : cur < n = next-after sc loc cur ne in
            let apart : cur + minute ≤ n = minutes_apart sc loc cur n fires fn after in
            let (u, e, fu, nu, ut, all) =
              scan_from_fire sc loc t i n fn nt (omega arith) (omega arith) in
            (u, rw go e, fu, omega arith, ut, all)
      ]

  -- From the start of the window, with the result so far for the case that nothing fires.
  scan_start :
      (sc : CronSchedule) (loc : Location) (t i cur : ℕ)
      → cur ≤ t
      → t < cur + i * minute
      → t ≤ cur + reach
      → (o : Option ℕ) × (scan_fires cron sc loc t (suc i) cur none ≡ o) × IsLatest sc loc cur t o
  unfolding scan_fires
  scan_start sc loc t i cur le room near =
      elim (Bool-cases (is_zero_time (next sc loc cur) || ltb t (next sc loc cur))) [
        | inl stop ↦ (none, rw stop refl, λ v fv lt vt. stopped sc loc t cur v stop near fv lt vt)
        | inr go ↦
            let n = next sc loc cur in
            let (ne, nt) = went_on sc loc t cur go in
            let fn : Fires sc loc n = next-fires sc loc cur ne in
            let after : cur < n = next-after sc loc cur ne in
            let (u, e, fu, nu, ut, all) =
              scan_from_fire sc loc t i n fn nt (omega arith) (omega arith) in
            (some u, rw go e, (fu, omega arith, ut, all))
      ]

  last_of_scan :
      (sc : CronSchedule) (loc : Location) (t : ℕ)
      → last_of cron loc (sc ∷ []) t ≡ scan_fires cron sc loc t max_scans (t - scan_horizon) none
  unfolding last_of last_from
  last_of_scan sc loc t = refl

  -- Over one schedule the backward scan is exact: it returns the latest activation in the eight days
  -- up to `t`, and nothing only if there is none. Its 200000 rounds are always enough.
  pub last_of-IsLatest :
      (sc : CronSchedule) (loc : Location) (t : ℕ)
      → zero_time ≤ t
      → IsLatest sc loc (t - scan_horizon) t (last_of cron loc (sc ∷ []) t)
  last_of-IsLatest sc loc t z =
      let (o, e, latest) =
        scan_start sc loc t 199999 (t - scan_horizon) (omega arith) (omega arith) (omega arith) in
      subst (IsLatest sc loc (t - scan_horizon) t) (sym (last_of_scan sc loc t ∙ e)) latest

  pub latest_unique :
      (sc : CronSchedule) (loc : Location) (lo t : ℕ) (o o' : Option ℕ)
      → IsLatest sc loc lo t o
      → IsLatest sc loc lo t o'
      → o ≡ o'
  latest_unique sc loc lo t none none h k = refl
  latest_unique sc loc lo t none (some u) h k = absurd (h u k.0 k.1 k.2)
  latest_unique sc loc lo t (some u) none h k = absurd (k u h.0 h.1 h.2)
  latest_unique sc loc lo t (some u) (some v) h k =
      let p = h.3 v k.0 k.2 in let q = k.3 u h.0 h.2 in ap some (omega arith)

abbrev pub or_else : Option ℕ → Option ℕ → Option ℕ
or_else none last = last
or_else (some u) last = some u

module _ (cron : Cron) where
  open cron use {CronSchedule, Location, next}

  scan_some :
      (sc : CronSchedule) (loc : Location) (t i cur a : ℕ)
      → (u : ℕ) × (scan_fires cron sc loc t i cur (some a) ≡ some u)
  unfolding scan_fires
  scan_some sc loc t zero cur a = (a, refl)
  scan_some sc loc t (suc i) cur a =
      elim (Bool-cases (is_zero_time (next sc loc cur) || ltb t (next sc loc cur))) [
        | inl stop ↦ (a, rw stop refl)
        | inr go ↦
            let (u, e) = scan_some sc loc t i (next sc loc cur) (next sc loc cur) in (u, rw go e)
      ]

  scan_fires-or_else :
      (sc : CronSchedule) (loc : Location) (t i cur : ℕ) (last : Option ℕ)
      → scan_fires cron sc loc t i cur last ≡ or_else (scan_fires cron sc loc t i cur none) last
  unfolding scan_fires
  scan_fires-or_else sc loc t zero cur last = refl
  scan_fires-or_else sc loc t (suc i) cur last =
      let n = next sc loc cur in
      elim (Bool-cases (is_zero_time n || ltb t n)) [
        | inl stop ↦ rw stop refl
        | inr go ↦
            let (u, e) = scan_some sc loc t i n n in rw go (e ∙ ap (λ o. or_else o last) (sym e))
      ]

  last_from-append :
      (loc : Location) (t bound : ℕ) (last : Option ℕ) (scs more : List CronSchedule)
      → last_from cron loc t bound last (scs ++ more)
        ≡ last_from cron loc t bound (last_from cron loc t bound last scs) more
  unfolding last_from
  last_from-append loc t bound last [] more = refl
  last_from-append loc t bound last (sc ∷ scs) more =
      last_from-append loc t bound (scan_fires cron sc loc t bound (t - scan_horizon) last) scs more

  -- Over several schedules the scan returns what it finds over the last schedule of the list that
  -- fired at all in the window, whichever of them fired latest.
  pub last_of-append :
      (loc : Location) (t : ℕ) (scs : List CronSchedule) (sc : CronSchedule)
      → last_of cron loc (scs ++ sc ∷ []) t
        ≡ or_else (last_of cron loc (sc ∷ []) t) (last_of cron loc scs t)
  unfolding last_of
  last_of-append loc t scs sc =
      last_from-append loc t max_scans none scs (sc ∷ [])
      ∙ unfold last_from in
        scan_fires-or_else sc loc t max_scans (t - scan_horizon)
          (last_from cron loc t max_scans none scs)
