-- ===== src/Schedule/Rule.antt =====
-- What the recent activations say of whether a workspace is down.
use waas.Prelude.{
  ℕ, ◌-◌, ◌<◌, ◌≤◌, ◌≡◌, refl, ◌∙◌, ap, sym, true, false, [], ◌∷◌, Option, none, some, arith,
}
use mathlib.Core.Path.{subst, ap₂}
use waas.Schedule.{
  Cron, Spec, located, location, is_empty, zero_time, scan_horizon, last_of, decide_down,
  scheduled_down, parse_all,
}
use waas.Schedule.Laws.{CronLaws}
use waas.Schedule.Scan.{IsLatest, last_of-IsLatest, last_of-append, latest_unique, or_else}
use waas.Schedule.Edges.{located_branch}

module _ (cron : Cron) where
  open cron use {CronSchedule, Location}

  scheduled_down_lem :
      (s : Spec) (loc : Location) (t : ℕ)
      → is_empty s ≡ false
      → location cron s ≡ located loc
      → scheduled_down cron s t
        ≡ decide_down
            (last_of cron loc (parse_all cron s.uptime) t)
            (last_of cron loc (parse_all cron s.downtime) t)
  unfolding scheduled_down
  scheduled_down_lem s loc t some_cron zone =
      located_branch cron (is_empty s) (location cron s) loc
        (λ l.
          decide_down (last_of cron l (parse_all cron s.uptime) t)
            (last_of cron l (parse_all cron s.downtime) t))
        some_cron zone

module _ (cron : Cron) (laws : CronLaws cron) where
  open cron use {CronSchedule, Location}
  open laws use {Fires}

  -- Some activation of `sd` lies in the eight days up to `t`, and `sc` does not fire from it on.
  abbrev pub IsOff : CronSchedule → CronSchedule → Location → ℕ → Type 0
  IsOff sc sd loc t =
      (d : ℕ) × Fires sd loc d
      × (t - scan_horizon < d)
      × (d ≤ t)
      × ((u : ℕ) → Fires sc loc u → d ≤ u → u ≤ t → ⊥)

  decide_down-IsOff :
      (sc sd : CronSchedule) (loc : Location) (t : ℕ) (up down : Option ℕ)
      → IsLatest cron laws sc loc (t - scan_horizon) t up
      → IsLatest cron laws sd loc (t - scan_horizon) t down
      → ((decide_down up down ≡ some true) → IsOff sc sd loc t)
        × (IsOff sc sd loc t → decide_down up down ≡ some true)
  unfolding decide_down
  decide_down-IsOff sc sd loc t none none h k =
      (λ e. absurd (ground arith), λ (d, f, lo, le, quiet). absurd (k d f lo le))
  decide_down-IsOff sc sd loc t (some u) none h k =
      (λ e. absurd (ground arith), λ (d, f, lo, le, quiet). absurd (k d f lo le))
  decide_down-IsOff sc sd loc t none (some d) h k =
      (λ e. (d, k.0, k.1, k.2, λ u fu du ut. h u fu (let p = k.1 in omega arith) ut), λ _. refl)
  decide_down-IsOff sc sd loc t (some u) (some d) h k = (
    λ e. (d, k.0, k.1, k.2, λ v fv dv vt. let p = h.3 v fv vt in ground arith),
    λ (d', f, lo, le, quiet).
        let p = k.3 d' f le in let q = quiet u h.0 in let r = h.2 in ap some (ground arith),
  )

  -- With one uptime cron and one downtime cron, `ScheduledDown` reports down exactly if a downtime
  -- activation lies in the eight days before, and no uptime activation is at it or after it.
  pub scheduled_down-IsOff :
      (s : Spec) (loc : Location) (t : ℕ) (sc sd : CronSchedule)
      → is_empty s ≡ false
      → location cron s ≡ located loc
      → parse_all cron s.uptime ≡ sc ∷ []
      → parse_all cron s.downtime ≡ sd ∷ []
      → zero_time ≤ t
      → ((scheduled_down cron s t ≡ some true) → IsOff sc sd loc t)
        × (IsOff sc sd loc t → scheduled_down cron s t ≡ some true)
  scheduled_down-IsOff s loc t sc sd some_cron zone ups downs z =
      subst (λ o. ((o ≡ some true) → IsOff sc sd loc t) × (IsOff sc sd loc t → o ≡ some true))
        (sym (
          scheduled_down_lem cron s loc t some_cron zone
          ∙ ap₂ (λ x y. decide_down (last_of cron loc x t) (last_of cron loc y t)) ups downs))
        (decide_down-IsOff sc sd loc t (last_of cron loc (sc ∷ []) t) (last_of cron loc (sd ∷ []) t)
          (last_of-IsLatest cron laws sc loc t z) (last_of-IsLatest cron laws sd loc t z))

  -- With two uptime crons, the second of which fired last before the downtime cron did, and the first
  -- of which fired after it, `ScheduledDown` reports down: the latest uptime activation is overlooked.
  pub scheduled_down-overlooks :
      (s : Spec) (loc : Location) (t : ℕ) (first second sd : CronSchedule) (a b d : ℕ)
      → is_empty s ≡ false
      → location cron s ≡ located loc
      → parse_all cron s.uptime ≡ first ∷ second ∷ []
      → parse_all cron s.downtime ≡ sd ∷ []
      → zero_time ≤ t
      → IsLatest cron laws first loc (t - scan_horizon) t (some a)
      → IsLatest cron laws second loc (t - scan_horizon) t (some b)
      → IsLatest cron laws sd loc (t - scan_horizon) t (some d)
      → b < d
      → d < a
      → scheduled_down cron s t ≡ some true
  unfolding decide_down
  scheduled_down-overlooks s loc t first second sd a b d some_cron zone ups downs z is_a is_b is_d
        bd da =
      let lo : ℕ = t - scan_horizon in
      let e_b : last_of cron loc (second ∷ []) t ≡ some b =
        latest_unique cron laws second loc lo t _ _ (last_of-IsLatest cron laws second loc t z)
          is_b in
      let e_d : last_of cron loc (sd ∷ []) t ≡ some d =
        latest_unique cron laws sd loc lo t _ _ (last_of-IsLatest cron laws sd loc t z) is_d in
      let e : last_of cron loc (first ∷ second ∷ []) t ≡ some b =
        last_of-append cron loc t (first ∷ []) second
        ∙ ap (λ o. or_else o (last_of cron loc (first ∷ []) t)) e_b in
      scheduled_down_lem cron s loc t some_cron zone
      ∙ ap₂ (λ x y. decide_down (last_of cron loc x t) (last_of cron loc y t)) ups downs
      ∙ ap₂ decide_down e e_d
      ∙ ap some (ground arith)
