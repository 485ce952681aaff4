-- ===== src/Schedule/Laws.antt =====
-- What the code relies on from the cron library, as documented for standard five-field expressions.
use waas.Prelude.{ℕ, ◌+◌, ◌<◌, ◌≤◌, ◌≢◌}
use waas.Schedule.{Cron, zero_time, minute, scan_horizon}

-- `Fires s l t`: the schedule has an activation at `t`. `Next` returns an activation after its
-- argument, and the first one, if there is one within the library's search limit. Activations are
-- whole minutes apart.
pub record CronLaws (cron : Cron) : Type 1 where
  pub Fires : cron.CronSchedule → cron.Location → ℕ → Type 0
  pub reach : ℕ
  pub reach_horizon : scan_horizon ≤ reach
  pub next-fires :
      (s : cron.CronSchedule) (l : cron.Location) (t : ℕ)
      → cron.next s l t ≢ zero_time
      → Fires s l (cron.next s l t)
  pub next-after :
      (s : cron.CronSchedule) (l : cron.Location) (t : ℕ)
      → cron.next s l t ≢ zero_time
      → t < cron.next s l t
  pub next-found :
      (s : cron.CronSchedule) (l : cron.Location) (t u : ℕ)
      → Fires s l u
      → t < u
      → u ≤ t + reach
      → cron.next s l t ≢ zero_time
  pub next-least :
      (s : cron.CronSchedule) (l : cron.Location) (t u : ℕ)
      → Fires s l u
      → t < u
      → u ≤ t + reach
      → cron.next s l t ≤ u
  pub minutes_apart :
      (s : cron.CronSchedule) (l : cron.Location) (t u : ℕ)
      → Fires s l t
      → Fires s l u
      → t < u
      → t + minute ≤ u
