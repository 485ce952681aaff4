-- ===== src/Schedule.antt =====
-- operator/pkg/schedule/schedule.go: the uptime and downtime crons of a workspace.
-- A time is a number of nanoseconds, counted from eight days before Go's zero time: so subtracting the
-- horizon of the backward scan is exact at every time from the zero time on. A location changes no
-- instant, it is handed on to the cron library. That library (robfig/cron) and the zone data are the
-- parameter `Cron`.
pub mod Laws
pub mod Scan
pub mod Edges
pub mod Rule
pub mod Manual
use waas.Prelude.{
  ℕ, zero, suc, ◌+◌, ◌-◌, ◌*◌, ◌<◌, ◌≤◌, ◌≡◌, ◌≢◌, Bool, true, false, not, ◌&&◌, ◌||◌, List, [],
  ◌∷◌, ◌++◌, Option, none, some, Bytes, if◌then◌else◌, ltb, ◌==◌,
}

abbrev pub minute : ℕ
minute = 60000000000

-- `8 * 24 * time.Hour`
abbrev pub scan_horizon : ℕ
scan_horizon = 691200000000000

-- `i < 200000`
abbrev pub max_scans : ℕ
max_scans = 200000

abbrev pub zero_time : ℕ
zero_time = scan_horizon

abbrev pub is_zero_time : ℕ → Bool
is_zero_time t = t == zero_time

-- What the code calls: `standardParser.Parse`, `time.LoadLocation`, and `Next`, which returns the
-- zero time if it finds no activation.
pub record Cron : Type 1 where
  pub CronSchedule : Type 0
  pub Location : Type 0
  pub parse : Bytes → Option CronSchedule
  pub load_location : Bytes → Option Location
  pub next : CronSchedule → Location → ℕ → ℕ

pub record Spec : Type 0 where
  pub timezone : Bytes
  pub uptime : List Bytes
  pub downtime : List Bytes

pub record Edge : Type 0 where
  pub time : ℕ
  pub up : Bool

pub record Decision : Type 0 where
  pub down : Bool
  pub manual : Bool
  pub next_edge : Option Edge

pub data ScheduleError : Type 0 where
  no_timezone : ScheduleError
  bad_timezone bad_cron : Bytes → ScheduleError

pub data Located (A : Type 0) : Type 0 where
  located : A → Located A
  failed : ScheduleError → Located A

abbrev is_nil : List Bytes → Bool
is_nil [] = true
is_nil (x ∷ xs) = false

-- `IsZero`
abbrev pub is_empty : Spec → Bool
is_empty s = is_nil s.uptime && is_nil s.downtime

-- `found && …` over two results, as in the switches of `ScheduledDown` and `NextEdge`
unfoldable pub decide_down : Option ℕ → Option ℕ → Option Bool
decide_down none none = none
decide_down (some up) none = some false
decide_down none (some down) = some true
decide_down (some up) (some down) = some (ltb up down)

unfoldable pub earlier_edge : Option ℕ → Option ℕ → Option Edge
earlier_edge none none = none
earlier_edge (some up) none = some (record { time = up; up = true })
earlier_edge none (some down) = some (record { time = down; up = false })
earlier_edge (some up) (some down) =
    if not (ltb down up)
    then some (record { time = up; up = true })
    else some (record { time = down; up = false })

-- `!found || n.Before(best)`
abbrev pub sooner : Option ℕ → ℕ → Option ℕ
sooner none n = some n
sooner (some best) n = if ltb n best then some n else some best

module _ (cron : Cron) where
  open cron use {CronSchedule, Location, parse, load_location, next}

  abbrev loaded : Bytes → Option Location → Located Location
  loaded timezone none = failed (bad_timezone timezone)
  loaded timezone (some loc) = located loc

  abbrev pub location_of : Bytes → Located Location
  location_of [] = failed no_timezone
  location_of (c ∷ name) = loaded (c ∷ name) (load_location (c ∷ name))

  -- `location`
  abbrev pub location : Spec → Located Location
  location s = location_of s.timezone

  unfoldable pub check_crons : List Bytes → Option ScheduleError
  check_crons [] = none
  check_crons (expr ∷ more) =
      let rest = check_crons more in
      elim (parse expr) [ none ↦ some (bad_cron expr) | some _ ↦ rest ]

  abbrev on_location : Located Location → Option ScheduleError → Option ScheduleError
  on_location (failed e) rest = some e
  on_location (located loc) rest = rest

  -- `Validate`; `none` is no error
  unfoldable pub validate : Spec → Option ScheduleError
  validate s =
      if is_empty s then none else on_location (location s) (check_crons (s.uptime ++ s.downtime))

  -- `parseAll`
  unfoldable pub parse_all : List Bytes → List CronSchedule
  parse_all [] = []
  parse_all (e ∷ more) =
      let rest = parse_all more in elim (parse e) [ none ↦ rest | some sc ↦ sc ∷ rest ]

  -- the loop of `nextOf`
  unfoldable pub next_from : Location → ℕ → Option ℕ → List CronSchedule → Option ℕ
  next_from loc t best [] = best
  next_from loc t best (sc ∷ more) =
      let n = next sc loc t in next_from loc t (if is_zero_time n then best else sooner best n) more

  -- `nextOf`
  unfoldable pub next_of : Location → List CronSchedule → ℕ → Option ℕ
  next_of loc scheds t = next_from loc t none scheds

  -- the inner loop of `lastOf`, over one schedule
  unfoldable pub scan_fires : CronSchedule → Location → ℕ → ℕ → ℕ → Option ℕ → Option ℕ
  scan_fires sc loc t zero cur last = last
  scan_fires sc loc t (suc i) cur last =
      let n = next sc loc cur in
      let rest = scan_fires sc loc t i n (some n) in
      if is_zero_time n || ltb t n then last else rest

  -- the loop of `lastOf` over the schedules; `i < 200000` bounds the inner loop
  unfoldable pub last_from : Location → ℕ → ℕ → Option ℕ → List CronSchedule → Option ℕ
  last_from loc t bound last [] = last
  last_from loc t bound last (sc ∷ more) =
      last_from loc t bound (scan_fires sc loc t bound (t - scan_horizon) last) more

  -- `lastOf`
  unfoldable pub last_of : Location → List CronSchedule → ℕ → Option ℕ
  last_of loc scheds t = last_from loc t max_scans none scheds

  abbrev pub at_location {ℓ} : {A : Type ℓ} → Located Location → (Location → Option A) → Option A
  at_location (failed e) f = none
  at_location (located loc) f = f loc

  -- `ScheduledDown`: `none` is `ok == false`
  unfoldable pub scheduled_down : Spec → ℕ → Option Bool
  scheduled_down s t =
      if is_empty s
      then none
      else at_location (location s) (λ loc.
        decide_down (last_of loc (parse_all s.uptime) t) (last_of loc (parse_all s.downtime) t))

  -- `NextEdge`
  unfoldable pub next_edge : Spec → ℕ → Option Edge
  next_edge s t =
      if is_empty s
      then none
      else at_location (location s) (λ loc.
        earlier_edge (next_of loc (parse_all s.uptime) t) (next_of loc (parse_all s.downtime) t))

  -- `nextEdgeOfKind`
  unfoldable pub next_edge_of_kind : Spec → ℕ → Bool → Option ℕ
  next_edge_of_kind s t want_up =
      at_location (location s)
        (λ loc. next_of loc (parse_all (if want_up then s.uptime else s.downtime)) t)

  -- is the manual action still before its opposite edge?
  abbrev pub manual_holds : Spec → ℕ → Bool → Option ℕ → Bool
  manual_holds s now paused none = false
  manual_holds s now paused (some at) = elim (next_edge_of_kind s at paused) [
    | none ↦ false
    | some opposite ↦ ltb now opposite
  ]

  abbrev pub with_opinion : Spec → ℕ → Bool → Option ℕ → Option Bool → Decision
  with_opinion s now paused at none = record {
    down = paused;
    manual = paused;
    next_edge = next_edge s now;
  }
  with_opinion s now paused at (some scheduled) =
      if manual_holds s now paused at
      then record { down = paused; manual = true; next_edge = next_edge s now }
      else record { down = scheduled; manual = false; next_edge = next_edge s now }

  -- `Resolve`
  unfoldable pub resolve : Spec → ℕ → Bool → Option ℕ → Decision
  resolve s now paused at = with_opinion s now paused at (scheduled_down s now)
