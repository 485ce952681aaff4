-- ===== src/Tests/Schedule.antt =====
-- A cron library of daily schedules, and workspaces that it starts and stops.
use waas.Prelude.{
  ℕ, ◌+◌, ◌-◌, ◌*◌, ◌/◌, ◌%◌, ◌<◌, ◌≤◌, ◌≡◌, refl, inl, inr, true, false, [], ◌∷◌, Option, none,
  some, Bytes, codes, arith, if◌then◌else◌, ltb,
}
use waas.Schedule.{
  Cron, Spec, scan_horizon, earlier_edge, last_of, next_edge, scheduled_down, decide_down, resolve,
  next_of, next_from, next_edge_of_kind, parse_all, validate, scan_fires, last_from, no_timezone,
}
use waas.Schedule.Laws.{CronLaws}
use waas.Schedule.Scan.{IsLatest}
use waas.Schedule.Edges.{crons_of, IsNextEdge, next_edge-IsNextEdge}
use waas.Schedule.Manual.{IsFirstAfter, resolve-IsFirstAfter}
use waas.Schedule.Rule.{IsOff, scheduled_down-IsOff, scheduled_down-overlooks}

abbrev hour : ℕ
hour = 3600000000000

abbrev day : ℕ
day = 86400000000000

abbrev from_zero : ℕ → ℕ
from_zero t = if ltb t 691200000000000 then 691200000000000 else t

abbrev daily_next : ℕ → ℕ → ℕ
daily_next at t =
    at % 86400000000000
    + 86400000000000 * ((from_zero t + 86400000000000 - at % 86400000000000) / 86400000000000)

-- "18" is every day at 18:00
abbrev parse_hour : Bytes → Option ℕ
parse_hour (a ∷ b ∷ []) = some ((10 * a + b - 528) * hour)
parse_hour _ = none

abbrev pub daily : Cron
daily = record {
  CronSchedule = ℕ;
  Location = Unit;
  parse = parse_hour;
  load_location = λ _. some tt;
  next = λ at _ t. daily_next at t;
}

daily_next-after : (at t : ℕ) → (t < daily_next at t) × (691200000000000 < daily_next at t)
daily_next-after at t = (ground arith, ground arith)

daily_next-least :
    (at t u : ℕ)
    → u % 86400000000000 ≡ at % 86400000000000
    → 691200000000000 < u
    → t < u
    → daily_next at t ≤ u
daily_next-least at t u e z lt = ground arith

daily_laws : CronLaws daily
daily_laws = record {
  Fires = λ at _ t. (t % 86400000000000 ≡ at % 86400000000000) × (691200000000000 < t);
  reach = 1000000000000000;
  reach_horizon = omega arith;
  next-fires = λ at _ t _. (omega arith, (daily_next-after at t).1);
  next-after = λ at _ t _. (daily_next-after at t).0;
  next-found = λ at _ t u f lt near. let p = (daily_next-after at t).1 in λ e. omega arith;
  next-least = λ at _ t u f lt near. daily_next-least at t u f.0 f.1 lt;
  minutes_apart = λ at _ t u f g lt. let p = f.0 in let q = g.0 in omega arith;
}

abbrev noon : ℕ
noon = 20 * 86400000000000 + 12 * 3600000000000

abbrev office : Spec
office = record { timezone = codes "UTC"; uptime = codes "08" ∷ []; downtime = codes "18" ∷ [] }

-- up at 18:00 and at 08:00, down at 12:00
abbrev two_uptimes : Spec
two_uptimes = record {
  timezone = codes "UTC";
  uptime = codes "18" ∷ codes "08" ∷ [];
  downtime = codes "12" ∷ [];
}

office_at_noon : scheduled_down daily office noon ≡ some false
unfolding scheduled_down parse_all last_of last_from scan_fires decide_down
office_at_noon = refl

office_later : scheduled_down daily office (noon + hour) ≡ some false
unfolding scheduled_down parse_all last_of last_from scan_fires decide_down
office_later = refl

no_zone :
    validate daily (record { timezone = []; uptime = codes "08" ∷ []; downtime = [] })
    ≡ some no_timezone
unfolding validate
no_zone = refl

-- a stop by hand at 11:00, in force until 08:00 of the next day
stopped_by_hand : (resolve daily office (noon + hour) true (some (noon - hour))).manual ≡ true
unfolding resolve next_edge next_edge_of_kind next_of next_from scheduled_down parse_all last_of
    last_from scan_fires decide_down
stopped_by_hand = refl

abbrev next_morning : ℕ
next_morning = 21 * 86400000000000 + 8 * 3600000000000

up_next_morning :
    IsFirstAfter daily daily_laws tt
      (crons_of daily daily_laws office true)
      (noon - hour)
      (some next_morning)
unfolding parse_all daily_laws
up_next_morning = (
  omega arith,
  omega arith,
  inl (omega arith, omega arith),
  λ u f lt. elim f [
    | inl h ↦ daily_next-least (8 * hour) (noon - hour) u h.0 h.1 lt
    | inr never ↦ elim never [ ]
  ],
)

resolve-IsFirstAfter_example :
    ((resolve daily office (noon + hour) true (some (noon - hour))).manual ≡ true)
    × ((resolve daily office (noon + hour) true (some (noon - hour))).down ≡ true)
resolve-IsFirstAfter_example =
    resolve-IsFirstAfter daily daily_laws office tt (noon + hour) (noon - hour) true false
      (some next_morning) refl office_later up_next_morning

evening_edge : next_edge daily office noon ≡ some (record { time = noon + 6 * hour; up = false })
unfolding next_edge earlier_edge next_of next_from parse_all
evening_edge = refl

next_edge-IsNextEdge_example :
    IsNextEdge daily daily_laws office tt noon (next_edge daily office noon)
next_edge-IsNextEdge_example = next_edge-IsNextEdge daily daily_laws office tt noon refl refl

office_ups : parse_all daily office.uptime ≡ 8 * hour ∷ []
unfolding parse_all
office_ups = refl

office_downs : parse_all daily office.downtime ≡ 18 * hour ∷ []
unfolding parse_all
office_downs = refl

scheduled_down-IsOff_example :
    ((scheduled_down daily office noon ≡ some true)
      → IsOff daily daily_laws (8 * hour) (18 * hour) tt noon)
    × (IsOff daily daily_laws (8 * hour) (18 * hour) tt noon
        → scheduled_down daily office noon ≡ some true)
scheduled_down-IsOff_example =
    scheduled_down-IsOff daily daily_laws office tt noon (8 * hour) (18 * hour) refl refl office_ups
      office_downs (omega arith)

IsLatest-daily :
    (h : ℕ)
    → h < 20
    → IsLatest daily daily_laws
        (h * hour)
        tt
        (noon + 8 * hour - scan_horizon)
        (noon + 8 * hour)
        (some (20 * 86400000000000 + h * hour))
unfolding daily_laws
IsLatest-daily h le =
    ((omega arith, omega arith), omega arith, omega arith, λ v f lt. let p = f.0 in omega arith)

two_ups : parse_all daily two_uptimes.uptime ≡ 18 * hour ∷ 8 * hour ∷ []
unfolding parse_all
two_ups = refl

one_down : parse_all daily two_uptimes.downtime ≡ 12 * hour ∷ []
unfolding parse_all
one_down = refl

-- At 20:00 it is down, though it was started at 18:00.
scheduled_down-overlooks_example : scheduled_down daily two_uptimes (noon + 8 * hour) ≡ some true
scheduled_down-overlooks_example =
    scheduled_down-overlooks daily daily_laws two_uptimes tt (noon + 8 * hour) (18 * hour)
      (8 * hour) (12 * hour) (20 * 86400000000000 + 18 * hour) (20 * 86400000000000 + 8 * hour)
      (20 * 86400000000000 + 12 * hour) refl refl two_ups one_down (omega arith)
      (IsLatest-daily 18 (omega arith)) (IsLatest-daily 8 (omega arith))
      (IsLatest-daily 12 (omega arith)) (omega arith) (omega arith)
