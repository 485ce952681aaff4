-- ===== src/Schedule/Edges.antt =====
-- The next edge against the activations of all the crons.
use waas.Prelude.{
  ℕ, ◌+◌, ◌<◌, ◌≤◌, ◌≡◌, ◌⊎◌, inl, inr, Bool, true, false, List, [], ◌∷◌, Option, none, some, All,
  arith, if◌then◌else◌, ltb, Bool-cases,
}
use mathlib.Core.Path.{subst, sym}
use waas.Schedule.{
  Cron, Spec, Edge, Located, located, failed, location, is_empty, is_zero_time, sooner, next_from,
  next_of, next_edge, earlier_edge, parse_all, at_location,
}
use waas.Schedule.Laws.{CronLaws}

-- A result is there and not after `u`.
abbrev pub Covers : Option ℕ → ℕ → Type 0
Covers none u = ⊥
Covers (some b) u = b ≤ u

abbrev pub IsAfter : ℕ → Option ℕ → Type 0
IsAfter t none = Unit
IsAfter t (some b) = t < b

sooner-Covers : (best : Option ℕ) (n u : ℕ) → Covers best u → Covers (sooner best n) u
sooner-Covers none n u h = elim h [ ]
sooner-Covers (some b) n u h = elim (Bool-cases (ltb n b)) [
  | inl e ↦ rw e (ground arith)
  | inr e ↦ rw e h
]

sooner-new : (best : Option ℕ) (n u : ℕ) → n ≤ u → Covers (sooner best n) u
sooner-new none n u h = h
sooner-new (some b) n u h = elim (Bool-cases (ltb n b)) [
  | inl e ↦ rw e h
  | inr e ↦ rw e (ground arith)
]

sooner-IsAfter : (best : Option ℕ) (n t : ℕ) → IsAfter t best → t < n → IsAfter t (sooner best n)
sooner-IsAfter none n t h k = k
sooner-IsAfter (some b) n t h k = elim (Bool-cases (ltb n b)) [ inl e ↦ rw e k | inr e ↦ rw e h ]

-- The result, if there is one, is such a time.
abbrev pub IsA : (ℕ → Type 0) → Option ℕ → Type 0
IsA P none = Unit
IsA P (some b) = P b

sooner-IsA : (P : ℕ → Type 0) (best : Option ℕ) (n : ℕ) → IsA P best → P n → IsA P (sooner best n)
sooner-IsA P none n h k = k
sooner-IsA P (some b) n h k = elim (Bool-cases (ltb n b)) [ inl e ↦ rw e k | inr e ↦ rw e h ]

-- the branch that all the evaluations take on a schedule with crons and a valid zone
pub located_branch {ℓ} :
    (cron : Cron) {A : Type ℓ} (empty : Bool) (l : Located cron.Location) (loc : cron.Location)
    (f : cron.Location → Option A)
    → empty ≡ false
    → l ≡ located loc
    → (if empty then none else at_location cron l f) ≡ f loc
located_branch cron true l loc f e z = cc
located_branch cron false (failed x) loc f e z = cc
located_branch cron false (located m) loc f e z = cc

module _ (cron : Cron) (laws : CronLaws cron) where
  open cron use {CronSchedule, Location, next}
  open laws use {Fires, reach, next-fires, next-after, next-found, next-least}

  -- The result is not after any activation of the schedule within the library's reach.
  abbrev pub IsFirst : Location → ℕ → Option ℕ → CronSchedule → Type 0
  IsFirst loc t o sc = (u : ℕ) → Fires sc loc u → t < u → u ≤ t + reach → Covers o u

  next_from-Covers :
      (loc : Location) (t : ℕ) (scs : List CronSchedule) (best : Option ℕ) (u : ℕ)
      → Covers best u
      → Covers (next_from cron loc t best scs) u
  unfolding next_from
  next_from-Covers loc t [] best u h = h
  next_from-Covers loc t (sc ∷ scs) best u h =
      next_from-Covers loc t scs
        (if is_zero_time (next sc loc t) then best else sooner best (next sc loc t)) u
        (elim (Bool-cases (is_zero_time (next sc loc t))) [
          | inl e ↦ rw e h
          | inr e ↦ rw e (sooner-Covers best (next sc loc t) u h)
        ])

  next_from-IsFirst :
      (loc : Location) (t : ℕ) (scs : List CronSchedule) (best : Option ℕ)
      → All (IsFirst loc t (next_from cron loc t best scs)) scs
  unfolding next_from
  next_from-IsFirst loc t [] best = tt
  next_from-IsFirst loc t (sc ∷ scs) best = (
    λ u fires after near.
        next_from-Covers loc t scs
          (if is_zero_time (next sc loc t) then best else sooner best (next sc loc t)) u
          (elim (Bool-cases (is_zero_time (next sc loc t))) [
            | inl e ↦ absurd (next-found sc loc t u fires after near (ground arith))
            | inr e ↦
                rw e (sooner-new best (next sc loc t) u (next-least sc loc t u fires after near))
          ]),
    next_from-IsFirst loc t scs
        (if is_zero_time (next sc loc t) then best else sooner best (next sc loc t)),
  )

  next_from-IsAfter :
      (loc : Location) (t : ℕ) (scs : List CronSchedule) (best : Option ℕ)
      → IsAfter t best
      → IsAfter t (next_from cron loc t best scs)
  unfolding next_from
  next_from-IsAfter loc t [] best h = h
  next_from-IsAfter loc t (sc ∷ scs) best h =
      next_from-IsAfter loc t scs
        (if is_zero_time (next sc loc t) then best else sooner best (next sc loc t))
        (elim (Bool-cases (is_zero_time (next sc loc t))) [
          | inl e ↦ rw e h
          | inr e ↦
              rw e
                (sooner-IsAfter best (next sc loc t) t h (next-after sc loc t (λ z. ground arith)))
        ])

  -- One of the schedules has an activation at `u`.
  abbrev pub FiresIn : Location → ℕ → List CronSchedule → Type 0
  FiresIn loc u [] = ⊥
  FiresIn loc u (sc ∷ scs) = Fires sc loc u ⊎ FiresIn loc u scs

  -- A result that was there before, or a new one that is an activation.
  next_from-IsActive :
      (P : ℕ → Type 0) (loc : Location) (t : ℕ) (scs : List CronSchedule) (best : Option ℕ)
      → ((u : ℕ) → FiresIn loc u scs → P u)
      → IsA P best
      → IsA P (next_from cron loc t best scs)
  unfolding next_from
  next_from-IsActive P loc t [] best h k = k
  next_from-IsActive P loc t (sc ∷ scs) best h k =
      next_from-IsActive P loc t scs
        (if is_zero_time (next sc loc t) then best else sooner best (next sc loc t))
        (λ u f. h u (inr f))
        (elim (Bool-cases (is_zero_time (next sc loc t))) [
          | inl e ↦ rw e k
          | inr e ↦ rw e (
              sooner-IsA P best (next sc loc t) k
                (h (next sc loc t) (inl (next-fires sc loc t (λ z. ground arith)))))
        ])

  -- `nextOf` returns an activation of one of its schedules after `t`, with no activation of any in between.
  pub next_of-IsFirst :
      (loc : Location) (scs : List CronSchedule) (t : ℕ)
      → IsAfter t (next_of cron loc scs t)
        × All (IsFirst loc t (next_of cron loc scs t)) scs
        × IsA (λ u. FiresIn loc u scs) (next_of cron loc scs t)
  unfolding next_of
  next_of-IsFirst loc scs t = (
    next_from-IsAfter loc t scs none tt,
    next_from-IsFirst loc t scs none,
    next_from-IsActive (λ u. FiresIn loc u scs) loc t scs none (λ u f. f) tt,
  )

  -- Every activation of the schedule within the library's reach is later than `b`.
  abbrev pub IsLater : Location → ℕ → ℕ → CronSchedule → Type 0
  IsLater loc t b sc = (u : ℕ) → Fires sc loc u → t < u → u ≤ t + reach → b < u

  -- the crons of an edge
  abbrev pub crons_of : Spec → Bool → List CronSchedule
  crons_of s true = parse_all cron s.uptime
  crons_of s false = parse_all cron s.downtime

  -- The edge is an activation of the crons of its kind after `t`, before which none of either kind fires; and a downtime
  -- edge is not at the time of an uptime activation.
  pub record IsEdge (s : Spec) (loc : Location) (t : ℕ) (e : Edge) : Type 0 where
    pub after : t < e.time
    pub fires : FiresIn loc e.time (crons_of s e.up)
    pub ups : All (IsFirst loc t (some e.time)) (parse_all cron s.uptime)
    pub downs : All (IsFirst loc t (some e.time)) (parse_all cron s.downtime)
    pub tie : e.up ≡ false → All (IsLater loc t e.time) (parse_all cron s.uptime)

  -- What `NextEdge` promises of its result.
  abbrev pub IsNextEdge : Spec → Location → ℕ → Option Edge → Type 0
  IsNextEdge s loc t none =
      All (IsFirst loc t none) (parse_all cron s.uptime)
      × All (IsFirst loc t none) (parse_all cron s.downtime)
  IsNextEdge s loc t (some e) = IsEdge s loc t e

  All-IsLater :
      (loc : Location) (t a b : ℕ) (scs : List CronSchedule)
      → a < b
      → All (IsFirst loc t (some b)) scs
      → All (IsLater loc t a) scs
  All-IsLater loc t a b [] lt h = tt
  All-IsLater loc t a b (sc ∷ scs) lt h =
      (λ u f p q. let k = h.0 u f p q in omega arith, All-IsLater loc t a b scs lt h.1)

  All-never :
      (loc : Location) (t a : ℕ) (scs : List CronSchedule)
      → All (IsFirst loc t none) scs
      → All (IsLater loc t a) scs
  All-never loc t a [] h = tt
  All-never loc t a (sc ∷ scs) h = (λ u f p q. absurd (h.0 u f p q), All-never loc t a scs h.1)

  All-later :
      (loc : Location) (t a b : ℕ) (scs : List CronSchedule)
      → a ≤ b
      → All (IsFirst loc t (some b)) scs
      → All (IsFirst loc t (some a)) scs
  All-later loc t a b [] le h = tt
  All-later loc t a b (sc ∷ scs) le h =
      (λ u f p q. let k = h.0 u f p q in omega arith, All-later loc t a b scs le h.1)

  All-none :
      (loc : Location) (t a : ℕ) (scs : List CronSchedule)
      → All (IsFirst loc t none) scs
      → All (IsFirst loc t (some a)) scs
  All-none loc t a [] h = tt
  All-none loc t a (sc ∷ scs) h = (λ u f p q. absurd (h.0 u f p q), All-none loc t a scs h.1)

  earlier_edge-IsNextEdge :
      (s : Spec) (loc : Location) (t : ℕ) (up down : Option ℕ)
      → IsAfter t up
        × All (IsFirst loc t up) (parse_all cron s.uptime)
        × IsA (λ u. FiresIn loc u (parse_all cron s.uptime)) up
      → IsAfter t down
        × All (IsFirst loc t down) (parse_all cron s.downtime)
        × IsA (λ u. FiresIn loc u (parse_all cron s.downtime)) down
      → IsNextEdge s loc t (earlier_edge up down)
  unfolding earlier_edge
  earlier_edge-IsNextEdge s loc t none none (a, h, x) (b, k, y) = (h, k)
  earlier_edge-IsNextEdge s loc t (some up) none (a, h, x) (b, k, y) = record {
    after = a;
    fires = x;
    ups = h;
    downs = All-none loc t up (parse_all cron s.downtime) k;
    tie = λ n. absurd cc;
  }
  earlier_edge-IsNextEdge s loc t none (some down) (a, h, x) (b, k, y) = record {
    after = b;
    fires = y;
    ups = All-none loc t down (parse_all cron s.uptime) h;
    downs = k;
    tie = λ n. All-never loc t down (parse_all cron s.uptime) h;
  }
  earlier_edge-IsNextEdge s loc t (some up) (some down) (a, h, x) (b, k, y) =
      elim (Bool-cases (ltb down up)) [
        | inl e ↦ rw e (record {
          after = b;
          fires = y;
          ups = All-later loc t down up (parse_all cron s.uptime) (ground arith) h;
          downs = k;
          tie = λ n. All-IsLater loc t down up (parse_all cron s.uptime) (ground arith) h;
        })
        | inr e ↦ rw e (record {
          after = a;
          fires = x;
          ups = h;
          downs = All-later loc t up down (parse_all cron s.downtime) (ground arith) k;
          tie = λ n. absurd cc;
        })
      ]

  -- With a valid zone, `NextEdge` returns an activation of a cron of the edge's own kind, after `t`, before which no uptime
  -- and no downtime cron fires within the library's reach; a downtime edge only if no uptime cron fires at that time within
  -- the reach. It returns none only if none of them fires within the reach.
  pub next_edge-IsNextEdge :
      (s : Spec) (loc : Location) (t : ℕ)
      → is_empty s ≡ false
      → location cron s ≡ located loc
      → IsNextEdge s loc t (next_edge cron s t)
  unfolding next_edge
  next_edge-IsNextEdge s loc t some_cron zone =
      subst (IsNextEdge s loc t)
        (sym (located_branch cron (is_empty s) (location cron s) loc _ some_cron zone))
        (earlier_edge-IsNextEdge s loc t (next_of cron loc (parse_all cron s.uptime) t)
          (next_of cron loc (parse_all cron s.downtime) t)
          (next_of-IsFirst loc (parse_all cron s.uptime) t)
          (next_of-IsFirst loc (parse_all cron s.downtime) t))
