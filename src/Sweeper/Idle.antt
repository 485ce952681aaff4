-- ===== src/Sweeper/Idle.antt =====
-- Which workspaces the idle sweeper pauses.
use waas.Prelude.{
  ℕ, ◌+◌, ◌≤◌, ◌<◌, ◌≡◌, refl, ◌↔◌, inl, inr, Bool, true, false, ◌||◌, List, Option, none, some,
  Bytes, if◌then◌else◌, arith, ◌==◌, Bool-cases,
}
use mathlib.Core.Path.{subst}
use waas.Policy.{WorkspacePolicy, resolve}
use waas.Policy.Objects.{Workspace}
use waas.Policy.Overrides.{identity_of}
use waas.Sweeper.{Activity, later_of, idle_since, has_idled, idle_limit, over_limit, should_pause}

-- No session is open, and the last one ended, or the workspace was made, at least that long ago.
abbrev pub IsUnused : Option Activity → ℕ → ℕ → ℕ → Type 0
IsUnused none created idle_after now = created + idle_after ≤ now
IsUnused (some act) created idle_after now =
    (act.active_now ≡ false) × (created + idle_after ≤ now) × (act.last_activity + idle_after ≤ now)

has_idled-IsUnused :
    (act : Option Activity) (created idle_after now : ℕ)
    → (has_idled (idle_since act created) idle_after now ≡ true)
      ↔ IsUnused act created idle_after now
has_idled-IsUnused none created idle_after now = (λ h. ground arith, λ h. ground arith)
has_idled-IsUnused (some act) created idle_after now = elim (Bool-cases act.active_now) [
  | inl e ↦ (λ h. absurd (let k = rw e at h in cc), λ h. absurd (let f = h.0 in cc))
  | inr e ↦ (λ h. by_later e (rw e at h), λ h. rw e (later (h.1) (h.2)))
]
  where
    by_later :
        act.active_now ≡ false
        → has_idled (some (later_of created act.last_activity)) idle_after now ≡ true
        → (act.active_now ≡ false)
          × (created + idle_after ≤ now)
          × (act.last_activity + idle_after ≤ now)
    by_later e h = (e, ground arith, ground arith)

    later :
        created + idle_after ≤ now
        → act.last_activity + idle_after ≤ now
        → has_idled (some (later_of created act.last_activity)) idle_after now ≡ true
    later h k = ground arith

module _ {Q : Type 0} where
  pub record IsIdle (policies : List (WorkspacePolicy Q)) (activity : Bytes → Option Activity)
      (now : ℕ) (ws : Workspace Q) : Type 0 where
    pub running : ws.paused ≡ false
    pub alive : ws.deleting ≡ false
    pub idle_after : ℕ
    pub allowed : idle_limit (resolve policies (identity_of ws)) ≡ some idle_after
    pub positive : 0 < idle_after
    pub unused : IsUnused (activity ws.uid) ws.created idle_after now

  -- The sweeper pauses a workspace exactly if it runs, is not being deleted, a policy with an idle limit governs it, no
  -- session is open on it, and its creation and its last activity lie at least the limit back.
  pub should_pause-IsIdle :
      (policies : List (WorkspacePolicy Q)) (activity : Bytes → Option Activity) (now : ℕ)
      (ws : Workspace Q)
      → (should_pause policies activity now ws ≡ true) ↔ IsIdle policies activity now ws
  unfolding should_pause
  should_pause-IsIdle policies activity now ws = (there, back)
    where
      over :
          (o : Option ℕ)
          → over_limit o (activity ws.uid) now ws ≡ true
          → (idle_after : ℕ) × (o ≡ some idle_after)
            × (0 < idle_after)
            × IsUnused (activity ws.uid) ws.created idle_after now
      over none h = absurd cc
      over (some n) h = elim (Bool-cases (n == 0)) [
        | inl z ↦ absurd (let k = rw z at h in cc)
        | inr z ↦ (
          n,
          refl,
          ground arith,
          (has_idled-IsUnused (activity ws.uid) ws.created n now).0 (rw z at h),
        )
      ]

      parts :
          (p d o : Bool)
          → (if p || d then false else o) ≡ true
          → (p ≡ false) × (d ≡ false) × (o ≡ true)
      parts true d o h = absurd cc
      parts false true o h = absurd cc
      parts false false o h = (refl, refl, h)

      there :
          (if ws.paused || ws.deleting
              then false
              else over_limit
                  (idle_limit (resolve policies (identity_of ws)))
                  (activity ws.uid)
                  now
                  ws)
            ≡ true
          → IsIdle policies activity now ws
      there h =
          let (p, d, o) =
            parts ws.paused ws.deleting
              (over_limit (idle_limit (resolve policies (identity_of ws))) (activity ws.uid) now ws)
              h in
          let (n, e, pos, u) = over (idle_limit (resolve policies (identity_of ws))) o in
          record { running = p; alive = d; idle_after = n; allowed = e; positive = pos; unused = u }

      join :
          (p d o : Bool) → p ≡ false → d ≡ false → o ≡ true → (if p || d then false else o) ≡ true
      join true d o h k e = absurd cc
      join false true o h k e = absurd cc
      join false false o h k e = e

      limited :
          (o : Option ℕ) (n : ℕ)
          → o ≡ some n
          → 0 < n
          → IsUnused (activity ws.uid) ws.created n now
          → over_limit o (activity ws.uid) now ws ≡ true
      limited none n e pos u = absurd cc
      limited (some m) n e pos u =
          let z : n == 0 ≡ false = ground arith in
          let same : n ≡ m = cc in
          subst (λ k. over_limit (some k) (activity ws.uid) now ws ≡ true) same
            (rw z ((has_idled-IsUnused (activity ws.uid) ws.created n now).1 u))

      back :
          IsIdle policies activity now ws
          → (if ws.paused || ws.deleting
              then false
              else over_limit
                  (idle_limit (resolve policies (identity_of ws)))
                  (activity ws.uid)
                  now
                  ws)
            ≡ true
      back h =
          join ws.paused ws.deleting
            (over_limit (idle_limit (resolve policies (identity_of ws))) (activity ws.uid) now ws)
            h.running h.alive
            (limited (idle_limit (resolve policies (identity_of ws))) h.idle_after h.allowed
              h.positive h.unused)
