-- ===== src/Tests/Sweeper.antt =====
-- Runs of the sweepers.
use waas.Prelude.{
  ◌≡◌, refl, ◌↔◌, true, false, [], ◌∷◌, Option, none, some, Bytes, codes, equal, In, inl,
}
use waas.Sweeper.{Activity, should_pause, Session, orphan_of, is_live, end_orphans, sweep_sessions}
use waas.Sweeper.Idle.{IsIdle, should_pause-IsIdle}
use waas.Sweeper.Orphans.{IsGone, end_orphans-IsGone}
use waas.Tests.Governance.{own, everyone}

abbrev quiet : Bytes → Option Activity
quiet uid = some (record { active_now = false; last_activity = 1020 })

should_pause-IsIdle_example :
    (should_pause (everyone ∷ []) quiet 1070 own ≡ true) ↔ IsIdle (everyone ∷ []) quiet 1070 own
should_pause-IsIdle_example = should_pause-IsIdle (everyone ∷ []) quiet 1070 own

abbrev lost : Session
lost = record { id = codes "s1"; remote = false; workspace_id = codes "u-gone" }

abbrev kept_session : Session
kept_session = record { id = codes "s2"; remote = false; workspace_id = codes "u-w1" }

sweep-test :
    sweep_sessions (some (kept_session ∷ lost ∷ [])) (some (own ∷ [])) none (λ id. true)
    ≡ (codes "s1" ∷ [], true)
unfolding sweep_sessions end_orphans orphan_of is_live equal
sweep-test = refl

ended : In (codes "s1") (end_orphans (own ∷ []) none (λ id. true) (kept_session ∷ lost ∷ [])).0
unfolding end_orphans orphan_of is_live equal
ended = inl refl

end_orphans-IsGone_example :
    (s : Session) × In s (kept_session ∷ lost ∷ [])
    × (s.id ≡ codes "s1")
    × (true ≡ true)
    × IsGone (own ∷ []) none s
end_orphans-IsGone_example =
    end_orphans-IsGone (own ∷ []) none (λ id. true) (kept_session ∷ lost ∷ []) (codes "s1") ended
