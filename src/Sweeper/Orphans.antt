-- ===== src/Sweeper/Orphans.antt =====
-- Which sessions the session sweeper ends.
use waas.Prelude.{
  ◌≡◌, refl, ◌∙◌, ap, sym, ◌≢◌, inl, inr, Bool, true, false, List, [], ◌∷◌, Option, none, some,
  Bytes, arith, equal_iff, Bool-cases, In, All,
}
use waas.Policy.Objects.{Workspace}
use waas.Sweeper.{
  Session, Lookup, present, absent, lookup_failed, Orphan, orphaned, attached, unresolved,
  remote_orphan, is_live, orphan_of, end_if, end_orphans,
}

module _ {Q : Type 0} where
  is_live-All :
      (wss : List (Workspace Q)) (id : Bytes) → is_live wss id ≡ false → All (λ ws. ws.uid ≢ id) wss
  unfolding is_live
  is_live-All [] id h = tt
  is_live-All (ws ∷ wss) id h =
      ((λ e. let t = (equal_iff ws.uid id).1 e in ground arith), is_live-All wss id (ground arith))

  -- The target of the session is gone: no workspace has its UID; or the remote workspace is not found.
  pub data IsGone (wss : List (Workspace Q)) (remotes : Option (Bytes → Lookup)) (s : Session)
      : Type 0 where
    no_workspace : s.remote ≡ false → All (λ ws. ws.uid ≢ s.workspace_id) wss → IsGone wss remotes s
    no_remote :
        (find : Bytes → Lookup)
        → s.remote ≡ true
        → remotes ≡ some find
        → find s.workspace_id ≡ absent
        → IsGone wss remotes s

  orphan_of-IsGone :
      (wss : List (Workspace Q)) (remotes : Option (Bytes → Lookup)) (s : Session)
      → orphan_of wss remotes s ≡ orphaned
      → IsGone wss remotes s
  unfolding orphan_of
  orphan_of-IsGone wss remotes s h = elim (Bool-cases s.remote) [
    | inl r ↦ by_remotes r remotes refl (rw r at h)
    | inr r ↦ elim (Bool-cases (is_live wss s.workspace_id)) [
      | inl l ↦ absurd (let k = rw (r, l) at h in cc)
      | inr l ↦ no_workspace r (is_live-All wss s.workspace_id l)
    ]
  ]
    where
      absent_only : (x : Lookup) → remote_orphan x ≡ orphaned → x ≡ absent
      absent_only present k = absurd cc
      absent_only absent k = refl
      absent_only lookup_failed k = absurd cc

      by_remotes :
          s.remote ≡ true
          → (o : Option (Bytes → Lookup)) → remotes ≡ o
          → (elim o as (λ _. Orphan) [
            | none ↦ attached
            | some find ↦ remote_orphan (find s.workspace_id)
          ])
            ≡ orphaned
          → IsGone wss remotes s
      by_remotes r none e k = absurd cc
      by_remotes r (some find) e k = no_remote find r e (absent_only (find s.workspace_id) k)

  -- The pass ends a session only if it was open and its target is gone; an error stops it, and ends nothing further.
  pub end_orphans-IsGone :
      (wss : List (Workspace Q)) (remotes : Option (Bytes → Lookup)) (ends : Bytes → Bool)
      (open_ : List Session) (id : Bytes)
      → In id (end_orphans wss remotes ends open_).0
      → (s : Session) × In s open_ × (s.id ≡ id) × (ends id ≡ true) × IsGone wss remotes s
  unfolding end_orphans
  end_orphans-IsGone wss remotes ends [] id i = elim i [ ]
  end_orphans-IsGone wss remotes ends (s ∷ open_) id i =
      by_orphan (end_orphans-IsGone wss remotes ends open_ id) (orphan_of wss remotes s) (ends s.id)
        refl refl i
    where
      by_orphan :
          (In id (end_orphans wss remotes ends open_).0
            → (t : Session) × In t open_ × (t.id ≡ id) × (ends id ≡ true) × IsGone wss remotes t)
          → (o : Orphan) (b : Bool) → orphan_of wss remotes s ≡ o
          → ends s.id ≡ b
          → In id (end_if o s.id b (end_orphans wss remotes ends open_)).0
          → (t : Session) × In t (s ∷ open_) × (t.id ≡ id) × (ends id ≡ true) × IsGone wss remotes t
      by_orphan ih attached b e f j =
          let (t, k, same, ok, gone) = ih j in (t, inr k, same, ok, gone)
      by_orphan ih unresolved b e f j = elim j [ ]
      by_orphan ih orphaned false e f j = elim j [ ]
      by_orphan ih orphaned true e f j = elim j [
        | inl same ↦ (s, inl refl, sym same, ap ends same ∙ f, orphan_of-IsGone wss remotes s e)
        | inr k ↦ let (t, l, same, ok, gone) = ih k in (t, inr l, same, ok, gone)
      ]
