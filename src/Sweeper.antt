-- ===== src/Sweeper.antt =====
-- api-server/internal/service/idle_sweeper.go and session_sweeper.go: one pass of each sweeper. What the cluster and
-- the database return is an argument; none is an error.
pub mod Idle
pub mod Orphans
use waas.Prelude.{
  ℕ, ◌+◌, Bool, true, false, not, ◌&&◌, ◌||◌, List, [], ◌∷◌, Option, none, some, Bytes, codes,
  if◌then◌else◌, ltb, ◌==◌, equal,
}
use waas.Policy.{WorkspacePolicy, Resolution, denied, governed, resolve}
use waas.Policy.Objects.{Workspace}
use waas.Policy.Overrides.{identity_of}

-- the activity of a workspace, by its UID
pub record Activity : Type 0 where
  pub active_now : Bool
  pub last_activity : ℕ

abbrev pub later_of : ℕ → ℕ → ℕ
later_of created at = if ltb created at then at else created

-- the idle clock, or none while a session is open
abbrev pub idle_since : Option Activity → ℕ → Option ℕ
idle_since none created = some created
idle_since (some act) created =
    if act.active_now then none else some (later_of created act.last_activity)

abbrev pub has_idled : Option ℕ → ℕ → ℕ → Bool
has_idled none idle_after now = false
has_idled (some last) idle_after now = not (ltb now (last + idle_after))

-- `OpenSession` rows: the id, whether it is of a remote workspace, and its target
pub record Session : Type 0 where
  pub id : Bytes
  pub remote : Bool
  pub workspace_id : Bytes

pub data Lookup : Type 0 where
  present absent lookup_failed : Lookup

pub data Orphan : Type 0 where
  orphaned attached unresolved : Orphan

abbrev pub remote_orphan : Lookup → Orphan
remote_orphan present = attached
remote_orphan absent = orphaned
remote_orphan lookup_failed = unresolved

abbrev pub end_if : Orphan → Bytes → Bool → List Bytes × Bool → List Bytes × Bool
end_if attached id ends rest = rest
end_if unresolved id ends rest = ([], false)
end_if orphaned id false rest = ([], false)
end_if orphaned id true (ids, ok) = (id ∷ ids, ok)

module _ {Q : Type 0} where
  abbrev pub idle_limit : Resolution Q → Option ℕ
  idle_limit (denied reason) = none
  idle_limit (governed pol ties) = pol.idle_suspend_after

  abbrev pub over_limit : Option ℕ → Option Activity → ℕ → Workspace Q → Bool
  over_limit none act now ws = false
  over_limit (some idle_after) act now ws =
      if idle_after == 0 then false else has_idled (idle_since act ws.created) idle_after now

  -- the tests of the loop of `sweep`: an idle duration that is not positive is ignored
  unfoldable pub should_pause :
      List (WorkspacePolicy Q) → (Bytes → Option Activity) → ℕ → Workspace Q → Bool
  should_pause policies activity now ws =
      let over =
        over_limit (idle_limit (resolve policies (identity_of ws))) (activity ws.uid) now ws in
      if ws.paused || ws.deleting then false else over

  -- the workspaces as the cluster has them after the loop; an update may fail
  unfoldable pub pause_idle :
      List (WorkspacePolicy Q)
      → (Bytes → Option Activity)
      → ℕ
      → (Bytes → Bool)
      → List (Workspace Q)
      → List (Workspace Q)
  pause_idle policies activity now updates [] = []
  pause_idle policies activity now updates (ws ∷ wss) =
      (if should_pause policies activity now ws && updates ws.name
        then record ws { paused = true }
        else ws)
      ∷ pause_idle policies activity now updates wss

  abbrev nobody : List (WorkspacePolicy Q) → Bool
  nobody [] = true
  nobody (p ∷ ps) = false

  abbrev pub swept :
      Bool
      → List (WorkspacePolicy Q)
      → Bool
      → Option (Bytes → Option Activity)
      → ℕ
      → (Bytes → Bool)
      → List (Workspace Q)
      → Option (List (Workspace Q))
  swept true policies lists activity now updates wss = some wss
  swept false policies false activity now updates wss = none
  swept false policies true none now updates wss = none
  swept false policies true (some activity) now updates wss =
      some (pause_idle policies activity now updates wss)

  -- `IdleSweeper.sweep`, on the workspaces of the namespace, and whether they can be listed
  unfoldable pub sweep :
      Option (List (WorkspacePolicy Q))
      → Bool
      → Option (Bytes → Option Activity)
      → ℕ
      → (Bytes → Bool)
      → List (Workspace Q)
      → Option (List (Workspace Q))
  sweep none lists activity now updates wss = none
  sweep (some policies) lists activity now updates wss =
      swept (nobody policies) policies lists activity now updates wss

  unfoldable pub is_live : List (Workspace Q) → Bytes → Bool
  is_live [] id = false
  is_live (ws ∷ wss) id = equal ws.uid id || is_live wss id

  -- what becomes of one open session: without the remote feature, remote sessions are left alone
  unfoldable pub orphan_of : List (Workspace Q) → Option (Bytes → Lookup) → Session → Orphan
  orphan_of wss remotes s =
      let local = if is_live wss s.workspace_id then attached else orphaned in
      let remote : Orphan = elim remotes [
        | none ↦ attached
        | some find ↦ remote_orphan (find s.workspace_id)
      ] in
      if s.remote then remote else local

  -- the loop of `SessionSweeper.sweep`: the sessions that it ended, and whether it came to the end
  unfoldable pub end_orphans :
      List (Workspace Q)
      → Option (Bytes → Lookup)
      → (Bytes → Bool)
      → List Session
      → List Bytes × Bool
  end_orphans wss remotes ends [] = ([], true)
  end_orphans wss remotes ends (s ∷ open_) =
      end_if (orphan_of wss remotes s) s.id (ends s.id) (end_orphans wss remotes ends open_)

  -- `SessionSweeper.sweep`, with the open sessions and the workspaces as they are listed
  unfoldable pub sweep_sessions :
      Option (List Session)
      → Option (List (Workspace Q))
      → Option (Bytes → Lookup)
      → (Bytes → Bool)
      → List Bytes × Bool
  sweep_sessions none wss remotes ends = ([], false)
  sweep_sessions (some []) wss remotes ends = ([], true)
  sweep_sessions (some (s ∷ open_)) none remotes ends = ([], false)
  sweep_sessions (some (s ∷ open_)) (some wss) remotes ends =
      end_orphans wss remotes ends (s ∷ open_)
