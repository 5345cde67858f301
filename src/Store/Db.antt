-- ===== src/Store/Db.antt =====
-- The tables of the server's database (internal/server/store/migrations), as lists of rows.
use backup_management_center.Common.{ℕ, String, Option, List}
use backup_management_center.Model.Types.{
  Run, RestoreRequest, SnapshotDeletion, CleanupState, AuditEvent, Agent, EnrollmentToken, Session,
  Plan,
}

-- A row of `repository_cache_state`; `none` for a NULL `list_verified_at`.
pub record CacheState : Type 0 where
  pub repository_id : String
  pub generation : ℕ
  pub list_verified_at : Option ℕ
  pub list_fingerprint : String
  pub updated_at : ℕ

-- `SnapshotListCache`
pub record ListCache : Type 0 where
  pub repository_id : String
  pub generation : ℕ
  pub snapshots_json : String
  pub fingerprint : String
  pub verified_at : ℕ

-- `SnapshotTreeCache`
pub record TreeCache : Type 0 where
  pub repository_id : String
  pub snapshot_id : String
  pub path : List ℕ
  pub generation : ℕ
  pub tree_json : String
  pub verified_at : ℕ

-- A row of `repositories`; its status is "pending", "ready" or "error".
pub record RepositoryRow : Type 0 where
  pub id : String
  pub agent_id : String
  pub storage_target_id : String
  pub repository_path : String
  pub status : String
  pub last_check_at : Option ℕ
  pub detached_at : Option ℕ

-- A row of `schedule_cursor`.
pub record Cursor : Type 0 where
  pub plan_id : String
  pub next_fire_at : ℕ

-- `observed` holds the runs handed to the terminal observer, the latest first, and `targets` the
-- identifiers of the storage targets.
pub record Db : Type 0 where
  pub runs : List Run
  pub requests : List RestoreRequest
  pub repositories : List RepositoryRow
  pub cache_states : List CacheState
  pub list_caches : List ListCache
  pub tree_caches : List TreeCache
  pub deletions : List SnapshotDeletion
  pub cleanups : List CleanupState
  pub audit : List AuditEvent
  pub observed : List Run
  pub agents : List Agent
  pub tokens : List EnrollmentToken
  pub sessions : List Session
  pub plans : List Plan
  pub cursors : List Cursor
  pub targets : List String
