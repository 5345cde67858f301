-- ===== src/Store/Restores.antt =====
-- Restore requests (internal/server/store/sqlite.go): creation under mutual exclusion, phases, the
-- end of a restore, and its resolution by an operator.
pub mod Phases
pub mod Steps
pub mod Kept
pub mod Exclusive
pub mod Occupancy
pub mod Terminal
pub mod Protected
pub mod Blocking
use mathlib.Core.Option
use backup_management_center.Common.{
  ℕ, String, Bool, false, ◌&&◌, ◌||◌, not, Option, none, some, List, [], ◌∷◌, ◌++◌, ◌==◌, ltb,
  string_eq, nat_eq, codes_eq, find_where, select_where, update_where, any_where, member,
  if◌then◌else◌,
}
use backup_management_center.Model.Kind.{filesystem, kind_eq, is_database_restore_kind}
use backup_management_center.Model.Status.{
  RunStatus, queued, dispatched, running, failed, status_eq,
}
use backup_management_center.Model.Status as Status
use backup_management_center.Model.Phase.{
  RestorePhase, unset, pre_backup, restoring, rolling_back, cancelling, rollback_failed,
  manual_recovery_needed, manual_recovery_done, phase_eq, releases_occupancy, restore_safe_phases,
  needs_manual_resolution,
}
use backup_management_center.Model.Types.{Run, RestoreRequest}
use backup_management_center.Store.Outcome.{
  Outcome, ok, err, not_found, duplicate_run, invalid_transition, database_restore_busy,
  restore_conflict, restore_target_busy, foreign_key, driver_error, ◌>>=◌, ◌>>◌, require, or_err,
}
use backup_management_center.Store.Db.{Db}
use backup_management_center.Store.Runs.{has_id, get_run, insert_run_tx, unless_empty}
use backup_management_center.Store.TargetPath.{filesystem_targets_overlap}

abbrev pub of_run : String → RestoreRequest → Bool
of_run run_id q = q.run_id == run_id

abbrev pub has_request_id : String → RestoreRequest → Bool
has_request_id id q = q.id == id

-- `phase NOT IN (safe phases)`
abbrev pub is_unsafe : RestoreRequest → Bool
is_unsafe q = not (member q.phase restore_safe_phases)

-- The `blocked` list of `UpdateRestorePhase` and `RequestRestoreStop`.
abbrev pub blocked_phases : List RestorePhase
blocked_phases =
    restore_safe_phases ++ rollback_failed ∷ manual_recovery_needed ∷ manual_recovery_done ∷ []

-- `activeRestorePhases`
abbrev pub active_restore_phases : List RestorePhase
active_restore_phases =
    RestorePhase.queued ∷ pre_backup ∷ restoring ∷ rolling_back ∷ cancelling ∷ []

-- `SELECT agent_id FROM runs WHERE id = ?`
abbrev pub agent_of : String → Db → Option String
agent_of run_id db = Option.map (λ r. r.agent_id) (find_where (has_id run_id) db.runs)

abbrev pub same_agent : Option String → Option String → Bool
same_agent (some a) (some b) = a == b
same_agent _ _ = false

-- The insertion of a request row: its run must exist and its identifier be free.
abbrev pub insert_request : RestoreRequest → Db → Outcome Db
insert_request q db = do
  require (not (any_where (has_request_id q.id) db.requests)) driver_error
  require (any_where (has_id q.run_id) db.runs) foreign_key
  ok (record db { requests = q ∷ db.requests })

-- `target_path` reads the target path out of a target's JSON; `none` if that does not parse.
module _ (target_path : String → Option (List ℕ)) where
  abbrev pub overlaps_target : List ℕ → Option (List ℕ) → Bool
  overlaps_target want none = false
  overlaps_target want (some other) = filesystem_targets_overlap want other

  -- A request that the query of `filesystemTargetBusy` returns and the loop accepts.
  abbrev pub is_rival : Db → RestoreRequest → List ℕ → RestoreRequest → Bool
  is_rival db q want other =
      other.restore_kind == filesystem
      && member other.phase active_restore_phases
      && same_agent (agent_of other.run_id db) (agent_of q.run_id db)
      && overlaps_target want (target_path other.target_json)

  abbrev pub busy_at : Db → RestoreRequest → Option (List ℕ) → Bool
  busy_at db q none = false
  busy_at db q (some want) =
      if want == [] then false else any_where (is_rival db q want) db.requests

  -- `filesystemTargetBusy`
  unfoldable pub filesystem_target_busy : RestoreRequest → Db → Bool
  filesystem_target_busy q db = busy_at db q (target_path q.target_json)

  -- `CreateRestoreRequest`
  unfoldable pub create_restore_request : RestoreRequest → Db → Outcome Db
  unfolding filesystem_target_busy
  create_restore_request q db = do
    require (not (q.restore_kind == filesystem && filesystem_target_busy q db)) restore_target_busy
    insert_request q db

-- A request that holds the database restore occupancy.
abbrev pub occupies : RestoreRequest → Bool
occupies q = is_database_restore_kind q.restore_kind && is_unsafe q

abbrev pub older : RestoreRequest → Option RestoreRequest → Option RestoreRequest
older q none = some q
older q (some first) = if ltb first.created_at q.created_at then some first else some q

-- `ORDER BY created_at LIMIT 1`
abbrev pub oldest : List RestoreRequest → Option RestoreRequest
oldest [] = none
oldest (q ∷ qs) = older q (oldest qs)

-- The `JOIN runs r ON r.id = rr.run_id`.
abbrev pub has_run : Db → RestoreRequest → Bool
has_run db q = any_where (has_id q.run_id) db.runs

-- The run's `dedup_key`, "" for NULL.
abbrev pub key_of : Option Run → String
key_of none = ""
key_of (some r) = r.dedup_key

-- The `switch` over the occupying request.
abbrev pub refuse_occupied : Run → Db → Option RestoreRequest → Outcome (Unit {0})
refuse_occupied run db none = ok tt
refuse_occupied run db (some q) =
    let key = key_of (find_where (has_id q.run_id) db.runs) in
    if not (key == "") && key == run.dedup_key && not (needs_manual_resolution q.phase)
    then err duplicate_run
    else err database_restore_busy

-- `CreateDatabaseRestoreRun`
unfoldable pub create_database_restore_run : ℕ → Run → RestoreRequest → Db → Outcome Db
create_database_restore_run now run q db = do
  refuse_occupied run db (oldest (select_where (λ r. occupies r && has_run db r) db.requests))
  with_run ← insert_run_tx now run db
  insert_request q with_run

-- `ActiveDatabaseRestoreRunID`; "" for no occupant.
unfoldable pub active_database_restore_run_id : Db → String
active_database_restore_run_id db = elim (oldest (select_where occupies db.requests)) [
  | none ↦ ""
  | some q ↦ q.run_id
]

abbrev pub in_repository : String → Db → String → Bool
in_repository repo db run_id = any_where (λ r. r.id == run_id && r.repository_id == repo) db.runs

-- `RepositoryRestoreBlocked`
unfoldable pub repository_restore_blocked : String → String → Db → Bool
repository_restore_blocked repo except_run db =
    any_where
      (λ q.
        in_repository repo db q.run_id
        && is_unsafe q
        && (except_run == "" || not (q.run_id == except_run)))
      db.requests

-- `UPDATE … WHERE run_id = ? AND phase NOT IN (blocked)`
abbrev pub may_advance : String → RestoreRequest → Bool
may_advance run_id q = q.run_id == run_id && not (member q.phase blocked_phases)

-- `UpdateRestorePhase`
unfoldable pub update_restore_phase : String → RestorePhase → Db → Db
update_restore_phase run_id phase db = record db {
  requests = update_where (may_advance run_id) (λ q. record q { phase = phase }) db.requests;
}

-- `RequestRestoreStop`
unfoldable pub request_restore_stop : String → ℕ → Db → Db
request_restore_stop run_id deadline db =
    if any_where (may_advance run_id) db.requests
    then record db {
      requests =
          update_where (may_advance run_id) (λ q. record q { phase = cancelling }) db.requests;
      runs =
          update_where (has_id run_id) (λ r. record r { lease_expires_at = some deadline }) db.runs;
    }
    else db

abbrev pub non_empty : String → List String → List String
non_empty s rest = if s == "" then rest else s ∷ rest

abbrev pub protected_by : List RestoreRequest → List String
protected_by [] = []
protected_by (q ∷ qs) = non_empty q.snapshot_id (non_empty q.rollback_snapshot_id (protected_by qs))

-- `ProtectedRestoreSnapshotIDs`, the set as a list.
unfoldable pub protected_restore_snapshot_ids : String → Db → List String
protected_restore_snapshot_ids repo db =
    protected_by (select_where (λ q. in_repository repo db q.run_id && is_unsafe q) db.requests)

-- `UpdateRestoreRollbackSnapshot`
unfoldable pub update_restore_rollback_snapshot : String → String → Db → Db
update_restore_rollback_snapshot run_id snapshot db = if snapshot == "" then db else record db {
  requests =
      update_where (λ q. q.run_id == run_id && q.rollback_snapshot_id == "")
        (λ q. record q { rollback_snapshot_id = snapshot }) db.requests;
}

-- `FinishRestoreRunInput`
pub record FinishInput : Type 0 where
  pub run_id : String
  pub from_statuses : List RunStatus
  pub to_status : RunStatus
  pub error_code : String
  pub error_message : String
  pub snapshot_id : String
  pub result_json : String
  pub phase : RestorePhase
  pub rollback_snapshot_id : String
  pub finished_at : ℕ

-- The `switch` of `updateRestoreRequestTx` over the current and the reported phase.
abbrev pub merged_phase : RestorePhase → RestorePhase → RestorePhase
merged_phase current reported =
    if reported == unset
    then current
    else if current == manual_recovery_done
    then current
    else if releases_occupancy current && not (current == reported)
    then current
    else if needs_manual_resolution current
    then current
    else reported

-- The row that `updateRestoreRequestTx` writes. The values come from the first row of the run.
abbrev pub merge_request : FinishInput → RestoreRequest → RestoreRequest → RestoreRequest
merge_request in' first q = record q {
  phase = merged_phase first.phase in'.phase;
  rollback_snapshot_id = unless_empty in'.rollback_snapshot_id first.rollback_snapshot_id;
}

abbrev pub update_found_request : FinishInput → Option RestoreRequest → Db → Db
update_found_request in' none db = db
update_found_request in' (some first) db = record db {
  requests = update_where (of_run in'.run_id) (merge_request in' first) db.requests;
}

-- `updateRestoreRequestTx`
unfoldable pub update_restore_request_tx : FinishInput → Db → Db
update_restore_request_tx in' db =
    update_found_request in' (find_where (of_run in'.run_id) db.requests) db

abbrev pub or_live_statuses : List RunStatus → List RunStatus
or_live_statuses [] = queued ∷ dispatched ∷ running ∷ []
or_live_statuses (s ∷ ss) = s ∷ ss

-- The row that `FinishRestoreRun` writes into `runs`.
abbrev pub finished_row : FinishInput → Run → Run
finished_row in' r = record r {
  status = in'.to_status;
  finished_at = some in'.finished_at;
  error_code = in'.error_code;
  error_message = in'.error_message;
  snapshot_id = unless_empty in'.snapshot_id r.snapshot_id;
  progress_json = unless_empty in'.result_json r.progress_json;
  lease_expires_at = none;
}

abbrev pub finishes : FinishInput → Run → Bool
finishes in' r = r.id == in'.run_id && member r.status (or_live_statuses in'.from_statuses)

-- The update of `runs`, made only while the run has not ended.
abbrev pub end_run : FinishInput → Run → Db → Outcome Db
end_run in' run db =
    if not (Status.is_terminal run.status)
    then (do
      require (any_where (finishes in') db.runs) invalid_transition
      ok (record db { runs = update_where (finishes in') (finished_row in') db.runs }))
    else ok db

-- `FinishRestoreRun`
unfoldable pub finish_restore_run : FinishInput → Db → Outcome Db
unfolding get_run update_restore_request_tx
finish_restore_run in' db = do
  run ← get_run in'.run_id db
  if Status.is_terminal run.status && not (run.status == in'.to_status)
      then ok (update_restore_request_tx in' db)
      else do ended ← end_run in' run db; ok (update_restore_request_tx in' ended)

-- `error_code` of a resolved run: the phase that was resolved.
abbrev pub phase_text : RestorePhase → String
phase_text manual_recovery_needed = "manual_recovery_required"
phase_text _ = "rollback_failed"

abbrev pub resolved_row : RestorePhase → String → ℕ → Run → Run
resolved_row phase note at r = record r {
  status = failed;
  finished_at = some at;
  error_code = phase_text phase;
  error_message = note;
  lease_expires_at = none;
}

abbrev pub is_unfinished_run : String → Run → Bool
is_unfinished_run id r = r.id == id && not (Status.is_terminal r.status)

-- `ResolveRestoreRequest`; `note` is the message that the code builds from the operator's note, and
-- `detail` the JSON of the audit event.
unfoldable pub resolve_restore_request :
    String → String → String → String → String → ℕ → Db → Outcome Db
resolve_restore_request request_id run_id actor note detail at db = do
  q ← or_err not_found (find_where (has_request_id request_id) db.requests)
  require (run_id == "" || q.run_id == run_id) restore_conflict
  require (q.phase == manual_recovery_needed || q.phase == rollback_failed) restore_conflict
  ok (record db {
    requests =
        update_where (has_request_id request_id) (λ r. record r { phase = manual_recovery_done })
          db.requests;
    runs = update_where (is_unfinished_run q.run_id) (resolved_row q.phase note at) db.runs;
    audit =
        record {
          occurred_at = at;
          actor_id = actor;
          action = "restore.resolve";
          resource_id = request_id;
          detail_json = detail;
        }
        ∷ db.audit;
  })
