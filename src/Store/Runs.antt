-- ===== src/Store/Runs.antt =====
-- The runs table (internal/server/store/sqlite.go): creation, transitions, reconciliation.
pub mod Keys
pub mod Moves
pub mod Steps
pub mod Lifecycle
use backup_management_center.Common.{
  ℕ, zero, suc, String, Bool, true, false, ◌&&◌, ◌||◌, not, Option, none, some, List, [], ◌∷◌, map,
  ◌==◌, ltb, string_eq, nat_eq, find_where, select_where, update_where, delete_where, any_where,
  member, if◌then◌else◌,
}
use backup_management_center.Model.Kind.{forget, operation_eq}
use backup_management_center.Model.Status.{
  RunStatus, cancelled, succeeded, failed, status_eq, valid_transitions, is_terminal, is_active,
}
use backup_management_center.Model.Types.{Run}
use backup_management_center.Store.Outcome.{
  StoreErr, Outcome, ok, err, not_found, duplicate_run, foreign_key, invalid_transition, ◌>>=◌,
  ◌>>◌, require, or_err, is_sqlite_busy,
}
use backup_management_center.Store.Db.{Db}
use backup_management_center.Store.Retry.{busy_retry_attempts, retry_on_busy}
use backup_management_center.Store.Cache.{invalidates_snapshot_cache, invalidate_snapshot_cache_tx}

abbrev pub has_id : String → Run → Bool
has_id id r = r.id == id

-- `UNIQUE (plan_id, scheduled_at)`; a NULL in either column is distinct from all.
abbrev pub same_slot_at : Option ℕ → Option ℕ → Bool
same_slot_at (some a) (some b) = a == b
same_slot_at _ _ = false

abbrev pub same_slot : Run → Run → Bool
same_slot a b =
    not (a.plan_id == "") && a.plan_id == b.plan_id && same_slot_at a.scheduled_at b.scheduled_at

-- The partial index `idx_runs_active_dedup`.
abbrev pub same_active_task : Run → Run → Bool
same_active_task a b =
    not (a.dedup_key == "")
    && a.dedup_key == b.dedup_key
    && is_active a.status
    && is_active b.status

-- Two rows that the table's keys do not admit together.
abbrev pub clash : Run → Run → Bool
clash a b = a.id == b.id || same_slot a b || same_active_task a b

-- `insertRunTx`. A violated key is `duplicate_run`, whichever key it is.
unfoldable pub insert_run_tx : ℕ → Run → Db → Outcome Db
insert_run_tx now r db = do
  require (not (any_where (clash r) db.runs)) duplicate_run
  let inserted = record db { runs = r ∷ db.runs }
  if not (r.repository_id == "") && invalidates_snapshot_cache r.operation
      then invalidate_snapshot_cache_tx now r.repository_id (r.operation == forget) inserted
      else ok inserted

-- `CreateRun`
unfoldable pub create_run : ℕ → Run → Db → Outcome Db
create_run now r db = insert_run_tx now r db

-- `GetRun`, and `getRunTx` inside a transaction.
unfoldable pub get_run : String → Db → Outcome Run
get_run id db = or_err not_found (find_where (has_id id) db.runs)

-- `ORDER BY queued_at DESC LIMIT 1`
abbrev pub newer : Run → Option Run → Option Run
newer r none = some r
newer r (some best) = if ltb r.queued_at best.queued_at then some best else some r

abbrev pub newest : List Run → Option Run
newest [] = none
newest (r ∷ rs) = newer r (newest rs)

-- `FindActiveRunByDedupKey`
unfoldable pub find_active_run_by_dedup_key : String → Db → Outcome Run
find_active_run_by_dedup_key key db = do
  require (not (key == "")) not_found
  or_err not_found (newest (select_where (λ r. r.dedup_key == key && is_active r.status) db.runs))

-- `ListRunsByStatus`, without its order.
unfoldable pub list_runs_by_status : List RunStatus → Db → List Run
list_runs_by_status statuses db = select_where (λ r. member r.status statuses) db.runs

-- The columns that the `UPDATE` of `transitionRunOnce` writes, from the mutated row.
abbrev pub written : Run → Run → Run
written new old = record old {
  status = new.status;
  started_at = new.started_at;
  finished_at = new.finished_at;
  progress_json = new.progress_json;
  snapshot_id = new.snapshot_id;
  error_code = new.error_code;
  error_message = new.error_message;
  attempt = new.attempt;
  lease_expires_at = new.lease_expires_at;
}

-- What the driver does to one attempt: it may refuse to begin or to commit.
pub record Driver : Type 0 where
  pub begin : Option StoreErr
  pub commit : Option StoreErr

abbrev pub no_fault : Driver
no_fault = record { begin = none; commit = none }

abbrev pub passes : Option StoreErr → Outcome (Unit {0})
passes none = ok tt
passes (some e) = err e

-- `transitionRunOnce`
unfoldable pub transition_run_once :
    Driver → String → RunStatus → RunStatus → (Run → Run) → Db → Outcome Db
unfolding get_run
transition_run_once driver id from to mutate db = do
  passes driver.begin
  run ← get_run id db
  require (run.status == from) invalid_transition
  require (not (is_terminal run.status)) invalid_transition
  require (valid_transitions from to) invalid_transition
  let new = mutate (record run { status = to })
  passes driver.commit
  ok (record db {
    runs = update_where (has_id new.id) (written new) db.runs;
    observed = if is_terminal new.status then new ∷ db.observed else db.observed;
  })

-- `TransitionRun`: attempt k meets the driver as `drivers k` has it.
unfoldable pub transition_run :
    (ℕ → Bool) → (ℕ → Driver) → String → RunStatus → RunStatus → (Run → Run) → Db → Outcome Db
unfolding transition_run_once
transition_run ctx_done drivers id from to mutate db =
    retry_on_busy ctx_done busy_retry_attempts db
      λ attempt. transition_run_once (drivers attempt) id from to mutate db

-- `CASE WHEN ? = '' THEN column ELSE ? END`
abbrev pub unless_empty : String → String → String
unless_empty new old = if new == "" then old else new

abbrev pub is_cancelled_run : String → Run → Bool
is_cancelled_run id r = r.id == id && r.status == cancelled

abbrev pub reconciled_row : String → String → Run → Run
reconciled_row snapshot progress r = record r {
  status = succeeded;
  error_code = "";
  error_message = "";
  snapshot_id = unless_empty snapshot r.snapshot_id;
  progress_json = unless_empty progress r.progress_json;
  lease_expires_at = none;
}

-- `ReconcileCancelledRunSuccess`
unfoldable pub reconcile_cancelled_run_success : String → String → String → Db → Outcome Db
reconcile_cancelled_run_success id snapshot progress db = do
  require (any_where (is_cancelled_run id) db.runs) invalid_transition
  ok (record db {
    runs = update_where (is_cancelled_run id) (reconciled_row snapshot progress) db.runs;
  })

abbrev pub is_live_run : String → Run → Bool
is_live_run id r = r.id == id && is_active r.status

abbrev pub progress_row : String → Run → Run
progress_row progress r = record r { progress_json = progress }

-- `UpdateRunProgress`
unfoldable pub update_run_progress : String → String → Db → Db
update_run_progress id progress db = record db {
  runs = update_where (is_live_run id) (progress_row progress) db.runs;
}

abbrev pub has_status_in : List RunStatus → Run → Bool
has_status_in statuses r = member r.status statuses

abbrev pub failed_row : String → ℕ → Run → Run
failed_row code at r = record r {
  status = failed;
  error_code = code;
  finished_at = some at;
  lease_expires_at = none;
}

-- `FailStaleRuns`: the rows that it moved are returned by their identifiers.
unfoldable pub fail_stale_runs : List RunStatus → String → ℕ → Db → List String × Db
fail_stale_runs statuses code at db = (
  map (λ r. r.id) (select_where (has_status_in statuses) db.runs),
  record db { runs = update_where (has_status_in statuses) (failed_row code at) db.runs },
)

-- `ClearRunProgress`
unfoldable pub clear_run_progress : String → Db → Db
clear_run_progress id db = record db { runs = update_where (has_id id) (progress_row "{}") db.runs }

-- `DeleteRun`: a restore request's reference to the run refuses it, a deletion intent's is cleared.
unfoldable pub delete_run : String → Db → Outcome Db
delete_run id db = do
  require (not (any_where (has_id id) db.runs && any_where (λ q. q.run_id == id) db.requests))
      foreign_key
  ok (record db {
    runs = delete_where (has_id id) db.runs;
    deletions = update_where (λ d. d.run_id == id) (λ d. record d { run_id = "" }) db.deletions;
  })
