-- ===== src/Store/Runs/Steps.antt =====
-- The operations on the runs table as steps of the database (internal/server/store/sqlite.go).
use backup_management_center.Common.{
  ℕ, String, ◌≡◌, refl, inl, inr, Bool, true, false, List, ◌∷◌, ◌==◌, arith, string_eq, nat_eq, All,
  All-of, update_where, delete_where, any_where, on_where, Bool-cases, NoClash,
  NoClash-delete_where,
}
use backup_management_center.Model.Kind.{forget, operation_eq}
use backup_management_center.Model.Status.{RunStatus, status_eq, is_active}
use backup_management_center.Model.Types.{Run}
use backup_management_center.Store.Outcome.{ok}
use backup_management_center.Store.Db.{Db}
use backup_management_center.Store.Cache.{invalidate_snapshot_cache_tx}
use backup_management_center.Store.Runs.{
  has_id, clash, Driver, insert_run_tx, create_run, transition_run_once,
  reconcile_cancelled_run_success, is_cancelled_run, update_run_progress, fail_stale_runs,
  clear_run_progress, delete_run, is_live_run, progress_row, reconciled_row, has_status_in,
  failed_row,
}
use backup_management_center.Store.Runs.Keys.{HasKeys, Shrinks, NoClash-update}
use backup_management_center.Store.Runs.Moves.{KeepsRow, transition_run_once-Moved, HasKeys-Moved}

runs-invalidate :
    (now : ℕ) (repo : String) (clear : Bool) (db db' : Db)
    → invalidate_snapshot_cache_tx now repo clear db ≡ ok db'
    → db'.runs ≡ db.runs
unfolding invalidate_snapshot_cache_tx
runs-invalidate now repo clear db db' h = ground arith

-- `CreateRun` adds the run and nothing else to the table, and only if no key refuses it.
pub create_run-adds :
    (now : ℕ) (r : Run) (db db' : Db)
    → create_run now r db ≡ ok db'
    → (db'.runs ≡ r ∷ db.runs) × (any_where (clash r) db.runs ≡ false)
unfolding create_run insert_run_tx
create_run-adds now r db db' h = ground (
  arith,
  runs-invalidate now r.repository_id (r.operation == forget) (record db { runs = r ∷ db.runs })
      db',
)

pub create_run-HasKeys :
    (now : ℕ) (r : Run) (db db' : Db) → create_run now r db ≡ ok db' → HasKeys db → HasKeys db'
create_run-HasKeys now r db db' h keys =
    let (rows, free) = create_run-adds now r db db' h in rw rows (free, keys)

-- An update of the rows that meet `p` keeps the keys if it keeps the columns of the keys and
-- revives none of those rows.
update-HasKeys :
    (p : Run → Bool) (f : Run → Run) (db : Db)
    → ((r : Run) → p r ≡ true → Shrinks r (f r))
    → HasKeys db
    → NoClash clash (update_where p f db.runs)
update-HasKeys p f db shrinks keys =
    NoClash-update (on_where p f) db.runs
      (All-of (λ r. Shrinks r (on_where p f r))
        (λ r. elim (Bool-cases (p r)) [ inl e ↦ rw e (shrinks r e) | inr e ↦ rw e (ground arith) ])
        db.runs)
      keys

-- One operation on the runs table. `retried` is one attempt of `TransitionRun`, with a callback
-- that leaves the identifier and the status alone; `swept` is `FailStaleRuns` over live statuses.
pub data RunStep (db : Db) : Db → Type 0 where
  created : {db' : Db} (now : ℕ) (r : Run) → create_run now r db ≡ ok db' → RunStep db db'
  moved :
      {db' : Db} (driver : Driver) (id : String) (from to : RunStatus) (mutate : Run → Run)
      → KeepsRow mutate
      → transition_run_once driver id from to mutate db ≡ ok db'
      → RunStep db db'
  reconciled :
      {db' : Db} (id snapshot progress : String)
      → reconcile_cancelled_run_success id snapshot progress db ≡ ok db'
      → RunStep db db'
  progressed : (id progress : String) → RunStep db (update_run_progress id progress db)
  swept :
      (statuses : List RunStatus) (code : String) (at : ℕ)
      → All (λ s. is_active s ≡ true) statuses
      → RunStep db (fail_stale_runs statuses code at db).1
  cleared : (id : String) → RunStep db (clear_run_progress id db)
  deleted : {db' : Db} (id : String) → delete_run id db ≡ ok db' → RunStep db db'

pub reconciled-rows :
    (id snapshot progress : String) (db db' : Db)
    → reconcile_cancelled_run_success id snapshot progress db ≡ ok db'
    → db'.runs ≡ update_where (is_cancelled_run id) (reconciled_row snapshot progress) db.runs
unfolding reconcile_cancelled_run_success
reconciled-rows id snapshot progress db db' h = ground arith

pub deleted-rows :
    (id : String) (db db' : Db)
    → delete_run id db ≡ ok db'
    → db'.runs ≡ delete_where (has_id id) db.runs
unfolding delete_run
deleted-rows id db db' h = ground arith

pub RunStep-HasKeys : {db db' : Db} → RunStep db db' → HasKeys db → HasKeys db'
unfolding update_run_progress fail_stale_runs clear_run_progress
RunStep-HasKeys {db} (created {db' = db'} now r h) keys = create_run-HasKeys now r db db' h keys
RunStep-HasKeys {db} (moved {db' = db'} driver id from to mutate k h) keys =
    HasKeys-Moved id from to mutate k db db'
      (transition_run_once-Moved driver id from to mutate db db' h) keys
RunStep-HasKeys {db} (reconciled {db' = db'} id snapshot progress h) keys =
    rw (reconciled-rows id snapshot progress db db' h) (
      update-HasKeys (is_cancelled_run id) (reconciled_row snapshot progress) db
        (λ r e. ground arith) keys)
RunStep-HasKeys {db} (progressed id progress) keys =
    update-HasKeys (is_live_run id) (progress_row progress) db (λ r e. ground arith) keys
RunStep-HasKeys {db} (swept statuses code at live) keys =
    update-HasKeys (has_status_in statuses) (failed_row code at) db (λ r e. ground arith) keys
RunStep-HasKeys {db} (cleared id) keys =
    update-HasKeys (has_id id) (progress_row "{}") db (λ r e. ground arith) keys
RunStep-HasKeys {db} (deleted {db' = db'} id h) keys =
    rw (deleted-rows id db db' h) (NoClash-delete_where clash (has_id id) db.runs keys)

-- No operation on the runs table touches the requests.
requests-invalidate :
    (now : ℕ) (repo : String) (clear : Bool) (db db' : Db)
    → invalidate_snapshot_cache_tx now repo clear db ≡ ok db'
    → db'.requests ≡ db.requests
unfolding invalidate_snapshot_cache_tx
requests-invalidate now repo clear db db' h = ground arith

pub requests-create_run :
    (now : ℕ) (r : Run) (db db' : Db) → create_run now r db ≡ ok db' → db'.requests ≡ db.requests
unfolding create_run insert_run_tx
requests-create_run now r db db' h = ground (
  arith,
  requests-invalidate now r.repository_id (r.operation == forget) (record db { runs = r ∷ db.runs })
      db',
)

pub requests-RunStep : {db db' : Db} → RunStep db db' → db'.requests ≡ db.requests
unfolding reconcile_cancelled_run_success update_run_progress fail_stale_runs clear_run_progress
    delete_run
requests-RunStep {db} (created {db' = db'} now r h) = requests-create_run now r db db' h
requests-RunStep {db} (moved {db' = db'} driver id from to mutate k h) =
    ground (arith, (transition_run_once-Moved driver id from to mutate db db' h).wrote)
requests-RunStep {db} (reconciled {db' = db'} id snapshot progress h) = ground arith
requests-RunStep {db} (progressed id progress) = refl
requests-RunStep {db} (swept statuses code at live) = refl
requests-RunStep {db} (cleared id) = refl
requests-RunStep {db} (deleted {db' = db'} id h) = ground arith
