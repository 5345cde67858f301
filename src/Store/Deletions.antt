-- ===== src/Store/Deletions.antt =====
-- Snapshot deletion intents (internal/server/store/sqlite.go): asked for by hand, or found by a
-- scan to be orphans; claimed by a run, completed or put off. The reference of an intent to its
-- agent is left out, as there is no table of agents here.
pub mod Scan
pub mod Aged
pub mod Steps
use backup_management_center.Common.{
  ℕ, suc, ◌+◌, String, Bool, true, false, ◌&&◌, ◌||◌, not, Option, none, some, List, [], ◌∷◌, ◌==◌,
  leb, ltb, string_eq, find_where, select_where, update_where, any_where, take, if◌then◌else◌,
}
use backup_management_center.Model.Types.{
  Run, DeletionSource, manual, orphan, DeletionState, candidate, pending, running, succeeded,
  SnapshotDeletion,
}
use backup_management_center.Store.Outcome.{
  Outcome, ok, err, not_found, invalid_transition, foreign_key, driver_error, ◌>>=◌, ◌>>◌, require,
  or_err,
}
use backup_management_center.Store.Db.{Db}
use backup_management_center.Store.Runs.{clash}

abbrev pub is_manual : DeletionSource → Bool
is_manual manual = true
is_manual orphan = false

abbrev pub is_candidate : DeletionState → Bool
is_candidate candidate = true
is_candidate _ = false

abbrev pub is_pending : DeletionState → Bool
is_pending pending = true
is_pending _ = false

abbrev pub is_running : DeletionState → Bool
is_running running = true
is_running _ = false

abbrev pub of_id : String → SnapshotDeletion → Bool
of_id id d = d.id == id

-- The key `UNIQUE (repository_id, snapshot_id)`.
abbrev pub of_snapshot : String → String → SnapshotDeletion → Bool
of_snapshot repo snapshot d = d.repository_id == repo && d.snapshot_id == snapshot

-- Two rows that the table's keys do not admit together.
abbrev pub collide : SnapshotDeletion → SnapshotDeletion → Bool
collide a b = a.id == b.id || of_snapshot a.repository_id a.snapshot_id b

abbrev pub new_deletion :
    String
    → String
    → String
    → String
    → DeletionSource
    → DeletionState
    → String
    → ℕ
    → SnapshotDeletion
new_deletion id repo agent snapshot source state actor now = record {
  id = id;
  repository_id = repo;
  agent_id = agent;
  snapshot_id = snapshot;
  source = source;
  state = state;
  first_seen_at = now;
  last_seen_at = now;
  seen_count = 1;
  next_attempt_at = none;
  attempt = 0;
  run_id = "";
  lease_expires_at = none;
  error_code = "";
  error_message = "";
  requested_by = actor;
  created_at = now;
  updated_at = now;
  completed_at = none;
}

-- `INSERT INTO snapshot_deletions`
abbrev pub insert_deletion : SnapshotDeletion → Db → Outcome Db
insert_deletion d db = do
  require (any_where (λ r. r.id == d.repository_id) db.repositories) foreign_key
  require (not (any_where (collide d) db.deletions)) driver_error
  ok (record db { deletions = d ∷ db.deletions })

abbrev pub as_manual : String → String → ℕ → SnapshotDeletion → SnapshotDeletion
as_manual agent actor now d = record d {
  source = manual;
  state = pending;
  agent_id = agent;
  requested_by = actor;
  next_attempt_at = none;
  error_code = "";
  error_message = "";
  updated_at = now;
}

-- `QueueManualSnapshotDeletion`; `id` is the identifier drawn for a new row.
unfoldable pub queue_manual_snapshot_deletion :
    String → String → String → String → String → ℕ → Db → Outcome (SnapshotDeletion × Bool × Db)
queue_manual_snapshot_deletion id repo agent snapshot actor now db =
    elim (find_where (of_snapshot repo snapshot) db.deletions) [
      | none ↦ do
        let d = new_deletion id repo agent snapshot manual pending actor now
        after ← insert_deletion d db
        ok (d, true, after)
      | some d ↦
          if not (is_candidate d.state)
          then ok (d, false, db)
          else ok (
            as_manual agent actor now d,
            true,
            record db {
              deletions = update_where (of_id d.id) (as_manual agent actor now) db.deletions;
            },
          )
    ]

-- `HiddenSnapshotIDs`, as a test.
unfoldable pub hidden_snapshot : String → String → Db → Bool
hidden_snapshot repo snapshot db =
    any_where (λ d. of_snapshot repo snapshot d && not (is_candidate d.state)) db.deletions

abbrev pub insert_sorted {ℓ} : {A : Type ℓ} → (A → A → Bool) → A → List A → List A
insert_sorted before x [] = x ∷ []
insert_sorted before x (y ∷ ys) =
    let rest = insert_sorted before x ys in if before y x then y ∷ rest else x ∷ y ∷ ys

abbrev pub sort_by {ℓ} : {A : Type ℓ} → (A → A → Bool) → List A → List A
sort_by before [] = []
sort_by before (x ∷ xs) = insert_sorted before x (sort_by before xs)

-- `ListRunningSnapshotDeletions`. Rows that the query's order leaves tied keep the table's order.
unfoldable pub list_running_snapshot_deletions : Db → List SnapshotDeletion
list_running_snapshot_deletions db =
    sort_by (λ a b. ltb a.updated_at b.updated_at)
      (select_where (λ d. is_running d.state) db.deletions)

-- `ORDER BY next_attempt_at ASC NULLS FIRST, updated_at ASC`
abbrev pub due_before : SnapshotDeletion → SnapshotDeletion → Bool
due_before a b = elim a.next_attempt_at [
  | none ↦ elim b.next_attempt_at [ none ↦ ltb a.updated_at b.updated_at | some u ↦ true ]
  | some t ↦ elim b.next_attempt_at [
    | none ↦ false
    | some u ↦ ltb t u || (leb t u && ltb a.updated_at b.updated_at)
  ]
]

abbrev pub is_due : ℕ → SnapshotDeletion → Bool
is_due now d = is_pending d.state && elim d.next_attempt_at [ none ↦ true | some t ↦ leb t now ]

-- `ListDueSnapshotDeletions`; a limit that is not positive is 0 here.
unfoldable pub list_due_snapshot_deletions : ℕ → ℕ → Db → List SnapshotDeletion
list_due_snapshot_deletions now limit db =
    take (if leb limit 0 then 100 else limit)
      (sort_by due_before (select_where (is_due now) db.deletions))

abbrev pub claimed_row : String → ℕ → ℕ → SnapshotDeletion → SnapshotDeletion
claimed_row run_id lease now d = record d {
  state = running;
  run_id = run_id;
  lease_expires_at = some lease;
  attempt = d.attempt + 1;
  error_code = "";
  error_message = "";
  updated_at = now;
}

-- `ClaimSnapshotDeletionRun`. Its own INSERT writes no task key, and does not invalidate caches.
unfoldable pub claim_snapshot_deletion_run : ℕ → String → Run → ℕ → Db → Outcome Db
claim_snapshot_deletion_run now id run lease db = do
  d ← or_err not_found (find_where (of_id id) db.deletions)
  require (is_pending d.state) invalid_transition
  let row = record run { dedup_key = "" }
  require (not (any_where (clash row) db.runs)) driver_error
  ok (record db {
    runs = row ∷ db.runs;
    deletions = update_where (of_id id) (claimed_row run.id lease now) db.deletions;
  })

abbrev pub completed_row : ℕ → SnapshotDeletion → SnapshotDeletion
completed_row now d = record d {
  state = succeeded;
  completed_at = some now;
  error_code = "";
  error_message = "";
  next_attempt_at = none;
  updated_at = now;
}

-- `CompleteSnapshotDeletion`
unfoldable pub complete_snapshot_deletion : String → ℕ → Db → Outcome Db
complete_snapshot_deletion id now db = do
  require (any_where (of_id id) db.deletions) not_found
  ok (record db { deletions = update_where (of_id id) (completed_row now) db.deletions })

abbrev pub retried_row : String → String → ℕ → ℕ → SnapshotDeletion → SnapshotDeletion
retried_row code message next now d = record d {
  state = pending;
  run_id = "";
  lease_expires_at = none;
  error_code = code;
  error_message = message;
  next_attempt_at = some next;
  updated_at = now;
}

-- `RetrySnapshotDeletion`
unfoldable pub retry_snapshot_deletion : String → String → String → ℕ → ℕ → Db → Outcome Db
retry_snapshot_deletion id code message next now db = do
  require (any_where (of_id id) db.deletions) not_found
  ok (record db {
    deletions = update_where (of_id id) (retried_row code message next now) db.deletions;
  })
