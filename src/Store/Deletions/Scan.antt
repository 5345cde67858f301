-- ===== src/Store/Deletions/Scan.antt =====
-- The cleanup scan of a repository (internal/server/store/sqlite.go): the tags that name a
-- snapshot's run, the orphans among the snapshots, and the scan's own state row.
use backup_management_center.Common.{
  ℕ, suc, ◌+◌, String, Bool, true, ◌&&◌, ◌||◌, not, Option, none, some, List, [], ◌∷◌, map, ◌==◌,
  leb, nat_eq, string_eq, find_where, update_where, delete_where, any_where, member, if◌then◌else◌,
}
use Prim.Native.Char.{code}
use backup_management_center.Model.Kind.{backup, operation_eq}
use backup_management_center.Model.Status.{succeeded, status_eq}
use backup_management_center.Model.Types.{
  Run, orphan, candidate, pending, SnapshotDeletion, Snapshot, CleanupState,
}
use backup_management_center.Store.Outcome.{
  Outcome, ok, not_found, invalid_transition, foreign_key, driver_error, null_scan, ◌>>=◌, ◌>>◌,
  require, or_err,
}
use backup_management_center.Store.Db.{Db}
use backup_management_center.Store.Deletions.{
  is_manual, is_candidate, of_id, of_snapshot, new_deletion, insert_deletion,
}

-- `strings.HasPrefix` and `strings.TrimPrefix` at once: what follows the prefix.
abbrev pub after_prefix : String → String → Option String
after_prefix String.[] s = some s
after_prefix (String.◌∷◌ c p) String.[] = none
after_prefix (String.◌∷◌ c p) (String.◌∷◌ d s) =
    let rest = after_prefix p s in if code c == code d then rest else none

-- The variables of the loop in `parseSnapshotTags`.
pub record TagCounts : Type 0 where
  pub plan_count : ℕ
  pub plan_id : String
  pub kind_count : ℕ
  pub kind : String
  pub run_count : ℕ
  pub run_id : String

abbrev pub no_tags : TagCounts
no_tags = record {
  plan_count = 0;
  plan_id = "";
  kind_count = 0;
  kind = "";
  run_count = 0;
  run_id = "";
}

abbrev pub note_tag : String → TagCounts → TagCounts
note_tag tag t = elim (after_prefix "plan:" tag) [
  | some p ↦ record t { plan_count = suc t.plan_count; plan_id = p }
  | none ↦ elim (after_prefix "kind:" tag) [
    | some k ↦ record t { kind_count = suc t.kind_count; kind = k }
    | none ↦ elim (after_prefix "run:" tag) [
      | some r ↦ record t { run_count = suc t.run_count; run_id = r }
      | none ↦ t
    ]
  ]
]

abbrev pub note_tags : List String → TagCounts → TagCounts
note_tags [] t = t
note_tags (tag ∷ tags) t = note_tags tags (note_tag tag t)

-- `parseSnapshotTags`
unfoldable pub parse_snapshot_tags : List String → Option (String × String × String)
parse_snapshot_tags tags =
    let t = note_tags tags no_tags in
    if not (t.plan_count == 1) || not (t.kind_count == 1) || not (t.run_count == 1)
    then none
    else if t.plan_id == "" || t.kind == "" || t.run_id == ""
    then none
    else some (t.plan_id, t.kind, t.run_id)

-- A run that vouches for a snapshot.
abbrev pub vouches : String → String → String → Run → Bool
vouches repo snapshot run_tag r =
    r.id == run_tag
    && r.operation == backup
    && r.status == succeeded
    && r.repository_id == repo
    && r.snapshot_id == snapshot

abbrev pub orphan_candidate : SnapshotDeletion → Bool
orphan_candidate d = not (is_manual d.source) && is_candidate d.state

-- `7*24*time.Hour`
abbrev pub orphan_age : ℕ
orphan_age = 604800

abbrev pub seen_again : ℕ → SnapshotDeletion → SnapshotDeletion
seen_again now d = record d {
  seen_count = suc d.seen_count;
  state =
      if leb 2 (suc d.seen_count) && leb (d.first_seen_at + orphan_age) now
      then pending
      else candidate;
  last_seen_at = now;
  updated_at = now;
}

-- `upsertOrphanCandidateTx`; `id` is the identifier drawn for a new row.
unfoldable pub upsert_orphan_candidate_tx : String → String → String → ℕ → Db → Outcome Db
upsert_orphan_candidate_tx id repo snapshot now db =
    elim (find_where (of_snapshot repo snapshot) db.deletions) [
      | none ↦ do
        owner ← or_err driver_error (find_where (λ r. r.id == repo) db.repositories)
        insert_deletion (new_deletion id repo owner.agent_id snapshot orphan candidate "" now) db
      | some d ↦
          if is_manual d.source || not (is_candidate d.state)
          then ok db
          else ok
              (record db { deletions = update_where (of_id d.id) (seen_again now) db.deletions })
    ]

abbrev pub absent : String → List Snapshot → SnapshotDeletion → Bool
absent repo snapshots d =
    d.repository_id == repo
    && orphan_candidate d
    && not (member d.snapshot_id (map (λ s. s.id) snapshots))

-- `deleteAbsentCandidatesTx`
unfoldable pub delete_absent_candidates_tx : String → List Snapshot → Db → Db
delete_absent_candidates_tx repo snapshots db = record db {
  deletions = delete_where (absent repo snapshots) db.deletions;
}

-- The body of the loop in `FinishSnapshotCleanupScan`.
unfoldable pub reconcile_snapshot : String → String → ℕ → Snapshot → Db → Outcome Db
unfolding upsert_orphan_candidate_tx
reconcile_snapshot id repo now snap db = elim (parse_snapshot_tags snap.tags) [
  | none ↦ ok db
  | some (plan_id, kind, run_tag) ↦
      if any_where (vouches repo snap.id run_tag) db.runs
      then ok (record db {
        deletions =
            delete_where (λ d. of_snapshot repo snap.id d && orphan_candidate d) db.deletions;
      })
      else upsert_orphan_candidate_tx id repo snap.id now db
]

-- The loop; `ids` has the identifiers drawn, one for each snapshot.
unfoldable pub reconcile_snapshots : (ℕ → String) → String → ℕ → List Snapshot → Db → Outcome Db
unfolding reconcile_snapshot
reconcile_snapshots ids repo now [] db = ok db
reconcile_snapshots ids repo now (snap ∷ snaps) db = do
  reconciled ← reconcile_snapshot (ids 0) repo now snap db
  reconcile_snapshots (λ n. ids (suc n)) repo now snaps reconciled

abbrev pub cleanup_of : String → List CleanupState → Option CleanupState
cleanup_of repo = find_where (λ c. c.repository_id == repo)

-- `Scan` of the column `scan_run_id` into a Go text: NULL is an error.
abbrev pub read_scan_run : CleanupState → Outcome String
read_scan_run c = or_err null_scan c.scan_run_id

abbrev pub fresh_cleanup : String → ℕ → CleanupState
fresh_cleanup repo now = record {
  repository_id = repo;
  scan_run_id = none;
  last_scan_started_at = none;
  last_scan_completed_at = none;
  next_attempt_at = none;
  updated_at = now;
}

-- The head of `FinishSnapshotCleanupScan`: the scan's run as stored, and the row it may create.
abbrev pub open_cleanup : String → String → ℕ → Db → Outcome (String × Db)
open_cleanup repo run_id now db = elim (cleanup_of repo db.cleanups) [
  | none ↦ do
    require (run_id == "") not_found
    require (any_where (λ r. r.id == repo) db.repositories) foreign_key
    ok ("", record db { cleanups = fresh_cleanup repo now ∷ db.cleanups })
  | some c ↦ do current ← read_scan_run c; ok (current, db)
]

abbrev pub completed_scan : ℕ → CleanupState → CleanupState
completed_scan now c = record c {
  scan_run_id = none;
  last_scan_completed_at = some now;
  next_attempt_at = none;
  updated_at = now;
}

-- `FinishSnapshotCleanupScan`
unfoldable pub finish_snapshot_cleanup_scan :
    (ℕ → String) → String → String → List Snapshot → ℕ → Db → Outcome Db
unfolding reconcile_snapshots
finish_snapshot_cleanup_scan ids repo run_id snapshots now db = do
  opened ← open_cleanup repo run_id now db
  require (run_id == "" || opened.0 == run_id) invalid_transition
  reconciled ← reconcile_snapshots ids repo now snapshots opened.1
  let swept = delete_absent_candidates_tx repo snapshots reconciled
  ok (record swept {
    cleanups = update_where (λ c. c.repository_id == repo) (completed_scan now) swept.cleanups;
  })

-- `scan_run_id IS NULL OR scan_run_id = excluded.scan_run_id`
abbrev pub may_start : String → CleanupState → Bool
may_start run_id c = elim c.scan_run_id [ none ↦ true | some current ↦ current == run_id ]

abbrev pub started_scan : String → ℕ → CleanupState → CleanupState
started_scan run_id now c = record c {
  scan_run_id = some run_id;
  last_scan_started_at = some now;
  next_attempt_at = none;
  updated_at = now;
}

-- `StartSnapshotCleanupScan`: the upsert, and the reading back that tells who holds the scan.
unfoldable pub start_snapshot_cleanup_scan : String → String → ℕ → Db → Outcome Db
start_snapshot_cleanup_scan repo run_id now db = do
  require (not (run_id == "")) invalid_transition
  require (any_where (λ r. r.id == repo) db.repositories) foreign_key
  let rows =
      if any_where (λ c. c.repository_id == repo) db.cleanups
      then update_where (λ c. c.repository_id == repo && may_start run_id c)
          (started_scan run_id now) db.cleanups
      else started_scan run_id now (fresh_cleanup repo now) ∷ db.cleanups
  final ← or_err not_found (cleanup_of repo rows)
  require (may_start run_id final) invalid_transition
  ok (record db { cleanups = rows })

abbrev pub cleared_scan : ℕ → ℕ → CleanupState → CleanupState
cleared_scan next now c = record c {
  scan_run_id = none;
  next_attempt_at = some next;
  updated_at = now;
}

-- `ClearSnapshotCleanupScan`
unfoldable pub clear_snapshot_cleanup_scan : String → String → ℕ → ℕ → Db → Outcome Db
clear_snapshot_cleanup_scan repo run_id next now db = do
  c ← or_err not_found (cleanup_of repo db.cleanups)
  current ← read_scan_run c
  require (current == run_id) invalid_transition
  ok (record db {
    cleanups = update_where (λ c. c.repository_id == repo) (cleared_scan next now) db.cleanups;
  })
