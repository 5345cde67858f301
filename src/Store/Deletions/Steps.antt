-- ===== src/Store/Deletions/Steps.antt =====
-- What the intents to delete snapshots keep over any operations
-- (internal/server/store/sqlite.go).
use backup_management_center.Common.{
  ℕ, String, ◌≡◌, refl, inl, inr, Bool, ◌&&◌, suc, List, [], ◌∷◌, arith, string_eq, nat_eq,
  update_where, delete_where, any_where, Bool-cases, Option-cases, subst,
}
use backup_management_center.Model.Types.{Run, Snapshot, SnapshotDeletion}
use backup_management_center.Store.Outcome.{ok, Outcome-cases}
use backup_management_center.Store.Db.{Db}
use backup_management_center.Store.Deletions.{
  of_id, of_snapshot, queue_manual_snapshot_deletion, claim_snapshot_deletion_run, completed_row,
  complete_snapshot_deletion, retried_row, retry_snapshot_deletion,
}
use backup_management_center.Store.Deletions.Scan.{
  orphan_candidate, upsert_orphan_candidate_tx, vouches, parse_snapshot_tags,
  delete_absent_candidates_tx, reconcile_snapshot, reconcile_snapshots,
  finish_snapshot_cleanup_scan, open_cleanup, cleanup_of, absent,
}
use backup_management_center.Store.Deletions.Aged.{
  IsDeletions, NoCandidate, queue-IsDeletions, claim-IsDeletions, upsert-IsDeletions,
  settled-IsDeletions, delete-IsDeletions,
}

reconcile-IsDeletions :
    (id repo : String) (now : ℕ) (snap : Snapshot) (db db' : Db)
    → reconcile_snapshot id repo now snap db ≡ ok db'
    → IsDeletions db.deletions
    → IsDeletions db'.deletions
unfolding reconcile_snapshot
reconcile-IsDeletions id repo now snap db db' h w =
    elim (Option-cases (parse_snapshot_tags snap.tags)) [
      | inl e ↦ let rows : db'.deletions ≡ db.deletions = ground arith in rw rows w
      | inr ((plan_id, kind, run_tag), e) ↦
          elim (Bool-cases (any_where (vouches repo snap.id run_tag) db.runs)) [
            | inl v ↦
                let rows : db'.deletions
                    ≡ delete_where (λ d. of_snapshot repo snap.id d && orphan_candidate d)
                        db.deletions =
                  ground arith in
                rw rows (
                  delete-IsDeletions (λ d. of_snapshot repo snap.id d && orphan_candidate d)
                    db.deletions w)
            | inr v ↦
                let done : upsert_orphan_candidate_tx id repo snap.id now db ≡ ok db' =
                  ground arith in
                upsert-IsDeletions id repo snap.id now db db' done w
          ]
    ]

reconcile_all-IsDeletions :
    (ids : ℕ → String) (repo : String) (now : ℕ) (snaps : List Snapshot) (db db' : Db)
    → reconcile_snapshots ids repo now snaps db ≡ ok db'
    → IsDeletions db.deletions
    → IsDeletions db'.deletions
unfolding reconcile_snapshots
reconcile_all-IsDeletions ids repo now [] db db' h w =
    let rows : db.deletions ≡ db'.deletions = ground arith in subst IsDeletions rows w
reconcile_all-IsDeletions ids repo now (snap ∷ snaps) db db' h w =
    elim (Outcome-cases (reconcile_snapshot (ids 0) repo now snap db)) [
      | inl (mid, e) ↦
          reconcile_all-IsDeletions (λ n. ids (suc n)) repo now snaps mid db' (rw e at h)
            (reconcile-IsDeletions (ids 0) repo now snap db mid e w)
      | inr (x, e) ↦ absurd (ground arith)
    ]

open_cleanup-deletions :
    (repo run_id : String) (now : ℕ) (db : Db) (opened : String × Db)
    → open_cleanup repo run_id now db ≡ ok opened
    → opened.1.deletions ≡ db.deletions
open_cleanup-deletions repo run_id now db opened h =
    elim (Option-cases (cleanup_of repo db.cleanups)) [
      | inl e ↦ ground arith
      | inr (c, e) ↦ elim (Option-cases c.scan_run_id) [
        | inl n ↦ absurd (ground arith)
        | inr (r, s) ↦ ground arith
      ]
    ]

finish-IsDeletions :
    (ids : ℕ → String) (repo run_id : String) (snaps : List Snapshot) (now : ℕ) (db db' : Db)
    → finish_snapshot_cleanup_scan ids repo run_id snaps now db ≡ ok db'
    → IsDeletions db.deletions
    → IsDeletions db'.deletions
unfolding finish_snapshot_cleanup_scan delete_absent_candidates_tx
finish-IsDeletions ids repo run_id snaps now db db' h w =
    elim (Outcome-cases (open_cleanup repo run_id now db)) [
      | inr (x, e) ↦ absurd (ground arith)
      | inl (opened, e) ↦ elim (Outcome-cases (reconcile_snapshots ids repo now snaps opened.1)) [
        | inr (x, f) ↦ absurd (ground arith)
        | inl (mid, f) ↦
            let rows : db'.deletions ≡ delete_where (absent repo snaps) mid.deletions =
              ground arith in
            rw rows (
              delete-IsDeletions (absent repo snaps) mid.deletions (
                reconcile_all-IsDeletions ids repo now snaps opened.1 mid f
                  (rw (open_cleanup-deletions repo run_id now db opened e) w)))
      ]
    ]

-- One operation on the deletion intents. Only intents that are no candidates are completed or put
-- off, as their callers take them from those that run.
pub data DeletionStep (db : Db) : Db → Type 0 where
  queued :
      {db' : Db} (id repo agent snapshot actor : String) (now : ℕ) (d : SnapshotDeletion)
      (changed : Bool)
      → queue_manual_snapshot_deletion id repo agent snapshot actor now db ≡ ok (d, changed, db')
      → DeletionStep db db'
  claimed :
      {db' : Db} (now : ℕ) (id : String) (run : Run) (lease : ℕ)
      → claim_snapshot_deletion_run now id run lease db ≡ ok db'
      → DeletionStep db db'
  completed :
      {db' : Db} (id : String) (now : ℕ)
      → NoCandidate id db
      → complete_snapshot_deletion id now db ≡ ok db'
      → DeletionStep db db'
  put_off :
      {db' : Db} (id code message : String) (next' now : ℕ)
      → NoCandidate id db
      → retry_snapshot_deletion id code message next' now db ≡ ok db'
      → DeletionStep db db'
  scanned :
      {db' : Db} (ids : ℕ → String) (repo run_id : String) (snaps : List Snapshot) (now : ℕ)
      → finish_snapshot_cleanup_scan ids repo run_id snaps now db ≡ ok db'
      → DeletionStep db db'

pub data DeletionSteps (start : Db) : Db → Type 0 where
  here : DeletionSteps start start
  next : {db db' : Db} → DeletionSteps start db → DeletionStep db db' → DeletionSteps start db'

pub DeletionStep-IsDeletions :
    {db db' : Db} → DeletionStep db db' → IsDeletions db.deletions → IsDeletions db'.deletions
unfolding complete_snapshot_deletion retry_snapshot_deletion
DeletionStep-IsDeletions {db} {db'} (queued id repo agent snapshot actor now d changed h) w =
    queue-IsDeletions id repo agent snapshot actor now db db' d changed h w
DeletionStep-IsDeletions {db} {db'} (claimed now id run lease h) w =
    claim-IsDeletions now id run lease db db' h w
DeletionStep-IsDeletions {db} {db'} (completed id now settled h) w =
    let rows : db'.deletions ≡ update_where (of_id id) (completed_row now) db.deletions =
      ground arith in
    rw rows (
      settled-IsDeletions id (completed_row now) db
        (λ d. record { same_id = refl; same_repo = refl; same_snapshot = refl })
        (λ d s a. ground arith) settled w)
DeletionStep-IsDeletions {db} {db'} (put_off id code message next' now settled h) w =
    let rows : db'.deletions
        ≡ update_where (of_id id) (retried_row code message next' now) db.deletions =
      ground arith in
    rw rows (
      settled-IsDeletions id (retried_row code message next' now) db
        (λ d. record { same_id = refl; same_repo = refl; same_snapshot = refl })
        (λ d s a. ground arith) settled w)
DeletionStep-IsDeletions {db} {db'} (scanned ids repo run_id snaps now h) w =
    finish-IsDeletions ids repo run_id snaps now db db' h w

-- Whatever is asked for, scanned and claimed, and whatever intents that are no mere candidates are
-- completed or put off, from a table in which it holds: an orphan that is no mere candidate was seen
-- by at least two scans at least seven days apart, and no two intents share an identifier or a
-- snapshot of one repository.
pub DeletionSteps-IsDeletions :
    {start db : Db}
    → DeletionSteps start db
    → IsDeletions start.deletions
    → IsDeletions db.deletions
DeletionSteps-IsDeletions here w = w
DeletionSteps-IsDeletions (next steps step) w =
    DeletionStep-IsDeletions step (DeletionSteps-IsDeletions steps w)
