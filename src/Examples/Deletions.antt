-- ===== src/Examples/Deletions.antt =====
-- Two scans, eight days apart, that find the same orphan.
use backup_management_center.Common.{ℕ, String, ◌≡◌, refl, [], ◌∷◌, some, ◌+◌}
use backup_management_center.Model.Types.{Snapshot, SnapshotDeletion, orphan, candidate, pending}
use backup_management_center.Store.Outcome.{ok}
use backup_management_center.Store.Db.{Db}
use backup_management_center.Store.Deletions.{new_deletion}
use backup_management_center.Store.Deletions.Scan.{
  finish_snapshot_cleanup_scan, parse_snapshot_tags, delete_absent_candidates_tx, fresh_cleanup,
  completed_scan,
}
use backup_management_center.Store.Deletions.Aged.{IsDeletions}
use backup_management_center.Store.Deletions.Steps.{here, next, scanned, DeletionSteps-IsDeletions}
use backup_management_center.Examples.Stores.{start}

abbrev lost : Snapshot
lost = record {
  id = "lost";
  time = "t";
  host = "h";
  tags = "plan:p" ∷ "kind:mysql" ∷ "run:r" ∷ [];
  paths = [];
}

abbrev ids : ℕ → String
ids n = "deletion"

abbrev eight_days : ℕ
eight_days = 691200

abbrev found_once : SnapshotDeletion
found_once = new_deletion "deletion" "repo" "agent" "lost" orphan candidate "" 10

abbrev first_scan : Db
first_scan = record start {
  deletions = found_once ∷ [];
  cleanups = completed_scan 10 (fresh_cleanup "repo" 10) ∷ [];
}

scan_once : finish_snapshot_cleanup_scan ids "repo" "" (lost ∷ []) 10 start ≡ ok first_scan
unfolding finish_snapshot_cleanup_scan parse_snapshot_tags delete_absent_candidates_tx
scan_once = refl

abbrev scanning : Db
scanning = record first_scan {
  cleanups = record (fresh_cleanup "repo" 10) { scan_run_id = some "scan" } ∷ [];
}

abbrev second_scan : Db
second_scan = record scanning {
  deletions =
      record found_once {
        state = pending;
        seen_count = 2;
        last_seen_at = eight_days + 10;
        updated_at = eight_days + 10;
      }
      ∷ [];
  cleanups = completed_scan (eight_days + 10) (fresh_cleanup "repo" 10) ∷ [];
}

scan_again :
    finish_snapshot_cleanup_scan ids "repo" "scan" (lost ∷ []) (eight_days + 10) scanning
    ≡ ok second_scan
unfolding finish_snapshot_cleanup_scan parse_snapshot_tags delete_absent_candidates_tx
scan_again = refl

found_once-IsDeletions : IsDeletions (found_once ∷ [])
found_once-IsDeletions = record { keys = (refl, tt); aged = (refl, tt) }

DeletionSteps-IsDeletions_example : IsDeletions second_scan.deletions
DeletionSteps-IsDeletions_example =
    DeletionSteps-IsDeletions
      (next here (scanned ids "repo" "scan" (lost ∷ []) (eight_days + 10) scan_again))
      found_once-IsDeletions
