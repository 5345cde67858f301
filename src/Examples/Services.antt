-- ===== src/Examples/Services.antt =====
-- The end of a backup that is reported twice, a restore that fails, and an agent that goes away.
use backup_management_center.Common.{
  String, ◌≡◌, refl, Bool, true, false, ◌&&◌, not, ◌==◌, Option, none, some, [], ◌∷◌, All,
  find_where,
}
use backup_management_center.Model.Status.{running, failed, succeeded, cancelled, status_eq}
use backup_management_center.Model.Phase.{RestorePhase, phase_eq, releases_occupancy}
use backup_management_center.Model.Phase as Phase
use backup_management_center.Model.Types.{Run}
use backup_management_center.Store.Outcome.{busy}
use backup_management_center.Store.Runs.{has_id}
use backup_management_center.Store.Restores.{repository_restore_blocked}
use backup_management_center.Service.{Service, done}
use backup_management_center.Service.Reports.{
  RunResult, reported_succeeded, reported_failed, restore_result_outcome,
}
use backup_management_center.Service.Results.{handle_run_result}
use backup_management_center.Service.Endings.{calm}
use backup_management_center.Service.Outcomes.{restore_result_outcome-cautious}
use backup_management_center.Service.Blocked.{handle_run_result-keeps_block}
use backup_management_center.Service.Repeated.{
  handle_run_result-once, handle_run_result-finished, handle_run_result-loses_success,
}
use backup_management_center.Service.Disconnect.{handle_disconnect}
use backup_management_center.Service.InFlight.{in_flight, no_faults}
use backup_management_center.Service.Cleared.{handle_disconnect-clears}
use backup_management_center.Examples.Stores.{backup_run, start}
use backup_management_center.Examples.Restores.{restore_run, request}
use backup_management_center.Examples.Enrollments.{service}

abbrev silent : String → Option (RestorePhase × String)
silent json = none

abbrev no_init : String → Bool
no_init json = false

abbrev finished_backup : RunResult
finished_backup = record {
  run_id = "run";
  status = reported_succeeded;
  snapshot_ids = "snap" ∷ [];
  error_code = "";
  error_message = "";
  result_json = "";
}

abbrev running_backup : Run
running_backup = record backup_run { status = running }

abbrev at_work : Service
at_work = record service { db = record start { runs = running_backup ∷ [] } }

abbrev after_backup : Service
after_backup = (handle_run_result silent no_init calm 20 "agent" finished_backup at_work).1

handle_run_result-once_example :
    ((row : Run) × (find_where (has_id "run") after_backup.db.runs ≡ some row)
      × (row.status ≡ succeeded))
    × ((handle_run_result silent no_init calm 30 "agent" finished_backup after_backup).1
        ≡ after_backup)
handle_run_result-once_example =
    handle_run_result-once silent no_init calm 20 30 "agent" finished_backup succeeded
      running_backup at_work (refl, tt) refl refl refl refl refl

abbrev done_backup : Service
done_backup = record service {
  db = record start { runs = record backup_run { status = succeeded } ∷ [] };
}

handle_run_result-finished_example :
    (handle_run_result silent no_init calm 20 "agent" finished_backup done_backup).1 ≡ done_backup
handle_run_result-finished_example =
    handle_run_result-finished silent no_init calm 20 "agent" finished_backup succeeded
      (record backup_run { status = succeeded }) done_backup (refl, tt) refl refl refl refl refl

abbrev cancelled_backup : Service
cancelled_backup = record service {
  db = record start { runs = record backup_run { status = cancelled } ∷ [] };
}

handle_run_result-loses_success_example :
    handle_run_result silent no_init
      (record calm { reconcile = some busy })
      20
      "agent"
      finished_backup
      cancelled_backup
    ≡ (done, cancelled_backup)
handle_run_result-loses_success_example =
    handle_run_result-loses_success silent no_init busy 20 "agent" finished_backup
      (record backup_run { status = cancelled }) cancelled_backup refl refl refl refl refl

abbrev failed_restore : RunResult
failed_restore = record finished_backup {
  run_id = "restore";
  status = reported_failed;
  snapshot_ids = [];
}

abbrev restoring : Service
restoring = record service {
  db = record start {
    runs = record restore_run { status = running } ∷ [];
    requests = record request { phase = Phase.restoring } ∷ [];
  };
}

handle_run_result-keeps_block_example :
    repository_restore_blocked "repo" "run"
      (handle_run_result silent no_init calm 20 "agent" failed_restore restoring).1.db
    ≡ true
handle_run_result-keeps_block_example =
    handle_run_result-keeps_block silent no_init calm 20 "agent" failed_restore failed
      (record restore_run { status = running }) (record request { phase = Phase.restoring }) "repo"
      "run" restoring refl refl refl refl refl refl refl refl refl

restore_result_outcome-cautious_example :
    ((releases_occupancy (restore_result_outcome silent failed_restore failed).phase
        && not (Phase.unset == (restore_result_outcome silent failed_restore failed).phase)
        && true)
      ≡ false)
    × (((restore_result_outcome silent failed_restore failed).phase == Phase.manual_recovery_done)
        ≡ false)
    × (not (
          (restore_result_outcome silent failed_restore failed).phase
          == Phase.manual_recovery_needed)
        ≡ false)
restore_result_outcome-cautious_example =
    restore_result_outcome-cautious silent failed_restore failed refl

handle_disconnect-clears_example :
    All (λ r. in_flight "agent" r ≡ false) (handle_disconnect no_faults 20 "agent" at_work).db.runs
handle_disconnect-clears_example = handle_disconnect-clears 20 "agent" at_work (refl, tt)
