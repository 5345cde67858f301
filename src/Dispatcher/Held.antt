-- ===== src/Dispatcher/Held.antt =====
-- Jobs that wait for a restore of their repository (`processJob` of
-- internal/server/dispatchgrpc/dispatcher.go).
use backup_management_center.Common.{
  ℕ, String, ◌≡◌, refl, true, false, Option, none, ◌==◌, string_eq, member, any_where,
}
use backup_management_center.Model.Kind.{restore, operation_eq}
use backup_management_center.Model.Types.{Run}
use backup_management_center.Store.Outcome.{ok}
use backup_management_center.Store.Db.{Db}
use backup_management_center.Store.Runs.{get_run}
use backup_management_center.Store.Restores.{of_run, protected_restore_snapshot_ids}
use backup_management_center.Store.Restores.Protected.{protected-blocks_repository}
use backup_management_center.Dispatcher.{Dispatcher, Job}
use backup_management_center.Dispatcher.Process.{Faults, process_job, dispatch_gated, put_back}

-- While a restore that has not ended safely protects a snapshot of a repository, the job of any
-- run there that is no restore, and has no restore request, is handed back to `requeueJob` and not
-- sent, and the database and the streams stay as they are. The reads of the run and of the block
-- succeed.
pub process_job-holds_back :
    (faults : Faults) (now : ℕ) (build : String → Db → Option String) (j : Job) (d : Dispatcher)
    (run : Run) (snapshot : String)
    → faults.read_run ≡ none
    → faults.read_blocked ≡ none
    → get_run j.run_id d.db ≡ ok run
    → (run.operation == restore) ≡ false
    → any_where (of_run j.run_id) d.db.requests ≡ false
    → member snapshot (protected_restore_snapshot_ids j.repository_id d.db) ≡ true
    → process_job faults now build j d ≡ put_back j d
unfolding process_job dispatch_gated
process_job-holds_back faults now build j d run snapshot calm calm' read other free protected =
    let blocked =
      protected-blocks_repository snapshot j.repository_id j.run_id d.db free protected in
    rw (process_job, calm, read, other, dispatch_gated, calm', blocked) refl
