-- ===== src/Service/Progress.antt =====
-- What an agent says of a run on its way (internal/server/agentreg/service.go).
use backup_management_center.Common.{
  ℕ, String, false, not, Option, none, some, ◌∷◌, ◌==◌, string_eq, if◌then◌else◌,
}
use backup_management_center.Model.Kind.{restore, operation_eq}
use backup_management_center.Model.Status.{dispatched, running, status_eq}
use backup_management_center.Model.Phase.{RestorePhase, phase_eq}
use backup_management_center.Model.Phase as Phase
use backup_management_center.Model.Types.{Run}
use backup_management_center.Store.Outcome.{StoreErr, ok, err, not_found, ◌>>◌}
use backup_management_center.Store.Db.{Db}
use backup_management_center.Store.Runs.{
  get_run, transition_run, update_run_progress, Driver, passes,
}
use backup_management_center.Store.Restores.{update_restore_phase, update_restore_rollback_snapshot}
use backup_management_center.Service.{Service, Reply, done, permission_denied, store_failed}

-- What the driver does during one message: to the read, to each try of a transition, and to the
-- write that reconciles.
pub record Faults : Type 0 where
  pub read_run : Option StoreErr
  pub accept : ℕ → Driver
  pub from_running : ℕ → Driver
  pub from_dispatched : ℕ → Driver
  pub reconcile : Option StoreErr

abbrev pub log_line : String → String → String → Service → Service
log_line run_id level message s = record s {
  logs = record { run_id = run_id; level = level; message = message } ∷ s.logs;
}

-- The answer when the run cannot be read: a run that is gone is no error.
abbrev pub read_refusal : StoreErr → Reply
read_refusal not_found = done
read_refusal e = store_failed e

abbrev pub accepted_row : ℕ → Run → Run
accepted_row now r = record r { started_at = some now; lease_expires_at = none }

-- `handleCommandAccepted`
unfoldable pub handle_command_accepted : Faults → ℕ → String → String → Service → Reply × Service
handle_command_accepted faults now agent run_id s =
    elim (passes faults.read_run >> get_run run_id s.db) [
      | err e ↦ (read_refusal e, s)
      | ok run ↦
          if not (run.agent_id == agent)
          then (permission_denied, s)
          else if not (run.status == dispatched)
          then (done, s)
          else elim (transition_run (λ _. false) faults.accept run_id dispatched running
              (accepted_row now) s.db) [
                | err e ↦ (store_failed e, s)
                | ok after ↦ (
                  done,
                  log_line run_id "info" "Agent 已接收任务，开始执行" (record s {
                    db =
                        if run.operation == restore
                        then update_restore_phase run_id Phase.running after
                        else after;
                  }),
                )
              ]
    ]

-- `rollback` reads `rollback_snapshot_id` out of a progress detail; "" if that does not parse.
module _ (rollback : String → String) where
  -- The two updates of a restore's request; the phase is `unset` for "".
  abbrev pub restore_progress : String → String → RestorePhase → Db → Db
  restore_progress run_id detail phase db =
      let kept =
        if detail == "" then db else update_restore_rollback_snapshot run_id (rollback detail) db in
      if phase == Phase.unset then kept else update_restore_phase run_id phase kept

  -- `handleRunProgress`; `json` is the progress as the store keeps it.
  unfoldable pub handle_run_progress :
      Faults → String → String → String → String → RestorePhase → Service → Reply × Service
  handle_run_progress faults agent run_id json detail phase s =
      elim (passes faults.read_run >> get_run run_id s.db) [
        | err e ↦ (read_refusal e, s)
        | ok run ↦
            if not (run.agent_id == agent)
            then (permission_denied, s)
            else (let db' = update_run_progress run_id json s.db in
                (
                  done,
                  record s {
                    db =
                        if run.operation == restore
                        then restore_progress run_id detail phase db'
                        else db';
                  },
                ))
      ]
