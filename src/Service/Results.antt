-- ===== src/Service/Results.antt =====
-- What the service makes of the end of a run (internal/server/agentreg/service.go). Times that a
-- handler reads twice are one time.
use Prim.Native.String.{◌++◌}
use backup_management_center.Common.{
  ℕ, String, Bool, true, false, ◌&&◌, not, Option, none, some, ◌∷◌, ◌==◌, string_eq, if◌then◌else◌,
}
use backup_management_center.Model.Kind.{backup, check, forget, restore, operation_eq}
use backup_management_center.Model.Status.{
  RunStatus, dispatched, running, succeeded, failed, status_eq,
}
use backup_management_center.Model.Phase.{RestorePhase, phase_eq}
use backup_management_center.Model.Types.{Run}
use backup_management_center.Store.Outcome.{
  StoreErr, Outcome, ok, err, invalid_transition, settle, ◌>>=◌, ◌>>◌,
}
use backup_management_center.Store.Db.{Db}
use backup_management_center.Store.Runs.{
  get_run, transition_run, reconcile_cancelled_run_success, passes,
}
use backup_management_center.Store.Restores.{finish_restore_run}
use backup_management_center.Store.Repositories.{update_repository_status, mark_repository_checked}
use backup_management_center.Store.Plans.{get_plan}
use backup_management_center.Service.Progress.{Faults, log_line, read_refusal}
use backup_management_center.Service.{
  Service, Reply, done, permission_denied, unknown_status, store_failed,
}
use backup_management_center.Service.Reports.{
  RunResult, to_status, first_id, terminal_run_log, restore_result_outcome, shown_status,
  finish_input,
}

-- `if errors.Is(err, ErrInvalidTransition)`: the next way, or the error.
abbrev pub if_invalid : StoreErr → Outcome (Bool × Db) → Outcome (Bool × Db)
if_invalid invalid_transition next = next
if_invalid e next = err e

-- The answer when the end cannot be written: a run that has ended is no error.
abbrev pub end_refusal : StoreErr → Reply
end_refusal invalid_transition = done
end_refusal e = store_failed e

-- `payload` reads the phase and the rollback snapshot out of a result's JSON; `none` if that does
-- not parse. `is_init` is whether a run's JSON is an `InitTask` with `ResticInit`.
module _ (payload : String → Option (RestorePhase × String)) (is_init : String → Bool) where
  abbrev pub result_row : ℕ → RunResult → Run → Run
  result_row now res r = record r {
    finished_at = some now;
    error_code = res.error_code;
    error_message = res.error_message;
    snapshot_id = first_id res.snapshot_ids;
    lease_expires_at = none;
    progress_json = if res.result_json == "" then r.progress_json else res.result_json;
  }

  abbrev pub fast_row : ℕ → RunResult → Run → Run
  fast_row now res r = record (result_row now res r) { started_at = some now }

  -- `reconcileCancelledSuccess` and what its caller makes of it: whatever its error is, it counts
  -- as an invalid transition. The Boolean is whether a cancelled run was reconciled.
  unfoldable pub reconcile_late : Faults → RunResult → RunStatus → Db → Outcome (Bool × Db)
  reconcile_late faults res to db =
      if to == succeeded
      then elim (passes faults.reconcile
          >> reconcile_cancelled_run_success res.run_id (first_id res.snapshot_ids) res.result_json
              db) [ ok after ↦ ok (true, after) | err _ ↦ err invalid_transition ]
      else err invalid_transition

  -- The three ways to end a run that is not a restore.
  unfoldable pub finish_run : Faults → ℕ → RunResult → RunStatus → Db → Outcome (Bool × Db)
  unfolding reconcile_late
  finish_run faults now res to db =
      elim (transition_run (λ _. false) faults.from_running res.run_id running to
        (result_row now res) db) [
          | ok after ↦ ok (false, after)
          | err e ↦
              if_invalid e
                (elim (transition_run (λ _. false) faults.from_dispatched res.run_id dispatched to
                  (fast_row now res) db) [
                    | ok after ↦ ok (false, after)
                    | err e' ↦ if_invalid e' (reconcile_late faults res to db)
                  ])
        ]

  -- `isRepositoryInitRun`
  abbrev pub is_repository_init_run : Run → Bool
  is_repository_init_run r =
      r.operation == forget && not (r.repository_id == "") && is_init r.progress_json

  -- The repository's status after the run that initialised it; an error is logged.
  abbrev pub heal_repository : Run → RunStatus → Db → Db
  heal_repository run to db =
      if is_repository_init_run run
      then settle db (
          update_repository_status run.repository_id (if to == succeeded then "ready" else "error")
            db)
      else db

  -- The run's repository, or that of its plan.
  abbrev pub repository_of : Run → Db → String
  repository_of run db =
      if run.repository_id == "" && not (run.plan_id == "")
      then elim (get_plan run.plan_id db) [ ok p ↦ p.repository_id | err _ ↦ "" ]
      else run.repository_id

  abbrev pub mark_checked : ℕ → Run → RunStatus → Db → Db
  mark_checked now run to db =
      if to == succeeded && run.operation == check && not (repository_of run db == "")
      then mark_repository_checked (repository_of run db) now db
      else db

  abbrev pub publish_end : String → Service → Service
  publish_end run_id s = elim (get_run run_id s.db) [
    | err _ ↦ s
    | ok r ↦
        let line = terminal_run_log r in
        record (log_line run_id line.0 line.1 s) { published = r ∷ s.published }
  ]

  abbrev pub warm : String → RunResult → Run → RunStatus → Service → Service
  warm agent res run to s =
      if to == succeeded
        && run.operation == backup
        && s.has_warm_cache
        && not (repository_of run s.db == "")
        && not (agent == "")
        && not s.stopped
      then record s {
        warmed =
            record {
              repository_id = repository_of run s.db;
              snapshot_id = first_id res.snapshot_ids;
            }
            ∷ s.warmed;
      }
      else s

  abbrev pub notify_failure : String → RunStatus → Service → Service
  notify_failure run_id to s =
      if to == failed then record s { notified = run_id ∷ s.notified } else s

  -- What follows once the end of the run is written.
  unfoldable pub after_end : ℕ → String → RunResult → Run → RunStatus → Service → Service
  unfolding terminal_run_log get_run
  after_end now agent res run to s =
      let healed = heal_repository run to s.db in
      let clean = record s { db = mark_checked now run to healed; wiped = res.run_id ∷ s.wiped } in
      notify_failure res.run_id to (warm agent res run to (publish_end res.run_id clean))

  abbrev pub log_reconciled : Bool → RunResult → Service → Service
  log_reconciled false res s = s
  log_reconciled true res s =
      log_line res.run_id "warn"
        ("取消未生效：Agent 在取消送达前已完成本次运行，已按成功记录（快照 " ++ first_id res.snapshot_ids ++ "）") s

  -- The end that the handler writes, and the status that it then goes by.
  abbrev pub write_end : Faults → ℕ → RunResult → Run → RunStatus → Db → Outcome (Bool × Db)
  write_end faults now res run to db =
      if run.operation == restore
      then (finish_restore_run (finish_input payload now res to) db >>= λ after. ok (false, after))
      else finish_run faults now res to db

  abbrev pub status_after : RunResult → Run → RunStatus → RunStatus
  status_after res run to =
      if run.operation == restore
      then shown_status (restore_result_outcome payload res to) to
      else to

  -- `handleRunResult` for a run that the agent holds.
  unfoldable pub end_held :
      Faults → ℕ → String → RunResult → Run → RunStatus → Service → Reply × Service
  unfolding finish_run restore_result_outcome after_end
  end_held faults now agent res run to s = elim (write_end faults now res run to s.db) [
    | err e ↦ (end_refusal e, s)
    | ok (reconciled, after) ↦ (
      done,
      after_end now agent res run (status_after res run to)
          (log_reconciled reconciled res (record s { db = after })),
    )
  ]

  -- `handleRunResult`
  unfoldable pub handle_run_result : Faults → ℕ → String → RunResult → Service → Reply × Service
  unfolding end_held
  handle_run_result faults now agent res s = elim (to_status res.status) [
    | none ↦ (unknown_status, s)
    | some to ↦ elim (passes faults.read_run >> get_run res.run_id s.db) [
      | err e ↦ (read_refusal e, s)
      | ok run ↦
          if not (run.agent_id == agent)
          then (permission_denied, s)
          else end_held faults now agent res run to s
    ]
  ]
