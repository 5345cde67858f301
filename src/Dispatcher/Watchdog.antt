-- ===== src/Dispatcher/Watchdog.antt =====
-- Cancellations and timeouts (internal/server/dispatchgrpc/dispatcher.go). Times that a handler reads twice are
-- one time.
use backup_management_center.Common.{
  ℕ, ◌+◌, ◌-◌, String, Bool, true, false, not, Option, none, some, List, [], ◌∷◌, ◌==◌, nat_eq, ltb,
  string_eq, if◌then◌else◌,
}
use backup_management_center.Model.Kind.{restore, forget, operation_eq}
use backup_management_center.Model.Status.{
  RunStatus, queued, dispatched, running, failed, cancelled, status_eq,
}
use backup_management_center.Model.Status as Status
use backup_management_center.Model.Phase.{RestorePhase, phase_eq}
use backup_management_center.Model.Phase as Phase
use backup_management_center.Model.Types.{Run, RestoreRequest}
use backup_management_center.Store.Outcome.{StoreErr, Outcome, ok, err, invalid_transition}
use backup_management_center.Store.Db.{Db}
use backup_management_center.Store.Plans.{get_plan}
use backup_management_center.Store.Runs.{get_run, transition_run, Driver, list_runs_by_status}
use backup_management_center.Store.Restores.{FinishInput, finish_restore_run, request_restore_stop}
use backup_management_center.Registry.{Message, sent_to, refused, send, connected}
use backup_management_center.Dispatcher.{
  Dispatcher, retryable_operation, enqueue, job_of, recover_queued_runs,
}
use backup_management_center.Dispatcher.Process.{get_restore_request_by_run_id, wipe, notify}

-- `restoreCancelGrace`
abbrev pub restore_cancel_grace : ℕ
restore_cancel_grace = 1800

abbrev pub stop_message : String → Message
stop_message run_id = record { run_id = run_id; attempt = 0; is_stop = true }

-- `sendCancel`; a refused send is logged.
unfoldable pub send_cancel : String → String → Dispatcher → Dispatcher
send_cancel run_id agent d =
    if connected agent d.registry
    then elim (send agent (stop_message run_id) d.registry) [
      | sent_to r ↦ record d { registry = r }
      | refused _ ↦ d
    ]
    else d

abbrev pub undispatched_input : ℕ → Run → FinishInput
undispatched_input now r = record {
  run_id = r.id;
  from_statuses = queued ∷ [];
  to_status = cancelled;
  error_code = "cancelled";
  error_message = "restore cancelled before dispatch";
  snapshot_id = "";
  result_json = "";
  phase = Phase.failed;
  rollback_snapshot_id = "";
  finished_at = now;
}

-- The error that `Cancel` returns, and the dispatcher after it.
abbrev pub stopped_before : Run → Outcome Db → Dispatcher → Option StoreErr × Dispatcher
stopped_before r (ok after) d = (none, wipe r.id (record d { db = after }))
stopped_before r (err invalid_transition) d = (none, wipe r.id d)
stopped_before r (err e) d = (some e, d)

-- The agent is asked to stop, and the restore's phase and deadline say so.
unfoldable pub ask_to_stop : ℕ → Run → Dispatcher → Dispatcher
ask_to_stop now r d =
    let asked = send_cancel r.id r.agent_id d in
    record asked { db = request_restore_stop r.id (now + restore_cancel_grace) asked.db }

-- `cancelRestore`
unfoldable pub cancel_restore : ℕ → Run → Dispatcher → Option StoreErr × Dispatcher
cancel_restore now r d =
    if r.status == queued
    then stopped_before r (finish_restore_run (undispatched_input now r) d.db) d
    else (none, ask_to_stop now r d)

abbrev pub untrusted_input : ℕ → Run → FinishInput
untrusted_input now r = record {
  run_id = r.id;
  from_statuses = [];
  to_status = failed;
  error_code = "run_timeout";
  error_message = "restore did not report a trusted result; manual recovery required";
  snapshot_id = "";
  result_json = "";
  phase = Phase.manual_recovery_needed;
  rollback_snapshot_id = "";
  finished_at = now;
}

-- `markRestoreManualRecovery`; an error is logged.
unfoldable pub mark_restore_manual_recovery : ℕ → Run → Dispatcher → Dispatcher
mark_restore_manual_recovery now r d = elim (finish_restore_run (untrusted_input now r) d.db) [
  | ok after ↦ notify r.id (wipe r.id (record d { db = after }))
  | err _ ↦ d
]

abbrev pub is_over : ℕ → Option ℕ → Bool
is_over now none = false
is_over now (some lease) = not (ltb now lease)

-- A restore that is over its time, with the request that was read.
unfoldable pub stop_late_restore : ℕ → Run → RestoreRequest → Dispatcher → Dispatcher
stop_late_restore now r q d =
    if not (connected r.agent_id d.registry)
    then (if q.phase == Phase.manual_recovery_needed
        then d
        else mark_restore_manual_recovery now r d)
    else if q.phase == Phase.cancelling
    then mark_restore_manual_recovery now r d
    else ask_to_stop now r d

-- `handleRestoreTimeout`
unfoldable pub handle_restore_timeout : ℕ → Run → Dispatcher → Dispatcher
unfolding stop_late_restore
handle_restore_timeout now r d =
    if not (is_over now r.lease_expires_at)
    then d
    else elim (get_restore_request_by_run_id r.id d.db) [
      | err _ ↦ d
      | ok q ↦ if Phase.is_terminal q.phase then d else stop_late_restore now r q d
    ]

abbrev pub cancelled_row : ℕ → Run → Run
cancelled_row now r = record r { finished_at = some now; error_code = "cancelled" }

-- What the driver does during one call: to the read, and to each try of the transition.
module _ (read_fault : Option StoreErr) (driver : ℕ → Driver) where
  -- The transition of `Cancel`.
  unfoldable pub cancel_row : ℕ → Run → Dispatcher → Option StoreErr × Dispatcher
  cancel_row now r d =
      elim (transition_run (λ _. false) driver r.id r.status cancelled (cancelled_row now) d.db) [
        | ok after ↦ (none, wipe r.id (record d { db = after }))
        | err e ↦ (some e, d)
      ]

  -- `Cancel` of a run that was read.
  unfoldable pub cancel_run : ℕ → Run → Dispatcher → Option StoreErr × Dispatcher
  unfolding cancel_row cancel_restore
  cancel_run now r d =
      if Status.is_terminal r.status
      then (none, d)
      else if r.operation == restore
      then cancel_restore now r d
      else if r.status == queued
      then cancel_row now r d
      else cancel_row now r (send_cancel r.id r.agent_id d)

  -- `Cancel`
  unfoldable pub cancel : ℕ → String → Dispatcher → Option StoreErr × Dispatcher
  unfolding cancel_run
  cancel now run_id d = elim read_fault [
    | some e ↦ (some e, d)
    | none ↦ elim (get_run run_id d.db) [ ok r ↦ cancel_run now r d | err _ ↦ (none, d) ]
  ]

-- `TransitionRun` from the watchdog's loop, with what follows a success.
abbrev pub moved_or : Outcome Db → (Db → Dispatcher) → Dispatcher → Dispatcher
moved_or (ok after) next d = next after
moved_or (err e) next d = d

abbrev pub released_row : Run → Run
released_row r = record r {
  started_at = none;
  lease_expires_at = none;
  error_code = "";
  error_message = "";
  progress_json = "{}";
}

abbrev pub expired_row : ℕ → Run → Run
expired_row now r = record r {
  finished_at = some now;
  error_code = "agent_disconnected";
  error_message = "dispatch lease expired";
  lease_expires_at = none;
}

abbrev pub overdue_row : String → ℕ → Run → Run
overdue_row message now r = record r {
  finished_at = some now;
  error_code = "run_timeout";
  error_message = message;
}

-- The timeout of a run: its plan's, or 300 seconds, 15 minutes for a forget.
abbrev pub run_timeout : Run → Db → ℕ
run_timeout r db =
    let usual = if r.operation == forget then 900 else 300 in
    if r.plan_id == "" then usual else elim (get_plan r.plan_id db) [
      | ok p ↦ if p.timeout_seconds == 0 then usual else p.timeout_seconds
      | err _ ↦ usual
    ]

abbrev pub since : ℕ → Option ℕ → ℕ
since now none = 0
since now (some at) = now - at

abbrev pub elapsed : ℕ → Run → ℕ
elapsed now r = if r.status == dispatched then now - r.queued_at else since now r.started_at

abbrev pub past : ℕ → Option ℕ → Bool
past now none = false
past now (some lease) = ltb lease now

module _ (drivers : String → ℕ → Driver) (no_response : ℕ) where
  -- A run whose lease has run out.
  unfoldable pub expire_lease : ℕ → Run → Dispatcher → Dispatcher
  unfolding enqueue
  expire_lease now r d =
      if retryable_operation r.operation
      then moved_or
          (transition_run (λ _. false) (drivers r.id) r.id r.status queued released_row d.db)
          (λ after. enqueue (job_of r) (record d { db = after })) d
      else moved_or
          (transition_run (λ _. false) (drivers r.id) r.id r.status failed (expired_row now) d.db)
          (λ after. wipe r.id (record d { db = after })) d

  -- The agent is told to stop, and the run is failed.
  unfoldable pub fail_overdue : String → ℕ → Run → Dispatcher → Dispatcher
  fail_overdue message now r d =
      let asked = send_cancel r.id r.agent_id d in
      moved_or
        (transition_run (λ _. false) (drivers r.id) r.id r.status failed (overdue_row message now)
          asked.db)
        (λ after. wipe r.id (notify r.id (record asked { db = after }))) asked

  -- The body of the loop in `checkTimeouts`.
  unfoldable pub check_run : ℕ → Run → Dispatcher → Dispatcher
  unfolding handle_restore_timeout expire_lease fail_overdue
  check_run now r d =
      if r.operation == restore
      then handle_restore_timeout now r d
      else if past now r.lease_expires_at
      then expire_lease now r d
      else if not (ltb (run_timeout r d.db) (elapsed now r))
      then d
      else if r.status == dispatched
      then fail_overdue "run timed out in dispatched state" now r d
      else if ltb no_response (elapsed now r)
      then fail_overdue "agent did not respond within timeout" now r d
      else d

  abbrev pub check_each : ℕ → List Run → Dispatcher → Dispatcher
  check_each now [] d = d
  check_each now (r ∷ rs) d = check_each now rs (check_run now r d)

  -- `checkTimeouts`
  unfoldable pub check_timeouts : ℕ → Dispatcher → Dispatcher
  unfolding check_run recover_queued_runs list_runs_by_status
  check_timeouts now d =
      let repaired = recover_queued_runs d in
      check_each now (list_runs_by_status (dispatched ∷ running ∷ []) repaired.db) repaired
