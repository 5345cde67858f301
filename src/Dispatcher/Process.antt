-- ===== src/Dispatcher/Process.antt =====
-- One job, from the queue to the agent (`processJob` of internal/server/dispatchgrpc/dispatcher.go).
-- The logs that it appends and the waits before a job goes back to its queue are not modelled.
use backup_management_center.Common.{
  ℕ, suc, ◌+◌, String, Bool, true, false, not, Option, none, some, List, [], ◌∷◌, ◌==◌, ltb,
  select_where, if◌then◌else◌,
}
use backup_management_center.Model.Kind.{restore, operation_eq, is_database_restore_kind}
use backup_management_center.Model.Status.{queued, dispatched, failed}
use backup_management_center.Model.Phase as Phase
use backup_management_center.Model.Types.{Run, RestoreRequest}
use backup_management_center.Store.Outcome.{
  StoreErr, Outcome, ok, err, not_found, invalid_transition, or_err, ◌>>=◌, ◌>>◌,
}
use backup_management_center.Store.Db.{Db}
use backup_management_center.Store.Retry.{retry_on_busy}
use backup_management_center.Store.Runs.{get_run, transition_run, Driver, passes}
use backup_management_center.Store.Restores.{
  of_run, finish_restore_run, FinishInput, repository_restore_blocked,
}
use backup_management_center.Registry.{
  Message, Registry, SendErr, capabilities_pending, unsafe_database_restore, agent_not_connected,
  context_cancelled, SendResult, sent_to, refused, send, send_with_capability, connected,
}
use backup_management_center.Dispatcher.{Job, Dispatcher, remove_enqueued, requeue_job}

-- `ORDER BY created_at DESC LIMIT 1`
abbrev pub later : RestoreRequest → Option RestoreRequest → Option RestoreRequest
later q none = some q
later q (some best) = if ltb q.created_at best.created_at then some best else some q

abbrev pub latest : List RestoreRequest → Option RestoreRequest
latest [] = none
latest (q ∷ qs) = later q (latest qs)

-- `GetRestoreRequestByRunID`
unfoldable pub get_restore_request_by_run_id : String → Db → Outcome RestoreRequest
get_restore_request_by_run_id run_id db =
    or_err not_found (latest (select_where (of_run run_id) db.requests))

-- What the driver answers during one job: to the three reads, and to each try of the three writes.
pub record Faults : Type 0 where
  pub read_run : Option StoreErr
  pub read_request : Option StoreErr
  pub read_blocked : Option StoreErr
  pub claim : ℕ → ℕ → Driver
  pub refuse : ℕ → ℕ → Driver
  pub revert : ℕ → ℕ → Driver

-- How `processJob` leaves the job: forgotten, back in its queue, or sent, so that the worker waits
-- for the run to end.
pub data JobEnd : Type 0 where
  dropped requeued awaited : JobEnd

-- `dispatchLease` and `restoreExecutionDeadline`
abbrev pub dispatch_lease : ℕ
dispatch_lease = 120

abbrev pub restore_execution_deadline : ℕ
restore_execution_deadline = 43200

abbrev pub drop : String → Dispatcher → JobEnd × Dispatcher
drop run_id d = (dropped, remove_enqueued run_id d)

abbrev pub put_back : Job → Dispatcher → JobEnd × Dispatcher
put_back j d = (requeued, requeue_job j d)

-- `retryStoreWrite`; the context of the dispatcher is never done.
abbrev pub retry_store_write : (ℕ → Outcome Db) → Db → Outcome Db
retry_store_write write before = retry_on_busy (λ n. false) 6 before write

abbrev pub wipe : String → Dispatcher → Dispatcher
wipe run_id d = record d { wiped = run_id ∷ d.wiped }

abbrev pub notify : String → Dispatcher → Dispatcher
notify run_id d = record d { notified = run_id ∷ d.notified }

-- The input that `failRestoreBeforeSend` hands over.
abbrev pub refused_input : String → String → String → ℕ → FinishInput
refused_input run_id code message now = record {
  run_id = run_id;
  from_statuses = queued ∷ dispatched ∷ [];
  to_status = failed;
  error_code = code;
  error_message = message;
  snapshot_id = "";
  result_json = "";
  phase = Phase.failed;
  rollback_snapshot_id = "";
  finished_at = now;
}

-- `failRestoreBeforeSend`
unfoldable pub fail_restore_before_send : String → String → String → ℕ → Dispatcher → Dispatcher
fail_restore_before_send run_id code message now d =
    elim (finish_restore_run (refused_input run_id code message now) d.db) [
      | ok after ↦ notify run_id (wipe run_id (record d { db = after }))
      | err invalid_transition ↦ notify run_id (wipe run_id d)
      | err _ ↦ d
    ]

abbrev pub claim_row : ℕ → Run → Run
claim_row lease r = record r { attempt = suc r.attempt; lease_expires_at = some lease }

abbrev pub revert_row : Run → Run
revert_row r = record r { lease_expires_at = none }

abbrev pub invalid_row : String → ℕ → Run → Run
invalid_row message now r = record r {
  error_code = "invalid_plan";
  error_message = message;
  finished_at = some now;
  lease_expires_at = none;
}

module _ (faults : Faults) (now : ℕ) (build : String → Db → Option String) where
  -- `TransitionRun` to dispatched, under `retryStoreWrite`.
  unfoldable pub claim_run : String → ℕ → Db → Outcome Db
  claim_run run_id lease db =
      retry_store_write
        (λ n.
          transition_run (λ m. false) (faults.claim n) run_id queued dispatched (claim_row lease)
            db)
        db

  -- A run whose command cannot be built: `build` is `BuildCommand`, with its error or `none`.
  unfoldable pub refuse_run : String → String → Dispatcher → Dispatcher
  refuse_run run_id message d =
      elim (retry_store_write
        (λ n.
          transition_run (λ m. false) (faults.refuse n) run_id dispatched failed
            (invalid_row message now) d.db)
        d.db) [
          | ok after ↦ wipe run_id (notify run_id (record d { db = after }))
          | err _ ↦ wipe run_id d
        ]

  -- The send failed: the run is queued again, or left to the watchdog.
  unfoldable pub send_failed : Job → Dispatcher → JobEnd × Dispatcher
  send_failed j d =
      elim (retry_store_write
        (λ n.
          transition_run (λ m. false) (faults.revert n) j.run_id dispatched queued revert_row d.db)
        d.db) [ ok after ↦ put_back j (record d { db = after }) | err _ ↦ drop j.run_id d ]

  abbrev pub refuse_restore : Job → String → String → Dispatcher → JobEnd × Dispatcher
  refuse_restore j code message d =
      drop j.run_id (fail_restore_before_send j.run_id code message now d)

  -- The send, and what follows from its result; `db_restore` asks for the checked send.
  abbrev pub send_result : Bool → Job → Message → Registry → SendResult
  send_result true j msg r = send_with_capability j.agent_id msg true r
  send_result false j msg r = send j.agent_id msg r

  abbrev pub after_refusal : Job → SendErr → Dispatcher → JobEnd × Dispatcher
  after_refusal j capabilities_pending d =
      refuse_restore j "agent_capabilities_pending" "目标 Agent 连接尚未完成能力上报，数据库恢复未下发" d
  after_refusal j unsafe_database_restore d =
      refuse_restore j "agent_upgrade_required" "目标 Agent 不支持受保护的数据库恢复，请升级 Agent" d
  after_refusal j agent_not_connected d = send_failed j d
  after_refusal j context_cancelled d = send_failed j d

  unfoldable pub deliver : Bool → Job → Message → Dispatcher → JobEnd × Dispatcher
  deliver db_restore j msg d = elim (send_result db_restore j msg d.registry) [
    | sent_to r ↦ (awaited, record d { registry = r })
    | refused e ↦ after_refusal j e d
  ]

  -- From the claimed run on.
  unfoldable pub dispatch_claimed : Bool → Job → ℕ → Dispatcher → JobEnd × Dispatcher
  unfolding deliver
  dispatch_claimed db_restore j attempt d = elim (build j.run_id d.db) [
    | some message ↦ drop j.run_id (refuse_run j.run_id message d)
    | none ↦
        deliver db_restore j (record { run_id = j.run_id; attempt = attempt; is_stop = false }) d
  ]

  abbrev pub lease_of : Run → ℕ
  lease_of r =
      if r.operation == restore then now + restore_execution_deadline else now + dispatch_lease

  -- From the two gates on: whether a restore holds the repository, whether the agent is there.
  unfoldable pub dispatch_gated : Run → Bool → Job → Dispatcher → JobEnd × Dispatcher
  unfolding claim_run dispatch_claimed
  dispatch_gated run db_restore j d =
      elim (passes faults.read_blocked >>= λ u.
      ok (repository_restore_blocked j.repository_id j.run_id d.db)) [
        | ok true ↦ put_back j d
        | _ ↦
            if not (connected j.agent_id d.registry)
            then put_back j d
            else elim (claim_run j.run_id (lease_of run) d.db) [
              | ok after ↦ dispatch_claimed db_restore j (suc run.attempt) (record d { db = after })
              | err invalid_transition ↦ drop j.run_id d
              | err _ ↦ put_back j d
            ]
      ]

  -- `processJob`, up to the wait for the end of a run that was sent.
  unfoldable pub process_job : Job → Dispatcher → JobEnd × Dispatcher
  unfolding dispatch_gated get_run get_restore_request_by_run_id
  process_job j d = elim (passes faults.read_run >> get_run j.run_id d.db) [
    | err _ ↦ drop j.run_id d
    | ok run ↦
        if run.operation == restore
        then elim (passes faults.read_request >> get_restore_request_by_run_id j.run_id d.db) [
          | err _ ↦ refuse_restore j "invalid_plan" "restore request is unavailable" d
          | ok q ↦ dispatch_gated run (is_database_restore_kind q.restore_kind) j d
        ]
        else dispatch_gated run false j d
  ]
