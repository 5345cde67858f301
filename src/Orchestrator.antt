-- ===== src/Orchestrator.antt =====
-- The orchestrator's system runs (internal/server/jobs/orchestrator.go): their creation, the keys by
-- which equal requests share one run, and the cancellation by an operator. Events are not modelled.
pub mod Joined
use Prim.Native.String.{◌++◌}
use backup_management_center.Common.{
  ℕ, String, Bool, true, false, ◌&&◌, ◌||◌, not, Option, none, some, List, [], ◌∷◌, ◌==◌, string_eq,
  update_where, any_where, if◌then◌else◌,
}
use backup_management_center.Model.Kind.{Operation, operation_eq, operation_name, restore}
use backup_management_center.Model.Status.{
  queued, failed, cancelled, status_eq, dispatched, running,
}
use backup_management_center.Model.Types.{Run}
use backup_management_center.Store.Outcome.{
  StoreErr, Outcome, ok, err, duplicate_run, agent_revoked, settle,
}
use backup_management_center.Store.Db.{Db}
use backup_management_center.Store.Agents.{get_agent}
use backup_management_center.Store.Runs.{
  create_run, find_active_run_by_dedup_key, get_run, transition_run, Driver,
}
use backup_management_center.Dispatcher.{Dispatcher, enqueue, job_of}
use backup_management_center.Dispatcher.Watchdog.{cancel, cancelled_row}

-- A row of `run_secrets`, with the configuration that it decrypts to.
pub record RunConf : Type 0 where
  pub run_id : String
  pub conf : String

-- `Orchestrator`, as far as system runs change it.
pub record Orchestrator : Type 0 where
  pub dispatcher : Dispatcher
  pub confs : List RunConf

-- The arguments of `systemRun`, `params` as JSON, "{}" for nil.
pub record SystemTask : Type 0 where
  pub agent_id : String
  pub repository_id : String
  pub operation : Operation
  pub params : String
  pub conf : String

-- `systemRunDedupKey`
unfoldable pub system_run_dedup_key : SystemTask → String → String
system_run_dedup_key t conf_fingerprint =
    let key =
      "sys\0"
      ++ operation_name t.operation
      ++ "\0"
      ++ t.agent_id
      ++ "\0"
      ++ t.repository_id
      ++ "\0"
      ++ t.params in
    if conf_fingerprint == "" then key else key ++ "\0" ++ conf_fingerprint

-- `joinDuplicateRun`
abbrev pub is_duplicate : StoreErr → Bool
is_duplicate duplicate_run = true
is_duplicate _ = false

abbrev pub found_run : Outcome Run → Option Run
found_run (ok r) = some r
found_run (err e) = none

unfoldable pub join_duplicate_run : StoreErr → String → Db → Option Run
join_duplicate_run e key db =
    if key == "" || not (is_duplicate e)
    then none
    else found_run (find_active_run_by_dedup_key key db)

-- `SaveRunRcloneConfig` of a configuration that is not empty.
abbrev pub of_run : String → RunConf → Bool
of_run id c = c.run_id == id

unfoldable pub save_conf : RunConf → List RunConf → List RunConf
save_conf c cs =
    if any_where (of_run c.run_id) cs then update_where (of_run c.run_id) (λ _. c) cs else c ∷ cs

abbrev pub with_db : Db → Orchestrator → Orchestrator
with_db db o = record o { dispatcher = record o.dispatcher { db = db } }

abbrev pub unsaved_row : ℕ → Run → Run
unsaved_row now r = record r {
  finished_at = some now;
  error_code = "secret_storage_failed";
  error_message = "failed to persist temporary remote configuration";
}

-- `Disp.Enqueue` of the run.
unfoldable pub hand_over : Run → Orchestrator → Orchestrator
hand_over r o = record o { dispatcher = enqueue (job_of r) o.dispatcher }

-- What follows a refused `CreateRun`.
abbrev pub join_or : StoreErr → Option Run → Outcome Run
join_or e none = err e
join_or e (some existing) = ok existing

-- `fingerprint` is the sealer's keyed digest.
module _ (fingerprint : String → String) where
  -- The key of a task; a configuration takes part by its digest.
  unfoldable pub task_key : SystemTask → String
  unfolding system_run_dedup_key
  task_key t = system_run_dedup_key t (if t.conf == "" then "" else fingerprint t.conf)

  unfoldable pub system_row : String → ℕ → SystemTask → Run
  system_row id now t = record {
    id = id;
    plan_id = "";
    agent_id = t.agent_id;
    operation = t.operation;
    status = queued;
    queued_at = now;
    started_at = none;
    finished_at = none;
    progress_json = t.params;
    snapshot_id = "";
    error_code = "";
    error_message = "";
    repository_id = t.repository_id;
    attempt = 0;
    lease_expires_at = none;
    scheduled_at = none;
    dedup_key = task_key t;
  }

  -- `save_fault` is what the write of the configuration answers, and `driver` what the driver does
  -- at each try of a transition.
  module _ (save_fault : Option StoreErr) (driver : ℕ → Driver) where
    -- What follows `CreateRun`: the configuration is kept before the run can be sent.
    unfoldable pub start_created : ℕ → Run → String → Orchestrator → Outcome Run × Orchestrator
    unfolding hand_over
    start_created now r conf o = if conf == "" then (ok r, hand_over r o) else elim save_fault [
      | none ↦ (
        ok r,
        hand_over r
            (record o { confs = save_conf (record { run_id = r.id; conf = conf }) o.confs }),
      )
      | some e ↦
          let db = o.dispatcher.db in
          (
            err e,
            with_db
                (settle db
                  (transition_run (λ _. false) driver r.id queued failed (unsaved_row now) db))
                o,
          )
    ]

    -- `systemRun`, with the identifier that it draws.
    abbrev pub submit : ℕ → Run → String → Outcome Db → Orchestrator → Outcome Run × Orchestrator
    submit now r conf (ok after) o = start_created now r conf (with_db after o)
    submit now r conf (err e) o = (join_or e (join_duplicate_run e r.dedup_key o.dispatcher.db), o)

    unfoldable pub system_run : String → ℕ → SystemTask → Orchestrator → Outcome Run × Orchestrator
    unfolding system_row start_created
    system_run id now t o = elim (get_agent t.agent_id o.dispatcher.db) [
      | err e ↦ (err e, o)
      | ok a ↦
          if a.revoked
          then (err agent_revoked, o)
          else submit now (system_row id now t) t.conf
              (create_run now (system_row id now t) o.dispatcher.db) o
    ]

-- `CancelRun`; `read_fault` is what the read inside `Cancel` answers.
unfoldable pub cancel_run :
    Option StoreErr → (ℕ → Driver) → ℕ → String → Orchestrator → Option StoreErr × Orchestrator
unfolding cancel
cancel_run read_fault driver now id o =
    let d = o.dispatcher in
    let stopped = cancel read_fault driver now id d in
    elim (get_run id d.db) [
      | err e ↦ (some e, o)
      | ok r ↦
          if r.status == queued
          then (if r.operation == restore
              then (stopped.0, record o { dispatcher = stopped.1 })
              else elim (transition_run (λ _. false) driver id queued cancelled (cancelled_row now)
                  d.db) [ ok after ↦ (none, with_db after o) | err e ↦ (some e, o) ])
          else if r.status == dispatched || r.status == running
          then (none, record o { dispatcher = stopped.1 })
          else (none, o)
    ]
