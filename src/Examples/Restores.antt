-- ===== src/Examples/Restores.antt =====
-- A database restore that was stopped, and the snapshots that it protects.
use backup_management_center.Common.{
  String, Option, ◌≤◌, ◌≡◌, refl, true, none, [], ◌∷◌, arith, string_eq, nat_eq, count_where,
  member,
}
use backup_management_center.Model.Kind.{restore, mysql}
use backup_management_center.Model.Phase as Phase
use backup_management_center.Model.Types.{Run, RestoreRequest}
use backup_management_center.Store.Outcome.{ok}
use backup_management_center.Store.Db.{Db}
use backup_management_center.Store.Runs.{insert_run_tx, no_fault}
use backup_management_center.Store.Restores.{
  occupies, create_database_restore_run, update_restore_phase, request_restore_stop,
  protected_restore_snapshot_ids,
}
use backup_management_center.Store.Restores.Steps.{occupied, advanced, IsExclusive}
use backup_management_center.Store.Steps.{here, next, restored}
use backup_management_center.Store.Steps.Exclusion.{StoreSteps-IsExclusive}
use backup_management_center.Store.Restores.Terminal.{StandsAs}
use backup_management_center.Store.Steps.Standing.{StoreSteps-StandsAs}
use backup_management_center.Store.Restores.Protected.{
  protected_restore_snapshot_ids_lem, request_restore_stop-again,
}
use backup_management_center.Store.Runs.{get_run}
use backup_management_center.Registry.Streams.{empty_registry}
use backup_management_center.Dispatcher.{Dispatcher, Job}
use backup_management_center.Dispatcher.Process.{Faults, process_job, put_back}
use backup_management_center.Dispatcher.Held.{process_job-holds_back}
use backup_management_center.Examples.Stores.{backup_run, start}

abbrev pub restore_run : Run
restore_run = record backup_run {
  id = "restore";
  operation = restore;
  plan_id = "";
  scheduled_at = none;
  dedup_key = "restore-task";
}

abbrev pub request : RestoreRequest
request = record {
  id = "request";
  run_id = "restore";
  snapshot_id = "snap";
  restore_kind = mysql;
  target_json = "{}";
  overwrite = true;
  confirmation_hash = "";
  pre_restore_run_id = "";
  rollback_snapshot_id = "back";
  phase = Phase.queued;
  created_at = 7;
}

abbrev pub occupied_db : Db
occupied_db = record start { runs = restore_run ∷ []; requests = request ∷ [] }

made : create_database_restore_run 7 restore_run request start ≡ ok occupied_db
unfolding create_database_restore_run insert_run_tx
made = refl

start-IsExclusive : IsExclusive start
start-IsExclusive = record { with_run = tt; distinct = tt; at_most_one = omega arith }

StoreSteps-IsExclusive_example : count_where occupies occupied_db.requests ≤ 1
StoreSteps-IsExclusive_example =
    StoreSteps-IsExclusive start-IsExclusive
      (next here (restored (occupied 7 restore_run request refl made)))

abbrev ended_request : RestoreRequest
ended_request = record request { phase = Phase.rolled_back }

abbrev ended_db : Db
ended_db = record occupied_db { requests = ended_request ∷ [] }

ended-IsExclusive : IsExclusive ended_db
ended-IsExclusive = record {
  with_run = (refl, tt);
  distinct = (refl, tt);
  at_most_one = omega arith;
}

StoreSteps-StandsAs_example :
    StandsAs "restore" ended_request (update_restore_phase "restore" Phase.restoring ended_db)
StoreSteps-StandsAs_example =
    StoreSteps-StandsAs "restore" ended_request
      (next here (restored (advanced "restore" Phase.restoring))) ended-IsExclusive refl (tt, tt)
      refl

protected_restore_snapshot_ids_lem_example :
    member "back" (protected_restore_snapshot_ids "repo" occupied_db) ≡ true
protected_restore_snapshot_ids_lem_example =
    protected_restore_snapshot_ids_lem "back" "repo" occupied_db

-- A backup of the same repository, which waits.
abbrev held : Dispatcher
held = record {
  db = record occupied_db { runs = backup_run ∷ occupied_db.runs };
  registry = empty_registry;
  queues = [];
  enqueued = [];
  processing = [];
  notified = [];
  wiped = [];
}

abbrev calm : Faults
calm = record {
  read_run = none;
  read_request = none;
  read_blocked = none;
  claim = λ n m. no_fault;
  refuse = λ n m. no_fault;
  revert = λ n m. no_fault;
}

abbrev job : Job
job = record { run_id = "run"; agent_id = "agent"; repository_id = "repo" }

abbrev builds : String → Db → Option String
builds run_id db = none

still_protected : member "back" (protected_restore_snapshot_ids "repo" held.db) ≡ true
unfolding protected_restore_snapshot_ids
still_protected = refl

read_held : get_run "run" held.db ≡ ok backup_run
unfolding get_run
read_held = refl

process_job-holds_back_example : process_job calm 9 builds job held ≡ put_back job held
process_job-holds_back_example =
    process_job-holds_back calm 9 builds job held backup_run "back" refl refl read_held refl refl
      still_protected

request_restore_stop-again_example :
    request_restore_stop "restore" 90 (request_restore_stop "restore" 30 occupied_db)
    ≡ request_restore_stop "restore" 90 occupied_db
request_restore_stop-again_example = request_restore_stop-again "restore" 30 90 occupied_db
