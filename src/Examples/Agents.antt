-- ===== src/Examples/Agents.antt =====
-- An agent that connects twice, and a database restore that it is sent.
use backup_management_center.Common.{
  All, suc, String, ◌≡◌, refl, true, false, Option, none, some, [], ◌∷◌, arith, string_eq, nat_eq,
}
use backup_management_center.Model.Status.{queued, dispatched}
use backup_management_center.Model.Types.{Run}
use backup_management_center.Store.Outcome.{ok}
use backup_management_center.Store.Db.{Db}
use backup_management_center.Store.Retry.{retry_on_busy}
use backup_management_center.Store.Runs.{list_runs_by_status, no_fault, get_run, transition_run}
use backup_management_center.Store.Restores.{repository_restore_blocked}
use backup_management_center.Registry.{
  Message, Stream, Registry, register, unregister_if, report_capabilities, send_with_capability,
  sent_to, stream_of, connected, delivered,
}
use backup_management_center.Registry.Streams.{
  IsRegistry, here, next, registered, empty_registry, RegistrySteps-IsRegistry,
  replaced_stream-is_powerless, send_with_capability-sent,
}
use backup_management_center.Dispatcher.Recovery.{is_alive, recover_queued_runs-alive}
use backup_management_center.Dispatcher.{recover_queued_runs, Job, Dispatcher}
use backup_management_center.Dispatcher.Process.{
  Faults, awaited, process_job, lease_of, get_restore_request_by_run_id,
}
use backup_management_center.Dispatcher.Deliveries.{process_job-sent, process_job-safe_restore}
use backup_management_center.Examples.Restores.{restore_run, request, occupied_db}

RegistrySteps-IsRegistry_example : IsRegistry (register "agent" (register "agent" empty_registry))
RegistrySteps-IsRegistry_example =
    RegistrySteps-IsRegistry (next (next here (registered "agent")) (registered "agent"))

abbrev one_stream : Registry
one_stream = record {
  streams =
      record {
        agent_id = "agent";
        ctx = 0;
        cancelled = false;
        sent = [];
        caps_ready = true;
        safe_db_restore = true;
      }
      ∷ [];
  gone = [];
  next_ctx = 1;
}

replaced_stream-is_powerless_example :
    (unregister_if "agent" 0 (register "agent" one_stream) ≡ (false, register "agent" one_stream))
    × (report_capabilities "agent" 0 true (register "agent" one_stream)
        ≡ (false, register "agent" one_stream))
replaced_stream-is_powerless_example =
    replaced_stream-is_powerless "agent" 0 true one_stream (omega arith)

abbrev message : Message
message = record { run_id = "restore"; attempt = 1; is_stop = false }

abbrev after_send : Registry
after_send = record one_stream {
  streams =
      record {
        agent_id = "agent";
        ctx = 0;
        cancelled = false;
        sent = message ∷ [];
        caps_ready = true;
        safe_db_restore = true;
      }
      ∷ [];
}

sent_message : send_with_capability "agent" message true one_stream ≡ sent_to after_send
unfolding send_with_capability
sent_message = refl

send_with_capability-sent_example :
    (st : Stream) × (stream_of "agent" one_stream ≡ some st)
    × (st.caps_ready ≡ true)
    × (st.safe_db_restore ≡ true)
    × (stream_of "agent" after_send ≡ some (delivered message st))
send_with_capability-sent_example =
    send_with_capability-sent "agent" message one_stream after_send sent_message

abbrev no_faults : Faults
no_faults = record {
  read_run = none;
  read_request = none;
  read_blocked = none;
  claim = λ n m. no_fault;
  refuse = λ n m. no_fault;
  revert = λ n m. no_fault;
}

abbrev always_built : String → Db → Option String
always_built id db = none

abbrev job : Job
job = record { run_id = "restore"; agent_id = "agent"; repository_id = "repo" }

abbrev before_job : Dispatcher
before_job = record {
  db = occupied_db;
  registry = one_stream;
  queues = record { repository_id = "repo"; jobs = [] } ∷ [];
  enqueued = "restore" ∷ [];
  processing = "restore" ∷ [];
  notified = [];
  wiped = [];
}

abbrev after_job : Dispatcher
after_job = record before_job {
  db = record occupied_db {
    runs =
        record restore_run { status = dispatched; attempt = 1; lease_expires_at = some 43300 } ∷ [];
  };
  registry = after_send;
}

restore_sent : process_job no_faults 100 always_built job before_job ≡ (awaited, after_job)
unfolding process_job repository_restore_blocked connected transition_run send_with_capability
    retry_on_busy
restore_sent = refl

process_job-sent_example :
    (run : Run) × (get_run "restore" occupied_db ≡ ok run)
    × (run.status ≡ queued)
    × (connected "agent" one_stream ≡ true)
    × (repository_restore_blocked "repo" "restore" occupied_db ≡ false)
    × (get_run "restore" after_job.db
        ≡ ok (record run {
          status = dispatched;
          attempt = suc run.attempt;
          lease_expires_at = some (lease_of no_faults 100 always_built run);
        }))
process_job-sent_example =
    process_job-sent no_faults 100 always_built job before_job after_job refl restore_sent

restore_read : get_run "restore" occupied_db ≡ ok restore_run
unfolding get_run
restore_read = refl

request_read : get_restore_request_by_run_id "restore" occupied_db ≡ ok request
unfolding get_restore_request_by_run_id
request_read = refl

process_job-safe_restore_example :
    (st : Stream) × (stream_of "agent" one_stream ≡ some st)
    × (st.caps_ready ≡ true)
    × (st.safe_db_restore ≡ true)
    × (stream_of "agent" after_send
        ≡ some (
            delivered
              (record { run_id = "restore"; attempt = suc restore_run.attempt; is_stop = false })
              st))
process_job-safe_restore_example =
    process_job-safe_restore no_faults 100 always_built job before_job after_job restore_run request
      restore_read refl request_read refl restore_sent

abbrev idle : Dispatcher
idle = record before_job { queues = []; processing = [] }

recover_queued_runs-alive_example :
    All
      (λ r. is_alive (recover_queued_runs idle) r ≡ true)
      (list_runs_by_status (queued ∷ []) occupied_db)
recover_queued_runs-alive_example = recover_queued_runs-alive idle
