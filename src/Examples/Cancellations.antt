-- ===== src/Examples/Cancellations.antt =====
-- A backup that is cancelled twice, and restores that are late or have no deadline.
use backup_management_center.Common.{ℕ, ◌≡◌, refl, true, none, some, [], ◌∷◌, find_where}
use backup_management_center.Model.Status.{running, dispatched, cancelled}
use backup_management_center.Model.Phase as Phase
use backup_management_center.Model.Types.{Run}
use backup_management_center.Store.Outcome.{busy}
use backup_management_center.Store.Runs.{
  has_id, no_fault, Driver, transition_run, transition_run_once, get_run,
}
use backup_management_center.Store.Retry.{retry_on_busy}
use backup_management_center.Store.Restores.{repository_restore_blocked, update_restore_phase}
use backup_management_center.Registry.Streams.{empty_registry}
use backup_management_center.Dispatcher.{Dispatcher}
use backup_management_center.Dispatcher.Watchdog.{cancel, handle_restore_timeout, check_run}
use backup_management_center.Dispatcher.Late.{handle_restore_timeout-keeps_block}
use backup_management_center.Dispatcher.Stopped.{cancel-ends, accepted_restore-unlimited}
use backup_management_center.Service.{Service, done}
use backup_management_center.Service.Progress.{handle_command_accepted}
use backup_management_center.Service.Endings.{calm}
use backup_management_center.Service.InFlight.{no_faults}
use backup_management_center.Examples.Stores.{backup_run, start}
use backup_management_center.Examples.Restores.{restore_run, request}
use backup_management_center.Examples.Enrollments.{service}

abbrev running_backup : Run
running_backup = record backup_run { status = running }

abbrev pub dispatcher : Dispatcher
dispatcher = record {
  db = record start { runs = running_backup ∷ [] };
  registry = empty_registry;
  queues = [];
  enqueued = [];
  processing = [];
  notified = [];
  wiped = [];
}

abbrev calm_driver : ℕ → Driver
calm_driver k = no_fault

abbrev after_cancel : Dispatcher
after_cancel = (cancel none calm_driver 50 "run" dispatcher).1

cancel-ends_example :
    ((cancel none calm_driver 50 "run" dispatcher).0 ≡ none)
    × ((row : Run) × (find_where (has_id "run") after_cancel.db.runs ≡ some row)
        × (row.status ≡ cancelled))
    × ((cancel (some busy) calm_driver 60 "run" after_cancel).1 ≡ after_cancel)
cancel-ends_example =
    cancel-ends (some busy) calm_driver 50 60 running_backup dispatcher refl refl refl

abbrev late_restore : Run
late_restore = record restore_run { status = running; lease_expires_at = some 40 }

abbrev with_late_restore : Dispatcher
with_late_restore = record dispatcher {
  db = record start {
    runs = late_restore ∷ [];
    requests = record request { phase = Phase.restoring } ∷ [];
  };
}

handle_restore_timeout-keeps_block_example :
    repository_restore_blocked "repo" "run"
      (handle_restore_timeout 50 late_restore with_late_restore).db
    ≡ true
handle_restore_timeout-keeps_block_example =
    handle_restore_timeout-keeps_block 50 late_restore "repo" "run"
      (record request { phase = Phase.restoring }) with_late_restore refl refl refl refl

abbrev sent_restore : Run
sent_restore = record restore_run { status = dispatched; lease_expires_at = some 40 }

abbrev before_accept : Service
before_accept = record service {
  db = record start { runs = sent_restore ∷ []; requests = request ∷ [] };
}

abbrev accepted_restore : Run
accepted_restore = record sent_restore {
  status = running;
  started_at = some 20;
  lease_expires_at = none;
}

abbrev after_accept : Service
after_accept = record before_accept {
  db = record start {
    runs = accepted_restore ∷ [];
    requests = record request { phase = Phase.running } ∷ [];
  };
  logs = record { run_id = "restore"; level = "info"; message = "Agent 已接收任务，开始执行" } ∷ [];
}

accepts : handle_command_accepted calm 20 "agent" "restore" before_accept ≡ (done, after_accept)
unfolding handle_command_accepted transition_run transition_run_once retry_on_busy get_run
    update_restore_phase
accepts = refl

accepted_restore-unlimited_example :
    check_run no_faults 30 1000000 accepted_restore dispatcher ≡ dispatcher
accepted_restore-unlimited_example =
    accepted_restore-unlimited calm 20 "agent" "restore" sent_restore accepted_restore before_accept
      after_accept no_faults 30 1000000 dispatcher refl refl refl accepts refl refl
