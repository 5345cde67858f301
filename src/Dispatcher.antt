-- ===== src/Dispatcher.antt =====
-- The dispatcher's queues (internal/server/dispatchgrpc/dispatcher.go): one queue of jobs for each
-- repository, the marks of the runs that are enqueued or processed, and the repair of lost jobs.
pub mod Process
pub mod Deliveries
pub mod Recovery
pub mod Watchdog
pub mod Late
pub mod Stopped
pub mod Held
use backup_management_center.Common.{
  ℕ, ◌+◌, String, Bool, true, false, ◌&&◌, ◌||◌, not, Option, none, some, List, [], ◌∷◌, ◌++◌, ◌==◌,
  string_eq, length, find_where, update_where, delete_where, any_where, member, if◌then◌else◌,
}
use backup_management_center.Model.Kind.{
  Operation, backup, check, snapshots, snapshot_ls, validate_paths, probe_capabilities,
  verify_storage_remote,
}
use backup_management_center.Model.Status.{queued}
use backup_management_center.Model.Types.{Run}
use backup_management_center.Store.Db.{Db}
use backup_management_center.Store.Runs.{list_runs_by_status}
use backup_management_center.Registry.{Registry}

-- `job`
pub record Job : Type 0 where
  pub run_id : String
  pub agent_id : String
  pub repository_id : String

-- `repoQueue`, with its key in the map `repoQueues`.
pub record RepoQueue : Type 0 where
  pub repository_id : String
  pub jobs : List Job

-- `Dispatcher`, with the store and the registry that it works on. `notified` and `wiped` are the
-- runs that the notifier was told of and those whose secrets were deleted, the latest first.
pub record Dispatcher : Type 0 where
  pub db : Db
  pub registry : Registry
  pub queues : List RepoQueue
  pub enqueued : List String
  pub processing : List String
  pub notified : List String
  pub wiped : List String

-- `retryableOperation`
abbrev pub retryable_operation : Operation → Bool
retryable_operation backup = true
retryable_operation check = true
retryable_operation snapshots = true
retryable_operation snapshot_ls = true
retryable_operation validate_paths = true
retryable_operation probe_capabilities = true
retryable_operation verify_storage_remote = true
retryable_operation _ = false

abbrev pub of_repository : String → RepoQueue → Bool
of_repository repo q = q.repository_id == repo

abbrev pub append_job : Job → RepoQueue → RepoQueue
append_job j q = record q { jobs = q.jobs ++ (j ∷ []) }

-- The queue of the repository, made when there is none.
abbrev pub with_queue : String → List RepoQueue → List RepoQueue
with_queue repo queues =
    if any_where (of_repository repo) queues
    then queues
    else record { repository_id = repo; jobs = [] } ∷ queues

-- `Enqueue`
unfoldable pub enqueue : Job → Dispatcher → Dispatcher
enqueue j d = if member j.run_id d.enqueued then d else record d {
  enqueued = j.run_id ∷ d.enqueued;
  queues =
      update_where (of_repository j.repository_id) (append_job j)
        (with_queue j.repository_id d.queues);
}

-- `delete` from a map of marks.
abbrev pub unmark : String → List String → List String
unmark run_id = delete_where (λ s. s == run_id)

-- `removeEnqueued`
unfoldable pub remove_enqueued : String → Dispatcher → Dispatcher
remove_enqueued run_id d = record d {
  enqueued = unmark run_id d.enqueued;
  processing = unmark run_id d.processing;
}

-- `markProcessing`
unfoldable pub mark_processing : String → Bool → Dispatcher → Dispatcher
mark_processing run_id true d = record d { processing = run_id ∷ d.processing }
mark_processing run_id false d = record d { processing = unmark run_id d.processing }

-- `requeueJob`
unfoldable pub requeue_job : Job → Dispatcher → Dispatcher
unfolding remove_enqueued
requeue_job j d =
    if any_where (of_repository j.repository_id) d.queues
    then record d { queues = update_where (of_repository j.repository_id) (append_job j) d.queues }
    else remove_enqueued j.run_id d

-- The run has a job in the queue of the repository.
abbrev pub is_queued : String → RepoQueue → Bool
is_queued run_id q = any_where (λ j. j.run_id == run_id) q.jobs

abbrev pub in_queue_of : String → String → List RepoQueue → Bool
in_queue_of run_id repo queues = elim (find_where (of_repository repo) queues) [
  | none ↦ false
  | some q ↦ is_queued run_id q
]

-- `prepareRecovery`
unfoldable pub prepare_recovery : String → String → Dispatcher → Bool × Dispatcher
prepare_recovery run_id repo d =
    if member run_id d.processing || in_queue_of run_id repo d.queues
    then (false, d)
    else (true, record d { enqueued = unmark run_id d.enqueued })

abbrev pub job_of : Run → Job
job_of r = record { run_id = r.id; agent_id = r.agent_id; repository_id = r.repository_id }

-- The body of the loop in `recoverQueuedRuns`.
unfoldable pub recover_run : Run → Dispatcher → Dispatcher
unfolding prepare_recovery enqueue
recover_run r d =
    let prepared = prepare_recovery r.id r.repository_id d in
    if prepared.0 then enqueue (job_of r) prepared.1 else d

abbrev pub recover_each : List Run → Dispatcher → Dispatcher
recover_each [] d = d
recover_each (r ∷ rs) d = recover_each rs (recover_run r d)

-- `recoverQueuedRuns`
unfoldable pub recover_queued_runs : Dispatcher → Dispatcher
unfolding list_runs_by_status
recover_queued_runs d = recover_each (list_runs_by_status (queued ∷ []) d.db) d

-- `repoWorker`'s pop, under the queue's lock.
abbrev pub rest_of : List Job → List Job
rest_of [] = []
rest_of (j ∷ js) = js

abbrev pub first_of : List Job → Option Job
first_of [] = none
first_of (j ∷ js) = some j

unfoldable pub pop_job : String → Dispatcher → Option Job × Dispatcher
pop_job repo d = (
  elim (find_where (of_repository repo) d.queues) [ none ↦ none | some q ↦ first_of q.jobs ],
  record d {
    queues = update_where (of_repository repo) (λ q. record q { jobs = rest_of q.jobs }) d.queues;
  },
)

abbrev pub depths : List RepoQueue → ℕ
depths [] = 0
depths (q ∷ qs) = length q.jobs + depths qs

-- `QueueDepth`
unfoldable pub queue_depth : Dispatcher → ℕ
queue_depth d = depths d.queues
