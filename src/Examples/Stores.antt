-- ===== src/Examples/Stores.antt =====
-- A repository with a backup and a database restore, under the theorems on the store.
use backup_management_center.Common.{
  ℕ, zero, suc, ◌<◌, ◌≡◌, ◌∙◌, ◌==◌, refl, Bool, true, false, String, inl, none, some, [], ◌∷◌,
  arith, string_eq, nat_eq,
}
use backup_management_center.Model.Kind.{backup}
use backup_management_center.Model.Status.{queued, dispatched, valid_transitions}
use backup_management_center.Model.Types.{Run}
use backup_management_center.Store.Outcome.{ok, busy}
use backup_management_center.Store.Db.{Db, RepositoryRow, CacheState}
use backup_management_center.Store.Cache.{invalidate_snapshot_cache_tx}
use backup_management_center.Store.Runs.{
  create_run, insert_run_tx, transition_run_once, transition_run, get_run, Driver, no_fault,
}
use backup_management_center.Store.Runs.Keys.{HasKeys}
use backup_management_center.Store.Runs.Moves.{
  transition_run-busy, get_run-transition_run, Moved, KeepsRow,
}
use backup_management_center.Store.Runs.Steps.{created, moved}
use backup_management_center.Store.Restores.Steps.{ran}
use backup_management_center.Store.Steps.{StoreSteps, here, next, restored}
use backup_management_center.Store.Steps.Keys.{StoreSteps-HasKeys}

abbrev pub backup_run : Run
backup_run = record {
  id = "run";
  plan_id = "plan";
  agent_id = "agent";
  operation = backup;
  status = queued;
  queued_at = 5;
  started_at = none;
  finished_at = none;
  progress_json = "{}";
  snapshot_id = "";
  error_code = "";
  error_message = "";
  repository_id = "repo";
  attempt = 0;
  lease_expires_at = none;
  scheduled_at = some 5;
  dedup_key = "plan-task";
}

abbrev pub cache_state : CacheState
cache_state = record {
  repository_id = "repo";
  generation = 3;
  list_verified_at = some 4;
  list_fingerprint = "f";
  updated_at = 4;
}

abbrev pub repository : RepositoryRow
repository = record {
  id = "repo";
  agent_id = "agent";
  storage_target_id = "target";
  repository_path = "remote:repo";
  status = "ready";
  last_check_at = none;
  detached_at = none;
}

abbrev pub start : Db
start = record {
  runs = [];
  requests = [];
  repositories = repository ∷ [];
  cache_states = cache_state ∷ [];
  list_caches = [];
  tree_caches = [];
  deletions = [];
  cleanups = [];
  audit = [];
  observed = [];
  agents = [];
  tokens = [];
  sessions = [];
  plans = [];
  cursors = [];
  targets = [];
}

abbrev pub with_backup : Db
with_backup = record start {
  runs = backup_run ∷ [];
  cache_states =
      record cache_state { generation = 4; list_verified_at = none; updated_at = 6 } ∷ [];
}

pub created_backup : create_run 6 backup_run start ≡ ok with_backup
unfolding create_run insert_run_tx invalidate_snapshot_cache_tx
created_backup = refl

abbrev one_step : StoreSteps start with_backup
one_step = next here (restored (ran (created 6 backup_run created_backup)))

StoreSteps-HasKeys_example : HasKeys with_backup
StoreSteps-HasKeys_example = StoreSteps-HasKeys tt one_step

abbrev pub at_once : Run → Run
at_once r = r

abbrev pub dispatched_backup : Db
dispatched_backup = record with_backup { runs = record backup_run { status = dispatched } ∷ [] }

moved_backup :
    transition_run_once no_fault "run" queued dispatched at_once with_backup ≡ ok dispatched_backup
unfolding transition_run_once get_run
moved_backup = refl

at_once-KeepsRow : KeepsRow at_once
at_once-KeepsRow = record { same_id = λ r. refl; same_status = λ r. refl }

abbrev two_steps : StoreSteps with_backup dispatched_backup
two_steps =
    next here (
      restored (ran (moved no_fault "run" queued dispatched at_once at_once-KeepsRow moved_backup)))

abbrev pub backup_Moved : Moved "run" queued dispatched at_once with_backup dispatched_backup
backup_Moved = record {
  run = backup_run;
  found = refl;
  was_from = refl;
  was_live = refl;
  valid = refl;
  wrote = refl;
}

abbrev pub locked : Driver
locked = record { begin = some busy; commit = none }

abbrev pub locked_once : ℕ → Driver
locked_once zero = locked
locked_once (suc n) = no_fault

before_one : (j : ℕ) → j < 1 → locked_once j ≡ locked
before_one zero h = refl
before_one (suc j) h = absurd (omega arith)

abbrev pub in_time : ℕ → Bool
in_time attempt = false

transition_run-busy_example :
    transition_run in_time locked_once "run" queued dispatched at_once with_backup
    ≡ transition_run_once no_fault "run" queued dispatched at_once with_backup
transition_run-busy_example =
    transition_run-busy "run" queued dispatched at_once with_backup in_time locked_once 1
      (omega arith) (λ j h. refl) (λ j h. inl (rw (before_one j h) refl)) refl

second_try :
    transition_run in_time locked_once "run" queued dispatched at_once with_backup
    ≡ ok dispatched_backup
second_try =
    transition_run-busy "run" queued dispatched at_once with_backup in_time locked_once 1
      (omega arith) (λ j h. refl) (λ j h. inl (rw (before_one j h) refl)) refl
    ∙ moved_backup

read_backup : get_run "run" with_backup ≡ ok backup_run
unfolding get_run
read_backup = refl

get_run-transition_run_example :
    (queued ≡ queued)
    × (valid_transitions queued dispatched ≡ true)
    × (get_run "run" dispatched_backup ≡ ok (record backup_run { status = dispatched }))
    × ((j : String) → (j == "run") ≡ false → get_run j dispatched_backup ≡ get_run j with_backup)
get_run-transition_run_example =
    get_run-transition_run in_time locked_once "run" queued dispatched at_once backup_run
      with_backup dispatched_backup at_once-KeepsRow read_backup second_try
