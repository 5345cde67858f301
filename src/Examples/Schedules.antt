-- ===== src/Examples/Schedules.antt =====
-- A plan that is due every hour, and a queued run whose agent is away.
use backup_management_center.Common.{
  ℕ, ◌+◌, String, ◌≡◌, refl, inl, Bool, true, false, Option, none, some, [], ◌∷◌, arith, NoClash,
}
use backup_management_center.Store.Outcome.{StoreErr, ok}
use backup_management_center.Store.Db.{Db}
use backup_management_center.Store.Runs.{Driver, no_fault, get_run}
use backup_management_center.Store.Agents.{get_agent}
use backup_management_center.Store.Plans.{get_plan}
use backup_management_center.Scheduler.{Scheduler, Starter, agent_offline}
use backup_management_center.Scheduler.Jobs.{tick_stale_queued}
use backup_management_center.Scheduler.Ticks.{
  Setting, started, ticked, restarted, run_tick, restart,
}
use backup_management_center.Scheduler.Cursors.{IsLater, NeverFails, goes_back}
use backup_management_center.Scheduler.Once.{run_tick-once}
use backup_management_center.Scheduler.Stale.{tick_stale_queued-spares}
use backup_management_center.Examples.Stores.{backup_run}
use backup_management_center.Examples.Histories.{planned}
use backup_management_center.Examples.Enrollments.{agent}

abbrev hourly : String → String → Option (ℕ → ℕ)
hourly schedule timezone = some (λ now. now + 3600)

abbrev idle_starter : Starter
idle_starter = record {
  start_plan_run = λ id slot db. db;
  system_run_check = λ id db. db;
  start_retention_run = λ id db. db;
  tick_snapshot_cleanup = λ now db. db;
  start_plan_run-cursors = λ id slot db. refl;
  start_plan_run-plans = λ id slot db. refl;
  system_run_check-cursors = λ id db. refl;
  start_retention_run-cursors = λ id db. refl;
  tick_snapshot_cleanup-cursors = λ now db. refl;
}

abbrev nowhere : String → String → Bool
nowhere text part = false

abbrev no_retention : String → Option ℕ
no_retention json = none

abbrev readable : String → Bool
readable id = false

abbrev undisturbed : String → ℕ → Driver
undisturbed run_id k = no_fault

abbrev all_saved : String → ℕ → Option StoreErr
all_saved plan_id next = none

all_saved-NeverFails : NeverFails all_saved
all_saved-NeverFails plan_id next = refl

abbrev setting : Setting
setting = record {
  cron = hourly;
  starter = idle_starter;
  instr = nowhere;
  retention = no_retention;
  history_retention_days = 30;
  unreadable = readable;
  save_fault = all_saved;
  drivers = undisturbed;
}

hourly-IsLater : IsLater hourly
hourly-IsLater schedule timezone next e now = ground arith

abbrev with_agent : Db
with_agent = record planned { agents = record agent { online = true } ∷ [] }

abbrev fresh : Scheduler
fresh = record {
  db = with_agent;
  cursors = [];
  last_history_prune = 0;
  last_session_cleanup = 0;
  retention_skips = [];
  firings = [];
  checks = [];
  retentions = [];
  notified = [];
  wiped = [];
  prunings = [];
  cleanups = [];
}

-- Two ticks, with a restart between them: the second starts the slot that the first laid down.
abbrev two_ticks : Scheduler
two_ticks = run_tick setting 8000 (restart setting (run_tick setting 1000 fresh))

run_tick-once_example : NoClash goes_back two_ticks.firings
run_tick-once_example =
    run_tick-once setting hourly-IsLater 8000 two_ticks
      (ticked 8000 (restarted (ticked 1000 (started with_agent) (omega arith))) (omega arith))
      (inl all_saved-NeverFails)

abbrev waiting : Scheduler
waiting = record fresh { db = record with_agent { runs = backup_run ∷ [] } }

agent_there : agent_offline readable "agent" waiting.db ≡ false
unfolding agent_offline get_agent
agent_there = refl

tick_stale_queued-spares_example :
    get_run "run"
      (tick_stale_queued idle_starter readable nowhere no_retention undisturbed 10 waiting).db
    ≡ ok backup_run
unfolding get_plan
tick_stale_queued-spares_example =
    tick_stale_queued-spares idle_starter readable nowhere no_retention undisturbed 10 waiting "run"
      backup_run (refl, tt) refl refl
