-- ===== src/Scheduler/Ticks.antt =====
-- Whole ticks (`runTick` of internal/server/scheduler/scheduler.go), restarts of the process, and
-- what else happens to the database in between.
use backup_management_center.Common.{ℕ, ◌≤◌, String, ◌≡◌, Bool, Option, [], delete_where}
use backup_management_center.Store.Outcome.{StoreErr}
use backup_management_center.Store.Db.{Db}
use backup_management_center.Store.Plans.{cursor_of}
use backup_management_center.Store.Runs.{Driver}
use backup_management_center.Scheduler.{Scheduler, Starter, tick_cron}
use backup_management_center.Scheduler.Jobs.{
  tick_stale_queued, tick_weekly_repo_check, tick_maintenance, tick_history_prune,
  tick_session_cleanup,
}

-- What a tick works with: the parser, the starter, the setting, and the answers of the driver.
pub record Setting : Type 0 where
  pub cron : String → String → Option (ℕ → ℕ)
  pub starter : Starter
  pub instr : String → String → Bool
  pub retention : String → Option ℕ
  pub history_retention_days : ℕ
  pub unreadable : String → Bool
  pub save_fault : String → ℕ → Option StoreErr
  pub drivers : String → ℕ → Driver

-- `tickSnapshotCleanup`
unfoldable pub tick_snapshot_cleanup : Starter → ℕ → Scheduler → Scheduler
tick_snapshot_cleanup starter now s = record s { db = starter.tick_snapshot_cleanup now s.db }

module _ (set : Setting) where
  abbrev pub stale_queued : ℕ → Scheduler → Scheduler
  stale_queued = tick_stale_queued set.starter set.unreadable set.instr set.retention set.drivers

  abbrev pub weekly_repo_check : ℕ → Scheduler → Scheduler
  weekly_repo_check = tick_weekly_repo_check set.starter set.unreadable set.instr set.retention

  abbrev pub maintenance : ℕ → Scheduler → Scheduler
  maintenance = tick_maintenance set.starter set.unreadable set.instr set.retention

  -- `runTick`
  unfoldable pub run_tick : ℕ → Scheduler → Scheduler
  unfolding tick_cron tick_stale_queued tick_weekly_repo_check tick_maintenance
      tick_snapshot_cleanup tick_history_prune tick_session_cleanup
  run_tick now s =
      let fired = tick_cron set.starter set.unreadable set.save_fault set.cron now s in
      let failed = stale_queued now fired in
      let checked = weekly_repo_check now failed in
      let maintained = maintenance now checked in
      let cleaned = tick_snapshot_cleanup set.starter now maintained in
      tick_session_cleanup now (tick_history_prune set.history_retention_days now cleaned)

  -- `New` of a later process on the same database; the record of its calls of the earlier ones
  -- that concern slots is kept, that of the daily jobs is the process's own.
  abbrev pub restart : Scheduler → Scheduler
  restart s = record s {
    cursors = [];
    last_history_prune = 0;
    last_session_cleanup = 0;
    retention_skips = [];
    prunings = [];
    cleanups = [];
  }

  -- The states that a scheduler reaches, with the time of its last tick: from any database, by
  -- ticks at times that do not go back, restarts, changes of the database that leave the cursors
  -- alone, and deletions of a plan's cursor.
  pub data Reached : ℕ → Scheduler → Type 0 where
    started :
        (db : Db)
        → Reached 0 (record {
          db = db;
          cursors = [];
          last_history_prune = 0;
          last_session_cleanup = 0;
          retention_skips = [];
          firings = [];
          checks = [];
          retentions = [];
          notified = [];
          wiped = [];
          prunings = [];
          cleanups = [];
        })
    ticked :
        {t : ℕ} {s : Scheduler} (now : ℕ) → Reached t s → t ≤ now → Reached now (run_tick now s)
    restarted : {t : ℕ} {s : Scheduler} → Reached t s → Reached t (restart s)
    edited :
        {t : ℕ} {s : Scheduler} (db : Db)
        → Reached t s
        → db.cursors ≡ s.db.cursors
        → Reached t (record s { db = db })
    unplanned :
        {t : ℕ} {s : Scheduler} (id : String) (db : Db)
        → Reached t s
        → db.cursors ≡ delete_where (cursor_of id) s.db.cursors
        → Reached t (record s { db = db })
