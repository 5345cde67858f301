-- ===== src/Scheduler.antt =====
-- The scheduler (internal/server/scheduler/scheduler.go): its state, and the phase of a tick that
-- starts the runs of due plans.
pub mod Jobs
pub mod Ticks
pub mod Cursors
pub mod Slots
pub mod Quiet
pub mod Once
pub mod Stale
use Prim.Native.String.{◌++◌}
use backup_management_center.Common.{
  ℕ, String, ◌≡◌, Bool, true, false, ◌&&◌, ◌||◌, not, Option, none, some, List, [], ◌∷◌, ◌==◌,
  nat_eq, leb, string_eq, find_where, update_where, any_where, if◌then◌else◌,
}
use backup_management_center.Model.Types.{Plan}
use backup_management_center.Store.Outcome.{StoreErr, Outcome, ok, err, settle}
use backup_management_center.Store.Db.{Db, Cursor}
use backup_management_center.Store.Agents.{get_agent}
use backup_management_center.Store.Plans.{
  list_enabled_plans, get_schedule_cursor, save_schedule_cursor,
}

-- `cursorState`, with its plan; `next` is 0 for Go's zero time.
pub record CursorState : Type 0 where
  pub plan_id : String
  pub key : String
  pub next : ℕ

-- A call of `StartPlanRun`.
pub record Firing : Type 0 where
  pub plan_id : String
  pub slot : ℕ

-- An entry of `retentionSkipAt`, whose key is the repository and the reason.
pub record Skip : Type 0 where
  pub repository_id : String
  pub reason : String
  pub at : ℕ

-- `Scheduler`, with the store that it works on. A last time of 0 is one that never was. The lists
-- from `firings` on record its calls, the latest first.
pub record Scheduler : Type 0 where
  pub db : Db
  pub cursors : List CursorState
  pub last_history_prune : ℕ
  pub last_session_cleanup : ℕ
  pub retention_skips : List Skip
  pub firings : List Firing
  pub checks : List String
  pub retentions : List String
  pub notified : List String
  pub wiped : List String
  pub prunings : List ℕ
  pub cleanups : List ℕ

-- What the scheduler calls (`RunStarter` and the two interfaces beside it): the database that a
-- call leaves, whatever it returns. No call touches the plans or their cursors.
pub record Starter : Type 0 where
  pub start_plan_run : String → ℕ → Db → Db
  pub system_run_check : String → Db → Db
  pub start_retention_run : String → Db → Db
  pub tick_snapshot_cleanup : ℕ → Db → Db
  pub start_plan_run-cursors :
      (id : String) (slot : ℕ) (db : Db) → (start_plan_run id slot db).cursors ≡ db.cursors
  pub start_plan_run-plans :
      (id : String) (slot : ℕ) (db : Db) → (start_plan_run id slot db).plans ≡ db.plans
  pub system_run_check-cursors :
      (id : String) (db : Db) → (system_run_check id db).cursors ≡ db.cursors
  pub start_retention_run-cursors :
      (id : String) (db : Db) → (start_retention_run id db).cursors ≡ db.cursors
  pub tick_snapshot_cleanup-cursors :
      (now : ℕ) (db : Db) → (tick_snapshot_cleanup now db).cursors ≡ db.cursors

-- `agentOffline`; `unreadable` are the agents whose row the driver fails to read.
unfoldable pub agent_offline : (String → Bool) → String → Db → Bool
agent_offline unreadable id db =
    if unreadable id then false else elim (get_agent id db) [ ok a ↦ not a.online | err _ ↦ true ]

-- `cursorKey`
abbrev pub cursor_key : Plan → String
cursor_key p = p.schedule ++ "\0" ++ p.timezone

abbrev pub state_of : String → CursorState → Bool
state_of plan_id c = c.plan_id == plan_id

-- The assignment `s.cursors[p.ID] = …`.
abbrev pub set_cursor : CursorState → List CursorState → List CursorState
set_cursor c cs =
    if any_where (state_of c.plan_id) cs
    then update_where (state_of c.plan_id) (λ _. c) cs
    else c ∷ cs

-- The assignment, and `saveCursor`, whose error is logged: the slot in memory moves even where the
-- write fails.
unfoldable pub move_cursor : Option StoreErr → Plan → ℕ → Scheduler → Scheduler
move_cursor fault p next s = record s {
  cursors = set_cursor (record { plan_id = p.id; key = cursor_key p; next = next }) s.cursors;
  db = settle s.db (save_schedule_cursor fault p.id next s.db);
}

-- The persisted slot of a plan; a failed read counts as none.
abbrev pub persisted : String → Db → Option ℕ
persisted plan_id db = elim (get_schedule_cursor plan_id db) [ ok at ↦ some at | err _ ↦ none ]

abbrev pub record_firing : String → ℕ → Scheduler → Scheduler
record_firing plan_id slot s = record s {
  firings = record { plan_id = plan_id; slot = slot } ∷ s.firings;
}

module _ (starter : Starter) (unreadable : String → Bool) where
  -- The call of `StartPlanRun`, unless the agent is offline.
  unfoldable pub fire : Plan → ℕ → Scheduler → Scheduler
  fire p slot s =
      if not (p.agent_id == "") && agent_offline unreadable p.agent_id s.db
      then s
      else record_firing p.id slot (record s { db = starter.start_plan_run p.id slot s.db })

  -- `save_fault` is what the driver answers to the write of a plan's slot.
  module _ (save_fault : String → ℕ → Option StoreErr) where
    -- `tickPlan` from the cursor that it found on; `next` is the first slot after now.
    unfoldable pub tick_from : ℕ → Plan → ℕ → Option ℕ → Scheduler → Scheduler
    unfolding fire move_cursor
    tick_from now p next none s = move_cursor (save_fault p.id next) p next s
    tick_from now p next (some prev) s =
        if prev == 0
        then move_cursor (save_fault p.id next) p next s
        else if leb prev now
        then move_cursor (save_fault p.id next) p next (fire p prev s)
        else move_cursor (save_fault p.id next) p next s

    -- A cached cursor of another schedule is dropped without a run.
    unfoldable pub tick_cached : ℕ → Plan → ℕ → Option CursorState → Scheduler → Scheduler
    unfolding tick_from
    tick_cached now p next none s = tick_from now p next (persisted p.id s.db) s
    tick_cached now p next (some c) s =
        if c.key == cursor_key p
        then tick_from now p next (some c.next) s
        else move_cursor (save_fault p.id next) p next s

    -- `cron schedule timezone` is the parser with `LoadLocation`, and the result's `Next` in UTC.
    module _ (cron : String → String → Option (ℕ → ℕ)) where
      -- `tickPlan`
      unfoldable pub tick_plan : ℕ → Plan → Scheduler → Scheduler
      unfolding tick_cached
      tick_plan now p s = elim (cron p.schedule p.timezone) [
        | none ↦ s
        | some next ↦ tick_cached now p (next now) (find_where (state_of p.id) s.cursors) s
      ]

      abbrev pub tick_plans : ℕ → List Plan → Scheduler → Scheduler
      tick_plans now [] s = s
      tick_plans now (p ∷ ps) s = tick_plans now ps (tick_plan now p s)

      -- `tickCron`
      unfoldable pub tick_cron : ℕ → Scheduler → Scheduler
      unfolding list_enabled_plans
      tick_cron now s = tick_plans now (list_enabled_plans s.db) s
