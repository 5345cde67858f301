-- ===== src/Examples/Histories.antt =====
-- Old rows and a persisted slot.
use backup_management_center.Common.{◌≡◌, refl, true, none, some, [], ◌∷◌, select_where}
use backup_management_center.Model.Kind.{filesystem}
use backup_management_center.Model.Status.{is_active, failed, running}
use backup_management_center.Model.Phase as Phase
use backup_management_center.Model.Types.{Plan}
use backup_management_center.Store.Outcome.{ok, foreign_key}
use backup_management_center.Store.Db.{Db}
use backup_management_center.Store.Restores.{is_unsafe}
use backup_management_center.Store.History.{prune_history}
use backup_management_center.Store.History.Pruned.{prune_history-keeps, prune_history-stuck}
use backup_management_center.Store.Plans.{save_schedule_cursor, get_schedule_cursor}
use backup_management_center.Store.Plans.Slots.{get-save_schedule_cursor, here, edited}
use backup_management_center.Examples.Stores.{backup_run, start}
use backup_management_center.Examples.Restores.{restore_run, request}

-- A restore that failed long ago and waits for an operator, and a backup that runs.
abbrev pub old_db : Db
old_db = record start {
  runs =
      record restore_run { status = failed; finished_at = some 20 }
      ∷ record backup_run { status = running }
      ∷ [];
  requests = record request { phase = Phase.manual_recovery_needed } ∷ [];
}

prune_history-keeps_example :
    (select_where (λ r. is_active r.status) (prune_history 100 old_db).after.runs
      ≡ record backup_run { status = running } ∷ [])
    × (select_where is_unsafe (prune_history 100 old_db).after.requests ≡ old_db.requests)
prune_history-keeps_example = prune_history-keeps 100 old_db

prune_history-stuck_example :
    ((prune_history 100 old_db).error ≡ some foreign_key)
    × ((prune_history 100 old_db).after.runs ≡ old_db.runs)
    × ((prune_history 100 old_db).after.audit ≡ old_db.audit)
prune_history-stuck_example = prune_history-stuck 100 old_db "restore" refl refl

abbrev pub plan : Plan
plan = record {
  id = "plan";
  name = "nightly";
  agent_id = "agent";
  kind = filesystem;
  schedule = "0 3 * * *";
  timezone = "UTC";
  enabled = true;
  source_json = "{}";
  repository_id = "repo";
  retention_json = "{}";
  timeout_seconds = 60;
}

abbrev pub planned : Db
planned = record start { plans = plan ∷ [] }

abbrev with_cursor : Db
with_cursor = record planned { cursors = record { plan_id = "plan"; next_fire_at = 40 } ∷ [] }

saved_slot : save_schedule_cursor none "plan" 40 planned ≡ ok with_cursor
unfolding save_schedule_cursor
saved_slot = refl

get-save_schedule_cursor_example :
    get_schedule_cursor "plan" (record with_cursor { agents = [] }) ≡ ok 40
get-save_schedule_cursor_example =
    get-save_schedule_cursor none "plan" 40 planned with_cursor (record with_cursor { agents = [] })
      saved_slot (edited here refl)
