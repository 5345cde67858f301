-- ===== src/Store/Plans.antt =====
-- Plans and their persisted cron slots (internal/server/store/sqlite.go and schedule_cursor.go).
pub mod Slots
use backup_management_center.Common.{
  ℕ, String, Bool, ◌&&◌, not, Option, List, ◌∷◌, ◌==◌, string_eq, find_where, select_where,
  update_where, delete_where, any_where, if◌then◌else◌,
}
use backup_management_center.Model.Status.{is_active}
use backup_management_center.Model.Types.{Plan}
use backup_management_center.Store.Outcome.{
  StoreErr, Outcome, ok, not_found, in_use, foreign_key, ◌>>=◌, ◌>>◌, require, or_err,
}
use backup_management_center.Store.Db.{Db, Cursor}
use backup_management_center.Store.Runs.{passes}

abbrev pub is_plan : String → Plan → Bool
is_plan id p = p.id == id

-- `GetPlan`
unfoldable pub get_plan : String → Db → Outcome Plan
get_plan id db = or_err not_found (find_where (is_plan id) db.plans)

-- `ListEnabledPlans`, without its order.
unfoldable pub list_enabled_plans : Db → List Plan
list_enabled_plans db = select_where (λ p. p.enabled) db.plans

-- `DeletePlan`; the plan's cursor goes with it.
unfoldable pub delete_plan : String → Db → Outcome Db
delete_plan id db = do
  require (not (any_where (λ r. not (id == "") && r.plan_id == id && is_active r.status) db.runs))
      in_use
  require (any_where (is_plan id) db.plans) not_found
  ok (record db {
    runs = update_where (λ r. r.plan_id == id) (λ r. record r { plan_id = "" }) db.runs;
    plans = delete_where (is_plan id) db.plans;
    cursors = delete_where (λ c. c.plan_id == id) db.cursors;
  })

abbrev pub cursor_of : String → Cursor → Bool
cursor_of plan_id c = c.plan_id == plan_id

-- `GetScheduleCursor`
unfoldable pub get_schedule_cursor : String → Db → Outcome ℕ
get_schedule_cursor plan_id db = do
  c ← or_err not_found (find_where (cursor_of plan_id) db.cursors)
  ok c.next_fire_at

abbrev pub upsert_cursor : Cursor → List Cursor → List Cursor
upsert_cursor c rows =
    if any_where (cursor_of c.plan_id) rows
    then update_where (cursor_of c.plan_id) (λ _. c) rows
    else c ∷ rows

-- `SaveScheduleCursor`; the plan must exist, or the reference is refused. `fault` is what the
-- driver answers to the write.
unfoldable pub save_schedule_cursor : Option StoreErr → String → ℕ → Db → Outcome Db
save_schedule_cursor fault plan_id next db = do
  passes fault
  require (any_where (is_plan plan_id) db.plans) foreign_key
  ok (record db {
    cursors = upsert_cursor (record { plan_id = plan_id; next_fire_at = next }) db.cursors;
  })
