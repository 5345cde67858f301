-- ===== src/Store/Runs/Keys.antt =====
-- The keys of the runs table (internal/server/store/migrations): identifiers, cron slots, and
-- the task keys of live runs.
use backup_management_center.Common.{
  String, ◌≡◌, Bool, true, ◌&&◌, ◌||◌, not, some, List, map, ◌==◌, arith, eq_iff, string_eq, nat_eq,
  All, NoClash, NoClash-map, found_unique, find_where,
}
use backup_management_center.Model.Status.{status_eq, is_active}
use backup_management_center.Model.Types.{Run}
use backup_management_center.Store.Db.{Db}
use backup_management_center.Store.Runs.{has_id, same_slot, same_active_task, clash}

-- No two runs share an identifier, a plan's cron slot, or, while both are live, a task key.
abbrev pub HasKeys : Db → Type 0
HasKeys db = NoClash clash db.runs

-- An update that keeps the columns of the keys and revives no run.
pub record Shrinks (x y : Run) : Type 0 where
  pub same_id : y.id ≡ x.id
  pub same_plan : y.plan_id ≡ x.plan_id
  pub same_schedule : y.scheduled_at ≡ x.scheduled_at
  pub same_key : y.dedup_key ≡ x.dedup_key
  pub active_before : is_active y.status ≡ true → is_active x.status ≡ true

pub Shrinks-refl : (x : Run) → Shrinks x x
Shrinks-refl x = ground arith

or_mono :
    (a b c a' b' c' : Bool)
    → a' ≡ a
    → b' ≡ b
    → (c' ≡ true → c ≡ true)
    → (a' || b' || c') ≡ true
    → (a || b || c) ≡ true
or_mono a b c a' b' c' p q r h = ground arith

and_mono :
    (a b c d c' d' : Bool)
    → (c' ≡ true → c ≡ true)
    → (d' ≡ true → d ≡ true)
    → (a && b && c' && d') ≡ true
    → (a && b && c && d) ≡ true
and_mono a b c d c' d' r t h = ground arith

module _ (x y x' y' : Run) (s : Shrinks x x') (t : Shrinks y y') where
  slot_kept : same_slot x' y' ≡ same_slot x y
  slot_kept = rw (s.same_plan, t.same_plan, s.same_schedule, t.same_schedule)

  task_reflected : same_active_task x' y' ≡ true → same_active_task x y ≡ true
  task_reflected h =
      and_mono (not (x.dedup_key == "")) (x.dedup_key == y.dedup_key) _ _ (is_active x'.status)
        (is_active y'.status) s.active_before t.active_before (rw (s.same_key, t.same_key) at h)

  clash-reflects : clash x' y' ≡ true → clash x y ≡ true
  clash-reflects =
      or_mono (x.id == y.id) (same_slot x y) (same_active_task x y) (x'.id == y'.id)
        (same_slot x' y') (same_active_task x' y') (rw (s.same_id, t.same_id)) slot_kept
        task_reflected

-- An update of every row that keeps the keys and revives no run.
pub NoClash-update :
    (g : Run → Run) (rows : List Run)
    → All (λ r. Shrinks r (g r)) rows
    → NoClash clash rows
    → NoClash clash (map g rows)
NoClash-update g = NoClash-map clash Shrinks g (λ x y s t. clash-reflects x y (g x) (g y) s t)

pub clash_of_id :
    (id : String) (x y : Run) → has_id id x ≡ true → has_id id y ≡ true → clash x y ≡ true
clash_of_id id x y p q = ground (arith, eq_iff x.id id, eq_iff y.id id, eq_iff x.id y.id)

-- The run that a query by identifier finds is the only one with it.
pub run_unique :
    (id : String) (rows : List Run) (run : Run)
    → NoClash clash rows
    → find_where (has_id id) rows ≡ some run
    → All (λ r. has_id id r ≡ true → r ≡ run) rows
run_unique id = found_unique clash (has_id id) (clash_of_id id)
