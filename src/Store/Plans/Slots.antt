-- ===== src/Store/Plans/Slots.antt =====
-- Reading a persisted slot back (internal/server/store/schedule_cursor.go), and what the deletion of a plan
-- leaves (internal/server/store/sqlite.go).
use backup_management_center.Common.{
  ℕ, String, ◌≡◌, ◌∙◌, ◌&&◌, refl, false, Option, delete_where, beq_self, some, List, [], ◌∷◌, ◌==◌,
  arith, eq_iff, string_eq, Bool-cases, inl, inr, find_where, update_where, any_where,
  if◌then◌else◌,
}
use backup_management_center.Store.Outcome.{StoreErr, ok}
use backup_management_center.Store.Db.{Db, Cursor}
use backup_management_center.Store.Plans.{
  cursor_of, upsert_cursor, delete_plan, save_schedule_cursor, get_schedule_cursor,
}

find-overwritten :
    (c : Cursor) (id : String) (rows : List Cursor)
    → find_where (cursor_of id) (update_where (cursor_of c.plan_id) (λ _. c) rows) ≡ (
        if id == c.plan_id && any_where (cursor_of c.plan_id) rows
        then some c
        else find_where (cursor_of id) rows)
find-overwritten c id [] = ground arith
find-overwritten c id (r ∷ rs) = ground (
  arith,
  find-overwritten c id rs,
  eq_iff r.plan_id c.plan_id,
  eq_iff id c.plan_id,
  eq_iff c.plan_id id,
  eq_iff r.plan_id id,
)

find-upserted :
    (c : Cursor) (id : String) (rows : List Cursor)
    → find_where (cursor_of id) (upsert_cursor c rows)
      ≡ (if id == c.plan_id then some c else find_where (cursor_of id) rows)
find-upserted c id rows = elim (Bool-cases (any_where (cursor_of c.plan_id) rows)) [
  | inl e ↦ rw e (find-overwritten c id rows ∙ (rw e (ground arith)))
  | inr e ↦ rw e (ground (arith, eq_iff id c.plan_id, eq_iff c.plan_id id))
]

pub saved-cursors :
    (fault : Option StoreErr) (plan_id : String) (next : ℕ) (db db' : Db)
    → save_schedule_cursor fault plan_id next db ≡ ok db'
    → db'.cursors ≡ upsert_cursor (record { plan_id = plan_id; next_fire_at = next }) db.cursors
unfolding save_schedule_cursor
saved-cursors fault plan_id next db db' h = ground arith

find-deleted :
    (id other : String) (rows : List Cursor)
    → (id == other) ≡ false
    → find_where (cursor_of id) (delete_where (λ c. c.plan_id == other) rows)
      ≡ find_where (cursor_of id) rows
find-deleted id other [] ne = refl
find-deleted id other (r ∷ rs) ne = ground (
  arith,
  find-deleted id other rs ne,
  eq_iff r.plan_id id,
  eq_iff r.plan_id other,
  eq_iff id other,
)

-- What may happen between a save and a read: saves for other plans, deletions of other plans, and
-- whatever leaves the cursors alone.
pub data OtherSteps (plan_id : String) (start : Db) : Db → Type 0 where
  here : OtherSteps plan_id start start
  saved :
      {db db' : Db} (fault : Option StoreErr) (other : String) (next : ℕ)
      → OtherSteps plan_id start db
      → (plan_id == other) ≡ false
      → save_schedule_cursor fault other next db ≡ ok db'
      → OtherSteps plan_id start db'
  unplanned :
      {db db' : Db} (other : String)
      → OtherSteps plan_id start db
      → (plan_id == other) ≡ false
      → delete_plan other db ≡ ok db'
      → OtherSteps plan_id start db'
  edited :
      {db db' : Db}
      → OtherSteps plan_id start db
      → db'.cursors ≡ db.cursors
      → OtherSteps plan_id start db'

deleted-cursors :
    (id : String) (db db' : Db)
    → delete_plan id db ≡ ok db'
    → db'.cursors ≡ delete_where (λ c. c.plan_id == id) db.cursors
unfolding delete_plan
deleted-cursors id db db' h = ground arith

others-find :
    {plan_id : String} {start db : Db}
    → OtherSteps plan_id start db
    → find_where (cursor_of plan_id) db.cursors ≡ find_where (cursor_of plan_id) start.cursors
others-find here = refl
others-find {plan_id} (saved {db} {db'} fault other next steps ne h) =
    rw
      (
        saved-cursors fault other next db db' h,
        find-upserted (record { plan_id = other; next_fire_at = next }) plan_id db.cursors,
        ne,
      )
      (others-find steps)
others-find {plan_id} (unplanned {db} {db'} other steps ne h) =
    rw (deleted-cursors other db db' h, find-deleted plan_id other db.cursors ne)
      (others-find steps)
others-find (edited steps e) = rw e (others-find steps)

-- A slot that was saved for a plan is the one that is read for it later, after any number of saves
-- for other plans, deletions of other plans, and changes that leave the persisted slots alone.
pub get-save_schedule_cursor :
    (fault : Option StoreErr) (plan_id : String) (next : ℕ) (db db' later : Db)
    → save_schedule_cursor fault plan_id next db ≡ ok db'
    → OtherSteps plan_id db' later
    → get_schedule_cursor plan_id later ≡ ok next
unfolding get_schedule_cursor
get-save_schedule_cursor fault plan_id next db db' later h steps =
    rw
      (
        others-find steps,
        saved-cursors fault plan_id next db db' h,
        find-upserted (record { plan_id = plan_id; next_fire_at = next }) plan_id db.cursors,
        beq_self plan_id,
      )
      refl
