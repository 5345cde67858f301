-- ===== src/Store/Steps/Keys.antt =====
-- The keys of the runs table under everything that writes it (internal/server/store/sqlite.go).
use backup_management_center.Common.{
  String, ◌≡◌, ◌⊎◌, inl, inr, Bool, true, ◌&&◌, ◌||◌, not, ◌==◌, arith, eq_iff, string_eq,
  All-weaken, on_where, Bool-cases, NoClash-map, NoClash-delete_where,
}
use backup_management_center.Model.Status.{RunStatus, is_active}
use backup_management_center.Model.Types.{Run}
use backup_management_center.Store.Db.{Db}
use backup_management_center.Store.Runs.{same_slot, same_slot_at, same_active_task, clash}
use backup_management_center.Store.Runs.Keys.{HasKeys}
use backup_management_center.Store.Runs.Lifecycle.{evolves}
use backup_management_center.Store.Runs.Steps.{RunStep-HasKeys}
use backup_management_center.Store.Steps.{StoreStep, StoreSteps, here, next}
use backup_management_center.Store.Steps.Effects.{
  Outlives, Outlives-refl, Effect, same, added, updated, lost, StoreStep-Effect,
}

active_before : (a b : RunStatus) → evolves a b ≡ true → is_active b ≡ true → is_active a ≡ true
active_before a b h k = ground arith

slot_before :
    (p q p' q' : String) (at : Bool)
    → (p' ≡ p) ⊎ (p' ≡ "")
    → (q' ≡ q) ⊎ (q' ≡ "")
    → (not (p' == "") && p' == q' && at) ≡ true
    → (not (p == "") && p == q && at) ≡ true
slot_before p q p' q' at (inl e) (inl f) h = rw (e, f) at h
slot_before p q p' q' at (inl e) (inr f) h = absurd (ground (arith, eq_iff p' q', eq_iff p' ""))
slot_before p q p' q' at (inr e) f h = absurd (ground (arith, eq_iff p' ""))

or_before :
    (a b c b' c' : Bool)
    → (b' ≡ true → b ≡ true)
    → (c' ≡ true → c ≡ true)
    → (a || b' || c') ≡ true
    → (a || b || c) ≡ true
or_before a b c b' c' p q h = ground arith

module _ (x y x' y' : Run) (s : Outlives x x') (t : Outlives y y') where
  task_before : same_active_task x' y' ≡ true → same_active_task x y ≡ true
  task_before h =
      let p = active_before x.status x'.status s.status in
      let q = active_before y.status y'.status t.status in
      ground (arith, p, q, s.same_key, t.same_key)

  slots_before : same_slot x' y' ≡ true → same_slot x y ≡ true
  slots_before h =
      slot_before x.plan_id y.plan_id x'.plan_id y'.plan_id
        (same_slot_at x.scheduled_at y.scheduled_at) s.plan t.plan
        (rw (s.same_slot, t.same_slot) at h)

  clash_before : clash x' y' ≡ true → clash x y ≡ true
  clash_before h =
      or_before (x.id == y.id) (same_slot x y) (same_active_task x y) (same_slot x' y')
        (same_active_task x' y') slots_before task_before (rw (s.same_id, t.same_id) at h)

Effect-HasKeys : {db db' : Db} → Effect db db' → HasKeys db → HasKeys db'
Effect-HasKeys (same rows) keys = rw rows keys
Effect-HasKeys (added r free rows) keys = rw rows (free, keys)
Effect-HasKeys {db} (updated p f keeps outlive rows) keys = rw rows (
    NoClash-map clash Outlives (on_where p f)
      (λ x y s t. clash_before x y (on_where p f x) (on_where p f y) s t) db.runs
      (All-weaken (λ r. p r ≡ true → Outlives r (f r)) (λ r. Outlives r (on_where p f r))
        (λ r h. elim (Bool-cases (p r)) [ inl e ↦ rw e (h e) | inr e ↦ rw e (Outlives-refl r) ])
        db.runs outlive)
      keys)
Effect-HasKeys {db} (lost p rows) keys = rw rows (NoClash-delete_where clash p db.runs keys)

pub StoreStep-HasKeys : {db db' : Db} → StoreStep db db' → HasKeys db → HasKeys db'
StoreStep-HasKeys step keys = elim (StoreStep-Effect step keys) [
  | inl effect ↦ Effect-HasKeys effect keys
  | inr run ↦ RunStep-HasKeys run keys
]

-- From a table in which it holds, whatever the store does, in whatever order (its operations on
-- runs and restores, claims of snapshot deletions, deletions of plans, prunings, and all that
-- leaves both tables alone), two runs never share an identifier or a plan's cron slot, and no two
-- live runs have the same task key. As in the program, callbacks of transitions leave identifier
-- and status alone, and sweeps take live statuses only; restore requests are created as for the
-- exclusion of database restores.
pub StoreSteps-HasKeys : {start db : Db} → HasKeys start → StoreSteps start db → HasKeys db
StoreSteps-HasKeys keys here = keys
StoreSteps-HasKeys keys (next steps step) = StoreStep-HasKeys step (StoreSteps-HasKeys keys steps)
