-- ===== src/Store/Steps/Exclusion.antt =====
-- The mutual exclusion of database restores under everything that writes their table
-- (internal/server/store/sqlite.go).
use backup_management_center.Common.{
  ℕ, ◌≤◌, ◌≡◌, refl, Bool, true, List, [], ◌∷◌, ◌==◌, string_eq, arith, All, NoClash-delete_where,
  all_where, delete_where, count_where,
}
use backup_management_center.Model.Types.{RestoreRequest}
use backup_management_center.Store.Db.{Db}
use backup_management_center.Store.Restores.{has_run, occupies}
use backup_management_center.Store.Restores.Steps.{IsExclusive, same_run}
use backup_management_center.Store.Restores.Exclusive.{same-IsExclusive, kept_of_update}
use backup_management_center.Store.Restores.Occupancy.{RestoreStep-IsExclusive}
use backup_management_center.Store.History.{prune_history, is_done}
use backup_management_center.Store.History.Pruned.{prune_history-references}
use backup_management_center.Store.Steps.{
  StoreStep, restored, claimed, unplanned, pruned, edited, StoreSteps, here, next,
}
use backup_management_center.Store.Steps.Effects.{claimed-runs, unplanned-runs, pruned-rows}

all_of_All :
    (p : RestoreRequest → Bool) (qs : List RestoreRequest)
    → All (λ q. p q ≡ true) qs
    → all_where p qs ≡ true
all_of_All p [] h = refl
all_of_All p (q ∷ qs) h = ground (arith, h.0, all_of_All p qs h.1)

All_of_all :
    (p : RestoreRequest → Bool) (qs : List RestoreRequest)
    → all_where p qs ≡ true
    → All (λ q. p q ≡ true) qs
All_of_all p [] h = tt
All_of_all p (q ∷ qs) h = (ground arith, All_of_all p qs (ground arith))

count-delete :
    (p q : RestoreRequest → Bool) (xs : List RestoreRequest)
    → count_where q (delete_where p xs) ≤ count_where q xs
count-delete p q [] = omega arith
count-delete p q (x ∷ xs) = ground (arith, count-delete p q xs)

pruned-IsExclusive : (at : ℕ) (db : Db) → IsExclusive db → IsExclusive (prune_history at db).after
pruned-IsExclusive at db inv =
    let (rows, runs') = pruned-rows at db in
    record {
      with_run =
          All_of_all (has_run (prune_history at db).after) (prune_history at db).after.requests
            (prune_history-references at db (all_of_All (has_run db) db.requests inv.with_run));
      distinct = rw rows (NoClash-delete_where same_run (is_done at) db.requests inv.distinct);
      at_most_one =
          rw rows (omega (arith, count-delete (is_done at) occupies db.requests, inv.at_most_one));
    }

StoreStep-IsExclusive : {db db' : Db} → StoreStep db db' → IsExclusive db → IsExclusive db'
StoreStep-IsExclusive (restored step) inv = RestoreStep-IsExclusive step inv
StoreStep-IsExclusive {db} {db'} (claimed now id run lease h) inv =
    let (kept, rows, free) = claimed-runs now id run lease db db' h in
    same-IsExclusive db db' (λ j e. rw rows (ground arith)) kept inv
StoreStep-IsExclusive {db} {db'} (unplanned id h) inv =
    let (kept, rows) = unplanned-runs id db db' h in
    same-IsExclusive db db'
      (kept_of_update (λ r. r.plan_id == id) (λ r. record r { plan_id = "" }) db db' (λ r. refl)
        rows)
      kept inv
StoreStep-IsExclusive {db} (pruned at) inv = pruned-IsExclusive at db inv
StoreStep-IsExclusive {db} {db'} (edited runs' requests') inv =
    same-IsExclusive db db' (λ j e. rw runs' e) requests' inv

pub StoreSteps-kept : {start db : Db} → IsExclusive start → StoreSteps start db → IsExclusive db
StoreSteps-kept inv here = inv
StoreSteps-kept inv (next steps step) = StoreStep-IsExclusive step (StoreSteps-kept inv steps)

-- From an exclusive database (each request has a run, no two the same, and at most one database
-- restore is unsafe), whatever the store does, at most one database restore is unsafe, if, as in
-- the program, `CreateRestoreRequest` is only called for other kinds than databases and for runs
-- that have no request, and `CreateDatabaseRestoreRun` for the run that it creates. Callbacks of
-- transitions leave identifier and status alone, and sweeps take live statuses only.
pub StoreSteps-IsExclusive :
    {start db : Db} → IsExclusive start → StoreSteps start db → count_where occupies db.requests ≤ 1
StoreSteps-IsExclusive inv steps = (StoreSteps-kept inv steps).at_most_one
