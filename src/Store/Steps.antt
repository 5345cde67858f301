-- ===== src/Store/Steps.antt =====
-- Everything that writes the runs and the restore requests, as steps of the database
-- (internal/server/store/sqlite.go).
pub mod Effects
pub mod Keys
pub mod Life
pub mod Exclusion
pub mod Standing
use backup_management_center.Common.{ℕ, String, ◌≡◌, ◌≢◌, true, any_where}
use backup_management_center.Model.Types.{Run}
use backup_management_center.Store.Outcome.{ok}
use backup_management_center.Store.Db.{Db}
use backup_management_center.Store.Plans.{delete_plan}
use backup_management_center.Store.Deletions.{claim_snapshot_deletion_run}
use backup_management_center.Store.History.{prune_history}
use backup_management_center.Store.Restores.Steps.{RestoreStep}

-- One operation of the store: on the restores and the runs, the claim of a snapshot's deletion, the
-- deletion of a plan, the pruning of the history, and whatever leaves both tables alone.
pub data StoreStep (db : Db) : Db → Type 0 where
  restored : {db' : Db} → RestoreStep db db' → StoreStep db db'
  claimed :
      {db' : Db} (now : ℕ) (id : String) (run : Run) (lease : ℕ)
      → claim_snapshot_deletion_run now id run lease db ≡ ok db'
      → StoreStep db db'
  unplanned : {db' : Db} (id : String) → delete_plan id db ≡ ok db' → StoreStep db db'
  pruned : (at : ℕ) → StoreStep db (prune_history at db).after
  edited : {db' : Db} → db'.runs ≡ db.runs → db'.requests ≡ db.requests → StoreStep db db'

pub data StoreSteps (start : Db) : Db → Type 0 where
  here : StoreSteps start start
  next : {db db' : Db} → StoreSteps start db → StoreStep db db' → StoreSteps start db'
