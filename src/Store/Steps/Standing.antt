-- ===== src/Store/Steps/Standing.antt =====
-- Restore requests in a terminal phase, under everything that writes their table
-- (internal/server/store/sqlite.go).
use backup_management_center.Common.{
  String, ◌≡◌, refl, ◌∙◌, true, some, arith, eq_iff, string_eq, find_where, found_unique, any_where,
}
use backup_management_center.Model.Phase.{is_terminal}
use backup_management_center.Model.Types.{RestoreRequest}
use backup_management_center.Store.Db.{Db}
use backup_management_center.Store.Restores.{of_run}
use backup_management_center.Store.Restores.Steps.{IsExclusive, same_run}
use backup_management_center.Store.Restores.Terminal.{StandsAs, NotResolved, RestoreStep-StandsAs}
use backup_management_center.Store.History.{is_done}
use backup_management_center.Store.Steps.{
  StoreStep, restored, claimed, unplanned, pruned, edited, StoreSteps, here, next,
}
use backup_management_center.Store.Steps.Effects.{claimed-runs, unplanned-runs, pruned-rows}
use backup_management_center.Store.Steps.Life.{find-delete_there}
use backup_management_center.Store.Steps.Exclusion.{StoreSteps-kept}

-- No resolution of the request `id`, and no pruning that removes the request of the run.
abbrev pub LeftAlone : {db db' : Db} → String → String → StoreStep db db' → Type 0
LeftAlone run_id id (restored step) = NotResolved id step
LeftAlone {db' = db'} run_id id (pruned at) = any_where (of_run run_id) db'.requests ≡ true
LeftAlone run_id id (claimed now d run lease h) = Unit
LeftAlone run_id id (unplanned plan h) = Unit
LeftAlone run_id id (edited runs' requests') = Unit

StoreStep-StandsAs :
    {db db' : Db} (run_id : String) (q : RestoreRequest) (step : StoreStep db db')
    → IsExclusive db
    → is_terminal q.phase ≡ true
    → LeftAlone run_id q.id step
    → find_where (of_run run_id) db.requests ≡ some q
    → StandsAs run_id q db'
StoreStep-StandsAs run_id q (restored step) inv ended alone found =
    RestoreStep-StandsAs run_id q step inv ended alone found
StoreStep-StandsAs {db} {db'} run_id q (claimed now id run lease h) inv ended alone found =
    (q, rw (claimed-runs now id run lease db db' h).0 found, refl, refl)
StoreStep-StandsAs {db} {db'} run_id q (unplanned id h) inv ended alone found =
    (q, rw (unplanned-runs id db db' h).0 found, refl, refl)
StoreStep-StandsAs {db} run_id q (pruned at) inv ended alone found =
    let rows = (pruned-rows at db).0 in
    let only =
      found_unique same_run (of_run run_id)
        (λ x y a b.
          ground (arith, eq_iff x.run_id run_id, eq_iff y.run_id run_id, eq_iff x.run_id y.run_id))
        db.requests q inv.distinct found in
    (
      q,
      rw rows
          (find-delete_there (of_run run_id) (is_done at) db.requests q only (rw rows at alone)),
      refl,
      refl,
    )
StoreStep-StandsAs run_id q (edited runs' requests') inv ended alone found =
    (q, rw requests' found, refl, refl)

-- That holds of each step on the way.
abbrev pub NeverTouched : {start db : Db} → String → String → StoreSteps start db → Type 0
NeverTouched run_id id here = Unit
NeverTouched run_id id (next steps step) = NeverTouched run_id id steps × LeftAlone run_id id step

-- From an exclusive database (each request has a run, no two the same, and at most one database
-- restore is unsafe), a request whose phase is terminal keeps this phase, whatever the store does
-- (late progress, late results, requests to stop, further restores, and all else), until an
-- operator resolves this very request or a pruning removes it. As in the program,
-- `CreateRestoreRequest` is only called for other kinds than databases and for runs that have no
-- request, and `CreateDatabaseRestoreRun` for the run that it creates. Callbacks of transitions
-- leave identifier and status alone, and sweeps take live statuses only.
pub StoreSteps-StandsAs :
    {start db : Db} (run_id : String) (q : RestoreRequest) (steps : StoreSteps start db)
    → IsExclusive start
    → is_terminal q.phase ≡ true
    → NeverTouched run_id q.id steps
    → find_where (of_run run_id) start.requests ≡ some q
    → StandsAs run_id q db
StoreSteps-StandsAs run_id q here inv ended never found = (q, found, refl, refl)
StoreSteps-StandsAs run_id q (next {db} {db'} steps step) inv ended never found =
    let (r, found', id, phase) = StoreSteps-StandsAs run_id q steps inv ended never.0 found in
    let (s, found'', id', phase') =
      StoreStep-StandsAs run_id r step (StoreSteps-kept inv steps) (rw phase ended) (rw id never.1)
        found' in
    (s, found'', id' ∙ id, phase' ∙ phase)
