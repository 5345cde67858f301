-- ===== src/Store/Restores/Steps.antt =====
-- The operations on restore requests and runs, as steps of the database, and what every step keeps
-- (internal/server/store/sqlite.go).
use backup_management_center.Common.{
  ℕ, ◌≤◌, String, ◌≡◌, sym, subst, Bool, true, false, Option, List, map, ◌==◌, arith, string_eq,
  nat_eq, All, All-of, All-map, All-weaken, any_where, count_where, NoClash, NoClash-map,
  count_where-map-le,
}
use backup_management_center.Model.Kind.{is_database_restore_kind}
use backup_management_center.Model.Phase.{RestorePhase}
use backup_management_center.Model.Types.{Run, RestoreRequest}
use backup_management_center.Store.Outcome.{ok}
use backup_management_center.Store.Db.{Db}
use backup_management_center.Store.Runs.{has_id}
use backup_management_center.Store.Runs.Steps.{RunStep}
use backup_management_center.Store.Restores.{
  of_run, has_run, occupies, FinishInput, create_restore_request, create_database_restore_run,
  update_restore_phase, request_restore_stop, update_restore_rollback_snapshot, finish_restore_run,
  resolve_restore_request,
}

-- One operation on the restores. A request made by `CreateRestoreRequest` is for no database and
-- for a run that has none yet; one made by `CreateDatabaseRestoreRun` is for the run made with it.
pub data RestoreStep (db : Db) : Db → Type 0 where
  requested :
      {db' : Db} (target_path : String → Option (List ℕ)) (q : RestoreRequest)
      → is_database_restore_kind q.restore_kind ≡ false
      → any_where (of_run q.run_id) db.requests ≡ false
      → create_restore_request target_path q db ≡ ok db'
      → RestoreStep db db'
  occupied :
      {db' : Db} (now : ℕ) (run : Run) (q : RestoreRequest)
      → q.run_id ≡ run.id
      → create_database_restore_run now run q db ≡ ok db'
      → RestoreStep db db'
  advanced :
      (run_id : String) (phase : RestorePhase)
      → RestoreStep db (update_restore_phase run_id phase db)
  stopped :
      (run_id : String) (deadline : ℕ) → RestoreStep db (request_restore_stop run_id deadline db)
  saved :
      (run_id snapshot : String)
      → RestoreStep db (update_restore_rollback_snapshot run_id snapshot db)
  finished :
      {db' : Db} (in' : FinishInput) → finish_restore_run in' db ≡ ok db' → RestoreStep db db'
  resolved :
      {db' : Db} (request_id run_id actor note detail : String) (at : ℕ)
      → resolve_restore_request request_id run_id actor note detail at db ≡ ok db'
      → RestoreStep db db'
  ran : {db' : Db} → RunStep db db' → RestoreStep db db'

abbrev pub same_run : RestoreRequest → RestoreRequest → Bool
same_run a b = a.run_id == b.run_id

-- Each request has a run, no two have the same one, and at most one restore of a database has not
-- ended safely.
pub record IsExclusive (db : Db) : Type 0 where
  pub with_run : All (λ q. has_run db q ≡ true) db.requests
  pub distinct : NoClash same_run db.requests
  pub at_most_one : count_where occupies db.requests ≤ 1

-- Two tables of runs of which the second still has the runs of the first.
abbrev pub RunsKept : Db → Db → Type 0
RunsKept db db' =
    (id : String) → any_where (has_id id) db.runs ≡ true → any_where (has_id id) db'.runs ≡ true

-- An update of the request rows that keeps the runs they belong to, under kept runs.
module _ (g : RestoreRequest → RestoreRequest)
    (keeps : (q : RestoreRequest) → (g q).run_id ≡ q.run_id) (db db' : Db) (kept : RunsKept db db')
    (requests' : db'.requests ≡ map g db.requests)
    (not_more : All (λ q. occupies (g q) ≡ true → occupies q ≡ true) db.requests) where
  pub update-IsExclusive : IsExclusive db → IsExclusive db'
  update-IsExclusive inv = record {
    with_run =
        subst (λ qs. All (λ q. has_run db' q ≡ true) qs) (sym requests')
          (All-map (λ q. has_run db' q ≡ true) g db.requests
            (All-weaken (λ q. has_run db q ≡ true) (λ q. has_run db' (g q) ≡ true)
              (λ q h. rw (keeps q) (kept q.run_id h)) db.requests inv.with_run));
    distinct =
        subst (λ qs. NoClash same_run qs) (sym requests')
          (NoClash-map same_run (λ q r. r.run_id ≡ q.run_id) g (λ x y p q h. rw (p, q) at h)
            db.requests (All-of (λ q. (g q).run_id ≡ q.run_id) keeps db.requests) inv.distinct);
    at_most_one =
        rw requests'
          (omega (arith, count_where-map-le occupies g db.requests not_more, inv.at_most_one));
  }
