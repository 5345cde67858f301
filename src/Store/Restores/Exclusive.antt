-- ===== src/Store/Restores/Exclusive.antt =====
-- The occupancy of database restores under their creation
-- (internal/server/store/sqlite.go).
use backup_management_center.Common.{
  String, ◌≡◌, refl, sym, subst, Bool, true, some, List, arith, eq_iff, string_eq, All, All-of,
  All-weaken, find_where, update_where, on_where, Bool-cases, inl, inr, Option-cases, found_unique,
}
use backup_management_center.Model.Phase.{RestorePhase, releases_occupancy}
use backup_management_center.Model.Types.{Run, RestoreRequest}
use backup_management_center.Model.Status as Status
use backup_management_center.Store.Outcome.{ok}
use backup_management_center.Store.Db.{Db}
use backup_management_center.Store.Restores.{
  of_run, has_run, occupies, may_advance, merge_request, FinishInput, finishes, finished_row,
  update_restore_request_tx, update_found_request, end_run,
}
use backup_management_center.Store.Restores.Phases.{
  merged_phase-terminal, is_unsafe_lem, may_advance_lem,
}
use backup_management_center.Store.Restores.Steps.{
  IsExclusive, same_run, RunsKept, update-IsExclusive,
}
use backup_management_center.Store.Restores.Kept.{update-RunsKept}

-- Runs that are only updated are kept.
pub kept_of_update :
    (p : Run → Bool) (f : Run → Run) (db db' : Db)
    → ((r : Run) → (f r).id ≡ r.id)
    → db'.runs ≡ update_where p f db.runs
    → RunsKept db db'
kept_of_update p f db db' keeps rows id h = rw (rows, update-RunsKept p f db.runs id keeps) h

-- A request that may still advance holds the occupancy, if it is for a database.
pub advance-occupies :
    (run_id : String) (q : RestoreRequest) (phase : RestorePhase)
    → may_advance run_id q ≡ true
    → occupies (record q { phase = phase }) ≡ true
    → occupies q ≡ true
advance-occupies run_id q phase h k = ground (arith, is_unsafe_lem q, may_advance_lem run_id q)

merge-occupies :
    (in' : FinishInput) (q : RestoreRequest)
    → occupies (merge_request in' q q) ≡ true
    → occupies q ≡ true
merge-occupies in' q h = elim (Bool-cases (releases_occupancy q.phase)) [
  | inl e ↦
      subst (λ p. occupies (record q { phase = p }) ≡ true)
        (merged_phase-terminal q.phase in'.phase (rw e)) h
  | inr e ↦ ground (arith, is_unsafe_lem q)
]

-- The step of an update under a condition.
pub conditional :
    (p : RestoreRequest → Bool) (f : RestoreRequest → RestoreRequest) (qs : List RestoreRequest)
    → ((q : RestoreRequest) → p q ≡ true → occupies (f q) ≡ true → occupies q ≡ true)
    → All (λ q. occupies (on_where p f q) ≡ true → occupies q ≡ true) qs
conditional p f qs h =
    All-of (λ q. occupies (on_where p f q) ≡ true → occupies q ≡ true)
      (λ q. elim (Bool-cases (p q)) [ inl e ↦ rw e (h q e) | inr e ↦ rw e (λ k. k) ]) qs

-- The first request of a run is its only one.
merged_rows :
    (in' : FinishInput) (first : RestoreRequest) (db : Db)
    → IsExclusive db
    → find_where (of_run in'.run_id) db.requests ≡ some first
    → All
        (λ q.
          occupies (on_where (of_run in'.run_id) (merge_request in' first) q) ≡ true
          → occupies q ≡ true)
        db.requests
merged_rows in' first db inv found =
    All-weaken (λ q. of_run in'.run_id q ≡ true → q ≡ first)
      (λ q.
        occupies (on_where (of_run in'.run_id) (merge_request in' first) q) ≡ true
        → occupies q ≡ true)
      (λ q only. elim (Bool-cases (of_run in'.run_id q)) [
        | inl e ↦ rw (e, only e) (merge-occupies in' first)
        | inr e ↦ rw e (λ k. k)
      ])
      db.requests
      (found_unique same_run (of_run in'.run_id)
        (λ x y p q.
          ground (
            arith,
            eq_iff x.run_id in'.run_id,
            eq_iff y.run_id in'.run_id,
            eq_iff x.run_id y.run_id,
          ))
        db.requests first inv.distinct found)

pub update_tx-IsExclusive :
    (in' : FinishInput) (mid : Db)
    → IsExclusive mid
    → IsExclusive (update_restore_request_tx in' mid)
unfolding update_restore_request_tx
update_tx-IsExclusive in' mid inv =
    elim (Option-cases (find_where (of_run in'.run_id) mid.requests)) [
      | inl e ↦ rw e inv
      | inr (first, e) ↦ rw e (
          update-IsExclusive (on_where (of_run in'.run_id) (merge_request in' first))
            (λ q. elim (Bool-cases (of_run in'.run_id q)) [ inl h ↦ rw h | inr h ↦ rw h ]) mid
            (update_found_request in' (some first) mid) (λ id h. h) refl
            (merged_rows in' first mid inv e) inv)
    ]

-- Keeping every request row as it is.
pub same-IsExclusive :
    (db db' : Db) → RunsKept db db' → db'.requests ≡ db.requests → IsExclusive db → IsExclusive db'
same-IsExclusive db db' kept same inv = record {
  with_run =
      subst (λ qs. All (λ q. has_run db' q ≡ true) qs) (sym same)
        (All-weaken (λ q. has_run db q ≡ true) (λ q. has_run db' q ≡ true) (λ q h. kept q.run_id h)
          db.requests inv.with_run);
  distinct = rw same inv.distinct;
  at_most_one = rw same inv.at_most_one;
}

pub end_run-IsExclusive :
    (in' : FinishInput) (run : Run) (db mid : Db)
    → end_run in' run db ≡ ok mid
    → IsExclusive db
    → IsExclusive mid
end_run-IsExclusive in' run db mid h inv = elim (Bool-cases (Status.is_terminal run.status)) [
  | inl e ↦ subst IsExclusive (ground arith) inv
  | inr e ↦
      same-IsExclusive db mid
        (kept_of_update (finishes in') (finished_row in') db mid (λ r. refl) (ground arith))
        (ground arith) inv
]
