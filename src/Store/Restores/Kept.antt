-- ===== src/Store/Restores/Kept.antt =====
-- Which operations keep the runs that requests refer to, and how a new request joins the table
-- (internal/server/store/sqlite.go).
use backup_management_center.Common.{
  Option, ◌∙◌, ap, String, ◌≡◌, ◌≢◌, refl, sym, subst, Bool, true, false, ◌&&◌, none, List, [], ◌∷◌,
  ◌==◌, arith, eq_iff, string_eq, All, All-weaken, select_where, update_where, any_where, on_where,
  Bool-cases, inl, inr, NoClash, count_where-none, any_where-map, any_where-weaken,
}
use backup_management_center.Model.Types.{Run, RestoreRequest}
use backup_management_center.Store.Outcome.{ok}
use backup_management_center.Store.Db.{Db}
use backup_management_center.Store.Runs.{has_id}
use backup_management_center.Store.Restores.{
  of_run, has_run, occupies, insert_request, oldest, older,
}
use backup_management_center.Store.Restores.Steps.{IsExclusive, same_run, RunsKept}

pub update-RunsKept :
    (p : Run → Bool) (f : Run → Run) (rows : List Run) (id : String)
    → ((r : Run) → (f r).id ≡ r.id)
    → any_where (has_id id) (update_where p f rows) ≡ any_where (has_id id) rows
update-RunsKept p f rows id keeps =
    any_where-map (has_id id) (on_where p f) rows
      (λ r. elim (Bool-cases (p r)) [ inl e ↦ rw (e, keeps r) | inr e ↦ rw e ])

-- No request refers to a run that is not there.
pub no_request :
    (id : String) (db : Db) (qs : List RestoreRequest)
    → All (λ q. has_run db q ≡ true) qs
    → any_where (has_id id) db.runs ≡ false
    → any_where (of_run id) qs ≡ false
no_request id db [] all h = refl
no_request id db (q ∷ qs) all h = elim (Bool-cases (q.run_id == id)) [
  | inl e ↦ absurd (cc (rw (← (eq_iff q.run_id id).0 e) at h, all.0))
  | inr e ↦ ground (arith, no_request id db qs all.1 h)
]

older-ne-none : (q : RestoreRequest) (o : Option RestoreRequest) → older q o ≢ none
older-ne-none q o h = ground arith

-- If the query for an occupant finds none, there is none.
pub no_occupant :
    (db : Db) (qs : List RestoreRequest)
    → All (λ q. has_run db q ≡ true) qs
    → oldest (select_where (λ r. occupies r && has_run db r) qs) ≡ none
    → any_where occupies qs ≡ false
no_occupant db [] all h = refl
no_occupant db (q ∷ qs) all h = elim (Bool-cases (occupies q)) [
  | inl e ↦ absurd (
      older-ne-none q (oldest (select_where (λ r. occupies r && has_run db r) qs))
        (rw (e, all.0) at h))
  | inr e ↦ rw e (no_occupant db qs all.1 (rw e at h))
]

pub insert_request-adds :
    (q : RestoreRequest) (mid db' : Db)
    → insert_request q mid ≡ ok db'
    → (db'.requests ≡ q ∷ mid.requests)
      × (db'.runs ≡ mid.runs)
      × (any_where (has_id q.run_id) mid.runs ≡ true)
insert_request-adds q mid db' h = ground arith

-- A request for a run without one joins; one that occupies does so only if none does.
pub insert-IsExclusive :
    (q : RestoreRequest) (db mid db' : Db)
    → IsExclusive db
    → RunsKept db mid
    → mid.requests ≡ db.requests
    → insert_request q mid ≡ ok db'
    → any_where (of_run q.run_id) db.requests ≡ false
    → (occupies q ≡ true → any_where occupies db.requests ≡ false)
    → IsExclusive db'
insert-IsExclusive q db mid db' inv kept same h fresh free =
    let (rows, runs', there) = insert_request-adds q mid db' h in
    let rows' : db'.requests ≡ q ∷ db.requests = rows ∙ ap (λ qs. q ∷ qs) same in
    record {
      with_run =
          subst (λ qs. All (λ r. has_run db' r ≡ true) qs) (sym rows')
            (
              rw runs' there,
              All-weaken (λ r. has_run db r ≡ true) (λ r. has_run db' r ≡ true)
                  (λ r e. rw runs' (kept r.run_id e)) db.requests inv.with_run,
            );
      distinct =
          subst (λ qs. NoClash same_run qs) (sym rows')
            (
              any_where-weaken (same_run q) (of_run q.run_id) db.requests
                  (λ r e. ground (arith, eq_iff q.run_id r.run_id, eq_iff r.run_id q.run_id)) fresh,
              inv.distinct,
            );
      at_most_one = rw rows' (elim (Bool-cases (occupies q)) [
        | inl e ↦ rw e (omega (arith, count_where-none occupies db.requests (free e)))
        | inr e ↦ rw e inv.at_most_one
      ]);
    }
