-- ===== src/Store/Restores/Occupancy.antt =====
-- The mutual exclusion of database restores under each operation on restores and runs
-- (internal/server/store/sqlite.go).
use backup_management_center.Common.{
  ℕ, Option, ap, String, ◌≡◌, ◌≢◌, refl, sym, subst, Bool, true, false, ◌&&◌, not, none, some, List,
  [], ◌∷◌, ◌==◌, arith, eq_iff, string_eq, All, find_where, select_where, update_where,
  delete_where, any_where, on_where, Bool-cases, inl, inr, Option-cases, any_where-weaken, or-false,
}
use backup_management_center.Model.Kind.{filesystem, kind_eq}
use backup_management_center.Model.Phase.{cancelling, manual_recovery_done}
use backup_management_center.Model.Types.{Run, RestoreRequest}
use backup_management_center.Model.Status as Status
use backup_management_center.Store.Outcome.{ok, Outcome-cases}
use backup_management_center.Store.Db.{Db}
use backup_management_center.Store.Runs.{
  has_id, clash, written, insert_run_tx, create_run, delete_run, is_cancelled_run, is_live_run,
  progress_row, reconciled_row, has_status_in, failed_row, update_run_progress, fail_stale_runs,
  clear_run_progress,
}
use backup_management_center.Store.Runs.Moves.{transition_run_once-Moved}
use backup_management_center.Store.Runs.Steps.{
  RunStep, created, moved, reconciled, progressed, swept, cleared, deleted, create_run-adds,
  reconciled-rows, deleted-rows, requests-RunStep, requests-create_run,
}
use backup_management_center.Store.Restores.{
  of_run, has_run, occupies, may_advance, FinishInput, filesystem_target_busy,
  create_restore_request, create_database_restore_run, update_restore_phase, request_restore_stop,
  update_restore_rollback_snapshot, finish_restore_run, resolve_restore_request, insert_request,
  oldest, refuse_occupied, is_unfinished_run, resolved_row, has_request_id, end_run,
}
use backup_management_center.Store.Restores.Steps.{
  IsExclusive, RunsKept, update-IsExclusive, RestoreStep, requested, occupied, advanced, stopped,
  saved, finished, resolved, ran,
}
use backup_management_center.Store.Restores.Kept.{no_request, no_occupant, insert-IsExclusive}
use backup_management_center.Store.Restores.Exclusive.{
  kept_of_update, advance-occupies, conditional, update_tx-IsExclusive, same-IsExclusive,
  end_run-IsExclusive,
}

finish-IsExclusive :
    (in' : FinishInput) (db db' : Db)
    → finish_restore_run in' db ≡ ok db'
    → IsExclusive db
    → IsExclusive db'
unfolding finish_restore_run
finish-IsExclusive in' db db' h inv = elim (Option-cases (find_where (has_id in'.run_id) db.runs)) [
  | inl e ↦ absurd (ground arith)
  | inr (run, e) ↦ elim (Outcome-cases (end_run in' run db)) [
    | inl (mid, m) ↦ elim (Bool-cases (Status.is_terminal run.status)) [
      | inl t ↦ subst IsExclusive (ground arith) (update_tx-IsExclusive in' db inv)
      | inr t ↦
          subst IsExclusive (ground arith)
            (update_tx-IsExclusive in' mid (end_run-IsExclusive in' run db mid m inv))
    ]
    | inr (x, m) ↦ elim (Bool-cases (Status.is_terminal run.status)) [
      | inl t ↦ absurd (ground arith)
      | inr t ↦ absurd (ground arith)
    ]
  ]
]

delete-kept :
    (id j : String) (rows : List Run)
    → not (j == id) ≡ true
    → any_where (has_id j) rows ≡ true
    → any_where (has_id j) (delete_where (has_id id) rows) ≡ true
delete-kept id j [] ne h = h
delete-kept id j (r ∷ rows) ne h =
    ground (arith, delete-kept id j rows ne, eq_iff r.id j, eq_iff r.id id, eq_iff j id)

delete-with_run :
    (id : String) (db : Db) (qs : List RestoreRequest)
    → All (λ q. has_run db q ≡ true) qs
    → any_where (of_run id) qs ≡ false
    → All (λ q. any_where (has_id q.run_id) (delete_where (has_id id) db.runs) ≡ true) qs
delete-with_run id db [] all h = tt
delete-with_run id db (q ∷ qs) all h =
    let (other, rest) = or-false (of_run id q) (any_where (of_run id) qs) h in
    (delete-kept id q.run_id db.runs (rw other) all.0, delete-with_run id db qs all.1 rest)

delete_run-unreferenced :
    (id : String) (db db' : Db)
    → delete_run id db ≡ ok db'
    → IsExclusive db
    → any_where (of_run id) db.requests ≡ false
unfolding delete_run
delete_run-unreferenced id db db' h inv = elim (Bool-cases (any_where (has_id id) db.runs)) [
  | inl e ↦ ground arith
  | inr e ↦ no_request id db db.requests inv.with_run e
]

RunStep-IsExclusive : {db db' : Db} → RunStep db db' → IsExclusive db → IsExclusive db'
unfolding update_run_progress fail_stale_runs clear_run_progress
RunStep-IsExclusive {db} (created {db' = db'} now r h) inv =
    same-IsExclusive db db' (λ id e. rw (create_run-adds now r db db' h).0 (ground arith))
      (requests-create_run now r db db' h) inv
RunStep-IsExclusive {db} (moved {db' = db'} driver id from to mutate k h) inv =
    let m = transition_run_once-Moved driver id from to mutate db db' h in
    let new = mutate (record m.run { status = to }) in
    same-IsExclusive db db'
      (kept_of_update (has_id new.id) (written new) db db' (λ r. refl)
        (ap (λ (d : Db). d.runs) m.wrote))
      (requests-RunStep (moved driver id from to mutate k h)) inv
RunStep-IsExclusive {db} (reconciled {db' = db'} id snapshot progress h) inv =
    same-IsExclusive db db'
      (kept_of_update (is_cancelled_run id) (reconciled_row snapshot progress) db db' (λ r. refl)
        (reconciled-rows id snapshot progress db db' h))
      (requests-RunStep (reconciled id snapshot progress h)) inv
RunStep-IsExclusive {db} (progressed id progress) inv =
    same-IsExclusive db (update_run_progress id progress db)
      (kept_of_update (is_live_run id) (progress_row progress) db
        (update_run_progress id progress db) (λ r. refl) refl)
      refl inv
RunStep-IsExclusive {db} (swept statuses code at live) inv =
    same-IsExclusive db (fail_stale_runs statuses code at db).1
      (kept_of_update (has_status_in statuses) (failed_row code at) db
        (fail_stale_runs statuses code at db).1 (λ r. refl) refl)
      refl inv
RunStep-IsExclusive {db} (cleared id) inv =
    same-IsExclusive db (clear_run_progress id db)
      (kept_of_update (has_id id) (progress_row "{}") db (clear_run_progress id db) (λ r. refl)
        refl)
      refl inv
RunStep-IsExclusive {db} (deleted {db' = db'} id h) inv =
    let same : db'.requests ≡ db.requests = requests-RunStep (deleted id h) in
    record {
      with_run =
          subst (λ qs. All (λ q. has_run db' q ≡ true) qs) (sym same)
            (subst (λ rows. All (λ q. any_where (has_id q.run_id) rows ≡ true) db.requests)
              (sym (deleted-rows id db db' h))
              (delete-with_run id db db.requests inv.with_run
                (delete_run-unreferenced id db db' h inv)));
      distinct = rw same inv.distinct;
      at_most_one = rw same inv.at_most_one;
    }

pub create_request-parts :
    (target_path : String → Option (List ℕ)) (q : RestoreRequest) (db db' : Db)
    → create_restore_request target_path q db ≡ ok db'
    → insert_request q db ≡ ok db'
unfolding create_restore_request
create_request-parts target_path q db db' h =
    elim (Bool-cases (q.restore_kind == filesystem && filesystem_target_busy target_path q db)) [
      | inl e ↦ absurd (ground arith)
      | inr e ↦ ground arith
    ]

refuse_occupied-some :
    (run : Run) (db : Db) (q : RestoreRequest) → refuse_occupied run db (some q) ≢ ok tt
refuse_occupied-some run db q h = ground arith

-- What a successful `CreateDatabaseRestoreRun` found and did.
pub occupied-parts :
    (now : ℕ) (run : Run) (q : RestoreRequest) (db db' : Db)
    → create_database_restore_run now run q db ≡ ok db'
    → (mid : Db) × (oldest (select_where (λ r. occupies r && has_run db r) db.requests) ≡ none)
      × (create_run now run db ≡ ok mid)
      × (insert_request q mid ≡ ok db')
unfolding create_database_restore_run create_run
occupied-parts now run q db db' h =
    elim (Option-cases (oldest (select_where (λ r. occupies r && has_run db r) db.requests))) [
      | inr (r, e) ↦ absurd (ground (arith, refuse_occupied-some run db r))
      | inl e ↦ elim (Outcome-cases (insert_run_tx now run db)) [
        | inl (mid, m) ↦ (mid, e, m, rw (e, m) at h)
        | inr (x, m) ↦ absurd (ground arith)
      ]
    ]

-- An update of some request rows beside kept runs.
rows-IsExclusive :
    (p : RestoreRequest → Bool) (f : RestoreRequest → RestoreRequest) (db db' : Db)
    → ((q : RestoreRequest) → (f q).run_id ≡ q.run_id)
    → ((q : RestoreRequest) → p q ≡ true → occupies (f q) ≡ true → occupies q ≡ true)
    → RunsKept db db'
    → db'.requests ≡ update_where p f db.requests
    → IsExclusive db
    → IsExclusive db'
rows-IsExclusive p f db db' keeps not_more kept rows inv =
    update-IsExclusive (on_where p f)
      (λ q. elim (Bool-cases (p q)) [ inl e ↦ rw e (keeps q) | inr e ↦ rw e ]) db db' kept rows
      (conditional p f db.requests not_more) inv

pub unused_id :
    (run : Run) (rows : List Run)
    → any_where (clash run) rows ≡ false
    → any_where (has_id run.id) rows ≡ false
unused_id run rows =
    any_where-weaken (has_id run.id) (clash run) rows
      (λ r e. ground (arith, eq_iff r.id run.id, eq_iff run.id r.id))

pub resolved-parts :
    (request_id run_id actor note detail : String) (at : ℕ) (db db' : Db)
    → resolve_restore_request request_id run_id actor note detail at db ≡ ok db'
    → (q : RestoreRequest) × (db'.requests
        ≡ update_where
            (has_request_id request_id)
            (λ r. record r { phase = manual_recovery_done })
            db.requests)
      × (db'.runs
          ≡ update_where (is_unfinished_run q.run_id) (resolved_row q.phase note at) db.runs)
unfolding resolve_restore_request
resolved-parts request_id run_id actor note detail at db db' h =
    elim (Option-cases (find_where (has_request_id request_id) db.requests)) [
      | inl e ↦ absurd (ground arith)
      | inr (q, e) ↦ (q, ground arith, ground arith)
    ]

pub RestoreStep-IsExclusive : {db db' : Db} → RestoreStep db db' → IsExclusive db → IsExclusive db'
unfolding update_restore_phase request_restore_stop update_restore_rollback_snapshot
RestoreStep-IsExclusive {db} (requested {db' = db'} target_path q kind fresh h) inv =
    insert-IsExclusive q db db db' inv (λ id e. e) refl
      (create_request-parts target_path q db db' h) fresh (λ e. absurd (ground arith))
RestoreStep-IsExclusive {db} (occupied {db' = db'} now run q same h) inv =
    let (mid, free, made, inserted) = occupied-parts now run q db db' h in
    let (rows, unused) = create_run-adds now run db mid made in
    insert-IsExclusive q db mid db' inv (λ id e. rw rows (ground arith))
      (requests-create_run now run db mid made) inserted
      (rw same (no_request run.id db db.requests inv.with_run (unused_id run db.runs unused)))
      (λ e. no_occupant db db.requests inv.with_run free)
RestoreStep-IsExclusive {db} (advanced run_id phase) inv =
    rows-IsExclusive (may_advance run_id) (λ q. record q { phase = phase }) db
      (update_restore_phase run_id phase db) (λ q. refl)
      (λ q e k. advance-occupies run_id q phase e k) (λ id e. e) refl inv
RestoreStep-IsExclusive {db} (stopped run_id deadline) inv =
    elim (Bool-cases (any_where (may_advance run_id) db.requests)) [
      | inr e ↦ rw e inv
      | inl e ↦
          rows-IsExclusive (may_advance run_id) (λ q. record q { phase = cancelling }) db
            (request_restore_stop run_id deadline db) (λ q. refl)
            (λ q a k. advance-occupies run_id q cancelling a k)
            (kept_of_update (has_id run_id) (λ r. record r { lease_expires_at = some deadline }) db
              (request_restore_stop run_id deadline db) (λ r. refl) (rw e))
            (rw e) inv
    ]
RestoreStep-IsExclusive {db} (saved run_id snapshot) inv = elim (Bool-cases (snapshot == "")) [
  | inl e ↦ rw e inv
  | inr e ↦
      rows-IsExclusive (λ q. q.run_id == run_id && q.rollback_snapshot_id == "")
        (λ q. record q { rollback_snapshot_id = snapshot }) db
        (update_restore_rollback_snapshot run_id snapshot db) (λ q. refl) (λ q a k. k)
        (λ id h. rw e h) (rw e) inv
]
RestoreStep-IsExclusive {db} (finished {db' = db'} in' h) inv = finish-IsExclusive in' db db' h inv
RestoreStep-IsExclusive {db} (resolved {db' = db'} request_id run_id actor note detail at h) inv =
    let (q, rows, runs') = resolved-parts request_id run_id actor note detail at db db' h in
    rows-IsExclusive (has_request_id request_id) (λ r. record r { phase = manual_recovery_done }) db
      db' (λ r. refl) (λ r a k. absurd (ground arith))
      (kept_of_update (is_unfinished_run q.run_id) (resolved_row q.phase note at) db db' (λ r. refl)
        runs')
      rows inv
RestoreStep-IsExclusive (ran step) inv = RunStep-IsExclusive step inv
