-- ===== src/Store/Restores/Terminal.antt =====
-- Restore requests in a terminal phase, under the operations that come later
-- (internal/server/store/sqlite.go).
use backup_management_center.Common.{
  ◌∙◌, String, ◌≡◌, refl, subst, Bool, true, false, ◌&&◌, not, some, List, ◌∷◌, ◌==◌, arith, eq_iff,
  string_eq, All-found, find_where, update_where, any_where, on_where, Bool-cases, inl, inr,
  Option-cases, NoClash, found_unique, any_where-find, find_where-map,
}
use backup_management_center.Model.Kind.{kind_eq}
use backup_management_center.Model.Phase.{is_terminal, cancelling, manual_recovery_done}
use backup_management_center.Model.Types.{RestoreRequest}
use backup_management_center.Model.Status as Status
use backup_management_center.Store.Outcome.{ok, Outcome-cases}
use backup_management_center.Store.Db.{Db}
use backup_management_center.Store.Runs.{has_id}
use backup_management_center.Store.Runs.Steps.{
  create_run-adds, requests-RunStep, requests-create_run,
}
use backup_management_center.Store.Restores.{
  of_run, may_advance, merged_phase, merge_request, FinishInput, update_restore_phase,
  request_restore_stop, update_restore_rollback_snapshot, finish_restore_run, has_request_id,
  update_restore_request_tx, end_run,
}
use backup_management_center.Store.Restores.Phases.{merged_phase-terminal, may_advance_lem}
use backup_management_center.Store.Restores.Steps.{
  IsExclusive, same_run, RestoreStep, requested, occupied, advanced, stopped, saved, finished,
  resolved, ran,
}
use backup_management_center.Store.Restores.Kept.{no_request}
use backup_management_center.Store.Restores.Occupancy.{
  resolved-parts, occupied-parts, create_request-parts, unused_id,
}
use backup_management_center.Store.Restores.Kept.{insert_request-adds}

-- The end of a restore rewrites the requests as they were.
finish-parts :
    (in' : FinishInput) (db db' : Db)
    → finish_restore_run in' db ≡ ok db'
    → (mid : Db) × (mid.requests ≡ db.requests) × (db' ≡ update_restore_request_tx in' mid)
unfolding finish_restore_run
finish-parts in' db db' h = elim (Option-cases (find_where (has_id in'.run_id) db.runs)) [
  | inl e ↦ absurd (ground arith)
  | inr (run, e) ↦ elim (Outcome-cases (end_run in' run db)) [
    | inl (mid, m) ↦ elim (Bool-cases (Status.is_terminal run.status)) [
      | inl t ↦ (db, refl, ground arith)
      | inr t ↦ (mid, ground arith, ground arith)
    ]
    | inr (x, m) ↦ elim (Bool-cases (Status.is_terminal run.status)) [
      | inl t ↦ absurd (ground arith)
      | inr t ↦ absurd (ground arith)
    ]
  ]
]

-- The request of a run, with the identifier and the phase of `q`.
abbrev pub StandsAs : String → RestoreRequest → Db → Type 0
StandsAs run_id q db =
    (r : RestoreRequest) × (find_where (of_run run_id) db.requests ≡ some r)
    × (r.id ≡ q.id)
    × (r.phase ≡ q.phase)

-- No resolution of this request.
abbrev pub NotResolved : {db db' : Db} → String → RestoreStep db db' → Type 0
NotResolved id (resolved request_id run_id actor note detail at h) = not (id == request_id) ≡ true
NotResolved id (requested target_path q kind fresh h) = Unit
NotResolved id (occupied now run q same h) = Unit
NotResolved id (advanced run_id phase) = Unit
NotResolved id (stopped run_id deadline) = Unit
NotResolved id (saved run_id snapshot) = Unit
NotResolved id (finished in' h) = Unit
NotResolved id (ran step) = Unit

module _ (run_id : String) (q : RestoreRequest) (rows : List RestoreRequest)
    (found : find_where (of_run run_id) rows ≡ some q) where
  after_update :
      (p : RestoreRequest → Bool) (f : RestoreRequest → RestoreRequest)
      → ((x : RestoreRequest) → (f x).run_id ≡ x.run_id)
      → (p q ≡ true → ((f q).id ≡ q.id) × ((f q).phase ≡ q.phase))
      → (r : RestoreRequest) × (find_where (of_run run_id) (update_where p f rows) ≡ some r)
        × (r.id ≡ q.id)
        × (r.phase ≡ q.phase)
  after_update p f keeps same = (
    on_where p f q,
    find_where-map (of_run run_id) (on_where p f) rows
          (λ x. elim (Bool-cases (p x)) [ inl e ↦ rw (e, keeps x) | inr e ↦ rw e ])
        ∙ rw found,
    elim (Bool-cases (p q)) [ inl e ↦ rw e (same e).0 | inr e ↦ rw e ],
    elim (Bool-cases (p q)) [ inl e ↦ rw e (same e).1 | inr e ↦ rw e ],
  )

-- A new request of another run is not found in place of this one.
after_insert :
    (run_id : String) (q new : RestoreRequest) (rows : List RestoreRequest)
    → find_where (of_run run_id) rows ≡ some q
    → any_where (of_run new.run_id) rows ≡ false
    → find_where (of_run run_id) (new ∷ rows) ≡ some q
after_insert run_id q new rows found fresh = elim (Bool-cases (of_run run_id new)) [
  | inr e ↦ rw e found
  | inl e ↦ absurd (
      cc (
        any_where-find (of_run run_id) rows q found,
        subst (λ s. any_where (of_run s) rows ≡ false) ((eq_iff new.run_id run_id).0 e) fresh,
      ))
]

after_finish :
    (run_id : String) (q : RestoreRequest) (in' : FinishInput) (mid : Db)
    → NoClash same_run mid.requests
    → is_terminal q.phase ≡ true
    → find_where (of_run run_id) mid.requests ≡ some q
    → StandsAs run_id q (update_restore_request_tx in' mid)
unfolding update_restore_request_tx
after_finish run_id q in' mid distinct ended found =
    elim (Option-cases (find_where (of_run in'.run_id) mid.requests)) [
      | inl e ↦ rw e (q, found, refl, refl)
      | inr (first, e) ↦ rw e (
          after_update run_id q mid.requests found (of_run in'.run_id) (merge_request in' first)
            (λ x. refl)
            (λ own.
              let only : q ≡ first =
                All-found (λ x. of_run in'.run_id x ≡ true → x ≡ first) (of_run run_id) mid.requests
                  q
                  (found_unique same_run (of_run in'.run_id)
                    (λ x y a b. ground (
                      arith,
                      eq_iff x.run_id in'.run_id,
                      eq_iff y.run_id in'.run_id,
                      eq_iff x.run_id y.run_id,
                    ))
                    mid.requests first distinct e)
                  found own in
              (
                refl,
                subst (λ x. merged_phase x.phase in'.phase ≡ q.phase) only
                    (merged_phase-terminal q.phase in'.phase ended),
              )))
    ]

not_advancing :
    (run_id : String) (q : RestoreRequest)
    → is_terminal q.phase ≡ true
    → may_advance run_id q ≡ false
not_advancing run_id q ended = ground (arith, may_advance_lem run_id q)

pub RestoreStep-StandsAs :
    {db db' : Db} (run_id : String) (q : RestoreRequest) (step : RestoreStep db db')
    → IsExclusive db
    → is_terminal q.phase ≡ true
    → NotResolved q.id step
    → find_where (of_run run_id) db.requests ≡ some q
    → StandsAs run_id q db'
unfolding update_restore_phase request_restore_stop update_restore_rollback_snapshot
RestoreStep-StandsAs {db} {db'} run_id q (requested target_path new kind fresh h) inv ended kept
      found =
    let (rows, runs', there) =
      insert_request-adds new db db' (create_request-parts target_path new db db' h) in
    (q, rw rows (after_insert run_id q new db.requests found fresh), refl, refl)
RestoreStep-StandsAs {db} {db'} run_id q (occupied now run new same h) inv ended kept found =
    let (mid, free, made, inserted) = occupied-parts now run new db db' h in
    let (rows, runs', there) = insert_request-adds new mid db' inserted in
    let unused = (create_run-adds now run db mid made).1 in
    (
      q,
      rw (rows, requests-create_run now run db mid made)
          (after_insert run_id q new db.requests found (
            rw same
              (no_request run.id db db.requests inv.with_run (unused_id run db.runs unused)))),
      refl,
      refl,
    )
RestoreStep-StandsAs {db} run_id q (advanced id phase) inv ended kept found =
    after_update run_id q db.requests found (may_advance id) (λ r. record r { phase = phase })
      (λ r. refl) (λ e. absurd (cc (e, not_advancing id q ended)))
RestoreStep-StandsAs {db} run_id q (stopped id deadline) inv ended kept found =
    elim (Bool-cases (any_where (may_advance id) db.requests)) [
      | inr e ↦ rw e (q, found, refl, refl)
      | inl e ↦ rw e (
          after_update run_id q db.requests found (may_advance id)
            (λ r. record r { phase = cancelling }) (λ r. refl)
            (λ a. absurd (cc (a, not_advancing id q ended))))
    ]
RestoreStep-StandsAs {db} run_id q (saved id snapshot) inv ended kept found =
    elim (Bool-cases (snapshot == "")) [
      | inl e ↦ rw e (q, found, refl, refl)
      | inr e ↦ rw e (
          after_update run_id q db.requests found
            (λ r. r.run_id == id && r.rollback_snapshot_id == "")
            (λ r. record r { rollback_snapshot_id = snapshot }) (λ r. refl) (λ a. (refl, refl)))
    ]
RestoreStep-StandsAs {db} {db'} run_id q (finished in' h) inv ended kept found =
    let (mid, same, result) = finish-parts in' db db' h in
    rw result (after_finish run_id q in' mid (rw same inv.distinct) ended (rw same found))
RestoreStep-StandsAs {db} {db'} run_id q (resolved id run actor note detail at h) inv ended kept
      found =
    let (r, rows, runs') = resolved-parts id run actor note detail at db db' h in
    rw rows (
      after_update run_id q db.requests found (has_request_id id)
        (λ x. record x { phase = manual_recovery_done }) (λ x. refl) (λ e. absurd (ground arith)))
RestoreStep-StandsAs {db} {db'} run_id q (ran step) inv ended kept found =
    (q, rw (requests-RunStep step) found, refl, refl)
