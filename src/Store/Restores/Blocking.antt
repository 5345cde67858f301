-- ===== src/Store/Restores/Blocking.antt =====
-- A restore that did not end safely blocks its repository (internal/server/store/sqlite.go).
use backup_management_center.Common.{
  String, ◌≡◌, refl, ◌∙◌, Bool, true, false, ◌&&◌, ◌||◌, not, some, List, [], ◌∷◌, ◌==◌, arith,
  eq_iff, string_eq, Bool-cases, inl, inr, find_where, update_where, on_where, any_where,
  any_where-map,
}
use backup_management_center.Model.Kind.{operation_eq}
use backup_management_center.Model.Status.{RunStatus, succeeded, failed, cancelled, status_eq}
use backup_management_center.Model.Status as Status
use backup_management_center.Model.Phase.{RestorePhase, phase_eq, releases_occupancy}
use backup_management_center.Model.Types.{Run, RestoreRequest}
use backup_management_center.Store.Outcome.{ok, Outcome-cases}
use backup_management_center.Store.Db.{Db}
use backup_management_center.Store.Runs.{get_run}
use backup_management_center.Store.Restores.{
  FinishInput, of_run, is_unsafe, in_repository, finish_restore_run, end_run, finishes,
  finished_row, update_restore_request_tx, merge_request, merged_phase, repository_restore_blocked,
}
use backup_management_center.Store.Restores.Phases.{is_unsafe_lem}

merged-unsafe :
    (current reported : RestorePhase)
    → releases_occupancy current ≡ false
    → releases_occupancy reported ≡ false
    → releases_occupancy (merged_phase current reported) ≡ false
merged-unsafe current reported c r = ground arith

-- An update that a found row's query singles out leaves a row with what it writes.
any-updated {ℓ} :
    {A : Type ℓ} (key p : A → Bool) (f : A → A) (rows : List A) (a : A)
    → find_where key rows ≡ some a
    → ((x : A) → key x ≡ true → p (f x) ≡ true)
    → any_where p (update_where key f rows) ≡ true
any-updated key p f [] a h g = absurd (cc)
any-updated key p f (x ∷ xs) a h g = elim (Bool-cases (key x)) [
  | inl e ↦ rw (e, g x e) refl
  | inr e ↦ rw e (ground (arith, any-updated key p f xs a))
]

-- The run's request is not in a safe phase, and the run is one of the repository.
pub record IsBlocking (repo run_id : String) (db : Db) : Type 0 where
  pub open_request : any_where (λ q. q.run_id == run_id && is_unsafe q) db.requests ≡ true
  pub there : in_repository repo db run_id ≡ true

blocking_any :
    (repo except run_id : String) (db : Db) (qs : List RestoreRequest)
    → (except == "" || not (run_id == except)) ≡ true
    → in_repository repo db run_id ≡ true
    → any_where (λ q. q.run_id == run_id && is_unsafe q) qs ≡ true
    → any_where
        (λ q.
          in_repository repo db q.run_id
          && is_unsafe q
          && (except == "" || not (q.run_id == except)))
        qs
      ≡ true
blocking_any repo except run_id db [] x t h = absurd (cc)
blocking_any repo except run_id db (q ∷ qs) x t h =
    elim (Bool-cases (q.run_id == run_id && is_unsafe q)) [
      | inl e ↦
          let same : q.run_id ≡ run_id = (eq_iff q.run_id run_id).0 (ground arith) in
          let open' : is_unsafe q ≡ true = ground arith in rw (same, t, open', x) refl
      | inr e ↦ let later = blocking_any repo except run_id db qs x t (ground arith) in ground arith
    ]

pub IsBlocking-blocks :
    (repo except run_id : String) (db : Db)
    → (except == "" || not (run_id == except)) ≡ true
    → IsBlocking repo run_id db
    → repository_restore_blocked repo except db ≡ true
unfolding repository_restore_blocked
IsBlocking-blocks repo except run_id db x i =
    blocking_any repo except run_id db db.requests x i.there i.open_request

any-found {ℓ} :
    {A : Type ℓ} (key p : A → Bool) (rows : List A) (a : A)
    → find_where key rows ≡ some a
    → p a ≡ true
    → any_where (λ x. key x && p x) rows ≡ true
any-found key p [] a h g = absurd (cc)
any-found key p (x ∷ xs) a h g = elim (Bool-cases (key x)) [
  | inl e ↦ let same : x ≡ a = ground arith in rw (e, same, g) refl
  | inr e ↦ rw e (any-found key p xs a (ground arith) g)
]

false_of_not : (b : Bool) → not b ≡ true → b ≡ false
false_of_not b h = ground arith

pub found-IsBlocking :
    (repo run_id : String) (db : Db) (q : RestoreRequest)
    → find_where (of_run run_id) db.requests ≡ some q
    → is_unsafe q ≡ true
    → in_repository repo db run_id ≡ true
    → IsBlocking repo run_id db
found-IsBlocking repo run_id db q f u t = record {
  open_request = any-found (of_run run_id) is_unsafe db.requests q f u;
  there = t;
}

module _ (in' : FinishInput) (phase_open : releases_occupancy in'.phase ≡ false) where
  update_tx-IsBlocking :
      (repo : String) (db : Db) (q : RestoreRequest)
      → find_where (of_run in'.run_id) db.requests ≡ some q
      → is_unsafe q ≡ true
      → in_repository repo db in'.run_id ≡ true
      → IsBlocking repo in'.run_id (update_restore_request_tx in' db)
  unfolding update_restore_request_tx
  update_tx-IsBlocking repo db q f u t =
      let held : releases_occupancy q.phase ≡ false = false_of_not _ (rw (is_unsafe_lem q) at u) in
      rw f (record {
        open_request =
            any-updated (of_run in'.run_id) (λ r. r.run_id == in'.run_id && is_unsafe r)
              (merge_request in' q) db.requests q f
              (λ x k.
                rw
                  (
                    k,
                    is_unsafe_lem (merge_request in' q x),
                    merged-unsafe q.phase in'.phase held phase_open,
                  )
                  refl);
        there = t;
      })

  end_run-requests :
      (run : Run) (db mid : Db) → end_run in' run db ≡ ok mid → mid.requests ≡ db.requests
  end_run-requests run db mid h = ground arith

  end_run-in_repository :
      (repo : String) (run : Run) (db mid : Db)
      → end_run in' run db ≡ ok mid
      → in_repository repo mid in'.run_id ≡ in_repository repo db in'.run_id
  end_run-in_repository repo run db mid h = elim (Bool-cases (Status.is_terminal run.status)) [
    | inl e ↦ let same : mid ≡ db = ground arith in rw same refl
    | inr e ↦
        let rows : mid.runs ≡ update_where (finishes in') (finished_row in') db.runs =
          ground arith in
        rw rows (
          any_where-map (λ r. r.id == in'.run_id && r.repository_id == repo)
            (on_where (finishes in') (finished_row in')) db.runs
            (λ r. elim (Bool-cases (finishes in' r)) [ inl k ↦ rw k refl | inr k ↦ rw k refl ]))
  ]

  pub finish-IsBlocking :
      (repo : String) (db after : Db) (q : RestoreRequest)
      → find_where (of_run in'.run_id) db.requests ≡ some q
      → is_unsafe q ≡ true
      → in_repository repo db in'.run_id ≡ true
      → finish_restore_run in' db ≡ ok after
      → IsBlocking repo in'.run_id after
  unfolding finish_restore_run
  finish-IsBlocking repo db after q f u t h = elim (Outcome-cases (get_run in'.run_id db)) [
    | inr (c, e) ↦ absurd (ground arith)
    | inl (run, e) ↦
        elim (Bool-cases (Status.is_terminal run.status && not (run.status == in'.to_status))) [
          | inl k ↦
              let same : after ≡ update_restore_request_tx in' db = ground arith in
              rw same (update_tx-IsBlocking repo db q f u t)
          | inr k ↦ elim (Outcome-cases (end_run in' run db)) [
            | inr (c, m) ↦ absurd (ground arith)
            | inl (mid, m) ↦
                let same : after ≡ update_restore_request_tx in' mid = ground arith in
                let rows = end_run-requests run db mid m in
                rw same (
                  update_tx-IsBlocking repo mid q (rw rows f) u
                    (end_run-in_repository repo run db mid m ∙ t))
          ]
        ]
  ]
