-- ===== src/Store/History/Pruned.antt =====
-- What pruning the history keeps and when it fails (internal/server/store/sqlite.go).
use backup_management_center.Common.{
  ℕ, String, ◌≡◌, refl, ap, Bool, true, false, ◌&&◌, some, List, [], ◌∷◌, ◌==◌, arith, eq_iff,
  string_eq, Bool-cases, select_where, delete_where, any_where, all_where, inl, inr,
}
use backup_management_center.Model.Status.{status_eq, is_active}
use backup_management_center.Model.Types.{Run, RestoreRequest}
use backup_management_center.Store.Outcome.{foreign_key}
use backup_management_center.Store.Db.{Db}
use backup_management_center.Store.Runs.{has_id}
use backup_management_center.Store.Restores.{is_unsafe, has_run}
use backup_management_center.Store.History.{
  prune_history, is_old, is_done, goes, is_referred, without_requests,
}

-- Rows that a deletion spares are selected from the rest as from the whole.
select-delete {ℓ} :
    {A : Type ℓ} (p q : A → Bool) (xs : List A)
    → ((x : A) → p x ≡ true → q x ≡ false)
    → select_where q (delete_where p xs) ≡ select_where q xs
select-delete p q [] f = refl
select-delete p q (x ∷ xs) f = elim (Bool-cases (p x)) [
  | inl e ↦ rw (e, f x e) (select-delete p q xs f)
  | inr e ↦ elim (Bool-cases (q x)) [
    | inl t ↦ rw (e, t) (ap (λ r. x ∷ r) (select-delete p q xs f))
    | inr t ↦ rw (e, t) (select-delete p q xs f)
  ]
]

-- After a deletion no row meets its condition.
pub any-delete {ℓ} :
    {A : Type ℓ} (p : A → Bool) (xs : List A) → any_where p (delete_where p xs) ≡ false
any-delete p [] = refl
any-delete p (x ∷ xs) = elim (Bool-cases (p x)) [
  | inl e ↦ rw e (any-delete p xs)
  | inr e ↦ rw (e, e) (any-delete p xs)
]

-- A row found before a deletion is there after it, or is among the deleted.
pub any-delete_kept {ℓ} :
    {A : Type ℓ} (p q : A → Bool) (xs : List A)
    → any_where q xs ≡ true
    → any_where (λ x. q x && p x) xs ≡ false
    → any_where q (delete_where p xs) ≡ true
any-delete_kept p q [] h k = h
any-delete_kept p q (x ∷ xs) h k = elim (Bool-cases (p x)) [
  | inl e ↦ rw e (any-delete_kept p q xs (ground arith) (ground arith))
  | inr e ↦ rw e (elim (Bool-cases (q x)) [
    | inl t ↦ rw t refl
    | inr t ↦ rw t (any-delete_kept p q xs (ground arith) (ground arith))
  ])
]

all-delete {ℓ} :
    {A : Type ℓ} (p q : A → Bool) (xs : List A)
    → all_where q xs ≡ true
    → all_where q (delete_where p xs) ≡ true
all-delete p q [] h = refl
all-delete p q (x ∷ xs) h = elim (Bool-cases (p x)) [
  | inl e ↦ rw e (all-delete p q xs (ground arith))
  | inr e ↦ let here : q x ≡ true = ground arith in rw (e, here) (all-delete p q xs (ground arith))
]

-- What a request of the rest refers to is not among the deleted runs.
module _ (at : ℕ) (runs : List Run) where
  references_kept :
      (qs : List RestoreRequest)
      → any_where (λ q. goes at runs q.run_id) qs ≡ false
      → all_where (λ q. any_where (has_id q.run_id) runs) qs ≡ true
      → all_where (λ q. any_where (has_id q.run_id) (delete_where (is_old at) runs)) qs ≡ true
  references_kept [] g h = refl
  references_kept (q ∷ qs) g h =
      let here : any_where (has_id q.run_id) (delete_where (is_old at) runs) ≡ true =
        any-delete_kept (is_old at) (has_id q.run_id) runs (ground arith) (ground arith) in
      rw here (references_kept qs (ground arith) (ground arith))

live_spared : (at : ℕ) (r : Run) → is_old at r ≡ true → is_active r.status ≡ false
live_spared at r h = ground arith

unsafe_spared : (at : ℕ) (q : RestoreRequest) → is_done at q ≡ true → is_unsafe q ≡ false
unsafe_spared at q h = ground arith

-- Pruning at any time keeps, row for row, the runs that are not finished and the restore requests
-- whose phase is not safe, whether or not it fails.
pub prune_history-keeps :
    (at : ℕ) (db : Db)
    → (select_where (λ r. is_active r.status) (prune_history at db).after.runs
        ≡ select_where (λ r. is_active r.status) db.runs)
      × (select_where is_unsafe (prune_history at db).after.requests
          ≡ select_where is_unsafe db.requests)
unfolding prune_history
prune_history-keeps at db = elim (Bool-cases (is_referred at (without_requests at db))) [
  | inl e ↦ rw e (refl, select-delete (is_done at) is_unsafe db.requests (unsafe_spared at))
  | inr e ↦ rw e (
    select-delete (is_old at) (λ r. is_active r.status) db.runs (live_spared at),
    select-delete (is_done at) is_unsafe db.requests (unsafe_spared at),
  )
]

-- If every restore request refers to a run before pruning, it does after.
pub prune_history-references :
    (at : ℕ) (db : Db)
    → all_where (has_run db) db.requests ≡ true
    → all_where (has_run (prune_history at db).after) (prune_history at db).after.requests ≡ true
unfolding prune_history
prune_history-references at db h =
    let less = all-delete (is_done at) (has_run db) db.requests h in
    elim (Bool-cases (is_referred at (without_requests at db))) [
      | inl e ↦ rw e less
      | inr e ↦ rw e (references_kept at db.runs (delete_where (is_done at) db.requests) e less)
    ]

referred-delete :
    (at : ℕ) (runs : List Run) (run_id : String) (qs : List RestoreRequest)
    → goes at runs run_id ≡ true
    → any_where (λ q. q.run_id == run_id && is_unsafe q) qs ≡ true
    → any_where (λ q. goes at runs q.run_id) (delete_where (is_done at) qs) ≡ true
referred-delete at runs run_id [] g h = absurd (cc)
referred-delete at runs run_id (q ∷ qs) g h =
    elim (Bool-cases (q.run_id == run_id && is_unsafe q)) [
      | inl e ↦
          let spared : is_done at q ≡ false = ground arith in
          let same : q.run_id ≡ run_id = (eq_iff q.run_id run_id).0 (ground arith) in
          rw (spared, same, g) refl
      | inr e ↦
          let later = referred-delete at runs run_id qs g (ground arith) in
          elim (Bool-cases (is_done at q)) [
            | inl d ↦ rw d later
            | inr d ↦ rw d (ground (arith, later))
          ]
    ]

-- Pruning fails with a violated reference, and deletes no run and no audit event, whenever a
-- restore request in an unsafe phase belongs to a finished run from before its time.
pub prune_history-stuck :
    (at : ℕ) (db : Db) (run_id : String)
    → goes at db.runs run_id ≡ true
    → any_where (λ q. q.run_id == run_id && is_unsafe q) db.requests ≡ true
    → ((prune_history at db).error ≡ some foreign_key)
      × ((prune_history at db).after.runs ≡ db.runs)
      × ((prune_history at db).after.audit ≡ db.audit)
unfolding prune_history
prune_history-stuck at db run_id g h =
    rw (referred-delete at db.runs run_id db.requests g h) (refl, refl, refl)
