-- ===== src/Store/Restores/Protected.antt =====
-- Which snapshots an unsafe restore protects, and how a restore that must stop is given its time
-- (internal/server/store/sqlite.go).
use backup_management_center.Common.{
  ℕ, String, ◌≡◌, refl, ◌∙◌, inl, inr, Bool, true, false, ◌&&◌, ◌||◌, not, some, List, [], ◌∷◌,
  ◌==◌, arith, eq_iff, string_eq, nat_eq, member, any_where, any_where-map, or-false, select_where,
  update_where, on_where, Bool-cases, update_where-twice,
}
use backup_management_center.Model.Phase.{cancelling, phase_eq}
use backup_management_center.Model.Types.{Run, RestoreRequest}
use backup_management_center.Store.Db.{Db}
use backup_management_center.Store.Runs.{has_id}
use backup_management_center.Store.Restores.{
  of_run, is_unsafe, in_repository, protected_by, non_empty, protected_restore_snapshot_ids,
  repository_restore_blocked, may_advance, request_restore_stop,
}

-- A request that has not ended safely names the snapshot, as its source or to roll back to.
abbrev pub names : String → RestoreRequest → Bool
names s q = not (s == "") && (s == q.snapshot_id || s == q.rollback_snapshot_id)

member-non_empty :
    (s t : String) (rest : List String)
    → member s (non_empty t rest) ≡ ((not (s == "") && s == t) || member s rest)
member-non_empty s t rest = ground (arith, eq_iff t "", eq_iff s "", eq_iff s t)

names_parts : (a b c m : Bool) → ((a && b) || ((a && c) || m)) ≡ ((a && (b || c)) || m)
names_parts a b c m = ground arith

member-protected_by :
    (s : String) (qs : List RestoreRequest) → member s (protected_by qs) ≡ any_where (names s) qs
member-protected_by s [] = refl
member-protected_by s (q ∷ qs) =
    rw
      (
        member-non_empty s q.snapshot_id (non_empty q.rollback_snapshot_id (protected_by qs)),
        member-non_empty s q.rollback_snapshot_id (protected_by qs),
        member-protected_by s qs,
      )
      (names_parts (not (s == "")) (s == q.snapshot_id) (s == q.rollback_snapshot_id) _)

any_where-select_where :
    (p f : RestoreRequest → Bool) (qs : List RestoreRequest)
    → any_where p (select_where f qs) ≡ any_where (λ q. f q && p q) qs
any_where-select_where p f [] = refl
any_where-select_where p f (q ∷ qs) = ground (arith, any_where-select_where p f qs)

-- A snapshot is protected exactly when it is named, and a request for the repository that has not
-- ended safely restores it or would roll back to it.
pub protected_restore_snapshot_ids_lem :
    (s repo : String) (db : Db)
    → member s (protected_restore_snapshot_ids repo db)
      ≡ any_where (λ q. (in_repository repo db q.run_id && is_unsafe q) && names s q) db.requests
unfolding protected_restore_snapshot_ids
protected_restore_snapshot_ids_lem s repo db =
    member-protected_by s
      (select_where (λ q. in_repository repo db q.run_id && is_unsafe q) db.requests)
    ∙ any_where-select_where (names s) (λ q. in_repository repo db q.run_id && is_unsafe q)
        db.requests

block_test :
    (a u n x own m m' : Bool)
    → own ≡ false
    → (m ≡ true → m' ≡ true)
    → (((a && u) && n) || m) ≡ true
    → ((a && u && (x || not own)) || m') ≡ true
block_test a u n x own m m' e f h = ground arith

blocks_of_protects :
    (s repo except : String) (db : Db) (qs : List RestoreRequest)
    → any_where (of_run except) qs ≡ false
    → any_where (λ q. (in_repository repo db q.run_id && is_unsafe q) && names s q) qs ≡ true
    → any_where
        (λ q.
          in_repository repo db q.run_id
          && is_unsafe q
          && (except == "" || not (q.run_id == except)))
        qs
      ≡ true
blocks_of_protects s repo except db [] free h = absurd (ground arith)
blocks_of_protects s repo except db (q ∷ qs) free h =
    let (other, rest) = or-false (of_run except q) (any_where (of_run except) qs) free in
    block_test (in_repository repo db q.run_id) (is_unsafe q) (names s q) (except == "")
      (of_run except q) _ _ other (blocks_of_protects s repo except db qs rest) h

-- While a repository has a protected snapshot, it is blocked for every run without a request.
pub protected-blocks_repository :
    (s repo except : String) (db : Db)
    → any_where (of_run except) db.requests ≡ false
    → member s (protected_restore_snapshot_ids repo db) ≡ true
    → repository_restore_blocked repo except db ≡ true
unfolding repository_restore_blocked
protected-blocks_repository s repo except db free h =
    blocks_of_protects s repo except db db.requests free
      (rw (protected_restore_snapshot_ids_lem s repo db) at h)

abbrev stop : RestoreRequest → RestoreRequest
stop q = record q { phase = cancelling }

stop_twice :
    (id : String) (q : RestoreRequest)
    → on_where (may_advance id) stop (on_where (may_advance id) stop q)
      ≡ on_where (may_advance id) stop q
stop_twice id q = elim (Bool-cases (may_advance id q)) [
  | inl e ↦ rw e (ground arith)
  | inr e ↦ rw e (rw e refl)
]

abbrev extend : ℕ → Run → Run
extend deadline r = record r { lease_expires_at = some deadline }

extend_twice :
    (id : String) (first second : ℕ) (r : Run)
    → on_where (has_id id) (extend second) (on_where (has_id id) (extend first) r)
      ≡ on_where (has_id id) (extend second) r
extend_twice id first second r = elim (Bool-cases (has_id id r)) [
  | inl e ↦ rw e (rw e refl)
  | inr e ↦ rw e (rw e refl)
]

stop-may_advance :
    (id : String) (qs : List RestoreRequest)
    → any_where (may_advance id) (update_where (may_advance id) stop qs)
      ≡ any_where (may_advance id) qs
stop-may_advance id qs =
    any_where-map (may_advance id) (on_where (may_advance id) stop) qs
      (λ q. elim (Bool-cases (may_advance id q)) [ inl e ↦ rw e (ground arith) | inr e ↦ rw e e ])

-- Asking a restore to stop twice leaves what asking with the second deadline alone leaves: the
-- first deadline counts for nothing.
pub request_restore_stop-again :
    (id : String) (first second : ℕ) (db : Db)
    → request_restore_stop id second (request_restore_stop id first db)
      ≡ request_restore_stop id second db
unfolding request_restore_stop
request_restore_stop-again id first second db =
    elim (Bool-cases (any_where (may_advance id) db.requests)) [
      | inl e ↦ rw e (
          rw (stop-may_advance id db.requests, e)
            (rw
              (
                update_where-twice (may_advance id) (may_advance id) stop stop stop db.requests
                    (stop_twice id),
                update_where-twice (has_id id) (has_id id) (extend first) (extend second)
                    (extend second) db.runs (extend_twice id first second),
              )
              refl))
      | inr e ↦ rw e (rw e refl)
    ]
