-- ===== src/Store/Deletions/Aged.antt =====
-- Which snapshots a cleanup scan may hand over for deletion
-- (internal/server/store/sqlite.go).
use backup_management_center.Common.{
  ℕ, ◌+◌, String, ◌≡◌, refl, inl, inr, Bool, true, false, ◌&&◌, leb, ◌||◌, not, List, ◌∷◌, ◌==◌,
  arith, eq_iff, string_eq, nat_eq, All, All-of, All-weaken, All-delete_where, All-update_where,
  NoClash, NoClash-delete_where, NoClash-map, found_unique, find_where, update_where, delete_where,
  any_where, any_where-false, on_where, Bool-cases, Option-cases,
}
use backup_management_center.Model.Types.{Run, SnapshotDeletion, pending, manual, candidate, orphan}
use backup_management_center.Store.Outcome.{ok}
use backup_management_center.Store.Db.{Db}
use backup_management_center.Store.Deletions.{
  is_manual, is_candidate, is_pending, of_id, of_snapshot, collide, insert_deletion, as_manual,
  queue_manual_snapshot_deletion, claimed_row, claim_snapshot_deletion_run, new_deletion,
}
use backup_management_center.Store.Deletions.Scan.{seen_again, upsert_orphan_candidate_tx}

-- An orphan that is due for deletion, being deleted or deleted was seen by two scans that are
-- at least seven days apart.
abbrev pub Aged : SnapshotDeletion → Type 0
Aged d =
    (is_manual d.source
      || is_candidate d.state
      || (leb 2 d.seen_count && leb (d.first_seen_at + 604800) d.last_seen_at))
    ≡ true

-- The keys of the table, and the age of its orphans.
pub record IsDeletions (rows : List SnapshotDeletion) : Type 0 where
  pub keys : NoClash collide rows
  pub aged : All Aged rows

pub record KeepsKey (x y : SnapshotDeletion) : Type 0 where
  pub same_id : y.id ≡ x.id
  pub same_repo : y.repository_id ≡ x.repository_id
  pub same_snapshot : y.snapshot_id ≡ x.snapshot_id

update-IsDeletions :
    (p : SnapshotDeletion → Bool) (f : SnapshotDeletion → SnapshotDeletion)
    (rows : List SnapshotDeletion)
    → ((d : SnapshotDeletion) → KeepsKey d (f d))
    → All (λ d. p d ≡ true → Aged d → Aged (f d)) rows
    → IsDeletions rows
    → IsDeletions (update_where p f rows)
update-IsDeletions p f rows keeps ages w = record {
  keys =
      NoClash-map collide KeepsKey (on_where p f)
        (λ x y s t e.
          rw (s.same_id, t.same_id, s.same_repo, t.same_repo, s.same_snapshot, t.same_snapshot) at
            e)
        rows
        (All-of (λ d. KeepsKey d (on_where p f d))
          (λ d. elim (Bool-cases (p d)) [
            | inl e ↦ rw e (keeps d)
            | inr e ↦ rw e (record { same_id = refl; same_repo = refl; same_snapshot = refl })
          ])
          rows)
        w.keys;
  aged = All-update_where Aged p f rows ages w.aged;
}

pub delete-IsDeletions :
    (p : SnapshotDeletion → Bool) (rows : List SnapshotDeletion)
    → IsDeletions rows
    → IsDeletions (delete_where p rows)
delete-IsDeletions p rows w = record {
  keys = NoClash-delete_where collide p rows w.keys;
  aged = All-delete_where Aged p rows w.aged;
}

insert-IsDeletions :
    (d : SnapshotDeletion) (db db' : Db)
    → Aged d
    → insert_deletion d db ≡ ok db'
    → IsDeletions db.deletions
    → IsDeletions db'.deletions
insert-IsDeletions d db db' a h w =
    let free : any_where (collide d) db.deletions ≡ false = ground arith in
    let rows : db'.deletions ≡ d ∷ db.deletions = ground arith in
    rw rows (record { keys = (free, w.keys); aged = (a, w.aged) })

pub queue-IsDeletions :
    (id repo agent snapshot actor : String) (now : ℕ) (db db' : Db) (d : SnapshotDeletion)
    (changed : Bool)
    → queue_manual_snapshot_deletion id repo agent snapshot actor now db ≡ ok (d, changed, db')
    → IsDeletions db.deletions
    → IsDeletions db'.deletions
unfolding queue_manual_snapshot_deletion
queue-IsDeletions id repo agent snapshot actor now db db' d changed h w =
    elim (Option-cases (find_where (of_snapshot repo snapshot) db.deletions)) [
      | inl e ↦
          let new = new_deletion id repo agent snapshot manual pending actor now in
          let done : insert_deletion new db ≡ ok db' = ground arith in
          insert-IsDeletions new db db' (ground arith) done w
      | inr (old, e) ↦ elim (Bool-cases (is_candidate old.state)) [
        | inl c ↦
            let rows : db'.deletions
                ≡ update_where (of_id old.id) (as_manual agent actor now) db.deletions =
              ground arith in
            rw rows (
              update-IsDeletions (of_id old.id) (as_manual agent actor now) db.deletions
                (λ d. record { same_id = refl; same_repo = refl; same_snapshot = refl })
                (All-of (λ x. of_id old.id x ≡ true → Aged x → Aged (as_manual agent actor now x))
                  (λ x hit a. ground arith) db.deletions)
                w)
        | inr c ↦ let rows : db'.deletions ≡ db.deletions = ground arith in rw rows w
      ]
    ]

pub claim-IsDeletions :
    (now : ℕ) (id : String) (run : Run) (lease : ℕ) (db db' : Db)
    → claim_snapshot_deletion_run now id run lease db ≡ ok db'
    → IsDeletions db.deletions
    → IsDeletions db'.deletions
unfolding claim_snapshot_deletion_run
claim-IsDeletions now id run lease db db' h w =
    elim (Option-cases (find_where (of_id id) db.deletions)) [
      | inl e ↦ absurd (ground arith)
      | inr (d, e) ↦
          let rows : db'.deletions
              ≡ update_where (of_id id) (claimed_row run.id lease now) db.deletions =
            ground arith in
          let due : is_pending d.state ≡ true = ground arith in
          rw rows (
            update-IsDeletions (of_id id) (claimed_row run.id lease now) db.deletions
              (λ d. record { same_id = refl; same_repo = refl; same_snapshot = refl })
              (All-weaken (λ x. of_id id x ≡ true → x ≡ d)
                (λ x. of_id id x ≡ true → Aged x → Aged (claimed_row run.id lease now x))
                (λ x only hit a. let same = only hit in ground arith) db.deletions
                (found_unique collide (of_id id)
                  (λ x y p q. ground (arith, eq_iff x.id id, eq_iff y.id id, eq_iff x.id y.id))
                  db.deletions d w.keys e))
              w)
    ]

-- No candidate has this identifier.
abbrev pub NoCandidate : String → Db → Type 0
NoCandidate id db = any_where (λ d. of_id id d && is_candidate d.state) db.deletions ≡ false

pub settled-IsDeletions :
    (id : String) (f : SnapshotDeletion → SnapshotDeletion) (db : Db)
    → ((d : SnapshotDeletion) → KeepsKey d (f d))
    → ((d : SnapshotDeletion) → is_candidate d.state ≡ false → Aged d → Aged (f d))
    → NoCandidate id db
    → IsDeletions db.deletions
    → IsDeletions (update_where (of_id id) f db.deletions)
settled-IsDeletions id f db keeps ages no_candidate w =
    update-IsDeletions (of_id id) f db.deletions keeps
      (All-weaken (λ d. (of_id id d && is_candidate d.state) ≡ false)
        (λ d. of_id id d ≡ true → Aged d → Aged (f d)) (λ d no hit. ages d (ground arith))
        db.deletions
        (any_where-false (λ d. of_id id d && is_candidate d.state) db.deletions no_candidate))
      w

seen_again-Aged : (now : ℕ) (d : SnapshotDeletion) → Aged (seen_again now d)
seen_again-Aged now d = ground arith

pub upsert-IsDeletions :
    (id repo snapshot : String) (now : ℕ) (db db' : Db)
    → upsert_orphan_candidate_tx id repo snapshot now db ≡ ok db'
    → IsDeletions db.deletions
    → IsDeletions db'.deletions
unfolding upsert_orphan_candidate_tx
upsert-IsDeletions id repo snapshot now db db' h w =
    elim (Option-cases (find_where (of_snapshot repo snapshot) db.deletions)) [
      | inl e ↦ elim (Option-cases (find_where (λ r. r.id == repo) db.repositories)) [
        | inl n ↦ absurd (ground arith)
        | inr (owner, o) ↦
            let new = new_deletion id repo owner.agent_id snapshot orphan candidate "" now in
            let done : insert_deletion new db ≡ ok db' = ground arith in
            insert-IsDeletions new db db' (ground arith) done w
      ]
      | inr (d, e) ↦ elim (Bool-cases (is_manual d.source || not (is_candidate d.state))) [
        | inl c ↦ let rows : db'.deletions ≡ db.deletions = ground arith in rw rows w
        | inr c ↦
            let rows : db'.deletions ≡ update_where (of_id d.id) (seen_again now) db.deletions =
              ground arith in
            rw rows (
              update-IsDeletions (of_id d.id) (seen_again now) db.deletions
                (λ d. record { same_id = refl; same_repo = refl; same_snapshot = refl })
                (All-of (λ x. of_id d.id x ≡ true → Aged x → Aged (seen_again now x))
                  (λ x hit a. seen_again-Aged now x) db.deletions)
                w)
      ]
    ]
