-- ===== src/Store/Cache/Generations.antt =====
-- What the generation of a repository's snapshot caches guards
-- (internal/server/store/sqlite.go).
use backup_management_center.Common.{
  ℕ, ◌+◌, String, ◌≡◌, refl, inl, inr, Bool, true, false, ◌&&◌, ◌||◌, not, Option, none, some, List,
  [], ◌∷◌, map, ◌==◌, arith, nat_eq, string_eq, codes_eq, beq_self, All, update_where, delete_where,
  on_where, member, find_where-map, find_where-some, find_where-none, Option-cases, Bool-cases,
}
use backup_management_center.Model.Types.{Run, Snapshot}
use backup_management_center.Model.Kind.{forget, operation_eq}
use backup_management_center.Store.Outcome.{ok, err, cache_generation_changed, null_scan}
use backup_management_center.Store.Db.{Db, CacheState, TreeCache}
use backup_management_center.Store.Cache.{
  state_of, invalidates_snapshot_cache, invalidate_snapshot_cache_tx, snapshot_cache_generation,
  reconcile_trees, save_snapshot_list_cache, save_snapshot_tree_cache,
}
use backup_management_center.Store.Runs.{create_run, insert_run_tx}

abbrev invalidated : ℕ → CacheState → CacheState
invalidated now c = record c {
  generation = c.generation + 1;
  list_verified_at = none;
  updated_at = now;
}

state_of-invalidated :
    (now : ℕ) (repo : String) (c : CacheState) (rows : List CacheState)
    → state_of repo rows ≡ some c
    → state_of repo (update_where (λ s. s.repository_id == repo) (invalidated now) rows)
      ≡ some (invalidated now c)
state_of-invalidated now repo c rows e =
    rw
      (
        find_where-map (λ s. s.repository_id == repo)
            (on_where (λ s. s.repository_id == repo) (invalidated now)) rows
            (λ x. elim (Bool-cases (x.repository_id == repo)) [ inl p ↦ rw p p | inr p ↦ rw p p ]),
        e,
      )
      (rw (find_where-some (λ s. s.repository_id == repo) rows c e) refl)

-- The state row after an invalidation: the next generation, and no verified list.
pub invalidated_state :
    (now : ℕ) (repo : String) (clear : Bool) (c : CacheState) (db db' : Db)
    → state_of repo db.cache_states ≡ some c
    → invalidate_snapshot_cache_tx now repo clear db ≡ ok db'
    → state_of repo db'.cache_states ≡ some (invalidated now c)
unfolding invalidate_snapshot_cache_tx
invalidated_state now repo clear c db db' e h =
    let rows : db'.cache_states
        ≡ update_where (λ s. s.repository_id == repo) (invalidated now) db.cache_states =
      ground arith in
    rw rows (state_of-invalidated now repo c db.cache_states e)

module _ (unmarshal : String → Option (List Snapshot)) where
  stale_list_save :
      (repo : String) (generation : ℕ) (json fingerprint : String) (verified : ℕ) (c : CacheState)
      (db : Db)
      → state_of repo db.cache_states ≡ some c
      → (c.generation == generation) ≡ false
      → save_snapshot_list_cache unmarshal repo generation json fingerprint verified db
        ≡ err cache_generation_changed
  unfolding save_snapshot_list_cache
  stale_list_save repo generation json fingerprint verified c db e ne = rw (e, ne) refl

stale_tree_save :
    (repo snapshot : String) (path : List ℕ) (generation : ℕ) (json : String) (verified : ℕ)
    (c : CacheState) (db : Db)
    → state_of repo db.cache_states ≡ some c
    → (c.generation == generation) ≡ false
    → save_snapshot_tree_cache repo snapshot path generation json verified db
      ≡ err cache_generation_changed
unfolding save_snapshot_tree_cache
stale_tree_save repo snapshot path generation json verified c db e ne = rw (e, ne) refl

-- The database that `insertRunTx` invalidates has the same cache states as the one before.
created_state :
    (now : ℕ) (r : Run) (c : CacheState) (db db' : Db)
    → (r.repository_id == "") ≡ false
    → invalidates_snapshot_cache r.operation ≡ true
    → state_of r.repository_id db.cache_states ≡ some c
    → create_run now r db ≡ ok db'
    → state_of r.repository_id db'.cache_states ≡ some (invalidated now c)
unfolding create_run insert_run_tx
created_state now r c db db' named inv e h =
    invalidated_state now r.repository_id (r.operation == forget) c
      (record db { runs = r ∷ db.runs }) db' e ground arith

module _ (unmarshal : String → Option (List Snapshot)) where
  -- A result computed at a generation that was read before `CreateRun` created a backup or a forget
  -- for the repository is refused, both as a list of snapshots and as a tree.
  pub create_run-refuses_stale_caches :
      (now : ℕ) (r : Run) (generation : ℕ) (json fingerprint snapshot : String) (path : List ℕ)
      (tree : String) (verified : ℕ) (db db' : Db)
      → (r.repository_id == "") ≡ false
      → invalidates_snapshot_cache r.operation ≡ true
      → snapshot_cache_generation r.repository_id db ≡ ok generation
      → create_run now r db ≡ ok db'
      → (save_snapshot_list_cache unmarshal r.repository_id generation json fingerprint verified db'
          ≡ err cache_generation_changed)
        × (save_snapshot_tree_cache r.repository_id snapshot path generation tree verified db'
            ≡ err cache_generation_changed)
  unfolding snapshot_cache_generation
  create_run-refuses_stale_caches now r generation json fingerprint snapshot path tree verified db
        db' named inv g h =
      elim (Option-cases (state_of r.repository_id db.cache_states)) [
        | inl e ↦ absurd (ground arith)
        | inr (c, e) ↦
            let after = created_state now r c db db' named inv e h in
            let stale : (c.generation + 1 == generation) ≡ false = ground arith in
            (
              stale_list_save unmarshal r.repository_id generation json fingerprint verified
                  (invalidated now c) db' after stale,
              stale_tree_save r.repository_id snapshot path generation tree verified
                  (invalidated now c) db' after stale,
            )
      ]

-- A tree of the repository that the list of `generation` covers.
abbrev pub Covered : String → ℕ → List String → TreeCache → Type 0
Covered repo generation ids t =
    (not (t.repository_id == repo) || (t.generation == generation && member t.snapshot_id ids))
    ≡ true

no_snapshots-Covered :
    (repo : String) (generation : ℕ) (trees : List TreeCache)
    → All (Covered repo generation []) (delete_where (λ t. t.repository_id == repo) trees)
no_snapshots-Covered repo generation [] = tt
no_snapshots-Covered repo generation (t ∷ trees) = elim (Bool-cases (t.repository_id == repo)) [
  | inl e ↦ rw e (no_snapshots-Covered repo generation trees)
  | inr e ↦ rw e (rw e refl, no_snapshots-Covered repo generation trees)
]

kept_trees-Covered :
    (repo : String) (generation : ℕ) (ids : List String) (trees : List TreeCache)
    → All (Covered repo generation ids) (
        delete_where
          (λ t. t.repository_id == repo && not (member t.snapshot_id ids))
          (update_where
            (λ t. t.repository_id == repo && member t.snapshot_id ids)
            (λ t. record t { generation = generation })
            trees))
kept_trees-Covered repo generation ids [] = tt
kept_trees-Covered repo generation ids (t ∷ trees) = elim (Bool-cases (t.repository_id == repo)) [
  | inl e ↦ elim (Bool-cases (member t.snapshot_id ids)) [
    | inl m ↦
        rw (e, m)
          (rw (e, m)
            (
              rw (e, m) (ground (arith, beq_self generation)),
              kept_trees-Covered repo generation ids trees,
            ))
    | inr m ↦ rw (e, m) (rw (e, m) (kept_trees-Covered repo generation ids trees))
  ]
  | inr e ↦ rw e (rw e (rw e refl, kept_trees-Covered repo generation ids trees))
]

reconcile_trees-Covered :
    (repo : String) (generation : ℕ) (ids : List String) (trees : List TreeCache)
    → All (Covered repo generation ids) (reconcile_trees repo generation ids trees)
reconcile_trees-Covered repo generation [] trees = no_snapshots-Covered repo generation trees
reconcile_trees-Covered repo generation (first ∷ more) trees =
    kept_trees-Covered repo generation (first ∷ more) trees

module _ (unmarshal : String → Option (List Snapshot)) where
  -- After a list is saved, every tree kept for the repository has the list's generation and
  -- belongs to a snapshot that the list names.
  pub save_snapshot_list_cache-Covered :
      (repo : String) (generation : ℕ) (json fingerprint : String) (verified : ℕ)
      (snaps : List Snapshot) (db db' : Db)
      → unmarshal json ≡ some snaps
      → save_snapshot_list_cache unmarshal repo generation json fingerprint verified db ≡ ok db'
      → All (Covered repo generation (map (λ s. s.id) snaps)) db'.tree_caches
  unfolding save_snapshot_list_cache
  save_snapshot_list_cache-Covered repo generation json fingerprint verified snaps db db' u h =
      let rows : db'.tree_caches
          ≡ reconcile_trees repo generation (map (λ s. s.id) snaps) db.tree_caches =
        ground arith in
      rw rows (reconcile_trees-Covered repo generation (map (λ s. s.id) snaps) db.tree_caches)

invalidate-missing :
    (now : ℕ) (repo : String) (clear : Bool) (db db' : Db)
    → state_of repo db.cache_states ≡ none
    → ¬ (invalidate_snapshot_cache_tx now repo clear db ≡ ok db')
unfolding invalidate_snapshot_cache_tx
invalidate-missing now repo clear db db' e h =
    let missing = find_where-none (λ c. c.repository_id == repo) db.cache_states e in ground arith

unverified_tree_save :
    (repo snapshot : String) (path : List ℕ) (generation : ℕ) (json : String) (verified : ℕ)
    (c : CacheState) (db : Db)
    → state_of repo db.cache_states ≡ some c
    → c.generation ≡ generation
    → c.list_verified_at ≡ none
    → save_snapshot_tree_cache repo snapshot path generation json verified db ≡ err null_scan
unfolding save_snapshot_tree_cache
unverified_tree_save repo snapshot path generation json verified c db e g v =
    rw (e, g, beq_self generation, v) refl

-- A tree saved at the current generation, when the repository's list was invalidated and not
-- verified again, fails on the NULL that it reads, and not with `ErrCacheGenerationChanged`.
pub save_snapshot_tree_cache-unverified :
    (now : ℕ) (repo : String) (clear : Bool) (generation : ℕ) (db db' : Db)
    → invalidate_snapshot_cache_tx now repo clear db ≡ ok db'
    → snapshot_cache_generation repo db' ≡ ok generation
    → (snapshot : String) (path : List ℕ) (json : String) (verified : ℕ)
    → save_snapshot_tree_cache repo snapshot path generation json verified db' ≡ err null_scan
unfolding snapshot_cache_generation
save_snapshot_tree_cache-unverified now repo clear generation db db' h g snapshot path json
      verified =
    elim (Option-cases (state_of repo db.cache_states)) [
      | inl e ↦ absurd (invalidate-missing now repo clear db db' e h)
      | inr (c, e) ↦
          let after = invalidated_state now repo clear c db db' e h in
          let same : c.generation + 1 ≡ generation = ground arith in
          unverified_tree_save repo snapshot path generation json verified (invalidated now c) db'
            after same refl
    ]
