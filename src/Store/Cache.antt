-- ===== src/Store/Cache.antt =====
-- Snapshot caches guarded by a generation (internal/server/store/sqlite.go).
pub mod Generations
use backup_management_center.Common.{
  ℕ, ◌+◌, String, Bool, true, false, ◌&&◌, not, Option, none, some, List, [], ◌∷◌, map, ◌==◌,
  nat_eq, string_eq, codes_eq, find_where, update_where, delete_where, any_where, member,
  if◌then◌else◌,
}
use backup_management_center.Model.Types.{Snapshot}
use backup_management_center.Model.Kind.{Operation, backup, forget}
use backup_management_center.Store.Outcome.{
  Outcome, ok, not_found, cache_generation_changed, null_scan, bad_json, ◌>>=◌, ◌>>◌, require,
  or_err,
}
use backup_management_center.Store.Db.{Db, CacheState, ListCache, TreeCache}

abbrev pub state_of : String → List CacheState → Option CacheState
state_of repo = find_where (λ c. c.repository_id == repo)

-- `invalidatesSnapshotCache`
abbrev pub invalidates_snapshot_cache : Operation → Bool
invalidates_snapshot_cache backup = true
invalidates_snapshot_cache forget = true
invalidates_snapshot_cache _ = false

-- `invalidateSnapshotCacheTx`
unfoldable pub invalidate_snapshot_cache_tx : ℕ → String → Bool → Db → Outcome Db
invalidate_snapshot_cache_tx now repo clear_trees db = do
  require (any_where (λ c. c.repository_id == repo) db.cache_states) not_found
  let states =
      update_where (λ c. c.repository_id == repo)
        (λ c. record c { generation = c.generation + 1; list_verified_at = none; updated_at = now })
        db.cache_states
  let trees =
      if clear_trees
      then delete_where (λ t. t.repository_id == repo) db.tree_caches
      else db.tree_caches
  ok (record db { cache_states = states; tree_caches = trees })

-- `ensureCacheGeneration`
abbrev pub ensure_cache_generation : String → ℕ → Db → Outcome (Unit {0})
ensure_cache_generation repo expected db = do
  state ← or_err not_found (state_of repo db.cache_states)
  require (state.generation == expected) cache_generation_changed

-- `SnapshotCacheGeneration`
unfoldable pub snapshot_cache_generation : String → Db → Outcome ℕ
snapshot_cache_generation repo db = do
  state ← or_err not_found (state_of repo db.cache_states)
  ok state.generation

-- `INSERT … ON CONFLICT(repository_id) DO UPDATE` into `snapshot_list_cache`.
abbrev pub upsert_list : ListCache → List ListCache → List ListCache
upsert_list row rows =
    if any_where (λ r. r.repository_id == row.repository_id) rows
    then update_where (λ r. r.repository_id == row.repository_id) (λ _. row) rows
    else row ∷ rows

abbrev pub same_tree : TreeCache → TreeCache → Bool
same_tree a b =
    a.repository_id == b.repository_id && a.snapshot_id == b.snapshot_id && a.path == b.path

-- The same for `snapshot_tree_cache`, whose key has three columns.
abbrev pub upsert_tree : TreeCache → List TreeCache → List TreeCache
upsert_tree row rows =
    if any_where (same_tree row) rows
    then update_where (same_tree row) (λ _. row) rows
    else row ∷ rows

-- Trees of the snapshots that the list still names move to its generation; the others go.
abbrev pub reconcile_trees : String → ℕ → List String → List TreeCache → List TreeCache
reconcile_trees repo generation [] trees = delete_where (λ t. t.repository_id == repo) trees
reconcile_trees repo generation (first ∷ more) trees =
    delete_where (λ t. t.repository_id == repo && not (member t.snapshot_id (first ∷ more)))
      (update_where (λ t. t.repository_id == repo && member t.snapshot_id (first ∷ more))
        (λ t. record t { generation = generation }) trees)

-- `unmarshal` is `json.Unmarshal` into a list of snapshots.
module _ (unmarshal : String → Option (List Snapshot)) where
  -- `saveSnapshotListCacheOnce`
  unfoldable pub save_snapshot_list_cache : String → ℕ → String → String → ℕ → Db → Outcome Db
  save_snapshot_list_cache repo generation snapshots_json fingerprint verified db = do
    ensure_cache_generation repo generation db
    let lists =
        upsert_list
          (record {
            repository_id = repo;
            generation = generation;
            snapshots_json = snapshots_json;
            fingerprint = fingerprint;
            verified_at = verified;
          })
          db.list_caches
    let states =
        update_where (λ c. c.repository_id == repo && c.generation == generation)
          (λ c. record c {
            list_verified_at = some verified;
            list_fingerprint = fingerprint;
            updated_at = verified;
          })
          db.cache_states
    snaps ← or_err bad_json (unmarshal snapshots_json)
    ok (record db {
      cache_states = states;
      list_caches = lists;
      tree_caches = reconcile_trees repo generation (map (λ s. s.id) snaps) db.tree_caches;
    })

-- `SaveSnapshotTreeCache`, its path already normalised. A NULL `list_verified_at` cannot be read
-- into a Go text, so the read fails before the code's own test for "".
unfoldable pub save_snapshot_tree_cache :
    String → String → List ℕ → ℕ → String → ℕ → Db → Outcome Db
save_snapshot_tree_cache repo snapshot path generation tree_json verified db = do
  ensure_cache_generation repo generation db
  state ← or_err not_found (state_of repo db.cache_states)
  list_verified ← or_err null_scan state.list_verified_at
  ok (record db {
    tree_caches =
        upsert_tree
          (record {
            repository_id = repo;
            snapshot_id = snapshot;
            path = path;
            generation = generation;
            tree_json = tree_json;
            verified_at = verified;
          })
          db.tree_caches;
  })
