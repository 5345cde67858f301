-- ===== src/Examples/Caches.antt =====
-- A backup between the reading of a generation and the saving of what was computed for it.
use backup_management_center.Common.{
  String, ◌≡◌, refl, false, Option, none, some, List, [], ◌∷◌, All,
}
use backup_management_center.Model.Types.{Snapshot}
use backup_management_center.Store.Outcome.{ok, err, cache_generation_changed, null_scan}
use backup_management_center.Store.Db.{Db, TreeCache}
use backup_management_center.Store.Cache.{
  snapshot_cache_generation, save_snapshot_list_cache, save_snapshot_tree_cache,
  invalidate_snapshot_cache_tx,
}
use backup_management_center.Store.Cache.Generations.{
  Covered, create_run-refuses_stale_caches, save_snapshot_list_cache-Covered,
  save_snapshot_tree_cache-unverified,
}
use backup_management_center.Examples.Stores.{
  backup_run, start, with_backup, cache_state, created_backup,
}

abbrev snapshot : Snapshot
snapshot = record { id = "snap"; time = "t"; host = "h"; tags = []; paths = [] }

-- Every list names the one snapshot.
abbrev one_snapshot : String → Option (List Snapshot)
one_snapshot json = some (snapshot ∷ [])

read_three : snapshot_cache_generation "repo" start ≡ ok 3
unfolding snapshot_cache_generation
read_three = refl

create_run-refuses_stale_caches_example :
    (save_snapshot_list_cache one_snapshot "repo" 3 "[]" "f" 9 with_backup
      ≡ err cache_generation_changed)
    × (save_snapshot_tree_cache "repo" "snap" [] 3 "[]" 9 with_backup
        ≡ err cache_generation_changed)
create_run-refuses_stale_caches_example =
    create_run-refuses_stale_caches one_snapshot 6 backup_run 3 "[]" "f" "snap" [] "[]" 9 start
      with_backup refl refl read_three created_backup

abbrev old_tree : String → TreeCache
old_tree id = record {
  repository_id = "repo";
  snapshot_id = id;
  path = [];
  generation = 2;
  tree_json = "[]";
  verified_at = 1;
}

abbrev with_trees : Db
with_trees = record start { tree_caches = old_tree "snap" ∷ old_tree "gone" ∷ [] }

abbrev saved : Db
saved = record with_trees {
  cache_states =
      record cache_state { list_verified_at = some 9; list_fingerprint = "g"; updated_at = 9 } ∷ [];
  list_caches =
      record {
        repository_id = "repo";
        generation = 3;
        snapshots_json = "[]";
        fingerprint = "g";
        verified_at = 9;
      }
      ∷ [];
  tree_caches = record (old_tree "snap") { generation = 3 } ∷ [];
}

saved_list : save_snapshot_list_cache one_snapshot "repo" 3 "[]" "g" 9 with_trees ≡ ok saved
unfolding save_snapshot_list_cache
saved_list = refl

save_snapshot_list_cache-Covered_example : All (Covered "repo" 3 ("snap" ∷ [])) saved.tree_caches
save_snapshot_list_cache-Covered_example =
    save_snapshot_list_cache-Covered one_snapshot "repo" 3 "[]" "g" 9 (snapshot ∷ []) with_trees
      saved refl saved_list

abbrev invalidated : Db
invalidated = record start {
  cache_states =
      record cache_state { generation = 4; list_verified_at = none; updated_at = 8 } ∷ [];
}

invalidation : invalidate_snapshot_cache_tx 8 "repo" false start ≡ ok invalidated
unfolding invalidate_snapshot_cache_tx
invalidation = refl

read_four : snapshot_cache_generation "repo" invalidated ≡ ok 4
unfolding snapshot_cache_generation
read_four = refl

save_snapshot_tree_cache-unverified_example :
    save_snapshot_tree_cache "repo" "snap" [] 4 "[]" 9 invalidated ≡ err null_scan
save_snapshot_tree_cache-unverified_example =
    save_snapshot_tree_cache-unverified 8 "repo" false 4 start invalidated invalidation read_four
      "snap" [] "[]" 9
