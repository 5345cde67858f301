-- ===== src/Store/Repositories.antt =====
-- Repositories and the storage targets they lie on (internal/server/store/sqlite.go).
use backup_management_center.Common.{
  ℕ, String, Bool, true, false, ◌&&◌, ◌||◌, not, Option, none, some, List, [], ◌∷◌, ◌==◌, ltb,
  string_eq, find_where, select_where, update_where, delete_where, any_where, if◌then◌else◌, member,
  map,
}
use backup_management_center.Store.Outcome.{
  Outcome, ok, not_found, in_use, foreign_key, driver_error, ◌>>=◌, ◌>>◌, require, or_err,
}
use backup_management_center.Store.Db.{Db, RepositoryRow}
use backup_management_center.Store.Agents.{is_agent}
use backup_management_center.Store.Cache.{invalidate_snapshot_cache_tx}

abbrev pub is_repository : String → RepositoryRow → Bool
is_repository id r = r.id == id

abbrev pub is_detached : RepositoryRow → Bool
is_detached r = elim r.detached_at [ none ↦ false | some _ ↦ true ]

-- `UNIQUE (agent_id, storage_target_id)`, and the identifier.
abbrev pub same_binding : RepositoryRow → RepositoryRow → Bool
same_binding a b =
    a.id == b.id || a.agent_id == b.agent_id && a.storage_target_id == b.storage_target_id

-- `CreateRepository`; the statement does not name `detached_at`, which is NULL.
unfoldable pub create_repository : ℕ → RepositoryRow → Db → Outcome Db
create_repository now r db = do
  require (not (any_where (same_binding r) db.repositories)) driver_error
  require (any_where (is_agent r.agent_id) db.agents) foreign_key
  require (member r.storage_target_id db.targets) foreign_key
  require (not (any_where (λ c. c.repository_id == r.id) db.cache_states)) driver_error
  ok (record db {
    repositories = record r { detached_at = none } ∷ db.repositories;
    cache_states =
        record {
          repository_id = r.id;
          generation = 0;
          list_verified_at = none;
          list_fingerprint = "";
          updated_at = now;
        }
        ∷ db.cache_states;
  })

-- `GetRepository`
unfoldable pub get_repository : String → Db → Outcome RepositoryRow
get_repository id db = or_err not_found (find_where (is_repository id) db.repositories)

-- `ListRepositories`, without its order.
unfoldable pub list_repositories : Db → List RepositoryRow
list_repositories db = select_where (λ r. not (is_detached r)) db.repositories

-- `last_check_at IS NULL OR last_check_at < ?`
abbrev pub unchecked_since : ℕ → Option ℕ → Bool
unchecked_since at none = true
unchecked_since at (some checked) = ltb checked at

-- `ListRepositoriesNeedingCheck`, without its order.
unfoldable pub list_repositories_needing_check : ℕ → Db → List RepositoryRow
list_repositories_needing_check older_than db =
    select_where
      (λ r.
        not (is_detached r) && r.status == "ready" && unchecked_since older_than r.last_check_at)
      db.repositories

-- `DetachRepository`
unfoldable pub detach_repository : ℕ → String → Db → Outcome Db
detach_repository now id db = do
  require (any_where (is_repository id) db.repositories) not_found
  invalidate_snapshot_cache_tx now id true (record db {
    repositories =
        update_where (is_repository id) (λ r. record r { detached_at = some now }) db.repositories;
  })

abbrev pub with_status : String → RepositoryRow → RepositoryRow
with_status status r =
    if status == "ready"
    then record r { status = status; detached_at = none }
    else record r { status = status }

abbrev pub known_status : String → Bool
known_status status = status == "pending" || status == "ready" || status == "error"

-- `UpdateRepositoryStatus`; the column is checked against three words.
unfoldable pub update_repository_status : String → String → Db → Outcome Db
update_repository_status id status db = do
  require (known_status status || not (any_where (is_repository id) db.repositories)) driver_error
  ok (record db {
    repositories = update_where (is_repository id) (with_status status) db.repositories;
  })

-- `MarkRepositoryChecked`
unfoldable pub mark_repository_checked : String → ℕ → Db → Db
mark_repository_checked id at db = record db {
  repositories =
      update_where (is_repository id) (λ r. record r { last_check_at = some at }) db.repositories;
}

-- `invalidateTargetCaches`, over the repositories that the query listed.
abbrev pub invalidate_each : ℕ → List String → Db → Outcome Db
invalidate_each now [] db = ok db
invalidate_each now (id ∷ ids) db =
    invalidate_snapshot_cache_tx now id true db >>= λ db'. invalidate_each now ids db'

unfoldable pub invalidate_target_caches : ℕ → String → Db → Outcome Db
invalidate_target_caches now target db =
    invalidate_each now
      (map (λ r. r.id) (select_where (λ r. r.storage_target_id == target) db.repositories)) db

abbrev pub on_target : String → RepositoryRow → Bool
on_target target r = r.storage_target_id == target

abbrev pub left_behind : String → RepositoryRow → Bool
left_behind target r = on_target target r && is_detached r

-- A row that refers to a repository that the target's deletion removes.
abbrev pub leaves : String → List RepositoryRow → String → Bool
leaves target rows id = any_where (λ r. is_repository id r && left_behind target r) rows

-- `DELETE FROM repositories …`: a plan's reference refuses it, the caches, deletions and cleanup
-- state of the removed repositories go with them.
abbrev pub drop_left_behind : String → Db → Outcome Db
drop_left_behind target db = do
  require (not (any_where (λ p. leaves target db.repositories p.repository_id) db.plans))
      foreign_key
  ok (record db {
    repositories = delete_where (left_behind target) db.repositories;
    cache_states =
        delete_where (λ c. leaves target db.repositories c.repository_id) db.cache_states;
    list_caches = delete_where (λ c. leaves target db.repositories c.repository_id) db.list_caches;
    tree_caches = delete_where (λ c. leaves target db.repositories c.repository_id) db.tree_caches;
    deletions = delete_where (λ d. leaves target db.repositories d.repository_id) db.deletions;
    cleanups = delete_where (λ c. leaves target db.repositories c.repository_id) db.cleanups;
  })

-- `DeleteStorageTarget`
unfoldable pub delete_storage_target : String → Db → Outcome Db
delete_storage_target target db = do
  require (not (any_where (λ r. on_target target r && not (is_detached r)) db.repositories)) in_use
  kept ← drop_left_behind target db
  require (member target kept.targets) not_found
  ok (record kept { targets = delete_where (λ t. t == target) kept.targets })
