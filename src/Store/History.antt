-- ===== src/Store/History.antt =====
-- The end of old rows (internal/server/store/sqlite.go): history and expired sessions; and the
-- filters of `ListRuns`.
pub mod Pruned
use backup_management_center.Common.{
  ℕ, zero, String, Bool, true, false, ◌&&◌, ◌||◌, not, Option, none, some, List, [], ◌∷◌, ◌==◌, ltb,
  leb, string_eq, nat_eq, select_where, update_where, delete_where, any_where, count_where,
  if◌then◌else◌, member, take, skip, all_where,
}
use backup_management_center.Model.Kind.{Operation, operation_eq}
use backup_management_center.Model.Status.{RunStatus, status_eq, is_terminal}
use backup_management_center.Model.Types.{Run, RestoreRequest, SnapshotDeletion}
use backup_management_center.Store.Outcome.{StoreErr, foreign_key}
use backup_management_center.Store.Db.{Db}
use backup_management_center.Store.Runs.{has_id, has_status_in}
use backup_management_center.Store.Restores.{is_unsafe}

-- `HistoryPruneResult`
pub record HistoryPruneResult : Type 0 where
  pub restore_requests : ℕ
  pub runs : ℕ
  pub audit_events : ℕ

-- `COALESCE(finished_at, queued_at)`
abbrev pub ended_at : Run → ℕ
ended_at r = elim r.finished_at [ none ↦ r.queued_at | some at ↦ at ]

-- The runs that the second statement deletes.
abbrev pub is_old : ℕ → Run → Bool
is_old at r = is_terminal r.status && ltb (ended_at r) at

-- The requests that the first statement deletes.
abbrev pub is_done : ℕ → RestoreRequest → Bool
is_done at q = ltb q.created_at at && not (is_unsafe q)

-- The run `id` is one that the statement deletes.
abbrev pub goes : ℕ → List Run → String → Bool
goes at runs id = any_where (λ r. has_id id r && is_old at r) runs

abbrev pub without_requests : ℕ → Db → Db
without_requests at db = record db { requests = delete_where (is_done at) db.requests }

abbrev pub without_runs : ℕ → Db → Db
without_runs at db = record db {
  runs = delete_where (is_old at) db.runs;
  deletions =
      update_where (λ d. goes at db.runs d.run_id) (λ d. record d { run_id = "" }) db.deletions;
}

abbrev pub without_audit : ℕ → Db → Db
without_audit at db = record db { audit = delete_where (λ e. ltb e.occurred_at at) db.audit }

-- A request that outlives the first statement refers to a run of the second.
abbrev pub is_referred : ℕ → Db → Bool
is_referred at db = any_where (λ q. goes at db.runs q.run_id) db.requests

-- What `PruneHistory` leaves: the rows, the counts, and its error. Its three statements are three
-- transactions, so those before a refused one stay done.
pub record Pruning : Type 0 where
  pub after : Db
  pub counts : HistoryPruneResult
  pub error : Option StoreErr

-- The statements after the requests are gone; `requests` counts those.
abbrev pub prune_runs : ℕ → ℕ → Db → Pruning
prune_runs at requests db =
    if is_referred at db
    then record {
      after = db;
      counts = record { restore_requests = requests; runs = 0; audit_events = 0 };
      error = some foreign_key;
    }
    else record {
      after = without_audit at (without_runs at db);
      counts = record {
        restore_requests = requests;
        runs = count_where (is_old at) db.runs;
        audit_events = count_where (λ e. ltb e.occurred_at at) db.audit;
      };
      error = none;
    }

-- `PruneHistory`
unfoldable pub prune_history : ℕ → Db → Pruning
prune_history at db = prune_runs at (count_where (is_done at) db.requests) (without_requests at db)

-- `DeleteExpiredSessions`
unfoldable pub delete_expired_sessions : ℕ → Db → Db
delete_expired_sessions now db = record db {
  sessions = delete_where (λ s. ltb s.expires_at now) db.sessions;
}

-- `RunFilter`; a limit or an offset of 0 stands for those up to 0.
pub record RunFilter : Type 0 where
  pub agent_id : String
  pub plan_id : String
  pub repository_id : String
  pub statuses : List RunStatus
  pub operation : Option Operation
  pub limit : ℕ
  pub offset : ℕ
  pub exclude_dedup_key_substrings : List String

-- A condition of the query that an empty filter leaves out.
abbrev pub matches : String → String → Bool
matches want column = want == "" || column == want

abbrev pub matches_operation : Option Operation → Operation → Bool
matches_operation none op = true
matches_operation (some want) op = op == want

abbrev pub matches_status : List RunStatus → Run → Bool
matches_status [] r = true
matches_status statuses r = has_status_in statuses r

-- Insertion into rows ordered by `queued_at DESC`.
abbrev pub insert_newest : Run → List Run → List Run
insert_newest r [] = r ∷ []
insert_newest r (x ∷ xs) =
    if leb x.queued_at r.queued_at then r ∷ x ∷ xs else x ∷ insert_newest r xs

abbrev pub newest_first : List Run → List Run
newest_first [] = []
newest_first (r ∷ rs) = insert_newest r (newest_first rs)

-- `instr text part` is SQLite's `INSTR(text, part) > 0`.
module _ (instr : String → String → Bool) where
  -- `INSTR(dedup_key, ?) = 0`, which a NULL key does not meet.
  abbrev pub lacks : Run → String → Bool
  lacks r part = not (r.dedup_key == "") && not (instr r.dedup_key part)

  abbrev pub passes_filter : RunFilter → Run → Bool
  passes_filter f r =
      matches f.agent_id r.agent_id
      && matches f.plan_id r.plan_id
      && matches f.repository_id r.repository_id
      && matches_operation f.operation r.operation
      && matches_status f.statuses r
      && all_where (lacks r) f.exclude_dedup_key_substrings

  -- `ListRuns`
  unfoldable pub list_runs : RunFilter → Db → List Run
  list_runs f db =
      take (if f.limit == 0 then 100 else f.limit)
        (skip f.offset (newest_first (select_where (passes_filter f) db.runs)))
