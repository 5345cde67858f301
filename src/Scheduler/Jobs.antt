-- ===== src/Scheduler/Jobs.antt =====
-- The further phases of a tick (internal/server/scheduler/scheduler.go).
use Prim.Native.Char.{code}
use backup_management_center.Common.{
  ℕ, ◌+◌, ◌-◌, ◌*◌, String, Bool, true, false, ◌&&◌, ◌||◌, not, Option, none, some, List, [], ◌∷◌,
  ◌==◌, nat_eq, leb, ltb, string_eq, find_where, update_where, delete_where, any_where,
  if◌then◌else◌, length,
}
use backup_management_center.Model.Text.{is_space}
use backup_management_center.Model.Kind.{backup, check, forget, operation_eq}
use backup_management_center.Model.Status.{
  RunStatus, queued, dispatched, running, succeeded, failed, status_eq, is_active,
}
use backup_management_center.Model.Types.{Run}
use backup_management_center.Store.Outcome.{ok, err}
use backup_management_center.Store.Db.{Db, RepositoryRow}
use backup_management_center.Store.Agents.{get_agent}
use backup_management_center.Store.Plans.{get_plan}
use backup_management_center.Store.Repositories.{list_repositories, list_repositories_needing_check}
use backup_management_center.Store.Runs.{transition_run, Driver, list_runs_by_status}
use backup_management_center.Store.History.{
  RunFilter, list_runs, prune_history, delete_expired_sessions, ended_at,
}
use backup_management_center.Scheduler.{Scheduler, Starter, Skip, agent_offline}

abbrev pub one_day : ℕ
one_day = 86400

-- `repoCheckWindow`, `repoCheckRetryCooldown` and `defaultTimeout`
abbrev pub repo_check_window : ℕ
repo_check_window = 604800

abbrev pub repo_check_retry_cooldown : ℕ
repo_check_retry_cooldown = 3600

abbrev pub default_timeout : ℕ
default_timeout = 300

-- The daily throttle: never yet, or a day ago.
abbrev pub is_due : ℕ → ℕ → Bool
is_due last now = last == 0 || leb one_day (now - last)

-- `tickSessionCleanup`
unfoldable pub tick_session_cleanup : ℕ → Scheduler → Scheduler
tick_session_cleanup now s =
    if is_due s.last_session_cleanup now
    then record s {
      db = delete_expired_sessions now s.db;
      last_session_cleanup = now;
      cleanups = now ∷ s.cleanups;
    }
    else s

-- `tickHistoryPrune`, with `historyRetentionDays` (0 also for a negative setting).
unfoldable pub tick_history_prune : ℕ → ℕ → Scheduler → Scheduler
tick_history_prune days now s =
    if not (days == 0) && is_due s.last_history_prune now
    then record s {
      db = (prune_history (now - one_day * days) s.db).after;
      last_history_prune = now;
      prunings = now ∷ s.prunings;
    }
    else s

abbrev pub same_skip : String → String → Skip → Bool
same_skip repo reason k = k.repository_id == repo && k.reason == reason

abbrev pub set_skip : Skip → List Skip → List Skip
set_skip k ks =
    if any_where (same_skip k.repository_id k.reason) ks
    then update_where (same_skip k.repository_id k.reason) (λ _. k) ks
    else k ∷ ks

abbrev pub skipped_lately : ℕ → Option Skip → Bool
skipped_lately now none = false
skipped_lately now (some k) = ltb (now - k.at) 3600

abbrev pub swept : ℕ → List Skip → List Skip
swept now ks = if ltb 1024 (length ks) then delete_where (λ k. ltb one_day (now - k.at)) ks else ks

-- `logRetentionSkip`: whether it logged, and the entries after.
unfoldable pub log_retention_skip : ℕ → String → String → List Skip → Bool × List Skip
log_retention_skip now repo reason ks =
    if skipped_lately now (find_where (same_skip repo reason) ks) then (false, ks) else (
      true,
      set_skip (record { repository_id = repo; reason = reason; at = now }) (swept now ks),
    )

-- The part of a text after its last NUL.
abbrev pub last_part : String → String → String
last_part best String.[] = best
last_part best (String.◌∷◌ c s) = if code c == 0 then last_part s s else last_part best s

-- `strings.HasPrefix(strings.TrimSpace(s), "{")`
abbrev pub opens_object : String → Bool
opens_object String.[] = false
opens_object (String.◌∷◌ c s) = if is_space (code c) then opens_object s else code c == 0x7b

-- `dedupKeyParams`
unfoldable pub dedup_key_params : String → String
dedup_key_params key = let last = last_part key key in if opens_object last then last else ""

-- `retention` is `json.Unmarshal` into a `ForgetTask`, and the sum of its four counts.
module _ (retention : String → Option ℕ) where
  abbrev pub keeps_some : String → Bool
  keeps_some payload =
      not (payload == "") && elim (retention payload) [ none ↦ false | some n ↦ ltb 0 n ]

  -- `forgetRunIsRetention`
  unfoldable pub forget_run_is_retention : Run → Bool
  unfolding dedup_key_params
  forget_run_is_retention r =
      keeps_some r.progress_json || keeps_some (dedup_key_params r.dedup_key)

-- The filters that the phases hand to `ListRuns`.
abbrev pub kept_statuses : List RunStatus
kept_statuses = queued ∷ dispatched ∷ running ∷ succeeded ∷ []

abbrev pub recent_runs : String → RunFilter
recent_runs repo = record {
  agent_id = "";
  plan_id = "";
  repository_id = repo;
  statuses = kept_statuses;
  operation = none;
  limit = 100;
  offset = 0;
  exclude_dedup_key_substrings = [];
}

abbrev pub recent_forgets : String → RunFilter
recent_forgets repo = record {
  agent_id = "";
  plan_id = "";
  repository_id = repo;
  statuses = kept_statuses;
  operation = some forget;
  limit = 20;
  offset = 0;
  exclude_dedup_key_substrings = "\"delete_all\":true" ∷ "\"snapshot_ids\":[" ∷ [];
}

abbrev pub latest_check : String → RunFilter
latest_check repo = record {
  agent_id = "";
  plan_id = "";
  repository_id = repo;
  statuses = queued ∷ dispatched ∷ running ∷ succeeded ∷ failed ∷ [];
  operation = some check;
  limit = 1;
  offset = 0;
  exclude_dedup_key_substrings = [];
}

abbrev pub is_active_backup : Run → Bool
is_active_backup r = r.operation == backup && is_active r.status

-- `latest.FinishedAt != nil && now.Sub(*latest.FinishedAt) < window`
abbrev pub finished_within : ℕ → ℕ → Option ℕ → Bool
finished_within now window none = false
finished_within now window (some at) = ltb (now - at) window

-- Whether the latest check puts another one off.
abbrev pub puts_off_check : ℕ → List Run → Bool
puts_off_check now [] = false
puts_off_check now (r ∷ rs) =
    is_active r.status
    || (r.status == succeeded && finished_within now repo_check_window r.finished_at)
    || (r.status == failed && finished_within now repo_check_retry_cooldown r.finished_at)

abbrev pub timed_out_row : ℕ → Run → Run
timed_out_row now r = record r {
  error_code = "agent_unavailable";
  error_message = "agent offline past timeout";
  finished_at = some now;
}

-- The plan's timeout, or the default one.
abbrev pub queue_timeout : Run → Db → ℕ
queue_timeout r db = if r.plan_id == "" then default_timeout else elim (get_plan r.plan_id db) [
  | ok p ↦ if p.timeout_seconds == 0 then default_timeout else p.timeout_seconds
  | err _ ↦ default_timeout
]

module _ (starter : Starter) (unreadable : String → Bool) (instr : String → String → Bool)
    (retention : String → Option ℕ) where
  abbrev pub skip : ℕ → String → String → Scheduler → Scheduler
  skip now repo reason s = record s {
    retention_skips = (log_retention_skip now repo reason s.retention_skips).1;
  }

  -- A forget of the retention policy within the last day.
  unfoldable pub retained_lately : ℕ → String → Db → Bool
  unfolding list_runs
  retained_lately now repo db =
      any_where (λ r. forget_run_is_retention retention r && ltb (now - ended_at r) one_day)
        (list_runs instr (recent_forgets repo) db)

  -- The body of the loop in `tickMaintenance`.
  unfoldable pub maintain : ℕ → RepositoryRow → Scheduler → Scheduler
  unfolding retained_lately
  maintain now repo s =
      if agent_offline unreadable repo.agent_id s.db
      then skip now repo.id "offline" s
      else if any_where is_active_backup (list_runs instr (recent_runs repo.id) s.db)
      then skip now repo.id "active" s
      else if retained_lately now repo.id s.db
      then skip now repo.id "recent" s
      else record s {
        db = starter.start_retention_run repo.id s.db;
        retentions = repo.id ∷ s.retentions;
      }

  abbrev pub maintain_each : ℕ → List RepositoryRow → Scheduler → Scheduler
  maintain_each now [] s = s
  maintain_each now (r ∷ rs) s = maintain_each now rs (maintain now r s)

  -- `tickMaintenance`
  unfoldable pub tick_maintenance : ℕ → Scheduler → Scheduler
  unfolding maintain
  tick_maintenance now s = maintain_each now (list_repositories s.db) s

  abbrev pub agent_online : String → Db → Bool
  agent_online id db =
      not (unreadable id) && elim (get_agent id db) [ ok a ↦ a.online | err _ ↦ false ]

  -- The body of the loop in `tickWeeklyRepoCheck`.
  unfoldable pub check_repository : ℕ → RepositoryRow → Scheduler → Scheduler
  unfolding list_runs
  check_repository now repo s =
      if repo.status == "ready"
        && agent_online repo.agent_id s.db
        && not (puts_off_check now (list_runs instr (latest_check repo.id) s.db))
      then record s { db = starter.system_run_check repo.id s.db; checks = repo.id ∷ s.checks }
      else s

  abbrev pub check_each : ℕ → List RepositoryRow → Scheduler → Scheduler
  check_each now [] s = s
  check_each now (r ∷ rs) s = check_each now rs (check_repository now r s)

  -- `tickWeeklyRepoCheck`
  unfoldable pub tick_weekly_repo_check : ℕ → Scheduler → Scheduler
  unfolding check_repository
  tick_weekly_repo_check now s =
      check_each now (list_repositories_needing_check (now - repo_check_window) s.db) s

  -- `drivers run_id k` is what the driver does to attempt k of the run's transition.
  module _ (drivers : String → ℕ → Driver) where
    -- The body of the loop in `tickStaleQueued`.
    unfoldable pub fail_stale : ℕ → Run → Scheduler → Scheduler
    fail_stale now r s =
        if ltb now (r.queued_at + queue_timeout r s.db)
          || not (agent_offline unreadable r.agent_id s.db)
        then s
        else elim (transition_run (λ _. false) (drivers r.id) r.id queued failed (timed_out_row now)
            s.db) [
              | err _ ↦ s
              | ok after ↦ record s {
                db = after;
                wiped = r.id ∷ s.wiped;
                notified = r.id ∷ s.notified;
              }
            ]

    abbrev pub fail_each : ℕ → List Run → Scheduler → Scheduler
    fail_each now [] s = s
    fail_each now (r ∷ rs) s = fail_each now rs (fail_stale now r s)

    -- `tickStaleQueued`
    unfoldable pub tick_stale_queued : ℕ → Scheduler → Scheduler
    unfolding fail_stale list_runs_by_status
    tick_stale_queued now s = fail_each now (list_runs_by_status (queued ∷ []) s.db) s
