-- ===== src/Scheduler/Quiet.antt =====
-- The phases of a tick after the first start no slot and touch no cursor (internal/server/scheduler/scheduler.go).
use backup_management_center.Common.{
  ℕ, ◌+◌, ◌-◌, String, ◌≡◌, refl, ◌∙◌, Bool, false, ◌&&◌, ◌||◌, not, Option, List, [], ◌∷◌, ◌==◌,
  ltb, string_eq, nat_eq, Bool-cases, inl, inr, any_where,
}
use backup_management_center.Model.Status.{queued, failed, status_eq}
use backup_management_center.Model.Types.{Run}
use backup_management_center.Store.Outcome.{ok, Outcome-cases}
use backup_management_center.Store.Db.{Db, RepositoryRow}
use backup_management_center.Store.Runs.{transition_run, Driver, list_runs_by_status}
use backup_management_center.Store.Runs.Moves.{transition_run-Moved}
use backup_management_center.Store.History.{
  list_runs, prune_history, is_referred, without_requests, delete_expired_sessions,
}
use backup_management_center.Store.Repositories.{list_repositories, list_repositories_needing_check}
use backup_management_center.Scheduler.{Scheduler, Starter, agent_offline, tick_cron}
use backup_management_center.Scheduler.Jobs.{
  fail_stale, fail_each, tick_stale_queued, timed_out_row, queue_timeout, maintain, maintain_each,
  tick_maintenance, is_active_backup, recent_runs, retained_lately, check_repository, check_each,
  tick_weekly_repo_check, agent_online, puts_off_check, latest_check, tick_history_prune,
  tick_session_cleanup, is_due, repo_check_window,
}
use backup_management_center.Scheduler.Ticks.{
  Setting, run_tick, tick_snapshot_cleanup, stale_queued, weekly_repo_check, maintenance,
}
use backup_management_center.Scheduler.Cursors.{Orderly, none_but}

-- A phase that starts no slot and touches no cursor.
pub record Quiet (s s' : Scheduler) : Type 0 where
  pub firings : s'.firings ≡ s.firings
  pub cursors : s'.cursors ≡ s.cursors
  pub stored : s'.db.cursors ≡ s.db.cursors

Quiet-refl : (s : Scheduler) → Quiet s s
Quiet-refl s = record { firings = refl; cursors = refl; stored = refl }

Quiet-trans : (a b c : Scheduler) → Quiet a b → Quiet b c → Quiet a c
Quiet-trans a b c p q = record {
  firings = q.firings ∙ p.firings;
  cursors = q.cursors ∙ p.cursors;
  stored = q.stored ∙ p.stored;
}

pub Orderly-Quiet :
    (v : Bool) (t : ℕ) (s s' : Scheduler)
    → Quiet s s'
    → Orderly v none_but t s
    → Orderly v none_but t s'
Orderly-Quiet v t s s' q o = record {
  past = rw q.firings o.past;
  cached = rw (q.firings, q.cursors) o.cached;
  stored = rw (q.firings, q.stored, q.cursors) o.stored;
  forward = rw q.firings o.forward;
}

transition_run-cursors :
    (drivers : ℕ → Driver) (id : String) (now : ℕ) (db db' : Db)
    → transition_run (λ _. false) drivers id queued failed (timed_out_row now) db ≡ ok db'
    → db'.cursors ≡ db.cursors
transition_run-cursors drivers id now db db' h =
    let moved =
      transition_run-Moved (λ _. false) drivers id queued failed (timed_out_row now) db db' h in
    rw moved.wrote refl

module _ (starter : Starter) (unreadable : String → Bool) (instr : String → String → Bool)
    (retention : String → Option ℕ) where
  module _ (drivers : String → ℕ → Driver) where
    fail_stale-Quiet :
        (now : ℕ) (r : Run) (s : Scheduler)
        → Quiet s (fail_stale starter unreadable instr retention drivers now r s)
    unfolding fail_stale
    fail_stale-Quiet now r s =
        elim (Bool-cases (
          ltb now (r.queued_at + queue_timeout r s.db)
          || not (agent_offline unreadable r.agent_id s.db))) [
            | inl e ↦ rw e (Quiet-refl s)
            | inr e ↦
                elim (Outcome-cases (
                  transition_run (λ _. false) (drivers r.id) r.id queued failed (timed_out_row now)
                    s.db)) [
                      | inl (after, h) ↦
                          rw (e, h)
                            (record {
                              firings = refl;
                              cursors = refl;
                              stored = transition_run-cursors (drivers r.id) r.id now s.db after h;
                            })
                      | inr (code, h) ↦ rw (e, h) (Quiet-refl s)
                    ]
          ]

    fail_each-Quiet :
        (now : ℕ) (rs : List Run) (s : Scheduler)
        → Quiet s (fail_each starter unreadable instr retention drivers now rs s)
    fail_each-Quiet now [] s = Quiet-refl s
    fail_each-Quiet now (r ∷ rs) s =
        Quiet-trans _ _ _ (fail_stale-Quiet now r s)
          (fail_each-Quiet now rs (fail_stale starter unreadable instr retention drivers now r s))

  check_repository-Quiet :
      (now : ℕ) (r : RepositoryRow) (s : Scheduler)
      → Quiet s (check_repository starter unreadable instr retention now r s)
  unfolding check_repository
  check_repository-Quiet now r s =
      let kept = starter.system_run_check-cursors r.id s.db in
      elim (Bool-cases (
        r.status == "ready"
        && agent_online starter unreadable instr retention r.agent_id s.db
        && not (puts_off_check now (list_runs instr (latest_check r.id) s.db)))) [
          | inl e ↦ rw e (record { firings = refl; cursors = refl; stored = kept })
          | inr e ↦ rw e (Quiet-refl s)
        ]

  check_each-Quiet :
      (now : ℕ) (rs : List RepositoryRow) (s : Scheduler)
      → Quiet s (check_each starter unreadable instr retention now rs s)
  check_each-Quiet now [] s = Quiet-refl s
  check_each-Quiet now (r ∷ rs) s =
      Quiet-trans _ _ _ (check_repository-Quiet now r s)
        (check_each-Quiet now rs (check_repository starter unreadable instr retention now r s))

  maintain-Quiet :
      (now : ℕ) (r : RepositoryRow) (s : Scheduler)
      → Quiet s (maintain starter unreadable instr retention now r s)
  unfolding maintain
  maintain-Quiet now r s = elim (Bool-cases (agent_offline unreadable r.agent_id s.db)) [
    | inl e ↦ rw e (record { firings = refl; cursors = refl; stored = refl })
    | inr e ↦
        elim (Bool-cases (any_where is_active_backup (list_runs instr (recent_runs r.id) s.db))) [
          | inl f ↦ rw (e, f) (record { firings = refl; cursors = refl; stored = refl })
          | inr f ↦
              elim (Bool-cases (retained_lately starter unreadable instr retention now r.id s.db)) [
                | inl g ↦ rw (e, f, g) (record { firings = refl; cursors = refl; stored = refl })
                | inr g ↦
                    rw (e, f, g)
                      (record {
                        firings = refl;
                        cursors = refl;
                        stored = starter.start_retention_run-cursors r.id s.db;
                      })
              ]
        ]
  ]

  maintain_each-Quiet :
      (now : ℕ) (rs : List RepositoryRow) (s : Scheduler)
      → Quiet s (maintain_each starter unreadable instr retention now rs s)
  maintain_each-Quiet now [] s = Quiet-refl s
  maintain_each-Quiet now (r ∷ rs) s =
      Quiet-trans _ _ _ (maintain-Quiet now r s)
        (maintain_each-Quiet now rs (maintain starter unreadable instr retention now r s))

prune_history-cursors : (at : ℕ) (db : Db) → (prune_history at db).after.cursors ≡ db.cursors
unfolding prune_history
prune_history-cursors at db = elim (Bool-cases (is_referred at (without_requests at db))) [
  | inl e ↦ rw e refl
  | inr e ↦ rw e refl
]

tick_history_prune-Quiet : (days now : ℕ) (s : Scheduler) → Quiet s (tick_history_prune days now s)
unfolding tick_history_prune
tick_history_prune-Quiet days now s =
    elim (Bool-cases (not (days == 0) && is_due s.last_history_prune now)) [
      | inl e ↦
          rw e (record { firings = refl; cursors = refl; stored = prune_history-cursors _ s.db })
      | inr e ↦ rw e (Quiet-refl s)
    ]

tick_session_cleanup-Quiet : (now : ℕ) (s : Scheduler) → Quiet s (tick_session_cleanup now s)
unfolding tick_session_cleanup delete_expired_sessions
tick_session_cleanup-Quiet now s = elim (Bool-cases (is_due s.last_session_cleanup now)) [
  | inl e ↦ rw e (record { firings = refl; cursors = refl; stored = refl })
  | inr e ↦ rw e (Quiet-refl s)
]

module _ (set : Setting) where
  -- The phases after the first, in a row.
  pub rest-Quiet :
      (now : ℕ) (s : Scheduler)
      → Quiet
          (tick_cron set.starter set.unreadable set.save_fault set.cron now s)
          (run_tick set now s)
  unfolding run_tick tick_stale_queued tick_weekly_repo_check tick_maintenance tick_snapshot_cleanup
  rest-Quiet now s =
      let fired = tick_cron set.starter set.unreadable set.save_fault set.cron now s in
      let failed = stale_queued set now fired in
      let checked = weekly_repo_check set now failed in
      let maintained = maintenance set now checked in
      let cleaned = tick_snapshot_cleanup set.starter now maintained in
      let pruned = tick_history_prune set.history_retention_days now cleaned in
      Quiet-trans fired failed _
        (fail_each-Quiet set.starter set.unreadable set.instr set.retention set.drivers now
          (list_runs_by_status (queued ∷ []) fired.db) fired)
        (Quiet-trans failed checked _
          (check_each-Quiet set.starter set.unreadable set.instr set.retention now
            (list_repositories_needing_check (now - repo_check_window) failed.db) failed)
          (Quiet-trans checked maintained _
            (maintain_each-Quiet set.starter set.unreadable set.instr set.retention now
              (list_repositories checked.db) checked)
            (Quiet-trans maintained cleaned _
              (record {
                firings = refl;
                cursors = refl;
                stored = set.starter.tick_snapshot_cleanup-cursors now maintained.db;
              })
              (Quiet-trans cleaned pruned _
                (tick_history_prune-Quiet set.history_retention_days now cleaned)
                (tick_session_cleanup-Quiet now pruned)))))
