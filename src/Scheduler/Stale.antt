-- ===== src/Scheduler/Stale.antt =====
-- Which queued runs a tick fails (internal/server/scheduler/scheduler.go).
use backup_management_center.Common.{
  ℕ, ◌+◌, String, ◌≡◌, refl, ap, ◌∙◌, Bool, true, false, ◌||◌, not, Option, some, List, [], ◌∷◌,
  ◌==◌, ltb, arith, eq_iff, string_eq, Bool-cases, inl, inr, All, find_where, select_where,
}
use backup_management_center.Model.Status.{RunStatus, queued, failed, status_eq}
use backup_management_center.Model.Types.{Run}
use backup_management_center.Store.Outcome.{ok, Outcome-cases}
use backup_management_center.Store.Db.{Db}
use backup_management_center.Store.Agents.{get_agent}
use backup_management_center.Store.Plans.{get_plan}
use backup_management_center.Store.Runs.{
  has_id, get_run, transition_run, Driver, list_runs_by_status, has_status_in,
}
use backup_management_center.Store.Runs.Keys.{HasKeys, run_unique}
use backup_management_center.Store.Runs.Moves.{KeepsRow, Moved, get_run-Moved, transition_run-Moved}
use backup_management_center.Scheduler.{Scheduler, Starter, agent_offline}
use backup_management_center.Scheduler.Jobs.{
  fail_stale, fail_each, tick_stale_queued, timed_out_row, queue_timeout,
}

timed_out_row-KeepsRow : (now : ℕ) → KeepsRow (timed_out_row now)
timed_out_row-KeepsRow now = record { same_id = λ r. refl; same_status = λ r. refl }

-- The tables beside the runs that the verdict on a run reads.
record SameTables (db db' : Db) : Type 0 where
  plans : db'.plans ≡ db.plans
  agents : db'.agents ≡ db.agents

Moved-SameTables :
    (id : String) (from to : RunStatus) (mutate : Run → Run) (db db' : Db)
    → Moved id from to mutate db db'
    → SameTables db db'
Moved-SameTables id from to mutate db db' m = record {
  plans = rw m.wrote refl;
  agents = rw m.wrote refl;
}

module _ (starter : Starter) (unreadable : String → Bool) (instr : String → String → Bool)
    (retention : String → Option ℕ) (drivers : String → ℕ → Driver) where
  -- The run is not late, or its agent is not known to be offline.
  abbrev pub waits : ℕ → Run → Db → Bool
  waits now r db =
      ltb now (r.queued_at + queue_timeout r db) || not (agent_offline unreadable r.agent_id db)

  waits-SameTables :
      (now : ℕ) (r : Run) (db db' : Db) → SameTables db db' → waits now r db' ≡ waits now r db
  unfolding agent_offline get_agent get_plan
  waits-SameTables now r db db' t = rw (t.plans, t.agents) refl

  -- What one run's turn does to a run that waits: nothing.
  record Spared (id : String) (s s' : Scheduler) : Type 0 where
    same_run : get_run id s'.db ≡ get_run id s.db
    tables : SameTables s.db s'.db

  fail_stale-other :
      (now : ℕ) (x : Run) (s : Scheduler) (id : String)
      → has_id id x ≡ false
      → Spared id s (fail_stale starter unreadable instr retention drivers now x s)
  unfolding fail_stale
  fail_stale-other now x s id e =
      elim (Bool-cases (
        ltb now (x.queued_at + queue_timeout x s.db)
        || not (agent_offline unreadable x.agent_id s.db))) [
          | inl w ↦
              rw w (record { same_run = refl; tables = record { plans = refl; agents = refl } })
          | inr w ↦
              elim (Outcome-cases (
                transition_run (λ _. false) (drivers x.id) x.id queued failed (timed_out_row now)
                  s.db)) [
                    | inr (code, h) ↦
                        rw (w, h)
                          (record {
                            same_run = refl;
                            tables = record { plans = refl; agents = refl };
                          })
                    | inl (after, h) ↦
                        let m =
                          transition_run-Moved (λ _. false) (drivers x.id) x.id queued failed
                            (timed_out_row now) s.db after h in
                        let apart : (id == x.id) ≡ false =
                          ground (arith, eq_iff id x.id, eq_iff x.id id) in
                        let same : get_run id after ≡ get_run id s.db =
                          get_run-Moved x.id queued failed (timed_out_row now)
                            (timed_out_row-KeepsRow now) s.db after m id
                          ∙ (rw apart refl) in
                        rw (w, h)
                          (record {
                            same_run = same;
                            tables =
                                Moved-SameTables x.id queued failed (timed_out_row now) s.db after
                                  m;
                          })
                  ]
        ]

  fail_stale-waiting :
      (now : ℕ) (r : Run) (s : Scheduler)
      → waits now r s.db ≡ true
      → fail_stale starter unreadable instr retention drivers now r s ≡ s
  unfolding fail_stale
  fail_stale-waiting now r s w = rw w refl

  fail_each-waiting :
      (now : ℕ) (r : Run) (id : String) (rs : List Run) (s : Scheduler)
      → All (λ x. has_id id x ≡ true → x ≡ r) rs
      → waits now r s.db ≡ true
      → get_run id (fail_each starter unreadable instr retention drivers now rs s).db
        ≡ get_run id s.db
  fail_each-waiting now r id [] s u w = refl
  fail_each-waiting now r id (x ∷ xs) s u w = elim (Bool-cases (has_id id x)) [
    | inl e ↦
        let still : fail_stale starter unreadable instr retention drivers now x s ≡ s =
          rw (u.0 e) (fail_stale-waiting now r s w) in
        ap (λ u. get_run id (fail_each starter unreadable instr retention drivers now xs u).db)
          still
        ∙ fail_each-waiting now r id xs s u.1 w
    | inr e ↦
        let spared = fail_stale-other now x s id e in
        fail_each-waiting now r id xs
          (fail_stale starter unreadable instr retention drivers now x s) u.1
          (waits-SameTables now r s.db _ spared.tables ∙ w)
        ∙ spared.same_run
  ]

  selected_unique :
      (p q : Run → Bool) (r : Run) (rows : List Run)
      → All (λ x. p x ≡ true → x ≡ r) rows
      → All (λ x. p x ≡ true → x ≡ r) (select_where q rows)
  selected_unique p q r [] u = tt
  selected_unique p q r (x ∷ xs) u = elim (Bool-cases (q x)) [
    | inl e ↦ rw e (u.0, selected_unique p q r xs u.1)
    | inr e ↦ rw e (selected_unique p q r xs u.1)
  ]

-- A tick's phase for late queued runs leaves as it is every run that has not waited for its
-- plan's timeout (300 seconds without one), and every run whose agent is online or could not be
-- read, provided that no two runs share a key.
pub tick_stale_queued-spares :
    (starter : Starter) (unreadable : String → Bool) (instr : String → String → Bool)
    (retention : String → Option ℕ) (drivers : String → ℕ → Driver) (now : ℕ) (s : Scheduler)
    (id : String) (r : Run)
    → HasKeys s.db
    → find_where (has_id id) s.db.runs ≡ some r
    → (ltb now (r.queued_at + queue_timeout r s.db)
        || not (agent_offline unreadable r.agent_id s.db))
      ≡ true
    → get_run id (tick_stale_queued starter unreadable instr retention drivers now s).db ≡ ok r
unfolding tick_stale_queued list_runs_by_status get_run
tick_stale_queued-spares starter unreadable instr retention drivers now s id r keys found w =
    fail_each-waiting starter unreadable instr retention drivers now r id
      (select_where (has_status_in (queued ∷ [])) s.db.runs) s
      (selected_unique starter unreadable instr retention drivers (has_id id)
        (has_status_in (queued ∷ [])) r s.db.runs (run_unique id s.db.runs r keys found))
      w
    ∙ (rw found refl)
