-- ===== src/Store/Runs/Lifecycle.antt =====
-- What may become of one run under the operations on the table
-- (internal/server/store/sqlite.go).
use backup_management_center.Common.{
  String, ◌≡◌, ◌≢◌, refl, ◌∙◌, inl, inr, Bool, true, false, some, List, [], ◌∷◌, arith, eq_iff,
  string_eq, All, All-found, find_where, update_where, delete_where, on_where, Bool-cases, member,
  find_where-some, find_where-map, any_where-false,
}
use backup_management_center.Model.Status.{
  RunStatus, status_eq, queued, dispatched, running, cancelled, succeeded, failed, is_active,
  valid_transitions,
}
use backup_management_center.Model.Types.{Run}
use backup_management_center.Store.Db.{Db}
use backup_management_center.Store.Runs.{
  has_id, clash, written, is_cancelled_run, is_live_run, progress_row, reconciled_row,
  has_status_in, failed_row, update_run_progress, fail_stale_runs, clear_run_progress,
}
use backup_management_center.Store.Runs.Keys.{HasKeys, run_unique}
use backup_management_center.Store.Runs.Moves.{KeepsRow, Moved, transition_run_once-Moved, new_id}
use backup_management_center.Store.Runs.Steps.{
  RunStep, created, moved, reconciled, progressed, swept, cleared, deleted, create_run-adds,
  reconciled-rows, deleted-rows,
}

-- The statuses that a run may have later on: a finished one keeps its result, but for a
-- cancellation that turns out to have succeeded.
abbrev pub evolves : RunStatus → RunStatus → Bool
evolves succeeded succeeded = true
evolves failed failed = true
evolves cancelled cancelled = true
evolves cancelled succeeded = true
evolves queued _ = true
evolves dispatched _ = true
evolves running _ = true
evolves _ _ = false

pub evolves_trans :
    (a b c : RunStatus) → evolves a b ≡ true → evolves b c ≡ true → evolves a c ≡ true
evolves_trans a b c h k = ground arith

-- A later state of the same run.
pub record Evolves (r s : Run) : Type 0 where
  pub same_id : s.id ≡ r.id
  pub same_plan : s.plan_id ≡ r.plan_id
  pub same_slot : s.scheduled_at ≡ r.scheduled_at
  pub same_key : s.dedup_key ≡ r.dedup_key
  pub same_agent : s.agent_id ≡ r.agent_id
  pub same_operation : s.operation ≡ r.operation
  pub same_repository : s.repository_id ≡ r.repository_id
  pub status : evolves r.status s.status ≡ true

Evolves-refl : (r : Run) → Evolves r r
Evolves-refl r = ground arith

Evolves-trans : (r s t : Run) → Evolves r s → Evolves s t → Evolves r t
Evolves-trans r s t h k = ground (arith, evolves_trans r.status s.status t.status)

-- The run is still there, as a later state of `r`.
abbrev pub Continues : String → Run → Db → Type 0
Continues id r db = (s : Run) × (find_where (has_id id) db.runs ≡ some s) × Evolves r s

module _ (id : String) (r : Run) (rows : List Run)
    (found : find_where (has_id id) rows ≡ some r) where
  -- An update that keeps identifiers turns the run into what it makes of its row.
  after_update :
      (p : Run → Bool) (f : Run → Run)
      → ((x : Run) → (f x).id ≡ x.id)
      → (p r ≡ true → Evolves r (f r))
      → (s : Run) × (find_where (has_id id) (update_where p f rows) ≡ some s) × Evolves r s
  after_update p f keeps evolve = (
    on_where p f r,
    (find_where-map (has_id id) (on_where p f) rows
          (λ x. elim (Bool-cases (p x)) [ inl e ↦ rw (e, keeps x) | inr e ↦ rw e ]))
        ∙ rw found,
    elim (Bool-cases (p r)) [ inl e ↦ rw e (evolve e) | inr e ↦ rw e (Evolves-refl r) ],
  )

-- No deletion of this run.
abbrev pub NotDeleted : {db db' : Db} → String → RunStep db db' → Type 0
NotDeleted id (deleted j h) = j ≢ id
NotDeleted id (created now r h) = Unit
NotDeleted id (moved driver j from to mutate k h) = Unit
NotDeleted id (reconciled j snapshot progress h) = Unit
NotDeleted id (progressed j progress) = Unit
NotDeleted id (swept statuses code at h) = Unit
NotDeleted id (cleared j) = Unit

find-delete_ne :
    (id j : String) (rows : List Run)
    → j ≢ id
    → find_where (has_id id) (delete_where (has_id j) rows) ≡ find_where (has_id id) rows
find-delete_ne id j [] ne = refl
find-delete_ne id j (x ∷ rows) ne =
    ground (arith, find-delete_ne id j rows ne, eq_iff x.id j, eq_iff x.id id)

live_evolves : (a b : RunStatus) → is_active a ≡ true → evolves a b ≡ true
live_evolves a b h = ground arith

member_live :
    (s : RunStatus) (statuses : List RunStatus)
    → All (λ x. is_active x ≡ true) statuses
    → member s statuses ≡ true
    → is_active s ≡ true
member_live s [] all h = absurd (cc)
member_live s (x ∷ rest) all h = ground (arith, member_live s rest all.1)

-- The row that a transition rewrites was live.
moved-row_live : (from to : RunStatus) → valid_transitions from to ≡ true → is_active from ≡ true
moved-row_live from to h = ground arith

module _ (id : String) (r : Run) {db db' : Db} (keys : HasKeys db)
    (found : find_where (has_id id) db.runs ≡ some r) where
  after_move :
      (j : String) (from to : RunStatus) (mutate : Run → Run) (keeps : KeepsRow mutate)
      → Moved j from to mutate db db'
      → Continues id r db'
  after_move j from to mutate keeps m =
      rw (m.wrote, new_id j from to mutate keeps db db' m)
        (after_update id r db.runs found (has_id j)
          (written (mutate (record m.run { status = to }))) (λ x. refl)
          (λ e.
            let only : r ≡ m.run =
              All-found (λ x. has_id j x ≡ true → x ≡ m.run) (has_id id) db.runs r
                (run_unique j db.runs m.run keys m.found) found e in
            record {
              same_id = refl;
              same_plan = refl;
              same_slot = refl;
              same_key = refl;
              same_agent = refl;
              same_operation = refl;
              same_repository = refl;
              status =
                  live_evolves r.status _
                    (ground (arith, only, m.was_from, moved-row_live from to m.valid));
            }))

pub clash-false_id :
    (x y : Run) (id : String) → clash x y ≡ false → has_id id y ≡ true → has_id id x ≡ false
clash-false_id x y id h e = ground (arith, eq_iff x.id y.id, eq_iff y.id id, eq_iff x.id id)

pub RunStep-Continues :
    {db db' : Db} (id : String) (r : Run) (step : RunStep db db')
    → HasKeys db
    → NotDeleted id step
    → find_where (has_id id) db.runs ≡ some r
    → Continues id r db'
unfolding update_run_progress fail_stale_runs clear_run_progress
RunStep-Continues {db} {db'} id r (created now new h) keys kept found =
    let (rows, free) = create_run-adds now new db db' h in
    let other : has_id id new ≡ false =
      clash-false_id new r id
        (All-found (λ x. clash new x ≡ false) (has_id id) db.runs r
          (any_where-false (clash new) db.runs free) found)
        (find_where-some (has_id id) db.runs r found) in
    (r, rw (rows, other) found, Evolves-refl r)
RunStep-Continues {db} {db'} id r (moved driver j from to mutate k h) keys kept found =
    after_move id r keys found j from to mutate k
      (transition_run_once-Moved driver j from to mutate db db' h)
RunStep-Continues {db} {db'} id r (reconciled j snapshot progress h) keys kept found =
    rw (reconciled-rows j snapshot progress db db' h) (
      after_update id r db.runs found (is_cancelled_run j) (reconciled_row snapshot progress)
        (λ x. refl) (λ e. ground arith))
RunStep-Continues {db} {db'} id r (progressed j progress) keys kept found =
    after_update id r db.runs found (is_live_run j) (progress_row progress) (λ x. refl)
      (λ e. ground arith)
RunStep-Continues {db} {db'} id r (swept statuses code at live) keys kept found =
    after_update id r db.runs found (has_status_in statuses) (failed_row code at) (λ x. refl)
      (λ e. ground (arith, live_evolves r.status failed (member_live r.status statuses live e)))
RunStep-Continues {db} {db'} id r (cleared j) keys kept found =
    after_update id r db.runs found (has_id j) (progress_row "{}") (λ x. refl) (λ e. ground arith)
RunStep-Continues {db} {db'} id r (deleted j h) keys kept found =
    (r, rw (deleted-rows j db db' h) (find-delete_ne id j db.runs kept ∙ found), Evolves-refl r)
