-- ===== src/Store/Runs/Moves.antt =====
-- What `TransitionRun` of internal/server/store/sqlite.go does: the conditions under which it moves a run, and what it writes.
use mathlib.Core.Option
use backup_management_center.Common.{
  ℕ, Bool, ◌<◌, ◌≤◌, String, ◌≡◌, true, false, none, some, List, [], ◌∷◌, ◌==◌, ◌&&◌, arith, eq_iff,
  string_eq, nat_eq, if◌then◌else◌, find_where, update_where, on_where, Bool-cases, inl, inr,
  find_where-some, beq_self, sym, ap, refl, false, ◌∙◌, All-weaken, Option-cases, ◌⊎◌,
}
use backup_management_center.Model.Status.{
  RunStatus, status_eq, valid_transitions, is_terminal, is_active,
}
use backup_management_center.Model.Types.{Run}
use backup_management_center.Store.Outcome.{
  StoreErr, Outcome, ok, err, busy, invalid_transition, is_sqlite_busy,
}
use backup_management_center.Store.Db.{Db}
use backup_management_center.Store.Retry.{busy_retry_attempts}
use backup_management_center.Store.Retry.Laws.{retry_on_busy-settles, retry_on_busy-ok}
use backup_management_center.Store.Runs.{
  has_id, written, Driver, no_fault, get_run, transition_run_once, transition_run,
}
use backup_management_center.Store.Runs.Keys.{
  HasKeys, Shrinks, Shrinks-refl, NoClash-update, run_unique,
}

-- A callback of `TransitionRun` sets columns other than the identifier and the status.
pub record KeepsRow (mutate : Run → Run) : Type 0 where
  pub same_id : (r : Run) → (mutate r).id ≡ r.id
  pub same_status : (r : Run) → (mutate r).status ≡ r.status

-- What a successful transition found and wrote.
pub record Moved (id : String) (from to : RunStatus) (mutate : Run → Run) (db db' : Db)
    : Type 0 where
  pub run : Run
  pub found : find_where (has_id id) db.runs ≡ some run
  pub was_from : run.status ≡ from
  pub was_live : is_terminal from ≡ false
  pub valid : valid_transitions from to ≡ true
  pub wrote : db' ≡ (
      let new = mutate (record run { status = to }) in
      record db {
        runs = update_where (has_id new.id) (written new) db.runs;
        observed = if is_terminal new.status then new ∷ db.observed else db.observed;
      })

pub transition_run_once-Moved :
    (driver : Driver) (id : String) (from to : RunStatus) (mutate : Run → Run) (db db' : Db)
    → transition_run_once driver id from to mutate db ≡ ok db'
    → Moved id from to mutate db db'
unfolding transition_run_once
transition_run_once-Moved driver id from to mutate db db' h =
    elim (Option-cases (find_where (has_id id) db.runs)) [
      | inl e ↦ absurd (ground arith)
      | inr (run, e) ↦ record {
        run = run;
        found = e;
        was_from = ground arith;
        was_live = ground arith;
        valid = ground arith;
        wrote = ground arith;
      }
    ]

-- A transition under retries that succeeded is one transition.
pub transition_run-Moved :
    (done : ℕ → Bool) (drivers : ℕ → Driver) (id : String) (from to : RunStatus)
    (mutate : Run → Run) (db db' : Db)
    → transition_run done drivers id from to mutate db ≡ ok db'
    → Moved id from to mutate db db'
unfolding transition_run
transition_run-Moved done drivers id from to mutate db db' h =
    let (k, e) =
      retry_on_busy-ok done (λ n. transition_run_once (drivers n) id from to mutate db) db' 7 db
        h in
    transition_run_once-Moved (drivers k) id from to mutate db db' e

module _ (id : String) (from to : RunStatus) (mutate : Run → Run) (db : Db) where
  abbrev pub once : Driver → Outcome Db
  once driver = transition_run_once driver id from to mutate db

  -- A driver that is busy, when it begins or when it commits.
  abbrev pub IsBusy : Driver → Type 0
  IsBusy driver = (driver.begin ≡ some busy) ⊎ ((driver.begin ≡ none) × (driver.commit ≡ some busy))

  no_fault-not_busy : (e : StoreErr) → once no_fault ≡ err e → is_sqlite_busy e ≡ false
  unfolding transition_run_once
  no_fault-not_busy e h = elim (Option-cases (find_where (has_id id) db.runs)) [
    | inl n ↦ ground arith
    | inr (run, f) ↦ ground arith
  ]

  -- A busy attempt is refused as busy, or it met a guard that refuses without a fault too.
  busy_attempt :
      (driver : Driver) → IsBusy driver → (once driver ≡ err busy) ⊎ (once driver ≡ once no_fault)
  unfolding transition_run_once
  busy_attempt driver b = elim (Option-cases (find_where (has_id id) db.runs)) [
    | inl n ↦ ground arith
    | inr (run, f) ↦ ground arith
  ]

  -- If the driver is busy in the attempts before attempt k and undisturbed in attempt k, for a k
  -- below 8, and the context is not done before attempt k or earlier, `TransitionRun` does exactly
  -- what an undisturbed attempt does.
  pub transition_run-busy :
      (done : ℕ → Bool) (drivers : ℕ → Driver) (k : ℕ)
      → k < 8
      → ((j : ℕ) → j ≤ k → done j ≡ false)
      → ((j : ℕ) → j < k → IsBusy (drivers j))
      → drivers k ≡ no_fault
      → transition_run done drivers id from to mutate db ≡ once no_fault
  unfolding transition_run
  transition_run-busy done drivers k b on earlier calm =
      retry_on_busy-settles done (λ j. once (drivers j)) (once no_fault) no_fault-not_busy db
        busy_retry_attempts k b on (λ j lt. busy_attempt (drivers j) (earlier j lt)) (rw calm)

  -- An undisturbed transition of an existing run succeeds exactly when the run has the status that
  -- the caller expects and the state machine has the edge; the test for terminal statuses adds
  -- nothing. Otherwise it is an invalid transition.
  pub transition_run_once-decides :
      (run : Run)
      → find_where (has_id id) db.runs ≡ some run
      → once no_fault ≡ (
          if run.status == from && valid_transitions from to
          then (let new = mutate (record run { status = to }) in
              ok (record db {
                runs = update_where (has_id new.id) (written new) db.runs;
                observed = if is_terminal new.status then new ∷ db.observed else db.observed;
              }))
          else err invalid_transition)
  unfolding transition_run_once
  transition_run_once-decides run f = ground arith

-- Reading the table after the update of a transition.
find-written :
    (id : String) (new : Run) (runs : List Run) (j : String)
    → find_where (has_id j) (update_where (has_id id) (written new) runs) ≡ (
        if j == id
        then Option.map (written new) (find_where (has_id id) runs)
        else find_where (has_id j) runs)
find-written id new [] j = ground arith
find-written id new (r ∷ runs) j =
    ground (arith, find-written id new runs j, eq_iff r.id id, eq_iff j id, eq_iff r.id j)

valid_from_active : (from to : RunStatus) → valid_transitions from to ≡ true → is_active from ≡ true
valid_from_active from to h = ground arith

Shrinks-written : (new r : Run) → is_active r.status ≡ true → Shrinks r (written new r)
Shrinks-written new r live = ground arith

module _ (id : String) (from to : RunStatus) (mutate : Run → Run) (keeps : KeepsRow mutate)
    (db db' : Db) (moved : Moved id from to mutate db db') where
  pub new_id : (mutate (record moved.run { status = to })).id ≡ id
  new_id =
      keeps.same_id _ ∙ (eq_iff _ _).0 (find_where-some (has_id id) db.runs moved.run moved.found)

  -- After a transition the run has the columns that are written, and every other run reads as before.
  pub get_run-Moved :
      (j : String)
      → get_run j db' ≡ (
          if j == id
          then ok (written (mutate (record moved.run { status = to })) moved.run)
          else get_run j db)
  unfolding get_run
  get_run-Moved j =
      rw (moved.wrote, new_id)
        (rw (find-written id (mutate (record moved.run { status = to })) db.runs j, moved.found)
          (ground arith))

  -- The columns of the keys are kept, and no terminal run is revived.
  pub HasKeys-Moved : HasKeys db → HasKeys db'
  HasKeys-Moved keys =
      rw (moved.wrote, new_id)
        (NoClash-update (on_where (has_id id) (written (mutate (record moved.run { status = to }))))
          db.runs
          (All-weaken (λ r. has_id id r ≡ true → r ≡ moved.run)
            (λ r.
              Shrinks r
                (on_where (has_id id) (written (mutate (record moved.run { status = to }))) r))
            (λ r only. elim (Bool-cases (has_id id r)) [
              | inl e ↦ rw e (
                  Shrinks-written (mutate (record moved.run { status = to })) r
                    (ground (arith, only e, valid_from_active from to moved.valid, moved.was_from)))
              | inr e ↦ rw e (Shrinks-refl r)
            ])
            db.runs (run_unique id db.runs moved.run keys moved.found))
          keys)

-- A transition that succeeds, under any driver and context, met a run in the status that the caller
-- expects, with an edge from there to the new status. Afterwards the run has the new status; its
-- times, progress, snapshot, error, attempt and lease are as the callback left them, and all its
-- other columns as they were, whatever the callback did to those; every other run reads as before.
-- The callback leaves identifier and status alone.
pub get_run-transition_run :
    (done : ℕ → Bool) (drivers : ℕ → Driver) (id : String) (from to : RunStatus)
    (mutate : Run → Run) (run : Run) (db db' : Db)
    → KeepsRow mutate
    → get_run id db ≡ ok run
    → transition_run done drivers id from to mutate db ≡ ok db'
    → (run.status ≡ from)
      × (valid_transitions from to ≡ true)
      × (get_run id db' ≡ (
          let new = mutate (record run { status = to }) in
          ok (record run {
            status = to;
            started_at = new.started_at;
            finished_at = new.finished_at;
            progress_json = new.progress_json;
            snapshot_id = new.snapshot_id;
            error_code = new.error_code;
            error_message = new.error_message;
            attempt = new.attempt;
            lease_expires_at = new.lease_expires_at;
          })))
      × ((j : String) → (j == id) ≡ false → get_run j db' ≡ get_run j db)
unfolding get_run
get_run-transition_run done drivers id from to mutate run db db' keeps read h =
    let m = transition_run-Moved done drivers id from to mutate db db' h in
    let found = m.found in
    let is_run : m.run ≡ run = ground arith in
    let seen = get_run-Moved id from to mutate keeps db db' m in
    let status = keeps.same_status (record run { status = to }) in
    (
      sym (ap (λ r. r.status) is_run) ∙ m.was_from,
      m.valid,
      seen id ∙ (rw (beq_self id, is_run, status) refl),
      λ j other. seen j ∙ (rw other refl),
    )
