-- ===== src/Service/Endings.antt =====
-- What the end of a run that is no restore is written from, and when it is written (internal/server/agentreg/service.go).
use backup_management_center.Common.{
  ℕ, String, ◌≡◌, refl, ap, sym, ◌∙◌, Bool, true, false, ◌&&◌, ◌||◌, Option, none, some, ◌∷◌, ◌==◌,
  arith, eq_iff, string_eq, Bool-cases, Option-cases, inl, inr, find_where, update_where, any_where,
  any_where-false_of, All-weaken, if◌then◌else◌,
}
use backup_management_center.Model.Kind.{operation_eq}
use backup_management_center.Model.Status.{
  RunStatus, dispatched, running, succeeded, cancelled, status_eq, is_terminal, valid_transitions,
}
use backup_management_center.Model.Phase.{RestorePhase}
use backup_management_center.Model.Types.{Run}
use backup_management_center.Store.Outcome.{
  StoreErr, Outcome, ok, err, Outcome-cases, invalid_transition,
}
use backup_management_center.Store.Db.{Db}
use backup_management_center.Store.Runs.{
  has_id, get_run, written, no_fault, transition_run, reconcile_cancelled_run_success,
  is_cancelled_run,
}
use backup_management_center.Store.Runs.Keys.{HasKeys, run_unique}
use backup_management_center.Store.Runs.Moves.{
  KeepsRow, Moved, transition_run-Moved, transition_run-busy, transition_run_once-decides,
  get_run-Moved, HasKeys-Moved,
}
use backup_management_center.Service.Progress.{Faults}
use backup_management_center.Service.Reports.{RunResult, ReportedStatus, to_status}
use backup_management_center.Service.Results.{
  finish_run, reconcile_late, result_row, fast_row, if_invalid,
}

-- A driver that does nothing of its own.
abbrev pub calm : Faults
calm = record {
  read_run = none;
  accept = λ _. no_fault;
  from_running = λ _. no_fault;
  from_dispatched = λ _. no_fault;
  reconcile = none;
}

if_invalid-ok :
    (e : StoreErr) (next : Outcome (Bool × Db)) (x : Bool × Db)
    → if_invalid e next ≡ ok x
    → next ≡ ok x
if_invalid-ok e next x h = ground arith

pub reported-terminal :
    (r : ReportedStatus) (to : RunStatus) → to_status r ≡ some to → is_terminal to ≡ true
reported-terminal r to h = ground arith

pub found_same :
    (db : Db) (id : String) (a b : Run)
    → find_where (has_id id) db.runs ≡ some a
    → find_where (has_id id) db.runs ≡ some b
    → a ≡ b
found_same db id a b p q = ground arith

not_cancelled :
    (id : String) (r run : Run)
    → (has_id id r ≡ true → r ≡ run)
    → (run.status == cancelled) ≡ false
    → is_cancelled_run id r ≡ false
not_cancelled id r run only e = elim (Bool-cases (has_id id r)) [
  | inl k ↦ rw (k, only k) e
  | inr k ↦ rw k refl
]

-- If a run with the identifier was cancelled, the run was.
cancelled_of :
    (id : String) (run : Run) (db : Db)
    → HasKeys db
    → find_where (has_id id) db.runs ≡ some run
    → any_where (is_cancelled_run id) db.runs ≡ true
    → (run.status == cancelled) ≡ true
cancelled_of id run db keys found hit = elim (Bool-cases (run.status == cancelled)) [
  | inl e ↦ e
  | inr e ↦
      let none_is : any_where (is_cancelled_run id) db.runs ≡ false =
        any_where-false_of (is_cancelled_run id) db.runs (
          All-weaken (λ r. has_id id r ≡ true → r ≡ run) (λ r. is_cancelled_run id r ≡ false)
            (λ r only. not_cancelled id r run only e) db.runs
            (run_unique id db.runs run keys found)) in
      absurd (cc)
]

pub found_run :
    (id : String) (row : Run) (db : Db)
    → get_run id db ≡ ok row
    → find_where (has_id id) db.runs ≡ some row
unfolding get_run
found_run id row db h = elim (Option-cases (find_where (has_id id) db.runs)) [
  | inl e ↦ absurd (ground arith)
  | inr (r, e) ↦ ground arith
]

ends_valid_running : (to : RunStatus) → is_terminal to ≡ true → valid_transitions running to ≡ true
ends_valid_running to h = ground arith

ends_valid_dispatched :
    (to : RunStatus) → is_terminal to ≡ true → valid_transitions dispatched to ≡ true
ends_valid_dispatched to h = ground arith

-- `TransitionRun` with an undisturbed driver.
calm_transition :
    (id : String) (from to : RunStatus) (mutate : Run → Run) (db : Db) (run : Run)
    → find_where (has_id id) db.runs ≡ some run
    → transition_run (λ _. false) (λ _. no_fault) id from to mutate db ≡ (
        if run.status == from && valid_transitions from to
        then (let new = mutate (record run { status = to }) in
            ok (record db {
              runs = update_where (has_id new.id) (written new) db.runs;
              observed = if is_terminal new.status then new ∷ db.observed else db.observed;
            }))
        else err invalid_transition)
calm_transition id from to mutate db run found =
    transition_run-busy id from to mutate db (λ _. false) (λ _. no_fault) 0 (omega arith)
      (λ j h. refl) (λ j lt. absurd (omega arith)) refl
    ∙ transition_run_once-decides id from to mutate db run found

pub calm-refused :
    (id : String) (from to : RunStatus) (mutate : Run → Run) (db : Db) (run : Run)
    → find_where (has_id id) db.runs ≡ some run
    → (run.status == from) ≡ false
    → transition_run (λ _. false) (λ _. no_fault) id from to mutate db ≡ err invalid_transition
calm-refused id from to mutate db run found e =
    calm_transition id from to mutate db run found ∙ (rw e refl)

pub calm-moves :
    (id : String) (from to : RunStatus) (mutate : Run → Run) (db : Db) (run : Run)
    → find_where (has_id id) db.runs ≡ some run
    → (run.status == from && valid_transitions from to) ≡ true
    → (after : Db) × (transition_run (λ _. false) (λ _. no_fault) id from to mutate db ≡ ok after)
calm-moves id from to mutate db run found e =
    let new = mutate (record run { status = to }) in
    (
      record db {
        runs = update_where (has_id new.id) (written new) db.runs;
        observed = if is_terminal new.status then new ∷ db.observed else db.observed;
      },
      calm_transition id from to mutate db run found ∙ (rw e refl),
    )

module _ (payload : String → Option (RestorePhase × String)) (is_init : String → Bool) where
  reconciled-cancelled :
      (faults : Faults) (res : RunResult) (to : RunStatus) (db : Db) (x : Bool × Db)
      → reconcile_late payload is_init faults res to db ≡ ok x
      → (to ≡ succeeded) × (any_where (is_cancelled_run res.run_id) db.runs ≡ true)
  unfolding reconcile_late reconcile_cancelled_run_success
  reconciled-cancelled faults res to db x h = (ground arith, ground arith)

  -- What a written end was the end of.
  pub finish_run-from :
      (faults : Faults) (now : ℕ) (res : RunResult) (to : RunStatus) (run : Run) (db : Db)
      (x : Bool × Db)
      → HasKeys db
      → find_where (has_id res.run_id) db.runs ≡ some run
      → finish_run payload is_init faults now res to db ≡ ok x
      → (run.status == running
          || run.status == dispatched
          || (run.status == cancelled && to == succeeded))
        ≡ true
  unfolding finish_run
  finish_run-from faults now res to run db x keys found h =
      elim (Outcome-cases (
        transition_run (λ _. false) faults.from_running res.run_id running to
          (result_row payload is_init now res) db)) [
            | inl (after, e) ↦
                let m =
                  transition_run-Moved (λ _. false) faults.from_running res.run_id running to
                    (result_row payload is_init now res) db after e in
                let same : m.run ≡ run = found_same db res.run_id m.run run m.found found in
                let was : run.status ≡ running = ap (λ r. r.status) (sym same) ∙ m.was_from in
                rw was refl
            | inr (c, e) ↦
                elim (Outcome-cases (
                  transition_run (λ _. false) faults.from_dispatched res.run_id dispatched to
                    (fast_row payload is_init now res) db)) [
                      | inl (after, f) ↦
                          let m =
                            transition_run-Moved (λ _. false) faults.from_dispatched res.run_id
                              dispatched to (fast_row payload is_init now res) db after f in
                          let same : m.run ≡ run =
                            found_same db res.run_id m.run run m.found found in
                          let was : run.status ≡ dispatched =
                            ap (λ r. r.status) (sym same) ∙ m.was_from in
                          rw was refl
                      | inr (d, f) ↦
                          let late =
                            if_invalid-ok d _ x
                              (if_invalid-ok c _ x (rw (finish_run, e, f) at h)) in
                          let (won, hit) = reconciled-cancelled faults res to db x late in
                          let was = cancelled_of res.run_id run db keys found hit in ground arith
                    ]
          ]

  -- An undisturbed end of a run that is dispatched or running.
  pub record Ended (run_id : String) (to : RunStatus) (run : Run) (after : Db) : Type 0 where
    pub row : Run
    pub found : find_where (has_id run_id) after.runs ≡ some row
    pub status : row.status ≡ to
    pub operation : row.operation ≡ run.operation
    pub keys : HasKeys after

  Moved-Ended :
      (id : String) (from to : RunStatus) (mutate : Run → Run) (run : Run) (db after : Db)
      → KeepsRow mutate
      → HasKeys db
      → find_where (has_id id) db.runs ≡ some run
      → Moved id from to mutate db after
      → Ended id to run after
  unfolding get_run
  Moved-Ended id from to mutate run db after keeps keys found m =
      let same : m.run ≡ run = found_same db id m.run run m.found found in
      let read = get_run-Moved id from to mutate keeps db after m id in
      let self : (id == id) ≡ true = (eq_iff id id).1 refl in
      let row = written (mutate (record m.run { status = to })) m.run in
      record {
        row = row;
        found = found_run id row after (read ∙ (rw self refl));
        status = keeps.same_status (record m.run { status = to });
        operation = ap (λ r. r.operation) same;
        keys = HasKeys-Moved id from to mutate keeps db after m keys;
      }

  pub finish_run-calm :
      (now : ℕ) (res : RunResult) (to : RunStatus) (run : Run) (db : Db)
      → HasKeys db
      → is_terminal to ≡ true
      → find_where (has_id res.run_id) db.runs ≡ some run
      → (run.status == dispatched || run.status == running) ≡ true
      → (after : Db) × (finish_run payload is_init calm now res to db ≡ ok (false, after))
        × Ended res.run_id to run after
  unfolding finish_run
  finish_run-calm now res to run db keys ended found live =
      elim (Bool-cases (run.status == running)) [
        | inl e ↦
            let (after, t) =
              calm-moves res.run_id running to (result_row payload is_init now res) db run found
                (rw (e, ends_valid_running to ended) refl) in
            (
              after,
              rw (finish_run, t) refl,
              Moved-Ended res.run_id running to (result_row payload is_init now res) run db after
                  (record { same_id = λ r. refl; same_status = λ r. refl }) keys found
                  (transition_run-Moved (λ _. false) (λ _. no_fault) res.run_id running to
                    (result_row payload is_init now res) db after t),
            )
        | inr e ↦
            let t =
              calm-refused res.run_id running to (result_row payload is_init now res) db run found
                e in
            let was : (run.status == dispatched) ≡ true = ground arith in
            let (after, u) =
              calm-moves res.run_id dispatched to (fast_row payload is_init now res) db run found
                (rw (was, ends_valid_dispatched to ended) refl) in
            (
              after,
              rw (finish_run, t, u) refl,
              Moved-Ended res.run_id dispatched to (fast_row payload is_init now res) run db after
                  (record { same_id = λ r. refl; same_status = λ r. refl }) keys found
                  (transition_run-Moved (λ _. false) (λ _. no_fault) res.run_id dispatched to
                    (fast_row payload is_init now res) db after u),
            )
      ]
