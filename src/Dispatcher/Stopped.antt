-- ===== src/Dispatcher/Stopped.antt =====
-- What a cancellation does to a run, and a restore that nothing stops (internal/server/dispatchgrpc/dispatcher.go).
use backup_management_center.Common.{
  ℕ, String, ◌≡◌, refl, ap, sym, ◌∙◌, Bool, true, false, ◌&&◌, Option, none, some, ◌==◌, arith,
  eq_iff, string_eq, Bool-cases, Option-cases, inl, inr, find_where, if◌then◌else◌,
}
use backup_management_center.Model.Kind.{restore, operation_eq}
use backup_management_center.Model.Status.{
  RunStatus, queued, dispatched, running, cancelled, status_eq, valid_transitions,
}
use backup_management_center.Model.Status as Status
use backup_management_center.Model.Phase.{RestorePhase}
use backup_management_center.Model.Phase as Phase
use backup_management_center.Model.Types.{Run}
use backup_management_center.Store.Outcome.{StoreErr, Outcome-cases}
use backup_management_center.Store.Db.{Db}
use backup_management_center.Store.Runs.{has_id, get_run, Driver, no_fault, transition_run, written}
use backup_management_center.Store.Runs.Moves.{KeepsRow, Moved, transition_run-Moved, get_run-Moved}
use backup_management_center.Store.Restores.{update_restore_phase}
use backup_management_center.Dispatcher.{Dispatcher}
use backup_management_center.Dispatcher.Late.{send_cancel-db}
use backup_management_center.Dispatcher.Watchdog.{
  send_cancel, cancel, cancel_run, cancel_row, cancelled_row, check_run, handle_restore_timeout,
}
use backup_management_center.Service.{Service, done}
use backup_management_center.Service.Progress.{Faults, handle_command_accepted, accepted_row}
use backup_management_center.Service.Endings.{calm-moves, found_run, found_same}

-- The run is there, with this status.
record HasStatus (id : String) (status : RunStatus) (db : Db) : Type 0 where
  row : Run
  found : find_where (has_id id) db.runs ≡ some row
  same : row.status ≡ status

live_cancels :
    (s : RunStatus)
    → Status.is_terminal s ≡ false
    → (s == s && valid_transitions s cancelled) ≡ true
live_cancels s h = ground arith

moved_status :
    (id : String) (from to : RunStatus) (mutate : Run → Run) (db after : Db)
    → KeepsRow mutate
    → Moved id from to mutate db after
    → HasStatus id to after
unfolding get_run
moved_status id from to mutate db after keeps m =
    let self : (id == id) ≡ true = (eq_iff id id).1 refl in
    let row = written (mutate (record m.run { status = to })) m.run in
    record {
      row = row;
      found =
          found_run id row after
            (get_run-Moved id from to mutate keeps db after m id ∙ (rw self refl));
      same = keeps.same_status (record m.run { status = to });
    }

-- The transition of an undisturbed cancellation.
cancel_row-ends :
    (now : ℕ) (r : Run) (d : Dispatcher)
    → find_where (has_id r.id) d.db.runs ≡ some r
    → Status.is_terminal r.status ≡ false
    → ((cancel_row none (λ _. no_fault) now r d).0 ≡ none)
      × HasStatus r.id cancelled (cancel_row none (λ _. no_fault) now r d).1.db
unfolding cancel_row
cancel_row-ends now r d found live =
    let (after, t) =
      calm-moves r.id r.status cancelled (cancelled_row now) d.db r found
        (live_cancels r.status live) in
    rw (cancel_row, t)
      (
        refl,
        moved_status r.id r.status cancelled (cancelled_row now) d.db after
            (record { same_id = λ x. refl; same_status = λ x. refl })
            (transition_run-Moved (λ _. false) (λ _. no_fault) r.id r.status cancelled
              (cancelled_row now) d.db after t),
      )

cancel-ended :
    (fault : Option StoreErr) (driver : ℕ → Driver) (now : ℕ) (id : String) (d : Dispatcher)
    → HasStatus id cancelled d.db
    → (cancel fault driver now id d).1 ≡ d
unfolding cancel get_run cancel_run
cancel-ended fault driver now id d h =
    let over : Status.is_terminal h.row.status ≡ true = rw h.same refl in
    elim (Option-cases fault) [
      | inr (e, f) ↦ rw (cancel, f) refl
      | inl f ↦ rw (cancel, f, get_run, h.found, cancel_run, over) refl
    ]

-- With an undisturbed driver, cancelling a run that has not ended and is no restore succeeds and
-- leaves the run cancelled, whether or not its agent can be told; cancelling it again then changes
-- nothing, whatever the driver does.
pub cancel-ends :
    (fault : Option StoreErr) (driver : ℕ → Driver) (now later : ℕ) (r : Run) (d : Dispatcher)
    → find_where (has_id r.id) d.db.runs ≡ some r
    → (r.operation == restore) ≡ false
    → Status.is_terminal r.status ≡ false
    → ((cancel none (λ _. no_fault) now r.id d).0 ≡ none)
      × ((row : Run) × (find_where (has_id r.id) (cancel none (λ _. no_fault) now r.id d).1.db.runs
            ≡ some row)
          × (row.status ≡ cancelled))
      × ((cancel fault driver later r.id (cancel none (λ _. no_fault) now r.id d).1).1
          ≡ (cancel none (λ _. no_fault) now r.id d).1)
unfolding cancel get_run cancel_run
cancel-ends fault driver now later r d found op live =
    let (calmly, h) = first in
    (calmly, (h.row, h.found, h.same), cancel-ended fault driver later r.id _ h)
  where
    first :
        ((cancel none (λ _. no_fault) now r.id d).0 ≡ none)
        × HasStatus r.id cancelled (cancel none (λ _. no_fault) now r.id d).1.db
    first = elim (Bool-cases (r.status == queued)) [
      | inl e ↦ rw (cancel, found, cancel_run, live, op, e) (cancel_row-ends now r d found live)
      | inr e ↦
          rw (cancel, found, cancel_run, live, op, e)
            (cancel_row-ends now r (send_cancel r.id r.agent_id d)
              (rw (send_cancel-db r.id r.agent_id d) found) live)
    ]

accepted_read :
    (run_id : String) (now : ℕ) (run row : Run) (db after : Db)
    → find_where (has_id run_id) db.runs ≡ some run
    → (run.operation == restore) ≡ true
    → Moved run_id dispatched running (accepted_row now) db after
    → find_where (has_id run_id) after.runs ≡ some row
    → (row.lease_expires_at ≡ none) × ((row.operation == restore) ≡ true)
unfolding get_run
accepted_read run_id now run row db after found op m there =
    let self : (run_id == run_id) ≡ true = (eq_iff run_id run_id).1 refl in
    let read =
      get_run-Moved run_id dispatched running (accepted_row now)
        (record { same_id = λ x. refl; same_status = λ x. refl }) db after m run_id
      ∙ (rw self refl) in
    let same : m.run ≡ run = found_same db run_id m.run run m.found found in
    let new : row ≡ written (accepted_row now (record m.run { status = running })) m.run =
      found_same after run_id row _ there (found_run run_id _ after read) in
    rw new (refl, (rw same op))

phase-runs :
    (b : Bool) (id : String) (p : RestorePhase) (db : Db)
    → (if b then update_restore_phase id p db else db).runs ≡ db.runs
unfolding update_restore_phase
phase-runs true id p db = refl
phase-runs false id p db = refl

accepted :
    (faults : Faults) (now : ℕ) (agent run_id : String) (run row : Run) (s s' : Service)
    → find_where (has_id run_id) s.db.runs ≡ some run
    → (run.operation == restore) ≡ true
    → (run.status == dispatched) ≡ true
    → handle_command_accepted faults now agent run_id s ≡ (done, s')
    → faults.read_run ≡ none
    → find_where (has_id run_id) s'.db.runs ≡ some row
    → (row.lease_expires_at ≡ none) × ((row.operation == restore) ≡ true)
unfolding handle_command_accepted get_run
accepted faults now agent run_id run row s s' found op was h read there =
    elim (Outcome-cases (
      transition_run (λ _. false) faults.accept run_id dispatched running (accepted_row now)
        s.db)) [
          | inr (c, e) ↦ absurd (elim (Bool-cases (run.agent_id == agent)) [
            | inl f ↦
                let bad = rw (handle_command_accepted, read, found, f, was, e) at h in ground arith
            | inr f ↦ let bad = rw (handle_command_accepted, read, found, f) at h in ground arith
          ])
          | inl (after, e) ↦ elim (Bool-cases (run.agent_id == agent)) [
            | inr f ↦
                absurd (let bad = rw (handle_command_accepted, read, found, f) at h in ground arith)
            | inl f ↦
                let good = rw (handle_command_accepted, read, found, f, was, e) at h in
                let rows : s'.db.runs ≡ after.runs =
                  ap (λ p. p.1.db.runs) (sym good)
                  ∙ phase-runs (run.operation == restore) run_id Phase.running after in
                accepted_read run_id now run row s.db after found op
                  (transition_run-Moved (λ _. false) faults.accept run_id dispatched running
                    (accepted_row now) s.db after e)
                  (rw rows at there)
          ]
        ]

-- After an agent has accepted a dispatched restore, with the handler's read of the run
-- undisturbed, the watchdog's check of the run, with its row as the acceptance left it, changes
-- nothing at any time and in any state of the dispatcher: accepting it took its deadline away.
pub accepted_restore-unlimited :
    (faults : Faults) (now : ℕ) (agent run_id : String) (run row : Run) (s s' : Service)
    (drivers : String → ℕ → Driver) (no_response later : ℕ) (d : Dispatcher)
    → find_where (has_id run_id) s.db.runs ≡ some run
    → (run.operation == restore) ≡ true
    → (run.status == dispatched) ≡ true
    → handle_command_accepted faults now agent run_id s ≡ (done, s')
    → faults.read_run ≡ none
    → find_where (has_id run_id) s'.db.runs ≡ some row
    → check_run drivers no_response later row d ≡ d
unfolding check_run handle_restore_timeout
accepted_restore-unlimited faults now agent run_id run row s s' drivers no_response later d found op
      was h read there =
    let (lease, kind) = accepted faults now agent run_id run row s s' found op was h read there in
    rw (check_run, kind, handle_restore_timeout, lease) refl
