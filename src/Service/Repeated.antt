-- ===== src/Service/Repeated.antt =====
-- A result that comes again changes nothing (internal/server/agentreg/service.go).
use backup_management_center.Common.{
  ℕ, String, ◌≡◌, refl, Bool, true, false, ◌&&◌, ◌||◌, Option, some, ◌==◌, arith, string_eq,
  Bool-cases, Option-cases, inl, inr, find_where,
}
use backup_management_center.Model.Kind.{restore, operation_eq}
use backup_management_center.Model.Status.{
  RunStatus, dispatched, running, succeeded, cancelled, status_eq, is_terminal,
}
use backup_management_center.Model.Phase.{RestorePhase}
use backup_management_center.Model.Types.{Run}
use backup_management_center.Store.Outcome.{StoreErr, Outcome-cases}
use backup_management_center.Store.Runs.{has_id, get_run}
use backup_management_center.Store.Runs.Keys.{HasKeys}
use backup_management_center.Service.{Service, done}
use backup_management_center.Service.Progress.{Faults}
use backup_management_center.Service.Reports.{RunResult, to_status}
use backup_management_center.Service.Ends.{after_end-SameRuns}
use backup_management_center.Service.Results.{
  after_end, end_held, handle_run_result, finish_run, reconcile_late, result_row, fast_row,
  status_after,
}
use backup_management_center.Service.Endings.{
  calm, reported-terminal, calm-refused, finish_run-from, finish_run-calm,
}

open_or_late :
    (s to : RunStatus)
    → is_terminal s ≡ true
    → (s == cancelled && to == succeeded) ≡ false
    → (s == running || s == dispatched || (s == cancelled && to == succeeded)) ≡ true
    → ⊥
open_or_late s to e l h = ground arith

never_late : (to : RunStatus) → (to == cancelled && to == succeeded) ≡ false
never_late to = ground arith

module _ (payload : String → Option (RestorePhase × String)) (is_init : String → Bool) where
  -- Whatever the driver does, a result for a finished run that is no restore changes nothing at all,
  -- unless it is a success and the run was cancelled.
  pub handle_run_result-finished :
      (faults : Faults) (now : ℕ) (agent : String) (res : RunResult) (to : RunStatus) (run : Run)
      (s : Service)
      → HasKeys s.db
      → to_status res.status ≡ some to
      → find_where (has_id res.run_id) s.db.runs ≡ some run
      → (run.operation == restore) ≡ false
      → is_terminal run.status ≡ true
      → (run.status == cancelled && to == succeeded) ≡ false
      → (handle_run_result payload is_init faults now agent res s).1 ≡ s
  unfolding handle_run_result get_run end_held
  handle_run_result-finished faults now agent res to run s keys st found op ended late =
      elim (Option-cases faults.read_run) [
        | inr (c, e) ↦ rw (handle_run_result, st, e) refl
        | inl e ↦ elim (Bool-cases (run.agent_id == agent)) [
          | inr f ↦ rw (handle_run_result, st, e, found, f) refl
          | inl f ↦ elim (Outcome-cases (finish_run payload is_init faults now res to s.db)) [
            | inr (c, g) ↦ rw (handle_run_result, st, e, found, f, end_held, op, g) refl
            | inl (x, g) ↦
                let was =
                  finish_run-from payload is_init faults now res to run s.db x keys found g in
                absurd (open_or_late run.status to ended late was)
          ]
        ]
      ]

  -- With an undisturbed driver, a result for a dispatched or running run that is no restore ends
  -- the run with the reported status; the same result again then changes nothing, whatever the
  -- driver does.
  pub handle_run_result-once :
      (faults : Faults) (now later : ℕ) (agent : String) (res : RunResult) (to : RunStatus)
      (run : Run) (s : Service)
      → HasKeys s.db
      → to_status res.status ≡ some to
      → find_where (has_id res.run_id) s.db.runs ≡ some run
      → (run.agent_id == agent) ≡ true
      → (run.operation == restore) ≡ false
      → (run.status == dispatched || run.status == running) ≡ true
      → ((row : Run) × (find_where
              (has_id res.run_id)
              (handle_run_result payload is_init calm now agent res s).1.db.runs
            ≡ some row)
          × (row.status ≡ to))
        × ((handle_run_result payload is_init faults later agent res
              (handle_run_result payload is_init calm now agent res s).1).1
            ≡ (handle_run_result payload is_init calm now agent res s).1)
  unfolding handle_run_result get_run end_held
  handle_run_result-once faults now later agent res to run s keys st found holder op live =
      let (after, done', end) =
        finish_run-calm payload is_init now res to run s.db keys
          (reported-terminal res.status to st) found live in
      let s' = after_end payload is_init now agent res run to (record s { db = after }) in
      let first : (handle_run_result payload is_init calm now agent res s).1 ≡ s' =
        rw (handle_run_result, st, found, holder, end_held, op, done', status_after, op) refl in
      let same =
        after_end-SameRuns payload is_init now agent res run to (record s { db = after }) in
      let there : find_where (has_id res.run_id) s'.db.runs ≡ some end.row =
        rw same.runs end.found in
      let kept : HasKeys s'.db = rw same.runs end.keys in
      rw first (
        (end.row, there, end.status),
        handle_run_result-finished faults later agent res to end.row s' kept st there
            (rw end.operation op) (rw end.status (reported-terminal res.status to st))
            (rw end.status (never_late to)),
      )

  -- A reported success of a cancelled run that is no restore is answered as handled and lost
  -- without a trace if the write that would reconcile the run fails, for whatever reason.
  pub handle_run_result-loses_success :
      (e : StoreErr) (now : ℕ) (agent : String) (res : RunResult) (run : Run) (s : Service)
      → to_status res.status ≡ some succeeded
      → find_where (has_id res.run_id) s.db.runs ≡ some run
      → (run.agent_id == agent) ≡ true
      → (run.operation == restore) ≡ false
      → run.status ≡ cancelled
      → handle_run_result payload is_init (record calm { reconcile = some e }) now agent res s
        ≡ (done, s)
  unfolding handle_run_result get_run end_held finish_run reconcile_late
  handle_run_result-loses_success e now agent res run s st found holder op was =
      let first =
        calm-refused res.run_id running succeeded (result_row payload is_init now res) s.db run
          found (rw was refl) in
      let second =
        calm-refused res.run_id dispatched succeeded (fast_row payload is_init now res) s.db run
          found (rw was refl) in
      rw (handle_run_result, st, found, holder, end_held, op, finish_run, first, second) refl
