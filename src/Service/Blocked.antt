-- ===== src/Service/Blocked.antt =====
-- A restore that did not end safely keeps its repository blocked (internal/server/agentreg/service.go).
use backup_management_center.Common.{
  ℕ, String, ◌≡◌, refl, Bool, true, false, ◌||◌, not, Option, some, ◌==◌, arith, string_eq,
  Bool-cases, Option-cases, inl, inr, find_where,
}
use backup_management_center.Model.Kind.{restore, operation_eq, operation_beq_iff}
use backup_management_center.Model.Status.{RunStatus, succeeded, failed, cancelled, status_eq}
use backup_management_center.Model.Phase.{RestorePhase, phase_eq, releases_occupancy}
use backup_management_center.Model.Types.{Run, RestoreRequest}
use backup_management_center.Store.Outcome.{Outcome-cases}
use backup_management_center.Store.Db.{Db}
use backup_management_center.Store.Runs.{has_id, get_run}
use backup_management_center.Store.Restores.{
  of_run, is_unsafe, in_repository, finish_restore_run, repository_restore_blocked,
}
use backup_management_center.Service.{Service}
use backup_management_center.Service.Progress.{Faults}
use backup_management_center.Service.Reports.{
  RunResult, ReportedStatus, is_conclusive, to_status, reported_by, finish_input,
  restore_result_outcome,
}
use backup_management_center.Service.Ends.{SameRuns, after_end-SameRuns}
use backup_management_center.Service.Results.{status_after, end_held, handle_run_result}
use backup_management_center.Store.Restores.Blocking.{
  IsBlocking, IsBlocking-blocks, found-IsBlocking, finish-IsBlocking,
}

IsBlocking-same :
    (repo run_id : String) (a b : Db)
    → SameRuns a b
    → IsBlocking repo run_id a
    → IsBlocking repo run_id b
IsBlocking-same repo run_id a b same i = record {
  open_request = rw same.requests i.open_request;
  there = rw same.runs i.there;
}

ended_otherwise :
    (r : ReportedStatus) (to : RunStatus)
    → to_status r ≡ some to
    → (to == succeeded) ≡ false
    → (to == failed || to == cancelled) ≡ false
    → ⊥
ended_otherwise r to h f g = ground arith

module _ (payload : String → Option (RestorePhase × String)) (is_init : String → Bool) where
  outcome-open :
      (res : RunResult) (to : RunStatus)
      → to_status res.status ≡ some to
      → (to == succeeded) ≡ false
      → releases_occupancy (reported_by payload res.result_json).0 ≡ false
      → releases_occupancy (restore_result_outcome payload res to).phase ≡ false
  unfolding restore_result_outcome
  outcome-open res to st fail open' =
      elim (Bool-cases (is_conclusive (reported_by payload res.result_json).0)) [
        | inl e ↦ rw e open'
        | inr e ↦ elim (Bool-cases (to == failed || to == cancelled)) [
          | inl f ↦ rw (e, f) refl
          | inr f ↦ absurd (ended_otherwise res.status to st fail f)
        ]
      ]

  held-IsBlocking :
      (faults : Faults) (now : ℕ) (agent : String) (res : RunResult) (to : RunStatus) (run : Run)
      (q : RestoreRequest) (repo : String) (s : Service)
      → releases_occupancy (restore_result_outcome payload res to).phase ≡ false
      → run.operation ≡ restore
      → find_where (of_run res.run_id) s.db.requests ≡ some q
      → is_unsafe q ≡ true
      → in_repository repo s.db res.run_id ≡ true
      → IsBlocking repo res.run_id (end_held payload is_init faults now agent res run to s).1.db
  unfolding end_held
  held-IsBlocking faults now agent res to run q repo s open' op fq u there =
      let before = found-IsBlocking repo res.run_id s.db q fq u there in
      let kind : (run.operation == restore) ≡ true =
        (operation_beq_iff run.operation restore).1 op in
      elim (Outcome-cases (finish_restore_run (finish_input payload now res to) s.db)) [
        | inl (after, e) ↦
            let i =
              finish-IsBlocking (finish_input payload now res to) open' repo s.db after q fq u there
                e in
            rw (end_held, kind, e)
              (IsBlocking-same repo res.run_id after _
                (after_end-SameRuns payload is_init now agent res run
                  (status_after payload is_init res run to) (record s { db = after }))
                i)
        | inr (c, e) ↦ rw (end_held, kind, e) before
      ]

-- Whatever the driver does, a result that is no success and reports no phase of a safe end leaves
-- the repository of a restore blocked for every other run, if the restore's request was in an
-- unsafe phase before.
pub handle_run_result-keeps_block :
    (payload : String → Option (RestorePhase × String)) (is_init : String → Bool) (faults : Faults)
    (now : ℕ) (agent : String) (res : RunResult) (to : RunStatus) (run : Run) (q : RestoreRequest)
    (repo except : String) (s : Service)
    → to_status res.status ≡ some to
    → (to == succeeded) ≡ false
    → releases_occupancy (reported_by payload res.result_json).0 ≡ false
    → find_where (has_id res.run_id) s.db.runs ≡ some run
    → run.operation ≡ restore
    → find_where (of_run res.run_id) s.db.requests ≡ some q
    → is_unsafe q ≡ true
    → in_repository repo s.db res.run_id ≡ true
    → (except == "" || not (res.run_id == except)) ≡ true
    → repository_restore_blocked repo except
        (handle_run_result payload is_init faults now agent res s).1.db
      ≡ true
unfolding handle_run_result get_run
handle_run_result-keeps_block payload is_init faults now agent res to run q repo except s st fail
      open' found op fq u there x =
    let before = found-IsBlocking repo res.run_id s.db q fq u there in
    let handled : IsBlocking repo res.run_id
        (handle_run_result payload is_init faults now agent res s).1.db =
      elim (Option-cases faults.read_run) [
        | inr (c, e) ↦ rw (handle_run_result, st, e) before
        | inl e ↦ elim (Bool-cases (run.agent_id == agent)) [
          | inr f ↦ rw (handle_run_result, st, e, found, f) before
          | inl f ↦
              rw (handle_run_result, st, e, found, f)
                (held-IsBlocking payload is_init faults now agent res to run q repo s
                  (outcome-open payload is_init res to st fail open') op fq u there)
        ]
      ] in
    IsBlocking-blocks repo except res.run_id _ x handled
