-- ===== src/Service/Reports.antt =====
-- The result of a run that an agent reports, and what is concluded from it for a restore
-- (internal/server/agentreg/service.go).
use Prim.Native.String.{◌++◌}
use backup_management_center.Common.{
  ℕ, String, Bool, true, false, ◌||◌, Option, none, some, List, [], ◌∷◌, ◌==◌, string_eq,
  if◌then◌else◌,
}
use backup_management_center.Model.Kind.{operation_eq}
use backup_management_center.Model.Status.{RunStatus, succeeded, failed, cancelled, status_eq}
use backup_management_center.Model.Phase.{RestorePhase, phase_eq}
use backup_management_center.Model.Phase as Phase
use backup_management_center.Model.Types.{Run}
use backup_management_center.Store.Restores.{FinishInput}

-- `RunResult_Status`
pub data ReportedStatus : Type 0 where
  reported_succeeded reported_failed reported_cancelled reported_unknown : ReportedStatus

-- `RunResult`
pub record RunResult : Type 0 where
  pub run_id : String
  pub status : ReportedStatus
  pub snapshot_ids : List String
  pub error_code : String
  pub error_message : String
  pub result_json : String

abbrev pub to_status : ReportedStatus → Option RunStatus
to_status reported_succeeded = some succeeded
to_status reported_failed = some failed
to_status reported_cancelled = some cancelled
to_status reported_unknown = none

abbrev pub first_id : List String → String
first_id [] = ""
first_id (id ∷ ids) = id

-- `terminalRunLog`
unfoldable pub terminal_run_log : Run → String × String
terminal_run_log r =
    if r.status == succeeded
    then ("info", if r.snapshot_id == "" then "运行成功" else "运行成功，快照 " ++ r.snapshot_id)
    else if r.status == failed
    then (
      "error",
      if r.error_message == ""
          then "运行失败：[" ++ r.error_code ++ "]"
          else "运行失败：[" ++ r.error_code ++ "] " ++ r.error_message,
    )
    else ("warn", "运行已取消")

-- The phases that `restoreResultOutcome` takes from the agent.
abbrev pub is_conclusive : RestorePhase → Bool
is_conclusive Phase.succeeded = true
is_conclusive Phase.failed = true
is_conclusive Phase.pre_backup_failed = true
is_conclusive Phase.rolled_back = true
is_conclusive Phase.new_target_cleaned = true
is_conclusive Phase.rollback_failed = true
is_conclusive Phase.manual_recovery_needed = true
is_conclusive _ = false

-- The results of `restoreResultOutcome`.
pub record RestoreOutcome : Type 0 where
  pub phase : RestorePhase
  pub rollback_snapshot_id : String
  pub error_code : String

-- A failed rollback is shown as a failure.
abbrev pub shown_status : RestoreOutcome → RunStatus → RunStatus
shown_status o to = if o.phase == Phase.rollback_failed then failed else to

-- `payload` reads the phase and the rollback snapshot out of a result's JSON; `none` if that does
-- not parse.
module _ (payload : String → Option (RestorePhase × String)) where
  abbrev pub reported_by : String → RestorePhase × String
  reported_by json =
      if json == ""
      then (Phase.unset, "")
      else elim (payload json) [ none ↦ (Phase.unset, "") | some p ↦ p ]

  -- `restoreResultOutcome`
  unfoldable pub restore_result_outcome : RunResult → RunStatus → RestoreOutcome
  restore_result_outcome res to =
      let reported = reported_by res.result_json in
      if is_conclusive reported.0
      then record {
        phase = reported.0;
        rollback_snapshot_id = reported.1;
        error_code = res.error_code;
      }
      else if to == failed || to == cancelled
      then record {
        phase = Phase.manual_recovery_needed;
        rollback_snapshot_id = reported.1;
        error_code = if res.error_code == "" then "rollback_failed" else res.error_code;
      }
      else record {
        phase = Phase.succeeded;
        rollback_snapshot_id = reported.1;
        error_code = res.error_code;
      }

  abbrev pub finish_input : ℕ → RunResult → RunStatus → FinishInput
  finish_input now res to =
      let o = restore_result_outcome res to in
      record {
        run_id = res.run_id;
        from_statuses = [];
        to_status = shown_status o to;
        error_code = if o.phase == Phase.rollback_failed then "rollback_failed" else o.error_code;
        error_message = res.error_message;
        snapshot_id = first_id res.snapshot_ids;
        result_json = res.result_json;
        phase = o.phase;
        rollback_snapshot_id = o.rollback_snapshot_id;
        finished_at = now;
      }
