-- ===== src/Service/Outcomes.antt =====
-- What the service may conclude from the result of a restore (internal/server/agentreg/service.go).
use backup_management_center.Common.{
  String, ◌≡◌, true, false, ◌&&◌, ◌||◌, not, Option, some, ◌==◌, arith, Bool-cases, inl, inr,
}
use backup_management_center.Model.Status.{RunStatus, succeeded, failed, cancelled, status_eq}
use backup_management_center.Model.Phase.{
  RestorePhase, phase_eq, phase_beq_self, releases_occupancy, needs_manual_resolution,
}
use backup_management_center.Model.Phase as Phase
use backup_management_center.Service.Reports.{
  RunResult, to_status, reported_by, is_conclusive, restore_result_outcome,
}

conclusive-not_done :
    (p : RestorePhase) → is_conclusive p ≡ true → (p == Phase.manual_recovery_done) ≡ false
conclusive-not_done p h = ground arith

same_released :
    (p : RestorePhase) (to : RunStatus)
    → (releases_occupancy p && not (p == p) && not (to == succeeded)) ≡ false
same_released p to = rw (phase_beq_self p) (ground arith)

-- The phase that the service concludes for a restore is one that lets other restores on only if the
-- agent reported that very phase or a success, and it is never the one for a recovery that an
-- operator has confirmed; a result that is no success and comes with no conclusive phase leads to
-- manual recovery.
pub restore_result_outcome-cautious :
    (payload : String → Option (RestorePhase × String)) (res : RunResult) (to : RunStatus)
    → to_status res.status ≡ some to
    → ((releases_occupancy (restore_result_outcome payload res to).phase
          && not (
              (reported_by payload res.result_json).0
              == (restore_result_outcome payload res to).phase)
          && not (to == succeeded))
        ≡ false)
      × (((restore_result_outcome payload res to).phase == Phase.manual_recovery_done) ≡ false)
      × ((not (to == succeeded)
            && not (is_conclusive (reported_by payload res.result_json).0)
            && not ((restore_result_outcome payload res to).phase == Phase.manual_recovery_needed))
          ≡ false)
unfolding restore_result_outcome
restore_result_outcome-cautious payload res to h =
    elim (Bool-cases (is_conclusive (reported_by payload res.result_json).0)) [
      | inl e ↦ rw e (
        same_released (reported_by payload res.result_json).0 to,
        conclusive-not_done _ e,
        ground arith,
      )
      | inr e ↦ rw e (elim (Bool-cases (to == failed || to == cancelled)) [
        | inl f ↦ rw f (ground arith, ground arith, ground arith)
        | inr f ↦ rw f (ground arith, ground arith, ground arith)
      ])
    ]
