-- ===== src/Store/Restores/Phases.antt =====
-- Which phases a restore request may pass through (internal/model/model.go,
-- internal/server/store/sqlite.go).
use backup_management_center.Common.{
  String, ◌≡◌, refl, true, false, ◌&&◌, not, ◌==◌, arith, string_eq, member, if◌then◌else◌,
  Bool-cases, inl, inr,
}
use backup_management_center.Model.Phase.{
  RestorePhase, unset, succeeded, phase_eq, releases_occupancy, is_terminal,
  member-restore_safe_phases, phase_beq_iff,
}
use backup_management_center.Model.Types.{RestoreRequest}
use backup_management_center.Store.Restores.{blocked_phases, merged_phase, is_unsafe, may_advance}

-- The list of `UpdateRestorePhase` and `RequestRestoreStop` holds exactly the terminal phases.
pub member-blocked_phases : (p : RestorePhase) → member p blocked_phases ≡ is_terminal p
member-blocked_phases succeeded = refl
member-blocked_phases _ = refl

pub is_unsafe_lem : (q : RestoreRequest) → is_unsafe q ≡ not (releases_occupancy q.phase)
is_unsafe_lem q = rw (member-restore_safe_phases q.phase)

pub may_advance_lem :
    (id : String) (q : RestoreRequest)
    → may_advance id q ≡ (q.run_id == id && not (is_terminal q.phase))
may_advance_lem id q = rw (member-blocked_phases q.phase)

-- A terminal phase is not rewritten by a result that arrives later, whatever it reports.
pub merged_phase-terminal :
    (current reported : RestorePhase)
    → is_terminal current ≡ true
    → merged_phase current reported ≡ current
merged_phase-terminal current reported h = ground (arith, phase_beq_iff current reported)

-- Any other phase gives way to a reported one, and stays if none is reported.
pub merged_phase-open :
    (current reported : RestorePhase)
    → is_terminal current ≡ false
    → merged_phase current reported ≡ (if reported == unset then current else reported)
merged_phase-open current reported h = ground arith

pub merged_phase_idem :
    (current reported : RestorePhase)
    → merged_phase (merged_phase current reported) reported ≡ merged_phase current reported
merged_phase_idem current reported =
    elim (Bool-cases (is_terminal (merged_phase current reported))) [
      | inl e ↦ merged_phase-terminal (merged_phase current reported) reported e
      | inr e ↦ ground (
        arith,
        merged_phase-open current reported,
        merged_phase-terminal current reported,
        merged_phase-open (merged_phase current reported) reported,
      )
    ]
