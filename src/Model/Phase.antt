-- ===== src/Model/Phase.antt =====
-- Phases of a restore request (internal/model/model.go).
use backup_management_center.Common.{
  ℕ, String, ◌≡◌, refl, ap, ◌↔◌, Bool, true, false, ◌||◌, List, [], ◌∷◌, ◌==◌, Eq, eq_iff, nat_beq,
  string_eq, subst, arith, member,
}

-- `RestorePhaseQueued` and its siblings; `unset` is the empty text, and `other` any further text
-- that an agent may report as its progress phase.
pub data RestorePhase : Type 0 where
  unset queued running pre_backup restoring rolling_back cancelling succeeded : RestorePhase
  failed pre_backup_failed rolled_back new_target_cleaned : RestorePhase
  rollback_failed manual_recovery_needed manual_recovery_done : RestorePhase
  other : String → RestorePhase

abbrev pub phase_code : RestorePhase → ℕ
phase_code unset = 0
phase_code queued = 1
phase_code running = 2
phase_code pre_backup = 3
phase_code restoring = 4
phase_code rolling_back = 5
phase_code cancelling = 6
phase_code succeeded = 7
phase_code failed = 8
phase_code pre_backup_failed = 9
phase_code rolled_back = 10
phase_code new_target_cleaned = 11
phase_code rollback_failed = 12
phase_code manual_recovery_needed = 13
phase_code manual_recovery_done = 14
phase_code (other s) = 15

abbrev pub phase_beq : RestorePhase → RestorePhase → Bool
phase_beq (other s) (other t) = s == t
phase_beq a b = nat_beq (phase_code a) (phase_code b)

phase_of_beq : (a b : RestorePhase) → phase_beq a b ≡ true → a ≡ b
phase_of_beq (other s) (other t) h = ap other ((eq_iff s t).0 h)
phase_of_beq a b h = ground arith

pub phase_beq_self : (a : RestorePhase) → phase_beq a a ≡ true
phase_beq_self (other s) = (eq_iff s s).1 refl
phase_beq_self a = refl

pub phase_beq_iff : (a b : RestorePhase) → (phase_beq a b ≡ true) ↔ (a ≡ b)
phase_beq_iff a b = (phase_of_beq a b, λ h. subst (λ c. phase_beq a c ≡ true) h (phase_beq_self a))

instance abbrev pub phase_eq : Eq RestorePhase
phase_eq = record { beq = phase_beq; beq_iff = phase_beq_iff }

-- `RestorePhaseReleasesOccupancy`: the phases of a restore that ended safely.
abbrev pub releases_occupancy : RestorePhase → Bool
releases_occupancy succeeded = true
releases_occupancy failed = true
releases_occupancy pre_backup_failed = true
releases_occupancy rolled_back = true
releases_occupancy new_target_cleaned = true
releases_occupancy manual_recovery_done = true
releases_occupancy _ = false

-- `RestoreSafePhases`: the same phases, listed for `IN` and `NOT IN`.
abbrev pub restore_safe_phases : List RestorePhase
restore_safe_phases =
    succeeded ∷ failed ∷ pre_backup_failed ∷ rolled_back ∷ new_target_cleaned ∷ manual_recovery_done
    ∷ []

-- `RestorePhaseNeedsManualResolution`.
abbrev pub needs_manual_resolution : RestorePhase → Bool
needs_manual_resolution p = p == manual_recovery_needed || p == rollback_failed

-- `RestorePhaseIsTerminal`.
abbrev pub is_terminal : RestorePhase → Bool
is_terminal p = releases_occupancy p || p == rollback_failed || p == manual_recovery_needed

-- The two spellings of the safe phases agree, on every text that a phase can be.
pub member-restore_safe_phases :
    (p : RestorePhase) → member p restore_safe_phases ≡ releases_occupancy p
member-restore_safe_phases succeeded = refl
member-restore_safe_phases _ = refl
