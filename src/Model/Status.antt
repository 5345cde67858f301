-- ===== src/Model/Status.antt =====
-- Run statuses and the run state machine (internal/model/model.go, internal/server/store/sqlite.go).
use backup_management_center.Common.{ℕ, ◌≡◌, ◌↔◌, Bool, true, false, Eq, nat_beq, arith}

-- `RunQueued` and its siblings. The column `runs.status` is checked against this set.
pub data RunStatus : Type 0 where
  queued dispatched running succeeded failed cancelled : RunStatus

abbrev pub status_code : RunStatus → ℕ
status_code queued = 0
status_code dispatched = 1
status_code running = 2
status_code succeeded = 3
status_code failed = 4
status_code cancelled = 5

abbrev pub status_beq : RunStatus → RunStatus → Bool
status_beq a b = nat_beq (status_code a) (status_code b)

pub status_beq_iff : (a b : RunStatus) → (status_beq a b ≡ true) ↔ (a ≡ b)
status_beq_iff a b = ((λ h. ground arith), λ h. ground arith)

instance abbrev pub status_eq : Eq RunStatus
status_eq = record { beq = status_beq; beq_iff = status_beq_iff }

-- `validTransitions[from][to]`.
abbrev pub valid_transitions : RunStatus → RunStatus → Bool
valid_transitions queued dispatched = true
valid_transitions queued failed = true
valid_transitions queued cancelled = true
valid_transitions dispatched queued = true
valid_transitions dispatched running = true
valid_transitions dispatched succeeded = true
valid_transitions dispatched failed = true
valid_transitions dispatched cancelled = true
valid_transitions running queued = true
valid_transitions running succeeded = true
valid_transitions running failed = true
valid_transitions running cancelled = true
valid_transitions _ _ = false

-- `isTerminal`.
abbrev pub is_terminal : RunStatus → Bool
is_terminal succeeded = true
is_terminal failed = true
is_terminal cancelled = true
is_terminal _ = false

-- `status IN ('queued','dispatched','running')`.
abbrev pub is_active : RunStatus → Bool
is_active queued = true
is_active dispatched = true
is_active running = true
is_active _ = false
