-- ===== src/Model/Types.antt =====
-- Rows of the tables that the server keeps (the structs of internal/model/model.go).
-- A text column that may be NULL is a text, with "" for NULL, as `nullString` and the scans of
-- the store have it; a time is a number of seconds, the resolution at which RFC 3339 keeps it.
use backup_management_center.Common.{ℕ, String, Bool, Option, List}
use backup_management_center.Model.Kind.{Kind, Operation}
use backup_management_center.Model.Status.{RunStatus}
use backup_management_center.Model.Phase.{RestorePhase}

-- `Run`
pub record Run : Type 0 where
  pub id : String
  pub plan_id : String
  pub agent_id : String
  pub operation : Operation
  pub status : RunStatus
  pub queued_at : ℕ
  pub started_at : Option ℕ
  pub finished_at : Option ℕ
  pub progress_json : String
  pub snapshot_id : String
  pub error_code : String
  pub error_message : String
  pub repository_id : String
  pub attempt : ℕ
  pub lease_expires_at : Option ℕ
  pub scheduled_at : Option ℕ
  pub dedup_key : String

-- `RestoreRequest`; the target is its JSON text.
pub record RestoreRequest : Type 0 where
  pub id : String
  pub run_id : String
  pub snapshot_id : String
  pub restore_kind : Kind
  pub target_json : String
  pub overwrite : Bool
  pub confirmation_hash : String
  pub pre_restore_run_id : String
  pub rollback_snapshot_id : String
  pub phase : RestorePhase
  pub created_at : ℕ

-- `Snapshot`, of which the store reads the identifier and the tags.
pub record Snapshot : Type 0 where
  pub id : String
  pub time : String
  pub host : String
  pub tags : List String
  pub paths : List String

-- `SnapshotDeletionSource`
pub data DeletionSource : Type 0 where
  manual orphan : DeletionSource

-- `SnapshotDeletionState`
pub data DeletionState : Type 0 where
  candidate pending running succeeded : DeletionState

-- `SnapshotDeletion`
pub record SnapshotDeletion : Type 0 where
  pub id : String
  pub repository_id : String
  pub agent_id : String
  pub snapshot_id : String
  pub source : DeletionSource
  pub state : DeletionState
  pub first_seen_at : ℕ
  pub last_seen_at : ℕ
  pub seen_count : ℕ
  pub next_attempt_at : Option ℕ
  pub attempt : ℕ
  pub run_id : String
  pub lease_expires_at : Option ℕ
  pub error_code : String
  pub error_message : String
  pub requested_by : String
  pub created_at : ℕ
  pub updated_at : ℕ
  pub completed_at : Option ℕ

-- `SnapshotCleanupState`; `none` for a NULL `scan_run_id`.
pub record CleanupState : Type 0 where
  pub repository_id : String
  pub scan_run_id : Option String
  pub last_scan_started_at : Option ℕ
  pub last_scan_completed_at : Option ℕ
  pub next_attempt_at : Option ℕ
  pub updated_at : ℕ

-- `AuditEvent`
pub record AuditEvent : Type 0 where
  pub occurred_at : ℕ
  pub actor_id : String
  pub action : String
  pub resource_id : String
  pub detail_json : String

-- `Agent`; `online` is `AgentStatus`, and the tools and mappings are in the capabilities' JSON.
pub record Agent : Type 0 where
  pub id : String
  pub name : String
  pub hostname : String
  pub os : String
  pub arch : String
  pub version : String
  pub online : Bool
  pub last_seen_at : Option ℕ
  pub enrolled_at : ℕ
  pub token_hash : String
  pub capabilities_json : String
  pub revoked : Bool

-- `EnrollmentToken`
pub record EnrollmentToken : Type 0 where
  pub id : String
  pub token_hash : String
  pub expires_at : ℕ
  pub used_at : Option ℕ
  pub target_agent_id : String

-- `Session`
pub record Session : Type 0 where
  pub id_hash : String
  pub admin_id : String
  pub expires_at : ℕ
  pub created_at : ℕ
  pub last_seen_at : ℕ

-- `Plan`, of which the source and the retention are JSON.
pub record Plan : Type 0 where
  pub id : String
  pub name : String
  pub agent_id : String
  pub kind : Kind
  pub schedule : String
  pub timezone : String
  pub enabled : Bool
  pub source_json : String
  pub repository_id : String
  pub retention_json : String
  pub timeout_seconds : ℕ
