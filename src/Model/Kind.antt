-- ===== src/Model/Kind.antt =====
-- The kinds of what is backed up, and the operations of runs (the constants of internal/model/model.go).
use backup_management_center.Common.{ℕ, String, ◌≡◌, ◌↔◌, Bool, true, false, Eq, nat_beq, arith}

-- `KindFilesystem` and its siblings; `other_kind` is any other text in a kind's place.
pub data Kind : Type 0 where
  filesystem postgresql mysql mongodb sqlite other_kind : Kind

-- `OpBackup` and its siblings. The column `runs.operation` is checked against this set.
pub data Operation : Type 0 where
  backup restore restore_dry_run check forget snapshots snapshot_ls : Operation
  verify_storage_remote validate_paths probe_capabilities : Operation

abbrev pub kind_code : Kind → ℕ
kind_code filesystem = 0
kind_code postgresql = 1
kind_code mysql = 2
kind_code mongodb = 3
kind_code sqlite = 4
kind_code other_kind = 5

abbrev pub operation_code : Operation → ℕ
operation_code backup = 0
operation_code restore = 1
operation_code restore_dry_run = 2
operation_code check = 3
operation_code forget = 4
operation_code snapshots = 5
operation_code snapshot_ls = 6
operation_code verify_storage_remote = 7
operation_code validate_paths = 8
operation_code probe_capabilities = 9

abbrev pub kind_beq : Kind → Kind → Bool
kind_beq a b = nat_beq (kind_code a) (kind_code b)

pub kind_beq_iff : (a b : Kind) → (kind_beq a b ≡ true) ↔ (a ≡ b)
kind_beq_iff a b = ((λ h. ground arith), λ h. ground arith)

instance abbrev pub kind_eq : Eq Kind
kind_eq = record { beq = kind_beq; beq_iff = kind_beq_iff }

abbrev pub operation_beq : Operation → Operation → Bool
operation_beq a b = nat_beq (operation_code a) (operation_code b)

pub operation_beq_iff : (a b : Operation) → (operation_beq a b ≡ true) ↔ (a ≡ b)
operation_beq_iff a b = ((λ h. ground arith), λ h. ground arith)

instance abbrev pub operation_eq : Eq Operation
operation_eq = record { beq = operation_beq; beq_iff = operation_beq_iff }

-- `isDatabaseRestoreKind` of the dispatcher; also the list `databaseRestoreKindArgs` of the store.
abbrev pub is_database_restore_kind : Kind → Bool
is_database_restore_kind postgresql = true
is_database_restore_kind mysql = true
is_database_restore_kind mongodb = true
is_database_restore_kind sqlite = true
is_database_restore_kind _ = false

abbrev pub operation_name : Operation → String
operation_name backup = "backup"
operation_name restore = "restore"
operation_name restore_dry_run = "restore_dry_run"
operation_name check = "check"
operation_name forget = "forget"
operation_name snapshots = "snapshots"
operation_name snapshot_ls = "snapshot_ls"
operation_name verify_storage_remote = "verify_storage_remote"
operation_name validate_paths = "validate_paths"
operation_name probe_capabilities = "probe_capabilities"
