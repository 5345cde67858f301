-- ===== src/Model/ExtraArgs.antt =====
-- `AllowedExtraArgs`, `AllowedExtraArgPrefixes` and `ValidateExtraArgs` of internal/model/model.go.
use Prim.Native.String.{len}
use text.Mathlib.Text.{starts_with}
use backup_management_center.Common.{
  String, Bool, ◌&&◌, List, [], ◌∷◌, Option, none, some, ltb, member, any_where, string_eq,
  if◌then◌else◌,
}
use backup_management_center.Model.Text.{is_blank}
use backup_management_center.Model.Kind.{Kind, postgresql, mysql}

abbrev pub allowed_extra_args : Kind → List String
allowed_extra_args postgresql =
    "--no-owner" ∷ "--no-privileges" ∷ "--no-acl" ∷ "--blobs" ∷ "--no-comments"
    ∷ "--no-publications" ∷ "--no-subscriptions" ∷ "--no-security-labels" ∷ "--inserts" ∷ []
allowed_extra_args mysql =
    "--single-transaction" ∷ "--quick" ∷ "--routines" ∷ "--skip-routines" ∷ "--events"
    ∷ "--skip-events" ∷ "--triggers" ∷ "--skip-triggers" ∷ "--hex-blob" ∷ "--skip-lock-tables" ∷ []
allowed_extra_args _ = []

abbrev pub allowed_extra_arg_prefixes : Kind → List String
allowed_extra_arg_prefixes mysql = "--tables=" ∷ "--ignore-table=" ∷ []
allowed_extra_arg_prefixes _ = []

-- The test of the inner loop: a proper prefix.
abbrev pub extends : String → String → Bool
extends arg p = starts_with arg p && ltb (len p) (len arg)

-- The loop over the arguments: `some arg` is the error that names the first refused option.
unfoldable pub validate_extra_args : Kind → List String → Option String
validate_extra_args kind [] = none
validate_extra_args kind (arg ∷ args) =
    let rest = validate_extra_args kind args in
    if is_blank arg
    then some arg
    else if member arg (allowed_extra_args kind)
    then rest
    else if any_where (extends arg) (allowed_extra_arg_prefixes kind)
    then rest
    else some arg
