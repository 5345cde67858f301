-- ===== src/Model/SystemDatabase.antt =====
-- `SystemDatabases` and `IsSystemDatabase` of internal/model/model.go.
use backup_management_center.Common.{
  ℕ, String, Bool, true, ◌&&◌, List, [], ◌∷◌, map, any_where, ◌==◌, nat_eq, false,
}
use backup_management_center.Model.Text.{codes, to_lower}
use backup_management_center.Model.Kind.{Kind, postgresql, mysql, mongodb}

abbrev pub system_databases : Kind → List String
system_databases mysql = "mysql" ∷ "information_schema" ∷ "performance_schema" ∷ "sys" ∷ []
system_databases postgresql = "postgres" ∷ "template0" ∷ "template1" ∷ []
system_databases mongodb = "admin" ∷ "local" ∷ "config" ∷ []
system_databases _ = []

abbrev pub same_codes : List ℕ → List ℕ → Bool
same_codes [] [] = true
same_codes (a ∷ s) (b ∷ t) = a == b && same_codes s t
same_codes _ _ = false

-- MySQL compares database names without case, the others as they are.
abbrev pub folded : Kind → List ℕ → List ℕ
folded mysql name = map to_lower name
folded _ name = name

unfoldable pub is_system_database : Kind → List ℕ → Bool
is_system_database kind name =
    any_where (λ listed. same_codes (codes listed) (folded kind name)) (system_databases kind)
