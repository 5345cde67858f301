-- ===== src/Store/Steps/Life.antt =====
-- What may become of one run under everything that writes its table (internal/server/store/sqlite.go).
use backup_management_center.Common.{
  String, ◌≡◌, refl, inl, inr, Bool, true, some, List, string_eq, All, All-found, All-delete_where,
  find_where, find_where-some, find_where-none, any_where, delete_where, Option-cases,
}
use backup_management_center.Model.Types.{Run}
use backup_management_center.Store.Db.{Db}
use backup_management_center.Store.Runs.{has_id}
use backup_management_center.Store.Steps.{StoreSteps, here, next}
use backup_management_center.Store.Steps.Effects.{Outlives}

-- The row that a key finds, after a deletion that leaves a row with the key.
pub find-delete_there {ℓ} :
    {A : Type ℓ} (key p : A → Bool) (rows : List A) (a : A)
    → All (λ y. key y ≡ true → y ≡ a) rows
    → any_where key (delete_where p rows) ≡ true
    → find_where key (delete_where p rows) ≡ some a
find-delete_there key p rows a only there =
    elim (Option-cases (find_where key (delete_where p rows))) [
      | inl e ↦ absurd (cc (there, find_where-none key (delete_where p rows) e))
      | inr (b, e) ↦
          let is_a : b ≡ a =
            All-found (λ y. key y ≡ true → y ≡ a) key (delete_where p rows) b
              (All-delete_where (λ y. key y ≡ true → y ≡ a) p rows only) e
              (find_where-some key (delete_where p rows) b e) in
          rw (e, is_a) refl
    ]

-- The run is there, as a later state of `r`.
abbrev pub LivesOn : String → Run → Db → Type 0
LivesOn id r db = (s : Run) × (find_where (has_id id) db.runs ≡ some s) × Outlives r s

-- The run is in the table after each step.
abbrev pub Remains : {start db : Db} → String → StoreSteps start db → Type 0
Remains id here = Unit
Remains id (next {db' = db'} steps step) =
    Remains id steps × (any_where (has_id id) db'.runs ≡ true)
