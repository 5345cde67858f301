-- ===== src/Common/Table.antt =====
-- Database tables as lists of rows: what the statements of internal/server/store do to them.
use Prim.Native.Nat.{ℕ, zero, suc}
use mathlib.Core.Bool.{Bool, true, false, ◌&&◌, ◌||◌}
use mathlib.Core.Option.{Option, none, some}
use mathlib.Core.List.{List, [], ◌∷◌, map}
use backup_management_center.Common.Tests.{if◌then◌else◌}
use backup_management_center.Common.Equality.{Eq, ◌==◌}

module _ {ℓ} {A : Type ℓ} where
  abbrev pub length : List A → ℕ
  length [] = 0
  length (x ∷ xs) = suc (length xs)

  -- `SELECT … WHERE p` of the first row.
  abbrev pub find_where : (A → Bool) → List A → Option A
  find_where p [] = none
  find_where p (x ∷ xs) = if p x then some x else find_where p xs

  -- `SELECT … WHERE p` of all rows.
  abbrev pub select_where : (A → Bool) → List A → List A
  select_where p [] = []
  select_where p (x ∷ xs) = if p x then x ∷ select_where p xs else select_where p xs

  -- Whether a row meets `p`.
  abbrev pub any_where : (A → Bool) → List A → Bool
  any_where p [] = false
  any_where p (x ∷ xs) = p x || any_where p xs

  -- Whether all rows meet `p`.
  abbrev pub all_where : (A → Bool) → List A → Bool
  all_where p [] = true
  all_where p (x ∷ xs) = p x && all_where p xs

  -- `SELECT COUNT(*) … WHERE p`.
  abbrev pub count_where : (A → Bool) → List A → ℕ
  count_where p [] = 0
  count_where p (x ∷ xs) = if p x then suc (count_where p xs) else count_where p xs

  -- `DELETE … WHERE p`.
  abbrev pub delete_where : (A → Bool) → List A → List A
  delete_where p [] = []
  delete_where p (x ∷ xs) = if p x then delete_where p xs else x ∷ delete_where p xs

  -- One row of `UPDATE … SET f WHERE p`.
  abbrev pub on_where : (A → Bool) → (A → A) → A → A
  on_where p f x = if p x then f x else x

  -- `UPDATE … SET f WHERE p`.
  abbrev pub update_where : (A → Bool) → (A → A) → List A → List A
  update_where p f xs = map (on_where p f) xs

  -- `LIMIT n`.
  abbrev pub take : ℕ → List A → List A
  take zero xs = []
  take (suc n) [] = []
  take (suc n) (x ∷ xs) = x ∷ take n xs

  -- `OFFSET n`.
  abbrev pub skip : ℕ → List A → List A
  skip zero xs = xs
  skip (suc n) [] = []
  skip (suc n) (x ∷ xs) = skip n xs

module _ {ℓ} {A : Type ℓ} ⦃e : Eq A⦄ where
  -- `a IN (xs)`.
  abbrev pub member : A → List A → Bool
  member a [] = false
  member a (x ∷ xs) = a == x || member a xs
