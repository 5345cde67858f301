-- ===== src/Store/Outcome.antt =====
-- Errors as values: the sentinels of internal/server/store/store.go, and what the database
-- driver itself may answer.
use backup_management_center.Common.{
  ◌≡◌, refl, ◌⊎◌, inl, inr, Bool, true, false, Option, none, some,
}

pub data StoreErr : Type 0 where
  not_found duplicate_run invalid_transition token_invalid in_use : StoreErr
  cache_generation_changed database_restore_busy restore_conflict restore_target_busy : StoreErr
  -- `model.ErrAgentRevoked`, returned as an error's text.
  agent_revoked : StoreErr
  -- SQLITE_BUSY, a NULL read into a text, a violated reference, JSON that does not parse, and any
  -- other error of the driver.
  busy null_scan foreign_key bad_json driver_error : StoreErr

pub data Outcome {ℓ} (A : Type ℓ) : Type ℓ where
  ok : A → Outcome A
  err : StoreErr → Outcome A

infixl 5 ◌>>=◌ ◌>>◌
abbrev pub ◌>>=◌ {ℓ κ} : {A : Type ℓ} {B : Type κ} → Outcome A → (A → Outcome B) → Outcome B
ok a >>= f = f a
err e >>= f = err e

abbrev pub ◌>>◌ {ℓ} : {B : Type ℓ} → Outcome (Unit {0}) → Outcome B → Outcome B
m >> k = m >>= λ _. k

-- An early `return err` unless the test passes.
abbrev pub require : Bool → StoreErr → Outcome (Unit {0})
require true e = ok tt
require false e = err e

-- A row that a query found, or the error for no row.
abbrev pub or_err {ℓ} : {A : Type ℓ} → StoreErr → Option A → Outcome A
or_err e none = err e
or_err e (some a) = ok a

-- The state after a transaction: what it wrote, or the state before it after a rollback.
abbrev pub settle {ℓ} : {A : Type ℓ} → A → Outcome A → A
settle before (ok after) = after
settle before (err e) = before

-- `isSQLiteBusy`.
abbrev pub is_sqlite_busy : StoreErr → Bool
is_sqlite_busy busy = true
is_sqlite_busy _ = false

pub Outcome-cases {ℓ} :
    {A : Type ℓ} (o : Outcome A) → ((a : A) × (o ≡ ok a)) ⊎ ((e : StoreErr) × (o ≡ err e))
Outcome-cases (ok a) = inl (a, refl)
Outcome-cases (err e) = inr (e, refl)
