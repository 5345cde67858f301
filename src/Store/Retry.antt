-- ===== src/Store/Retry.antt =====
-- `retryOnBusy` (internal/server/store/sqlite.go): a write transaction is run again while SQLite
-- answers that the database is locked. The waits between the attempts are not modelled.
pub mod Laws
use backup_management_center.Common.{ℕ, zero, suc, Bool, true, false, ◌&&◌, ltb, if◌then◌else◌}
use backup_management_center.Store.Outcome.{Outcome, ok, err, is_sqlite_busy}

-- The loop of `retryOnBusy` with `left` attempts to go; `last` is what the last one returned.
pub retry_loop {ℓ} : {A : Type ℓ} → (ℕ → Bool) → (ℕ → Outcome A) → ℕ → ℕ → Outcome A → Outcome A
retry_loop ctx_done fn zero attempt last = last
retry_loop ctx_done fn (suc left) attempt last =
    if ltb 0 attempt && ctx_done attempt then last else elim (fn attempt) [
      | ok a ↦ ok a
      | err e ↦ elim (is_sqlite_busy e) [
        | true ↦ retry_loop ctx_done fn left (suc attempt) (err e)
        | false ↦ err e
      ]
    ]

-- `retryOnBusy`, from the `nil` error that stands before the first attempt.
unfoldable pub retry_on_busy {ℓ} : {A : Type ℓ} → (ℕ → Bool) → ℕ → A → (ℕ → Outcome A) → Outcome A
unfolding retry_loop
retry_on_busy ctx_done attempts before fn = retry_loop ctx_done fn attempts 0 (ok before)

abbrev pub busy_retry_attempts : ℕ
busy_retry_attempts = 8
