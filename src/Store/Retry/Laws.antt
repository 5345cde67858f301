-- ===== src/Store/Retry/Laws.antt =====
-- How a retried transaction ends (internal/server/store/sqlite.go).
use native.Mathlib.Decide.{dec_lt}
use backup_management_center.Common.{
  ℕ, zero, suc, ◌+◌, ◌≤◌, ◌<◌, ◌≡◌, subst, Bool, false, ◌⊎◌, inl, inr, arith, Bool-cases, ltb, ◌&&◌,
}
use backup_management_center.Store.Outcome.{
  StoreErr, Outcome, ok, err, busy, is_sqlite_busy, Outcome-cases,
}
use backup_management_center.Store.Retry.{retry_loop, retry_on_busy}

-- The outcome is no lock conflict, so no attempt follows it.
abbrev pub IsSettled {ℓ} : {A : Type ℓ} → Outcome A → Type ℓ
IsSettled r = (e : StoreErr) → r ≡ err e → is_sqlite_busy e ≡ false

module _ {ℓ} {A : Type ℓ} (done : ℕ → Bool) (fn : ℕ → Outcome A) (r : Outcome A)
    (settled : IsSettled r) where
  retry_loop-settled :
      (left attempt : ℕ) (last : Outcome A)
      → done attempt ≡ false
      → fn attempt ≡ r
      → retry_loop done fn (suc left) attempt last ≡ r
  unfolding retry_loop
  retry_loop-settled left attempt last on h = elim (Outcome-cases r) [
    | inl (a, e) ↦ ground arith
    | inr (x, e) ↦ ground (arith, settled x)
  ]

  retry_loop-settles :
      (left attempt t : ℕ) (last : Outcome A)
      → attempt ≤ t
      → t < attempt + left
      → ((j : ℕ) → j ≤ t → done j ≡ false)
      → ((j : ℕ) → attempt ≤ j → j < t → (fn j ≡ err busy) ⊎ (fn j ≡ r))
      → fn t ≡ r
      → retry_loop done fn left attempt last ≡ r
  unfolding retry_loop
  retry_loop-settles zero attempt t last a b on before h = absurd (omega arith)
  retry_loop-settles (suc left) attempt t last a b on before h = elim (dec_lt attempt t) [
    | yes earlier ↦ elim (before attempt (omega arith) earlier) [
      | inl e ↦ ground (
        arith,
        on attempt (omega arith),
        retry_loop-settles left (suc attempt) t (err busy) (omega arith) (omega arith) on
            (λ (j : ℕ) (p : suc attempt ≤ j) (q : j < t). before j (omega arith) q) h,
      )
      | inr e ↦ retry_loop-settled left attempt last (on attempt (omega arith)) e
    ]
    | no late ↦
        retry_loop-settled left attempt last (on attempt (omega arith))
          (subst (λ k. fn k ≡ r) (omega arith) h)
  ]

  -- If the attempts before attempt k were busy, or ended as it does, fewer than all are used up by
  -- then, and the context is not done so far, the whole ends as attempt k.
  pub retry_on_busy-settles :
      (before : A) (attempts k : ℕ)
      → k < attempts
      → ((j : ℕ) → j ≤ k → done j ≡ false)
      → ((j : ℕ) → j < k → (fn j ≡ err busy) ⊎ (fn j ≡ r))
      → fn k ≡ r
      → retry_on_busy done attempts before fn ≡ r
  unfolding retry_on_busy
  retry_on_busy-settles before attempts k b on earlier h =
      retry_loop-settles attempts 0 k (ok before) (omega arith) (omega arith) on
        (λ j p q. earlier j q) h

module _ {ℓ} {A : Type ℓ} (done : ℕ → Bool) (fn : ℕ → Outcome A) (a : A) where
  retry_loop-ok :
      (left attempt : ℕ) (e : StoreErr)
      → retry_loop done fn left attempt (err e) ≡ ok a
      → (k : ℕ) × (fn k ≡ ok a)
  unfolding retry_loop
  retry_loop-ok zero attempt e h = absurd (ground arith)
  retry_loop-ok (suc left) attempt e h = elim (Outcome-cases (fn attempt)) [
    | inl (b, f) ↦ (attempt, ground arith)
    | inr (x, f) ↦ elim (Bool-cases (ltb 0 attempt && done attempt)) [
      | inl c ↦ absurd (ground arith)
      | inr c ↦ elim (Bool-cases (is_sqlite_busy x)) [
        | inl y ↦ retry_loop-ok left (suc attempt) x (rw (c, f, y) at h)
        | inr y ↦ absurd (ground arith)
      ]
    ]
  ]

  -- A retried write that succeeded did so in one of its attempts.
  pub retry_on_busy-ok :
      (attempts : ℕ) (before : A)
      → retry_on_busy done (suc attempts) before fn ≡ ok a
      → (k : ℕ) × (fn k ≡ ok a)
  unfolding retry_on_busy retry_loop
  retry_on_busy-ok attempts before h = elim (Outcome-cases (fn 0)) [
    | inl (b, f) ↦ (0, ground arith)
    | inr (x, f) ↦ elim (Bool-cases (is_sqlite_busy x)) [
      | inl y ↦ retry_loop-ok attempts 1 x (rw (f, y) at h)
      | inr y ↦ absurd (ground arith)
    ]
  ]
