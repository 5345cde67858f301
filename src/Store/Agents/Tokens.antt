-- ===== src/Store/Agents/Tokens.antt =====
-- What a token and an agent's secret are good for (internal/server/store/sqlite.go).
use backup_management_center.Common.{
  ℕ, String, ◌≡◌, refl, inl, inr, Bool, true, false, ◌||◌, not, List, [], ◌∷◌, ◌==◌, arith, eq_iff,
  string_eq, All, All-of, All-weaken, All-update_where, NoClash, find_where, update_where,
  any_where, or-false, Bool-cases, Option-cases, any_where-false_of,
}
use backup_management_center.Model.Types.{EnrollmentToken}
use backup_management_center.Store.Outcome.{ok, err, token_invalid}
use backup_management_center.Store.Db.{Db}
use backup_management_center.Store.Agents.{
  has_hash, is_used, usable, used_token, create_enrollment_token, consume_enrollment_token,
}

-- One operation on the tokens.
pub data TokenStep (db : Db) : Db → Type 0 where
  created :
      {db' : Db} (t : EnrollmentToken) → create_enrollment_token t db ≡ ok db' → TokenStep db db'
  consumed :
      {db' : Db} (hash : String) (now : ℕ) (t : EnrollmentToken)
      → consume_enrollment_token hash now db ≡ ok (t, db')
      → TokenStep db db'

pub data TokenSteps (start : Db) : Db → Type 0 where
  here : TokenSteps start start
  next : {db db' : Db} → TokenSteps start db → TokenStep db db' → TokenSteps start db'

abbrev pub same_hash : EnrollmentToken → EnrollmentToken → Bool
same_hash a b = a.token_hash == b.token_hash

-- The token with this hash is there, and used.
pub record IsSpent (hash : String) (db : Db) : Type 0 where
  pub there : any_where (has_hash hash) db.tokens ≡ true
  pub used : All (λ t. (not (has_hash hash t) || is_used t) ≡ true) db.tokens

spent-unusable :
    (hash : String) (now : ℕ) (rows : List EnrollmentToken)
    → All (λ t. (not (has_hash hash t) || is_used t) ≡ true) rows
    → any_where (usable hash now) rows ≡ false
spent-unusable hash now rows h = any_where-false_of (usable hash now) rows (
    All-weaken (λ t. (not (has_hash hash t) || is_used t) ≡ true) (λ t. usable hash now t ≡ false)
      (λ t u. ground arith) rows h)

any-kept :
    (hash other : String) (now : ℕ) (rows : List EnrollmentToken)
    → any_where (has_hash hash) (update_where (usable other now) (used_token now) rows)
      ≡ any_where (has_hash hash) rows
any-kept hash other now [] = refl
any-kept hash other now (t ∷ ts) = ground (arith, any-kept hash other now ts)

free_of :
    (t : EnrollmentToken) (hash : String) (rows : List EnrollmentToken)
    → any_where (has_hash t.token_hash) rows ≡ false
    → any_where (has_hash hash) rows ≡ true
    → ¬ (t.token_hash ≡ hash)
free_of t hash rows free there same =
    let clash : any_where (has_hash t.token_hash) rows ≡ true = rw same there in ground arith

refused_spent :
    (hash : String) (now : ℕ) (db : Db)
    → any_where (usable hash now) db.tokens ≡ false
    → consume_enrollment_token hash now db ≡ err token_invalid
unfolding consume_enrollment_token
refused_spent hash now db h = rw h refl

consumed-rows :
    (hash : String) (now : ℕ) (t : EnrollmentToken) (db db' : Db)
    → consume_enrollment_token hash now db ≡ ok (t, db')
    → (any_where (usable hash now) db.tokens ≡ true)
      × (db'.tokens ≡ update_where (usable hash now) (used_token now) db.tokens)
unfolding consume_enrollment_token
consumed-rows hash now t db db' h =
    elim (Option-cases
      (find_where (has_hash hash) (update_where (usable hash now) (used_token now) db.tokens))) [
        | inl e ↦ absurd (ground arith)
        | inr (u, e) ↦ (ground arith, ground arith)
      ]

created-rows :
    (t : EnrollmentToken) (db db' : Db)
    → create_enrollment_token t db ≡ ok db'
    → (any_where (has_hash t.token_hash) db.tokens ≡ false) × (db'.tokens ≡ t ∷ db.tokens)
unfolding create_enrollment_token
created-rows t db db' h = (ground arith, ground arith)

TokenStep-IsSpent :
    {db db' : Db} (hash : String) → TokenStep db db' → IsSpent hash db → IsSpent hash db'
TokenStep-IsSpent {db} {db'} hash (created t h) s =
    let (free, rows) = created-rows t db db' h in
    let other : has_hash hash t ≡ false =
      ground (arith, eq_iff t.token_hash hash, free_of t hash db.tokens free s.there) in
    rw rows (record { there = ground (arith, s.there); used = (ground arith, s.used) })
TokenStep-IsSpent {db} {db'} hash (consumed other now t h) s =
    let (hit, rows) = consumed-rows other now t db db' h in
    rw rows (record {
      there = rw (any-kept hash other now db.tokens) s.there;
      used =
          All-update_where (λ u. (not (has_hash hash u) || is_used u) ≡ true) (usable other now)
            (used_token now) db.tokens
            (All-of
              (λ u.
                usable other now u ≡ true
                → (not (has_hash hash u) || is_used u) ≡ true
                → (not (has_hash hash (used_token now u)) || is_used (used_token now u)) ≡ true)
              (λ u p q. ground arith) db.tokens)
            s.used;
    })

usable-same_hash :
    (hash : String) (now : ℕ) (x : EnrollmentToken) (xs : List EnrollmentToken)
    → has_hash hash x ≡ true
    → any_where (same_hash x) xs ≡ false
    → any_where (usable hash now) xs ≡ false
usable-same_hash hash now x [] p free = refl
usable-same_hash hash now x (y ∷ ys) p free = ground (
  arith,
  eq_iff x.token_hash hash,
  eq_iff y.token_hash hash,
  eq_iff x.token_hash y.token_hash,
  usable-same_hash hash now x ys p,
)

others-spent :
    (hash : String) (now : ℕ) (x : EnrollmentToken) (xs : List EnrollmentToken)
    → has_hash hash x ≡ true
    → any_where (same_hash x) xs ≡ false
    → All
        (λ t. (not (has_hash hash t) || is_used t) ≡ true)
        (update_where (usable hash now) (used_token now) xs)
others-spent hash now x [] p free = tt
others-spent hash now x (y ∷ ys) p free = (
  ground
      (arith, eq_iff x.token_hash hash, eq_iff y.token_hash hash, eq_iff x.token_hash y.token_hash),
  others-spent hash now x ys p (or-false (same_hash x y) (any_where (same_hash x) ys) free).1,
)

consumed-spent :
    (hash : String) (now : ℕ) (rows : List EnrollmentToken)
    → NoClash same_hash rows
    → any_where (usable hash now) rows ≡ true
    → All
        (λ t. (not (has_hash hash t) || is_used t) ≡ true)
        (update_where (usable hash now) (used_token now) rows)
consumed-spent hash now [] u h = tt
consumed-spent hash now (x ∷ xs) u h = elim (Bool-cases (has_hash hash x)) [
  | inl p ↦ (ground (arith, usable-same_hash hash now x xs p u.0), others-spent hash now x xs p u.0)
  | inr p ↦ (ground arith, consumed-spent hash now xs u.1 (ground arith))
]

usable-there :
    (hash : String) (now : ℕ) (rows : List EnrollmentToken)
    → any_where (usable hash now) rows ≡ true
    → any_where (has_hash hash) rows ≡ true
usable-there hash now [] h = h
usable-there hash now (x ∷ xs) h = ground (arith, usable-there hash now xs)

TokenSteps-IsSpent :
    {start db : Db} (hash : String) → TokenSteps start db → IsSpent hash start → IsSpent hash db
TokenSteps-IsSpent hash here s = s
TokenSteps-IsSpent hash (next steps step) s =
    TokenStep-IsSpent hash step (TokenSteps-IsSpent hash steps s)

-- An enrollment token is good once: after it was consumed, from a table whose hashes are distinct,
-- it is refused as invalid at any time, whatever tokens were created and consumed in between.
pub consume_enrollment_token-once :
    (db db' last : Db) (hash : String) (now later : ℕ) (t : EnrollmentToken)
    → NoClash same_hash db.tokens
    → consume_enrollment_token hash now db ≡ ok (t, db')
    → TokenSteps db' last
    → consume_enrollment_token hash later last ≡ err token_invalid
consume_enrollment_token-once db db' last hash now later t distinct h steps =
    let (hit, rows) = consumed-rows hash now t db db' h in
    let spent : IsSpent hash db' = rw rows (record {
      there = rw (any-kept hash hash now db.tokens) (usable-there hash now db.tokens hit);
      used = consumed-spent hash now db.tokens distinct hit;
    }) in
    refused_spent hash later last
      (spent-unusable hash later last.tokens (TokenSteps-IsSpent hash steps spent).used)
