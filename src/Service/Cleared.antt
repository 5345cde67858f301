-- ===== src/Service/Cleared.antt =====
-- After the end of an agent's stream nothing of it is in flight (internal/server/agentreg/service.go).
use backup_management_center.Common.{
  ℕ, String, ◌≡◌, refl, Bool, true, false, ◌||◌, some, List, [], ◌∷◌, ◌==◌, arith, string_eq,
  Bool-cases, inl, inr, All, All-weaken, NoClash, find_where, select_where, any_where,
  any_where-false, any_where-false_of, or-false, beq_self,
}
use backup_management_center.Model.Kind.{operation_eq}
use backup_management_center.Model.Status.{dispatched, running, status_eq}
use backup_management_center.Model.Types.{Run}
use backup_management_center.Store.Agents.{set_agent_status}
use backup_management_center.Store.Runs.{
  has_id, list_runs_by_status, has_status_in, clash, same_slot, same_active_task,
}
use backup_management_center.Store.Runs.Keys.{HasKeys}
use backup_management_center.Service.{Service}
use backup_management_center.Service.Disconnect.{handle_disconnect}
use backup_management_center.Service.InFlight.{
  in_flight, no_faults, same_id, disconnect_each-clears,
}

abbrev is_sent : Run → Bool
is_sent = has_status_in (dispatched ∷ running ∷ [])

All-select {ℓ κ} :
    {A : Type ℓ} (P : A → Type κ) (q : A → Bool) (xs : List A)
    → All P xs
    → All P (select_where q xs)
All-select P q [] h = tt
All-select P q (x ∷ xs) h = elim (Bool-cases (q x)) [
  | inl e ↦ rw e (h.0, All-select P q xs h.1)
  | inr e ↦ rw e (All-select P q xs h.1)
]

select_sent :
    (rows : List Run)
    → All (λ x. (x.status == dispatched || x.status == running) ≡ true) (select_where is_sent rows)
select_sent [] = tt
select_sent (x ∷ xs) = elim (Bool-cases (is_sent x)) [
  | inl e ↦ rw e (ground arith, select_sent xs)
  | inr e ↦ rw e (select_sent xs)
]

clash-apart : (x y : Run) → clash x y ≡ false → (x.id == y.id) ≡ false
clash-apart x y h =
    (or-false (x.id == y.id) (same_slot x y)
      (or-false (x.id == y.id || same_slot x y) (same_active_task x y) h).0).0

-- Rows with distinct identifiers are each found by their own.
found_self :
    (rows : List Run) → NoClash clash rows → All (λ x. find_where (has_id x.id) rows ≡ some x) rows
found_self [] u = tt
found_self (x ∷ xs) u = (
  (let self = beq_self x.id in rw self refl),
  All-weaken (λ y. (clash x y ≡ false) × (find_where (has_id y.id) xs ≡ some y))
      (λ y. find_where (has_id y.id) (x ∷ xs) ≡ some y)
      (λ y h. let apart = clash-apart x y h.0 in rw apart h.1) xs
      (both xs (any_where-false (clash x) xs u.0) (found_self xs u.1)),
)
  where
    both :
        (ys : List Run)
        → All (λ y. clash x y ≡ false) ys
        → All (λ y. find_where (has_id y.id) xs ≡ some y) ys
        → All (λ y. (clash x y ≡ false) × (find_where (has_id y.id) xs ≡ some y)) ys
    both [] p q = tt
    both (y ∷ ys) p q = ((p.0, q.0), both ys p.1 q.1)

select-distinct :
    (rows : List Run) → NoClash clash rows → NoClash same_id (select_where is_sent rows)
select-distinct [] u = tt
select-distinct (x ∷ xs) u = elim (Bool-cases (is_sent x)) [
  | inl e ↦ rw e (
    any_where-false_of (same_id x) (select_where is_sent xs) (
        All-select (λ y. same_id x y ≡ false) is_sent xs
          (All-weaken (λ y. clash x y ≡ false) (λ y. same_id x y ≡ false) (λ y h. clash-apart x y h)
            xs (any_where-false (clash x) xs u.0))),
    select-distinct xs u.1,
  )
  | inr e ↦ rw e (select-distinct xs u.1)
]

any-select {ℓ} :
    {A : Type ℓ} (p q : A → Bool) (x : A) (xs : List A)
    → any_where p (select_where q xs) ≡ true
    → any_where p (select_where q (x ∷ xs)) ≡ true
any-select p q x xs h = elim (Bool-cases (q x)) [ inl e ↦ rw e (ground arith) | inr e ↦ rw e h ]

flight_sent : (agent : String) (r : Run) → in_flight agent r ≡ true → is_sent r ≡ true
flight_sent agent r h = ground arith

select-covers :
    (agent : String) (rows : List Run)
    → All
        (λ r.
          in_flight agent r ≡ true
          → any_where (λ x. x.id == r.id) (select_where is_sent rows) ≡ true)
        rows
select-covers agent [] = tt
select-covers agent (x ∷ xs) = (
  (λ f. let e = flight_sent agent x f in let self = beq_self x.id in rw (e, self) refl),
  All-weaken
      (λ r.
        in_flight agent r ≡ true → any_where (λ y. y.id == r.id) (select_where is_sent xs) ≡ true)
      (λ r.
        in_flight agent r ≡ true
        → any_where (λ y. y.id == r.id) (select_where is_sent (x ∷ xs)) ≡ true)
      (λ r h f. any-select (λ y. y.id == r.id) is_sent x xs (h f)) xs (select-covers agent xs),
)

-- With an undisturbed driver, and no two runs that share a key, the end of an agent's stream
-- leaves no dispatched or running run of that agent except restores.
pub handle_disconnect-clears :
    (now : ℕ) (agent : String) (s : Service)
    → HasKeys s.db
    → All (λ r. in_flight agent r ≡ false) (handle_disconnect no_faults now agent s).db.runs
unfolding handle_disconnect list_runs_by_status set_agent_status
handle_disconnect-clears now agent s keys =
    disconnect_each-clears now agent (select_where is_sent s.db.runs)
      (record s { db = set_agent_status agent false now s.db })
      (record {
        keys = keys;
        sent = select_sent s.db.runs;
        listed =
            All-select (λ x. find_where (has_id x.id) s.db.runs ≡ some x) is_sent s.db.runs
              (found_self s.db.runs keys);
        distinct = select-distinct s.db.runs keys;
        covered = select-covers agent s.db.runs;
      })
