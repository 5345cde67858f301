-- ===== src/Service/InFlight.antt =====
-- What the end of an agent's stream leaves of its runs (internal/server/agentreg/service.go).
use backup_management_center.Common.{
  ℕ, String, ◌≡◌, refl, ◌∙◌, Bool, true, false, ◌&&◌, ◌||◌, not, some, List, [], ◌∷◌, ◌==◌, arith,
  eq_iff, string_eq, Bool-cases, inl, inr, All, All-weaken, NoClash, find_where, update_where,
  any_where, or-false,
}
use backup_management_center.Model.Kind.{restore, operation_eq}
use backup_management_center.Model.Status.{
  RunStatus, queued, dispatched, running, failed, status_eq, valid_transitions,
}
use backup_management_center.Model.Types.{Run}
use backup_management_center.Store.Outcome.{ok}
use backup_management_center.Store.Db.{Db}
use backup_management_center.Store.Runs.{has_id, get_run, written, Driver, no_fault}
use backup_management_center.Store.Runs.Keys.{HasKeys, run_unique}
use backup_management_center.Store.Runs.Moves.{
  KeepsRow, Moved, get_run-Moved, HasKeys-Moved, transition_run-Moved, new_id,
}
use backup_management_center.Model.Phase.{RestorePhase}
use backup_management_center.Model.Phase as Phase
use backup_management_center.Store.Restores.{update_restore_phase}
use backup_management_center.Dispatcher.{retryable_operation}
use backup_management_center.Service.{Service}
use backup_management_center.Service.Endings.{calm-moves, found_run}
use backup_management_center.Service.Disconnect.{
  requeued_row, lost_row, requeue_run, lose_run, disconnect_run, disconnect_each,
}

-- A run that the agent has been sent, and that is no restore.
abbrev pub in_flight : String → Run → Bool
in_flight agent r =
    r.agent_id == agent
    && not (r.operation == restore)
    && (r.status == dispatched || r.status == running)

abbrev pub no_faults : String → ℕ → Driver
no_faults _ _ = no_fault

abbrev pub same_id : Run → Run → Bool
same_id a b = a.id == b.id

-- The runs that are still to be looked at: they are as they were listed, and all that are in flight
-- are among them.
pub record Pending (agent : String) (xs : List Run) (db : Db) : Type 0 where
  pub keys : HasKeys db
  pub sent : All (λ x. (x.status == dispatched || x.status == running) ≡ true) xs
  pub listed : All (λ x. find_where (has_id x.id) db.runs ≡ some x) xs
  pub distinct : NoClash same_id xs
  pub covered :
      All (λ r. in_flight agent r ≡ true → any_where (λ x. x.id == r.id) xs ≡ true) db.runs

-- A turn that leaves no run of the turn's identifier in flight.
record Turned (agent : String) (x : Run) (a b : Db) : Type 0 where
  keys : HasKeys b
  others : (id : String) → (id == x.id) ≡ false → get_run id b ≡ get_run id a
  settled :
      (xs : List Run)
      → All (λ r. in_flight agent r ≡ true → any_where (λ y. y.id == r.id) (x ∷ xs) ≡ true) a.runs
      → All (λ r. in_flight agent r ≡ true → any_where (λ y. y.id == r.id) xs ≡ true) b.runs

ended_not_in_flight :
    (agent : String) (new r : Run)
    → (new.status == dispatched || new.status == running) ≡ false
    → in_flight agent (written new r) ≡ false
ended_not_in_flight agent new r h = ground arith

-- The rows after an update by identifier, of which the written one is not in flight.
covered_after :
    (agent : String) (x new : Run) (rows : List Run) (xs : List Run)
    → (new.status == dispatched || new.status == running) ≡ false
    → All (λ r. in_flight agent r ≡ true → any_where (λ y. y.id == r.id) (x ∷ xs) ≡ true) rows
    → All
        (λ r. in_flight agent r ≡ true → any_where (λ y. y.id == r.id) xs ≡ true)
        (update_where (has_id x.id) (written new) rows)
covered_after agent x new [] xs ended c = tt
covered_after agent x new (r ∷ rs) xs ended c = elim (Bool-cases (has_id x.id r)) [
  | inl e ↦ rw e (
    (λ f. let free = ended_not_in_flight agent new r ended in absurd (cc)),
    covered_after agent x new rs xs ended c.1,
  )
  | inr e ↦ rw e (
    (λ f.
        let apart : (x.id == r.id) ≡ false = ground (arith, eq_iff r.id x.id, eq_iff x.id r.id) in
        let hit = c.0 f in
        let later : any_where (λ y. y.id == r.id) xs ≡ true = ground arith in later),
    covered_after agent x new rs xs ended c.1,
  )
]

-- Where the run is not in flight, its turn may leave the runs alone.
covered_same :
    (agent : String) (x : Run) (rows : List Run) (xs : List Run)
    → in_flight agent x ≡ false
    → All (λ r. has_id x.id r ≡ true → r ≡ x) rows
    → All (λ r. in_flight agent r ≡ true → any_where (λ y. y.id == r.id) (x ∷ xs) ≡ true) rows
    → All (λ r. in_flight agent r ≡ true → any_where (λ y. y.id == r.id) xs ≡ true) rows
covered_same agent x [] xs free u c = tt
covered_same agent x (r ∷ rs) xs free u c = elim (Bool-cases (has_id x.id r)) [
  | inl e ↦ (
    (λ f. let g : in_flight agent r ≡ false = rw (u.0 e) free in absurd (cc)),
    covered_same agent x rs xs free u.1 c.1,
  )
  | inr e ↦ (
    (λ f.
        let apart : (x.id == r.id) ≡ false = ground (arith, eq_iff r.id x.id, eq_iff x.id r.id) in
        let hit = c.0 f in ground arith),
    covered_same agent x rs xs free u.1 c.1,
  )
]

Moved-Turned :
    (agent : String) (x : Run) (to : RunStatus) (mutate : Run → Run) (a b : Db)
    → KeepsRow mutate
    → HasKeys a
    → (to == dispatched || to == running) ≡ false
    → Moved x.id x.status to mutate a b
    → Turned agent x a b
Moved-Turned agent x to mutate a b keeps keys ended m =
    let new = mutate (record m.run { status = to }) in
    let id = new_id x.id x.status to mutate keeps a b m in
    let status : new.status ≡ to = keeps.same_status (record m.run { status = to }) in
    record {
      keys = HasKeys-Moved x.id x.status to mutate keeps a b m keys;
      others = λ i apart. get_run-Moved x.id x.status to mutate keeps a b m i ∙ (rw apart refl);
      settled = λ xs c. rw (m.wrote, id) (covered_after agent x new a.runs xs (rw status ended) c);
    }

same-Turned :
    (agent : String) (x : Run) (a b : Db)
    → HasKeys a
    → find_where (has_id x.id) a.runs ≡ some x
    → in_flight agent x ≡ false
    → b.runs ≡ a.runs
    → Turned agent x a b
unfolding get_run
same-Turned agent x a b keys found free same = record {
  keys = rw same keys;
  others = λ i apart. rw same refl;
  settled =
      λ xs c. rw same (covered_same agent x a.runs xs free (run_unique x.id a.runs x keys found) c);
}

queue_valid :
    (s : RunStatus)
    → (s == dispatched || s == running) ≡ true
    → (s == s && valid_transitions s queued) ≡ true
queue_valid s h = ground arith

fail_valid :
    (s : RunStatus)
    → (s == dispatched || s == running) ≡ true
    → (s == s && valid_transitions s failed) ≡ true
fail_valid s h = ground arith

update_phase-runs :
    (id : String) (p : RestorePhase) (db : Db) → (update_restore_phase id p db).runs ≡ db.runs
unfolding update_restore_phase
update_phase-runs id p db = refl

disconnect_run-Turned :
    (now : ℕ) (agent : String) (x : Run) (s : Service)
    → HasKeys s.db
    → (x.status == dispatched || x.status == running) ≡ true
    → find_where (has_id x.id) s.db.runs ≡ some x
    → Turned agent x s.db (disconnect_run no_faults now agent x s).db
unfolding disconnect_run requeue_run lose_run
disconnect_run-Turned now agent x s keys sent found = elim (Bool-cases (x.agent_id == agent)) [
  | inr e ↦ rw (disconnect_run, e) (same-Turned agent x s.db s.db keys found (rw e refl) refl)
  | inl e ↦ elim (Bool-cases (x.operation == restore)) [
    | inl f ↦
        rw (disconnect_run, e, f)
          (same-Turned agent x s.db (update_restore_phase x.id Phase.manual_recovery_needed s.db)
            keys found (rw (e, f) refl) (update_phase-runs x.id Phase.manual_recovery_needed s.db))
    | inr f ↦ elim (Bool-cases (retryable_operation x.operation)) [
      | inl g ↦
          let (after, h) =
            calm-moves x.id x.status queued requeued_row s.db x found (queue_valid x.status sent) in
          rw (disconnect_run, e, f, g, requeue_run, h)
            (Moved-Turned agent x queued requeued_row s.db after
              (record { same_id = λ r. refl; same_status = λ r. refl }) keys refl
              (transition_run-Moved (λ _. false) (λ _. no_fault) x.id x.status queued requeued_row
                s.db after h))
      | inr g ↦
          let (after, h) =
            calm-moves x.id x.status failed (lost_row now) s.db x found
              (fail_valid x.status sent) in
          rw (disconnect_run, e, f, g, lose_run, h)
            (Moved-Turned agent x failed (lost_row now) s.db after
              (record { same_id = λ r. refl; same_status = λ r. refl }) keys refl
              (transition_run-Moved (λ _. false) (λ _. no_fault) x.id x.status failed (lost_row now)
                s.db after h))
    ]
  ]
]

-- The runs listed after this one are as they were.
listed_after :
    (agent : String) (x : Run) (a b : Db) (xs : List Run)
    → Turned agent x a b
    → any_where (same_id x) xs ≡ false
    → All (λ y. find_where (has_id y.id) a.runs ≡ some y) xs
    → All (λ y. find_where (has_id y.id) b.runs ≡ some y) xs
unfolding get_run
listed_after agent x a b [] t u l = tt
listed_after agent x a b (y ∷ ys) t u l =
    let (here, later) = or-false (same_id x y) (any_where (same_id x) ys) u in
    let apart : (y.id == x.id) ≡ false = ground (arith, eq_iff x.id y.id, eq_iff y.id x.id) in
    let before : get_run y.id a ≡ ok y = rw l.0 refl in
    (found_run y.id y b (t.others y.id apart ∙ before), listed_after agent x a b ys t later l.1)

pub disconnect_each-clears :
    (now : ℕ) (agent : String) (xs : List Run) (s : Service)
    → Pending agent xs s.db
    → All (λ r. in_flight agent r ≡ false) (disconnect_each no_faults now agent xs s).db.runs
disconnect_each-clears now agent [] s p =
    All-weaken (λ r. in_flight agent r ≡ true → false ≡ true) (λ r. in_flight agent r ≡ false)
      (λ r f. ground arith) s.db.runs p.covered
disconnect_each-clears now agent (x ∷ xs) s p =
    let t = disconnect_run-Turned now agent x s p.keys p.sent.0 p.listed.0 in
    disconnect_each-clears now agent xs (disconnect_run no_faults now agent x s) (record {
      keys = t.keys;
      sent = p.sent.1;
      listed = listed_after agent x s.db _ xs t p.distinct.0 p.listed.1;
      distinct = p.distinct.1;
      covered = t.settled xs p.covered;
    })
