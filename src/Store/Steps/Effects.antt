-- ===== src/Store/Steps/Effects.antt =====
-- What the operations beside those on the runs table do to it (internal/server/store/sqlite.go).
use backup_management_center.Common.{
  ℕ, String, ◌≡◌, refl, ◌∙◌, ◌⊎◌, inl, inr, Bool, true, false, some, ◌∷◌, ◌==◌, arith, string_eq,
  All, All-of, All-weaken, find_where, update_where, delete_where, any_where, Bool-cases,
  Option-cases,
}
use backup_management_center.Model.Status.{RunStatus}
use backup_management_center.Model.Status as Status
use backup_management_center.Model.Types.{Run}
use backup_management_center.Store.Outcome.{ok, Outcome-cases}
use backup_management_center.Store.Db.{Db}
use backup_management_center.Store.Plans.{delete_plan}
use backup_management_center.Store.Deletions.{claim_snapshot_deletion_run, of_id}
use backup_management_center.Store.History.{
  prune_history, is_old, is_done, is_referred, without_requests,
}
use backup_management_center.Store.Runs.{has_id, clash}
use backup_management_center.Store.Runs.Keys.{HasKeys, run_unique}
use backup_management_center.Store.Runs.Lifecycle.{evolves}
use backup_management_center.Store.Restores.{
  FinishInput, finish_restore_run, end_run, finishes, finished_row, update_restore_request_tx,
  of_run, request_restore_stop, update_restore_rollback_snapshot, may_advance, is_unfinished_run,
  resolved_row, update_restore_phase,
}
use backup_management_center.Model.Phase.{RestorePhase}
use backup_management_center.Store.Runs.Steps.{RunStep, create_run-adds}
use backup_management_center.Store.Restores.Steps.{
  RestoreStep, requested, occupied, advanced, stopped, saved, finished, resolved, ran,
}
use backup_management_center.Store.Restores.Kept.{insert_request-adds}
use backup_management_center.Store.Restores.Occupancy.{
  create_request-parts, occupied-parts, resolved-parts,
}
use backup_management_center.Store.Steps.{StoreStep, restored, claimed, unplanned, pruned, edited}

evolves_refl : (a : RunStatus) → evolves a a ≡ true
evolves_refl a = ground arith

-- A later state of the same run, whose plan may be gone.
pub record Outlives (r s : Run) : Type 0 where
  pub same_id : s.id ≡ r.id
  pub plan : (s.plan_id ≡ r.plan_id) ⊎ (s.plan_id ≡ "")
  pub same_slot : s.scheduled_at ≡ r.scheduled_at
  pub same_key : s.dedup_key ≡ r.dedup_key
  pub same_agent : s.agent_id ≡ r.agent_id
  pub same_operation : s.operation ≡ r.operation
  pub same_repository : s.repository_id ≡ r.repository_id
  pub status : evolves r.status s.status ≡ true

pub Outlives-refl : (r : Run) → Outlives r r
Outlives-refl r = record {
  same_id = refl;
  plan = inl refl;
  same_slot = refl;
  same_key = refl;
  same_agent = refl;
  same_operation = refl;
  same_repository = refl;
  status = evolves_refl r.status;
}

-- The table is as it was, has one run more, has rows that live on in place of some, or has lost
-- some.
pub data Effect (db db' : Db) : Type 0 where
  same : db'.runs ≡ db.runs → Effect db db'
  added : (r : Run) → any_where (clash r) db.runs ≡ false → db'.runs ≡ r ∷ db.runs → Effect db db'
  updated :
      (p : Run → Bool) (f : Run → Run)
      → ((r : Run) → (f r).id ≡ r.id)
      → All (λ r. p r ≡ true → Outlives r (f r)) db.runs
      → db'.runs ≡ update_where p f db.runs
      → Effect db db'
  lost : (p : Run → Bool) → db'.runs ≡ delete_where p db.runs → Effect db db'

live_evolves : (r s : Run) → Status.is_terminal r.status ≡ false → evolves r.status s.status ≡ true
live_evolves r s h = ground arith

merged-runs : (in' : FinishInput) (mid : Db) → (update_restore_request_tx in' mid).runs ≡ mid.runs
unfolding update_restore_request_tx
merged-runs in' mid = elim (Option-cases (find_where (of_run in'.run_id) mid.requests)) [
  | inl e ↦ rw e refl
  | inr (first, e) ↦ rw e refl
]

finished-Outlives :
    (in' : FinishInput) (run : Run) (db : Db)
    → HasKeys db
    → find_where (has_id in'.run_id) db.runs ≡ some run
    → Status.is_terminal run.status ≡ false
    → All (λ r. finishes in' r ≡ true → Outlives r (finished_row in' r)) db.runs
finished-Outlives in' run db keys found live =
    All-weaken (λ r. has_id in'.run_id r ≡ true → r ≡ run)
      (λ r. finishes in' r ≡ true → Outlives r (finished_row in' r))
      (λ r only e.
        let is_run : r ≡ run = only (ground arith) in
        record {
          same_id = refl;
          plan = inl refl;
          same_slot = refl;
          same_key = refl;
          same_agent = refl;
          same_operation = refl;
          same_repository = refl;
          status = live_evolves r (finished_row in' r) (rw is_run live);
        })
      db.runs (run_unique in'.run_id db.runs run keys found)

finished-Effect :
    (in' : FinishInput) (db db' : Db)
    → HasKeys db
    → finish_restore_run in' db ≡ ok db'
    → Effect db db'
unfolding finish_restore_run
finished-Effect in' db db' keys h = elim (Option-cases (find_where (has_id in'.run_id) db.runs)) [
  | inl e ↦ absurd (ground arith)
  | inr (run, e) ↦ elim (Bool-cases (Status.is_terminal run.status)) [
    | inl t ↦ same (ground (arith, merged-runs in' db))
    | inr t ↦ elim (Outcome-cases (end_run in' run db)) [
      | inr (x, m) ↦ absurd (ground arith)
      | inl (mid, m) ↦
          updated (finishes in') (finished_row in') (λ r. refl)
            (finished-Outlives in' run db keys e t) (ground (arith, merged-runs in' mid))
    ]
  ]
]

pub claimed-runs :
    (now : ℕ) (id : String) (run : Run) (lease : ℕ) (db db' : Db)
    → claim_snapshot_deletion_run now id run lease db ≡ ok db'
    → (db'.requests ≡ db.requests)
      × (db'.runs ≡ record run { dedup_key = "" } ∷ db.runs)
      × (any_where (clash (record run { dedup_key = "" })) db.runs ≡ false)
unfolding claim_snapshot_deletion_run
claimed-runs now id run lease db db' h = elim (Option-cases (find_where (of_id id) db.deletions)) [
  | inl e ↦ absurd (ground arith)
  | inr (d, e) ↦ ground arith
]

pub unplanned-runs :
    (id : String) (db db' : Db)
    → delete_plan id db ≡ ok db'
    → (db'.requests ≡ db.requests)
      × (db'.runs ≡ update_where (λ r. r.plan_id == id) (λ r. record r { plan_id = "" }) db.runs)
unfolding delete_plan
unplanned-runs id db db' h = ground arith

pub pruned-rows :
    (at : ℕ) (db : Db)
    → ((prune_history at db).after.requests ≡ delete_where (is_done at) db.requests)
      × (((prune_history at db).after.runs ≡ db.runs)
          ⊎ ((prune_history at db).after.runs ≡ delete_where (is_old at) db.runs))
unfolding prune_history
pruned-rows at db = elim (Bool-cases (is_referred at (without_requests at db))) [
  | inl e ↦ rw e (refl, inl refl)
  | inr e ↦ rw e (refl, inr refl)
]

prolonged-Outlives :
    (deadline : ℕ) (r : Run) → Outlives r (record r { lease_expires_at = some deadline })
prolonged-Outlives deadline r = record {
  same_id = refl;
  plan = inl refl;
  same_slot = refl;
  same_key = refl;
  same_agent = refl;
  same_operation = refl;
  same_repository = refl;
  status = evolves_refl r.status;
}

orphaned-Outlives : (r : Run) → Outlives r (record r { plan_id = "" })
orphaned-Outlives r = record {
  same_id = refl;
  plan = inr refl;
  same_slot = refl;
  same_key = refl;
  same_agent = refl;
  same_operation = refl;
  same_repository = refl;
  status = evolves_refl r.status;
}

stopped-Effect :
    (run_id : String) (deadline : ℕ) (db : Db) → Effect db (request_restore_stop run_id deadline db)
unfolding request_restore_stop
stopped-Effect run_id deadline db = elim (Bool-cases (any_where (may_advance run_id) db.requests)) [
  | inr e ↦ same (rw e refl)
  | inl e ↦
      updated (has_id run_id) (λ r. record r { lease_expires_at = some deadline }) (λ r. refl)
        (All-of _ (λ r h. prolonged-Outlives deadline r) db.runs) (rw e refl)
]

saved-Effect :
    (run_id snapshot : String) (db : Db)
    → Effect db (update_restore_rollback_snapshot run_id snapshot db)
unfolding update_restore_rollback_snapshot
saved-Effect run_id snapshot db = elim (Bool-cases (snapshot == "")) [
  | inl e ↦ same (rw e refl)
  | inr e ↦ same (rw e refl)
]

resolved-Outlives :
    (id note : String) (phase : RestorePhase) (at : ℕ) (r : Run)
    → is_unfinished_run id r ≡ true
    → Outlives r (resolved_row phase note at r)
resolved-Outlives id note phase at r h = record {
  same_id = refl;
  plan = inl refl;
  same_slot = refl;
  same_key = refl;
  same_agent = refl;
  same_operation = refl;
  same_repository = refl;
  status = live_evolves r (resolved_row phase note at r) (ground arith);
}

-- A step on the restores that is none on the runs table.
pub RestoreStep-Effect :
    {db db' : Db} → RestoreStep db db' → HasKeys db → Effect db db' ⊎ RunStep db db'
unfolding update_restore_phase
RestoreStep-Effect {db} {db'} (requested target_path q kind fresh h) keys =
    let (rows, runs', there) =
      insert_request-adds q db db' (create_request-parts target_path q db db' h) in
    inl (same runs')
RestoreStep-Effect {db} {db'} (occupied now run q owner h) keys =
    let (mid, free, made, inserted) = occupied-parts now run q db db' h in
    let (rows, runs', there) = insert_request-adds q mid db' inserted in
    let (new, unused) = create_run-adds now run db mid made in inl (added run unused (runs' ∙ new))
RestoreStep-Effect (advanced run_id phase) keys = inl (same refl)
RestoreStep-Effect {db} (stopped run_id deadline) keys = inl (stopped-Effect run_id deadline db)
RestoreStep-Effect {db} (saved run_id snapshot) keys = inl (saved-Effect run_id snapshot db)
RestoreStep-Effect {db} {db'} (finished in' h) keys = inl (finished-Effect in' db db' keys h)
RestoreStep-Effect {db} {db'} (resolved request_id run_id actor note detail at h) keys =
    let (q, rows, runs') = resolved-parts request_id run_id actor note detail at db db' h in
    inl (
      updated (is_unfinished_run q.run_id) (resolved_row q.phase note at) (λ r. refl)
        (All-of _ (resolved-Outlives q.run_id note q.phase at) db.runs) runs')
RestoreStep-Effect (ran step) keys = inr step

-- What a step of the store does to the runs, unless it is one on the runs table itself.
pub StoreStep-Effect :
    {db db' : Db} → StoreStep db db' → HasKeys db → Effect db db' ⊎ RunStep db db'
StoreStep-Effect (restored step) keys = RestoreStep-Effect step keys
StoreStep-Effect {db} {db'} (claimed now id run lease h) keys =
    let (kept, rows, free) = claimed-runs now id run lease db db' h in
    inl (added (record run { dedup_key = "" }) free rows)
StoreStep-Effect {db} {db'} (unplanned id h) keys = inl (
    updated (λ r. r.plan_id == id) (λ r. record r { plan_id = "" }) (λ r. refl)
      (All-of _ (λ r e. orphaned-Outlives r) db.runs) (unplanned-runs id db db' h).1)
StoreStep-Effect {db} (pruned at) keys = elim (pruned-rows at db).1 [
  | inl e ↦ inl (same e)
  | inr e ↦ inl (lost (is_old at) e)
]
StoreStep-Effect (edited runs' requests') keys = inl (same runs')
