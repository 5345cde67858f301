-- ===== src/Orchestrator/Joined.antt =====
-- Equal requests share one run (`joinDuplicateRun` of internal/server/jobs/orchestrator.go over
-- `CreateRun` and `FindActiveRunByDedupKey` of internal/server/store/sqlite.go).
use Prim.Native.Char.{Char}
use Prim.Native.String.{◌∷◌, ◌++◌}
use text.Mathlib.TextLemmas.{cons-ne-nil, cons-append, append-ne-nil_of_right_ne-nil}
use backup_management_center.Common.{
  ℕ, String, ◌≡◌, ◌≢◌, ◌∙◌, refl, inl, inr, Bool, true, false, ◌&&◌, not, Option, none, some, List,
  [], ◌∷◌, ◌==◌, arith, eq_iff, beq_self, or-false, sym, ap, ◌||◌, string_eq, nat_eq, select_where,
  any_where, Bool-cases, if◌then◌else◌,
}
use backup_management_center.Model.Kind.{forget, operation_eq}
use backup_management_center.Model.Status.{is_active}
use backup_management_center.Model.Types.{Run, Agent}
use backup_management_center.Store.Outcome.{
  StoreErr, Outcome, ok, err, duplicate_run, not_found, or_err, Outcome-cases, Outcome,
  agent_revoked,
}
use backup_management_center.Store.Db.{Db}
use backup_management_center.Store.Cache.{invalidate_snapshot_cache_tx}
use backup_management_center.Store.Agents.{get_agent}
use backup_management_center.Store.Runs.{
  clash, same_slot, insert_run_tx, create_run, find_active_run_by_dedup_key, newest, Driver,
}
use backup_management_center.Store.Runs.Steps.{create_run-adds}
use backup_management_center.Dispatcher.{enqueue}
use backup_management_center.Orchestrator.{
  Orchestrator, SystemTask, system_run_dedup_key, join_duplicate_run, join_or, start_created,
  hand_over, with_db, system_row, task_key, submit, system_run,
}

abbrev live_with : String → Run → Bool
live_with key r = r.dedup_key == key && is_active r.status

and_both : (a b : Bool) → (a && b) ≡ true → (a ≡ true) × (b ≡ true)
and_both a b h = ground arith

clash_test :
    (i s k same live live' : Bool)
    → k ≡ false
    → same ≡ true
    → live ≡ true
    → live' ≡ true
    → (i || s || (not k && same && live && live')) ≡ true
clash_test i s k same live live' p q l m = ground arith

-- A live run with the key of a run that is to be created.
live_clash :
    (r x : Run)
    → (r.dedup_key == "") ≡ false
    → is_active r.status ≡ true
    → live_with r.dedup_key x ≡ true
    → clash r x ≡ true
live_clash r x keyed live h =
    let (same, live_x) = and_both _ _ h in
    clash_test (r.id == x.id) (same_slot r x) (r.dedup_key == "") (r.dedup_key == x.dedup_key)
      (is_active r.status) (is_active x.status) keyed
      ((eq_iff r.dedup_key x.dedup_key).1 (sym ((eq_iff x.dedup_key r.dedup_key).0 same))) live
      live_x

not_live :
    (r x : Run)
    → (r.dedup_key == "") ≡ false
    → is_active r.status ≡ true
    → clash r x ≡ false
    → live_with r.dedup_key x ≡ false
not_live r x keyed live h = elim (Bool-cases (live_with r.dedup_key x)) [
  | inl e ↦ cc (live_clash r x keyed live e, h)
  | inr e ↦ e
]

-- A key that no row holds alive selects none of them.
none_live :
    (r : Run) (rows : List Run)
    → (r.dedup_key == "") ≡ false
    → is_active r.status ≡ true
    → any_where (clash r) rows ≡ false
    → select_where (live_with r.dedup_key) rows ≡ []
none_live r [] keyed live free = refl
none_live r (x ∷ xs) keyed live free =
    let (off, rest) = or-false (clash r x) (any_where (clash r) xs) free in
    rw (not_live r x keyed live off) (none_live r xs keyed live rest)

-- A run that was just created is the one that its key finds.
created_found :
    (now : ℕ) (r : Run) (db db' : Db)
    → (r.dedup_key == "") ≡ false
    → is_active r.status ≡ true
    → create_run now r db ≡ ok db'
    → find_active_run_by_dedup_key r.dedup_key db' ≡ ok r
unfolding find_active_run_by_dedup_key
created_found now r db db' keyed live h =
    let (rows, free) = create_run-adds now r db db' h in
    rw (rows, keyed, live, beq_self r.dedup_key, none_live r db.runs keyed live free) refl

-- What a key finds clashes with a run that is to be created with it.
live_clashes :
    (r x : Run) (rows : List Run)
    → (r.dedup_key == "") ≡ false
    → is_active r.status ≡ true
    → newest (select_where (live_with r.dedup_key) rows) ≡ some x
    → any_where (clash r) rows ≡ true
live_clashes r x rows keyed live h = elim (Bool-cases (any_where (clash r) rows)) [
  | inl e ↦ e
  | inr e ↦ cc (ap newest (none_live r rows keyed live e), h)
]

agents-invalidate :
    (now : ℕ) (repo : String) (clear : Bool) (db db' : Db)
    → invalidate_snapshot_cache_tx now repo clear db ≡ ok db'
    → db'.agents ≡ db.agents
unfolding invalidate_snapshot_cache_tx
agents-invalidate now repo clear db db' h = ground arith

agents-create :
    (now : ℕ) (r : Run) (db db' : Db) → create_run now r db ≡ ok db' → db'.agents ≡ db.agents
unfolding create_run insert_run_tx
agents-create now r db db' h = ground (
  arith,
  agents-invalidate now r.repository_id (r.operation == forget) (record db { runs = r ∷ db.runs })
      db',
)

full : (s : String) → s ≢ "" → (s == "") ≡ false
full s h = elim (Bool-cases (s == "")) [ inl e ↦ absurd (h ((eq_iff s "").0 e)) | inr e ↦ e ]

opened : (c : Char) (s t : String) → ((c ∷ s) ++ t) ≢ ""
opened c s t h = cons-ne-nil c (s ++ t) (sym (cons-append c s t) ∙ h)

key_is_text : (t : SystemTask) (digest : String) → (system_run_dedup_key t digest == "") ≡ false
unfolding system_run_dedup_key
key_is_text t digest = elim (Bool-cases (digest == "")) [
  | inl e ↦ rw e (full _ (opened "s" "ys\0" _))
  | inr e ↦ rw e (full _ (append-ne-nil_of_right_ne-nil _ (opened "\0" "" digest)))
]

never_ok {ℓ} :
    {B : Type ℓ} (e : StoreErr) (r : Run) (o o' : Orchestrator)
    → ◌≡◌ {A = Outcome Run × Orchestrator} (err e, o) (ok r, o')
    → B
never_ok e r o o' h = absurd (ground arith)

get_agent-same :
    (id : String) (db db' : Db) → db'.agents ≡ db.agents → get_agent id db' ≡ get_agent id db
unfolding get_agent
get_agent-same id db db' h = rw h refl

found_some {ℓ} : {A : Type ℓ} (e : StoreErr) (o : Option A) (a : A) → or_err e o ≡ ok a → o ≡ some a
found_some e none a h = absurd (cc)
found_some e (some b) a h = ground arith

-- A key that finds a run admits no other.
refused_live :
    (now : ℕ) (r x : Run) (db : Db)
    → (r.dedup_key == "") ≡ false
    → is_active r.status ≡ true
    → find_active_run_by_dedup_key r.dedup_key db ≡ ok x
    → create_run now r db ≡ err duplicate_run
unfolding find_active_run_by_dedup_key create_run insert_run_tx
refused_live now r x db keyed live h =
    let found =
      found_some not_found (newest (select_where (live_with r.dedup_key) db.runs)) x
        (rw keyed at h) in
    rw (live_clashes r x db.runs keyed live found) refl

joined :
    (e : StoreErr) (key : String) (db : Db) (r : Run)
    → join_or e (join_duplicate_run e key db) ≡ ok r
    → find_active_run_by_dedup_key key db ≡ ok r
unfolding join_duplicate_run
joined e key db r h = ground arith

module _ (fingerprint : String → String) (save_fault : Option StoreErr) (driver : ℕ → Driver) where
  created_task :
      (now : ℕ) (r x : Run) (conf : String) (o o' : Orchestrator)
      → start_created fingerprint save_fault driver now r conf o ≡ (ok x, o')
      → (x ≡ r) × (o'.dispatcher.db ≡ o.dispatcher.db)
  unfolding start_created hand_over enqueue
  created_task now r x conf o o' h = ground arith

  joins_live :
      (id : String) (now : ℕ) (t : SystemTask) (a : Agent) (x : Run) (o : Orchestrator)
      → get_agent t.agent_id o.dispatcher.db ≡ ok a
      → a.revoked ≡ false
      → find_active_run_by_dedup_key (task_key fingerprint t) o.dispatcher.db ≡ ok x
      → system_run fingerprint save_fault driver id now t o ≡ (ok x, o)
  unfolding system_run system_row task_key join_duplicate_run
  joins_live id now t a x o agent alive found =
      let keyed = key_is_text t (if t.conf == "" then "" else fingerprint t.conf) in
      let refused =
        refused_live now (system_row fingerprint id now t) x o.dispatcher.db keyed refl found in
      rw (agent, alive, refused, keyed, found, system_run) refl

  -- The run of a task that was answered with it is what its key finds.
  submitted :
      (id : String) (now : ℕ) (t : SystemTask) (r : Run) (o o' : Orchestrator)
      → submit fingerprint save_fault driver now
          (system_row fingerprint id now t)
          t.conf
          (create_run now (system_row fingerprint id now t) o.dispatcher.db)
          o
        ≡ (ok r, o')
      → (o'.dispatcher.db.agents ≡ o.dispatcher.db.agents)
        × (find_active_run_by_dedup_key (task_key fingerprint t) o'.dispatcher.db ≡ ok r)
  unfolding system_row task_key
  submitted id now t r o o' h =
      let row = system_row fingerprint id now t in
      let db = o.dispatcher.db in
      let keyed = key_is_text t (if t.conf == "" then "" else fingerprint t.conf) in
      elim (Outcome-cases (create_run now row db)) [
        | inl (after, e) ↦
            let (same, kept) = created_task now row r t.conf (with_db after o) o' (rw e at h) in
            rw (kept, same)
              (agents-create now row db after e, created_found now row db after keyed refl e)
        | inr (e, refused) ↦
            let told = rw refused at h in
            let same = ap (λ p. p.1.dispatcher.db) told in
            rw (sym same) (refl, joined e row.dedup_key db r (ap (λ p. p.0) told))
      ]

  -- When `systemRun` answers with a run, the same request right after it answers with that run and
  -- changes nothing: no second run is created, no job enqueued and no configuration replaced. This
  -- holds for any identifiers and times, whether the first call created the run or joined one.
  pub system_run-joins :
      (id id' : String) (now now' : ℕ) (t : SystemTask) (r : Run) (o o' : Orchestrator)
      → system_run fingerprint save_fault driver id now t o ≡ (ok r, o')
      → system_run fingerprint save_fault driver id' now' t o' ≡ (ok r, o')
  unfolding system_run
  system_run-joins id id' now now' t r o o' h =
      elim (Outcome-cases (get_agent t.agent_id o.dispatcher.db)) [
        | inr (e, q) ↦ never_ok e r o o' (rw (q, system_run) at h)
        | inl (a, q) ↦ elim (Bool-cases a.revoked) [
          | inl v ↦ never_ok agent_revoked r o o' (rw (q, v, system_run) at h)
          | inr v ↦
              let (kept, found) = submitted id now t r o o' (rw (q, v, system_run) at h) in
              joins_live id' now' t a r o' (get_agent-same t.agent_id _ _ kept ∙ q) v found
        ]
      ]
