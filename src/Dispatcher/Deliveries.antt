-- ===== src/Dispatcher/Deliveries.antt =====
-- What a delivery guarantees (internal/server/dispatchgrpc/dispatcher.go).
use backup_management_center.Common.{
  ℕ, suc, String, ◌≡◌, refl, subst, beq_self, ◌∙◌, string_eq, ap, ◌⊎◌, inl, inr, Bool, true, false,
  Option, none, some, ◌==◌, arith, Bool-cases, Option-cases,
}
use backup_management_center.Model.Kind.{restore, operation_eq, is_database_restore_kind}
use backup_management_center.Model.Status.{queued, dispatched}
use backup_management_center.Model.Types.{Run, RestoreRequest}
use backup_management_center.Store.Outcome.{ok, Outcome-cases, ◌>>◌}
use backup_management_center.Store.Db.{Db}
use backup_management_center.Store.Retry.Laws.{retry_on_busy-ok}
use backup_management_center.Store.Runs.{get_run, transition_run, passes}
use backup_management_center.Store.Runs.Moves.{KeepsRow, Moved, get_run-Moved, transition_run-Moved}
use backup_management_center.Store.Restores.{repository_restore_blocked}
use backup_management_center.Registry.{
  Message, Stream, Registry, SendErr, capabilities_pending, unsafe_database_restore,
  agent_not_connected, context_cancelled, SendResult, sent_to, refused, stream_of, connected,
  delivered,
}
use backup_management_center.Registry.Streams.{send_with_capability-sent}
use backup_management_center.Dispatcher.{Job, Dispatcher}
use backup_management_center.Dispatcher.Process.{
  Faults, awaited, claim_run, claim_row, process_job, dispatch_gated, dispatch_claimed, deliver,
  get_restore_request_by_run_id, lease_of, send_failed, after_refusal, send_result,
}

pub SendResult-cases :
    (s : SendResult) → ((r : Registry) × (s ≡ sent_to r)) ⊎ ((e : SendErr) × (s ≡ refused e))
SendResult-cases (sent_to r) = inl (r, refl)
SendResult-cases (refused e) = inr (e, refl)

module _ (faults : Faults) (now : ℕ) (build : String → Db → Option String) where
  claim_run-Moved :
      (id : String) (lease : ℕ) (db db' : Db)
      → claim_run faults now build id lease db ≡ ok db'
      → Moved id queued dispatched (claim_row lease) db db'
  unfolding claim_run
  claim_run-Moved id lease db db' h =
      let (k, e) =
        retry_on_busy-ok (λ n. false)
          (λ n.
            transition_run (λ m. false) (faults.claim n) id queued dispatched (claim_row lease) db)
          db' 5 db h in
      transition_run-Moved (λ m. false) (faults.claim k) id queued dispatched (claim_row lease) db
        db' e

  failed_send-not_awaited :
      (j : Job) (d d' : Dispatcher) → ¬ (send_failed faults now build j d ≡ (awaited, d'))
  unfolding send_failed
  failed_send-not_awaited j d d' h = ground arith

  after_refusal-not_awaited :
      (j : Job) (e : SendErr) (d d' : Dispatcher)
      → ¬ (after_refusal faults now build j e d ≡ (awaited, d'))
  after_refusal-not_awaited j capabilities_pending d d' h = ground arith
  after_refusal-not_awaited j unsafe_database_restore d d' h = ground arith
  after_refusal-not_awaited j agent_not_connected d d' h = failed_send-not_awaited j d d' h
  after_refusal-not_awaited j context_cancelled d d' h = failed_send-not_awaited j d d' h

  delivered_by :
      (safe : Bool) (j : Job) (msg : Message) (d d' : Dispatcher)
      → deliver faults now build safe j msg d ≡ (awaited, d')
      → (r : Registry) × (send_result faults now build safe j msg d.registry ≡ sent_to r)
        × (d' ≡ record d { registry = r })
  unfolding deliver
  delivered_by safe j msg d d' h =
      elim (SendResult-cases (send_result faults now build safe j msg d.registry)) [
        | inl (r, e) ↦ (r, e, ground arith)
        | inr (e, f) ↦ absurd (after_refusal-not_awaited j e d d' (rw (deliver, f) at h))
      ]

  claimed_by :
      (safe : Bool) (j : Job) (attempt : ℕ) (d d' : Dispatcher)
      → dispatch_claimed faults now build safe j attempt d ≡ (awaited, d')
      → deliver faults now build safe j
          (record { run_id = j.run_id; attempt = attempt; is_stop = false })
          d
        ≡ (awaited, d')
  unfolding dispatch_claimed
  claimed_by safe j attempt d d' h = elim (Option-cases (build j.run_id d.db)) [
    | inl e ↦ rw (dispatch_claimed, e) at h
    | inr (message, e) ↦ absurd (ground arith)
  ]

  -- What stands when a job was sent: the claim, the gates, and the send.
  pub record Sent (run : Run) (safe : Bool) (j : Job) (d d' : Dispatcher) : Type 0 where
    pub claimed : Db
    pub moved :
        Moved j.run_id queued dispatched (claim_row (lease_of faults now build run)) d.db claimed
    pub agent_there : connected j.agent_id d.registry ≡ true
    pub not_blocked :
        faults.read_blocked ≡ none
        → repository_restore_blocked j.repository_id j.run_id d.db ≡ false
    pub registry_after : Registry
    pub sent :
        send_result faults now build safe j
          (record { run_id = j.run_id; attempt = suc run.attempt; is_stop = false })
          d.registry
        ≡ sent_to registry_after
    pub after : d' ≡ record d { db = claimed; registry = registry_after }

  ungated :
      (run : Run) (safe : Bool) (j : Job) (d d' : Dispatcher)
      → connected j.agent_id d.registry ≡ true
      → (faults.read_blocked ≡ none
          → repository_restore_blocked j.repository_id j.run_id d.db ≡ false)
      → (mid : Db)
      → claim_run faults now build j.run_id (lease_of faults now build run) d.db ≡ ok mid
      → dispatch_claimed faults now build safe j (suc run.attempt) (record d { db = mid })
        ≡ (awaited, d')
      → Sent run safe j d d'
  ungated run safe j d d' here free mid e h =
      let (r, s, a) =
        delivered_by safe j
          (record { run_id = j.run_id; attempt = suc run.attempt; is_stop = false })
          (record d { db = mid }) d'
          (claimed_by safe j (suc run.attempt) (record d { db = mid }) d' h) in
      record {
        claimed = mid;
        moved = claim_run-Moved j.run_id (lease_of faults now build run) d.db mid e;
        agent_there = here;
        not_blocked = free;
        registry_after = r;
        sent = s;
        after = a;
      }

  gated_by :
      (run : Run) (safe : Bool) (j : Job) (d d' : Dispatcher)
      → dispatch_gated faults now build run safe j d ≡ (awaited, d')
      → Sent run safe j d d'
  unfolding dispatch_gated
  gated_by run safe j d d' h =
      elim (Outcome-cases
        (claim_run faults now build j.run_id (lease_of faults now build run) d.db)) [
          | inl (mid, e) ↦
              ungated run safe j d d' (ground arith) (λ f. ground arith) mid e (ground arith)
          | inr (x, e) ↦ absurd (ground arith)
        ]

  -- A job that was sent, as the reads that came first had it.
  pub record Delivery (j : Job) (d d' : Dispatcher) : Type 0 where
    pub run : Run
    pub read : get_run j.run_id d.db ≡ ok run
    pub safe : Bool
    pub delivery : Sent run safe j d d'
    pub scope :
        (q : RestoreRequest)
        → run.operation ≡ restore
        → get_restore_request_by_run_id j.run_id d.db ≡ ok q
        → safe ≡ is_database_restore_kind q.restore_kind

  process_job-Delivery :
      (j : Job) (d d' : Dispatcher)
      → process_job faults now build j d ≡ (awaited, d')
      → Delivery j d d'
  unfolding process_job
  process_job-Delivery j d d' h =
      elim (Outcome-cases (passes faults.read_run >> get_run j.run_id d.db)) [
        | inr (x, e) ↦ absurd (ground arith)
        | inl (run, e) ↦ elim (Bool-cases (run.operation == restore)) [
          | inr o ↦ record {
            run = run;
            read = ground arith;
            safe = false;
            delivery = gated_by run false j d d' (rw (process_job, e, o) at h);
            scope = λ q p r. absurd (ground arith);
          }
          | inl o ↦
              elim (Outcome-cases
                (passes faults.read_request >> get_restore_request_by_run_id j.run_id d.db)) [
                  | inr (x, f) ↦ absurd (ground arith)
                  | inl (q, f) ↦ record {
                    run = run;
                    read = ground arith;
                    safe = is_database_restore_kind q.restore_kind;
                    delivery =
                        gated_by run (is_database_restore_kind q.restore_kind) j d d'
                          (rw (process_job, e, o, f) at h);
                    scope = λ p op r. ground arith;
                  }
                ]
        ]
      ]

claim_row-KeepsRow : (lease : ℕ) → KeepsRow (claim_row lease)
claim_row-KeepsRow lease = record { same_id = λ r. refl; same_status = λ r. refl }

module _ (faults : Faults) (now : ℕ) (build : String → Db → Option String) where
  moved_run :
      (id : String) (lease : ℕ) (run : Run) (db db' : Db)
      → get_run id db ≡ ok run
      → (m : Moved id queued dispatched (claim_row lease) db db') → m.run ≡ run
  unfolding get_run
  moved_run id lease run db db' read m = let found = m.found in ground arith

  claimed_read :
      (id : String) (lease : ℕ) (run : Run) (db db' : Db)
      → get_run id db ≡ ok run
      → Moved id queued dispatched (claim_row lease) db db'
      → (run.status ≡ queued)
        × (get_run id db'
            ≡ ok (record run {
              status = dispatched;
              attempt = suc run.attempt;
              lease_expires_at = some lease;
            }))
  claimed_read id lease run db db' read m =
      let same = moved_run id lease run db db' read m in
      (
        subst (λ r. r.status ≡ queued) same m.was_from,
        rw
            (
              get_run-Moved id queued dispatched (claim_row lease) (claim_row-KeepsRow lease) db db'
                  m id,
              beq_self id,
              same,
            )
            refl,
      )

  -- When the store can tell whether a restore holds the repository, a job that `processJob` sent
  -- had a queued run, a connected agent and no unsafe restore of another run in its repository;
  -- after it the run is stored as dispatched, with one attempt more and the lease of its
  -- operation.
  pub process_job-sent :
      (j : Job) (d d' : Dispatcher)
      → faults.read_blocked ≡ none
      → process_job faults now build j d ≡ (awaited, d')
      → (run : Run) × (get_run j.run_id d.db ≡ ok run)
        × (run.status ≡ queued)
        × (connected j.agent_id d.registry ≡ true)
        × (repository_restore_blocked j.repository_id j.run_id d.db ≡ false)
        × (get_run j.run_id d'.db
            ≡ ok (record run {
              status = dispatched;
              attempt = suc run.attempt;
              lease_expires_at = some (lease_of faults now build run);
            }))
  process_job-sent j d d' calm h =
      let p = process_job-Delivery faults now build j d d' h in
      let s = p.delivery in
      let (was, is) =
        claimed_read j.run_id (lease_of faults now build p.run) p.run d.db s.claimed p.read
          s.moved in
      (
        p.run,
        p.read,
        was,
        s.agent_there,
        s.not_blocked calm,
        ap (λ x. get_run j.run_id x.db) s.after ∙ is,
      )

  -- The command of a database restore was sent only to a stream that had reported its
  -- capabilities, and that it restores databases safely.
  pub process_job-safe_restore :
      (j : Job) (d d' : Dispatcher) (run : Run) (q : RestoreRequest)
      → get_run j.run_id d.db ≡ ok run
      → run.operation ≡ restore
      → get_restore_request_by_run_id j.run_id d.db ≡ ok q
      → is_database_restore_kind q.restore_kind ≡ true
      → process_job faults now build j d ≡ (awaited, d')
      → (st : Stream) × (stream_of j.agent_id d.registry ≡ some st)
        × (st.caps_ready ≡ true)
        × (st.safe_db_restore ≡ true)
        × (stream_of j.agent_id d'.registry
            ≡ some (
                delivered
                  (record { run_id = j.run_id; attempt = suc run.attempt; is_stop = false })
                  st))
  process_job-safe_restore j d d' run q read op request db_kind h =
      let p = process_job-Delivery faults now build j d d' h in
      let s = p.delivery in
      let read' = p.read in
      let same : p.run ≡ run = ground arith in
      let safe : p.safe ≡ true = p.scope q (rw same op) request ∙ db_kind in
      let sent = s.sent in
      rw s.after (
        send_with_capability-sent j.agent_id
          (record { run_id = j.run_id; attempt = suc run.attempt; is_stop = false }) d.registry
          s.registry_after (rw (same, safe) at sent))
