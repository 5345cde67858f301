-- ===== src/Dispatcher/Late.antt =====
-- What a restore that is over its time, or that the agent accepted, comes to
-- (internal/server/dispatchgrpc/dispatcher.go).
use backup_management_center.Common.{
  ℕ, ◌+◌, String, ◌≡◌, refl, ◌∙◌, true, ◌&&◌, ◌||◌, not, some, List, [], ◌∷◌, ◌==◌, arith,
  string_eq, Bool-cases, inl, inr, find_where, update_where, on_where, any_where, any_where-map,
}
use backup_management_center.Model.Kind.{operation_eq}
use backup_management_center.Model.Phase.{RestorePhase, phase_eq}
use backup_management_center.Model.Phase as Phase
use backup_management_center.Model.Types.{Run, RestoreRequest}
use backup_management_center.Store.Outcome.{Outcome-cases}
use backup_management_center.Store.Db.{Db}
use backup_management_center.Store.Runs.{has_id}
use backup_management_center.Store.Restores.{
  of_run, is_unsafe, in_repository, may_advance, request_restore_stop, finish_restore_run,
  repository_restore_blocked,
}
use backup_management_center.Registry.{send, connected}
use backup_management_center.Dispatcher.{Dispatcher}
use backup_management_center.Dispatcher.Deliveries.{SendResult-cases}
use backup_management_center.Dispatcher.Process.{get_restore_request_by_run_id}
use backup_management_center.Dispatcher.Watchdog.{
  send_cancel, ask_to_stop, stop_message, handle_restore_timeout, stop_late_restore,
  mark_restore_manual_recovery, untrusted_input, restore_cancel_grace, is_over,
}
use backup_management_center.Store.Restores.Blocking.{
  IsBlocking, IsBlocking-blocks, found-IsBlocking, finish-IsBlocking,
}

pub send_cancel-db :
    (run_id agent : String) (d : Dispatcher) → (send_cancel run_id agent d).db ≡ d.db
unfolding send_cancel
send_cancel-db run_id agent d = elim (Bool-cases (connected agent d.registry)) [
  | inr e ↦ rw e refl
  | inl e ↦ elim (SendResult-cases (send agent (stop_message run_id) d.registry)) [
    | inl (r, f) ↦ rw (send_cancel, e, f) refl
    | inr (c, f) ↦ rw (send_cancel, e, f) refl
  ]
]

-- The phase of a stopped request is as unsafe as before.
stopped-unsafe :
    (run_id : String) (q : RestoreRequest) → may_advance run_id q ≡ true → is_unsafe q ≡ true
stopped-unsafe run_id q h = ground arith

any-stopped :
    (run_id : String) (qs : List RestoreRequest)
    → any_where (λ q. q.run_id == run_id && is_unsafe q) qs ≡ true
    → any_where
        (λ q. q.run_id == run_id && is_unsafe q)
        (update_where (may_advance run_id) (λ q. record q { phase = Phase.cancelling }) qs)
      ≡ true
any-stopped run_id [] h = h
any-stopped run_id (q ∷ qs) h = elim (Bool-cases (may_advance run_id q)) [
  | inl e ↦ let same : (q.run_id == run_id) ≡ true = ground arith in rw (e, same) refl
  | inr e ↦ elim (Bool-cases (q.run_id == run_id && is_unsafe q)) [
    | inl f ↦ rw (e, f) refl
    | inr f ↦ let later = any-stopped run_id qs (ground arith) in rw (e, f) later
  ]
]

request_restore_stop-IsBlocking :
    (repo run_id : String) (deadline : ℕ) (db : Db)
    → IsBlocking repo run_id db
    → IsBlocking repo run_id (request_restore_stop run_id deadline db)
unfolding request_restore_stop
request_restore_stop-IsBlocking repo run_id deadline db i =
    elim (Bool-cases (any_where (may_advance run_id) db.requests)) [
      | inr e ↦ rw e i
      | inl e ↦ rw e (record {
        open_request = any-stopped run_id db.requests i.open_request;
        there =
            any_where-map (λ r. r.id == run_id && r.repository_id == repo)
              (on_where (has_id run_id) (λ r. record r { lease_expires_at = some deadline }))
              db.runs
              (λ r. elim (Bool-cases (has_id run_id r)) [
                | inl k ↦ rw k (rw k refl)
                | inr k ↦ rw k (rw k refl)
              ])
            ∙ i.there;
      })
    ]

module _ (now : ℕ) (r : Run) (repo : String) (q : RestoreRequest) (d : Dispatcher)
    (found : find_where (of_run r.id) d.db.requests ≡ some q) (open' : is_unsafe q ≡ true)
    (there : in_repository repo d.db r.id ≡ true) where
  before : IsBlocking repo r.id d.db
  before = found-IsBlocking repo r.id d.db q found open' there

  manual-IsBlocking : IsBlocking repo r.id (mark_restore_manual_recovery now r d).db
  unfolding mark_restore_manual_recovery
  manual-IsBlocking = elim (Outcome-cases (finish_restore_run (untrusted_input now r) d.db)) [
    | inl (after, e) ↦
        rw (mark_restore_manual_recovery, e)
          (finish-IsBlocking (untrusted_input now r) refl repo d.db after q found open' there e)
    | inr (c, e) ↦ rw (mark_restore_manual_recovery, e) before
  ]

  asked-IsBlocking : IsBlocking repo r.id (ask_to_stop now r d).db
  unfolding ask_to_stop
  asked-IsBlocking =
      request_restore_stop-IsBlocking repo r.id (now + restore_cancel_grace)
        (send_cancel r.id r.agent_id d).db (rw (send_cancel-db r.id r.agent_id d) before)

  stop-IsBlocking : (p : RestoreRequest) → IsBlocking repo r.id (stop_late_restore now r p d).db
  unfolding stop_late_restore
  stop-IsBlocking p = elim (Bool-cases (connected r.agent_id d.registry)) [
    | inr e ↦ elim (Bool-cases (p.phase == Phase.manual_recovery_needed)) [
      | inl f ↦ rw (e, f) before
      | inr f ↦ rw (e, f) manual-IsBlocking
    ]
    | inl e ↦ elim (Bool-cases (p.phase == Phase.cancelling)) [
      | inl f ↦ rw (e, f) manual-IsBlocking
      | inr f ↦ rw (e, f) asked-IsBlocking
    ]
  ]

  late-IsBlocking : IsBlocking repo r.id (handle_restore_timeout now r d).db
  unfolding handle_restore_timeout
  late-IsBlocking = elim (Bool-cases (is_over now r.lease_expires_at)) [
    | inr e ↦ rw e before
    | inl e ↦ elim (Outcome-cases (get_restore_request_by_run_id r.id d.db)) [
      | inr (c, f) ↦ rw (e, f) before
      | inl (p, f) ↦ elim (Bool-cases (Phase.is_terminal p.phase)) [
        | inl g ↦ rw (e, f, g) before
        | inr g ↦ rw (e, f, g) (stop-IsBlocking p)
      ]
    ]
  ]

-- Whatever the watchdog does about a restore at whatever time (nothing, a request to stop, the end
-- of the run), the restore's repository stays blocked for every other run, if the restore's request
-- was in an unsafe phase before.
pub handle_restore_timeout-keeps_block :
    (now : ℕ) (r : Run) (repo except : String) (q : RestoreRequest) (d : Dispatcher)
    → find_where (of_run r.id) d.db.requests ≡ some q
    → is_unsafe q ≡ true
    → in_repository repo d.db r.id ≡ true
    → (except == "" || not (r.id == except)) ≡ true
    → repository_restore_blocked repo except (handle_restore_timeout now r d).db ≡ true
handle_restore_timeout-keeps_block now r repo except q d found open' there x =
    IsBlocking-blocks repo except r.id (handle_restore_timeout now r d).db x
      (late-IsBlocking now r repo q d found open' there)
