-- ===== src/Service/Disconnect.antt =====
-- The end of an agent's stream (`handleDisconnect` of internal/server/agentreg/service.go). No callback for
-- disconnections is registered anywhere.
use backup_management_center.Common.{
  ℕ, String, false, not, none, some, List, [], ◌∷◌, ◌==◌, string_eq, if◌then◌else◌,
}
use backup_management_center.Model.Kind.{restore, operation_eq}
use backup_management_center.Model.Status.{queued, dispatched, running, failed, status_eq}
use backup_management_center.Model.Phase as Phase
use backup_management_center.Model.Types.{Run}
use backup_management_center.Store.Outcome.{ok, err}
use backup_management_center.Store.Agents.{set_agent_status}
use backup_management_center.Store.Runs.{transition_run, Driver, list_runs_by_status}
use backup_management_center.Store.Restores.{update_restore_phase}
use backup_management_center.Registry.{unregister_if}
use backup_management_center.Dispatcher.{retryable_operation}
use backup_management_center.Service.{Service}

abbrev pub requeued_row : Run → Run
requeued_row r = record r {
  started_at = none;
  lease_expires_at = none;
  error_code = "";
  error_message = "";
  progress_json = "{}";
}

abbrev pub lost_row : ℕ → Run → Run
lost_row now r = record r {
  finished_at = some now;
  error_code = "agent_disconnected";
  error_message = "agent stream disconnected during a non-retryable operation";
  lease_expires_at = none;
}

-- `drivers run_id k` is what the driver does to attempt k of the run's transition.
module _ (drivers : String → ℕ → Driver) where
  -- A run whose work may be repeated is queued again.
  unfoldable pub requeue_run : Run → Service → Service
  requeue_run r s =
      elim (transition_run (λ _. false) (drivers r.id) r.id r.status queued requeued_row s.db) [
        | ok after ↦ record s { db = after }
        | err _ ↦ s
      ]

  -- Any other is failed.
  unfoldable pub lose_run : ℕ → Run → Service → Service
  lose_run now r s =
      elim (transition_run (λ _. false) (drivers r.id) r.id r.status failed (lost_row now) s.db) [
        | ok after ↦ record s { db = after; wiped = r.id ∷ s.wiped; notified = r.id ∷ s.notified }
        | err _ ↦ s
      ]

  -- The body of the loop.
  unfoldable pub disconnect_run : ℕ → String → Run → Service → Service
  unfolding requeue_run lose_run
  disconnect_run now agent r s =
      if not (r.agent_id == agent)
      then s
      else if r.operation == restore
      then record s { db = update_restore_phase r.id Phase.manual_recovery_needed s.db }
      else if retryable_operation r.operation
      then requeue_run r s
      else lose_run now r s

  abbrev pub disconnect_each : ℕ → String → List Run → Service → Service
  disconnect_each now agent [] s = s
  disconnect_each now agent (r ∷ rs) s = disconnect_each now agent rs (disconnect_run now agent r s)

  -- `handleDisconnect` and `HandleAgentRevoked`
  unfoldable pub handle_disconnect : ℕ → String → Service → Service
  unfolding disconnect_run list_runs_by_status
  handle_disconnect now agent s =
      let offline = record s { db = set_agent_status agent false now s.db } in
      disconnect_each now agent (list_runs_by_status (dispatched ∷ running ∷ []) offline.db) offline

  -- The deferred end of `Connect`, for the stream `ctx`: only the agent's current stream counts.
  unfoldable pub close_stream : ℕ → String → ℕ → Service → Service
  unfolding handle_disconnect unregister_if
  close_stream now agent ctx s =
      let left = unregister_if agent ctx s.registry in
      if left.0
      then handle_disconnect now agent (record s { registry = left.1 })
      else record s { registry = left.1 }
