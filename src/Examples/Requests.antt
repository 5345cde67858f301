-- ===== src/Examples/Requests.antt =====
-- A repository check that is asked for twice.
use backup_management_center.Common.{ℕ, String, ◌≡◌, refl, none, [], ◌∷◌}
use backup_management_center.Model.Kind.{check}
use backup_management_center.Model.Types.{Run}
use backup_management_center.Store.Outcome.{ok, Outcome}
use backup_management_center.Store.Agents.{get_agent}
use backup_management_center.Store.Runs.{create_run, insert_run_tx, Driver, no_fault}
use backup_management_center.Orchestrator.{
  Orchestrator, SystemTask, system_run, system_row, start_created,
}
use backup_management_center.Orchestrator.Joined.{system_run-joins}
use backup_management_center.Examples.Stores.{start}
use backup_management_center.Examples.Enrollments.{agent}
use backup_management_center.Examples.Cancellations.{dispatcher}

abbrev orchestrator : Orchestrator
orchestrator = record {
  dispatcher = record dispatcher { db = record start { agents = agent ∷ [] } };
  confs = [];
}

abbrev task : SystemTask
task = record {
  agent_id = "agent";
  repository_id = "repo";
  operation = check;
  params = "{}";
  conf = "[remote]";
}

abbrev digest : String → String
digest conf = "digest"

abbrev calm_driver : ℕ → Driver
calm_driver k = no_fault

abbrev first : Outcome Run × Orchestrator
first = system_run digest none calm_driver "first" 50 task orchestrator

accepted : first ≡ (ok (system_row digest "first" 50 task), first.1)
unfolding system_run system_row create_run insert_run_tx get_agent start_created
accepted = refl

system_run-joins_example :
    system_run digest none calm_driver "second" 60 task first.1
    ≡ (ok (system_row digest "first" 50 task), first.1)
system_run-joins_example =
    system_run-joins digest none calm_driver "first" "second" 50 60 task
      (system_row digest "first" 50 task) orchestrator first.1 accepted
