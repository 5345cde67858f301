-- ===== src/Service/Ends.antt =====
-- What follows the end of a run leaves the runs and the restore requests alone (internal/server/agentreg/service.go).
use backup_management_center.Common.{
  ℕ, String, ◌≡◌, refl, ◌∙◌, Bool, true, false, ◌&&◌, not, Option, ◌∷◌, ◌==◌, arith, string_eq,
  Bool-cases, inl, inr, if◌then◌else◌,
}
use backup_management_center.Model.Kind.{backup, check, operation_eq}
use backup_management_center.Model.Status.{RunStatus, succeeded, failed, status_eq}
use backup_management_center.Model.Phase.{RestorePhase}
use backup_management_center.Model.Types.{Run}
use backup_management_center.Store.Outcome.{Outcome-cases, settle}
use backup_management_center.Store.Db.{Db}
use backup_management_center.Store.Runs.{get_run}
use backup_management_center.Store.Repositories.{update_repository_status, mark_repository_checked}
use backup_management_center.Service.{Service}
use backup_management_center.Service.Reports.{RunResult}
use backup_management_center.Service.Results.{
  after_end, notify_failure, warm, publish_end, mark_checked, heal_repository,
  is_repository_init_run, repository_of, log_reconciled,
}

-- The same runs and restore requests.
pub record SameRuns (a b : Db) : Type 0 where
  pub runs : b.runs ≡ a.runs
  pub requests : b.requests ≡ a.requests

SameRuns-refl : (a : Db) → SameRuns a a
SameRuns-refl a = record { runs = refl; requests = refl }

SameRuns-trans : (a b c : Db) → SameRuns a b → SameRuns b c → SameRuns a c
SameRuns-trans a b c p q = record { runs = q.runs ∙ p.runs; requests = q.requests ∙ p.requests }

update_repository_status-SameRuns :
    (id status : String) (a : Db) → SameRuns a (settle a (update_repository_status id status a))
unfolding update_repository_status
update_repository_status-SameRuns id status a = record {
  runs = ground arith;
  requests = ground arith;
}

mark_repository_checked-SameRuns :
    (id : String) (at : ℕ) (a : Db) → SameRuns a (mark_repository_checked id at a)
unfolding mark_repository_checked
mark_repository_checked-SameRuns id at a = record { runs = refl; requests = refl }

pub log_reconciled-db :
    (payload : String → Option (RestorePhase × String)) (is_init : String → Bool) (b : Bool)
    (res : RunResult) (s : Service)
    → (log_reconciled payload is_init b res s).db ≡ s.db
log_reconciled-db payload is_init true res s = refl
log_reconciled-db payload is_init false res s = refl

module _ (payload : String → Option (RestorePhase × String)) (is_init : String → Bool) where
  heal-SameRuns :
      (run : Run) (to : RunStatus) (a : Db) → SameRuns a (heal_repository payload is_init run to a)
  heal-SameRuns run to a = elim (Bool-cases (is_repository_init_run payload is_init run)) [
    | inl e ↦ rw e (
        update_repository_status-SameRuns run.repository_id
          (if to == succeeded then "ready" else "error") a)
    | inr e ↦ rw e (SameRuns-refl a)
  ]

  mark-SameRuns :
      (now : ℕ) (run : Run) (to : RunStatus) (a : Db)
      → SameRuns a (mark_checked payload is_init now run to a)
  mark-SameRuns now run to a =
      elim (Bool-cases (
        to == succeeded
        && run.operation == check
        && not (repository_of payload is_init run a == ""))) [
          | inl e ↦
              rw e (mark_repository_checked-SameRuns (repository_of payload is_init run a) now a)
          | inr e ↦ rw e (SameRuns-refl a)
        ]

  notify-db :
      (id : String) (to : RunStatus) (s : Service)
      → (notify_failure payload is_init id to s).db ≡ s.db
  notify-db id to s = elim (Bool-cases (to == failed)) [ inl e ↦ rw e refl | inr e ↦ rw e refl ]

  warm-db :
      (agent : String) (res : RunResult) (run : Run) (to : RunStatus) (s : Service)
      → (warm payload is_init agent res run to s).db ≡ s.db
  warm-db agent res run to s =
      elim (Bool-cases (
        to == succeeded
        && run.operation == backup
        && s.has_warm_cache
        && not (repository_of payload is_init run s.db == "")
        && not (agent == "")
        && not s.stopped)) [ inl e ↦ rw e refl | inr e ↦ rw e refl ]

  publish-db : (id : String) (s : Service) → (publish_end payload is_init id s).db ≡ s.db
  publish-db id s = elim (Outcome-cases (get_run id s.db)) [
    | inl (r, e) ↦ rw (publish_end, e) refl
    | inr (c, e) ↦ rw (publish_end, e) refl
  ]

  pub after_end-SameRuns :
      (now : ℕ) (agent : String) (res : RunResult) (run : Run) (to : RunStatus) (s : Service)
      → SameRuns s.db (after_end payload is_init now agent res run to s).db
  unfolding after_end
  after_end-SameRuns now agent res run to s =
      let healed = heal_repository payload is_init run to s.db in
      let clean = record s {
        db = mark_checked payload is_init now run to healed;
        wiped = res.run_id ∷ s.wiped;
      } in
      let published = publish_end payload is_init res.run_id clean in
      let same : (after_end payload is_init now agent res run to s).db ≡ clean.db =
        notify-db res.run_id to (warm payload is_init agent res run to published)
        ∙ warm-db agent res run to published
        ∙ publish-db res.run_id clean in
      rw same (
        SameRuns-trans s.db healed clean.db (heal-SameRuns run to s.db)
          (mark-SameRuns now run to healed))
