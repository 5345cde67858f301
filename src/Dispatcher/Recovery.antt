-- ===== src/Dispatcher/Recovery.antt =====
-- What the watchdog's repair of queued runs reaches
-- (internal/server/dispatchgrpc/dispatcher.go).
use backup_management_center.Common.{
  String, ◌≡◌, refl, inl, inr, Bool, true, false, ◌||◌, some, List, [], ◌∷◌, ◌++◌, ◌==◌, arith,
  eq_iff, string_eq, All, beq_self, find_where, find_where-map, find_where-some, find_where-none,
  any_where-find, update_where, on_where, any_where, member, Bool-cases, Option-cases, subst,
}
use backup_management_center.Model.Status.{queued}
use backup_management_center.Model.Types.{Run}
use backup_management_center.Store.Runs.{list_runs_by_status}
use backup_management_center.Dispatcher.{
  Job, RepoQueue, Dispatcher, of_repository, append_job, with_queue, unmark, in_queue_of, job_of,
  recover_run, recover_each, recover_queued_runs,
}

member-unmark : (id : String) (marks : List String) → member id (unmark id marks) ≡ false
member-unmark id [] = refl
member-unmark id (m ∷ ms) = ground (arith, eq_iff id m, eq_iff m id, member-unmark id ms)

is_queued-append_new :
    (j : Job) (js : List Job) → any_where (λ k. k.run_id == j.run_id) (js ++ (j ∷ [])) ≡ true
is_queued-append_new j [] = ground (arith, beq_self j.run_id)
is_queued-append_new j (k ∷ ks) = ground (arith, is_queued-append_new j ks)

is_queued-append_old :
    (id : String) (j : Job) (js : List Job)
    → any_where (λ k. k.run_id == id) js ≡ true
    → any_where (λ k. k.run_id == id) (js ++ (j ∷ [])) ≡ true
is_queued-append_old id j [] h = absurd (cc)
is_queued-append_old id j (k ∷ ks) h = ground (arith, is_queued-append_old id j ks)

-- The queues with a job more.
abbrev pushed : Job → List RepoQueue → List RepoQueue
pushed j queues = update_where (of_repository j.repository_id) (append_job j) queues

find-pushed :
    (repo : String) (j : Job) (queues : List RepoQueue) (q : RepoQueue)
    → find_where (of_repository repo) queues ≡ some q
    → find_where (of_repository repo) (pushed j queues)
      ≡ some (on_where (of_repository j.repository_id) (append_job j) q)
find-pushed repo j queues q e =
    rw
      (
        find_where-map (of_repository repo)
            (on_where (of_repository j.repository_id) (append_job j)) queues
            (λ x. elim (Bool-cases (of_repository j.repository_id x)) [
              | inl p ↦ rw p
              | inr p ↦ rw p
            ]),
        e,
      )
      refl

-- A repository's queue after the push, which is there.
find-with_queue :
    (repo : String) (queues : List RepoQueue)
    → (q : RepoQueue) × (find_where (of_repository repo) (with_queue repo queues) ≡ some q)
find-with_queue repo queues = elim (Bool-cases (any_where (of_repository repo) queues)) [
  | inr a ↦ rw a (record { repository_id = repo; jobs = [] }, rw (beq_self repo) refl)
  | inl a ↦ elim (Option-cases (find_where (of_repository repo) queues)) [
    | inl e ↦ let missing = find_where-none (of_repository repo) queues e in absurd (ground arith)
    | inr (q, e) ↦ rw a (q, e)
  ]
]

queued-pushed_new :
    (j : Job) (queues : List RepoQueue)
    → in_queue_of j.run_id j.repository_id (pushed j (with_queue j.repository_id queues)) ≡ true
queued-pushed_new j queues =
    let (q, e) = find-with_queue j.repository_id queues in
    let hit =
      find_where-some (of_repository j.repository_id) (with_queue j.repository_id queues) q e in
    rw (in_queue_of, find-pushed j.repository_id j (with_queue j.repository_id queues) q e, hit)
      (is_queued-append_new j q.jobs)

in_queue-any :
    (id repo : String) (queues : List RepoQueue)
    → in_queue_of id repo queues ≡ true
    → any_where (of_repository repo) queues ≡ true
in_queue-any id repo queues h = elim (Option-cases (find_where (of_repository repo) queues)) [
  | inl e ↦ absurd (ground arith)
  | inr (q, e) ↦ any_where-find (of_repository repo) queues q e
]

queued-with_queue :
    (id repo other : String) (queues : List RepoQueue)
    → in_queue_of id repo queues ≡ true
    → in_queue_of id repo (with_queue other queues) ≡ true
queued-with_queue id repo other queues h =
    elim (Bool-cases (any_where (of_repository other) queues)) [
      | inl a ↦ rw a h
      | inr a ↦ elim (Bool-cases (other == repo)) [
        | inl p ↦
            let there = in_queue-any id repo queues h in
            let gone =
              subst (λ o. any_where (of_repository o) queues ≡ false) ((eq_iff other repo).0 p) a in
            absurd (ground arith)
        | inr p ↦ rw a (rw (in_queue_of, p) h)
      ]
    ]

queued-pushed_old :
    (id repo : String) (j : Job) (queues : List RepoQueue)
    → in_queue_of id repo queues ≡ true
    → in_queue_of id repo (pushed j queues) ≡ true
queued-pushed_old id repo j queues h =
    elim (Option-cases (find_where (of_repository repo) queues)) [
      | inl e ↦ absurd (ground arith)
      | inr (q, e) ↦
          rw (in_queue_of, find-pushed repo j queues q e)
            (elim (Bool-cases (of_repository j.repository_id q)) [
              | inl p ↦ rw p (is_queued-append_old id j q.jobs (ground arith))
              | inr p ↦ rw p (ground arith)
            ])
    ]

-- The run is processed, or has a job in its queue.
abbrev pub is_alive : Dispatcher → Run → Bool
is_alive d r = member r.id d.processing || in_queue_of r.id r.repository_id d.queues

abbrev revived : Run → Dispatcher → Dispatcher
revived r d = record d {
  enqueued = r.id ∷ unmark r.id d.enqueued;
  queues = pushed (job_of r) (with_queue r.repository_id d.queues);
}

recover_run-revives :
    (r : Run) (d : Dispatcher) → is_alive d r ≡ false → recover_run r d ≡ revived r d
unfolding recover_run
recover_run-revives r d e = rw (e, member-unmark r.id d.enqueued) refl

recover_run-skips : (r : Run) (d : Dispatcher) → is_alive d r ≡ true → recover_run r d ≡ d
unfolding recover_run
recover_run-skips r d e = rw e refl

or_right : (a b : Bool) → b ≡ true → (a || b) ≡ true
or_right a b h = ground arith

or_mono_right : (a b c : Bool) → (b ≡ true → c ≡ true) → (a || b) ≡ true → (a || c) ≡ true
or_mono_right a b c f h = ground arith

recover_run-alive : (r : Run) (d : Dispatcher) → is_alive (recover_run r d) r ≡ true
recover_run-alive r d = elim (Bool-cases (is_alive d r)) [
  | inl e ↦ rw (recover_run-skips r d e) e
  | inr e ↦
      rw (recover_run-revives r d e)
        (or_right (member r.id d.processing) _ (queued-pushed_new (job_of r) d.queues))
]

recover_run-keeps :
    (r s : Run) (d : Dispatcher) → is_alive d s ≡ true → is_alive (recover_run r d) s ≡ true
recover_run-keeps r s d h = elim (Bool-cases (is_alive d r)) [
  | inl e ↦ rw (recover_run-skips r d e) h
  | inr e ↦ rw (recover_run-revives r d e) (
      or_mono_right (member s.id d.processing) (in_queue_of s.id s.repository_id d.queues) _
        (λ q.
          queued-pushed_old s.id s.repository_id (job_of r) (with_queue r.repository_id d.queues)
            (queued-with_queue s.id s.repository_id r.repository_id d.queues q))
        h)
]

recover_each-keeps :
    (rs : List Run) (s : Run) (d : Dispatcher)
    → is_alive d s ≡ true
    → is_alive (recover_each rs d) s ≡ true
recover_each-keeps [] s d h = h
recover_each-keeps (r ∷ rs) s d h =
    recover_each-keeps rs s (recover_run r d) (recover_run-keeps r s d h)

recover_each-alive :
    (rs : List Run) (d : Dispatcher) → All (λ r. is_alive (recover_each rs d) r ≡ true) rs
recover_each-alive [] d = tt
recover_each-alive (r ∷ rs) d = (
  recover_each-keeps rs r (recover_run r d) (recover_run-alive r d),
  recover_each-alive rs (recover_run r d),
)

-- After the watchdog's repair, every run that is stored as queued is being processed by a worker,
-- or has a job in the queue of its repository.
pub recover_queued_runs-alive :
    (d : Dispatcher)
    → All (λ r. is_alive (recover_queued_runs d) r ≡ true) (list_runs_by_status (queued ∷ []) d.db)
unfolding recover_queued_runs
recover_queued_runs-alive d = recover_each-alive (list_runs_by_status (queued ∷ []) d.db) d
