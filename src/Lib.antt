-- ===== src/Lib.antt =====
-- Backup Management Center: the control server's core.
--
-- The server keeps its state in one SQLite database behind a store, holds a stream to each
-- connected agent, and hands the runs of a repository to the agents one after another. The parts:
--
-- - Common: tests, decidable equality, tables as lists of rows with what SQL does to them, and
--   lemmas on rows. A table is a list, the row inserted last in front; UPDATE and DELETE work on
--   all rows that meet a test, SELECT reads them in order.
-- - Model (internal/model/model.go): Kind, Status (with validTransitions and isTerminal of the
--   store), Phase, Types, ExtraArgs, SystemDatabase, Text.
-- - Store (internal/server/store/sqlite.go, store.go, migrations):
--   Outcome has the errors as values, Db the tables, Retry retryOnBusy. Runs has the runs table
--   (CreateRun, TransitionRun, ReconcileCancelledRunSuccess, FailStaleRuns, DeleteRun, ...),
--   Restores the restore requests (CreateRestoreRequest, CreateDatabaseRestoreRun,
--   UpdateRestorePhase, RequestRestoreStop, FinishRestoreRun, ResolveRestoreRequest, ...),
--   TargetPath the overlap of target directories, Cache the snapshot caches and their
--   generations, Deletions the intents to delete snapshots with Deletions/Scan for the cleanup
--   scans, Agents the agents and the tokens they enroll with, Repositories, Plans with the persisted
--   cron slots, and History with pruning, expired sessions and ListRuns. Below each of them stand its lemmas: Runs/Keys, Moves, Steps,
--   Lifecycle;
--   Restores/Phases, Steps, Kept, Exclusive, Occupancy, Terminal, Protected, Blocking;
--   Cache/Generations;
--   Deletions/Aged, Steps; Agents/Tokens; Plans/Slots; History/Pruned. Steps has every operation that
--   writes runs or requests as one step relation, with Steps/Effects, Keys, Life, Exclusion, Standing.
-- - Registry (internal/server/agentreg/registry.go): the agents' streams, their capabilities and
--   the sends. Registry/Streams has its steps.
-- - Dispatcher (internal/server/dispatchgrpc/dispatcher.go): queues and marks; Dispatcher/Process
--   has processJob over the store and the registry, Dispatcher/Deliveries what a send goes with,
--   Dispatcher/Recovery what the watchdog's repair of queued runs reaches. Dispatcher/Watchdog has
--   Cancel, cancelRestore, handleRestoreTimeout and checkTimeouts, Dispatcher/Late and Stopped what
--   they come to, Dispatcher/Held the jobs that a restore holds back.
-- - Scheduler (internal/server/scheduler/scheduler.go): the state and tickCron; Scheduler/Jobs the
--   other phases, Scheduler/Ticks runTick, restarts and what happens in between. What it calls of
--   the orchestrator (RunStarter and its kin) is the record Starter, with the law that no call
--   touches plans or cursors. Scheduler/Cursors, Slots, Quiet and Once are on slots,
--   Scheduler/Stale on late queued runs.
-- - Service (internal/server/agentreg/service.go): Enroll, the steps of Connect, heartbeats,
--   capabilities and the offline check; Service/Progress accepted and progress messages,
--   Service/Reports what a result says, Service/Results handleRunResult, Service/Disconnect
--   handleDisconnect. Service/Outcomes, Ends, Blocked, Endings, Repeated, InFlight, Cleared and
--   Secrets have the lemmas.
-- - Orchestrator (internal/server/jobs/orchestrator.go): systemRun with its keys and
--   joinDuplicateRun, SaveRunRcloneConfig (internal/server/store/secret_store.go), and CancelRun.
--   Orchestrator/Joined is on equal requests.
-- - Examples: concrete databases, registries and jobs.
--
-- How the code is read. An operation of the store runs under the store's mutex in a transaction,
-- so it is one function from the database to an outcome, and a failed one leaves the database as
-- it was. Sequences of operations are step relations (StoreSteps, DeletionSteps,
-- RegistrySteps), whose steps come in any order. A text column that may be NULL is a text with ""
-- for NULL where the code reads it so, and an option where the code tells the two apart. Times are
-- natural numbers of seconds. Identifiers that the code draws at random, the clock and the answers
-- of the SQLite driver are arguments. Retries are bounded by the code's own counts: 8 attempts of
-- a transition, 6 of a write of the dispatcher; the recursion is on the attempts left.
--
-- JSON (the target of a restore, the list in a cache, the payload of a result, a retention) is
-- read through functions given as arguments, and so are the cron parser with its time zones, INSTR
-- of SQLite, BuildCommand of the orchestrator, and the keyed digest of the secrets package. Reads
-- of the database do not fail except where an argument says so. Versions reach the service as
-- their parsed parts, secrets and tokens as their hashes. A plan's deletion clears the plan of its
-- runs, and a slot is saved only for a plan that exists. The write of a slot may fail, which the
-- scheduler logs: the slot in memory moves all the same, and after a restart the slot that was
-- persisted is asked for again, where the key of the runs on plan and slot refuses it. A send to a
-- stream whose context is done is refused here, while Go's select may still put the message into a
-- channel with room. Other references to plans, agents and targets are checked where a definition
-- does so.
--
-- Not modelled: the tables of administrators, settings, logs and run passwords, single writes of
-- sessions, plans and storage targets, waits, events and the texts of wrapped errors. The callback
-- of a transition is any function that leaves a run's identifier and status alone. The rest of the
-- orchestrator (plan runs, retentions, restores, deletions, BuildCommand), the HTTP interface, the
-- agent and the web interface are outside.
mod Common
pub mod Model
pub mod Store
pub mod Registry
pub mod Dispatcher
pub mod Orchestrator
pub mod Scheduler
pub mod Service
mod Examples
