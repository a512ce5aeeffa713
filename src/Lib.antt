-- ===== src/Lib.antt =====
-- The core of the SpecRelay backend: the lifecycle of plans, tasks, jobs and agent runs, the write
-- gate that all status changes pass, the job queue with its workers, the workspace leases, the
-- recovery after a crash, the scheduler that chooses a plan's next task, and the execution of a plan
-- from its start over the queueing, start and end of each task to its completion or block.
--
-- The parts and their files:
-- - Status, Lifecycle, Metadata, Failure: backend/internal/domain/models.go. `EvaluateTransition` is
--   `evaluate_transition`, `lifecycleContracts` is `lifecycle_contracts`, and
--   `ValidateLifecycleMetadata` is `validate_lifecycle_metadata`. Go's errors are a data type, and a
--   function that can fail has a `Result`.
-- - Gate: backend/internal/repository/store.go. `transitionLifecycleTx` is `transition_lifecycle`, on
--   a table of rows with its audit rows; the audit trigger of
--   backend/internal/migrations/sql/011_unified_lifecycle.sql is part of the write.
-- - Store: the tables, as far as the modelled code reads or writes them. The database is a record
--   that the operations take and return, and an error returns none, since the transaction is rolled
--   back. A JSON column is its decoded value. Identifiers and times are natural numbers.
-- - Claim, Queue: backend/internal/repository/queue.go and cancellation.go, the operations of a
--   worker on jobs. Every status change goes through the gate, as in the code. Runs of several
--   workers are sequences of committed transactions (Queue.Steps).
-- - Lease: workspace leases in queue.go.
-- - Recovery: what `ReconcileRuntimeState` of queue.go decides about a job whose worker vanished, with
--   `requeueUnstartedJob`, which gives the job back to the queue, and `convergeRecoveredTask`, which
--   ends or resets its task and blocks its plan.
-- - Blocker, Validate, Schedule: the scheduling gates of queue.go up to `nextPlanTask`.
-- - Blocker.Message: the messages of scheduling blockers, in queue.go and models.go.
-- - Load: `loadPlanExecutionStateTx` of queue.go, which reads a plan for the scheduler.
-- - Enqueue: `insertJob` of store.go; `QueueTask`, `QueuePlan` and `QueuePlanAutomatically` of
--   queue.go. Start: `StartTask`. Finish: `FinishTask`. Each takes the fresh UUIDs and the current
--   times of its writes as arguments.
-- - Provider, Checkpoint: the execution provider in a plan's configuration and in a job's payload,
--   and `boundCheckpointText`, in store.go.
-- - Snapshot: the rows of plan execution snapshots and drift audits, without what a snapshot records.
-- - TaskReturn: `ReturnTaskPending` and `ReturnTaskQueuedForRetry` of cancellation.go, and
--   `buildAcceptanceResult` of queue.go.
-- - Stop, Drift: `StopTask`, `StopPlan`, `DeletePlan` and `BlockTaskJobForDrift` of cancellation.go.
-- - Pool: backend/internal/jobqueue/worker.go, the workers of a pool as steps on the database, the
--   running jobs and the draining flag.
-- - Normalize, Order: `normalizeList`, and the loop of `TopologicalOrder` after `Validate`, of
--   backend/internal/planspec/planspec.go.
-- - Prelude: shared helpers. Examples: sample rows and runs.
--
-- Recursion is on lists, and in `place_tasks` on the number of keys that the order still lacks, which
-- the loop of the code lowers in each round; so no fuel is needed. Numbers are unbounded: versions and
-- attempts of the code are 64-bit and far from their bounds.
--
-- Parameters: `quote` is strconv.Quote, as the format %q writes a value in a message, and `digest`
-- is the SHA-256 of a configuration's normal form.
--
-- Not modelled: the HTTP and MCP interfaces, the agent processes, the application service over git
-- and the file system, the rest of the plan specifications (`Validate` among them), plan generation,
-- sessions and feedback, what a snapshot holds, the rest of what recovery writes, the heartbeat and
-- the waiting of a worker, notifications, and failures of the database itself. The query of a claim
-- reads an argument of its own, the snapshot of its statement.
pub mod Pool
pub mod Prelude
pub mod Provider
pub mod Drift
pub mod Enqueue
pub mod Failure
pub mod Snapshot
pub mod Start
pub mod Status
pub mod Lifecycle
pub mod Metadata
pub mod Finish
pub mod Gate
pub mod Store
pub mod Checkpoint
pub mod Claim
pub mod Queue
pub mod Lease
pub mod Load
pub mod Recovery
pub mod Blocker
pub mod Validate
pub mod Schedule
pub mod TaskReturn
pub mod Examples
pub mod Stop
pub mod Normalize
pub mod Order
