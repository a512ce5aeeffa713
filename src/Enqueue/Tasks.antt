-- ===== src/Enqueue/Tasks.antt =====
-- backend/internal/repository/queue.go: `QueueTask`.
pub mod Queued
use specrelay.Prelude.{
  ℕ, Bool, true, false, not, Option, none, some, List, [], ◌∷◌, ◌==◌, if◌then◌else◌, contains, Text,
  text, text_eq, nat_eq,
}
use specrelay.Failure.{
  Result, ok, err, guard, not_found, version_conflict, invalid_transition, ◌>>=◌, ◌>>◌,
}
use specrelay.Status.{status_eq, queued, running, ready, blocked, interrupted}
use specrelay.Metadata.{object, uuid_value}
use specrelay.Gate.{LifecycleTransitionRequest, find_row}
use specrelay.Store.{TaskColumns, PlanColumns, PlanTask, Job, Db}
use specrelay.Blocker.{PlanExecutionState, nothing_runnable}
use specrelay.Schedule.{NextTask, next_task, complete, blocked_by, next_plan_task}
use specrelay.Snapshot.{require_plan_execution_baseline}
use specrelay.Load.{load_plan_execution_state}
use specrelay.Provider.{execution_provider_from_context}
use specrelay.Enqueue.{
  Scheduled, scheduled, scheduling_blocked, base_request, move_task, move_plan, version_of,
  insert_event, add_task_job, no_runnable, earlier_blocker, startable,
}

unfoldable pub queue_task_request : ℕ → ℕ → PlanTask → LifecycleTransitionRequest TaskColumns
queue_task_request job_id version t = record (base_request t.id queued) {
  expected_version = version;
  status_source = text "user";
  reason_code = text "resume_requested";
  reason = text "earliest dependency-ready task explicitly queued";
  related_job_id = some job_id;
  expected_statuses = t.status ∷ [];
  allow_non_contract = true;
  allow_terminal = true;
}

unfoldable pub resume_plan_request :
    ℕ → ℕ → PlanTask → PlanExecutionState → LifecycleTransitionRequest PlanColumns
resume_plan_request now job_id t s = record (base_request s.plan_id running) {
  status_source = text "user";
  reason_code = text "resume_requested";
  reason = text "plan resumed for explicit task retry";
  execution_checkpoint = object ((text "taskId", uuid_value t.id) ∷ []);
  related_job_id = some job_id;
  expected_statuses = s.status ∷ [];
  allow_non_contract = true;
  allow_terminal = true;
  fields = λ c. record c { execution_started_at = some now };
}

-- The plan after the task, and whether it has changed.
unfoldable pub resume_plan : ℕ → ℕ → PlanTask → PlanExecutionState → Db → Result (Db × Bool)
unfolding move_plan resume_plan_request
resume_plan now job_id t s db =
    if s.status == running
    then ok (db, false)
    else (move_plan now (resume_plan_request now job_id t s) db >>= λ (db', idempotent).
        ok (db', not idempotent))

abbrev resumed_event : Bool → PlanExecutionState → Db → Db
resumed_event changed s db =
    if changed
    then insert_event (text "plan.running") s.project_id s.plan_id (version_of s.plan_id db.plans)
        db
    else db

unfoldable pub queue_next :
    ℕ → ℕ → Option Text → ℕ → PlanTask → PlanExecutionState → Db → Result (Db × Job)
unfolding move_task queue_task_request resume_plan add_task_job insert_event
    execution_provider_from_context
queue_next now job_id selection version t s db = do
  require_plan_execution_baseline s.plan_id db
  (db1, idempotent) ← move_task now (queue_task_request job_id version t) db
  (db2, changed) ← resume_plan now job_id t s db1
  (db3, job) ←
      add_task_job now job_id s.project_id t.id s.plan_id
        (execution_provider_from_context selection).0 (execution_provider_from_context selection).1
        db2
  ok (
    resumed_event changed s
        (insert_event (text "task.queued") s.project_id t.id (version_of t.id db3.tasks) db3),
    job,
  )

unfoldable pub queue_chosen :
    ℕ
    → ℕ
    → Option Text
    → ℕ
    → PlanTask
    → PlanExecutionState
    → Db
    → NextTask
    → Result (Scheduled (Db × Job))
unfolding queue_next
queue_chosen now job_id selection version t s db (blocked_by blockers) =
    ok (scheduling_blocked blockers)
queue_chosen now job_id selection version t s db complete =
    ok (scheduling_blocked (no_runnable nothing_runnable ∷ []))
queue_chosen now job_id selection version t s db (next_task n) =
    if n.id == t.id
    then (guard (contains startable t.status) invalid_transition
        >> (queue_next now job_id selection version t s db >>= λ queued_job.
            ok (scheduled queued_job)))
    else ok (scheduling_blocked (earlier_blocker n t ∷ []))

unfoldable pub queue_loaded :
    ℕ
    → ℕ
    → Option Text
    → ℕ
    → Option PlanTask
    → Db × PlanExecutionState
    → Result (Scheduled (Db × Job))
unfolding queue_chosen
queue_loaded now job_id selection version none (db, s) = err not_found
queue_loaded now job_id selection version (some t) (db, s) = do
  guard (t.version == version) version_conflict
  guard (contains (running ∷ ready ∷ blocked ∷ interrupted ∷ []) s.status) invalid_transition
  queue_chosen now job_id selection version t s db (next_plan_task s false none)

-- What the first SELECT finds, and the rest of the transaction.
unfoldable pub queue_found :
    ℕ → ℕ → Option Text → ℕ → ℕ → Db → Option PlanTask → Result (Scheduled (Db × Job))
unfolding queue_loaded
queue_found now job_id selection id version db none = err not_found
queue_found now job_id selection id version db (some t) =
    load_plan_execution_state t.columns.plan_id db >>= λ (db', s).
    queue_loaded now job_id selection version (find_row id s.tasks) (db', s)

unfoldable pub queue_task : ℕ → ℕ → Option Text → ℕ → ℕ → Db → Result (Scheduled (Db × Job))
unfolding queue_found
queue_task now job_id selection id version db =
    queue_found now job_id selection id version db (find_row id db.tasks.rows)
