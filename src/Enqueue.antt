-- ===== src/Enqueue.antt =====
-- backend/internal/repository: how a task is queued with its job: `insertJob` and
-- `projectMaxAttempts` (store.go), the writes through the gate, and `QueueTask` and the parts that
-- `queuePlanTx` shares with it (queue.go). A fresh UUID and the current time are arguments.
pub mod Moves
pub mod Active
pub mod Jobs
pub mod Tasks
pub mod Plans
use specrelay.Prelude.{
  ℕ, ◌+◌, Bool, true, false, not, ◌&&◌, ◌||◌, Option, none, some, List, [], ◌∷◌, ◌==◌,
  if◌then◌else◌, contains, ltb, Text, text, text_eq, nat_eq,
}
use specrelay.Failure.{
  Failure, Result, ok, err, guard, no_rows, not_found, version_conflict, invalid_transition, ◌>>=◌,
  ◌>>◌,
}
use specrelay.Status.{
  Status, status_eq, pending, queued, running, ready, blocked, failed, cancelled, interrupted,
}
use specrelay.Lifecycle.{task, plan}
use specrelay.Metadata.{RawObject, absent, object, uuid_value}
use specrelay.Gate.{Row, Table, LifecycleTransitionRequest, find_row, transition_lifecycle}
use specrelay.Store.{
  no_array, task_execute, JobPayload, IdempotencyKey, task_execution, TaskColumns, PlanColumns,
  Project, Plan, PlanTask, Job, Db,
}
use specrelay.TaskReturn.{no_worker}
use specrelay.Blocker.{
  PlanExecutionBlocker, PlanExecutionState, no_runnable_task, earlier_task, Reason,
  nothing_runnable, runs_first, task_scheduling_blocker,
}
use specrelay.Schedule.{NextTask, next_task, complete, blocked_by, next_plan_task}
use specrelay.Snapshot.{require_plan_execution_baseline}
use specrelay.Load.{load_plan_execution_state}
use specrelay.Provider.{execution_provider_from_context, task_execution_job_payload}

-- A request with the fields that the code leaves at their zero values.
abbrev pub base_request : {X : Type 0} → ℕ → Status → LifecycleTransitionRequest X
base_request id status = record {
  resource_id = id;
  expected_version = 0;
  status = status;
  status_source = [];
  reason_code = [];
  reason = [];
  last_activity_at = 0;
  recovery_hint = text "none";
  execution_checkpoint = absent;
  related_job_id = none;
  related_run_id = none;
  expected_status = none;
  expected_statuses = [];
  require_worker_id = none;
  allow_non_contract = false;
  allow_terminal = false;
  ignore_terminal = false;
  mismatch_error = none;
  fields = λ c. c;
}

abbrev pub no_plan_worker : PlanColumns → Text
no_plan_worker c = []

unfoldable pub move_task : ℕ → LifecycleTransitionRequest TaskColumns → Db → Result (Db × Bool)
move_task now q db = transition_lifecycle task no_worker now q db.tasks >>= λ (tasks, idempotent).
    ok (record db { tasks = tasks }, idempotent)

unfoldable pub move_plan : ℕ → LifecycleTransitionRequest PlanColumns → Db → Result (Db × Bool)
move_plan now q db =
    transition_lifecycle plan no_plan_worker now q db.plans >>= λ (plans, idempotent).
    ok (record db { plans = plans }, idempotent)

abbrev version_or_zero : {X : Type 0} → Option (Row X) → ℕ
version_or_zero none = 0
version_or_zero (some r) = r.version

-- `transition.State.Version`, for a row that the gate has just found.
abbrev pub version_of : {X : Type 0} → ℕ → Table X → ℕ
version_of id t = version_or_zero (find_row id t.rows)

-- None of the types here is the `agent.output` that insertEvent leaves out.
unfoldable pub insert_event : Text → ℕ → ℕ → ℕ → Db → Db
insert_event type project id version db = record db {
  events =
      (record {
        event_type = type;
        project_id = project;
        aggregate_id = id;
        resource_version = version;
      })
      ∷ db.events;
}

abbrev pub key_eq : IdempotencyKey → IdempotencyKey → Bool
key_eq (task_execution t v) (task_execution u w) = t == u && v == w
key_eq _ _ = false

unfoldable pub job_with_key : IdempotencyKey → List Job → Option Job
job_with_key key [] = none
job_with_key key (j ∷ js) =
    if key_eq j.columns.idempotency_key key then some j else job_with_key key js

-- The job as the INSERT writes it, with the defaults of its columns.
unfoldable pub new_task_job : ℕ → ℕ → ℕ → ℕ → ℕ → JobPayload → ℕ → Job
new_task_job now id project task_id version payload max_attempts = record {
  id = id;
  project_id = project;
  status = queued;
  version = 1;
  metadata = record {
    status_source = text "system";
    reason_code = text "created";
    reason = text "resource created";
    last_activity_at = now;
    recovery_hint = text "none";
    execution_checkpoint = object [];
  };
  columns = record {
    job_type = task_execute;
    aggregate_type = text "task";
    aggregate_id = task_id;
    priority = 100;
    run_after = now;
    worker_id = [];
    lease_expires_at = none;
    attempt = 0;
    max_attempts = if ltb max_attempts 1 then 3 else max_attempts;
    last_error = [];
    created_at = now;
    payload = payload;
    idempotency_key = task_execution task_id version;
  };
}

-- A job that has the key already is kept and returned.
abbrev pub insert_unless : Option Job → Job → Db → Db × Job
insert_unless (some j) new db = (db, j)
insert_unless none new db = (record db { jobs = record db.jobs { rows = new ∷ db.jobs.rows } }, new)

unfoldable pub insert_job : Job → Db → Db × Job
unfolding job_with_key
insert_job new db = insert_unless (job_with_key new.columns.idempotency_key db.jobs.rows) new db

unfoldable pub find_project : ℕ → List Project → Option Project
find_project id [] = none
find_project id (p ∷ ps) = if p.id == id then some p else find_project id ps

abbrev attempts_of : Option Project → Result ℕ
attempts_of none = err no_rows
attempts_of (some p) = ok (p.max_retries + 1)

unfoldable pub project_max_attempts : ℕ → Db → Result ℕ
unfolding find_project
project_max_attempts project db = attempts_of (find_project project db.projects)

-- A transaction that ends with a value, or with ErrPlanExecutionBlocked and its blockers.
pub data Scheduled (Value : Type 0) : Type 0 where
  scheduled : Value → Scheduled Value
  scheduling_blocked : List PlanExecutionBlocker → Scheduled Value

unfoldable pub add_task_job : ℕ → ℕ → ℕ → ℕ → ℕ → Text → Bool → Db → Result (Db × Job)
unfolding project_max_attempts insert_job new_task_job
add_task_job now job_id project task_id plan_id provider requested db =
    project_max_attempts project db >>= λ attempts. ok (
      insert_job
        (new_task_job now job_id project task_id (version_of task_id db.tasks)
          (task_execution_job_payload task_id plan_id provider requested) attempts)
        db)

abbrev pub no_runnable : Reason → PlanExecutionBlocker
no_runnable reason = record {
  code = no_runnable_task;
  task = none;
  reason = reason;
  acceptance_blockers = [];
  validation_problems = no_array;
}

abbrev pub earlier_blocker : PlanTask → PlanTask → PlanExecutionBlocker
earlier_blocker first t =
    task_scheduling_blocker earlier_task first
      (runs_first first.columns.task_key t.columns.task_key)

-- The statuses that a task is queued from.
abbrev pub startable : List Status
startable = pending ∷ failed ∷ cancelled ∷ interrupted ∷ []
