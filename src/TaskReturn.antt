-- ===== src/TaskReturn.antt =====
-- backend/internal/repository/cancellation.go: what a worker does with the task of a job that it
-- gives up, and the acceptance result that queue.go writes when a task ends.
pub mod Outcome
use specrelay.Prelude.{
  ℕ, ◌+◌, Bool, true, false, not, ◌&&◌, Option, none, some, List, [], ◌∷◌, ◌==◌, if◌then◌else◌, ltb,
  Text, text, text_eq, nat_eq, map,
}
use specrelay.Failure.{Failure, Result, ok, err, invalid_transition}
use specrelay.Status.{Status, pending, queued, running}
use specrelay.Lifecycle.{task}
use specrelay.Metadata.{absent}
use specrelay.Gate.{Table, LifecycleTransitionRequest, find_row, transition_lifecycle}
use specrelay.Store.{AcceptanceItemResult, AcceptanceResult, TaskColumns, Job, PlanTask, Event, Db}
use specrelay.Claim.{first_by, filter_by}

abbrev job_id : Option Job → Option ℕ
job_id none = none
job_id (some j) = some j.id

-- The newest job of a task.
unfoldable pub current_task_job_id : ℕ → List Job → Option ℕ
unfolding first_by filter_by
current_task_job_id id jobs = job_id (
    first_by (λ (i : Job) (j : Job). ltb j.columns.created_at i.columns.created_at)
      (filter_by
        (λ (j : Job). j.columns.aggregate_type == text "task" && j.columns.aggregate_id == id)
        jobs))

abbrev task_event : Text → PlanTask → Option PlanTask → List Event → List Event
task_event type t none events = events
task_event type t (some found) events =
    (record {
      event_type = type;
      project_id = t.project_id;
      aggregate_id = t.id;
      resource_version = found.version;
    })
    ∷ events

-- What follows the transition: nothing when it was idempotent, or else an event.
unfoldable pub finish_return : Text → PlanTask → Db → Table TaskColumns × Bool → Db
unfolding find_row
finish_return type t db (tasks, idempotent) = if idempotent then db else record db {
  tasks = tasks;
  events = task_event type t (find_row t.id tasks.rows) db.events;
}

unfoldable pub pending_request : PlanTask → Text → Option ℕ → LifecycleTransitionRequest TaskColumns
pending_request t message job_id = record {
  resource_id = t.id;
  expected_version = 0;
  status = pending;
  status_source = text "worker";
  reason_code = text "user_cancelled";
  reason = message;
  last_activity_at = 0;
  recovery_hint = text "retry_from_start";
  execution_checkpoint = absent;
  related_job_id = job_id;
  related_run_id = none;
  expected_status = none;
  expected_statuses = running ∷ [];
  require_worker_id = none;
  allow_non_contract = true;
  allow_terminal = false;
  ignore_terminal = true;
  mismatch_error = none;
  fields = λ c. record c { started_at = none; finished_at = none };
}

-- No worker is required of a task, so none is read.
abbrev pub no_worker : TaskColumns → Text
no_worker c = []

-- ErrInvalidTransition is swallowed, and the transaction is rolled back.
unfoldable pub unless_invalid : Text → PlanTask → Db → Result (Table TaskColumns × Bool) → Result Db
unfolding finish_return
unless_invalid type t db (ok r) = ok (finish_return type t db r)
unless_invalid type t db (err invalid_transition) = ok db
unless_invalid type t db (err e) = err e

unfoldable pub return_task_pending : ℕ → PlanTask → Text → Db → Result Db
unfolding current_task_job_id unless_invalid
return_task_pending now t message db = unless_invalid (text "task.cancelled") t db (
    transition_lifecycle task no_worker now
      (pending_request t message (current_task_job_id t.id db.jobs.rows)) db.tasks)

-- `coalesce(nullif($1,''),session_id)`.
abbrev keep_session : Text → TaskColumns → Text
keep_session [] c = c.session_id
keep_session s c = s

unfoldable pub requeue_request :
    PlanTask → Text → Text → Option ℕ → LifecycleTransitionRequest TaskColumns
unfolding pending_request
requeue_request t session message job_id =
    let q = pending_request t message job_id in
    record q {
      status = queued;
      reason_code = text "automatic_retry";
      recovery_hint = text "automatic_retry";
      fields = λ c. record c {
        session_id = keep_session session c;
        started_at = none;
        finished_at = none;
      };
    }

abbrev pub or_failure : Text → PlanTask → Db → Result (Table TaskColumns × Bool) → Result Db
or_failure type t db (ok r) = ok (finish_return type t db r)
or_failure type t db (err e) = err e

unfoldable pub return_task_queued_for_retry : ℕ → PlanTask → Text → Text → Db → Result Db
unfolding current_task_job_id finish_return
return_task_queued_for_retry now t session message db = or_failure (text "task.retry_wait") t db (
    transition_lifecycle task no_worker now
      (requeue_request t session message (current_task_job_id t.id db.jobs.rows)) db.tasks)

-- The acceptance result of a task that ends; a definition that does not decode has no items.
abbrev criteria : Option (List Text) → List Text
criteria none = []
criteria (some keys) = keys

abbrev pub acceptance_items : Text → List Text → Text → List Text → List AcceptanceItemResult
acceptance_items status evidence reason [] = []
acceptance_items status evidence reason (k ∷ ks) =
    (record { key = k; status = status; evidence = evidence; reason = reason })
    ∷ acceptance_items status evidence reason ks

abbrev pub evidence_of : Text → List Text
evidence_of [] = []
evidence_of message = message ∷ []

unfoldable pub build_acceptance_result : Option (List Text) → Text → Text → AcceptanceResult
build_acceptance_result definition status message =
    let evidence = if status == text "passed" then evidence_of message else [] in
    let reason = if status == text "passed" then [] else message in
    record {
      status = status;
      items = acceptance_items status evidence reason (criteria definition);
      evidence = evidence;
      reason = reason;
    }
