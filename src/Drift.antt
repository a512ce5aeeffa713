-- ===== src/Drift.antt =====
-- backend/internal/repository/cancellation.go: `BlockTaskJobForDrift`. The drift report, which has to
-- be valid JSON, is left out of the checkpoints and of the event payloads.
pub mod Held
use specrelay.Prelude.{
  ℕ, Bool, true, false, Option, none, some, List, [], ◌∷◌, ◌==◌, if◌then◌else◌, Text, text, nat_eq,
}
use specrelay.Failure.{Result, ok, err, not_found, ◌>>=◌}
use specrelay.Status.{status_eq, leased, running, failed, pending, queued, blocked, validating}
use specrelay.Metadata.{RawObject, object, uuid_value, string_value}
use specrelay.Gate.{LifecycleTransitionRequest, Table, find_row}
use specrelay.Store.{JobColumns, TaskColumns, PlanColumns, PlanTask, Job, Db, is_task_job}
use specrelay.Claim.{transition_job, worker_checkpoint}
use specrelay.Enqueue.{base_request, move_task, move_plan, version_of, insert_event}
use specrelay.Start.{task_checkpoint}

abbrev drift_message : Text
drift_message = text "execution context drift requires explicit disposition"

unfoldable pub drift_job_request : Job → Text → LifecycleTransitionRequest JobColumns
drift_job_request j worker = record (base_request j.id failed) {
  status_source = text "worker";
  reason_code = text "execution_failed";
  reason = drift_message;
  recovery_hint = text "manual_review";
  execution_checkpoint = worker_checkpoint worker;
  expected_statuses = leased ∷ running ∷ [];
  require_worker_id = some worker;
  allow_non_contract = true;
  ignore_terminal = true;
  mismatch_error = some not_found;
  fields = λ c. record c { last_error = drift_message; lease_expires_at = none };
}

unfoldable pub drift_task_request : Job → LifecycleTransitionRequest TaskColumns
drift_task_request j = record (base_request j.columns.aggregate_id pending) {
  status_source = text "worker";
  reason_code = text "execution_failed";
  reason = drift_message;
  recovery_hint = text "manual_review";
  execution_checkpoint = object [];
  related_job_id = some j.id;
  expected_statuses = queued ∷ running ∷ failed ∷ [];
  allow_non_contract = true;
  allow_terminal = true;
  fields = λ c. record c { started_at = none; finished_at = none };
}

unfoldable pub drift_plan_request : Job → ℕ → LifecycleTransitionRequest PlanColumns
drift_plan_request j plan_id = record (base_request plan_id blocked) {
  status_source = text "worker";
  reason_code = text "execution_failed";
  reason = drift_message;
  recovery_hint = text "manual_review";
  execution_checkpoint = task_checkpoint j.columns.aggregate_id;
  related_job_id = some j.id;
  expected_statuses = running ∷ validating ∷ [];
  ignore_terminal = true;
}

abbrev project_or_zero : Option PlanTask → ℕ
project_or_zero none = 0
project_or_zero (some t) = t.project_id

-- `taskTransition.State.ProjectID`, for a row that the gate has just found.
abbrev pub project_of : ℕ → Table TaskColumns → ℕ
project_of id tasks = project_or_zero (find_row id tasks.rows)

unfoldable pub block_drifted_plan : ℕ → Job → ℕ → ℕ → Db → Result Db
unfolding move_plan drift_plan_request insert_event
block_drifted_plan now j plan_id project db =
    move_plan now (drift_plan_request j plan_id) db >>= λ (db', idempotent).
    ok
      (insert_event (text "plan.drift_detected") project plan_id (version_of plan_id db'.plans) db')

unfoldable pub note_task_drift : ℕ → Db → Db
unfolding insert_event
note_task_drift id db =
    insert_event (text "task.drift_detected") (project_of id db.tasks) id (version_of id db.tasks)
      db

unfoldable pub hold_drifted_task : ℕ → Job → Db → Option PlanTask → Result Db
unfolding move_task drift_task_request block_drifted_plan note_task_drift
hold_drifted_task now j db none = err not_found
hold_drifted_task now j db (some t) =
    move_task now (drift_task_request j) db >>= λ (db', idempotent).
    block_drifted_plan now j t.columns.plan_id (project_of j.columns.aggregate_id db'.tasks)
      (note_task_drift j.columns.aggregate_id db')

unfoldable pub block_task_job_for_drift : ℕ → Job → Text → Db → Result Db
unfolding drift_job_request hold_drifted_task
block_task_job_for_drift now j worker db =
    transition_job now (drift_job_request j worker) db >>= λ (db', idempotent).
    if is_task_job j
    then hold_drifted_task now j db' (find_row j.columns.aggregate_id db'.tasks.rows)
    else ok db'
