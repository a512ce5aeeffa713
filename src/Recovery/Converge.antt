-- ===== src/Recovery/Converge.antt =====
-- backend/internal/repository/queue.go: `convergeRecoveredTask`, what recovery writes to the task and
-- the plan of a lost job. The checkpoint and the time of the last activity are arguments.
use specrelay.Prelude.{
  ℕ, Bool, true, not, ◌&&◌, ◌||◌, Option, none, some, [], ◌∷◌, ◌++◌, ◌==◌, if◌then◌else◌, contains,
  text, text_eq,
}
use specrelay.Failure.{Result, ok, ◌>>=◌}
use specrelay.Status.{
  Status, status_eq, status_text, queued, running, cancelling, cancelled, interrupted, succeeded,
  failed, pending, validating, blocked,
}
use specrelay.Metadata.{RawObject}
use specrelay.Gate.{LifecycleTransitionRequest}
use specrelay.Store.{TaskColumns, PlanColumns, Db, task_execute, job_type_beq}
use specrelay.Enqueue.{base_request, move_task, move_plan, version_of, insert_event}
use specrelay.Recovery.{RecoveryJob, RecoveryOutcome, is_status, recovers_pending_task}

abbrev pub task_is_settled : Option Status → Bool
task_is_settled none = true
task_is_settled (some s) = contains (succeeded ∷ failed ∷ interrupted ∷ cancelled ∷ []) s

-- `taskStatus`: a task that no process ever began is pending again.
abbrev pub recovered_status : RecoveryOutcome → Status
recovered_status o = if recovers_pending_task o then pending else o.status

unfoldable pub recovered_task_request :
    ℕ → RecoveryJob → RecoveryOutcome → ℕ → RawObject → LifecycleTransitionRequest TaskColumns
recovered_task_request now j o last_activity checkpoint =
    let again = recovers_pending_task o in
    record (base_request j.aggregate_id (recovered_status o)) {
      status_source = text "recovery";
      reason_code = o.reason_code;
      reason = o.reason;
      last_activity_at = last_activity;
      recovery_hint = o.recovery_hint;
      execution_checkpoint = checkpoint;
      related_job_id = some j.id;
      expected_statuses = queued ∷ running ∷ cancelling ∷ [];
      allow_non_contract = true;
      ignore_terminal = true;
      fields = λ c.
          if again
          then record c { started_at = none; finished_at = none }
          else record c { finished_at = some now };
    }

unfoldable pub recovered_plan_request :
    ℕ → RecoveryOutcome → ℕ → RawObject → LifecycleTransitionRequest PlanColumns
recovered_plan_request plan_id o last_activity checkpoint = record (base_request plan_id blocked) {
  status_source = text "recovery";
  reason_code = o.reason_code;
  reason = o.reason;
  last_activity_at = last_activity;
  recovery_hint = text "manual_review";
  execution_checkpoint = checkpoint;
  expected_statuses = running ∷ validating ∷ cancelling ∷ [];
  allow_non_contract = true;
  ignore_terminal = true;
}

abbrev plan_was_active : RecoveryJob → Bool
plan_was_active j = is_status running j.plan_status || is_status validating j.plan_status

-- The plan that is to be blocked: none after a cancellation, and none that was not at work.
abbrev pub plan_to_block : RecoveryJob → RecoveryOutcome → Option ℕ
plan_to_block j o =
    if o.status == cancelled && not (recovers_pending_task o)
    then none
    else if plan_was_active j
    then j.plan_id
    else none

abbrev pub recovered_plan_event : ℕ → ℕ → Db × Bool → Db
recovered_plan_event project plan_id (db, idempotent) =
    if idempotent
    then db
    else insert_event (text "plan.blocked") project plan_id (version_of plan_id db.plans) db

unfoldable pub block_recovered_plan :
    ℕ → RecoveryJob → RecoveryOutcome → ℕ → RawObject → Option ℕ → Db → Result Db
unfolding move_plan recovered_plan_request insert_event
block_recovered_plan now j o last_activity checkpoint none db = ok db
block_recovered_plan now j o last_activity checkpoint (some plan_id) db =
    move_plan now (recovered_plan_request plan_id o last_activity checkpoint) db >>= λ moved.
    ok (recovered_plan_event j.project_id plan_id moved)

abbrev pub recovered_task_event : RecoveryJob → RecoveryOutcome → Db × Bool → Db
recovered_task_event j o (db, idempotent) =
    if idempotent
    then db
    else insert_event (text "task." ++ status_text (recovered_status o)) j.project_id j.aggregate_id
        (version_of j.aggregate_id db.tasks) db

unfoldable pub converge_recovered_task :
    ℕ → RecoveryJob → RecoveryOutcome → ℕ → RawObject → Db → Result Db
unfolding move_task recovered_task_request block_recovered_plan insert_event status_text
    recovers_pending_task
converge_recovered_task now j o last_activity checkpoint db =
    let write =
      move_task now (recovered_task_request now j o last_activity checkpoint) db >>= λ moved.
      block_recovered_plan now j o last_activity checkpoint (plan_to_block j o)
        (recovered_task_event j o moved) in
    if not (job_type_beq j.job_type task_execute) || task_is_settled j.task_status
    then ok db
    else write
