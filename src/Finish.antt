-- ===== src/Finish.antt =====
-- backend/internal/repository/queue.go: `finishTask`, with `blockPlanAfterSchedulingGateTx`. A
-- message is valid UTF-8 here, as `strings.ToValidUTF8` makes it; the workspace that the caller
-- passes only goes into the snapshot.
pub mod Continue
pub mod Completed
pub mod Open
use specrelay.Prelude.{
  ℕ, ◌+◌, Bool, true, false, not, ◌&&◌, ◌||◌, Option, none, some, List, [], ◌∷◌, ◌==◌,
  if◌then◌else◌, contains, Text, text, text_eq, nat_eq,
}
use specrelay.Failure.{Result, ok, err, not_found, invalid_transition, ◌>>=◌}
use specrelay.Status.{
  status_eq, running, pending, validating, leased, retry_wait, succeeded, failed, blocked,
}
use specrelay.Lifecycle.{task, is_terminal_status}
use specrelay.Gate.{LifecycleTransitionRequest, find_row}
use specrelay.Store.{TaskColumns, PlanColumns, PlanTask, Db}
use specrelay.Blocker.{PlanExecutionState}
use specrelay.TaskReturn.{build_acceptance_result}
use specrelay.Load.{load_plan_execution_state}
use specrelay.Enqueue.{base_request, move_task, move_plan, version_of, insert_event}
use specrelay.Start.{summary_of, newest_job, task_checkpoint, plan_event}
use specrelay.Finish.Continue.{continue_plan}

-- `nullif($1,'')`; the column is read with `coalesce(session_id,'')`.
unfoldable pub end_task_request :
    ℕ → PlanTask → Text → Bool → Text → Option ℕ → LifecycleTransitionRequest TaskColumns
unfolding build_acceptance_result
end_task_request now t session success summary job_id =
    let status = if success then text "passed" else text "failed" in
    record (base_request t.id (if success then succeeded else failed)) {
      status_source = text "worker";
      reason_code = if success then text "completed" else text "execution_failed";
      reason = summary;
      recovery_hint = if success then text "none" else text "manual_review";
      related_job_id = job_id;
      expected_statuses = running ∷ [];
      ignore_terminal = true;
      fields = λ c. record c {
        session_id = session;
        finished_at = some now;
        acceptance_status = status;
        acceptance_result =
            some (build_acceptance_result t.columns.acceptance_definition status summary);
      };
    }

unfoldable pub fail_plan_request :
    PlanTask → Text → Option ℕ → LifecycleTransitionRequest PlanColumns
fail_plan_request t summary job_id = record (base_request t.columns.plan_id blocked) {
  status_source = text "worker";
  reason_code = text "execution_failed";
  reason = summary;
  recovery_hint = text "manual_review";
  execution_checkpoint = task_checkpoint t.id;
  related_job_id = job_id;
  expected_statuses = running ∷ validating ∷ [];
  ignore_terminal = true;
}

unfoldable pub fail_plan : ℕ → PlanTask → Text → Option ℕ → Db → Result Db
unfolding move_plan fail_plan_request insert_event
fail_plan now t summary job_id db =
    move_plan now (fail_plan_request t summary job_id) db >>= λ moved.
    ok (plan_event (text "plan.blocked") t.project_id t.columns.plan_id moved)

-- After the task has ended: `db` is the database before the transaction, `ended` the one with the
-- task's end and whether that was idempotent.
unfoldable pub after_end :
    (quote : Text → Text)
    → ℕ
    → ℕ
    → PlanTask
    → Bool
    → Text
    → Bool
    → Option ℕ
    → Db
    → Db × Bool
    → Result Db
unfolding fail_plan insert_event
after_end quote now next_job t success summary capture job_id db (ended, idempotent) =
    let type = if success then text "task.succeeded" else text "task.failed" in
    let told = insert_event type t.project_id t.id (version_of t.id ended.tasks) ended in
    if idempotent
    then ok db
    else if success
    then continue_plan quote now next_job t capture job_id told
    else fail_plan now t summary job_id told

unfoldable pub finish_running :
    (quote : Text → Text) → ℕ → ℕ → PlanTask → Text → Bool → Text → Bool → Db → Db → Result Db
unfolding newest_job end_task_request move_task after_end
finish_running quote now next_job t session success summary capture db loaded =
    let job_id = newest_job (leased ∷ running ∷ retry_wait ∷ []) t.id loaded in
    move_task now (end_task_request now t session success summary job_id) loaded
    >>= after_end quote now next_job t success summary capture job_id db

-- A task that is not running: nothing is left to do for an ended or a pending one.
unfoldable pub finish_loaded :
    (quote : Text → Text)
    → ℕ
    → ℕ
    → Text
    → Bool
    → Text
    → Bool
    → Db
    → Option PlanTask
    → Db
    → Result Db
unfolding finish_running
finish_loaded quote now next_job session success summary capture db none loaded = err not_found
finish_loaded quote now next_job session success summary capture db (some t) loaded =
    if t.status == running
    then finish_running quote now next_job t session success summary capture db loaded
    else if is_terminal_status task t.status || t.status == pending
    then ok db
    else err invalid_transition

unfoldable pub finish_task :
    (quote : Text → Text) → ℕ → ℕ → PlanTask → Text → Bool → Text → Bool → Db → Result Db
unfolding summary_of finish_loaded
finish_task quote now next_job t session success message capture db =
    load_plan_execution_state t.columns.plan_id db >>= λ (loaded, s).
    finish_loaded quote now next_job session success (summary_of message) capture db
      (find_row t.id s.tasks) loaded
