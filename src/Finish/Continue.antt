-- ===== src/Finish/Continue.antt =====
-- backend/internal/repository/queue.go: what `finishTask` does with the plan of a task that has
-- succeeded, and `blockPlanAfterSchedulingGateTx`.
use specrelay.Prelude.{
  ℕ, ◌+◌, Bool, true, false, Option, none, some, List, [], ◌∷◌, ◌==◌, if◌then◌else◌, contains, Text,
  text, text_eq, nat_eq,
}
use specrelay.Failure.{Result, ok, err, guard, no_rows, no_blocker, ◌>>=◌, ◌>>◌}
use specrelay.Status.{
  status_eq, running, pending, validating, queued, cancelled, completed, planned, closed,
}
use specrelay.Gate.{LifecycleTransitionRequest, find_row}
use specrelay.Store.{TaskColumns, PlanColumns, Intake, Plan, PlanTask, Db}
use specrelay.Blocker.{PlanExecutionBlocker, PlanExecutionState}
use specrelay.Blocker.Message.{blocked_error}
use specrelay.Schedule.{NextTask, next_task, complete, blocked_by, next_plan_task}
use specrelay.Snapshot.{capture_plan_execution_snapshot, audit_plan_execution_abandoned}
use specrelay.Load.{load_plan_execution_state}
use specrelay.Provider.{provider_from_plan_config_snapshot}
use specrelay.Enqueue.{
  base_request, move_task, move_plan, version_of, insert_event, add_task_job, find_project,
}
use specrelay.Start.{summary_of, task_checkpoint, hold_request, hold_plan}

-- `UPDATE intakes SET status='closed' … WHERE id=$1 AND status='planned' RETURNING version`.
unfoldable pub close_intake : ℕ → List Intake → List Intake × Option ℕ
close_intake id [] = ([], none)
close_intake id (i ∷ is) =
    let rest = close_intake id is in
    if i.id == id
    then (if i.status == planned
        then (record i { status = closed; version = i.version + 1 } ∷ is, some (i.version + 1))
        else (i ∷ is, none))
    else (i ∷ rest.0, rest.1)

abbrev pub intake_event : ℕ → ℕ → Option ℕ → Db → Db
intake_event project id none db = db
intake_event project id (some version) db =
    insert_event (text "intake.closed") project id version db

unfoldable pub close_plan_intake : ℕ → ℕ → Db → Db
unfolding close_intake insert_event
close_plan_intake project id db =
    let closing = close_intake id db.intakes in
    intake_event project id closing.1 (record db { intakes = closing.0 })

unfoldable pub complete_plan_request : PlanTask → Option ℕ → LifecycleTransitionRequest PlanColumns
complete_plan_request t job_id = record (base_request t.columns.plan_id completed) {
  status_source = text "worker";
  reason_code = text "completed";
  reason = text "all plan tasks and acceptance gates completed successfully";
  execution_checkpoint = task_checkpoint t.id;
  related_job_id = job_id;
  expected_statuses = running ∷ validating ∷ [];
  ignore_terminal = true;
}

abbrev pub after_completion : PlanTask → ℕ → Db × Bool → Db
after_completion t intake (db, idempotent) =
    if idempotent
    then db
    else close_plan_intake t.project_id intake (
        insert_event (text "plan.completed") t.project_id t.columns.plan_id
          (version_of t.columns.plan_id db.plans) db)

unfoldable pub complete_plan : ℕ → PlanTask → ℕ → Option ℕ → Db → Result Db
unfolding move_plan complete_plan_request close_plan_intake insert_event
complete_plan now t intake job_id db =
    move_plan now (complete_plan_request t job_id) db >>= λ moved.
    ok (after_completion t intake moved)

unfoldable pub cancel_plan_request : PlanTask → Option ℕ → LifecycleTransitionRequest PlanColumns
cancel_plan_request t job_id = record (base_request t.columns.plan_id cancelled) {
  status_source = text "automation";
  reason_code = text "automation_disabled";
  reason = text "project automation stopped";
  execution_checkpoint = task_checkpoint t.id;
  related_job_id = job_id;
  expected_statuses = running ∷ validating ∷ [];
  allow_non_contract = true;
  ignore_terminal = true;
}

abbrev pub after_cancel : PlanTask → Db × Bool → Db
after_cancel t (db, idempotent) =
    if idempotent
    then db
    else audit_plan_execution_abandoned t.columns.plan_id (
        insert_event (text "plan.cancelled") t.project_id t.columns.plan_id
          (version_of t.columns.plan_id db.plans) db)

unfoldable pub cancel_plan : ℕ → PlanTask → Option ℕ → Db → Result Db
unfolding move_plan cancel_plan_request audit_plan_execution_abandoned insert_event
cancel_plan now t job_id db =
    move_plan now (cancel_plan_request t job_id) db >>= λ moved. ok (after_cancel t moved)

unfoldable pub queue_following_request : ℕ → PlanTask → LifecycleTransitionRequest TaskColumns
queue_following_request next_job n = record (base_request n.id queued) {
  status_source = text "automation";
  reason_code = text "resume_requested";
  reason = text "earliest dependency-ready task queued";
  related_job_id = some next_job;
  expected_statuses = pending ∷ [];
}

unfoldable pub queue_following : ℕ → ℕ → PlanTask → Text → PlanTask → Db → Result Db
unfolding move_task queue_following_request add_task_job insert_event
queue_following now next_job t provider n db = do
  guard (n.status == pending) no_blocker
  (db1, idempotent) ← move_task now (queue_following_request next_job n) db
  (db2, job) ← add_task_job now next_job t.project_id n.id t.columns.plan_id provider false db1
  ok (insert_event (text "task.queued") t.project_id n.id (version_of n.id db2.tasks) db2)

unfoldable pub block_plan_after_scheduling_gate :
    (quote : Text → Text)
    → ℕ
    → PlanExecutionState
    → ℕ
    → Option ℕ
    → List PlanExecutionBlocker
    → Db
    → Result Db
unfolding summary_of blocked_error hold_request hold_plan
block_plan_after_scheduling_gate quote now s id job_id blockers db =
    hold_plan now
      (hold_request (text "automation") (summary_of (blocked_error quote blockers)) s id job_id) s
      db

unfoldable pub follow :
    (quote : Text → Text)
    → ℕ
    → ℕ
    → PlanTask
    → Option ℕ
    → ℕ
    → PlanExecutionState
    → Text
    → Db
    → NextTask
    → Result Db
unfolding block_plan_after_scheduling_gate complete_plan queue_following
follow quote now next_job t job_id intake s provider db (blocked_by blockers) =
    block_plan_after_scheduling_gate quote now s t.id job_id blockers db
follow quote now next_job t job_id intake s provider db complete =
    complete_plan now t intake job_id db
follow quote now next_job t job_id intake s provider db (next_task n) =
    queue_following now next_job t provider n db

-- The plan with its project, as the JOIN finds them.
unfoldable pub plan_and_automation : ℕ → Db → Result (Plan × Bool)
unfolding find_project
plan_and_automation plan_id db = elim (find_row plan_id db.plans.rows) [
  | none ↦ err no_rows
  | some p ↦ elim (find_project p.project_id db.projects) [
    | none ↦ err no_rows
    | some project ↦ ok (p, project.automation_enabled)
  ]
]

unfoldable pub decide_next :
    (quote : Text → Text)
    → ℕ
    → ℕ
    → PlanTask
    → Option ℕ
    → Db
    → PlanExecutionState
    → Plan × Bool
    → Result Db
unfolding cancel_plan follow provider_from_plan_config_snapshot
decide_next quote now next_job t job_id db s (p, automated) =
    let go_on = provider_from_plan_config_snapshot s.config_snapshot >>= λ provider.
    follow quote now next_job t job_id p.columns.intake_id s provider db
      (next_plan_task s true none) in
    if automated then go_on else cancel_plan now t job_id db

unfoldable pub continue_loaded :
    (quote : Text → Text) → ℕ → ℕ → PlanTask → Option ℕ → Db × PlanExecutionState → Result Db
unfolding decide_next plan_and_automation
continue_loaded quote now next_job t job_id (db, s) =
    if contains (cancelled ∷ completed ∷ []) s.status
    then ok db
    else (plan_and_automation t.columns.plan_id db >>= decide_next quote now next_job t job_id db s)

unfoldable pub checkpoint_if : Bool → PlanTask → Db → Result Db
unfolding capture_plan_execution_snapshot
checkpoint_if capture t db =
    if capture
    then (capture_plan_execution_snapshot t.columns.plan_id (text "task_checkpoint") (some t.id) db
        >>= λ (db', snapshot). ok db')
    else ok db

unfoldable pub continue_plan :
    (quote : Text → Text) → ℕ → ℕ → PlanTask → Bool → Option ℕ → Db → Result Db
unfolding checkpoint_if continue_loaded
continue_plan quote now next_job t capture job_id db = checkpoint_if capture t db >>= λ db'.
    load_plan_execution_state t.columns.plan_id db' >>= continue_loaded quote now next_job t job_id
