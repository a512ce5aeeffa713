-- ===== src/Start.antt =====
-- backend/internal/repository/queue.go: `StartTask`, and `blockQueuedTaskForSchedulingTx`, which
-- commits what a refused start writes.
pub mod Ready
pub mod Refused
use specrelay.Prelude.{
  ℕ, Bool, true, false, not, ◌&&◌, Option, none, some, List, [], ◌∷◌, ◌++◌, ◌==◌, ◌*◌,
  if◌then◌else◌, contains, ltb, Text, text, text_eq, nat_eq,
}
use specrelay.Failure.{Result, ok, err, guard, not_found, no_rows, ◌>>=◌, ◌>>◌}
use specrelay.Status.{
  Status, status_eq, queued, running, pending, ready, validating, blocked, leased,
}
use specrelay.Metadata.{object, uuid_value, RawObject}
use specrelay.Gate.{LifecycleTransitionRequest, find_row}
use specrelay.Store.{TaskColumns, PlanColumns, PlanTask, Job, Db}
use specrelay.Claim.{first_by, filter_by}
use specrelay.Blocker.{
  PlanExecutionBlocker, PlanExecutionState, nothing_runnable, plan_is, plan_not_running,
  task_scheduling_blocker,
}
use specrelay.Blocker.Message.{blocked_error}
use specrelay.Checkpoint.{bound_checkpoint_text}
use specrelay.Schedule.{NextTask, next_task, complete, blocked_by, next_plan_task}
use specrelay.Snapshot.{require_plan_execution_baseline}
use specrelay.Load.{load_plan_execution_state}
use specrelay.Stop.{is_job_of, read_task}
use specrelay.Enqueue.{
  Scheduled, scheduled, scheduling_blocked, base_request, move_task, move_plan, version_of,
  insert_event, no_runnable, earlier_blocker,
}

-- `maxTaskResultSummaryBytes` and `maxTaskResultSummaryLines`.
unfoldable pub summary_of : Text → Text
unfolding bound_checkpoint_text
summary_of message = (bound_checkpoint_text message (16 * 1024) 200).0

abbrev id_of : Option Job → Option ℕ
id_of none = none
id_of (some j) = some j.id

-- The newest job of a task with one of the statuses.
unfoldable pub newest_job : List Status → ℕ → Db → Option ℕ
unfolding first_by filter_by
newest_job statuses id db = id_of (
    first_by (λ (i : Job) (j : Job). ltb j.columns.created_at i.columns.created_at)
      (filter_by (λ (j : Job). is_job_of id j && contains statuses j.status) db.jobs.rows))

-- The member "blockers" of the checkpoint is left out.
abbrev pub task_checkpoint : ℕ → RawObject
task_checkpoint id = object ((text "taskId", uuid_value id) ∷ [])

unfoldable pub withdraw_request :
    Text → PlanTask → Option ℕ → LifecycleTransitionRequest TaskColumns
withdraw_request reason t job_id = record (base_request t.id pending) {
  status_source = text "worker";
  reason_code = text "validation_failed";
  reason = reason;
  recovery_hint = text "manual_review";
  related_job_id = job_id;
  expected_statuses = queued ∷ [];
  fields = λ c. record c { started_at = none; finished_at = none };
}

unfoldable pub hold_request :
    Text → Text → PlanExecutionState → ℕ → Option ℕ → LifecycleTransitionRequest PlanColumns
hold_request source reason s id job_id = record (base_request s.plan_id blocked) {
  status_source = source;
  reason_code = text "validation_failed";
  reason = reason;
  recovery_hint = text "manual_review";
  execution_checkpoint = task_checkpoint id;
  related_job_id = job_id;
  expected_statuses = s.status ∷ [];
  allow_non_contract = true;
  ignore_terminal = true;
}

-- An event of the plan, unless the write was idempotent.
abbrev pub plan_event : Text → ℕ → ℕ → Db × Bool → Db
plan_event type project plan_id (db, idempotent) =
    if idempotent then db else insert_event type project plan_id (version_of plan_id db.plans) db

unfoldable pub hold_plan :
    ℕ → LifecycleTransitionRequest PlanColumns → PlanExecutionState → Db → Result Db
unfolding move_plan insert_event
hold_plan now q s db = move_plan now q db >>= λ moved.
    ok (plan_event (text "plan.blocked") s.project_id s.plan_id moved)

unfoldable pub withdraw_task :
    ℕ → LifecycleTransitionRequest TaskColumns → PlanTask → Db → Result Db
unfolding move_task
withdraw_task now q t db =
    if t.status == queued then (move_task now q db >>= λ (db', idempotent). ok db') else ok db

unfoldable pub block_queued_task_for_scheduling :
    (quote : Text → Text)
    → ℕ
    → PlanExecutionState
    → PlanTask
    → Option ℕ
    → List PlanExecutionBlocker
    → Db
    → Result Db
unfolding blocked_error withdraw_request hold_request hold_plan withdraw_task summary_of
block_queued_task_for_scheduling quote now s t job_id blockers db =
    let reason = summary_of (blocked_error quote blockers) in
    withdraw_task now (withdraw_request reason t job_id) t db >>= λ db'.
    if contains (ready ∷ running ∷ validating ∷ blocked ∷ []) s.status
    then hold_plan now (hold_request (text "worker") reason s t.id job_id) s db'
    else ok db'

abbrev pub gate_blockers : NextTask → List PlanExecutionBlocker
gate_blockers (blocked_by blockers) = blockers
gate_blockers _ = []

abbrev pub running_blockers : PlanExecutionState → PlanTask → List PlanExecutionBlocker
running_blockers s t =
    if s.status == running
    then []
    else task_scheduling_blocker plan_not_running t (plan_is s.status t.columns.task_key) ∷ []

-- What is refused of a task that no other gate has refused.
abbrev pub order_blockers : NextTask → PlanTask → List PlanExecutionBlocker
order_blockers (next_task n) t = if n.id == t.id then [] else earlier_blocker n t ∷ []
order_blockers _ t = no_runnable nothing_runnable ∷ []

abbrev pub or_order : NextTask → PlanTask → List PlanExecutionBlocker → List PlanExecutionBlocker
or_order next t [] = order_blockers next t
or_order next t (b ∷ bs) = b ∷ bs

unfoldable pub start_blockers : PlanExecutionState → PlanTask → List PlanExecutionBlocker
start_blockers s t =
    let next = next_plan_task s false (some t.id) in
    or_order next t (gate_blockers next ++ running_blockers s t)

unfoldable pub run_task_request : ℕ → ℕ → Option ℕ → LifecycleTransitionRequest TaskColumns
run_task_request now id job_id = record (base_request id running) {
  status_source = text "worker";
  reason_code = text "worker_started";
  reason = text "worker started task execution after dependency gate recheck";
  recovery_hint = text "retry_from_start";
  related_job_id = job_id;
  expected_statuses = queued ∷ [];
  mismatch_error = some not_found;
  fields = λ c. record c { started_at = some now };
}

unfoldable pub validate_plan_request : PlanTask → Option ℕ → LifecycleTransitionRequest PlanColumns
validate_plan_request t job_id = record (base_request t.columns.plan_id validating) {
  status_source = text "worker";
  reason_code = text "validation_started";
  reason = text "final validation task started";
  recovery_hint = text "retry_from_start";
  execution_checkpoint = task_checkpoint t.id;
  related_job_id = job_id;
  expected_statuses = running ∷ [];
}

-- The final validation task moves its plan as well.
unfoldable pub validate_plan : ℕ → PlanTask → Option ℕ → Db → Result Db
unfolding move_plan validate_plan_request insert_event
validate_plan now t job_id db =
    if t.columns.task_type == text "final_validation"
    then (move_plan now (validate_plan_request t job_id) db >>= λ (db', idempotent). ok (
        insert_event (text "plan.validating") t.project_id t.columns.plan_id
          (version_of t.columns.plan_id db'.plans) db'))
    else ok db

unfoldable pub start_ready :
    ℕ → PlanExecutionState → PlanTask → Option ℕ → Db → Result (Db × PlanTask)
unfolding require_plan_execution_baseline move_task run_task_request read_task validate_plan
start_ready now s t job_id db = do
  guard (t.status == queued) not_found
  require_plan_execution_baseline s.plan_id db
  (db1, idempotent) ← move_task now (run_task_request now t.id job_id) db
  t' ← read_task t.id db1.tasks
  db2 ← validate_plan now t' job_id db1
  ok (db2, t')

-- A refused start commits its writes, so the database is there in both cases.
unfoldable pub start_unless :
    (quote : Text → Text)
    → ℕ
    → PlanExecutionState
    → PlanTask
    → Option ℕ
    → Db
    → List PlanExecutionBlocker
    → Result (Db × Scheduled PlanTask)
unfolding start_ready block_queued_task_for_scheduling
start_unless quote now s t job_id db [] =
    start_ready now s t job_id db >>= λ (db', t'). ok (db', scheduled t')
start_unless quote now s t job_id db (b ∷ bs) =
    block_queued_task_for_scheduling quote now s t job_id (b ∷ bs) db >>= λ db'.
    ok (db', scheduling_blocked (b ∷ bs))

unfoldable pub start_loaded :
    (quote : Text → Text)
    → ℕ
    → Option PlanTask
    → Db × PlanExecutionState
    → Result (Db × Scheduled PlanTask)
unfolding start_unless start_blockers newest_job
start_loaded quote now none (db, s) = err not_found
start_loaded quote now (some t) (db, s) =
    start_unless quote now s t (newest_job (leased ∷ running ∷ []) t.id db) db (start_blockers s t)

unfoldable pub start_found :
    (quote : Text → Text) → ℕ → ℕ → Db → Option PlanTask → Result (Db × Scheduled PlanTask)
unfolding start_loaded
start_found quote now id db none = err not_found
start_found quote now id db (some t) =
    load_plan_execution_state t.columns.plan_id db >>= λ (db', s).
    start_loaded quote now (find_row id s.tasks) (db', s)

unfoldable pub start_task : (quote : Text → Text) → ℕ → ℕ → Db → Result (Db × Scheduled PlanTask)
unfolding start_found
start_task quote now id db = start_found quote now id db (find_row id db.tasks.rows)
