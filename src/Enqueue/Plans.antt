-- ===== src/Enqueue/Plans.antt =====
-- backend/internal/repository/queue.go: `queuePlanTx`, `QueuePlan` and `QueuePlanAutomatically`.
-- `digest` is the SHA-256 of a configuration's normal form, which the code compares.
pub mod Started
use specrelay.Prelude.{
  ℕ, Bool, true, false, not, ◌&&◌, ◌||◌, Option, none, some, List, [], ◌∷◌, ◌==◌, if◌then◌else◌,
  contains, Text, text, text_eq, nat_eq,
}
use specrelay.Failure.{
  Result, ok, err, guard, no_rows, not_found, version_conflict, invalid_transition, ◌>>=◌, ◌>>◌,
}
use specrelay.Status.{Status, status_eq, queued, running, ready, blocked}
use specrelay.Metadata.{object, uuid_value}
use specrelay.Gate.{Row, Table, LifecycleTransitionRequest, find_row, put_row}
use specrelay.Store.{
  TaskColumns, PlanColumns, ConfigSnapshot, Project, Plan, PlanTask, Job, Snapshot, Db,
}
use specrelay.Blocker.{
  PlanExecutionBlocker, PlanExecutionState, nothing_runnable, nothing_resumable, resume_required,
  manual_resume_required, task_scheduling_blocker,
}
use specrelay.Schedule.{NextTask, next_task, complete, blocked_by, next_plan_task}
use specrelay.Snapshot.{
  latest_snapshot, require_plan_execution_baseline, capture_plan_execution_snapshot,
  insert_plan_drift_audit,
}
use specrelay.Load.{load_plan_execution_state}
use specrelay.Provider.{
  execution_provider_from_context, plan_config_snapshot_with_provider,
  provider_from_plan_config_snapshot,
}
use specrelay.Enqueue.{
  Scheduled, scheduled, scheduling_blocked, base_request, move_task, move_plan, version_of,
  insert_event, add_task_job, find_project, no_runnable, startable,
}

abbrev source_of : Bool → Text
source_of automatic = if automatic then text "automation" else text "user"

abbrev pub allowed_plan_statuses : Bool → List Status
allowed_plan_statuses automatic = if automatic then ready ∷ [] else ready ∷ blocked ∷ []

unfoldable pub run_plan_request :
    ℕ → ℕ → Bool → PlanTask → PlanExecutionState → LifecycleTransitionRequest PlanColumns
run_plan_request now job_id automatic n s = record (base_request s.plan_id running) {
  expected_version = s.version;
  status_source = source_of automatic;
  reason_code = text "resume_requested";
  reason = text "plan execution queued";
  execution_checkpoint = object ((text "taskId", uuid_value n.id) ∷ []);
  related_job_id = some job_id;
  expected_statuses = allowed_plan_statuses automatic;
  allow_non_contract = true;
  fields = λ c. record c { execution_started_at = some now };
}

unfoldable pub queue_first_request : ℕ → Bool → PlanTask → LifecycleTransitionRequest TaskColumns
queue_first_request job_id automatic n = record (base_request n.id queued) {
  status_source = source_of automatic;
  reason_code = text "resume_requested";
  reason = text "earliest dependency-ready task queued";
  related_job_id = some job_id;
  expected_statuses = n.status ∷ [];
  allow_non_contract = true;
  allow_terminal = true;
}

-- `UPDATE plans SET config_snapshot=$2 WHERE id=$1`.
abbrev pub set_config : ConfigSnapshot → Option Plan → Table PlanColumns → Table PlanColumns
set_config new none plans = plans
set_config new (some p) plans = record plans {
  rows = put_row (record p { columns = record p.columns { config_snapshot = new } }) plans.rows;
}

abbrev pub latest_or_error : Option Snapshot → Result Snapshot
latest_or_error none = err no_rows
latest_or_error (some s) = ok s

-- A selection that changes the configuration is accepted in a new snapshot.
unfoldable pub accept_config :
    (ConfigSnapshot → Text) → PlanExecutionState → ConfigSnapshot → Db → Result Db
unfolding latest_snapshot capture_plan_execution_snapshot provider_from_plan_config_snapshot
    insert_plan_drift_audit
accept_config digest s new db =
    let accept = (do
      previous ← latest_or_error (latest_snapshot s.plan_id db.snapshots)
      (db', accepted) ← capture_plan_execution_snapshot s.plan_id (text "user_accepted") none db
      before ← provider_from_plan_config_snapshot s.config_snapshot
      after ← provider_from_plan_config_snapshot new
      ok (
          insert_plan_drift_audit s.plan_id (text "snapshot_updated") (some previous.sequence)
            (some accepted.sequence) db')) in
    if digest s.config_snapshot == digest new then ok db else accept

unfoldable pub run_next :
    (ConfigSnapshot → Text)
    → ℕ
    → ℕ
    → Text × Bool
    → Bool
    → PlanTask
    → PlanExecutionState
    → Db
    → Result (Db × Job)
unfolding plan_config_snapshot_with_provider move_task move_plan run_plan_request
    queue_first_request accept_config add_task_job insert_event
run_next digest now job_id (provider, requested) automatic n s db = do
  require_plan_execution_baseline s.plan_id db
  new ← plan_config_snapshot_with_provider s.config_snapshot provider
  (db1, plan_idempotent) ← move_plan now (run_plan_request now job_id automatic n s) db
  (db2, task_idempotent) ← move_task now (queue_first_request job_id automatic n) db1
  db3 ←
      accept_config digest s new
        (record db2 { plans = set_config new (find_row s.plan_id db2.plans.rows) db2.plans })
  (db4, job) ← add_task_job now job_id s.project_id n.id s.plan_id provider requested db3
  ok (
    insert_event (text "plan.running") s.project_id s.plan_id (version_of s.plan_id db1.plans) db4,
    job,
  )

unfoldable pub run_chosen :
    (ConfigSnapshot → Text)
    → ℕ
    → ℕ
    → Text × Bool
    → Bool
    → PlanExecutionState
    → Db
    → NextTask
    → Result (Scheduled (Db × Job))
unfolding run_next
run_chosen digest now job_id selection automatic s db (blocked_by blockers) =
    ok (scheduling_blocked blockers)
run_chosen digest now job_id selection automatic s db complete =
    ok (scheduling_blocked (no_runnable nothing_runnable ∷ []))
run_chosen digest now job_id selection automatic s db (next_task n) =
    guard (contains startable n.status) invalid_transition
    >> (run_next digest now job_id selection automatic n s db >>= λ queued_job.
        ok (scheduled queued_job))

-- What automation answers for a plan that is blocked already.
unfoldable pub resume_refused : NextTask → List PlanExecutionBlocker
resume_refused (blocked_by blockers) = blockers
resume_refused complete = no_runnable nothing_resumable ∷ []
resume_refused (next_task n) =
    task_scheduling_blocker manual_resume_required n (resume_required n.columns.task_key) ∷ []

abbrev pub selected : Bool → Option Text → Text × Bool
selected automatic selection =
    if automatic then ([], false) else execution_provider_from_context selection

unfoldable pub queue_plan_in :
    (ConfigSnapshot → Text)
    → ℕ
    → ℕ
    → Option Text
    → Bool
    → ℕ
    → Db × PlanExecutionState
    → Result (Scheduled (Db × Job))
unfolding run_chosen resume_refused execution_provider_from_context
queue_plan_in digest now job_id selection automatic version (db, s) =
    let chosen =
      run_chosen digest now job_id (selected automatic selection) automatic s db
        (next_plan_task s automatic none) in
    guard (s.version == version) version_conflict
    >> (if contains (allowed_plan_statuses automatic) s.status
        then chosen
        else if automatic && s.status == blocked
        then ok (scheduling_blocked (resume_refused (next_plan_task s true none)))
        else err invalid_transition)

unfoldable pub queue_plan :
    (ConfigSnapshot → Text)
    → ℕ
    → ℕ
    → Option Text
    → Bool
    → ℕ
    → ℕ
    → Db
    → Result (Scheduled (Db × Job))
unfolding queue_plan_in
queue_plan digest now job_id selection automatic plan_id version db =
    load_plan_execution_state plan_id db
    >>= queue_plan_in digest now job_id selection automatic version

abbrev is_automated : Option Project → Bool
is_automated none = false
is_automated (some p) = p.automation_enabled

-- `none` is the answer `false` of a plan that automation does not start.
unfoldable pub queue_plan_automatically :
    (ConfigSnapshot → Text) → ℕ → ℕ → ℕ → Db → Option (Result (Scheduled (Db × Job)))
unfolding queue_plan find_project
queue_plan_automatically digest now job_id plan_id db = elim (find_row plan_id db.plans.rows) [
  | none ↦ none
  | some p ↦
      if is_automated (find_project p.project_id db.projects)
        && contains (ready ∷ blocked ∷ []) p.status
      then some (queue_plan digest now job_id none true plan_id p.version db)
      else none
]
