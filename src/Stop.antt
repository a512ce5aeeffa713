-- ===== src/Stop.antt =====
-- backend/internal/repository/cancellation.go: `StopTask`, in one transaction.
pub mod Stopped
pub mod Plans
pub mod Listed
pub mod Ended
use specrelay.Prelude.{
  ℕ, Bool, true, false, ◌&&◌, Option, none, some, List, [], ◌∷◌, ◌==◌, if◌then◌else◌, contains,
  Text, text, text_eq, nat_eq,
}
use specrelay.Failure.{
  Result, ok, err, guard, version_conflict, not_found, invalid_transition, no_rows, ◌>>=◌, ◌>>◌,
}
use specrelay.Status.{status_eq, queued, retry_wait, leased, running, pending, cancelled}
use specrelay.Lifecycle.{job, task}
use specrelay.Metadata.{absent}
use specrelay.Gate.{Table, LifecycleTransitionRequest, find_row, transition_lifecycle}
use specrelay.Store.{JobColumns, TaskColumns, Job, PlanTask, Db, in_flight}
use specrelay.Claim.{worker_of}
use specrelay.TaskReturn.{no_worker}

-- `aggregate_type='task' AND aggregate_id=$1`.
abbrev pub is_job_of : ℕ → Job → Bool
is_job_of id j = j.columns.aggregate_type == text "task" && j.columns.aggregate_id == id

unfoldable pub job_ids : (Job → Bool) → List Job → List ℕ
job_ids p [] = []
job_ids p (j ∷ js) = if p j then j.id ∷ job_ids p js else job_ids p js

-- The jobs whose processes the caller has to signal.
unfoldable pub active_jobs : ℕ → Db → List ℕ
unfolding job_ids
active_jobs id db = job_ids (λ j. is_job_of id j && in_flight j.status) db.jobs.rows

unfoldable pub unstarted_jobs : ℕ → Db → List ℕ
unfolding job_ids
unstarted_jobs id db =
    job_ids (λ j. is_job_of id j && contains (queued ∷ retry_wait ∷ leased ∷ []) j.status)
      db.jobs.rows

unfoldable pub stop_job_request : ℕ → LifecycleTransitionRequest JobColumns
stop_job_request id = record {
  resource_id = id;
  expected_version = 0;
  status = cancelled;
  status_source = text "user";
  reason_code = text "user_cancelled";
  reason = text "task stopped by user";
  last_activity_at = 0;
  recovery_hint = text "none";
  execution_checkpoint = absent;
  related_job_id = none;
  related_run_id = none;
  expected_status = none;
  expected_statuses = queued ∷ retry_wait ∷ leased ∷ [];
  require_worker_id = none;
  allow_non_contract = true;
  allow_terminal = false;
  ignore_terminal = true;
  mismatch_error = none;
  fields = λ c. record c { lease_expires_at = none };
}

unfoldable pub stop_jobs : ℕ → List ℕ → Table JobColumns → Result (Table JobColumns)
unfolding stop_job_request
stop_jobs now [] jobs = ok jobs
stop_jobs now (id ∷ ids) jobs = do
  (jobs', idempotent) ← transition_lifecycle job worker_of now (stop_job_request id) jobs
  stop_jobs now ids jobs'

abbrev first_id : List ℕ → Option ℕ
first_id [] = none
first_id (id ∷ ids) = some id

unfoldable pub stop_task_request : ℕ → ℕ → List ℕ → LifecycleTransitionRequest TaskColumns
stop_task_request id version jobs = record {
  resource_id = id;
  expected_version = version;
  status = pending;
  status_source = text "user";
  reason_code = text "user_cancelled";
  reason = text "task stopped by user";
  last_activity_at = 0;
  recovery_hint = text "retry_from_start";
  execution_checkpoint = absent;
  related_job_id = first_id jobs;
  related_run_id = none;
  expected_status = none;
  expected_statuses = queued ∷ [];
  require_worker_id = none;
  allow_non_contract = false;
  allow_terminal = false;
  ignore_terminal = false;
  mismatch_error = none;
  fields = λ c. record c { started_at = none; finished_at = none };
}

unfoldable pub read_task : ℕ → Table TaskColumns → Result PlanTask
read_task id tasks = elim (find_row id tasks.rows) [ none ↦ err no_rows | some t ↦ ok t ]

-- The database after the stop of a queued task, and the task as it is read back.
unfoldable pub finish_stop :
    ℕ → PlanTask → Db → Table JobColumns → Table TaskColumns → Result (Db × PlanTask)
finish_stop id t db jobs tasks = read_task id tasks >>= λ t'. ok (
  record db {
    jobs = jobs;
    tasks = tasks;
    events =
        record {
          event_type = text "task.cancelled";
          project_id = t.project_id;
          aggregate_id = t.id;
          resource_version = t'.version;
        }
        ∷ db.events;
  },
  t',
)

unfoldable pub stop_queued : ℕ → ℕ → ℕ → PlanTask → Db → Result (Db × PlanTask)
unfolding finish_stop
stop_queued now id version t db = stop_jobs now (unstarted_jobs id db) db.jobs >>= λ jobs.
    transition_lifecycle task no_worker now (stop_task_request id version (unstarted_jobs id db))
      db.tasks
    >>= λ (tasks, idempotent). finish_stop id t db jobs tasks

unfoldable pub stop_found : ℕ → ℕ → ℕ → Db → Option PlanTask → Result (Db × PlanTask)
unfolding stop_queued
stop_found now id version db none = err not_found
stop_found now id version db (some t) = do
  guard (t.version == version) version_conflict
  guard (contains (queued ∷ running ∷ []) t.status) invalid_transition
  if t.status == queued then stop_queued now id version t db else ok (db, t)

unfoldable pub stop_task : ℕ → ℕ → ℕ → Db → Result ((Db × PlanTask) × List ℕ)
unfolding stop_found active_jobs
stop_task now id version db = do
  stopped ← stop_found now id version db (find_row id db.tasks.rows)
  ok (stopped, active_jobs id db)
