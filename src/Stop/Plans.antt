-- ===== src/Stop/Plans.antt =====
-- backend/internal/repository/cancellation.go: `StopPlan`, in one transaction, and `DeletePlan`.
use specrelay.Prelude.{
  ℕ, Bool, true, false, ◌&&◌, not, none, some, List, [], ◌∷◌, ◌==◌, ◌+◌, if◌then◌else◌, contains,
  text, text_eq, nat_eq,
}
use specrelay.Failure.{
  Result, ok, err, guard, no_rows, not_found, version_conflict, invalid_transition, ◌>>=◌, ◌>>◌,
}
use specrelay.Status.{
  status_eq, ready, running, validating, blocked, generating, queued, retry_wait, leased, pending,
  cancelled,
}
use specrelay.Lifecycle.{job}
use specrelay.Gate.{Table, LifecycleTransitionRequest, Row, find_row, transition_lifecycle}
use specrelay.Store.{
  JobColumns, TaskColumns, PlanColumns, Job, PlanTask, Plan, Snapshot, DriftAudit, WorkspaceLease,
  Db,
}
use specrelay.Claim.{worker_of}
use specrelay.TaskReturn.{current_task_job_id}
use specrelay.Enqueue.{base_request, insert_event, move_plan, move_task}
use specrelay.Snapshot.{audit_plan_execution_abandoned}
use specrelay.Stop.{job_ids, stop_job_request}

-- `aggregate_type='task' AND aggregate_id IN (SELECT id FROM plan_tasks WHERE plan_id=$1)`.
abbrev pub is_task_of : ℕ → ℕ → List PlanTask → Bool
is_task_of plan id [] = false
is_task_of plan id (t ∷ ts) =
    if t.columns.plan_id == plan && t.id == id then true else is_task_of plan id ts

abbrev pub is_plan_job : ℕ → List PlanTask → Job → Bool
is_plan_job plan tasks j =
    j.columns.aggregate_type == text "task" && is_task_of plan j.columns.aggregate_id tasks

-- A job of the plan that no worker runs yet.
abbrev pub is_unstarted : ℕ → List PlanTask → Job → Bool
is_unstarted plan tasks j =
    is_plan_job plan tasks j && contains (queued ∷ retry_wait ∷ leased ∷ []) j.status

abbrev pub is_queued_task : ℕ → PlanTask → Bool
is_queued_task plan t = t.columns.plan_id == plan && t.status == queued

-- The plan's running jobs, whose processes the caller has to signal.
unfoldable pub running_jobs : ℕ → Db → List ℕ
unfolding job_ids
running_jobs plan db =
    job_ids (λ j. is_plan_job plan db.tasks.rows j && j.status == running) db.jobs.rows

unfoldable pub row_ids : {X : Type 0} → (Row X → Bool) → List (Row X) → List ℕ
row_ids p [] = []
row_ids p (r ∷ rs) = if p r then r.id ∷ row_ids p rs else row_ids p rs

unfoldable pub stop_plan_request : ℕ → ℕ → LifecycleTransitionRequest PlanColumns
stop_plan_request id version = record (base_request id cancelled) {
  expected_version = version;
  status_source = text "user";
  reason_code = text "user_cancelled";
  reason = text "plan stopped by user";
  recovery_hint = text "none";
  expected_statuses = ready ∷ running ∷ validating ∷ blocked ∷ [];
  allow_non_contract = true;
  ignore_terminal = true;
}

unfoldable pub stop_plan_job_request : ℕ → LifecycleTransitionRequest JobColumns
unfolding stop_job_request
stop_plan_job_request id = record (stop_job_request id) { reason = text "plan stopped by user" }

unfoldable pub stop_plan_jobs : ℕ → List ℕ → Table JobColumns → Result (Table JobColumns)
unfolding stop_plan_job_request
stop_plan_jobs now [] jobs = ok jobs
stop_plan_jobs now (id ∷ ids) jobs = do
  (jobs', idempotent) ← transition_lifecycle job worker_of now (stop_plan_job_request id) jobs
  stop_plan_jobs now ids jobs'

unfoldable pub stop_plan_task_request : ℕ → Db → LifecycleTransitionRequest TaskColumns
unfolding current_task_job_id
stop_plan_task_request id db = record (base_request id pending) {
  status_source = text "user";
  reason_code = text "user_cancelled";
  reason = text "plan stopped by user";
  recovery_hint = text "retry_from_start";
  related_job_id = current_task_job_id id db.jobs.rows;
  expected_statuses = queued ∷ [];
  fields = λ c. record c { started_at = none; finished_at = none };
}

abbrev version_of_task : ℕ → Table TaskColumns → ℕ
version_of_task id tasks = elim (find_row id tasks.rows) [ none ↦ 0 | some t ↦ t.version ]

unfoldable pub stop_plan_tasks : ℕ → ℕ → List ℕ → Db → Result Db
unfolding move_task stop_plan_task_request insert_event
stop_plan_tasks now project [] db = ok db
stop_plan_tasks now project (id ∷ ids) db = do
  (moved, idempotent) ← move_task now (stop_plan_task_request id db) db
  stop_plan_tasks now project ids
      (insert_event (text "task.cancelled") project id (version_of_task id moved.tasks) moved)

unfoldable pub read_plan : ℕ → Db → Result Plan
read_plan id db = elim (find_row id db.plans.rows) [ none ↦ err no_rows | some p ↦ ok p ]

-- What follows the plan's own transition, on the database that it has left.
unfoldable pub stop_plan_work : ℕ → ℕ → Plan → Bool → Db → Result Db
unfolding stop_plan_jobs stop_plan_tasks row_ids insert_event
stop_plan_work now plan p idempotent db = do
  jobs ← stop_plan_jobs now (row_ids (is_unstarted plan db.tasks.rows) db.jobs.rows) db.jobs
  stopped ←
      stop_plan_tasks now p.project_id (row_ids (is_queued_task plan) db.tasks.rows)
        (record db { jobs = jobs })
  ok (
      if idempotent
      then stopped
      else insert_event (text "plan.cancelled") p.project_id p.id p.version stopped)

-- The plans of the database after the UPDATE, with what its trigger adds: an idempotent request has
-- found the plan ended already or has written nothing.
abbrev pub after_stop : ℕ → Db × Bool → Db
after_stop plan (db, idempotent) = if idempotent then db else audit_plan_execution_abandoned plan db

unfoldable pub stop_plan : ℕ → ℕ → ℕ → Db → Result ((Db × Plan) × List ℕ)
unfolding move_plan stop_plan_request read_plan stop_plan_work running_jobs
    audit_plan_execution_abandoned
stop_plan now plan version db = do
  (updated, idempotent) ← move_plan now (stop_plan_request plan version) db
  let moved = after_stop plan (updated, idempotent)
  p ← read_plan plan moved
  db' ← stop_plan_work now plan p idempotent moved
  ok ((db', p), running_jobs plan moved)

-- The rows that a DELETE leaves.
unfoldable pub without : {X : Type 0} → (X → Bool) → List X → List X
without p [] = []
without p (x ∷ xs) = if p x then without p xs else x ∷ without p xs

-- Whether a job with this identifier is deleted.
abbrev leased_by : ℕ → (Job → Bool) → List Job → Bool
leased_by id deleted [] = false
leased_by id deleted (j ∷ js) = if deleted j && j.id == id then true else leased_by id deleted js

-- The DELETE of the jobs takes their workspace leases along, and the DELETE of the plan's row the rows
-- that refer to it (ON DELETE CASCADE).
unfoldable pub delete_rows : ℕ → Plan → Db → Db
unfolding without insert_event
delete_rows plan p db =
    insert_event (text "plan.deleted") p.project_id plan (p.version + 1) (record db {
      plans = record db.plans { rows = without (λ (q : Plan). q.id == plan) db.plans.rows };
      tasks = record db.tasks {
        rows = without (λ (t : PlanTask). t.columns.plan_id == plan) db.tasks.rows;
      };
      jobs = record db.jobs { rows = without (is_plan_job plan db.tasks.rows) db.jobs.rows };
      leases =
          without
            (λ (l : WorkspaceLease).
              leased_by l.job_id (is_plan_job plan db.tasks.rows) db.jobs.rows)
            db.leases;
      snapshots = without (λ (s : Snapshot). s.plan_id == plan) db.snapshots;
      drift_audits = without (λ (a : DriftAudit). a.plan_id == plan) db.drift_audits;
    })

unfoldable pub delete_plan : ℕ → ℕ → Db → Result Db
unfolding delete_rows
delete_plan plan version db = elim (find_row plan db.plans.rows) [
  | none ↦ err not_found
  | some p ↦
      guard (p.version == version) version_conflict
      >> guard (not (contains (running ∷ validating ∷ generating ∷ []) p.status)) invalid_transition
      >> ok (delete_rows plan p db)
]
