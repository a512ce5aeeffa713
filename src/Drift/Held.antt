-- ===== src/Drift/Held.antt =====
-- What BlockTaskJobForDrift (backend/internal/repository/cancellation.go) leaves behind.
use specrelay.Prelude.{ℕ, ◌≡◌, ◌⊎◌, true, some}
use specrelay.Status.{pending, blocked, failed}
use specrelay.Lifecycle.{plan, job, is_terminal_status}
use specrelay.Gate.{find_row}
use specrelay.Store.{Plan, PlanTask, Job, Db}

-- The rows of a job that was blocked: the task waits, and job and plan have ended or are stopped.
pub record IsDriftHeld (j : Job) (plan_id : ℕ) (db : Db) : Type 0 where
  pub task_row : PlanTask
  pub waits :
      (find_row j.columns.aggregate_id db.tasks.rows ≡ some task_row) × (task_row.status ≡ pending)
  pub plan_row : Plan
  pub plan_held :
      (find_row plan_id db.plans.rows ≡ some plan_row)
      × ((plan_row.status ≡ blocked) ⊎ (is_terminal_status plan plan_row.status ≡ true))
  pub job_row : Job
  pub job_ended :
      (find_row j.id db.jobs.rows ≡ some job_row)
      × ((job_row.status ≡ failed) ⊎ (is_terminal_status job job_row.status ≡ true))
