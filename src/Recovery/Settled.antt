-- ===== src/Recovery/Settled.antt =====
-- What recovery leaves of the task and the plan of a lost job.
use specrelay.Prelude.{
  ℕ, ◌≡◌, ◌⊎◌, Bool, true, false, Option, none, some, text_eq, ◌||◌, if◌then◌else◌,
}
use specrelay.Status.{
  Status, status_eq, running, validating, blocked, pending, cancelled, interrupted,
}
use specrelay.Lifecycle.{task, plan, is_terminal_status}
use specrelay.Gate.{find_row}
use specrelay.Store.{Plan, PlanTask, Db}
use specrelay.Recovery.{RecoveryJob, RecoveryRun, has_no_pid, is_status}

-- The plan that is to be blocked is blocked, or has ended on its own; without one, no plan changes.
abbrev pub IsHeldPlan : Option ℕ → Db → Db → Type 0
IsHeldPlan none db db' = db'.plans ≡ db.plans
IsHeldPlan (some plan_id) db db' =
    (p : Plan) × (find_row plan_id db'.plans.rows ≡ some p)
    × ((p.status ≡ blocked) ⊎ (is_terminal_status plan p.status ≡ true))

-- What becomes of the task: after a wish to cancel it is cancelled, after a run without a process it
-- waits again, and otherwise it was interrupted.
abbrev pub task_after : Option RecoveryRun → Bool → Status
task_after run true = cancelled
task_after run false = if has_no_pid run then pending else interrupted

-- The plan that is held: the job's, where it was at work and nobody asked to cancel.
abbrev pub held_plan : RecoveryJob → Bool → Option ℕ
held_plan j true = none
held_plan j false =
    if is_status running j.plan_status || is_status validating j.plan_status
    then j.plan_id
    else none

pub record IsRecovered (j : RecoveryJob) (run : Option RecoveryRun) (intent : Bool) (db db' : Db)
    : Type 0 where
  pub task_row : PlanTask
  pub stored : find_row j.aggregate_id db'.tasks.rows ≡ some task_row
  pub task_status :
      (task_row.status ≡ task_after run intent) ⊎ (is_terminal_status task task_row.status ≡ true)
  pub plan_held : IsHeldPlan (held_plan j intent) db db'
  pub jobs_kept : db'.jobs ≡ db.jobs
