-- ===== src/Examples/Stopping.antt =====
-- A stop of the sample plan.
use specrelay.Prelude.{◌≡◌, refl, ℕ, false, List, [], ◌∷◌, text, text_beq}
use specrelay.Failure.{ok, err, invalid_transition}
use specrelay.Status.{status_beq, queued, running, leased}
use specrelay.Lifecycle.{
  evaluate_transition, evaluate_in, is_terminal_status, is_recoverable_terminal_status,
}
use specrelay.Metadata.{status_sources, recovery_hints, is_blank, validate_lifecycle_metadata}
use specrelay.Gate.{
  put_row, find_row, apply_step, write_row, check_request, transition_row, transition_found,
  transition_lifecycle, lifecycle_checkpoint, request_metadata,
}
use specrelay.Gate.Keys.{IsKeyed}
use specrelay.Store.{plan_generate, Job, Plan, PlanTask, Db}
use specrelay.Claim.{
  select_job, claimable, first_by, filter_by, any_of, automated, task_turn, turn_owner,
  has_open_task, plan_before,
}
use specrelay.TaskReturn.{current_task_job_id}
use specrelay.Enqueue.{move_plan, move_task, insert_event}
use specrelay.Snapshot.{audit_plan_execution_abandoned, insert_plan_drift_audit, latest_snapshot}
use specrelay.Stop.{job_ids, stop_job_request}
use specrelay.Stop.Plans.{
  is_plan_job, row_ids, running_jobs, stop_plan_request, stop_plan_job_request, stop_plan_jobs,
  stop_plan_task_request, stop_plan_tasks, read_plan, stop_plan_work, stop_plan, delete_plan,
}
use specrelay.Stop.Ended.{IsPlanStopped, stop_plan-IsPlanStopped, stop_plan-unclaimed}
use specrelay.Examples.Rows.{running_plan, first_task, last_task, job_row, worker_name, db_with}

abbrev queued_task : PlanTask
queued_task = record last_task { status = queued }

abbrev generate_job : Job
generate_job =
    let j = job_row 13 5 queued [] in
    record j {
      columns = record j.columns { job_type = plan_generate; aggregate_type = text "intake" };
    }

-- The generation of another plan, then a leased and a running job of the plan.
abbrev busy_db : Db
busy_db =
    let db =
      db_with
        (generate_job ∷ job_row 11 2 leased worker_name ∷ job_row 12 1 running worker_name ∷ []) in
    record db { tasks = record { rows = first_task ∷ queued_task ∷ []; audit = [] } }

abbrev plan_stopped : (Db × Plan) × List ℕ
plan_stopped = elim (stop_plan 50 7 1 busy_db) [ ok r ↦ r | err e ↦ ((busy_db, running_plan), []) ]

jobs-IsKeyed : IsKeyed busy_db.jobs.rows
unfolding find_row
jobs-IsKeyed = (refl, (refl, (refl, tt)))

tasks-IsKeyed : IsKeyed busy_db.tasks.rows
unfolding find_row
tasks-IsKeyed = (refl, (refl, tt))

stop_plan-IsPlanStopped_example :
    IsPlanStopped 1 busy_db plan_stopped.0.0 running_plan plan_stopped.0.1 plan_stopped.1
unfolding audit_plan_execution_abandoned insert_plan_drift_audit latest_snapshot stop_plan
    stop_plan_request stop_plan_job_request stop_plan_jobs stop_plan_task_request stop_plan_tasks
    read_plan stop_plan_work running_jobs row_ids job_ids stop_job_request current_task_job_id
    move_plan move_task insert_event transition_lifecycle transition_found transition_row
    check_request write_row apply_step put_row find_row lifecycle_checkpoint request_metadata
    validate_lifecycle_metadata is_terminal_status is_recoverable_terminal_status
    evaluate_transition evaluate_in status_beq status_sources recovery_hints is_blank text_beq
    first_by filter_by
stop_plan-IsPlanStopped_example =
    stop_plan-IsPlanStopped 50 1 busy_db plan_stopped.0.0 running_plan plan_stopped.0.1
      plan_stopped.1 refl jobs-IsKeyed tasks-IsKeyed refl

stop_plan-unclaimed_example : is_plan_job 7 busy_db.tasks.rows generate_job ≡ false
unfolding audit_plan_execution_abandoned insert_plan_drift_audit latest_snapshot stop_plan
    stop_plan_request stop_plan_job_request stop_plan_jobs stop_plan_task_request stop_plan_tasks
    read_plan stop_plan_work running_jobs row_ids job_ids stop_job_request current_task_job_id
    move_plan move_task insert_event transition_lifecycle transition_found transition_row
    check_request write_row apply_step put_row find_row lifecycle_checkpoint request_metadata
    validate_lifecycle_metadata is_terminal_status is_recoverable_terminal_status
    evaluate_transition evaluate_in status_beq status_sources recovery_hints is_blank text_beq
    first_by filter_by select_job claimable any_of automated task_turn turn_owner has_open_task
    plan_before
stop_plan-unclaimed_example =
    stop_plan-unclaimed 50 1 60 (λ _. false) busy_db plan_stopped.0.0 running_plan plan_stopped.0.1
      plan_stopped.1 generate_job refl jobs-IsKeyed tasks-IsKeyed refl refl

running_plan_kept : delete_plan 7 1 busy_db ≡ err invalid_transition
unfolding delete_plan find_row status_beq
running_plan_kept = refl
