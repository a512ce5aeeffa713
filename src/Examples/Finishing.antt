-- ===== src/Examples/Finishing.antt =====
-- The end of a plan's last task, at concrete rows.
use specrelay.Load.{
  load_plan_execution_state, load_plan, tasks_of_plan, sort_tasks, insert_task, task_before,
  recover_tasks, recover_acceptance, needs_recovery, update_acceptance, find_task,
  legacy_pending_acceptance_result,
}
use specrelay.TaskReturn.{build_acceptance_result}
use specrelay.Claim.{first_by, filter_by}
use specrelay.Gate.{
  transition_lifecycle, transition_found, transition_row, check_request, write_row, apply_step,
  put_row, find_row, lifecycle_checkpoint, request_metadata,
}
use specrelay.Metadata.{validate_lifecycle_metadata, status_sources, recovery_hints, is_blank}
use specrelay.Lifecycle.{
  is_terminal_status, is_recoverable_terminal_status, evaluate_transition, evaluate_in,
}
use specrelay.Status.{status_beq, status_text}
use specrelay.Schedule.{
  next_plan_task, first_open, open_task, first_unless, active_task_blockers, dependency_blockers,
  dependencies_blockers, task_by_key,
}
use specrelay.Blocker.{
  acceptance_scheduling_blocker, judge_acceptance, acceptance_blockers, item_by_key, blocking_item,
  acceptance_status_passed, validation_problem_summary, join,
}
use specrelay.Validate.{
  validate_plan_execution_state, check_graph, scan_tasks, check_tasks, check_acceptance,
  check_acceptance_keys, check_dependency_keys, check_dependencies, index_of,
}
use specrelay.Snapshot.{
  require_plan_execution_baseline, latest_snapshot, capture_plan_execution_snapshot,
  insert_plan_drift_audit,
}
use specrelay.Enqueue.{
  move_task, move_plan, insert_event, add_task_job, insert_job, job_with_key, new_task_job,
  project_max_attempts, find_project,
}
use specrelay.Provider.{
  execution_provider_from_context, plan_config_snapshot_with_provider,
  provider_from_plan_config_snapshot, task_execution_job_payload,
}
use specrelay.Prelude.{text_beq, ◌≡◌, refl, true, text, arith, nat_eq}
use specrelay.Enqueue.Tasks.{
  queue_task, queue_found, queue_loaded, queue_chosen, queue_next, queue_task_request, resume_plan,
}
use specrelay.Start.{
  start_task, start_found, start_loaded, start_unless, start_blockers, newest_job, start_ready,
  run_task_request, validate_plan, validate_plan_request, block_queued_task_for_scheduling,
  withdraw_task, withdraw_request, hold_plan, hold_request, summary_of,
}
use specrelay.Stop.{read_task}
use specrelay.Checkpoint.{bound_checkpoint_text, write_runes}
use specrelay.Blocker.Message.{blocked_error, blocker_reasons, reason_text, fault_text}
use specrelay.Prelude.Words.{trim_space, trim_left, is_space}
use specrelay.Finish.{
  finish_task, finish_loaded, finish_running, end_task_request, after_end, fail_plan,
  fail_plan_request,
}
use specrelay.Finish.Continue.{
  continue_plan, continue_loaded, checkpoint_if, decide_next, plan_and_automation, follow,
  complete_plan, complete_plan_request, close_plan_intake, close_intake,
}
use specrelay.Store.{Plan, Db}
use specrelay.Gate.Keys.{IsKeyed}
use specrelay.Finish.Completed.{IsSettledPlan, finish_task-IsSettledPlan}
use specrelay.Examples.Executing.{quote, plan_or, db_or, task_started}

started-IsKeyed : IsKeyed task_started.0.tasks.rows
unfolding load_plan_execution_state load_plan tasks_of_plan sort_tasks insert_task task_before
    recover_tasks recover_acceptance needs_recovery update_acceptance find_task
    legacy_pending_acceptance_result build_acceptance_result first_by filter_by transition_lifecycle
    transition_found transition_row check_request write_row apply_step put_row find_row
    lifecycle_checkpoint request_metadata validate_lifecycle_metadata status_sources recovery_hints
    is_blank is_terminal_status is_recoverable_terminal_status evaluate_transition evaluate_in
    status_beq next_plan_task first_open open_task first_unless active_task_blockers
    dependency_blockers dependencies_blockers task_by_key acceptance_scheduling_blocker
    judge_acceptance acceptance_blockers item_by_key blocking_item acceptance_status_passed
    validation_problem_summary validate_plan_execution_state check_graph scan_tasks check_tasks
    check_acceptance check_acceptance_keys check_dependency_keys check_dependencies index_of
    require_plan_execution_baseline latest_snapshot capture_plan_execution_snapshot
    insert_plan_drift_audit move_task move_plan insert_event add_task_job insert_job job_with_key
    new_task_job project_max_attempts find_project execution_provider_from_context
    plan_config_snapshot_with_provider provider_from_plan_config_snapshot task_execution_job_payload
    text_beq queue_task queue_found queue_loaded queue_chosen queue_next queue_task_request
    resume_plan start_task start_found start_loaded start_unless start_blockers newest_job
    start_ready run_task_request validate_plan validate_plan_request read_task
    block_queued_task_for_scheduling withdraw_task withdraw_request hold_plan hold_request
    summary_of bound_checkpoint_text write_runes blocked_error blocker_reasons reason_text
    fault_text status_text join trim_space trim_left is_space
started-IsKeyed = (refl, (refl, tt))

abbrev finished_db : Db
finished_db =
    db_or (finish_task quote 60 31 task_started.1 (text "s") true (text "done") true task_started.0)

abbrev plan_at_end : Plan
plan_at_end = plan_or (find_row 7 task_started.0.plans.rows)

abbrev completed_plan : Plan
completed_plan = plan_or (find_row 7 finished_db.plans.rows)

finish_task-IsSettledPlan_example : (true ≡ true) × IsSettledPlan 7 finished_db
unfolding load_plan_execution_state load_plan tasks_of_plan sort_tasks insert_task task_before
    recover_tasks recover_acceptance needs_recovery update_acceptance find_task
    legacy_pending_acceptance_result build_acceptance_result first_by filter_by transition_lifecycle
    transition_found transition_row check_request write_row apply_step put_row find_row
    lifecycle_checkpoint request_metadata validate_lifecycle_metadata status_sources recovery_hints
    is_blank is_terminal_status is_recoverable_terminal_status evaluate_transition evaluate_in
    status_beq next_plan_task first_open open_task first_unless active_task_blockers
    dependency_blockers dependencies_blockers task_by_key acceptance_scheduling_blocker
    judge_acceptance acceptance_blockers item_by_key blocking_item acceptance_status_passed
    validation_problem_summary validate_plan_execution_state check_graph scan_tasks check_tasks
    check_acceptance check_acceptance_keys check_dependency_keys check_dependencies index_of
    require_plan_execution_baseline latest_snapshot capture_plan_execution_snapshot
    insert_plan_drift_audit move_task move_plan insert_event add_task_job insert_job job_with_key
    new_task_job project_max_attempts find_project execution_provider_from_context
    plan_config_snapshot_with_provider provider_from_plan_config_snapshot task_execution_job_payload
    text_beq queue_task queue_found queue_loaded queue_chosen queue_next queue_task_request
    resume_plan start_task start_found start_loaded start_unless start_blockers newest_job
    start_ready run_task_request validate_plan validate_plan_request read_task
    block_queued_task_for_scheduling withdraw_task withdraw_request hold_plan hold_request
    summary_of bound_checkpoint_text write_runes blocked_error blocker_reasons reason_text
    fault_text status_text join trim_space trim_left is_space finish_task finish_loaded
    finish_running end_task_request after_end fail_plan fail_plan_request continue_plan
    continue_loaded checkpoint_if decide_next plan_and_automation follow complete_plan
    complete_plan_request close_plan_intake close_intake
finish_task-IsSettledPlan_example =
    finish_task-IsSettledPlan quote 60 31 task_started.1 (text "s") true (text "done") true
      task_started.0 finished_db plan_at_end completed_plan started-IsKeyed refl
      (λ e. absurd (ground (arith, e))) refl refl refl
