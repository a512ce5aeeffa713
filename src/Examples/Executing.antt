-- ===== src/Examples/Executing.antt =====
-- Plans that are started and run, at concrete rows.
use specrelay.Load.{
  load_plan_execution_state, load_plan, tasks_of_plan, sort_tasks, insert_task, task_before,
  recover_tasks, recover_acceptance, needs_recovery, update_acceptance, find_task,
  legacy_pending_acceptance_result,
}
use specrelay.TaskReturn.{build_acceptance_result}
use specrelay.Claim.{first_by, filter_by}
use specrelay.Gate.{
  transition_lifecycle, transition_found, transition_row, check_request, write_row, apply_step,
  put_row, find_row, lifecycle_checkpoint, request_metadata,
}
use specrelay.Metadata.{validate_lifecycle_metadata, status_sources, recovery_hints, is_blank}
use specrelay.Lifecycle.{
  is_terminal_status, is_recoverable_terminal_status, evaluate_transition, evaluate_in,
}
use specrelay.Status.{status_beq, status_text, queued, ready}
use specrelay.Schedule.{
  next_plan_task, first_open, open_task, first_unless, active_task_blockers, dependency_blockers,
  dependencies_blockers, task_by_key,
}
use specrelay.Blocker.{
  acceptance_scheduling_blocker, judge_acceptance, acceptance_blockers, item_by_key, blocking_item,
  acceptance_status_passed, validation_problem_summary, join, PlanExecutionBlocker,
}
use specrelay.Validate.{
  validate_plan_execution_state, check_graph, scan_tasks, check_tasks, check_acceptance,
  check_acceptance_keys, check_dependency_keys, check_dependencies, index_of,
}
use specrelay.Snapshot.{
  require_plan_execution_baseline, latest_snapshot, capture_plan_execution_snapshot,
  insert_plan_drift_audit,
}
use specrelay.Enqueue.{
  move_task, move_plan, insert_event, add_task_job, insert_job, job_with_key, new_task_job,
  project_max_attempts, find_project, Scheduled, scheduled, scheduling_blocked,
}
use specrelay.Provider.{
  execution_provider_from_context, plan_config_snapshot_with_provider,
  provider_from_plan_config_snapshot, task_execution_job_payload,
}
use specrelay.Prelude.{text_beq, refl, false, Option, none, some, List, [], ◌∷◌, Text, text, nat_eq}
use specrelay.Enqueue.Tasks.{
  queue_task, queue_found, queue_loaded, queue_chosen, queue_next, queue_task_request, resume_plan,
}
use specrelay.Enqueue.Plans.{
  queue_plan, queue_plan_in, run_chosen, run_next, run_plan_request, queue_first_request,
  accept_config,
}
use specrelay.Start.{
  start_task, start_found, start_loaded, start_unless, start_blockers, newest_job, start_ready,
  run_task_request, validate_plan, validate_plan_request, block_queued_task_for_scheduling,
  withdraw_task, withdraw_request, hold_plan, hold_request, summary_of,
}
use specrelay.Stop.{read_task}
use specrelay.Checkpoint.{bound_checkpoint_text, write_runes}
use specrelay.Blocker.Message.{blocked_error, blocker_reasons, reason_text, fault_text}
use specrelay.Prelude.Words.{trim_space, trim_left, is_space}
use specrelay.Failure.{Result, ok}
use specrelay.Store.{ConfigSnapshot, text_provider, config, Plan, PlanTask, Job, Db}
use specrelay.Gate.Keys.{IsKeyed}
use specrelay.Enqueue.Tasks.Queued.{IsQueued, queue_task-IsQueued}
use specrelay.Enqueue.Plans.Started.{IsPlanRunning, queue_plan-IsPlanRunning}
use specrelay.Start.Ready.{IsStarted, start_task-IsStarted}
use specrelay.Start.Refused.{IsRefused, start_task-IsRefused}
use specrelay.Examples.Rows.{db_with, running_plan, last_task, job_row}

abbrev pub quote : Text → Text
quote s = s

-- Tells configurations apart by their provider.
abbrev digest : ConfigSnapshot → Text
digest (config (text_provider p) members) = p
digest _ = []

abbrev waiting : Db
waiting = db_with []

abbrev ready_plan : Plan
ready_plan = record running_plan { status = ready }

abbrev ready_db : Db
ready_db = record waiting { plans = record waiting.plans { rows = ready_plan ∷ [] } }

abbrev done_job : Job
done_job = job_row 0 0 queued []

abbrev queued_or : Result (Scheduled (Db × Job)) → Db × Job
queued_or (ok (scheduled done)) = done
queued_or _ = (waiting, done_job)

abbrev task_or : Option PlanTask → PlanTask
task_or none = last_task
task_or (some t) = t

abbrev pub plan_or : Option Plan → Plan
plan_or none = running_plan
plan_or (some p) = p

abbrev pub db_or : Result Db → Db
db_or (ok db) = db
db_or _ = waiting

abbrev task_queued : Db × Job
task_queued = queued_or (queue_task 20 30 none 2 1 waiting)

abbrev plan_started : Db × Job
plan_started = queued_or (queue_plan digest 20 30 (some (text "codex")) false 7 1 ready_db)

waiting-IsKeyed : IsKeyed waiting.tasks.rows
unfolding find_row
waiting-IsKeyed = (refl, (refl, tt))

queue_task-IsQueued_example : IsQueued 2 1 7 waiting task_queued.0 task_queued.1
unfolding load_plan_execution_state load_plan tasks_of_plan sort_tasks insert_task task_before
    recover_tasks recover_acceptance needs_recovery update_acceptance find_task
    legacy_pending_acceptance_result build_acceptance_result first_by filter_by transition_lifecycle
    transition_found transition_row check_request write_row apply_step put_row find_row
    lifecycle_checkpoint request_metadata validate_lifecycle_metadata status_sources recovery_hints
    is_blank is_terminal_status is_recoverable_terminal_status evaluate_transition evaluate_in
    status_beq next_plan_task first_open open_task first_unless active_task_blockers
    dependency_blockers dependencies_blockers task_by_key acceptance_scheduling_blocker
    judge_acceptance acceptance_blockers item_by_key blocking_item acceptance_status_passed
    validation_problem_summary validate_plan_execution_state check_graph scan_tasks check_tasks
    check_acceptance check_acceptance_keys check_dependency_keys check_dependencies index_of
    require_plan_execution_baseline latest_snapshot capture_plan_execution_snapshot
    insert_plan_drift_audit move_task move_plan insert_event add_task_job insert_job job_with_key
    new_task_job project_max_attempts find_project execution_provider_from_context
    plan_config_snapshot_with_provider provider_from_plan_config_snapshot task_execution_job_payload
    text_beq queue_task queue_found queue_loaded queue_chosen queue_next queue_task_request
    resume_plan
queue_task-IsQueued_example =
    queue_task-IsQueued 20 30 none 2 1 waiting task_queued.0 last_task task_queued.1 waiting-IsKeyed
      refl refl

queue_plan-IsPlanRunning_example : IsPlanRunning false 7 1 ready_db plan_started.0 plan_started.1
unfolding load_plan_execution_state load_plan tasks_of_plan sort_tasks insert_task task_before
    recover_tasks recover_acceptance needs_recovery update_acceptance find_task
    legacy_pending_acceptance_result build_acceptance_result first_by filter_by transition_lifecycle
    transition_found transition_row check_request write_row apply_step put_row find_row
    lifecycle_checkpoint request_metadata validate_lifecycle_metadata status_sources recovery_hints
    is_blank is_terminal_status is_recoverable_terminal_status evaluate_transition evaluate_in
    status_beq next_plan_task first_open open_task first_unless active_task_blockers
    dependency_blockers dependencies_blockers task_by_key acceptance_scheduling_blocker
    judge_acceptance acceptance_blockers item_by_key blocking_item acceptance_status_passed
    validation_problem_summary validate_plan_execution_state check_graph scan_tasks check_tasks
    check_acceptance check_acceptance_keys check_dependency_keys check_dependencies index_of
    require_plan_execution_baseline latest_snapshot capture_plan_execution_snapshot
    insert_plan_drift_audit move_task move_plan insert_event add_task_job insert_job job_with_key
    new_task_job project_max_attempts find_project execution_provider_from_context
    plan_config_snapshot_with_provider provider_from_plan_config_snapshot task_execution_job_payload
    text_beq queue_plan queue_plan_in run_chosen run_next run_plan_request queue_first_request
    accept_config
queue_plan-IsPlanRunning_example =
    queue_plan-IsPlanRunning digest 20 30 (some (text "codex")) false 7 1 ready_db plan_started.0
      plan_started.1 waiting-IsKeyed refl

queued-IsKeyed : IsKeyed task_queued.0.tasks.rows
unfolding load_plan_execution_state load_plan tasks_of_plan sort_tasks insert_task task_before
    recover_tasks recover_acceptance needs_recovery update_acceptance find_task
    legacy_pending_acceptance_result build_acceptance_result first_by filter_by transition_lifecycle
    transition_found transition_row check_request write_row apply_step put_row find_row
    lifecycle_checkpoint request_metadata validate_lifecycle_metadata status_sources recovery_hints
    is_blank is_terminal_status is_recoverable_terminal_status evaluate_transition evaluate_in
    status_beq next_plan_task first_open open_task first_unless active_task_blockers
    dependency_blockers dependencies_blockers task_by_key acceptance_scheduling_blocker
    judge_acceptance acceptance_blockers item_by_key blocking_item acceptance_status_passed
    validation_problem_summary validate_plan_execution_state check_graph scan_tasks check_tasks
    check_acceptance check_acceptance_keys check_dependency_keys check_dependencies index_of
    require_plan_execution_baseline latest_snapshot capture_plan_execution_snapshot
    insert_plan_drift_audit move_task move_plan insert_event add_task_job insert_job job_with_key
    new_task_job project_max_attempts find_project execution_provider_from_context
    plan_config_snapshot_with_provider provider_from_plan_config_snapshot task_execution_job_payload
    text_beq queue_task queue_found queue_loaded queue_chosen queue_next queue_task_request
    resume_plan
queued-IsKeyed = (refl, (refl, tt))

abbrev started_or : Result (Db × Scheduled PlanTask) → Db × PlanTask
started_or (ok (db, scheduled t)) = (db, t)
started_or _ = (waiting, last_task)

abbrev pub task_started : Db × PlanTask
task_started = started_or (start_task quote 40 2 task_queued.0)

abbrev queued_task : PlanTask
queued_task = task_or (find_row 2 task_queued.0.tasks.rows)

start_task-IsStarted_example : IsStarted 2 7 task_queued.0 task_started.0 task_started.1
unfolding load_plan_execution_state load_plan tasks_of_plan sort_tasks insert_task task_before
    recover_tasks recover_acceptance needs_recovery update_acceptance find_task
    legacy_pending_acceptance_result build_acceptance_result first_by filter_by transition_lifecycle
    transition_found transition_row check_request write_row apply_step put_row find_row
    lifecycle_checkpoint request_metadata validate_lifecycle_metadata status_sources recovery_hints
    is_blank is_terminal_status is_recoverable_terminal_status evaluate_transition evaluate_in
    status_beq next_plan_task first_open open_task first_unless active_task_blockers
    dependency_blockers dependencies_blockers task_by_key acceptance_scheduling_blocker
    judge_acceptance acceptance_blockers item_by_key blocking_item acceptance_status_passed
    validation_problem_summary validate_plan_execution_state check_graph scan_tasks check_tasks
    check_acceptance check_acceptance_keys check_dependency_keys check_dependencies index_of
    require_plan_execution_baseline latest_snapshot capture_plan_execution_snapshot
    insert_plan_drift_audit move_task move_plan insert_event add_task_job insert_job job_with_key
    new_task_job project_max_attempts find_project execution_provider_from_context
    plan_config_snapshot_with_provider provider_from_plan_config_snapshot task_execution_job_payload
    text_beq queue_task queue_found queue_loaded queue_chosen queue_next queue_task_request
    resume_plan start_task start_found start_loaded start_unless start_blockers newest_job
    start_ready run_task_request validate_plan validate_plan_request read_task
    block_queued_task_for_scheduling withdraw_task withdraw_request hold_plan hold_request
    summary_of bound_checkpoint_text write_runes blocked_error blocker_reasons reason_text
    fault_text status_text join trim_space trim_left is_space
start_task-IsStarted_example =
    start_task-IsStarted quote 40 2 task_queued.0 task_started.0 queued_task task_started.1
      queued-IsKeyed refl refl

abbrev stranded_db : Db
stranded_db = record ready_db { tasks = task_queued.0.tasks }

abbrev refused_or : Result (Db × Scheduled PlanTask) → Db × List PlanExecutionBlocker
refused_or (ok (db, scheduling_blocked blockers)) = (db, blockers)
refused_or _ = (waiting, [])

abbrev start_refused : Db × List PlanExecutionBlocker
start_refused = refused_or (start_task quote 40 2 stranded_db)

start_task-IsRefused_example : IsRefused 2 7 stranded_db start_refused.0 start_refused.1
unfolding load_plan_execution_state load_plan tasks_of_plan sort_tasks insert_task task_before
    recover_tasks recover_acceptance needs_recovery update_acceptance find_task
    legacy_pending_acceptance_result build_acceptance_result first_by filter_by transition_lifecycle
    transition_found transition_row check_request write_row apply_step put_row find_row
    lifecycle_checkpoint request_metadata validate_lifecycle_metadata status_sources recovery_hints
    is_blank is_terminal_status is_recoverable_terminal_status evaluate_transition evaluate_in
    status_beq next_plan_task first_open open_task first_unless active_task_blockers
    dependency_blockers dependencies_blockers task_by_key acceptance_scheduling_blocker
    judge_acceptance acceptance_blockers item_by_key blocking_item acceptance_status_passed
    validation_problem_summary validate_plan_execution_state check_graph scan_tasks check_tasks
    check_acceptance check_acceptance_keys check_dependency_keys check_dependencies index_of
    require_plan_execution_baseline latest_snapshot capture_plan_execution_snapshot
    insert_plan_drift_audit move_task move_plan insert_event add_task_job insert_job job_with_key
    new_task_job project_max_attempts find_project execution_provider_from_context
    plan_config_snapshot_with_provider provider_from_plan_config_snapshot task_execution_job_payload
    text_beq queue_task queue_found queue_loaded queue_chosen queue_next queue_task_request
    resume_plan start_task start_found start_loaded start_unless start_blockers newest_job
    start_ready run_task_request validate_plan validate_plan_request read_task
    block_queued_task_for_scheduling withdraw_task withdraw_request hold_plan hold_request
    summary_of bound_checkpoint_text write_runes blocked_error blocker_reasons reason_text
    fault_text status_text join trim_space trim_left is_space
start_task-IsRefused_example =
    start_task-IsRefused quote 40 2 stranded_db start_refused.0 queued_task start_refused.1
      queued-IsKeyed refl refl
