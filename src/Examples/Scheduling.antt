-- ===== src/Examples/Scheduling.antt =====
-- The scheduler at a plan of two tasks.
use specrelay.Prelude.{◌≡◌, refl, true, false, none, some, List, [], ◌∷◌, All, Text, text, text_beq}
use specrelay.Prelude.Words.{trim_space}
use specrelay.Status.{status_beq, running, succeeded}
use specrelay.Store.{problem_list, no_config, PlanTask}
use specrelay.Blocker.{
  PlanExecutionState, acceptance_scheduling_blocker, judge_acceptance, acceptance_blockers,
  blocking_item, item_by_key, acceptance_status_passed,
}
use specrelay.Blocker.Acceptance.{IsAccepted, acceptance_scheduling_blocker-none}
use specrelay.Validate.{
  passed, index_of, scan_tasks, check_acceptance_keys, check_acceptance, check_dependencies,
  check_dependency_keys, check_tasks, check_graph, validate_plan_execution_state,
}
use specrelay.Validate.Graph.{IsOrdered, validate-IsOrdered}
use specrelay.Schedule.{
  is_active, active_task_blockers, task_by_key, dependencies_blockers, dependency_blockers,
  next_task, complete, open_task, first_open, first_unless, next_plan_task,
}
use specrelay.Schedule.Next.{
  IsSettled, IsSettledKey, IsFirstOpen, next_plan_task-IsFirstOpen, next_plan_task-complete,
  next_plan_task-dependencies,
}
use specrelay.TaskReturn.{build_acceptance_result}
use specrelay.TaskReturn.Outcome.{build_acceptance_result-passes}
use specrelay.Examples.Rows.{first_task, last_task, task_row, passed_result}

abbrev state_of : List PlanTask → PlanExecutionState
state_of tasks = record {
  plan_id = 7;
  project_id = 1;
  version = 1;
  status = running;
  is_executable = true;
  compatibility_mode = false;
  validation_problems = problem_list [];
  config_snapshot = no_config;
  tasks = tasks;
}

abbrev open_plan : PlanExecutionState
open_plan = state_of (first_task ∷ last_task ∷ [])

abbrev ended_task : PlanTask
ended_task =
    task_row 2 (text "T2") (text "final_validation") (text "T1" ∷ []) succeeded (text "passed")
      (some passed_result)

abbrev ended_plan : PlanExecutionState
ended_plan = state_of (first_task ∷ ended_task ∷ [])

open_plan-valid : validate_plan_execution_state open_plan ≡ passed tt
unfolding index_of scan_tasks check_acceptance_keys check_acceptance check_dependencies
    check_dependency_keys check_tasks check_graph validate_plan_execution_state text_beq trim_space
open_plan-valid = refl

open_plan-next : next_plan_task open_plan true none ≡ next_task last_task
unfolding index_of scan_tasks check_acceptance_keys check_acceptance check_dependencies
    check_dependency_keys check_tasks check_graph validate_plan_execution_state text_beq trim_space
    active_task_blockers task_by_key dependencies_blockers dependency_blockers open_task first_open
    first_unless next_plan_task status_beq acceptance_scheduling_blocker judge_acceptance
    acceptance_blockers blocking_item item_by_key acceptance_status_passed
open_plan-next = refl

ended_plan-complete : next_plan_task ended_plan true none ≡ complete
unfolding index_of scan_tasks check_acceptance_keys check_acceptance check_dependencies
    check_dependency_keys check_tasks check_graph validate_plan_execution_state text_beq trim_space
    active_task_blockers task_by_key dependencies_blockers dependency_blockers open_task first_open
    first_unless next_plan_task status_beq acceptance_scheduling_blocker judge_acceptance
    acceptance_blockers blocking_item item_by_key acceptance_status_passed
ended_plan-complete = refl

next_plan_task-IsFirstOpen_example :
    (validate_plan_execution_state open_plan ≡ passed tt)
    × All (λ u. is_active none u ≡ false) open_plan.tasks
    × IsFirstOpen true last_task open_plan.tasks
next_plan_task-IsFirstOpen_example =
    next_plan_task-IsFirstOpen open_plan true none last_task open_plan-next

next_plan_task-dependencies_example :
    (deps : List Text) × (last_task.columns.dependency_keys ≡ some deps) × All IsSettledKey deps
next_plan_task-dependencies_example =
    next_plan_task-dependencies open_plan true none last_task refl open_plan-next

next_plan_task-complete_example : All IsSettled ended_plan.tasks
next_plan_task-complete_example = next_plan_task-complete ended_plan true none ended_plan-complete

validate-IsOrdered_example : IsOrdered [] open_plan.tasks
validate-IsOrdered_example = validate-IsOrdered open_plan refl open_plan-valid

acceptance_scheduling_blocker-none_example : IsAccepted first_task
unfolding text_beq acceptance_scheduling_blocker judge_acceptance acceptance_blockers blocking_item
    item_by_key acceptance_status_passed
acceptance_scheduling_blocker-none_example = acceptance_scheduling_blocker-none first_task refl

build_acceptance_result-passes_example :
    acceptance_scheduling_blocker (
      task_row 3
        (text "T3")
        []
        []
        succeeded
        (text "passed")
        (some (build_acceptance_result (some (text "a" ∷ [])) (text "passed") (text "done"))))
    ≡ none
build_acceptance_result-passes_example =
    build_acceptance_result-passes
      (task_row 3 (text "T3") [] [] succeeded (text "passed")
        (some (build_acceptance_result (some (text "a" ∷ [])) (text "passed") (text "done"))))
      (text "a" ∷ []) (text "done") refl refl refl
