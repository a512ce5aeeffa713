-- ===== src/Schedule.antt =====
-- backend/internal/repository/queue.go: `activeTaskBlockers`, `dependencyBlockers` and `nextPlanTask`,
-- the gate before every task of a plan.
pub mod Next
use specrelay.Prelude.{
  ℕ, ◌+◌, ◌-◌, Bool, true, false, not, ◌&&◌, ◌||◌, Option, none, some, List, [], ◌∷◌, ◌++◌, ◌==◌,
  if◌then◌else◌, contains, length, leb, Text, text, text_eq, nat_eq,
}
use specrelay.Prelude.Words.{trim_space}
use specrelay.Status.{Status, other, pending, queued, running, succeeded, status_eq}
use specrelay.Metadata.{absent}
use specrelay.Gate.{Row}
use specrelay.Store.{TaskColumns, PlanTask}
use specrelay.Validate.{Checked, refused, passed, validate_plan_execution_state}
use specrelay.Blocker.{
  Reason, validation_failed, no_tasks, final_count, duplicate_key, final_not_last, empty_acceptance,
  bad_dependencies, bad_acceptance_key, repeated_dependency, missing_dependency, later_dependency,
  already_active, retry_required, dependency_open, plan_invalid, active_task,
  dependency_not_succeeded, manual_retry_required, PlanExecutionBlocker, PlanExecutionState,
  task_scheduling_blocker, plan_validation_scheduling_blocker, validation_problem_summary,
  acceptance_scheduling_blocker,
}

abbrev pub is_allowed : Option ℕ → ℕ → Bool
is_allowed none id = false
is_allowed (some allowed) id = id == allowed

abbrev pub is_active : Option ℕ → PlanTask → Bool
is_active allowed t = contains (queued ∷ running ∷ []) t.status && not (is_allowed allowed t.id)

unfoldable pub active_task_blockers : Option ℕ → List PlanTask → List PlanExecutionBlocker
active_task_blockers allowed [] = []
active_task_blockers allowed (t ∷ ts) =
    let rest = active_task_blockers allowed ts in
    if is_active allowed t
    then task_scheduling_blocker active_task t (already_active t.columns.task_key t.status) ∷ rest
    else rest

-- The task that a missing key of a Go map gives: every field has its zero value.
abbrev pub zero_task : PlanTask
zero_task = record {
  id = 0;
  project_id = 0;
  status = other [];
  version = 0;
  metadata = record {
    status_source = [];
    reason_code = [];
    reason = [];
    last_activity_at = 0;
    recovery_hint = [];
    execution_checkpoint = absent;
  };
  columns = record {
    plan_id = 0;
    position = 0;
    execution_order = 0;
    task_key = [];
    title = [];
    task_type = [];
    dependency_keys = none;
    acceptance_definition = none;
    acceptance_status = [];
    acceptance_result = none;
    session_id = [];
    started_at = none;
    finished_at = none;
  };
}

-- The tasks by key: a later task of a key replaces an earlier one.
unfoldable pub task_by_key : List PlanTask → Text → Option PlanTask
task_by_key [] key = none
task_by_key (t ∷ ts) key = elim (task_by_key ts key) [
  | some later ↦ some later
  | none ↦ if t.columns.task_key == key then some t else none
]

abbrev pub task_or_zero : Option PlanTask → PlanTask
task_or_zero none = zero_task
task_or_zero (some t) = t

abbrev pub blocker_list : Option PlanExecutionBlocker → List PlanExecutionBlocker
blocker_list none = []
blocker_list (some b) = b ∷ []

abbrev pub dependency_blocker : PlanTask → PlanTask → List PlanExecutionBlocker
dependency_blocker t d =
    if d.status == succeeded
    then blocker_list (acceptance_scheduling_blocker d)
    else task_scheduling_blocker dependency_not_succeeded d
        (dependency_open d.columns.task_key t.columns.task_key d.status)
      ∷ []

unfoldable pub dependencies_blockers :
    List PlanTask → PlanTask → List Text → List PlanExecutionBlocker
unfolding task_by_key
dependencies_blockers tasks t [] = []
dependencies_blockers tasks t (key ∷ keys) =
    dependency_blocker t (task_or_zero (task_by_key tasks key))
    ++ dependencies_blockers tasks t keys

abbrev decoded_blockers : List PlanTask → PlanTask → Option (List Text) → List PlanExecutionBlocker
decoded_blockers tasks t none =
    task_scheduling_blocker plan_invalid t (bad_dependencies t.columns.task_key) ∷ []
decoded_blockers tasks t (some keys) = dependencies_blockers tasks t keys

unfoldable pub dependency_blockers : PlanExecutionState → PlanTask → List PlanExecutionBlocker
dependency_blockers s t =
    if s.compatibility_mode then [] else decoded_blockers s.tasks t t.columns.dependency_keys

-- The results of `nextPlanTask`: a task, `complete`, or the blockers.
pub data NextTask : Type 0 where
  next_task : PlanTask → NextTask
  complete : NextTask
  blocked_by : List PlanExecutionBlocker → NextTask

-- An open task after its dependency blockers.
unfoldable pub open_task : Bool → PlanTask → List PlanExecutionBlocker → NextTask
open_task automatic t (b ∷ bs) = blocked_by (b ∷ bs)
open_task automatic t [] =
    if automatic && not (t.status == pending)
    then blocked_by (
        task_scheduling_blocker manual_retry_required t (retry_required t.columns.task_key t.status)
        ∷ [])
    else next_task t

-- The loop over the tasks in order.
unfoldable pub first_open : PlanExecutionState → Bool → List PlanTask → NextTask
unfolding open_task
first_open s automatic [] = complete
first_open s automatic (t ∷ ts) =
    let rest = first_open s automatic ts in
    if t.status == succeeded
    then elim (acceptance_scheduling_blocker t) [ some b ↦ blocked_by (b ∷ []) | none ↦ rest ]
    else open_task automatic t (dependency_blockers s t)

unfoldable pub first_unless : NextTask → List PlanExecutionBlocker → NextTask
first_unless next [] = next
first_unless next (b ∷ bs) = blocked_by (b ∷ bs)

abbrev pub after_validation : NextTask → Checked (Unit {0}) → NextTask
after_validation next (refused b) = blocked_by (b ∷ [])
after_validation next (passed _) = next

unfoldable pub next_plan_task : PlanExecutionState → Bool → Option ℕ → NextTask
unfolding first_open first_unless active_task_blockers
next_plan_task s automatic allowed =
    after_validation
      (first_unless (first_open s automatic s.tasks) (active_task_blockers allowed s.tasks))
      (validate_plan_execution_state s)
