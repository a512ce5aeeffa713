-- ===== src/Blocker.antt =====
-- backend/internal/repository/queue.go: the scheduling blockers of a plan. A blocker's reason is the
-- message format with its arguments, and a JSON column is its decoded value.
pub mod Acceptance
pub mod Message
use specrelay.Prelude.{
  ℕ, Bool, true, false, not, ◌&&◌, ◌||◌, Option, none, some, List, [], ◌∷◌, ◌++◌, ◌==◌,
  if◌then◌else◌, Text, text, text_eq,
}
use specrelay.Prelude.Words.{trim_space}
use specrelay.Status.{Status}
use specrelay.Store.{
  StoredProblems, no_array, problem_list, other_array, AcceptanceItemResult, AcceptanceResult,
  ValidationProblem, ConfigSnapshot, PlanTask,
}

pub data BlockerCode : Type 0 where
  plan_invalid active_task acceptance_not_passed acceptance_invalid : BlockerCode
  dependency_not_succeeded manual_retry_required : BlockerCode
  no_runnable_task manual_resume_required plan_not_running earlier_task : BlockerCode

-- The faults of an acceptance blocker, after `task %s acceptance is %s`.
pub data AcceptanceFault : Type 0 where
  definition_invalid result_invalid : AcceptanceFault
  blocking : Text → List AcceptanceItemResult → AcceptanceFault

pub data Reason : Type 0 where
  validation_failed : Text → Reason
  no_tasks final_count nothing_runnable nothing_resumable : Reason
  duplicate_key final_not_last empty_acceptance bad_dependencies resume_required : Text → Reason
  bad_acceptance_key repeated_dependency missing_dependency later_dependency : Text → Text → Reason
  runs_first : Text → Text → Reason
  plan_is : Status → Text → Reason
  already_active retry_required : Text → Status → Reason
  dependency_open : Text → Text → Status → Reason
  acceptance_open : Text → Text → AcceptanceFault → Reason

pub record BlockedTask : Type 0 where
  pub id : ℕ
  pub task_key : Text
  pub title : Text
  pub status : Status
  pub acceptance_status : Text

pub record PlanExecutionBlocker : Type 0 where
  pub code : BlockerCode
  pub task : Option BlockedTask
  pub reason : Reason
  pub acceptance_blockers : List AcceptanceItemResult
  pub validation_problems : StoredProblems

-- What the scheduler reads of a plan.
pub record PlanExecutionState : Type 0 where
  pub plan_id : ℕ
  pub project_id : ℕ
  pub version : ℕ
  pub status : Status
  pub is_executable : Bool
  pub compatibility_mode : Bool
  pub validation_problems : StoredProblems
  pub config_snapshot : ConfigSnapshot
  pub tasks : List PlanTask

abbrev pub task_scheduling_blocker : BlockerCode → PlanTask → Reason → PlanExecutionBlocker
task_scheduling_blocker c t r = record {
  code = c;
  task = some (record {
    id = t.id;
    task_key = t.columns.task_key;
    title = t.columns.title;
    status = t.status;
    acceptance_status = t.columns.acceptance_status;
  });
  reason = r;
  acceptance_blockers = [];
  validation_problems = no_array;
}

abbrev pub plan_validation_scheduling_blocker : PlanExecutionState → Reason → PlanExecutionBlocker
plan_validation_scheduling_blocker s r = record {
  code = plan_invalid;
  task = none;
  reason = r;
  acceptance_blockers = [];
  validation_problems = s.validation_problems;
}

-- `path: message`, or the code in place of an empty path, or the one of them that is not empty.
abbrev labelled : Text → Text → List Text
labelled [] [] = []
labelled label [] = label ∷ []
labelled [] message = message ∷ []
labelled label message = (label ++ text ": " ++ message) ∷ []

unfoldable problem_parts : List ValidationProblem → List Text
problem_parts [] = []
problem_parts (p ∷ ps) =
    let path = trim_space p.path in
    labelled (if path == [] then trim_space p.code else path) (trim_space p.message)
    ++ problem_parts ps

unfoldable pub join : Text → List Text → Text
join separator [] = []
join separator (s ∷ []) = s
join separator (s ∷ t ∷ rest) = s ++ separator ++ join separator (t ∷ rest)

abbrev summary_of_parts : List Text → Text
summary_of_parts [] = text "plan validation is invalid"
summary_of_parts parts = text "plan validation is invalid: " ++ join (text ", ") parts

unfoldable pub validation_problem_summary : StoredProblems → Text
unfolding problem_parts join
validation_problem_summary no_array = text "plan validation is invalid"
validation_problem_summary other_array = text "plan validation is invalid"
validation_problem_summary (problem_list ps) = summary_of_parts (problem_parts ps)

unfoldable pub acceptance_status_passed : Text → Bool
acceptance_status_passed s = s == text "passed" || s == text "skipped"

-- The items by key: a later item of a key replaces an earlier one.
unfoldable pub item_by_key : List AcceptanceItemResult → Text → Option AcceptanceItemResult
item_by_key [] key = none
item_by_key (item ∷ items) key = elim (item_by_key items key) [
  | some later ↦ some later
  | none ↦ if item.key == key then some item else none
]

abbrev pub missing_item : Text → AcceptanceItemResult
missing_item key = record {
  key = key;
  status = text "missing";
  evidence = [];
  reason = text "required acceptance item has no persisted result";
}

-- The item that blocks a required key, if any.
unfoldable pub blocking_item : Option AcceptanceItemResult → Text → List AcceptanceItemResult
blocking_item none key = missing_item key ∷ []
blocking_item (some item) key = if acceptance_status_passed item.status then [] else item ∷ []

unfoldable pub acceptance_blockers :
    List AcceptanceItemResult → List Text → List AcceptanceItemResult
unfolding item_by_key blocking_item
acceptance_blockers items [] = []
acceptance_blockers items (key ∷ definition) =
    blocking_item (item_by_key items key) key ++ acceptance_blockers items definition

abbrev acceptance_blocker :
    BlockerCode → PlanTask → AcceptanceFault → List AcceptanceItemResult → PlanExecutionBlocker
acceptance_blocker c t fault items =
    record (task_scheduling_blocker c t
      (acceptance_open t.columns.task_key t.columns.acceptance_status fault)) {
        acceptance_blockers = items;
      }

abbrev is_empty {ℓ} : {A : Type ℓ} → List A → Bool
is_empty [] = true
is_empty _ = false

unfoldable pub judge_acceptance :
    PlanTask → Option (List Text) → Option AcceptanceResult → Option PlanExecutionBlocker
unfolding acceptance_blockers
judge_acceptance t none result =
    some (acceptance_blocker acceptance_invalid t definition_invalid [])
judge_acceptance t (some definition) none =
    some (acceptance_blocker acceptance_invalid t result_invalid [])
judge_acceptance t (some definition) (some result) =
    let items = acceptance_blockers result.items definition in
    if acceptance_status_passed t.columns.acceptance_status && is_empty items
    then none
    else some (
        acceptance_blocker acceptance_not_passed t (blocking (trim_space result.reason) items)
          items)

unfoldable pub acceptance_scheduling_blocker : PlanTask → Option PlanExecutionBlocker
unfolding judge_acceptance
acceptance_scheduling_blocker t =
    judge_acceptance t t.columns.acceptance_definition t.columns.acceptance_result
