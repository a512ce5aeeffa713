-- ===== src/Validate.antt =====
-- backend/internal/repository/queue.go: `validatePlanExecutionState`, the check of a plan's graph.
pub mod Graph
use specrelay.Prelude.{
  ℕ, ◌+◌, ◌-◌, Bool, true, false, not, ◌&&◌, ◌||◌, Option, none, some, List, [], ◌∷◌, ◌++◌, ◌==◌,
  if◌then◌else◌, contains, length, leb, Text, text, text_eq, nat_eq,
}
use specrelay.Prelude.Words.{trim_space}
use specrelay.Status.{Status, other, pending, queued, running, succeeded, status_eq}
use specrelay.Metadata.{absent}
use specrelay.Gate.{Row}
use specrelay.Store.{StoredProblems, no_array, problem_list, other_array, TaskColumns, PlanTask}
use specrelay.Blocker.{
  Reason, validation_failed, no_tasks, final_count, duplicate_key, final_not_last, empty_acceptance,
  bad_dependencies, bad_acceptance_key, repeated_dependency, missing_dependency, later_dependency,
  already_active, retry_required, dependency_open, plan_invalid, active_task,
  dependency_not_succeeded, manual_retry_required, PlanExecutionBlocker, PlanExecutionState,
  task_scheduling_blocker, plan_validation_scheduling_blocker, validation_problem_summary,
  acceptance_scheduling_blocker,
}

-- An early return of a blocker, or the value to go on with.
pub data Checked {ℓ} (A : Type ℓ) : Type ℓ where
  refused : PlanExecutionBlocker → Checked A
  passed : A → Checked A

infixl 20 ◌>>=◌
abbrev pub ◌>>=◌ {ℓ κ} : {A : Type ℓ} {B : Type κ} → Checked A → (A → Checked B) → Checked B
refused b >>= f = refused b
passed a >>= f = f a

abbrev pub require : Bool → PlanExecutionBlocker → Checked (Unit {0})
require true b = passed tt
require false b = refused b

-- `byKey`, the newest entry first.
abbrev pub Index : Type 0
Index = List (Text × ℕ)

unfoldable pub index_of : Index → Text → Option ℕ
index_of [] key = none
index_of ((k, i) ∷ index) key = if k == key then some i else index_of index key

abbrev pub is_final : PlanTask → Bool
is_final t = t.columns.task_type == text "final_validation"

abbrev has_index : Option ℕ → Bool
has_index none = false
has_index (some i) = true

-- The first loop: keys are unique, and a final validation stands last.
unfoldable pub scan_tasks : PlanExecutionState → ℕ → Index → ℕ → List PlanTask → Checked (Index × ℕ)
unfolding index_of
scan_tasks s i by_key finals [] = passed (by_key, finals)
scan_tasks s i by_key finals (t ∷ ts) =
    let key = t.columns.task_key in
    require (not (has_index (index_of by_key key)))
      (plan_validation_scheduling_blocker s (duplicate_key key))
    >>= λ _.
        require (not (is_final t) || i == length s.tasks - 1)
          (task_scheduling_blocker plan_invalid t (final_not_last key))
        >>= λ _.
            scan_tasks s (i + 1) ((key, i) ∷ by_key) (if is_final t then finals + 1 else finals) ts

unfoldable pub check_acceptance_keys : PlanTask → List Text → List Text → Checked (Unit {0})
check_acceptance_keys t seen [] = passed tt
check_acceptance_keys t seen (k ∷ ks) =
    let key = trim_space k in
    require (not (key == []) && not (contains seen key))
      (task_scheduling_blocker plan_invalid t (bad_acceptance_key t.columns.task_key key))
    >>= λ _. check_acceptance_keys t (key ∷ seen) ks

unfoldable pub check_acceptance : PlanTask → Option (List Text) → Checked (Unit {0})
unfolding check_acceptance_keys
check_acceptance t none =
    refused (task_scheduling_blocker plan_invalid t (empty_acceptance t.columns.task_key))
check_acceptance t (some []) =
    refused (task_scheduling_blocker plan_invalid t (empty_acceptance t.columns.task_key))
check_acceptance t (some (k ∷ ks)) = check_acceptance_keys t [] (k ∷ ks)

abbrev pub check_earlier : ℕ → PlanTask → Text → Option ℕ → Checked (Unit {0})
check_earlier i t d none =
    refused (task_scheduling_blocker plan_invalid t (missing_dependency t.columns.task_key d))
check_earlier i t d (some k) =
    require (not (leb i k))
      (task_scheduling_blocker plan_invalid t (later_dependency t.columns.task_key d))

unfoldable pub check_dependencies :
    Index → ℕ → PlanTask → List Text → List Text → Checked (Unit {0})
unfolding index_of
check_dependencies by_key i t seen [] = passed tt
check_dependencies by_key i t seen (d ∷ ds) =
    require (not (contains seen d))
      (task_scheduling_blocker plan_invalid t (repeated_dependency t.columns.task_key d))
    >>= λ _.
        check_earlier i t d (index_of by_key d) >>= λ _. check_dependencies by_key i t (d ∷ seen) ds

unfoldable pub check_dependency_keys :
    Index → ℕ → PlanTask → Option (List Text) → Checked (Unit {0})
unfolding check_dependencies
check_dependency_keys by_key i t none =
    refused (task_scheduling_blocker plan_invalid t (bad_dependencies t.columns.task_key))
check_dependency_keys by_key i t (some ds) = check_dependencies by_key i t [] ds

-- The second loop: the metadata of each task, at its position.
unfoldable pub check_tasks : Index → ℕ → List PlanTask → Checked (Unit {0})
unfolding check_acceptance check_dependency_keys
check_tasks by_key i [] = passed tt
check_tasks by_key i (t ∷ ts) = check_acceptance t t.columns.acceptance_definition >>= λ _.
    check_dependency_keys by_key i t t.columns.dependency_keys >>= λ _.
    check_tasks by_key (i + 1) ts

abbrev is_empty {ℓ} : {A : Type ℓ} → List A → Bool
is_empty [] = true
is_empty _ = false

abbrev no_problems : StoredProblems → Bool
no_problems no_array = true
no_problems other_array = false
no_problems (problem_list ps) = is_empty ps

unfoldable pub check_graph : PlanExecutionState → Checked (Unit {0})
unfolding scan_tasks check_tasks
check_graph s = scan_tasks s 0 [] 0 s.tasks >>= λ (by_key, finals).
    require (finals == 1) (plan_validation_scheduling_blocker s final_count) >>= λ _.
    check_tasks by_key 0 s.tasks

unfoldable pub validate_plan_execution_state : PlanExecutionState → Checked (Unit {0})
unfolding check_graph
validate_plan_execution_state s =
    let invalid =
      plan_validation_scheduling_blocker s
        (validation_failed (validation_problem_summary s.validation_problems)) in
    require s.is_executable invalid >>= λ _.
    require (no_problems s.validation_problems) invalid >>= λ _.
    require (not (is_empty s.tasks)) (plan_validation_scheduling_blocker s no_tasks) >>= λ _.
    (if s.compatibility_mode then passed tt else check_graph s)
