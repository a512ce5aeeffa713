-- ===== src/Load.antt =====
-- backend/internal/repository/queue.go: `loadPlanExecutionStateTx`, what the scheduler reads of a
-- plan, and the acceptance results of old plans that it completes on the way.
pub mod Tasks
pub mod Recovered
pub mod Ordered
use specrelay.Prelude.{
  ℕ, ◌+◌, Bool, true, false, not, ◌&&◌, ◌||◌, Option, none, some, List, [], ◌∷◌, ◌==◌,
  if◌then◌else◌, ltb, all, Text, text, text_eq, nat_eq,
}
use specrelay.Prelude.Words.{trim_space}
use specrelay.Failure.{Result, ok, err, not_found, no_rows, ◌>>=◌}
use specrelay.Status.{succeeded, status_eq}
use specrelay.Gate.{find_row, put_row}
use specrelay.Store.{AcceptanceItemResult, AcceptanceResult, TaskColumns, Plan, PlanTask, Db}
use specrelay.Claim.{then_by, filter_by}
use specrelay.Blocker.{PlanExecutionState}
use specrelay.TaskReturn.{build_acceptance_result}

-- `ORDER BY position,id` in compatibility mode, or else `ORDER BY execution_order,position,id`.
unfoldable pub task_before : Bool → PlanTask → PlanTask → Bool
task_before compatible a b =
    let by_position = then_by a.columns.position b.columns.position (ltb a.id b.id) in
    if compatible
    then by_position
    else then_by a.columns.execution_order b.columns.execution_order by_position

unfoldable pub insert_task : Bool → PlanTask → List PlanTask → List PlanTask
unfolding task_before
insert_task compatible t [] = t ∷ []
insert_task compatible t (u ∷ us) =
    let rest = insert_task compatible t us in
    if task_before compatible u t then u ∷ rest else t ∷ u ∷ us

unfoldable pub sort_tasks : Bool → List PlanTask → List PlanTask
unfolding insert_task
sort_tasks compatible [] = []
sort_tasks compatible (t ∷ ts) = insert_task compatible t (sort_tasks compatible ts)

unfoldable pub tasks_of_plan : ℕ → Bool → List PlanTask → List PlanTask
unfolding sort_tasks filter_by
tasks_of_plan plan compatible tasks =
    sort_tasks compatible (filter_by (λ (t : PlanTask). t.columns.plan_id == plan) tasks)

abbrev is_blank_pending : Text → Text → List Text → Bool
is_blank_pending status reason [] = status == text "pending" && trim_space reason == []
is_blank_pending status reason (e ∷ es) = false

unfoldable pub legacy_pending_acceptance_result : Option AcceptanceResult → Bool
legacy_pending_acceptance_result none = false
legacy_pending_acceptance_result (some r) =
    is_blank_pending r.status r.reason r.evidence
    && all (λ (item : AcceptanceItemResult). is_blank_pending item.status item.reason item.evidence)
        r.items

-- Whether a task was left succeeded by an old version, with its acceptance pending.
unfoldable pub needs_recovery : PlanTask → Bool
unfolding legacy_pending_acceptance_result
needs_recovery t =
    t.status == succeeded
    && t.columns.acceptance_status == text "pending"
    && legacy_pending_acceptance_result t.columns.acceptance_result

-- The UPDATE of a row, with `WHERE … status='succeeded' AND acceptance_status='pending'`, and the row
-- that it leaves. The status is not written, so this needs no gate and leaves no audit row.
unfoldable pub update_acceptance : AcceptanceResult → PlanTask → Result PlanTask
update_acceptance result r =
    if r.status == succeeded && r.columns.acceptance_status == text "pending"
    then ok (record r {
      version = r.version + 1;
      columns = record r.columns {
        acceptance_status = text "passed";
        acceptance_result = some result;
      };
    })
    else err no_rows

-- The columns that RETURNING names, scanned into the task that was read before.
abbrev pub scan_acceptance : PlanTask → PlanTask → PlanTask
scan_acceptance t r = record t {
  version = r.version;
  columns = record t.columns {
    acceptance_status = r.columns.acceptance_status;
    acceptance_result = r.columns.acceptance_result;
  };
}

unfoldable pub find_task : ℕ → List PlanTask → Result PlanTask
find_task id rows = elim (find_row id rows) [ none ↦ err no_rows | some r ↦ ok r ]

-- One pass of the loop over the tasks that were read: the rows afterwards, and the task.
unfoldable pub recover_acceptance : PlanTask → List PlanTask → Result (List PlanTask × PlanTask)
unfolding needs_recovery build_acceptance_result find_task update_acceptance put_row
recover_acceptance t rows =
    let result =
      build_acceptance_result t.columns.acceptance_definition (text "passed")
        (text "legacy succeeded task acceptance recovered") in
    if needs_recovery t
    then ((find_task t.id rows >>= update_acceptance result) >>= λ r.
        ok (put_row r rows, scan_acceptance t r))
    else ok (rows, t)

unfoldable pub recover_tasks :
    List PlanTask → List PlanTask → Result (List PlanTask × List PlanTask)
unfolding recover_acceptance
recover_tasks [] rows = ok (rows, [])
recover_tasks (t ∷ ts) rows = do
  (rows1, t') ← recover_acceptance t rows
  (rows2, ts') ← recover_tasks ts rows1
  ok (rows2, t' ∷ ts')

abbrev pub state_of : Plan → List PlanTask → PlanExecutionState
state_of p tasks = record {
  plan_id = p.id;
  project_id = p.project_id;
  version = p.version;
  status = p.status;
  is_executable = p.columns.is_executable;
  compatibility_mode = p.columns.compatibility_mode;
  validation_problems = p.columns.validation_problems;
  config_snapshot = p.columns.config_snapshot;
  tasks = tasks;
}

-- The tables after the recovery, and the state.
abbrev pub loaded_with : Plan → Db → List PlanTask → List PlanTask → Db × PlanExecutionState
loaded_with p db rows tasks =
    (record db { tasks = record db.tasks { rows = rows } }, state_of p tasks)

unfoldable pub load_plan : Plan → Db → Result (Db × PlanExecutionState)
unfolding tasks_of_plan recover_tasks
load_plan p db =
    let read = tasks_of_plan p.id p.columns.compatibility_mode db.tasks.rows in
    if p.columns.compatibility_mode
    then (recover_tasks read db.tasks.rows >>= λ (rows, tasks). ok (loaded_with p db rows tasks))
    else ok (loaded_with p db db.tasks.rows read)

abbrev pub load_found : Db → Option Plan → Result (Db × PlanExecutionState)
load_found db none = err not_found
load_found db (some p) = load_plan p db

unfoldable pub load_plan_execution_state : ℕ → Db → Result (Db × PlanExecutionState)
unfolding load_plan
load_plan_execution_state plan db = load_found db (find_row plan db.plans.rows)
