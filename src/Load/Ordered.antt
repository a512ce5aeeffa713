-- ===== src/Load/Ordered.antt =====
-- What loadPlanExecutionStateTx (backend/internal/repository/queue.go) reads and writes: the tasks of
-- the plan, each as it is stored then.
use specrelay.Prelude.{
  ℕ, ◌≡◌, refl, subst, ◌∙◌, inl, inr, true, some, List, [], ◌∷◌, ◌==◌, All, All-map, All-both,
  nat_eq, nat_beq_iff, arith, Bool-cases, Option-cases,
}
use specrelay.Failure.{ok, Result-cases}
use specrelay.Gate.{find_row}
use specrelay.Gate.Rows.{find_row-id}
use specrelay.Gate.Keys.{IsKeyed, IsKeyed-found}
use specrelay.Store.{Plan, PlanTask, Db}
use specrelay.Blocker.{PlanExecutionState}
use specrelay.Load.{
  tasks_of_plan, recover_tasks, state_of, loaded_with, load_plan, load_plan_execution_state,
}
use specrelay.Load.Tasks.{
  tasks_of_plan-All, tasks_of_plan-plan, tasks_of_plan-AreApart, tasks_of_plan-has_task, has_task,
  has_task-own,
}
use specrelay.Load.Recovered.{
  AreRecovered, AreRecovered-same, recover_tasks-ok, recover_tasks-AreRecovered,
}

-- What a state says of the tables that go with it.
pub record IsLoaded (plan : ℕ) (db db' : Db) (s : PlanExecutionState) : Type 1 where
  pub row : Plan
  pub found : find_row plan db.plans.rows ≡ some row
  pub plan_row : (s.plan_id ≡ plan) × (s.status ≡ row.status) × (s.version ≡ row.version)
  pub others_kept : db' ≡ record db { tasks = db'.tasks }
  pub keyed : IsKeyed db'.tasks.rows
  pub stored : All (λ t. find_row t.id db'.tasks.rows ≡ some t) s.tasks
  pub of_plan : All (λ t. t.columns.plan_id ≡ plan) s.tasks
  pub complete_for :
      (P : PlanTask → Type 0)
      → All P s.tasks
      → All (λ r. (r.columns.plan_id == plan) ≡ true → P r) db'.tasks.rows

has_task-P :
    (P : PlanTask → Type 0) (r : PlanTask) (rows ts : List PlanTask)
    → find_row r.id rows ≡ some r
    → All (λ t. find_row t.id rows ≡ some t) ts
    → All P ts
    → has_task r.id ts ≡ true
    → P r
has_task-P P r rows [] found stored h e = cc
has_task-P P r rows (t ∷ ts) found stored h e = elim (Bool-cases (t.id == r.id)) [
  | inl own ↦
      let same : t.id ≡ r.id = (nat_beq_iff t.id r.id).0 own in
      let it : t ≡ r = ground (arith, found, stored.0, same) in subst P it h.0
  | inr other ↦ has_task-P P r rows ts found stored.1 h.1 (ground (arith, other, e))
]

-- What the loop has to leave of the tasks that were read, and of the rows.
load_rest :
    (plan : ℕ) (p : Plan) (db : Db) (rows tasks : List PlanTask)
    → find_row plan db.plans.rows ≡ some p
    → AreRecovered
        (tasks_of_plan plan p.columns.compatibility_mode db.tasks.rows)
        tasks
        db.tasks.rows
        rows
    → IsLoaded plan db (record db { tasks = record db.tasks { rows = rows } }) (state_of p tasks)
load_rest plan p db rows tasks found done =
    let compatible = p.columns.compatibility_mode in
    let listed : All (λ r. (r.columns.plan_id == plan) ≡ true → has_task r.id tasks ≡ true) rows =
      done.keeps (λ r. (r.columns.plan_id == plan) ≡ true → has_task r.id tasks ≡ true)
        (All-map (λ r h its. done.same_ids r.id ∙ h its) db.tasks.rows
          (tasks_of_plan-has_task plan compatible db.tasks.rows))
        (All-map (λ t h _. h) tasks (has_task-own tasks)) in
    record {
      row = p;
      found = found;
      plan_row = (find_row-id plan db.plans.rows found, refl, refl);
      others_kept = refl;
      keyed = done.keyed;
      stored = done.stored;
      of_plan = done.same_plans plan (tasks_of_plan-plan plan compatible db.tasks.rows);
      complete_for = λ P h.
          All-map (λ r both its. has_task-P P r rows tasks both.0 done.stored h (both.1 its)) rows
            (All-both _ _ rows (IsKeyed-found rows done.keyed) listed);
    }

load_plan-IsLoaded :
    (plan : ℕ) (p : Plan) (db db' : Db) (s : PlanExecutionState)
    → find_row plan db.plans.rows ≡ some p
    → IsKeyed db.tasks.rows
    → load_plan p db ≡ ok (db', s)
    → IsLoaded plan db db' s
unfolding load_plan
load_plan-IsLoaded plan p db db' s found keyed h =
    let compatible = p.columns.compatibility_mode in
    let read = tasks_of_plan plan compatible db.tasks.rows in
    let same : p.id ≡ plan = find_row-id plan db.plans.rows found in
    let stored =
      tasks_of_plan-All (λ t. find_row t.id db.tasks.rows ≡ some t) compatible plan db.tasks.rows
        (IsKeyed-found db.tasks.rows keyed) in
    elim (Bool-cases compatible) [
      | inl old ↦ elim (Result-cases (recover_tasks read db.tasks.rows)) [
        | inl (failure, e) ↦ absurd (ground (arith, old, e, same))
        | inr ((rows, tasks), e) ↦
            let end : loaded_with p db rows tasks ≡ (db', s) = ground (arith, old, e, same) in
            subst (λ (x : Db × PlanExecutionState). IsLoaded plan db x.0 x.1) end
              (load_rest plan p db rows tasks found (
                recover_tasks-AreRecovered read tasks db.tasks.rows rows keyed
                  (tasks_of_plan-AreApart plan compatible db.tasks.rows keyed) stored e))
      ]
      | inr new ↦
          let end : loaded_with p db db.tasks.rows read ≡ (db', s) = ground (arith, new, same) in
          subst (λ (x : Db × PlanExecutionState). IsLoaded plan db x.0 x.1) end
            (load_rest plan p db db.tasks.rows read found
              (AreRecovered-same read db.tasks.rows keyed stored))
    ]

pub load_plan_execution_state-IsLoaded :
    (plan : ℕ) (db db' : Db) (s : PlanExecutionState)
    → IsKeyed db.tasks.rows
    → load_plan_execution_state plan db ≡ ok (db', s)
    → IsLoaded plan db db' s
unfolding load_plan_execution_state
load_plan_execution_state-IsLoaded plan db db' s keyed h =
    elim (Option-cases (find_row plan db.plans.rows)) [
      | inl missing ↦ ground (arith, missing)
      | inr (p, found) ↦ load_plan-IsLoaded plan p db db' s found keyed (ground (arith, found))
    ]

-- The load of a plan that exists always succeeds, if no two tasks have the same identifier: no task
-- that it completes the acceptance result of is missed by its UPDATE.
pub load_plan_execution_state-ok :
    (plan : ℕ) (db : Db) (p : Plan)
    → IsKeyed db.tasks.rows
    → find_row plan db.plans.rows ≡ some p
    → (db' : Db) × ((s : PlanExecutionState) × (load_plan_execution_state plan db ≡ ok (db', s)))
unfolding load_plan_execution_state load_plan
load_plan_execution_state-ok plan db p keyed found =
    let compatible = p.columns.compatibility_mode in
    let read = tasks_of_plan p.id compatible db.tasks.rows in
    elim (Bool-cases compatible) [
      | inl old ↦
          let (rows, (tasks, e)) =
            recover_tasks-ok read db.tasks.rows
              (tasks_of_plan-AreApart p.id compatible db.tasks.rows keyed)
              (tasks_of_plan-All (λ t. find_row t.id db.tasks.rows ≡ some t) compatible p.id
                db.tasks.rows (IsKeyed-found db.tasks.rows keyed)) in
          let end = loaded_with p db rows tasks in (end.0, (end.1, ground (arith, found, old, e)))
      | inr new ↦
          let end = loaded_with p db db.tasks.rows read in
          (end.0, (end.1, ground (arith, found, new)))
    ]
