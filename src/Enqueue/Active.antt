-- ===== src/Enqueue/Active.antt =====
-- The active tasks of a plan: those that are queued or running. The scheduler
-- (backend/internal/repository/queue.go) queues a task only where there are none.
use specrelay.Prelude.{
  ℕ, ◌+◌, ◌≡◌, refl, ap, ◌∙◌, inl, inr, Bool, true, false, ◌&&◌, none, some, List, [], ◌∷◌, ◌++◌,
  ◌==◌, if◌then◌else◌, contains, All, nat_eq, nat_beq_iff, arith, Bool-cases, subst,
}
use specrelay.Status.{status_eq, status_beq_iff, queued, running}
use specrelay.Lifecycle.{task}
use specrelay.Gate.{Table, LifecycleTransitionRequest, find_row, put_row}
use specrelay.Gate.Keys.{sum_rows, sum_rows-put_row}
use specrelay.Store.{TaskColumns, PlanTask, Db}
use specrelay.TaskReturn.{no_worker}
use specrelay.Blocker.{PlanExecutionState}
use specrelay.Schedule.{is_active, next_task, next_plan_task}
use specrelay.Schedule.Next.{IsFirstOpen, next_plan_task-IsFirstOpen}
use specrelay.Load.Ordered.{IsLoaded}
use specrelay.Enqueue.Moves.{IsMove}

unfoldable pub active_share : ℕ → PlanTask → ℕ
active_share plan t =
    if t.columns.plan_id == plan && contains (queued ∷ running ∷ []) t.status then 1 else 0

-- How many tasks of the plan are queued or running.
unfoldable pub active_count : ℕ → List PlanTask → ℕ
unfolding sum_rows active_share
active_count plan rows = sum_rows (active_share plan) rows

active_count-none :
    (plan : ℕ) (rows : List PlanTask)
    → All (λ r. (r.columns.plan_id == plan) ≡ true → is_active none r ≡ false) rows
    → active_count plan rows ≡ 0
unfolding active_count sum_rows active_share
active_count-none plan [] h = refl
active_count-none plan (r ∷ rs) h =
    ground (arith, active_count-none plan rs h.1, Bool-cases (r.columns.plan_id == plan), h.0)

active_count-put_row :
    (plan : ℕ) (t' : PlanTask) (rows : List PlanTask) {t : PlanTask}
    → find_row t'.id rows ≡ some t
    → active_count plan (put_row t' rows) + active_share plan t
      ≡ active_count plan rows + active_share plan t'
unfolding active_count
active_count-put_row plan t' rows {t} h = sum_rows-put_row (active_share plan) t' rows {r = t} h

pub All-chosen :
    (P : PlanTask → Type 0) (n : PlanTask) (before after : List PlanTask)
    → All P (before ++ (n ∷ after))
    → P n
All-chosen P n [] after h = h.0
All-chosen P n (b ∷ bs) after h = All-chosen P n bs after h.1

-- A task that the scheduler chooses is a task of the plan, as it is stored.
pub IsFirstOpen-stored :
    (plan : ℕ) (db db' : Db) (s : PlanExecutionState) (automatic : Bool) (n : PlanTask)
    → IsLoaded plan db db' s
    → IsFirstOpen automatic n s.tasks
    → (find_row n.id db'.tasks.rows ≡ some n) × (n.columns.plan_id ≡ plan)
unfolding IsFirstOpen
IsFirstOpen-stored plan db db' s automatic n loaded (before, (after, split, _, _, _)) = (
  All-chosen (λ t. find_row t.id db'.tasks.rows ≡ some t) n before after
      (subst (λ ts. All (λ t. find_row t.id db'.tasks.rows ≡ some t) ts) split loaded.stored),
  All-chosen (λ t. t.columns.plan_id ≡ plan) n before after
      (subst (λ ts. All (λ t. t.columns.plan_id ≡ plan) ts) split loaded.of_plan),
)

-- The one active task of a plan, which has just been queued.
pub record IsOneQueued (plan : ℕ) (n : PlanTask) (rows : List PlanTask) : Type 0 where
  pub queued_task : PlanTask
  pub stored : find_row n.id rows ≡ some queued_task
  pub new_status : queued_task.status ≡ queued
  pub next_version : queued_task.version ≡ n.version + 1
  pub one_active : active_count plan rows ≡ 1

one_left :
    (plan : ℕ) (n t' : PlanTask) (rows : List PlanTask)
    → is_active none n ≡ false
    → t'.columns ≡ n.columns
    → t'.status ≡ queued
    → n.columns.plan_id ≡ plan
    → active_count plan rows ≡ 0
    → active_count plan (put_row t' rows) + active_share plan n
      ≡ active_count plan rows + active_share plan t'
    → active_count plan (put_row t' rows) ≡ 1
unfolding active_share
one_left plan n t' rows idle columns status its none_active counted =
    let idle_share : active_share plan n ≡ 0 = ground (arith, idle) in
    let own : (t'.columns.plan_id == plan) ≡ true =
      (nat_beq_iff t'.columns.plan_id plan).1 (ap (λ (c : TaskColumns). c.plan_id) columns ∙ its) in
    let share : active_share plan t' ≡ 1 =
      ground (arith, own, status, status_beq_iff queued t'.status) in
    omega (arith, counted, idle_share, share, none_active)

pub IsMove-IsOneQueued :
    (plan now : ℕ) (db db' : Db) (s : PlanExecutionState) (automatic : Bool) (n : PlanTask)
    (q : LifecycleTransitionRequest TaskColumns) (tasks : Table TaskColumns) (idempotent : Bool)
    → IsLoaded plan db db' s
    → next_plan_task s automatic none ≡ next_task n
    → q.resource_id ≡ n.id
    → q.status ≡ queued
    → q.ignore_terminal ≡ false
    → q.fields ≡ (λ c. c)
    → IsMove task no_worker now q db'.tasks tasks idempotent
    → IsOneQueued plan n tasks.rows
unfolding IsFirstOpen
IsMove-IsOneQueued plan now db db' s automatic n q tasks i loaded chosen id status strict
      same_fields move =
    let choice = next_plan_task-IsFirstOpen s automatic none n chosen in
    let (there, its) = IsFirstOpen-stored plan db db' s automatic n loaded choice.2 in
    let idle = loaded.complete_for (λ t. is_active none t ≡ false) choice.1 in
    let was : move.before ≡ n = ground (arith, move.found, id, there) in
    let n_idle =
      All-chosen (λ t. is_active none t ≡ false) n choice.2.0 choice.2.1.0
        (subst (All (λ t. is_active none t ≡ false)) choice.2.1.1 choice.1) in
    let none_active = active_count-none plan db'.tasks.rows idle in
    elim move.change [
      | inl (_, _, _, inl same) ↦ absurd (
          ground (
            arith,
            same,
            was,
            status,
            n_idle,
            status_beq_iff queued n.status,
            status_beq_iff n.status queued,
          ))
      | inl (_, _, _, inr (_, lax)) ↦ absurd (ground (arith, lax, strict))
      | inr (e, _, admitted, written) ↦
          let columns : move.after.columns ≡ n.columns =
            ground (arith, written.new_columns, same_fields, was) in
          let counted =
            active_count-put_row plan move.after db'.tasks.rows {t = n}
              (ground (arith, written.same_id, was, there)) in
          record {
            queued_task = move.after;
            stored = ground (arith, move.stored, id);
            new_status = written.new_status ∙ status;
            next_version = ground (arith, written.next_version, was);
            one_active = rw e (
                one_left plan n move.after db'.tasks.rows n_idle columns
                  (written.new_status ∙ status) its none_active counted);
          }
    ]
