-- ===== src/Load/Tasks.antt =====
-- The tasks of a plan as the query of `loadPlanExecutionStateTx` (backend/internal/repository/queue.go)
-- reads them: all rows of the plan and no others, each once.
use specrelay.Prelude.{
  ℕ, ◌≡◌, inl, inr, Bool, true, false, none, List, [], ◌∷◌, ◌==◌, if◌then◌else◌, All, All-map,
  nat_eq, nat_beq_iff, arith, Bool-cases,
}
use specrelay.Gate.{find_row}
use specrelay.Gate.Keys.{IsKeyed}
use specrelay.Store.{PlanTask}
use specrelay.Claim.{filter_by}
use specrelay.Load.{task_before, insert_task, sort_tasks, tasks_of_plan}

module _ {ℓ} (P : PlanTask → Type ℓ) (compatible : Bool) where
  insert_task-All :
      (t : PlanTask) (ts : List PlanTask) → P t → All P ts → All P (insert_task compatible t ts)
  unfolding insert_task
  insert_task-All t [] p h = (p, tt)
  insert_task-All t (u ∷ us) p h = elim (Bool-cases (task_before compatible u t)) [
    | inl earlier ↦ rw earlier (h.0, insert_task-All t us p h.1)
    | inr later ↦ rw later (p, h)
  ]

  insert_task-All-back :
      (t : PlanTask) (ts : List PlanTask) → All P (insert_task compatible t ts) → P t × All P ts
  unfolding insert_task
  insert_task-All-back t [] h = h
  insert_task-All-back t (u ∷ us) h = elim (Bool-cases (task_before compatible u t)) [
    | inl earlier ↦
        let parts = rw earlier at h in
        let rest = insert_task-All-back t us parts.1 in (rest.0, (parts.0, rest.1))
    | inr later ↦ rw later at h
  ]

  -- The tasks of a plan are rows of the table ...
  pub tasks_of_plan-All :
      (plan : ℕ) (rows : List PlanTask) → All P rows → All P (tasks_of_plan plan compatible rows)
  unfolding tasks_of_plan sort_tasks filter_by
  tasks_of_plan-All plan [] h = tt
  tasks_of_plan-All plan (r ∷ rs) h = elim (Bool-cases (r.columns.plan_id == plan)) [
    | inl its ↦ rw its (insert_task-All r _ h.0 (tasks_of_plan-All plan rs h.1))
    | inr other ↦ rw other (tasks_of_plan-All plan rs h.1)
  ]

  -- ... and all the rows with that plan.
  pub tasks_of_plan-All-back :
      (plan : ℕ) (rows : List PlanTask)
      → All P (tasks_of_plan plan compatible rows)
      → All (λ r. (r.columns.plan_id == plan) ≡ true → P r) rows
  unfolding tasks_of_plan sort_tasks filter_by
  tasks_of_plan-All-back plan [] h = tt
  tasks_of_plan-All-back plan (r ∷ rs) h = elim (Bool-cases (r.columns.plan_id == plan)) [
    | inl its ↦
        let parts = insert_task-All-back r _ (rw its at h) in
        ((λ _. parts.0), tasks_of_plan-All-back plan rs parts.1)
    | inr other ↦ (
      (λ its. absurd (ground (arith, other, its))),
      tasks_of_plan-All-back plan rs (rw other at h),
    )
  ]

pub tasks_of_plan-plan :
    (plan : ℕ) (compatible : Bool) (rows : List PlanTask)
    → All (λ t. t.columns.plan_id ≡ plan) (tasks_of_plan plan compatible rows)
unfolding tasks_of_plan sort_tasks filter_by
tasks_of_plan-plan plan compatible [] = tt
tasks_of_plan-plan plan compatible (r ∷ rs) = elim (Bool-cases (r.columns.plan_id == plan)) [
  | inl its ↦ rw its (
      insert_task-All (λ t. t.columns.plan_id ≡ plan) compatible r _
        ((nat_beq_iff r.columns.plan_id plan).0 its) (tasks_of_plan-plan plan compatible rs))
  | inr other ↦ rw other (tasks_of_plan-plan plan compatible rs)
]

-- No task of the list has the identifier.
abbrev pub IsWithout : ℕ → List PlanTask → Type 0
IsWithout id ts = All (λ u. (u.id == id) ≡ false) ts

-- No two tasks of the list have the same identifier.
abbrev pub AreApart : List PlanTask → Type 0
AreApart [] = Unit
AreApart (t ∷ ts) = IsWithout t.id ts × AreApart ts

insert_task-AreApart :
    (compatible : Bool) (t : PlanTask) (ts : List PlanTask)
    → IsWithout t.id ts
    → AreApart ts
    → AreApart (insert_task compatible t ts)
unfolding insert_task
insert_task-AreApart compatible t [] w h = (tt, tt)
insert_task-AreApart compatible t (u ∷ us) w h = elim (Bool-cases (task_before compatible u t)) [
  | inl earlier ↦ rw earlier (
    insert_task-All (λ v. (v.id == u.id) ≡ false) compatible t us
        (ground (arith, w.0, nat_beq_iff t.id u.id, nat_beq_iff u.id t.id)) h.0,
    insert_task-AreApart compatible t us w.1 h.1,
  )
  | inr later ↦ rw later (w, h)
]

IsWithout-absent : (id : ℕ) (rows : List PlanTask) → find_row id rows ≡ none → IsWithout id rows
unfolding find_row
IsWithout-absent id [] h = tt
IsWithout-absent id (r ∷ rs) h = (ground (arith, h), IsWithout-absent id rs (ground (arith, h)))

pub tasks_of_plan-AreApart :
    (plan : ℕ) (compatible : Bool) (rows : List PlanTask)
    → IsKeyed rows
    → AreApart (tasks_of_plan plan compatible rows)
unfolding tasks_of_plan sort_tasks filter_by
tasks_of_plan-AreApart plan compatible [] h = tt
tasks_of_plan-AreApart plan compatible (r ∷ rs) h = elim (Bool-cases (r.columns.plan_id == plan)) [
  | inl its ↦ rw its (
      insert_task-AreApart compatible r _
        (tasks_of_plan-All (λ u. (u.id == r.id) ≡ false) compatible plan rs
          (IsWithout-absent r.id rs h.0))
        (tasks_of_plan-AreApart plan compatible rs h.1))
  | inr other ↦ rw other (tasks_of_plan-AreApart plan compatible rs h.1)
]

-- Whether a task of the list has the identifier.
abbrev pub has_task : ℕ → List PlanTask → Bool
has_task id [] = false
has_task id (t ∷ ts) = if t.id == id then true else has_task id ts

pub has_task-own : (ts : List PlanTask) → All (λ t. has_task t.id ts ≡ true) ts
has_task-own [] = tt
has_task-own (t ∷ ts) =
    (ground (arith, nat_beq_iff t.id t.id), All-map (λ u h. ground (arith, h)) ts (has_task-own ts))

pub tasks_of_plan-has_task :
    (plan : ℕ) (compatible : Bool) (rows : List PlanTask)
    → All
        (λ r.
          (r.columns.plan_id == plan) ≡ true
          → has_task r.id (tasks_of_plan plan compatible rows) ≡ true)
        rows
tasks_of_plan-has_task plan compatible rows =
    tasks_of_plan-All-back (λ t. has_task t.id (tasks_of_plan plan compatible rows) ≡ true)
      compatible plan rows (has_task-own (tasks_of_plan plan compatible rows))
