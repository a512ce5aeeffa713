-- ===== src/Schedule/Next.antt =====
-- What the choice of nextPlanTask (backend/internal/repository/queue.go) means.
use specrelay.Prelude.{
  All-map, ℕ, ◌≡◌, ◌≢◌, refl, sym, ap, inl, inr, Bool, true, false, not, ◌&&◌, Option, some, List,
  [], ◌∷◌, ◌++◌, ◌==◌, contains, Text, text_eq, text_beq_iff, subst, arith, All, Bool-cases,
  Option-cases,
}
use specrelay.Status.{pending, succeeded, status_eq, status_beq_iff}
use specrelay.Store.{PlanTask}
use specrelay.Blocker.{PlanExecutionBlocker, PlanExecutionState, acceptance_scheduling_blocker}
use specrelay.Blocker.Acceptance.{IsAccepted, acceptance_scheduling_blocker-none}
use specrelay.Validate.{Checked, passed, refused, validate_plan_execution_state}
use specrelay.Validate.Graph.{IsOrdered, validate-IsOrdered}
use specrelay.Schedule.{
  is_active, active_task_blockers, dependency_blockers, NextTask, next_task, complete, blocked_by,
  open_task, first_open, after_validation, first_unless, next_plan_task,
}

-- The task succeeded, and its acceptance passed.
pub IsSettled : PlanTask → Type 0
IsSettled t = (t.status ≡ succeeded) × IsAccepted t

-- `t` is the first task of the list that is not settled, pending where the choice is automatic.
unfoldable pub IsFirstOpen : Bool → PlanTask → List PlanTask → Type 0
IsFirstOpen automatic t tasks =
    (before : List PlanTask) × ((after : List PlanTask) × (tasks ≡ before ++ (t ∷ after))
      × All IsSettled before
      × (t.status ≢ succeeded)
      × ((automatic && not (t.status == pending)) ≡ false))

open_task-next :
    (automatic : Bool) (t : PlanTask) (bs : List PlanExecutionBlocker) {u : PlanTask}
    → open_task automatic t bs ≡ next_task u
    → (t ≡ u) × ((automatic && not (t.status == pending)) ≡ false)
unfolding open_task
open_task-next automatic t [] {u} h =
    ground (arith, Bool-cases automatic, status_beq_iff t.status pending)
open_task-next automatic t (b ∷ bs) h = cc

open_task-open :
    (automatic : Bool) (t : PlanTask) (bs : List PlanExecutionBlocker)
    → open_task automatic t bs ≢ complete
unfolding open_task
open_task-open automatic t [] = ground arith
open_task-open automatic t (b ∷ bs) = ground arith

succeeded_iff : (t : PlanTask) → (t.status == succeeded) ≡ true → t.status ≡ succeeded
succeeded_iff t h = (status_beq_iff t.status succeeded).0 h

first_open-next :
    (s : PlanExecutionState) (automatic : Bool) (ts : List PlanTask) {t : PlanTask}
    → first_open s automatic ts ≡ next_task t
    → IsFirstOpen automatic t ts
unfolding first_open IsFirstOpen IsSettled
first_open-next s automatic [] h = cc
first_open-next s automatic (u ∷ ts) {t} h = elim (Bool-cases (u.status == succeeded)) [
  | inl done ↦ elim (Option-cases (acceptance_scheduling_blocker u)) [
    | inl accepted ↦
        let rest = first_open-next s automatic ts {t = t} (ground arith) in
        (
          u ∷ rest.0,
          (
            rest.1.0,
            ap (λ l. u ∷ l) rest.1.1,
            ((succeeded_iff u done, acceptance_scheduling_blocker-none u accepted), rest.1.2),
            rest.1.3,
            rest.1.4,
          ),
        )
    | inr (b, refused_by) ↦ ground arith
  ]
  | inr waits ↦
      let chosen = open_task-next automatic u (dependency_blockers s u) {u = t} (ground arith) in
      (
        [],
        (
          ts,
          ground (arith, chosen.0),
          tt,
          ground (arith, chosen.0, status_beq_iff u.status succeeded),
          ground (arith, chosen.0, chosen.1),
        ),
      )
]

first_open-complete :
    (s : PlanExecutionState) (automatic : Bool) (ts : List PlanTask)
    → first_open s automatic ts ≡ complete
    → All IsSettled ts
unfolding first_open IsSettled
first_open-complete s automatic [] h = tt
first_open-complete s automatic (u ∷ ts) h = elim (Bool-cases (u.status == succeeded)) [
  | inl done ↦ elim (Option-cases (acceptance_scheduling_blocker u)) [
    | inl accepted ↦ (
      (succeeded_iff u done, acceptance_scheduling_blocker-none u accepted),
      first_open-complete s automatic ts (ground arith),
    )
    | inr (b, refused_by) ↦ ground arith
  ]
  | inr waits ↦ ground (arith, open_task-open automatic u (dependency_blockers s u))
]

active_task_blockers-none :
    (allowed : Option ℕ) (ts : List PlanTask)
    → active_task_blockers allowed ts ≡ []
    → All (λ t. is_active allowed t ≡ false) ts
unfolding active_task_blockers
active_task_blockers-none allowed [] h = tt
active_task_blockers-none allowed (t ∷ ts) h = elim (Bool-cases (is_active allowed t)) [
  | inl active ↦ ground arith
  | inr idle ↦ (idle, active_task_blockers-none allowed ts (ground arith))
]

first_unless-open :
    (r : NextTask) (bs : List PlanExecutionBlocker) {q : NextTask}
    → first_unless r bs ≡ q
    → ((b : PlanExecutionBlocker) (rest : List PlanExecutionBlocker) → q ≢ blocked_by (b ∷ rest))
    → (bs ≡ []) × (r ≡ q)
unfolding first_unless
first_unless-open r [] h open_result = (refl, h)
first_unless-open r (b ∷ bs) h open_result = absurd (open_result b bs (sym h))

after_validation-open :
    (r : NextTask) (c : Checked (Unit {0})) {q : NextTask}
    → after_validation r c ≡ q
    → ((b : PlanExecutionBlocker) (rest : List PlanExecutionBlocker) → q ≢ blocked_by (b ∷ rest))
    → (c ≡ passed tt) × (r ≡ q)
after_validation-open r (passed tt) h open_result = (refl, h)
after_validation-open r (refused b) h open_result = absurd (open_result b [] (sym h))

-- The gates before the loop.
next_plan_task-gates :
    (s : PlanExecutionState) (automatic : Bool) (allowed : Option ℕ) {q : NextTask}
    → next_plan_task s automatic allowed ≡ q
    → ((b : PlanExecutionBlocker) (rest : List PlanExecutionBlocker) → q ≢ blocked_by (b ∷ rest))
    → (validate_plan_execution_state s ≡ passed tt)
      × (active_task_blockers allowed s.tasks ≡ [])
      × (first_open s automatic s.tasks ≡ q)
unfolding next_plan_task
next_plan_task-gates s automatic allowed {q} h open_result =
    let checked = after_validation-open _ (validate_plan_execution_state s) h open_result in
    let gates = first_unless-open _ (active_task_blockers allowed s.tasks) checked.1 open_result in
    (checked.0, gates.0, gates.1)

-- The task that the scheduler gives is the first of a validated plan that is not settled: all
-- before it succeeded and were accepted, it did not succeed, it is pending when the choice is
-- automatic, and no task but the one that the caller allows is queued or running.
pub next_plan_task-IsFirstOpen :
    (s : PlanExecutionState) (automatic : Bool) (allowed : Option ℕ) (t : PlanTask)
    → next_plan_task s automatic allowed ≡ next_task t
    → (validate_plan_execution_state s ≡ passed tt)
      × All (λ u. is_active allowed u ≡ false) s.tasks
      × IsFirstOpen automatic t s.tasks
next_plan_task-IsFirstOpen s automatic allowed t h =
    let gates = next_plan_task-gates s automatic allowed h (λ b rest e. ground arith) in
    (
      gates.0,
      active_task_blockers-none allowed s.tasks gates.1,
      first_open-next s automatic s.tasks gates.2,
    )

-- The scheduler calls a plan complete only when every task succeeded and was accepted.
pub next_plan_task-complete :
    (s : PlanExecutionState) (automatic : Bool) (allowed : Option ℕ)
    → next_plan_task s automatic allowed ≡ complete
    → All IsSettled s.tasks
next_plan_task-complete s automatic allowed h =
    let gates = next_plan_task-gates s automatic allowed h (λ b rest e. ground arith) in
    first_open-complete s automatic s.tasks gates.2

-- A settled task has the key.
abbrev pub IsSettledKey : Text → Type 0
IsSettledKey d = (u : PlanTask) × (u.columns.task_key ≡ d) × IsSettled u

-- The dependencies of a task that stands after settled tasks are settled.
IsOrdered-settled :
    (seen : List Text) (before : List PlanTask) (t : PlanTask) (after : List PlanTask)
    → ((d : Text) → contains seen d ≡ true → IsSettledKey d)
    → All IsSettled before
    → IsOrdered seen (before ++ (t ∷ after))
    → (deps : List Text) × (t.columns.dependency_keys ≡ some deps) × All IsSettledKey deps
unfolding IsOrdered
IsOrdered-settled seen [] t after known settled ordered =
    (ordered.1.0, ordered.1.1, All-map known ordered.1.0 ordered.1.2)
IsOrdered-settled seen (u ∷ before) t after known settled ordered =
    IsOrdered-settled (u.columns.task_key ∷ seen) before t after
      (λ d h. elim (Bool-cases (u.columns.task_key == d)) [
        | inl same ↦ (u, (text_beq_iff _ _).0 same, settled.0)
        | inr differs ↦ known d (ground arith)
      ])
      settled.1 ordered.2

-- Every dependency of the task that the scheduler gives for an explicit plan names a task that
-- succeeded and was accepted.
pub next_plan_task-dependencies :
    (s : PlanExecutionState) (automatic : Bool) (allowed : Option ℕ) (t : PlanTask)
    → s.compatibility_mode ≡ false
    → next_plan_task s automatic allowed ≡ next_task t
    → (deps : List Text) × (t.columns.dependency_keys ≡ some deps) × All IsSettledKey deps
unfolding IsFirstOpen
next_plan_task-dependencies s automatic allowed t explicit h =
    let chosen = next_plan_task-IsFirstOpen s automatic allowed t h in
    let at = chosen.2 in
    IsOrdered-settled [] at.0 t at.1.0 (λ d e. cc) at.1.2
      (subst (IsOrdered []) at.1.1 (validate-IsOrdered s explicit chosen.0))
