-- ===== src/Enqueue/Moves.antt =====
-- The writes of plan execution through `transitionLifecycleTx` (backend/internal/repository): what
-- they leave of the table, and that they touch one table only.
use specrelay.Prelude.{
  ℕ, ◌≡◌, refl, ap, ◌∙◌, ◌⊎◌, inl, inr, Bool, true, false, some, ◌==◌, arith, Text,
}
use specrelay.Failure.{ok, Result-cases}
use specrelay.Status.{status_eq, status_beq_iff}
use specrelay.Lifecycle.{LifecycleResource, task, plan, job, is_terminal_status}
use specrelay.Gate.{Row, Table, LifecycleTransitionRequest, find_row, put_row, transition_lifecycle}
use specrelay.Gate.Rows.{find_row-id, find_row-put_row_self}
use specrelay.Gate.Moved.{
  IsWritten, IsAdmitted, transition_row-IsWritten, transition_row-IsAdmitted, transition_row-same,
}
use specrelay.Gate.Protect.{transition_lifecycle-Outcome}
use specrelay.Store.{JobColumns, TaskColumns, PlanColumns, Db}
use specrelay.Claim.{worker_of, transition_job}
use specrelay.TaskReturn.{no_worker}
use specrelay.Enqueue.{no_plan_worker, move_task, move_plan}

module _ {X : Type 0} (resource : LifecycleResource) (worker_id : X → Text) (now : ℕ) where
  -- The row of the request before and after, and the change of the table, if any.
  pub record IsMove (q : LifecycleTransitionRequest X) (t t' : Table X) (idempotent : Bool)
      : Type 0 where
    pub before : Row X
    pub after : Row X
    pub found : find_row q.resource_id t.rows ≡ some before
    pub stored : find_row q.resource_id t'.rows ≡ some after
    pub change :
        (t' ≡ t)
          × (idempotent ≡ true)
          × (after ≡ before)
          × (((before.status == q.status) ≡ true)
              ⊎ ((is_terminal_status resource before.status ≡ true) × (q.ignore_terminal ≡ true)))
        ⊎ ((t'.rows ≡ put_row after t.rows)
            × (idempotent ≡ false)
            × IsAdmitted resource worker_id now q before
            × IsWritten resource worker_id now q before after)

  pub transition_lifecycle-IsMove :
      (q : LifecycleTransitionRequest X) (t t' : Table X) (idempotent : Bool)
      → transition_lifecycle resource worker_id now q t ≡ ok (t', idempotent)
      → IsMove q t t' idempotent
  transition_lifecycle-IsMove q t t' i h =
      let outcome = transition_lifecycle-Outcome resource worker_id now q t t' i h in
      elim outcome.effect [
        | inl (kept, flag, unmoved) ↦ record {
          before = outcome.row;
          after = outcome.row;
          found = outcome.found;
          stored = ap (λ (u : Table X). find_row q.resource_id u.rows) kept ∙ outcome.found;
          change =
              inl (
                kept,
                flag,
                refl,
                transition_row-same resource worker_id now q outcome.row unmoved,
              );
        }
        | inr (r', moves, e, flag) ↦
            let written = transition_row-IsWritten resource worker_id now q outcome.row moves in
            let admitted = transition_row-IsAdmitted resource worker_id now q outcome.row moves in
            let id = find_row-id q.resource_id t.rows outcome.found in
            record {
              before = outcome.row;
              after = r';
              found = outcome.found;
              stored =
                  ap (λ (u : Table X). find_row q.resource_id u.rows) e
                  ∙ find_row-put_row_self q.resource_id r' t.rows (written.same_id ∙ id)
                      outcome.found;
              change = inr (ap (λ (u : Table X). u.rows) e, flag, admitted, written);
            }
      ]

  -- A request that a terminal row refuses leaves its row with the requested status.
  pub IsMove-status :
      (q : LifecycleTransitionRequest X) (t t' : Table X) (idempotent : Bool)
      → q.ignore_terminal ≡ false
      → (move : IsMove q t t' idempotent) → move.after.status ≡ q.status
  IsMove-status q t t' i strict move = elim move.change [
    | inl (_, _, same, inl already) ↦
        ap (λ (r : Row X). r.status) same ∙ (status_beq_iff move.before.status q.status).0 already
    | inl (_, _, _, inr (_, lax)) ↦ absurd (ground (arith, lax, strict))
    | inr (_, _, _, written) ↦ written.new_status
  ]

  -- A request that leaves terminal rows alone ends in its status or finds such a row.
  pub IsMove-status_or_ended :
      (q : LifecycleTransitionRequest X) (t t' : Table X) (idempotent : Bool)
      → (move : IsMove q t t' idempotent)
      → (move.after.status ≡ q.status) ⊎ (is_terminal_status resource move.after.status ≡ true)
  IsMove-status_or_ended q t t' i move = elim move.change [
    | inl (_, _, kept, inl already) ↦
        inl (
          ap (λ (r : Row X). r.status) kept
          ∙ (status_beq_iff move.before.status q.status).0 already)
    | inl (_, _, kept, inr (ended, _)) ↦
        inr (ap (λ (r : Row X). is_terminal_status resource r.status) kept ∙ ended)
    | inr (_, _, _, written) ↦ inl written.new_status
  ]

pub move_task-IsMove :
    (now : ℕ) (q : LifecycleTransitionRequest TaskColumns) (db db' : Db) (idempotent : Bool)
    → move_task now q db ≡ ok (db', idempotent)
    → IsMove task no_worker now q db.tasks db'.tasks idempotent
      × (db' ≡ record db { tasks = db'.tasks })
unfolding move_task
move_task-IsMove now q db db' i h =
    elim (Result-cases (transition_lifecycle task no_worker now q db.tasks)) [
      | inl (failure, e) ↦ ground (arith, e)
      | inr ((tasks, j), e) ↦ (
        transition_lifecycle-IsMove task no_worker now q db.tasks db'.tasks i (ground (arith, e)),
        ground (arith, e),
      )
    ]

pub move_plan-IsMove :
    (now : ℕ) (q : LifecycleTransitionRequest PlanColumns) (db db' : Db) (idempotent : Bool)
    → move_plan now q db ≡ ok (db', idempotent)
    → IsMove plan no_plan_worker now q db.plans db'.plans idempotent
      × (db' ≡ record db { plans = db'.plans })
unfolding move_plan
move_plan-IsMove now q db db' i h =
    elim (Result-cases (transition_lifecycle plan no_plan_worker now q db.plans)) [
      | inl (failure, e) ↦ ground (arith, e)
      | inr ((plans, j), e) ↦ (
        transition_lifecycle-IsMove plan no_plan_worker now q db.plans db'.plans i
            (ground (arith, e)),
        ground (arith, e),
      )
    ]

pub transition_job-IsMove :
    (now : ℕ) (q : LifecycleTransitionRequest JobColumns) (db db' : Db) (idempotent : Bool)
    → transition_job now q db ≡ ok (db', idempotent)
    → IsMove job worker_of now q db.jobs db'.jobs idempotent × (db' ≡ record db { jobs = db'.jobs })
unfolding transition_job
transition_job-IsMove now q db db' i h =
    elim (Result-cases (transition_lifecycle job worker_of now q db.jobs)) [
      | inl (failure, e) ↦ ground (arith, e)
      | inr ((jobs, j), e) ↦ (
        transition_lifecycle-IsMove job worker_of now q db.jobs db'.jobs i (ground (arith, e)),
        ground (arith, e),
      )
    ]
