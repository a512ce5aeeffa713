-- ===== src/Finish/Open.antt =====
-- The plan's status through `finishTask` (backend/internal/repository/queue.go): which parts of it
-- cannot complete a plan.
use specrelay.Prelude.{
  ℕ, ◌≡◌, ◌≢◌, refl, ap, ◌∙◌, sym, subst, inl, inr, Bool, true, false, Option, some, List, ◌==◌,
  Text, text, arith, Bool-cases, eq_of_some,
}
use specrelay.Failure.{ok, Result-cases}
use specrelay.Status.{status_eq, completed, pending}
use specrelay.Gate.{Table, LifecycleTransitionRequest, find_row}
use specrelay.Store.{PlanColumns, Plan, PlanTask, Db}
use specrelay.Blocker.{PlanExecutionBlocker, PlanExecutionState}
use specrelay.Snapshot.{
  capture_plan_execution_snapshot, audit_plan_execution_abandoned, insert_plan_drift_audit,
}
use specrelay.Enqueue.{insert_event, move_plan, move_task, add_task_job}
use specrelay.Enqueue.Moves.{move_task-IsMove, move_plan-IsMove}
use specrelay.Enqueue.Jobs.{add_task_job-HasJob}
use specrelay.Blocker.Message.{blocked_error}
use specrelay.Start.{summary_of, hold_request, hold_plan}
use specrelay.Finish.Continue.{
  cancel_plan_request, cancel_plan, queue_following_request, queue_following, checkpoint_if,
  block_plan_after_scheduling_gate,
}
use specrelay.Finish.{fail_plan_request, fail_plan}

-- The plan is there, and not completed.
unfoldable pub IsOpen : ℕ → Table PlanColumns → Type 0
IsOpen id plans = (p : Plan) × (find_row id plans.rows ≡ some p) × (p.status ≢ completed)

move_plan-IsOpen :
    (now id : ℕ) (q : LifecycleTransitionRequest PlanColumns) (db db' : Db) (i : Bool)
    → q.resource_id ≡ id
    → q.status ≢ completed
    → IsOpen id db.plans
    → move_plan now q db ≡ ok (db', i)
    → IsOpen id db'.plans
unfolding IsOpen
move_plan-IsOpen now id q db db' i same other (p, found, still) h =
    let (move, _) = move_plan-IsMove now q db db' i h in
    let was : move.before ≡ p =
      eq_of_some (sym move.found ∙ ap (λ i. find_row i db.plans.rows) same ∙ found) in
    (
      move.after,
      ap (λ i. find_row i db'.plans.rows) (sym same) ∙ move.stored,
      elim move.change [
        | inl (_, _, kept, _) ↦ λ e. still (ap (λ (p : Plan). p.status) (sym (kept ∙ was)) ∙ e)
        | inr (_, _, _, written) ↦ λ e. other (sym written.new_status ∙ e)
      ],
    )

pub fail_plan-IsOpen :
    (now : ℕ) (t : PlanTask) (summary : Text) (job_id : Option ℕ) (db db' : Db)
    → IsOpen t.columns.plan_id db.plans
    → fail_plan now t summary job_id db ≡ ok db'
    → IsOpen t.columns.plan_id db'.plans
unfolding fail_plan insert_event fail_plan_request
fail_plan-IsOpen now t summary job_id db db' open_plan h =
    elim (Result-cases (move_plan now (fail_plan_request t summary job_id) db)) [
      | inl (failure, e) ↦ absurd (ground (arith, e))
      | inr ((moved, i), e) ↦
          subst (IsOpen t.columns.plan_id) (ground (arith, e, h, Bool-cases i)) (
            move_plan-IsOpen now t.columns.plan_id (fail_plan_request t summary job_id) db moved i
              refl (λ e. cc) open_plan e)
    ]

pub cancel_plan-IsOpen :
    (now : ℕ) (t : PlanTask) (job_id : Option ℕ) (db db' : Db)
    → IsOpen t.columns.plan_id db.plans
    → cancel_plan now t job_id db ≡ ok db'
    → IsOpen t.columns.plan_id db'.plans
unfolding cancel_plan insert_event cancel_plan_request audit_plan_execution_abandoned
    insert_plan_drift_audit
cancel_plan-IsOpen now t job_id db db' open_plan h =
    elim (Result-cases (move_plan now (cancel_plan_request t job_id) db)) [
      | inl (failure, e) ↦ absurd (ground (arith, e))
      | inr ((moved, i), e) ↦
          subst (IsOpen t.columns.plan_id) (ground (arith, e, h, Bool-cases i)) (
            move_plan-IsOpen now t.columns.plan_id (cancel_plan_request t job_id) db moved i refl
              (λ e. cc) open_plan e)
    ]

pub block_plan-IsOpen :
    (quote : Text → Text) (now : ℕ) (s : PlanExecutionState) (id : ℕ) (job_id : Option ℕ)
    (blockers : List PlanExecutionBlocker) (db db' : Db)
    → IsOpen s.plan_id db.plans
    → block_plan_after_scheduling_gate quote now s id job_id blockers db ≡ ok db'
    → IsOpen s.plan_id db'.plans
unfolding block_plan_after_scheduling_gate hold_plan hold_request insert_event
block_plan-IsOpen quote now s id job_id blockers db db' open_plan h =
    let q =
      hold_request (text "automation") (summary_of (blocked_error quote blockers)) s id job_id in
    elim (Result-cases (move_plan now q db)) [
      | inl (failure, e) ↦ absurd (ground (arith, e))
      | inr ((moved, i), e) ↦
          subst (IsOpen s.plan_id) (ground (arith, e, h, Bool-cases i))
            (move_plan-IsOpen now s.plan_id q db moved i refl (λ e. cc) open_plan e)
    ]

-- What queueing the following task has written; the plans stay as they are.
pub queue_following-parts :
    (now next_job : ℕ) (t : PlanTask) (provider : Text) (n : PlanTask) (db db' : Db)
    → queue_following now next_job t provider n db ≡ ok db'
    → (moved : Db) × ((i : Bool) × (move_task now (queue_following_request next_job n) db
          ≡ ok (moved, i))
        × (db'.tasks ≡ moved.tasks)
        × (db'.plans ≡ db.plans))
unfolding queue_following insert_event
queue_following-parts now next_job t provider n db db' h = elim (Bool-cases (n.status == pending)) [
  | inr other ↦ absurd (ground (arith, other))
  | inl waits ↦ elim (Result-cases (move_task now (queue_following_request next_job n) db)) [
    | inl (failure, e) ↦ absurd (ground (arith, waits, e))
    | inr ((moved, i), e1) ↦
        elim (Result-cases
          (add_task_job now next_job t.project_id n.id t.columns.plan_id provider false moved)) [
            | inl (failure, e) ↦ absurd (ground (arith, waits, e1, e))
            | inr ((added, j), e2) ↦
                let (_, tasks_only) =
                  move_task-IsMove now (queue_following_request next_job n) db moved i e1 in
                let job =
                  add_task_job-HasJob now next_job t.project_id n.id t.columns.plan_id provider
                    false moved added j e2 in
                let end = rw (waits, e1, e2) at h in
                (
                  moved,
                  (
                    i,
                    e1,
                    ground (arith, end, job.others_kept),
                    ground (arith, end, job.others_kept, tasks_only),
                  ),
                )
          ]
  ]
]

pub checkpoint_if-kept :
    (capture : Bool) (t : PlanTask) (db db' : Db)
    → checkpoint_if capture t db ≡ ok db'
    → (db'.tasks ≡ db.tasks) × (db'.plans ≡ db.plans)
unfolding checkpoint_if capture_plan_execution_snapshot
checkpoint_if-kept false t db db' h = (ground (arith, h), ground (arith, h))
checkpoint_if-kept true t db db' h =
    let q =
      capture_plan_execution_snapshot t.columns.plan_id (text "task_checkpoint") (some t.id) db in
    elim (Result-cases q) [
      | inl (failure, e) ↦ absurd (ground (arith, e))
      | inr ((db1, snapshot), e) ↦ (ground (arith, e, h), ground (arith, e, h))
    ]
