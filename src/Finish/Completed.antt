-- ===== src/Finish/Completed.antt =====
-- When `finishTask` (backend/internal/repository/queue.go) completes a plan.
use specrelay.Prelude.{
  ℕ, ◌≡◌, ◌≢◌, refl, ap, ◌∙◌, sym, subst, ◌⊎◌, inl, inr, Bool, true, false, Option, none, some,
  ◌==◌, ◌∷◌, [], All, Text, arith, Bool-cases, eq_of_some, nat_eq, contains, ◌||◌,
}
use specrelay.Failure.{ok, Result-cases}
use specrelay.Status.{status_eq, completed, cancelled, running, pending, leased, retry_wait}
use specrelay.Lifecycle.{task, is_terminal_status}
use specrelay.Gate.{Table, LifecycleTransitionRequest, find_row}
use specrelay.Gate.Rows.{All-find_row}
use specrelay.Gate.Keys.{IsKeyed, put_row-IsKeyed}
use specrelay.Store.{TaskColumns, Plan, PlanTask, Db}
use specrelay.Blocker.{PlanExecutionState}
use specrelay.Schedule.{NextTask, next_task, complete, blocked_by, next_plan_task}
use specrelay.Schedule.Next.{IsSettled, next_plan_task-complete}
use specrelay.Load.{load_plan_execution_state}
use specrelay.Load.Ordered.{IsLoaded, load_plan_execution_state-IsLoaded}
use specrelay.Provider.{provider_from_plan_config_snapshot}
use specrelay.Enqueue.{insert_event, move_plan, move_task}
use specrelay.Enqueue.Moves.{move_task-IsMove, move_plan-IsMove}
use specrelay.Start.{newest_job, summary_of}
use specrelay.Finish.Continue.{
  close_plan_intake, intake_event, complete_plan_request, complete_plan, after_completion, follow,
  decide_next, plan_and_automation, continue_loaded, checkpoint_if, continue_plan, close_intake,
}
use specrelay.Finish.{end_task_request, after_end, finish_running, finish_loaded, finish_task}
use specrelay.Finish.Open.{
  IsOpen, fail_plan-IsOpen, cancel_plan-IsOpen, block_plan-IsOpen, queue_following-parts,
  checkpoint_if-kept,
}

-- Every stored task of the plan has succeeded and passes its acceptance.
pub IsSettledPlan : ℕ → Db → Type 0
IsSettledPlan plan db = All (λ r. (r.columns.plan_id == plan) ≡ true → IsSettled r) db.tasks.rows

intake_event-tasks :
    (project id : ℕ) (version : Option ℕ) (db : Db)
    → (intake_event project id version db).tasks ≡ db.tasks
unfolding insert_event
intake_event-tasks project id none db = refl
intake_event-tasks project id (some version) db = refl

after_completion-tasks :
    (t : PlanTask) (intake : ℕ) (db : Db) (i : Bool)
    → (after_completion t intake (db, i)).tasks ≡ db.tasks
unfolding close_plan_intake insert_event
after_completion-tasks t intake db true = refl
after_completion-tasks t intake db false =
    let closing = close_intake intake db.intakes in
    intake_event-tasks t.project_id intake closing.1 _

complete_plan-tasks :
    (now : ℕ) (t : PlanTask) (intake : ℕ) (job_id : Option ℕ) (db db' : Db)
    → complete_plan now t intake job_id db ≡ ok db'
    → db'.tasks ≡ db.tasks
unfolding complete_plan close_plan_intake insert_event
complete_plan-tasks now t intake job_id db db' h =
    elim (Result-cases (move_plan now (complete_plan_request t job_id) db)) [
      | inl (failure, e) ↦ absurd (ground (arith, e))
      | inr ((moved, i), e) ↦
          let (_, plans_only) =
            move_plan-IsMove now (complete_plan_request t job_id) db moved i e in
          let same : after_completion t intake (moved, i) ≡ db' = ground (arith, e, h) in
          let same_tasks = after_completion-tasks t intake moved i in
          ground (arith, same, same_tasks, plans_only)
    ]

follow-settles :
    (quote : Text → Text) (now next_job : ℕ) (t : PlanTask) (job_id : Option ℕ) (intake : ℕ)
    (s : PlanExecutionState) (provider : Text) (before db db' : Db) (next : NextTask)
    → IsLoaded t.columns.plan_id before db s
    → IsOpen t.columns.plan_id db.plans
    → next_plan_task s true none ≡ next
    → follow quote now next_job t job_id intake s provider db next ≡ ok db'
    → IsOpen t.columns.plan_id db'.plans ⊎ IsSettledPlan t.columns.plan_id db'
unfolding follow IsSettledPlan
follow-settles quote now next_job t job_id intake s provider before db db' (blocked_by blockers)
      loaded open_plan next h =
    let same = loaded.plan_row.0 in
    inl (
      subst (λ id. IsOpen id db'.plans) same
        (block_plan-IsOpen quote now s t.id job_id blockers db db'
          (subst (λ id. IsOpen id db.plans) (sym same) open_plan) h))
follow-settles quote now next_job t job_id intake s provider before db db' complete loaded open_plan
      next h =
    let settled = loaded.complete_for IsSettled (next_plan_task-complete s true none next) in
    inr (
      subst
        (λ (x : Table TaskColumns).
          All (λ r. (r.columns.plan_id == t.columns.plan_id) ≡ true → IsSettled r) x.rows)
        (sym (complete_plan-tasks now t intake job_id db db' h)) settled)
follow-settles quote now next_job t job_id intake s provider before db db' (next_task n) loaded
      open_plan next h =
    let (_, (_, _, _, kept)) = queue_following-parts now next_job t provider n db db' h in
    inl (subst (IsOpen t.columns.plan_id) (sym kept) open_plan)

continue_loaded-settles :
    (quote : Text → Text) (now next_job : ℕ) (t : PlanTask) (job_id : Option ℕ)
    (s : PlanExecutionState) (before db db' : Db)
    → IsLoaded t.columns.plan_id before db s
    → IsOpen t.columns.plan_id db.plans
    → continue_loaded quote now next_job t job_id (db, s) ≡ ok db'
    → IsOpen t.columns.plan_id db'.plans ⊎ IsSettledPlan t.columns.plan_id db'
unfolding continue_loaded decide_next
continue_loaded-settles quote now next_job t job_id s before db db' loaded open_plan h =
    elim (Bool-cases (contains (cancelled ∷ completed ∷ []) s.status)) [
      | inl ended ↦
          let same : db ≡ db' = ground (arith, ended, h) in
          inl (subst (λ (x : Db). IsOpen t.columns.plan_id x.plans) same open_plan)
      | inr goes_on ↦ elim (Result-cases (plan_and_automation t.columns.plan_id db)) [
        | inl (failure, e) ↦ absurd (ground (arith, goes_on, e, h))
        | inr ((p, automated), e) ↦ elim (Bool-cases automated) [
          | inr stopped ↦ inl (
              cancel_plan-IsOpen now t job_id db db' open_plan
                (ground (arith, goes_on, e, stopped, h)))
          | inl on ↦ elim (Result-cases (provider_from_plan_config_snapshot s.config_snapshot)) [
            | inl (failure, e2) ↦ absurd (ground (arith, goes_on, e, on, e2, h))
            | inr (provider, e2) ↦
                follow-settles quote now next_job t job_id p.columns.intake_id s provider before db
                  db' (next_plan_task s true none) loaded open_plan refl
                  (ground (arith, goes_on, e, on, e2, h))
          ]
        ]
      ]
    ]

continue_plan-settles :
    (quote : Text → Text) (now next_job : ℕ) (t : PlanTask) (capture : Bool) (job_id : Option ℕ)
    (db db' : Db)
    → IsKeyed db.tasks.rows
    → IsOpen t.columns.plan_id db.plans
    → continue_plan quote now next_job t capture job_id db ≡ ok db'
    → IsOpen t.columns.plan_id db'.plans ⊎ IsSettledPlan t.columns.plan_id db'
unfolding continue_plan
continue_plan-settles quote now next_job t capture job_id db db' keyed open_plan h =
    elim (Result-cases (checkpoint_if capture t db)) [
      | inl (failure, e) ↦ absurd (ground (arith, e, h))
      | inr (db1, e1) ↦ elim (Result-cases (load_plan_execution_state t.columns.plan_id db1)) [
        | inl (failure, e) ↦ absurd (ground (arith, e1, e, h))
        | inr ((db2, s), e2) ↦
            let (tasks, plans) = checkpoint_if-kept capture t db db1 e1 in
            let loaded =
              load_plan_execution_state-IsLoaded t.columns.plan_id db1 db2 s
                (subst (λ (x : Table TaskColumns). IsKeyed x.rows) (sym tasks) keyed) e2 in
            let same : db2.plans ≡ db.plans = ap (λ (x : Db). x.plans) loaded.others_kept ∙ plans in
            continue_loaded-settles quote now next_job t job_id s db1 db2 db' loaded
              (subst (IsOpen t.columns.plan_id) (sym same) open_plan) (ground (arith, e1, e2, h))
      ]
    ]

after_end-settles :
    (quote : Text → Text) (now next_job : ℕ) (t : PlanTask) (success : Bool) (summary : Text)
    (capture : Bool) (job_id : Option ℕ) (db ended db' : Db) (idempotent : Bool)
    → IsKeyed ended.tasks.rows
    → IsOpen t.columns.plan_id db.plans
    → IsOpen t.columns.plan_id ended.plans
    → after_end quote now next_job t success summary capture job_id db (ended, idempotent) ≡ ok db'
    → IsOpen t.columns.plan_id db'.plans ⊎ ((success ≡ true) × IsSettledPlan t.columns.plan_id db')
unfolding after_end insert_event
after_end-settles quote now next_job t success summary capture job_id db ended db' true keyed
      open_plan open_ended h =
    let same : db ≡ db' = ground (arith, h) in
    inl (subst (λ (x : Db). IsOpen t.columns.plan_id x.plans) same open_plan)
after_end-settles quote now next_job t true summary capture job_id db ended db' false keyed
      open_plan open_ended h =
    elim (continue_plan-settles quote now next_job t capture job_id _ db' keyed open_ended h) [
      | inl still ↦ inl still
      | inr settled ↦ inr (refl, settled)
    ]
after_end-settles quote now next_job t false summary capture job_id db ended db' false keyed
      open_plan open_ended h =
    inl (fail_plan-IsOpen now t summary job_id _ db' open_ended h)

IsMove-IsKeyed :
    (now : ℕ) (q : LifecycleTransitionRequest TaskColumns) (db db' : Db) (i : Bool)
    → move_task now q db ≡ ok (db', i)
    → IsKeyed db.tasks.rows
    → IsKeyed db'.tasks.rows × (db'.plans ≡ db.plans)
IsMove-IsKeyed now q db db' i h keyed =
    let (move, tasks_only) = move_task-IsMove now q db db' i h in
    (
      elim move.change [
        | inl (kept, _, _, _) ↦ subst (λ (x : Table TaskColumns). IsKeyed x.rows) (sym kept) keyed
        | inr (e, _, _, _) ↦ subst IsKeyed (sym e) (put_row-IsKeyed move.after db.tasks.rows keyed)
      ],
      ap (λ (x : Db). x.plans) tasks_only,
    )

finish_loaded-settles :
    (quote : Text → Text) (now next_job plan_id : ℕ) (session : Text) (success : Bool)
    (summary : Text) (capture : Bool) (o : Option PlanTask) (db loaded db' : Db)
    → ((t : PlanTask) → o ≡ some t → t.columns.plan_id ≡ plan_id)
    → IsKeyed loaded.tasks.rows
    → IsOpen plan_id db.plans
    → loaded.plans ≡ db.plans
    → finish_loaded quote now next_job session success summary capture db o loaded ≡ ok db'
    → IsOpen plan_id db'.plans ⊎ ((success ≡ true) × IsSettledPlan plan_id db')
unfolding finish_loaded finish_running
finish_loaded-settles quote now next_job plan_id session success summary capture none db loaded db'
      own keyed open_plan plans h =
    absurd (ground arith)
finish_loaded-settles quote now next_job plan_id session success summary capture (some t) db loaded
      db' own keyed open_plan plans h =
    let job_id = newest_job (leased ∷ running ∷ retry_wait ∷ []) t.id loaded in
    let q = end_task_request now t session success summary job_id in
    elim (Bool-cases (t.status == running)) [
      | inr other ↦
          let same : db ≡ db' = ground (
            arith,
            other,
            h,
            Bool-cases (is_terminal_status task t.status || t.status == pending),
          ) in
          inl (subst (λ (x : Db). IsOpen plan_id x.plans) same open_plan)
      | inl runs ↦ elim (Result-cases (move_task now q loaded)) [
        | inl (failure, e) ↦ absurd (ground (arith, runs, e, h))
        | inr ((ended, i), e) ↦
            let (keyed', kept) = IsMove-IsKeyed now q loaded ended i e keyed in
            let its = own t refl in
            subst (λ id. IsOpen id db'.plans ⊎ ((success ≡ true) × IsSettledPlan id db')) its
              (after_end-settles quote now next_job t success summary capture job_id db ended db' i
                keyed' (subst (λ id. IsOpen id db.plans) (sym its) open_plan)
                (subst (λ id. IsOpen id ended.plans) (sym its)
                  (subst (IsOpen plan_id) (sym (kept ∙ plans)) open_plan))
                (ground (arith, runs, e, h)))
      ]
    ]

-- If a plan is completed after the end of one of its tasks, and was not completed before, then the
-- task was reported as a success, and every stored task of the plan has succeeded and passes its
-- acceptance. It is assumed that no two tasks have the same identifier.
pub finish_task-IsSettledPlan :
    (quote : Text → Text) (now next_job : ℕ) (t : PlanTask) (session : Text) (success : Bool)
    (message : Text) (capture : Bool) (db db' : Db) (p p' : Plan)
    → IsKeyed db.tasks.rows
    → find_row t.columns.plan_id db.plans.rows ≡ some p
    → p.status ≢ completed
    → finish_task quote now next_job t session success message capture db ≡ ok db'
    → find_row t.columns.plan_id db'.plans.rows ≡ some p'
    → p'.status ≡ completed
    → (success ≡ true) × IsSettledPlan t.columns.plan_id db'
unfolding finish_task IsOpen
finish_task-IsSettledPlan quote now next_job t session success message capture db db' p p' keyed
      found not_yet h found' done =
    elim (Result-cases (load_plan_execution_state t.columns.plan_id db)) [
      | inl (failure, e) ↦ absurd (ground (arith, e, h))
      | inr ((loaded, s), e) ↦
          let state = load_plan_execution_state-IsLoaded t.columns.plan_id db loaded s keyed e in
          let outcome =
            finish_loaded-settles quote now next_job t.columns.plan_id session success
              (summary_of message) capture (find_row t.id s.tasks) db loaded db'
              (λ u there.
                All-find_row (λ u. u.columns.plan_id ≡ t.columns.plan_id) t.id s.tasks state.of_plan
                  there)
              state.keyed (p, found, not_yet) (ap (λ (x : Db). x.plans) state.others_kept)
              (ground (arith, e, h)) in
          elim outcome [
            | inr settled ↦ settled
            | inl (u, there, still) ↦
                absurd
                  (still (ap (λ (x : Plan). x.status) (eq_of_some (sym there ∙ found')) ∙ done))
          ]
    ]
