-- ===== src/Start/Refused.antt =====
-- What a StartTask (backend/internal/repository/queue.go) that the scheduler refuses commits.
use specrelay.Prelude.{
  ℕ, ◌≡◌, ◌≢◌, refl, ap, ◌∙◌, sym, subst, inl, inr, true, false, Option, none, some, List, ◌==◌,
  ◌∷◌, [], nat_eq, Text, text, arith, Bool-cases, contains, eq_of_some,
}
use specrelay.Failure.{ok, Result-cases}
use specrelay.Status.{
  Status, status_beq, status_eq, status_beq_iff, running, queued, leased, validating, ready,
  blocked, pending,
}
use specrelay.Lifecycle.{task, plan, is_terminal_status}
use specrelay.Gate.{Table, find_row}
use specrelay.Gate.Keys.{IsKeyed}
use specrelay.Gate.Rows.{find_row-id}
use specrelay.Store.{PlanColumns, TaskColumns, Plan, PlanTask, Db}
use specrelay.TaskReturn.{no_worker}
use specrelay.Blocker.{PlanExecutionBlocker, PlanExecutionState}
use specrelay.Blocker.Message.{blocked_error}
use specrelay.Load.{load_plan_execution_state}
use specrelay.Load.Ordered.{IsLoaded, load_plan_execution_state-IsLoaded}
use specrelay.Enqueue.{scheduling_blocked, insert_event, move_plan, move_task}
use specrelay.Enqueue.Moves.{IsMove-status, move_task-IsMove, move_plan-IsMove}
use specrelay.Start.{
  newest_job, summary_of, start_blockers, withdraw_request, withdraw_task, hold_request, hold_plan,
  block_queued_task_for_scheduling, start_ready, start_unless, start_loaded, start_found,
  start_task,
}

abbrev holdable : List Status
holdable = ready ∷ running ∷ validating ∷ blocked ∷ []

holdable-active : (s : Status) → contains holdable s ≡ true → is_terminal_status plan s ≡ false
unfolding is_terminal_status status_beq
holdable-active s h = elim (Bool-cases (ready == s)) [
  | inl is ↦ rw (sym ((status_beq_iff ready s).0 is)) refl
  | inr n1 ↦ elim (Bool-cases (running == s)) [
    | inl is ↦ rw (sym ((status_beq_iff running s).0 is)) refl
    | inr n2 ↦ elim (Bool-cases (validating == s)) [
      | inl is ↦ rw (sym ((status_beq_iff validating s).0 is)) refl
      | inr n3 ↦ rw (sym ((status_beq_iff blocked s).0 (ground (arith, h, n1, n2, n3)))) refl
    ]
  ]
]

-- A plan that is held is blocked; nothing else than plans and events changes.
pub hold_plan-blocked :
    (now : ℕ) (source reason : Text) (s : PlanExecutionState) (id : ℕ) (job_id : Option ℕ)
    (db db' : Db) (p : Plan)
    → find_row s.plan_id db.plans.rows ≡ some p
    → is_terminal_status plan p.status ≡ false
    → hold_plan now (hold_request source reason s id job_id) s db ≡ ok db'
    → (db'.tasks ≡ db.tasks)
      × ((p' : Plan) × (find_row s.plan_id db'.plans.rows ≡ some p') × (p'.status ≡ blocked))
unfolding hold_plan hold_request insert_event
hold_plan-blocked now source reason s id job_id db db' p found active h =
    let q = hold_request source reason s id job_id in
    elim (Result-cases (move_plan now q db)) [
      | inl (failure, e) ↦ absurd (ground (arith, e))
      | inr ((moved, i), e) ↦
          let (move, plans_only) = move_plan-IsMove now q db moved i e in
          let end = rw e at h in
          let was : move.before ≡ p = eq_of_some (sym move.found ∙ found) in
          (
            ground (arith, end, plans_only, Bool-cases i),
            (
              move.after,
              ground (arith, end, move.stored, Bool-cases i),
              elim move.change [
                | inl (_, _, same, inl already) ↦
                    ap (λ (r : Plan). r.status) same
                    ∙ (status_beq_iff move.before.status blocked).0 already
                | inl (_, _, _, inr (ended, _)) ↦ absurd (ground (arith, ended, was, active))
                | inr (_, _, _, written) ↦ written.new_status
              ],
            ),
          )
    ]

withdraw_task-pending :
    (now : ℕ) (reason : Text) (t : PlanTask) (job_id : Option ℕ) (db db' : Db)
    → withdraw_task now (withdraw_request reason t job_id) t db ≡ ok db'
    → (db'.plans ≡ db.plans)
      × (t.status ≡ queued
          → (t' : PlanTask) × (find_row t.id db'.tasks.rows ≡ some t') × (t'.status ≡ pending))
unfolding withdraw_task withdraw_request
withdraw_task-pending now reason t job_id db db' h = elim (Bool-cases (t.status == queued)) [
  | inr other ↦ (
    ground (arith, other, h),
    λ its. absurd (ground (arith, other, its, status_beq_iff t.status queued)),
  )
  | inl waits ↦ elim (Result-cases (move_task now (withdraw_request reason t job_id) db)) [
    | inl (failure, e) ↦ absurd (ground (arith, waits, e))
    | inr ((moved, i), e) ↦
        let q = withdraw_request reason t job_id in
        let (move, tasks_only) = move_task-IsMove now q db moved i e in
        let end = rw (waits, e) at h in
        (
          ground (arith, end, tasks_only),
          λ _. (
            move.after,
            ground (arith, end, move.stored),
            IsMove-status task no_worker now q db.tasks moved.tasks i refl move,
          ),
        )
  ]
]

-- The effect of blocking a task in a plan that has the given row.
block_queued-held :
    (quote : Text → Text) (now : ℕ) (s : PlanExecutionState) (t : PlanTask) (job_id : Option ℕ)
    (blockers : List PlanExecutionBlocker) (db db' : Db) (p : Plan)
    → find_row s.plan_id db.plans.rows ≡ some p
    → s.status ≡ p.status
    → block_queued_task_for_scheduling quote now s t job_id blockers db ≡ ok db'
    → (t.status ≡ queued
        → (t' : PlanTask) × (find_row t.id db'.tasks.rows ≡ some t') × (t'.status ≡ pending))
      × (contains holdable s.status ≡ true
          → (p' : Plan) × (find_row s.plan_id db'.plans.rows ≡ some p') × (p'.status ≡ blocked))
unfolding block_queued_task_for_scheduling
block_queued-held quote now s t job_id blockers db db' p found status h =
    let reason = summary_of (blocked_error quote blockers) in
    elim (Result-cases (withdraw_task now (withdraw_request reason t job_id) t db)) [
      | inl (failure, e) ↦ absurd (ground (arith, e))
      | inr (withdrawn, e) ↦
          let (plans, waits) = withdraw_task-pending now reason t job_id db withdrawn e in
          elim (Bool-cases (contains holdable s.status)) [
            | inr closed ↦
                let same : withdrawn ≡ db' = ground (arith, e, closed) in
                (
                  λ q.
                      subst
                        (λ (x : Db).
                          (t' : PlanTask) × (find_row t.id x.tasks.rows ≡ some t')
                          × (t'.status ≡ pending))
                        same (waits q),
                  λ its. absurd (ground (arith, its, closed)),
                )
            | inl fits ↦
                let held =
                  hold_plan-blocked now (text "worker") reason s t.id job_id withdrawn db' p
                    (ap (λ (x : Table PlanColumns). find_row s.plan_id x.rows) plans ∙ found)
                    (holdable-active p.status (ground (arith, fits, status)))
                    (ground (arith, e, fits)) in
                (
                  λ q.
                      subst
                        (λ (x : Table TaskColumns).
                          (t' : PlanTask) × (find_row t.id x.rows ≡ some t')
                          × (t'.status ≡ pending))
                        (sym held.0) (waits q),
                  λ _. held.1,
                )
          ]
    ]

start_unless-refused :
    (quote : Text → Text) (now : ℕ) (s : PlanExecutionState) (t : PlanTask) (job_id : Option ℕ)
    (db db' : Db) (bs blockers : List PlanExecutionBlocker)
    → start_unless quote now s t job_id db bs ≡ ok (db', scheduling_blocked blockers)
    → (bs ≡ blockers)
      × (blockers ≢ [])
      × (block_queued_task_for_scheduling quote now s t job_id blockers db ≡ ok db')
unfolding start_unless
start_unless-refused quote now s t job_id db db' [] blockers h =
    absurd (ground (arith, h, Result-cases (start_ready now s t job_id db)))
start_unless-refused quote now s t job_id db db' (b ∷ bs) blockers h =
    elim (Result-cases (block_queued_task_for_scheduling quote now s t job_id (b ∷ bs) db)) [
      | inl (failure, e) ↦ absurd (ground (arith, e))
      | inr (held, e) ↦
          let same : (b ∷ bs) ≡ blockers = ground (arith, e) in
          (
            same,
            ground (arith, same),
            subst (λ bs. block_queued_task_for_scheduling quote now s t job_id bs db ≡ ok db') same
                (ground (arith, e)),
          )
    ]

-- What a refused start has found and left.
pub record IsRefused (id plan_id : ℕ) (db db' : Db) (blockers : List PlanExecutionBlocker)
    : Type 1 where
  pub loaded : Db
  pub state : PlanExecutionState
  pub loads : load_plan_execution_state plan_id db ≡ ok (loaded, state)
  pub task_row : PlanTask
  pub read : find_row id state.tasks ≡ some task_row
  pub reasons : (start_blockers state task_row ≡ blockers) × (blockers ≢ [])
  pub waits :
      task_row.status ≡ queued
      → (t' : PlanTask) × (find_row id db'.tasks.rows ≡ some t') × (t'.status ≡ pending)
  pub held :
      contains (ready ∷ running ∷ validating ∷ blocked ∷ []) state.status ≡ true
      → (p : Plan) × (find_row plan_id db'.plans.rows ≡ some p) × (p.status ≡ blocked)

start_loaded-IsRefused :
    (quote : Text → Text) (now id plan_id : ℕ) (o : Option PlanTask) (s : PlanExecutionState)
    (before db db' : Db) (blockers : List PlanExecutionBlocker)
    → load_plan_execution_state plan_id before ≡ ok (db, s)
    → IsLoaded plan_id before db s
    → find_row id s.tasks ≡ o
    → start_loaded quote now o (db, s) ≡ ok (db', scheduling_blocked blockers)
    → IsRefused id plan_id before db' blockers
unfolding start_loaded
start_loaded-IsRefused quote now id plan_id none s before db db' blockers loads loaded found h =
    absurd (ground arith)
start_loaded-IsRefused quote now id plan_id (some t) s before db db' blockers loads loaded found h =
    let job_id = newest_job (leased ∷ running ∷ []) t.id db in
    let (reasons, some_reason, blocks) =
      start_unless-refused quote now s t job_id db db' (start_blockers s t) blockers h in
    let (same_plan, same_status, _) = loaded.plan_row in
    let there : find_row s.plan_id db.plans.rows ≡ some loaded.row =
      ap (λ i. find_row i db.plans.rows) same_plan
      ∙ ap (λ (x : Db). find_row plan_id x.plans.rows) loaded.others_kept
      ∙ loaded.found in
    let (waits, held) =
      block_queued-held quote now s t job_id blockers db db' loaded.row there same_status blocks in
    record {
      loaded = db;
      state = s;
      loads = loads;
      task_row = t;
      read = found;
      reasons = (reasons, some_reason);
      waits =
          subst
            (λ i.
              t.status ≡ queued
              → (t' : PlanTask) × (find_row i db'.tasks.rows ≡ some t') × (t'.status ≡ pending))
            (find_row-id id s.tasks found) waits;
      held = λ fits.
          subst (λ i. (p : Plan) × (find_row i db'.plans.rows ≡ some p) × (p.status ≡ blocked))
            same_plan (held fits);
    }

-- A start that the scheduler refuses, with its reasons, is still committed: a queued task waits again
-- as pending, and a plan that was ready, running, validating or blocked is blocked. It is assumed
-- that no two tasks have the same identifier.
pub start_task-IsRefused :
    (quote : Text → Text) (now id : ℕ) (db db' : Db) (t : PlanTask)
    (blockers : List PlanExecutionBlocker)
    → IsKeyed db.tasks.rows
    → find_row id db.tasks.rows ≡ some t
    → start_task quote now id db ≡ ok (db', scheduling_blocked blockers)
    → IsRefused id t.columns.plan_id db db' blockers
unfolding start_task start_found
start_task-IsRefused quote now id db db' t blockers keyed found h =
    elim (Result-cases (load_plan_execution_state t.columns.plan_id db)) [
      | inl (failure, e) ↦ absurd (ground (arith, found, e))
      | inr ((loaded, s), e) ↦
          start_loaded-IsRefused quote now id t.columns.plan_id (find_row id s.tasks) s db loaded
            db' blockers e
            (load_plan_execution_state-IsLoaded t.columns.plan_id db loaded s keyed e) refl
            (ground (arith, found, e))
    ]
