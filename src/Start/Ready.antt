-- ===== src/Start/Ready.antt =====
-- What StartTask (backend/internal/repository/queue.go) has checked and written when the task starts.
use specrelay.Prelude.{
  ℕ, All, ◌+◌, ◌≡◌, refl, ap, ◌∙◌, sym, subst, inl, inr, Bool, true, false, Option, none, some,
  List, ◌==◌, ◌∷◌, [], ◌++◌, nat_eq, nat_beq_iff, Text, text, text_eq, arith, Bool-cases,
  Option-cases, eq_of_some,
}
use specrelay.Failure.{ok, Result-cases}
use specrelay.Status.{status_eq, status_beq_iff, running, queued, leased, validating}
use specrelay.Lifecycle.{plan}
use specrelay.Gate.{Table, find_row}
use specrelay.Gate.Keys.{IsKeyed}
use specrelay.Gate.Rows.{All-find_row, find_row-id}
use specrelay.Store.{TaskColumns, Plan, PlanTask, Db}
use specrelay.Blocker.{PlanExecutionBlocker, PlanExecutionState}
use specrelay.Schedule.{is_active, NextTask, next_task, complete, blocked_by, next_plan_task}
use specrelay.Schedule.Next.{next_plan_task-IsFirstOpen}
use specrelay.Enqueue.Active.{IsFirstOpen-stored}
use specrelay.Snapshot.{require_plan_execution_baseline}
use specrelay.Load.{load_plan_execution_state}
use specrelay.Load.Ordered.{IsLoaded, load_plan_execution_state-IsLoaded}
use specrelay.Stop.{read_task}
use specrelay.Enqueue.{scheduled, insert_event, move_plan, move_task, no_plan_worker}
use specrelay.Enqueue.Moves.{IsMove-status, move_task-IsMove, move_plan-IsMove}
use specrelay.Start.{
  block_queued_task_for_scheduling, newest_job, gate_blockers, running_blockers, or_order,
  start_blockers, run_task_request, validate_plan_request, validate_plan, start_ready, start_unless,
  start_loaded, start_found, start_task,
}

no_blockers :
    (next : NextTask) (s : PlanExecutionState) (t : PlanTask)
    → or_order next t (gate_blockers next ++ running_blockers s t) ≡ []
    → (s.status ≡ running) × ((n : PlanTask) × (next ≡ next_task n) × (n.id ≡ t.id))
no_blockers (blocked_by []) s t h = absurd (ground (arith, h, Bool-cases (s.status == running)))
no_blockers (blocked_by (b ∷ bs)) s t h = absurd (ground (arith, h))
no_blockers complete s t h = absurd (ground (arith, h, Bool-cases (s.status == running)))
no_blockers (next_task n) s t h = elim (Bool-cases (s.status == running)) [
  | inr idle ↦ absurd (ground (arith, h, idle))
  | inl runs ↦ elim (Bool-cases (n.id == t.id)) [
    | inr other ↦ absurd (ground (arith, h, runs, other))
    | inl same ↦
        ((status_beq_iff s.status running).0 runs, (n, refl, (nat_beq_iff n.id t.id).0 same))
  ]
]

-- A task that nothing blocks is the next one of a plan that runs.
start_blockers-none :
    (s : PlanExecutionState) (t : PlanTask)
    → start_blockers s t ≡ []
    → (s.status ≡ running)
      × ((n : PlanTask) × (next_plan_task s false (some t.id) ≡ next_task n) × (n.id ≡ t.id))
unfolding start_blockers
start_blockers-none s t h = no_blockers (next_plan_task s false (some t.id)) s t h

validate_plan-kept :
    (now : ℕ) (t : PlanTask) (job_id : Option ℕ) (db db' : Db)
    → validate_plan now t job_id db ≡ ok db'
    → (db'.tasks ≡ db.tasks)
      × ((t.columns.task_type == text "final_validation") ≡ true
          → (p : Plan) × (find_row t.columns.plan_id db'.plans.rows ≡ some p)
            × (p.status ≡ validating))
unfolding validate_plan insert_event validate_plan_request
validate_plan-kept now t job_id db db' h =
    elim (Bool-cases (t.columns.task_type == text "final_validation")) [
      | inr other ↦ (ground (arith, other), λ its. absurd (ground (arith, other, its)))
      | inl final ↦ elim (Result-cases (move_plan now (validate_plan_request t job_id) db)) [
        | inl (failure, e) ↦ absurd (ground (arith, final, e))
        | inr ((moved, i), e) ↦
            let q = validate_plan_request t job_id in
            let (move, plans_only) = move_plan-IsMove now q db moved i e in
            let end = rw (final, e) at h in
            (
              ground (arith, end, plans_only),
              λ _. (
                move.after,
                ground (arith, end, move.stored),
                IsMove-status plan no_plan_worker now q db.plans moved.plans i refl move,
              ),
            )
      ]
    ]

read_task-found :
    (id : ℕ) (tasks : Table TaskColumns) (t : PlanTask)
    → read_task id tasks ≡ ok t
    → find_row id tasks.rows ≡ some t
unfolding read_task
read_task-found id tasks t h = ground (arith, h, Option-cases (find_row id tasks.rows))

start_ready-parts :
    (now : ℕ) (s : PlanExecutionState) (t t' : PlanTask) (job_id : Option ℕ) (db db' : Db)
    → start_ready now s t job_id db ≡ ok (db', t')
    → (t.status ≡ queued)
      × ((moved : Db) × ((i : Bool) × (move_task now (run_task_request now t.id job_id) db
              ≡ ok (moved, i))
            × (find_row t.id moved.tasks.rows ≡ some t')
            × (validate_plan now t' job_id moved ≡ ok db')))
unfolding start_ready
start_ready-parts now s t t' job_id db db' h = elim (Bool-cases (t.status == queued)) [
  | inr other ↦ absurd (ground (arith, other))
  | inl waits ↦ elim (Result-cases (require_plan_execution_baseline s.plan_id db)) [
    | inl (failure, e) ↦ absurd (ground (arith, waits, e))
    | inr (_, e1) ↦ elim (Result-cases (move_task now (run_task_request now t.id job_id) db)) [
      | inl (failure, e) ↦ absurd (ground (arith, waits, e1, e))
      | inr ((moved, i), e2) ↦ elim (Result-cases (read_task t.id moved.tasks)) [
        | inl (failure, e) ↦ absurd (ground (arith, waits, e1, e2, e))
        | inr (u, e3) ↦ elim (Result-cases (validate_plan now u job_id moved)) [
          | inl (failure, e) ↦ absurd (ground (arith, waits, e1, e2, e3, e))
          | inr (last, e4) ↦
              let end = rw (waits, e1, e2, e3, e4) at h in
              (
                (status_beq_iff t.status queued).0 waits,
                (
                  moved,
                  (
                    i,
                    e2,
                    read_task-found t.id moved.tasks t' (ground (arith, end, e3)),
                    ground (arith, end, e4),
                  ),
                ),
              )
        ]
      ]
    ]
  ]
]

start_unless-parts :
    (quote : Text → Text) (now : ℕ) (s : PlanExecutionState) (t t' : PlanTask) (job_id : Option ℕ)
    (db db' : Db) (blockers : List PlanExecutionBlocker)
    → start_unless quote now s t job_id db blockers ≡ ok (db', scheduled t')
    → (blockers ≡ []) × (start_ready now s t job_id db ≡ ok (db', t'))
unfolding start_unless
start_unless-parts quote now s t t' job_id db db' [] h =
    (refl, ground (arith, h, Result-cases (start_ready now s t job_id db)))
start_unless-parts quote now s t t' job_id db db' (b ∷ bs) h = absurd (
    ground
      (arith, h, Result-cases (block_queued_task_for_scheduling quote now s t job_id (b ∷ bs) db)))

-- What a start has found and left.
pub record IsStarted (id plan_id : ℕ) (db db' : Db) (t' : PlanTask) : Type 1 where
  pub loaded : Db
  pub state : PlanExecutionState
  pub loads : load_plan_execution_state plan_id db ≡ ok (loaded, state)
  pub plan_ran : state.status ≡ running
  pub chosen : PlanTask
  pub is_next : (next_plan_task state false (some id) ≡ next_task chosen) × (chosen.id ≡ id)
  pub alone : All (λ u. is_active (some id) u ≡ false) state.tasks
  pub was_queued : chosen.status ≡ queued
  pub stored : find_row id db'.tasks.rows ≡ some t'
  pub runs : (t'.status ≡ running) × (t'.version ≡ chosen.version + 1)
  pub final_validates :
      (t'.columns.task_type == text "final_validation") ≡ true
      → (p : Plan) × (find_row t'.columns.plan_id db'.plans.rows ≡ some p) × (p.status ≡ validating)

start_loaded-IsStarted :
    (quote : Text → Text) (now id plan_id : ℕ) (o : Option PlanTask) (s : PlanExecutionState)
    (before db db' : Db) (t' : PlanTask)
    → load_plan_execution_state plan_id before ≡ ok (db, s)
    → IsLoaded plan_id before db s
    → find_row id s.tasks ≡ o
    → start_loaded quote now o (db, s) ≡ ok (db', scheduled t')
    → IsStarted id plan_id before db' t'
unfolding start_loaded run_task_request
start_loaded-IsStarted quote now id plan_id none s before db db' t' loads loaded found h =
    absurd (ground arith)
start_loaded-IsStarted quote now id plan_id (some t) s before db db' t' loads loaded found h =
    let job_id = newest_job (leased ∷ running ∷ []) t.id db in
    let (clear, goes) = start_unless-parts quote now s t t' job_id db db' (start_blockers s t) h in
    let (plan_runs, (n, next, same)) = start_blockers-none s t clear in
    let (waits, (moved, (i, moves, read, validates))) =
      start_ready-parts now s t t' job_id db db' goes in
    let q = run_task_request now t.id job_id in
    let (move, tasks_only) = move_task-IsMove now q db moved i moves in
    let (kept, validated) = validate_plan-kept now t' job_id moved db' validates in
    let id_of_t = find_row-id id s.tasks found in
    let choice = next_plan_task-IsFirstOpen s false (some t.id) n next in
    let (there, _) = IsFirstOpen-stored plan_id before db s false n loaded choice.2 in
    let t_there =
      All-find_row (λ t. find_row t.id db.tasks.rows ≡ some t) id s.tasks loaded.stored found in
    let is_t : n ≡ t = eq_of_some (sym there ∙ ap (λ i. find_row i db.tasks.rows) same ∙ t_there) in
    let was : move.before ≡ t = eq_of_some (sym move.found ∙ t_there) in
    let is_after : t' ≡ move.after = eq_of_some (sym read ∙ move.stored) in
    record {
      loaded = db;
      state = s;
      loads = loads;
      plan_ran = plan_runs;
      chosen = n;
      is_next =
          (subst (λ i. next_plan_task s false (some i) ≡ next_task n) id_of_t next, same ∙ id_of_t);
      alone = subst (λ i. All (λ u. is_active (some i) u ≡ false) s.tasks) id_of_t choice.1;
      was_queued = ap (λ (u : PlanTask). u.status) is_t ∙ waits;
      stored = ground (arith, kept, read, id_of_t);
      runs = elim move.change [
        | inl (_, _, _, inl already) ↦
            absurd (ground (arith, already, was, waits, status_beq_iff move.before.status running))
        | inl (_, _, _, inr (_, lax)) ↦ absurd (ground (arith, lax))
        | inr (_, _, _, written) ↦ (
          ground (arith, is_after, written.new_status),
          ground (arith, is_after, written.next_version, was, is_t),
        )
      ];
      final_validates = validated;
    }

-- A start that succeeds has rechecked the gate: the plan runs, no other task of it is active, and the
-- task is the one that the scheduler chooses next, which was queued. It leaves the task running, one
-- version later, and returns it as it is stored; the plan of a final validation is then validating.
-- It is assumed that no two tasks have the same identifier.
pub start_task-IsStarted :
    (quote : Text → Text) (now id : ℕ) (db db' : Db) (t t' : PlanTask)
    → IsKeyed db.tasks.rows
    → find_row id db.tasks.rows ≡ some t
    → start_task quote now id db ≡ ok (db', scheduled t')
    → IsStarted id t.columns.plan_id db db' t'
unfolding start_task start_found
start_task-IsStarted quote now id db db' t t' keyed found h =
    elim (Result-cases (load_plan_execution_state t.columns.plan_id db)) [
      | inl (failure, e) ↦ absurd (ground (arith, found, e))
      | inr ((loaded, s), e) ↦
          start_loaded-IsStarted quote now id t.columns.plan_id (find_row id s.tasks) s db loaded
            db' t' e (load_plan_execution_state-IsLoaded t.columns.plan_id db loaded s keyed e) refl
            (ground (arith, found, e))
    ]
