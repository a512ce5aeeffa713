-- ===== src/Enqueue/Plans/Started.antt =====
-- What QueuePlan and QueuePlanAutomatically (backend/internal/repository/queue.go) have checked and
-- written when they succeed.
use specrelay.Prelude.{
  ℕ, ◌+◌, ◌≡◌, refl, ap, ◌∙◌, sym, subst, inl, inr, Bool, true, Option, none, some, ◌==◌, contains,
  nat_eq, nat_beq_iff, Text, text_eq, arith, Bool-cases,
}
use specrelay.Failure.{ok, Result-cases}
use specrelay.Status.{status_eq, running, blocked}
use specrelay.Gate.{Table, find_row}
use specrelay.Gate.Keys.{IsKeyed}
use specrelay.Gate.Rows.{find_row-id, find_row-put_row_self}
use specrelay.Store.{
  task_execution, ConfigSnapshot, PlanColumns, TaskColumns, Plan, PlanTask, Job, Db,
}
use specrelay.Blocker.{PlanExecutionState}
use specrelay.Schedule.{NextTask, next_task, complete, blocked_by, next_plan_task}
use specrelay.Snapshot.{
  latest_snapshot, require_plan_execution_baseline, capture_plan_execution_snapshot,
  insert_plan_drift_audit,
}
use specrelay.Load.{load_plan_execution_state}
use specrelay.Load.Ordered.{IsLoaded, load_plan_execution_state-IsLoaded}
use specrelay.Provider.{plan_config_snapshot_with_provider, provider_from_plan_config_snapshot}
use specrelay.TaskReturn.{no_worker}
use specrelay.Lifecycle.{task, plan}
use specrelay.Enqueue.{
  no_plan_worker, startable, scheduled, insert_event, move_plan, move_task, version_of,
  job_with_key, add_task_job,
}
use specrelay.Enqueue.Moves.{IsMove, IsMove-status, move_task-IsMove, move_plan-IsMove}
use specrelay.Enqueue.Active.{IsOneQueued, IsMove-IsOneQueued}
use specrelay.Enqueue.Jobs.{add_task_job-HasJob}
use specrelay.Enqueue.Plans.{
  allowed_plan_statuses, run_plan_request, queue_first_request, set_config, latest_or_error,
  accept_config, run_next, run_chosen, selected, queue_plan_in, queue_plan,
}

accept_config-kept :
    (digest : ConfigSnapshot → Text) (s : PlanExecutionState) (new : ConfigSnapshot) (db db' : Db)
    → accept_config digest s new db ≡ ok db'
    → (db'.tasks ≡ db.tasks) × (db'.plans ≡ db.plans)
unfolding accept_config insert_plan_drift_audit capture_plan_execution_snapshot
accept_config-kept digest s new db db' h =
    elim (Bool-cases (digest s.config_snapshot == digest new)) [
      | inl same ↦ (ground (arith, same), ground (arith, same))
      | inr other ↦ elim (Result-cases (latest_or_error (latest_snapshot s.plan_id db.snapshots))) [
        | inl (failure, e) ↦ absurd (ground (arith, other, e))
        | inr (previous, e1) ↦
            elim (Result-cases (provider_from_plan_config_snapshot s.config_snapshot)) [
              | inl (failure, e) ↦ absurd (ground (arith, other, e1, e))
              | inr (before, e2) ↦ elim (Result-cases (provider_from_plan_config_snapshot new)) [
                | inl (failure, e) ↦ absurd (ground (arith, other, e1, e2, e))
                | inr (after, e3) ↦
                    (ground (arith, other, e1, e2, e3), ground (arith, other, e1, e2, e3))
              ]
            ]
      ]
    ]

-- The plan runs, and its chosen task has been moved and has a job.
record IsRun (now job_id : ℕ) (automatic : Bool) (n : PlanTask) (s : PlanExecutionState)
    (db db' : Db) (j : Job) : Type 0 where
  between : Db
  moved : Db
  plan_idempotent : Bool
  idempotent : Bool
  runs :
      move_plan now (run_plan_request now job_id automatic n s) db ≡ ok (between, plan_idempotent)
  moves : move_task now (queue_first_request job_id automatic n) between ≡ ok (moved, idempotent)
  same_tasks : db'.tasks ≡ moved.tasks
  new : ConfigSnapshot
  same_plans : db'.plans ≡ set_config new (find_row s.plan_id moved.plans.rows) moved.plans
  has_job : job_with_key (task_execution n.id (version_of n.id db'.tasks)) db'.jobs.rows ≡ some j

run_next-IsRun :
    (digest : ConfigSnapshot → Text) (now job_id : ℕ) (selection : Text × Bool) (automatic : Bool)
    (n : PlanTask) (s : PlanExecutionState) (db db' : Db) (j : Job)
    → run_next digest now job_id selection automatic n s db ≡ ok (db', j)
    → IsRun now job_id automatic n s db db' j
unfolding run_next insert_event
run_next-IsRun digest now job_id (provider, requested) automatic n s db db' j h =
    let plan_q = run_plan_request now job_id automatic n s in
    let task_q = queue_first_request job_id automatic n in
    elim (Result-cases (require_plan_execution_baseline s.plan_id db)) [
      | inl (failure, e) ↦ absurd (ground (arith, e))
      | inr (_, e1) ↦
          elim (Result-cases (plan_config_snapshot_with_provider s.config_snapshot provider)) [
            | inl (failure, e) ↦ absurd (ground (arith, e1, e))
            | inr (new, e2) ↦ elim (Result-cases (move_plan now plan_q db)) [
              | inl (failure, e) ↦ absurd (ground (arith, e1, e2, e))
              | inr ((db1, i), e3) ↦ elim (Result-cases (move_task now task_q db1)) [
                | inl (failure, e) ↦ absurd (ground (arith, e1, e2, e3, e))
                | inr ((db2, k), e4) ↦
                    let set = record db2 {
                      plans = set_config new (find_row s.plan_id db2.plans.rows) db2.plans;
                    } in
                    elim (Result-cases (accept_config digest s new set)) [
                      | inl (failure, e) ↦ absurd (ground (arith, e1, e2, e3, e4, e))
                      | inr (db3, e5) ↦
                          elim (Result-cases (
                            add_task_job now job_id s.project_id n.id s.plan_id provider requested
                              db3)) [
                                | inl (failure, e) ↦ absurd (ground (arith, e1, e2, e3, e4, e5, e))
                                | inr ((db4, j'), e6) ↦
                                    let kept = accept_config-kept digest s new set db3 e5 in
                                    let job =
                                      add_task_job-HasJob now job_id s.project_id n.id s.plan_id
                                        provider requested db3 db4 j' e6 in
                                    let end = rw (e1, e2, e3, e4, e5, e6) at h in
                                    record {
                                      between = db1;
                                      moved = db2;
                                      plan_idempotent = i;
                                      idempotent = k;
                                      runs = e3;
                                      moves = e4;
                                      same_tasks = ground (arith, end, job.others_kept, kept.0);
                                      new = new;
                                      same_plans = ground (arith, end, job.others_kept, kept.1);
                                      has_job =
                                          ground (arith, end, job.others_kept, job.found, kept.0);
                                    }
                              ]
                    ]
              ]
            ]
          ]
    ]

run_chosen-parts :
    (digest : ConfigSnapshot → Text) (now job_id : ℕ) (selection : Text × Bool) (automatic : Bool)
    (s : PlanExecutionState) (db db' : Db) (next : NextTask) (j : Job)
    → run_chosen digest now job_id selection automatic s db next ≡ ok (scheduled (db', j))
    → (n : PlanTask) × (next ≡ next_task n)
      × (contains startable n.status ≡ true)
      × (run_next digest now job_id selection automatic n s db ≡ ok (db', j))
unfolding run_chosen
run_chosen-parts digest now job_id selection automatic s db db' (blocked_by blockers) j h =
    absurd (ground arith)
run_chosen-parts digest now job_id selection automatic s db db' complete j h = absurd (ground arith)
run_chosen-parts digest now job_id selection automatic s db db' (next_task n) j h =
    elim (Bool-cases (contains startable n.status)) [
      | inr refused ↦ absurd (ground (arith, refused))
      | inl fits ↦ elim (Result-cases (run_next digest now job_id selection automatic n s db)) [
        | inl (failure, e) ↦ absurd (ground (arith, fits, e))
        | inr (done, e) ↦ (n, refl, fits, ground (arith, fits, e))
      ]
    ]

queue_plan_in-parts :
    (digest : ConfigSnapshot → Text) (now job_id : ℕ) (selection : Option Text) (automatic : Bool)
    (version : ℕ) (s : PlanExecutionState) (db db' : Db) (j : Job)
    → queue_plan_in digest now job_id selection automatic version (db, s) ≡ ok (scheduled (db', j))
    → (s.version ≡ version)
      × (contains (allowed_plan_statuses automatic) s.status ≡ true)
      × (run_chosen digest now job_id
            (selected automatic selection)
            automatic
            s
            db
            (next_plan_task s automatic none)
          ≡ ok (scheduled (db', j)))
unfolding queue_plan_in
queue_plan_in-parts digest now job_id selection automatic version s db db' j h =
    elim (Bool-cases (s.version == version)) [
      | inr stale ↦ absurd (ground (arith, stale))
      | inl fits ↦ elim (Bool-cases (contains (allowed_plan_statuses automatic) s.status)) [
        | inr refused ↦
            absurd (
              ground (arith, fits, refused, Bool-cases automatic, Bool-cases (s.status == blocked)))
        | inl allowed ↦
            ((nat_beq_iff s.version version).0 fits, allowed, ground (arith, fits, allowed))
      ]
    ]

set_config-running :
    (new : ConfigSnapshot) (id : ℕ) (plans : Table PlanColumns) (p : Plan)
    → find_row id plans.rows ≡ some p
    → (p' : Plan) × (find_row id (set_config new (find_row id plans.rows) plans).rows ≡ some p')
      × (p'.status ≡ p.status)
set_config-running new id plans p found =
    let p' : Plan = record p { columns = record p.columns { config_snapshot = new } } in
    (
      p',
      rw found (find_row-put_row_self id p' plans.rows (find_row-id id plans.rows found) found),
      refl,
    )

-- What a successful start of a plan has found and left.
pub record IsPlanRunning (automatic : Bool) (id version : ℕ) (db db' : Db) (j : Job) : Type 1 where
  pub loaded : Db
  pub state : PlanExecutionState
  pub loads : load_plan_execution_state id db ≡ ok (loaded, state)
  pub was_allowed :
      (state.version ≡ version) × (contains (allowed_plan_statuses automatic) state.status ≡ true)
  pub chosen : PlanTask
  pub is_next : next_plan_task state automatic none ≡ next_task chosen
  pub one_queued : IsOneQueued id chosen db'.tasks.rows
  pub row : Plan
  pub runs : (find_row id db'.plans.rows ≡ some row) × (row.status ≡ running)
  pub has_job : job_with_key (task_execution chosen.id (chosen.version + 1)) db'.jobs.rows ≡ some j

queue_plan_in-IsPlanRunning :
    (digest : ConfigSnapshot → Text) (now job_id : ℕ) (selection : Option Text) (automatic : Bool)
    (id version : ℕ) (s : PlanExecutionState) (before db db' : Db) (j : Job)
    → load_plan_execution_state id before ≡ ok (db, s)
    → IsLoaded id before db s
    → queue_plan_in digest now job_id selection automatic version (db, s) ≡ ok (scheduled (db', j))
    → IsPlanRunning automatic id version before db' j
unfolding queue_first_request run_plan_request
queue_plan_in-IsPlanRunning digest now job_id selection automatic id version s before db db' j loads
      loaded h =
    let (same_version, allowed, chosen) =
      queue_plan_in-parts digest now job_id selection automatic version s db db' j h in
    let (n, next, fits, goes) =
      run_chosen-parts digest now job_id (selected automatic selection) automatic s db db'
        (next_plan_task s automatic none) j chosen in
    let run =
      run_next-IsRun digest now job_id (selected automatic selection) automatic n s db db' j goes in
    let (plan_move, plans_only) =
      move_plan-IsMove now (run_plan_request now job_id automatic n s) db run.between
        run.plan_idempotent run.runs in
    let (task_move, tasks_only) =
      move_task-IsMove now (queue_first_request job_id automatic n) run.between run.moved
        run.idempotent run.moves in
    let same_tasks : run.between.tasks ≡ db.tasks = ap (λ (x : Db). x.tasks) plans_only in
    let same_plans : run.moved.plans ≡ run.between.plans = ap (λ (x : Db). x.plans) tasks_only in
    let one : IsOneQueued id n run.moved.tasks.rows =
      IsMove-IsOneQueued id now before db s automatic n (queue_first_request job_id automatic n)
        run.moved.tasks run.idempotent loaded next refl refl refl refl
        (subst
          (λ (t : Table TaskColumns).
            IsMove task no_worker now (queue_first_request job_id automatic n) t run.moved.tasks
              run.idempotent)
          same_tasks task_move) in
    let id_of_plan = loaded.plan_row.0 in
    let runs : plan_move.after.status ≡ running =
      IsMove-status plan no_plan_worker now (run_plan_request now job_id automatic n s) db.plans
        run.between.plans run.plan_idempotent refl plan_move in
    let (p', there, still) =
      set_config-running run.new s.plan_id run.moved.plans plan_move.after
        (ap (λ (t : Table PlanColumns). find_row s.plan_id t.rows) same_plans ∙ plan_move.stored) in
    record {
      loaded = db;
      state = s;
      loads = loads;
      was_allowed = (same_version, allowed);
      chosen = n;
      is_next = next;
      one_queued =
          subst (IsOneQueued id n) (sym (ap (λ (x : Table TaskColumns). x.rows) run.same_tasks))
            one;
      row = p';
      runs = (ground (arith, run.same_plans, there, id_of_plan), still ∙ runs);
      has_job = ground (arith, run.has_job, run.same_tasks, one.stored, one.next_version);
    }

-- A start of a plan that succeeds was given the plan's present version, from the status ready or,
-- unless it is automatic, blocked. It leaves the plan running, with the task that the scheduler
-- chooses next queued, one version later, as the only active task of the plan, and the job for that
-- version of the task. It is assumed that no two tasks have the same identifier.
pub queue_plan-IsPlanRunning :
    (digest : ConfigSnapshot → Text) (now job_id : ℕ) (selection : Option Text) (automatic : Bool)
    (id version : ℕ) (db db' : Db) (j : Job)
    → IsKeyed db.tasks.rows
    → queue_plan digest now job_id selection automatic id version db ≡ ok (scheduled (db', j))
    → IsPlanRunning automatic id version db db' j
unfolding queue_plan
queue_plan-IsPlanRunning digest now job_id selection automatic id version db db' j keyed h =
    elim (Result-cases (load_plan_execution_state id db)) [
      | inl (failure, e) ↦ absurd (ground (arith, e))
      | inr ((loaded, s), e) ↦
          queue_plan_in-IsPlanRunning digest now job_id selection automatic id version s db loaded
            db' j e (load_plan_execution_state-IsLoaded id db loaded s keyed e) (ground (arith, e))
    ]
