-- ===== src/Enqueue/Tasks/Queued.antt =====
-- What QueueTask (backend/internal/repository/queue.go) has checked and written when it succeeds.
use specrelay.Prelude.{
  ℕ, ◌+◌, ◌≡◌, refl, ap, ◌∙◌, sym, inl, inr, Bool, true, false, Option, none, some, ◌==◌, ◌∷◌, [],
  contains, nat_eq, nat_beq_iff, Text, arith, Bool-cases, eq_of_some, subst,
}
use specrelay.Failure.{ok, Result-cases}
use specrelay.Status.{status_eq, running, ready, blocked, interrupted}
use specrelay.Gate.{Table, find_row}
use specrelay.Gate.Keys.{IsKeyed}
use specrelay.Gate.Rows.{All-find_row, find_row-id}
use specrelay.Store.{task_execution, TaskColumns, PlanTask, Job, Db}
use specrelay.Blocker.{PlanExecutionState}
use specrelay.Schedule.{NextTask, next_task, complete, blocked_by, next_plan_task}
use specrelay.Schedule.Next.{next_plan_task-IsFirstOpen}
use specrelay.Snapshot.{require_plan_execution_baseline}
use specrelay.Load.{load_plan_execution_state}
use specrelay.Load.Ordered.{IsLoaded, load_plan_execution_state-IsLoaded}
use specrelay.Provider.{execution_provider_from_context}
use specrelay.Enqueue.{
  startable, scheduled, insert_event, move_plan, move_task, version_of, job_with_key, add_task_job,
}
use specrelay.Enqueue.Moves.{move_task-IsMove, move_plan-IsMove}
use specrelay.Enqueue.Active.{IsOneQueued, IsMove-IsOneQueued, IsFirstOpen-stored}
use specrelay.Enqueue.Jobs.{add_task_job-HasJob}
use specrelay.Enqueue.Tasks.{
  queue_task_request, resume_plan_request, resume_plan, queue_next, queue_chosen, queue_loaded,
  queue_found, queue_task,
}

resume_plan-tasks :
    (now job_id : ℕ) (t : PlanTask) (s : PlanExecutionState) (db db' : Db) (changed : Bool)
    → resume_plan now job_id t s db ≡ ok (db', changed)
    → db'.tasks ≡ db.tasks
unfolding resume_plan
resume_plan-tasks now job_id t s db db' changed h = elim (Bool-cases (s.status == running)) [
  | inl already ↦ ground (arith, already)
  | inr other ↦ elim (Result-cases (move_plan now (resume_plan_request now job_id t s) db)) [
    | inl (failure, e) ↦ absurd (ground (arith, other, e))
    | inr ((moved, i), e) ↦
        let kept = move_plan-IsMove now (resume_plan_request now job_id t s) db moved i e in
        ground (arith, other, e, kept.1)
  ]
]

-- A task that has been queued is the next version of the one that was read, with a job for that
-- version.
record IsAdded (now job_id version : ℕ) (t : PlanTask) (db db' : Db) (j : Job) : Type 0 where
  moved : Db
  idempotent : Bool
  moves : move_task now (queue_task_request job_id version t) db ≡ ok (moved, idempotent)
  same_tasks : db'.tasks ≡ moved.tasks
  has_job : job_with_key (task_execution t.id (version_of t.id db'.tasks)) db'.jobs.rows ≡ some j

queue_next-IsAdded :
    (now job_id : ℕ) (selection : Option Text) (version : ℕ) (t : PlanTask) (s : PlanExecutionState)
    (db db' : Db) (j : Job)
    → queue_next now job_id selection version t s db ≡ ok (db', j)
    → IsAdded now job_id version t db db' j
unfolding queue_next insert_event
queue_next-IsAdded now job_id selection version t s db db' j h =
    let provider = execution_provider_from_context selection in
    elim (Result-cases (require_plan_execution_baseline s.plan_id db)) [
      | inl (failure, e) ↦ absurd (ground (arith, e))
      | inr (_, e1) ↦ elim (Result-cases (move_task now (queue_task_request job_id version t) db)) [
        | inl (failure, e) ↦ absurd (ground (arith, e1, e))
        | inr ((moved, i), e2) ↦ elim (Result-cases (resume_plan now job_id t s moved)) [
          | inl (failure, e) ↦ absurd (ground (arith, e1, e2, e))
          | inr ((resumed, changed), e3) ↦
              elim (Result-cases (
                add_task_job now job_id s.project_id t.id s.plan_id provider.0 provider.1
                  resumed)) [
                    | inl (failure, e) ↦ absurd (ground (arith, e1, e2, e3, e))
                    | inr ((added, j'), e4) ↦
                        let tasks = resume_plan-tasks now job_id t s moved resumed changed e3 in
                        let job =
                          add_task_job-HasJob now job_id s.project_id t.id s.plan_id provider.0
                            provider.1 resumed added j' e4 in
                        let end = rw (e1, e2, e3, e4) at h in
                        record {
                          moved = moved;
                          idempotent = i;
                          moves = e2;
                          same_tasks =
                              ground (arith, end, job.others_kept, tasks, Bool-cases changed);
                          has_job =
                              ground
                                (arith, end, job.others_kept, job.found, tasks, Bool-cases changed);
                        }
                  ]
        ]
      ]
    ]

queue_chosen-parts :
    (now job_id : ℕ) (selection : Option Text) (version : ℕ) (t : PlanTask) (s : PlanExecutionState)
    (db db' : Db) (next : NextTask) (j : Job)
    → queue_chosen now job_id selection version t s db next ≡ ok (scheduled (db', j))
    → (n : PlanTask) × (next ≡ next_task n)
      × (n.id ≡ t.id)
      × (contains startable t.status ≡ true)
      × (queue_next now job_id selection version t s db ≡ ok (db', j))
unfolding queue_chosen
queue_chosen-parts now job_id selection version t s db db' (blocked_by blockers) j h =
    absurd (ground arith)
queue_chosen-parts now job_id selection version t s db db' complete j h = absurd (ground arith)
queue_chosen-parts now job_id selection version t s db db' (next_task n) j h =
    elim (Bool-cases (n.id == t.id)) [
      | inr other ↦ absurd (ground (arith, other))
      | inl same ↦ elim (Bool-cases (contains startable t.status)) [
        | inr refused ↦ absurd (ground (arith, same, refused))
        | inl fits ↦ elim (Result-cases (queue_next now job_id selection version t s db)) [
          | inl (failure, e) ↦ absurd (ground (arith, same, fits, e))
          | inr (done, e) ↦
              (n, refl, (nat_beq_iff n.id t.id).0 same, fits, ground (arith, same, fits, e))
        ]
      ]
    ]

queue_loaded-parts :
    (now job_id : ℕ) (selection : Option Text) (version : ℕ) (t : PlanTask) (s : PlanExecutionState)
    (db db' : Db) (j : Job)
    → queue_loaded now job_id selection version (some t) (db, s) ≡ ok (scheduled (db', j))
    → (t.version ≡ version)
      × (queue_chosen now job_id selection version t s db (next_plan_task s false none)
          ≡ ok (scheduled (db', j)))
unfolding queue_loaded
queue_loaded-parts now job_id selection version t s db db' j h = ground (
  arith,
  nat_beq_iff t.version version,
  Bool-cases (t.version == version),
  Bool-cases (contains (running ∷ ready ∷ blocked ∷ interrupted ∷ []) s.status),
)

-- What a successful QueueTask has found and left.
pub record IsQueued (id version plan : ℕ) (db db' : Db) (j : Job) : Type 1 where
  pub loaded : Db
  pub state : PlanExecutionState
  pub loads : load_plan_execution_state plan db ≡ ok (loaded, state)
  pub chosen : PlanTask
  pub same_task : (chosen.id ≡ id) × (chosen.version ≡ version)
  pub is_next : next_plan_task state false none ≡ next_task chosen
  pub was_open : contains startable chosen.status ≡ true
  pub one_queued : IsOneQueued plan chosen db'.tasks.rows
  pub has_job : job_with_key (task_execution id (version + 1)) db'.jobs.rows ≡ some j

queue_loaded-IsQueued :
    (now job_id : ℕ) (selection : Option Text) (id version plan : ℕ) (o : Option PlanTask)
    (s : PlanExecutionState) (before db db' : Db) (j : Job)
    → load_plan_execution_state plan before ≡ ok (db, s)
    → IsLoaded plan before db s
    → find_row id s.tasks ≡ o
    → queue_loaded now job_id selection version o (db, s) ≡ ok (scheduled (db', j))
    → IsQueued id version plan before db' j
unfolding queue_loaded
queue_loaded-IsQueued now job_id selection id version plan none s before db db' j loads loaded found
      h =
    absurd (ground arith)
queue_loaded-IsQueued now job_id selection id version plan (some t) s before db db' j loads loaded
      found h =
    let (same_version, chosen) = queue_loaded-parts now job_id selection version t s db db' j h in
    let (n, next, same, fits, goes) =
      queue_chosen-parts now job_id selection version t s db db' (next_plan_task s false none) j
        chosen in
    let added = queue_next-IsAdded now job_id selection version t s db db' j goes in
    let choice = next_plan_task-IsFirstOpen s false none n next in
    let (there, _) = IsFirstOpen-stored plan before db s false n loaded choice.2 in
    let is_t : n ≡ t = eq_of_some (
      sym there
      ∙ ap (λ i. find_row i db.tasks.rows) same
      ∙ All-find_row (λ t. find_row t.id db.tasks.rows ≡ some t) id s.tasks loaded.stored found) in
    let move =
      move_task-IsMove now (queue_task_request job_id version t) db added.moved added.idempotent
        added.moves in
    let id_of_t = find_row-id id s.tasks found in
    let one : IsOneQueued plan n added.moved.tasks.rows =
      IsMove-IsOneQueued plan now before db s false n (queue_task_request job_id version t)
        added.moved.tasks added.idempotent loaded next (sym same) refl refl refl move.0 in
    record {
      loaded = db;
      state = s;
      loads = loads;
      chosen = n;
      same_task = (same ∙ id_of_t, ground (arith, is_t, same_version));
      is_next = next;
      was_open = ground (arith, is_t, fits);
      one_queued =
          subst (IsOneQueued plan n) (sym (ap (λ (x : Table TaskColumns). x.rows) added.same_tasks))
            one;
      has_job = ground (
        arith, added.has_job, added.same_tasks, one.stored, one.next_version, is_t, id_of_t,
        same_version,
      );
    }

-- A QueueTask that succeeds was given the task's present version, and the task is the one that the
-- scheduler chooses next in its plan, in a status that a task is queued from. It leaves the task
-- queued, one version later, as the only active task of the plan, with the job for that version of
-- the task. It is assumed that no two tasks have the same identifier.
pub queue_task-IsQueued :
    (now job_id : ℕ) (selection : Option Text) (id version : ℕ) (db db' : Db) (t : PlanTask)
    (j : Job)
    → IsKeyed db.tasks.rows
    → find_row id db.tasks.rows ≡ some t
    → queue_task now job_id selection id version db ≡ ok (scheduled (db', j))
    → IsQueued id version t.columns.plan_id db db' j
unfolding queue_task queue_found
queue_task-IsQueued now job_id selection id version db db' t j keyed found h =
    elim (Result-cases (load_plan_execution_state t.columns.plan_id db)) [
      | inl (failure, e) ↦ absurd (ground (arith, found, e))
      | inr ((loaded, s), e) ↦
          queue_loaded-IsQueued now job_id selection id version t.columns.plan_id
            (find_row id s.tasks) s db loaded db' j e
            (load_plan_execution_state-IsLoaded t.columns.plan_id db loaded s keyed e) refl
            (ground (arith, found, e))
    ]
