-- ===== src/Stop/Stopped.antt =====
-- What StopTask (backend/internal/repository/cancellation.go) leaves behind.
use specrelay.Prelude.{
  ℕ, ◌+◌, ◌≡◌, ◌⊎◌, inl, inr, Bool, some, List, ◌==◌, arith, nat_eq, nat_beq_iff, Bool-cases,
}
use specrelay.Failure.{ok, >>=-eq-ok, Result-cases, ◌>>=◌}
use specrelay.Status.{status_eq, status_beq_iff, queued, running, pending}
use specrelay.Lifecycle.{task}
use specrelay.Gate.{Table, find_row, transition_lifecycle}
use specrelay.Gate.Protect.{transition_lifecycle-Outcome, after_move}
use specrelay.Gate.Moved.{transition_row-same}
use specrelay.Store.{JobColumns, TaskColumns, PlanTask, Db}
use specrelay.TaskReturn.{no_worker}
use specrelay.Stop.{
  stop_jobs, unstarted_jobs, stop_task_request, read_task, finish_stop, stop_queued, stop_found,
  stop_task, active_jobs,
}

-- The task waits again, one version later.
pub record IsPendingAgain (db' : Db) (id version : ℕ) (t t' : PlanTask) : Type 0 where
  pub was_queued : t.status ≡ queued
  pub stored : find_row id db'.tasks.rows ≡ some t'
  pub waits : t'.status ≡ pending
  pub next_version : t'.version ≡ version + 1

stop_found-parts :
    (now id version : ℕ) (db db' : Db) (t t' : PlanTask)
    → stop_found now id version db (some t) ≡ ok (db', t')
    → (t.version ≡ version)
      × (((t.status ≡ running) × (db' ≡ db) × (t' ≡ t))
          ⊎ ((t.status ≡ queued) × (stop_queued now id version t db ≡ ok (db', t'))))
unfolding stop_found
stop_found-parts now id version db db' t t' h = (
  ground (arith, nat_beq_iff t.version version),
  elim (Bool-cases (t.status == queued)) [
    | inl waits ↦ inr (
      (status_beq_iff t.status queued).0 waits,
      ground (arith, Bool-cases (t.version == version)),
    )
    | inr other ↦ inl (
        ground (
          arith,
          status_beq_iff running t.status,
          status_beq_iff queued t.status,
          Bool-cases (t.version == version),
        ))
  ],
)

finish_stop-parts :
    (id : ℕ) (t t' : PlanTask) (db db' : Db) (jobs : Table JobColumns) (tasks : Table TaskColumns)
    → finish_stop id t db jobs tasks ≡ ok (db', t')
    → (db'.tasks ≡ tasks) × (read_task id tasks ≡ ok t')
unfolding finish_stop
finish_stop-parts id t t' db db' jobs tasks h = elim (Result-cases (read_task id tasks)) [
  | inl (failure, e) ↦ ground (arith, e)
  | inr (u, e) ↦ (ground (arith, e), ground (arith, e))
]

stop_queued-parts :
    (now id version : ℕ) (db db' : Db) (t t' : PlanTask)
    → stop_queued now id version t db ≡ ok (db', t')
    → (idempotent : Bool) × (transition_lifecycle task no_worker now
          (stop_task_request id version (unstarted_jobs id db))
          db.tasks
        ≡ ok (db'.tasks, idempotent))
      × (read_task id db'.tasks ≡ ok t')
unfolding stop_queued
stop_queued-parts now id version db db' t t' h =
    let q = stop_task_request id version (unstarted_jobs id db) in
    let jobs =
      >>=-eq-ok (stop_jobs now (unstarted_jobs id db) db.jobs)
        (λ jobs. transition_lifecycle task no_worker now q db.tasks >>= λ (tasks, idempotent).
          finish_stop id t db jobs tasks)
        h in
    let tasks =
      >>=-eq-ok (transition_lifecycle task no_worker now q db.tasks)
        (λ (tasks, idempotent). finish_stop id t db jobs.0 tasks) jobs.2 in
    let end = finish_stop-parts id t t' db db' jobs.0 tasks.0.0 tasks.2 in
    (tasks.0.1, ground (arith, tasks.1, end.0), ground (arith, end.0, end.1))

-- A queued task that the gate has been asked to make pending is pending.
stop_queued-IsPendingAgain :
    (now id version : ℕ) (db db' : Db) (t t' : PlanTask)
    → find_row id db.tasks.rows ≡ some t
    → t.version ≡ version
    → t.status ≡ queued
    → stop_queued now id version t db ≡ ok (db', t')
    → IsPendingAgain db' id version t t'
unfolding stop_task_request read_task
stop_queued-IsPendingAgain now id version db db' t t' found same waits h =
    let parts = stop_queued-parts now id version db db' t t' h in
    let q = stop_task_request id version (unstarted_jobs id db) in
    let outcome =
      transition_lifecycle-Outcome task no_worker now q db.tasks db'.tasks parts.0 parts.1 in
    elim outcome.effect [
      | inl (kept, flag, unmoved) ↦ ground (
        arith,
        transition_row-same task no_worker now q outcome.row unmoved,
        outcome.found,
        found,
        status_beq_iff outcome.row.status pending,
      )
      | inr (r', moves, e, flag) ↦
          let (r, r', there, read, admitted, written) =
            after_move task no_worker now q db.tasks db'.tasks (rw flag at parts.1) in
          record {
            was_queued = waits;
            stored = ground (arith, read, parts.2);
            waits = ground (arith, read, parts.2, written.new_status);
            next_version = ground (arith, read, parts.2, written.next_version, there, found);
          }
    ]

-- A stop of a task that succeeds was given the task's present version and returns its jobs in
-- flight. A running task is left as it is, for the worker to end; a queued task is pending again,
-- one version later, and is returned as it is stored.
pub stop_task-IsPendingAgain :
    (now id version : ℕ) (db db' : Db) (t t' : PlanTask) (active : List ℕ)
    → find_row id db.tasks.rows ≡ some t
    → stop_task now id version db ≡ ok ((db', t'), active)
    → (t.version ≡ version)
      × (active ≡ active_jobs id db)
      × (((t.status ≡ running) × (db' ≡ db) × (t' ≡ t)) ⊎ IsPendingAgain db' id version t t')
unfolding stop_task
stop_task-IsPendingAgain now id version db db' t t' active found h =
    let stopped =
      >>=-eq-ok (stop_found now id version db (find_row id db.tasks.rows))
        (λ stopped. ok (stopped, active_jobs id db)) h in
    let parts =
      stop_found-parts now id version db db' t t' (ground (arith, stopped.1, stopped.2, found)) in
    (
      parts.0,
      ground (arith, stopped.2),
      elim parts.1 [
        | inl left ↦ inl left
        | inr (waits, queued_stop) ↦
            inr (
              stop_queued-IsPendingAgain now id version db db' t t' found parts.0 waits queued_stop)
      ],
    )
