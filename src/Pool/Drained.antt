-- ===== src/Pool/Drained.antt =====
-- After BeginDraining no worker of the pool (backend/internal/jobqueue/worker.go) starts a job.
use specrelay.Prelude.{
  ℕ, ◌≤◌, ◌≡◌, ◌≢◌, refl, ap, ◌∙◌, inl, inr, Bool, true, not, ◌&&◌, ◌||◌, Option, none, some, List,
  ◌==◌, if◌then◌else◌, Text, arith, nat_eq, Bool-cases,
}
use specrelay.Failure.{Result, ok, ◌>>=◌, >>=-eq-ok, Result-cases}
use specrelay.Status.{status_eq, status_beq_iff, running}
use specrelay.Lifecycle.{job}
use specrelay.Gate.{LifecycleTransitionRequest, find_row}
use specrelay.Gate.Keys.{sum_rows, sum_rows-put_row}
use specrelay.Gate.Rows.{find_row-id}
use specrelay.Store.{JobColumns, PlanTask, Job, Db, is_task_job, job_type_beq, plan_generate}
use specrelay.Claim.{worker_of, transition_job, claim_job, claim_selected, claim_request, read_job}
use specrelay.Queue.{
  complete_job, complete_request, cancel_job, cancel_request, fail_job, fail_request, fail_intake,
  defer_job_for_workspace, defer_request, release_leased_job, release_request, retries,
}
use specrelay.Queue.Steps.{transition_job-jobs}
use specrelay.Enqueue.{move_task, move_plan, insert_event}
use specrelay.Enqueue.Moves.{transition_lifecycle-IsMove, move_task-IsMove, move_plan-IsMove}
use specrelay.Drift.{
  drift_job_request, drift_task_request, drift_plan_request, hold_drifted_task, project_of,
  note_task_drift, block_drifted_plan, block_task_job_for_drift,
}
use specrelay.Pool.{
  JobOutcome, finished, drifted, workspace_busy, was_cancelled, failed_with, settle_job, Phase,
  at_top, returned, holding, executing, Pool, put_phase, put_db, begin_draining, stop_pool,
  check_phase, PoolStep, drain, stop, check, claim, claim_nothing, start, start_fails, give_back,
  give_back_fails, settle, settle_fails, PoolRun, done, next,
}

running_share : Job → ℕ
running_share j = if j.status == running then 1 else 0

-- How many jobs are running.
pub running_count : List Job → ℕ
running_count rows = sum_rows running_share rows

request-running_count :
    (now : ℕ) (q : LifecycleTransitionRequest JobColumns) (db db' : Db) (i : Bool)
    → q.status ≢ running
    → transition_job now q db ≡ ok (db', i)
    → running_count db'.jobs.rows ≤ running_count db.jobs.rows
unfolding running_count running_share
request-running_count now q db db' i other h =
    let move =
      transition_lifecycle-IsMove job worker_of now q db.jobs db'.jobs i
        (transition_job-jobs now q db db' i h) in
    elim move.change [
      | inl (kept, _, _, _) ↦ rw kept (omega arith)
      | inr (e, _, _, written) ↦
          let idle : running_share move.after ≡ 0 =
            ground (arith, written.new_status, other, status_beq_iff move.after.status running) in
          let counted = sum_rows-put_row running_share move.after db.jobs.rows {r = move.before} (
            ap (λ i. find_row i db.jobs.rows)
              (written.same_id ∙ find_row-id q.resource_id db.jobs.rows move.found)
            ∙ move.found) in
          rw e (omega (arith, counted, idle))
    ]

-- A transaction that runs one request and then leaves the jobs alone.
then-running_count :
    {A : Type 0} (now : ℕ) (q : LifecycleTransitionRequest JobColumns) (db : Db)
    (rest : Db × Bool → Result A) (final : A → Db) {a : A}
    → q.status ≢ running
    → ((d : Db) (i : Bool) (b : A) → rest (d, i) ≡ ok b → (final b).jobs ≡ d.jobs)
    → (transition_job now q db >>= rest) ≡ ok a
    → running_count (final a).jobs.rows ≤ running_count db.jobs.rows
then-running_count now q db rest final other keeps h =
    let ((d, i), moved, e) = >>=-eq-ok (transition_job now q db) rest h in
    rw (keeps d i _ e) (request-running_count now q db d i other moved)

block_drifted_plan-jobs :
    (now : ℕ) (j : Job) (plan_id project : ℕ) (db db' : Db)
    → block_drifted_plan now j plan_id project db ≡ ok db'
    → db'.jobs ≡ db.jobs
unfolding block_drifted_plan insert_event
block_drifted_plan-jobs now j plan_id project db db' h =
    elim (Result-cases (move_plan now (drift_plan_request j plan_id) db)) [
      | inl (failure, e) ↦ absurd (ground (arith, e))
      | inr ((moved, i), e) ↦
          let (_, plans_only) = move_plan-IsMove now (drift_plan_request j plan_id) db moved i e in
          let end = rw e at h in ground (arith, end, plans_only)
    ]

hold_drifted_task-jobs :
    (now : ℕ) (j : Job) (db db' : Db) (o : Option PlanTask)
    → hold_drifted_task now j db o ≡ ok db'
    → db'.jobs ≡ db.jobs
unfolding hold_drifted_task note_task_drift insert_event
hold_drifted_task-jobs now j db db' none h = absurd (ground arith)
hold_drifted_task-jobs now j db db' (some t) h =
    elim (Result-cases (move_task now (drift_task_request j) db)) [
      | inl (failure, e) ↦ absurd (ground (arith, e))
      | inr ((moved, i), e) ↦
          let (_, tasks_only) = move_task-IsMove now (drift_task_request j) db moved i e in
          let id = j.columns.aggregate_id in
          block_drifted_plan-jobs now j t.columns.plan_id (project_of id moved.tasks)
            (note_task_drift id moved) db' (ground (arith, e, h))
          ∙ ap (λ (x : Db). x.jobs) tasks_only
    ]

after_drift-jobs :
    (now : ℕ) (j : Job) (d b : Db)
    → (if is_task_job j
        then hold_drifted_task now j d (find_row j.columns.aggregate_id d.tasks.rows)
        else ok d)
      ≡ ok b
    → b.jobs ≡ d.jobs
after_drift-jobs now j d b h = elim (Bool-cases (is_task_job j)) [
  | inl task_job ↦
      hold_drifted_task-jobs now j d b (find_row j.columns.aggregate_id d.tasks.rows)
        (rw task_job at h)
  | inr other ↦ ground (arith, rw other at h)
]

kept : (d : Db) (b : Db) → ok d ≡ ok b → b.jobs ≡ d.jobs
kept d b h = ground (arith, h)

-- No outcome of a job sets another one running.
settle_job-running_count :
    (now wall : ℕ) (j : Job) (worker : Text) (outcome : JobOutcome) (db db' : Db)
    → settle_job now wall j worker outcome db ≡ ok db'
    → running_count db'.jobs.rows ≤ running_count db.jobs.rows
unfolding settle_job complete_job complete_request block_task_job_for_drift drift_job_request
    defer_job_for_workspace defer_request cancel_job cancel_request fail_job fail_request
    fail_intake
settle_job-running_count now wall j worker finished db db' h =
    then-running_count now _ db _ (λ d. d) (λ e. cc) (λ d i b e. kept d b e) h
settle_job-running_count now wall j worker drifted db db' h =
    then-running_count now (drift_job_request j worker) db
      (λ (d, i).
        if is_task_job j
        then hold_drifted_task now j d (find_row j.columns.aggregate_id d.tasks.rows)
        else ok d)
      (λ d. d) (λ e. cc) (λ d i b e. after_drift-jobs now j d b e) h
settle_job-running_count now wall j worker workspace_busy db db' h =
    then-running_count now _ db _ (λ d. d) (λ e. cc) (λ d i b e. kept d b e) h
settle_job-running_count now wall j worker was_cancelled db db' h =
    then-running_count now _ db _ (λ d. d) (λ e. cc) (λ d i b e. kept d b e) h
settle_job-running_count now wall j worker (failed_with message retryable) db db' h =
    then-running_count now (fail_request wall j worker message retryable) db _ (λ d. d)
      (λ e. ground (arith, e, Bool-cases (retries j retryable)))
      (λ d i b e. ground (
        arith,
        e,
        Bool-cases (not (retries j retryable) && job_type_beq j.columns.job_type plan_generate),
      ))
      h

read_again-jobs :
    (id : ℕ) (d : Db) (b : Db × Job)
    → (read_job id d >>= λ claimed. ok (d, claimed)) ≡ ok b
    → b.0.jobs ≡ d.jobs
read_again-jobs id d b h =
    let (k, found, e) = >>=-eq-ok (read_job id d) (λ k. ok (d, k)) h in ground (arith, e)

claim_selected-running_count :
    (now : ℕ) (worker : Text) (lease : ℕ) (db db' : Db) (j : Job) (selected : Option Job)
    → claim_selected now worker lease db selected ≡ ok (db', j)
    → running_count db'.jobs.rows ≤ running_count db.jobs.rows
unfolding claim_request
claim_selected-running_count now worker lease db db' j none h = cc
claim_selected-running_count now worker lease db db' j (some k) h =
    then-running_count now (claim_request now worker lease k.id) db
      (λ (d, i). read_job k.id d >>= λ claimed. ok (d, claimed)) (λ p. p.0) (λ e. cc)
      (λ d i b e. read_again-jobs k.id d b e) h

release-running_count :
    (now id : ℕ) (worker : Text) (db db' : Db)
    → release_leased_job now id worker db ≡ ok db'
    → running_count db'.jobs.rows ≤ running_count db.jobs.rows
unfolding release_leased_job release_request
release-running_count now id worker db db' h =
    then-running_count now _ db _ (λ d. d) (λ e. cc) (λ d i b e. kept d b e) h

-- From one state of a draining pool to a later one: it still drains, every job that a worker executes
-- was executed by that worker before, and no more jobs run.
pub record IsWindingDown (p p' : Pool) : Type 0 where
  pub still : p'.draining ≡ true
  pub same_jobs : (i : ℕ) (j : Job) → p'.phases i ≡ executing j → p.phases i ≡ executing j
  pub fewer : running_count p'.db.jobs.rows ≤ running_count p.db.jobs.rows

check_phase-idle : (p : Pool) (j : Job) → check_phase p ≢ executing j
unfolding check_phase
check_phase-idle p j e = ground (arith, e, Bool-cases (p.stopped || p.draining))

phase-put :
    (i k : ℕ) (phase : Phase) (p : Pool) (j : Job)
    → phase ≢ executing j
    → (put_phase i phase p).phases k ≡ executing j
    → p.phases k ≡ executing j
unfolding put_phase
phase-put i k phase p j other h = elim (Bool-cases (i == k)) [
  | inl same ↦ absurd (other (rw same at h))
  | inr else_where ↦ rw else_where at h
]

module _ (worker_name : ℕ → Text) where
  PoolStep-IsWindingDown :
      {p p' : Pool} → PoolStep worker_name p p' → p.draining ≡ true → IsWindingDown p p'
  unfolding put_phase put_db begin_draining stop_pool check_phase claim_job
  PoolStep-IsWindingDown {p} drain d = record {
    still = refl;
    same_jobs = λ i j e. e;
    fewer = omega arith;
  }
  PoolStep-IsWindingDown {p} stop d = record {
    still = d;
    same_jobs = λ i j e. e;
    fewer = omega arith;
  }
  PoolStep-IsWindingDown {p} (check i top) d = record {
    still = d;
    same_jobs = λ k j e. phase-put i k (check_phase p) p j (check_phase-idle p j) e;
    fewer = omega arith;
  }
  PoolStep-IsWindingDown {p} (claim i now lease locked seen db' j at_it h) d = record {
    still = d;
    same_jobs = λ k k_job e. phase-put i k (holding j) p k_job (λ e. cc) e;
    fewer = claim_selected-running_count now (worker_name i) lease p.db db' j _ h;
  }
  PoolStep-IsWindingDown {p} (claim_nothing i at_it) d = record {
    still = d;
    same_jobs = λ k j e. phase-put i k at_top p j (λ e. cc) e;
    fewer = omega arith;
  }
  PoolStep-IsWindingDown {p} (start i now j j' db' at_it free h) d =
      absurd (ground (arith, free, d))
  PoolStep-IsWindingDown {p} (start_fails i j at_it free) d = absurd (ground (arith, free, d))
  PoolStep-IsWindingDown {p} (give_back i now j db' at_it _ h) d = record {
    still = d;
    same_jobs = λ k k_job e. phase-put i k returned p k_job (λ e. cc) e;
    fewer = release-running_count now j.id (worker_name i) p.db db' h;
  }
  PoolStep-IsWindingDown {p} (give_back_fails i j at_it _) d = record {
    still = d;
    same_jobs = λ k k_job e. phase-put i k returned p k_job (λ e. cc) e;
    fewer = omega arith;
  }
  PoolStep-IsWindingDown {p} (settle i now wall j outcome db' at_it h) d = record {
    still = d;
    same_jobs = λ k k_job e. phase-put i k at_top p k_job (λ e. cc) e;
    fewer = settle_job-running_count now wall j (worker_name i) outcome p.db db' h;
  }
  PoolStep-IsWindingDown {p} (settle_fails i j at_it) d = record {
    still = d;
    same_jobs = λ k k_job e. phase-put i k at_top p k_job (λ e. cc) e;
    fewer = omega arith;
  }

-- Once a pool drains, whatever its workers do in whatever order, it keeps draining, each job that a
-- worker executes later is one that it executed already, and the number of running jobs never grows:
-- a job that is claimed is not started any more.
pub PoolRun-IsWindingDown :
    (worker_name : ℕ → Text) {p p' : Pool}
    → PoolRun worker_name p p'
    → p.draining ≡ true
    → IsWindingDown p p'
PoolRun-IsWindingDown worker_name done d = record {
  still = d;
  same_jobs = λ i j e. e;
  fewer = omega arith;
}
PoolRun-IsWindingDown worker_name (next r s) d =
    let before = PoolRun-IsWindingDown worker_name r d in
    let after = PoolStep-IsWindingDown worker_name s before.still in
    record {
      still = after.still;
      same_jobs = λ i j e. before.same_jobs i j (after.same_jobs i j e);
      fewer = omega (arith, before.fewer, after.fewer);
    }
