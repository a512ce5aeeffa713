-- ===== src/Pool.antt =====
-- backend/internal/jobqueue/worker.go: the workers of a pool over the job queue, as steps of one
-- worker or of the pool. The start of a job holds the read lock that `BeginDraining` waits for, so
-- the check of the flag and `MarkJobRunning` are one step; every other transaction is a step too.
pub mod Drained
use specrelay.Prelude.{ℕ, ◌≡◌, Bool, true, false, ◌||◌, ◌==◌, if◌then◌else◌, Text, nat_eq}
use specrelay.Failure.{Result, ok}
use specrelay.Store.{Job, Db}
use specrelay.Claim.{claim_job}
use specrelay.Queue.{
  second, mark_job_running, release_leased_job, complete_job, cancel_job, fail_job,
  defer_job_for_workspace,
}
use specrelay.Drift.{block_task_job_for_drift}

-- What `ExecuteJob` returns, by the tests of `run` in their order: no error, a drift block, a busy
-- workspace, a cancellation, or another error with its message and whether it can be retried.
pub data JobOutcome : Type 0 where
  finished drifted workspace_busy was_cancelled : JobOutcome
  failed_with : Text → Bool → JobOutcome

-- How `run` settles the job. An error of the transaction is only logged.
unfoldable pub settle_job : ℕ → ℕ → Job → Text → JobOutcome → Db → Result Db
unfolding complete_job block_task_job_for_drift defer_job_for_workspace cancel_job fail_job
settle_job now wall j worker finished db = complete_job now j.id worker db
settle_job now wall j worker drifted db = block_task_job_for_drift now j worker db
settle_job now wall j worker workspace_busy db = defer_job_for_workspace now j.id worker second db
settle_job now wall j worker was_cancelled db = cancel_job now j.id worker db
settle_job now wall j worker (failed_with message retryable) db =
    fail_job now wall j worker message retryable db

-- Where a worker stands in its loop.
pub data Phase : Type 0 where
  at_top at_claim returned : Phase
  holding executing : Job → Phase

pub record Pool : Type 0 where
  pub draining : Bool
  pub stopped : Bool  -- the context of the workers is cancelled
  pub phases : ℕ → Phase
  pub db : Db

unfoldable pub put_phase : ℕ → Phase → Pool → Pool
put_phase i phase p = record p { phases = λ k. if i == k then phase else p.phases k }

unfoldable pub put_db : Db → Pool → Pool
put_db db p = record p { db = db }

unfoldable pub begin_draining : Pool → Pool
begin_draining p = record p { draining = true }

unfoldable pub stop_pool : Pool → Pool
stop_pool p = record p { stopped = true }

-- `if ctx.Err() != nil || p.isDraining() { return }`.
unfoldable pub check_phase : Pool → Phase
check_phase p = if p.stopped || p.draining then returned else at_claim

module _ (worker_name : ℕ → Text) where
  -- One step; an error of a transaction leaves the database as it was.
  pub data PoolStep (p : Pool) : Pool → Type 0 where
    drain : PoolStep p (begin_draining p)
    stop : PoolStep p (stop_pool p)
    check : (i : ℕ) → p.phases i ≡ at_top → PoolStep p (put_phase i (check_phase p) p)
    claim :
        (i now lease : ℕ) (locked : Job → Bool) (seen db' : Db) (j : Job)
        → p.phases i ≡ at_claim
        → claim_job now locked (worker_name i) lease seen p.db ≡ ok (db', j)
        → PoolStep p (put_db db' (put_phase i (holding j) p))
    claim_nothing : (i : ℕ) → p.phases i ≡ at_claim → PoolStep p (put_phase i at_top p)
    start :
        (i now : ℕ) (j j' : Job) (db' : Db)
        → p.phases i ≡ holding j
        → p.draining ≡ false
        → mark_job_running now j.id (worker_name i) p.db ≡ ok (db', j')
        → PoolStep p (put_db db' (put_phase i (executing j') p))
    start_fails :
        (i : ℕ) (j : Job)
        → p.phases i ≡ holding j
        → p.draining ≡ false
        → PoolStep p (put_phase i at_top p)
    give_back :
        (i now : ℕ) (j : Job) (db' : Db)
        → p.phases i ≡ holding j
        → p.draining ≡ true
        → release_leased_job now j.id (worker_name i) p.db ≡ ok db'
        → PoolStep p (put_db db' (put_phase i returned p))
    give_back_fails :
        (i : ℕ) (j : Job)
        → p.phases i ≡ holding j
        → p.draining ≡ true
        → PoolStep p (put_phase i returned p)
    settle :
        (i now wall : ℕ) (j : Job) (outcome : JobOutcome) (db' : Db)
        → p.phases i ≡ executing j
        → settle_job now wall j (worker_name i) outcome p.db ≡ ok db'
        → PoolStep p (put_db db' (put_phase i at_top p))
    settle_fails : (i : ℕ) (j : Job) → p.phases i ≡ executing j → PoolStep p (put_phase i at_top p)

  pub data PoolRun (p : Pool) : Pool → Type 0 where
    done : PoolRun p p
    next : {p' p'' : Pool} → PoolRun p p' → PoolStep p' p'' → PoolRun p p''
