-- ===== src/Examples/Draining.antt =====
-- A pool that drains, and a job that is blocked for drift, at concrete rows.
use specrelay.Gate.{
  transition_lifecycle, transition_found, transition_row, check_request, write_row, apply_step,
  put_row, find_row, lifecycle_checkpoint, request_metadata,
}
use specrelay.Metadata.{validate_lifecycle_metadata, status_sources, recovery_hints, is_blank}
use specrelay.Lifecycle.{
  is_terminal_status, is_recoverable_terminal_status, evaluate_transition, evaluate_in,
}
use specrelay.Status.{status_beq, queued, running}
use specrelay.Prelude.{text_beq, ℕ, Bool, true, false, Text, refl, [], ◌∷◌}
use specrelay.Claim.{
  claim_job, claim_request, select_job, claimable, transition_job, read_job, first_by, filter_by,
  any_of, automated, task_turn, turn_owner, has_open_task, plan_before,
}
use specrelay.Queue.{release_leased_job, release_request}
use specrelay.Pool.{put_phase, put_db, Pool, holding, returned, done, next, give_back}
use specrelay.Drift.{
  block_task_job_for_drift, drift_job_request, hold_drifted_task, drift_task_request,
  note_task_drift, block_drifted_plan, drift_plan_request,
}
use specrelay.Enqueue.{move_task, move_plan, insert_event}
use specrelay.Failure.{Result, ok}
use specrelay.Store.{Job, Db, PlanTask}
use specrelay.Pool.Drained.{IsWindingDown, PoolRun-IsWindingDown}
use specrelay.Examples.Rows.{waiting_db, running_db, job_row, worker_name, first_task, last_task}

abbrev name_of : ℕ → Text
name_of i = worker_name

abbrev db_or : Result Db → Db
db_or (ok db) = db
db_or _ = waiting_db

abbrev claimed_or : Result (Db × Job) → Db × Job
claimed_or (ok claimed) = claimed
claimed_or _ = (waiting_db, job_row 0 0 queued [])

abbrev none_locked : Job → Bool
none_locked j = false

abbrev claimed : Db × Job
claimed = claimed_or (claim_job 50 none_locked worker_name 9 waiting_db waiting_db)

abbrev given_back : Db
given_back = db_or (release_leased_job 51 11 worker_name claimed.0)

-- One worker that has claimed a job before the pool began to drain.
abbrev draining_pool : Pool
draining_pool = record {
  draining = true;
  stopped = false;
  phases = λ i. holding claimed.1;
  db = claimed.0;
}

PoolRun-IsWindingDown_example :
    IsWindingDown draining_pool (put_db given_back (put_phase 0 returned draining_pool))
unfolding transition_lifecycle transition_found transition_row check_request write_row apply_step
    put_row find_row lifecycle_checkpoint request_metadata validate_lifecycle_metadata
    status_sources recovery_hints is_blank is_terminal_status is_recoverable_terminal_status
    evaluate_transition evaluate_in status_beq text_beq claim_job claim_request select_job claimable
    transition_job read_job first_by filter_by any_of automated task_turn turn_owner has_open_task
    plan_before release_leased_job release_request put_phase put_db block_task_job_for_drift
    drift_job_request hold_drifted_task drift_task_request note_task_drift block_drifted_plan
    drift_plan_request move_task move_plan insert_event
PoolRun-IsWindingDown_example =
    PoolRun-IsWindingDown name_of {p = draining_pool}
      {p' = put_db given_back (put_phase 0 returned draining_pool)}
      (next done (give_back 0 51 claimed.1 given_back refl refl refl)) refl

abbrev drifting_task : PlanTask
drifting_task = record last_task { status = running }

abbrev drifting_job : Job
drifting_job = job_row 11 2 running worker_name

abbrev drifting_db : Db
drifting_db = record running_db {
  tasks = record running_db.tasks { rows = first_task ∷ drifting_task ∷ [] };
}

abbrev blocked_db : Db
blocked_db = db_or (block_task_job_for_drift 60 drifting_job worker_name drifting_db)
