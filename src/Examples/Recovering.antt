-- ===== src/Examples/Recovering.antt =====
-- The recovery of a lost job at concrete rows.
use specrelay.Prelude.{arith, refl, false, none, some, Option, text, text_beq, [], ◌∷◌}
use specrelay.Failure.{Result, ok}
use specrelay.Status.{status_beq, leased, running, queued}
use specrelay.Lifecycle.{is_terminal_status, is_recoverable_terminal_status}
use specrelay.Metadata.{
  object, validate_lifecycle_metadata, status_sources, recovery_hints, is_blank,
}
use specrelay.Gate.{
  transition_lifecycle, transition_found, transition_row, check_request, write_row, apply_step,
  put_row, find_row, lifecycle_checkpoint, request_metadata,
}
use specrelay.Store.{task_execute, PlanTask, Db}
use specrelay.Recovery.{RecoveryJob, RecoveryRun, RecoveryEvidence, choose_recovery_outcome}
use specrelay.Recovery.Converge.{converge_recovered_task}
use specrelay.Gate.Keys.{sum_rows}
use specrelay.Claim.{transition_job}
use specrelay.Queue.Sound.{IsSound}
use specrelay.Recovery.Requeue.{
  requeue_request, requeue_unstarted_job, IsRequeued, requeue_unstarted_job-IsRequeued,
}
use specrelay.Examples.Rows.{first_task, last_task, job_row, worker_name, db_with}

abbrev lost_job : RecoveryJob
lost_job = record {
  id = 11;
  project_id = 1;
  aggregate_id = 2;
  plan_id = some 7;
  job_type = task_execute;
  status = leased;
  worker_id = worker_name;
  lease_expires_at = none;
  reason_code = text "worker_claimed";
  task_status = some queued;
  plan_status = some running;
}

-- A run whose process was never recorded.
abbrev unstarted_run : Option RecoveryRun
unstarted_run =
    some (record { status = running; pid = none; owner_instance_id = text "i"; reason_code = [] })

-- Nothing shows that the owner is alive.
abbrev lost : RecoveryEvidence
lost = record {
  owner_id = text "i";
  owner_fresh = false;
  job_lease_valid = false;
  workspace_lease_valid = false;
  workspace_lock_owned = false;
  process_known = false;
  process_alive = false;
  heartbeat_fresh = false;
}

abbrev queued_task : PlanTask
queued_task = record last_task { status = queued }

abbrev lost_db : Db
lost_db =
    let db = db_with (job_row 11 2 leased worker_name ∷ []) in
    record db { tasks = record { rows = first_task ∷ queued_task ∷ []; audit = [] } }

abbrev db_or : Result Db → Db
db_or (ok db) = db
db_or _ = lost_db

abbrev recovered_db : Db
recovered_db = db_or (
    converge_recovered_task 50 lost_job (choose_recovery_outcome unstarted_run false lost) 40
      (object []) lost_db)

lost_db-IsSound : IsSound lost_db.jobs.rows
unfolding sum_rows find_row status_beq
lost_db-IsSound = record {
  keyed = (refl, tt);
  exclusive = λ p. ground arith;
  attempts = (record { allowed = omega arith; within = omega arith; left = λ w. omega arith }, tt);
}

abbrev requeued_db : Db
requeued_db = db_or (requeue_unstarted_job 50 11 (object []) lost_db)

requeue_unstarted_job-IsRequeued_example :
    IsRequeued 11 lost_db requeued_db (job_row 11 2 leased worker_name)
unfolding requeue_unstarted_job requeue_request transition_job transition_lifecycle transition_found
    transition_row check_request write_row apply_step put_row find_row lifecycle_checkpoint
    request_metadata validate_lifecycle_metadata is_terminal_status is_recoverable_terminal_status
    status_beq status_sources recovery_hints is_blank text_beq
requeue_unstarted_job-IsRequeued_example =
    requeue_unstarted_job-IsRequeued 50 11 (object []) lost_db requeued_db
      (job_row 11 2 leased worker_name) lost_db-IsSound refl refl
