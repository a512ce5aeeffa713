-- ===== src/Examples/Worker.antt =====
-- Runs of the queue, the workspace leases and the return of a task at concrete rows.
use specrelay.Prelude.{ℕ, ◌≡◌, refl, ◌⊎◌, Bool, false, List, [], ◌∷◌, arith, text, text_beq}
use specrelay.Failure.{ok, err, lease_lost, workspace_leased}
use specrelay.Status.{status_beq, queued, running}
use specrelay.Lifecycle.{
  evaluate_transition, evaluate_in, is_terminal_status, is_recoverable_terminal_status,
}
use specrelay.Metadata.{is_blank, validate_lifecycle_metadata, status_sources, recovery_hints}
use specrelay.Gate.{
  transition_lifecycle, transition_found, transition_row, check_request, write_row, apply_step,
  find_row, put_row, lifecycle_checkpoint, request_metadata,
}
use specrelay.Gate.Keys.{sum_rows}
use specrelay.Store.{PlanTask, Job, Db, WorkspaceLease}
use specrelay.Claim.{
  claim_job, claim_selected, claim_request, select_job, claimable, transition_job, read_job,
  first_by, filter_by, any_of, automated, task_turn, turn_owner, has_open_task, plan_before,
}
use specrelay.Queue.Keeps.{IsFresh}
use specrelay.Queue.{mark_job_running, running_request}
use specrelay.Queue.Sound.{IsSound}
use specrelay.Queue.Steps.{claim, run, done, next, QueueRun-IsSound}
use specrelay.Queue.Owner.{IsHeldBy, QueueStep-IsHeldBy}
use specrelay.Lease.{
  find_lease, upsert_lease, leased_elsewhere, acquire_workspace_lease, renew_workspace_lease,
}
use specrelay.Lease.Exclusion.{acquire-held, acquire-renew_lost}
use specrelay.Stop.{
  stop_task, stop_found, active_jobs, job_ids, stop_queued, stop_task_request, stop_job_request,
  stop_jobs, unstarted_jobs, finish_stop, read_task,
}
use specrelay.Stop.Stopped.{IsPendingAgain, stop_task-IsPendingAgain}
use specrelay.TaskReturn.{return_task_pending}
use specrelay.TaskReturn.Outcome.{return_task_pending-not_running}
use specrelay.Examples.Rows.{waiting_db, running_db, job_row, worker_name, lease_row, last_task}

abbrev none_locked : Job → Bool
none_locked j = false

abbrev claimed_db : Db
claimed_db = elim (claim_job 50 none_locked worker_name 9 waiting_db waiting_db) [
  | ok (db, j) ↦ db
  | err e ↦ waiting_db
]

abbrev claimed_job : Job
claimed_job = elim (claim_job 50 none_locked worker_name 9 waiting_db waiting_db) [
  | ok (db, j) ↦ j
  | err e ↦ job_row 0 0 queued []
]

abbrev started_db : Db
started_db = elim (mark_job_running 51 11 worker_name claimed_db) [
  | ok (db, j) ↦ db
  | err e ↦ waiting_db
]

abbrev started_job : Job
started_job = elim (mark_job_running 51 11 worker_name claimed_db) [
  | ok (db, j) ↦ j
  | err e ↦ job_row 0 0 queued []
]

claim_once :
    claim_job 50 none_locked worker_name 9 waiting_db waiting_db ≡ ok (claimed_db, claimed_job)
unfolding claim_job claim_selected claim_request select_job claimable transition_job read_job
    first_by filter_by any_of automated task_turn turn_owner has_open_task plan_before
    transition_lifecycle transition_found transition_row check_request write_row apply_step put_row
    find_row lifecycle_checkpoint request_metadata validate_lifecycle_metadata is_terminal_status
    is_recoverable_terminal_status evaluate_transition evaluate_in status_beq status_sources
    recovery_hints is_blank
claim_once = refl

start_once : mark_job_running 51 11 worker_name claimed_db ≡ ok (started_db, started_job)
unfolding claim_job claim_selected claim_request select_job claimable transition_job read_job
    first_by filter_by any_of automated task_turn turn_owner has_open_task plan_before
    transition_lifecycle transition_found transition_row check_request write_row apply_step put_row
    find_row lifecycle_checkpoint request_metadata validate_lifecycle_metadata is_terminal_status
    is_recoverable_terminal_status evaluate_transition evaluate_in status_beq status_sources
    recovery_hints is_blank mark_job_running running_request
start_once = refl

waiting_db-IsSound : IsSound waiting_db.jobs.rows
unfolding sum_rows find_row status_beq
waiting_db-IsSound = record {
  keyed = (refl, tt);
  exclusive = λ p. ground arith;
  attempts = (record { allowed = omega arith; within = omega arith; left = λ w. omega arith }, tt);
}

-- A query that runs alone sees the tables as they are.
waiting_db-IsFresh : IsFresh 50 none_locked waiting_db waiting_db
unfolding select_job claimable first_by filter_by any_of automated task_turn turn_owner
    has_open_task plan_before find_row status_beq
waiting_db-IsFresh = record { same_row = λ j e. ground (arith, e); same_flight = λ j e. refl }

QueueRun-IsSound_example : IsSound started_db.jobs.rows
QueueRun-IsSound_example =
    QueueRun-IsSound
      (next (next done (claim 50 none_locked worker_name 9 waiting_db claim_once))
        (run 51 11 worker_name start_once))
      ((tt, waiting_db-IsFresh), tt) waiting_db-IsSound

QueueStep-IsHeldBy_example :
    (started_db.jobs ≡ claimed_db.jobs) ⊎ IsHeldBy claimed_db.jobs.rows worker_name 11
QueueStep-IsHeldBy_example =
    QueueStep-IsHeldBy (run 51 11 worker_name start_once) worker_name 11 refl

acquire-held_example :
    acquire_workspace_lease 50 1 12 (text "/p") (text "v") 9 (lease_row ∷ []) ≡ err workspace_leased
unfolding find_lease text_beq
acquire-held_example =
    acquire-held 50 1 12 (text "/p") (text "v") 9 (lease_row ∷ []) lease_row refl (omega arith)
      (λ e. omega (arith, e))

abbrev leased_db : Db
leased_db = record running_db { leases = lease_row ∷ [] }

abbrev taken_over : List WorkspaceLease
taken_over = elim (acquire_workspace_lease 200 1 12 (text "/p") (text "v") 9 leased_db.leases) [
  | ok ls ↦ ls
  | err e ↦ []
]

acquire-renew_lost_example :
    renew_workspace_lease 150 11 worker_name 9 (record leased_db { leases = taken_over })
    ≡ err lease_lost
unfolding acquire_workspace_lease upsert_lease leased_elsewhere find_lease text_beq
acquire-renew_lost_example =
    acquire-renew_lost 200 150 1 12 11 (text "/p") (text "v") worker_name 9 leased_db taken_over
      (refl, tt) ((λ e. refl), tt) (λ e. omega (arith, e)) refl

return_task_pending-not_running_example :
    return_task_pending 50 last_task (text "stopped") running_db ≡ ok running_db
unfolding find_row status_beq
return_task_pending-not_running_example =
    return_task_pending-not_running 50 last_task last_task (text "stopped") running_db refl
      (λ e. ground (arith, e))

abbrev queued_task : PlanTask
queued_task = record last_task { status = queued }

abbrev queued_db : Db
queued_db = record waiting_db { tasks = record { rows = queued_task ∷ []; audit = [] } }

abbrev stopped : (Db × PlanTask) × List ℕ
stopped = elim (stop_task 50 2 1 queued_db) [ ok r ↦ r | err e ↦ ((queued_db, last_task), []) ]

stop_task-IsPendingAgain_example :
    (queued_task.version ≡ 1)
    × (stopped.1 ≡ active_jobs 2 queued_db)
    × (((queued_task.status ≡ running) × (stopped.0.0 ≡ queued_db) × (stopped.0.1 ≡ queued_task))
        ⊎ IsPendingAgain stopped.0.0 2 1 queued_task stopped.0.1)
unfolding stop_task stop_found active_jobs job_ids stop_queued stop_task_request stop_job_request
    stop_jobs unstarted_jobs finish_stop read_task transition_lifecycle transition_found
    transition_row check_request write_row apply_step put_row find_row lifecycle_checkpoint
    request_metadata validate_lifecycle_metadata is_terminal_status is_recoverable_terminal_status
    evaluate_transition evaluate_in status_beq status_sources recovery_hints is_blank text_beq
stop_task-IsPendingAgain_example =
    stop_task-IsPendingAgain 50 2 1 queued_db stopped.0.0 queued_task stopped.0.1 stopped.1 refl
      refl
