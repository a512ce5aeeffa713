-- ===== src/Examples/Transitions.antt =====
-- The write gate and the lifecycle tables at concrete rows.
use specrelay.Prelude.{◌≡◌, ◌↔◌, refl, true, false, none, some, arith, contains, text_beq}
use specrelay.Prelude.Words.{trim_space, to_lower}
use specrelay.Failure.{ok, err}
use specrelay.Status.{status_beq, status_eq, queued, running, succeeded, cancelling, cancelled}
use specrelay.Lifecycle.{
  job, applied, destinations, lifecycle_contracts, evaluate_transition, evaluate_in, resource_name,
  is_cancelling_status, parse_lifecycle_resource, evaluate_parsed, is_terminal_status,
  is_recoverable_terminal_status,
}
use specrelay.Lifecycle.Table.{evaluate_transition-applied_iff}
use specrelay.Lifecycle.Absorbing.{cancelling-evaluate_transition}
use specrelay.Lifecycle.Progress.{HasEnd, known-HasEnd}
use specrelay.Metadata.{is_blank, validate_lifecycle_metadata, status_sources, recovery_hints}
use specrelay.Gate.{
  LifecycleTransitionRequest, Table, transition_lifecycle, transition_found, transition_row,
  check_request, write_row, apply_step, find_row, put_row, lifecycle_checkpoint, request_metadata,
}
use specrelay.Gate.Protect.{
  transition_lifecycle-one_winner, transition_lifecycle-terminal, transition_lifecycle-replay,
}
use specrelay.Gate.Audit.{trail, IsAudited, transition_lifecycle-IsAudited}
use specrelay.Store.{JobColumns, Job}
use specrelay.Claim.{worker_of}
use specrelay.Queue.{complete_request, cancel_request}
use specrelay.Examples.Rows.{running_db, job_row, worker_name}

abbrev versioned : LifecycleTransitionRequest JobColumns
versioned = let q = complete_request 11 worker_name in record q { expected_version = 1 }

abbrev completed : Table JobColumns
completed = elim (transition_lifecycle job worker_of 50 versioned running_db.jobs) [
  | ok (t, i) ↦ t
  | err e ↦ running_db.jobs
]

abbrev completed_job : Job
completed_job = elim (find_row 11 completed.rows) [
  | some r ↦ r
  | none ↦ job_row 11 2 queued worker_name
]

-- A competing request for the same version of the job.
abbrev rival : LifecycleTransitionRequest JobColumns
rival = let q = cancel_request 11 worker_name in record q { expected_version = 1 }

first_write :
    transition_lifecycle job worker_of 50 versioned running_db.jobs ≡ ok (completed, false)
unfolding complete_request cancel_request transition_lifecycle transition_found transition_row
    check_request write_row apply_step put_row find_row lifecycle_checkpoint request_metadata
    validate_lifecycle_metadata is_terminal_status is_recoverable_terminal_status
    evaluate_transition evaluate_in status_beq status_sources recovery_hints is_blank
first_write = refl

second_write : transition_lifecycle job worker_of 60 rival completed ≡ ok (completed, true)
unfolding complete_request cancel_request transition_lifecycle transition_found transition_row
    check_request write_row apply_step put_row find_row lifecycle_checkpoint request_metadata
    validate_lifecycle_metadata is_terminal_status is_recoverable_terminal_status
    evaluate_transition evaluate_in status_beq status_sources recovery_hints is_blank
second_write = refl

transition_lifecycle-one_winner_example : (completed ≡ completed) × (true ≡ true)
unfolding complete_request cancel_request
transition_lifecycle-one_winner_example =
    transition_lifecycle-one_winner job worker_of 50 60 versioned rival running_db.jobs completed
      completed true refl (omega arith) refl first_write second_write

transition_lifecycle-terminal_example : (completed ≡ completed) × (true ≡ true)
unfolding complete_request cancel_request transition_lifecycle transition_found transition_row
    check_request write_row apply_step put_row find_row lifecycle_checkpoint request_metadata
    validate_lifecycle_metadata is_terminal_status is_recoverable_terminal_status
    evaluate_transition evaluate_in status_beq status_sources recovery_hints is_blank
transition_lifecycle-terminal_example =
    transition_lifecycle-terminal job worker_of 60 rival completed completed true completed_job refl
      refl refl refl second_write

transition_lifecycle-replay_example :
    transition_lifecycle job worker_of 60 versioned completed ≡ ok (completed, true)
transition_lifecycle-replay_example =
    transition_lifecycle-replay job worker_of 50 60 versioned running_db.jobs completed first_write

running_db-IsAudited : IsAudited running_db.jobs
unfolding trail
running_db-IsAudited = record { history = λ id r found. tt }

transition_lifecycle-IsAudited_example : IsAudited completed
transition_lifecycle-IsAudited_example =
    transition_lifecycle-IsAudited job worker_of 50 versioned running_db.jobs completed false
      first_write running_db-IsAudited

evaluate_transition-applied_iff_example :
    (evaluate_transition (resource_name job) running succeeded ≡ ok applied)
    ↔ (contains (destinations (lifecycle_contracts job).transitions running) succeeded ≡ true)
evaluate_transition-applied_iff_example = evaluate_transition-applied_iff job running succeeded

cancelling-evaluate_transition_example : is_terminal_status job cancelled ≡ true
unfolding is_cancelling_status lifecycle_contracts status_beq evaluate_transition evaluate_in
    destinations text_beq parse_lifecycle_resource evaluate_parsed trim_space to_lower
cancelling-evaluate_transition_example =
    cancelling-evaluate_transition job cancelling cancelled refl refl

known-HasEnd_example : HasEnd job queued
unfolding lifecycle_contracts status_beq
known-HasEnd_example = known-HasEnd job queued refl
