-- ===== src/Recovery.antt =====
-- backend/internal/repository/queue.go: the decisions of `ReconcileRuntimeState` about one job or one
-- agent run whose owner may have vanished. The evidence is an argument: the code collects it from
-- the database, the log file and the operating system.
pub mod Converge
pub mod Settled
pub mod Requeue
use specrelay.Prelude.{
  ℕ, Bool, true, false, not, ◌&&◌, ◌||◌, Option, none, some, [], ◌∷◌, ◌==◌, if◌then◌else◌, contains,
  Text, text, text_eq, nat_eq,
}
use specrelay.Prelude.Words.{trim_space}
use specrelay.Status.{
  Status, status_eq, running, cancelling, cancelled, interrupted, succeeded, failed, pending,
  validating,
}
use specrelay.Store.{JobType, task_execute, job_type_beq}

-- `TaskStatus` and `PlanStatus` are empty strings where the join finds no row.
pub record RecoveryJob : Type 0 where
  pub id : ℕ
  pub project_id : ℕ
  pub aggregate_id : ℕ
  pub plan_id : Option ℕ
  pub job_type : JobType
  pub status : Status
  pub worker_id : Text
  pub lease_expires_at : Option ℕ
  pub reason_code : Text
  pub task_status : Option Status
  pub plan_status : Option Status

pub record RecoveryRun : Type 0 where
  pub status : Status
  pub pid : Option ℕ
  pub owner_instance_id : Text
  pub reason_code : Text

pub record RecoveryEvidence : Type 0 where
  pub owner_id : Text
  pub owner_fresh : Bool
  pub job_lease_valid : Bool
  pub workspace_lease_valid : Bool
  pub workspace_lock_owned : Bool
  pub process_known : Bool
  pub process_alive : Bool
  pub heartbeat_fresh : Bool

pub record RecoveryOutcome : Type 0 where
  pub status : Status
  pub reason_code : Text
  pub reason : Text
  pub recovery_hint : Text
  pub failure : Text

-- The part of a worker's name before its first colon (`strings.Cut`).
unfoldable pub before_colon : Text → Option Text
before_colon [] = none
before_colon (c ∷ s) =
    if c == b':' then some [] else elim (before_colon s) [ none ↦ none | some t ↦ some (c ∷ t) ]

unfoldable pub worker_instance_id : Text → Text
unfolding before_colon trim_space
worker_instance_id worker = elim (before_colon (trim_space worker)) [
  | none ↦ []
  | some t ↦ trim_space t
]

abbrev pub is_status : Status → Option Status → Bool
is_status s none = false
is_status s (some t) = t == s

unfoldable pub recovery_candidate_active : Option RecoveryRun → RecoveryEvidence → Bool
recovery_candidate_active run e =
    let owner_healthy = if e.owner_id == [] then e.job_lease_valid else e.owner_fresh in
    if e.process_known && e.process_alive then true else elim run [
      | none ↦ owner_healthy && e.job_lease_valid
      | some r ↦
          if not (e.owner_id == [])
          then owner_healthy && e.heartbeat_fresh
          else e.job_lease_valid && e.workspace_lease_valid && e.workspace_lock_owned
            && e.heartbeat_fresh
    ]

-- The two reason codes that record a wish to cancel.
unfoldable pub cancel_reason : Text → Bool
cancel_reason code = code == text "cancellation_requested" || code == text "user_cancelled"

unfoldable pub recovery_cancellation_intent : RecoveryJob → Option RecoveryRun → Bool
unfolding cancel_reason
recovery_cancellation_intent job run =
    job.status == cancelling
    || is_status cancelling job.task_status
    || is_status cancelled job.task_status
    || is_status cancelling job.plan_status
    || is_status cancelled job.plan_status
    || cancel_reason job.reason_code
    || elim run [ none ↦ false | some r ↦ r.status == cancelling || cancel_reason r.reason_code ]

abbrev pub has_no_pid : Option RecoveryRun → Bool
has_no_pid none = false
has_no_pid (some r) = elim r.pid [ none ↦ true | some p ↦ false ]

unfoldable pub choose_recovery_outcome :
    Option RecoveryRun → Bool → RecoveryEvidence → RecoveryOutcome
choose_recovery_outcome run cancel_intent e =
    if cancel_intent
    then record {
      status = cancelled;
      reason_code = text "user_cancelled";
      reason = text "persisted cancellation intent was confirmed after execution lost contact";
      recovery_hint = text "none";
      failure = text "cancellation";
    }
    else if has_no_pid run
    then record {
      status = cancelled;
      reason_code = text "process_lost";
      reason = text "runtime owner disappeared before the agent process was durably started";
      recovery_hint = text "automatic_retry";
      failure = text "startup_abandoned";
    }
    else record {
      status = interrupted;
      reason_code = text "process_lost";
      reason =
          if e.process_known && not e.process_alive
          then text "persisted agent process is no longer running"
          else text "agent process exited or durable runtime and lease evidence was lost";
      recovery_hint = text "retry_from_start";
      failure = text "process_interrupted";
    }

-- What one pass of the loop over the jobs does with a candidate; `none` is evidence that could not
-- be collected.
pub data Decision : Type 0 where
  skip : Decision
  requeue : Decision
  converge : RecoveryOutcome → Decision

unfoldable pub decide_job : RecoveryJob → Option RecoveryRun → Option RecoveryEvidence → Decision
decide_job job run none = skip
decide_job job run (some e) =
    let cancel_intent = recovery_cancellation_intent job run in
    if recovery_candidate_active run e
    then skip
    else if not cancel_intent
        && elim run [ none ↦ true | some r ↦ false ]
        && not (is_status running job.task_status)
        && not (is_status cancelling job.task_status)
    then requeue
    else converge (choose_recovery_outcome run cancel_intent e)

-- The same for an agent run that has no live job.
unfoldable pub decide_standalone_run : RecoveryRun → Option RecoveryEvidence → Decision
unfolding choose_recovery_outcome
decide_standalone_run run none = skip
decide_standalone_run run (some e) =
    if e.process_known && e.process_alive || e.owner_fresh && e.heartbeat_fresh
    then skip
    else converge (choose_recovery_outcome (some run) (run.status == cancelling) e)

-- `recoverPendingTask` of `convergeRecoveredTask`.
unfoldable pub recovers_pending_task : RecoveryOutcome → Bool
recovers_pending_task o =
    o.status == cancelled
    && o.reason_code == text "process_lost"
    && o.recovery_hint == text "automatic_retry"
