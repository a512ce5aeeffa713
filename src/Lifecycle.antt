-- ===== src/Lifecycle.antt =====
-- backend/internal/domain/models.go: the lifecycle contracts, the transition evaluator and the
-- status classes. A Go map from a status to a set is an association list of lists; a missing key
-- has the empty set.
pub mod Table
pub mod Absorbing
pub mod Progress
use specrelay.Prelude.{
  Bool, ◌||◌, Option, none, some, List, [], ◌∷◌, ◌==◌, if◌then◌else◌, contains, Text, text,
  text_beq, text_eq,
}
use specrelay.Prelude.Words.{trim_space, to_lower}
use specrelay.Failure.{Result, ok, err, guard, invalid_transition, ◌>>◌}
use specrelay.Status.{
  Status, status_eq, generating, ready, running, validating, blocked, cancelling, completed, failed,
  interrupted, cancelled, pending, queued, succeeded, leased, retry_wait, starting, timed_out,
  open_status, planning, planned, plan_failed, closed,
}

pub data LifecycleResource : Type 0 where
  plan task job agent_run : LifecycleResource

pub data Disposition : Type 0 where
  applied idempotent : Disposition

abbrev pub StatusSet : Type 0
StatusSet = List Status

abbrev pub TransitionSet : Type 0
TransitionSet = List (Status × StatusSet)

-- `transitions[from]`.
unfoldable pub destinations : TransitionSet → Status → StatusSet
destinations [] from = []
destinations ((s, ds) ∷ rest) from = if s == from then ds else destinations rest from

pub record LifecycleContract : Type 0 where
  pub known : StatusSet
  pub transitions : TransitionSet
  pub terminal : StatusSet
  pub recoverable : StatusSet
  pub cancelling_set : StatusSet

abbrev plan_contract : LifecycleContract
plan_contract = record {
  known =
      generating ∷ ready ∷ running ∷ validating ∷ blocked ∷ cancelling ∷ completed ∷ failed
      ∷ interrupted ∷ cancelled ∷ [];
  transitions =
      (generating, ready ∷ failed ∷ cancelling ∷ interrupted ∷ [])
      ∷ (ready, running ∷ cancelled ∷ [])
      ∷ (running, validating ∷ completed ∷ failed ∷ blocked ∷ cancelling ∷ interrupted ∷ [])
      ∷ (validating, completed ∷ failed ∷ blocked ∷ cancelling ∷ interrupted ∷ [])
      ∷ (blocked, ready ∷ running ∷ cancelled ∷ [])
      ∷ (cancelling, cancelled ∷ interrupted ∷ [])
      ∷ (interrupted, generating ∷ ready ∷ running ∷ validating ∷ cancelled ∷ [])
      ∷ [];
  terminal = completed ∷ failed ∷ interrupted ∷ cancelled ∷ [];
  recoverable = interrupted ∷ [];
  cancelling_set = cancelling ∷ [];
}

abbrev task_contract : LifecycleContract
task_contract = record {
  known =
      pending ∷ queued ∷ running ∷ cancelling ∷ succeeded ∷ failed ∷ interrupted ∷ cancelled ∷ [];
  transitions =
      (pending, queued ∷ cancelled ∷ [])
      ∷ (queued, running ∷ pending ∷ cancelled ∷ interrupted ∷ [])
      ∷ (running, succeeded ∷ failed ∷ cancelling ∷ interrupted ∷ [])
      ∷ (cancelling, cancelled ∷ interrupted ∷ [])
      ∷ (interrupted, pending ∷ queued ∷ cancelled ∷ [])
      ∷ [];
  terminal = succeeded ∷ failed ∷ interrupted ∷ cancelled ∷ [];
  recoverable = interrupted ∷ [];
  cancelling_set = cancelling ∷ [];
}

abbrev job_contract : LifecycleContract
job_contract = record {
  known =
      queued ∷ leased ∷ running ∷ retry_wait ∷ cancelling ∷ succeeded ∷ failed ∷ interrupted
      ∷ cancelled ∷ [];
  transitions =
      (queued, leased ∷ cancelled ∷ [])
      ∷ (retry_wait, queued ∷ leased ∷ cancelled ∷ [])
      ∷ (leased, running ∷ queued ∷ cancelled ∷ interrupted ∷ [])
      ∷ (running, succeeded ∷ retry_wait ∷ failed ∷ cancelling ∷ interrupted ∷ [])
      ∷ (cancelling, cancelled ∷ interrupted ∷ [])
      ∷ (interrupted, queued ∷ cancelled ∷ [])
      ∷ [];
  terminal = succeeded ∷ failed ∷ interrupted ∷ cancelled ∷ [];
  recoverable = interrupted ∷ [];
  cancelling_set = cancelling ∷ [];
}

abbrev agent_run_contract : LifecycleContract
agent_run_contract = record {
  known =
      starting ∷ running ∷ cancelling ∷ succeeded ∷ failed ∷ interrupted ∷ cancelled ∷ timed_out
      ∷ [];
  transitions =
      (starting, running ∷ failed ∷ cancelling ∷ interrupted ∷ [])
      ∷ (running, succeeded ∷ failed ∷ cancelling ∷ interrupted ∷ [])
      ∷ (cancelling, cancelled ∷ interrupted ∷ [])
      ∷ (interrupted, starting ∷ cancelled ∷ [])
      ∷ [];
  terminal = succeeded ∷ failed ∷ interrupted ∷ cancelled ∷ timed_out ∷ [];
  recoverable = interrupted ∷ [];
  cancelling_set = cancelling ∷ [];
}

unfoldable pub lifecycle_contracts : LifecycleResource → LifecycleContract
lifecycle_contracts plan = plan_contract
lifecycle_contracts task = task_contract
lifecycle_contracts job = job_contract
lifecycle_contracts agent_run = agent_run_contract

unfoldable pub intake_transitions : TransitionSet
intake_transitions =
    (open_status, planning ∷ closed ∷ [])
    ∷ (planning, planned ∷ plan_failed ∷ open_status ∷ [])
    ∷ (planned, closed ∷ [])
    ∷ (plan_failed, planning ∷ closed ∷ [])
    ∷ []

unfoldable pub intake_statuses : StatusSet
intake_statuses = open_status ∷ planning ∷ planned ∷ plan_failed ∷ closed ∷ []

unfoldable pub parse_lifecycle_resource : Text → Option LifecycleResource
unfolding trim_space to_lower text_beq
parse_lifecycle_resource resource =
    let r = to_lower (trim_space resource) in
    if r == text "plan"
    then some plan
    else if r == text "task"
    then some task
    else if r == text "job"
    then some job
    else if r == text "agent_run" || r == text "agent-run" || r == text "agentrun"
    then some agent_run
    else none

-- The body that `EvaluateTransition` runs for an intake and for the other resources alike.
unfoldable pub evaluate_in : StatusSet → TransitionSet → Status → Status → Result Disposition
unfolding destinations
evaluate_in known transitions from to = do
  guard (contains known from) invalid_transition
  guard (contains known to) invalid_transition
  if from == to
      then ok idempotent
      else if contains (destinations transitions from) to
      then ok applied
      else err invalid_transition

-- What `EvaluateTransition` does with the outcome of `ParseLifecycleResource`.
unfoldable pub evaluate_parsed : Option LifecycleResource → Status → Status → Result Disposition
unfolding evaluate_in lifecycle_contracts
evaluate_parsed none from to = err invalid_transition
evaluate_parsed (some r) from to =
    let contract = lifecycle_contracts r in evaluate_in contract.known contract.transitions from to

unfoldable pub evaluate_transition : Text → Status → Status → Result Disposition
unfolding evaluate_in intake_statuses intake_transitions parse_lifecycle_resource evaluate_parsed
evaluate_transition resource from to =
    if resource == text "intake"
    then evaluate_in intake_statuses intake_transitions from to
    else evaluate_parsed (parse_lifecycle_resource resource) from to

-- `string(resource)`.
abbrev pub resource_name : LifecycleResource → Text
resource_name plan = text "plan"
resource_name task = text "task"
resource_name job = text "job"
resource_name agent_run = text "agent_run"

unfoldable pub is_terminal_status : LifecycleResource → Status → Bool
unfolding lifecycle_contracts
is_terminal_status resource status = contains (lifecycle_contracts resource).terminal status

unfoldable pub is_recoverable_terminal_status : LifecycleResource → Status → Bool
unfolding lifecycle_contracts
is_recoverable_terminal_status resource status =
    contains (lifecycle_contracts resource).recoverable status

unfoldable pub is_cancelling_status : LifecycleResource → Status → Bool
unfolding lifecycle_contracts
is_cancelling_status resource status = contains (lifecycle_contracts resource).cancelling_set status
