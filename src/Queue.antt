-- ===== src/Queue.antt =====
-- backend/internal/repository/queue.go and cancellation.go: what a worker does with a job that it
-- has claimed, each function one transaction.
pub mod Sound
pub mod Keeps
pub mod Steps
pub mod Owner
use specrelay.Prelude.{
  ℕ, ◌+◌, ◌-◌, ◌*◌, ◌^◌, min, Bool, true, false, not, ◌&&◌, none, some, List, [], ◌∷◌, ◌==◌,
  if◌then◌else◌, ltb, Text, text, nat_eq,
}
use specrelay.Failure.{Result, ok, not_found, ◌>>=◌}
use specrelay.Status.{
  Status, status_eq, queued, retry_wait, leased, running, succeeded, failed, cancelled, planning,
  plan_failed,
}
use specrelay.Metadata.{object, string_value, number_value, duration_value}
use specrelay.Gate.{LifecycleTransitionRequest}
use specrelay.Store.{JobColumns, plan_generate, Intake, Event, Job, Db, job_type_beq}
use specrelay.Claim.{worker_checkpoint, transition_job, read_job}

abbrev pub second : ℕ
second = 1_000_000_000

-- The part that the requests of this file share: the owner is required, and another status, another
-- owner or no such job is ErrNotFound.
abbrev worker_request : Text → ℕ → Status → List Status → LifecycleTransitionRequest JobColumns
worker_request worker id status expected = record {
  resource_id = id;
  expected_version = 0;
  status = status;
  status_source = text "worker";
  reason_code = text "worker_started";
  reason = text "worker started job execution";
  last_activity_at = 0;
  recovery_hint = text "automatic_retry";
  execution_checkpoint = worker_checkpoint worker;
  related_job_id = none;
  related_run_id = none;
  expected_status = none;
  expected_statuses = expected;
  require_worker_id = some worker;
  allow_non_contract = false;
  allow_terminal = false;
  ignore_terminal = false;
  mismatch_error = some not_found;
  fields = λ c. c;
}

unfoldable pub running_request : Text → ℕ → LifecycleTransitionRequest JobColumns
running_request worker id = worker_request worker id running (leased ∷ [])

unfoldable pub mark_job_running : ℕ → ℕ → Text → Db → Result (Db × Job)
mark_job_running now id worker db = do
  (db', idempotent) ← transition_job now (running_request worker id) db
  started ← read_job id db'
  ok (db', started)

-- The claim is undone: no owner, no lease, one attempt less (`GREATEST(attempt-1,0)`).
abbrev pub unclaim : ℕ → JobColumns → JobColumns
unclaim run_after c = record c {
  worker_id = [];
  lease_expires_at = none;
  run_after = run_after;
  attempt = c.attempt - 1;
}

unfoldable pub defer_request : ℕ → ℕ → Text → ℕ → LifecycleTransitionRequest JobColumns
defer_request now id worker delay =
    let q = worker_request worker id queued (leased ∷ running ∷ []) in
    record q {
      reason_code = text "automatic_retry";
      reason = text "workspace is busy; job returned to queue";
      allow_non_contract = true;
      execution_checkpoint =
          object
            ((text "workerId", string_value worker) ∷ (text "delay", duration_value delay) ∷ []);
      fields = λ c. record (unclaim (now + delay) c) { last_error = [] };
    }

-- `delay` is the duration after the code has set a negative one to 0.
unfoldable pub defer_job_for_workspace : ℕ → ℕ → Text → ℕ → Db → Result Db
defer_job_for_workspace now id worker delay db = do
  (db', idempotent) ← transition_job now (defer_request now id worker delay) db
  ok db'

unfoldable pub release_request : ℕ → ℕ → Text → LifecycleTransitionRequest JobColumns
release_request now id worker =
    let q = worker_request worker id queued (leased ∷ []) in
    record q {
      status_source = text "backend";
      reason_code = text "backend_shutdown";
      reason = text "worker released leased job before execution";
      fields = unclaim now;
    }

unfoldable pub release_leased_job : ℕ → ℕ → Text → Db → Result Db
release_leased_job now id worker db = do
  (db', idempotent) ← transition_job now (release_request now id worker) db
  ok db'

unfoldable pub complete_request : ℕ → Text → LifecycleTransitionRequest JobColumns
complete_request id worker =
    let q = worker_request worker id succeeded (running ∷ []) in
    record q {
      reason_code = text "completed";
      reason = text "worker completed job";
      recovery_hint = text "none";
      ignore_terminal = true;
      fields = λ c. record c { lease_expires_at = none };
    }

unfoldable pub complete_job : ℕ → ℕ → Text → Db → Result Db
complete_job now id worker db = do
  (db', idempotent) ← transition_job now (complete_request id worker) db
  ok db'

unfoldable pub cancel_request : ℕ → Text → LifecycleTransitionRequest JobColumns
cancel_request id worker =
    let q = worker_request worker id cancelled (leased ∷ running ∷ []) in
    record q {
      reason_code = text "user_cancelled";
      reason = text "worker acknowledged job cancellation";
      recovery_hint = text "none";
      allow_non_contract = true;
      ignore_terminal = true;
      fields = λ c. record c { lease_expires_at = none };
    }

unfoldable pub cancel_job : ℕ → ℕ → Text → Db → Result Db
cancel_job now id worker db = do
  (db', idempotent) ← transition_job now (cancel_request id worker) db
  ok db'

-- `time.Duration(1<<min(attempt, 6)) * time.Second`.
unfoldable pub backoff : ℕ → ℕ
backoff attempt = 2 ^ min attempt 6 * second

-- Whether FailJob schedules another attempt.
abbrev pub retries : Job → Bool → Bool
retries j retryable = retryable && ltb j.columns.attempt j.columns.max_attempts

-- `wall` is the clock of the process, `j` the job as the worker read it.
unfoldable pub fail_request : ℕ → Job → Text → Text → Bool → LifecycleTransitionRequest JobColumns
unfolding backoff
fail_request wall j worker message retryable =
    let again = retries j retryable in
    let q =
      worker_request worker j.id (if again then retry_wait else failed) (leased ∷ running ∷ []) in
    record q {
      reason_code = if again then text "automatic_retry" else text "execution_failed";
      reason = message;
      recovery_hint = if again then text "automatic_retry" else text "none";
      execution_checkpoint = object (
          (text "workerId", string_value worker)
          ∷ (text "attempt", number_value j.columns.attempt)
          ∷ (text "maxAttempts", number_value j.columns.max_attempts)
          ∷ []);
      allow_non_contract = true;
      ignore_terminal = true;
      fields = λ c. record c {
        last_error = message;
        run_after = if again then wall + backoff j.columns.attempt else wall;
        lease_expires_at = none;
      };
    }

-- `UPDATE intakes SET status='plan_failed' … WHERE id=$1 AND status='planning'`, and its event.
unfoldable pub fail_intake : ℕ → Db → Db
fail_intake id db = record db { intakes = update db.intakes; events = noted db.intakes }
  where
    update : List Intake → List Intake
    update [] = []
    update (i ∷ is) =
        if i.id == id && i.status == planning
        then (record i { status = plan_failed; version = i.version + 1 }) ∷ is
        else i ∷ update is

    noted : List Intake → List Event
    noted [] = db.events
    noted (i ∷ is) =
        if i.id == id && i.status == planning
        then record {
          event_type = text "intake.plan_failed";
          project_id = i.project_id;
          aggregate_id = id;
          resource_version = i.version + 1;
        }
          ∷ db.events
        else noted is

unfoldable pub fail_job : ℕ → ℕ → Job → Text → Text → Bool → Db → Result Db
fail_job now wall j worker message retryable db = do
  (db', idempotent) ← transition_job now (fail_request wall j worker message retryable) db
  ok (
      if not (retries j retryable) && job_type_beq j.columns.job_type plan_generate
      then fail_intake j.columns.aggregate_id db'
      else db')
