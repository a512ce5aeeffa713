-- ===== src/Gate.antt =====
-- backend/internal/repository/store.go: `transitionLifecycleTx`, the one write gate for status
-- changes, over a table of rows with columns `X` beside the lifecycle columns. A transaction that
-- returns an error is rolled back, so an error carries no store. The trigger of
-- backend/internal/migrations/sql/011_unified_lifecycle.sql that appends the audit row is part of
-- the write. The row is locked from the read to the write, so the write finds the status it read.
pub mod Rows
pub mod Keys
pub mod Moved
pub mod Protect
pub mod Audit
use specrelay.Prelude.{
  ℕ, ◌+◌, Bool, true, false, not, ◌&&◌, Option, none, some, List, [], ◌∷◌, ◌==◌, if◌then◌else◌,
  contains, ltb, Text, text, text_eq, nat_eq,
}
use specrelay.Prelude.Words.{trim_space}
use specrelay.Failure.{
  Failure, Result, ok, err, guard, version_conflict, not_found, invalid_transition,
  invalid_lifecycle_metadata, ◌>>=◌, ◌>>◌,
}
use specrelay.Status.{Status, status_eq}
use specrelay.Lifecycle.{
  LifecycleResource, job, agent_run, Disposition, evaluate_transition, resource_name,
  is_terminal_status, is_recoverable_terminal_status,
}
use specrelay.Metadata.{
  JsonValue, uuid_value, RawObject, absent, object, malformed, LifecycleMetadata,
  validate_lifecycle_metadata,
}

-- A row of plans, plan_tasks, jobs or agent_runs.
pub record Row (X : Type 0) : Type 0 where
  pub id : ℕ
  pub project_id : ℕ
  pub status : Status
  pub version : ℕ
  pub metadata : LifecycleMetadata
  pub columns : X

-- A row of lifecycle_transitions.
pub record LifecycleTransition : Type 0 where
  pub resource_id : ℕ
  pub project_id : ℕ
  pub resource_version : ℕ
  pub from_status : Status
  pub to_status : Status
  pub metadata : LifecycleMetadata

-- One of the four tables, with its audit rows, the newest first.
pub record Table (X : Type 0) : Type 0 where
  pub rows : List (Row X)
  pub audit : List LifecycleTransition

-- `ExpectedVersion` 0 and an empty `ExpectedStatuses` are no guard. `fields` is the effect of the
-- listed column updates on the row.
pub record LifecycleTransitionRequest (X : Type 0) : Type 0 where
  pub resource_id : ℕ
  pub expected_version : ℕ
  pub status : Status
  pub status_source : Text
  pub reason_code : Text
  pub reason : Text
  pub last_activity_at : ℕ
  pub recovery_hint : Text
  pub execution_checkpoint : RawObject
  pub related_job_id : Option ℕ
  pub related_run_id : Option ℕ
  pub expected_status : Option Status
  pub expected_statuses : List Status
  pub require_worker_id : Option Text
  pub allow_non_contract : Bool
  pub allow_terminal : Bool
  pub ignore_terminal : Bool
  pub mismatch_error : Option Failure
  pub fields : X → X

-- What a request does to the row it finds.
pub data Step (X : Type 0) : Type 0 where
  same : Step X
  moved : Row X → Step X

unfoldable pub find_row : {X : Type 0} → ℕ → List (Row X) → Option (Row X)
find_row id [] = none
find_row id (r ∷ rs) = if r.id == id then some r else find_row id rs

unfoldable pub put_row : {X : Type 0} → Row X → List (Row X) → List (Row X)
put_row r' [] = []
put_row r' (r ∷ rs) = if r.id == r'.id then r' ∷ rs else r ∷ put_row r' rs

-- `checkpoint[key] = id`, where there is an id.
abbrev set_member : Text → Option ℕ → List (Text × JsonValue) → List (Text × JsonValue)
set_member key none members = members
set_member key (some id) members = (key, uuid_value id) ∷ members

abbrev own_member : LifecycleResource → ℕ → List (Text × JsonValue) → List (Text × JsonValue)
own_member job id = set_member (text "jobId") (some id)
own_member agent_run id = set_member (text "agentRunId") (some id)
own_member _ id = λ members. members

abbrev mismatch : {X : Type 0} → LifecycleTransitionRequest X → Failure
mismatch q = elim q.mismatch_error [ none ↦ invalid_transition | some e ↦ e ]

-- `request.ExpectedStatus` stands for a list of one.
abbrev pub expected : {X : Type 0} → LifecycleTransitionRequest X → List Status
expected q = elim q.expected_status [ none ↦ q.expected_statuses | some s ↦ s ∷ [] ]

abbrev pub expects : List Status → Status → Bool
expects [] s = true
expects (e ∷ es) s = contains (e ∷ es) s

abbrev pub worker_fits : LifecycleResource → Option Text → Text → Bool
worker_fits resource none worker = true
worker_fits job (some w) worker = worker == w
worker_fits _ (some w) worker = false

-- Only a job has a worker to ask for: for another resource the request itself is invalid.
abbrev worker_error : {X : Type 0} → LifecycleResource → LifecycleTransitionRequest X → Failure
worker_error job q = mismatch q
worker_error _ q = invalid_transition

abbrev permits : Result Disposition → Result (Unit {0})
permits (ok d) = ok tt
permits (err e) = err e

module _ {X : Type 0} where
  abbrev checkpoint_members :
      LifecycleResource
      → LifecycleTransitionRequest X
      → List (Text × JsonValue)
      → List (Text × JsonValue)
  checkpoint_members resource q members = set_member (text "agentRunId") q.related_run_id (
      set_member (text "jobId") q.related_job_id (
        own_member resource q.resource_id
          (set_member (text "resourceId") (some q.resource_id) members)))

  unfoldable pub lifecycle_checkpoint :
      LifecycleResource → LifecycleTransitionRequest X → Result RawObject
  lifecycle_checkpoint resource q = elim q.execution_checkpoint [
    | absent ↦ ok (object (checkpoint_members resource q []))
    | object members ↦ ok (object (checkpoint_members resource q members))
    | malformed ↦ err invalid_lifecycle_metadata
  ]

  -- The metadata that the UPDATE writes; a zero activity time stands for the current time.
  unfoldable pub request_metadata : LifecycleTransitionRequest X → RawObject → ℕ → LifecycleMetadata
  request_metadata q checkpoint now = record {
    status_source = q.status_source;
    reason_code = q.reason_code;
    reason = trim_space q.reason;
    last_activity_at = if q.last_activity_at == 0 then now else q.last_activity_at;
    recovery_hint = q.recovery_hint;
    execution_checkpoint = checkpoint;
  }

  -- The guards between the terminal check and the write, in the order of the code.
  unfoldable pub check_request :
      LifecycleResource → (X → Text) → LifecycleTransitionRequest X → Row X → Result (Unit {0})
  check_request resource worker_id q r = do
    guard (not (ltb 0 q.expected_version && not (r.version == q.expected_version))) version_conflict
    guard (expects (expected q) r.status) (mismatch q)
    guard (worker_fits resource q.require_worker_id (worker_id r.columns)) (worker_error resource q)
    if q.allow_non_contract
        then ok tt
        else permits (evaluate_transition (resource_name resource) r.status q.status)

  -- The UPDATE, once every guard has passed.
  unfoldable pub write_row :
      LifecycleResource → ℕ → LifecycleTransitionRequest X → Row X → Result (Step X)
  unfolding lifecycle_checkpoint request_metadata
  write_row resource now q r = do
    checkpoint ← lifecycle_checkpoint resource q
    validate_lifecycle_metadata (request_metadata q checkpoint now)
    ok (
        moved (record r {
          status = q.status;
          version = r.version + 1;
          metadata = request_metadata q checkpoint now;
          columns = q.fields r.columns;
        }))

  unfoldable pub transition_row :
      LifecycleResource → (X → Text) → ℕ → LifecycleTransitionRequest X → Row X → Result (Step X)
  transition_row resource worker_id now q r =
      let update = check_request resource worker_id q r >> write_row resource now q r in
      if r.status == q.status
      then ok same
      else if is_terminal_status resource r.status && not q.allow_terminal
      then (if q.ignore_terminal
          then ok same
          else if is_recoverable_terminal_status resource r.status
          then update
          else err invalid_transition)
      else update

  -- The trigger's row.
  abbrev audit_row : Row X → Row X → LifecycleTransition
  audit_row r r' = record {
    resource_id = r'.id;
    project_id = r'.project_id;
    resource_version = r'.version;
    from_status = r.status;
    to_status = r'.status;
    metadata = r'.metadata;
  }

  -- The table after a step, and whether the request was idempotent.
  unfoldable pub apply_step : Table X → Row X → Step X → Table X × Bool
  unfolding put_row
  apply_step t r same = (t, true)
  apply_step t r (moved r') =
      (record t { rows = put_row r' t.rows; audit = audit_row r r' ∷ t.audit }, false)

  -- The rest of the transaction, given what the locking SELECT found.
  unfoldable pub transition_found :
      LifecycleResource
      → (X → Text)
      → ℕ
      → LifecycleTransitionRequest X
      → Table X
      → Option (Row X)
      → Result (Table X × Bool)
  transition_found resource worker_id now q t none = err not_found
  transition_found resource worker_id now q t (some r) =
      transition_row resource worker_id now q r >>= λ step. ok (apply_step t r step)

  unfoldable pub transition_lifecycle :
      LifecycleResource
      → (X → Text)
      → ℕ
      → LifecycleTransitionRequest X
      → Table X
      → Result (Table X × Bool)
  transition_lifecycle resource worker_id now q t =
      transition_found resource worker_id now q t (find_row q.resource_id t.rows)
