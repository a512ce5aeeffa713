-- ===== src/Store.antt =====
-- The tables of backend/internal/repository that the queue, the recovery and the scheduler read and
-- write (columns as in backend/internal/migrations/sql). A JSON column is its decoded value, `none`
-- where it does not decode. Times are in nanoseconds.
use specrelay.Prelude.{ℕ, Bool, true, false, Option, List, [], ◌∷◌, Text, contains}
use specrelay.Status.{Status, leased, running, status_eq}
use specrelay.Metadata.{JsonValue, RawObject}
use specrelay.Gate.{Row, Table}

pub data JobType : Type 0 where
  task_execute plan_generate : JobType

-- `{"taskId":…,"planId":…,"provider":…,"providerRequested":…}`, an empty provider being left out,
-- or another payload.
pub data JobPayload : Type 0 where
  task_payload : ℕ → ℕ → Text → Bool → JobPayload
  other_payload : RawObject → JobPayload

-- `task.execute:<task>:<version>`, or another key.
pub data IdempotencyKey : Type 0 where
  task_execution : ℕ → ℕ → IdempotencyKey
  other_key : Text → IdempotencyKey

pub record JobColumns : Type 0 where
  pub job_type : JobType
  pub aggregate_type : Text
  pub aggregate_id : ℕ
  pub priority : ℕ
  pub run_after : ℕ
  pub worker_id : Text  -- `coalesce(worker_id, '')`
  pub lease_expires_at : Option ℕ
  pub attempt : ℕ
  pub max_attempts : ℕ
  pub last_error : Text
  pub created_at : ℕ
  pub payload : JobPayload
  pub idempotency_key : IdempotencyKey

-- The evidence is the messages of its members.
pub record AcceptanceItemResult : Type 0 where
  pub key : Text
  pub status : Text
  pub evidence : List Text
  pub reason : Text

pub record AcceptanceResult : Type 0 where
  pub status : Text
  pub items : List AcceptanceItemResult
  pub evidence : List Text
  pub reason : Text

pub record TaskColumns : Type 0 where
  pub plan_id : ℕ
  pub position : ℕ
  pub execution_order : ℕ
  pub task_key : Text
  pub title : Text
  pub task_type : Text
  pub dependency_keys : Option (List Text)
  pub acceptance_definition : Option (List Text)  -- the keys of the required items
  pub acceptance_status : Text
  pub acceptance_result : Option AcceptanceResult
  pub session_id : Text
  pub started_at : Option ℕ
  pub finished_at : Option ℕ

pub record ValidationProblem : Type 0 where
  pub code : Text
  pub path : Text
  pub message : Text

-- No array, an array of problem records, or an array with a member that is none.
pub data StoredProblems : Type 0 where
  no_array : StoredProblems
  problem_list : List ValidationProblem → StoredProblems
  other_array : StoredProblems

-- The member executionAgentProvider of a configuration; a null counts as no member.
pub data ProviderMember : Type 0 where
  no_provider : ProviderMember
  text_provider : Text → ProviderMember
  bad_provider : ProviderMember

-- A configuration is empty, an object (that member, and the others) or no object.
pub data ConfigSnapshot : Type 0 where
  no_config : ConfigSnapshot
  config : ProviderMember → List (Text × JsonValue) → ConfigSnapshot
  bad_config : ConfigSnapshot

pub record PlanColumns : Type 0 where
  pub intake_id : ℕ
  pub config_snapshot : ConfigSnapshot
  pub is_executable : Bool
  pub compatibility_mode : Bool
  pub validation_problems : StoredProblems
  pub execution_started_at : Option ℕ
  pub created_at : ℕ

pub record Project : Type 0 where
  pub id : ℕ
  pub automation_enabled : Bool
  pub max_retries : ℕ  -- of project_settings, which checks that it is not negative

pub record Intake : Type 0 where
  pub id : ℕ
  pub project_id : ℕ
  pub status : Status
  pub version : ℕ

pub record Event : Type 0 where
  pub event_type : Text
  pub project_id : ℕ
  pub aggregate_id : ℕ
  pub resource_version : ℕ

pub record WorkspaceLease : Type 0 where
  pub project_id : ℕ
  pub workspace : Text
  pub worker_id : Text
  pub job_id : ℕ
  pub expires_at : ℕ
  pub version : ℕ

-- A row of plan_execution_snapshots, without what it records of the plan and of the workspace.
pub record Snapshot : Type 0 where
  pub plan_id : ℕ
  pub sequence : ℕ
  pub snapshot_kind : Text
  pub task_id : Option ℕ

-- A row of plan_drift_audits; a snapshot is named by its sequence number.
pub record DriftAudit : Type 0 where
  pub plan_id : ℕ
  pub action : Text
  pub original_snapshot : Option ℕ
  pub new_snapshot : Option ℕ

abbrev pub Job : Type 0
Job = Row JobColumns

abbrev pub PlanTask : Type 0
PlanTask = Row TaskColumns

abbrev pub Plan : Type 0
Plan = Row PlanColumns

-- `events`, `snapshots` and `drift_audits` have the newest first.
pub record Db : Type 0 where
  pub projects : List Project
  pub intakes : List Intake
  pub plans : Table PlanColumns
  pub tasks : Table TaskColumns
  pub jobs : Table JobColumns
  pub leases : List WorkspaceLease
  pub events : List Event
  pub snapshots : List Snapshot
  pub drift_audits : List DriftAudit

abbrev pub job_type_beq : JobType → JobType → Bool
job_type_beq task_execute task_execute = true
job_type_beq plan_generate plan_generate = true
job_type_beq _ _ = false

abbrev pub is_task_job : Job → Bool
is_task_job j = job_type_beq j.columns.job_type task_execute

-- `status IN ('leased','running')`.
abbrev pub in_flight : Status → Bool
in_flight s = contains (leased ∷ running ∷ []) s
