-- ===== src/Examples/Rows.antt =====
-- A small database: one project, a plan with two tasks, and their jobs.
use specrelay.Prelude.{ℕ, true, false, Option, none, some, List, [], ◌∷◌, Text, text}
use specrelay.Status.{Status, queued, running, succeeded, pending, planned}
use specrelay.Metadata.{object, LifecycleMetadata}
use specrelay.Store.{
  problem_list, task_execute, task_payload, task_execution, no_provider, config, AcceptanceResult,
  Job, PlanTask, Plan, Db, WorkspaceLease,
}

abbrev pub metadata : LifecycleMetadata
metadata = record {
  status_source = text "worker";
  reason_code = text "created";
  reason = text "created";
  last_activity_at = 1;
  recovery_hint = text "none";
  execution_checkpoint = object [];
}

abbrev pub job_row : ℕ → ℕ → Status → Text → Job
job_row id task status worker = record {
  id = id;
  project_id = 1;
  status = status;
  version = 1;
  metadata = metadata;
  columns = record {
    job_type = task_execute;
    aggregate_type = text "task";
    aggregate_id = task;
    priority = 5;
    run_after = 10;
    worker_id = worker;
    lease_expires_at = none;
    attempt = 0;
    max_attempts = 3;
    last_error = [];
    created_at = id;
    payload = task_payload task 7 [] false;
    idempotency_key = task_execution task id;
  };
}

abbrev pub passed_result : AcceptanceResult
passed_result = record {
  status = text "passed";
  items = (record { key = text "a"; status = text "passed"; evidence = []; reason = [] }) ∷ [];
  evidence = [];
  reason = [];
}

abbrev pub task_row :
    ℕ → Text → Text → List Text → Status → Text → Option AcceptanceResult → PlanTask
task_row id key type deps status acceptance result = record {
  id = id;
  project_id = 1;
  status = status;
  version = 1;
  metadata = metadata;
  columns = record {
    plan_id = 7;
    position = id;
    execution_order = id;
    task_key = key;
    title = key;
    task_type = type;
    dependency_keys = some deps;
    acceptance_definition = some (text "a" ∷ []);
    acceptance_status = acceptance;
    acceptance_result = result;
    session_id = [];
    started_at = none;
    finished_at = none;
  };
}

abbrev pub first_task : PlanTask
first_task =
    task_row 1 (text "T1") (text "implementation") [] succeeded (text "passed") (some passed_result)

abbrev pub last_task : PlanTask
last_task =
    task_row 2 (text "T2") (text "final_validation") (text "T1" ∷ []) pending (text "pending") none

abbrev pub running_plan : Plan
running_plan = record {
  id = 7;
  project_id = 1;
  status = running;
  version = 1;
  metadata = metadata;
  columns = record {
    intake_id = 5;
    config_snapshot = config no_provider [];
    is_executable = true;
    compatibility_mode = false;
    validation_problems = problem_list [];
    execution_started_at = some 3;
    created_at = 2;
  };
}

abbrev pub db_with : List Job → Db
db_with jobs = record {
  projects = (record { id = 1; automation_enabled = true; max_retries = 2 }) ∷ [];
  intakes = (record { id = 5; project_id = 1; status = planned; version = 1 }) ∷ [];
  plans = record { rows = running_plan ∷ []; audit = [] };
  tasks = record { rows = first_task ∷ last_task ∷ []; audit = [] };
  jobs = record { rows = jobs; audit = [] };
  leases = [];
  events = [];
  snapshots =
      (record {
        plan_id = 7;
        sequence = 1;
        snapshot_kind = text "generation_baseline";
        task_id = none;
      })
      ∷ [];
  drift_audits = [];
}

abbrev pub worker_name : Text
worker_name = text "w"

abbrev pub waiting_db : Db
waiting_db = db_with (job_row 11 2 queued [] ∷ [])

abbrev pub running_db : Db
running_db = db_with (job_row 11 2 running worker_name ∷ [])

abbrev pub lease_row : WorkspaceLease
lease_row = record {
  project_id = 1;
  workspace = text "/p";
  worker_id = worker_name;
  job_id = 11;
  expires_at = 100;
  version = 1;
}
