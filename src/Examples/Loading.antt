-- ===== src/Examples/Loading.antt =====
-- An old plan that is loaded, a text that is cut and a provider that is stored, at concrete values.
use specrelay.Load.{load_plan_execution_state}
use specrelay.Gate.{find_row}
use specrelay.Status.{succeeded, ready}
use specrelay.Blocker.{PlanExecutionState}
use specrelay.Prelude.{◌≡◌, refl, true, false, some, [], ◌∷◌, text, nat_eq}
use specrelay.Checkpoint.{bound_checkpoint_text, write_runes}
use specrelay.Failure.{Result, ok, err}
use specrelay.Store.{Plan, no_array, no_config, Db}
use specrelay.Gate.Keys.{IsKeyed}
use specrelay.Load.Ordered.{load_plan_execution_state-ok}
use specrelay.Checkpoint.Bounds.{IsBounded, bound_checkpoint_text-IsBounded}
use specrelay.Examples.Rows.{db_with, running_plan, last_task, task_row}

abbrev waiting : Db
waiting = db_with []

abbrev legacy_plan : Plan
legacy_plan = record running_plan {
  columns = record running_plan.columns { compatibility_mode = true };
}

-- An old plan whose first task waits for its acceptance result.
abbrev legacy_db : Db
legacy_db = record waiting {
  plans = record waiting.plans { rows = legacy_plan ∷ [] };
  tasks = record waiting.tasks {
    rows =
        last_task
        ∷ task_row 1 (text "T1") (text "implementation") [] succeeded (text "pending")
            (some (record { status = text "pending"; items = []; evidence = []; reason = [] }))
        ∷ [];
  };
}

abbrev loaded_or : Result (Db × PlanExecutionState) → Db → Db
loaded_or (ok (db, s)) _ = db
loaded_or (err e) db = db

abbrev state_or : Result (Db × PlanExecutionState) → PlanExecutionState
state_or (ok (db, s)) = s
state_or (err e) = record {
  plan_id = 0;
  project_id = 0;
  version = 0;
  status = ready;
  is_executable = false;
  compatibility_mode = false;
  validation_problems = no_array;
  config_snapshot = no_config;
  tasks = [];
}

legacy-IsKeyed : IsKeyed legacy_db.tasks.rows
unfolding find_row
legacy-IsKeyed = (refl, (refl, tt))

abbrev legacy_loaded : Db
legacy_loaded = loaded_or (load_plan_execution_state 7 legacy_db) legacy_db

abbrev legacy_state : PlanExecutionState
legacy_state = state_or (load_plan_execution_state 7 legacy_db)

-- Two of the three lines fit.
bound_checkpoint_text-IsBounded_example : IsBounded 100 2 0 0 (text "a\nb\nc") (text "a\nb\n") true
unfolding bound_checkpoint_text write_runes
bound_checkpoint_text-IsBounded_example = bound_checkpoint_text-IsBounded (text "a\nb\nc") 100 2

load_plan_execution_state-ok_example :
    (db' : Db) × ((s : PlanExecutionState) × (load_plan_execution_state 7 legacy_db ≡ ok (db', s)))
unfolding find_row
load_plan_execution_state-ok_example =
    load_plan_execution_state-ok 7 legacy_db legacy_plan legacy-IsKeyed refl
