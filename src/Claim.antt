-- ===== src/Claim.antt =====
-- backend/internal/repository/queue.go: `ClaimJob`. The candidate query and the write are one
-- transaction; `locked` names the candidates that `SKIP LOCKED` passes over. The query reads `seen`,
-- the snapshot of its statement, which may be older than the tables that the write meets.
pub mod Select
use specrelay.Prelude.{
  ℕ, ◌+◌, Bool, true, false, not, ◌&&◌, ◌||◌, Option, none, some, List, [], ◌∷◌, ◌==◌,
  if◌then◌else◌, contains, ltb, leb, Text, text, text_eq, nat_eq,
}
use specrelay.Failure.{Result, ok, err, not_found, no_rows, ◌>>=◌}
use specrelay.Status.{status_eq, queued, retry_wait, leased, running, succeeded, validating}
use specrelay.Lifecycle.{job}
use specrelay.Metadata.{RawObject, object, string_value}
use specrelay.Gate.{LifecycleTransitionRequest, find_row, transition_lifecycle}
use specrelay.Store.{JobColumns, Project, Job, Plan, PlanTask, Db, is_task_job, in_flight}

-- The first of the least elements of a list (`ORDER BY … LIMIT 1`).
unfoldable pub first_by {ℓ} : {A : Type ℓ} → (A → A → Bool) → List A → Option A
first_by before [] = none
first_by before (x ∷ xs) = elim (first_by before xs) [
  | none ↦ some x
  | some y ↦ if before y x then some y else some x
]

unfoldable pub filter_by {ℓ} : {A : Type ℓ} → (A → Bool) → List A → List A
filter_by p [] = []
filter_by p (x ∷ xs) = if p x then x ∷ filter_by p xs else filter_by p xs

unfoldable pub any_of {ℓ} : {A : Type ℓ} → (A → Bool) → List A → Bool
any_of p [] = false
any_of p (x ∷ xs) = p x || any_of p xs

-- A comparison of the first keys that decides, or else the rest.
abbrev pub then_by : ℕ → ℕ → Bool → Bool
then_by a b rest = ltb a b || a == b && rest

-- `execution_started_at ASC NULLS LAST`.
abbrev pub nulls_last : Option ℕ → Option ℕ → Bool → Bool
nulls_last none none rest = rest
nulls_last none (some b) rest = false
nulls_last (some a) none rest = true
nulls_last (some a) (some b) rest = then_by a b rest

unfoldable pub plan_before : Plan → Plan → Bool
plan_before p q =
    nulls_last p.columns.execution_started_at q.columns.execution_started_at
      (then_by p.columns.created_at q.columns.created_at (ltb p.id q.id))

unfoldable pub has_open_task : Db → Plan → Bool
unfolding any_of
has_open_task db p =
    any_of (λ (t : PlanTask). t.columns.plan_id == p.id && not (t.status == succeeded))
      db.tasks.rows

-- The plan that owns the next turn of a project.
unfoldable pub turn_owner : Db → ℕ → Option Plan
unfolding first_by filter_by plan_before has_open_task
turn_owner db project = first_by plan_before (
    filter_by
      (λ (p : Plan).
        p.project_id == project
        && contains (running ∷ validating ∷ []) p.status
        && p.columns.is_executable
        && has_open_task db p)
      db.plans.rows)

-- A task job of the project that is leased or running.
abbrev pub occupies : ℕ → Job → Bool
occupies project j = j.project_id == project && is_task_job j && in_flight j.status

unfoldable pub automated : Db → ℕ → Bool
unfolding any_of
automated db project = any_of (λ (p : Project). p.id == project && p.automation_enabled) db.projects

abbrev owns_task : Option Plan → Option PlanTask → Bool
owns_task (some p) (some t) = t.columns.plan_id == p.id
owns_task _ _ = false

-- A task job waits for its plan's turn, and for the project's task job in flight to end.
unfoldable pub task_turn : Db → Job → Bool
unfolding turn_owner any_of find_row
task_turn db j =
    not (any_of (occupies j.project_id) db.jobs.rows)
    && owns_task (turn_owner db j.project_id) (find_row j.columns.aggregate_id db.tasks.rows)

unfoldable pub claimable : ℕ → Db → Job → Bool
unfolding automated task_turn
claimable now db j =
    contains (queued ∷ retry_wait ∷ []) j.status
    && leb j.columns.run_after now
    && automated db j.project_id
    && (not (is_task_job j) || task_turn db j)

abbrev job_before : Job → Job → Bool
job_before i j =
    then_by i.columns.priority j.columns.priority (ltb i.columns.created_at j.columns.created_at)

unfoldable pub select_job : ℕ → (Job → Bool) → Db → Option Job
unfolding first_by filter_by claimable
select_job now locked db =
    first_by job_before (filter_by (λ j. claimable now db j && not (locked j)) db.jobs.rows)

abbrev pub worker_checkpoint : Text → RawObject
worker_checkpoint worker = object ((text "workerId", string_value worker) ∷ [])

abbrev pub worker_of : JobColumns → Text
worker_of c = c.worker_id

unfoldable pub transition_job : ℕ → LifecycleTransitionRequest JobColumns → Db → Result (Db × Bool)
transition_job now q db = transition_lifecycle job worker_of now q db.jobs >>= λ (jobs, idempotent).
    ok (record db { jobs = jobs }, idempotent)

unfoldable pub claim_request : ℕ → Text → ℕ → ℕ → LifecycleTransitionRequest JobColumns
claim_request now worker lease id = record {
  resource_id = id;
  expected_version = 0;
  status = leased;
  status_source = text "worker";
  reason_code = text "worker_claimed";
  reason = text "worker claimed queued job";
  last_activity_at = 0;
  recovery_hint = text "automatic_retry";
  execution_checkpoint = worker_checkpoint worker;
  related_job_id = none;
  related_run_id = none;
  expected_status = none;
  expected_statuses = queued ∷ retry_wait ∷ [];
  require_worker_id = none;
  allow_non_contract = false;
  allow_terminal = false;
  ignore_terminal = false;
  mismatch_error = some not_found;
  fields = λ c. record c {
    worker_id = worker;
    lease_expires_at = some (now + lease);
    attempt = c.attempt + 1;
  };
}

-- The row that the transaction reads back.
unfoldable pub read_job : ℕ → Db → Result Job
read_job id db = elim (find_row id db.jobs.rows) [ none ↦ err no_rows | some j ↦ ok j ]

abbrev pub claim_selected : ℕ → Text → ℕ → Db → Option Job → Result (Db × Job)
claim_selected now worker lease db none = err no_rows
claim_selected now worker lease db (some j) = do
  (db', idempotent) ← transition_job now (claim_request now worker lease j.id) db
  claimed ← read_job j.id db'
  ok (db', claimed)

unfoldable pub claim_job : ℕ → (Job → Bool) → Text → ℕ → (seen db : Db) → Result (Db × Job)
claim_job now locked worker lease seen db =
    claim_selected now worker lease db (select_job now locked seen)
