-- ===== src/Queue/Sound.antt =====
-- The invariant of the job table, and when one request keeps it.
use specrelay.Prelude.{
  ℕ, ◌+◌, ◌≤◌, ◌<◌, ◌≡◌, ap, ◌∙◌, Bool, true, ◌&&◌, some, List, [], ◌∷◌, arith, ◌==◌, if◌then◌else◌,
  All, contains, nat_eq, inl, inr,
}
use specrelay.Failure.{ok}
use specrelay.Status.{Status, status_eq, queued, retry_wait}
use specrelay.Lifecycle.{job}
use specrelay.Gate.{
  Table, LifecycleTransitionRequest, find_row, expected, expects, transition_lifecycle,
}
use specrelay.Gate.Rows.{find_row-id, All-put_row, All-find_row}
use specrelay.Gate.Keys.{IsKeyed, sum_rows, put_row-IsKeyed, sum_rows-put_row}
use specrelay.Gate.Moved.{
  IsWritten, IsAdmitted, transition_row-IsWritten, transition_row-IsAdmitted,
}
use specrelay.Gate.Protect.{transition_lifecycle-Outcome}
use specrelay.Store.{JobColumns, Job, in_flight, is_task_job}
use specrelay.Claim.{worker_of, occupies}

-- Waiting to be claimed.
abbrev pub is_waiting : Status → Bool
is_waiting s = contains (queued ∷ retry_wait ∷ []) s

-- An attempt is left for a job that waits, and no job has used more than its attempts.
pub record FitsAttempts (j : Job) : Type 0 where
  pub allowed : 1 ≤ j.columns.max_attempts
  pub within : j.columns.attempt ≤ j.columns.max_attempts
  pub left : is_waiting j.status ≡ true → j.columns.attempt < j.columns.max_attempts

abbrev pub occupancy : ℕ → Job → ℕ
occupancy project j = if occupies project j then 1 else 0

pub record IsSound (jobs : List Job) : Type 0 where
  pub keyed : IsKeyed jobs
  pub exclusive : (project : ℕ) → sum_rows (occupancy project) jobs ≤ 1
  pub attempts : All FitsAttempts jobs

-- What a request may do to the row that it finds, for the invariant to survive.
pub record KeepsSound (now : ℕ) (jobs : List Job) (q : LifecycleTransitionRequest JobColumns)
    : Type 0 where
  pub room :
      (r r' : Job) (project : ℕ)
      → find_row q.resource_id jobs ≡ some r
      → IsWritten job worker_of now q r r'
      → IsAdmitted job worker_of now q r
      → sum_rows (occupancy project) jobs + occupancy project r' ≤ 1 + occupancy project r
  pub attempt :
      (r r' : Job)
      → find_row q.resource_id jobs ≡ some r
      → IsWritten job worker_of now q r r'
      → IsAdmitted job worker_of now q r
      → FitsAttempts r
      → FitsAttempts r'

module _ (now : ℕ) (q : LifecycleTransitionRequest JobColumns) (t t' : Table JobColumns) where
  pub transition_lifecycle-IsSound :
      (idempotent : Bool)
      → KeepsSound now t.rows q
      → transition_lifecycle job worker_of now q t ≡ ok (t', idempotent)
      → IsSound t.rows
      → IsSound t'.rows
  transition_lifecycle-IsSound i keeps h sound =
      let outcome = transition_lifecycle-Outcome job worker_of now q t t' i h in
      elim outcome.effect [
        | inl (kept, _, _) ↦ rw kept sound
        | inr (r', moves, e, _) ↦
            let written = transition_row-IsWritten job worker_of now q outcome.row moves in
            let admitted = transition_row-IsAdmitted job worker_of now q outcome.row moves in
            let id = written.same_id ∙ find_row-id q.resource_id t.rows outcome.found in
            let found = ap (λ n. find_row n t.rows) id ∙ outcome.found in
            rw e (record {
              keyed = put_row-IsKeyed r' t.rows sound.keyed;
              exclusive = λ project. omega (
                arith,
                keeps.room outcome.row r' project outcome.found written admitted,
                sum_rows-put_row (occupancy project) r' t.rows found,
              );
              attempts = All-put_row FitsAttempts r' t.rows sound.attempts (
                  keeps.attempt outcome.row r' outcome.found written admitted
                    (All-find_row FitsAttempts q.resource_id t.rows sound.attempts outcome.found));
            })
      ]

-- A request that neither takes a job into flight nor lets it wait without an attempt left.
pub record IsMild (q : LifecycleTransitionRequest JobColumns) : Type 0 where
  pub same_type : (c : JobColumns) → (q.fields c).job_type ≡ c.job_type
  pub flight :
      (s : Status) → expects (expected q) s ≡ true → in_flight q.status ≡ true → in_flight s ≡ true

occupancy_le :
    (r r' : Job) (project : ℕ)
    → r'.project_id ≡ r.project_id
    → r'.columns.job_type ≡ r.columns.job_type
    → (in_flight r'.status ≡ true → in_flight r.status ≡ true)
    → occupancy project r' ≤ occupancy project r
occupancy_le r r' project same_project same_type flight =
    rw (same_project, same_type)
      (cases (in_flight r'.status) (in_flight r.status) flight
        (r.project_id == project && is_task_job r))
  where
    cases :
        (after before : Bool)
        → (after ≡ true → before ≡ true)
        → (b : Bool) → (if b && after then 1 else 0) ≤ (if b && before then 1 else 0)
    cases after before h b = ground arith

pub IsMild-room :
    (now : ℕ) (jobs : List Job) (q : LifecycleTransitionRequest JobColumns) (r r' : Job)
    (project : ℕ)
    → IsMild q
    → ((p : ℕ) → sum_rows (occupancy p) jobs ≤ 1)
    → IsWritten job worker_of now q r r'
    → IsAdmitted job worker_of now q r
    → sum_rows (occupancy project) jobs + occupancy project r' ≤ 1 + occupancy project r
IsMild-room now jobs q r r' project mild exclusive written admitted = omega (
  arith,
  exclusive project,
  occupancy_le r r' project written.same_project
      (ap (λ (c : JobColumns). c.job_type) written.new_columns ∙ mild.same_type r.columns)
      (λ after. mild.flight r.status admitted.status_expected (rw written.new_status at after)),
)
