-- ===== src/Queue/Owner.antt =====
-- Who may change a job: the worker that holds it.
use specrelay.Prelude.{
  ℕ, ◌≡◌, refl, subst, ◌⊎◌, inl, inr, Bool, true, Option, none, some, List, arith, Text,
  text_beq_iff,
}
use specrelay.Failure.{Result, ok, ◌>>=◌, >>=-eq-ok}
use specrelay.Status.{Status, status_beq}
use specrelay.Lifecycle.{job}
use specrelay.Gate.{
  Table, LifecycleTransitionRequest, expected, expects, worker_fits, find_row, transition_lifecycle,
}
use specrelay.Gate.Moved.{transition_row-IsAdmitted}
use specrelay.Gate.Protect.{transition_lifecycle-Outcome}
use specrelay.Store.{JobColumns, Job, Db, in_flight}
use specrelay.Claim.{worker_of, transition_job, read_job}
use specrelay.Queue.{
  running_request, mark_job_running, defer_request, defer_job_for_workspace, release_request,
  release_leased_job, complete_request, complete_job, cancel_request, cancel_job, fail_request,
  fail_job, fail_intake,
}
use specrelay.Queue.Steps.{
  QueueStep, claim, run, defer, release, complete, cancel, fail, transition_job-jobs,
}

-- The job is leased or running, and the worker is its owner.
pub record IsHeldBy (jobs : List Job) (worker : Text) (id : ℕ) : Type 0 where
  pub row : Job
  pub found : find_row id jobs ≡ some row
  pub owner : row.columns.worker_id ≡ worker
  pub active : in_flight row.status ≡ true

-- The worker and the job of a step, where it is not a claim.
abbrev pub actor : {db db' : Db} → QueueStep db db' → Option (Text × ℕ)
actor (claim now locked worker lease seen h) = none
actor (run now id worker h) = some (worker, id)
actor (defer now id worker delay h) = some (worker, id)
actor (release now id worker h) = some (worker, id)
actor (complete now id worker h) = some (worker, id)
actor (cancel now id worker h) = some (worker, id)
actor (fail now wall j worker message retryable h) = some (worker, j.id)

worker_fits-owner : (w worker : Text) → worker_fits job (some w) worker ≡ true → worker ≡ w
worker_fits-owner w worker h = (text_beq_iff worker w).0 h

module _ (now : ℕ) (q : LifecycleTransitionRequest JobColumns) (worker : Text) (db : Db)
    (asks : q.require_worker_id ≡ some worker)
    (active : (s : Status) → expects (expected q) s ≡ true → in_flight s ≡ true) where
  table-held :
      (t : Table JobColumns) (idempotent : Bool)
      → transition_lifecycle job worker_of now q db.jobs ≡ ok (t, idempotent)
      → (t ≡ db.jobs) ⊎ IsHeldBy db.jobs.rows worker q.resource_id
  table-held t i h =
      let outcome = transition_lifecycle-Outcome job worker_of now q db.jobs t i h in
      elim outcome.effect [
        | inl (kept, _, _) ↦ inl kept
        | inr (r', moves, _, _) ↦
            let admitted = transition_row-IsAdmitted job worker_of now q outcome.row moves in
            inr (record {
              row = outcome.row;
              found = outcome.found;
              owner = worker_fits-owner worker _ (rw asks at admitted.worker_expected);
              active = active outcome.row.status admitted.status_expected;
            })
      ]

  rest-held :
      {A : Type 0} (rest : Db × Bool → Result A) (final : A → Table JobColumns) {a : A}
      → ((d : Db) (i : Bool) (b : A) → rest (d, i) ≡ ok b → final b ≡ d.jobs)
      → (transition_job now q db >>= rest) ≡ ok a
      → (final a ≡ db.jobs) ⊎ IsHeldBy db.jobs.rows worker q.resource_id
  rest-held rest final reads h =
      let ((d, i), moved, e) = >>=-eq-ok (transition_job now q db) rest h in
      rw (reads d i _ e) (table-held d.jobs i (transition_job-jobs now q db d i moved))

read_back :
    (id : ℕ) (d : Db) {b : Db × Job} → (read_job id d >>= λ k. ok (d, k)) ≡ ok b → b.0.jobs ≡ d.jobs
read_back id d h =
    let (k, found, e) = >>=-eq-ok (read_job id d) (λ k. ok (d, k)) h in ground (arith, e)

kept_jobs : (d : Db) {b : Db} → ok d ≡ ok b → b.jobs ≡ d.jobs
kept_jobs d h = ground arith

fail_intake-jobs : (id : ℕ) (d : Db) → (fail_intake id d).jobs ≡ d.jobs
unfolding fail_intake
fail_intake-jobs id d = refl

abbrev Held : Db → Db → Option (Text × ℕ) → Type 0
Held db db' none = Unit
Held db db' (some (worker, id)) = (db'.jobs ≡ db.jobs) ⊎ IsHeldBy db.jobs.rows worker id

-- A step that is no claim leaves the job table alone, or its worker holds the job: a worker whose
-- job was taken from it changes nothing.
pub QueueStep-IsHeldBy :
    {db db' : Db} (s : QueueStep db db') (worker : Text) (id : ℕ)
    → actor s ≡ some (worker, id)
    → (db'.jobs ≡ db.jobs) ⊎ IsHeldBy db.jobs.rows worker id
unfolding mark_job_running running_request defer_job_for_workspace defer_request release_leased_job
    release_request complete_job complete_request cancel_job cancel_request fail_job fail_request
    status_beq
QueueStep-IsHeldBy (claim now locked w lease seen h) worker id e = cc
QueueStep-IsHeldBy {db} {db'} (run now i w h) worker id e = subst (Held db db') e (
    rest-held now (running_request w i) w db refl (λ s x. ground arith) _ (λ p. p.0.jobs)
      (λ d b c r. read_back i d r) h)
QueueStep-IsHeldBy {db} {db'} (defer now i w delay h) worker id e = subst (Held db db') e (
    rest-held now (defer_request now i w delay) w db refl (λ s x. ground arith) _ (λ d. d.jobs)
      (λ d b c r. kept_jobs d r) h)
QueueStep-IsHeldBy {db} {db'} (release now i w h) worker id e = subst (Held db db') e (
    rest-held now (release_request now i w) w db refl (λ s x. ground arith) _ (λ d. d.jobs)
      (λ d b c r. kept_jobs d r) h)
QueueStep-IsHeldBy {db} {db'} (complete now i w h) worker id e = subst (Held db db') e (
    rest-held now (complete_request i w) w db refl (λ s x. ground arith) _ (λ d. d.jobs)
      (λ d b c r. kept_jobs d r) h)
QueueStep-IsHeldBy {db} {db'} (cancel now i w h) worker id e = subst (Held db db') e (
    rest-held now (cancel_request i w) w db refl (λ s x. ground arith) _ (λ d. d.jobs)
      (λ d b c r. kept_jobs d r) h)
QueueStep-IsHeldBy {db} {db'} (fail now wall j w message retryable h) worker id e =
    subst (Held db db') e (
      rest-held now (fail_request wall j w message retryable) w db refl (λ s x. ground arith) _
        (λ d. d.jobs) (λ d b c r. ground (arith, fail_intake-jobs j.columns.aggregate_id d)) h)
