-- ===== src/Queue/Steps.antt =====
-- The worker's transactions as steps of the queue, in any interleaving of any workers.
use specrelay.Prelude.{
  ℕ, ◌≡◌, refl, ◌∙◌, Bool, Option, none, some, List, arith, Text, text_eq, nat_eq,
}
use specrelay.Failure.{Result, ok, ◌>>=◌, >>=-eq-ok}
use specrelay.Status.{status_eq}
use specrelay.Lifecycle.{job}
use specrelay.Gate.{LifecycleTransitionRequest, transition_lifecycle}
use specrelay.Store.{JobColumns, Job, Db}
use specrelay.Claim.{worker_of, select_job, transition_job, read_job, claim_job, claim_selected}
use specrelay.Queue.{
  mark_job_running, defer_job_for_workspace, release_leased_job, complete_job, cancel_job,
  fail_intake, fail_job,
}
use specrelay.Queue.Sound.{IsSound, KeepsSound, transition_lifecycle-IsSound}
use specrelay.Queue.Keeps.{
  running-KeepsSound, defer-KeepsSound, release-KeepsSound, complete-KeepsSound, cancel-KeepsSound,
  IsCurrent, IsFresh, fail-KeepsSound, claim-KeepsSound,
}

-- One transaction of some worker, at some time, with whatever other workers have locked.
pub data QueueStep (db : Db) : Db → Type 0 where
  claim :
      {db' : Db} {j : Job} (now : ℕ) (locked : Job → Bool) (worker : Text) (lease : ℕ) (seen : Db)
      → claim_job now locked worker lease seen db ≡ ok (db', j)
      → QueueStep db db'
  run :
      {db' : Db} {j : Job} (now id : ℕ) (worker : Text)
      → mark_job_running now id worker db ≡ ok (db', j)
      → QueueStep db db'
  defer :
      {db' : Db} (now id : ℕ) (worker : Text) (delay : ℕ)
      → defer_job_for_workspace now id worker delay db ≡ ok db'
      → QueueStep db db'
  release :
      {db' : Db} (now id : ℕ) (worker : Text)
      → release_leased_job now id worker db ≡ ok db'
      → QueueStep db db'
  complete :
      {db' : Db} (now id : ℕ) (worker : Text)
      → complete_job now id worker db ≡ ok db'
      → QueueStep db db'
  cancel :
      {db' : Db} (now id : ℕ) (worker : Text)
      → cancel_job now id worker db ≡ ok db'
      → QueueStep db db'
  fail :
      {db' : Db} (now wall : ℕ) (j : Job) (worker message : Text) (retryable : Bool)
      → fail_job now wall j worker message retryable db ≡ ok db'
      → QueueStep db db'

-- What the transactions do not check themselves: the query of a claim has seen the task jobs in
-- flight, and FailJob is given a job with the attempts that its row has.
abbrev pub IsTimely : {db db' : Db} → QueueStep db db' → Type 0
IsTimely {db} (claim now locked worker lease seen h) = IsFresh now locked seen db
IsTimely (run now id worker h) = Unit
IsTimely (defer now id worker delay h) = Unit
IsTimely (release now id worker h) = Unit
IsTimely (complete now id worker h) = Unit
IsTimely (cancel now id worker h) = Unit
IsTimely {db} (fail now wall j worker message retryable h) = IsCurrent now db.jobs.rows j

pub data QueueRun (db : Db) : Db → Type 0 where
  done : QueueRun db db
  next : {db' db'' : Db} → QueueRun db db' → QueueStep db' db'' → QueueRun db db''

abbrev pub IsTimelyRun : {db db' : Db} → QueueRun db db' → Type 0
IsTimelyRun done = Unit
IsTimelyRun (next r s) = IsTimelyRun r × IsTimely s

pub transition_job-jobs :
    (now : ℕ) (q : LifecycleTransitionRequest JobColumns) (db db' : Db) (idempotent : Bool)
    → transition_job now q db ≡ ok (db', idempotent)
    → transition_lifecycle job worker_of now q db.jobs ≡ ok (db'.jobs, idempotent)
unfolding transition_job
transition_job-jobs now q db db' i h =
    let (r, found, e) =
      >>=-eq-ok (transition_lifecycle job worker_of now q db.jobs)
        (λ (jobs, idempotent). ok (record db { jobs = jobs }, idempotent)) h in
    found ∙ ground (arith, e)

-- A transaction that runs one request and then only reads.
transition_job-IsSound :
    {A : Type 0} (now : ℕ) (q : LifecycleTransitionRequest JobColumns) (db : Db)
    (rest : Db × Bool → Result A) (final : A → List Job) {a : A}
    → IsSound db.jobs.rows
    → KeepsSound now db.jobs.rows q
    → ((d : Db) (i : Bool) (b : A) → rest (d, i) ≡ ok b → final b ≡ d.jobs.rows)
    → (transition_job now q db >>= rest) ≡ ok a
    → IsSound (final a)
transition_job-IsSound now q db rest final sound keeps reads h =
    let ((d, i), moved, e) = >>=-eq-ok (transition_job now q db) rest h in
    rw (reads d i _ e) (
      transition_lifecycle-IsSound now q db.jobs d.jobs i keeps
        (transition_job-jobs now q db d i moved) sound)

read_back :
    (id : ℕ) (d : Db) {b : Db × Job}
    → (read_job id d >>= λ k. ok (d, k)) ≡ ok b
    → b.0.jobs.rows ≡ d.jobs.rows
read_back id d h =
    let (k, found, e) = >>=-eq-ok (read_job id d) (λ k. ok (d, k)) h in ground (arith, e)

claim_selected-IsSound :
    (now : ℕ) (locked : Job → Bool) (worker : Text) (lease : ℕ) (seen db db' : Db) (j : Job)
    (selected : Option Job)
    → IsFresh now locked seen db
    → IsSound db.jobs.rows
    → select_job now locked seen ≡ selected
    → claim_selected now worker lease db selected ≡ ok (db', j)
    → IsSound db'.jobs.rows
claim_selected-IsSound now locked worker lease seen db db' j none fresh sound s h = cc
claim_selected-IsSound now locked worker lease seen db db' j (some k) fresh sound s h =
    transition_job-IsSound now _ db _ (λ p. p.0.jobs.rows) sound
      (claim-KeepsSound now locked worker lease seen db k fresh sound s)
      (λ d i b e. read_back k.id d e) h

kept_jobs : (d : Db) {b : Db} → ok d ≡ ok b → b.jobs.rows ≡ d.jobs.rows
kept_jobs d h = ground arith

fail_intake-jobs : (id : ℕ) (d : Db) → (fail_intake id d).jobs.rows ≡ d.jobs.rows
unfolding fail_intake
fail_intake-jobs id d = refl

-- Every transaction of a worker keeps the invariant of the job table.
QueueStep-IsSound :
    {db db' : Db} (s : QueueStep db db') → IsTimely s → IsSound db.jobs.rows → IsSound db'.jobs.rows
unfolding claim_job mark_job_running defer_job_for_workspace release_leased_job complete_job
    cancel_job fail_job
QueueStep-IsSound {db} {db'} (claim {j = j} now locked worker lease seen h) fresh sound =
    claim_selected-IsSound now locked worker lease seen db db' j _ fresh sound refl h
QueueStep-IsSound {db} (run now id worker h) timely sound =
    transition_job-IsSound now _ db _ (λ p. p.0.jobs.rows) sound
      (running-KeepsSound now db.jobs.rows worker id sound) (λ d i b e. read_back id d e) h
QueueStep-IsSound {db} (defer now id worker delay h) timely sound =
    transition_job-IsSound now _ db _ (λ d. d.jobs.rows) sound
      (defer-KeepsSound now db.jobs.rows worker id delay sound) (λ d i b e. kept_jobs d e) h
QueueStep-IsSound {db} (release now id worker h) timely sound =
    transition_job-IsSound now _ db _ (λ d. d.jobs.rows) sound
      (release-KeepsSound now db.jobs.rows worker id sound) (λ d i b e. kept_jobs d e) h
QueueStep-IsSound {db} (complete now id worker h) timely sound =
    transition_job-IsSound now _ db _ (λ d. d.jobs.rows) sound
      (complete-KeepsSound now db.jobs.rows worker id sound) (λ d i b e. kept_jobs d e) h
QueueStep-IsSound {db} (cancel now id worker h) timely sound =
    transition_job-IsSound now _ db _ (λ d. d.jobs.rows) sound
      (cancel-KeepsSound now db.jobs.rows worker id sound) (λ d i b e. kept_jobs d e) h
QueueStep-IsSound {db} (fail now wall j worker message retryable h) current sound =
    transition_job-IsSound now _ db _ (λ d. d.jobs.rows) sound
      (fail-KeepsSound now db.jobs.rows wall j worker message retryable current sound)
      (λ d i b e. ground (arith, fail_intake-jobs j.columns.aggregate_id d)) h

-- Whatever queue transactions any workers commit, in any order, where the query of each claim has seen
-- the job that it selects as it is, and whether the job's project has a task job in flight, and where
-- FailJob is given a job with the attempts that its row has: from a job table in which identifiers are
-- keys, every project has at most one task job in flight, no job exceeds its attempts and a waiting job
-- has one left, the same holds afterwards.
pub QueueRun-IsSound :
    {db db' : Db} (r : QueueRun db db')
    → IsTimelyRun r
    → IsSound db.jobs.rows
    → IsSound db'.jobs.rows
QueueRun-IsSound done timely sound = sound
QueueRun-IsSound (next r s) timely sound =
    QueueStep-IsSound s timely.1 (QueueRun-IsSound r timely.0 sound)
