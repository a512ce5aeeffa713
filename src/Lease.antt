-- ===== src/Lease.antt =====
-- backend/internal/repository/queue.go: workspace leases and the renewal of job leases.
-- `workspace_leases` has one row for each workspace path (its unique key).
pub mod Exclusion
use specrelay.Prelude.{
  ℕ, ◌+◌, Bool, true, false, not, ◌&&◌, ◌||◌, Option, none, some, List, [], ◌∷◌, ◌==◌,
  if◌then◌else◌, ltb, Text, nat_eq, text_eq,
}
use specrelay.Failure.{Result, ok, err, lease_lost, workspace_leased, unique_violation}
use specrelay.Status.{status_eq}
use specrelay.Store.{JobColumns, WorkspaceLease, Job, Db, in_flight}

unfoldable pub find_lease : Text → List WorkspaceLease → Option WorkspaceLease
find_lease path [] = none
find_lease path (l ∷ ls) = if l.workspace == path then some l else find_lease path ls

-- `DO UPDATE SET … WHERE expires_at<now() OR job_id=EXCLUDED.job_id`.
abbrev pub replaceable : ℕ → ℕ → WorkspaceLease → Bool
replaceable now job l = ltb l.expires_at now || l.job_id == job

-- The upsert; `none` where it affects no row.
unfoldable pub upsert_lease :
    ℕ → WorkspaceLease → List WorkspaceLease → Option (List WorkspaceLease)
upsert_lease now fresh [] = some (fresh ∷ [])
upsert_lease now fresh (l ∷ ls) =
    if l.workspace == fresh.workspace
    then (if replaceable now fresh.job_id l
        then some ((record fresh { version = l.version + 1 }) ∷ ls)
        else none)
    else elim (upsert_lease now fresh ls) [ none ↦ none | some rest ↦ some (l ∷ rest) ]

-- `job_id` is a unique key too: the job has a lease on another path.
unfoldable pub leased_elsewhere : ℕ → Text → List WorkspaceLease → Bool
leased_elsewhere job path [] = false
leased_elsewhere job path (l ∷ ls) =
    l.job_id == job && not (l.workspace == path) || leased_elsewhere job path ls

abbrev pub new_lease : ℕ → ℕ → ℕ → Text → Text → ℕ → WorkspaceLease
new_lease now project job workspace worker duration = record {
  project_id = project;
  workspace = workspace;
  worker_id = worker;
  job_id = job;
  expires_at = now + duration;
  version = 1;
}

unfoldable pub acquire_workspace_lease :
    ℕ → ℕ → ℕ → Text → Text → ℕ → List WorkspaceLease → Result (List WorkspaceLease)
unfolding leased_elsewhere
acquire_workspace_lease now project job workspace worker duration leases =
    elim (upsert_lease now (new_lease now project job workspace worker duration) leases) [
      | none ↦ err workspace_leased
      | some ls ↦ if leased_elsewhere job workspace leases then err unique_violation else ok ls
    ]

-- `WHERE id=$1 AND worker_id=$2 AND status IN ('leased','running')`.
abbrev pub holds_job : ℕ → Text → Job → Bool
holds_job id worker j = j.id == id && j.columns.worker_id == worker && in_flight j.status

-- The rows after `UPDATE jobs SET lease_expires_at=…`, and whether any was affected.
unfoldable pub extend_jobs : ℕ → ℕ → Text → List Job → List Job × Bool
extend_jobs expires id worker [] = ([], false)
extend_jobs expires id worker (j ∷ js) =
    let (rest, affected) = extend_jobs expires id worker js in
    if holds_job id worker j
    then (
      (record j { columns = record (j.columns) { lease_expires_at = some expires } }) ∷ rest,
      true,
    )
    else (j ∷ rest, affected)

unfoldable pub renew_job_lease : ℕ → ℕ → Text → ℕ → Db → Result Db
unfolding extend_jobs
renew_job_lease now id worker duration db =
    let (rows, affected) = extend_jobs (now + duration) id worker db.jobs.rows in
    let t = db.jobs in
    if affected then ok (record db { jobs = record t { rows = rows } }) else err lease_lost

-- `WHERE job_id=$1 AND worker_id=$2 AND expires_at>now()`.
abbrev pub holds_lease : ℕ → ℕ → Text → WorkspaceLease → Bool
holds_lease now job worker l = l.job_id == job && l.worker_id == worker && ltb now l.expires_at

unfoldable pub extend_leases : ℕ → ℕ → ℕ → Text → List WorkspaceLease → List WorkspaceLease × Bool
extend_leases now expires job worker [] = ([], false)
extend_leases now expires job worker (l ∷ ls) =
    let (rest, affected) = extend_leases now expires job worker ls in
    if holds_lease now job worker l
    then ((record l { expires_at = expires; version = l.version + 1 }) ∷ rest, true)
    else (l ∷ rest, affected)

unfoldable pub renew_workspace_lease : ℕ → ℕ → Text → ℕ → Db → Result Db
unfolding extend_leases
renew_workspace_lease now job worker duration db =
    let (leases, affected) = extend_leases now (now + duration) job worker db.leases in
    if affected
    then renew_job_lease now job worker duration (record db { leases = leases })
    else err lease_lost

unfoldable pub release_workspace_lease : ℕ → Text → List WorkspaceLease → List WorkspaceLease
release_workspace_lease job worker [] = []
release_workspace_lease job worker (l ∷ ls) =
    if l.job_id == job && l.worker_id == worker
    then release_workspace_lease job worker ls
    else l ∷ release_workspace_lease job worker ls
