-- ===== src/Enqueue/Jobs.antt =====
-- The job that is added for a queued task: `insertJob` and `projectMaxAttempts`
-- (backend/internal/repository/store.go).
use specrelay.Prelude.{
  ℕ, ◌≡◌, refl, inl, inr, Bool, Option, none, some, Text, nat_eq, arith, ==_refl,
}
use specrelay.Failure.{ok, Result-cases}
use specrelay.Store.{task_execution, Job, Db}
use specrelay.Provider.{task_execution_job_payload}
use specrelay.Enqueue.{
  job_with_key, new_task_job, insert_unless, insert_job, project_max_attempts, add_task_job,
  version_of,
}

-- The jobs have the job for a version of a task, and nothing but the jobs has changed.
pub record HasJob (task_id version : ℕ) (db db' : Db) (j : Job) : Type 0 where
  pub others_kept : db' ≡ record db { jobs = db'.jobs }
  pub found : job_with_key (task_execution task_id version) db'.jobs.rows ≡ some j

insert_unless-HasJob :
    (task_id version : ℕ) (o : Option Job) (new j : Job) (db db' : Db)
    → job_with_key (task_execution task_id version) db.jobs.rows ≡ o
    → new.columns.idempotency_key ≡ task_execution task_id version
    → insert_unless o new db ≡ (db', j)
    → HasJob task_id version db db' j
unfolding job_with_key
insert_unless-HasJob task_id version (some k) new j db db' seen key h = record {
  others_kept = ground (arith, h);
  found = ground (arith, h, seen);
}
insert_unless-HasJob task_id version none new j db db' seen key h = record {
  others_kept = ground (arith, h);
  found = ground (arith, h, key, ==_refl task_id, ==_refl version);
}

pub add_task_job-HasJob :
    (now job_id project task_id plan_id : ℕ) (provider : Text) (requested : Bool) (db db' : Db)
    (j : Job)
    → add_task_job now job_id project task_id plan_id provider requested db ≡ ok (db', j)
    → HasJob task_id (version_of task_id db.tasks) db db' j
unfolding add_task_job insert_job new_task_job
add_task_job-HasJob now job_id project task_id plan_id provider requested db db' j h =
    elim (Result-cases (project_max_attempts project db)) [
      | inl (failure, e) ↦ absurd (ground (arith, e))
      | inr (attempts, e) ↦
          let new =
            new_task_job now job_id project task_id (version_of task_id db.tasks)
              (task_execution_job_payload task_id plan_id provider requested) attempts in
          insert_unless-HasJob task_id (version_of task_id db.tasks)
            (job_with_key (task_execution task_id (version_of task_id db.tasks)) db.jobs.rows) new j
            db db' refl refl (ground (arith, e))
    ]
