-- ===== src/Queue/Keeps.antt =====
-- The requests of a worker keep the invariant of the job table.
use specrelay.Prelude.{
  ℕ, ◌+◌, ◌≤◌, ◌<◌, ◌≡◌, refl, sym, ap, ◌∙◌, ◌⊎◌, Bool, true, false, some, List, [], ◌∷◌, arith,
  Text, text_eq, nat_eq, inl, inr, eq_of_some,
}
use specrelay.Status.{Status, status_eq, status_beq}
use specrelay.Gate.{LifecycleTransitionRequest, find_row}
use specrelay.Gate.Keys.{sum_rows}
use specrelay.Store.{JobColumns, Job, Db, is_task_job}
use specrelay.Claim.{occupies, any_of, claimable, task_turn, select_job, claim_request}
use specrelay.Claim.Select.{select_job-claimable}
use specrelay.Queue.{
  running_request, defer_request, release_request, complete_request, cancel_request, fail_request,
}
use specrelay.Queue.Sound.{
  is_waiting, FitsAttempts, occupancy, IsSound, KeepsSound, IsMild, IsMild-room,
}

module _ (now : ℕ) (jobs : List Job) where
  pub mild-KeepsSound :
      (q : LifecycleTransitionRequest JobColumns)
      → IsSound jobs
      → IsMild q
      → ((r : Job)
          → find_row q.resource_id jobs ≡ some r
          → FitsAttempts r
          → ((q.fields r.columns).max_attempts ≡ r.columns.max_attempts)
            × ((q.fields r.columns).attempt ≤ r.columns.max_attempts)
            × (is_waiting q.status ≡ true → (q.fields r.columns).attempt < r.columns.max_attempts))
      → KeepsSound now jobs q
  mild-KeepsSound q sound mild counts = record {
    room = λ r r' project found written admitted.
        IsMild-room now jobs q r r' project mild sound.exclusive written admitted;
    attempt = λ r r' found written admitted fits.
        let (max, within, left) = counts r found fits in
        rebuild r r' (q.fields r.columns) q.status written.new_columns written.new_status fits max
          within left;
  }
    where
      rebuild :
          (r r' : Job) (c : JobColumns) (s : Status)
          → r'.columns ≡ c
          → r'.status ≡ s
          → FitsAttempts r
          → c.max_attempts ≡ r.columns.max_attempts
          → c.attempt ≤ r.columns.max_attempts
          → (is_waiting s ≡ true → c.attempt < r.columns.max_attempts)
          → FitsAttempts r'
      rebuild r r' c s ec es fits max within left =
          let a : r'.columns.attempt ≡ c.attempt = ap (λ (d : JobColumns). d.attempt) ec in
          let m : r'.columns.max_attempts ≡ c.max_attempts =
            ap (λ (d : JobColumns). d.max_attempts) ec in
          record {
            allowed = omega (arith, fits.allowed);
            within = omega arith;
            left = λ w. omega (arith, left (rw es at w));
          }

  pub running-KeepsSound :
      (worker : Text) (id : ℕ) → IsSound jobs → KeepsSound now jobs (running_request worker id)
  unfolding running_request status_beq
  running-KeepsSound worker id sound =
      mild-KeepsSound _ sound (record { same_type = λ c. refl; flight = λ s h f. ground arith })
        (λ r found fits. (refl, fits.within, λ w. cc))

  pub defer-KeepsSound :
      (worker : Text) (id delay : ℕ)
      → IsSound jobs
      → KeepsSound now jobs (defer_request now id worker delay)
  unfolding defer_request status_beq
  defer-KeepsSound worker id delay sound =
      mild-KeepsSound _ sound (record { same_type = λ c. refl; flight = λ s h f. ground arith })
        (λ r found fits.
          (refl, omega (arith, fits.within), λ w. omega (arith, fits.within, fits.allowed)))

  pub release-KeepsSound :
      (worker : Text) (id : ℕ) → IsSound jobs → KeepsSound now jobs (release_request now id worker)
  unfolding release_request status_beq
  release-KeepsSound worker id sound =
      mild-KeepsSound _ sound (record { same_type = λ c. refl; flight = λ s h f. ground arith })
        (λ r found fits.
          (refl, omega (arith, fits.within), λ w. omega (arith, fits.within, fits.allowed)))

  pub complete-KeepsSound :
      (worker : Text) (id : ℕ) → IsSound jobs → KeepsSound now jobs (complete_request id worker)
  unfolding complete_request status_beq
  complete-KeepsSound worker id sound =
      mild-KeepsSound _ sound (record { same_type = λ c. refl; flight = λ s h f. ground arith })
        (λ r found fits. (refl, fits.within, λ w. cc))

  pub cancel-KeepsSound :
      (worker : Text) (id : ℕ) → IsSound jobs → KeepsSound now jobs (cancel_request id worker)
  unfolding cancel_request status_beq
  cancel-KeepsSound worker id sound =
      mild-KeepsSound _ sound (record { same_type = λ c. refl; flight = λ s h f. ground arith })
        (λ r found fits. (refl, fits.within, λ w. cc))

  -- The job that the worker reports on is the row, as far as its attempts go.
  abbrev pub IsCurrent : Job → Type 0
  IsCurrent j =
      (r : Job)
      → find_row j.id jobs ≡ some r
      → (r.columns.attempt ≡ j.columns.attempt) × (r.columns.max_attempts ≡ j.columns.max_attempts)

  pub fail-KeepsSound :
      (wall : ℕ) (j : Job) (worker message : Text) (retryable : Bool)
      → IsCurrent j
      → IsSound jobs
      → KeepsSound now jobs (fail_request wall j worker message retryable)
  unfolding fail_request status_beq
  fail-KeepsSound wall j worker message retryable current sound =
      mild-KeepsSound _ sound (record { same_type = λ c. refl; flight = λ s h f. ground arith })
        (λ r found fits. (refl, fits.within, λ w. ground (arith, current r found)))

sum_rows-occupancy :
    (project : ℕ) (jobs : List Job)
    → any_of (occupies project) jobs ≡ false
    → sum_rows (occupancy project) jobs ≡ 0
unfolding any_of sum_rows
sum_rows-occupancy project [] h = refl
sum_rows-occupancy project (j ∷ jobs) h = ground (arith, sum_rows-occupancy project jobs)

free_for_task :
    (now : ℕ) (db : Db) (j : Job)
    → claimable now db j ≡ true
    → is_task_job j ≡ true
    → any_of (occupies j.project_id) db.jobs.rows ≡ false
unfolding claimable task_turn
free_for_task now db j c t = ground arith

claimable-waiting :
    (now : ℕ) (db : Db) (j : Job) → claimable now db j ≡ true → is_waiting j.status ≡ true
unfolding claimable
claimable-waiting now db j c = ground arith

occupancy_cases :
    (r' : Job) (project : ℕ)
    → (occupancy project r' ≡ 0)
      ⊎ ((occupancy project r' ≡ 1) × (r'.project_id ≡ project) × (is_task_job r' ≡ true))
occupancy_cases r' project = ground arith

claim-room :
    (now : ℕ) (worker : Text) (lease : ℕ) (seen db : Db) (j r' : Job) (project : ℕ)
    → IsSound db.jobs.rows
    → claimable now seen j ≡ true
    → any_of (occupies j.project_id) db.jobs.rows ≡ any_of (occupies j.project_id) seen.jobs.rows
    → r'.project_id ≡ j.project_id
    → r'.columns.job_type ≡ j.columns.job_type
    → sum_rows (occupancy project) db.jobs.rows + occupancy project r' ≤ 1
claim-room now worker lease seen db j r' project sound c same_flight same_project same_type =
    elim (occupancy_cases r' project) [
      | inl empty ↦ omega (arith, sound.exclusive project)
      | inr (full, here, is_task) ↦
          let free =
            sum_rows-occupancy j.project_id db.jobs.rows
              (same_flight ∙ free_for_task now seen j c (rw same_type at is_task)) in
          omega (arith, rw (sym same_project ∙ here) at free)
    ]

-- What the row locks of the claim do not ensure by themselves: the query has seen the job that it
-- selects as the job is, and whether the project has a task job in flight.
pub record IsFresh (now : ℕ) (locked : Job → Bool) (seen db : Db) : Type 0 where
  pub same_row :
      (j : Job) → select_job now locked seen ≡ some j → find_row j.id db.jobs.rows ≡ some j
  pub same_flight :
      (j : Job)
      → select_job now locked seen ≡ some j
      → any_of (occupies j.project_id) db.jobs.rows ≡ any_of (occupies j.project_id) seen.jobs.rows

pub claim-KeepsSound :
    (now : ℕ) (locked : Job → Bool) (worker : Text) (lease : ℕ) (seen db : Db) (j : Job)
    → IsFresh now locked seen db
    → IsSound db.jobs.rows
    → select_job now locked seen ≡ some j
    → KeepsSound now db.jobs.rows (claim_request now worker lease j.id)
unfolding claim_request status_beq
claim-KeepsSound now locked worker lease seen db j fresh sound selected =
    let listed = fresh.same_row j selected in
    let c = select_job-claimable now locked seen j selected in
    record {
      room = λ r r' project found written admitted.
          let same_row : r ≡ j = eq_of_some (sym found ∙ listed) in
          omega (
            arith,
            claim-room now worker lease seen db j r' project sound c (fresh.same_flight j selected)
                (written.same_project ∙ ap (λ (k : Job). k.project_id) same_row)
                (ap (λ (d : JobColumns). d.job_type) written.new_columns
                  ∙ ap (λ (k : Job). k.columns.job_type) same_row),
          );
      attempt = λ r r' found written admitted fits.
          let same_row : r ≡ j = eq_of_some (sym found ∙ listed) in
          let left = fits.left (rw same_row (claimable-waiting now seen j c)) in
          let a = ap (λ (d : JobColumns). d.attempt) written.new_columns in
          let m = ap (λ (d : JobColumns). d.max_attempts) written.new_columns in
          record {
            allowed = omega (arith, fits.allowed);
            within = omega arith;
            left = λ w. ground (arith, rw written.new_status at w);
          };
    }
