-- ===== src/Recovery/Requeue.antt =====
-- backend/internal/repository/queue.go: `requeueUnstartedJob`, for a lost job whose execution had not
-- begun. The checkpoint is an argument; pg_notify, which wakes waiting workers, is left out.
use specrelay.Prelude.{
  ℕ, ◌+◌, ◌-◌, ◌≡◌, refl, ap, ◌∙◌, ◌⊎◌, inl, inr, true, none, some, [], ◌∷◌, arith, contains, Text,
  text, eq_of_some, sym,
}
use specrelay.Failure.{Result, ok, Result-cases, ◌>>=◌}
use specrelay.Status.{status_eq, status_beq, status_beq_iff, queued, leased, running, cancelling}
use specrelay.Lifecycle.{job, is_terminal_status}
use specrelay.Metadata.{RawObject}
use specrelay.Gate.{LifecycleTransitionRequest, find_row}
use specrelay.Store.{JobColumns, Job, Db}
use specrelay.Claim.{transition_job}
use specrelay.Enqueue.{base_request}
use specrelay.Enqueue.Moves.{transition_job-IsMove}
use specrelay.Queue.{unclaim}
use specrelay.Queue.Sound.{IsSound, transition_lifecycle-IsSound}
use specrelay.Queue.Keeps.{mild-KeepsSound}
use specrelay.Queue.Steps.{transition_job-jobs}

abbrev requeue_reason : Text
requeue_reason = text "job ownership expired before execution reached a durable running phase"

unfoldable pub requeue_request : ℕ → ℕ → RawObject → LifecycleTransitionRequest JobColumns
requeue_request now id checkpoint = record (base_request id queued) {
  status_source = text "recovery";
  reason_code = text "process_lost";
  reason = requeue_reason;
  recovery_hint = text "automatic_retry";
  execution_checkpoint = checkpoint;
  expected_statuses = leased ∷ running ∷ cancelling ∷ [];
  allow_non_contract = true;
  ignore_terminal = true;
  fields = λ c. record (unclaim now c) { last_error = requeue_reason };
}

unfoldable pub requeue_unstarted_job : ℕ → ℕ → RawObject → Db → Result Db
unfolding requeue_request
requeue_unstarted_job now id checkpoint db =
    transition_job now (requeue_request now id checkpoint) db >>= λ (db', idempotent). ok db'

-- The job waits again, without an owner and with its attempt given back, or it was left alone.
pub record IsRequeued (id : ℕ) (db db' : Db) (before : Job) : Type 0 where
  pub after : Job
  pub stored : find_row id db'.jobs.rows ≡ some after
  pub change :
      (after ≡ before) × ((before.status ≡ queued) ⊎ (is_terminal_status job before.status ≡ true))
      ⊎ ((contains (leased ∷ running ∷ cancelling ∷ []) before.status ≡ true)
          × (after.status ≡ queued)
          × (after.version ≡ before.version + 1)
          × (after.columns.worker_id ≡ [])
          × (after.columns.lease_expires_at ≡ none)
          × (after.columns.attempt ≡ before.columns.attempt - 1))
  pub sound : IsSound db'.jobs.rows

-- A requeue that succeeds, of a lost job in a sound job table (identifiers are keys, a project has at
-- most one task job in flight, no job exceeds its attempts and a waiting job has one left), keeps the
-- table sound. A leased, running or cancelling job is queued one version later, with no owner, no
-- lease and one attempt less; a job that is queued or has ended stays as it is.
pub requeue_unstarted_job-IsRequeued :
    (now id : ℕ) (checkpoint : RawObject) (db db' : Db) (before : Job)
    → IsSound db.jobs.rows
    → find_row id db.jobs.rows ≡ some before
    → requeue_unstarted_job now id checkpoint db ≡ ok db'
    → IsRequeued id db db' before
unfolding requeue_unstarted_job requeue_request status_beq
requeue_unstarted_job-IsRequeued now id checkpoint db db' before sound found h =
    let q = requeue_request now id checkpoint in
    elim (Result-cases (transition_job now q db)) [
      | inl (failure, e) ↦ absurd (ground (arith, e))
      | inr ((moved, i), e) ↦
          let end : moved ≡ db' = ground (arith, e) in
          let (move, _) = transition_job-IsMove now q db moved i e in
          let was : move.before ≡ before = eq_of_some (sym move.found ∙ found) in
          let keeps =
            mild-KeepsSound now db.jobs.rows q sound
              (record { same_type = λ c. refl; flight = λ s h f. ground arith })
              (λ r found fits. (
                refl,
                omega (arith, fits.within),
                λ w. omega (arith, fits.within, fits.allowed),
              )) in
          record {
            after = move.after;
            stored = ap (λ (d : Db). find_row id d.jobs.rows) (sym end) ∙ move.stored;
            change = elim move.change [
              | inl (_, _, same, inl already) ↦ inl (
                same ∙ was,
                inl (
                    ap (λ (k : Job). k.status) (sym was)
                    ∙ (status_beq_iff move.before.status queued).0 already),
              )
              | inl (_, _, same, inr (over, _)) ↦ inl (
                same ∙ was,
                inr (ap (λ (k : Job). is_terminal_status job k.status) (sym was) ∙ over),
              )
              | inr (_, _, admitted, written) ↦ inr (
                ground (arith, admitted.status_expected, was),
                written.new_status,
                ground (arith, written.next_version, was),
                ap (λ (c : JobColumns). c.worker_id) written.new_columns,
                ap (λ (c : JobColumns). c.lease_expires_at) written.new_columns,
                ap (λ (c : JobColumns). c.attempt) written.new_columns
                    ∙ ap (λ (k : Job). k.columns.attempt - 1) was,
              )
            ];
            sound = rw (sym end) (
                transition_lifecycle-IsSound now q db.jobs moved.jobs i keeps
                  (transition_job-jobs now q db moved i e) sound);
          }
    ]
