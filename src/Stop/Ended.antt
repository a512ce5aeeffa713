-- ===== src/Stop/Ended.antt =====
-- What StopPlan (backend/internal/repository/cancellation.go) leaves of a plan's queue.
use specrelay.Prelude.{
  ℕ, ◌+◌, ◌<◌, ◌≡◌, refl, ap, ◌∙◌, sym, subst, inl, inr, Bool, true, false, some, List, [], ◌∷◌,
  contains, ◌⊎◌, text, if◌then◌else◌, All, arith, nat_eq, Bool-cases, eq_of_some,
}
use specrelay.Failure.{Result, ok, Result-cases}
use specrelay.Status.{status_eq, status_beq_iff, ready, running, validating, blocked, cancelled}
use specrelay.Lifecycle.{plan, is_terminal_status}
use specrelay.Gate.{Table, find_row}
use specrelay.Gate.Keys.{IsKeyed}
use specrelay.Enqueue.Moves.{move_plan-IsMove}
use specrelay.Store.{Job, TaskColumns, PlanColumns, Plan, Db}
use specrelay.Enqueue.{move_plan, insert_event}
use specrelay.Claim.{claimable, select_job}
use specrelay.Claim.Select.{select_job-All}
use specrelay.Snapshot.{audit_plan_execution_abandoned, insert_plan_drift_audit}
use specrelay.Stop.Plans.{
  after_stop, is_plan_job, row_ids, is_unstarted, is_queued_task, running_jobs, stop_plan_request,
  stop_plan_jobs, stop_plan_tasks, read_plan, stop_plan_work, stop_plan,
}
use specrelay.Stop.Listed.{row_ids-AreListed, stop_plan_jobs-AreListed, stop_plan_tasks-AreListed}

-- A plan that its user has stopped.
pub record IsPlanStopped (version : ℕ) (db db' : Db) (before p : Plan) (active : List ℕ)
    : Type 0 where
  pub ended :
      (p ≡ before)
        × ((before.status ≡ cancelled) ⊎ (is_terminal_status plan before.status ≡ true))
        × (db'.drift_audits ≡ db.drift_audits)
      ⊎ ((p.status ≡ cancelled)
          × (p.version ≡ before.version + 1)
          × (0 < version → before.version ≡ version)
          × (contains (ready ∷ running ∷ validating ∷ blocked ∷ []) before.status ≡ true)
          × (db'.drift_audits ≡ (audit_plan_execution_abandoned before.id db).drift_audits))
  pub stored : find_row before.id db'.plans.rows ≡ some p
  pub to_signal : active ≡ running_jobs before.id db
  pub none_unstarted : All (λ j. is_unstarted before.id db.tasks.rows j ≡ false) db'.jobs.rows
  pub none_queued : All (λ t. is_queued_task before.id t ≡ false) db'.tasks.rows

-- The event that ends the stop adds to no other table.
plan_event-kept :
    (idempotent : Bool) (p : Plan) (db db' : Db)
    → ◌≡◌ {A = Result Db}
        (ok (
          if idempotent
          then db
          else insert_event (text "plan.cancelled") p.project_id p.id p.version db))
        (ok db')
    → (db'.tasks ≡ db.tasks)
      × (db'.jobs ≡ db.jobs)
      × (db'.plans ≡ db.plans)
      × (db'.drift_audits ≡ db.drift_audits)
unfolding insert_event
plan_event-kept true p db db' h =
    (ground (arith, h), ground (arith, h), ground (arith, h), ground (arith, h))
plan_event-kept false p db db' h =
    (ground (arith, h), ground (arith, h), ground (arith, h), ground (arith, h))

-- The trigger adds to the drift audits only.
after_stop-kept :
    (id : ℕ) (updated : Db) (idempotent : Bool)
    → let moved = after_stop id (updated, idempotent) in
      (moved.tasks ≡ updated.tasks) × (moved.jobs ≡ updated.jobs) × (moved.plans ≡ updated.plans)
unfolding audit_plan_execution_abandoned insert_plan_drift_audit
after_stop-kept id updated true = (refl, refl, refl)
after_stop-kept id updated false = (refl, refl, refl)

abandoned-same :
    (id : ℕ) (a b : Db)
    → a.drift_audits ≡ b.drift_audits
    → a.snapshots ≡ b.snapshots
    → (audit_plan_execution_abandoned id a).drift_audits
      ≡ (audit_plan_execution_abandoned id b).drift_audits
unfolding audit_plan_execution_abandoned insert_plan_drift_audit
abandoned-same id a b audits snapshots = rw (audits, snapshots) refl

stop_plan_work-idle :
    (now id : ℕ) (p : Plan) (idempotent : Bool) (db db' : Db)
    → IsKeyed db.jobs.rows
    → IsKeyed db.tasks.rows
    → stop_plan_work now id p idempotent db ≡ ok db'
    → All (λ j. is_unstarted id db.tasks.rows j ≡ false) db'.jobs.rows
      × All (λ t. is_queued_task id t ≡ false) db'.tasks.rows
      × (db'.plans ≡ db.plans)
      × (db'.drift_audits ≡ db.drift_audits)
unfolding stop_plan_work insert_event
stop_plan_work-idle now id p i db db' jobs_keyed tasks_keyed h =
    let waiting = row_ids (is_unstarted id db.tasks.rows) db.jobs.rows in
    elim (Result-cases (stop_plan_jobs now waiting db.jobs)) [
      | inl (failure, e) ↦ absurd (ground (arith, e))
      | inr (jobs, e) ↦
          let idle =
            stop_plan_jobs-AreListed now id db.tasks.rows waiting db.jobs jobs jobs_keyed
              (row_ids-AreListed (is_unstarted id db.tasks.rows) db.jobs.rows) e in
          let db1 : Db = record db { jobs = jobs } in
          let tasks = row_ids (is_queued_task id) db.tasks.rows in
          elim (Result-cases (stop_plan_tasks now p.project_id tasks db1)) [
            | inl (failure, f) ↦ absurd (ground (arith, e, f))
            | inr (stopped, f) ↦
                let (none_queued, same_jobs, same_plans, same_audits) =
                  stop_plan_tasks-AreListed now p.project_id id tasks db1 stopped tasks_keyed
                    (row_ids-AreListed (is_queued_task id) db.tasks.rows) f in
                let end = rw (e, f) at h in
                let rows = plan_event-kept i p stopped db' end in
                (
                  rw (rows.1, same_jobs) idle,
                  rw rows.0 none_queued,
                  rows.2 ∙ same_plans,
                  rows.3 ∙ same_audits,
                )
          ]
    ]

read_plan-found :
    (id : ℕ) (db : Db) (p : Plan) → find_row id db.plans.rows ≡ some p → read_plan id db ≡ ok p
unfolding read_plan
read_plan-found id db p h = ground (arith, h)

running_jobs-same :
    (id : ℕ) (a b : Db)
    → a.tasks ≡ b.tasks
    → a.jobs ≡ b.jobs
    → running_jobs id a ≡ running_jobs id b
unfolding running_jobs
running_jobs-same id a b tasks jobs = rw (tasks, jobs) refl

-- A stop of a plan that succeeds, where identifiers are keys of the jobs and of the tasks, leaves no
-- job of the plan's tasks waiting for a worker and none of its tasks queued, and returns the plan as
-- it is stored and the plan's running jobs. A plan that had ended stays as it is; any other was
-- ready, running, validating or blocked, had the given version where one is given, and is cancelled,
-- one version later, with a drift audit of the abandoned execution.
pub stop_plan-IsPlanStopped :
    (now version : ℕ) (db db' : Db) (before p : Plan) (active : List ℕ)
    → find_row before.id db.plans.rows ≡ some before
    → IsKeyed db.jobs.rows
    → IsKeyed db.tasks.rows
    → stop_plan now before.id version db ≡ ok ((db', p), active)
    → IsPlanStopped version db db' before p active
unfolding stop_plan stop_plan_request read_plan
stop_plan-IsPlanStopped now version db db' before p active found jobs_keyed tasks_keyed h =
    let q = stop_plan_request before.id version in
    elim (Result-cases (move_plan now q db)) [
      | inl (failure, e) ↦ absurd (ground (arith, e))
      | inr ((updated, i), e) ↦
          let (move, plans_only) = move_plan-IsMove now q db updated i e in
          let was : move.before ≡ before = eq_of_some (sym move.found ∙ found) in
          let moved = after_stop before.id (updated, i) in
          let kept = after_stop-kept before.id updated i in
          let there : find_row before.id moved.plans.rows ≡ some move.after =
            ap (λ (t : Table PlanColumns). find_row before.id t.rows) kept.2 ∙ move.stored in
          let read : read_plan before.id moved ≡ ok move.after =
            read_plan-found before.id moved move.after there in
          let h1 = rw (e, read) at h in
          elim (Result-cases (stop_plan_work now before.id move.after i moved)) [
            | inl (failure, f) ↦ absurd (ground (arith, h1, f))
            | inr (stopped, f) ↦
                let h2 = rw f at h1 in
                let same_db : stopped ≡ db' = ground (arith, h2) in
                let same_plan : move.after ≡ p = ground (arith, h2) in
                let same_tasks : moved.tasks ≡ db.tasks =
                  kept.0 ∙ ap (λ (d : Db). d.tasks) plans_only in
                let same_jobs : moved.jobs ≡ db.jobs =
                  kept.1 ∙ ap (λ (d : Db). d.jobs) plans_only in
                let idle =
                  stop_plan_work-idle now before.id move.after i moved stopped
                    (rw same_jobs jobs_keyed) (rw same_tasks tasks_keyed) f in
                let audits : db'.drift_audits ≡ moved.drift_audits =
                  ap (λ (d : Db). d.drift_audits) (sym same_db) ∙ idle.3 in
                let signalled : running_jobs before.id moved ≡ active = ground (arith, h2) in
                let unaudited : i ≡ true → moved.drift_audits ≡ db.drift_audits =
                  λ flag. rw flag (ap (λ (d : Db). d.drift_audits) plans_only) in
                let audited : i ≡ false
                    → moved.drift_audits
                      ≡ (audit_plan_execution_abandoned before.id db).drift_audits =
                  λ flag. rw flag (
                    abandoned-same before.id updated db (ap (λ (d : Db). d.drift_audits) plans_only)
                      (ap (λ (d : Db). d.snapshots) plans_only)) in
                record {
                  ended = elim move.change [
                    | inl (_, flag, same, inl already) ↦ inl (
                      sym same_plan ∙ same ∙ was,
                      inl (
                          ground
                            (arith, was, already, status_beq_iff move.before.status cancelled)),
                      audits ∙ unaudited flag,
                    )
                    | inl (_, flag, same, inr (over, _)) ↦ inl (
                      sym same_plan ∙ same ∙ was,
                      inr (ap (λ (r : Plan). is_terminal_status plan r.status) (sym was) ∙ over),
                      audits ∙ unaudited flag,
                    )
                    | inr (_, flag, admitted, written) ↦ inr (
                      ground (arith, written.new_status, same_plan),
                      ground (arith, written.next_version, same_plan, was),
                      (λ given. ground (arith, admitted.version_fits given, was)),
                      ground (arith, admitted.status_expected, was),
                      audits ∙ audited flag,
                    )
                  ];
                  stored = ground (arith, idle.2, same_db, there, same_plan);
                  to_signal =
                      sym signalled ∙ running_jobs-same before.id moved db same_tasks same_jobs;
                  none_unstarted =
                      subst
                        (λ (d : Db).
                          All (λ j. is_unstarted before.id db.tasks.rows j ≡ false) d.jobs.rows)
                        same_db
                        (subst
                          (λ (w : Table TaskColumns).
                            All (λ j. is_unstarted before.id w.rows j ≡ false) stopped.jobs.rows)
                          same_tasks idle.0);
                  none_queued =
                      subst (λ (d : Db). All (λ t. is_queued_task before.id t ≡ false) d.tasks.rows)
                        same_db idle.1;
                }
          ]
    ]

-- After a stop of a plan, where identifiers are keys of the jobs and of the tasks, the job that a
-- worker selects by a query that sees the stop, at whatever time, is not a job of the plan's tasks.
pub stop_plan-unclaimed :
    (now version later : ℕ) (locked : Job → Bool) (db db' : Db) (before p : Plan) (active : List ℕ)
    (j : Job)
    → find_row before.id db.plans.rows ≡ some before
    → IsKeyed db.jobs.rows
    → IsKeyed db.tasks.rows
    → stop_plan now before.id version db ≡ ok ((db', p), active)
    → select_job later locked db' ≡ some j
    → is_plan_job before.id db.tasks.rows j ≡ false
unfolding claimable
stop_plan-unclaimed now version later locked db db' before p active j found jobs_keyed tasks_keyed h
      selected =
    let stopped =
      stop_plan-IsPlanStopped now version db db' before p active found jobs_keyed tasks_keyed h in
    let (idle, can, _) =
      select_job-All (λ k. is_unstarted before.id db.tasks.rows k ≡ false) later locked db' j
        stopped.none_unstarted selected in
    elim (Bool-cases (is_plan_job before.id db.tasks.rows j)) [
      | inl its ↦ absurd (ground (arith, idle, can, its))
      | inr other ↦ other
    ]
