-- ===== src/Stop/Listed.antt =====
-- The loops of StopPlan (backend/internal/repository/cancellation.go): a row that still waits is one
-- that the loop has yet to reach.
use specrelay.Prelude.{
  ℕ, ◌≡◌, refl, subst, inl, inr, Bool, true, false, List, [], ◌∷◌, ◌==◌, contains, all-contains,
  not, ◌⊎◌, All, All-map, All-both, Text, arith, nat_eq, nat_beq_iff, Bool-cases,
}
use specrelay.Failure.{ok, Result-cases}
use specrelay.Status.{
  Status, status_eq, status_beq, status_beq_iff, queued, retry_wait, leased, pending, cancelled,
}
use specrelay.Lifecycle.{LifecycleResource, job, task, is_terminal_status, lifecycle_contracts}
use specrelay.Gate.{Row, Table, LifecycleTransitionRequest, transition_lifecycle}
use specrelay.Gate.Rows.{All-put_row}
use specrelay.Gate.Keys.{IsKeyed, put_row-IsKeyed, IsKeyed-found}
use specrelay.Enqueue.Moves.{
  IsMove, transition_lifecycle-IsMove, IsMove-status, IsMove-status_or_ended, move_task-IsMove,
}
use specrelay.Store.{JobColumns, Job, PlanTask, Db}
use specrelay.Claim.{worker_of}
use specrelay.TaskReturn.{no_worker}
use specrelay.Enqueue.{move_task, insert_event}
use specrelay.Stop.{stop_job_request}
use specrelay.Stop.Plans.{
  row_ids, is_unstarted, is_queued_task, stop_plan_job_request, stop_plan_jobs,
  stop_plan_task_request, stop_plan_tasks,
}

module _ {X : Type 0} (waits : Row X → Bool) where
  -- Whatever row still waits has its identifier in the list.
  abbrev pub AreListed : List ℕ → List (Row X) → Type 0
  AreListed ids rows = All (λ r. waits r ≡ true → contains ids r.id ≡ true) rows

  AreListed-more :
      (id : ℕ) (ids : List ℕ) (rows : List (Row X)) → AreListed ids rows → AreListed (id ∷ ids) rows
  AreListed-more id ids rows h = All-map (λ r listed w. ground (arith, listed w)) rows h

  pub row_ids-AreListed : (rows : List (Row X)) → AreListed (row_ids waits rows) rows
  unfolding row_ids
  row_ids-AreListed [] = tt
  row_ids-AreListed (r ∷ rs) =
      let rest = AreListed-more r.id (row_ids waits rs) rs (row_ids-AreListed rs) in
      let taken : waits r ≡ true → r.id ∷ row_ids waits rs ≡ row_ids waits (r ∷ rs) =
        λ w. ground (arith, w) in
      let passed : waits r ≡ false → row_ids waits rs ≡ row_ids waits (r ∷ rs) =
        λ w. ground (arith, w) in
      elim (Bool-cases (waits r)) [
        | inl w ↦
            subst (λ ids. AreListed ids (r ∷ rs)) (taken w)
              ((λ _. ground (arith, nat_beq_iff r.id r.id)), rest)
        | inr w ↦
            subst (λ ids. AreListed ids (r ∷ rs)) (passed w)
              ((λ e. ground (arith, e, w)), row_ids-AreListed rs)
      ]

  pub none_waits : (rows : List (Row X)) → AreListed [] rows → All (λ r. waits r ≡ false) rows
  none_waits rows h = All-map (λ r listed. ground (arith, Bool-cases (waits r), listed)) rows h

  module _ (resource : LifecycleResource) (worker_id : X → Text) (now : ℕ) where
    -- A request that leaves its row waiting no more takes the row off the list.
    pub IsMove-AreListed :
        (q : LifecycleTransitionRequest X) (t t' : Table X) (idempotent : Bool) (ids : List ℕ)
        (move : IsMove resource worker_id now q t t' idempotent)
        → waits move.after ≡ false
        → IsKeyed t.rows
        → AreListed (q.resource_id ∷ ids) t.rows
        → IsKeyed t'.rows × AreListed ids t'.rows
    IsMove-AreListed q t t' i ids move ended keyed listed =
        let kept : IsKeyed t'.rows × AreListed (q.resource_id ∷ ids) t'.rows = elim move.change [
          | inl (same, _, _, _) ↦ rw same (keyed, listed)
          | inr (e, _, _, _) ↦ rw e (
            put_row-IsKeyed move.after t.rows keyed,
            All-put_row (λ r. waits r ≡ true → contains (q.resource_id ∷ ids) r.id ≡ true)
                move.after t.rows listed (λ w. absurd (ground (arith, w, ended))),
          )
        ] in
        (
          kept.0,
          All-map
              (λ r both w. elim (Bool-cases (q.resource_id == r.id)) [
                | inl own ↦ absurd (
                    ground
                      (arith, both, move.stored, (nat_beq_iff q.resource_id r.id).0 own, ended, w))
                | inr other ↦ ground (arith, both, w, other)
              ])
              t'.rows (All-both _ _ t'.rows (IsKeyed-found t'.rows kept.0) kept.1),
        )

-- The jobs that are ended do not wait for a worker.
ended_job :
    (plan_id : ℕ) (tasks : List PlanTask) (j : Job)
    → (j.status ≡ cancelled) ⊎ (is_terminal_status job j.status ≡ true)
    → is_unstarted plan_id tasks j ≡ false
unfolding is_terminal_status lifecycle_contracts status_beq
ended_job plan_id tasks j (inl e) =
    let idle : contains (queued ∷ retry_wait ∷ leased ∷ []) j.status ≡ false = rw e refl in
    ground (arith, idle)
ended_job plan_id tasks j (inr ended) =
    let idle =
      all-contains (λ (s : Status). not (contains (queued ∷ retry_wait ∷ leased ∷ []) s))
        (lifecycle_contracts job).terminal j.status refl ended in
    ground (arith, idle)

pub stop_plan_jobs-AreListed :
    (now plan_id : ℕ) (tasks : List PlanTask) (ids : List ℕ) (jobs jobs' : Table JobColumns)
    → IsKeyed jobs.rows
    → AreListed (is_unstarted plan_id tasks) ids jobs.rows
    → stop_plan_jobs now ids jobs ≡ ok jobs'
    → All (λ j. is_unstarted plan_id tasks j ≡ false) jobs'.rows
unfolding stop_plan_jobs stop_plan_job_request stop_job_request
stop_plan_jobs-AreListed now plan_id tasks [] jobs jobs' keyed listed h =
    let kept : jobs ≡ jobs' = ground (arith, h) in
    none_waits (is_unstarted plan_id tasks) jobs'.rows (
      subst (λ (t : Table JobColumns). AreListed (is_unstarted plan_id tasks) [] t.rows) kept
        listed)
stop_plan_jobs-AreListed now plan_id tasks (id ∷ ids) jobs jobs' keyed listed h =
    let q = stop_plan_job_request id in
    elim (Result-cases (transition_lifecycle job worker_of now q jobs)) [
      | inl (failure, e) ↦ absurd (ground (arith, e))
      | inr ((next, i), e) ↦
          let move = transition_lifecycle-IsMove job worker_of now q jobs next i e in
          let (keyed', listed') =
            IsMove-AreListed (is_unstarted plan_id tasks) job worker_of now q jobs next i ids move
              (ended_job plan_id tasks move.after
                (IsMove-status_or_ended job worker_of now q jobs next i move))
              keyed listed in
          stop_plan_jobs-AreListed now plan_id tasks ids next jobs' keyed' listed' (rw e at h)
    ]

-- The plan's tasks are taken off the queue, and the jobs, the plans and the drift
-- audits are left alone.
pub stop_plan_tasks-AreListed :
    (now project plan_id : ℕ) (ids : List ℕ) (db db' : Db)
    → IsKeyed db.tasks.rows
    → AreListed (is_queued_task plan_id) ids db.tasks.rows
    → stop_plan_tasks now project ids db ≡ ok db'
    → All (λ t. is_queued_task plan_id t ≡ false) db'.tasks.rows
      × (db'.jobs ≡ db.jobs)
      × (db'.plans ≡ db.plans)
      × (db'.drift_audits ≡ db.drift_audits)
unfolding stop_plan_tasks stop_plan_task_request insert_event
stop_plan_tasks-AreListed now project plan_id [] db db' keyed listed h =
    let kept : db ≡ db' = ground (arith, h) in
    (
      none_waits (is_queued_task plan_id) db'.tasks.rows
          (subst (λ (d : Db). AreListed (is_queued_task plan_id) [] d.tasks.rows) kept listed),
      ground (arith, h),
      ground (arith, h),
      ground (arith, h),
    )
stop_plan_tasks-AreListed now project plan_id (id ∷ ids) db db' keyed listed h =
    let q = stop_plan_task_request id db in
    elim (Result-cases (move_task now q db)) [
      | inl (failure, e) ↦ absurd (ground (arith, e))
      | inr ((moved, i), e) ↦
          let (move, tasks_only) = move_task-IsMove now q db moved i e in
          let waits_again : move.after.status ≡ pending =
            IsMove-status task no_worker now q db.tasks moved.tasks i refl move in
          let (keyed', listed') =
            IsMove-AreListed (is_queued_task plan_id) task no_worker now q db.tasks moved.tasks i
              ids move (ground (arith, waits_again, status_beq_iff move.after.status queued)) keyed
              listed in
          let (idle, jobs, plans, audits) =
            stop_plan_tasks-AreListed now project plan_id ids _ db' keyed' listed' (rw e at h) in
          (
            idle,
            ground (arith, jobs, tasks_only),
            ground (arith, plans, tasks_only),
            ground (arith, audits, tasks_only),
          )
    ]
