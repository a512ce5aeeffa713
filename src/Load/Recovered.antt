-- ===== src/Load/Recovered.antt =====
-- The acceptance results that `loadPlanExecutionStateTx` (backend/internal/repository/queue.go)
-- completes on the way: the tasks that were read stay those that are stored.
use specrelay.Prelude.{
  ℕ, ◌+◌, ◌≡◌, refl, ap, subst, ◌∙◌, ◌⊎◌, inl, inr, true, false, some, List, [], ◌∷◌, ◌==◌, All,
  All-map, All-both, nat_eq, nat_beq_iff, arith, Bool-cases, text, text_eq,
}
use specrelay.Failure.{ok, Result-cases}
use specrelay.Status.{status_eq}
use specrelay.Gate.{find_row, put_row}
use specrelay.Gate.Rows.{find_row-put_row, find_row-put_row_self, All-put_row}
use specrelay.Gate.Keys.{IsKeyed, put_row-IsKeyed}
use specrelay.Store.{PlanTask}
use specrelay.TaskReturn.{build_acceptance_result}
use specrelay.Load.{needs_recovery, update_acceptance, find_task, recover_acceptance, recover_tasks}
use specrelay.Load.Tasks.{IsWithout, AreApart, has_task}

-- One task after its pass of the loop.
record IsRecovered (t t' : PlanTask) (rows rows' : List PlanTask) : Type 0 where
  same_id : t'.id ≡ t.id
  same_plan : t'.columns.plan_id ≡ t.columns.plan_id
  stored : find_row t.id rows' ≡ some t'
  change : (rows' ≡ rows) ⊎ (rows' ≡ put_row t' rows)

-- The task with the result that recovery writes.
abbrev accepted : PlanTask → PlanTask
accepted t = record t {
  version = t.version + 1;
  columns = record t.columns {
    acceptance_status = text "passed";
    acceptance_result = some (
        build_acceptance_result t.columns.acceptance_definition (text "passed")
          (text "legacy succeeded task acceptance recovered"));
  };
}

recover_acceptance-accepted :
    (t : PlanTask) (rows : List PlanTask)
    → find_row t.id rows ≡ some t
    → needs_recovery t ≡ true
    → recover_acceptance t rows ≡ ok (put_row (accepted t) rows, accepted t)
unfolding recover_acceptance needs_recovery find_task update_acceptance
recover_acceptance-accepted t rows found needs = ground (arith, found, needs)

recover_acceptance-kept :
    (t : PlanTask) (rows : List PlanTask)
    → needs_recovery t ≡ false
    → recover_acceptance t rows ≡ ok (rows, t)
unfolding recover_acceptance
recover_acceptance-kept t rows needs = ground (arith, needs)

recover_acceptance-IsRecovered :
    (t t' : PlanTask) (rows rows' : List PlanTask)
    → find_row t.id rows ≡ some t
    → recover_acceptance t rows ≡ ok (rows', t')
    → IsRecovered t t' rows rows'
recover_acceptance-IsRecovered t t' rows rows' found h = elim (Bool-cases (needs_recovery t)) [
  | inl needs ↦
      let e = recover_acceptance-accepted t rows found needs in
      let task : t' ≡ accepted t = ground (arith, e, h) in
      let table : rows' ≡ put_row (accepted t) rows = ground (arith, e, h) in
      record {
        same_id = ap (λ (u : PlanTask). u.id) task;
        same_plan = ap (λ (u : PlanTask). u.columns.plan_id) task;
        stored = rw (table, task) (find_row-put_row_self t.id (accepted t) rows refl found);
        change = inr (rw task table);
      }
  | inr fine ↦
      let e = recover_acceptance-kept t rows fine in
      let task : t' ≡ t = ground (arith, e, h) in
      let table : rows' ≡ rows = ground (arith, e, h) in
      record {
        same_id = ap (λ (u : PlanTask). u.id) task;
        same_plan = ap (λ (u : PlanTask). u.columns.plan_id) task;
        stored = rw (table, task) found;
        change = inl table;
      }
]

-- A pass leaves every other row alone.
IsRecovered-others :
    (t t' : PlanTask) (rows rows' : List PlanTask) (id : ℕ)
    → find_row t.id rows ≡ some t
    → IsRecovered t t' rows rows'
    → (t.id == id) ≡ false
    → find_row id rows' ≡ find_row id rows
IsRecovered-others t t' rows rows' id found r other = elim r.change [
  | inl same ↦ ap (find_row id) same
  | inr put ↦
      ap (find_row id) put
      ∙ ground (
        arith,
        find_row-put_row id t' rows {r = t} (ap (λ i. find_row i rows) r.same_id ∙ found),
        other,
        r.same_id,
      )
]

IsRecovered-IsKeyed :
    (t t' : PlanTask) (rows rows' : List PlanTask)
    → IsRecovered t t' rows rows'
    → IsKeyed rows
    → IsKeyed rows'
IsRecovered-IsKeyed t t' rows rows' r keyed = elim r.change [
  | inl same ↦ rw same keyed
  | inr put ↦ rw put (put_row-IsKeyed t' rows keyed)
]

IsRecovered-All :
    (P : PlanTask → Type 0) (t t' : PlanTask) (rows rows' : List PlanTask)
    → IsRecovered t t' rows rows'
    → All P rows
    → P t'
    → All P rows'
IsRecovered-All P t t' rows rows' r h p = elim r.change [
  | inl same ↦ rw same h
  | inr put ↦ rw put (All-put_row P t' rows h p)
]

-- The tasks that the loop has yet to reach stay as they are stored.
IsRecovered-stored :
    (t t' : PlanTask) (ts rows rows1 : List PlanTask)
    → IsWithout t.id ts
    → All (λ u. find_row u.id rows ≡ some u) (t ∷ ts)
    → IsRecovered t t' rows rows1
    → All (λ u. find_row u.id rows1 ≡ some u) ts
IsRecovered-stored t t' ts rows rows1 apart stored one =
    All-map
      (λ u both.
        IsRecovered-others t t' rows rows1 u.id stored.0 one
          (ground (arith, both, nat_beq_iff t.id u.id, nat_beq_iff u.id t.id))
        ∙ both.1)
      ts (All-both _ _ ts apart stored.1)

-- The loop: the rows stay keyed and the tasks are read as they are stored.
pub record AreRecovered (ts ts' rows rows' : List PlanTask) : Type 1 where
  pub keyed : IsKeyed rows'
  pub stored : All (λ t. find_row t.id rows' ≡ some t) ts'
  pub others : (id : ℕ) → IsWithout id ts → find_row id rows' ≡ find_row id rows
  pub same_ids : (id : ℕ) → has_task id ts' ≡ has_task id ts
  pub same_plans :
      (plan : ℕ) → All (λ t. t.columns.plan_id ≡ plan) ts → All (λ t. t.columns.plan_id ≡ plan) ts'
  pub keeps : (P : PlanTask → Type 0) → All P rows → All P ts' → All P rows'

-- The loop does not run.
pub AreRecovered-same :
    (ts rows : List PlanTask)
    → IsKeyed rows
    → All (λ t. find_row t.id rows ≡ some t) ts
    → AreRecovered ts ts rows rows
AreRecovered-same ts rows keyed stored = record {
  keyed = keyed;
  stored = stored;
  others = λ id w. refl;
  same_ids = λ id. refl;
  same_plans = λ plan p. p;
  keeps = λ P p q. p;
}

AreRecovered-more :
    (t t' : PlanTask) (ts us rows rows1 rows2 : List PlanTask)
    → find_row t.id rows ≡ some t
    → IsWithout t.id ts
    → IsRecovered t t' rows rows1
    → AreRecovered ts us rows1 rows2
    → AreRecovered (t ∷ ts) (t' ∷ us) rows rows2
AreRecovered-more t t' ts us rows rows1 rows2 found apart one rest = record {
  keyed = rest.keyed;
  stored =
      (ap (λ i. find_row i rows2) one.same_id ∙ rest.others t.id apart ∙ one.stored, rest.stored);
  others = λ id w. rest.others id w.1 ∙ IsRecovered-others t t' rows rows1 id found one w.0;
  same_ids = λ id. ground (arith, rest.same_ids id, one.same_id);
  same_plans = λ plan p. (one.same_plan ∙ p.0, rest.same_plans plan p.1);
  keeps = λ P p q. rest.keeps P (IsRecovered-All P t t' rows rows1 one p q.0) q.1;
}

pub recover_tasks-AreRecovered :
    (ts ts' rows rows' : List PlanTask)
    → IsKeyed rows
    → AreApart ts
    → All (λ t. find_row t.id rows ≡ some t) ts
    → recover_tasks ts rows ≡ ok (rows', ts')
    → AreRecovered ts ts' rows rows'
unfolding recover_tasks
recover_tasks-AreRecovered [] ts' rows rows' keyed apart stored h =
    let table : rows' ≡ rows = ground (arith, h) in
    let tasks : ts' ≡ [] = ground (arith, h) in
    record {
      keyed = rw table keyed;
      stored = rw tasks tt;
      others = λ id w. ap (find_row id) table;
      same_ids = λ id. ap (has_task id) tasks;
      same_plans = λ plan p. rw tasks tt;
      keeps = λ P p q. rw table p;
    }
recover_tasks-AreRecovered (t ∷ ts) ts' rows rows' keyed apart stored h =
    elim (Result-cases (recover_acceptance t rows)) [
      | inl (failure, e) ↦ absurd (ground (arith, e))
      | inr ((rows1, t'), e) ↦ elim (Result-cases (recover_tasks ts rows1)) [
        | inl (failure, f) ↦ absurd (ground (arith, e, f))
        | inr ((rows2, us), f) ↦
            let table : rows2 ≡ rows' = ground (arith, e, f, h) in
            let tasks : t' ∷ us ≡ ts' = ground (arith, e, f, h) in
            let one = recover_acceptance-IsRecovered t t' rows rows1 stored.0 e in
            let untouched = IsRecovered-stored t t' ts rows rows1 apart.0 stored one in
            let rest =
              recover_tasks-AreRecovered ts us rows1 rows2
                (IsRecovered-IsKeyed t t' rows rows1 one keyed) apart.1 untouched f in
            subst (λ (x : List PlanTask × List PlanTask). AreRecovered (t ∷ ts) x.0 rows x.1)
              (ground (arith, table, tasks))
              (AreRecovered-more t t' ts us rows rows1 rows2 stored.0 apart.0 one rest)
      ]
    ]

recover_acceptance-ok :
    (t : PlanTask) (rows : List PlanTask)
    → find_row t.id rows ≡ some t
    → (rows1 : List PlanTask) × ((t' : PlanTask) × (recover_acceptance t rows ≡ ok (rows1, t')))
recover_acceptance-ok t rows found = elim (Bool-cases (needs_recovery t)) [
  | inl needs ↦ (_, (_, recover_acceptance-accepted t rows found needs))
  | inr fine ↦ (_, (_, recover_acceptance-kept t rows fine))
]

-- No UPDATE of the loop misses its row.
pub recover_tasks-ok :
    (ts rows : List PlanTask)
    → AreApart ts
    → All (λ t. find_row t.id rows ≡ some t) ts
    → (rows' : List PlanTask) × ((ts' : List PlanTask) × (recover_tasks ts rows ≡ ok (rows', ts')))
unfolding recover_tasks
recover_tasks-ok [] rows apart stored = (rows, ([], refl))
recover_tasks-ok (t ∷ ts) rows apart stored =
    let (rows1, (t', e)) = recover_acceptance-ok t rows stored.0 in
    let one = recover_acceptance-IsRecovered t t' rows rows1 stored.0 e in
    let (rows2, (us, f)) =
      recover_tasks-ok ts rows1 apart.1
        (IsRecovered-stored t t' ts rows rows1 apart.0 stored one) in
    (rows2, (t' ∷ us, rw (e, f) refl))
