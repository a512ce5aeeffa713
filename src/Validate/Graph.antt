-- ===== src/Validate/Graph.antt =====
-- What a plan that passes the check of backend/internal/repository/queue.go looks like.
use specrelay.Prelude.{
  All-map, ℕ, ◌+◌, ◌-◌, ◌<◌, ◌≡◌, refl, inl, inr, Bool, true, false, not, ◌||◌, Option, none, some,
  List, [], ◌∷◌, ◌==◌, contains, if◌then◌else◌, length, Text, text_eq, nat_eq, arith, All,
  Bool-cases, Option-cases,
}
use specrelay.Store.{PlanTask}
use specrelay.Blocker.{
  PlanExecutionBlocker, PlanExecutionState, plan_validation_scheduling_blocker, final_count,
}
use specrelay.Validate.{
  Checked, refused, passed, ◌>>=◌, require, Index, index_of, is_final, has_index, scan_tasks,
  check_dependencies, check_dependency_keys, check_acceptance, check_tasks, check_graph,
  validate_plan_execution_state,
}

-- After the tasks with the keys `seen`: keys are new, and dependencies are seen before.
unfoldable pub IsOrdered : List Text → List PlanTask → Type 0
IsOrdered seen [] = Unit
IsOrdered seen (t ∷ ts) =
    (contains seen t.columns.task_key ≡ false)
    × ((deps : List Text) × (t.columns.dependency_keys ≡ some deps)
        × All (λ d. contains seen d ≡ true) deps)
    × IsOrdered (t.columns.task_key ∷ seen) ts

>>=-passed {ℓ κ} :
    {A : Type ℓ} {B : Type κ} (c : Checked A) (f : A → Checked B) {b : B}
    → (c >>= f) ≡ passed b
    → (a : A) × (c ≡ passed a) × (f a ≡ passed b)
>>=-passed (refused r) f h = cc
>>=-passed (passed a) f h = (a, refl, h)

keys_of : Index → List Text
keys_of [] = []
keys_of ((k, i) ∷ index) = k ∷ keys_of index

index_of-contains :
    (index : Index) (key : Text) (i : ℕ)
    → index_of index key ≡ some i
    → contains (keys_of index) key ≡ true
unfolding index_of keys_of
index_of-contains [] key i h = cc
index_of-contains ((k, j) ∷ index) key i h = ground (arith, index_of-contains index key i)

index_of-fresh :
    (index : Index) (key : Text) → index_of index key ≡ none → contains (keys_of index) key ≡ false
unfolding index_of keys_of
index_of-fresh [] key h = refl
index_of-fresh ((k, j) ∷ index) key h = ground (arith, index_of-fresh index key)

require-passed {ℓ} :
    {A : Type ℓ} (b : Bool) (r : PlanExecutionBlocker) (c : Checked A) {a : A}
    → (require b r >>= λ _. c) ≡ passed a
    → (b ≡ true) × (c ≡ passed a)
require-passed true r c h = (refl, h)
require-passed false r c h = cc

-- What a step of the first loop checks.
scan_tasks-step :
    (s : PlanExecutionState) (i : ℕ) (old : Index) (n : ℕ) (t : PlanTask) (ts : List PlanTask)
    {r : Index × ℕ}
    → scan_tasks s i old n (t ∷ ts) ≡ passed r
    → (index_of old t.columns.task_key ≡ none)
      × ((not (is_final t) || i == length s.tasks - 1) ≡ true)
      × (scan_tasks s (i + 1) ((t.columns.task_key, i) ∷ old) (if is_final t then n + 1 else n) ts
          ≡ passed r)
unfolding scan_tasks
scan_tasks-step s i old n t ts {r} h =
    let fresh = not (has_index (index_of old t.columns.task_key)) in
    let last = not (is_final t) || i == length s.tasks - 1 in
    ground (arith, Bool-cases fresh, Bool-cases last)

-- An entry below every index that a scan adds was there before it.
scan_tasks-index_of :
    (s : PlanExecutionState) (i : ℕ) (old : Index) (n : ℕ) (ts : List PlanTask) (new : Index)
    (m : ℕ) (key : Text) (k : ℕ)
    → scan_tasks s i old n ts ≡ passed (new, m)
    → index_of new key ≡ some k
    → k < i
    → index_of old key ≡ some k
unfolding scan_tasks index_of
scan_tasks-index_of s i old n [] new m key k h found lt = ground arith
scan_tasks-index_of s i old n (t ∷ ts) new m key k h found lt =
    let step = scan_tasks-step s i old n t ts h in
    let before =
      scan_tasks-index_of s (i + 1) ((t.columns.task_key, i) ∷ old) _ ts new m key k step.2 found
        (omega (arith, lt)) in
    ground (arith, before)

check_dependencies-step :
    (by_key : Index) (i : ℕ) (t : PlanTask) (seen : List Text) (d : Text) (ds : List Text)
    → check_dependencies by_key i t seen (d ∷ ds) ≡ passed tt
    → ((k : ℕ) × (index_of by_key d ≡ some k) × (k < i))
      × (check_dependencies by_key i t (d ∷ seen) ds ≡ passed tt)
unfolding check_dependencies
check_dependencies-step by_key i t seen d ds h = elim (Option-cases (index_of by_key d)) [
  | inl missing ↦ ground (arith, Bool-cases (contains seen d))
  | inr (k, found) ↦ (
    (k, found, ground (arith, Bool-cases (contains seen d))),
    ground (arith, Bool-cases (contains seen d)),
  )
]

check_dependencies-earlier :
    (by_key : Index) (i : ℕ) (t : PlanTask) (seen ds : List Text)
    → check_dependencies by_key i t seen ds ≡ passed tt
    → All (λ d. (k : ℕ) × (index_of by_key d ≡ some k) × (k < i)) ds
check_dependencies-earlier by_key i t seen [] h = tt
check_dependencies-earlier by_key i t seen (d ∷ ds) h =
    let step = check_dependencies-step by_key i t seen d ds h in
    (step.0, check_dependencies-earlier by_key i t (d ∷ seen) ds step.1)

check_dependency_keys-decoded :
    (by_key : Index) (i : ℕ) (t : PlanTask) (keys : Option (List Text))
    → check_dependency_keys by_key i t keys ≡ passed tt
    → (ds : List Text) × (keys ≡ some ds)
      × All (λ d. (k : ℕ) × (index_of by_key d ≡ some k) × (k < i)) ds
unfolding check_dependency_keys
check_dependency_keys-decoded by_key i t none h = cc
check_dependency_keys-decoded by_key i t (some ds) h =
    (ds, refl, check_dependencies-earlier by_key i t [] ds h)

check_tasks-step :
    (by_key : Index) (i : ℕ) (t : PlanTask) (ts : List PlanTask)
    → check_tasks by_key i (t ∷ ts) ≡ passed tt
    → (check_dependency_keys by_key i t t.columns.dependency_keys ≡ passed tt)
      × (check_tasks by_key (i + 1) ts ≡ passed tt)
unfolding check_tasks
check_tasks-step by_key i t ts h =
    let acceptance =
      >>=-passed (check_acceptance t t.columns.acceptance_definition)
        (λ _. check_dependency_keys by_key i t t.columns.dependency_keys >>= λ _.
          check_tasks by_key (i + 1) ts)
        h in
    let dependencies =
      >>=-passed (check_dependency_keys by_key i t t.columns.dependency_keys)
        (λ _. check_tasks by_key (i + 1) ts) acceptance.2 in
    (dependencies.1, dependencies.2)

-- Both loops over the tasks from a position on.
loops-IsOrdered :
    (s : PlanExecutionState) (i : ℕ) (old : Index) (n : ℕ) (ts : List PlanTask) (new : Index)
    (m : ℕ)
    → scan_tasks s i old n ts ≡ passed (new, m)
    → check_tasks new i ts ≡ passed tt
    → IsOrdered (keys_of old) ts
unfolding IsOrdered keys_of
loops-IsOrdered s i old n [] new m scanned checked = tt
loops-IsOrdered s i old n (t ∷ ts) new m scanned checked =
    let step = scan_tasks-step s i old n t ts scanned in
    let check = check_tasks-step new i t ts checked in
    let deps = check_dependency_keys-decoded new i t t.columns.dependency_keys check.0 in
    let seen =
      All-map
        (λ d e.
          index_of-contains old d e.0
            (scan_tasks-index_of s i old n (t ∷ ts) new m d e.0 scanned e.1 e.2))
        deps.0 deps.2 in
    (
      index_of-fresh old t.columns.task_key step.0,
      (deps.0, deps.1, seen),
      loops-IsOrdered s (i + 1) ((t.columns.task_key, i) ∷ old) _ ts new m step.2 check.1,
    )

check_graph-passed :
    (s : PlanExecutionState)
    → check_graph s ≡ passed tt
    → (by_key : Index) × (scan_tasks s 0 [] 0 s.tasks ≡ passed (by_key, 1))
      × (check_tasks by_key 0 s.tasks ≡ passed tt)
unfolding check_graph
check_graph-passed s h =
    let scan =
      >>=-passed (scan_tasks s 0 [] 0 s.tasks)
        (λ (by_key, finals).
          require (finals == 1) (plan_validation_scheduling_blocker s final_count) >>= λ _.
          check_tasks by_key 0 s.tasks)
        h in
    let rest =
      require-passed (scan.0.1 == 1) (plan_validation_scheduling_blocker s final_count)
        (check_tasks scan.0.0 0 s.tasks) scan.2 in
    (scan.0.0, ground (arith, scan.1, rest.0), rest.1)

-- When an explicit plan passes validation, its task keys are distinct, and every task depends only
-- on tasks that stand before it.
pub validate-IsOrdered :
    (s : PlanExecutionState)
    → s.compatibility_mode ≡ false
    → validate_plan_execution_state s ≡ passed tt
    → IsOrdered [] s.tasks
unfolding validate_plan_execution_state keys_of
validate-IsOrdered s explicit h =
    let graph = check_graph-passed s (ground arith) in
    loops-IsOrdered s 0 [] 0 s.tasks graph.0 1 graph.1 graph.2
