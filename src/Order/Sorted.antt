-- ===== src/Order/Sorted.antt =====
-- What TopologicalOrder (backend/internal/planspec/planspec.go) returns.
use mathlib.Core.List.{reverse}
use specrelay.Prelude.{
  All-both, ℕ, ◌+◌, ◌≡◌, refl, ◌⊎◌, inl, inr, true, false, ◌&&◌, Option, none, some, List, [], ◌∷◌,
  ◌==◌, if◌then◌else◌, contains, length, ltb, Text, text_eq, nat_eq, text_beq_iff, arith, All,
  Bool-cases, Option-cases, ==_refl, subst, eq_of_some,
}
use specrelay.Order.{
  SpecTask, Indegree, set_degree, initial_degrees, dependents, lower_all, is_ready, find_ready,
  index_from, place_tasks, order_validated_tasks,
}
use specrelay.Order.Counts.{
  count, placed, placed-cons, placed-All, lower_all-count, Unique, HasCount, Unique-HasCount,
}

-- An in-degree that is left counts the dependencies that are not placed, and the task is not placed.
unfoldable pub Fits : Indegree → List Text → SpecTask → Type 0
Fits degree order t =
    (n : ℕ)
    → degree t.key ≡ some n
    → (n + placed order t.depends_on ≡ length t.depends_on) × (contains order t.key ≡ false)

Fits-step :
    (tasks : List SpecTask) (degree : Indegree) (order : List Text) (ready : Text) (t : SpecTask)
    → contains order ready ≡ false
    → HasCount tasks ready t
    → Fits degree order t
    → Fits (lower_all (dependents tasks ready) (set_degree ready none degree)) (ready ∷ order) t
unfolding Fits set_degree
Fits-step tasks degree order ready t fresh counted fits n h =
    let before =
      lower_all-count (dependents tasks ready) (set_degree ready none degree) t.key n h in
    let was = fits (n + count ready t.depends_on) (ground (arith, before, counted)) in
    (
      ground (arith, was.0, placed-cons order ready t.depends_on fresh),
      ground (arith, before, was.1),
    )

pub Fits-All :
    (tasks : List SpecTask) (degree : Indegree) (order : List Text) (ready : Text)
    (ts : List SpecTask)
    → contains order ready ≡ false
    → All (HasCount tasks ready) ts
    → All (Fits degree order) ts
    → All
        (Fits (lower_all (dependents tasks ready) (set_degree ready none degree)) (ready ∷ order))
        ts
Fits-All tasks degree order ready [] fresh c f = tt
Fits-All tasks degree order ready (t ∷ ts) fresh c f = (
  Fits-step tasks degree order ready t fresh c.0 f.0,
  Fits-All tasks degree order ready ts fresh c.1 f.1,
)

unfoldable pub find_task : Text → List SpecTask → Option SpecTask
find_task k [] = none
find_task k (t ∷ ts) = if t.key == k then some t else find_task k ts

-- The scan keeps its candidate or finds a ready task of the list.
find_ready-found :
    (P : SpecTask → Type 0) (index : Text → ℕ) (degree : Indegree) (ts : List SpecTask)
    (ready : Text) (i : ℕ)
    → All P ts
    → (find_ready index degree ts ready i ≡ ready)
      ⊎ ((t : SpecTask) × (find_ready index degree ts ready i ≡ t.key)
          × (is_ready (degree t.key) ≡ true)
          × P t)
unfolding find_ready
find_ready-found P index degree [] ready i h = inl refl
find_ready-found P index degree (t ∷ ts) ready i h =
    elim (Bool-cases (is_ready (degree t.key) && ltb (index t.key) i)) [
      | inl better ↦ rw better (elim (find_ready-found P index degree ts t.key (index t.key) h.1) [
        | inl kept ↦ inr (t, kept, ground (arith, better), h.0)
        | inr found ↦ inr found
      ])
      | inr worse ↦ rw worse (find_ready-found P index degree ts ready i h.1)
    ]

Unique-find_task-cons :
    (t : SpecTask) (ts us : List SpecTask)
    → All (λ u. (u.key == t.key) ≡ false) us
    → All (λ u. find_task u.key ts ≡ some u) us
    → All (λ u. find_task u.key (t ∷ ts) ≡ some u) us
unfolding find_task
Unique-find_task-cons t ts [] others h = tt
Unique-find_task-cons t ts (u ∷ us) others h = (
  ground (arith, h.0, others.0, text_beq_iff u.key t.key, text_beq_iff t.key u.key),
  Unique-find_task-cons t ts us others.1 h.1,
)

pub Unique-find_task : (ts : List SpecTask) → Unique ts → All (λ t. find_task t.key ts ≡ some t) ts
unfolding find_task
Unique-find_task [] h = tt
Unique-find_task (t ∷ ts) h =
    (ground (arith, ==_refl t.key), Unique-find_task-cons t ts ts h.0 (Unique-find_task ts h.1))

-- The last task first: no task twice, each a task of the list, after all its dependencies.
pub IsSorted : List SpecTask → List Text → Type 0
IsSorted tasks [] = Unit
IsSorted tasks (k ∷ earlier) =
    (contains earlier k ≡ false)
    × ((t : SpecTask) × (find_task k tasks ≡ some t)
        × All (λ d. contains earlier d ≡ true) t.depends_on)
    × IsSorted tasks earlier

abbrev pub scan : List SpecTask → Indegree → Text
scan tasks degree = find_ready (λ key. index_from 0 tasks key 0) degree tasks [] (length tasks + 1)

pub scan-ready :
    (tasks : List SpecTask) (degree : Indegree) (order : List Text)
    → Unique tasks
    → All (Fits degree order) tasks
    → (scan tasks degree == []) ≡ false
    → (contains order (scan tasks degree) ≡ false)
      × ((t : SpecTask) × (find_task (scan tasks degree) tasks ≡ some t)
          × All (λ d. contains order d ≡ true) t.depends_on)
unfolding Fits
scan-ready tasks degree order unique fits found =
    elim (find_ready-found (λ t. Fits degree order t × (find_task t.key tasks ≡ some t))
      (λ key. index_from 0 tasks key 0) degree tasks [] (length tasks + 1)
      (All-both _ _ tasks fits (Unique-find_task tasks unique))) [
        | inl nothing ↦ let blank = (text_beq_iff (scan tasks degree) []).1 nothing in cc
        | inr (t, e, ready, (fit, listed)) ↦
            let zero_left = fit 0 (ground (arith, ready, Option-cases (degree t.key))) in
            (
              ground (arith, e, zero_left.1),
              (
                t,
                ground (arith, e, listed),
                placed-All order t.depends_on (omega (arith, zero_left.0)),
              ),
            )
      ]

place_tasks-IsSorted :
    (n : ℕ) (tasks : List SpecTask) (degree : Indegree) (order : List Text) {result : List Text}
    → Unique tasks
    → All (Fits degree order) tasks
    → IsSorted tasks order
    → place_tasks n tasks degree order ≡ some result
    → IsSorted tasks result × (length result ≡ n + length order)
unfolding place_tasks IsSorted
place_tasks-IsSorted ℕ.zero tasks degree order {result} unique fits sorted h =
    (subst (IsSorted tasks) (eq_of_some h) sorted, ground (arith, eq_of_some h))
place_tasks-IsSorted (ℕ.suc n) tasks degree order {result} unique fits sorted h =
    elim (Bool-cases (scan tasks degree == [])) [
      | inl none_ready ↦ ground (arith, none_ready)
      | inr found ↦
          let ready = scan-ready tasks degree order unique fits found in
          let rest =
            place_tasks-IsSorted n tasks
              (lower_all (dependents tasks (scan tasks degree))
                (set_degree (scan tasks degree) none degree))
              (scan tasks degree ∷ order) {result = result} unique
              (Fits-All tasks degree order (scan tasks degree) tasks ready.0
                (Unique-HasCount tasks (scan tasks degree) unique) fits)
              (ready.0, ready.1, sorted) (ground (arith, found)) in
          (rest.0, omega (arith, rest.1))
    ]

-- Every in-degree starts as the number of dependencies.
initial_degrees-other :
    (ts : List SpecTask) (degree : Indegree) (k : Text)
    → All (λ u. (u.key == k) ≡ false) ts
    → initial_degrees ts degree k ≡ degree k
unfolding initial_degrees set_degree
initial_degrees-other [] degree k h = refl
initial_degrees-other (t ∷ ts) degree k h = ground (
  arith,
  initial_degrees-other ts (set_degree t.key (some (length t.depends_on)) degree) k h.1,
  h.0,
)

pub initial_degrees-length :
    (ts : List SpecTask) (degree : Indegree)
    → Unique ts
    → All (λ t. initial_degrees ts degree t.key ≡ some (length t.depends_on)) ts
unfolding initial_degrees set_degree
initial_degrees-length [] degree h = tt
initial_degrees-length (t ∷ ts) degree h =
    let set = set_degree t.key (some (length t.depends_on)) degree in
    (
      ground (arith, initial_degrees-other ts set t.key h.0, ==_refl t.key),
      initial_degrees-length ts set h.1,
    )

placed-empty : (ds : List Text) → placed [] ds ≡ 0
unfolding placed
placed-empty [] = refl
placed-empty (d ∷ ds) = omega (arith, placed-empty ds)

pub initial-Fits :
    (degree : Indegree) (ts : List SpecTask)
    → All (λ t. degree t.key ≡ some (length t.depends_on)) ts
    → All (Fits degree []) ts
unfolding Fits
initial-Fits degree [] h = tt
initial-Fits degree (t ∷ ts) h =
    (λ n e. (ground (arith, e, h.0, placed-empty t.depends_on), refl), initial-Fits degree ts h.1)

-- For tasks with distinct keys, an order that the loop returns has, read from its end, as many keys as
-- there are tasks, none twice, each the key of a task, and every task stands after all its
-- dependencies.
pub order_validated_tasks-IsSorted :
    (tasks : List SpecTask) (order : List Text)
    → Unique tasks
    → order_validated_tasks tasks ≡ some order
    → (last_first : List Text) × (order ≡ reverse last_first)
      × IsSorted tasks last_first
      × (length last_first ≡ length tasks)
unfolding order_validated_tasks IsSorted
order_validated_tasks-IsSorted tasks order unique h =
    let degree = initial_degrees tasks (λ key. some 0) in
    elim (Option-cases (place_tasks (length tasks) tasks degree [])) [
      | inl failed ↦ ground (arith, failed)
      | inr (last_first, e) ↦
          let result =
            place_tasks-IsSorted (length tasks) tasks degree [] {result = last_first} unique
              (initial-Fits degree tasks (initial_degrees-length tasks (λ key. some 0) unique)) tt
              e in
          (last_first, ground (arith, e), result.0, omega (arith, result.1))
    ]
