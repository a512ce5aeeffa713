-- ===== src/Order/Total.antt =====
-- TopologicalOrder (backend/internal/planspec/planspec.go) finds an order wherever there is one.
use mathlib.Core.List.{reverse}
use specrelay.Prelude.{
  ℕ, subst, ◌+◌, ◌<◌, ◌≡◌, ◌≢◌, refl, ap, ◌∙◌, ◌⊎◌, inl, inr, true, false, none, some, List, [],
  ◌∷◌, ◌==◌, contains, length, Text, text_eq, nat_eq, text_beq_iff, arith, All, Bool-cases,
  eq_of_some,
}
use specrelay.Order.{
  SpecTask, Indegree, set_degree, initial_degrees, dependents, lower_all, is_ready, index_from,
  place_tasks, order_validated_tasks,
}
use specrelay.Order.Counts.{placed, Unique, HasCount, Unique-HasCount}
use specrelay.Order.Sorted.{
  Fits, Fits-All, find_task, scan, scan-ready, initial_degrees-length, initial-Fits,
  Unique-find_task,
}
use specrelay.Order.Degrees.{HasDegree, HasDegree-step}
use specrelay.Order.Unplaced.{unplaced, unplaced-cons, find_unplaced}
use specrelay.Order.Scan.{HasKey, find_ready-some, index_from-small}

-- Each dependency is placed, or one is not.
open_dependency :
    (order ds : List Text) (P : Text → Type 0)
    → All P ds
    → (placed order ds ≡ length ds) ⊎ ((d : Text) × P d × (contains order d ≡ false))
unfolding placed
open_dependency order [] P h = inl refl
open_dependency order (d ∷ ds) P h = elim (Bool-cases (contains order d)) [
  | inr missing ↦ inr (d, h.0, missing)
  | inl there ↦ elim (open_dependency order ds P h.1) [
    | inl rest ↦ inl (ground (arith, there, rest))
    | inr found ↦ inr found
  ]
]

-- A task whose key is not empty and whose dependencies are tasks of a smaller rank.
unfoldable pub IsRanked : (Text → ℕ) → List SpecTask → SpecTask → Type 0
IsRanked rank tasks t =
    (t.key ≢ [])
    × All (λ d. (u : SpecTask) × (find_task d tasks ≡ some u) × (rank d < rank t.key)) t.depends_on

find_task-key : (k : Text) (ts : List SpecTask) {t : SpecTask} → find_task k ts ≡ some t → t.key ≡ k
unfolding find_task
find_task-key k [] h = cc
find_task-key k (u ∷ us) {t} h =
    ground (arith, h, find_task-key k us {t = t}, text_beq_iff u.key k, Bool-cases (u.key == k))

find_task-All :
    (P : SpecTask → Type 0) (k : Text) (ts : List SpecTask) {t : SpecTask}
    → All P ts
    → find_task k ts ≡ some t
    → P t
unfolding find_task
find_task-All P k [] h found = cc
find_task-All P k (u ∷ us) {t} h found = elim (Bool-cases (u.key == k)) [
  | inl same ↦ subst P (eq_of_some (ground (arith, found, same))) h.0
  | inr other ↦ find_task-All P k us {t = t} h.1 (ground (arith, found, other))
]

-- What holds of every task between two rounds.
abbrev Known : (Text → ℕ) → List SpecTask → Indegree → List Text → SpecTask → Type 0
Known rank tasks degree order t =
    (find_task t.key tasks ≡ some t)
    × IsRanked rank tasks t
    × Fits degree order t
    × HasDegree degree order t

-- Of the tasks that are not placed one of the least rank is ready.
some_ready :
    (bound : ℕ) (rank : Text → ℕ) (tasks : List SpecTask) (degree : Indegree) (order : List Text)
    (t : SpecTask)
    → All (Known rank tasks degree order) tasks
    → find_task t.key tasks ≡ some t
    → contains order t.key ≡ false
    → rank t.key < bound
    → (u : SpecTask) × (find_task u.key tasks ≡ some u) × (is_ready (degree u.key) ≡ true)
unfolding IsRanked Fits HasDegree
some_ready ℕ.zero rank tasks degree order t known listed missing small =
    absurd (omega (arith, small))
some_ready (ℕ.suc b) rank tasks degree order t known listed missing small =
    let (_, ranked, fit, has) =
      find_task-All (Known rank tasks degree order) t.key tasks {t = t} known listed in
    let (n, e) = has missing in
    elim (open_dependency order t.depends_on
      (λ d. (u : SpecTask) × (find_task d tasks ≡ some u) × (rank d < rank t.key)) ranked.1) [
        | inl all_placed ↦
            let zero_left : n ≡ 0 = omega (arith, (fit n e).0, all_placed) in
            (t, listed, ground (arith, e, zero_left))
        | inr (d, (u, found, lower_rank), open_d) ↦
            let key = find_task-key d tasks {t = u} found in
            some_ready b rank tasks degree order u known (ap (λ k. find_task k tasks) key ∙ found)
              (ap (contains order) key ∙ open_d) (ground (arith, key, lower_rank, small))
      ]

Known-step :
    (rank : Text → ℕ) (tasks : List SpecTask) (degree : Indegree) (order : List Text) (ready : Text)
    (ts : List SpecTask)
    → contains order ready ≡ false
    → All (HasCount tasks ready) ts
    → All (Known rank tasks degree order) ts
    → All
        (Known rank tasks
          (lower_all (dependents tasks ready) (set_degree ready none degree))
          (ready ∷ order))
        ts
Known-step rank tasks degree order ready [] fresh c h = tt
Known-step rank tasks degree order ready (t ∷ ts) fresh c h =
    let (listed, ranked, fit, has) = h.0 in
    (
      (
        listed,
        ranked,
        (Fits-All tasks degree order ready (t ∷ []) fresh (c.0, tt) (fit, tt)).0,
        HasDegree-step tasks degree order ready t fresh c.0 fit has,
      ),
      Known-step rank tasks degree order ready ts fresh c.1 h.1,
    )

Known-keys :
    (rank : Text → ℕ) (tasks : List SpecTask) (degree : Indegree) (order : List Text)
    (ts : List SpecTask)
    → All (Known rank tasks degree order) ts
    → All HasKey ts × All (Fits degree order) ts
unfolding IsRanked
Known-keys rank tasks degree order [] h = (tt, tt)
Known-keys rank tasks degree order (t ∷ ts) h =
    let rest = Known-keys rank tasks degree order ts h.1 in ((h.0.1.0, rest.0), (h.0.2, rest.1))

scan-some :
    (rank : Text → ℕ) (tasks : List SpecTask) (degree : Indegree) (order : List Text)
    → All (Known rank tasks degree order) tasks
    → 0 < unplaced order tasks
    → scan tasks degree ≢ []
scan-some rank tasks degree order known some_left =
    let (t, knows, missing) =
      find_unplaced order tasks some_left (Known rank tasks degree order) known in
    let (u, found, ready) =
      some_ready (rank t.key + 1) rank tasks degree order t known knows.0 missing (omega arith) in
    find_ready-some (λ key. index_from 0 tasks key 0) degree tasks (length tasks + 1) u.key {u = u}
      (Known-keys rank tasks degree order tasks known).0 found ready
      (index_from-small 0 tasks u.key 0 (length tasks + 1) (omega arith) (omega arith))

place_tasks-some :
    (n : ℕ) (rank : Text → ℕ) (tasks : List SpecTask) (degree : Indegree) (order : List Text)
    → Unique tasks
    → All (Known rank tasks degree order) tasks
    → unplaced order tasks ≡ n
    → (result : List Text) × (place_tasks n tasks degree order ≡ some result)
unfolding place_tasks
place_tasks-some ℕ.zero rank tasks degree order unique known left = (order, refl)
place_tasks-some (ℕ.suc n) rank tasks degree order unique known left =
    let ready = scan tasks degree in
    let found = scan-some rank tasks degree order known (omega (arith, left)) in
    let test : (ready == []) ≡ false = elim (Bool-cases (ready == [])) [
      | inl none_ready ↦ absurd (found ((text_beq_iff ready []).0 none_ready))
      | inr some_found ↦ some_found
    ] in
    let (fresh, (t, listed, _)) =
      scan-ready tasks degree order unique (Known-keys rank tasks degree order tasks known).1
        test in
    let rest =
      place_tasks-some n rank tasks
        (lower_all (dependents tasks ready) (set_degree ready none degree)) (ready ∷ order) unique
        (Known-step rank tasks degree order ready tasks fresh (Unique-HasCount tasks ready unique)
          known)
        (omega (arith, unplaced-cons order ready tasks {t = t} unique listed fresh, left)) in
    (rest.0, rw test rest.1)

unplaced-empty : (ts : List SpecTask) → unplaced [] ts ≡ length ts
unfolding unplaced
unplaced-empty [] = refl
unplaced-empty (t ∷ ts) = omega (arith, unplaced-empty ts)

initial-Known :
    (rank : Text → ℕ) (tasks : List SpecTask) (degree : Indegree) (ts : List SpecTask)
    → All (λ t. find_task t.key tasks ≡ some t) ts
    → All (IsRanked rank tasks) ts
    → All (λ t. degree t.key ≡ some (length t.depends_on)) ts
    → All (Known rank tasks degree []) ts
unfolding HasDegree
initial-Known rank tasks degree [] l r d = tt
initial-Known rank tasks degree (t ∷ ts) l r d = (
  (l.0, r.0, (initial-Fits degree (t ∷ []) (d.0, tt)).0, λ missing. (length t.depends_on, d.0)),
  initial-Known rank tasks degree ts l.1 r.1 d.1,
)

-- Once Validate has passed, the rest of TopologicalOrder returns an order for all tasks without a
-- cycle: the keys are distinct and not empty, every dependency is the key of a task, and some rank
-- falls along the dependencies.
pub order_validated_tasks-some :
    (rank : Text → ℕ) (tasks : List SpecTask)
    → Unique tasks
    → All (IsRanked rank tasks) tasks
    → (order : List Text) × (order_validated_tasks tasks ≡ some order)
unfolding order_validated_tasks
order_validated_tasks-some rank tasks unique ranked =
    let degree = initial_degrees tasks (λ key. some 0) in
    let known =
      initial-Known rank tasks degree tasks (Unique-find_task tasks unique) ranked
        (initial_degrees-length tasks (λ key. some 0) unique) in
    let placed_all =
      place_tasks-some (length tasks) rank tasks degree [] unique known (unplaced-empty tasks) in
    (reverse placed_all.0, rw placed_all.1 refl)
