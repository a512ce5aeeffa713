-- ===== src/Order.antt =====
-- backend/internal/planspec/planspec.go: the loop of `TopologicalOrder`, on tasks that have passed
-- `Validate`. The in-degree map is a function with 0 for a missing key; `none` stands for every
-- negative in-degree, which can only fall further.
pub mod Counts
pub mod Sorted
pub mod Degrees
pub mod Unplaced
pub mod Scan
pub mod Total
use mathlib.Core.List.{reverse}
use specrelay.Prelude.{
  ℕ, suc, ◌+◌, ◌-◌, Bool, true, false, ◌&&◌, Option, none, some, List, [], ◌∷◌, ◌++◌, ◌==◌,
  if◌then◌else◌, ltb, length, Text, text_eq, nat_eq,
}

pub record SpecTask : Type 0 where
  pub key : Text
  pub depends_on : List Text

abbrev pub Indegree : Type 0
Indegree = Text → Option ℕ

unfoldable pub set_degree : Text → Option ℕ → Indegree → Indegree
set_degree key n degree k = if key == k then n else degree k

-- The loop that fills `indexes`.
unfoldable pub index_from : ℕ → List SpecTask → Text → ℕ → ℕ
index_from i [] key found = found
index_from i (t ∷ ts) key found = index_from (i + 1) ts key (if t.key == key then i else found)

unfoldable pub initial_degrees : List SpecTask → Indegree → Indegree
unfolding set_degree
initial_degrees [] degree = degree
initial_degrees (t ∷ ts) degree =
    initial_degrees ts (set_degree t.key (some (length t.depends_on)) degree)

abbrev pub once_for : Text → Text → List Text → List Text
once_for ready key [] = []
once_for ready key (d ∷ ds) =
    let rest = once_for ready key ds in if d == ready then key ∷ rest else rest

-- `dependents[ready]`: a task is there once for each time that it names `ready`.
unfoldable pub dependents : List SpecTask → Text → List Text
dependents [] ready = []
dependents (t ∷ ts) ready = once_for ready t.key t.depends_on ++ dependents ts ready

abbrev pub lower : Option ℕ → Option ℕ
lower none = none
lower (some n) = if n == 0 then none else some (n - 1)

unfoldable pub lower_all : List Text → Indegree → Indegree
unfolding set_degree
lower_all [] degree = degree
lower_all (k ∷ ks) degree = lower_all ks (set_degree k (lower (degree k)) degree)

abbrev pub is_ready : Option ℕ → Bool
is_ready none = false
is_ready (some n) = n == 0

-- The scan for the ready task with the least index; no task has the empty key.
unfoldable pub find_ready : (Text → ℕ) → Indegree → List SpecTask → Text → ℕ → Text
find_ready index degree [] ready ready_index = ready
find_ready index degree (t ∷ ts) ready ready_index =
    if is_ready (degree t.key) && ltb (index t.key) ready_index
    then find_ready index degree ts t.key (index t.key)
    else find_ready index degree ts ready ready_index

-- The loop, for as many rounds as tasks are missing; `order` is what is placed, the last first.
unfoldable pub place_tasks : ℕ → List SpecTask → Indegree → List Text → Option (List Text)
unfolding index_from find_ready dependents lower_all
place_tasks ℕ.zero tasks degree order = some order
place_tasks (ℕ.suc n) tasks degree order =
    let ready = find_ready (λ key. index_from 0 tasks key 0) degree tasks [] (length tasks + 1) in
    let rest =
      place_tasks n tasks (lower_all (dependents tasks ready) (set_degree ready none degree))
        (ready ∷ order) in
    if ready == [] then none else rest

abbrev forward : Option (List Text) → Option (List Text)
forward none = none
forward (some placed) = some (reverse placed)

-- What follows the call of `Validate`; `none` is the error that the graph has no valid topological order.
unfoldable pub order_validated_tasks : List SpecTask → Option (List Text)
unfolding initial_degrees place_tasks
order_validated_tasks tasks =
    forward (place_tasks (length tasks) tasks (initial_degrees tasks (λ key. some 0)) [])
