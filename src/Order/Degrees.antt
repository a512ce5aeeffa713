-- ===== src/Order/Degrees.antt =====
-- The in-degrees of the tasks that are not placed, in the loop of TopologicalOrder
-- (backend/internal/planspec/planspec.go).
use specrelay.Prelude.{
  ℕ, ◌+◌, ◌≡◌, ap, inl, inr, false, none, some, List, [], ◌∷◌, ◌==◌, contains, Text, text_eq,
  nat_eq, text_beq_iff, arith, Bool-cases,
}
use specrelay.Order.{SpecTask, Indegree, set_degree, dependents, lower, lower_all}
use specrelay.Order.Counts.{count, placed-cons, placed-le, HasCount}
use specrelay.Order.Sorted.{Fits}

-- An in-degree that is large enough is lowered once for each time that its key is listed.
lower_all-left :
    (ks : List Text) (degree : Indegree) (k : Text) (n : ℕ)
    → degree k ≡ some (n + count k ks)
    → lower_all ks degree k ≡ some n
unfolding lower_all set_degree count
lower_all-left [] degree k n h = ground (arith, h)
lower_all-left (x ∷ xs) degree k n h = elim (Bool-cases (x == k)) [
  | inl same ↦
      let e = (text_beq_iff x k).0 same in
      lower_all-left xs (set_degree x (lower (degree x)) degree) k n
        (ground (arith, h, ap degree e, same))
  | inr other ↦
      lower_all-left xs (set_degree x (lower (degree x)) degree) k n (ground (arith, h, other))
]

-- A task that is not placed has an in-degree.
unfoldable pub HasDegree : Indegree → List Text → SpecTask → Type 0
HasDegree degree order t = contains order t.key ≡ false → (n : ℕ) × (degree t.key ≡ some n)

pub HasDegree-step :
    (tasks : List SpecTask) (degree : Indegree) (order : List Text) (ready : Text) (t : SpecTask)
    → contains order ready ≡ false
    → HasCount tasks ready t
    → Fits degree order t
    → HasDegree degree order t
    → HasDegree
        (lower_all (dependents tasks ready) (set_degree ready none degree))
        (ready ∷ order)
        t
unfolding Fits HasDegree set_degree
HasDegree-step tasks degree order ready t fresh counted fits has missing =
    let (n, e) = has (ground (arith, missing)) in
    let fit = fits n e in
    let (rest, within) = placed-le (ready ∷ order) t.depends_on in
    let grown = placed-cons order ready t.depends_on fresh in
    (
      rest,
      lower_all-left (dependents tasks ready) (set_degree ready none degree) t.key rest
          (ground (arith, missing, e, counted, fit.0, within, grown)),
    )
