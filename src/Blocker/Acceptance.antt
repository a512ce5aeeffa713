-- ===== src/Blocker/Acceptance.antt =====
-- When the acceptance gate of backend/internal/repository/queue.go lets a task pass.
use specrelay.Prelude.{
  ◌≡◌, ◌⊎◌, refl, true, none, some, List, [], ◌∷◌, ◌++◌, Text, arith, All, Option, Bool-cases, inl,
  inr,
}
use specrelay.Store.{AcceptanceItemResult, AcceptanceResult, PlanTask}
use specrelay.Blocker.{
  acceptance_status_passed, item_by_key, blocking_item, acceptance_blockers, judge_acceptance,
  acceptance_scheduling_blocker,
}

-- The last item of the key passed or was skipped.
pub HasPassed : List AcceptanceItemResult → Text → Type 0
HasPassed items key =
    (item : AcceptanceItemResult) × (item_by_key items key ≡ some item)
    × (acceptance_status_passed item.status ≡ true)

-- The task's acceptance passed or was skipped as a whole, and so did every required item.
pub IsAccepted : PlanTask → Type 0
IsAccepted t =
    (acceptance_status_passed t.columns.acceptance_status ≡ true)
    × ((definition : List Text) × (t.columns.acceptance_definition ≡ some definition)
        × ((result : AcceptanceResult) × (t.columns.acceptance_result ≡ some result)
            × All (HasPassed result.items) definition))

list-cases {ℓ} : {A : Type ℓ} (xs : List A) → (xs ≡ []) ⊎ ((x : A) × ((r : List A) × (xs ≡ x ∷ r)))
list-cases [] = inl refl
list-cases (x ∷ r) = inr (x, (r, refl))

append-empty {ℓ} : {A : Type ℓ} (xs ys : List A) → (xs ++ ys) ≡ [] → (xs ≡ []) × (ys ≡ [])
append-empty [] ys h = (refl, h)
append-empty (x ∷ xs) ys h = cc

blocking_item-none :
    (o : Option AcceptanceItemResult) (key : Text)
    → blocking_item o key ≡ []
    → (item : AcceptanceItemResult) × (o ≡ some item)
      × (acceptance_status_passed item.status ≡ true)
unfolding blocking_item
blocking_item-none none key h = cc
blocking_item-none (some item) key h = elim (Bool-cases (acceptance_status_passed item.status)) [
  | inl passed ↦ (item, refl, passed)
  | inr open_item ↦ ground arith
]

acceptance_blockers-none :
    (items : List AcceptanceItemResult) (definition : List Text)
    → acceptance_blockers items definition ≡ []
    → All (HasPassed items) definition
unfolding acceptance_blockers HasPassed
acceptance_blockers-none items [] h = tt
acceptance_blockers-none items (key ∷ definition) h =
    let parts =
      append-empty (blocking_item (item_by_key items key) key)
        (acceptance_blockers items definition) h in
    (
      blocking_item-none (item_by_key items key) key parts.0,
      acceptance_blockers-none items definition parts.1,
    )

judge-none :
    (t : PlanTask) (d : Option (List Text)) (r : Option AcceptanceResult)
    → judge_acceptance t d r ≡ none
    → (acceptance_status_passed t.columns.acceptance_status ≡ true)
      × ((definition : List Text) × (d ≡ some definition)
          × ((result : AcceptanceResult) × (r ≡ some result)
              × All (HasPassed result.items) definition))
unfolding judge_acceptance
judge-none t none r h = cc
judge-none t (some d) none h = cc
judge-none t (some d) (some r) h =
    elim (Bool-cases (acceptance_status_passed t.columns.acceptance_status)) [
      | inr pending ↦ ground arith
      | inl passed ↦ elim (list-cases (acceptance_blockers r.items d)) [
        | inl empty ↦ (passed, (d, refl, (r, refl, acceptance_blockers-none r.items d empty)))
        | inr (item, (rest, blocked)) ↦ ground arith
      ]
    ]

-- The acceptance gate reports no blocker only for an accepted task.
pub acceptance_scheduling_blocker-none :
    (t : PlanTask) → acceptance_scheduling_blocker t ≡ none → IsAccepted t
unfolding acceptance_scheduling_blocker IsAccepted
acceptance_scheduling_blocker-none t h =
    judge-none t t.columns.acceptance_definition t.columns.acceptance_result h
