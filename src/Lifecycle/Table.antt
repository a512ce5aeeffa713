-- ===== src/Lifecycle/Table.antt =====
-- The transition tables of the lifecycle contracts, read as a whole.
use specrelay.Prelude.{
  ◌≡◌, refl, ◌↔◌, Bool, true, false, not, ◌&&◌, some, [], ◌∷◌, arith, ◌==◌, contains, all,
  all-contains,
}
use specrelay.Failure.{ok}
use specrelay.Status.{Status, status_eq, status_beq, status_beq_iff}
use specrelay.Lifecycle.{
  LifecycleResource, plan, task, job, agent_run, applied, TransitionSet, StatusSet, destinations,
  lifecycle_contracts, parse_lifecycle_resource, evaluate_in, evaluate_transition, resource_name,
}

parse-resource_name : (r : LifecycleResource) → parse_lifecycle_resource (resource_name r) ≡ some r
unfolding parse_lifecycle_resource
parse-resource_name plan = refl
parse-resource_name task = refl
parse-resource_name job = refl
parse-resource_name agent_run = refl

-- For a resource's own name the evaluator reads that resource's contract.
pub evaluate-resource_name :
    (r : LifecycleResource) (from to : Status)
    → evaluate_transition (resource_name r) from to
      ≡ evaluate_in (lifecycle_contracts r).known (lifecycle_contracts r).transitions from to
unfolding evaluate_transition
evaluate-resource_name plan from to = refl
evaluate-resource_name task from to = refl
evaluate-resource_name job from to = refl
evaluate-resource_name agent_run from to = refl

abbrev entry_closed : StatusSet → Status × StatusSet → Bool
entry_closed known (from, ds) =
    contains known from && all (λ to. contains known to && not (from == to)) ds

-- Every edge of a closed table joins two different known statuses.
edge_ends :
    (known : StatusSet) (transitions : TransitionSet) (from to : Status)
    → all (entry_closed known) transitions ≡ true
    → contains (destinations transitions from) to ≡ true
    → (contains known from ≡ true) × (contains known to ≡ true) × ((from == to) ≡ false)
unfolding destinations
edge_ends known [] from to h c = cc
edge_ends known ((s, ds) ∷ rest) from to h c = ground (
  arith,
  status_beq_iff s from,
  edge_ends known rest from to,
  all-contains (λ d. contains known d && not (s == d)) ds to,
)

contracts_closed :
    (r : LifecycleResource)
    → all (entry_closed (lifecycle_contracts r).known) (lifecycle_contracts r).transitions ≡ true
unfolding lifecycle_contracts status_beq
contracts_closed plan = refl
contracts_closed task = refl
contracts_closed job = refl
contracts_closed agent_run = refl

evaluate_in-applied_of_edge :
    (known : StatusSet) (transitions : TransitionSet) (from to : Status)
    → all (entry_closed known) transitions ≡ true
    → contains (destinations transitions from) to ≡ true
    → evaluate_in known transitions from to ≡ ok applied
unfolding evaluate_in
evaluate_in-applied_of_edge known transitions from to h c =
    ground (arith, edge_ends known transitions from to)

edge_of_evaluate_in :
    (known : StatusSet) (transitions : TransitionSet) (from to : Status)
    → evaluate_in known transitions from to ≡ ok applied
    → contains (destinations transitions from) to ≡ true
unfolding evaluate_in
edge_of_evaluate_in known transitions from to h = ground arith

-- For each of the four resources a change of status is applied exactly when the resource's table
-- lists the new status under the old one: the evaluator's checks that both are known and differ
-- reject no edge of the table.
pub evaluate_transition-applied_iff :
    (r : LifecycleResource) (from to : Status)
    → (evaluate_transition (resource_name r) from to ≡ ok applied)
      ↔ (contains (destinations (lifecycle_contracts r).transitions from) to ≡ true)
evaluate_transition-applied_iff r from to =
    rw (evaluate-resource_name r from to) (
      edge_of_evaluate_in _ _ from to,
      evaluate_in-applied_of_edge _ _ from to (contracts_closed r),
    )
