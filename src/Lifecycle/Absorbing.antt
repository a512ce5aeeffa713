-- ===== src/Lifecycle/Absorbing.antt =====
-- Durable terminal states and the cancelling state of the lifecycle contracts.
use specrelay.Prelude.{
  ◌≡◌, ◌≢◌, refl, Bool, true, false, not, ◌||◌, [], ◌∷◌, arith, ◌==◌, contains, all, all-contains,
  Text, text, text_eq, Option, none, some, inl, inr, Bool-cases,
}
use specrelay.Failure.{ok, err, invalid_transition}
use specrelay.Status.{Status, status_eq, status_beq, status_beq_iff, timed_out}
use specrelay.Lifecycle.{
  LifecycleResource, plan, task, job, agent_run, applied, TransitionSet, StatusSet, destinations,
  lifecycle_contracts, intake_transitions, intake_statuses, evaluate_in, evaluate_parsed,
  evaluate_transition, parse_lifecycle_resource, resource_name, is_terminal_status,
  is_recoverable_terminal_status, is_cancelling_status,
}
use specrelay.Lifecycle.Table.{evaluate-resource_name, evaluate_transition-applied_iff}

abbrev is_empty : StatusSet → Bool
is_empty [] = true
is_empty (s ∷ ss) = false

abbrev absorbing : LifecycleResource → Status → Bool
absorbing r s =
    is_recoverable_terminal_status r s
    || is_empty (destinations (lifecycle_contracts r).transitions s)

terminal_absorbing :
    (r : LifecycleResource) → all (absorbing r) (lifecycle_contracts r).terminal ≡ true
unfolding is_recoverable_terminal_status destinations status_beq
terminal_absorbing plan = refl
terminal_absorbing task = refl
terminal_absorbing job = refl
terminal_absorbing agent_run = refl

-- A terminal status that is not recoverable has no way out: every change of status from it is
-- refused with the invalid-transition error.
terminal-evaluate_transition :
    (r : LifecycleResource) (from to : Status)
    → is_terminal_status r from ≡ true
    → is_recoverable_terminal_status r from ≡ false
    → from ≢ to
    → evaluate_transition (resource_name r) from to ≡ err invalid_transition
unfolding is_terminal_status evaluate_in
terminal-evaluate_transition r from to t n d = rw (evaluate-resource_name r from to) (
    ground (
      arith,
      status_beq_iff from to,
      all-contains (absorbing r) (lifecycle_contracts r).terminal from (terminal_absorbing r),
    ))

abbrev ends : LifecycleResource → Status → Bool
ends r s = all (is_terminal_status r) (destinations (lifecycle_contracts r).transitions s)

cancelling_ends :
    (r : LifecycleResource) → all (ends r) (lifecycle_contracts r).cancelling_set ≡ true
unfolding is_terminal_status destinations status_beq
cancelling_ends plan = refl
cancelling_ends task = refl
cancelling_ends job = refl
cancelling_ends agent_run = refl

-- Whatever is being cancelled can change only to a terminal status: work never resumes from there.
pub cancelling-evaluate_transition :
    (r : LifecycleResource) (from to : Status)
    → is_cancelling_status r from ≡ true
    → evaluate_transition (resource_name r) from to ≡ ok applied
    → is_terminal_status r to ≡ true
unfolding is_cancelling_status
cancelling-evaluate_transition r from to c e =
    all-contains (is_terminal_status r) (destinations (lifecycle_contracts r).transitions from) to
      (all-contains (ends r) (lifecycle_contracts r).cancelling_set from (cancelling_ends r) c)
      ((evaluate_transition-applied_iff r from to).0 e)

abbrev avoids : Status → TransitionSet → Bool
avoids t = all (λ (from, ds). not (contains ds t))

avoids-destinations :
    (t : Status) (ts : TransitionSet) (from : Status)
    → avoids t ts ≡ true
    → contains (destinations ts from) t ≡ false
unfolding destinations
avoids-destinations t [] from h = refl
avoids-destinations t ((s, ds) ∷ rest) from h = ground (arith, avoids-destinations t rest from)

timed_out_avoided :
    (r : LifecycleResource) → avoids timed_out (lifecycle_contracts r).transitions ≡ true
unfolding lifecycle_contracts status_beq
timed_out_avoided plan = refl
timed_out_avoided task = refl
timed_out_avoided job = refl
timed_out_avoided agent_run = refl

intake_avoids : avoids timed_out intake_transitions ≡ true
unfolding intake_transitions status_beq
intake_avoids = refl

evaluate_in-avoids :
    (known : StatusSet) (ts : TransitionSet) (from t : Status)
    → avoids t ts ≡ true
    → evaluate_in known ts from t ≢ ok applied
unfolding evaluate_in
evaluate_in-avoids known ts from t h e = ground (arith, avoids-destinations t ts from)

parsed_avoids :
    (r : Option LifecycleResource) (from : Status) → evaluate_parsed r from timed_out ≢ ok applied
unfolding evaluate_parsed
parsed_avoids none from e = cc
parsed_avoids (some r) from e =
    evaluate_in-avoids (lifecycle_contracts r).known (lifecycle_contracts r).transitions from
      timed_out (timed_out_avoided r) e

-- Whatever resource word is given, no status changes to the legacy status timed_out.
timed_out-never_entered :
    (resource : Text) (from : Status) → evaluate_transition resource from timed_out ≢ ok applied
unfolding evaluate_transition
timed_out-never_entered resource from e = elim (Bool-cases (resource == text "intake")) [
  | inl y ↦
      evaluate_in-avoids intake_statuses intake_transitions from timed_out intake_avoids (rw y at e)
  | inr n ↦ parsed_avoids (parse_lifecycle_resource resource) from (rw n at e)
]
