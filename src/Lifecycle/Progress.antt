-- ===== src/Lifecycle/Progress.antt =====
-- Every status of a lifecycle contract has a way to a durable end.
use specrelay.Prelude.{
  ◌≡◌, refl, Bool, true, false, not, ◌&&◌, List, [], ◌∷◌, arith, contains, all, all-contains,
}
use specrelay.Failure.{ok}
use specrelay.Status.{
  Status, status_eq, status_beq, generating, ready, running, validating, blocked, cancelling,
  interrupted, cancelled, pending, queued, leased, retry_wait, starting,
}
use specrelay.Lifecycle.{
  LifecycleResource, plan, task, job, agent_run, applied, destinations, lifecycle_contracts,
  evaluate_transition, resource_name, is_terminal_status, is_recoverable_terminal_status,
}
use specrelay.Lifecycle.Table.{evaluate_transition-applied_iff}

-- A chain of applied transitions.
pub data Leads (r : LifecycleResource) : Status → Status → Type 0 where
  here : {s : Status} → Leads r s s
  step :
      {s t u : Status}
      → evaluate_transition (resource_name r) s t ≡ ok applied
      → Leads r t u
      → Leads r s u

-- The stations of one such chain to `cancelled`.
route : Status → List Status
route ready = cancelled ∷ []
route blocked = cancelled ∷ []
route interrupted = cancelled ∷ []
route cancelling = cancelled ∷ []
route pending = cancelled ∷ []
route queued = cancelled ∷ []
route leased = cancelled ∷ []
route retry_wait = cancelled ∷ []
route generating = cancelling ∷ cancelled ∷ []
route running = cancelling ∷ cancelled ∷ []
route validating = cancelling ∷ cancelled ∷ []
route starting = cancelling ∷ cancelled ∷ []
route _ = []

abbrev valid_route : LifecycleResource → Status → List Status → Bool
valid_route r s [] = is_terminal_status r s && not (is_recoverable_terminal_status r s)
valid_route r s (t ∷ ts) =
    contains (destinations (lifecycle_contracts r).transitions s) t && valid_route r t ts

pub record HasEnd (r : LifecycleResource) (s : Status) : Type 0 where
  pub last : Status
  pub leads : Leads r s last
  pub terminal : is_terminal_status r last ≡ true
  pub durable : is_recoverable_terminal_status r last ≡ false

HasEnd-of_route :
    (r : LifecycleResource) (s : Status) (ts : List Status) → valid_route r s ts ≡ true → HasEnd r s
HasEnd-of_route r s [] h = record {
  last = s;
  leads = here;
  terminal = ground arith;
  durable = ground arith;
}
HasEnd-of_route r s (t ∷ ts) h =
    let rest = HasEnd-of_route r t ts (ground arith) in
    record {
      last = rest.last;
      leads = step ((evaluate_transition-applied_iff r s t).1 (ground arith)) rest.leads;
      terminal = rest.terminal;
      durable = rest.durable;
    }

routes_valid :
    (r : LifecycleResource)
    → all (λ s. valid_route r s (route s)) (lifecycle_contracts r).known ≡ true
unfolding route is_terminal_status is_recoverable_terminal_status destinations status_beq
routes_valid plan = refl
routes_valid task = refl
routes_valid job = refl
routes_valid agent_run = refl

-- From every status that a contract knows, some chain of applied transitions leads to a terminal
-- status that is not recoverable: nothing is stuck halfway.
pub known-HasEnd :
    (r : LifecycleResource) (s : Status)
    → contains (lifecycle_contracts r).known s ≡ true
    → HasEnd r s
known-HasEnd r s k = HasEnd-of_route r s (route s) (
    all-contains (λ u. valid_route r u (route u)) (lifecycle_contracts r).known s (routes_valid r)
      k)
