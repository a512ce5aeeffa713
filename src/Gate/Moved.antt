-- ===== src/Gate/Moved.antt =====
-- What a request that changes a row has passed, and what it changes.
use specrelay.Prelude.{ℕ, ◌+◌, ◌<◌, ◌≡◌, ◌≢◌, ◌⊎◌, true, false, arith, ◌==◌, Text, nat_eq}
use specrelay.Failure.{ok}
use specrelay.Status.{Status, status_eq, status_beq_iff}
use specrelay.Lifecycle.{
  LifecycleResource, applied, evaluate_in, evaluate_transition, resource_name, is_terminal_status,
  is_recoverable_terminal_status,
}
use specrelay.Lifecycle.Table.{evaluate-resource_name}
use specrelay.Metadata.{validate_lifecycle_metadata}
use specrelay.Gate.{
  Row, LifecycleTransitionRequest, same, moved, expected, expects, worker_fits, permits,
  check_request, write_row, transition_row,
}

module _ {X : Type 0} (resource : LifecycleResource) (worker_id : X → Text) (now : ℕ) where
  -- The effect on the row: the requested status, the next version, metadata that is valid, the
  -- column updates, and nothing else.
  pub record IsWritten (q : LifecycleTransitionRequest X) (r r' : Row X) : Type 0 where
    pub same_id : r'.id ≡ r.id
    pub same_project : r'.project_id ≡ r.project_id
    pub new_status : r'.status ≡ q.status
    pub next_version : r'.version ≡ r.version + 1
    pub new_columns : r'.columns ≡ q.fields r.columns
    pub valid_metadata : validate_lifecycle_metadata r'.metadata ≡ ok tt

  -- The conditions under which a row changes.
  pub record IsAdmitted (q : LifecycleTransitionRequest X) (r : Row X) : Type 0 where
    pub other_status : r.status ≢ q.status
    pub unprotected :
        is_terminal_status resource r.status ≡ true
        → q.allow_terminal ≡ false
        → (is_recoverable_terminal_status resource r.status ≡ true) × (q.ignore_terminal ≡ false)
    pub version_fits : 0 < q.expected_version → r.version ≡ q.expected_version
    pub status_expected : expects (expected q) r.status ≡ true
    pub worker_expected : worker_fits resource q.require_worker_id (worker_id r.columns) ≡ true
    pub in_contract :
        q.allow_non_contract ≡ false
        → evaluate_transition (resource_name resource) r.status q.status ≡ ok applied

  permits-applied :
      (s t : Status)
      → s ≢ t
      → permits (evaluate_transition (resource_name resource) s t) ≡ ok tt
      → evaluate_transition (resource_name resource) s t ≡ ok applied
  unfolding evaluate_in
  permits-applied s t d h =
      rw (evaluate-resource_name resource s t)
        (ground (arith, status_beq_iff s t, rw (evaluate-resource_name resource s t) at h))

  write_row-IsWritten :
      (q : LifecycleTransitionRequest X) (r : Row X) {r' : Row X}
      → write_row resource now q r ≡ ok (moved r')
      → IsWritten q r r'
  unfolding write_row
  write_row-IsWritten q r h = ground arith

  check_request-facts :
      (q : LifecycleTransitionRequest X) (r : Row X)
      → check_request resource worker_id q r ≡ ok tt
      → (0 < q.expected_version → r.version ≡ q.expected_version)
        × (expects (expected q) r.status ≡ true)
        × (worker_fits resource q.require_worker_id (worker_id r.columns) ≡ true)
        × (q.allow_non_contract ≡ false
            → permits (evaluate_transition (resource_name resource) r.status q.status) ≡ ok tt)
  unfolding check_request
  check_request-facts q r h = ground arith

  -- A row that changes was checked and written, had another status, and was not protected.
  moved-parts :
      (q : LifecycleTransitionRequest X) (r : Row X) {r' : Row X}
      → transition_row resource worker_id now q r ≡ ok (moved r')
      → (check_request resource worker_id q r ≡ ok tt)
        × (write_row resource now q r ≡ ok (moved r'))
        × ((r.status == q.status) ≡ false)
        × (is_terminal_status resource r.status ≡ true
            → q.allow_terminal ≡ false
            → (is_recoverable_terminal_status resource r.status ≡ true)
              × (q.ignore_terminal ≡ false))
  unfolding transition_row
  moved-parts q r h = ground arith

  write_row-ne-same :
      (q : LifecycleTransitionRequest X) (r : Row X) → write_row resource now q r ≢ ok same
  unfolding write_row
  write_row-ne-same q r h = ground arith

  pub transition_row-IsWritten :
      (q : LifecycleTransitionRequest X) (r : Row X) {r' : Row X}
      → transition_row resource worker_id now q r ≡ ok (moved r')
      → IsWritten q r r'
  transition_row-IsWritten q r h = write_row-IsWritten q r (moved-parts q r h).1

  pub transition_row-IsAdmitted :
      (q : LifecycleTransitionRequest X) (r : Row X) {r' : Row X}
      → transition_row resource worker_id now q r ≡ ok (moved r')
      → IsAdmitted q r
  transition_row-IsAdmitted q r h =
      let (checked, written, differs, unprotected) = moved-parts q r h in
      let (version, status, worker, contract) = check_request-facts q r checked in
      let other : r.status ≢ q.status = ground (arith, status_beq_iff r.status q.status) in
      record {
        other_status = other;
        unprotected = unprotected;
        version_fits = version;
        status_expected = status;
        worker_expected = worker;
        in_contract = λ c. permits-applied r.status q.status other (contract c);
      }

  -- A row that a request leaves alone has the status already, or a terminal one that is ignored.
  pub transition_row-same :
      (q : LifecycleTransitionRequest X) (r : Row X)
      → transition_row resource worker_id now q r ≡ ok same
      → ((r.status == q.status) ≡ true)
        ⊎ ((is_terminal_status resource r.status ≡ true) × (q.ignore_terminal ≡ true))
  unfolding transition_row
  transition_row-same q r h = ground (arith, write_row-ne-same q r)
