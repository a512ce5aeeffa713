-- ===== src/TaskReturn/Outcome.antt =====
-- What giving a task back and ending it do (backend/internal/repository/cancellation.go, queue.go).
use specrelay.Prelude.{
  ℕ, ◌≡◌, ◌≢◌, refl, true, none, some, List, [], ◌∷◌, ◌==◌, Text, text, text_eq, text_beq,
  text_beq_iff, arith, All, contains, if◌then◌else◌, Bool-cases, ==_refl,
}
use specrelay.Failure.{ok}
use specrelay.Status.{status_eq, status_beq_iff, pending, running}
use specrelay.Gate.{
  find_row, apply_step, check_request, transition_row, transition_found, transition_lifecycle,
}
use specrelay.Store.{PlanTask, Db}
use specrelay.Blocker.{
  acceptance_status_passed, item_by_key, blocking_item, acceptance_blockers, judge_acceptance,
  acceptance_scheduling_blocker,
}
use specrelay.TaskReturn.{
  pending_request, unless_invalid, finish_return, return_task_pending, acceptance_items,
  evidence_of, build_acceptance_result,
}

-- ReturnTaskPending leaves the database alone when the task is not running.
pub return_task_pending-not_running :
    (now : ℕ) (t found : PlanTask) (message : Text) (db : Db)
    → find_row t.id db.tasks.rows ≡ some found
    → found.status ≢ running
    → return_task_pending now t message db ≡ ok db
unfolding return_task_pending unless_invalid finish_return transition_lifecycle transition_found
    apply_step transition_row check_request pending_request
return_task_pending-not_running now t found message db f n =
    ground (arith, Bool-cases (found.status == pending), status_beq_iff running found.status)

item_by_key-items :
    (status : Text) (evidence : List Text) (reason : Text) (keys : List Text) (key : Text)
    → item_by_key (acceptance_items status evidence reason keys) key ≡ (
        if contains keys key
        then some (record { key = key; status = status; evidence = evidence; reason = reason })
        else none)
unfolding item_by_key
item_by_key-items status evidence reason [] key = refl
item_by_key-items status evidence reason (k ∷ ks) key = ground (
  arith,
  item_by_key-items status evidence reason ks key,
  text_beq_iff k key,
  Bool-cases (k == key),
  Bool-cases (contains ks key),
)

-- The keys `ks` are among `keys`.
acceptance_blockers-passed :
    (evidence : List Text) (reason : Text) (keys ks : List Text)
    → All (λ k. contains keys k ≡ true) ks
    → acceptance_blockers (acceptance_items (text "passed") evidence reason keys) ks ≡ []
unfolding acceptance_blockers blocking_item acceptance_status_passed text_beq
acceptance_blockers-passed evidence reason keys [] h = refl
acceptance_blockers-passed evidence reason keys (k ∷ ks) h = rw (
  item_by_key-items (text "passed") evidence reason keys k,
  h.0,
  acceptance_blockers-passed evidence reason keys ks h.1,
)

contains-cons :
    (x : Text) (keys ks : List Text)
    → All (λ k. contains keys k ≡ true) ks
    → All (λ k. contains (x ∷ keys) k ≡ true) ks
contains-cons x keys [] h = tt
contains-cons x keys (k ∷ ks) h =
    (ground (arith, h.0, Bool-cases (x == k)), contains-cons x keys ks h.1)

contains-All : (keys : List Text) → All (λ k. contains keys k ≡ true) keys
contains-All [] = tt
contains-All (k ∷ ks) = (ground (arith, ==_refl k), contains-cons k ks ks (contains-All ks))

-- A task that ends as passed, whose acceptance definition decodes to a list of keys, and which has the
-- acceptance result that is built for it, passes the acceptance gate of the scheduler, whatever its
-- message.
pub build_acceptance_result-passes :
    (t : PlanTask) (keys : List Text) (message : Text)
    → t.columns.acceptance_status ≡ text "passed"
    → t.columns.acceptance_definition ≡ some keys
    → t.columns.acceptance_result
      ≡ some (build_acceptance_result t.columns.acceptance_definition (text "passed") message)
    → acceptance_scheduling_blocker t ≡ none
unfolding acceptance_scheduling_blocker judge_acceptance build_acceptance_result
    acceptance_status_passed text_beq
build_acceptance_result-passes t keys message status definition result = rw (
  result,
  definition,
  acceptance_blockers-passed (evidence_of message) [] keys keys (contains-All keys),
  status,
)
