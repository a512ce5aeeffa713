-- ===== src/Blocker/Message.antt =====
-- The messages of scheduling blockers: the formats in backend/internal/repository/queue.go, and
-- `PlanExecutionBlockedError.Error` in backend/internal/domain/models.go.
use specrelay.Prelude.{List, [], ◌∷◌, ◌++◌, ◌==◌, if◌then◌else◌, Text, text, text_eq}
use specrelay.Prelude.Words.{trim_space}
use specrelay.Status.{status_text}
use specrelay.Store.{AcceptanceItemResult}
use specrelay.Blocker.{
  Reason, validation_failed, no_tasks, final_count, nothing_runnable, nothing_resumable,
  duplicate_key, final_not_last, empty_acceptance, bad_dependencies, resume_required,
  bad_acceptance_key, repeated_dependency, missing_dependency, later_dependency, runs_first,
  plan_is, already_active, retry_required, dependency_open, acceptance_open, AcceptanceFault,
  definition_invalid, result_invalid, blocking, PlanExecutionBlocker, join,
}

abbrev pub item_text : AcceptanceItemResult → Text
item_text item =
    let reason = trim_space item.reason in
    item.key
    ++ text "="
    ++ item.status
    ++ (if reason == [] then [] else text " (" ++ reason ++ text ")")

abbrev item_texts : List AcceptanceItemResult → List Text
item_texts [] = []
item_texts (item ∷ items) = item_text item ∷ item_texts items

abbrev listed : List Text → Text
listed [] = []
listed items = text "; blocking acceptance items: " ++ join (text ", ") items

abbrev explained : Text → Text
explained [] = []
explained reason = text ": " ++ reason

unfoldable pub fault_text : AcceptanceFault → Text
fault_text definition_invalid = text "; acceptance definition is invalid"
fault_text result_invalid = text "; acceptance result is invalid"
fault_text (blocking reason items) = explained reason ++ listed (item_texts items)

-- `quote` is `strconv.Quote`, for the verb %q.
unfoldable pub reason_text : (quote : Text → Text) → Reason → Text
unfolding fault_text
reason_text quote (validation_failed summary) = summary
reason_text quote no_tasks = text "plan has no executable tasks"
reason_text quote final_count =
    text "plan execution graph must contain exactly one final validation task"
reason_text quote nothing_runnable = text "plan has no unfinished runnable task"
reason_text quote nothing_resumable = text "blocked plan has no unfinished runnable task"
reason_text quote (duplicate_key key) =
    text "plan execution graph contains duplicate task key " ++ key
reason_text quote (final_not_last key) =
    text "final validation task " ++ key ++ text " is not last in topological execution order"
reason_text quote (empty_acceptance key) =
    text "task " ++ key ++ text " has invalid or empty required acceptance metadata"
reason_text quote (bad_dependencies key) =
    text "task " ++ key ++ text " has invalid dependency metadata"
reason_text quote (resume_required key) =
    text "plan is blocked; task " ++ key ++ text " requires an explicit manual resume"
reason_text quote (bad_acceptance_key key item) =
    text "task " ++ key ++ text " has invalid required acceptance item key " ++ quote item
reason_text quote (repeated_dependency key d) =
    text "task " ++ key ++ text " repeats dependency " ++ d
reason_text quote (missing_dependency key d) =
    text "task " ++ key ++ text " depends on missing task " ++ d
reason_text quote (later_dependency key d) =
    text "task "
    ++ key
    ++ text " dependency "
    ++ d
    ++ text " is not earlier in topological execution order"
reason_text quote (runs_first first key) =
    text "task "
    ++ first
    ++ text " is the earliest unfinished task and must run before task "
    ++ key
reason_text quote (plan_is status key) =
    text "plan is " ++ status_text status ++ text " while task " ++ key ++ text " is queued"
reason_text quote (already_active key status) =
    text "task "
    ++ key
    ++ text " is already "
    ++ status_text status
    ++ text "; a plan may have only one active task"
reason_text quote (retry_required key status) =
    text "task "
    ++ key
    ++ text " is "
    ++ status_text status
    ++ text " and requires an explicit retry"
reason_text quote (dependency_open d key status) =
    text "dependency task "
    ++ d
    ++ text " for task "
    ++ key
    ++ text " is "
    ++ status_text status
    ++ text ", not succeeded"
reason_text quote (acceptance_open key status fault) =
    text "task " ++ key ++ text " acceptance is " ++ status ++ fault_text fault

unfoldable pub blocker_reasons : (quote : Text → Text) → List PlanExecutionBlocker → List Text
unfolding reason_text
blocker_reasons quote [] = []
blocker_reasons quote (b ∷ bs) =
    let reason = trim_space (reason_text quote b.reason) in
    let rest = blocker_reasons quote bs in if reason == [] then rest else reason ∷ rest

abbrev with_reasons : List Text → Text
with_reasons [] = text "plan execution is blocked"
with_reasons reasons = text "plan execution is blocked: " ++ join (text "; ") reasons

-- `PlanExecutionBlockedError.Error`.
unfoldable pub blocked_error : (quote : Text → Text) → List PlanExecutionBlocker → Text
unfolding blocker_reasons
blocked_error quote blockers = with_reasons (blocker_reasons quote blockers)
