-- ===== src/Snapshot.antt =====
-- backend/internal/repository: the rows of plan_execution_snapshots and plan_drift_audits that plan
-- execution reads and adds. What a snapshot records of the plan and of the workspace, and the Git
-- commands and file lists behind it, are left out, with the errors they can end in.
use specrelay.Prelude.{
  ℕ, ◌+◌, Bool, true, false, not, ◌&&◌, Option, none, some, List, [], ◌∷◌, ◌==◌, if◌then◌else◌,
  contains, Text, text, text_eq, nat_eq,
}
use specrelay.Failure.{
  Result, ok, guard, not_found, baseline_missing, drift_resolution_required, invalid_audit, ◌>>◌,
}
use specrelay.Gate.{find_row}
use specrelay.Store.{Snapshot, Db}

-- `ORDER BY sequence DESC LIMIT 1`: snapshots of a plan are only added, each with the next number.
unfoldable pub latest_snapshot : ℕ → List Snapshot → Option Snapshot
latest_snapshot plan [] = none
latest_snapshot plan (s ∷ ss) = if s.plan_id == plan then some s else latest_snapshot plan ss

abbrev is_found {ℓ} : {A : Type ℓ} → Option A → Bool
is_found none = false
is_found (some a) = true

-- ErrPlanDriftResolutionRequired stands for its join with ErrPlanExecutionBaselineMissing.
unfoldable pub require_plan_execution_baseline : ℕ → Db → Result (Unit {0})
unfolding latest_snapshot
require_plan_execution_baseline plan db = do
  guard (is_found (find_row plan db.plans.rows)) not_found
  guard (is_found (latest_snapshot plan db.snapshots)) drift_resolution_required

abbrev sequence_of : Option Snapshot → ℕ
sequence_of none = 0
sequence_of (some s) = s.sequence

unfoldable pub capture_plan_execution_snapshot : ℕ → Text → Option ℕ → Db → Result (Db × Snapshot)
unfolding latest_snapshot
capture_plan_execution_snapshot plan kind task db =
    let sequence = sequence_of (latest_snapshot plan db.snapshots) in
    let snapshot : Snapshot = record {
      plan_id = plan;
      sequence = sequence + 1;
      snapshot_kind = kind;
      task_id = task;
    } in
    do
      guard
          (contains
            (text "generation_baseline" ∷ text "task_checkpoint" ∷ text "user_accepted" ∷ []) kind)
          invalid_audit
      guard (not (kind == text "generation_baseline" && not (sequence == 0))) invalid_audit
      guard (not (kind == text "task_checkpoint" && sequence == 0)) baseline_missing
      ok (record db { snapshots = snapshot ∷ db.snapshots }, snapshot)

unfoldable pub insert_plan_drift_audit : ℕ → Text → Option ℕ → Option ℕ → Db → Db
insert_plan_drift_audit plan action original new db = record db {
  drift_audits =
      (record { plan_id = plan; action = action; original_snapshot = original; new_snapshot = new })
      ∷ db.drift_audits;
}

abbrev number_of : Option Snapshot → Option ℕ
number_of none = none
number_of (some s) = some s.sequence

-- The trigger of 010_plan_execution_snapshots.sql, on a plan that becomes cancelled.
unfoldable pub audit_plan_execution_abandoned : ℕ → Db → Db
unfolding latest_snapshot insert_plan_drift_audit
audit_plan_execution_abandoned plan db =
    insert_plan_drift_audit plan (text "execution_abandoned")
      (number_of (latest_snapshot plan db.snapshots)) none db
