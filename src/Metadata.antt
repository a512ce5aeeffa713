-- ===== src/Metadata.antt =====
-- backend/internal/domain/models.go: the explanation attached to a lifecycle status, and its check.
-- A raw JSON column is absent, an object (its members by name) or anything else.
use specrelay.Prelude.{
  Bool, ℕ, true, false, not, ◌||◌, List, [], ◌∷◌, ◌==◌, contains, Text, text, text_eq,
}
use specrelay.Prelude.Words.{trim_space}
use specrelay.Failure.{Result, guard, invalid_lifecycle_metadata, ◌>>◌}

pub data JsonValue : Type 0 where
  string_value : Text → JsonValue
  uuid_value : ℕ → JsonValue
  number_value : ℕ → JsonValue
  duration_value : ℕ → JsonValue  -- `Duration.String()`

-- Where a member's name is repeated the first one counts.
pub data RawObject : Type 0 where
  absent : RawObject
  object : List (Text × JsonValue) → RawObject
  malformed : RawObject

pub record LifecycleMetadata : Type 0 where
  pub status_source : Text
  pub reason_code : Text
  pub reason : Text
  pub last_activity_at : ℕ
  pub recovery_hint : Text
  pub execution_checkpoint : RawObject

unfoldable pub status_sources : List Text
status_sources =
    text "user"
    ∷ text "automation"
    ∷ text "worker"
    ∷ text "backend"
    ∷ text "recovery"
    ∷ text "system"
    ∷ text "legacy"
    ∷ []

unfoldable pub recovery_hints : List Text
recovery_hints =
    text "none"
    ∷ text "automatic_retry"
    ∷ text "resume_from_checkpoint"
    ∷ text "retry_from_start"
    ∷ text "manual_review"
    ∷ []

-- `strings.TrimSpace(s) == ""`.
unfoldable pub is_blank : Text → Bool
unfolding trim_space
is_blank s = trim_space s == []

abbrev pub checkpoint_fits : RawObject → Bool
checkpoint_fits malformed = false
checkpoint_fits _ = true

unfoldable pub validate_lifecycle_metadata : LifecycleMetadata → Result (Unit {0})
unfolding status_sources recovery_hints is_blank
validate_lifecycle_metadata m = do
  guard (contains status_sources m.status_source) invalid_lifecycle_metadata
  guard (not (is_blank m.reason_code || is_blank m.reason)) invalid_lifecycle_metadata
  guard (contains recovery_hints m.recovery_hint) invalid_lifecycle_metadata
  guard (checkpoint_fits m.execution_checkpoint) invalid_lifecycle_metadata
