-- ===== src/Normalize.antt =====
-- backend/internal/planspec/planspec.go: `normalizeList` on a list that is not of paths, and
-- `acceptanceDescriptions`.
pub mod Unique
use specrelay.Prelude.{
  ℕ, Bool, true, false, ◌||◌, Option, none, some, List, [], ◌∷◌, ◌==◌, if◌then◌else◌, contains,
  Text, text_eq, map,
}
use specrelay.Prelude.Words.{trim_space}

-- `seen` holds the values that are out already.
unfoldable pub normalize_from : List Text → List Text → List Text
normalize_from seen [] = []
normalize_from seen (v ∷ vs) =
    let value = trim_space v in
    if value == [] || contains seen value
    then normalize_from seen vs
    else value ∷ normalize_from (value ∷ seen) vs

unfoldable pub normalize_list : List Text → List Text
unfolding normalize_from
normalize_list values = normalize_from [] values

pub record AcceptanceItem : Type 0 where
  pub key : Text
  pub description : Text

abbrev description_of : AcceptanceItem → Text
description_of item = item.description

-- A nil slice stays nil.
unfoldable pub acceptance_descriptions : Option (List AcceptanceItem) → Option (List Text)
acceptance_descriptions none = none
acceptance_descriptions (some items) = some (map description_of items)
