-- ===== src/Examples/Lists.antt =====
-- Lists and orders of plan specifications.
use mathlib.Core.List.{reverse}
use specrelay.Prelude.{
  ℕ, All, some, arith, ◌==◌, if◌then◌else◌, length, ◌≡◌, refl, true, [], ◌∷◌, contains, text,
  text_beq, text_eq, List, Text,
}
use specrelay.Prelude.Words.{trim_space}
use specrelay.Order.{
  SpecTask, order_validated_tasks, place_tasks, initial_degrees, set_degree, find_ready, index_from,
  dependents, lower_all,
}
use specrelay.Order.Sorted.{IsSorted, find_task, order_validated_tasks-IsSorted}
use specrelay.Order.Total.{IsRanked, order_validated_tasks-some}
use specrelay.Normalize.{normalize_list, normalize_from}
use specrelay.Normalize.Unique.{IsFresh, normalize_list-IsFresh, normalize_list-contains}

abbrev raw : List Text
raw = text " a " ∷ text "b" ∷ text "a" ∷ text " " ∷ []

raw_run : normalize_list raw ≡ text "a" ∷ text "b" ∷ []
unfolding normalize_list normalize_from trim_space text_beq
raw_run = refl

normalize_list-IsFresh_example : IsFresh [] (normalize_list raw)
normalize_list-IsFresh_example = normalize_list-IsFresh raw

normalize_list-contains_example : contains (normalize_list raw) (trim_space (text " a ")) ≡ true
unfolding text_beq trim_space
normalize_list-contains_example = normalize_list-contains raw (text " a ") refl refl

abbrev spec_tasks : List SpecTask
spec_tasks =
    (record { key = text "B"; depends_on = text "A" ∷ [] })
    ∷ (record { key = text "A"; depends_on = [] })
    ∷ []

order_validated_tasks-IsSorted_example :
    (last_first : List Text) × ((text "A" ∷ text "B" ∷ []) ≡ reverse last_first)
    × IsSorted spec_tasks last_first
    × (length last_first ≡ length spec_tasks)
unfolding order_validated_tasks place_tasks initial_degrees set_degree find_ready index_from
    dependents lower_all text_beq
order_validated_tasks-IsSorted_example =
    order_validated_tasks-IsSorted spec_tasks (text "A" ∷ text "B" ∷ []) ((refl, tt), (tt, tt)) refl

abbrev rank_of : Text → ℕ
rank_of key = if key == text "B" then 1 else 0

spec_tasks-IsRanked : All (IsRanked rank_of spec_tasks) spec_tasks
unfolding IsRanked find_task text_beq
spec_tasks-IsRanked = (
  ((λ e. cc), (((record { key = text "A"; depends_on = [] }), refl, omega arith), tt)),
  (((λ e. cc), tt), tt),
)

order_validated_tasks-some_example :
    (order : List Text) × (order_validated_tasks spec_tasks ≡ some order)
unfolding text_beq
order_validated_tasks-some_example =
    order_validated_tasks-some rank_of spec_tasks ((refl, tt), (tt, tt)) spec_tasks-IsRanked
