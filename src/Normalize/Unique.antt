-- ===== src/Normalize/Unique.antt =====
-- What normalizeList (backend/internal/planspec/planspec.go) returns.
use specrelay.Prelude.{
  ◌≡◌, inl, inr, true, false, ◌||◌, List, [], ◌∷◌, ◌==◌, contains, Text, text_eq, text_beq_iff,
  arith, ap, Bool-cases, ==_refl,
}
use specrelay.Prelude.Words.{trim_space}
use specrelay.Normalize.{normalize_from, normalize_list}

-- No value is empty or occurs twice, and none is in `seen`.
pub IsFresh : List Text → List Text → Type 0
IsFresh seen [] = Unit
IsFresh seen (v ∷ vs) = ((v == []) ≡ false) × (contains seen v ≡ false) × IsFresh (v ∷ seen) vs

normalize_from-IsFresh : (seen vs : List Text) → IsFresh seen (normalize_from seen vs)
unfolding normalize_from IsFresh
normalize_from-IsFresh seen [] = tt
normalize_from-IsFresh seen (v ∷ vs) =
    elim (Bool-cases (trim_space v == [] || contains seen (trim_space v))) [
      | inl skipped ↦ rw skipped (normalize_from-IsFresh seen vs)
      | inr kept ↦
          rw kept (ground arith, ground arith, normalize_from-IsFresh (trim_space v ∷ seen) vs)
    ]

-- Every value that is not blank is out, or was out before, without its spaces.
normalize_from-contains :
    (seen vs : List Text) (value : Text)
    → contains vs value ≡ true
    → (trim_space value == []) ≡ false
    → (contains seen (trim_space value) || contains (normalize_from seen vs) (trim_space value))
      ≡ true
unfolding normalize_from
normalize_from-contains seen [] value listed filled = cc
normalize_from-contains seen (v ∷ vs) value listed filled = elim (Bool-cases (v == value)) [
  | inl same ↦ ground (
    arith,
    ap trim_space ((text_beq_iff v value).0 same),
    ==_refl (trim_space v),
    Bool-cases (contains seen (trim_space v)),
  )
  | inr differs ↦ ground (
    arith,
    normalize_from-contains seen vs value (ground arith) filled,
    normalize_from-contains (trim_space v ∷ seen) vs value (ground arith) filled,
    Bool-cases (contains seen (trim_space v)),
  )
]

-- The normalised list has no empty value and no value twice.
pub normalize_list-IsFresh : (vs : List Text) → IsFresh [] (normalize_list vs)
unfolding normalize_list
normalize_list-IsFresh vs = normalize_from-IsFresh [] vs

-- Every value of a list that is not blank is in the normalised list, without the spaces around it.
pub normalize_list-contains :
    (vs : List Text) (value : Text)
    → contains vs value ≡ true
    → (trim_space value == []) ≡ false
    → contains (normalize_list vs) (trim_space value) ≡ true
unfolding normalize_list
normalize_list-contains vs value listed filled = normalize_from-contains [] vs value listed filled
