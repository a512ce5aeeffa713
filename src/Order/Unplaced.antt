-- ===== src/Order/Unplaced.antt =====
-- How many tasks the loop of TopologicalOrder (backend/internal/planspec/planspec.go) has left.
use specrelay.Prelude.{
  ℕ, subst, ◌+◌, ◌<◌, ◌≡◌, refl, ap, sym, ◌∙◌, inl, inr, false, some, List, [], ◌∷◌, ◌==◌,
  if◌then◌else◌, contains, Text, text_eq, nat_eq, text_beq_iff, arith, All, Bool-cases,
}
use specrelay.Order.{SpecTask}
use specrelay.Order.Counts.{Unique}
use specrelay.Order.Sorted.{find_task}

-- How many tasks are not placed.
unfoldable pub unplaced : List Text → List SpecTask → ℕ
unplaced order [] = 0
unplaced order (t ∷ ts) = (if contains order t.key then 0 else 1) + unplaced order ts

unplaced-other :
    (order : List Text) (k : Text) (ts : List SpecTask)
    → All (λ u. (u.key == k) ≡ false) ts
    → unplaced (k ∷ order) ts ≡ unplaced order ts
unfolding unplaced
unplaced-other order k [] h = refl
unplaced-other order k (t ∷ ts) h =
    ground (arith, unplaced-other order k ts h.1, h.0, text_beq_iff t.key k, text_beq_iff k t.key)

pub unplaced-cons :
    (order : List Text) (k : Text) (ts : List SpecTask) {t : SpecTask}
    → Unique ts
    → find_task k ts ≡ some t
    → contains order k ≡ false
    → unplaced (k ∷ order) ts + 1 ≡ unplaced order ts
unfolding unplaced find_task
unplaced-cons order k [] unique found fresh = cc
unplaced-cons order k (u ∷ us) {t} unique found fresh = elim (Bool-cases (u.key == k)) [
  | inl same ↦
      let e = (text_beq_iff u.key k).0 same in
      let others =
        unplaced-other order k us (subst (λ k. All (λ v. (v.key == k) ≡ false) us) e unique.0) in
      let own : contains order u.key ≡ false = ap (contains order) e ∙ fresh in
      ground (arith, others, own, text_beq_iff k u.key, sym e)
  | inr other ↦ ground (
    arith,
    other,
    text_beq_iff u.key k,
    text_beq_iff k u.key,
    unplaced-cons order k us {t = t} unique.1 (ground (arith, found, other)) fresh,
  )
]

pub find_unplaced :
    (order : List Text) (ts : List SpecTask)
    → 0 < unplaced order ts
    → (P : SpecTask → Type 0) → All P ts
    → (t : SpecTask) × P t × (contains order t.key ≡ false)
unfolding unplaced
find_unplaced order [] some_left P h = absurd (omega (arith, some_left))
find_unplaced order (t ∷ ts) some_left P h = elim (Bool-cases (contains order t.key)) [
  | inl there ↦ find_unplaced order ts (ground (arith, there, some_left)) P h.1
  | inr missing ↦ (t, h.0, missing)
]
