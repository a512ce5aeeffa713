-- ===== src/Order/Scan.antt =====
-- The scan for a ready task in TopologicalOrder (backend/internal/planspec/planspec.go) finds one
-- where there is one.
use specrelay.Prelude.{
  ℕ, ◌+◌, ◌<◌, ◌≤◌, ◌≡◌, ◌≢◌, inl, inr, true, ◌&&◌, some, List, [], ◌∷◌, ◌==◌, length, ltb, Text,
  text_eq, nat_eq, arith, All, Bool-cases, eq_of_some,
}
use specrelay.Order.{SpecTask, Indegree, is_ready, find_ready, index_from}
use specrelay.Order.Sorted.{find_task}

abbrev pub HasKey : SpecTask → Type 0
HasKey t = t.key ≢ []

find_ready-kept :
    (index : Text → ℕ) (degree : Indegree) (ts : List SpecTask) (ready : Text) (i : ℕ)
    → ready ≢ []
    → All HasKey ts
    → find_ready index degree ts ready i ≢ []
unfolding find_ready
find_ready-kept index degree [] ready i some_ready keys = some_ready
find_ready-kept index degree (t ∷ ts) ready i some_ready keys =
    elim (Bool-cases (is_ready (degree t.key) && ltb (index t.key) i)) [
      | inl better ↦ rw better (find_ready-kept index degree ts t.key (index t.key) keys.0 keys.1)
      | inr worse ↦ rw worse (find_ready-kept index degree ts ready i some_ready keys.1)
    ]

pub find_ready-some :
    (index : Text → ℕ) (degree : Indegree) (ts : List SpecTask) (i : ℕ) (k : Text) {u : SpecTask}
    → All HasKey ts
    → find_task k ts ≡ some u
    → is_ready (degree u.key) ≡ true
    → index u.key < i
    → find_ready index degree ts [] i ≢ []
unfolding find_ready find_task
find_ready-some index degree [] i k {u} keys found ready small = cc
find_ready-some index degree (t ∷ ts) i k {u} keys found ready small =
    elim (Bool-cases (is_ready (degree t.key) && ltb (index t.key) i)) [
      | inl better ↦ rw better (find_ready-kept index degree ts t.key (index t.key) keys.0 keys.1)
      | inr worse ↦ elim (Bool-cases (t.key == k)) [
        | inl same ↦
            let e : t ≡ u = eq_of_some (ground (arith, found, same)) in
            absurd (ground (arith, worse, e, ready, small))
        | inr other ↦ rw worse (
            find_ready-some index degree ts i k {u = u} keys.1 (ground (arith, found, other)) ready
              small)
      ]
    ]

pub index_from-small :
    (i : ℕ) (ts : List SpecTask) (key : Text) (found bound : ℕ)
    → found < bound
    → i + length ts ≤ bound
    → index_from i ts key found < bound
unfolding index_from
index_from-small i [] key found bound small room = small
index_from-small i (t ∷ ts) key found bound small room = elim (Bool-cases (t.key == key)) [
  | inl same ↦
      rw same (index_from-small (i + 1) ts key i bound (omega (arith, room)) (omega (arith, room)))
  | inr other ↦ rw other (index_from-small (i + 1) ts key found bound small (omega (arith, room)))
]
