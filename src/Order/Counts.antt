-- ===== src/Order/Counts.antt =====
-- How often the loop of TopologicalOrder (backend/internal/planspec/planspec.go) lowers an in-degree.
use specrelay.Prelude.{
  ℕ, ◌+◌, ◌≡◌, refl, ap, inl, inr, true, false, Option, none, some, List, [], ◌∷◌, ◌++◌, ◌==◌,
  if◌then◌else◌, contains, length, Text, text_eq, nat_eq, text_beq_iff, arith, All, Bool-cases,
  ==_refl,
}
use specrelay.Order.{SpecTask, Indegree, set_degree, once_for, dependents, lower, lower_all}

unfoldable pub count : Text → List Text → ℕ
count k [] = 0
count k (x ∷ xs) = (if x == k then 1 else 0) + count k xs

-- How many of the dependencies are placed.
unfoldable pub placed : List Text → List Text → ℕ
placed order [] = 0
placed order (d ∷ ds) = (if contains order d then 1 else 0) + placed order ds

pub placed-cons :
    (order : List Text) (k : Text) (ds : List Text)
    → contains order k ≡ false
    → placed (k ∷ order) ds ≡ placed order ds + count k ds
unfolding placed count
placed-cons order k [] fresh = omega arith
placed-cons order k (d ∷ ds) fresh =
    ground (arith, placed-cons order k ds fresh, text_beq_iff k d, text_beq_iff d k)

pub placed-le : (order ds : List Text) → (m : ℕ) × (placed order ds + m ≡ length ds)
unfolding placed
placed-le order [] = (0, omega arith)
placed-le order (d ∷ ds) = elim (Bool-cases (contains order d)) [
  | inl there ↦ ((placed-le order ds).0, ground (arith, (placed-le order ds).1))
  | inr missing ↦ ((placed-le order ds).0 + 1, ground (arith, (placed-le order ds).1))
]

pub placed-All :
    (order ds : List Text) → placed order ds ≡ length ds → All (λ d. contains order d ≡ true) ds
unfolding placed
placed-All order [] h = tt
placed-All order (d ∷ ds) h =
    let rest = placed-le order ds in
    (
      ground (arith, rest.1, Bool-cases (contains order d)),
      placed-All order ds (ground (arith, rest.1, Bool-cases (contains order d))),
    )

lower-some : (o : Option ℕ) (n : ℕ) → lower o ≡ some n → o ≡ some (n + 1)
lower-some none n h = cc
lower-some (some m) n h = ground arith

lower-set :
    (x k : Text) (degree : Indegree) (n : ℕ)
    → set_degree x (lower (degree x)) degree k ≡ some n
    → degree k ≡ some (n + (if x == k then 1 else 0))
unfolding set_degree
lower-set x k degree n h = elim (Bool-cases (x == k)) [
  | inl same ↦
      let e = (text_beq_iff x k).0 same in
      ground (arith, lower-some (degree x) n (ground arith), ap degree e)
  | inr other ↦ ground arith
]

-- An in-degree that is left after lowering every listed key.
pub lower_all-count :
    (ks : List Text) (degree : Indegree) (k : Text) (n : ℕ)
    → lower_all ks degree k ≡ some n
    → degree k ≡ some (n + count k ks)
unfolding lower_all set_degree count
lower_all-count [] degree k n h = ground (arith, h)
lower_all-count (x ∷ xs) degree k n h =
    let later = lower_all-count xs (set_degree x (lower (degree x)) degree) k n h in
    ground (arith, lower-set x k degree (n + count k xs) later)

count-append : (k : Text) (xs ys : List Text) → count k (xs ++ ys) ≡ count k xs + count k ys
unfolding count
count-append k [] ys = omega arith
count-append k (x ∷ xs) ys = omega (arith, count-append k xs ys)

count-once_for :
    (ready key k : Text) (ds : List Text)
    → count k (once_for ready key ds) ≡ (if key == k then count ready ds else 0)
unfolding count
count-once_for ready key k [] = ground arith
count-once_for ready key k (d ∷ ds) = ground (arith, count-once_for ready key k ds)

-- No other task of the list has the key.
abbrev pub Unique : List SpecTask → Type 0
Unique [] = Unit
Unique (t ∷ ts) = All (λ u. (u.key == t.key) ≡ false) ts × Unique ts

count-dependents_none :
    (ts : List SpecTask) (ready k : Text)
    → All (λ u. (u.key == k) ≡ false) ts
    → count k (dependents ts ready) ≡ 0
unfolding dependents count
count-dependents_none [] ready k h = refl
count-dependents_none (t ∷ ts) ready k h = ground (
  arith,
  count-append k (once_for ready t.key t.depends_on) (dependents ts ready),
  count-once_for ready t.key k t.depends_on,
  count-dependents_none ts ready k h.1,
  h.0,
)

abbrev pub HasCount : List SpecTask → Text → SpecTask → Type 0
HasCount tasks ready t = count t.key (dependents tasks ready) ≡ count ready t.depends_on

HasCount-cons :
    (t : SpecTask) (ts us : List SpecTask) (ready : Text)
    → All (λ u. (u.key == t.key) ≡ false) us
    → All (HasCount ts ready) us
    → All (HasCount (t ∷ ts) ready) us
unfolding dependents
HasCount-cons t ts [] ready others h = tt
HasCount-cons t ts (u ∷ us) ready others h = (
  ground (
    arith,
    count-append u.key (once_for ready t.key t.depends_on) (dependents ts ready),
    count-once_for ready t.key u.key t.depends_on,
    h.0,
    others.0,
    text_beq_iff u.key t.key,
    text_beq_iff t.key u.key,
  ),
  HasCount-cons t ts us ready others.1 h.1,
)

pub Unique-HasCount : (ts : List SpecTask) (ready : Text) → Unique ts → All (HasCount ts ready) ts
unfolding dependents
Unique-HasCount [] ready h = tt
Unique-HasCount (t ∷ ts) ready h = (
  ground (
    arith,
    count-append t.key (once_for ready t.key t.depends_on) (dependents ts ready),
    count-once_for ready t.key t.key t.depends_on,
    count-dependents_none ts ready t.key h.0,
    ==_refl t.key,
  ),
  HasCount-cons t ts ts ready h.0 (Unique-HasCount ts ready h.1),
)
