-- ===== src/Claim/Select.antt =====
-- What the candidate query of ClaimJob selects.
use specrelay.Prelude.{
  ℕ, ◌≡◌, Bool, true, false, not, ◌&&◌, some, List, [], ◌∷◌, arith, All, Option-cases, inl, inr,
}
use specrelay.Store.{Job, Db}
use specrelay.Claim.{first_by, filter_by, claimable, select_job}

module _ {ℓ κ} {A : Type ℓ} (P : A → Type κ) where
  All-filter_by :
      (p : A → Bool) (xs : List A) → All P xs → All (λ x. P x × (p x ≡ true)) (filter_by p xs)
  unfolding filter_by
  All-filter_by p [] h = tt
  All-filter_by p (x ∷ xs) h = ground (arith, All-filter_by p xs h.1)

  All-first_by :
      (before : A → A → Bool) (xs : List A) {x : A} → All P xs → first_by before xs ≡ some x → P x
  unfolding first_by
  All-first_by before [] h e = cc
  All-first_by before (y ∷ xs) {x} h e = elim (Option-cases (first_by before xs)) [
    | inl empty ↦ ground arith
    | inr (z, found) ↦ ground (arith, All-first_by before xs {x = z} h.1 found)
  ]

-- What holds of every row holds of the selected job, which can be claimed and is not locked.
pub select_job-All :
    (P : Job → Type 0) (now : ℕ) (locked : Job → Bool) (db : Db) (j : Job)
    → All P db.jobs.rows
    → select_job now locked db ≡ some j
    → P j × (claimable now db j ≡ true) × (locked j ≡ false)
unfolding select_job
select_job-All P now locked db j h e =
    let facts =
      All-first_by (λ k. P k × ((claimable now db k && not (locked k)) ≡ true)) _ _
        (All-filter_by P _ db.jobs.rows h) e in
    (facts.0, ground (arith, facts.1), ground (arith, facts.1))

unit_for : {A : Type 0} (xs : List A) → All (λ _. Unit {0}) xs
unit_for [] = tt
unit_for (x ∷ xs) = (tt, unit_for xs)

-- The selected job can be claimed, as the query sees the tables.
pub select_job-claimable :
    (now : ℕ) (locked : Job → Bool) (db : Db) (j : Job)
    → select_job now locked db ≡ some j
    → claimable now db j ≡ true
select_job-claimable now locked db j e =
    let facts = select_job-All (λ _. Unit {0}) now locked db j (unit_for db.jobs.rows) e in facts.1
