-- ===== src/Lease/Exclusion.antt =====
-- A workspace belongs to one job at a time.
use specrelay.Prelude.{
  ℕ, ◌+◌, ◌≤◌, ◌≡◌, ◌≢◌, refl, inl, inr, true, false, Option, none, some, List, [], ◌∷◌, arith,
  ◌==◌, Text, text_beq_iff, nat_eq, text_eq, Bool-cases,
}
use specrelay.Failure.{ok, err, lease_lost, workspace_leased}
use specrelay.Store.{WorkspaceLease, Db}
use specrelay.Lease.{
  find_lease, new_lease, upsert_lease, acquire_workspace_lease, extend_leases,
  renew_workspace_lease,
}

-- One row for each workspace path.
abbrev pub IsKeyedByPath : List WorkspaceLease → Type 0
IsKeyedByPath [] = Unit
IsKeyedByPath (l ∷ ls) = (find_lease l.workspace ls ≡ none) × IsKeyedByPath ls

upsert_lease-held :
    (now : ℕ) (fresh : WorkspaceLease) (ls : List WorkspaceLease) {l : WorkspaceLease}
    → find_lease fresh.workspace ls ≡ some l
    → now ≤ l.expires_at
    → l.job_id ≢ fresh.job_id
    → upsert_lease now fresh ls ≡ none
unfolding find_lease upsert_lease
upsert_lease-held now fresh [] f u d = cc
upsert_lease-held now fresh (x ∷ ls) {l} f u d =
    ground (arith, upsert_lease-held now fresh ls {l = l})

-- While a job's lease on a workspace has not expired, no other job gets the workspace.
pub acquire-held :
    (now project job : ℕ) (path worker : Text) (duration : ℕ) (ls : List WorkspaceLease)
    (l : WorkspaceLease)
    → find_lease path ls ≡ some l
    → now ≤ l.expires_at
    → l.job_id ≢ job
    → acquire_workspace_lease now project job path worker duration ls ≡ err workspace_leased
unfolding acquire_workspace_lease
acquire-held now project job path worker duration ls l f u d = rw (
  upsert_lease-held now (new_lease now project job path worker duration) ls f u d,
  acquire_workspace_lease,
)

-- No row names the job.
abbrev Without : ℕ → List WorkspaceLease → Type 0
Without job [] = Unit
Without job (l ∷ ls) = (l.job_id ≢ job) × Without job ls

extend-Without :
    (now expires job : ℕ) (worker : Text) (ls : List WorkspaceLease)
    → Without job ls
    → (extend_leases now expires job worker ls).1 ≡ false
unfolding extend_leases
extend-Without now expires job worker [] h = refl
extend-Without now expires job worker (l ∷ ls) h =
    ground (arith, extend-Without now expires job worker ls h.1)

-- The job's row, if there is one, is the row of the path.
abbrev pub OnlyAt : ℕ → Text → List WorkspaceLease → Type 0
OnlyAt job path [] = Unit
OnlyAt job path (l ∷ ls) = (l.job_id ≡ job → l.workspace ≡ path) × OnlyAt job path ls

Without-absent :
    (job : ℕ) (path : Text) (ls : List WorkspaceLease)
    → OnlyAt job path ls
    → find_lease path ls ≡ none
    → Without job ls
unfolding find_lease
Without-absent job path [] o f = tt
Without-absent job path (l ∷ ls) o f =
    ground (arith, text_beq_iff l.workspace path, Without-absent job path ls o.1)

module _ (now old : ℕ) (fresh : WorkspaceLease) (other : fresh.job_id ≢ old) where
  upsert_here :
      (l : WorkspaceLease) (ls : List WorkspaceLease) {ls' : List WorkspaceLease}
      → (l.workspace == fresh.workspace) ≡ true
      → Without old ls
      → upsert_lease now fresh (l ∷ ls) ≡ some ls'
      → Without old ls'
  unfolding upsert_lease
  upsert_here l ls same without e = ground arith

  upsert_there :
      (l : WorkspaceLease) (ls : List WorkspaceLease) (o : Option (List WorkspaceLease))
      {ls' : List WorkspaceLease}
      → (l.workspace == fresh.workspace) ≡ false
      → upsert_lease now fresh ls ≡ o
      → l.job_id ≢ old
      → ((rest : List WorkspaceLease) → o ≡ some rest → Without old rest)
      → upsert_lease now fresh (l ∷ ls) ≡ some ls'
      → Without old ls'
  unfolding upsert_lease
  upsert_there l ls none differs u d later e = ground arith
  upsert_there l ls (some rest) differs u d later e = ground (arith, later rest refl)

  upsert-Without :
      (ls : List WorkspaceLease) {ls' : List WorkspaceLease}
      → IsKeyedByPath ls
      → OnlyAt old fresh.workspace ls
      → upsert_lease now fresh ls ≡ some ls'
      → Without old ls'
  unfolding upsert_lease
  upsert-Without [] k o e = ground arith
  upsert-Without (l ∷ ls) k o e = elim (Bool-cases (l.workspace == fresh.workspace)) [
    | inl same ↦
        let absent = rw ((text_beq_iff l.workspace fresh.workspace).0 same) at k.0 in
        upsert_here l ls same (Without-absent old fresh.workspace ls o.1 absent) e
    | inr differs ↦
        upsert_there l ls _ differs refl
          (λ j. ground (arith, o.0 j, text_beq_iff l.workspace fresh.workspace))
          (λ rest r. upsert-Without ls {ls' = rest} k.1 o.1 r) e
  ]

acquire-upsert :
    (now project job : ℕ) (path worker : Text) (duration : ℕ) (ls : List WorkspaceLease)
    {ls' : List WorkspaceLease}
    → acquire_workspace_lease now project job path worker duration ls ≡ ok ls'
    → upsert_lease now (new_lease now project job path worker duration) ls ≡ some ls'
unfolding acquire_workspace_lease
acquire-upsert now project job path worker duration ls h = ground arith

-- Where a path has one row and a job holds no other path: once another job has taken over the path,
-- the job cannot renew its lease and is told that it is lost, whatever worker asks and whenever.
pub acquire-renew_lost :
    (now later project job old : ℕ) (path worker holder : Text) (duration : ℕ) (db : Db)
    (ls : List WorkspaceLease)
    → IsKeyedByPath db.leases
    → OnlyAt old path db.leases
    → job ≢ old
    → acquire_workspace_lease now project job path worker duration db.leases ≡ ok ls
    → renew_workspace_lease later old holder duration (record db { leases = ls }) ≡ err lease_lost
unfolding renew_workspace_lease
acquire-renew_lost now later project job old path worker holder duration db ls k o d h =
    let without =
      upsert-Without now old (new_lease now project job path worker duration) d db.leases k o
        (acquire-upsert now project job path worker duration db.leases h) in
    ground (arith, extend-Without later (later + duration) old holder ls without)
