-- ===== src/Gate/Audit.antt =====
-- The audit rows of a table (lifecycle_transitions) rest the history of its rows.
use specrelay.Prelude.{
  ℕ, ◌+◌, ◌≡◌, ◌≢◌, refl, sym, ap, subst, ◌∙◌, Bool, true, false, some, List, [], ◌∷◌, ◌==◌, Text,
  nat_eq, inl, inr, if◌then◌else◌, eq_of_some, Bool-cases, nat_beq_iff,
}
use specrelay.Failure.{ok}
use specrelay.Status.{Status}
use specrelay.Lifecycle.{LifecycleResource}
use specrelay.Gate.{
  Row, Table, LifecycleTransition, LifecycleTransitionRequest, find_row, put_row, audit_row,
  transition_lifecycle,
}
use specrelay.Gate.Rows.{find_row-id, find_row-put_row}
use specrelay.Gate.Moved.{transition_row-IsWritten, transition_row-IsAdmitted}
use specrelay.Gate.Protect.{transition_lifecycle-Outcome}

-- The audit rows of one resource, the newest first.
unfoldable pub trail : ℕ → List LifecycleTransition → List LifecycleTransition
trail id [] = []
trail id (a ∷ rest) = if a.resource_id == id then a ∷ trail id rest else trail id rest

-- A chain of audit rows that ends in the given status and version: each row names the status that
-- the next one starts from, versions go up by one, and every row changes the status.
abbrev pub IsChain : Status → ℕ → List LifecycleTransition → Type 0
IsChain status version [] = Unit
IsChain status version (a ∷ rest) =
    (a.to_status ≡ status)
    × (a.resource_version ≡ version)
    × (a.from_status ≢ a.to_status)
    × (v : ℕ) × (version ≡ v + 1)
    × IsChain a.from_status v rest

-- The audit rows of every row of the table lead to the status and version that it has.
pub record IsAudited {X : Type 0} (t : Table X) : Type 0 where
  pub history :
      (id : ℕ) (r : Row X)
      → find_row id t.rows ≡ some r
      → IsChain r.status r.version (trail id t.audit)

trail-other :
    (id : ℕ) (a : LifecycleTransition) (rest : List LifecycleTransition)
    → (a.resource_id == id) ≡ false
    → trail id (a ∷ rest) ≡ trail id rest
unfolding trail
trail-other id a rest h = rw h

module _ {X : Type 0} where
  IsChain-audit_row :
      (id : ℕ) (r r' : Row X) (rest : List LifecycleTransition)
      → (r'.id == id) ≡ true
      → r.status ≢ r'.status
      → r'.version ≡ r.version + 1
      → IsChain r.status r.version (trail id rest)
      → IsChain r'.status r'.version (trail id (audit_row r r' ∷ rest))
  unfolding trail
  IsChain-audit_row id r r' rest here differs next chain =
      rw here (refl, refl, differs, r.version, next, chain)

  IsAudited-moved :
      (t : Table X) (r r' : Row X)
      → IsAudited t
      → find_row r'.id t.rows ≡ some r
      → r.status ≢ r'.status
      → r'.version ≡ r.version + 1
      → IsAudited (record t { rows = put_row r' t.rows; audit = audit_row r r' ∷ t.audit })
  IsAudited-moved t r r' audited found differs next = record {
    history = λ id s e. elim (Bool-cases (r'.id == id)) [
      | inl here ↦
          let written : some r' ≡ some s =
            rw here at (sym (find_row-put_row id r' t.rows found) ∙ e) in
          subst (λ u. IsChain u.status u.version (trail id (audit_row r r' ∷ t.audit)))
            (eq_of_some written)
            (IsChain-audit_row id r r' t.audit here differs next
              (audited.history id r (rw (← (nat_beq_iff r'.id id).0 here) found)))
      | inr there ↦
          rw (trail-other id (audit_row r r') t.audit there)
            (audited.history id s (rw there at (sym (find_row-put_row id r' t.rows found) ∙ e)))
    ];
  }

  -- Every successful request keeps the audit history exact: where the audit rows of each row form a
  -- chain of changes that ends in its present status and version, they do so afterwards.
  pub transition_lifecycle-IsAudited :
      (resource : LifecycleResource) (worker_id : X → Text) (now : ℕ)
      (q : LifecycleTransitionRequest X) (t t' : Table X) (idempotent : Bool)
      → transition_lifecycle resource worker_id now q t ≡ ok (t', idempotent)
      → IsAudited t
      → IsAudited t'
  transition_lifecycle-IsAudited resource worker_id now q t t' i h audited =
      let outcome = transition_lifecycle-Outcome resource worker_id now q t t' i h in
      elim outcome.effect [
        | inl (kept, _, _) ↦ rw kept audited
        | inr (r', moves, e, _) ↦
            let written = transition_row-IsWritten resource worker_id now q outcome.row moves in
            let admitted = transition_row-IsAdmitted resource worker_id now q outcome.row moves in
            let id = written.same_id ∙ find_row-id q.resource_id t.rows outcome.found in
            rw e (
              IsAudited-moved t outcome.row r' audited
                (ap (λ n. find_row n t.rows) id ∙ outcome.found)
                (λ same. admitted.other_status (same ∙ written.new_status)) written.next_version)
      ]
