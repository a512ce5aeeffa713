-- ===== src/Gate/Protect.antt =====
-- What the gate refuses or leaves alone: durable ends, stale versions, replays.
use specrelay.Prelude.{
  ℕ, ◌<◌, ◌≡◌, ◌≢◌, refl, sym, ◌∙◌, ap, ◌⊎◌, Bool, true, false, Option, none, some, ◌∷◌, arith,
  Text, nat_eq, inl, inr, eq_of_some,
}
use specrelay.Failure.{Result, ok, err, ◌>>=◌}
use specrelay.Status.{status_eq, status_beq_iff}
use specrelay.Lifecycle.{LifecycleResource, is_terminal_status, is_recoverable_terminal_status}
use specrelay.Gate.{
  Row, Table, LifecycleTransitionRequest, Step, same, moved, find_row, put_row, audit_row,
  apply_step, transition_found, transition_row, transition_lifecycle,
}
use specrelay.Gate.Rows.{find_row-id, find_row-put_row_self}
use specrelay.Gate.Moved.{
  IsWritten, IsAdmitted, transition_row-IsWritten, transition_row-IsAdmitted,
}

module _ {X : Type 0} (resource : LifecycleResource) (worker_id : X → Text) (now : ℕ) where
  -- A successful request found its row, and changed it or left the whole table alone.
  pub record Outcome (q : LifecycleTransitionRequest X) (t t' : Table X) (idempotent : Bool)
      : Type 0 where
    pub row : Row X
    pub found : find_row q.resource_id t.rows ≡ some row
    pub effect :
        (t' ≡ t) × (idempotent ≡ true) × (transition_row resource worker_id now q row ≡ ok same)
        ⊎ ((r' : Row X) × (transition_row resource worker_id now q row ≡ ok (moved r'))
            × (t' ≡ record t { rows = put_row r' t.rows; audit = audit_row row r' ∷ t.audit })
            × (idempotent ≡ false))

  step-effect :
      (q : LifecycleTransitionRequest X) (t t' : Table X) (idempotent : Bool) (r : Row X)
      (s : Result (Step X))
      → transition_row resource worker_id now q r ≡ s
      → (s >>= λ step. ok (apply_step t r step)) ≡ ok (t', idempotent)
      → (t' ≡ t) × (idempotent ≡ true) × (transition_row resource worker_id now q r ≡ ok same)
        ⊎ ((r' : Row X) × (transition_row resource worker_id now q r ≡ ok (moved r'))
            × (t' ≡ record t { rows = put_row r' t.rows; audit = audit_row r r' ∷ t.audit })
            × (idempotent ≡ false))
  unfolding apply_step
  step-effect q t t' i r (err e) d h = cc
  step-effect q t t' i r (ok same) d h = inl (ground arith, ground arith, d)
  step-effect q t t' i r (ok (moved r')) d h = inr (r', d, ground arith, ground arith)

  transition_found-Outcome :
      (q : LifecycleTransitionRequest X) (t t' : Table X) (idempotent : Bool) (o : Option (Row X))
      → find_row q.resource_id t.rows ≡ o
      → transition_found resource worker_id now q t o ≡ ok (t', idempotent)
      → Outcome q t t' idempotent
  unfolding transition_found
  transition_found-Outcome q t t' i none e h = cc
  transition_found-Outcome q t t' i (some r) e h = record {
    row = r;
    found = e;
    effect = step-effect q t t' i r _ refl h;
  }

  pub transition_lifecycle-Outcome :
      (q : LifecycleTransitionRequest X) (t t' : Table X) (idempotent : Bool)
      → transition_lifecycle resource worker_id now q t ≡ ok (t', idempotent)
      → Outcome q t t' idempotent
  unfolding transition_lifecycle
  transition_lifecycle-Outcome q t t' i h = transition_found-Outcome q t t' i _ refl h

  -- A row in a terminal status that is not recoverable is never changed by a request without
  -- AllowTerminal: if the request succeeds, it is idempotent and the table is as it was.
  pub transition_lifecycle-terminal :
      (q : LifecycleTransitionRequest X) (t t' : Table X) (idempotent : Bool) (r : Row X)
      → find_row q.resource_id t.rows ≡ some r
      → is_terminal_status resource r.status ≡ true
      → is_recoverable_terminal_status resource r.status ≡ false
      → q.allow_terminal ≡ false
      → transition_lifecycle resource worker_id now q t ≡ ok (t', idempotent)
      → (t' ≡ t) × (idempotent ≡ true)
  transition_lifecycle-terminal q t t' i r found terminal durable guarded h =
      let outcome = transition_lifecycle-Outcome q t t' i h in
      elim outcome.effect [
        | inl (kept, flag, _) ↦ (kept, flag)
        | inr (r', moves, _, _) ↦
            let admitted = transition_row-IsAdmitted resource worker_id now q outcome.row moves in
            ground (arith, admitted.unprotected, outcome.found)
      ]

  pub after_move :
      (q : LifecycleTransitionRequest X) (t t' : Table X)
      → transition_lifecycle resource worker_id now q t ≡ ok (t', false)
      → (r r' : Row X) × (find_row q.resource_id t.rows ≡ some r)
        × (find_row q.resource_id t'.rows ≡ some r')
        × IsAdmitted resource worker_id now q r
        × IsWritten resource worker_id now q r r'
  after_move q t t' h =
      let outcome = transition_lifecycle-Outcome q t t' false h in
      elim outcome.effect [
        | inl (_, no_move, _) ↦ cc
        | inr (r', moves, e, _) ↦
            let admitted = transition_row-IsAdmitted resource worker_id now q outcome.row moves in
            let written = transition_row-IsWritten resource worker_id now q outcome.row moves in
            let id = find_row-id q.resource_id t.rows outcome.found in
            (
              outcome.row,
              r',
              outcome.found,
              rw e (
                  find_row-put_row_self q.resource_id r' t.rows (written.same_id ∙ id)
                    outcome.found),
              admitted,
              written,
            )
      ]

  -- A request that expects another version than its row has leaves the table alone if it succeeds
  -- at all.
  transition_lifecycle-stale :
      (q : LifecycleTransitionRequest X) (t t' : Table X) (idempotent : Bool) (r : Row X)
      → find_row q.resource_id t.rows ≡ some r
      → 0 < q.expected_version
      → r.version ≢ q.expected_version
      → transition_lifecycle resource worker_id now q t ≡ ok (t', idempotent)
      → (t' ≡ t) × (idempotent ≡ true)
  transition_lifecycle-stale q t t' i r found guarded stale h =
      let outcome = transition_lifecycle-Outcome q t t' i h in
      let same_row : outcome.row ≡ r = eq_of_some (sym outcome.found ∙ found) in
      elim outcome.effect [
        | inl (kept, flag, _) ↦ (kept, flag)
        | inr (r', moves, _, _) ↦
            let admitted = transition_row-IsAdmitted resource worker_id now q outcome.row moves in
            absurd
              (stale (ap (λ (x : Row X). x.version) (sym same_row) ∙ admitted.version_fits guarded))
      ]

-- Of two requests that expect the same positive version of the same row only one can change it: once
-- the first has, the second, at any time, leaves the table alone if it succeeds at all.
pub transition_lifecycle-one_winner :
    {X : Type 0} (resource : LifecycleResource) (worker_id : X → Text) (now later : ℕ)
    (q₁ q₂ : LifecycleTransitionRequest X) (t t₁ t₂ : Table X) (idempotent : Bool)
    → q₁.resource_id ≡ q₂.resource_id
    → 0 < q₁.expected_version
    → q₁.expected_version ≡ q₂.expected_version
    → transition_lifecycle resource worker_id now q₁ t ≡ ok (t₁, false)
    → transition_lifecycle resource worker_id later q₂ t₁ ≡ ok (t₂, idempotent)
    → (t₂ ≡ t₁) × (idempotent ≡ true)
transition_lifecycle-one_winner resource worker_id now later q₁ q₂ t t₁ t₂ i ids guarded versions h₁
      h₂ =
    let (r, r', _, read, admitted, written) = after_move resource worker_id now q₁ t t₁ h₁ in
    transition_lifecycle-stale resource worker_id later q₂ t₁ t₂ i r'
      (ap (λ id. find_row id t₁.rows) (sym ids) ∙ read) (omega arith)
      (omega (arith, admitted.version_fits guarded, written.next_version)) h₂

-- Replaying a request that changed its row, at any later time, is idempotent: no metadata is
-- overwritten, the version stays, and no audit row is added.
pub transition_lifecycle-replay :
    {X : Type 0} (resource : LifecycleResource) (worker_id : X → Text) (now later : ℕ)
    (q : LifecycleTransitionRequest X) (t t' : Table X)
    → transition_lifecycle resource worker_id now q t ≡ ok (t', false)
    → transition_lifecycle resource worker_id later q t' ≡ ok (t', true)
unfolding transition_lifecycle transition_found transition_row apply_step
transition_lifecycle-replay resource worker_id now later q t t' h =
    let (r, r', _, read, _, written) = after_move resource worker_id now q t t' h in
    rw (read, transition_found)
      (ground (arith, status_beq_iff r'.status q.status, written.new_status))
