-- ===== src/Failure.antt =====
-- The errors of backend/internal/domain/models.go that the modelled code returns, pgx.ErrNoRows,
-- the errors of workspace leases, of a unique key and of a configuration that does not decode, the
-- scheduler's error on a task that is not pending, and the result of a Go function with a value and an error.
use specrelay.Prelude.{◌≡◌, ◌⊎◌, inl, inr, arith, refl, Bool, true, false}

pub data Failure : Type 0 where
  version_conflict not_found invalid_transition invalid_lifecycle_metadata : Failure
  no_rows lease_lost workspace_leased unique_violation : Failure
  baseline_missing drift_resolution_required invalid_audit invalid_config no_blocker : Failure

pub data Result {ℓ} (Value : Type ℓ) : Type ℓ where
  err : Failure → Result Value
  ok : Value → Result Value

-- `if !test { return failure }`
abbrev pub guard : Bool → Failure → Result (Unit {0})
guard test failure = elim test [ true ↦ ok tt | false ↦ err failure ]

-- `if err != nil { return err }`, and on with the value.
infixl 5 ◌>>=◌
abbrev pub ◌>>=◌ {ℓ κ} :
    {Value : Type ℓ} {Next : Type κ} → Result Value → (Value → Result Next) → Result Next
err failure >>= rest = err failure
ok value >>= rest = rest value

infixl 5 ◌>>◌
abbrev pub ◌>>◌ {κ} : {Next : Type κ} → Result (Unit {0}) → Result Next → Result Next
check >> rest = check >>= λ _. rest

pub Result-cases {ℓ} :
    {Value : Type ℓ} (m : Result Value)
    → ((failure : Failure) × (m ≡ err failure)) ⊎ ((v : Value) × (m ≡ ok v))
Result-cases (err failure) = inl (failure, refl)
Result-cases (ok v) = inr (v, refl)

module _ {ℓ κ} {Value : Type ℓ} {Next : Type κ} (m : Result Value)
    (rest : Value → Result Next) where
  -- A bind that succeeds has succeeded in both parts.
  pub >>=-eq-ok :
      {next : Next} → (m >>= rest) ≡ ok next → (v : Value) × (m ≡ ok v) × (rest v ≡ ok next)
  >>=-eq-ok h = elim (Result-cases m) [
    | inl (failure, e) ↦ ground (arith, e)
    | inr (v, e) ↦ (v, e, ground (arith, e))
  ]
