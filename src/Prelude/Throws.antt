-- ===== src/Prelude/Throws.antt =====
-- Results of code that may throw. `SessionMaintenanceError` is thrown with a code of
-- packages/contracts/src/errors.ts; a `TypeError`, an error of a zod schema or another `Error` carries none.
use mathlib.Core.Path.{◌≡◌, refl}
use mathlib.Core.Logic.{◌⊎◌, inl, inr}

-- SESSION_MAINTENANCE_ERROR_CODES
pub data ErrorCode : Type 0 where
  unstable_read plan_stale adapter_incompatible capability_not_available live_home_forbidden
        recovery_required identity_conflict object_corrupt historical_metadata_unavailable
        version_id_collision loopback_only dsh_busy codex_busy codex_version_unsupported
        codex_schema_drift codex_disk_space_low mirror_not_enabled mirror_conflict
        write_capability_unavailable transaction_in_progress transaction_not_found
        transaction_not_restorable backup_incomplete backup_corrupt verification_failed
        restore_failed confirmation_required confirmation_expired confirmation_scope_mismatch
        ui_contract_incompatible content_too_large handoff_budget_exceeded handoff_request_invalid
        continuation_not_found continuation_create_failed continuation_verify_failed
        continuation_recovery_required :
      ErrorCode

pub data Failure : Type 0 where
  maintenance : ErrorCode → Failure
  type_error : Failure
  schema_error : Failure
  other_error : Failure

pub data Outcome {ℓ} (A : Type ℓ) : Type ℓ where
  ok : A → Outcome A
  thrown : Failure → Outcome A

-- What follows a value that did not throw.
infixl 10 ◌=>>◌
abbrev pub ◌=>>◌ {ℓ κ} : {A : Type ℓ} {B : Type κ} → Outcome A → (A → Outcome B) → Outcome B
ok a =>> f = f a
thrown e =>> f = thrown e

pub Outcome-cases {ℓ} :
    {A : Type ℓ} (r : Outcome A) → ((a : A) × (r ≡ ok a)) ⊎ ((e : Failure) × (r ≡ thrown e))
Outcome-cases (ok a) = inl (a, refl)
Outcome-cases (thrown e) = inr (e, refl)
