-- ===== src/Transaction/Confirmation.antt =====
-- packages/transaction-engine/src/confirmation.ts: tokens that confirm one operation once. Times are
-- milliseconds; `iso` is `toISOString`, and `time` is `Date.parse`.
pub mod OneTime
use Prim.Native.String as S
use dsh_session_maintenance.Prelude.{
  ℕ, ◌+◌, String, Bool, ◌&&◌, not, Option, none, some, ◌==◌, string_eq, is_some, leb, ltb, length,
  Action, pure, raise, demand, Outcome, maintenance, schema_error, type_error,
  confirmation_required, confirmation_scope_mismatch, confirmation_expired, ◌>>=◌, ◌>>◌,
}
use dsh_session_maintenance.Contracts.Write.{
  ConfirmationScope, IssuedConfirmation, StoredConfirmation,
}
use dsh_session_maintenance.Contracts.Schemas.{confirmation_scope_schema}
use dsh_session_maintenance.Domain.Text.{Text, codes, utf16}
use dsh_session_maintenance.Transaction.Store.{Store}
use dsh_session_maintenance.Transaction.Store.Confirmations.{
  save_confirmation, get_confirmation, consume_confirmation,
}

-- The three tests on the scope.
unfoldable pub is_same_scope : StoredConfirmation → ConfirmationScope → Bool
is_same_scope stored scope =
    stored.operation == scope.operation
    && stored.resource_id == scope.resource_id
    && stored.operation_hash == scope.operation_hash

-- `if (!(await consumeConfirmation(...))) throw`
unfoldable pub consumed : Bool → Action Store Unit
consumed won = demand won (maintenance confirmation_required) (pure tt)

module _ (iso : ℕ → String) (time : String → ℕ) where
  unfoldable pub consume_stored :
      ConfirmationScope → ℕ → Option StoredConfirmation → Action Store Unit
  unfolding is_same_scope consumed
  consume_stored scope now none = raise (maintenance confirmation_required)
  consume_stored scope now (some stored) =
      demand (not (is_some stored.consumed_at)) (maintenance confirmation_required) (
        demand (is_same_scope stored scope) (maintenance confirmation_scope_mismatch) (
          demand (not (leb (time stored.expires_at) now)) (maintenance confirmation_expired)
            (consume_confirmation stored.token_hash (iso now) >>= consumed)))

module _ (sha256 : Text → String) where
  unfoldable pub token_hash_of : String → String
  token_hash_of token = S.◌++◌ "sha256:" (sha256 (codes token))

module _ (sha256 : Text → String) (datetime : String → Bool) (iso : ℕ → String)
    (time : String → ℕ) where
  -- What `issue` stores for a token that is made now.
  unfoldable pub stored_for : ConfirmationScope → String → ℕ → ℕ → StoredConfirmation
  stored_for scope token created_at expires_at = record {
    token_hash = token_hash_of sha256 token;
    operation = scope.operation;
    resource_id = scope.resource_id;
    operation_hash = scope.operation_hash;
    expires_at = iso expires_at;
    created_at = iso created_at;
    consumed_at = none;
  }

  -- The token is the one that `randomToken` returns.
  unfoldable pub issue : ℕ → ConfirmationScope → String → ℕ → Action Store IssuedConfirmation
  issue ttl_ms scope token now = demand (confirmation_scope_schema scope) schema_error (
      demand (not (ltb (length (utf16 (codes token))) 8)) type_error (
        save_confirmation datetime (stored_for scope token now (now + ttl_ms))
        >> pure (record { scope = scope; token = token; expires_at = iso (now + ttl_ms) })))

  unfoldable pub consume_token : String → ConfirmationScope → ℕ → Action Store Unit
  consume_token token scope now =
      demand (confirmation_scope_schema scope) schema_error (
        get_confirmation datetime (token_hash_of sha256 token)
        >>= consume_stored iso time scope now)

  unfoldable pub consume : IssuedConfirmation → ℕ → Action Store Unit
  consume input now = consume_token input.token input.scope now
