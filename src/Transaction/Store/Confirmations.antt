-- ===== src/Transaction/Store/Confirmations.antt =====
-- packages/session-store/src/repository.ts: the one-time confirmations.
use dsh_session_maintenance.Prelude.{
  String, Bool, ◌&&◌, not, List, [], ◌∷◌, ◌++◌, Option, some, ◌==◌, string_eq, nat_eq, option_eq,
  list_eq, if◌then◌else◌, find, keep, is_some, lift, length, Action, pure, demand, schema_error,
  other_error,
}
use dsh_session_maintenance.Contracts.Write.{StoredConfirmation}
use dsh_session_maintenance.Contracts.Schemas.{stored_confirmation_schema}
use dsh_session_maintenance.Transaction.Store.{Store, parse_row}

-- `SELECT ... FROM confirmation_nonces WHERE token_hash = ?`
abbrev pub find_confirmation : String → Store → Option StoredConfirmation
find_confirmation token_hash store = find (λ c. c.token_hash == token_hash) store.confirmations

abbrev pub is_unused : String → StoredConfirmation → Bool
is_unused token_hash c = c.token_hash == token_hash && not (is_some c.consumed_at)

-- `UPDATE confirmation_nonces SET consumed_at = ? WHERE token_hash = ? AND consumed_at IS NULL`
unfoldable pub consume_rows : String → String → List StoredConfirmation → List StoredConfirmation
consume_rows token_hash consumed_at [] = []
consume_rows token_hash consumed_at (c ∷ cs) =
    (if is_unused token_hash c then record c { consumed_at = some consumed_at } else c)
    ∷ consume_rows token_hash consumed_at cs

unfoldable pub consume_confirmation : String → String → Action Store Bool
unfolding consume_rows
consume_confirmation token_hash consumed_at store =
    pure (length (keep (is_unused token_hash) store.confirmations) == 1)
      (record store { confirmations = consume_rows token_hash consumed_at store.confirmations })

module _ (datetime : String → Bool) where
  unfoldable pub save_confirmation : StoredConfirmation → Action Store Unit
  save_confirmation input = demand (stored_confirmation_schema datetime input) schema_error λ store.
      demand (not (is_some (find_confirmation input.token_hash store))) other_error
        (λ s. pure tt (record s { confirmations = s.confirmations ++ input ∷ [] })) store

  unfoldable pub get_confirmation : String → Action Store (Option StoredConfirmation)
  unfolding parse_row
  get_confirmation token_hash store =
      lift
        (parse_row (stored_confirmation_schema datetime) schema_error
          (find_confirmation token_hash store))
        store
