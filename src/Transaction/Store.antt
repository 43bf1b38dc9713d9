-- ===== src/Transaction/Store.antt =====
-- packages/session-store/src/repository.ts: the tables of plans, transactions, their steps, backups
-- and confirmations, as lists of rows in the order of insertion. A column that holds JSON is its
-- value. Each method is one database transaction: on a throw the tables are as before.
pub mod Backups
pub mod Confirmations
pub mod Steps
use Prim.Native.String as S
use dsh_session_maintenance.Prelude.{
  ℕ, zero, suc, ◌≡◌, String, Bool, true, false, ◌&&◌, not, List, [], ◌∷◌, ◌++◌, map, Option, none,
  some, Eq, ◌==◌, string_eq, nat_eq, option_eq, list_eq, if◌then◌else◌, find, keep, any, all,
  is_some, ltb, ◌||◌, includes, lift, type_error, length, Action, pure, raise, demand, Outcome, ok,
  thrown, Failure, maintenance, schema_error, other_error, object_corrupt, identity_conflict,
  transaction_not_found, backup_corrupt, ErrorCode, continue, ◌>>=◌,
}
use dsh_session_maintenance.Contracts.Json.{Json}
use dsh_session_maintenance.Contracts.Plan.{SyncPlan}
use dsh_session_maintenance.Contracts.Transaction.{
  TransactionStatus, completed, restored, manual_review, TransactionRecord, TransactionStep,
}
use dsh_session_maintenance.Contracts.Write.{BackupManifest, StoredConfirmation}
use dsh_session_maintenance.Contracts.Schemas.{
  sync_plan_schema, transaction_record_schema, transaction_step_schema, backup_manifest_schema,
  stored_confirmation_schema,
}
use dsh_session_maintenance.Domain.Text.{Text, codes, units_lt, sort}
use dsh_session_maintenance.Domain.CanonicalJson.{canonical_json}
use dsh_session_maintenance.Domain.Plan.Payload.{verify_sync_plan_identity}
use dsh_session_maintenance.Transaction.Rows.{transaction_json, backup_manifest_json}
use dsh_session_maintenance.Transaction.Journal.{hash_of}

pub record Store : Type 0 where
  pub plans : List SyncPlan
  pub transactions : List TransactionRecord
  pub steps : List TransactionStep
  pub backups : List BackupManifest
  -- The transactions of `checkpoint_transactions`.
  pub checkpointed : List String
  pub confirmations : List StoredConfirmation

pub record TransactionTransition : Type 0 where
  pub step : TransactionStep
  pub result : Option Json
  pub error_code : Option String

abbrev pub has_id : String → TransactionRecord → Bool
has_id id r = r.id == id

abbrev pub has_plan : String → String → TransactionRecord → Bool
has_plan plan_id plan_hash r = r.plan_id == plan_id && r.plan_hash == plan_hash

abbrev pub is_step_of : String → TransactionStep → Bool
is_step_of id s = s.transaction_id == id

-- `ORDER BY sequence DESC LIMIT 1`
unfoldable pub later_step : Option TransactionStep → TransactionStep → Option TransactionStep
later_step none s = some s
later_step (some best) s = if ltb best.sequence s.sequence then some s else some best

unfoldable pub latest : Option TransactionStep → List TransactionStep → Option TransactionStep
unfolding later_step
latest best [] = best
latest best (s ∷ rest) = latest (later_step best s) rest

unfoldable pub last_step : String → Store → Option TransactionStep
last_step id store = latest none (keep (is_step_of id) store.steps)

-- `(last?.sequence ?? -1) + 1`
unfoldable pub expected_sequence : Option TransactionStep → ℕ
expected_sequence none = 0
expected_sequence (some s) = suc s.sequence

-- `COALESCE(?, column)`
unfoldable pub coalesce {ℓ} : {A : Type ℓ} → Option A → Option A → Option A
coalesce none old = old
coalesce (some new) old = some new

unfoldable pub apply_transition : TransactionTransition → TransactionRecord → TransactionRecord
unfolding coalesce
apply_transition input r = record r {
  status = input.step.status;
  result = coalesce input.result r.result;
  error_code = coalesce input.error_code r.error_code;
  updated_at = input.step.at;
}

-- `UPDATE transactions SET ... WHERE id = ?`
unfoldable pub update_row :
    String
    → (TransactionRecord → TransactionRecord)
    → List TransactionRecord
    → List TransactionRecord
update_row id change [] = []
update_row id change (r ∷ rs) = (if r.id == id then change r else r) ∷ update_row id change rs

unfoldable pub is_resolved : TransactionStatus → Bool
is_resolved completed = true
is_resolved restored = true
is_resolved _ = false

-- A row read back through the schema, whose failure is `failure`.
unfoldable pub parse_row {ℓ} : {A : Type ℓ} → (A → Bool) → Failure → Option A → Outcome (Option A)
parse_row schema failure none = ok none
parse_row schema failure (some row) = if schema row then ok (some row) else thrown failure

module _ (sha256 : Text → String) (datetime : String → Bool) where
  unfoldable pub get_plan : String → Action Store (Option SyncPlan)
  unfolding parse_row
  get_plan id store =
      lift
        (parse_row (λ plan. sync_plan_schema datetime plan && verify_sync_plan_identity sha256 plan)
          (maintenance object_corrupt) (find (λ plan. plan.id == id) store.plans))
        store

module _ (datetime : String → Bool) where
  unfoldable pub get_transaction : String → Action Store (Option TransactionRecord)
  unfolding parse_row
  get_transaction id store =
      lift
        (parse_row (transaction_record_schema datetime) (maintenance object_corrupt)
          (find (has_id id) store.transactions))
        store

  unfoldable pub find_transaction_by_plan :
      String → String → Action Store (Option TransactionRecord)
  unfolding parse_row
  find_transaction_by_plan plan_id plan_hash store =
      lift
        (parse_row (transaction_record_schema datetime) schema_error
          (find (has_plan plan_id plan_hash) store.transactions))
        store

  unfoldable pub insert_transaction : TransactionRecord → Action Store TransactionRecord
  insert_transaction input store =
      pure input (record store { transactions = store.transactions ++ input ∷ [] })

  -- The row that has the ID of the input, if any.
  unfoldable pub create_by_id :
      TransactionRecord → Option TransactionRecord → Action Store TransactionRecord
  unfolding insert_transaction
  create_by_id input none = insert_transaction input
  create_by_id input (some existing) =
      demand (canonical_json (transaction_json existing) == canonical_json (transaction_json input))
        (maintenance identity_conflict) (pure existing)

  unfoldable pub create_by_plan :
      TransactionRecord → Option TransactionRecord → Action Store TransactionRecord
  create_by_plan input none = get_transaction input.id >>= create_by_id input
  create_by_plan input (some existing) = pure existing

  unfoldable pub create_transaction : TransactionRecord → Action Store TransactionRecord
  create_transaction input =
      demand (transaction_record_schema datetime input) schema_error
        (find_transaction_by_plan input.plan_id input.plan_hash >>= create_by_plan input)

  unfoldable pub list_transaction_steps : String → Action Store (List TransactionStep)
  unfolding sort
  list_transaction_steps id store =
      let rows =
        sort (λ (a b : TransactionStep). ltb a.sequence b.sequence)
          (keep (is_step_of id) store.steps) in
      lift (if all (transaction_step_schema datetime) rows then ok rows else thrown schema_error)
        store

  -- The row of the transaction and its last step, both found; `transactionJson(current)` is after
  -- the commit.
  unfoldable pub insert_step :
      TransactionTransition
      → TransactionRecord
      → Option TransactionStep
      → Action Store TransactionRecord
  unfolding expected_sequence update_row apply_transition
  insert_step input current last =
      demand
        (input.step.sequence == expected_sequence last && input.step.previous_hash == hash_of last)
        (maintenance object_corrupt)
        λ store. (
          if transaction_record_schema datetime current
              then ok (apply_transition input current)
              else thrown schema_error,
          record store {
            steps = store.steps ++ input.step ∷ [];
            transactions =
                update_row input.step.transaction_id (apply_transition input) store.transactions;
          },
        )

  unfoldable pub transition_row :
      TransactionTransition → Option TransactionRecord → Action Store TransactionRecord
  transition_row input none store = raise (maintenance transaction_not_found) store
  transition_row input (some current) store =
      insert_step input current (last_step input.step.transaction_id store) store

  unfoldable pub record_transaction_step : TransactionTransition → Action Store TransactionRecord
  record_transaction_step input =
      demand (transaction_step_schema datetime input.step) schema_error (
        demand (not (input.step.transaction_id == "")) type_error λ store.
          transition_row input (find (has_id input.step.transaction_id) store.transactions) store)

  unfoldable pub review : String → String → TransactionRecord → TransactionRecord
  review updated_at error_code r = record r {
    status = manual_review;
    error_code = some error_code;
    updated_at = updated_at;
  }

  -- The row that was changed, read back; it is there.
  unfoldable pub existing_row : Option TransactionRecord → Action Store TransactionRecord
  existing_row none = raise type_error
  existing_row (some r) = pure r

  unfoldable pub mark_transaction_manual_review :
      String → String → String → Action Store TransactionRecord
  unfolding review update_row existing_row
  mark_transaction_manual_review id updated_at error_code store =
      let changed = record store {
        transactions = update_row id (review updated_at error_code) store.transactions;
      } in
      demand (length (keep (has_id id) store.transactions) == 1) (maintenance transaction_not_found)
        (get_transaction id >>= existing_row) changed
