-- ===== src/Transaction/Transition.antt =====
-- packages/transaction-engine/src/executor.ts: `recordTransition`, the one way in which the executor
-- and the recovery move a transaction: a journal entry, and then the same step in the store.
pub mod Synced
pub mod Paths
use Prim.Native.String as S
use mathlib.Core.Option
use dsh_session_maintenance.Prelude.{
  ℕ, String, Bool, Option, none, some, List, [], ◌∷◌, Action, Failure, maintenance, ◌>>=◌,
}
use dsh_session_maintenance.Contracts.Json.{Json, str}
use dsh_session_maintenance.Contracts.Errors.{error_code_text}
use dsh_session_maintenance.Contracts.Transaction.{
  TransactionStatus, TransactionRecord, TransactionStep,
}
use dsh_session_maintenance.Domain.Text.{Text}
use dsh_session_maintenance.Domain.Plan.Payload.{object}
use dsh_session_maintenance.Transaction.Journal.{JournalEntryInput}
use dsh_session_maintenance.Transaction.Store.{TransactionTransition, record_transaction_step}
use dsh_session_maintenance.Transaction.World.{JournalFile, World, in_store, in_journal}

pub record Transition : Type 0 where
  pub transaction_id : String
  pub status : TransactionStatus
  pub step : String
  pub at : String
  pub entry_data : Option Json
  pub result : Option Json
  pub error_code : Option String

-- A transition without data, result or error.
abbrev pub plain : String → TransactionStatus → String → String → Transition
plain transaction_id status step at = record {
  transaction_id = transaction_id;
  status = status;
  step = step;
  at = at;
  entry_data = none;
  result = none;
  error_code = none;
}

unfoldable pub data_or_empty : Option Json → Json
data_or_empty none = object []
data_or_empty (some value) = value

unfoldable pub journal_input : Transition → JournalEntryInput
journal_input input = record {
  transaction_id = input.transaction_id;
  status = input.status;
  step = input.step;
  at = input.at;
  entry_data = data_or_empty input.entry_data;
}

unfoldable pub store_input : Transition → TransactionStep → TransactionTransition
store_input input entry = record {
  step = entry;
  result = input.result;
  error_code = input.error_code;
}

-- `errorCode(error)`
unfoldable pub error_code_of : Failure → String
error_code_of (maintenance code) = error_code_text code
error_code_of _ = "WRITE_CAPABILITY_UNAVAILABLE"

pub record TransactionRef : Type 0 where
  pub id : String
  pub status : TransactionStatus

unfoldable pub transaction_ref : TransactionRecord → TransactionRef
transaction_ref r = record { id = r.id; status = r.status }

module _ {P : Type 0} (sha256 : Text → String) (datetime : String → Bool)
    (j : JournalFile sha256 datetime) where
  unfoldable pub record_transition : Transition → Action (World j.File P) TransactionRecord
  record_transition input =
      in_journal input.transaction_id (j.append (journal_input input)) >>= λ entry.
      in_store (record_transaction_step datetime (store_input input entry))
