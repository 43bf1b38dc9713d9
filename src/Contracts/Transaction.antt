-- ===== src/Contracts/Transaction.antt =====
-- Transactions: packages/contracts/src/model.ts.
use dsh_session_maintenance.Prelude.{ℕ, String, Option}
use dsh_session_maintenance.Contracts.Json.{Json}
use dsh_session_maintenance.Contracts.Plan.{PlatformKind, AdapterContractRef}

pub data TransactionStatus : Type 0 where
  prepared backing_up applying verifying completed restoring restored restore_failed manual_review :
      TransactionStatus

pub record TransactionRecord : Type 0 where
  pub id : String
  pub plan_id : String
  pub plan_hash : String
  pub platform : PlatformKind
  pub instance_id : String
  pub root_identity : String
  pub adapter_contract : AdapterContractRef
  pub status : TransactionStatus
  pub result : Option Json
  pub error_code : Option String
  pub created_at : String
  pub updated_at : String

pub record TransactionStep : Type 0 where
  pub transaction_id : String
  pub sequence : ℕ
  pub status : TransactionStatus
  pub step : String
  pub entry_data : Json
  pub previous_hash : Option String
  pub entry_hash : String
  pub at : String
