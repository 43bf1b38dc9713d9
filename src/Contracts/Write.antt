-- ===== src/Contracts/Write.antt =====
-- What writing to a platform needs: packages/contracts/src/model.ts, adapters.ts and plans.ts. A
-- write adapter is code outside of the engine: a record of actions on the state of the platform.
use dsh_session_maintenance.Prelude.{ℕ, String, Bool, List, Option, Action}
use dsh_session_maintenance.Contracts.Json.{Json}
use dsh_session_maintenance.Contracts.Plan.{
  PlatformKind, PlatformSessionKey, StateFingerprint, AdapterContractRef, SyncPlan,
}

pub data CompatibilityStatus : Type 0 where
  compatible degraded unsupported : CompatibilityStatus

pub record CompatibilityIssue : Type 0 where
  pub code : String
  pub message : String
  pub source_type : Option String

pub record RegisteredInstance : Type 0 where
  pub id : String
  pub platform : PlatformKind
  pub display_name : String
  pub root : String
  pub platform_version : String

pub data WriteCapability : Type 0 where
  create_session append_events update_title update_archive verify restore : WriteCapability

pub record WriteProbe : Type 0 where
  pub status : CompatibilityStatus
  pub contract : AdapterContractRef
  pub capabilities : List WriteCapability
  pub issues : List CompatibilityIssue

pub record TransactionContext : Type 0 where
  pub id : String
  pub plan_id : String
  pub plan_hash : String
  pub started_at : String

pub record ExpectedPlatformState : Type 0 where
  pub fingerprints : List StateFingerprint

pub record VerificationResult : Type 0 where
  pub is_ok : Bool
  pub fingerprints : List StateFingerprint
  pub issues : List CompatibilityIssue

pub record PreparedWrite : Type 0 where
  pub id : String
  pub plan_id : String
  pub plan_hash : String
  pub platform : PlatformKind
  pub instance_id : String
  pub root_identity : String
  pub target_key : Option PlatformSessionKey
  pub expected : ExpectedPlatformState
  pub payload : Json

pub record BackupManifestEntry : Type 0 where
  pub logical_name : String
  pub object_id : String
  pub size : ℕ
  pub sha256 : String
  pub is_required : Bool

pub record BackupManifest : Type 0 where
  pub transaction_id : String
  pub entries : List BackupManifestEntry
  pub created_at : String
  pub hash : String

pub record WriteReceipt : Type 0 where
  pub transaction_id : String
  pub platform : PlatformKind
  pub instance_id : String
  pub target_key : Option PlatformSessionKey
  pub fingerprints : List StateFingerprint
  pub details : Json

pub record RestoreReceipt : Type 0 where
  pub transaction_id : String
  pub is_restored : Bool
  pub fingerprints : List StateFingerprint
  pub issues : List CompatibilityIssue

pub record ConfirmationScope : Type 0 where
  pub operation : String
  pub resource_id : String
  pub operation_hash : String

pub record IssuedConfirmation : Type 0 where
  pub scope : ConfirmationScope
  pub open scope use *
  pub token : String
  pub expires_at : String

pub record StoredConfirmation : Type 0 where
  pub token_hash : String
  pub operation : String
  pub resource_id : String
  pub operation_hash : String
  pub expires_at : String
  pub created_at : String
  pub consumed_at : Option String

-- `PlatformWriteAdapter`, over the platform's state.
pub record WriteAdapter (P : Type 0) : Type 0 where
  pub probe_write : RegisteredInstance → Action P WriteProbe
  pub prepare : SyncPlan → RegisteredInstance → TransactionContext → Action P PreparedWrite
  pub backup : PreparedWrite → TransactionContext → Action P BackupManifest
  pub commit : PreparedWrite → TransactionContext → Action P WriteReceipt
  pub verify : WriteReceipt → ExpectedPlatformState → Action P VerificationResult
  pub restore : BackupManifest → TransactionContext → Action P RestoreReceipt
