-- ===== src/Contracts/Plan.antt =====
-- Sync plans and what they are made of: packages/contracts/src/plans.ts and model.ts.
use dsh_session_maintenance.Prelude.{ℕ, String, Bool, List, Option}

pub data PlatformKind : Type 0 where
  codex dsh : PlatformKind

pub record PlatformSessionKey : Type 0 where
  pub platform : PlatformKind
  pub instance_id : String
  pub session_id : String

pub data FingerprintKind : Type 0 where
  catalog content : FingerprintKind

pub record StateFingerprint : Type 0 where
  pub key : PlatformSessionKey
  pub open key use *
  pub kind : FingerprintKind
  pub value : String

pub record AdapterContractRef : Type 0 where
  pub adapter : String
  pub platform_version : String
  pub schema_fingerprint : String

pub record BindingSnapshot : Type 0 where
  pub binding_id : String
  pub key : PlatformSessionKey
  pub version_id : String
  pub fingerprints : List StateFingerprint

pub data ReviewReason : Type 0 where
  diverged rewritten metadata_conflict identity_conflict : ReviewReason

pub data ConfirmationRequirement : Type 0 where
  review : ReviewReason → ConfirmationRequirement
  destructive_deletion_candidate : ConfirmationRequirement

pub data PlannedOperation : Type 0 where
  create_target_session : String → PlannedOperation
  append_events : ℕ → List String → PlannedOperation
  update_title : String → PlannedOperation
  update_archive : Bool → PlannedOperation
  deletion_candidate : PlatformSessionKey → PlannedOperation
  require_review : ReviewReason → PlannedOperation

pub data Risk : Type 0 where
  safe review_needed destructive : Risk

-- `Omit<SyncPlan, "id" | "hash">`; `schemaVersion` is the constant 1.
pub record PlanContent : Type 0 where
  pub created_at : String
  pub logical_session_id : String
  pub base_version_id : Option String
  pub source : BindingSnapshot
  pub target : Option BindingSnapshot
  pub adapter_contracts : List AdapterContractRef
  pub operations : List PlannedOperation
  pub risk : Risk
  pub confirmations : List ConfirmationRequirement
  pub preconditions : List StateFingerprint

pub record SyncPlan : Type 0 where
  pub content : PlanContent
  pub open content use *
  pub id : String
  pub hash : String
