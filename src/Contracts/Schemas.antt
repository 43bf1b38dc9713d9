-- ===== src/Contracts/Schemas.antt =====
-- packages/contracts/src/schemas.ts: what the zod schemas of plans and transaction steps ask beyond
-- the types. `datetime` is zod's test of an ISO 8601 text with an offset.
use dsh_session_maintenance.Prelude.{
  String, Bool, true, ◌&&◌, not, Option, none, some, ◌==◌, string_eq, all,
}
use dsh_session_maintenance.Contracts.Plan.{
  PlatformSessionKey, StateFingerprint, AdapterContractRef, BindingSnapshot, PlannedOperation,
  create_target_session, append_events, update_title, update_archive, deletion_candidate,
  require_review, SyncPlan,
}
use dsh_session_maintenance.Contracts.Transaction.{TransactionRecord, TransactionStep}
use dsh_session_maintenance.Contracts.Write.{
  BackupManifestEntry, BackupManifest, StoredConfirmation, ConfirmationScope,
}

unfoldable pub id_schema : String → Bool
id_schema s = not (s == "")

unfoldable pub key_schema : PlatformSessionKey → Bool
unfolding id_schema
key_schema key = id_schema key.instance_id && id_schema key.session_id

unfoldable pub state_fingerprint_schema : StateFingerprint → Bool
unfolding key_schema
state_fingerprint_schema f = key_schema f.key && id_schema f.value

unfoldable pub adapter_contract_ref_schema : AdapterContractRef → Bool
unfolding id_schema
adapter_contract_ref_schema c =
    id_schema c.adapter && id_schema c.platform_version && id_schema c.schema_fingerprint

unfoldable pub binding_snapshot_schema : BindingSnapshot → Bool
unfolding state_fingerprint_schema
binding_snapshot_schema b =
    id_schema b.binding_id
    && key_schema b.key
    && id_schema b.version_id
    && all state_fingerprint_schema b.fingerprints

unfoldable pub planned_operation_schema : PlannedOperation → Bool
unfolding key_schema
planned_operation_schema (create_target_session instance_id) = id_schema instance_id
planned_operation_schema (append_events from_index event_ids) = all id_schema event_ids
planned_operation_schema (update_title title) = true
planned_operation_schema (update_archive archived) = true
planned_operation_schema (deletion_candidate missing) = key_schema missing
planned_operation_schema (require_review reason) = true

-- A field that may be left out.
abbrev optional : {A : Type 0} → (A → Bool) → Option A → Bool
optional schema none = true
optional schema (some a) = schema a

unfoldable pub confirmation_scope_schema : ConfirmationScope → Bool
unfolding id_schema
confirmation_scope_schema s =
    id_schema s.operation && id_schema s.resource_id && id_schema s.operation_hash

unfoldable pub backup_manifest_entry_schema : BackupManifestEntry → Bool
unfolding id_schema
backup_manifest_entry_schema e =
    id_schema e.logical_name && id_schema e.object_id && id_schema e.sha256

module _ (datetime : String → Bool) where
  unfoldable pub sync_plan_schema : SyncPlan → Bool
  unfolding binding_snapshot_schema adapter_contract_ref_schema planned_operation_schema
  sync_plan_schema plan =
      id_schema plan.id
      && id_schema plan.hash
      && datetime plan.created_at
      && id_schema plan.logical_session_id
      && optional id_schema plan.base_version_id
      && binding_snapshot_schema plan.source
      && optional binding_snapshot_schema plan.target
      && all adapter_contract_ref_schema plan.adapter_contracts
      && all planned_operation_schema plan.operations
      && all state_fingerprint_schema plan.preconditions

  unfoldable pub transaction_step_schema : TransactionStep → Bool
  unfolding id_schema
  transaction_step_schema s =
      id_schema s.transaction_id && id_schema s.step && id_schema s.entry_hash && datetime s.at

  unfoldable pub transaction_record_schema : TransactionRecord → Bool
  unfolding id_schema adapter_contract_ref_schema
  transaction_record_schema r =
      id_schema r.id
      && id_schema r.plan_id
      && id_schema r.plan_hash
      && id_schema r.instance_id
      && id_schema r.root_identity
      && adapter_contract_ref_schema r.adapter_contract
      && datetime r.created_at
      && datetime r.updated_at

  unfoldable pub backup_manifest_schema : BackupManifest → Bool
  unfolding id_schema
  backup_manifest_schema m =
      id_schema m.transaction_id
      && all backup_manifest_entry_schema m.entries
      && datetime m.created_at
      && id_schema m.hash

  unfoldable pub stored_confirmation_schema : StoredConfirmation → Bool
  unfolding id_schema
  stored_confirmation_schema c =
      id_schema c.token_hash
      && id_schema c.operation
      && id_schema c.resource_id
      && id_schema c.operation_hash
      && datetime c.expires_at
      && datetime c.created_at
      && optional datetime c.consumed_at
