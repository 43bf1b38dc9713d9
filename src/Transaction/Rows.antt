-- ===== src/Transaction/Rows.antt =====
-- The JSON values of what the store and the executor print: records, manifests, receipts.
use mathlib.Core.Option
use dsh_session_maintenance.Prelude.{[], ◌∷◌, ◌++◌, map}
use dsh_session_maintenance.Contracts.Json.{Json, num, str, bool}
use dsh_session_maintenance.Contracts.Plan.{SyncPlan}
use dsh_session_maintenance.Contracts.Transaction.{TransactionRecord}
use dsh_session_maintenance.Contracts.Write.{
  CompatibilityIssue, BackupManifestEntry, BackupManifest, WriteReceipt, RestoreReceipt,
}
use dsh_session_maintenance.Domain.Plan.Payload.{
  object, array, optional_field, platform_text, key_json, fingerprint_json, adapter_contract_json,
  plan_fields,
}
use dsh_session_maintenance.Transaction.Journal.{status_text}

unfoldable pub transaction_json : TransactionRecord → Json
transaction_json r = object (
    ("id", str r.id)
    ∷ ("planId", str r.plan_id)
    ∷ ("planHash", str r.plan_hash)
    ∷ ("platform", str (platform_text r.platform))
    ∷ ("instanceId", str r.instance_id)
    ∷ ("rootIdentity", str r.root_identity)
    ∷ ("adapterContract", adapter_contract_json r.adapter_contract)
    ∷ ("status", str (status_text r.status))
    ∷ (optional_field "result" r.result
        ++ (optional_field "errorCode" (Option.map str r.error_code)
            ++ (("createdAt", str r.created_at) ∷ ("updatedAt", str r.updated_at) ∷ []))))

unfoldable pub backup_entry_json : BackupManifestEntry → Json
backup_entry_json e = object (
    ("logicalName", str e.logical_name)
    ∷ ("objectId", str e.object_id)
    ∷ ("size", num e.size)
    ∷ ("sha256", str e.sha256)
    ∷ ("required", bool e.is_required)
    ∷ [])

unfoldable pub backup_manifest_json : BackupManifest → Json
unfolding backup_entry_json
backup_manifest_json m = object (
    ("schemaVersion", num 1)
    ∷ ("transactionId", str m.transaction_id)
    ∷ ("entries", array (map backup_entry_json m.entries))
    ∷ ("createdAt", str m.created_at)
    ∷ ("hash", str m.hash)
    ∷ [])

unfoldable pub issue_json : CompatibilityIssue → Json
issue_json i = object (
    ("code", str i.code)
    ∷ ("message", str i.message)
    ∷ optional_field "sourceType" (Option.map str i.source_type))

unfoldable pub receipt_json : WriteReceipt → Json
receipt_json r = object (
    ("transactionId", str r.transaction_id)
    ∷ ("platform", str (platform_text r.platform))
    ∷ ("instanceId", str r.instance_id)
    ∷ (optional_field "targetKey" (Option.map key_json r.target_key)
        ++ (("fingerprints", array (map fingerprint_json r.fingerprints))
            ∷ ("details", r.details)
            ∷ [])))

unfoldable pub restore_receipt_json : RestoreReceipt → Json
unfolding issue_json
restore_receipt_json r = object (
    ("transactionId", str r.transaction_id)
    ∷ ("restored", bool r.is_restored)
    ∷ ("fingerprints", array (map fingerprint_json r.fingerprints))
    ∷ ("issues", array (map issue_json r.issues))
    ∷ [])

unfoldable pub sync_plan_json : SyncPlan → Json
sync_plan_json plan =
    object (("id", str plan.id) ∷ ("hash", str plan.hash) ∷ plan_fields plan.content)
