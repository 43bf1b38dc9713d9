-- ===== src/Domain/Plan/Payload.antt =====
-- The JSON of a plan and its identity: planner.ts, `fingerprintJson` to `fingerprintKey`.
use Prim.Native.String as S
use mathlib.Core.Option
use dsh_session_maintenance.Prelude.{
  String, Bool, ◌&&◌, List, [], ◌∷◌, ◌++◌, map, Option, none, some, ◌==◌, string_eq,
}
use dsh_session_maintenance.Contracts.Json.{
  Json, bool, num, str, arr, obj, Items, nil, cons, Fields, end, field,
}
use dsh_session_maintenance.Contracts.Plan.{
  PlatformKind, codex, dsh, PlatformSessionKey, FingerprintKind, catalog, content, StateFingerprint,
  AdapterContractRef, BindingSnapshot, ReviewReason, diverged, rewritten, metadata_conflict,
  identity_conflict, ConfirmationRequirement, review, destructive_deletion_candidate,
  PlannedOperation, create_target_session, append_events, update_title, update_archive,
  deletion_candidate, require_review, Risk, safe, review_needed, destructive, PlanContent, SyncPlan,
}
use dsh_session_maintenance.Domain.Text.{Text}
use dsh_session_maintenance.Domain.CanonicalJson.{canonical_json}

unfoldable pub fields : List (String × Json) → Fields
fields [] = end
fields ((k, v) ∷ rest) = field k v (fields rest)

unfoldable pub object : List (String × Json) → Json
unfolding fields
object entries = obj (fields entries)

unfoldable pub items : List Json → Items
items [] = nil
items (v ∷ rest) = cons v (items rest)

unfoldable pub array : List Json → Json
unfolding items
array values = arr (items values)

-- `...(value === undefined ? {} : { key: value })`
unfoldable pub optional_field : String → Option Json → List (String × Json)
optional_field k none = []
optional_field k (some v) = (k, v) ∷ []

unfoldable pub platform_text : PlatformKind → String
platform_text codex = "codex"
platform_text dsh = "dsh"

unfoldable pub fingerprint_kind_text : FingerprintKind → String
fingerprint_kind_text catalog = "catalog"
fingerprint_kind_text content = "content"

unfoldable pub reason_text : ReviewReason → String
reason_text diverged = "DIVERGED"
reason_text rewritten = "REWRITTEN"
reason_text metadata_conflict = "METADATA_CONFLICT"
reason_text identity_conflict = "IDENTITY_CONFLICT"

unfoldable pub risk_text : Risk → String
risk_text safe = "safe"
risk_text review_needed = "review"
risk_text destructive = "destructive"

unfoldable pub fingerprint_json : StateFingerprint → Json
unfolding object platform_text fingerprint_kind_text
fingerprint_json f = object (
    ("platform", str (platform_text f.platform))
    ∷ ("instanceId", str f.instance_id)
    ∷ ("sessionId", str f.session_id)
    ∷ ("kind", str (fingerprint_kind_text f.kind))
    ∷ ("value", str f.value)
    ∷ [])

unfoldable pub key_json : PlatformSessionKey → Json
unfolding object platform_text
key_json key = object (
    ("platform", str (platform_text key.platform))
    ∷ ("instanceId", str key.instance_id)
    ∷ ("sessionId", str key.session_id)
    ∷ [])

unfoldable pub snapshot_json : BindingSnapshot → Json
unfolding object array key_json fingerprint_json
snapshot_json snapshot = object (
    ("bindingId", str snapshot.binding_id)
    ∷ ("key", key_json snapshot.key)
    ∷ ("versionId", str snapshot.version_id)
    ∷ ("fingerprints", array (map fingerprint_json snapshot.fingerprints))
    ∷ [])

-- `operation.type`
unfoldable pub operation_type : PlannedOperation → String
operation_type (create_target_session instance_id) = "create-target-session"
operation_type (append_events from_index event_ids) = "append-events"
operation_type (update_title title) = "update-title"
operation_type (update_archive archived) = "update-archive"
operation_type (deletion_candidate missing) = "deletion-candidate"
operation_type (require_review reason) = "require-review"

unfoldable operation_fields : PlannedOperation → List (String × Json)
unfolding array key_json reason_text
operation_fields (create_target_session instance_id) = ("targetInstanceId", str instance_id) ∷ []
operation_fields (append_events from_index event_ids) =
    ("fromIndex", num from_index) ∷ ("eventIds", array (map str event_ids)) ∷ []
operation_fields (update_title title) = ("title", str title) ∷ []
operation_fields (update_archive archived) = ("archived", bool archived) ∷ []
operation_fields (deletion_candidate missing) = ("missing", key_json missing) ∷ []
operation_fields (require_review reason) = ("reason", str (reason_text reason)) ∷ []

unfoldable pub operation_json : PlannedOperation → Json
unfolding object operation_type operation_fields
operation_json operation =
    object (("type", str (operation_type operation)) ∷ operation_fields operation)

unfoldable pub adapter_contract_json : AdapterContractRef → Json
unfolding object
adapter_contract_json contract = object (
    ("adapter", str contract.adapter)
    ∷ ("platformVersion", str contract.platform_version)
    ∷ ("schemaFingerprint", str contract.schema_fingerprint)
    ∷ [])

unfoldable pub confirmation_json : ConfirmationRequirement → Json
unfolding object reason_text
confirmation_json (review reason) = object (
    ("kind", str "review")
    ∷ ("code", str (reason_text reason))
    ∷ ("message", str (S.◌++◌ "Manual review is required: " (reason_text reason)))
    ∷ [])
confirmation_json destructive_deletion_candidate = object (
    ("kind", str "destructive")
    ∷ ("code", str "DELETION_CANDIDATE")
    ∷ ("message", str "A previously observed platform session is missing")
    ∷ [])

unfoldable pub plan_fields : PlanContent → List (String × Json)
unfolding array optional_field snapshot_json adapter_contract_json operation_json risk_text
    confirmation_json fingerprint_json
plan_fields plan =
    ("schemaVersion", num 1)
    ∷ ("createdAt", str plan.created_at)
    ∷ ("logicalSessionId", str plan.logical_session_id)
    ∷ (optional_field "baseVersionId" (Option.map str plan.base_version_id)
        ++ (("source", snapshot_json plan.source)
            ∷ (optional_field "target" (Option.map snapshot_json plan.target)
                ++ (("adapterContracts", array (map adapter_contract_json plan.adapter_contracts))
                    ∷ ("operations", array (map operation_json plan.operations))
                    ∷ ("risk", str (risk_text plan.risk))
                    ∷ ("confirmations", array (map confirmation_json plan.confirmations))
                    ∷ ("preconditions", array (map fingerprint_json plan.preconditions))
                    ∷ []))))

unfoldable pub sync_plan_identity_payload : PlanContent → Json
unfolding object plan_fields
sync_plan_identity_payload plan = object (plan_fields plan)

unfoldable pub fingerprint_key : StateFingerprint → Text
unfolding fingerprint_json canonical_json
fingerprint_key f = canonical_json (fingerprint_json f)

pub record Identity : Type 0 where
  pub id : String
  pub hash : String

-- `sha256` is the hex digest of node:crypto.
module _ (sha256 : Text → String) where
  unfoldable pub sha256_canonical : Json → String
  sha256_canonical value = sha256 (canonical_json value)

  unfoldable pub compute_sync_plan_identity : PlanContent → Identity
  unfolding sha256_canonical
  compute_sync_plan_identity plan =
      let hex = sha256_canonical (sync_plan_identity_payload plan) in
      record { id = S.◌++◌ "plan_" (S.slice hex 0 24); hash = S.◌++◌ "sha256:" hex }

  unfoldable pub verify_sync_plan_identity : SyncPlan → Bool
  unfolding compute_sync_plan_identity
  verify_sync_plan_identity plan =
      let expected = compute_sync_plan_identity plan.content in
      plan.id == expected.id && plan.hash == expected.hash
