-- ===== src/Domain/Plan/Create.antt =====
-- `collectPreconditions`, `planPresentTarget` and `createSyncPlan` of planner.ts.
use dsh_session_maintenance.Prelude.{
  String, Bool, true, false, ◌&&◌, not, List, [], ◌∷◌, ◌++◌, map, Option, none, some, Eq, ◌==◌,
  string_eq, nat_eq, bool_eq, list_eq, if◌then◌else◌, length, drop, map_set, Outcome, ok, thrown,
  schema_error,
}
use dsh_session_maintenance.Contracts.Plan.{
  PlatformSessionKey, StateFingerprint, AdapterContractRef, BindingSnapshot, ReviewReason, diverged,
  rewritten, metadata_conflict, identity_conflict, ConfirmationRequirement, review,
  destructive_deletion_candidate, PlannedOperation, create_target_session, append_events,
  update_title, update_archive, deletion_candidate, require_review, Risk, safe, review_needed,
  destructive, PlanContent, SyncPlan,
}
use dsh_session_maintenance.Contracts.Schemas.{sync_plan_schema}
use dsh_session_maintenance.Domain.Text.{Text, utf16, units_lt, sort}
use dsh_session_maintenance.Domain.Diff.{
  ConversationDelta, unchanged, append_only, classify_conversation_delta, SessionMetadata,
  MetadataDelta, classify_metadata_delta,
}
use dsh_session_maintenance.Domain.Plan.Payload.{fingerprint_key, compute_sync_plan_identity}

pub record PlanningHead (Event : Type 0) : Type 0 where
  pub snapshot : BindingSnapshot
  pub events : List Event
  pub metadata : SessionMetadata

pub data PlanningTarget (Event : Type 0) : Type 0 where
  present : PlanningHead Event → PlanningTarget Event
  missing : PlatformSessionKey → String → Bool → PlanningTarget Event

pub record CreateSyncPlanRequest (Event : Type 0) : Type 0 where
  pub created_at : String
  pub logical_session_id : String
  pub base_version_id : Option String
  pub base_events : List Event
  pub base_metadata : SessionMetadata
  pub source : PlanningHead Event
  pub target : PlanningTarget Event
  pub adapter_contracts : List AdapterContractRef
  pub has_identity_conflict : Bool

-- What `planPresentTarget` returns.
pub record Decision : Type 0 where
  pub operations : List PlannedOperation
  pub risk : Risk
  pub confirmations : List ConfirmationRequirement

abbrev pub KeyedFingerprint : Type 0
KeyedFingerprint = Text × StateFingerprint

unfoldable pub keyed_lt : KeyedFingerprint → KeyedFingerprint → Bool
keyed_lt (j, _) (k, _) = units_lt (utf16 j) (utf16 k)

-- The loop that fills the map `unique`.
unfoldable pub unique_fingerprints :
    List KeyedFingerprint → List StateFingerprint → List KeyedFingerprint
unique_fingerprints unique [] = unique
unique_fingerprints unique (f ∷ fs) = unique_fingerprints (map_set (fingerprint_key f) f unique) fs

unfoldable pub sorted_unique : List StateFingerprint → List StateFingerprint
unfolding unique_fingerprints keyed_lt
sorted_unique all = map (λ (e : KeyedFingerprint). e.1) (sort keyed_lt (unique_fingerprints [] all))

unfoldable pub review_operation : ReviewReason → Decision
review_operation reason = record {
  operations = require_review reason ∷ [];
  risk = review_needed;
  confirmations = review reason ∷ [];
}

unfoldable pub metadata_operations : SessionMetadata → SessionMetadata → List PlannedOperation
metadata_operations source target =
    (if source.title == target.title then [] else update_title source.title ∷ [])
    ++ (if source.archived == target.archived then [] else update_archive source.archived ∷ [])

-- The tail of `planPresentTarget`, after the conversation has been settled.
unfoldable pub plan_metadata :
    List PlannedOperation → SessionMetadata → SessionMetadata → SessionMetadata → Decision
unfolding review_operation metadata_operations
plan_metadata operations base source target = elim (classify_metadata_delta base source target) [
  | MetadataDelta.metadata_conflict ↦ review_operation metadata_conflict
  | MetadataDelta.source_only ↦ record {
    operations = operations ++ metadata_operations source target;
    risk = safe;
    confirmations = [];
  }
  | _ ↦ record { operations = operations; risk = safe; confirmations = [] }
]

abbrev is_append : ConversationDelta → Bool
is_append append_only = true
is_append _ = false

abbrev is_unchanged : ConversationDelta → Bool
is_unchanged unchanged = true
is_unchanged _ = false

unfoldable pub target_snapshot : {Event : Type 0} → PlanningTarget Event → Option BindingSnapshot
target_snapshot (present head) = some head.snapshot
target_snapshot (missing key target_instance_id previously_observed) = none

unfoldable pub target_fingerprints : {Event : Type 0} → PlanningTarget Event → List StateFingerprint
target_fingerprints (present head) = head.snapshot.fingerprints
target_fingerprints (missing key target_instance_id previously_observed) = []

unfoldable pub collect_preconditions :
    {Event : Type 0} → CreateSyncPlanRequest Event → List StateFingerprint
unfolding target_fingerprints
collect_preconditions request =
    sorted_unique (request.source.snapshot.fingerprints ++ target_fingerprints request.target)

module _ {Event : Type 0} ⦃deep : Eq Event⦄ (event_id : Event → String) where
  unfoldable pub append_operation : List Event → List Event → PlannedOperation
  append_operation target source =
      append_events (length target) (map event_id (drop (length target) source))

  unfoldable pub plan_present_target : CreateSyncPlanRequest Event → PlanningHead Event → Decision
  unfolding append_operation plan_metadata
  plan_present_target request target =
      let source = request.source in
      let metadata = λ (operations : List PlannedOperation).
        plan_metadata operations request.base_metadata source.metadata target.metadata in
      let source_extends_target = classify_conversation_delta target.events source.events in
      let target_extends_source = classify_conversation_delta source.events target.events in
      if request.has_identity_conflict
      then review_operation identity_conflict
      else if is_append source_extends_target
      then metadata (append_operation target.events source.events ∷ [])
      else if not (is_append target_extends_source) && not (is_unchanged source_extends_target)
      then (if is_append (classify_conversation_delta request.base_events source.events)
            && is_append (classify_conversation_delta request.base_events target.events)
          then review_operation diverged
          else review_operation rewritten)
      else metadata []

  unfoldable pub decide : CreateSyncPlanRequest Event → PlanningTarget Event → Decision
  unfolding plan_present_target
  decide request (present head) = plan_present_target request head
  decide request (missing key target_instance_id previously_observed) =
      if request.has_identity_conflict
      then review_operation identity_conflict
      else if previously_observed
      then record {
        operations = deletion_candidate key ∷ [];
        risk = destructive;
        confirmations = destructive_deletion_candidate ∷ [];
      }
      else record {
        operations = create_target_session target_instance_id ∷ [];
        risk = safe;
        confirmations = [];
      }

  unfoldable pub plan_content : CreateSyncPlanRequest Event → PlanContent
  unfolding decide target_snapshot collect_preconditions
  plan_content request =
      let decision = decide request request.target in
      record {
        created_at = request.created_at;
        logical_session_id = request.logical_session_id;
        base_version_id = request.base_version_id;
        source = request.source.snapshot;
        target = target_snapshot request.target;
        adapter_contracts = request.adapter_contracts;
        operations = decision.operations;
        risk = decision.risk;
        confirmations = decision.confirmations;
        preconditions = collect_preconditions request;
      }

  unfoldable pub create_sync_plan :
      (Text → String) → (String → Bool) → CreateSyncPlanRequest Event → Outcome SyncPlan
  unfolding plan_content
  create_sync_plan sha256 datetime request =
      let content = plan_content request in
      let identity = compute_sync_plan_identity sha256 content in
      let plan : SyncPlan = record { content = content; id = identity.id; hash = identity.hash } in
      if sync_plan_schema datetime plan then ok plan else thrown schema_error
