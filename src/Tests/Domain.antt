-- ===== src/Tests/Domain.antt =====
-- The theorems on packages/session-domain at concrete inputs. Events are their identities here.
use dsh_session_maintenance.Prelude.{
  ◌≡◌, refl, ◌≢◌, String, Bool, true, false, List, [], ◌∷◌, none, some, string_eq, nat_eq, list_eq,
  arith, ok, eq_iff, map, map_set,
}
use dsh_session_maintenance.Contracts.Json.{str}
use dsh_session_maintenance.Contracts.Schemas.{sync_plan_schema}
use dsh_session_maintenance.Contracts.Plan.{
  codex, dsh, StateFingerprint, content, append_events, update_title, safe, SyncPlan,
}
use dsh_session_maintenance.Domain.Text.{Text, sort}
use dsh_session_maintenance.Domain.CanonicalJson.{canonical_json}
use dsh_session_maintenance.Domain.CanonicalJson.Lines.{IsEscaped, canonical_json-IsEscaped}
use dsh_session_maintenance.Domain.Diff.{
  classify_conversation_delta, append_only, SessionMetadata, classify_metadata_delta, source_only,
  same_metadata,
}
use dsh_session_maintenance.Domain.Diff.Delta.{
  classify_conversation_delta_exact, classify_metadata_delta_exact,
}
use dsh_session_maintenance.Domain.Plan.Payload.{compute_sync_plan_identity}
use dsh_session_maintenance.Domain.Plan.Create.{
  PlanningHead, present, CreateSyncPlanRequest, plan_present_target, create_sync_plan,
  sorted_unique,
}
use dsh_session_maintenance.Domain.Plan.Replay.{
  Joined, apply_operations, target_state, merged, plan_present_target_replay,
}
use dsh_session_maintenance.Domain.Plan.Validate.{
  validate_executable_dsh_plan, mutation, validate_plan_preconditions,
}
use dsh_session_maintenance.Domain.Plan.Validate.Admission.{create_sync_plan-admitted}
use dsh_session_maintenance.Domain.Plan.Validate.Stale.{validate_plan_preconditions_exact}

canonical_json-IsEscaped_example : IsEscaped (canonical_json (str "a\nb"))
canonical_json-IsEscaped_example = canonical_json-IsEscaped (str "a\nb")

abbrev short : List String
short = "a" ∷ []

abbrev long : List String
long = "a" ∷ "b" ∷ []

classify_conversation_delta_exact_example : classify_conversation_delta short long ≡ append_only
classify_conversation_delta_exact_example =
    (classify_conversation_delta_exact short long).1.1 ("b", [], refl)

abbrev old_title : SessionMetadata
old_title = record { title = "old"; archived = false }

abbrev new_title : SessionMetadata
new_title = record { title = "new"; archived = false }

titles_differ : new_title ≢ old_title
titles_differ e = ground (arith, eq_iff "new" "old")

classify_metadata_delta_exact_example :
    classify_metadata_delta old_title new_title old_title ≡ source_only
classify_metadata_delta_exact_example =
    (classify_metadata_delta_exact old_title new_title old_title).1.1
      (titles_differ, (λ e. ground (arith, eq_iff "new" "old")), refl)

abbrev codex_fingerprint : StateFingerprint
codex_fingerprint = record {
  key = record { platform = codex; instance_id = "c1"; session_id = "s1" };
  kind = content;
  value = "f1";
}

abbrev source_head : PlanningHead String
source_head = record {
  snapshot = record {
    binding_id = "b1";
    key = record { platform = codex; instance_id = "c1"; session_id = "s1" };
    version_id = "v2";
    fingerprints = codex_fingerprint ∷ [];
  };
  events = long;
  metadata = new_title;
}

abbrev target_head : PlanningHead String
target_head = record {
  snapshot = record {
    binding_id = "b2";
    key = record { platform = dsh; instance_id = "d1"; session_id = "s2" };
    version_id = "v1";
    fingerprints = [];
  };
  events = short;
  metadata = old_title;
}

abbrev request : CreateSyncPlanRequest String
request = record {
  created_at = "2026-01-01T00:00:00Z";
  logical_session_id = "l1";
  base_version_id = none;
  base_events = short;
  base_metadata = old_title;
  source = source_head;
  target = present target_head;
  adapter_contracts = [];
  has_identity_conflict = false;
}

abbrev identity : String → String
identity event = event

plan_runs :
    (plan_present_target identity request target_head).operations
    ≡ append_events 1 ("b" ∷ []) ∷ update_title "new" ∷ []
unfolding plan_present_target classify_conversation_delta classify_metadata_delta same_metadata
plan_runs = refl

plan_is_safe : (plan_present_target identity request target_head).risk ≡ safe
unfolding plan_present_target classify_conversation_delta classify_metadata_delta same_metadata
plan_is_safe = refl

plan_present_target_replay_example :
    (result : List String) × Joined identity long short result
    × (apply_operations
          (plan_present_target identity request target_head).operations
          (target_state identity target_head)
        ≡ record {
          event_ids = map identity result;
          metadata = merged old_title new_title old_title;
        })
plan_present_target_replay_example =
    plan_present_target_replay identity request target_head plan_is_safe

abbrev digest : Text → String
digest t = "00"

abbrev any_time : String → Bool
any_time s = true

abbrev made : SyncPlan
made = record {
  content = record {
    created_at = "2026-01-01T00:00:00Z";
    logical_session_id = "l1";
    base_version_id = none;
    source = source_head.snapshot;
    target = some target_head.snapshot;
    adapter_contracts = [];
    operations = append_events 1 ("b" ∷ []) ∷ update_title "new" ∷ [];
    risk = safe;
    confirmations = [];
    preconditions = codex_fingerprint ∷ [];
  };
  id = "plan_00";
  hash = "sha256:00";
}

create_runs : create_sync_plan identity digest any_time request ≡ ok made
unfolding create_sync_plan classify_conversation_delta classify_metadata_delta sync_plan_schema
    compute_sync_plan_identity same_metadata sorted_unique sort map_set
create_runs = refl

create_sync_plan-admitted_example :
    validate_executable_dsh_plan made ≡ ok (record { kind = mutation; target_instance_id = "d1" })
create_sync_plan-admitted_example =
    create_sync_plan-admitted identity request digest any_time made create_runs refl refl refl

validate_plan_preconditions_exact_example :
    validate_plan_preconditions made (codex_fingerprint ∷ []) ≡ ok tt
validate_plan_preconditions_exact_example =
    (validate_plan_preconditions_exact made (codex_fingerprint ∷ [])).0.1
      ((refl, tt), (refl, tt), λ k. refl)
