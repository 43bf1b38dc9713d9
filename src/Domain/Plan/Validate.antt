-- ===== src/Domain/Plan/Validate.antt =====
-- The gates between planning and writing: `validatePlanPreconditions`, `validateExecutableDshPlan`
-- and `validateExecutableCodexPlan` of planner.ts.
pub mod Admission
pub mod Stale
use dsh_session_maintenance.Prelude.{
  ℕ, String, Bool, true, false, ◌&&◌, ◌||◌, not, List, [], ◌∷◌, map, Option, none, some, Eq, ◌==◌,
  string_eq, nat_eq, bool_eq, list_eq, if◌then◌else◌, length, any, all, includes, is_empty, is_some,
  set_of, Outcome, ok, thrown, maintenance, plan_stale, write_capability_unavailable,
}
use dsh_session_maintenance.Contracts.Plan.{
  PlatformKind, codex, dsh, StateFingerprint, BindingSnapshot, PlannedOperation,
  create_target_session, append_events, Risk, safe, SyncPlan,
}
use dsh_session_maintenance.Domain.Text.{Text}
use dsh_session_maintenance.Domain.Plan.Payload.{fingerprint_key, operation_type}

-- The test of `validatePlanPreconditions` on the keys of the two sides.
unfoldable pub same_key_sets : List Text → List Text → Bool
unfolding set_of
same_key_sets expected actual =
    let expected_set = set_of expected in
    let actual_set = set_of actual in
    length expected_set == length expected
    && length actual_set == length actual
    && length expected_set == length actual_set
    && all (λ item. includes actual_set item) expected_set

unfoldable pub validate_plan_preconditions : SyncPlan → List StateFingerprint → Outcome (Unit {0})
unfolding same_key_sets
validate_plan_preconditions plan fingerprints =
    if same_key_sets (map fingerprint_key plan.preconditions) (map fingerprint_key fingerprints)
    then ok tt
    else thrown (maintenance plan_stale)

pub data ShapeKind : Type 0 where
  mutation no_op : ShapeKind

pub record ExecutablePlanShape : Type 0 where
  pub kind : ShapeKind
  pub target_instance_id : String

unfoldable pub is_safe : Risk → Bool
is_safe safe = true
is_safe _ = false

unfoldable pub is_codex : PlatformKind → Bool
is_codex codex = true
is_codex dsh = false

-- `plan.operations.find((operation) => operation.type === "create-target-session")`, and the
-- instance that it names.
unfoldable pub find_create : List PlannedOperation → Option String
find_create [] = none
find_create (create_target_session instance_id ∷ rest) = some instance_id
find_create (_ ∷ rest) = find_create rest

-- The event identities of the first append-events operation. `fromIndex < 0` cannot hold of ℕ.
unfoldable pub find_append : List PlannedOperation → Option (List String)
find_append [] = none
find_append (append_events from_index event_ids ∷ rest) = some event_ids
find_append (_ ∷ rest) = find_append rest

unfoldable pub dsh_allowed : List String
dsh_allowed = "create-target-session" ∷ "append-events" ∷ "update-title" ∷ "update-archive" ∷ []

unfoldable pub codex_allowed : List String
codex_allowed = "append-events" ∷ "update-title" ∷ "update-archive" ∷ []

-- `operationTypes.some((type) => !allowed.has(type))`, and the test for a repeated type.
unfoldable pub has_foreign_type : List String → List PlannedOperation → Bool
unfolding operation_type
has_foreign_type allowed operations =
    any (λ type. not (includes allowed type)) (map operation_type operations)

unfoldable pub has_repeated_type : List PlannedOperation → Bool
unfolding operation_type set_of
has_repeated_type operations =
    let types = map operation_type operations in not (length (set_of types) == length types)

-- `plan.target?.key.instanceId ?? create?.targetInstanceId`
unfoldable pub executable_target : Option BindingSnapshot → List PlannedOperation → Option String
unfolding find_create
executable_target (some target) operations = some target.key.instance_id
executable_target none operations = find_create operations

-- `plan.target !== undefined && plan.target.key.platform !== "dsh"`
unfoldable pub is_foreign_target : Option BindingSnapshot → Bool
unfolding is_codex
is_foreign_target none = false
is_foreign_target (some target) = is_codex target.key.platform

-- The last disjunct of the dsh gate's test: an append without a target or without events.
unfoldable pub is_bad_append : Option BindingSnapshot → Option (List String) → Bool
is_bad_append target none = false
is_bad_append target (some event_ids) = not (is_some target) || is_empty event_ids

-- The disjuncts of the dsh gate's test but the one on the target's instance.
unfoldable pub is_invalid_dsh : SyncPlan → Bool
unfolding is_safe is_codex find_create find_append dsh_allowed has_foreign_type has_repeated_type
    is_foreign_target is_bad_append
is_invalid_dsh plan =
    not (is_safe plan.risk)
    || not (is_empty plan.confirmations)
    || not (is_codex plan.source.key.platform)
    || has_foreign_type dsh_allowed plan.operations
    || has_repeated_type plan.operations
    || is_some plan.target == is_some (find_create plan.operations)
    || is_foreign_target plan.target
    || is_bad_append plan.target (find_append plan.operations)

unfoldable pub executable_shape : List PlannedOperation → String → ExecutablePlanShape
executable_shape operations instance_id = record {
  kind = if is_empty operations then no_op else mutation;
  target_instance_id = instance_id;
}

unfoldable pub admit : Bool → Option String → List PlannedOperation → Outcome ExecutablePlanShape
unfolding executable_shape
admit invalid none operations = thrown (maintenance write_capability_unavailable)
admit invalid (some instance_id) operations =
    if invalid
    then thrown (maintenance write_capability_unavailable)
    else ok (executable_shape operations instance_id)

unfoldable pub validate_executable_dsh_plan : SyncPlan → Outcome ExecutablePlanShape
unfolding is_invalid_dsh executable_target admit
validate_executable_dsh_plan plan =
    admit (is_invalid_dsh plan) (executable_target plan.target plan.operations) plan.operations

-- `plan.target?.key.platform !== "codex"`
unfoldable pub codex_target : Option BindingSnapshot → Option String
unfolding is_codex
codex_target none = none
codex_target (some target) =
    if is_codex target.key.platform then some target.key.instance_id else none

unfoldable pub is_empty_append : Option (List String) → Bool
is_empty_append none = false
is_empty_append (some event_ids) = is_empty event_ids

unfoldable pub validate_executable_codex_plan : SyncPlan → Outcome ExecutablePlanShape
unfolding is_safe is_codex find_append codex_allowed has_foreign_type has_repeated_type
    is_empty_append codex_target admit
validate_executable_codex_plan plan =
    admit
      (not (is_safe plan.risk)
        || not (is_empty plan.confirmations)
        || is_codex plan.source.key.platform
        || has_foreign_type codex_allowed plan.operations
        || has_repeated_type plan.operations
        || is_empty_append (find_append plan.operations))
      (codex_target plan.target) plan.operations
