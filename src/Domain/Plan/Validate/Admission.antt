-- ===== src/Domain/Plan/Validate/Admission.antt =====
-- The planner and the gate agree: what `createSyncPlan` calls safe the gate admits.
use dsh_session_maintenance.Prelude.{
  if◌then◌else◌, is_empty, ℕ, ◌≡◌, refl, sym, subst, ◌⊎◌, inl, inr, String, Bool, false, List, [],
  ◌∷◌, ◌++◌, map, none, some, Eq, string_eq, length, arith, ok, drop-length-append,
}
use dsh_session_maintenance.Contracts.Plan.{
  codex, dsh, PlannedOperation, create_target_session, append_events, Risk, safe, SyncPlan,
  BindingSnapshot,
}
use dsh_session_maintenance.Domain.Text.{Text}
use dsh_session_maintenance.Domain.Diff.{append_only, classify_conversation_delta, SessionMetadata}
use dsh_session_maintenance.Domain.Diff.Delta.{classify_conversation_delta_exact}
use dsh_session_maintenance.Domain.Plan.Create.{
  PlanningHead, PlanningTarget, present, missing, CreateSyncPlanRequest, review_operation,
  metadata_operations, plan_metadata, append_operation, plan_present_target, decide,
  target_snapshot, create_sync_plan,
}
use dsh_session_maintenance.Domain.Plan.Validate.{
  is_safe, is_invalid_dsh, executable_shape, mutation, no_op, validate_executable_dsh_plan,
  find_create, find_append, has_foreign_type, has_repeated_type, dsh_allowed, is_bad_append,
  executable_target, admit, is_foreign_target, is_codex,
}

-- What the planner can put into a safe plan for a present target: an append of some events, then a
-- new title, then a new archive flag, each at most once.
abbrev Appends : List PlannedOperation → Type 0
Appends ops =
    (ops ≡ [])
    ⊎ ((n : ℕ) × (id : String) × (ids : List String) × (ops ≡ append_events n (id ∷ ids) ∷ []))

record IsAdmissible (ops : List PlannedOperation) : Type 0 where
  known : has_foreign_type dsh_allowed ops ≡ false
  once : has_repeated_type ops ≡ false
  no_create : find_create ops ≡ none
  nonempty : (t : BindingSnapshot) → is_bad_append (some t) (find_append ops) ≡ false

gate_present :
    (plan : SyncPlan) (t : BindingSnapshot)
    → plan.target ≡ some t
    → t.key.platform ≡ dsh
    → plan.source.key.platform ≡ codex
    → plan.risk ≡ safe
    → plan.confirmations ≡ []
    → IsAdmissible plan.operations
    → validate_executable_dsh_plan plan ≡ ok (executable_shape plan.operations t.key.instance_id)
unfolding validate_executable_dsh_plan is_invalid_dsh executable_target admit is_foreign_target
    is_safe is_codex
gate_present plan t g p s h c a = ground (arith, a.nonempty t)

gate_create :
    (plan : SyncPlan) (instance_id : String)
    → plan.target ≡ none
    → plan.operations ≡ create_target_session instance_id ∷ []
    → plan.source.key.platform ≡ codex
    → plan.risk ≡ safe
    → plan.confirmations ≡ []
    → validate_executable_dsh_plan plan ≡ ok (executable_shape plan.operations instance_id)
unfolding validate_executable_dsh_plan
gate_create plan instance_id g o s h c = ground arith

metadata_operations-IsAdmissible :
    (ops : List PlannedOperation) (source target : SessionMetadata)
    → Appends ops
    → IsAdmissible (ops ++ metadata_operations source target)
unfolding metadata_operations has_foreign_type has_repeated_type find_create find_append dsh_allowed
    is_bad_append
metadata_operations-IsAdmissible ops source target a = record {
  known = ground arith;
  once = ground arith;
  no_create = ground arith;
  nonempty = λ t. ground arith;
}

Appends-IsAdmissible : (ops : List PlannedOperation) → Appends ops → IsAdmissible ops
unfolding has_foreign_type has_repeated_type find_create find_append dsh_allowed is_bad_append
Appends-IsAdmissible ops a = record {
  known = ground arith;
  once = ground arith;
  no_create = ground arith;
  nonempty = λ t. ground arith;
}

plan_metadata-IsAdmissible :
    (ops : List PlannedOperation) (base source target : SessionMetadata)
    → Appends ops
    → (plan_metadata ops base source target).risk ≡ safe
    → IsAdmissible (plan_metadata ops base source target).operations
      × ((plan_metadata ops base source target).confirmations ≡ [])
unfolding plan_metadata review_operation
plan_metadata-IsAdmissible ops base source target a h =
    ground (arith, Appends-IsAdmissible ops a, metadata_operations-IsAdmissible ops source target a)

module _ {Event : Type 0} ⦃deep : Eq Event⦄ (event_id : Event → String) where
  append_operation-Appends :
      (target source : List Event) (e : Event) (rest : List Event)
      → source ≡ target ++ e ∷ rest
      → Appends (append_operation event_id target source ∷ [])
  unfolding append_operation
  append_operation-Appends target source e rest p =
      inr
        (length target, event_id e, map event_id rest, cc (p, drop-length-append target (e ∷ rest)))

  appended :
      (target source : List Event)
      → classify_conversation_delta target source ≡ append_only
      → Appends (append_operation event_id target source ∷ [])
  appended target source c =
      let (e, rest, p) = (classify_conversation_delta_exact target source).1.0 c in
      append_operation-Appends target source e rest p

  module _ (request : CreateSyncPlanRequest Event) where
    finish-IsAdmissible :
        (head : PlanningHead Event) (ops : List PlannedOperation)
        → Appends ops
        → (plan_metadata ops request.base_metadata request.source.metadata head.metadata).risk
          ≡ safe
        → IsAdmissible
            (plan_metadata ops request.base_metadata request.source.metadata
              head.metadata).operations
          × ((plan_metadata ops request.base_metadata request.source.metadata
                head.metadata).confirmations
              ≡ [])
    finish-IsAdmissible head ops =
        plan_metadata-IsAdmissible ops request.base_metadata request.source.metadata head.metadata

    plan_present_target-IsAdmissible :
        (head : PlanningHead Event)
        → (plan_present_target event_id request head).risk ≡ safe
        → IsAdmissible (plan_present_target event_id request head).operations
          × ((plan_present_target event_id request head).confirmations ≡ [])
    unfolding plan_present_target review_operation
    plan_present_target-IsAdmissible head h = ground (
      arith,
      finish-IsAdmissible head [] (inl refl),
      appended head.events request.source.events,
      finish-IsAdmissible head (append_operation event_id head.events request.source.events ∷ []),
    )

    -- The platforms that the gate asks for: from Codex into DSH, if there is a target.
    abbrev IsIntoDsh : PlanningTarget Event → Type 0
    IsIntoDsh (present head) = head.snapshot.key.platform ≡ dsh
    IsIntoDsh (missing key target_instance_id previously_observed) = Unit

    -- The instance that the plan is for.
    abbrev instance_of : PlanningTarget Event → String
    instance_of (present head) = head.snapshot.key.instance_id
    instance_of (missing key target_instance_id previously_observed) = target_instance_id

    decide-admitted :
        (target : PlanningTarget Event) (plan : SyncPlan)
        → plan.operations ≡ (decide event_id request target).operations
        → plan.risk ≡ (decide event_id request target).risk
        → plan.confirmations ≡ (decide event_id request target).confirmations
        → plan.target ≡ target_snapshot target
        → plan.source.key.platform ≡ codex
        → plan.risk ≡ safe
        → IsIntoDsh target
        → validate_executable_dsh_plan plan
          ≡ ok (executable_shape plan.operations (instance_of target))
    unfolding decide target_snapshot review_operation
    decide-admitted (present head) plan o r c g s h t =
        let (a, none_needed) =
          plan_present_target-IsAdmissible head (subst (λ (k : Risk). k ≡ safe) r h) in
        gate_present plan head.snapshot g t s h (cc (c, none_needed)) (subst IsAdmissible (sym o) a)
    decide-admitted (missing key target_instance_id previously_observed) plan o r c g s h t =
        gate_create plan target_instance_id g (ground arith) s h (ground arith)

    -- A plan that the planner makes and calls safe, from Codex to a DSH target that is present or
    -- was never seen, passes the gate in front of the writer, with the target's instance, and as a
    -- no-op exactly when it has no operations.
    pub create_sync_plan-admitted :
        (sha256 : Text → String) (datetime : String → Bool) (plan : SyncPlan)
        → create_sync_plan event_id sha256 datetime request ≡ ok plan
        → plan.risk ≡ safe
        → request.source.snapshot.key.platform ≡ codex
        → IsIntoDsh request.target
        → validate_executable_dsh_plan plan
          ≡ ok (record {
            kind = if is_empty plan.operations then no_op else mutation;
            target_instance_id = instance_of request.target;
          })
    unfolding create_sync_plan executable_shape
    create_sync_plan-admitted sha256 datetime plan made h s t =
        decide-admitted request.target plan (ground arith) (ground arith) (ground arith)
          (ground arith) (ground arith) h t
