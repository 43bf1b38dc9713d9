-- ===== src/Domain/Plan/Replay.antt =====
-- What a plan for a present target does when its operations are carried out, against an
-- independent description: the longer conversation, and the three-way merge of the metadata.
use mathlib.Core.List.{map-append}
use dsh_session_maintenance.Prelude.{
  ◌≡◌, refl, sym, ap, ◌∙◌, subst, ◌≢◌, ◌⊎◌, inl, inr, String, List, [], ◌∷◌, ◌++◌, map, Eq,
  string_eq, bool_eq, length, take, arith, eq_iff, append-nil, drop-length-append, if◌then◌else◌,
}
use dsh_session_maintenance.Contracts.Plan.{
  PlannedOperation, create_target_session, append_events, update_title, update_archive,
  deletion_candidate, require_review, safe,
}
use dsh_session_maintenance.Domain.Diff.{
  unchanged, append_only, classify_conversation_delta, SessionMetadata, same_metadata,
  classify_metadata_delta,
}
use dsh_session_maintenance.Domain.Diff.Delta.{classify_conversation_delta_exact, same_metadata_iff}
use dsh_session_maintenance.Domain.Plan.Create.{
  PlanningHead, CreateSyncPlanRequest, Decision, review_operation, metadata_operations,
  plan_metadata, append_operation, plan_present_target,
}

-- What a writer of the platform changes: the identities of the events, and the metadata.
pub record TargetState : Type 0 where
  pub event_ids : List String
  pub metadata : SessionMetadata

abbrev pub apply_operation : PlannedOperation → TargetState → TargetState
apply_operation (append_events from_index ids) s = record s {
  event_ids = take from_index s.event_ids ++ ids;
}
apply_operation (update_title title) s = record s { metadata = record s.metadata { title = title } }
apply_operation (update_archive archived) s = record s {
  metadata = record s.metadata { archived = archived };
}
apply_operation (create_target_session instance_id) s = s
apply_operation (deletion_candidate key) s = s
apply_operation (require_review reason) s = s

abbrev pub apply_operations : List PlannedOperation → TargetState → TargetState
apply_operations [] s = s
apply_operations (op ∷ ops) s = apply_operations ops (apply_operation op s)

-- The side that differs from the base wins.
abbrev pub merged : SessionMetadata → SessionMetadata → SessionMetadata → SessionMetadata
merged base source target = if same_metadata base target then source else target

apply_operations-append :
    (ops rest : List PlannedOperation) (s : TargetState)
    → apply_operations (ops ++ rest) s ≡ apply_operations rest (apply_operations ops s)
apply_operations-append [] rest s = refl
apply_operations-append (op ∷ ops) rest s = apply_operations-append ops rest (apply_operation op s)

metadata_operations_lem :
    (source target : SessionMetadata) (ids : List String)
    → apply_operations
        (metadata_operations source target)
        (record { event_ids = ids; metadata = target })
      ≡ record { event_ids = ids; metadata = source }
unfolding metadata_operations
metadata_operations_lem source target ids = ground (arith, eq_iff source.title target.title)

plan_metadata_lem :
    (ops : List PlannedOperation) (base source target : SessionMetadata) (s : TargetState)
    (ids : List String)
    → apply_operations ops s ≡ record { event_ids = ids; metadata = target }
    → (plan_metadata ops base source target).risk ≡ safe
    → apply_operations (plan_metadata ops base source target).operations s
      ≡ record { event_ids = ids; metadata = merged base source target }
unfolding plan_metadata classify_metadata_delta review_operation
plan_metadata_lem ops base source target s ids e h = ground (
  arith,
  same_metadata_iff source target,
  same_metadata_iff base source,
  same_metadata_iff base target,
  apply_operations-append ops (metadata_operations source target) s,
  metadata_operations_lem source target ids,
)

module _ {Event : Type 0} ⦃deep : Eq Event⦄ (event_id : Event → String) where
  abbrev pub target_state : PlanningHead Event → TargetState
  target_state head = record { event_ids = map event_id head.events; metadata = head.metadata }

  take-map-append :
      (xs ys : List Event) → take (length xs) (map event_id (xs ++ ys)) ≡ map event_id xs
  take-map-append [] ys = refl
  take-map-append (x ∷ xs) ys = ap (◌∷◌ (event_id x)) (take-map-append xs ys)

  append_operation_lem :
      (target source zs : List Event) (m : SessionMetadata)
      → source ≡ target ++ zs
      → apply_operations
          (append_operation event_id target source ∷ [])
          (record { event_ids = map event_id target; metadata = m })
        ≡ record { event_ids = map event_id source; metadata = m }
  unfolding append_operation
  append_operation_lem target source zs m e = cc (
    e,
    take-map-append target [],
    append-nil target,
    drop-length-append target zs,
    map-append event_id target zs,
  )

  -- The longer of two conversations of which one extends the other.
  abbrev pub Joined : List Event → List Event → List Event → Type 0
  Joined source target result =
      ((zs : List Event) × (source ≡ target ++ zs) × (result ≡ source))
      ⊎ ((zs : List Event) × (target ≡ source ++ zs) × (result ≡ target))

  module _ (request : CreateSyncPlanRequest Event) (target : PlanningHead Event) where
    abbrev plan : Decision
    plan = plan_present_target event_id request target

    abbrev finish : List PlannedOperation → Decision
    finish ops = plan_metadata ops request.base_metadata request.source.metadata target.metadata

    plan-append :
        plan.risk ≡ safe
        → classify_conversation_delta target.events request.source.events ≡ append_only
        → plan ≡ finish (append_operation event_id target.events request.source.events ∷ [])
    unfolding plan_present_target review_operation
    plan-append h e = ground arith

    plan-nothing :
        plan.risk ≡ safe
        → classify_conversation_delta target.events request.source.events ≢ append_only
        → plan ≡ finish []
    unfolding plan_present_target review_operation
    plan-nothing h e = ground arith

    plan-extends :
        plan.risk ≡ safe
        → (classify_conversation_delta target.events request.source.events ≡ append_only)
          ⊎ ((classify_conversation_delta target.events request.source.events ≡ unchanged)
              ⊎ ((classify_conversation_delta request.source.events target.events ≡ append_only)
                  × (classify_conversation_delta target.events request.source.events
                      ≢ append_only)))
    unfolding plan_present_target review_operation
    plan-extends h = ground arith

    abbrev Replayed : Type 0
    Replayed =
        (result : List Event) × Joined request.source.events target.events result
        × (apply_operations plan.operations (target_state target) ≡ record {
          event_ids = map event_id result;
          metadata = merged request.base_metadata request.source.metadata target.metadata;
        })

    finished :
        (ops : List PlannedOperation) (result : List Event)
        → plan.risk ≡ safe
        → plan ≡ finish ops
        → Joined request.source.events target.events result
        → apply_operations ops (target_state target)
          ≡ record { event_ids = map event_id result; metadata = target.metadata }
        → Replayed
    finished ops result h p j e = (
      result,
      j,
      rw p (
          plan_metadata_lem ops request.base_metadata request.source.metadata target.metadata
            (target_state target) (map event_id result) e
            (subst (λ (d : Decision). d.risk ≡ safe) p h)),
    )

    appended :
        plan.risk ≡ safe
        → (e : Event) (rest : List Event)
        → classify_conversation_delta target.events request.source.events ≡ append_only
        → request.source.events ≡ target.events ++ e ∷ rest
        → Replayed
    appended h e rest c p =
        finished _ request.source.events h (plan-append h c) (inl (e ∷ rest, p, refl))
          (append_operation_lem target.events request.source.events (e ∷ rest) target.metadata p)

    kept :
        plan.risk ≡ safe
        → (zs : List Event)
        → classify_conversation_delta target.events request.source.events ≢ append_only
        → target.events ≡ request.source.events ++ zs
        → Replayed
    kept h zs c p = finished [] target.events h (plan-nothing h c) (inr (zs, p, refl)) refl

    -- A safe plan for a present target is a fast-forward: carried out on the target's state it gives
    -- the longer of the two conversations, of which one extends the other, and the metadata of the
    -- side that differs from the base.
    pub plan_present_target_replay :
        (plan_present_target event_id request target).risk ≡ safe
        → (result : List Event) × Joined request.source.events target.events result
          × (apply_operations
                (plan_present_target event_id request target).operations
                (target_state target)
              ≡ record {
                event_ids = map event_id result;
                metadata = merged request.base_metadata request.source.metadata target.metadata;
              })
    plan_present_target_replay h = elim (plan-extends h) [
      | inl c ↦
          let (e, rest, p) =
            (classify_conversation_delta_exact target.events request.source.events).1.0 c in
          appended h e rest c p
      | inr (inl c) ↦
          kept h [] (λ a. cc (c, a))
            (sym ((classify_conversation_delta_exact target.events request.source.events).0.0 c)
              ∙ sym (append-nil request.source.events))
      | inr (inr (c, n)) ↦
          let (e, rest, p) =
            (classify_conversation_delta_exact request.source.events target.events).1.0 c in
          kept h (e ∷ rest) n p
    ]
