-- ===== src/Domain/Topology/Kept.antt =====
-- The planner keeps the events: each conversational event is planned once, in its order, and is
-- filed in the turn and in the step that its topology names.
use dsh_session_maintenance.Prelude.{
  ℕ, ◌≡◌, refl, sym, ap, ◌∙◌, inl, inr, subst, String, Bool, true, List, [], ◌∷◌, ◌++◌, map,
  append-nil, append_assoc, Bool-cases, arith, string_eq, nat_eq, option_eq, is_some, keep, length,
  length-append, All, All-append, ok, Outcome-cases,
}
use dsh_session_maintenance.Contracts.Canonical.{CanonicalEventKind, Topology, CanonicalEvent}
use dsh_session_maintenance.Domain.Topology.{PlannedEvent, Turn, Planning, start, phase_for_kind}
use dsh_session_maintenance.Domain.Topology.Place.{place}
use dsh_session_maintenance.Domain.Topology.Turns.{enter_turns}
use dsh_session_maintenance.Domain.Topology.Pass.{record_placed, plan_event, plan_events}
use dsh_session_maintenance.Domain.Topology.Frame.{place-Notes}
use dsh_session_maintenance.Domain.Topology.Planned.{
  ConversationTopologyPlan, conclude, plan_conversation_topology,
}
use dsh_session_maintenance.Domain.Topology.Filing.{
  HasStep, place-HasStep, turn_events, turn_step_events, in_turn, turn_events-enter_turns,
  turn_step_events-enter_turns, in_turn-enter_turns, in_turn-enter_turns_self,
}
use dsh_session_maintenance.Domain.Topology.Round.{
  planned_at, record_placed_lem, Round, plan_event-Round,
}

-- What the plan keeps of an event.
abbrev pub Outline : Type 0
Outline = String × ℕ × CanonicalEventKind

abbrev pub event_outline : CanonicalEvent → Outline
event_outline e = (e.id, e.sequence, e.kind)

abbrev pub planned_outline : PlannedEvent → Outline
planned_outline e = (e.event_id, e.sequence, e.kind)

abbrev pub is_conversational : CanonicalEvent → Bool
is_conversational e = is_some (phase_for_kind e.kind)

-- The planned event is listed by its turn, and there by its step.
abbrev pub IsFiled : List Turn → PlannedEvent → Type 0
IsFiled turns e = in_turn e.topology.turn_id e.topology.step_id e.event_id turns ≡ true

pub record IsKept (outlines : List Outline) (events : List PlannedEvent) (turns : List Turn)
    : Type 0 where
  pub in_order : map planned_outline events ≡ outlines
  pub filed : All (IsFiled turns) events
  pub once_in_turns : turn_events turns ≡ length events
  pub once_in_steps : turn_step_events turns ≡ length events

All-IsFiled :
    (t : Topology) (id : String) (turns : List Turn) (events : List PlannedEvent)
    → All (IsFiled turns) events
    → All (IsFiled (enter_turns t id turns)) events
All-IsFiled t id turns [] a = tt
All-IsFiled t id turns (e ∷ es) a = (
  in_turn-enter_turns t id e.topology.turn_id e.topology.step_id e.event_id turns a.0,
  All-IsFiled t id turns es a.1,
)

map-concat :
    (es : List PlannedEvent) (e : PlannedEvent)
    → map planned_outline (es ++ e ∷ []) ≡ map planned_outline es ++ planned_outline e ∷ []
map-concat [] e = refl
map-concat (x ∷ es) e = ap (λ z. planned_outline x ∷ z) (map-concat es e)

IsKept-enter :
    (outlines : List Outline) (events : List PlannedEvent) (turns : List Turn)
    (event : CanonicalEvent) (t : Topology)
    → IsKept outlines events turns
    → HasStep t
    → IsKept
        (outlines ++ event_outline event ∷ [])
        (events ++ planned_at event t ∷ [])
        (enter_turns t event.id turns)
IsKept-enter outlines events turns event t k h =
    let longer = length-append events (planned_at event t ∷ []) in
    record {
      in_order =
          map-concat events (planned_at event t)
          ∙ ap (λ z. z ++ event_outline event ∷ []) k.in_order;
      filed =
          All-append (IsFiled (enter_turns t event.id turns)) events (planned_at event t ∷ [])
            (All-IsFiled t event.id turns events k.filed)
            (in_turn-enter_turns_self t event.id turns h, tt);
      once_in_turns =
          omega (arith, k.once_in_turns, longer, turn_events-enter_turns t event.id turns);
      once_in_steps =
          omega (arith, k.once_in_steps, longer, turn_step_events-enter_turns t event.id turns h);
    }

Round-IsKept :
    (outlines : List Outline) (event : CanonicalEvent) (p q : Planning)
    → IsKept outlines p.planned p.turns
    → Round event p q
    → IsKept (outlines ++ map event_outline (keep is_conversational (event ∷ []))) q.planned q.turns
Round-IsKept outlines event p q k (inl (e, same)) =
    let none_kept : outlines ≡ outlines ++ map event_outline (keep is_conversational (event ∷ [])) =
      rw e (sym (append-nil outlines)) in
    subst (λ z. IsKept z q.planned q.turns) none_kept
      (subst (λ z. IsKept outlines z.planned z.turns) (sym same) k)
Round-IsKept outlines event p q k (inr (phase, explicit, e, r, same)) =
    let at = place phase event p explicit in
    let (a, b, _, _) =
      record_placed_lem phase event at.0 p at.1 (place-Notes phase event p explicit) in
    let kept =
      IsKept-enter outlines p.planned p.turns event at.0 k (place-HasStep phase event p explicit) in
    let one_kept : outlines ++ event_outline event ∷ []
        ≡ outlines ++ map event_outline (keep is_conversational (event ∷ [])) =
      rw e refl in
    subst (λ z. IsKept z q.planned q.turns) one_kept
      (subst (λ z. IsKept (outlines ++ event_outline event ∷ []) z.planned z.turns) (sym same)
        (subst
          (λ z.
            IsKept (outlines ++ event_outline event ∷ []) z (record_placed phase event at).turns)
          (sym a)
          (subst
            (λ z.
              IsKept (outlines ++ event_outline event ∷ [])
                (p.planned ++ planned_at event at.0 ∷ []) z)
            (sym b) kept)))

outlines_split :
    (outlines : List Outline) (event : CanonicalEvent) (es : List CanonicalEvent)
    → (outlines ++ map event_outline (keep is_conversational (event ∷ [])))
        ++ map event_outline (keep is_conversational es)
      ≡ outlines ++ map event_outline (keep is_conversational (event ∷ es))
outlines_split outlines event es = elim (Bool-cases (is_conversational event)) [
  | inl yes' ↦ rw yes' (
      append_assoc outlines (event_outline event ∷ [])
        (map event_outline (keep is_conversational es)))
  | inr no' ↦
      rw no' (ap (λ z. z ++ map event_outline (keep is_conversational es)) (append-nil outlines))
]

plan_events-IsKept :
    (outlines : List Outline) (es : List CanonicalEvent) (p q : Planning)
    → IsKept outlines p.planned p.turns
    → plan_events es p ≡ ok q
    → IsKept (outlines ++ map event_outline (keep is_conversational es)) q.planned q.turns
unfolding plan_events
plan_events-IsKept outlines [] p q k h =
    let same : p ≡ q = ground arith in
    subst (λ z. IsKept z q.planned q.turns) (sym (append-nil outlines))
      (subst (λ z. IsKept outlines z.planned z.turns) same k)
plan_events-IsKept outlines (event ∷ es) p q k h = elim (Outcome-cases (plan_event event p)) [
  | inr (bad, e) ↦ absurd (ground (arith, e))
  | inl (p', e) ↦
      subst (λ z. IsKept z q.planned q.turns) (outlines_split outlines event es)
        (plan_events-IsKept (outlines ++ map event_outline (keep is_conversational (event ∷ []))) es
          p' q (Round-IsKept outlines event p p' k (plan_event-Round event p p' e))
          (ground (arith, e)))
]

-- A plan holds the conversational events of the input, each once and in their order, with their IDs,
-- sequence numbers and kinds. The turns list as many events as there are, and so do their steps, and
-- each event is listed by the turn of its topology and there by the step of its topology.
pub plan_conversation_topology-IsKept :
    (events : List CanonicalEvent) (plan : ConversationTopologyPlan)
    → plan_conversation_topology events ≡ ok plan
    → IsKept (map event_outline (keep is_conversational events)) plan.events plan.turns
unfolding plan_conversation_topology turn_events turn_step_events
plan_conversation_topology-IsKept events plan h = elim (Outcome-cases (plan_events events start)) [
  | inr (bad, e) ↦ absurd (ground (arith, e))
  | inl (q, e) ↦
      let same : conclude events q ≡ plan = ground (arith, e) in
      subst (λ z. IsKept (map event_outline (keep is_conversational events)) z.events z.turns) same
        (plan_events-IsKept [] events start q
          (record { in_order = refl; filed = tt; once_in_turns = refl; once_in_steps = refl }) e)
]
