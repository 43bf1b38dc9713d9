-- ===== src/Domain/Topology/Replan.antt =====
-- A conversation that carries its planned topology is planned the same way again.
use dsh_session_maintenance.Prelude.{
  ◌≡◌, refl, sym, ap, ◌∙◌, inl, inr, subst, String, false, List, [], ◌∷◌, ◌++◌, map, append-nil,
  append_assoc, none, some, Option-cases, arith, string_eq, map_get, map_set, map_get-map_set,
  includes, Distinct, length, All, ok, Outcome-cases, eq_iff,
}
use dsh_session_maintenance.Contracts.Canonical.{Phase, Topology, CanonicalEvent}
use dsh_session_maintenance.Domain.Topology.{PlannedEvent, Planning, start, phase_for_kind}
use dsh_session_maintenance.Domain.Topology.Place.{place}
use dsh_session_maintenance.Domain.Topology.Pass.{
  record_placed, plan_phase, plan_event, plan_events,
}
use dsh_session_maintenance.Domain.Topology.Frame.{place-Notes}
use dsh_session_maintenance.Domain.Topology.Round.{planned_at, record_placed_lem, plan_event-Round}
use dsh_session_maintenance.Domain.Topology.Extension.{IsValid, read_topology-map_set}
use dsh_session_maintenance.Domain.Topology.Forget.{forget}
use dsh_session_maintenance.Domain.Topology.Again.{extended, placed_again}
use dsh_session_maintenance.Domain.Topology.Planned.{
  ConversationTopologyPlan, conclude, plan_conversation_topology, topology_by_id, apply_topologies,
  with_planned_conversation_topology,
}

-- The planned event is the one that the map has, and its topology can be written down.
abbrev IsWritten : List (String × Topology) → PlannedEvent → Type 0
IsWritten m e = (map_get e.event_id m ≡ some e.topology) × IsValid e.topology

All-suffix : (P : PlannedEvent → Type 0) (xs ys : List PlannedEvent) → All P (xs ++ ys) → All P ys
All-suffix P [] ys a = a
All-suffix P (x ∷ xs) ys a = All-suffix P xs ys a.1

-- The plan only grows.
plan_events-planned :
    (events : List CanonicalEvent) (p q : Planning)
    → plan_events events p ≡ ok q
    → (more : List PlannedEvent) × (q.planned ≡ p.planned ++ more)
unfolding plan_events
plan_events-planned [] p q h =
    let same : p ≡ q = ground arith in
    ([], ap (λ (z : Planning). z.planned) (sym same) ∙ sym (append-nil p.planned))
plan_events-planned (event ∷ events) p q h = elim (Outcome-cases (plan_event event p)) [
  | inr (bad, e) ↦ absurd (ground (arith, e))
  | inl (p', e) ↦
      let (more, grown) = plan_events-planned events p' q (ground (arith, e)) in
      elim (plan_event-Round event p p' e) [
        | inl (k, same) ↦ (more, grown ∙ ap (λ (z : Planning). z.planned ++ more) same)
        | inr (phase, explicit, k, r, same) ↦
            let at = place phase event p explicit in
            let (a, _, _, _) =
              record_placed_lem phase event at.0 p at.1 (place-Notes phase event p explicit) in
            (
              planned_at event at.0 ∷ more,
              grown
                  ∙ ap (λ (z : Planning). z.planned ++ more) same
                  ∙ ap (λ z. z ++ more) a
                  ∙ append_assoc p.planned (planned_at event at.0 ∷ []) more,
            )
      ]
]

-- An event that is not of the conversation is passed over, whatever its extensions.
plan_event_aside :
    (m : List (String × Topology)) (event : CanonicalEvent) (p : Planning)
    → phase_for_kind event.kind ≡ none
    → plan_event (apply_topologies m event) p ≡ ok p
unfolding plan_event plan_phase apply_topologies
plan_event_aside m event p e = elim (Option-cases (map_get event.id m)) [
  | inl lost ↦ ground (arith, lost, e)
  | inr (t, found) ↦ ground (arith, found, e)
]

plan_event_again :
    (m : List (String × Topology)) (event : CanonicalEvent) (p' : Planning) (phase : Phase)
    (t : Topology)
    → phase_for_kind event.kind ≡ some phase
    → map_get event.id m ≡ some t
    → IsValid t
    → plan_event (apply_topologies m event) p'
      ≡ ok (record_placed phase (extended event t) (place phase (extended event t) p' (some t)))
unfolding plan_event plan_phase apply_topologies
plan_event_again m event p' phase t e found v = rw (found, e, read_topology-map_set event t v) refl

replan :
    (m : List (String × Topology)) (events : List CanonicalEvent) (p q p' : Planning)
    → forget p ≡ forget p'
    → plan_events events p ≡ ok q
    → All (IsWritten m) q.planned
    → (q' : Planning) × (plan_events (map (apply_topologies m) events) p' ≡ ok q')
      × (forget q ≡ forget q')
unfolding plan_events
replan m [] p q p' agree h a =
    let same : p ≡ q = ground arith in (p', refl, ap forget (sym same) ∙ agree)
replan m (event ∷ events) p q p' agree h a = elim (Outcome-cases (plan_event event p)) [
  | inr (bad, e) ↦ absurd (ground (arith, e))
  | inl (r, e) ↦
      let later : plan_events events r ≡ ok q = ground (arith, e) in
      elim (plan_event-Round event p r e) [
        | inl (k, same) ↦
            let (q', f, g) = replan m events r q p' (ap forget same ∙ agree) later a in
            (q', ground (arith, plan_event_aside m event p' k, f), g)
        | inr (phase, explicit, k, _, same) ↦
            let at = place phase event p explicit in
            let (b, _, _, _) =
              record_placed_lem phase event at.0 p at.1 (place-Notes phase event p explicit) in
            let (more, grown) = plan_events-planned events r q later in
            let all_planned : q.planned ≡ p.planned ++ planned_at event at.0 ∷ more =
              grown
              ∙ ap (λ (z : Planning). z.planned ++ more) same
              ∙ ap (λ z. z ++ more) b
              ∙ append_assoc p.planned (planned_at event at.0 ∷ []) more in
            let mine =
              All-suffix (IsWritten m) p.planned (planned_at event at.0 ∷ more)
                (subst (All (IsWritten m)) all_planned a) in
            let (found, v) = mine.0 in
            let r' =
              record_placed phase (extended event at.0)
                (place phase (extended event at.0) p' (some at.0)) in
            let (q', f, g) =
              replan m events r q r' (ap forget same ∙ placed_again phase event p p' explicit agree)
                later a in
            (q', ground (arith, plan_event_again m event p' phase at.0 k found v, f), g)
      ]
]

abbrev event_ids : List PlannedEvent → List String
event_ids es = map (λ e. e.event_id) es

topology_by_id-other :
    (acc : List (String × Topology)) (es : List PlannedEvent) (id : String)
    → includes (event_ids es) id ≡ false
    → map_get id (topology_by_id acc es) ≡ map_get id acc
unfolding topology_by_id
topology_by_id-other acc [] id h = refl
topology_by_id-other acc (e ∷ es) id h = ground (
  arith,
  topology_by_id-other (map_set e.event_id e.topology acc) es id,
  map_get-map_set e.event_id id e.topology acc,
)

topology_by_id-IsWritten :
    (acc : List (String × Topology)) (es : List PlannedEvent)
    → Distinct (event_ids es)
    → All (λ e. IsValid e.topology) es
    → All (IsWritten (topology_by_id acc es)) es
unfolding topology_by_id
topology_by_id-IsWritten acc [] d v = tt
topology_by_id-IsWritten acc (e ∷ es) d v = (
  (
    ground (
      arith,
      topology_by_id-other (map_set e.event_id e.topology acc) es e.event_id d.0,
      map_get-map_set e.event_id e.event_id e.topology acc,
      eq_iff e.event_id e.event_id,
    ),
    v.0,
  ),
  topology_by_id-IsWritten (map_set e.event_id e.topology acc) es d.1 v.1,
)

length-map :
    (f : CanonicalEvent → CanonicalEvent) (es : List CanonicalEvent) → length (map f es) ≡ length es
length-map f [] = refl
length-map f (e ∷ es) = omega (arith, length-map f es)

conclude_again :
    (events events' : List CanonicalEvent) (q q' : Planning)
    → length events' ≡ length events
    → forget q ≡ forget q'
    → conclude events q ≡ conclude events' q'
unfolding conclude
conclude_again events events' q q' l e = ap (conclude events) e ∙ ground (arith, l)

-- Planning is stable: the events that carry the topology of their plan have the same plan, to the
-- turns, the issues and the diagnostics. (No two planned events share an ID, and the planned
-- topologies pass their schema.)
pub with_planned-plan_conversation_topology :
    (events events' : List CanonicalEvent) (plan : ConversationTopologyPlan)
    → with_planned_conversation_topology events ≡ ok (events', plan)
    → Distinct (map (λ (e : PlannedEvent). e.event_id) plan.events)
    → All (λ (e : PlannedEvent). IsValid e.topology) plan.events
    → plan_conversation_topology events' ≡ ok plan
unfolding with_planned_conversation_topology plan_conversation_topology
with_planned-plan_conversation_topology events events' plan h d v =
    elim (Outcome-cases (plan_events events start)) [
      | inr (bad, e) ↦ absurd (ground (arith, e))
      | inl (q, e) ↦
          let same : conclude events q ≡ plan = ground (arith, e) in
          let m = topology_by_id [] plan.events in
          let planned : q.planned ≡ plan.events =
            ap (λ (z : ConversationTopologyPlan). z.events) same in
          let raw : map (apply_topologies (topology_by_id [] q.planned)) events ≡ events' =
            ground (arith, e) in
          let mapped : map (apply_topologies m) events ≡ events' =
            ap (λ z. map (apply_topologies (topology_by_id [] z)) events) (sym planned) ∙ raw in
          let (q', f, g) = replan m events start q start refl e (
            subst (All (IsWritten m)) (sym planned)
              (topology_by_id-IsWritten [] plan.events d v)) in
          let again : plan_events events' start ≡ ok q' =
            ap (λ z. plan_events z start) (sym mapped) ∙ f in
          let concluded =
            conclude_again events events' q q'
              (ap length (sym mapped) ∙ length-map (apply_topologies m) events) g in
          ground (arith, again, concluded, same)
    ]
