-- ===== src/Domain/Topology/Round.antt =====
-- What one round of the loop does to the plan: it comes to its place, and the books grow.
use dsh_session_maintenance.Prelude.{
  ◌+◌, ◌≡◌, refl, sym, ap, ◌∙◌, inl, inr, ◌⊎◌, String, Bool, true, false, List, [], ◌∷◌, ◌++◌,
  append-nil, append_assoc, Option, none, some, Option-cases, arith, if◌then◌else◌, string_eq,
  nat_eq, option_eq, map_get, ok, Outcome-cases,
}
use dsh_session_maintenance.Contracts.Canonical.{
  Phase, user, assistant, Topology, CanonicalEvent, read_topology,
}
use dsh_session_maintenance.Domain.Topology.{
  PlannedEvent, Issue, PendingToolCall, Planning, phase_for_kind, tool_call_id,
}
use dsh_session_maintenance.Domain.Topology.Place.{place}
use dsh_session_maintenance.Domain.Topology.Turns.{enter_turns, record_event}
use dsh_session_maintenance.Domain.Topology.Tools.{
  track_tools, open_call, close_result, meet_result,
}
use dsh_session_maintenance.Domain.Topology.Pass.{record_placed, plan_phase, plan_event}
use dsh_session_maintenance.Domain.Topology.Frame.{Notes, noted, noted-Notes}

-- The books on tools leave the plan as it was.
pub record Tracks (p q : Planning) : Type 0 where
  pub planned : q.planned ≡ p.planned
  pub turns : q.turns ≡ p.turns
  pub grows : (is : List Issue) × (q.issues ≡ p.issues ++ is)

Tracks-same :
    (p q : Planning) → q.planned ≡ p.planned → q.turns ≡ p.turns → q.issues ≡ p.issues → Tracks p q
Tracks-same p q a b c = record {
  planned = a;
  turns = b;
  grows = ([], c ∙ sym (append-nil p.issues));
}

Tracks-issue :
    (i : Issue) (p q : Planning)
    → q.planned ≡ p.planned
    → q.turns ≡ p.turns
    → q.issues ≡ p.issues ++ i ∷ []
    → Tracks p q
Tracks-issue i p q a b c = record { planned = a; turns = b; grows = (i ∷ [], c) }

Tracks-if : (b : Bool) (p q r : Planning) → Tracks p q → Tracks p r → Tracks p (if b then q else r)
Tracks-if true p q r f g = f
Tracks-if false p q r f g = g

open_call-Tracks :
    (t : Topology) (event : CanonicalEvent) (id : Option String) (p : Planning)
    → Tracks p (open_call t event id p)
unfolding open_call
open_call-Tracks t event none p = Tracks-issue _ p _ refl refl refl
open_call-Tracks t event (some id) p =
    Tracks-if _ p _ _ (Tracks-issue _ p _ refl refl refl) (Tracks-same p _ refl refl refl)

meet_result-Tracks :
    (t : Topology) (event : CanonicalEvent) (id : String) (call : Option PendingToolCall)
    (p : Planning)
    → Tracks p (meet_result t event id call p)
unfolding meet_result
meet_result-Tracks t event id none p = Tracks-issue _ p _ refl refl refl
meet_result-Tracks t event id (some call) p =
    Tracks-if _ p _ _ (Tracks-same p _ refl refl refl) (Tracks-issue _ p _ refl refl refl)

close_result-Tracks :
    (t : Topology) (event : CanonicalEvent) (id : Option String) (p : Planning)
    → Tracks p (close_result t event id p)
unfolding close_result
close_result-Tracks t event none p = Tracks-issue _ p _ refl refl refl
close_result-Tracks t event (some id) p = meet_result-Tracks t event id (map_get id p.pending) p

pub track_tools-Tracks :
    (phase : Phase) (t : Topology) (event : CanonicalEvent) (p : Planning)
    → Tracks p (track_tools phase t event p)
unfolding track_tools
track_tools-Tracks Phase.tool_call t event p =
    let counted =
      open_call-Tracks t event (tool_call_id event) (record p { tool_calls = p.tool_calls + 1 }) in
    record { planned = counted.planned; turns = counted.turns; grows = counted.grows }
track_tools-Tracks Phase.tool_result t event p = close_result-Tracks t event (tool_call_id event) p
track_tools-Tracks user t event p = Tracks-same p p refl refl refl
track_tools-Tracks assistant t event p = Tracks-same p p refl refl refl
track_tools-Tracks Phase.reasoning t event p = Tracks-same p p refl refl refl

-- The event as it is planned.
abbrev pub planned_at : CanonicalEvent → Topology → PlannedEvent
planned_at event t = record {
  event_id = event.id;
  sequence = event.sequence;
  kind = event.kind;
  topology = t;
}

-- One event with a place: it comes last in the plan, and enters its turn.
pub record_placed_lem :
    (phase : Phase) (event : CanonicalEvent) (t : Topology) (p q : Planning)
    → Notes p q
    → ((record_placed phase event (t, q)).planned ≡ p.planned ++ planned_at event t ∷ [])
      × ((record_placed phase event (t, q)).turns ≡ enter_turns t event.id p.turns)
      × (is : List Issue) × ((record_placed phase event (t, q)).issues ≡ p.issues ++ is)
unfolding record_placed record_event
record_placed_lem phase event t p q n =
    let m = noted-Notes event t p q n in
    let k = track_tools-Tracks phase t event (record_event phase t event (noted event (t, q))) in
    let (is, e) = m.grows in
    let (js, d) = k.grows in
    (
      k.planned ∙ ap (λ z. z ++ planned_at event t ∷ []) m.planned,
      k.turns ∙ ap (enter_turns t event.id) m.turns,
      is ++ js,
      d ∙ ap (λ z. z ++ js) e ∙ append_assoc p.issues is js,
    )

-- What a round has done that did not throw.
abbrev pub Round : CanonicalEvent → Planning → Planning → Type 0
Round event p q =
    ((phase_for_kind event.kind ≡ none) × (q ≡ p))
    ⊎ ((phase : Phase) × (explicit : Option Topology) × (phase_for_kind event.kind ≡ some phase)
        × (read_topology event ≡ ok explicit)
        × (q ≡ record_placed phase event (place phase event p explicit)))

pub plan_event-Round :
    (event : CanonicalEvent) (p q : Planning) → plan_event event p ≡ ok q → Round event p q
unfolding plan_event plan_phase
plan_event-Round event p q h = elim (Option-cases (phase_for_kind event.kind)) [
  | inl e ↦ inl (e, ground (arith, e))
  | inr (phase, e) ↦ elim (Outcome-cases (read_topology event)) [
    | inl (explicit, r) ↦ inr (phase, explicit, e, r, ground (arith, e, r))
    | inr (bad, r) ↦ absurd (ground (arith, e, r))
  ]
]
