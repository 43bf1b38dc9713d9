-- ===== src/Domain/Topology/Again.antt =====
-- A round on an event that carries its planned topology.
use dsh_session_maintenance.Prelude.{
  ℕ, ◌≡◌, refl, sym, ap, ◌∙◌, inl, inr, String, Option, none, some, Option-cases, string_eq,
  map_get, map_set,
}
use dsh_session_maintenance.Contracts.Canonical.{
  Phase, user, assistant, Topology, CanonicalEvent, topology_extension, topology_json,
}
use dsh_session_maintenance.Domain.Topology.{Planning, tool_call_id}
use dsh_session_maintenance.Domain.Topology.Place.{place, meet_explicit}
use dsh_session_maintenance.Domain.Topology.Turns.{note_ordinal, note_turn, note_step, record_event}
use dsh_session_maintenance.Domain.Topology.Tools.{
  track_tools, open_call, close_result, meet_result,
}
use dsh_session_maintenance.Domain.Topology.Pass.{record_placed}
use dsh_session_maintenance.Domain.Topology.Filing.{place-HasStep}
use dsh_session_maintenance.Domain.Topology.Forget.{
  forget, meet_explicit-IsBlind, record_placed-IsBlind, place-forget, place-given,
}

-- The event with its topology written down.
abbrev pub extended : CanonicalEvent → Topology → CanonicalEvent
extended event t = record event {
  extensions = map_set topology_extension (topology_json t) event.extensions;
}

meet_extended :
    (t s : Topology) (phase : Phase) (event : CanonicalEvent) (p : Planning)
    → meet_explicit t phase event p ≡ meet_explicit t phase (extended event s) p
unfolding meet_explicit
meet_extended t s phase event p = refl

step_extended :
    (t s : Topology) (event : CanonicalEvent) (id : Option String) (n : Option ℕ) (p : Planning)
    → note_step t event id n p ≡ note_step t (extended event s) id n p
unfolding note_step
step_extended t s event (some id) (some n) p = refl
step_extended t s event none n p = refl
step_extended t s event (some id) none p = refl

close_extended :
    (t s : Topology) (event : CanonicalEvent) (id : Option String) (p : Planning)
    → close_result t event id p ≡ close_result t (extended event s) id p
unfolding close_result meet_result
close_extended t s event none p = refl
close_extended t s event (some id) p = elim (Option-cases (map_get id p.pending)) [
  | inl e ↦ rw e refl
  | inr (c, e) ↦ rw e refl
]

open_extended :
    (t s : Topology) (event : CanonicalEvent) (id : Option String) (p : Planning)
    → open_call t event id p ≡ open_call t (extended event s) id p
unfolding open_call
open_extended t s event none p = refl
open_extended t s event (some id) p = refl

tools_extended :
    (phase : Phase) (t s : Topology) (event : CanonicalEvent) (p : Planning)
    → track_tools phase t event p ≡ track_tools phase t (extended event s) p
unfolding track_tools
tools_extended Phase.tool_call t s event p = open_extended t s event (tool_call_id event) _
tools_extended Phase.tool_result t s event p = close_extended t s event (tool_call_id event) p
tools_extended user t s event p = refl
tools_extended assistant t s event p = refl
tools_extended Phase.reasoning t s event p = refl

placed_extended :
    (phase : Phase) (t s : Topology) (event : CanonicalEvent) (p : Planning)
    → record_placed phase event (t, p) ≡ record_placed phase (extended event s) (t, p)
unfolding record_placed
placed_extended phase t s event p =
    let before = note_turn t event (note_ordinal t event p) in
    tools_extended phase t s event
      (record_event phase t event (note_step t event t.step_id t.step_ordinal before))
    ∙ ap (λ z. track_tools phase t (extended event s) (record_event phase t event z))
        (step_extended t s event t.step_id t.step_ordinal before)

-- A round on the event with its topology, from a state that agrees.
pub placed_again :
    (phase : Phase) (event : CanonicalEvent) (p p' : Planning) (explicit : Option Topology)
    → forget p ≡ forget p'
    → forget (record_placed phase event (place phase event p explicit))
      ≡ forget (
          record_placed phase (extended event (place phase event p explicit).0) (
            place phase
              (extended event (place phase event p explicit).0)
              p'
              (some (place phase event p explicit).0)))
placed_again phase event p p' explicit agree =
    let at = place phase event p explicit in
    let t = at.0 in
    let event' = extended event t in
    let blind = record_placed-IsBlind t event phase in
    let (given, seen) = place-given phase event' p' t (place-HasStep phase event p explicit) in
    let met = meet_explicit-IsBlind t event phase in
    let same : forget at.1 ≡ forget (place phase event' p' (some t)).1 =
      place-forget phase event p explicit
      ∙ met p
      ∙ ap (λ z. forget (meet_explicit t phase event z)) agree
      ∙ sym (met p')
      ∙ ap forget (meet_extended t t phase event p')
      ∙ sym seen in
    let again = place phase event' p' (some t) in
    blind at.1
    ∙ ap (λ z. forget (record_placed phase event (t, z))) same
    ∙ sym (blind again.1)
    ∙ ap forget (placed_extended phase t t event again.1)
    ∙ ap (λ z. forget (record_placed phase event' (z, again.1))) (sym given)
