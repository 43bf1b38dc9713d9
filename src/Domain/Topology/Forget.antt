-- ===== src/Domain/Topology/Forget.antt =====
-- The cursor, the next turn ordinal and the flag only serve to place events: once the places are
-- given, a round does the same whatever they are.
use dsh_session_maintenance.Prelude.{
  ℕ, ◌+◌, ◌≡◌, refl, sym, ap, ◌∙◌, inl, inr, String, true, false, Option, none, some, Bool-cases,
  arith, string_eq, map_get, is_some, eq_iff,
}
use dsh_session_maintenance.Contracts.Canonical.{
  Phase, user, assistant, phase_text, Topology, CanonicalEvent,
}
use dsh_session_maintenance.Domain.Topology.{
  Cursor, PendingToolCall, Planning, is_user, tool_call_id, derived_topology,
}
use dsh_session_maintenance.Domain.Topology.Place.{
  place, place_stepped, place_stepless, place_derived, place_in_new_turn, place_at, meet_explicit,
}
use dsh_session_maintenance.Domain.Topology.Turns.{
  note_ordinal, note_turn, note_step, note_coordinates, note_same_step, record_event,
}
use dsh_session_maintenance.Domain.Topology.Tools.{
  track_tools, open_call, close_result, meet_result,
}
use dsh_session_maintenance.Domain.Topology.Pass.{record_placed}
use dsh_session_maintenance.Domain.Topology.Frame.{noted}
use dsh_session_maintenance.Domain.Topology.Filing.{HasStep}

abbrev pub forget : Planning → Planning
forget p = record p { cursor = none; next_turn_ordinal = 0; advance = false }

-- The function looks at nothing that is forgotten.
abbrev pub IsBlind : (Planning → Planning) → Type 0
IsBlind f = (p : Planning) → forget (f p) ≡ forget (f (forget p))

IsBlind-compose : (f g : Planning → Planning) → IsBlind f → IsBlind g → IsBlind (λ p. g (f p))
IsBlind-compose f g a b p = b (f p) ∙ ap (λ z. forget (g z)) (a p) ∙ sym (b (f (forget p)))

module _ (t : Topology) (event : CanonicalEvent) where
  pub meet_explicit-IsBlind : (phase : Phase) → IsBlind (meet_explicit t phase event)
  unfolding meet_explicit
  meet_explicit-IsBlind phase p = ground arith

  note_ordinal-IsBlind : IsBlind (note_ordinal t event)
  unfolding note_ordinal
  note_ordinal-IsBlind p = ground arith

  note_turn-IsBlind : IsBlind (note_turn t event)
  unfolding note_turn
  note_turn-IsBlind p = ground arith

  note_coordinates-IsBlind : (id : String) (n : ℕ) → IsBlind (note_coordinates t event id n)
  unfolding note_coordinates
  note_coordinates-IsBlind id n p = ground arith

  note_same_step-IsBlind : (id : String) (n : ℕ) → IsBlind (note_same_step t event id n)
  unfolding note_same_step
  note_same_step-IsBlind id n p = ground arith

  note_step-IsBlind : (id : Option String) (n : Option ℕ) → IsBlind (note_step t event id n)
  unfolding note_step
  note_step-IsBlind (some id) (some n) p =
      IsBlind-compose (note_coordinates t event id n) (note_same_step t event id n)
        (note_coordinates-IsBlind id n) (note_same_step-IsBlind id n) p
  note_step-IsBlind none n p = refl
  note_step-IsBlind (some id) none p = refl

  record_event-IsBlind : (phase : Phase) → IsBlind (record_event phase t event)
  unfolding record_event
  record_event-IsBlind phase p = refl

  open_call-IsBlind : (id : Option String) → IsBlind (open_call t event id)
  unfolding open_call
  open_call-IsBlind none p = refl
  open_call-IsBlind (some id) p = ground arith

  meet_result-IsBlind :
      (id : String) (call : Option PendingToolCall) → IsBlind (meet_result t event id call)
  unfolding meet_result
  meet_result-IsBlind id none p = refl
  meet_result-IsBlind id (some call) p = ground arith

  close_result-IsBlind : (id : Option String) → IsBlind (close_result t event id)
  unfolding close_result
  close_result-IsBlind none p = refl
  close_result-IsBlind (some id) p = meet_result-IsBlind id (map_get id p.pending) p

  track_tools-IsBlind : (phase : Phase) → IsBlind (track_tools phase t event)
  unfolding track_tools
  track_tools-IsBlind Phase.tool_call p =
      open_call-IsBlind (tool_call_id event) (record p { tool_calls = p.tool_calls + 1 })
  track_tools-IsBlind Phase.tool_result p = close_result-IsBlind (tool_call_id event) p
  track_tools-IsBlind user p = refl
  track_tools-IsBlind assistant p = refl
  track_tools-IsBlind Phase.reasoning p = refl

  noted-IsBlind : IsBlind (λ p. noted event (t, p))
  noted-IsBlind =
      IsBlind-compose (λ p. note_turn t event (note_ordinal t event p))
        (note_step t event t.step_id t.step_ordinal)
        (IsBlind-compose (note_ordinal t event) (note_turn t event) note_ordinal-IsBlind
          note_turn-IsBlind)
        (note_step-IsBlind t.step_id t.step_ordinal)

  pub record_placed-IsBlind : (phase : Phase) → IsBlind (λ p. record_placed phase event (t, p))
  unfolding record_placed
  record_placed-IsBlind phase =
      IsBlind-compose (λ p. record_event phase t event (noted event (t, p)))
        (track_tools phase t event)
        (IsBlind-compose (λ p. noted event (t, p)) (record_event phase t event) noted-IsBlind
          (record_event-IsBlind phase))
        (track_tools-IsBlind phase)

-- Of what a place changes, only the issue of a phase is left.
place_stepped-forget :
    (x : Topology) (phase : Phase) (p : Planning) (id : Option String) (n : Option ℕ)
    → forget (place_stepped x phase p id n).1 ≡ forget p
unfolding place_stepped place_stepless
place_stepped-forget x phase p (some id) (some n) = refl
place_stepped-forget x phase p none n = refl
place_stepped-forget x phase p (some id) none = refl

place_stepped-phase :
    (x : Topology) (phase : Phase) (p : Planning) (id : Option String) (n : Option ℕ)
    → (place_stepped x phase p id n).0.phase ≡ x.phase
unfolding place_stepped place_stepless
place_stepped-phase x phase p (some id) (some n) = refl
place_stepped-phase x phase p none n = refl
place_stepped-phase x phase p (some id) none = refl

meet_same_phase :
    (t x : Topology) (phase : Phase) (event : CanonicalEvent) (p : Planning)
    → t.phase ≡ x.phase
    → forget (meet_explicit x phase event p) ≡ forget (meet_explicit t phase event p)
unfolding meet_explicit
meet_same_phase t x phase event p e = ground (arith, ap phase_text e)

place_derived-forget :
    (phase : Phase) (event : CanonicalEvent) (p : Planning) (c : Option Cursor)
    → (forget (place_derived phase event p c).1 ≡ forget p)
      × ((place_derived phase event p c).0.phase ≡ phase)
unfolding place_derived place_in_new_turn place_at derived_topology
place_derived-forget phase event p none = (refl, refl)
place_derived-forget phase event p (some c) = elim (Bool-cases (is_user phase)) [
  | inl u ↦ rw u (refl, refl)
  | inr u ↦ rw u (refl, refl)
]

meet_own_phase :
    (t : Topology) (phase : Phase) (event : CanonicalEvent) (p : Planning)
    → t.phase ≡ phase
    → forget p ≡ forget (meet_explicit t phase event p)
unfolding meet_explicit
meet_own_phase t phase event p e =
    ground (arith, ap phase_text e, eq_iff (phase_text t.phase) (phase_text phase))

pub place-forget :
    (phase : Phase) (event : CanonicalEvent) (p : Planning) (explicit : Option Topology)
    → forget (place phase event p explicit).1
      ≡ forget (meet_explicit (place phase event p explicit).0 phase event p)
unfolding place
place-forget phase event p none =
    let (same, own) = place_derived-forget phase event p p.cursor in
    same ∙ meet_own_phase (place_derived phase event p p.cursor).0 phase event p own
place-forget phase event p (some x) =
    let met = meet_explicit x phase event p in
    place_stepped-forget x phase met x.step_id x.step_ordinal
    ∙ meet_same_phase (place_stepped x phase met x.step_id x.step_ordinal).0 x phase event p
        (place_stepped-phase x phase met x.step_id x.step_ordinal)

place_stepped-given :
    (t : Topology) (phase : Phase) (p : Planning) (id : Option String) (n : Option ℕ)
    → is_some id ≡ true
    → is_some n ≡ true
    → (place_stepped t phase p id n).0 ≡ t
unfolding place_stepped
place_stepped-given t phase p (some id) (some n) h k = refl
place_stepped-given t phase p none n h k = absurd (ground arith)
place_stepped-given t phase p (some id) none h k = absurd (ground arith)

-- A topology with a step is taken as it is.
pub place-given :
    (phase : Phase) (event : CanonicalEvent) (p : Planning) (t : Topology)
    → HasStep t
    → ((place phase event p (some t)).0 ≡ t)
      × (forget (place phase event p (some t)).1 ≡ forget (meet_explicit t phase event p))
unfolding place
place-given phase event p t (h, k) =
    let met = meet_explicit t phase event p in
    (
      place_stepped-given t phase met t.step_id t.step_ordinal h k,
      place_stepped-forget t phase met t.step_id t.step_ordinal,
    )
