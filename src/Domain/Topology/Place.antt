-- ===== src/Domain/Topology/Place.antt =====
-- The place of an event: its own coordinates, or those that the planner derives.
use dsh_session_maintenance.Prelude.{
  ℕ, ◌+◌, String, Bool, false, not, ◌&&◌, [], ◌∷◌, Option, none, some, ◌==◌, string_eq, nat_eq,
  option_eq, list_eq, if◌then◌else◌, ltb, is_some, includes, map_get,
}
use dsh_session_maintenance.Contracts.Canonical.{
  Phase, derived, Topology, CanonicalEvent, phase_text,
}
use dsh_session_maintenance.Domain.Topology.{
  phase_mismatch, Cursor, step_name, derived_turn, next_step, derived_topology, issue, StepKey,
  pending_step_key, is_model_phase, is_user, Planning, add_conflict,
}

abbrev pub cursor_key : Cursor → StepKey
cursor_key cursor = pending_step_key cursor.turn_id (some cursor.step_id)

-- The cursor and the flag `advanceBeforeNextModelPhase`.
abbrev pub Position : Type 0
Position = Cursor × Bool

unfoldable pub advance_position : Phase → Planning → Cursor → Position
unfolding next_step is_model_phase
advance_position phase p cursor =
    if p.advance && is_model_phase phase then (next_step cursor, false) else (cursor, p.advance)

-- In the turn of the cursor: a steering message after model work opens a step, if no call is open.
unfoldable pub continue_turn : Phase → Planning → Cursor → Position
unfolding advance_position is_user
continue_turn phase p cursor =
    if is_user phase
      && includes p.steps_with_model_work (cursor_key cursor)
      && not (is_some (map_get (cursor_key cursor) p.pending_by_step))
    then (next_step cursor, false)
    else advance_position phase p cursor

unfoldable pub first_step : Topology → Cursor
unfolding step_name
first_step explicit = record {
  turn_id = explicit.turn_id;
  turn_ordinal = explicit.turn_ordinal;
  step_id = step_name explicit.turn_id 0;
  step_ordinal = 0;
}

unfoldable pub stepless_position : Topology → Phase → Planning → Option Cursor → Position
unfolding first_step continue_turn
stepless_position explicit phase p none = (first_step explicit, false)
stepless_position explicit phase p (some cursor) =
    if cursor.turn_id == explicit.turn_id
    then continue_turn phase p cursor
    else (first_step explicit, false)

unfoldable pub place_stepless : Topology → Planning → Position → Topology × Planning
place_stepless explicit p (cursor, advance) = (
  record explicit {
    step_id = some cursor.step_id;
    step_ordinal = some cursor.step_ordinal;
    inference = derived;
  },
  record p { cursor = some cursor; advance = advance && not (is_some explicit.step_id) },
)

unfoldable pub place_stepped :
    Topology → Phase → Planning → Option String → Option ℕ → Topology × Planning
unfolding stepless_position place_stepless
place_stepped explicit phase p (some step_id) (some step_ordinal) = (
  explicit,
  record p {
    cursor = some (record {
      turn_id = explicit.turn_id;
      turn_ordinal = explicit.turn_ordinal;
      step_id = step_id;
      step_ordinal = step_ordinal;
    });
    advance = false;
  },
)
place_stepped explicit phase p none step_ordinal =
    place_stepless explicit p (stepless_position explicit phase p p.cursor)
place_stepped explicit phase p (some step_id) none =
    place_stepless explicit p (stepless_position explicit phase p p.cursor)

-- `Math.max`, and the issue of a phase that differs.
unfoldable pub meet_explicit : Topology → Phase → CanonicalEvent → Planning → Planning
unfolding phase_text
meet_explicit explicit phase event p =
    let next =
      if ltb explicit.turn_ordinal p.next_turn_ordinal
      then p.next_turn_ordinal
      else explicit.turn_ordinal + 1 in
    let q = record p { next_turn_ordinal = next } in
    if phase_text explicit.phase == phase_text phase
    then q
    else add_conflict (issue phase_mismatch (event.id ∷ []) none) q

unfoldable pub place_in_new_turn : Phase → CanonicalEvent → Planning → Topology × Planning
unfolding derived_turn derived_topology
place_in_new_turn phase event p =
    let cursor = derived_turn event.id p.next_turn_ordinal in
    (
      derived_topology cursor phase,
      record p {
        cursor = some cursor;
        next_turn_ordinal = p.next_turn_ordinal + 1;
        advance = false;
      },
    )

unfoldable pub place_at : Phase → Planning → Position → Topology × Planning
unfolding derived_topology
place_at phase p (cursor, advance) =
    (derived_topology cursor phase, record p { cursor = some cursor; advance = advance })

unfoldable pub place_derived :
    Phase → CanonicalEvent → Planning → Option Cursor → Topology × Planning
unfolding place_in_new_turn place_at advance_position is_user
place_derived phase event p none = place_in_new_turn phase event p
place_derived phase event p (some cursor) =
    if is_user phase
    then place_in_new_turn phase event p
    else place_at phase p (advance_position phase p cursor)

unfoldable pub place : Phase → CanonicalEvent → Planning → Option Topology → Topology × Planning
unfolding meet_explicit place_stepped place_derived
place phase event p (some explicit) =
    place_stepped explicit phase (meet_explicit explicit phase event p) explicit.step_id
      explicit.step_ordinal
place phase event p none = place_derived phase event p p.cursor
