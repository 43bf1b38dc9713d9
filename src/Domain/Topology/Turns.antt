-- ===== src/Domain/Topology/Turns.antt =====
-- The turns and steps that an event enters, and the conflicts that it shows.
use dsh_session_maintenance.Prelude.{
  ℕ, String, Bool, false, not, ◌&&◌, ◌||◌, List, [], ◌∷◌, ◌++◌, Option, none, some, ◌==◌, string_eq,
  nat_eq, option_eq, list_eq, if◌then◌else◌, is_some, find, map_get, map_set, set_add,
}
use dsh_session_maintenance.Contracts.Canonical.{Phase, Topology, CanonicalEvent}
use dsh_session_maintenance.Domain.Topology.{
  turn_identity_conflict, step_identity_conflict, Step, Turn, issue, pending_step_key,
  is_model_phase, Planning, add_conflict,
}

-- `turnIdsByOrdinal`
unfoldable pub note_ordinal : Topology → CanonicalEvent → Planning → Planning
note_ordinal t event p =
    let known = map_get t.turn_ordinal p.turn_ids_by_ordinal in
    if is_some known && not (known == some t.turn_id)
    then add_conflict (issue turn_identity_conflict (event.id ∷ []) none) p
    else record p { turn_ids_by_ordinal = map_set t.turn_ordinal t.turn_id p.turn_ids_by_ordinal }

abbrev pub find_turn : String → List Turn → Option Turn
find_turn id turns = find (λ turn. turn.turn_id == id) turns

abbrev pub find_step : String → List Step → Option Step
find_step id steps = find (λ step. step.step_id == id) steps

unfoldable pub turn_differs : Topology → Option Turn → Bool
turn_differs t none = false
turn_differs t (some turn) = not (turn.turn_ordinal == t.turn_ordinal)

unfoldable pub note_turn : Topology → CanonicalEvent → Planning → Planning
unfolding turn_differs
note_turn t event p =
    if turn_differs t (find_turn t.turn_id p.turns)
    then add_conflict (issue turn_identity_conflict (event.id ∷ []) none) p
    else p

unfoldable pub coordinates_differ : String → ℕ → Option (String × ℕ) → Bool
coordinates_differ turn_id ordinal none = false
coordinates_differ turn_id ordinal (some (known_turn, known_ordinal)) =
    not (known_turn == turn_id) || not (known_ordinal == ordinal)

unfoldable pub step_differs : String → ℕ → Option Turn → Bool
step_differs id ordinal none = false
step_differs id ordinal (some turn) = elim (find_step id turn.steps) [
  | none ↦ false
  | some step ↦ not (step.step_ordinal == ordinal)
]

unfoldable pub note_coordinates : Topology → CanonicalEvent → String → ℕ → Planning → Planning
unfolding coordinates_differ
note_coordinates t event id ordinal p =
    if coordinates_differ t.turn_id ordinal (map_get id p.step_coordinates)
    then add_conflict (issue step_identity_conflict (event.id ∷ []) none) p
    else record p { step_coordinates = map_set id (t.turn_id, ordinal) p.step_coordinates }

unfoldable pub note_same_step : Topology → CanonicalEvent → String → ℕ → Planning → Planning
unfolding step_differs
note_same_step t event id ordinal p =
    if step_differs id ordinal (find_turn t.turn_id p.turns)
    then add_conflict (issue step_identity_conflict (event.id ∷ []) none) p
    else p

unfoldable pub note_step :
    Topology → CanonicalEvent → Option String → Option ℕ → Planning → Planning
unfolding note_coordinates note_same_step
note_step t event (some id) (some ordinal) p =
    note_same_step t event id ordinal (note_coordinates t event id ordinal p)
note_step t event none ordinal p = p
note_step t event (some id) none p = p

unfoldable pub enter_step : String → ℕ → String → List Step → List Step
enter_step id ordinal event_id [] =
    record { step_id = id; step_ordinal = ordinal; event_ids = event_id ∷ [] } ∷ []
enter_step id ordinal event_id (step ∷ steps) =
    if step.step_id == id
    then record step { event_ids = step.event_ids ++ event_id ∷ [] } ∷ steps
    else step ∷ enter_step id ordinal event_id steps

unfoldable pub enter_steps : Option String → Option ℕ → String → List Step → List Step
unfolding enter_step
enter_steps (some id) (some ordinal) event_id steps = enter_step id ordinal event_id steps
enter_steps none ordinal event_id steps = steps
enter_steps (some id) none event_id steps = steps

unfoldable pub enter_turn : Topology → String → Turn → Turn
unfolding enter_steps
enter_turn t event_id turn = record turn {
  event_ids = turn.event_ids ++ event_id ∷ [];
  steps = enter_steps t.step_id t.step_ordinal event_id turn.steps;
}

unfoldable pub enter_turns : Topology → String → List Turn → List Turn
unfolding enter_turn
enter_turns t event_id [] =
    enter_turn t event_id
      (record { turn_id = t.turn_id; turn_ordinal = t.turn_ordinal; event_ids = []; steps = [] })
    ∷ []
enter_turns t event_id (turn ∷ turns) =
    if turn.turn_id == t.turn_id
    then enter_turn t event_id turn ∷ turns
    else turn ∷ enter_turns t event_id turns

unfoldable pub record_event : Phase → Topology → CanonicalEvent → Planning → Planning
unfolding enter_turns is_model_phase
record_event phase t event p = record p {
  turns = enter_turns t event.id p.turns;
  planned =
      p.planned
      ++ record { event_id = event.id; sequence = event.sequence; kind = event.kind; topology = t }
        ∷ [];
  steps_with_model_work =
      if is_model_phase phase
      then set_add (pending_step_key t.turn_id t.step_id) p.steps_with_model_work
      else p.steps_with_model_work;
}
