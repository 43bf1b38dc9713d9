-- ===== src/Domain/Topology/Filing.antt =====
-- The turns and steps list each event that enters them once, where its topology says.
use dsh_session_maintenance.Prelude.{
  ℕ, suc, ◌+◌, ◌≡◌, refl, sym, inl, inr, subst, String, Bool, true, false, ◌&&◌, ◌||◌, List, [],
  ◌∷◌, Option, none, some, Option-cases, Bool-cases, arith, ◌==◌, string_eq, nat_eq, option_eq,
  list_eq, includes, includes-append, is_some, length, length-append, eq_iff,
}
use dsh_session_maintenance.Contracts.Canonical.{Phase, Topology, CanonicalEvent}
use dsh_session_maintenance.Domain.Topology.{
  Cursor, derived_topology, Step, Turn, Planning, is_user,
}
use dsh_session_maintenance.Domain.Topology.Place.{
  place, place_stepped, place_stepless, place_derived, place_in_new_turn, place_at, meet_explicit,
}
use dsh_session_maintenance.Domain.Topology.Turns.{
  enter_step, enter_steps, enter_turn, enter_turns, find_turn, find_step,
}

-- The place that an event gets has a step.
abbrev pub HasStep : Topology → Type 0
HasStep t = (is_some t.step_id ≡ true) × (is_some t.step_ordinal ≡ true)

place_stepped-HasStep :
    (t : Topology) (phase : Phase) (p : Planning) (id : Option String) (n : Option ℕ)
    → t.step_id ≡ id
    → t.step_ordinal ≡ n
    → HasStep (place_stepped t phase p id n).0
unfolding place_stepped place_stepless
place_stepped-HasStep t phase p (some id) (some n) e d = (ground (arith, e), ground (arith, d))
place_stepped-HasStep t phase p none n e d = (refl, refl)
place_stepped-HasStep t phase p (some id) none e d = (refl, refl)

place_derived-HasStep :
    (phase : Phase) (event : CanonicalEvent) (p : Planning) (c : Option Cursor)
    → HasStep (place_derived phase event p c).0
unfolding place_derived place_in_new_turn place_at derived_topology
place_derived-HasStep phase event p none = (refl, refl)
place_derived-HasStep phase event p (some c) = elim (Bool-cases (is_user phase)) [
  | inl u ↦ rw u (refl, refl)
  | inr u ↦ rw u (refl, refl)
]

pub place-HasStep :
    (phase : Phase) (event : CanonicalEvent) (p : Planning) (t : Option Topology)
    → HasStep (place phase event p t).0
unfolding place
place-HasStep phase event p none = place_derived-HasStep phase event p p.cursor
place-HasStep phase event p (some t) =
    place_stepped-HasStep t phase (meet_explicit t phase event p) t.step_id t.step_ordinal refl refl

-- How many events the turns list, and how many their steps do.
unfoldable pub step_events : List Step → ℕ
step_events [] = 0
step_events (step ∷ steps) = length step.event_ids + step_events steps

unfoldable pub turn_events : List Turn → ℕ
turn_events [] = 0
turn_events (turn ∷ turns) = length turn.event_ids + turn_events turns

unfoldable pub turn_step_events : List Turn → ℕ
unfolding step_events
turn_step_events [] = 0
turn_step_events (turn ∷ turns) = step_events turn.steps + turn_step_events turns

step_events-enter_step :
    (id : String) (n : ℕ) (event_id : String) (steps : List Step)
    → step_events (enter_step id n event_id steps) ≡ suc (step_events steps)
unfolding step_events enter_step
step_events-enter_step id n event_id [] = omega arith
step_events-enter_step id n event_id (step ∷ steps) = ground (
  arith,
  step_events-enter_step id n event_id steps,
  length-append step.event_ids (event_id ∷ []),
)

step_events-enter_steps :
    (id : Option String) (n : Option ℕ) (event_id : String) (steps : List Step)
    → is_some id ≡ true
    → is_some n ≡ true
    → step_events (enter_steps id n event_id steps) ≡ suc (step_events steps)
unfolding enter_steps
step_events-enter_steps (some id) (some n) event_id steps h k =
    step_events-enter_step id n event_id steps
step_events-enter_steps none n event_id steps h k = absurd (ground arith)
step_events-enter_steps (some id) none event_id steps h k = absurd (ground arith)

pub turn_events-enter_turns :
    (t : Topology) (event_id : String) (turns : List Turn)
    → turn_events (enter_turns t event_id turns) ≡ suc (turn_events turns)
unfolding turn_events enter_turns enter_turn
turn_events-enter_turns t event_id [] = omega arith
turn_events-enter_turns t event_id (turn ∷ turns) =
    ground (
      arith,
      turn_events-enter_turns t event_id turns,
      length-append turn.event_ids (event_id ∷ []),
    )

pub turn_step_events-enter_turns :
    (t : Topology) (event_id : String) (turns : List Turn)
    → HasStep t
    → turn_step_events (enter_turns t event_id turns) ≡ suc (turn_step_events turns)
unfolding turn_step_events enter_turns enter_turn
turn_step_events-enter_turns t event_id [] (h, k) =
    omega (arith, step_events-enter_steps t.step_id t.step_ordinal event_id [] h k)
turn_step_events-enter_turns t event_id (turn ∷ turns) (h, k) = ground (
  arith,
  turn_step_events-enter_turns t event_id turns (h, k),
  step_events-enter_steps t.step_id t.step_ordinal event_id turn.steps h k,
)

-- Whether the step of this ID lists the event, and whether the turn and its step do.
unfoldable pub in_step : String → String → List Step → Bool
in_step id event_id steps = elim (find_step id steps) [
  | none ↦ false
  | some step ↦ includes step.event_ids event_id
]

unfoldable pub in_turn : String → Option String → String → List Turn → Bool
unfolding in_step
in_turn turn_id none event_id turns = false
in_turn turn_id (some id) event_id turns = elim (find_turn turn_id turns) [
  | none ↦ false
  | some turn ↦ includes turn.event_ids event_id && in_step id event_id turn.steps
]

in_step-enter_step :
    (id : String) (n : ℕ) (event_id other other_event : String) (steps : List Step)
    → in_step other other_event (enter_step id n event_id steps)
      ≡ (in_step other other_event steps || (id == other && event_id == other_event))
unfolding in_step enter_step
in_step-enter_step id n event_id other other_event [] = ground arith
in_step-enter_step id n event_id other other_event (step ∷ steps) = ground (
  arith,
  in_step-enter_step id n event_id other other_event steps,
  includes-append step.event_ids (event_id ∷ []) other_event,
  eq_iff step.step_id id,
  eq_iff step.step_id other,
  eq_iff id other,
)

in_step-enter_steps :
    (id : Option String) (n : Option ℕ) (event_id other other_event : String) (steps : List Step)
    → in_step other other_event steps ≡ true
    → in_step other other_event (enter_steps id n event_id steps) ≡ true
unfolding enter_steps
in_step-enter_steps (some id) (some n) event_id other other_event steps h =
    ground (arith, in_step-enter_step id n event_id other other_event steps)
in_step-enter_steps none n event_id other other_event steps h = h
in_step-enter_steps (some id) none event_id other other_event steps h = h

-- An event that is filed stays so.
pub in_turn-enter_turns :
    (t : Topology) (event_id turn_id : String) (id : Option String) (other : String)
    (turns : List Turn)
    → in_turn turn_id id other turns ≡ true
    → in_turn turn_id id other (enter_turns t event_id turns) ≡ true
unfolding in_turn enter_turns enter_turn
in_turn-enter_turns t event_id turn_id none other turns h = absurd (ground arith)
in_turn-enter_turns t event_id turn_id (some id) other [] h = absurd (ground arith)
in_turn-enter_turns t event_id turn_id (some id) other (turn ∷ turns) h = ground (
  arith,
  in_turn-enter_turns t event_id turn_id (some id) other turns,
  in_step-enter_steps t.step_id t.step_ordinal event_id id other turn.steps,
  includes-append turn.event_ids (event_id ∷ []) other,
  eq_iff turn.turn_id t.turn_id,
  eq_iff turn.turn_id turn_id,
)

in_step-enter_steps_self :
    (id : String) (n : Option ℕ) (event_id : String) (steps : List Step)
    → is_some n ≡ true
    → in_step id event_id (enter_steps (some id) n event_id steps) ≡ true
unfolding enter_steps
in_step-enter_steps_self id (some n) event_id steps h = ground (
  arith,
  in_step-enter_step id n event_id id event_id steps,
  eq_iff id id,
  eq_iff event_id event_id,
)
in_step-enter_steps_self id none event_id steps h = absurd (ground arith)

enter_turns_files :
    (t : Topology) (id event_id : String) (turns : List Turn)
    → t.step_id ≡ some id
    → is_some t.step_ordinal ≡ true
    → in_turn t.turn_id (some id) event_id (enter_turns t event_id turns) ≡ true
unfolding in_turn enter_turns enter_turn
enter_turns_files t id event_id [] e h = ground (
  arith,
  eq_iff t.turn_id t.turn_id,
  eq_iff event_id event_id,
  subst (λ z. in_step id event_id (enter_steps z t.step_ordinal event_id []) ≡ true) (sym e)
      (in_step-enter_steps_self id t.step_ordinal event_id [] h),
)
enter_turns_files t id event_id (turn ∷ turns) e h = ground (
  arith,
  enter_turns_files t id event_id turns e h,
  eq_iff event_id event_id,
  eq_iff turn.turn_id t.turn_id,
  includes-append turn.event_ids (event_id ∷ []) event_id,
  subst (λ z. in_step id event_id (enter_steps z t.step_ordinal event_id turn.steps) ≡ true) (sym e)
      (in_step-enter_steps_self id t.step_ordinal event_id turn.steps h),
)

-- The event that has just entered is filed.
pub in_turn-enter_turns_self :
    (t : Topology) (event_id : String) (turns : List Turn)
    → HasStep t
    → in_turn t.turn_id t.step_id event_id (enter_turns t event_id turns) ≡ true
in_turn-enter_turns_self t event_id turns (h, k) = elim (Option-cases t.step_id) [
  | inl e ↦ absurd (ground (arith, e))
  | inr (id, e) ↦
      subst (λ z. in_turn t.turn_id z event_id (enter_turns t event_id turns) ≡ true) (sym e)
        (enter_turns_files t id event_id turns e k)
]
