-- ===== src/Domain/Topology/Frame.antt =====
-- What the parts of a round leave as it was.
use dsh_session_maintenance.Prelude.{
  ℕ, ◌+◌, ◌≡◌, refl, sym, ap, ◌∙◌, inl, inr, String, Bool, true, false, List, [], ◌∷◌, ◌++◌,
  append-nil, append_assoc, Option, none, some, Bool-cases, if◌then◌else◌, string_eq, nat_eq,
  option_eq,
}
use dsh_session_maintenance.Contracts.Canonical.{Phase, Topology, CanonicalEvent}
use dsh_session_maintenance.Domain.Topology.{Cursor, is_user, Issue, Planning, add_conflict}
use dsh_session_maintenance.Domain.Topology.Place.{
  Position, place, place_stepped, place_stepless, place_derived, place_in_new_turn, place_at,
  meet_explicit, stepless_position, advance_position,
}
use dsh_session_maintenance.Domain.Topology.Turns.{
  note_ordinal, note_turn, note_step, note_coordinates, note_same_step,
}

-- The planned events, the turns and the books on tools are the same; issues may have come.
pub record Notes (p q : Planning) : Type 0 where
  pub planned : q.planned ≡ p.planned
  pub turns : q.turns ≡ p.turns
  pub pending : q.pending ≡ p.pending
  pub seen : q.seen_call_ids ≡ p.seen_call_ids
  pub calls : q.tool_calls ≡ p.tool_calls
  pub missing : q.missing_call_ids ≡ p.missing_call_ids
  pub matched : q.matched_results ≡ p.matched_results
  pub orphans : q.orphan_results ≡ p.orphan_results
  pub grows : (is : List Issue) × (q.issues ≡ p.issues ++ is)

Notes-refl : (p : Planning) → Notes p p
Notes-refl p = record {
  planned = refl;
  turns = refl;
  pending = refl;
  seen = refl;
  calls = refl;
  missing = refl;
  matched = refl;
  orphans = refl;
  grows = ([], sym (append-nil p.issues));
}

Notes-conflict : (i : Issue) (p q : Planning) → Notes p q → Notes p (add_conflict i q)
Notes-conflict i p q n =
    let (is, e) = n.grows in
    record {
      planned = n.planned;
      turns = n.turns;
      pending = n.pending;
      seen = n.seen;
      calls = n.calls;
      missing = n.missing;
      matched = n.matched;
      orphans = n.orphans;
      grows = (is ++ i ∷ [], ap (λ z. z ++ i ∷ []) e ∙ append_assoc p.issues is (i ∷ []));
    }

-- The other fields do not count.
Notes-quiet :
    (p : Planning) (c : Option Cursor) (n : ℕ) (a : Bool) (o : List (ℕ × String))
    (s : List (String × (String × ℕ)))
    → Notes p (record p {
      cursor = c;
      next_turn_ordinal = n;
      advance = a;
      turn_ids_by_ordinal = o;
      step_coordinates = s;
    })
Notes-quiet p c n a o s = record {
  planned = refl;
  turns = refl;
  pending = refl;
  seen = refl;
  calls = refl;
  missing = refl;
  matched = refl;
  orphans = refl;
  grows = ([], sym (append-nil p.issues));
}

Notes-if : (b : Bool) (p q r : Planning) → Notes p q → Notes p r → Notes p (if b then q else r)
Notes-if true p q r f g = f
Notes-if false p q r f g = g

pub Notes-trans : (p q r : Planning) → Notes p q → Notes q r → Notes p r
Notes-trans p q r f g =
    let (is, e) = f.grows in
    let (js, d) = g.grows in
    record {
      planned = g.planned ∙ f.planned;
      turns = g.turns ∙ f.turns;
      pending = g.pending ∙ f.pending;
      seen = g.seen ∙ f.seen;
      calls = g.calls ∙ f.calls;
      missing = g.missing ∙ f.missing;
      matched = g.matched ∙ f.matched;
      orphans = g.orphans ∙ f.orphans;
      grows = (is ++ js, d ∙ ap (λ z. z ++ js) e ∙ append_assoc p.issues is js);
    }

meet_explicit-Notes :
    (t : Topology) (phase : Phase) (event : CanonicalEvent) (p : Planning)
    → Notes p (meet_explicit t phase event p)
unfolding meet_explicit
meet_explicit-Notes t phase event p =
    let quiet =
      λ (n : ℕ). Notes-quiet p p.cursor n p.advance p.turn_ids_by_ordinal p.step_coordinates in
    Notes-if _ p _ _ (quiet _) (Notes-conflict _ p _ (quiet _))

place_stepless-Notes :
    (t : Topology) (p : Planning) (at : Position) → Notes p (place_stepless t p at).1
unfolding place_stepless
place_stepless-Notes t p (c, a) =
    Notes-quiet p (some c) p.next_turn_ordinal _ p.turn_ids_by_ordinal p.step_coordinates

place_stepped-Notes :
    (t : Topology) (phase : Phase) (p : Planning) (id : Option String) (n : Option ℕ)
    → Notes p (place_stepped t phase p id n).1
unfolding place_stepped
place_stepped-Notes t phase p (some id) (some n) =
    Notes-quiet p (some _) p.next_turn_ordinal false p.turn_ids_by_ordinal p.step_coordinates
place_stepped-Notes t phase p none n =
    place_stepless-Notes t p (stepless_position t phase p p.cursor)
place_stepped-Notes t phase p (some id) none =
    place_stepless-Notes t p (stepless_position t phase p p.cursor)

place_in_new_turn-Notes :
    (phase : Phase) (event : CanonicalEvent) (p : Planning)
    → Notes p (place_in_new_turn phase event p).1
unfolding place_in_new_turn
place_in_new_turn-Notes phase event p =
    Notes-quiet p (some _) (p.next_turn_ordinal + 1) false p.turn_ids_by_ordinal p.step_coordinates

place_at-Notes : (phase : Phase) (p : Planning) (at : Position) → Notes p (place_at phase p at).1
unfolding place_at
place_at-Notes phase p (c, a) =
    Notes-quiet p (some c) p.next_turn_ordinal a p.turn_ids_by_ordinal p.step_coordinates

place_derived-Notes :
    (phase : Phase) (event : CanonicalEvent) (p : Planning) (c : Option Cursor)
    → Notes p (place_derived phase event p c).1
unfolding place_derived
place_derived-Notes phase event p none = place_in_new_turn-Notes phase event p
place_derived-Notes phase event p (some c) = elim (Bool-cases (is_user phase)) [
  | inl u ↦ rw u (place_in_new_turn-Notes phase event p)
  | inr u ↦ rw u (place_at-Notes phase p (advance_position phase p c))
]

pub place-Notes :
    (phase : Phase) (event : CanonicalEvent) (p : Planning) (t : Option Topology)
    → Notes p (place phase event p t).1
unfolding place
place-Notes phase event p none = place_derived-Notes phase event p p.cursor
place-Notes phase event p (some t) =
    let met = meet_explicit t phase event p in
    Notes-trans p met (place_stepped t phase met t.step_id t.step_ordinal).1
      (meet_explicit-Notes t phase event p)
      (place_stepped-Notes t phase met t.step_id t.step_ordinal)

pub note_ordinal-Notes :
    (t : Topology) (event : CanonicalEvent) (p : Planning) → Notes p (note_ordinal t event p)
unfolding note_ordinal
note_ordinal-Notes t event p =
    Notes-if _ p _ _ (Notes-conflict _ p p (Notes-refl p))
      (Notes-quiet p p.cursor p.next_turn_ordinal p.advance _ p.step_coordinates)

pub note_turn-Notes :
    (t : Topology) (event : CanonicalEvent) (p : Planning) → Notes p (note_turn t event p)
unfolding note_turn
note_turn-Notes t event p = Notes-if _ p _ _ (Notes-conflict _ p p (Notes-refl p)) (Notes-refl p)

note_coordinates-Notes :
    (t : Topology) (event : CanonicalEvent) (id : String) (n : ℕ) (p : Planning)
    → Notes p (note_coordinates t event id n p)
unfolding note_coordinates
note_coordinates-Notes t event id n p =
    Notes-if _ p _ _ (Notes-conflict _ p p (Notes-refl p))
      (Notes-quiet p p.cursor p.next_turn_ordinal p.advance p.turn_ids_by_ordinal _)

note_same_step-Notes :
    (t : Topology) (event : CanonicalEvent) (id : String) (n : ℕ) (p : Planning)
    → Notes p (note_same_step t event id n p)
unfolding note_same_step
note_same_step-Notes t event id n p =
    Notes-if _ p _ _ (Notes-conflict _ p p (Notes-refl p)) (Notes-refl p)

pub note_step-Notes :
    (t : Topology) (event : CanonicalEvent) (id : Option String) (n : Option ℕ) (p : Planning)
    → Notes p (note_step t event id n p)
unfolding note_step
note_step-Notes t event (some id) (some n) p =
    let q = note_coordinates t event id n p in
    Notes-trans p q (note_same_step t event id n q) (note_coordinates-Notes t event id n p)
      (note_same_step-Notes t event id n q)
note_step-Notes t event none n p = Notes-refl p
note_step-Notes t event (some id) none p = Notes-refl p

-- The planning when an event has its place, in front of `record_event`.
abbrev pub noted : CanonicalEvent → Topology × Planning → Planning
noted event (t, p) =
    note_step t event t.step_id t.step_ordinal (note_turn t event (note_ordinal t event p))

pub noted-Notes :
    (event : CanonicalEvent) (t : Topology) (p q : Planning)
    → Notes p q
    → Notes p (noted event (t, q))
noted-Notes event t p q n =
    let a = note_ordinal t event q in
    let b = note_turn t event a in
    Notes-trans p b (noted event (t, q))
      (Notes-trans p a b (Notes-trans p q a n (note_ordinal-Notes t event q))
        (note_turn-Notes t event a))
      (note_step-Notes t event t.step_id t.step_ordinal b)
