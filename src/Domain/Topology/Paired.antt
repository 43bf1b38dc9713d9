-- ===== src/Domain/Topology/Paired.antt =====
-- The calls of tools and their results: what fits, and what the books on them say.
use dsh_session_maintenance.Prelude.{
  ◌+◌, ◌≡◌, refl, sym, ap, ◌∙◌, inl, inr, String, Bool, true, false, not, ◌&&◌, List, [], ◌∷◌, ◌++◌,
  Option, none, some, Option-cases, Bool-cases, arith, if◌then◌else◌, ◌==◌, string_eq, option_eq,
  nat_eq, map_get, map_get-map_set, includes, includes-append, is_some, length, length-append,
  eq_iff,
}
use dsh_session_maintenance.Contracts.Canonical.{Phase, user, assistant, Topology, CanonicalEvent}
use dsh_session_maintenance.Domain.Topology.{
  Issue, PendingToolCall, Planning, phase_for_kind, tool_call_id,
}
use dsh_session_maintenance.Domain.Topology.Tools.{
  map_delete, track_tools, open_call, close_result, meet_result, close_call,
}

abbrev pub is_tool : Option Phase → Bool
is_tool (some Phase.tool_call) = true
is_tool (some Phase.tool_result) = true
is_tool _ = false

-- The events, after calls with the first IDs and results for the second ones: a call has an ID that
-- no call had before; a result has the ID of an earlier call that no result had before; and at the
-- end every call has its result.
pub data Answers : List String → List String → List CanonicalEvent → Type 0 where
  done :
      {opened answered : List String}
      → ((id : String) → includes opened id ≡ true → includes answered id ≡ true)
      → Answers opened answered []
  call :
      {opened answered : List String} {event : CanonicalEvent} {events : List CanonicalEvent}
      (id : String)
      → phase_for_kind event.kind ≡ some Phase.tool_call
      → tool_call_id event ≡ some id
      → includes opened id ≡ false
      → Answers (id ∷ opened) answered events
      → Answers opened answered (event ∷ events)
  result :
      {opened answered : List String} {event : CanonicalEvent} {events : List CanonicalEvent}
      (id : String)
      → phase_for_kind event.kind ≡ some Phase.tool_result
      → tool_call_id event ≡ some id
      → includes opened id ≡ true
      → includes answered id ≡ false
      → Answers opened (id ∷ answered) events
      → Answers opened answered (event ∷ events)
  aside :
      {opened answered : List String} {event : CanonicalEvent} {events : List CanonicalEvent}
      → is_tool (phase_for_kind event.kind) ≡ false
      → Answers opened answered events
      → Answers opened answered (event ∷ events)

-- The books say which calls there were and which are open.
pub record Books (opened answered : List String) (p : Planning) : Type 0 where
  pub seen : (id : String) → includes p.seen_call_ids id ≡ includes opened id
  pub open_calls :
      (id : String)
      → is_some (map_get id p.pending) ≡ (includes opened id && not (includes answered id))

pub Books-same :
    (opened answered : List String) (p q : Planning)
    → q.seen_call_ids ≡ p.seen_call_ids
    → q.pending ≡ p.pending
    → Books opened answered p
    → Books opened answered q
Books-same opened answered p q s e b = record {
  seen = λ id. ap (λ z. includes z id) s ∙ b.seen id;
  open_calls = λ id. ap (λ z. is_some (map_get id z)) e ∙ b.open_calls id;
}

concat_not_empty : (is : List Issue) (i : Issue) → is ++ i ∷ [] ≡ [] → ⊥
concat_not_empty is i e = omega (arith, length-append is (i ∷ []), ap length e)

pub append_empty : (is js : List Issue) → is ++ js ≡ [] → is ≡ []
append_empty [] js e = refl
append_empty (i ∷ is) js e = absurd (omega (arith, ap length e))

map_get-map_delete :
    (k j : String) (m : List (String × PendingToolCall))
    → map_get j (map_delete k m) ≡ (if k == j then none else map_get j m)
unfolding map_get map_delete
map_get-map_delete k j [] = ground arith
map_get-map_delete k j ((i, v) ∷ m) =
    ground (arith, map_get-map_delete k j m, eq_iff i k, eq_iff i j, eq_iff k j)

-- A call that raises no issue.
open_call_lem :
    (t : Topology) (event : CanonicalEvent) (given : Option String) (opened answered : List String)
    (p : Planning)
    → Books opened answered p
    → ((id : String) → includes answered id ≡ true → includes opened id ≡ true)
    → (open_call t event given p).issues ≡ []
    → (id : String) × (given ≡ some id)
      × (includes opened id ≡ false)
      × Books (id ∷ opened) answered (open_call t event given p)
unfolding open_call
open_call_lem t event none opened answered p b sub e = absurd (concat_not_empty _ _ e)
open_call_lem t event (some id) opened answered p b sub e =
    elim (Bool-cases (includes p.seen_call_ids id)) [
      | inl old ↦ absurd (concat_not_empty p.issues _ (rw old at e))
      | inr new ↦
          let fresh : includes opened id ≡ false = sym (b.seen id) ∙ new in
          (
            id,
            refl,
            fresh,
            rw new (record {
              seen = λ c. ground (arith, includes-append p.seen_call_ids (id ∷ []) c, b.seen c);
              open_calls = λ c. ground (
                arith,
                map_get-map_set id c
                    (record { event_id = event.id; turn_id = t.turn_id; step_id = t.step_id })
                    p.pending,
                b.open_calls c,
                sub c,
                fresh,
                eq_iff id c,
              );
            }),
          )
    ]

if_field :
    {A : Type 0} (b : Bool) (f : Planning → A) (p q : Planning)
    → f p ≡ f q
    → f (if b then p else q) ≡ f q
if_field true f p q e = e
if_field false f p q e = refl

close_call-issues :
    (t : Topology) (event : CanonicalEvent) (id : String) (c : PendingToolCall) (p : Planning)
    → ((close_call t event id c p).seen_call_ids ≡ p.seen_call_ids)
      × ((close_call t event id c p).pending ≡ map_delete id p.pending)
unfolding close_call
close_call-issues t event id c p =
    let same = t.turn_id == c.turn_id && t.step_id == c.step_id in
    (
      if_field same (λ (z : Planning). z.seen_call_ids) _ _ refl,
      if_field same (λ (z : Planning). z.pending) _ _ refl,
    )

-- A result that raises no issue.
close_result_lem :
    (t : Topology) (event : CanonicalEvent) (given : Option String) (opened answered : List String)
    (p : Planning)
    → Books opened answered p
    → (close_result t event given p).issues ≡ []
    → (id : String) × (given ≡ some id)
      × (includes opened id ≡ true)
      × (includes answered id ≡ false)
      × Books opened (id ∷ answered) (close_result t event given p)
unfolding close_result meet_result
close_result_lem t event none opened answered p b e = absurd (concat_not_empty _ _ e)
close_result_lem t event (some id) opened answered p b e =
    elim (Option-cases (map_get id p.pending)) [
      | inl lost ↦ absurd (concat_not_empty p.issues _ (rw lost at e))
      | inr (c, found) ↦
          let (s, d) = close_call-issues t event id c p in
          let known = b.open_calls id in
          (
            id,
            refl,
            ground (arith, known, found),
            ground (arith, known, found),
            rw found (record {
              seen = λ i. ap (λ z. includes z i) s ∙ b.seen i;
              open_calls = λ i.
                  ap (λ z. is_some (map_get i z)) d
                  ∙ ground (
                    arith,
                    map_get-map_delete id i p.pending,
                    b.open_calls i,
                    known,
                    found,
                    eq_iff id i,
                  );
            }),
          )
    ]

-- What an event does to the books when it raises no issue.
pub track_tools-Answers :
    (phase : Phase) (t : Topology) (event : CanonicalEvent) (events : List CanonicalEvent)
    (p : Planning) (opened answered : List String)
    → phase_for_kind event.kind ≡ some phase
    → Books opened answered p
    → ((id : String) → includes answered id ≡ true → includes opened id ≡ true)
    → (track_tools phase t event p).issues ≡ []
    → ((o a : List String)
        → Books o a (track_tools phase t event p)
        → ((id : String) → includes a id ≡ true → includes o id ≡ true)
        → Answers o a events)
    → Answers opened answered (event ∷ events)
unfolding track_tools
track_tools-Answers Phase.tool_call t event events p opened answered e b sub empty rest =
    let counted = record p { tool_calls = p.tool_calls + 1 } in
    let (id, given, fresh, books) =
      open_call_lem t event (tool_call_id event) opened answered counted
        (Books-same opened answered p counted refl refl b) sub empty in
    call id e given fresh (rest (id ∷ opened) answered books λ i h. ground (arith, sub i))
track_tools-Answers Phase.tool_result t event events p opened answered e b sub empty rest =
    let (id, given, known, fresh, books) =
      close_result_lem t event (tool_call_id event) opened answered p b empty in
    result id e given known fresh
      (rest opened (id ∷ answered) books λ i h. ground (arith, sub i, known, eq_iff id i))
track_tools-Answers user t event events p opened answered e b sub empty rest =
    aside (ground (arith, e)) (rest opened answered b sub)
track_tools-Answers assistant t event events p opened answered e b sub empty rest =
    aside (ground (arith, e)) (rest opened answered b sub)
track_tools-Answers Phase.reasoning t event events p opened answered e b sub empty rest =
    aside (ground (arith, e)) (rest opened answered b sub)
