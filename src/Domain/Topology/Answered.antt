-- ===== src/Domain/Topology/Answered.antt =====
-- A session that may be continued has its calls of tools answered: the loop.
use dsh_session_maintenance.Prelude.{
  ◌≡◌, refl, sym, ap, ◌∙◌, inl, inr, subst, String, true, List, [], ◌∷◌, ◌++◌, map, arith,
  string_eq, option_eq, nat_eq, map_get, includes, length, length-append, ok, Outcome-cases,
}
use dsh_session_maintenance.Contracts.Canonical.{CanonicalEvent}
use dsh_session_maintenance.Domain.Topology.{Issue, PendingToolCall, Planning, start}
use dsh_session_maintenance.Domain.Topology.Place.{place}
use dsh_session_maintenance.Domain.Topology.Turns.{record_event}
use dsh_session_maintenance.Domain.Topology.Pass.{record_placed, plan_event, plan_events}
use dsh_session_maintenance.Domain.Topology.Frame.{place-Notes, noted, noted-Notes}
use dsh_session_maintenance.Domain.Topology.Round.{Round, plan_event-Round, record_placed_lem}
use dsh_session_maintenance.Domain.Topology.Planned.{
  eligible, status_of, all_issues, ConversationTopologyPlan, conclude, plan_conversation_topology,
  unclosed_issue,
}
use dsh_session_maintenance.Domain.Topology.Paired.{
  Answers, done, aside, Books, Books-same, append_empty, track_tools-Answers,
}

Round-Answers :
    (event : CanonicalEvent) (events : List CanonicalEvent) (p q : Planning)
    (opened answered : List String)
    → Books opened answered p
    → ((id : String) → includes answered id ≡ true → includes opened id ≡ true)
    → Round event p q
    → q.issues ≡ []
    → ((o a : List String)
        → Books o a q
        → ((id : String) → includes a id ≡ true → includes o id ≡ true)
        → Answers o a events)
    → Answers opened answered (event ∷ events)
unfolding record_placed record_event
Round-Answers event events p q opened answered b sub (inl (e, same)) empty rest =
    aside (ground (arith, e))
      (rest opened answered (subst (Books opened answered) (sym same) b) sub)
Round-Answers event events p q opened answered b sub (inr (phase, explicit, e, r, same)) empty
      rest =
    let at = place phase event p explicit in
    let n = noted-Notes event at.0 p at.1 (place-Notes phase event p explicit) in
    let before = record_event phase at.0 event (noted event at) in
    track_tools-Answers phase at.0 event events before opened answered e
      (Books-same opened answered p before n.seen n.pending b) sub
      (ap (λ (z : Planning). z.issues) (sym same) ∙ empty)
      λ o a books more. rest o a (subst (Books o a) (sym same) books) more

-- Issues stay.
plan_events_grow :
    (events : List CanonicalEvent) (p q : Planning)
    → plan_events events p ≡ ok q
    → q.issues ≡ []
    → p.issues ≡ []
unfolding plan_events
plan_events_grow [] p q h empty = ground (arith, h)
plan_events_grow (event ∷ events) p q h empty = elim (Outcome-cases (plan_event event p)) [
  | inr (bad, e) ↦ absurd (ground (arith, e))
  | inl (p', e) ↦
      let later = plan_events_grow events p' q (ground (arith, e)) empty in
      elim (plan_event-Round event p p' e) [
        | inl (k, same) ↦ ap (λ (z : Planning). z.issues) (sym same) ∙ later
        | inr (phase, explicit, k, r, same) ↦
            let at = place phase event p explicit in
            let (_, _, is, grown) =
              record_placed_lem phase event at.0 p at.1 (place-Notes phase event p explicit) in
            append_empty p.issues is
              (sym grown ∙ ap (λ (z : Planning). z.issues) (sym same) ∙ later)
      ]
]

plan_events-Answers :
    (events : List CanonicalEvent) (p q : Planning) (opened answered : List String)
    → Books opened answered p
    → ((id : String) → includes answered id ≡ true → includes opened id ≡ true)
    → plan_events events p ≡ ok q
    → q.issues ≡ []
    → q.pending ≡ []
    → Answers opened answered events
unfolding plan_events map_get
plan_events-Answers [] p q opened answered b sub h empty closed =
    let same : p ≡ q = ground arith in
    done λ id m. ground (
      arith,
      b.open_calls id,
      ap (λ z. map_get id z.pending) same,
      ap (λ z. map_get id z) closed,
      m,
    )
plan_events-Answers (event ∷ events) p q opened answered b sub h empty closed =
    elim (Outcome-cases (plan_event event p)) [
      | inr (bad, e) ↦ absurd (ground (arith, e))
      | inl (p', e) ↦
          let more : plan_events events p' ≡ ok q = ground (arith, e) in
          Round-Answers event events p p' opened answered b sub (plan_event-Round event p p' e)
            (plan_events_grow events p' q more empty)
            λ o a books less. plan_events-Answers events p' q o a books less more empty closed
    ]

status_of-eligible : (is : List Issue) → status_of is ≡ eligible → is ≡ []
unfolding status_of
status_of-eligible [] h = refl
status_of-eligible (i ∷ is) h = absurd (ground arith)

no_pending :
    (is : List Issue) (m : List (String × PendingToolCall))
    → is ++ map unclosed_issue m ≡ []
    → m ≡ []
no_pending is [] e = refl
no_pending is (x ∷ m) e =
    absurd (omega (arith, length-append is (map unclosed_issue (x ∷ m)), ap length e))

-- When the plan says that the conversation may be continued, its calls of tools and their results
-- fit: each call has an ID of its own, each result answers one earlier call, no call is answered
-- twice, and none is left without an answer.
pub plan_conversation_topology-Answers :
    (events : List CanonicalEvent) (plan : ConversationTopologyPlan)
    → plan_conversation_topology events ≡ ok plan
    → plan.status ≡ eligible
    → Answers [] [] events
unfolding plan_conversation_topology map_get
plan_conversation_topology-Answers events plan h s =
    elim (Outcome-cases (plan_events events start)) [
      | inr (bad, e) ↦ absurd (ground (arith, e))
      | inl (q, e) ↦
          let same : conclude events q ≡ plan = ground (arith, e) in
          let empty =
            status_of-eligible (all_issues q)
              (ap (λ (z : ConversationTopologyPlan). z.status) same ∙ s) in
          plan_events-Answers events start q [] []
            (record { seen = λ id. refl; open_calls = λ id. refl }) (λ id m. m) e
            (append_empty q.issues (map unclosed_issue q.pending) empty)
            (no_pending q.issues q.pending empty)
    ]
