-- ===== src/Domain/Topology/Planned.antt =====
-- The plan that `planConversationTopology` returns, and `withPlannedConversationTopology`.
use dsh_session_maintenance.Prelude.{
  ℕ, ◌+◌, ◌-◌, String, List, [], ◌∷◌, ◌++◌, map, Option, none, some, string_eq, length, map_get,
  map_set, Outcome, ok, ◌=>>◌,
}
use dsh_session_maintenance.Contracts.Canonical.{
  Topology, CanonicalEvent, topology_extension, topology_json,
}
use dsh_session_maintenance.Domain.Topology.{
  unclosed_tool_call, Issue, PlannedEvent, Turn, PendingToolCall, issue, Planning, start,
}
use dsh_session_maintenance.Domain.Topology.Pass.{plan_events}

pub data Eligibility : Type 0 where
  eligible blocked : Eligibility

pub record Diagnostics : Type 0 where
  pub input_event_count : ℕ
  pub conversational_event_count : ℕ
  pub unassigned_event_count : ℕ
  pub turn_count : ℕ
  pub step_count : ℕ
  pub tool_call_count : ℕ
  pub matched_tool_result_count : ℕ
  pub orphan_tool_result_count : ℕ
  pub unclosed_tool_call_count : ℕ
  pub topology_conflict_count : ℕ

pub record ConversationTopologyPlan : Type 0 where
  pub events : List PlannedEvent
  pub turns : List Turn
  pub status : Eligibility
  pub reasons : List Issue
  pub diagnostics : Diagnostics

unfoldable pub unclosed_issue : String × PendingToolCall → Issue
unclosed_issue (id, call) = issue unclosed_tool_call (call.event_id ∷ []) (some id)

unfoldable pub status_of : List Issue → Eligibility
status_of [] = eligible
status_of (i ∷ is) = blocked

-- The steps of the turns together.
unfoldable pub count_steps : List Turn → ℕ
count_steps [] = 0
count_steps (turn ∷ turns) = length turn.steps + count_steps turns

unfoldable pub all_issues : Planning → List Issue
unfolding unclosed_issue
all_issues p = p.issues ++ map unclosed_issue p.pending

-- What comes after the loop.
unfoldable pub conclude : List CanonicalEvent → Planning → ConversationTopologyPlan
unfolding all_issues status_of count_steps
conclude input p = record {
  events = p.planned;
  turns = p.turns;
  status = status_of (all_issues p);
  reasons = all_issues p;
  diagnostics = record {
    input_event_count = length input;
    conversational_event_count = length p.planned;
    unassigned_event_count = length input - length p.planned;
    turn_count = length p.turns;
    step_count = count_steps p.turns;
    tool_call_count = p.tool_calls;
    matched_tool_result_count = p.matched_results;
    orphan_tool_result_count = p.orphan_results;
    unclosed_tool_call_count = length p.pending + p.missing_call_ids;
    topology_conflict_count = p.conflicts;
  };
}

unfoldable pub plan_conversation_topology : List CanonicalEvent → Outcome ConversationTopologyPlan
unfolding conclude plan_events
plan_conversation_topology events = plan_events events start =>> λ p. ok (conclude events p)

-- `new Map(plan.events.map(...))`
unfoldable pub topology_by_id :
    List (String × Topology) → List PlannedEvent → List (String × Topology)
topology_by_id m [] = m
topology_by_id m (e ∷ es) = topology_by_id (map_set e.event_id e.topology m) es

unfoldable pub with_topology : CanonicalEvent → Option Topology → CanonicalEvent
with_topology event none = event
with_topology event (some t) = record event {
  extensions = map_set topology_extension (topology_json t) event.extensions;
}

unfoldable pub apply_topologies : List (String × Topology) → CanonicalEvent → CanonicalEvent
unfolding with_topology
apply_topologies m event = with_topology event (map_get event.id m)

unfoldable pub with_planned_conversation_topology :
    List CanonicalEvent → Outcome (List CanonicalEvent × ConversationTopologyPlan)
unfolding topology_by_id apply_topologies
with_planned_conversation_topology events = plan_conversation_topology events =>> λ plan.
    ok (map (apply_topologies (topology_by_id [] plan.events)) events, plan)
