-- ===== src/Tests/Topology.antt =====
-- The topology of a short conversation: a question, a call of a tool with its result, and the answer.
use dsh_session_maintenance.Prelude.{
  ℕ, ◌≡◌, refl, String, List, [], ◌∷◌, map, keep, some, string_eq, Outcome, ok, thrown, Distinct,
  All, arith, map_get, map_set,
}
use dsh_session_maintenance.Contracts.Json.{Json, null, str, obj, field, end}
use dsh_session_maintenance.Contracts.Schemas.{id_schema}
use dsh_session_maintenance.Contracts.Canonical.{
  CanonicalEventKind, user_message, assistant_message, system_message, CanonicalEvent, Topology,
  parse_topology, topology_json, user, explicit, safe_integer,
}
use dsh_session_maintenance.Domain.Topology.{PlannedEvent, pending_step_key}
use dsh_session_maintenance.Domain.Topology.Planned.{
  eligible, ConversationTopologyPlan, plan_conversation_topology,
  with_planned_conversation_topology,
}
use dsh_session_maintenance.Domain.Topology.Kept.{
  IsKept, event_outline, is_conversational, plan_conversation_topology-IsKept,
}
use dsh_session_maintenance.Domain.Topology.Paired.{Answers}
use dsh_session_maintenance.Domain.Topology.Answered.{plan_conversation_topology-Answers}
use dsh_session_maintenance.Domain.Topology.Extension.{IsValid, parse_topology-topology_json}
use dsh_session_maintenance.Domain.Topology.Replan.{with_planned-plan_conversation_topology}

abbrev event : String → ℕ → CanonicalEventKind → Json → CanonicalEvent
event id n kind content = record {
  id = id;
  sequence = n;
  kind = kind;
  content = content;
  origin = null;
  extensions = [];
}

abbrev tool : Json
tool = obj (field "callId" (str "c1") end)

abbrev talk : List CanonicalEvent
talk =
    event "e1" 0 user_message null
    ∷ event "e2" 1 CanonicalEventKind.tool_call tool
    ∷ event "e3" 2 CanonicalEventKind.tool_result tool
    ∷ event "e4" 3 system_message null
    ∷ event "e5" 4 assistant_message null
    ∷ []

abbrev plan_of : Outcome ConversationTopologyPlan → ConversationTopologyPlan
plan_of (ok plan) = plan
plan_of (thrown e) = record {
  events = [];
  turns = [];
  status = eligible;
  reasons = [];
  diagnostics = record {
    input_event_count = 0;
    conversational_event_count = 0;
    unassigned_event_count = 0;
    turn_count = 0;
    step_count = 0;
    tool_call_count = 0;
    matched_tool_result_count = 0;
    orphan_tool_result_count = 0;
    unclosed_tool_call_count = 0;
    topology_conflict_count = 0;
  };
}

abbrev plan : ConversationTopologyPlan
plan = plan_of (plan_conversation_topology talk)

planned : plan_conversation_topology talk ≡ ok plan
unfolding plan_conversation_topology map_get
planned = refl

steps : plan.diagnostics.step_count ≡ 2
unfolding plan_conversation_topology map_get map_set pending_step_key
steps = refl

plan_conversation_topology-IsKept_example :
    IsKept (map event_outline (keep is_conversational talk)) plan.events plan.turns
plan_conversation_topology-IsKept_example = plan_conversation_topology-IsKept talk plan planned

may_continue : plan.status ≡ eligible
unfolding plan_conversation_topology map_get map_set pending_step_key
may_continue = refl

plan_conversation_topology-Answers_example : Answers [] [] talk
plan_conversation_topology-Answers_example =
    plan_conversation_topology-Answers talk plan planned may_continue

abbrev coordinates : Topology
coordinates = record {
  turn_id = "turn-1";
  turn_ordinal = 0;
  step_id = some "turn-1:step:0";
  step_ordinal = some 0;
  phase = user;
  inference = explicit;
}

coordinates-IsValid : IsValid coordinates
unfolding id_schema safe_integer
coordinates-IsValid = record {
  turn = refl;
  turn_ordinal = refl;
  step = refl;
  step_ordinal = refl;
  both = refl;
}

parse_topology-topology_json_example : parse_topology (topology_json coordinates) ≡ ok coordinates
parse_topology-topology_json_example = parse_topology-topology_json coordinates coordinates-IsValid

abbrev written_of : Outcome (List CanonicalEvent × ConversationTopologyPlan) → List CanonicalEvent
written_of (ok (events, _)) = events
written_of (thrown e) = []

abbrev written : List CanonicalEvent
written = written_of (with_planned_conversation_topology talk)

with_planned : with_planned_conversation_topology talk ≡ ok (written, plan)
unfolding with_planned_conversation_topology plan_conversation_topology map_get
with_planned = refl

planned-Distinct : Distinct (map (λ (e : PlannedEvent). e.event_id) plan.events)
unfolding plan_conversation_topology map_get map_set pending_step_key
planned-Distinct = ground arith

planned-IsValid : All (λ (e : PlannedEvent). IsValid e.topology) plan.events
unfolding plan_conversation_topology map_get map_set pending_step_key id_schema safe_integer
planned-IsValid = (
  record { turn = refl; turn_ordinal = refl; step = refl; step_ordinal = refl; both = refl },
  (
    record { turn = refl; turn_ordinal = refl; step = refl; step_ordinal = refl; both = refl },
    (
      record { turn = refl; turn_ordinal = refl; step = refl; step_ordinal = refl; both = refl },
      (
        record { turn = refl; turn_ordinal = refl; step = refl; step_ordinal = refl; both = refl },
        tt,
      ),
    ),
  ),
)

with_planned-plan_conversation_topology_example : plan_conversation_topology written ≡ ok plan
with_planned-plan_conversation_topology_example =
    with_planned-plan_conversation_topology talk written plan with_planned planned-Distinct
      planned-IsValid
