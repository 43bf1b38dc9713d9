-- ===== src/Domain/Topology.antt =====
-- packages/session-domain/src/conversation-topology.ts: `planConversationTopology` gives each event
-- of a conversation its turn and step, and pairs the calls of tools with their results. The maps to
-- mutable turns and steps are the lists of these, found by ID; the highest turn ordinal, which
-- starts at -1, is kept as the next one.
pub mod Place
pub mod Turns
pub mod Tools
pub mod Pass
pub mod Planned
pub mod Frame
pub mod Filing
pub mod Round
pub mod Kept
pub mod Paired
pub mod Answered
pub mod Extension
pub mod Forget
pub mod Again
pub mod Replan
use Prim.Native.String as S
use dsh_session_maintenance.Prelude.{
  ℕ, zero, suc, ◌+◌, ◌-◌, ◌/◌, ◌%◌, String, Bool, true, false, not, ◌&&◌, ◌||◌, List, [], ◌∷◌, ◌++◌,
  map, Option, none, some, ◌==◌, string_eq, nat_eq, option_eq, list_eq, if◌then◌else◌, leb, ltb,
  is_some, includes, length, find, keep, map_get, map_set, Outcome, ok, thrown, ◌=>>◌,
}
use dsh_session_maintenance.Contracts.Json.{Json, str, obj}
use dsh_session_maintenance.Contracts.Canonical.{
  CanonicalEventKind, user_message, assistant_message, Phase, user, assistant, Inference, derived,
  Topology, CanonicalEvent, json_get, read_topology, phase_text, topology_extension, topology_json,
}
use dsh_session_maintenance.Domain.Text.{Text, codes}

pub data IssueCode : Type 0 where
  phase_mismatch turn_identity_conflict step_identity_conflict missing_tool_call_id
        missing_tool_result_id duplicate_tool_call_id orphan_tool_result unclosed_tool_call :
      IssueCode

pub record Issue : Type 0 where
  pub code : IssueCode
  pub event_ids : List String
  pub call_id : Option String

pub record PlannedEvent : Type 0 where
  pub event_id : String
  pub sequence : ℕ
  pub kind : CanonicalEventKind
  pub topology : Topology

pub record Step : Type 0 where
  pub step_id : String
  pub step_ordinal : ℕ
  pub event_ids : List String

pub record Turn : Type 0 where
  pub turn_id : String
  pub turn_ordinal : ℕ
  pub event_ids : List String
  pub steps : List Step

pub record Cursor : Type 0 where
  pub turn_id : String
  pub turn_ordinal : ℕ
  pub step_id : String
  pub step_ordinal : ℕ

pub record PendingToolCall : Type 0 where
  pub event_id : String
  pub turn_id : String
  pub step_id : Option String

unfoldable pub phase_for_kind : CanonicalEventKind → Option Phase
phase_for_kind user_message = some user
phase_for_kind CanonicalEventKind.reasoning = some Phase.reasoning
phase_for_kind assistant_message = some assistant
phase_for_kind CanonicalEventKind.tool_call = some Phase.tool_call
phase_for_kind CanonicalEventKind.tool_result = some Phase.tool_result
phase_for_kind _ = none

-- A string that is not empty.
unfoldable pub given_id : Option Json → Option String
given_id (some (str s)) = if s == "" then none else some s
given_id _ = none

unfoldable pub content_call_id : Json → Option String
unfolding given_id
content_call_id (obj fields) = given_id (json_get "callId" fields)
content_call_id _ = none

unfoldable pub tool_call_id : CanonicalEvent → Option String
unfolding content_call_id
tool_call_id event = content_call_id event.content

unfoldable pub digit : ℕ → String
digit d =
    if d == 0
    then "0"
    else if d == 1
    then "1"
    else if d == 2
    then "2"
    else if d == 3
    then "3"
    else if d == 4
    then "4"
    else if d == 5
    then "5"
    else if d == 6
    then "6"
    else if d == 7
    then "7"
    else if d == 8
    then "8"
    else "9"

unfoldable digits : ℕ → ℕ → String → String
unfolding digit
digits zero n acc = acc
digits (suc fuel) n acc =
    let longer = S.◌++◌ (digit (n % 10)) acc in
    let rest = digits fuel (n / 10) longer in if n / 10 == 0 then longer else rest

-- A number in a template string.
unfoldable pub number_text : ℕ → String
unfolding digits
number_text n = digits (suc n) n ""

-- `${turnId}:step:${stepOrdinal}`
unfoldable pub step_name : String → ℕ → String
unfolding number_text
step_name turn_id n = S.◌++◌ turn_id (S.◌++◌ ":step:" (number_text n))

unfoldable pub derived_turn : String → ℕ → Cursor
unfolding step_name
derived_turn event_id turn_ordinal = record {
  turn_id = S.◌++◌ "mcsf-turn:" event_id;
  turn_ordinal = turn_ordinal;
  step_id = step_name (S.◌++◌ "mcsf-turn:" event_id) 0;
  step_ordinal = 0;
}

unfoldable pub next_step : Cursor → Cursor
unfolding step_name
next_step cursor = record cursor {
  step_id = step_name cursor.turn_id (cursor.step_ordinal + 1);
  step_ordinal = cursor.step_ordinal + 1;
}

unfoldable pub derived_topology : Cursor → Phase → Topology
derived_topology cursor phase = record {
  turn_id = cursor.turn_id;
  turn_ordinal = cursor.turn_ordinal;
  step_id = some cursor.step_id;
  step_ordinal = some cursor.step_ordinal;
  phase = phase;
  inference = derived;
}

abbrev pub issue : IssueCode → List String → Option String → Issue
issue code event_ids call_id = record { code = code; event_ids = event_ids; call_id = call_id }

-- `pendingStepKey`: the two names with a zero between them.
abbrev pub StepKey : Type 0
StepKey = Text

unfoldable pub key_end : Option String → Text
key_end none = []
key_end (some step_id) = codes step_id

unfoldable pub pending_step_key : String → Option String → StepKey
unfolding key_end
pending_step_key turn_id step_id = codes turn_id ++ 0 ∷ key_end step_id

unfoldable pub is_model_phase : Phase → Bool
is_model_phase Phase.reasoning = true
is_model_phase assistant = true
is_model_phase Phase.tool_call = true
is_model_phase _ = false

unfoldable pub is_user : Phase → Bool
is_user user = true
is_user _ = false

-- What the loop keeps in variables; the turns are in the order in which they came up.
pub record Planning : Type 0 where
  pub planned : List PlannedEvent
  pub issues : List Issue
  pub turns : List Turn
  pub turn_ids_by_ordinal : List (ℕ × String)
  pub step_coordinates : List (String × (String × ℕ))
  pub pending : List (String × PendingToolCall)
  pub pending_by_step : List (StepKey × ℕ)
  pub steps_with_model_work : List StepKey
  pub seen_call_ids : List String
  pub cursor : Option Cursor
  pub next_turn_ordinal : ℕ
  pub advance : Bool
  pub tool_calls : ℕ
  pub missing_call_ids : ℕ
  pub matched_results : ℕ
  pub orphan_results : ℕ
  pub conflicts : ℕ

abbrev pub start : Planning
start = record {
  planned = [];
  issues = [];
  turns = [];
  turn_ids_by_ordinal = [];
  step_coordinates = [];
  pending = [];
  pending_by_step = [];
  steps_with_model_work = [];
  seen_call_ids = [];
  cursor = none;
  next_turn_ordinal = 0;
  advance = false;
  tool_calls = 0;
  missing_call_ids = 0;
  matched_results = 0;
  orphan_results = 0;
  conflicts = 0;
}

abbrev pub add_issue : Issue → Planning → Planning
add_issue i p = record p { issues = p.issues ++ i ∷ [] }

-- `addTopologyIssue`
abbrev pub add_conflict : Issue → Planning → Planning
add_conflict i p = record p { issues = p.issues ++ i ∷ []; conflicts = p.conflicts + 1 }
