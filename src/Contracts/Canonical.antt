-- ===== src/Contracts/Canonical.antt =====
-- packages/contracts/src/canonical.ts: the canonical events of a session and the extension that
-- places an event in a turn and a step, with its schema of schemas.ts.
use dsh_session_maintenance.Prelude.{
  ℕ, String, Bool, true, ◌&&◌, List, [], ◌∷◌, Option, none, some, ◌==◌, string_eq, nat_eq, bool_eq,
  leb, is_some, includes, if◌then◌else◌, Outcome, ok, thrown, schema_error, ◌=>>◌, map_get,
}
use dsh_session_maintenance.Contracts.Json.{Json, null, num, str, obj, Fields, end, field}
use dsh_session_maintenance.Contracts.Schemas.{id_schema}

pub data CanonicalEventKind : Type 0 where
  user_message assistant_message system_message reasoning tool_call tool_result annotation sticker
        obsidian_reference attachment system_metadata other opaque_unknown :
      CanonicalEventKind

pub data Phase : Type 0 where
  user reasoning assistant tool_call tool_result : Phase

pub data Inference : Type 0 where
  explicit derived : Inference

pub record Topology : Type 0 where
  pub turn_id : String
  pub turn_ordinal : ℕ
  pub step_id : Option String
  pub step_ordinal : Option ℕ
  pub phase : Phase
  pub inference : Inference

-- Of an event, what the topology reads and what it has to keep; `origin` is the rest of the record.
pub record CanonicalEvent : Type 0 where
  pub id : String
  pub sequence : ℕ
  pub kind : CanonicalEventKind
  pub content : Json
  pub origin : Json
  pub extensions : List (String × Json)

unfoldable pub phase_text : Phase → String
phase_text user = "user"
phase_text Phase.reasoning = "reasoning"
phase_text assistant = "assistant"
phase_text Phase.tool_call = "tool-call"
phase_text Phase.tool_result = "tool-result"

unfoldable pub inference_text : Inference → String
inference_text explicit = "explicit"
inference_text derived = "derived"

-- `value[key]` of a JSON object.
unfoldable pub json_get : String → Fields → Option Json
json_get key end = none
json_get key (field k v rest) = if k == key then some v else json_get key rest

unfoldable pub has_only : List String → Fields → Bool
has_only keys end = true
has_only keys (field k v rest) = includes keys k && has_only keys rest

abbrev pub topology_keys : List String
topology_keys =
    "schemaVersion" ∷ "turnId" ∷ "turnOrdinal" ∷ "stepId" ∷ "stepOrdinal" ∷ "phase" ∷ "inference"
    ∷ []

unfoldable pub safe_integer : ℕ → Bool
safe_integer n = leb n 9007199254740991

unfoldable pub parse_version : Option Json → Outcome (Unit {0})
parse_version (some (num n)) = if n == 1 then ok tt else thrown schema_error
parse_version _ = thrown schema_error

unfoldable pub parse_id : Option Json → Outcome String
unfolding id_schema
parse_id (some (str s)) = if id_schema s then ok s else thrown schema_error
parse_id _ = thrown schema_error

unfoldable pub parse_ordinal : Option Json → Outcome ℕ
unfolding safe_integer
parse_ordinal (some (num n)) = if safe_integer n then ok n else thrown schema_error
parse_ordinal _ = thrown schema_error

-- `.nullable()`
unfoldable pub parse_nullable :
    {A : Type 0} → (Option Json → Outcome A) → Option Json → Outcome (Option A)
parse_nullable parse (some null) = ok none
parse_nullable parse value = parse value =>> λ a. ok (some a)

unfoldable pub phase_of : String → Option Phase
phase_of s =
    if s == "user"
    then some user
    else if s == "reasoning"
    then some Phase.reasoning
    else if s == "assistant"
    then some assistant
    else if s == "tool-call"
    then some Phase.tool_call
    else if s == "tool-result"
    then some Phase.tool_result
    else none

unfoldable pub inference_of : String → Option Inference
inference_of s =
    if s == "explicit" then some explicit else if s == "derived" then some derived else none

unfoldable pub parse_enum : {A : Type 0} → (String → Option A) → Option Json → Outcome A
parse_enum read (some (str s)) = elim (read s) [ none ↦ thrown schema_error | some a ↦ ok a ]
parse_enum read _ = thrown schema_error

-- `superRefine`: both of the step, or none.
unfoldable pub refine_topology : Topology → Outcome Topology
refine_topology t =
    if is_some t.step_id == is_some t.step_ordinal then ok t else thrown schema_error

-- `parseCanonicalConversationTopologyV1`
unfoldable pub parse_topology : Json → Outcome Topology
unfolding json_get has_only parse_version parse_id parse_ordinal parse_nullable phase_of
    inference_of parse_enum refine_topology
parse_topology (obj fields) =
    if has_only topology_keys fields
    then (parse_version (json_get "schemaVersion" fields) =>> λ version.
        parse_id (json_get "turnId" fields) =>> λ turn_id.
        parse_ordinal (json_get "turnOrdinal" fields) =>> λ turn_ordinal.
        parse_nullable parse_id (json_get "stepId" fields) =>> λ step_id.
        parse_nullable parse_ordinal (json_get "stepOrdinal" fields) =>> λ step_ordinal.
        parse_enum phase_of (json_get "phase" fields) =>> λ phase.
        parse_enum inference_of (json_get "inference" fields) =>> λ inference.
        refine_topology (record {
          turn_id = turn_id;
          turn_ordinal = turn_ordinal;
          step_id = step_id;
          step_ordinal = step_ordinal;
          phase = phase;
          inference = inference;
        }))
    else thrown schema_error
parse_topology _ = thrown schema_error

abbrev pub topology_extension : String
topology_extension = "mcsf.conversationTopology.v1"

unfoldable pub read_optional : Option Json → Outcome (Option Topology)
unfolding parse_topology
read_optional none = ok none
read_optional (some value) = parse_topology value =>> λ t. ok (some t)

-- `readCanonicalConversationTopologyV1`
unfoldable pub read_topology : CanonicalEvent → Outcome (Option Topology)
unfolding read_optional
read_topology event = read_optional (map_get topology_extension event.extensions)

unfoldable pub nullable : {A : Type 0} → (A → Json) → Option A → Json
nullable f none = null
nullable f (some a) = f a

-- The topology as the JSON value that it is in the source.
unfoldable pub topology_json : Topology → Json
unfolding nullable phase_text inference_text
topology_json t = obj (
    field "schemaVersion" (num 1) (
      field "turnId" (str t.turn_id) (
        field "turnOrdinal" (num t.turn_ordinal) (
          field "stepId" (nullable str t.step_id) (
            field "stepOrdinal" (nullable num t.step_ordinal) (
              field "phase" (str (phase_text t.phase))
                (field "inference" (str (inference_text t.inference)) end)))))))
