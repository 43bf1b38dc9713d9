-- ===== src/Domain/Topology/Extension.antt =====
-- The extension of an event that holds its topology can be read back.
use dsh_session_maintenance.Prelude.{
  ℕ, ◌≡◌, refl, String, Bool, true, Option, none, some, arith, string_eq, bool_eq, nat_eq, is_some,
  map_set, map_get-map_set, ok, eq_iff,
}
use dsh_session_maintenance.Contracts.Schemas.{id_schema}
use dsh_session_maintenance.Contracts.Json.{num, str}
use dsh_session_maintenance.Contracts.Canonical.{
  Phase, user, assistant, Inference, explicit, derived, Topology, CanonicalEvent, safe_integer,
  phase_text, inference_text, phase_of, inference_of, parse_enum, parse_id, parse_ordinal,
  parse_nullable, nullable, refine_topology, parse_topology, topology_json, topology_extension,
  read_topology,
}

abbrev pub is_given : Option String → Bool
is_given none = true
is_given (some s) = id_schema s

abbrev pub is_safe : Option ℕ → Bool
is_safe none = true
is_safe (some n) = safe_integer n

-- What the schema of a topology asks.
pub record IsValid (t : Topology) : Type 0 where
  pub turn : id_schema t.turn_id ≡ true
  pub turn_ordinal : safe_integer t.turn_ordinal ≡ true
  pub step : is_given t.step_id ≡ true
  pub step_ordinal : is_safe t.step_ordinal ≡ true
  pub both : is_some t.step_id ≡ is_some t.step_ordinal

parse_phase : (p : Phase) → parse_enum phase_of (some (str (phase_text p))) ≡ ok p
unfolding parse_enum phase_of phase_text
parse_phase user = refl
parse_phase assistant = refl
parse_phase Phase.reasoning = refl
parse_phase Phase.tool_call = refl
parse_phase Phase.tool_result = refl

parse_inference : (i : Inference) → parse_enum inference_of (some (str (inference_text i))) ≡ ok i
unfolding parse_enum inference_of inference_text
parse_inference explicit = refl
parse_inference derived = refl

parse_step :
    (s : Option String) → is_given s ≡ true → parse_nullable parse_id (some (nullable str s)) ≡ ok s
unfolding parse_nullable parse_id nullable
parse_step none h = refl
parse_step (some s) h = ground arith

parse_step_ordinal :
    (n : Option ℕ) → is_safe n ≡ true → parse_nullable parse_ordinal (some (nullable num n)) ≡ ok n
unfolding parse_nullable parse_ordinal nullable
parse_step_ordinal none h = refl
parse_step_ordinal (some n) h = ground arith

-- A topology that passes its schema is read back from the JSON value that it is written as.
pub parse_topology-topology_json :
    (t : Topology) → IsValid t → parse_topology (topology_json t) ≡ ok t
unfolding parse_topology topology_json parse_id parse_ordinal refine_topology
parse_topology-topology_json t v =
    let turn : parse_id (some (str t.turn_id)) ≡ ok t.turn_id = ground (arith, v.turn) in
    let ordinal : parse_ordinal (some (num t.turn_ordinal)) ≡ ok t.turn_ordinal =
      ground (arith, v.turn_ordinal) in
    let refined : refine_topology t ≡ ok t = ground (arith, v.both) in
    rw
      (
        turn,
        ordinal,
        parse_step t.step_id v.step,
        parse_step_ordinal t.step_ordinal v.step_ordinal,
        parse_phase t.phase,
        parse_inference t.inference,
      )
      refined

pub read_topology-map_set :
    (event : CanonicalEvent) (t : Topology)
    → IsValid t
    → read_topology (record event {
      extensions = map_set topology_extension (topology_json t) event.extensions;
    })
      ≡ ok (some t)
unfolding read_topology
read_topology-map_set event t v = ground (
  arith,
  map_get-map_set topology_extension topology_extension (topology_json t) event.extensions,
  parse_topology-topology_json t v,
  eq_iff topology_extension topology_extension,
)
