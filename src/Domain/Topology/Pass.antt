-- ===== src/Domain/Topology/Pass.antt =====
-- The loop of `planConversationTopology`.
use dsh_session_maintenance.Prelude.{
  List, [], ◌∷◌, Option, none, some, string_eq, nat_eq, option_eq, list_eq, Outcome, ok, ◌=>>◌,
}
use dsh_session_maintenance.Contracts.Canonical.{Phase, Topology, CanonicalEvent, read_topology}
use dsh_session_maintenance.Domain.Topology.{phase_for_kind, Planning}
use dsh_session_maintenance.Domain.Topology.Place.{place}
use dsh_session_maintenance.Domain.Topology.Turns.{note_ordinal, note_turn, note_step, record_event}
use dsh_session_maintenance.Domain.Topology.Tools.{track_tools}

unfoldable pub record_placed : Phase → CanonicalEvent → Topology × Planning → Planning
unfolding note_ordinal note_turn note_step record_event track_tools
record_placed phase event (t, p) = track_tools phase t event (
    record_event phase t event
      (note_step t event t.step_id t.step_ordinal (note_turn t event (note_ordinal t event p))))

unfoldable pub plan_phase : CanonicalEvent → Planning → Option Phase → Outcome Planning
unfolding place record_placed read_topology
plan_phase event p none = ok p
plan_phase event p (some phase) = read_topology event =>> λ explicit.
    ok (record_placed phase event (place phase event p explicit))

-- The body of the loop.
unfoldable pub plan_event : CanonicalEvent → Planning → Outcome Planning
unfolding plan_phase phase_for_kind
plan_event event p = plan_phase event p (phase_for_kind event.kind)

unfoldable pub plan_events : List CanonicalEvent → Planning → Outcome Planning
unfolding plan_event
plan_events [] p = ok p
plan_events (event ∷ events) p = plan_event event p =>> plan_events events
