-- ===== src/Domain/Topology/Tools.antt =====
-- The calls of tools and their results.
use dsh_session_maintenance.Prelude.{
  ℕ, ◌+◌, ◌-◌, String, not, ◌&&◌, ◌||◌, List, [], ◌∷◌, ◌++◌, Option, none, some, ◌==◌, string_eq,
  nat_eq, option_eq, list_eq, if◌then◌else◌, includes, keep, map_get, map_set,
}
use dsh_session_maintenance.Contracts.Canonical.{Phase, Topology, CanonicalEvent}
use dsh_session_maintenance.Domain.Topology.{
  step_identity_conflict, missing_tool_call_id, missing_tool_result_id, duplicate_tool_call_id,
  orphan_tool_result, PendingToolCall, tool_call_id, issue, StepKey, pending_step_key, Planning,
  add_issue, add_conflict,
}

-- `m.delete(k)`
unfoldable pub map_delete : {V : Type 0} → String → List (String × V) → List (String × V)
map_delete k m = keep (λ e. not (e.0 == k)) m

unfoldable pub delete_key : StepKey → List (StepKey × ℕ) → List (StepKey × ℕ)
delete_key k m = keep (λ e. not (e.0 == k)) m

unfoldable pub count_at : ℕ → StepKey → List (StepKey × ℕ) → ℕ
count_at default key m = elim (map_get key m) [ none ↦ default | some n ↦ n ]

unfoldable pub open_call : Topology → CanonicalEvent → Option String → Planning → Planning
unfolding count_at
open_call t event none p =
    add_issue (issue missing_tool_call_id (event.id ∷ []) none)
      (record p { missing_call_ids = p.missing_call_ids + 1 })
open_call t event (some id) p =
    let key = pending_step_key t.turn_id t.step_id in
    if includes p.seen_call_ids id
    then add_issue (issue duplicate_tool_call_id (event.id ∷ []) (some id)) p
    else record p {
      seen_call_ids = p.seen_call_ids ++ id ∷ [];
      pending =
          map_set id (record { event_id = event.id; turn_id = t.turn_id; step_id = t.step_id })
            p.pending;
      pending_by_step = map_set key (count_at 0 key p.pending_by_step + 1) p.pending_by_step;
    }

unfoldable pub take_call : StepKey → ℕ → List (StepKey × ℕ) → List (StepKey × ℕ)
unfolding delete_key
take_call key remaining m = if remaining == 0 then delete_key key m else map_set key remaining m

unfoldable pub close_call :
    Topology → CanonicalEvent → String → PendingToolCall → Planning → Planning
unfolding take_call count_at map_delete
close_call t event id call p =
    let key = pending_step_key call.turn_id call.step_id in
    let remaining = count_at 1 key p.pending_by_step - 1 in
    let q = record p {
      pending = map_delete id p.pending;
      matched_results = p.matched_results + 1;
      pending_by_step = take_call key remaining p.pending_by_step;
    } in
    if t.turn_id == call.turn_id && t.step_id == call.step_id
    then record q { advance = remaining == 0 || q.advance }
    else add_conflict (issue step_identity_conflict (call.event_id ∷ event.id ∷ []) (some id)) q

unfoldable pub meet_result :
    Topology → CanonicalEvent → String → Option PendingToolCall → Planning → Planning
unfolding close_call
meet_result t event id none p =
    add_issue (issue orphan_tool_result (event.id ∷ []) (some id))
      (record p { orphan_results = p.orphan_results + 1 })
meet_result t event id (some call) p = close_call t event id call p

unfoldable pub close_result : Topology → CanonicalEvent → Option String → Planning → Planning
unfolding meet_result
close_result t event none p =
    add_issue (issue missing_tool_result_id (event.id ∷ []) none)
      (record p { orphan_results = p.orphan_results + 1 })
close_result t event (some id) p = meet_result t event id (map_get id p.pending) p

unfoldable pub track_tools : Phase → Topology → CanonicalEvent → Planning → Planning
unfolding open_call close_result tool_call_id
track_tools Phase.tool_call t event p =
    open_call t event (tool_call_id event) (record p { tool_calls = p.tool_calls + 1 })
track_tools Phase.tool_result t event p = close_result t event (tool_call_id event) p
track_tools _ t event p = p
