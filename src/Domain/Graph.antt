-- ===== src/Domain/Graph.antt =====
-- packages/session-domain/src/graph.ts: the graph of versions, `VersionGraph` and `classifyHeads`.
-- A `Map` from IDs to nodes is the list of the nodes, each under its own ID. The loops take fuel:
-- the numbers of nodes that are given suffice (Shortest, Acyclic), and `other_error` without fuel is
-- not what the source throws.
pub mod Paths
pub mod Rounds
pub mod Shortest
pub mod Base
pub mod Acyclic
pub mod Build
pub mod Heads
use dsh_session_maintenance.Prelude.{
  ℕ, zero, suc, ◌+◌, String, Bool, true, not, ◌&&◌, ◌||◌, List, [], ◌∷◌, ◌++◌, Option, none, some,
  ◌==◌, string_eq, nat_eq, map, ◌=>>◌, if◌then◌else◌, ltb, length, find, any, all, is_some, set_of,
  map_get, map_set, Outcome, ok, thrown, type_error, other_error,
}
use dsh_session_maintenance.Domain.Text.{js_lt}

pub record VersionNode : Type 0 where
  pub id : String
  pub parents : List String

pub data HeadClassification : Type 0 where
  equal source_ahead target_ahead unrelated : HeadClassification
  diverged : String → HeadClassification

abbrev pub Nodes : Type 0
Nodes = List VersionNode

abbrev pub is_node : String → VersionNode → Bool
is_node id node = node.id == id

-- `byId.get(id)`
abbrev pub find_node : String → Nodes → Option VersionNode
find_node id nodes = find (is_node id) nodes

abbrev pub has_node : Nodes → String → Bool
has_node nodes id = any (is_node id) nodes

-- `requireNode`
unfoldable pub require_node : Nodes → String → Outcome VersionNode
require_node nodes id = elim (find_node id nodes) [ none ↦ thrown type_error | some node ↦ ok node ]

-- The tests on one node, in front of `byId.set`.
unfoldable pub is_refused : Nodes → VersionNode → Bool
is_refused by_id node =
    node.id == ""
    || ltb 2 (length node.parents)
    || not (length (set_of node.parents) == length node.parents)
    || has_node by_id node.id

-- The first loop of the constructor.
unfoldable pub add_nodes : Nodes → Nodes → Outcome Nodes
unfolding is_refused
add_nodes by_id [] = ok by_id
add_nodes by_id (node ∷ rest) =
    let more = add_nodes (by_id ++ node ∷ []) rest in
    if is_refused by_id node then thrown type_error else more

-- The second loop, over the nodes that are left to look at.
unfoldable pub has_parents : Nodes → Nodes → Bool
has_parents by_id nodes = all (λ node. all (has_node by_id) node.parents) nodes

pub data Mark : Type 0 where
  visiting visited : Mark

abbrev pub Marks : Type 0
Marks = List (String × Mark)

-- `for (const parent of ...) visit(parent)`
unfoldable pub visit_each : (String → Marks → Outcome Marks) → List String → Marks → Outcome Marks
visit_each visit [] state = ok state
visit_each visit (id ∷ ids) state = visit id state =>> visit_each visit ids

module _ (by_id : Nodes) where
  unfoldable pub finish : String → Outcome Marks → Outcome Marks
  finish id result = result =>> λ state. ok (map_set id visited state)

  unfoldable pub visit : ℕ → String → Marks → Outcome Marks
  unfolding require_node visit_each finish
  visit zero id state = thrown other_error
  visit (suc fuel) id state = elim (map_get id state) [
    | some visiting ↦ thrown type_error
    | some visited ↦ ok state
    | none ↦ require_node by_id id =>> λ node.
        finish id (visit_each (visit fuel) node.parents (map_set id visiting state))
  ]

-- The constructor.
unfoldable pub build : Nodes → Outcome Nodes
unfolding add_nodes has_parents
build nodes = add_nodes [] nodes =>> λ by_id.
    if has_parents by_id by_id
    then (visit_each (visit by_id (suc (length by_id))) (map (λ node. node.id) by_id) []
        =>> λ state. ok by_id)
    else thrown type_error

abbrev pub Distances : Type 0
Distances = List (String × ℕ)

-- `previous === undefined || candidate < previous`
unfoldable pub is_closer : ℕ → Option ℕ → Bool
is_closer candidate none = true
is_closer candidate (some previous) = ltb candidate previous

-- The distances, and the queue from the index on.
pub record Search : Type 0 where
  pub distances : Distances
  pub queue : List String

unfoldable pub relax : ℕ → String → Search → Search
unfolding is_closer
relax candidate parent s =
    if is_closer candidate (map_get parent s.distances)
    then record { distances = map_set parent candidate s.distances; queue = s.queue ++ parent ∷ [] }
    else s

unfoldable pub relax_each : ℕ → List String → Search → Search
relax_each candidate [] s = s
relax_each candidate (parent ∷ parents) s = relax_each candidate parents (relax candidate parent s)

module _ (nodes : Nodes) where
  -- One round of the loop, for the ID in front of the queue.
  unfoldable pub expand : String → Search → Outcome Search
  unfolding require_node relax_each
  expand id s = require_node nodes id =>> λ node. elim (map_get id s.distances) [
    | none ↦ ok s
    | some distance ↦ ok (relax_each (distance + 1) node.parents s)
  ]

  unfoldable pub loop : ℕ → Distances → List String → Outcome Distances
  loop fuel distances [] = ok distances
  loop zero distances (id ∷ queue) = thrown other_error
  loop (suc fuel) distances (id ∷ queue) =
      expand id (record { distances = distances; queue = queue }) =>> λ s.
      loop fuel s.distances s.queue

  unfoldable pub ancestor_distances : String → Outcome Distances
  unfolding require_node
  ancestor_distances start_id = require_node nodes start_id =>> λ node.
      loop (length nodes) ((start_id, 0) ∷ []) (start_id ∷ [])

  unfoldable pub is_ancestor : String → String → Outcome Bool
  unfolding require_node
  is_ancestor ancestor_id descendant_id = require_node nodes ancestor_id =>> λ a.
      require_node nodes descendant_id =>> λ d.
      ancestor_distances descendant_id =>> λ distances. ok (is_some (map_get ancestor_id distances))

-- A candidate for the merge base with the sum of its two distances.
abbrev pub Best : Type 0
Best = Option (String × ℕ)

unfoldable pub is_better : String → ℕ → Best → Bool
unfolding js_lt
is_better id distance none = true
is_better id distance (some (best_id, best_distance)) =
    ltb distance best_distance || (distance == best_distance && js_lt id best_id)

unfoldable pub better : String → ℕ → Option ℕ → Best → Best
unfolding is_better
better id left_distance none best = best
better id left_distance (some right_distance) best =
    if is_better id (left_distance + right_distance) best
    then some (id, left_distance + right_distance)
    else best

unfoldable pub merge_base : Distances → Distances → Best → Best
unfolding better
merge_base [] right best = best
merge_base ((id, left_distance) ∷ left) right best =
    merge_base left right (better id left_distance (map_get id right) best)

unfoldable pub best_id : Best → Option String
best_id none = none
best_id (some (id, distance)) = some id

unfoldable pub diverged_at : Option String → HeadClassification
diverged_at none = unrelated
diverged_at (some id) = diverged id

module _ (nodes : Nodes) where
  unfoldable pub find_merge_base : String → String → Outcome (Option String)
  unfolding best_id
  find_merge_base left_id right_id = ancestor_distances nodes left_id =>> λ left.
      ancestor_distances nodes right_id =>> λ right. ok (best_id (merge_base left right none))

  unfoldable pub classify_heads : String → String → Outcome HeadClassification
  unfolding diverged_at
  classify_heads source_id target_id =
      if source_id == target_id
      then (is_ancestor nodes source_id target_id =>> λ same. ok equal)
      else (is_ancestor nodes source_id target_id =>> λ behind.
          if behind
          then ok target_ahead
          else (is_ancestor nodes target_id source_id =>> λ ahead.
              if ahead
              then ok source_ahead
              else (find_merge_base source_id target_id =>> λ base. ok (diverged_at base))))
