-- ===== src/Tests/Graph.antt =====
-- The version graph at a concrete input: two versions that come from one, and their merge.
use dsh_session_maintenance.Prelude.{
  ℕ, ◌≡◌, ◌⊎◌, ◌↔◌, refl, String, Bool, true, List, [], ◌∷◌, Option, some, string_eq, ok, thrown,
  type_error, map_get, map_set, set_of,
}
use dsh_session_maintenance.Domain.Graph.{
  visit_each, visit, loop, expand, relax, merge_base, has_parents, VersionNode, Nodes, Distances,
  HeadClassification, diverged, build, ancestor_distances, is_ancestor, find_merge_base,
  classify_heads,
}
use dsh_session_maintenance.Domain.Graph.Paths.{IsClosed}
use dsh_session_maintenance.Domain.Graph.Shortest.{
  IsDistance, IsAncestor, ancestor_distances_shortest, is_ancestor_exact,
}
use dsh_session_maintenance.Domain.Graph.Base.{IsNearest, find_merge_base-IsNearest}
use dsh_session_maintenance.Domain.Graph.Build.{IsVersionGraph, has_parents→IsClosed, build_exact}
use dsh_session_maintenance.Domain.Graph.Heads.{Means, classify_heads-Means}

abbrev node : String → List String → VersionNode
node id parents = record { id = id; parents = parents }

abbrev versions : Nodes
versions =
    node "root" []
    ∷ node "left" ("root" ∷ [])
    ∷ node "right" ("root" ∷ [])
    ∷ node "merge" ("left" ∷ "right" ∷ [])
    ∷ []

loop_refused : build (node "a" ("b" ∷ []) ∷ node "b" ("a" ∷ []) ∷ []) ≡ thrown type_error
unfolding build set_of visit_each visit map_get map_set
loop_refused = refl

heads_apart : classify_heads versions "left" "right" ≡ ok (diverged "root")
unfolding classify_heads is_ancestor ancestor_distances loop expand map_get relax map_set
    find_merge_base merge_base
heads_apart = refl

build_exact_example :
    (build versions ≡ ok versions) × IsVersionGraph versions
    ⊎ (build versions ≡ thrown type_error) × (IsVersionGraph versions → ⊥)
build_exact_example = build_exact versions

versions-IsClosed : IsClosed versions
unfolding has_parents
versions-IsClosed = has_parents→IsClosed versions refl

ancestor_distances_shortest_example :
    (d : Distances) × (ancestor_distances versions "merge" ≡ ok d)
    × ((id : String) (n : ℕ) → (map_get id d ≡ some n) ↔ IsDistance versions "merge" id n)
ancestor_distances_shortest_example =
    ancestor_distances_shortest versions versions-IsClosed "merge" refl

is_ancestor_exact_example :
    (b : Bool) × (is_ancestor versions "root" "merge" ≡ ok b)
    × ((b ≡ true) ↔ IsAncestor versions "root" "merge")
is_ancestor_exact_example = is_ancestor_exact versions versions-IsClosed "root" "merge" refl refl

find_merge_base-IsNearest_example :
    (m : Option String) × (find_merge_base versions "left" "right" ≡ ok m)
    × IsNearest versions "left" "right" m
find_merge_base-IsNearest_example =
    find_merge_base-IsNearest versions versions-IsClosed "left" "right" refl refl

classify_heads-Means_example :
    (h : HeadClassification) × (classify_heads versions "left" "right" ≡ ok h)
    × Means versions "left" "right" h
classify_heads-Means_example =
    classify_heads-Means versions versions-IsClosed "left" "right" refl refl
