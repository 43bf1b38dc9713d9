-- ===== src/Domain/Graph/Heads.antt =====
-- `classifyHeads`: how the two heads of a session stand to each other.
use dsh_session_maintenance.Prelude.{
  ◌≡◌, ◌≢◌, inl, inr, String, Bool, true, false, Option, none, some, ◌==◌, string_eq, arith, eq_iff,
  beq→eq, Bool-cases, ok,
}
use dsh_session_maintenance.Domain.Graph.{
  Nodes, has_node, HeadClassification, equal, source_ahead, target_ahead, diverged, unrelated,
  diverged_at, classify_heads,
}
use dsh_session_maintenance.Domain.Graph.Paths.{IsClosed}
use dsh_session_maintenance.Domain.Graph.Shortest.{IsAncestor, is_ancestor_exact}
use dsh_session_maintenance.Domain.Graph.Base.{IsNearest, find_merge_base-IsNearest}

-- Two versions of which neither comes from the other.
abbrev AreApart : Nodes → String → String → Type 0
AreApart nodes s t = (s ≢ t) × (IsAncestor nodes s t → ⊥) × (IsAncestor nodes t s → ⊥)

-- What a classification says of the two heads.
abbrev pub Means : Nodes → String → String → HeadClassification → Type 0
Means nodes s t equal = s ≡ t
Means nodes s t target_ahead = (s ≢ t) × IsAncestor nodes s t
Means nodes s t source_ahead = (s ≢ t) × (IsAncestor nodes s t → ⊥) × IsAncestor nodes t s
Means nodes s t (diverged base) = AreApart nodes s t × IsNearest nodes s t (some base)
Means nodes s t unrelated = AreApart nodes s t × IsNearest nodes s t none

false-true : (b : Bool) → b ≡ false → b ≡ true → ⊥
false-true b h k = ground arith

apart :
    (nodes : Nodes) (s t : String) (m : Option String)
    → AreApart nodes s t
    → IsNearest nodes s t m
    → Means nodes s t (diverged_at m)
unfolding diverged_at
apart nodes s t none a n = (a, n)
apart nodes s t (some id) a n = (a, n)

-- Any two versions of a graph are classified, and the classification says how they stand: which of
-- them comes from the other, or which is their merge base, or that they have no common ancestor.
-- (Every parent in the graph is a node.)
pub classify_heads-Means :
    (nodes : Nodes)
    → IsClosed nodes
    → (source target : String) → has_node nodes source ≡ true
    → has_node nodes target ≡ true
    → (h : HeadClassification) × (classify_heads nodes source target ≡ ok h)
      × Means nodes source target h
unfolding classify_heads
classify_heads-Means nodes closed s t s_known t_known =
    let (behind, e, behind_iff) = is_ancestor_exact nodes closed s t s_known t_known in
    let (ahead, f, ahead_iff) = is_ancestor_exact nodes closed t s t_known s_known in
    let (m, g, nearest) = find_merge_base-IsNearest nodes closed s t s_known t_known in
    elim (Bool-cases (s == t)) [
      | inl same ↦ (equal, ground (arith, same, e), beq→eq s t same)
      | inr other ↦
          let differ : s ≢ t = λ p. ground (arith, eq_iff s t) in
          elim (Bool-cases behind) [
            | inl b ↦ (target_ahead, ground (arith, other, e, b), (differ, behind_iff.0 b))
            | inr b ↦
                let not_behind =
                  λ (a : IsAncestor nodes s t). false-true behind b (behind_iff.1 a) in
                elim (Bool-cases ahead) [
                  | inl a ↦ (
                    source_ahead,
                    ground (arith, other, e, b, f, a),
                    (differ, not_behind, ahead_iff.0 a),
                  )
                  | inr a ↦
                      let not_ahead =
                        λ (x : IsAncestor nodes t s). false-true ahead a (ahead_iff.1 x) in
                      (
                        diverged_at m,
                        ground (arith, other, e, b, f, a, g),
                        apart nodes s t m (differ, not_behind, not_ahead) nearest,
                      )
                ]
          ]
    ]
