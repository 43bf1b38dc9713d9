-- ===== src/Domain/Graph/Build.antt =====
-- The constructor of `VersionGraph`: which lists of nodes it takes.
use dsh_session_maintenance.Prelude.{
  suc, ◌≤◌, ◌≡◌, ◌≢◌, refl, sym, subst, ap, ◌∙◌, inl, inr, ◌⊎◌, String, true, false, List, [], ◌∷◌,
  ◌++◌, map, some, ◌==◌, string_eq, nat_eq, includes, arith, eq_iff, length, all, map_get, beq→eq,
  Bool-cases, ok, thrown, type_error, All, Distinct, set_of-Distinct, Distinct-of_length,
  fresh_of-Distinct, Distinct-concat, append-nil, append_assoc, includes-append,
}
use dsh_session_maintenance.Domain.Graph.{
  VersionNode, Nodes, has_node, find_node, is_refused, add_nodes, has_parents, Mark, visit, build,
}
use dsh_session_maintenance.Domain.Graph.Paths.{IsClosed, unseen-le-length}
use dsh_session_maintenance.Domain.Graph.Acyclic.{
  Cycle, IsFounded, first_step, founded_irrefl, visit_each_lem, visit_lem,
}

abbrev pub ids : Nodes → List String
ids nodes = map (λ node. node.id) nodes

-- A node by itself: it has an ID, and at most two parents, which differ.
abbrev pub IsNode : VersionNode → Type 0
IsNode node = (node.id ≢ "") × (length node.parents ≤ 2) × Distinct node.parents

-- A graph of versions.
pub record IsVersionGraph (nodes : Nodes) : Type 0 where
  pub each : All IsNode nodes
  pub distinct : Distinct (ids nodes)
  pub closed : IsClosed nodes
  pub acyclic : Cycle nodes → ⊥

has_node-ids : (nodes : Nodes) (id : String) → has_node nodes id ≡ includes (ids nodes) id
has_node-ids [] id = refl
has_node-ids (n ∷ nodes) id = ground (arith, has_node-ids nodes id)

ids-append : (a b : Nodes) → ids (a ++ b) ≡ ids a ++ ids b
ids-append [] b = refl
ids-append (n ∷ a) b = ap (λ z. n.id ∷ z) (ids-append a b)

-- What the tests on one node ask.
is_refused-false :
    (by_id : Nodes) (node : VersionNode)
    → is_refused by_id node ≡ false
    → IsNode node × (includes (ids by_id) node.id ≡ false)
unfolding is_refused
is_refused-false by_id node h = (
  (ground (arith, eq_iff node.id ""), ground arith, Distinct-of_length node.parents (ground arith)),
  ground (arith, has_node-ids by_id node.id),
)

is_refused-true :
    (by_id : Nodes) (node : VersionNode)
    → is_refused by_id node ≡ true
    → IsNode node
    → includes (ids by_id) node.id ≡ true
unfolding is_refused
is_refused-true by_id node h (named, few, differ) = ground (
  arith,
  eq_iff node.id "",
  ap length (set_of-Distinct node.parents differ),
  has_node-ids by_id node.id,
)

-- Those that are taken so far, and those that are left.
abbrev CanAdd : Nodes → Nodes → Type 0
CanAdd by_id nodes = All IsNode nodes × Distinct (ids by_id ++ ids nodes)

Distinct-prefix : (xs ys : List String) → Distinct (xs ++ ys) → Distinct xs
Distinct-prefix [] ys d = tt
Distinct-prefix (x ∷ xs) ys d =
    (ground (arith, d.0, includes-append xs ys x), Distinct-prefix xs ys d.1)

add_nodes_lem :
    (by_id nodes : Nodes)
    → Distinct (ids by_id)
    → (add_nodes by_id nodes ≡ ok (by_id ++ nodes)) × CanAdd by_id nodes
      ⊎ (add_nodes by_id nodes ≡ thrown type_error) × (CanAdd by_id nodes → ⊥)
unfolding add_nodes
add_nodes_lem by_id [] d =
    inl (ap ok (sym (append-nil by_id)), (tt, subst Distinct (sym (append-nil (ids by_id))) d))
add_nodes_lem by_id (node ∷ nodes) d = elim (Bool-cases (is_refused by_id node)) [
  | inl bad ↦ inr (
    ground (arith, bad),
    λ (each, distinct). ground (
      arith,
      is_refused-true by_id node bad each.0,
      fresh_of-Distinct (ids by_id) node.id (ids nodes) distinct,
    ),
  )
  | inr good ↦
      let (one, fresh) = is_refused-false by_id node good in
      let more = ids-append by_id (node ∷ []) in
      let all_ids : ids (by_id ++ node ∷ []) ++ ids nodes ≡ ids by_id ++ node.id ∷ ids nodes =
        ap (λ z. z ++ ids nodes) more ∙ append_assoc (ids by_id) (node.id ∷ []) (ids nodes) in
      elim (add_nodes_lem (by_id ++ node ∷ []) nodes
        (subst Distinct (sym more) (Distinct-concat (ids by_id) node.id d fresh))) [
          | inl (e, (each, distinct)) ↦ inl (
            ground (arith, good, e, append_assoc by_id (node ∷ []) nodes),
            ((one, each), subst Distinct all_ids distinct),
          )
          | inr (e, refuse) ↦ inr (
            ground (arith, good, e),
            λ (each, distinct). refuse (each.1, subst Distinct (sym all_ids) distinct),
          )
        ]
]

all-has_node :
    (nodes : Nodes) (ps : List String)
    → all (has_node nodes) ps ≡ true
    → (p : String) → includes ps p ≡ true
    → has_node nodes p ≡ true
all-has_node nodes [] h p m = absurd (ground arith)
all-has_node nodes (q ∷ ps) h p m = elim (Bool-cases (q == p)) [
  | inl same ↦ subst (λ z. has_node nodes z ≡ true) (beq→eq q p same) (ground arith)
  | inr other ↦ all-has_node nodes ps (ground arith) p (ground arith)
]

all-has_node_of :
    (nodes : Nodes) (ps : List String)
    → ((p : String) → includes ps p ≡ true → has_node nodes p ≡ true)
    → all (has_node nodes) ps ≡ true
all-has_node_of nodes [] h = refl
all-has_node_of nodes (q ∷ ps) h =
    ground
      (arith, h q (ground (arith, eq_iff q q)), all-has_node_of nodes ps λ p m. h p (ground arith))

has_parents-find :
    (nodes es : Nodes) (id : String) (node : VersionNode)
    → has_parents nodes es ≡ true
    → find_node id es ≡ some node
    → all (has_node nodes) node.parents ≡ true
unfolding has_parents
has_parents-find nodes [] id node h e = absurd (ground arith)
has_parents-find nodes (n ∷ es) id node h e = elim (Bool-cases (n.id == id)) [
  | inl same ↦
      let n_eq : n ≡ node = ground (arith, e, same) in
      subst (λ z. all (has_node nodes) z.parents ≡ true) n_eq (ground arith)
  | inr other ↦ has_parents-find nodes es id node (ground arith) (ground (arith, e, other))
]

pub has_parents→IsClosed : (nodes : Nodes) → has_parents nodes nodes ≡ true → IsClosed nodes
has_parents→IsClosed nodes h child parent (node, found, named) =
    all-has_node nodes node.parents (has_parents-find nodes nodes child node h found) parent named

-- Each of the nodes is the one that its ID finds.
abbrev AreFound : Nodes → Nodes → Type 0
AreFound nodes es = All (λ node. find_node node.id nodes ≡ some node) es

AreFound-later :
    (n : VersionNode) (nodes es : Nodes)
    → includes (ids es) n.id ≡ false
    → AreFound nodes es
    → AreFound (n ∷ nodes) es
AreFound-later n nodes [] h a = tt
AreFound-later n nodes (m ∷ es) h a = (
  ground (arith, a.0, eq_iff n.id m.id, eq_iff m.id n.id),
  AreFound-later n nodes es (ground arith) a.1,
)

AreFound-self : (nodes : Nodes) → Distinct (ids nodes) → AreFound nodes nodes
AreFound-self [] d = tt
AreFound-self (n ∷ nodes) d =
    (ground (arith, eq_iff n.id n.id), AreFound-later n nodes nodes d.0 (AreFound-self nodes d.1))

IsClosed→has_parents :
    (nodes es : Nodes) → AreFound nodes es → IsClosed nodes → has_parents nodes es ≡ true
unfolding has_parents
IsClosed→has_parents nodes [] a c = refl
IsClosed→has_parents nodes (n ∷ es) a c = ground (
  arith,
  all-has_node_of nodes n.parents λ p m. c n.id p (n, a.0, m),
  IsClosed→has_parents nodes es a.1 c,
)

has_node_of_find :
    (nodes : Nodes) (id : String) (node : VersionNode)
    → find_node id nodes ≡ some node
    → has_node nodes id ≡ true
has_node_of_find [] id node e = absurd (ground arith)
has_node_of_find (n ∷ nodes) id node e = ground (arith, has_node_of_find nodes id node)

-- All lines upwards end at visited versions, so that none is its own ancestor.
no-Cycle :
    (nodes : Nodes)
    → ((id : String) → includes (ids nodes) id ≡ true → IsFounded nodes id)
    → Cycle nodes
    → ⊥
no-Cycle nodes founded (id, n, line) =
    let (parent, (node, found, named), rest) = first_step nodes id n id line in
    founded_irrefl nodes id
      (founded id (sym (has_node-ids nodes id) ∙ has_node_of_find nodes id node found)) n line

-- The constructor takes exactly the graphs of versions, and throws a `TypeError` for any other list
-- of nodes: it returns for every input.
pub build_exact :
    (nodes : Nodes)
    → (build nodes ≡ ok nodes) × IsVersionGraph nodes
      ⊎ (build nodes ≡ thrown type_error) × (IsVersionGraph nodes → ⊥)
unfolding build map_get
build_exact nodes = elim (add_nodes_lem [] nodes tt) [
  | inr (e, refuse) ↦ inr (ground (arith, e), λ g. refuse (g.each, g.distinct))
  | inl (e, (each, distinct)) ↦ elim (Bool-cases (has_parents nodes nodes)) [
    | inr lost ↦ inr (
      ground (arith, e, lost),
      λ g. ground (arith, IsClosed→has_parents nodes nodes (AreFound-self nodes distinct) g.closed),
    )
    | inl kept ↦
        let closed = has_parents→IsClosed nodes kept in
        elim (visit_each_lem nodes (suc (length nodes)) (visit nodes (suc (length nodes)))
          (visit_lem nodes closed (suc (length nodes))) (ids nodes) []
          (λ id h. has_node-ids nodes id ∙ h) (λ id h. absurd (ground arith))
          (λ id h i m. absurd (ground arith))
          (omega (arith, unseen-le-length {V = Mark} nodes []))) [
            | inl (t, c) ↦ inr (ground (arith, e, kept, t), λ g. g.acyclic c)
            | inr (st, t, done, keeps, seen) ↦ inl (
              ground (arith, e, kept, t),
              record {
                each = each;
                distinct = distinct;
                closed = closed;
                acyclic = no-Cycle nodes λ id h. done id (seen id h);
              },
            )
          ]
  ]
]
