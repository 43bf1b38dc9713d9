-- ===== src/Domain/Graph/Paths.antt =====
-- The lines of descent in a version graph, which the code's searches are measured by.
use dsh_session_maintenance.Prelude.{
  ℕ, suc, ◌≤◌, ◌<◌, ◌≡◌, String, true, List, [], ◌∷◌, none, some, ◌==◌, string_eq, includes, arith,
  eq_iff, length, Bool-cases, inl, inr, if◌then◌else◌, map_get, map_set, map_get-map_set, is_some,
}
use dsh_session_maintenance.Domain.Graph.{VersionNode, Nodes, find_node, has_node}

-- The node of the first ID names the second one.
abbrev pub Parent : Nodes → String → String → Type 0
Parent nodes child parent =
    (node : VersionNode) × (find_node child nodes ≡ some node)
    × (includes node.parents parent ≡ true)

-- So many steps from a node to an ancestor.
pub data Ancestry (nodes : Nodes) (start : String) : ℕ → String → Type 0 where
  here : Ancestry nodes start 0 start
  step :
      {n : ℕ} {child parent : String}
      → Ancestry nodes start n child
      → Parent nodes child parent
      → Ancestry nodes start (suc n) parent

-- Every parent is a node.
abbrev pub IsClosed : Nodes → Type 0
IsClosed nodes = (child parent : String) → Parent nodes child parent → has_node nodes parent ≡ true

pub includes_head : (p : String) (ps : List String) → includes (p ∷ ps) p ≡ true
includes_head p ps = ground (arith, eq_iff p p)

pub includes_tail :
    (p q : String) (ps : List String) → includes ps q ≡ true → includes (p ∷ ps) q ≡ true
includes_tail p q ps h = ground arith

pub find-has_node :
    (nodes : Nodes) (id : String)
    → has_node nodes id ≡ true
    → (node : VersionNode) × (find_node id nodes ≡ some node)
find-has_node [] id h = absurd (ground arith)
find-has_node (n ∷ nodes) id h = elim (Bool-cases (n.id == id)) [
  | inl e ↦ (n, ground (arith, e))
  | inr e ↦ let (m, p) = find-has_node nodes id (ground (arith, e)) in (m, ground (arith, e, p))
]

module _ {V : Type 0} where
  -- The nodes that the map has nothing for.
  abbrev pub unseen : Nodes → List (String × V) → ℕ
  unseen [] d = 0
  unseen (n ∷ nodes) d = if is_some (map_get n.id d) then unseen nodes d else suc (unseen nodes d)

  pub unseen-set-le :
      (nodes : Nodes) (d : List (String × V)) (id : String) (k : V)
      → unseen nodes (map_set id k d) ≤ unseen nodes d
  unseen-set-le [] d id k = omega arith
  unseen-set-le (n ∷ nodes) d id k =
      ground (arith, unseen-set-le nodes d id k, map_get-map_set id n.id k d)

  -- A first entry for a node leaves fewer.
  pub unseen-set :
      (nodes : Nodes) (d : List (String × V)) (id : String) (k : V)
      → has_node nodes id ≡ true
      → map_get id d ≡ none
      → unseen nodes (map_set id k d) < unseen nodes d
  unseen-set [] d id k h e = absurd (ground arith)
  unseen-set (n ∷ nodes) d id k h e = ground (
    arith,
    unseen-set nodes d id k,
    unseen-set-le nodes d id k,
    map_get-map_set id n.id k d,
    eq_iff n.id id,
    eq_iff id n.id,
  )

  pub unseen-le-length : (nodes : Nodes) (d : List (String × V)) → unseen nodes d ≤ length nodes
  unseen-le-length [] d = omega arith
  unseen-le-length (n ∷ nodes) d = ground (arith, unseen-le-length nodes d)
