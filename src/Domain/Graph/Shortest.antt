-- ===== src/Domain/Graph/Shortest.antt =====
-- `ancestorDistances` returns, and gives to each ancestor the length of the shortest line to it.
use dsh_session_maintenance.Prelude.{
  ℕ, zero, suc, ◌+◌, ◌≤◌, ◌≡◌, refl, sym, subst, ap, inl, inr, ◌⊎◌, ◌↔◌, String, Bool, true, List,
  [], ◌∷◌, some, ◌==◌, string_eq, includes, arith, eq_iff, length, map_get, map_set, is_some,
  Option-cases, Bool-cases, ok, Distinct, keys,
}
use dsh_session_maintenance.Domain.Graph.{
  VersionNode, Nodes, find_node, has_node, Distances, Search, relax_each, expand, loop,
  ancestor_distances, is_ancestor,
}
use dsh_session_maintenance.Domain.Graph.Paths.{
  Ancestry, here, step, IsClosed, find-has_node, unseen, unseen-set, unseen-le-length,
}
use dsh_session_maintenance.Domain.Graph.Rounds.{IsReady, relax_each_lem}

-- The length of a shortest line.
abbrev pub IsDistance : Nodes → String → String → ℕ → Type 0
IsDistance nodes start id n =
    Ancestry nodes start n id × ((m : ℕ) → Ancestry nodes start m id → n ≤ m)

-- The map holds the shortest distances to the ancestors, and no others.
pub record HasShortest (nodes : Nodes) (start : String) (d : Distances) : Type 0 where
  pub exact : (id : String) (n : ℕ) → (map_get id d ≡ some n) ↔ IsDistance nodes start id n
  pub reached :
      (m : ℕ) (id : String)
      → Ancestry nodes start m id
      → (n : ℕ) × (map_get id d ≡ some n) × (n ≤ m)
  pub distinct : Distinct (keys d)

module _ (nodes : Nodes) (start : String) where
  abbrev HasParents : Distances → ℕ → VersionNode → Type 0
  HasParents d n node =
      (p : String) → includes node.parents p ≡ true → (m : ℕ) × (map_get p d ≡ some m) × (m ≤ suc n)

  -- The loop's invariant, with a bound from below on the distances in the queue.
  record Inv (lo : ℕ) (d : Distances) (queue : List String) : Type 0 where
    ready : IsReady nodes start lo (record { distances = d; queue = queue })
    closed :
        (id : String) (n : ℕ) (node : VersionNode)
        → map_get id d ≡ some n
        → find_node id nodes ≡ some node
        → (includes queue id ≡ true) ⊎ HasParents d n node

  module _ (nodes_closed : IsClosed nodes) where
    expand_lem :
        (lo : ℕ) (d : Distances) (id : String) (queue : List String)
        → Inv lo d (id ∷ queue)
        → (k : ℕ) × (t : Search) × (expand nodes id (record { distances = d; queue = queue })
            ≡ ok t)
          × Inv k t.distances t.queue
          × (unseen nodes t.distances + length t.queue ≤ unseen nodes d + length queue)
    unfolding expand
    expand_lem lo d id queue v =
        let (k, e, low, rising) = v.ready.rising in
        let s : Search = record { distances = d; queue = queue } in
        let (node, found) = find-has_node nodes id (v.ready.known id k e) in
        let ready : IsReady nodes start k s = record {
          distinct = v.ready.distinct;
          started = v.ready.started;
          sound = v.ready.sound;
          known = v.ready.known;
          rising = rising;
          bounded = λ i n h. omega (arith, v.ready.bounded i n h);
        } in
        let (r, x, parents) =
          relax_each_lem nodes start k node.parents s ready
            (λ p h. step (v.ready.sound id k e) (node, found, h))
            λ p h. nodes_closed id p (node, found, h) in
        let t = relax_each (suc k) node.parents s in
        let plus : k + 1 ≡ suc k = omega arith in
        (
          k,
          t,
          ground (arith, found, e, plus),
          record {
            ready = r;
            closed = λ i n m h f. elim (Option-cases (map_get i d)) [
              | inl new ↦ elim (x.fresh i new) [
                | inl no' ↦ absurd (ground (arith, no', h))
                | inr q ↦ inl q
              ]
              | inr (n', old) ↦
                  let n_eq : n' ≡ n = ground (arith, x.grows i n' old) in
                  let kept : HasParents d n' m → HasParents t.distances n m =
                    λ ps p hp. (let (l, pe, le) = ps p hp in (l, x.grows p l pe, omega arith)) in
                  elim (v.closed i n' m old f) [
                    | inr ps ↦ inr (kept ps)
                    | inl q ↦ elim (Bool-cases (id == i)) [
                      | inr other ↦ inl (x.waits i (ground arith))
                      | inl same ↦
                          let i_eq : id ≡ i = ground (arith, eq_iff id i) in
                          let k_eq : k ≡ n = ground (arith, ap (λ z. map_get z d) i_eq) in
                          let m_eq : node ≡ m = ground (arith, ap (λ z. find_node z nodes) i_eq) in
                          inr λ p hp.
                            (let (l, pe, le) =
                                parents p
                                  (subst (λ z. includes z.parents p ≡ true) (sym m_eq) hp) in
                              (l, pe, omega arith))
                    ]
                  ]
            ];
          },
          x.work,
        )

    loop_lem :
        (fuel lo : ℕ) (d : Distances) (queue : List String)
        → Inv lo d queue
        → unseen nodes d + length queue ≤ fuel
        → (k : ℕ) × (d' : Distances) × (loop nodes fuel d queue ≡ ok d') × Inv k d' []
    unfolding loop
    loop_lem fuel lo d [] v h = (lo, d, refl, v)
    loop_lem zero lo d (id ∷ queue) v h = absurd (omega arith)
    loop_lem (suc fuel) lo d (id ∷ queue) v h =
        let (k, t, e, w, work) = expand_lem lo d id queue v in
        let (k', d', ends, u) = loop_lem fuel k t.distances t.queue w (omega arith) in
        (k', d', ground (arith, e, ends), u)

    -- At the end each ancestor has a distance, and no line to it is shorter.
    line_bound :
        (lo : ℕ) (d : Distances)
        → Inv lo d []
        → (m : ℕ) (id : String) → Ancestry nodes start m id
        → (n : ℕ) × (map_get id d ≡ some n) × (n ≤ m)
    line_bound lo d v m id here = (0, v.ready.started, omega arith)
    line_bound lo d v m id (step {n} {child} line (node, found, named)) =
        let (k, e, le) = line_bound lo d v n child line in
        elim (v.closed child k node e found) [
          | inl q ↦ absurd (ground arith)
          | inr ps ↦ let (l, pe, ple) = ps id named in (l, pe, omega arith)
        ]

    least_distance :
        (lo : ℕ) (d : Distances)
        → Inv lo d []
        → (id : String) (n : ℕ) → map_get id d ≡ some n
        → (m : ℕ) → Ancestry nodes start m id
        → n ≤ m
    least_distance lo d v id n e m line =
        let (k, ke, le) = line_bound lo d v m id line in
        let same : k ≡ n = ground (arith, ke, e) in omega arith

    distance_of :
        (lo : ℕ) (d : Distances)
        → Inv lo d []
        → (id : String) (n : ℕ) → IsDistance nodes start id n
        → map_get id d ≡ some n
    distance_of lo d v id n (line, least) =
        let (k, ke, le) = line_bound lo d v n id line in
        let ge = least k (v.ready.sound id k ke) in
        let same : k ≡ n = omega arith in ground (arith, ke, same)

    final_shortest :
        (lo : ℕ) (d : Distances)
        → Inv lo d []
        → (id : String) (n : ℕ) → (map_get id d ≡ some n) ↔ IsDistance nodes start id n
    final_shortest lo d v id n =
        (λ e. (v.ready.sound id n e, least_distance lo d v id n e), distance_of lo d v id n)

    pub ancestor_distances_lem :
        has_node nodes start ≡ true
        → (d : Distances) × (ancestor_distances nodes start ≡ ok d) × HasShortest nodes start d
    unfolding ancestor_distances map_get map_set
    ancestor_distances_lem known =
        let (node, found) = find-has_node nodes start known in
        let first : Distances = (start, 0) ∷ [] in
        let only = λ (id : String) (n : ℕ) (e : map_get id first ≡ some n).
          (let p : (start == id) ≡ true = ground arith in
            let q : 0 ≡ n = ground arith in
            let r : start ≡ id = ground (arith, eq_iff start id) in
            let both : (start ≡ id) × (0 ≡ n) = (r, q) in both) in
        let begin : Inv 0 first (start ∷ []) = record {
          ready = record {
            distinct = (refl, tt);
            started = ground (arith, eq_iff start start);
            sound = λ id n e.
                (let (p, q) = only id n e in
                  subst (λ z. Ancestry nodes start z id) q (subst (Ancestry nodes start 0) p here));
            known = λ id n e. subst (λ z. has_node nodes z ≡ true) (only id n e).0 known;
            rising = (0, ground (arith, eq_iff start start), omega arith, tt);
            bounded = λ id n e. omega (arith, (only id n e).1);
          };
          closed = λ id n m e f. inl (ground (arith, (only id n e).0, eq_iff start id));
        } in
        let (lo, d, ends, v) = loop_lem (length nodes) 0 first (start ∷ []) begin (
          omega (
            arith,
            unseen-set {V = ℕ} nodes [] start 0 known refl,
            unseen-le-length {V = ℕ} nodes [],
          )) in
        (
          d,
          ground (arith, found, ends),
          record {
            exact = final_shortest lo d v;
            reached = line_bound lo d v;
            distinct = v.ready.distinct;
          },
        )

-- Whether there is a line of descent.
abbrev pub IsAncestor : Nodes → String → String → Type 0
IsAncestor nodes ancestor_id descendant_id = (n : ℕ) × Ancestry nodes descendant_id n ancestor_id

pub found→IsAncestor :
    (nodes : Nodes) (d : String) (ds : Distances)
    → HasShortest nodes d ds
    → (a : String) → is_some (map_get a ds) ≡ true
    → IsAncestor nodes a d
found→IsAncestor nodes d ds h a found = elim (Option-cases (map_get a ds)) [
  | inl e ↦ absurd (ground (arith, e))
  | inr (n, e) ↦ (n, ((h.exact a n).0 e).0)
]

-- The search for the ancestors of a node returns, and an ID has a distance in it exactly when it is
-- an ancestor: then the distance is the length of the shortest line of descent. (Every parent in
-- the graph is a node.)
pub ancestor_distances_shortest :
    (nodes : Nodes)
    → IsClosed nodes
    → (start : String) → has_node nodes start ≡ true
    → (d : Distances) × (ancestor_distances nodes start ≡ ok d)
      × ((id : String) (n : ℕ) → (map_get id d ≡ some n) ↔ IsDistance nodes start id n)
ancestor_distances_shortest nodes closed start known =
    let (d, e, h) = ancestor_distances_lem nodes start closed known in (d, e, h.exact)

-- `is_ancestor` answers for any two nodes, and says exactly whether a line of descent leads from the
-- second to the first. (Every parent in the graph is a node.)
pub is_ancestor_exact :
    (nodes : Nodes)
    → IsClosed nodes
    → (ancestor_id descendant_id : String) → has_node nodes ancestor_id ≡ true
    → has_node nodes descendant_id ≡ true
    → (b : Bool) × (is_ancestor nodes ancestor_id descendant_id ≡ ok b)
      × ((b ≡ true) ↔ IsAncestor nodes ancestor_id descendant_id)
unfolding is_ancestor
is_ancestor_exact nodes closed a d a_known d_known =
    let (a_node, a_found) = find-has_node nodes a a_known in
    let (d_node, d_found) = find-has_node nodes d d_known in
    let (ds, e, h) = ancestor_distances_lem nodes d closed d_known in
    (
      is_some (map_get a ds),
      ground (arith, a_found, d_found, e),
      (
        found→IsAncestor nodes d ds h a,
        λ (n, line). (let (k, ke, le) = h.reached n a line in ground (arith, ke)),
      ),
    )
