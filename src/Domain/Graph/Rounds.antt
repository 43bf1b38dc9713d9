-- ===== src/Domain/Graph/Rounds.antt =====
-- One round of `ancestorDistances`: the distances that are there stay, since the queue is in the
-- order of the distances, and each parent has one afterwards.
use dsh_session_maintenance.Prelude.{
  ℕ, suc, ◌+◌, ◌≤◌, ◌≡◌, sym, subst, inl, inr, ◌⊎◌, String, true, List, [], ◌∷◌, ◌++◌, none, some,
  ◌==◌, string_eq, includes, arith, eq_iff, length, map_get, map_set, map_get-map_set, Option-cases,
  Bool-cases, length-append, includes-append, Distinct, keys, keys-map_set_fresh,
}
use dsh_session_maintenance.Domain.Graph.{Nodes, has_node, Distances, Search, relax, relax_each}
use dsh_session_maintenance.Domain.Graph.Paths.{
  Ancestry, unseen, unseen-set, includes_head, includes_tail,
}

-- The IDs have distances in this order, from the number on.
abbrev pub Rising : Distances → ℕ → List String → Type 0
Rising d lo [] = Unit
Rising d lo (id ∷ ids) = (k : ℕ) × (map_get id d ≡ some k) × (lo ≤ k) × Rising d k ids

Rising-concat :
    (d : Distances) (lo : ℕ) (ids : List String) (id : String) (c : ℕ)
    → lo ≤ c
    → ((i : String) (k : ℕ) → map_get i d ≡ some k → k ≤ c)
    → map_get id d ≡ none
    → Rising d lo ids
    → Rising (map_set id c d) lo (ids ++ id ∷ [])
Rising-concat d lo [] id c le bound fresh r =
    (c, ground (arith, map_get-map_set id id c d, eq_iff id id), le, tt)
Rising-concat d lo (i ∷ ids) id c le bound fresh (k, e, low, r) = (
  k,
  ground (arith, map_get-map_set id i c d, eq_iff id i),
  low,
  Rising-concat d k ids id c (bound i k e) bound fresh r,
)

module _ (nodes : Nodes) (start : String) where
  -- What holds of the distances and the queue while the nodes at one distance are looked at.
  pub record IsReady (k : ℕ) (s : Search) : Type 0 where
    pub distinct : Distinct (keys s.distances)
    pub started : map_get start s.distances ≡ some 0
    pub sound : (id : String) (n : ℕ) → map_get id s.distances ≡ some n → Ancestry nodes start n id
    pub known : (id : String) (n : ℕ) → map_get id s.distances ≡ some n → has_node nodes id ≡ true
    pub rising : Rising s.distances k s.queue
    pub bounded : (id : String) (n : ℕ) → map_get id s.distances ≡ some n → n ≤ suc k

  -- What a round leaves as it was.
  pub record Extends (s t : Search) : Type 0 where
    pub grows :
        (id : String) (n : ℕ) → map_get id s.distances ≡ some n → map_get id t.distances ≡ some n
    pub waits : (id : String) → includes s.queue id ≡ true → includes t.queue id ≡ true
    pub fresh :
        (id : String)
        → map_get id s.distances ≡ none
        → (map_get id t.distances ≡ none) ⊎ (includes t.queue id ≡ true)
    pub work : unseen nodes t.distances + length t.queue ≤ unseen nodes s.distances + length s.queue

  Extends-refl : (s : Search) → Extends s s
  Extends-refl s = record {
    grows = λ id n e. e;
    waits = λ id h. h;
    fresh = λ id e. inl e;
    work = omega arith;
  }

  Extends-trans : (s t u : Search) → Extends s t → Extends t u → Extends s u
  Extends-trans s t u f g = record {
    grows = λ id n e. g.grows id n (f.grows id n e);
    waits = λ id h. g.waits id (f.waits id h);
    fresh =
        λ id e. elim (f.fresh id e) [ inl none' ↦ g.fresh id none' | inr q ↦ inr (g.waits id q) ];
    work = omega (arith, f.work, g.work);
  }

  abbrev Relaxed : ℕ → String → Search → Search → Type 0
  Relaxed k parent s t =
      IsReady k t × Extends s t × (n : ℕ) × (map_get parent t.distances ≡ some n) × (n ≤ suc k)

  relax-Relaxed :
      (k : ℕ) (parent : String) (s : Search)
      → IsReady k s
      → Ancestry nodes start (suc k) parent
      → has_node nodes parent ≡ true
      → Relaxed k parent s (relax (suc k) parent s)
  unfolding relax
  relax-Relaxed k parent s r line there = elim (Option-cases (map_get parent s.distances)) [
    | inr (n, e) ↦
        let le = r.bounded parent n e in
        let same : relax (suc k) parent s ≡ s = ground (arith, e) in
        subst (Relaxed k parent s) (sym same) (r, Extends-refl s, n, e, le)
    | inl e ↦
        let added : Search = record {
          distances = map_set parent (suc k) s.distances;
          queue = s.queue ++ parent ∷ [];
        } in
        let same : relax (suc k) parent s ≡ added = ground (arith, e) in
        let get = λ (id : String). map_get-map_set parent id (suc k) s.distances in
        subst (Relaxed k parent s) (sym same) (
          record {
            distinct = keys-map_set_fresh parent (suc k) s.distances r.distinct e;
            started = ground (arith, r.started, get start, eq_iff parent start, e);
            sound = λ id n h. elim (Bool-cases (parent == id)) [
              | inl m ↦
                  let n_eq : suc k ≡ n = ground (arith, get id) in
                  let id_eq : parent ≡ id = ground (arith, eq_iff parent id) in
                  subst (λ x. Ancestry nodes start x id) n_eq
                    (subst (Ancestry nodes start (suc k)) id_eq line)
              | inr m ↦ r.sound id n (ground (arith, get id))
            ];
            known = λ id n h. ground (arith, r.known id n, get id, eq_iff parent id);
            rising =
                Rising-concat s.distances k s.queue parent (suc k) (omega arith) r.bounded e
                  r.rising;
            bounded = λ id n h. ground (arith, r.bounded id n, get id, eq_iff parent id);
          },
          record {
            grows = λ id n h. ground (arith, get id, eq_iff parent id);
            waits = λ id h. ground (arith, includes-append s.queue (parent ∷ []) id);
            fresh = λ id h.
                ground (arith, get id, eq_iff parent id, includes-append s.queue (parent ∷ []) id);
            work = omega (
              arith,
              unseen-set nodes s.distances parent (suc k) there e,
              length-append s.queue (parent ∷ []),
            );
          },
          suc k,
          ground (arith, get parent, eq_iff parent parent),
          omega arith,
        )
  ]

  pub relax_each_lem :
      (k : ℕ) (parents : List String) (s : Search)
      → IsReady k s
      → ((parent : String) → includes parents parent ≡ true → Ancestry nodes start (suc k) parent)
      → ((parent : String) → includes parents parent ≡ true → has_node nodes parent ≡ true)
      → IsReady k (relax_each (suc k) parents s)
        × Extends s (relax_each (suc k) parents s)
        × ((parent : String)
            → includes parents parent ≡ true
            → (n : ℕ) × (map_get parent (relax_each (suc k) parents s).distances ≡ some n)
              × (n ≤ suc k))
  unfolding relax_each
  relax_each_lem k [] s r line there = (r, Extends-refl s, λ parent h. absurd (ground arith))
  relax_each_lem k (p ∷ ps) s r line there =
      let here' = includes_head p ps in
      let (r', x, n, e, le) = relax-Relaxed k p s r (line p here') (there p here') in
      let s' = relax (suc k) p s in
      let (r2, y, rest) =
        relax_each_lem k ps s' r' (λ q h. line q (includes_tail p q ps h))
          λ q h. there q (includes_tail p q ps h) in
      (
        r2,
        Extends-trans s s' (relax_each (suc k) ps s') x y,
        λ q h. elim (Bool-cases (p == q)) [
          | inl m ↦
              let same : p ≡ q = ground (arith, eq_iff p q) in
              (n, y.grows q n (subst (λ i. map_get i s'.distances ≡ some n) same e), le)
          | inr m ↦ rest q (ground arith)
        ],
      )
