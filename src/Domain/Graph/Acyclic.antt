-- ===== src/Domain/Graph/Acyclic.antt =====
-- The walk of the constructor: it returns, and throws exactly when a version is its own ancestor.
use mathlib.Core.WellFounded.{Acc}
use dsh_session_maintenance.Prelude.{
  ℕ, zero, suc, ◌≤◌, ◌<◌, ◌≡◌, refl, subst, ap, inl, inr, ◌⊎◌, String, true, List, [], ◌∷◌, none,
  some, ◌==◌, string_eq, includes, arith, eq_iff, map_get, map_set, map_get-map_set, beq→eq,
  Option-cases, Bool-cases, Outcome, ok, thrown, type_error,
}
use dsh_session_maintenance.Domain.Graph.{
  VersionNode, Nodes, has_node, require_node, find_node, Mark, visiting, visited, Marks, visit_each,
  finish, visit,
}
use dsh_session_maintenance.Domain.Graph.Paths.{
  Parent, Ancestry, here, step, IsClosed, find-has_node, unseen, unseen-set, unseen-set-le,
  includes_head, includes_tail,
}

-- A version that is its own ancestor.
abbrev pub Cycle : Nodes → Type 0
Cycle nodes = (id : String) × (n : ℕ) × Ancestry nodes id (suc n) id

-- All lines upwards from the version end.
abbrev pub IsFounded : Nodes → String → Type 0
IsFounded nodes = Acc (λ parent child. Parent nodes child parent)

-- A line of one step or more, from its first step on.
pub first_step :
    (nodes : Nodes) (id : String) (n : ℕ) (to : String)
    → Ancestry nodes id (suc n) to
    → (parent : String) × Parent nodes id parent × Ancestry nodes parent n to
first_step nodes id zero to (step here p) = (to, p, here)
first_step nodes id (suc n) to (step line p) =
    let (parent, q, rest) = first_step nodes id n _ line in (parent, q, step rest p)

pub founded_irrefl :
    (nodes : Nodes) (id : String) → IsFounded nodes id → (n : ℕ) → Ancestry nodes id (suc n) id → ⊥
founded_irrefl nodes id (Acc.intro i below) n line =
    let (parent, p, rest) = first_step nodes id n id line in
    founded_irrefl nodes parent (below parent p) n (step rest p)

module _ (nodes : Nodes) where
  -- What is left behind is founded.
  abbrev pub IsDone : Marks → Type 0
  IsDone st = (id : String) → map_get id st ≡ some visited → IsFounded nodes id

  -- The IDs that are being visited are below this one.
  abbrev pub IsBelow : Marks → String → Type 0
  IsBelow st id =
      (i : String) → map_get i st ≡ some visiting → (n : ℕ) × Ancestry nodes i (suc n) id

  pub record Keeps (s t : Marks) : Type 0 where
    pub grows : (id : String) (m : Mark) → map_get id s ≡ some m → map_get id t ≡ some m
    pub leaves : (id : String) → map_get id t ≡ some visiting → map_get id s ≡ some visiting
    pub work : unseen nodes t ≤ unseen nodes s

  Keeps-refl : (s : Marks) → Keeps s s
  Keeps-refl s = record { grows = λ id m e. e; leaves = λ id e. e; work = omega arith }

  Keeps-trans : (s t u : Marks) → Keeps s t → Keeps t u → Keeps s u
  Keeps-trans s t u f g = record {
    grows = λ id m e. g.grows id m (f.grows id m e);
    leaves = λ id e. f.leaves id (g.leaves id e);
    work = omega (arith, f.work, g.work);
  }

  -- How a walk ends that has visited these IDs.
  abbrev pub Walked : (String → Type 0) → Marks → Outcome Marks → Type 0
  Walked P st result =
      ((result ≡ thrown type_error) × Cycle nodes)
      ⊎ ((t : Marks) × (result ≡ ok t)
          × IsDone t
          × Keeps st t
          × ((id : String) → P id → map_get id t ≡ some visited))

  abbrev pub Visits : ℕ → (String → Marks → Outcome Marks) → Type 0
  Visits fuel f =
      (id : String) (st : Marks)
      → has_node nodes id ≡ true
      → IsDone st
      → IsBelow st id
      → unseen nodes st < fuel
      → Walked (λ i. i ≡ id) st (f id st)

  pub visit_each_lem :
      (fuel : ℕ) (f : String → Marks → Outcome Marks)
      → Visits fuel f
      → (ids : List String) (st : Marks)
      → ((id : String) → includes ids id ≡ true → has_node nodes id ≡ true)
      → IsDone st
      → ((id : String) → includes ids id ≡ true → IsBelow st id)
      → unseen nodes st < fuel
      → Walked (λ i. includes ids i ≡ true) st (visit_each f ids st)
  unfolding visit_each
  visit_each_lem fuel f v [] st known done below work =
      inr (st, refl, done, Keeps-refl st, λ id h. absurd (ground arith))
  visit_each_lem fuel f v (id ∷ ids) st known done below work =
      let first = includes_head id ids in
      elim (v id st (known id first) done (below id first) work) [
        | inl (e, c) ↦ inl (ground (arith, e), c)
        | inr (t, e, t_done, kept, seen) ↦
            elim (visit_each_lem fuel f v ids t (λ i h. known i (includes_tail id i ids h)) t_done
              (λ i h j m. below i (includes_tail id i ids h) j (kept.leaves j m))
              (omega (arith, kept.work))) [
                | inl (e2, c) ↦ inl (ground (arith, e, e2), c)
                | inr (u, e2, u_done, kept2, seen2) ↦ inr (
                  u,
                  ground (arith, e, e2),
                  u_done,
                  Keeps-trans st t u kept kept2,
                  λ i h. elim (Bool-cases (id == i)) [
                    | inl same ↦ kept2.grows i visited (seen i (ground (arith, eq_iff id i)))
                    | inr other ↦ seen2 i (ground arith)
                  ],
                )
              ]
      ]

  module _ (closed : IsClosed nodes) where
    -- The marks that a finished walk over the parents leaves.
    finish_lem :
        (id : String) (node : VersionNode) (st u : Marks)
        → find_node id nodes ≡ some node
        → map_get id st ≡ none
        → unseen nodes (map_set id visiting st) ≤ unseen nodes st
        → IsDone u
        → Keeps (map_set id visiting st) u
        → ((i : String) → includes node.parents i ≡ true → map_get i u ≡ some visited)
        → IsDone (map_set id visited u)
          × Keeps st (map_set id visited u)
          × ((i : String) → i ≡ id → map_get i (map_set id visited u) ≡ some visited)
    finish_lem id node st u found new less u_done kept seen =
        let get = λ (i : String). map_get-map_set id i visited u in
        let before = λ (i : String). map_get-map_set id i visiting st in
        let founded : IsFounded nodes id = Acc.intro id λ p h.
          (let (m, f, named) = h in
            let same : m ≡ node = ground (arith, f, found) in
            u_done p (seen p (subst (λ z. includes z.parents p ≡ true) same named))) in
        (
          λ i h. elim (Bool-cases (id == i)) [
            | inl same ↦ subst (IsFounded nodes) (beq→eq id i same) founded
            | inr other ↦ u_done i (ground (arith, get i, other))
          ],
          record {
            grows = λ i m h. ground (arith, get i, before i, kept.grows i m, eq_iff id i, new, h);
            leaves = λ i h. ground (arith, get i, before i, kept.leaves i);
            work = omega (arith, unseen-set-le nodes u id visited, kept.work);
          },
          λ i e. ground (arith, get i, eq_iff id i),
        )

    IsBelow-parents :
        (id : String) (node : VersionNode) (st : Marks)
        → find_node id nodes ≡ some node
        → IsBelow st id
        → (p : String) → includes node.parents p ≡ true
        → IsBelow (map_set id visiting st) p
    IsBelow-parents id node st found below p named i m = elim (Bool-cases (id == i)) [
      | inl same ↦
          let up : Parent nodes i p =
            subst (λ z. Parent nodes z p) (beq→eq id i same) (node, found, named) in
          (0, step here up)
      | inr other ↦
          let (n, line) = below i (ground (arith, map_get-map_set id i visiting st, other)) in
          (suc n, step line (node, found, named))
    ]

    pub visit_lem : (fuel : ℕ) → Visits fuel (visit nodes fuel)
    unfolding visit finish require_node
    visit_lem zero id st known done below work = absurd (omega arith)
    visit_lem (suc fuel) id st known done below work =
        let (node, found) = find-has_node nodes id known in
        elim (Option-cases (map_get id st)) [
          | inr (visiting, e) ↦
              inl (ground (arith, e), (let (n, line) = below id e in (id, n, line)))
          | inr (visited, e) ↦ inr (
            st,
            ground (arith, e),
            done,
            Keeps-refl st,
            λ i same. ground (arith, ap (λ z. map_get z st) same, e),
          )
          | inl new ↦
              let get = λ (i : String). map_get-map_set id i visiting st in
              let fewer = unseen-set nodes st id visiting known new in
              elim (visit_each_lem fuel (visit nodes fuel) (visit_lem fuel) node.parents
                (map_set id visiting st) (λ p named. closed id p (node, found, named))
                (λ i h. done i (ground (arith, get i))) (IsBelow-parents id node st found below)
                (omega (arith, fewer))) [
                  | inl (e, c) ↦ inl (ground (arith, new, found, e), c)
                  | inr (u, e, u_done, kept, seen) ↦
                      let (a, b, c) =
                        finish_lem id node st u found new (omega (arith, fewer)) u_done kept seen in
                      inr (map_set id visited u, ground (arith, new, found, e), a, b, c)
                ]
        ]
