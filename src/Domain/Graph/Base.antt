-- ===== src/Domain/Graph/Base.antt =====
-- `findMergeBase`: the common ancestor that is nearest to the two versions.
use dsh_session_maintenance.Prelude.{
  ℕ, ◌+◌, ◌≤◌, ◌≡◌, refl, sym, subst, ap, ◌∙◌, inl, inr, ◌⊎◌, String, true, false, List, [], ◌∷◌,
  Option, none, some, ◌==◌, string_eq, nat_eq, arith, eq_iff, map_get, Option-cases, Bool-cases, ok,
  All, All-entries,
}
use dsh_session_maintenance.Domain.Text.{js_lt, units_lt, utf16, codes}
use dsh_session_maintenance.Domain.Graph.Paths.{IsClosed}
use dsh_session_maintenance.Domain.Graph.Shortest.{
  IsDistance, IsAncestor, HasShortest, ancestor_distances_lem,
}
use dsh_session_maintenance.Domain.Graph.{
  Nodes, has_node, Distances, Best, is_better, better, merge_base, best_id, find_merge_base,
}

units_lt_irrefl : (a : List ℕ) → units_lt a a ≡ false
unfolding units_lt
units_lt_irrefl [] = refl
units_lt_irrefl (x ∷ a) = ground (arith, units_lt_irrefl a)

units_lt_trans : (a b c : List ℕ) → units_lt a b ≡ true → units_lt b c ≡ true → units_lt a c ≡ true
unfolding units_lt
units_lt_trans [] [] c h k = ground arith
units_lt_trans [] (y ∷ b) [] h k = ground arith
units_lt_trans [] (y ∷ b) (z ∷ c) h k = refl
units_lt_trans (x ∷ a) [] c h k = ground arith
units_lt_trans (x ∷ a) (y ∷ b) [] h k = ground arith
units_lt_trans (x ∷ a) (y ∷ b) (z ∷ c) h k = ground (arith, units_lt_trans a b c)

js_lt_irrefl : (s : String) → js_lt s s ≡ false
unfolding js_lt
js_lt_irrefl s = units_lt_irrefl (utf16 (codes s))

js_lt_trans : (s t u : String) → js_lt s t ≡ true → js_lt t u ≡ true → js_lt s u ≡ true
unfolding js_lt
js_lt_trans s t u = units_lt_trans (utf16 (codes s)) (utf16 (codes t)) (utf16 (codes u))

is_better_irrefl : (s : String) (n : ℕ) → is_better s n (some (s, n)) ≡ false
unfolding is_better
is_better_irrefl s n = ground (arith, js_lt_irrefl s)

-- What does not beat the best so far does not beat one that is better.
is_better_trans :
    (s t u : String) (n m l : ℕ)
    → is_better s n (some (t, m)) ≡ false
    → is_better u l (some (t, m)) ≡ true
    → is_better s n (some (u, l)) ≡ false
unfolding is_better
is_better_trans s t u n m l h k = ground (arith, js_lt_trans s u t)

module _ (left right : Distances) where
  -- The ID has a distance on both sides, with this sum.
  abbrev pub IsCommon : String → ℕ → Type 0
  IsCommon id n =
      (l : ℕ) × (r : ℕ) × (map_get id left ≡ some l) × (map_get id right ≡ some r) × (n ≡ l + r)

  abbrev Came : Best → Best → Type 0
  Came before b = (b ≡ before) ⊎ ((id : String) × (n : ℕ) × (b ≡ some (id, n)) × IsCommon id n)

  -- Nothing in the entries beats it.
  abbrev Beats : Best → Distances → Type 0
  Beats b [] = Unit
  Beats b ((id, l) ∷ es) =
      ((r : ℕ) → map_get id right ≡ some r → is_better id (l + r) b ≡ false) × Beats b es

  -- What the first does not let beat it, the second does not either.
  abbrev Passes : Best → Best → Type 0
  Passes before b = (id : String) (n : ℕ) → is_better id n before ≡ false → is_better id n b ≡ false

  Passes-better : (id : String) (l : ℕ) (r : Option ℕ) (b : Best) → Passes b (better id l r b)
  unfolding better is_better
  Passes-better id l none b s n h = h
  Passes-better id l (some r) none s n h = ground arith
  Passes-better id l (some r) (some (t, m)) s n h =
      ground (arith, is_better_trans s t id n m (l + r))

  better_beaten :
      (id : String) (l r : ℕ) (b : Best) → is_better id (l + r) (better id l (some r) b) ≡ false
  unfolding better is_better
  better_beaten id l r none = is_better_irrefl id (l + r)
  better_beaten id l r (some (t, m)) = ground (arith, is_better_irrefl id (l + r))

  Came-better :
      (id : String) (l : ℕ) (b : Best)
      → map_get id left ≡ some l
      → Came b (better id l (map_get id right) b)
  unfolding better
  Came-better id l b e = elim (Option-cases (map_get id right)) [
    | inl no' ↦ inl (rw no')
    | inr (r, yes') ↦ elim (Bool-cases (is_better id (l + r) b)) [
      | inl wins ↦ inr (id, l + r, rw (yes', wins), (l, r, e, yes', refl))
      | inr loses ↦ inl (rw (yes', loses))
    ]
  ]

  Came-trans : (a b c : Best) → Came a b → Came b c → Came a c
  Came-trans a b c h (inr k) = inr k
  Came-trans a b c h (inl e) = subst (Came a) (sym e) h

  merge_base_lem :
      (es : Distances) (b : Best)
      → All (λ x. map_get x.0 left ≡ some x.1) es
      → Came b (merge_base es right b)
        × Passes b (merge_base es right b)
        × Beats (merge_base es right b) es
  unfolding merge_base
  merge_base_lem [] b a = (inl refl, λ id n h. h, tt)
  merge_base_lem ((id, l) ∷ es) b a =
      let b' = better id l (map_get id right) b in
      let (came, passes, beats) = merge_base_lem es b' a.1 in
      (
        Came-trans b b' (merge_base es right b') (Came-better id l b a.0) came,
        λ s n h. passes s n (Passes-better id l (map_get id right) b s n h),
        (
          λ r e. passes id (l + r) (
              subst (λ z. is_better id (l + r) (better id l z b) ≡ false) (sym e)
                (better_beaten id l r b)),
          beats,
        ),
      )

  Beats-get :
      (b : Best) (es : Distances) (id : String) (l r : ℕ)
      → Beats b es
      → map_get id es ≡ some l
      → map_get id right ≡ some r
      → is_better id (l + r) b ≡ false
  unfolding map_get
  Beats-get b [] id l r h e k = absurd (ground arith)
  Beats-get b ((j, m) ∷ es) id l r h e k = elim (Bool-cases (j == id)) [
    | inl same ↦
        let j_eq : j ≡ id = ground (arith, eq_iff j id) in
        let m_eq : m ≡ l = ground (arith, e, same) in
        subst (λ z. is_better z (l + r) b ≡ false) j_eq
          (subst (λ z. is_better j (z + r) b ≡ false) m_eq
            (h.0 r (ap (λ z. map_get z right) j_eq ∙ k)))
    | inr other ↦ Beats-get b es id l r h.1 (ground (arith, e, other)) k
  ]

-- A common ancestor with the least sum of distances, and of those the first by name.
pub record IsMergeBase (nodes : Nodes) (left_id right_id id : String) : Type 0 where
  pub to_left : ℕ
  pub to_right : ℕ
  pub left_shortest : IsDistance nodes left_id id to_left
  pub right_shortest : IsDistance nodes right_id id to_right
  pub nearest :
      (other : String) (l r : ℕ)
      → IsDistance nodes left_id other l
      → IsDistance nodes right_id other r
      → to_left + to_right ≤ l + r
  pub first :
      (other : String) (l r : ℕ)
      → IsDistance nodes left_id other l
      → IsDistance nodes right_id other r
      → l + r ≡ to_left + to_right
      → js_lt other id ≡ false

abbrev pub IsNearest : Nodes → String → String → Option String → Type 0
IsNearest nodes left_id right_id none =
    (id : String) → IsAncestor nodes id left_id → IsAncestor nodes id right_id → ⊥
IsNearest nodes left_id right_id (some id) = IsMergeBase nodes left_id right_id id

module _ (nodes : Nodes) (a b : String) (left right : Distances)
    (l_short : HasShortest nodes a left) (r_short : HasShortest nodes b right) where
  no_common :
      Beats left right none left → (id : String) → IsAncestor nodes id a → IsAncestor nodes id b → ⊥
  unfolding is_better
  no_common beats id (n, p) (m, q) =
      let (l, le, _) = l_short.reached n id p in
      let (r, re, _) = r_short.reached m id q in
      ground (arith, Beats-get left right none left id l r beats le re)

  common_nearest :
      (id : String) (n : ℕ)
      → IsCommon left right id n
      → Beats left right (some (id, n)) left
      → IsMergeBase nodes a b id
  unfolding is_better
  common_nearest id n (l, r, le, re, sum) beats =
      let beaten =
        λ (other : String) (l' r' : ℕ) (p : IsDistance nodes a other l')
            (q : IsDistance nodes b other r').
          Beats-get left right (some (id, n)) left other l' r' beats ((l_short.exact other l').1 p)
            ((r_short.exact other r').1 q) in
      record {
        to_left = l;
        to_right = r;
        left_shortest = (l_short.exact id l).0 le;
        right_shortest = (r_short.exact id r).0 re;
        nearest = λ other l' r' p q. ground (arith, beaten other l' r' p q);
        first = λ other l' r' p q same. ground (arith, beaten other l' r' p q);
      }

  merge_base-IsNearest : IsNearest nodes a b (best_id (merge_base left right none))
  unfolding best_id
  merge_base-IsNearest =
      let (came, passes, beats) =
        merge_base_lem left right left none (All-entries left l_short.distinct) in
      elim came [
        | inl e ↦
            subst (λ z. IsNearest nodes a b (best_id z)) (sym e)
              (no_common (subst (λ z. Beats left right z left) e beats))
        | inr (id, n, e, common) ↦
            subst (λ z. IsNearest nodes a b (best_id z)) (sym e)
              (common_nearest id n common (subst (λ z. Beats left right z left) e beats))
      ]

-- The merge base of two versions is found: a common ancestor with the least sum of the shortest
-- distances and, among those, with the first ID; none is returned exactly when there is no common
-- ancestor. (The two are nodes, and every parent in the graph is a node.)
pub find_merge_base-IsNearest :
    (nodes : Nodes)
    → IsClosed nodes
    → (a b : String) → has_node nodes a ≡ true
    → has_node nodes b ≡ true
    → (m : Option String) × (find_merge_base nodes a b ≡ ok m) × IsNearest nodes a b m
unfolding find_merge_base
find_merge_base-IsNearest nodes closed a b a_known b_known =
    let (left, le, l_short) = ancestor_distances_lem nodes a closed a_known in
    let (right, re, r_short) = ancestor_distances_lem nodes b closed b_known in
    (
      best_id (merge_base left right none),
      ground (arith, le, re),
      merge_base-IsNearest nodes a b left right l_short r_short,
    )
