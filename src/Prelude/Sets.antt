-- ===== src/Prelude/Sets.antt =====
-- Lists as sets: membership as a Boolean, lists without repetition, and what `new Set(xs)` holds.
use Prim.Native.Nat.{suc, ◌+◌, ◌≤◌}
use mathlib.Core.Path.{◌≡◌, refl, sym, ap, ◌∙◌, subst}
use mathlib.Core.Bool.{true, false, ◌||◌}
use mathlib.Core.Option.{none, some}
use mathlib.Core.List.{List, [], ◌∷◌, ◌++◌, map, append-nil, append_assoc}
use native.Mathlib.Omega.{arith}
use dsh_session_maintenance.Prelude.Tests.{if◌then◌else◌, Eq, ◌==◌, Bool-cases}
use mathlib.Core.Logic.{inl, inr}
use dsh_session_maintenance.Prelude.Lists.{includes, length, length-append, all, All}
use dsh_session_maintenance.Prelude.Maps.{set_add, set_from, set_of, map_get, map_set}

module _ {ℓ} {A : Type ℓ} ⦃e : Eq A⦄ where
  -- No element twice.
  abbrev pub Distinct : List A → Type 0
  Distinct [] = Unit
  Distinct (x ∷ xs) = (includes xs x ≡ false) × Distinct xs

  pub includes-append :
      (xs ys : List A) (a : A) → includes (xs ++ ys) a ≡ (includes xs a || includes ys a)
  includes-append [] ys a = refl
  includes-append (x ∷ xs) ys a = ground (arith, includes-append xs ys a)

  remove_first : A → List A → List A
  remove_first a [] = []
  remove_first a (x ∷ xs) = if x == a then xs else x ∷ remove_first a xs

  length-remove_first :
      (a : A) (xs : List A) → includes xs a ≡ true → suc (length (remove_first a xs)) ≡ length xs
  unfolding remove_first
  length-remove_first a [] h = ground arith
  length-remove_first a (x ∷ xs) h = ground (arith, length-remove_first a xs)

  includes-remove_first :
      (a k : A) (xs : List A) → (a == k) ≡ false → includes (remove_first a xs) k ≡ includes xs k
  unfolding remove_first
  includes-remove_first a k [] h = refl
  includes-remove_first a k (x ∷ xs) h =
      ground (arith, includes-remove_first a k xs, e.beq_iff x a, e.beq_iff x k, e.beq_iff a k)

  -- A list without repetition is no longer than one that holds its elements.
  pub length-le_of_subset :
      (xs ys : List A)
      → Distinct xs
      → ((k : A) → includes xs k ≡ true → includes ys k ≡ true)
      → length xs ≤ length ys
  length-le_of_subset [] ys d h = omega arith
  length-le_of_subset (x ∷ xs) ys d h = omega (
    arith,
    length-remove_first x ys (h x (ground (arith, e.beq_iff x x))),
    length-le_of_subset xs (remove_first x ys) d.1 λ k m.
        includes-remove_first x k ys (ground (arith, e.beq_iff x k, d.0, m))
        ∙ h k (ground (arith, m)),
  )

  -- One that is as long holds no others.
  pub superset_of_length :
      (xs ys : List A)
      → Distinct xs
      → ((k : A) → includes xs k ≡ true → includes ys k ≡ true)
      → length ys ≤ length xs
      → (k : A) → includes ys k ≡ true
      → includes xs k ≡ true
  superset_of_length xs ys d h l k m = elim (Bool-cases (includes xs k)) [
    | inl yes' ↦ yes'
    | inr no' ↦ absurd (
        omega (
          arith,
          length-le_of_subset (k ∷ xs) ys (no', d) λ j n. ground (arith, h j, e.beq_iff k j),
        ))
  ]

  includes-set_from :
      (acc xs : List A) (k : A) → includes (set_from acc xs) k ≡ (includes acc k || includes xs k)
  unfolding set_from set_add
  includes-set_from acc [] k = ground arith
  includes-set_from acc (x ∷ xs) k = elim (Bool-cases (includes acc x)) [
    | inl old ↦ rw old (ground (arith, includes-set_from acc xs k, e.beq_iff x k))
    | inr new ↦
        rw new
          (ground (arith, includes-set_from (acc ++ x ∷ []) xs k, includes-append acc (x ∷ []) k))
  ]

  length-set_from-le : (acc xs : List A) → length (set_from acc xs) ≤ length acc + length xs
  unfolding set_from set_add
  length-set_from-le acc [] = omega arith
  length-set_from-le acc (x ∷ xs) = elim (Bool-cases (includes acc x)) [
    | inl old ↦ rw old (omega (arith, length-set_from-le acc xs))
    | inr new ↦
        rw new (omega (arith, length-set_from-le (acc ++ x ∷ []) xs, length-append acc (x ∷ [])))
  ]

  set_from_full :
      (acc xs : List A)
      → length (set_from acc xs) ≡ length acc + length xs
      → set_from acc xs ≡ acc ++ xs
  unfolding set_from set_add
  set_from_full acc [] h = sym (append-nil acc)
  set_from_full acc (x ∷ xs) h = elim (Bool-cases (includes acc x)) [
    | inl old ↦ absurd (ground (arith, length-set_from-le acc xs))
    | inr new ↦ rw new (
        set_from_full (acc ++ x ∷ []) xs (ground (arith, length-append acc (x ∷ [])))
        ∙ append_assoc acc (x ∷ []) xs)
  ]

  pub Distinct-concat :
      (acc : List A) (x : A) → Distinct acc → includes acc x ≡ false → Distinct (acc ++ x ∷ [])
  Distinct-concat [] x d h = (refl, tt)
  Distinct-concat (y ∷ acc) x d h = (
    ground (arith, includes-append acc (x ∷ []) y, e.beq_iff x y, e.beq_iff y x),
    Distinct-concat acc x d.1 (ground arith),
  )

  set_from-Distinct : (acc xs : List A) → Distinct acc → Distinct (set_from acc xs)
  unfolding set_from set_add
  set_from-Distinct acc [] d = d
  set_from-Distinct acc (x ∷ xs) d = elim (Bool-cases (includes acc x)) [
    | inl old ↦ rw old (set_from-Distinct acc xs d)
    | inr new ↦ rw new (set_from-Distinct (acc ++ x ∷ []) xs (Distinct-concat acc x d new))
  ]

  pub fresh_of-Distinct :
      (acc : List A) (x : A) (xs : List A) → Distinct (acc ++ x ∷ xs) → includes acc x ≡ false
  fresh_of-Distinct [] x xs d = refl
  fresh_of-Distinct (y ∷ acc) x xs d = ground (
    arith,
    fresh_of-Distinct acc x xs d.1,
    includes-append acc (x ∷ xs) y,
    e.beq_iff x y,
    e.beq_iff y x,
    d.0,
  )

  set_from_of-Distinct : (acc xs : List A) → Distinct (acc ++ xs) → set_from acc xs ≡ acc ++ xs
  unfolding set_from set_add
  set_from_of-Distinct acc [] d = sym (append-nil acc)
  set_from_of-Distinct acc (x ∷ xs) d =
      rw (fresh_of-Distinct acc x xs d)
        (set_from_of-Distinct (acc ++ x ∷ []) xs (rw append_assoc d) ∙ append_assoc acc (x ∷ []) xs)

  pub includes-set_of : (xs : List A) (k : A) → includes (set_of xs) k ≡ includes xs k
  unfolding set_of
  includes-set_of xs k = includes-set_from [] xs k

  -- A set is as large as the list exactly when the list has no repetition.
  pub Distinct-of_length : (xs : List A) → length (set_of xs) ≡ length xs → Distinct xs
  unfolding set_of
  Distinct-of_length xs h =
      subst Distinct (set_from_full [] xs (omega arith)) (set_from-Distinct [] xs tt)

  pub set_of-Distinct : (xs : List A) → Distinct xs → set_of xs ≡ xs
  unfolding set_of
  set_of-Distinct xs d = set_from_of-Distinct [] xs d

  pub all-includes :
      (xs ys : List A)
      → all (λ x. includes ys x) xs ≡ true
      → (k : A) → includes xs k ≡ true
      → includes ys k ≡ true
  all-includes [] ys h k m = ground arith
  all-includes (x ∷ xs) ys h k m =
      ground (arith, all-includes xs ys, e.beq_iff x k, all-includes xs ys (ground arith) k)

  pub all-includes_of :
      (xs ys : List A)
      → ((k : A) → includes xs k ≡ true → includes ys k ≡ true)
      → all (λ x. includes ys x) xs ≡ true
  all-includes_of [] ys h = refl
  all-includes_of (x ∷ xs) ys h =
      ground (arith, h x, e.beq_iff x x, all-includes_of xs ys λ k m. h k (ground arith))

-- The keys of a map.
abbrev pub keys {ℓ κ} : {K : Type ℓ} {V : Type κ} → List (K × V) → List K
keys m = map (λ e. e.0) m

module _ {ℓ κ} {K : Type ℓ} {V : Type κ} ⦃e : Eq K⦄ where
  includes-keys : (k : K) (m : List (K × V)) → map_get k m ≡ none → includes (keys m) k ≡ false
  unfolding map_get
  includes-keys k [] h = refl
  includes-keys k ((j, w) ∷ m) h = ground (arith, includes-keys k m)

  map_set_fresh :
      (k : K) (v : V) (m : List (K × V)) → map_get k m ≡ none → map_set k v m ≡ m ++ (k, v) ∷ []
  unfolding map_get map_set
  map_set_fresh k v [] h = refl
  map_set_fresh k v ((j, w) ∷ m) h = ground (arith, map_set_fresh k v m)

  keys-concat : (m : List (K × V)) (k : K) (v : V) → keys (m ++ (k, v) ∷ []) ≡ keys m ++ k ∷ []
  keys-concat [] k v = refl
  keys-concat ((j, w) ∷ m) k v = ap (λ ks. j ∷ ks) (keys-concat m k v)

  pub keys-map_set_fresh :
      (k : K) (v : V) (m : List (K × V))
      → Distinct (keys m)
      → map_get k m ≡ none
      → Distinct (keys (map_set k v m))
  keys-map_set_fresh k v m d h =
      subst Distinct (sym (ap keys (map_set_fresh k v m h) ∙ keys-concat m k v))
        (Distinct-concat (keys m) k d (includes-keys k m h))

  All-entries_later :
      (k : K) (v : V) (m es : List (K × V))
      → includes (keys es) k ≡ false
      → All (λ x. map_get x.0 m ≡ some x.1) es
      → All (λ x. map_get x.0 ((k, v) ∷ m) ≡ some x.1) es
  unfolding map_get
  All-entries_later k v m [] h a = tt
  All-entries_later k v m ((j, w) ∷ es) h a = (
    ground (arith, a.0, e.beq_iff k j, e.beq_iff j k),
    All-entries_later k v m es (ground arith) a.1,
  )

  -- Where no key stands twice, each entry is what its key gives.
  pub All-entries : (m : List (K × V)) → Distinct (keys m) → All (λ x. map_get x.0 m ≡ some x.1) m
  unfolding map_get
  All-entries [] d = tt
  All-entries ((k, v) ∷ m) d =
      (ground (arith, e.beq_iff k k), All-entries_later k v m m d.0 (All-entries m d.1))
