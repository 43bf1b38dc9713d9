-- ===== src/Retention/Descending.antt =====
-- Sorting by a test that decides an order puts a list in that order; of numbers in descending order,
-- the first ones are no smaller than those that follow.
use dsh_session_maintenance.Prelude.{
  ℕ, zero, suc, ◌≤◌, ◌≡◌, refl, sym, ap, subst, ◌∙◌, inl, inr, String, Bool, true, false, not, ◌&&◌,
  List, [], ◌∷◌, ◌++◌, map, keep, take, length, leb, includes, ◌==◌, string_eq, Bool-cases, All,
  arith, eq_iff,
}
use mathlib.Core.List.{Memᴰ}
use mathlib.Core.List.Memᴰ.{head, tail, cases_cons}
use mathlib.Core.List.Memᴰ.{append_right}
use dsh_session_maintenance.Domain.Text.{insert_sorted, sort}

module _ {ℓ} {A : Type ℓ} where
  pub All-at {κ} : (P : A → Type κ) (xs : List A) (a : A) → All P xs → Memᴰ a xs → P a
  All-at P [] a h m = elim m [ ]
  All-at P (x ∷ xs) a h m = elim (cases_cons m) [
    | inl e ↦ subst P (sym e) h.0
    | inr later ↦ All-at P xs a h.1 later
  ]

  pub mem_keep : (p : A → Bool) (xs : List A) (a : A) → Memᴰ a xs → p a ≡ true → Memᴰ a (keep p xs)
  mem_keep p [] a m h = elim m [ ]
  mem_keep p (x ∷ xs) a m h = elim (cases_cons m) [
    | inl e ↦ rw (sym (ap p e) ∙ h) (head e)
    | inr later ↦ elim (Bool-cases (p x)) [
      | inl yes' ↦ rw yes' (tail (mem_keep p xs a later h))
      | inr no' ↦ rw no' (mem_keep p xs a later h)
    ]
  ]

  pub All-keep {κ} : (P : A → Type κ) (p : A → Bool) (xs : List A) → All P xs → All P (keep p xs)
  All-keep P p [] a = tt
  All-keep P p (x ∷ xs) a = elim (Bool-cases (p x)) [
    | inl yes' ↦ rw yes' (a.0, All-keep P p xs a.1)
    | inr no' ↦ rw no' (All-keep P p xs a.1)
  ]

  -- What is kept was there, and passed.
  pub mem_kept :
      (p : A → Bool) (xs : List A) (a : A) → Memᴰ a (keep p xs) → Memᴰ a xs × (p a ≡ true)
  mem_kept p [] a m = elim m [ ]
  mem_kept p (x ∷ xs) a m = elim (Bool-cases (p x)) [
    | inr no' ↦ let (n, h) = mem_kept p xs a (rw no' at m) in (tail n, h)
    | inl yes' ↦ elim (cases_cons (rw yes' at m)) [
      | inl e ↦ (head e, ap p e ∙ yes')
      | inr later ↦ let (n, h) = mem_kept p xs a later in (tail n, h)
    ]
  ]

  pub keep-keep : (p q : A → Bool) (xs : List A) → keep p (keep q xs) ≡ keep (λ x. q x && p x) xs
  keep-keep p q [] = refl
  keep-keep p q (x ∷ xs) = ground (arith, keep-keep p q xs)

  module _ (lt : A → A → Bool) where
    length-keep-insert_sorted :
        (p : A → Bool) (x : A) (ys : List A)
        → length (keep p (insert_sorted lt x ys)) ≡ length (keep p (x ∷ ys))
    unfolding insert_sorted
    length-keep-insert_sorted p x [] = refl
    length-keep-insert_sorted p x (y ∷ ys) = ground (arith, length-keep-insert_sorted p x ys)

    pub length-keep-sort :
        (p : A → Bool) (xs : List A) → length (keep p (sort lt xs)) ≡ length (keep p xs)
    unfolding sort
    length-keep-sort p [] = refl
    length-keep-sort p (x ∷ xs) =
        ground (arith, length-keep-insert_sorted p x (sort lt xs), length-keep-sort p xs)

    All-insert_sorted {κ} :
        (P : A → Type κ) (x : A) (ys : List A) → P x → All P ys → All P (insert_sorted lt x ys)
    unfolding insert_sorted
    All-insert_sorted P x [] h a = (h, tt)
    All-insert_sorted P x (y ∷ ys) h a = elim (Bool-cases (lt y x)) [
      | inl yes' ↦ rw yes' (a.0, All-insert_sorted P x ys h a.1)
      | inr no' ↦ rw no' (h, a)
    ]

    All-sort {κ} : (P : A → Type κ) (xs : List A) → All P xs → All P (sort lt xs)
    unfolding sort
    All-sort P [] a = tt
    All-sort P (x ∷ xs) a = All-insert_sorted P x (sort lt xs) a.0 (All-sort P xs a.1)

    mem_insert_sorted_of :
        (x : A) (ys : List A) (a : A) → Memᴰ a (x ∷ ys) → Memᴰ a (insert_sorted lt x ys)
    unfolding insert_sorted
    mem_insert_sorted_of x [] a m = m
    mem_insert_sorted_of x (y ∷ ys) a m = elim (Bool-cases (lt y x)) [
      | inr no' ↦ rw no' m
      | inl yes' ↦ rw yes' (elim (cases_cons m) [
        | inl e ↦ tail (mem_insert_sorted_of x ys a (head e))
        | inr later ↦ elim (cases_cons later) [
          | inl e ↦ head e
          | inr n ↦ tail (mem_insert_sorted_of x ys a (tail n))
        ]
      ])
    ]

    pub mem_sort_of : (xs : List A) (a : A) → Memᴰ a xs → Memᴰ a (sort lt xs)
    unfolding sort
    mem_sort_of [] a m = m
    mem_sort_of (x ∷ xs) a m =
        mem_insert_sorted_of x (sort lt xs) a
          (elim (cases_cons m) [ inl e ↦ head e | inr later ↦ tail (mem_sort_of xs a later) ])

  module _ {μ} (R : A → A → Type μ) where
    -- Each element has the relation to those that follow it.
    abbrev pub IsOrdered : List A → Type μ
    IsOrdered [] = Unit
    IsOrdered (x ∷ xs) = All (R x) xs × IsOrdered xs

    pub keep-IsOrdered : (p : A → Bool) (xs : List A) → IsOrdered xs → IsOrdered (keep p xs)
    keep-IsOrdered p [] o = tt
    keep-IsOrdered p (x ∷ xs) o = elim (Bool-cases (p x)) [
      | inl yes' ↦ rw yes' (All-keep (R x) p xs o.0, keep-IsOrdered p xs o.1)
      | inr no' ↦ rw no' (keep-IsOrdered p xs o.1)
    ]

    -- Each one of the first part has the relation to each one of the rest.
    pub IsOrdered-append :
        (xs ys : List A) (a : A) → IsOrdered (xs ++ ys) → Memᴰ a ys → All (λ x. R x a) xs
    IsOrdered-append [] ys a o m = tt
    IsOrdered-append (x ∷ xs) ys a o m =
        (All-at (R x) (xs ++ ys) a o.0 (append_right xs m), IsOrdered-append xs ys a o.1 m)

    module _ {κ} (trans : (x y z : A) → R x y → R y z → R x z) (IsSized : A → Type κ)
        (lt : A → A → Bool) (above : (x y : A) → IsSized x → IsSized y → lt y x ≡ true → R y x)
        (below : (x y : A) → IsSized x → IsSized y → lt y x ≡ false → R x y) where
      All-trans : (x y : A) (zs : List A) → R x y → All (R y) zs → All (R x) zs
      All-trans x y [] h a = tt
      All-trans x y (z ∷ zs) h a = (trans x y z h a.0, All-trans x y zs h a.1)

      insert_sorted-IsOrdered :
          (x : A) (ys : List A)
          → IsSized x
          → All IsSized ys
          → IsOrdered ys
          → IsOrdered (insert_sorted lt x ys)
      unfolding insert_sorted
      insert_sorted-IsOrdered x [] h a d = (tt, tt)
      insert_sorted-IsOrdered x (y ∷ ys) h a d = elim (Bool-cases (lt y x)) [
        | inl yes' ↦ rw yes' (
          All-insert_sorted lt (R y) x ys (above x y h a.0 yes') d.0,
          insert_sorted-IsOrdered x ys h a.1 d.1,
        )
        | inr no' ↦ rw no' ((below x y h a.0 no', All-trans x y ys (below x y h a.0 no') d.0), d)
      ]

      pub sort-IsOrdered : (xs : List A) → All IsSized xs → IsOrdered (sort lt xs)
      unfolding sort
      sort-IsOrdered [] a = tt
      sort-IsOrdered (x ∷ xs) a =
          insert_sorted-IsOrdered x (sort lt xs) a.0 (All-sort lt IsSized xs a.1)
            (sort-IsOrdered xs a.1)

  module _ (size : A → ℕ) where
    abbrev pub IsDescending : List A → Type 0
    IsDescending = IsOrdered (λ x y. size y ≤ size x)

    -- What is not among the first has at least as many others before it that are no smaller.
    pub length-keep_of_not_taken :
        (name : A → String) (n : ℕ) (xs : List A) (a : A)
        → IsDescending xs
        → Memᴰ a xs
        → includes (map name (take n xs)) (name a) ≡ false
        → n ≤ length (keep (λ x. not (name x == name a) && leb (size a) (size x)) xs)
    length-keep_of_not_taken name zero xs a d m h = omega arith
    length-keep_of_not_taken name (suc n) [] a d m h = elim m [ ]
    length-keep_of_not_taken name (suc n) (x ∷ xs) a d m h = elim (cases_cons m) [
      | inl e ↦ absurd (ground (arith, h, ap name e, eq_iff (name x) (name a)))
      | inr later ↦
          let ih = length-keep_of_not_taken name n xs a d.1 later (ground (arith, h)) in
          let smaller = All-at (λ y. size y ≤ size x) xs a d.0 later in
          ground (arith, ih, smaller, h)
    ]
