-- ===== src/Retention/Members.antt =====
-- The elements of a mapped, a joined and a sorted list.
use dsh_session_maintenance.Prelude.{◌≡◌, refl, inl, inr, Bool, List, [], ◌∷◌, map, Bool-cases}
use mathlib.Core.List.{Memᴰ}
use mathlib.Core.List.Memᴰ.{head, tail, cases_cons}
use dsh_session_maintenance.Domain.Text.{insert_sorted, sort}

pub mem_map {ℓ κ} :
    {A : Type ℓ} {B : Type κ} (f : A → B) (xs : List A) (b : B)
    → Memᴰ b (map f xs)
    → (a : A) × Memᴰ a xs × (b ≡ f a)
mem_map f [] b m = elim m [ ]
mem_map f (x ∷ xs) b m = elim (cases_cons m) [
  | inl e ↦ (x, head refl, e)
  | inr later ↦ let (a, n, e) = mem_map f xs b later in (a, tail n, e)
]

module _ {ℓ} {A : Type ℓ} (lt : A → A → Bool) where
  mem_insert_sorted :
      (x : A) (ys : List A) (a : A) → Memᴰ a (insert_sorted lt x ys) → Memᴰ a (x ∷ ys)
  unfolding insert_sorted
  mem_insert_sorted x [] a m = m
  mem_insert_sorted x (y ∷ ys) a m = elim (Bool-cases (lt y x)) [
    | inr no' ↦ rw no' at m
    | inl yes' ↦ elim (cases_cons (rw yes' at m)) [
      | inl e ↦ tail (head e)
      | inr later ↦ elim (cases_cons (mem_insert_sorted x ys a later)) [
        | inl e ↦ head e
        | inr n ↦ tail (tail n)
      ]
    ]
  ]

  pub mem_sort : (xs : List A) (a : A) → Memᴰ a (sort lt xs) → Memᴰ a xs
  unfolding sort
  mem_sort [] a m = m
  mem_sort (x ∷ xs) a m = elim (cases_cons (mem_insert_sorted x (sort lt xs) a m)) [
    | inl e ↦ head e
    | inr later ↦ tail (mem_sort xs a later)
  ]
