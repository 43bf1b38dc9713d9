-- ===== src/Prelude/Maps.antt =====
-- `Map` and `Set` of JavaScript: entries in the order of insertion, one to a key.
use mathlib.Core.Path.{◌≡◌, refl}
use mathlib.Core.List.{List, [], ◌∷◌, ◌++◌}
use mathlib.Core.Option.{Option, none, some}
use native.Mathlib.Omega.{arith}
use dsh_session_maintenance.Prelude.Tests.{if◌then◌else◌, Eq, ◌==◌}
use dsh_session_maintenance.Prelude.Lists.{includes}

module _ {ℓ κ} {K : Type ℓ} {V : Type κ} ⦃e : Eq K⦄ where
  -- `m.get(k)`
  unfoldable pub map_get : K → List (K × V) → Option V
  map_get k [] = none
  map_get k ((j, v) ∷ m) = if j == k then some v else map_get k m

  -- `m.set(k, v)`: a key that is there keeps its place.
  unfoldable pub map_set : K → V → List (K × V) → List (K × V)
  map_set k v [] = (k, v) ∷ []
  map_set k v ((j, w) ∷ m) = if j == k then (j, v) ∷ m else (j, w) ∷ map_set k v m

  pub map_get-map_set :
      (k j : K) (v : V) (m : List (K × V))
      → map_get j (map_set k v m) ≡ (if k == j then some v else map_get j m)
  unfolding map_get map_set
  map_get-map_set k j v [] = refl
  map_get-map_set k j v ((i, w) ∷ m) =
      ground (arith, e.beq_iff k j, e.beq_iff i k, e.beq_iff i j, map_get-map_set k j v m)

module _ {ℓ} {A : Type ℓ} ⦃e : Eq A⦄ where
  -- `new Set(xs)`, spread into a list: the first of each group of equals, in order. The work is
  -- done from the back, and a later equal is dropped.
  unfoldable pub set_add : A → List A → List A
  set_add a xs = if includes xs a then xs else xs ++ a ∷ []

  unfoldable pub set_from : List A → List A → List A
  unfolding set_add
  set_from acc [] = acc
  set_from acc (x ∷ xs) = set_from (set_add x acc) xs

  unfoldable pub set_of : List A → List A
  unfolding set_from
  set_of = set_from []
