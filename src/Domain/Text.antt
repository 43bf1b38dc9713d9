-- ===== src/Domain/Text.antt =====
-- Texts as JavaScript sees them: sequences of UTF-16 code units, ordered unit by unit by `<`, and
-- sorting by a comparison as `Array.prototype.sort` does it.
use Prim.Native.Char.{code}
use Prim.Native.String as S
use dsh_session_maintenance.Prelude.{
  ℕ, ◌+◌, ◌-◌, ◌/◌, ◌%◌, String, Bool, true, false, List, [], ◌∷◌, ltb, if◌then◌else◌,
}

-- The code points of a text.
abbrev pub Text : Type 0
Text = List ℕ

abbrev pub codes : String → Text
codes S.[] = []
codes (S.◌∷◌ c s) = code c ∷ codes s

-- Astral code points are surrogate pairs.
unfoldable pub utf16 : Text → List ℕ
utf16 [] = []
utf16 (c ∷ cs) =
    let rest = utf16 cs in
    if ltb c 0x10000
    then c ∷ rest
    else (0xD800 + (c - 0x10000) / 0x400) ∷ (0xDC00 + (c - 0x10000) % 0x400) ∷ rest

unfoldable pub units_lt : List ℕ → List ℕ → Bool
units_lt [] [] = false
units_lt [] (b ∷ bs) = true
units_lt (a ∷ as') [] = false
units_lt (a ∷ as') (b ∷ bs) =
    let rest = units_lt as' bs in if ltb a b then true else if ltb b a then false else rest

-- `s < t`
unfoldable pub js_lt : String → String → Bool
unfolding utf16 units_lt
js_lt s t = units_lt (utf16 (codes s)) (utf16 (codes t))

module _ {ℓ} {A : Type ℓ} (lt : A → A → Bool) where
  unfoldable pub insert_sorted : A → List A → List A
  insert_sorted x [] = x ∷ []
  insert_sorted x (y ∷ ys) = if lt y x then y ∷ insert_sorted x ys else x ∷ y ∷ ys

  -- `xs.sort(...)`, which is stable.
  unfoldable pub sort : List A → List A
  unfolding insert_sorted
  sort [] = []
  sort (x ∷ xs) = insert_sorted x (sort xs)
