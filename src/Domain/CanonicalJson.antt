-- ===== src/Domain/CanonicalJson.antt =====
-- packages/session-domain/src/canonical-json.ts, for values without cycles, holes and prototypes,
-- which `Json` cannot express.
pub mod Lines
use dsh_session_maintenance.Prelude.{
  ◌≡◌, refl, ℕ, zero, suc, ◌+◌, ◌/◌, ◌%◌, String, Bool, true, false, List, [], ◌∷◌, ◌++◌, map, ltb,
  ◌==◌, nat_eq, if◌then◌else◌,
}
use dsh_session_maintenance.Contracts.Json.{
  Json, null, bool, num, str, arr, obj, Items, nil, cons, Fields, end, field,
}
use dsh_session_maintenance.Domain.Text.{Text, codes, js_lt, sort}

-- Decimal digits, in front of `acc`.
unfoldable decimal_fuel : ℕ → ℕ → Text → Text
decimal_fuel zero n acc = acc
decimal_fuel (suc f) n acc =
    let digits = (48 + n % 10) ∷ acc in
    let rest = decimal_fuel f (n / 10) digits in if n / 10 == 0 then digits else rest

unfoldable pub decimal : ℕ → Text
unfolding decimal_fuel
decimal n = decimal_fuel (suc n) n []

unfoldable pub hex_digit : ℕ → ℕ
hex_digit d = if ltb d 10 then 48 + d else 87 + d

-- `JSON.stringify` of one character of a string.
unfoldable pub escape : ℕ → Text
unfolding hex_digit
escape c =
    if c == 34
    then 92 ∷ 34 ∷ []
    else if c == 92
    then 92 ∷ 92 ∷ []
    else if c == 8
    then 92 ∷ 98 ∷ []
    else if c == 9
    then 92 ∷ 116 ∷ []
    else if c == 10
    then 92 ∷ 110 ∷ []
    else if c == 12
    then 92 ∷ 102 ∷ []
    else if c == 13
    then 92 ∷ 114 ∷ []
    else if ltb c 32
    then 92 ∷ 117 ∷ 48 ∷ 48 ∷ hex_digit (c / 16) ∷ hex_digit (c % 16) ∷ []
    else c ∷ []

unfoldable pub escape_all : Text → Text
escape_all [] = []
escape_all (c ∷ cs) = escape c ++ escape_all cs

unfoldable pub quote : String → Text
unfolding escape_all
quote s = 34 ∷ (escape_all (codes s) ++ 34 ∷ [])

-- `entries.join(",")`
unfoldable pub join : List Text → Text
join [] = []
join (x ∷ []) = x
join (x ∷ y ∷ xs) = x ++ (44 ∷ join (y ∷ xs))

abbrev pub Entry : Type 0
Entry = String × Text

unfoldable pub entry_lt : Entry → Entry → Bool
entry_lt (j, _) (k, _) = js_lt j k

unfoldable pub print_entry : Entry → Text
print_entry (k, t) = quote k ++ (58 ∷ t)

-- The members are printed before they are sorted: printing has no effects.
unfoldable mutual
  pub serialize : Json → Text
  serialize null = codes "null"
  serialize (bool b) = if b then codes "true" else codes "false"
  serialize (num n) = decimal n
  serialize (str s) = quote s
  serialize (arr xs) = 91 ∷ (join (serialize_items xs) ++ 93 ∷ [])
  serialize (obj fs) =
      123 ∷ (join (map print_entry (sort entry_lt (serialize_fields fs))) ++ 125 ∷ [])

  pub serialize_items : Items → List Text
  serialize_items nil = []
  serialize_items (cons x xs) = serialize x ∷ serialize_items xs

  pub serialize_fields : Fields → List Entry
  serialize_fields end = []
  serialize_fields (field k v fs) = (k, serialize v) ∷ serialize_fields fs

-- canonicalJson(value)
unfoldable pub canonical_json : Json → Text
unfolding serialize serialize_items serialize_fields decimal quote join entry_lt print_entry sort
    js_lt escape
canonical_json value = serialize value

example : Json
example = obj (field "b" (arr (cons (num 10) (cons null nil))) (field "a" (str "x\"") end))

canonical_json_runs : canonical_json example ≡ codes "{\"a\":\"x\\\"\",\"b\":[10,null]}"
unfolding canonical_json example
canonical_json_runs = refl
