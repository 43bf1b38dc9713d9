-- ===== src/Domain/CanonicalJson/Lines.antt =====
-- A canonical text has no character below U+0020, so no line feed or carriage return.
use dsh_session_maintenance.Prelude.{
  ℕ, zero, suc, ◌+◌, ◌/◌, ◌%◌, ◌≤◌, String, true, false, List, [], ◌∷◌, ◌++◌, map, All, All-append,
  arith, nat_eq,
}
use dsh_session_maintenance.Contracts.Json.{
  Json, null, bool, num, str, arr, obj, Items, nil, cons, Fields, end, field,
}
use dsh_session_maintenance.Domain.Text.{Text, codes, sort, insert_sorted}
use dsh_session_maintenance.Domain.CanonicalJson.{
  decimal_fuel, decimal, escape, escape_all, quote, join, Entry, entry_lt, print_entry, serialize,
  serialize_items, serialize_fields, canonical_json,
}

-- No character of the text is below U+0020: those are what `JSON.stringify` escapes by their number.
abbrev pub IsEscaped : Text → Type 0
IsEscaped t = All (λ c. 32 ≤ c) t

joined : (s t : Text) → IsEscaped s → IsEscaped t → IsEscaped (s ++ t)
joined = All-append (λ c. 32 ≤ c)

decimal_fuel-IsEscaped : (f n : ℕ) (acc : Text) → IsEscaped acc → IsEscaped (decimal_fuel f n acc)
unfolding decimal_fuel
decimal_fuel-IsEscaped zero n acc h = h
decimal_fuel-IsEscaped (suc f) n acc h =
    ground (arith, decimal_fuel-IsEscaped f (n / 10) ((48 + n % 10) ∷ acc))

escape-IsEscaped : (c : ℕ) → IsEscaped (escape c)
unfolding escape
escape-IsEscaped c = ground arith

escape_all-IsEscaped : (cs : Text) → IsEscaped (escape_all cs)
unfolding escape_all
escape_all-IsEscaped [] = tt
escape_all-IsEscaped (c ∷ cs) = joined (escape c) _ (escape-IsEscaped c) (escape_all-IsEscaped cs)

quote-IsEscaped : (s : String) → IsEscaped (quote s)
unfolding quote
quote-IsEscaped s =
    (omega arith, joined (escape_all (codes s)) _ (escape_all-IsEscaped (codes s)) (omega arith))

join-IsEscaped : (ts : List Text) → All IsEscaped ts → IsEscaped (join ts)
unfolding join
join-IsEscaped [] h = tt
join-IsEscaped (x ∷ []) h = h.0
join-IsEscaped (x ∷ y ∷ xs) h = joined x _ h.0 (omega arith, join-IsEscaped (y ∷ xs) h.1)

insert_sorted-IsEscaped :
    (e : Entry) (es : List Entry)
    → IsEscaped e.1
    → All (λ (x : Entry). IsEscaped x.1) es
    → All (λ (x : Entry). IsEscaped x.1) (insert_sorted entry_lt e es)
unfolding insert_sorted
insert_sorted-IsEscaped e [] h hs = (h, tt)
insert_sorted-IsEscaped e (x ∷ es) h hs = ground (arith, insert_sorted-IsEscaped e es h hs.1)

sort-IsEscaped :
    (es : List Entry)
    → All (λ (x : Entry). IsEscaped x.1) es
    → All (λ (x : Entry). IsEscaped x.1) (sort entry_lt es)
unfolding sort
sort-IsEscaped [] h = tt
sort-IsEscaped (e ∷ es) h = insert_sorted-IsEscaped e (sort entry_lt es) h.0 (sort-IsEscaped es h.1)

print_entry-IsEscaped :
    (es : List Entry) → All (λ (x : Entry). IsEscaped x.1) es → All IsEscaped (map print_entry es)
unfolding print_entry
print_entry-IsEscaped [] h = tt
print_entry-IsEscaped ((k, t) ∷ es) h =
    (joined (quote k) _ (quote-IsEscaped k) (omega arith, h.0), print_entry-IsEscaped es h.1)

mutual
  unfolding serialize decimal

  serialize-IsEscaped : (v : Json) → IsEscaped (serialize v)
  serialize-IsEscaped null = omega arith
  serialize-IsEscaped (bool true) = omega arith
  serialize-IsEscaped (bool false) = omega arith
  serialize-IsEscaped (num n) = decimal_fuel-IsEscaped (suc n) n [] tt
  serialize-IsEscaped (str s) = quote-IsEscaped s
  serialize-IsEscaped (arr xs) = (
    omega arith,
    joined (join (serialize_items xs)) _
        (join-IsEscaped (serialize_items xs) (serialize_items-IsEscaped xs)) (omega arith),
  )
  serialize-IsEscaped (obj fs) = (
    omega arith,
    joined (join (map print_entry (sort entry_lt (serialize_fields fs)))) _
        (join-IsEscaped _
          (print_entry-IsEscaped _ (sort-IsEscaped _ (serialize_fields-IsEscaped fs))))
        (omega arith),
  )

  serialize_items-IsEscaped : (xs : Items) → All IsEscaped (serialize_items xs)
  serialize_items-IsEscaped nil = tt
  serialize_items-IsEscaped (cons x xs) = (serialize-IsEscaped x, serialize_items-IsEscaped xs)

  serialize_fields-IsEscaped :
      (fs : Fields) → All (λ (x : Entry). IsEscaped x.1) (serialize_fields fs)
  serialize_fields-IsEscaped end = tt
  serialize_fields-IsEscaped (field k v fs) = (serialize-IsEscaped v, serialize_fields-IsEscaped fs)

-- A canonical text has no character below U+0020, whatever the value: so no line feed or carriage
-- return in a string or a key, or between members, can split it over two lines of a file.
pub canonical_json-IsEscaped : (value : Json) → IsEscaped (canonical_json value)
unfolding canonical_json
canonical_json-IsEscaped value = serialize-IsEscaped value
