-- ===== src/Transaction/Journal/Lines.antt =====
-- Splitting the text of a journal gives back the lines that were written.
use dsh_session_maintenance.Prelude.{
  ℕ, ◌≡◌, refl, ap, sym, ◌∙◌, ◌≢◌, true, false, List, [], ◌∷◌, ◌++◌, append_assoc, append-nil,
  option_beq_iff, some, All, All-append, last?, arith, nat_eq, option_eq,
}
use dsh_session_maintenance.Contracts.Transaction.{TransactionStep}
use dsh_session_maintenance.Domain.Text.{Text}
use dsh_session_maintenance.Domain.CanonicalJson.{canonical_json}
use dsh_session_maintenance.Domain.CanonicalJson.Lines.{IsEscaped, canonical_json-IsEscaped}
use dsh_session_maintenance.Transaction.Journal.{
  split_lines, drop_last, ends_with_newline, raw_lines, print_step, step_json,
}

-- The lines, each followed by a line break.
abbrev pub unlines : List Text → Text
unlines [] = []
unlines (l ∷ ls) = l ++ (10 ∷ unlines ls)

-- A line of the file: no line break in it.
abbrev pub IsLine : Text → Type 0
IsLine l = All (λ c. c ≢ 10) l

IsEscaped→IsLine : (t : Text) → IsEscaped t → IsLine t
IsEscaped→IsLine [] h = tt
IsEscaped→IsLine (c ∷ cs) h = (omega arith, IsEscaped→IsLine cs h.1)

pub print_step-IsLine : (s : TransactionStep) → IsLine (print_step s)
unfolding print_step
print_step-IsLine s =
    IsEscaped→IsLine (canonical_json (step_json s)) (canonical_json-IsEscaped (step_json s))

pub print_step-cons : (s : TransactionStep) → (t : Text) × (print_step s ≡ 123 ∷ t)
unfolding print_step canonical_json step_json
print_step-cons s = (_, refl)

split_lines-line :
    (l rest : Text) → IsLine l → split_lines (l ++ (10 ∷ rest)) ≡ l ∷ split_lines rest
unfolding split_lines
split_lines-line [] rest h = refl
split_lines-line (c ∷ cs) rest h = ground (arith, h.0, split_lines-line cs rest h.1)

split_lines-last : (l : Text) → IsLine l → split_lines l ≡ l ∷ []
unfolding split_lines
split_lines-last [] h = refl
split_lines-last (c ∷ cs) h = ground (arith, h.0, split_lines-last cs h.1)

pub split_lines-unlines :
    (ls : List Text) (torn : Text)
    → All IsLine ls
    → IsLine torn
    → split_lines (unlines ls ++ torn) ≡ ls ++ torn ∷ []
split_lines-unlines [] torn h t = split_lines-last torn t
split_lines-unlines (l ∷ ls) torn h t =
    ap split_lines (append_assoc l (10 ∷ unlines ls) torn)
    ∙ split_lines-line l (unlines ls ++ torn) h.0
    ∙ ap (◌∷◌ l) (split_lines-unlines ls torn h.1 t)

drop_last-concat {ℓ} : {A : Type ℓ} (xs : List A) (a : A) → drop_last (xs ++ a ∷ []) ≡ xs
unfolding drop_last
drop_last-concat [] a = refl
drop_last-concat (x ∷ []) a = refl
drop_last-concat (x ∷ y ∷ xs) a = ap (◌∷◌ x) (drop_last-concat (y ∷ xs) a)

pub last?-append {ℓ} :
    {A : Type ℓ} (xs ys : List A) (y : A) → last? (xs ++ (y ∷ ys)) ≡ last? (y ∷ ys)
last?-append [] ys y = refl
last?-append (x ∷ []) ys y = refl
last?-append (x ∷ z ∷ xs) ys y = last?-append (z ∷ xs) ys y

last?-cons_some {ℓ} :
    {A : Type ℓ} (x : A) (ys : List A) {b : A} → last? ys ≡ some b → last? (x ∷ ys) ≡ some b
last?-cons_some x [] h = cc
last?-cons_some x (y ∷ ys) h = h

last?-append_some {ℓ} :
    {A : Type ℓ} (xs ys : List A) {b : A} → last? ys ≡ some b → last? (xs ++ ys) ≡ some b
last?-append_some [] ys h = h
last?-append_some (x ∷ xs) ys h = last?-cons_some x (xs ++ ys) (last?-append_some xs ys h)

last?-unlines : (l : Text) (ls : List Text) → last? (unlines (l ∷ ls)) ≡ some 10
last?-unlines l [] = last?-append l [] 10
last?-unlines l (k ∷ ls) =
    last?-append_some l (10 ∷ unlines (k ∷ ls))
      (last?-cons_some 10 (unlines (k ∷ ls)) (last?-unlines k ls))

last?-torn : (c : ℕ) (cs : Text) → IsLine (c ∷ cs) → last? (c ∷ cs) ≢ some 10
last?-torn c [] h = ground (arith, h.0)
last?-torn c (d ∷ cs) h = last?-torn d cs h.1

-- A file of complete lines is read line by line.
pub raw_lines-unlines :
    (l : Text) (ls : List Text)
    → All IsLine (l ∷ ls)
    → (ends_with_newline (unlines (l ∷ ls)) ≡ true) × (raw_lines (unlines (l ∷ ls)) ≡ l ∷ ls)
unfolding ends_with_newline raw_lines
raw_lines-unlines l ls h = ground (
  arith,
  last?-unlines l ls,
  split_lines-unlines (l ∷ ls) [] h tt,
  append-nil (unlines (l ∷ ls)),
  drop_last-concat (l ∷ ls) [],
)

-- A text behind the last line break is one more line, and the file does not end with a line break.
pub raw_lines-torn :
    (ls : List Text) (c : ℕ) (cs : Text)
    → All IsLine ls
    → IsLine (c ∷ cs)
    → (ends_with_newline (unlines ls ++ (c ∷ cs)) ≡ false)
      × (raw_lines (unlines ls ++ (c ∷ cs)) ≡ ls ++ (c ∷ cs) ∷ [])
unfolding ends_with_newline raw_lines
raw_lines-torn ls c cs h t = ground (
  arith,
  last?-append (unlines ls) cs c,
  last?-torn c cs t,
  split_lines-unlines ls (c ∷ cs) h t,
  option_beq_iff (last? (c ∷ cs)) (some 10),
)

pub raw_lines-concat :
    (ls : List Text) (l : Text)
    → All IsLine ls
    → IsLine l
    → (ends_with_newline (unlines (ls ++ l ∷ [])) ≡ true)
      × (raw_lines (unlines (ls ++ l ∷ [])) ≡ ls ++ l ∷ [])
raw_lines-concat [] l h k = raw_lines-unlines l [] (k, tt)
raw_lines-concat (x ∷ ls) l h k =
    raw_lines-unlines x (ls ++ l ∷ []) (h.0, All-append IsLine ls (l ∷ []) h.1 (k, tt))

pub unlines-concat :
    (ls : List Text) (l : Text) → unlines (ls ++ l ∷ []) ≡ unlines ls ++ (l ++ 10 ∷ [])
unlines-concat [] l = refl
unlines-concat (k ∷ ls) l =
    ap (λ t. k ++ (10 ∷ t)) (unlines-concat ls l)
    ∙ sym (append_assoc k (10 ∷ unlines ls) (l ++ 10 ∷ []))
