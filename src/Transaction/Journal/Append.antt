-- ===== src/Transaction/Journal/Append.antt =====
-- A journal written entry by entry is read back as written.
use mathlib.Core.List.{map-append}
use dsh_session_maintenance.Prelude.{
  ℕ, suc, ◌≡◌, refl, ap, sym, ◌∙◌, String, Bool, true, List, [], ◌∷◌, ◌++◌, map, append_assoc,
  append-nil, Option, none, some, All, All-append, length, length-append, last?, arith, ok, nat_eq,
  string_eq, option_eq, option_beq_iff, eq_iff,
}
use dsh_session_maintenance.Contracts.Transaction.{TransactionStep}
use dsh_session_maintenance.Contracts.Schemas.{transaction_step_schema}
use dsh_session_maintenance.Domain.Text.{Text}
use dsh_session_maintenance.Transaction.Journal.{
  JournalEntryInput, hash_of, hash_entry, step_payload, is_next, next_entry, print_step, read_lines,
  read_now, append_now, write_entry, ends_with_newline, raw_lines, split_lines,
}
use dsh_session_maintenance.Transaction.Journal.Chain.{next_entry-Linked, IsChain, Linked}
use dsh_session_maintenance.Transaction.Journal.Lines.{
  unlines, IsLine, print_step-IsLine, print_step-cons, raw_lines-unlines, last?-append,
  unlines-concat,
}

module _ (sha256 : Text → String) (parse : Text → Option TransactionStep) where
  -- The line of the step parses to the step.
  abbrev pub IsReadable : TransactionStep → Type 0
  IsReadable s = parse (print_step s) ≡ some s

  -- The text of a journal that holds just these steps.
  pub record IsJournal (text : Text) (steps : List TransactionStep) : Type 0 where
    pub lines : text ≡ unlines (map print_step steps)
    pub readable : All IsReadable steps
    pub chain : IsChain sha256 steps

  is_next-of-linked :
      (acc : List TransactionStep) (s : TransactionStep)
      → s.sequence ≡ length acc
      → s.previous_hash ≡ hash_of (last? acc)
      → s.entry_hash ≡ hash_entry sha256 (step_payload s)
      → is_next sha256 acc s ≡ true
  unfolding is_next
  is_next-of-linked acc s q p h = ground (
    arith,
    option_beq_iff s.previous_hash (hash_of (last? acc)),
    eq_iff s.entry_hash (hash_entry sha256 (step_payload s)),
  )

  read_lines-step :
      (ended : Bool) (acc : List TransactionStep) (s : TransactionStep) (rest : List Text)
      → IsReadable s
      → is_next sha256 acc s ≡ true
      → read_lines sha256 parse ended acc (print_step s ∷ rest)
        ≡ read_lines sha256 parse ended (acc ++ s ∷ []) rest
  unfolding read_lines
  read_lines-step ended acc s rest r h = let (t, e) = print_step-cons s in ground arith

  pub read_lines-steps :
      (ended : Bool) (n : ℕ) (previous : Option String) (acc es : List TransactionStep)
      (rest : List Text)
      → n ≡ length acc
      → previous ≡ hash_of (last? acc)
      → All IsReadable es
      → Linked sha256 n previous es
      → read_lines sha256 parse ended acc (map print_step es ++ rest)
        ≡ read_lines sha256 parse ended (acc ++ es) rest
  unfolding hash_of
  read_lines-steps ended n previous acc [] rest q p r l =
      ap (λ es. read_lines sha256 parse ended es rest) (sym (append-nil acc))
  read_lines-steps ended n previous acc (s ∷ es) rest q p r l =
      read_lines-step ended acc s (map print_step es ++ rest) r.0
        (is_next-of-linked acc s (l.0 ∙ q) (l.1 ∙ p) l.2)
      ∙ read_lines-steps ended (suc n) (some s.entry_hash) (acc ++ s ∷ []) es rest
          (omega (arith, length-append acc (s ∷ []))) (sym (ap hash_of (last?-append acc [] s))) r.1
          l.3
      ∙ ap (λ es'. read_lines sha256 parse ended es' rest) (append_assoc acc (s ∷ []) es)

  pub print_steps-IsLine : (es : List TransactionStep) → All IsLine (map print_step es)
  print_steps-IsLine [] = tt
  print_steps-IsLine (s ∷ es) = (print_step-IsLine s, print_steps-IsLine es)

  pub read_lines-All :
      (ended : Bool) (es : List TransactionStep)
      → All IsReadable es
      → IsChain sha256 es
      → read_lines sha256 parse ended [] (map print_step es) ≡ ok es
  unfolding read_lines hash_of
  read_lines-All ended es r c =
      ap (read_lines sha256 parse ended []) (sym (append-nil (map print_step es)))
      ∙ read_lines-steps ended 0 none [] es [] refl refl r c

  read_now-empty : read_now sha256 parse [] ≡ ok []
  unfolding read_now read_lines raw_lines split_lines ends_with_newline
  read_now-empty = refl

  -- Reading a journal gives the steps that it holds.
  pub read_now_lem :
      (text : Text) (steps : List TransactionStep)
      → IsJournal text steps
      → read_now sha256 parse text ≡ ok steps
  unfolding read_now
  read_now_lem text [] j = rw j.lines read_now-empty
  read_now_lem text (s ∷ es) j =
      let (e, r) =
        raw_lines-unlines (print_step s) (map print_step es) (print_steps-IsLine (s ∷ es)) in
      rw (j.lines, e, r) (read_lines-All true (s ∷ es) j.readable j.chain)

  module _ (datetime : String → Bool) (text : Text) (steps : List TransactionStep)
      (input : JournalEntryInput) where
    abbrev pub entry : TransactionStep
    entry = next_entry sha256 steps input

    abbrev longer : Text
    longer = text ++ (print_step entry ++ 10 ∷ [])

    appended-IsJournal :
        IsJournal text steps → IsReadable entry → IsJournal longer (steps ++ entry ∷ [])
    appended-IsJournal j r = record {
      lines =
          ap (λ t. t ++ (print_step entry ++ 10 ∷ [])) j.lines
          ∙ sym (unlines-concat (map print_step steps) (print_step entry))
          ∙ ap unlines (sym (map-append print_step steps (entry ∷ [])));
      readable = All-append IsReadable steps (entry ∷ []) j.readable (r, tt);
      chain = next_entry-Linked sha256 steps input j.chain;
    }

    -- Appending to a journal writes one line, and the file is then the journal of the old steps and
    -- the new entry, which is what a read returns: numbered by its place, and linked to the hash of
    -- the step before it.
    pub append_now-read_now :
        IsJournal text steps
        → transaction_step_schema datetime entry ≡ true
        → IsReadable entry
        → (append_now sha256 parse datetime text input).0 ≡ ok entry
          × IsJournal (append_now sha256 parse datetime text input).1 (steps ++ entry ∷ [])
          × (read_now sha256 parse (append_now sha256 parse datetime text input).1
              ≡ ok (steps ++ entry ∷ []))
    unfolding append_now write_entry
    append_now-read_now j v r = ground (
      arith,
      read_now_lem text steps j,
      unlines-concat (map print_step steps) (print_step entry),
      map-append print_step steps (entry ∷ []),
      appended-IsJournal j r,
      read_now_lem _ _ (appended-IsJournal j r),
    )
