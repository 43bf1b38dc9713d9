-- ===== src/Transaction/Journal/Torn.antt =====
-- A crash can leave a torn last line. Reading tolerates it, and the next append does not.
use dsh_session_maintenance.Prelude.{
  ℕ, ◌≡◌, refl, ap, sym, ◌∙◌, ◌≢◌, String, Bool, true, false, List, [], ◌∷◌, ◌++◌, map,
  append_assoc, Option, none, All-append, arith, ok, thrown, maintenance, object_corrupt,
}
use dsh_session_maintenance.Contracts.Transaction.{TransactionStep}
use dsh_session_maintenance.Contracts.Schemas.{transaction_step_schema}
use dsh_session_maintenance.Domain.Text.{Text}
use dsh_session_maintenance.Transaction.Journal.{
  JournalEntryInput, hash_of, next_entry, print_step, read_lines, read_now, append_now, write_entry,
}
use dsh_session_maintenance.Transaction.Journal.Lines.{
  unlines, IsLine, print_step-IsLine, raw_lines-torn, raw_lines-concat, unlines-concat,
}
use dsh_session_maintenance.Transaction.Journal.Append.{
  IsJournal, read_lines-steps, print_steps-IsLine,
}

module _ (sha256 : Text → String) (parse : Text → Option TransactionStep) (text : Text)
    (steps : List TransactionStep) (c : ℕ) (cs : Text) where
  -- The bytes of a line that the crash cut off: no line break, and no step.
  abbrev torn : Text
  torn = text ++ (c ∷ cs)

  read_lines-torn :
      parse (c ∷ cs) ≡ none → read_lines sha256 parse false steps ((c ∷ cs) ∷ []) ≡ ok steps
  unfolding read_lines
  read_lines-torn h = ground arith

  read_lines-corrupt :
      (x : ℕ) (xs : Text)
      → parse (x ∷ xs) ≡ none
      → read_lines sha256 parse true steps ((x ∷ xs) ∷ []) ≡ thrown (maintenance object_corrupt)
  unfolding read_lines
  read_lines-corrupt x xs h = ground arith

  -- A torn last line is passed over: what is read is what was written before it.
  pub read_now-torn :
      IsJournal sha256 parse text steps
      → IsLine (c ∷ cs)
      → parse (c ∷ cs) ≡ none
      → read_now sha256 parse (text ++ (c ∷ cs)) ≡ ok steps
  unfolding read_now hash_of
  read_now-torn j l h =
      let (e, r) =
        raw_lines-torn (map print_step steps) c cs (print_steps-IsLine sha256 parse steps) l in
      rw (j.lines, e, r)
        (read_lines-steps sha256 parse false 0 none [] steps ((c ∷ cs) ∷ []) refl refl j.readable
            j.chain
          ∙ read_lines-torn h)

  module _ (datetime : String → Bool) (input : JournalEntryInput) where
    abbrev merged : Text
    merged = (c ∷ cs) ++ print_step (next_entry sha256 steps input)

    merged-IsLine : IsLine (c ∷ cs) → IsLine merged
    merged-IsLine l =
        All-append (λ c. c ≢ 10) (c ∷ cs) (print_step (next_entry sha256 steps input)) l
          (print_step-IsLine (next_entry sha256 steps input))

    abbrev written : Text
    written = (text ++ (c ∷ cs)) ++ (print_step (next_entry sha256 steps input) ++ 10 ∷ [])

    written-lines :
        IsJournal sha256 parse text steps → written ≡ unlines (map print_step steps ++ merged ∷ [])
    written-lines j =
        append_assoc text (c ∷ cs) (print_step (next_entry sha256 steps input) ++ 10 ∷ [])
        ∙ ap (◌++◌ text)
            (sym (append_assoc (c ∷ cs) (print_step (next_entry sha256 steps input)) (10 ∷ [])))
        ∙ ap (λ t. t ++ (merged ++ 10 ∷ [])) j.lines
        ∙ sym (unlines-concat (map print_step steps) merged)

    written-corrupt :
        IsJournal sha256 parse text steps
        → IsLine (c ∷ cs)
        → parse merged ≡ none
        → read_now sha256 parse written ≡ thrown (maintenance object_corrupt)
    unfolding read_now hash_of
    written-corrupt j l m =
        let (e, r) =
          raw_lines-concat (map print_step steps) merged (print_steps-IsLine sha256 parse steps)
            (merged-IsLine l) in
        rw (written-lines j, e, r)
          (read_lines-steps sha256 parse true 0 none [] steps (merged ∷ []) refl refl j.readable
              j.chain
            ∙ read_lines-corrupt c (cs ++ print_step (next_entry sha256 steps input)) m)

    -- An append to a journal with a torn last line reports success, but the new entry stands on the
    -- line of the torn one; unless that makes a step, every later read fails as corrupt.
    pub append_now-torn :
        IsJournal sha256 parse text steps
        → IsLine (c ∷ cs)
        → parse (c ∷ cs) ≡ none
        → transaction_step_schema datetime (next_entry sha256 steps input) ≡ true
        → parse ((c ∷ cs) ++ print_step (next_entry sha256 steps input)) ≡ none
        → ((append_now sha256 parse datetime (text ++ (c ∷ cs)) input).0
            ≡ ok (next_entry sha256 steps input))
          × (read_now sha256 parse (append_now sha256 parse datetime (text ++ (c ∷ cs)) input).1
              ≡ thrown (maintenance object_corrupt))
    unfolding append_now write_entry
    append_now-torn j l h v m = ground (arith, read_now-torn j l h, written-corrupt j l m)
