-- ===== src/Transaction/Journal/File.antt =====
-- The journal as the engine uses it: the text of the file fills the interface, if the parser reads
-- the lines of the steps that may be written; and so does a list of steps in memory.
use dsh_session_maintenance.Prelude.{
  ◌≡◌, refl, ap, String, Bool, true, List, [], ◌∷◌, ◌++◌, Option, some, arith, ok, thrown, Action,
  if◌then◌else◌, schema_error,
}
use dsh_session_maintenance.Contracts.Json.{Json}
use dsh_session_maintenance.Contracts.Transaction.{TransactionStep}
use dsh_session_maintenance.Contracts.Schemas.{transaction_step_schema}
use dsh_session_maintenance.Domain.Text.{Text}
use dsh_session_maintenance.Transaction.Journal.{
  JournalEntryInput, next_entry, make_entry, print_step, read_now, append_now,
}
use dsh_session_maintenance.Transaction.Journal.Chain.{IsChain, next_entry-Linked}
use dsh_session_maintenance.Transaction.Journal.Append.{
  IsJournal, read_now_lem, append_now-read_now,
}
use dsh_session_maintenance.Transaction.World.{JournalFile}

module _ (sha256 : Text → String) (datetime : String → Bool) where
  -- `AppendOnlyJournal` on the text of its file.
  unfoldable pub text_journal :
      (parse : Text → Option TransactionStep) (CanHold : Json → Type 0)
      → ((s : TransactionStep)
          → CanHold s.entry_data
          → transaction_step_schema datetime s ≡ true
          → parse (print_step s) ≡ some s)
      → JournalFile sha256 datetime
  unfolding next_entry make_entry
  text_journal parse CanHold readable = record {
    File = Text;
    absent = [];
    read = read_now sha256 parse;
    append = λ input text. append_now sha256 parse datetime text input;
    CanHold = CanHold;
    Holds = IsJournal sha256 parse;
    absent-Holds = record { lines = refl; readable = tt; chain = tt };
    Holds-IsChain = λ file steps h. h.chain;
    read_holds = read_now_lem sha256 parse;
    append_holds = λ file steps input h d v.
        let r = readable (next_entry sha256 steps input) d v in
        let (a, b, c) = append_now-read_now sha256 parse datetime file steps input h v r in (a, b);
  }

  abbrev pub append_to : JournalEntryInput → Action (List TransactionStep) TransactionStep
  append_to input steps =
      if transaction_step_schema datetime (next_entry sha256 steps input)
      then (ok (next_entry sha256 steps input), steps ++ next_entry sha256 steps input ∷ [])
      else (thrown schema_error, steps)

  abbrev pub IsList : List TransactionStep → List TransactionStep → Type 0
  IsList file steps = (file ≡ steps) × IsChain sha256 steps

  pub append_to-IsList :
      (file steps : List TransactionStep) (input : JournalEntryInput)
      → IsList file steps
      → transaction_step_schema datetime (next_entry sha256 steps input) ≡ true
      → ((append_to input file).0 ≡ ok (next_entry sha256 steps input))
        × IsList (append_to input file).1 (steps ++ next_entry sha256 steps input ∷ [])
  append_to-IsList file steps input (e, c) v =
      (ground arith, (ground arith, next_entry-Linked sha256 steps input c))

  -- A journal in memory, which can hold any data.
  abbrev pub list_journal : JournalFile sha256 datetime
  list_journal = record {
    File = List TransactionStep;
    absent = [];
    read = λ file. ok file;
    append = append_to;
    CanHold = λ data'. Unit;
    Holds = IsList;
    absent-Holds = (refl, tt);
    Holds-IsChain = λ file steps h. h.1;
    read_holds = λ file steps h. ap ok h.0;
    append_holds = λ file steps input h d v. append_to-IsList file steps input h v;
  }
