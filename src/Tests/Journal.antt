-- ===== src/Tests/Journal.antt =====
-- The theorems on the transaction journal at concrete inputs. The digest is a constant, and a line
-- that opens an object with a key parses to the one step of the tests.
use dsh_session_maintenance.Contracts.Schemas.{transaction_step_schema}
use dsh_session_maintenance.Domain.CanonicalJson.{canonical_json}
use dsh_session_maintenance.Prelude.{
  ◌≡◌, refl, String, Bool, true, [], ◌∷◌, ◌++◌, Option, none, some, list_eq, nat_eq, ◌==◌, ◌&&◌,
  if◌then◌else◌, ok, thrown, maintenance, object_corrupt, arith,
}
use dsh_session_maintenance.Contracts.Json.{obj, end}
use dsh_session_maintenance.Contracts.Transaction.{TransactionStep, prepared}
use dsh_session_maintenance.Domain.Text.{Text}
use dsh_session_maintenance.Transaction.Journal.{
  hash_of, make_entry, step_json, JournalEntryInput, next_entry, print_step, read_now, append_now,
}
use dsh_session_maintenance.Transaction.Journal.Chain.{IsChain, read_now-IsChain}
use dsh_session_maintenance.Transaction.Journal.Append.{
  IsJournal, read_now_lem, append_now-read_now,
}
use dsh_session_maintenance.Transaction.Journal.Lines.{IsLine}
use dsh_session_maintenance.Transaction.Journal.Torn.{read_now-torn, append_now-torn}

abbrev digest : Text → String
digest t = "00"

abbrev any_time : String → Bool
any_time s = true

abbrev created : JournalEntryInput
created = record {
  transaction_id = "t1";
  status = prepared;
  step = "transaction-created";
  at = "2026-01-01T00:00:00Z";
  entry_data = obj end;
}

abbrev first_step : TransactionStep
first_step = next_entry digest [] created

abbrev parse : Text → Option TransactionStep
parse [] = none
parse (c ∷ []) = none
parse (c ∷ d ∷ cs) = if c == 123 && d == 34 then some first_step else none

readable : parse (print_step first_step) ≡ some first_step
unfolding print_step canonical_json step_json
readable = refl

empty-IsJournal : IsJournal digest parse [] []
empty-IsJournal = record { lines = refl; readable = tt; chain = tt }

append_now-read_now_example :
    ((append_now digest parse any_time [] created).0 ≡ ok first_step)
    × IsJournal digest parse (append_now digest parse any_time [] created).1 (first_step ∷ [])
    × (read_now digest parse (append_now digest parse any_time [] created).1 ≡ ok (first_step ∷ []))
unfolding transaction_step_schema next_entry make_entry
append_now-read_now_example =
    append_now-read_now digest parse any_time [] [] created empty-IsJournal refl readable

abbrev line : Text
line = print_step first_step ++ 10 ∷ []

one-IsJournal : IsJournal digest parse line (first_step ∷ [])
unfolding next_entry make_entry hash_of
one-IsJournal = record { lines = refl; readable = (readable, tt); chain = (refl, refl, refl, tt) }

read_now-IsChain_example : IsChain digest (first_step ∷ [])
read_now-IsChain_example =
    read_now-IsChain digest parse line (first_step ∷ [])
      (read_now_lem digest parse line (first_step ∷ []) one-IsJournal)

no_break : IsLine (123 ∷ [])
no_break = (λ e. omega arith, tt)

read_now-torn_example : read_now digest parse (line ++ 123 ∷ []) ≡ ok (first_step ∷ [])
read_now-torn_example =
    read_now-torn digest parse line (first_step ∷ []) 123 [] one-IsJournal no_break refl

merged_not_a_step :
    parse ((123 ∷ []) ++ print_step (next_entry digest (first_step ∷ []) created)) ≡ none
unfolding print_step canonical_json step_json
merged_not_a_step = refl

append_now-torn_example :
    ((append_now digest parse any_time (line ++ 123 ∷ []) created).0
      ≡ ok (next_entry digest (first_step ∷ []) created))
    × (read_now digest parse (append_now digest parse any_time (line ++ 123 ∷ []) created).1
        ≡ thrown (maintenance object_corrupt))
unfolding transaction_step_schema next_entry make_entry
append_now-torn_example =
    append_now-torn digest parse line (first_step ∷ []) 123 [] any_time created one-IsJournal
      no_break refl refl merged_not_a_step
