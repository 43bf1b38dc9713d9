-- ===== src/Transaction/Journal.antt =====
-- packages/transaction-engine/src/journal.ts: the append-only journal of one transaction, as the
-- text of its file (an absent file is an empty text). Reads and writes of the file succeed.
pub mod Chain
pub mod Lines
pub mod Append
pub mod Torn
pub mod File
use Prim.Native.String as S
use dsh_session_maintenance.Prelude.{
  ℕ, String, Bool, true, false, ◌&&◌, ◌||◌, not, List, [], ◌∷◌, ◌++◌, Option, none, some, Eq, ◌==◌,
  string_eq, nat_eq, option_eq, list_eq, if◌then◌else◌, length, last?, is_empty, Outcome, ok,
  thrown, maintenance, object_corrupt, schema_error,
}
use dsh_session_maintenance.Contracts.Json.{Json, null, num, str}
use dsh_session_maintenance.Contracts.Transaction.{
  TransactionStatus, prepared, backing_up, applying, verifying, completed, restoring, restored,
  restore_failed, manual_review, TransactionStep,
}
use dsh_session_maintenance.Contracts.Schemas.{transaction_step_schema}
use dsh_session_maintenance.Domain.Text.{Text}
use dsh_session_maintenance.Domain.CanonicalJson.{canonical_json}
use dsh_session_maintenance.Domain.Plan.Payload.{object}

pub record JournalEntryInput : Type 0 where
  pub transaction_id : String
  pub status : TransactionStatus
  pub step : String
  pub at : String
  pub entry_data : Json

unfoldable pub status_text : TransactionStatus → String
status_text prepared = "prepared"
status_text backing_up = "backing-up"
status_text applying = "applying"
status_text verifying = "verifying"
status_text completed = "completed"
status_text restoring = "restoring"
status_text restored = "restored"
status_text restore_failed = "restore-failed"
status_text manual_review = "manual-review"

unfoldable pub nullable : Option String → Json
nullable none = null
nullable (some s) = str s

-- The fields of `entryPayload`; `hash_fields` is what a printed entry has besides.
unfoldable pub payload_json :
    String
    → ℕ
    → TransactionStatus
    → String
    → Json
    → Option String
    → String
    → List (String × Json)
    → Json
unfolding object status_text nullable
payload_json transaction_id sequence status step entry_data previous_hash at hash_fields = object (
    ("transactionId", str transaction_id)
    ∷ ("sequence", num sequence)
    ∷ ("status", str (status_text status))
    ∷ ("step", str step)
    ∷ ("data", entry_data)
    ∷ ("previousHash", nullable previous_hash)
    ∷ ("at", str at)
    ∷ hash_fields)

-- The payload of a step that has been read or made.
unfoldable pub step_payload : TransactionStep → Json
unfolding payload_json
step_payload s =
    payload_json s.transaction_id s.sequence s.status s.step s.entry_data s.previous_hash s.at []

unfoldable pub step_json : TransactionStep → Json
unfolding payload_json
step_json s =
    payload_json s.transaction_id s.sequence s.status s.step s.entry_data s.previous_hash s.at
      (("entryHash", str s.entry_hash) ∷ [])

-- The line of a step, without its line break.
unfoldable pub print_step : TransactionStep → Text
print_step s = canonical_json (step_json s)

-- `previous?.entryHash ?? null`
unfoldable pub hash_of : Option TransactionStep → Option String
hash_of none = none
hash_of (some s) = some s.entry_hash

unfoldable pub cons_head : ℕ → List Text → List Text
cons_head c [] = (c ∷ []) ∷ []
cons_head c (l ∷ ls) = (c ∷ l) ∷ ls

-- `text.split("\n")`
unfoldable pub split_lines : Text → List Text
unfolding cons_head
split_lines [] = [] ∷ []
split_lines (c ∷ cs) = let rest = split_lines cs in if c == 10 then [] ∷ rest else cons_head c rest

-- `rawLines.pop()`
unfoldable pub drop_last {ℓ} : {A : Type ℓ} → List A → List A
drop_last [] = []
drop_last (x ∷ []) = []
drop_last (x ∷ y ∷ xs) = x ∷ drop_last (y ∷ xs)

unfoldable pub ends_with_newline : Text → Bool
ends_with_newline text = last? text == some 10

unfoldable pub raw_lines : Text → List Text
unfolding split_lines drop_last ends_with_newline
raw_lines text = if ends_with_newline text then drop_last (split_lines text) else split_lines text

module _ (sha256 : Text → String) where
  unfoldable pub hash_entry : Json → String
  hash_entry value = S.◌++◌ "sha256:" (sha256 (canonical_json value))

  unfoldable pub make_entry : JournalEntryInput → ℕ → Option String → TransactionStep
  unfolding hash_entry
  make_entry input sequence previous_hash = record {
    transaction_id = input.transaction_id;
    sequence = sequence;
    status = input.status;
    step = input.step;
    entry_data = input.entry_data;
    previous_hash = previous_hash;
    entry_hash = hash_entry (
        payload_json input.transaction_id sequence input.status input.step input.entry_data
          previous_hash input.at []);
    at = input.at;
  }

  -- The entry that `appendNow` makes behind the entries of the file.
  unfoldable pub next_entry : List TransactionStep → JournalEntryInput → TransactionStep
  next_entry existing input = make_entry input (length existing) (hash_of (last? existing))

  -- The three tests on a parsed line, behind the entries read so far.
  unfoldable pub is_next : List TransactionStep → TransactionStep → Bool
  unfolding hash_of hash_entry step_payload
  is_next entries parsed =
      parsed.sequence == length entries
      && parsed.previous_hash == hash_of (last? entries)
      && parsed.entry_hash == hash_entry (step_payload parsed)

  -- `parse` is `transactionStepSchema.parse(JSON.parse(line))`, `none` where it throws.
  module _ (parse : Text → Option TransactionStep) where
    -- The loop of `readNow` over the lines that are left.
    unfoldable pub read_lines :
        Bool → List TransactionStep → List Text → Outcome (List TransactionStep)
    read_lines ended entries [] = ok entries
    read_lines ended entries ([] ∷ rest) = read_lines ended entries rest
    read_lines ended entries ((c ∷ cs) ∷ rest) = elim (parse (c ∷ cs)) [
      | none ↦
          if not ended && is_empty rest then ok entries else thrown (maintenance object_corrupt)
      | some parsed ↦
          let more = read_lines ended (entries ++ parsed ∷ []) rest in
          if is_next entries parsed then more else thrown (maintenance object_corrupt)
    ]

    unfoldable pub read_now : Text → Outcome (List TransactionStep)
    read_now text = read_lines (ends_with_newline text) [] (raw_lines text)

    module _ (datetime : String → Bool) where
      unfoldable pub write_entry : Text → TransactionStep → Outcome TransactionStep × Text
      write_entry text entry =
          if transaction_step_schema datetime entry
          then (ok entry, text ++ (print_step entry ++ 10 ∷ []))
          else (thrown schema_error, text)

      -- The result, and the text of the file afterwards.
      unfoldable pub append_now : Text → JournalEntryInput → Outcome TransactionStep × Text
      append_now text input = elim (read_now text) [
        | thrown failure ↦ (thrown failure, text)
        | ok existing ↦ write_entry text (next_entry existing input)
      ]
