-- ===== src/Tests/Recovery.antt =====
-- The theorems on confirmations, on recorded steps and on the recovery at concrete inputs.
use dsh_session_maintenance.Transaction.Store.Confirmations.{
  save_confirmation, consume_confirmation, get_confirmation,
}
use Prim.Native.String as S
use dsh_session_maintenance.Prelude.{
  ℕ, suc, ◌≡◌, refl, String, true, [], ◌∷◌, none, some, string_eq, ok, thrown, maintenance,
  confirmation_required, if◌then◌else◌, leb, confirmation_expired, confirmation_scope_mismatch,
  length, arith, subst, ap, zero,
}
use dsh_session_maintenance.Contracts.Plan.{dsh}
use dsh_session_maintenance.Contracts.Transaction.{
  prepared, completed, restored, TransactionRecord, TransactionStep,
}
use dsh_session_maintenance.Contracts.Schemas.{
  transaction_step_schema, transaction_record_schema, id_schema, stored_confirmation_schema,
  confirmation_scope_schema, backup_manifest_schema,
}
use dsh_session_maintenance.Transaction.Store.Backups.{find_backup}
use dsh_session_maintenance.Contracts.Write.{
  BackupManifest, ConfirmationScope, StoredConfirmation, IssuedConfirmation, RestoreReceipt,
}
use dsh_session_maintenance.Domain.Text.{utf16, codes}
use dsh_session_maintenance.Transaction.Journal.{hash_of, make_entry, next_entry}
use dsh_session_maintenance.Transaction.Store.{Store}
use dsh_session_maintenance.Transaction.World.{World}
use dsh_session_maintenance.Transaction.Confirmation.{
  consume_stored, token_hash_of, issue, consume_token, is_same_scope, stored_for,
}
use dsh_session_maintenance.Transaction.Confirmation.OneTime.{
  consume_token_once, issue-consume_token,
}
use dsh_session_maintenance.Transaction.Transition.{
  Transition, plain, journal_input, record_transition,
}
use dsh_session_maintenance.Transaction.Transition.Synced.{
  IsSynced, moved_row, entry_of, record_transition-IsSynced,
}
use dsh_session_maintenance.Transaction.Recovery.{recover_open, reconcile_journal}
use dsh_session_maintenance.Transaction.Recovery.Replay.{IsCaughtUp, reconcile_journal-IsCaughtUp}
use dsh_session_maintenance.Transaction.Recovery.Interrupted.{recover_open-completed}
use dsh_session_maintenance.Tests.Executor.{
  digest, any_time, now, contract, plan, manifest, counter, file, store, world,
}

abbrev iso : ℕ → String
iso n = "2026"

abbrev time : String → ℕ
time s = 5

abbrev scope : ConfirmationScope
scope = record { operation = "restore"; resource_id = "tx_1"; operation_hash = "h" }

abbrev token_row : StoredConfirmation
token_row = record {
  token_hash = "sha256:00";
  operation = "restore";
  resource_id = "tx_1";
  operation_hash = "h";
  expires_at = "2026";
  created_at = "2026";
  consumed_at = none;
}

abbrev with_token : Store
with_token = record store { confirmations = token_row ∷ [] }

abbrev used_token : Store
used_token = record store { confirmations = record token_row { consumed_at = some "2026" } ∷ [] }

consumed_once :
    consume_token digest any_time iso time "secret-token" scope 3 with_token ≡ (ok tt, used_token)
unfolding consume_token confirmation_scope_schema get_confirmation token_hash_of
    stored_confirmation_schema consume_stored consume_confirmation
consumed_once = refl

consume_token_once_example :
    consume_token digest any_time iso time "secret-token" scope 4 used_token
    ≡ (thrown (maintenance confirmation_required), used_token)
unfolding confirmation_scope_schema
consume_token_once_example =
    consume_token_once digest any_time iso time (λ n. refl) "secret-token" scope scope 3 4
      with_token used_token consumed_once refl

abbrev created : Transition
created = plain "tx_1" prepared "transaction-created" "2026"

abbrev row : TransactionRecord
row = record {
  id = "tx_1";
  plan_id = "plan_1";
  plan_hash = "h1";
  platform = dsh;
  instance_id = "d1";
  root_identity = "/dsh";
  adapter_contract = contract;
  status = prepared;
  result = none;
  error_code = none;
  created_at = "2026";
  updated_at = "2026";
}

abbrev opened : World file.File ℕ
opened = record world { store = record store { transactions = row ∷ [] } }

record_transition-IsSynced_example :
    ((record_transition digest any_time file created opened).0
      ≡ ok (moved_row digest any_time file created [] row))
    × ((moved_row digest any_time file created [] row).status ≡ prepared)
    × IsSynced digest any_time file "tx_1"
        (moved_row digest any_time file created [] row)
        (entry_of digest any_time file [] created ∷ [])
        (record_transition digest any_time file created opened).1
unfolding id_schema transaction_record_schema
record_transition-IsSynced_example =
    record_transition-IsSynced digest any_time file created row [] opened
      (record { id_given = refl; step_named = refl; at_valid = refl; data_held = tt })
      (record {
        tracked = record { row_found = refl; row_valid = refl; steps_kept = refl };
        held = (refl, tt);
      })

-- The store missed the only step, `completed`.
abbrev last_step : TransactionStep
last_step =
    next_entry digest [] (journal_input (plain "tx_1" completed "verification-completed" "2026"))

abbrev interrupted : World file.File ℕ
interrupted = record world {
  store = record store { transactions = row ∷ []; backups = manifest ∷ [] };
  journals = λ id. last_step ∷ [];
}

reconcile_journal-IsCaughtUp_example :
    IsCaughtUp digest any_time file now "tx_1" completed
      (last_step ∷ [])
      interrupted
      (reconcile_journal digest any_time file now row interrupted)
unfolding transaction_record_schema next_entry make_entry hash_of journal_input
    transaction_step_schema
reconcile_journal-IsCaughtUp_example =
    reconcile_journal-IsCaughtUp digest any_time file now row [] (last_step ∷ []) interrupted
      (record { row_found = refl; row_valid = refl; steps_kept = refl }) refl
      (refl, (refl, refl, refl, tt)) ((refl, refl), tt)

abbrev receipt : RestoreReceipt
receipt = record { transaction_id = "tx_1"; is_restored = true; fingerprints = []; issues = [] }

backups_valid :
    (m : BackupManifest)
    → find_backup "tx_1" interrupted.store ≡ some m
    → backup_manifest_schema any_time m ≡ true
unfolding backup_manifest_schema
backups_valid m e =
    let same : manifest ≡ m = ground arith in
    subst (λ x. backup_manifest_schema any_time x ≡ true) same refl

recover_open-completed_example :
    (recover_open digest any_time file now counter plan row interrupted).0
    ≡ ok (record { id = "tx_1"; status = restored })
unfolding transaction_record_schema next_entry make_entry hash_of journal_input
    transaction_step_schema
recover_open-completed_example =
    recover_open-completed digest any_time file now (λ n. refl) tt counter plan row []
      (last_step ∷ []) interrupted
      (record { row_found = refl; row_valid = refl; steps_kept = refl }) refl
      (refl, (refl, refl, refl, tt)) ((refl, refl), tt) backups_valid manifest receipt refl refl
      (λ c. refl) refl

-- A clock that writes a moment as so many marks, which can be read back.
abbrev marks : ℕ → String
marks zero = S.[]
marks (suc n) = S.◌∷◌ "x" (marks n)

abbrev count_marks : String → ℕ
count_marks s = length (codes s)

count-marks : (n : ℕ) → count_marks (marks n) ≡ n
count-marks zero = refl
count-marks (suc n) = ap suc (count-marks n)

abbrev issued : IssuedConfirmation
issued = record { scope = scope; token = "secret-token"; expires_at = "xxxxx" }

abbrev with_issued : Store
with_issued = record store {
  confirmations = record token_row { created_at = "xxx"; expires_at = "xxxxx" } ∷ [];
}

issue_runs :
    issue digest any_time marks count_marks 2 scope "secret-token" 3 store
    ≡ (ok issued, with_issued)
unfolding issue confirmation_scope_schema utf16 save_confirmation stored_confirmation_schema
    stored_for token_hash_of
issue_runs = refl

issue-consume_token_example :
    (consume_token digest any_time marks count_marks "secret-token" scope 4 with_issued).0 ≡ (
      if is_same_scope (stored_for digest any_time marks count_marks scope "secret-token" 3 5) scope
      then (if leb 5 4 then thrown (maintenance confirmation_expired) else ok tt)
      else thrown (maintenance confirmation_scope_mismatch))
unfolding confirmation_scope_schema
issue-consume_token_example =
    issue-consume_token digest any_time marks count_marks (λ n. refl) count-marks 2 "secret-token"
      scope scope 3 4 store with_issued issued refl issue_runs refl
