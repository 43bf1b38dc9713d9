-- ===== src/Tests/Locks.antt =====
-- The theorems on the lock of a root, on the guards under it and on the restore, at concrete inputs.
use dsh_session_maintenance.Transaction.Journal.{hash_of, make_entry, next_entry}
use dsh_session_maintenance.Domain.Plan.Payload.{adapter_contract_json}
use dsh_session_maintenance.Domain.CanonicalJson.{canonical_json}
use dsh_session_maintenance.Prelude.{
  ok, ◌+◌, Option, ◌⊎◌, Failure, ℕ, ◌≡◌, refl, String, true, [], ◌∷◌, none, some, string_eq, thrown,
  maintenance, subst, find, Action, pure, recovery_required, arith,
}
use dsh_session_maintenance.Contracts.Plan.{dsh, PlatformKind}
use dsh_session_maintenance.Contracts.Write.{RegisteredInstance, WriteAdapter, ConfirmationScope}
use dsh_session_maintenance.Transaction.Confirmation.{consume_token, token_hash_of, consume_stored}
use dsh_session_maintenance.Transaction.Store.Confirmations.{get_confirmation, consume_confirmation}
use dsh_session_maintenance.Transaction.Store.Backups.{get_backup_manifest}
use dsh_session_maintenance.Transaction.Executor.{restore_once, step_with_error, restore_recorded}
use dsh_session_maintenance.Transaction.Transition.{
  transaction_ref, journal_input, record_transition,
}
use dsh_session_maintenance.Transaction.Restore.{
  restore_scope, restore, scope_for, is_restorable, scope_of, restore_found, restore_with,
  is_completed, is_restored, restore_probed, restore_current, restore_context,
}
use dsh_session_maintenance.Transaction.Restore.Confirmed.{restore-confirmed}
use dsh_session_maintenance.Contracts.Transaction.{prepared, completed, restored, TransactionRecord}
use dsh_session_maintenance.Contracts.Schemas.{
  transaction_step_schema, backup_manifest_schema, confirmation_scope_schema,
  stored_confirmation_schema, transaction_record_schema,
}
use dsh_session_maintenance.Transaction.Store.{
  latest, last_step, insert_step, get_transaction, has_id, is_resolved,
}
use dsh_session_maintenance.Transaction.World.{World}
use dsh_session_maintenance.Transaction.Lock.{run_locked, release, lock_path, with_lock}
use dsh_session_maintenance.Domain.Text.{Text}
use dsh_session_maintenance.Transaction.Lock.{lock_key}
use dsh_session_maintenance.Transaction.Lock.Queue.{
  Managers, waiting, running, make_call, begin_first, begin_call, end_first, end_call, Step, Reach,
  idle,
}
use dsh_session_maintenance.Transaction.Lock.Exclusive.{IsExclusive, with_lock-IsExclusive}
use dsh_session_maintenance.Transaction.Apply.{
  is_on_root, is_compatible, capability, apply_under_lock,
}
use dsh_session_maintenance.Transaction.Apply.Blocked.{apply_under_lock-blocked}
use dsh_session_maintenance.Transaction.Store.{record_transaction_step, transition_row}
use dsh_session_maintenance.Transaction.Transition.{store_input}
use dsh_session_maintenance.Tests.Executor.{
  digest, any_time, now, id_factory, contract, home, plan, counter, file, manifest, store, world,
}

abbrev iso : ℕ → String
iso n = "2026"

abbrev time : String → ℕ
time s = 5

abbrev nothing : Action (World file.File ℕ) Unit
nothing = pure tt

-- The key of the root, two calls of one manager for it, and one of another.
abbrev root : Text
root = lock_key "d1" "/dsh"

abbrev pids : ℕ → ℕ
pids m = 7 + m

abbrev two_managers : Managers file.File ℕ
two_managers =
    make_call 1 root 30
      (make_call 0 root 20 (begin_call digest pids 0 root (make_call 0 root 10 (idle world))))

two_managers_reached : Reach digest pids world two_managers
two_managers_reached =
    Reach.later
      (Reach.later (Reach.later (Reach.later Reach.start (Step.make 0 root 10)) (Step.begin 0 root))
        (Step.make 0 root 20))
      (Step.make 1 root 30)

-- The second call of the first manager waits; the call of the other one is refused.
second_waits : two_managers.tails 0 root ≡ running 10 ∷ waiting 20 ∷ []
unfolding make_call begin_call begin_first
second_waits = refl

other_refused : (begin_call digest pids 1 root two_managers).refused ≡ 30 ∷ []
unfolding make_call begin_call begin_first
other_refused = refl

-- When the first one has ended, the second runs.
second_runs :
    (begin_call digest pids 0 root (end_call digest 0 root two_managers)).tails 0 root
    ≡ running 20 ∷ []
unfolding make_call begin_call begin_first end_call end_first
second_runs = refl

with_lock-IsExclusive_example : IsExclusive digest pids two_managers
with_lock-IsExclusive_example =
    with_lock-IsExclusive digest pids world two_managers two_managers_reached

-- An earlier transaction of another plan, which stopped before its write.
abbrev earlier : TransactionRecord
earlier = record {
  id = "tx_0";
  plan_id = "plan_0";
  plan_hash = "h0";
  platform = dsh;
  instance_id = "d1";
  root_identity = "/dsh";
  adapter_contract = contract;
  status = prepared;
  result = none;
  error_code = none;
  created_at = "2026";
  updated_at = "2026";
}

abbrev blocked : World file.File ℕ
blocked = record world { store = record store { transactions = earlier ∷ [] } }

abbrev adapters : PlatformKind → Option (WriteAdapter ℕ)
adapters p = some counter

abbrev instances : String → Option RegisteredInstance
instances id = some home

rows_valid :
    (id : String) (row : TransactionRecord)
    → find (has_id id) blocked.store.transactions ≡ some row
    → transaction_record_schema any_time row ≡ true
unfolding transaction_record_schema
rows_valid id row e =
    let same : earlier ≡ row = ground arith in
    subst (λ x. transaction_record_schema any_time x ≡ true) same refl

apply_under_lock-blocked_example :
    apply_under_lock digest any_time file now id_factory plan home counter contract "/dsh" blocked
    ≡ (thrown (maintenance recovery_required), blocked)
unfolding is_on_root is_resolved
apply_under_lock-blocked_example =
    apply_under_lock-blocked digest any_time file home "/dsh" blocked earlier rows_valid refl refl
      refl now id_factory plan counter contract refl

-- A verified write with its backup, and the confirmation that takes it back.
abbrev finished : World file.File ℕ
finished = record world {
  store = record store {
    transactions = record earlier { id = "tx_1"; status = completed } ∷ [];
    backups = manifest ∷ [];
    confirmations =
        record {
          token_hash = "sha256:00";
          operation = "restore";
          resource_id = "tx_1";
          operation_hash = "sha256:00";
          expires_at = "2026";
          created_at = "2026";
          consumed_at = none;
        }
        ∷ [];
  };
}

restore_runs :
    (restore digest any_time file now id_factory 7 adapters instances iso time "tx_1" "secret-token"
      3 finished).0
    ≡ ok (record { id = "tx_1"; status = restored })
unfolding restore restore_scope get_transaction transaction_record_schema get_backup_manifest
    backup_manifest_schema scope_for is_restorable consume_token confirmation_scope_schema scope_of
    get_confirmation token_hash_of stored_confirmation_schema consume_stored consume_confirmation
    restore_found restore_with capability is_completed is_restored restore_probed is_compatible
    with_lock lock_path run_locked release restore_current restore_context restore_once
    step_with_error restore_recorded record_transition canonical_json adapter_contract_json
    transaction_step_schema next_entry make_entry journal_input record_transaction_step store_input
    transition_row insert_step last_step latest hash_of transaction_ref
restore_runs = refl

-- Later the token has expired, so that this is the second case.
restore-confirmed_example :
    ((scope : ConfirmationScope) × ((restore_scope digest any_time "tx_1" finished.store).0
        ≡ ok scope)
      × ((consume_token digest any_time iso time "secret-token" scope 9
            (restore_scope digest any_time "tx_1" finished.store).1).0
          ≡ ok tt))
    ⊎ ((e : Failure) × ((restore digest any_time file now id_factory 7 adapters instances iso time
            "tx_1" "secret-token" 9 finished).0
          ≡ thrown e)
        × ((restore digest any_time file now id_factory 7 adapters instances iso time "tx_1"
              "secret-token" 9 finished).1.platform
            ≡ finished.platform)
        × ((restore digest any_time file now id_factory 7 adapters instances iso time "tx_1"
              "secret-token" 9 finished).1.journals
            ≡ finished.journals)
        × ((restore digest any_time file now id_factory 7 adapters instances iso time "tx_1"
              "secret-token" 9 finished).1.locks
            ≡ finished.locks))
restore-confirmed_example =
    restore-confirmed digest any_time file now id_factory 7 adapters instances iso time "tx_1"
      "secret-token" 9 finished
