-- ===== src/Transaction/Executor.antt =====
-- packages/transaction-engine/src/executor.ts: `applyLocked` and `restoreOnce`, over an arbitrary
-- write adapter. Mutable variables of the source are the results that the parts hand on.
pub mod Restore
pub mod Backup
pub mod Endings
pub mod Opening
use mathlib.Core.Option
use dsh_session_maintenance.Prelude.{
  ℕ, String, Bool, true, false, ◌∷◌, [], ◌++◌, List, Option, none, some, ◌==◌, string_eq, nat_eq,
  list_eq, if◌then◌else◌, length, map_get, map_set, Action, Outcome, ok, thrown, pure, raise,
  demand, attempt, ◌>>=◌, ◌>>◌, Failure, maintenance, other_error, verification_failed,
  backup_corrupt, write_capability_unavailable, find, is_some,
}
use dsh_session_maintenance.Contracts.Json.{Json, num, str}
use dsh_session_maintenance.Contracts.Plan.{PlatformKind, AdapterContractRef, SyncPlan}
use dsh_session_maintenance.Contracts.Transaction.{
  TransactionStatus, prepared, backing_up, applying, verifying, completed, restoring, restored,
  restore_failed, manual_review, TransactionRecord,
}
use dsh_session_maintenance.Contracts.Write.{
  RegisteredInstance, TransactionContext, PreparedWrite, BackupManifest, WriteReceipt,
  VerificationResult, RestoreReceipt, WriteAdapter,
}
use dsh_session_maintenance.Domain.Text.{Text}
use dsh_session_maintenance.Domain.CanonicalJson.{canonical_json}
use dsh_session_maintenance.Domain.Plan.Payload.{object, optional_field}
use dsh_session_maintenance.Transaction.Rows.{receipt_json, restore_receipt_json, sync_plan_json}
use dsh_session_maintenance.Transaction.Store.{create_transaction}
use dsh_session_maintenance.Transaction.Store.Backups.{save_backup_manifest}
use dsh_session_maintenance.Transaction.World.{
  JournalFile, World, in_store, on_platform, read_clock, take_id,
}
use dsh_session_maintenance.Transaction.Transition.{
  plain, error_code_of, TransactionRef, transaction_ref, record_transition,
}

-- The file is written if it is not there, and may be there only with the same content.
unfoldable pub write_once : String → Text → Option Text → {F P : Type 0} → Action (World F P) Unit
write_once id text none w = pure tt (record w { plan_files = map_set id text w.plan_files })
write_once id text (some old) w = demand (old == text) other_error (pure tt) w

-- `persistPlanFile`, by the transaction in whose directory the file is.
unfoldable pub persist_plan_file : {F P : Type 0} → String → SyncPlan → Action (World F P) Unit
unfolding write_once
persist_plan_file id plan w =
    write_once id (canonical_json (sync_plan_json plan) ++ 10 ∷ []) (map_get id w.plan_files) w

-- The data of the step `backup-completed`.
unfoldable pub backup_data : BackupManifest → Json
backup_data manifest =
    object (("backupHash", str manifest.hash) ∷ ("entries", num (length manifest.entries)) ∷ [])

-- `{ ...(originalError === undefined ? {} : { original }), restore }`
unfoldable pub restore_error_data : Option Failure → Failure → Json
restore_error_data original_error restore_error = object (
    optional_field "original" (Option.map (λ e. str (error_code_of e)) original_error)
    ++ ("restore", str (error_code_of restore_error)) ∷ [])

-- What the commit comes to when it does not throw.
pub data Committed : Type 0 where
  finished : TransactionRef → Committed
  unverified : Committed

unfoldable pub new_row :
    SyncPlan
    → RegisteredInstance
    → AdapterContractRef
    → String
    → String
    → String
    → TransactionRecord
new_row plan platform_instance adapter_contract root_identity id at = record {
  id = id;
  plan_id = plan.id;
  plan_hash = plan.hash;
  platform = platform_instance.platform;
  instance_id = platform_instance.id;
  root_identity = root_identity;
  adapter_contract = adapter_contract;
  status = prepared;
  result = none;
  error_code = none;
  created_at = at;
  updated_at = at;
}

unfoldable pub context_of : SyncPlan → String → String → TransactionContext
context_of plan id at = record {
  id = id;
  plan_id = plan.id;
  plan_hash = plan.hash;
  started_at = at;
}

module _ {P : Type 0} (sha256 : Text → String) (datetime : String → Bool)
    (j : JournalFile sha256 datetime) (now id_factory : ℕ → String) (adapter : WriteAdapter P) where
  -- One step without data, at the time of the clock.
  unfoldable pub step_to :
      String → TransactionStatus → String → Action (World j.File P) TransactionRecord
  step_to id status step =
      read_clock now >>= λ at. record_transition sha256 datetime j (plain id status step at)

  unfoldable pub step_with_error :
      String
      → TransactionStatus
      → String
      → Option String
      → Action (World j.File P) TransactionRecord
  step_with_error id status step error_code = read_clock now >>= λ at.
      record_transition sha256 datetime j
        (record (plain id status step at) { error_code = error_code })

  unfoldable pub restore_recorded :
      TransactionContext → RestoreReceipt → Action (World j.File P) TransactionRef
  restore_recorded transaction receipt = read_clock now >>= λ at.
      record_transition sha256 datetime j
        (record (plain transaction.id (if receipt.is_restored then restored else restore_failed)
          (if receipt.is_restored then "restore-completed" else "restore-failed") at) {
            result = some (restore_receipt_json receipt);
            error_code = if receipt.is_restored then none else some "RESTORE_FAILED";
          })
      >>= λ r. pure (transaction_ref r)

  unfoldable pub restore_threw :
      TransactionContext → Option Failure → Failure → Action (World j.File P) TransactionRef
  unfolding restore_error_data
  restore_threw transaction original_error restore_error = read_clock now >>= λ at.
      record_transition sha256 datetime j
        (record (plain transaction.id restore_failed "restore-threw" at) {
          error_code = some "RESTORE_FAILED";
          entry_data = some (restore_error_data original_error restore_error);
        })
      >>= λ r. pure (transaction_ref r)

  unfoldable pub restore_once :
      BackupManifest
      → TransactionContext
      → String
      → Option Failure
      → Action (World j.File P) TransactionRef
  restore_once backup transaction trigger original_error =
      step_with_error transaction.id restoring trigger (Option.map error_code_of original_error)
      >>= λ _.
          attempt
            (on_platform (adapter.restore backup transaction) >>= restore_recorded transaction)
            (restore_threw transaction original_error)

  -- From the preparation to the step `applying`: no commit has started.
  unfoldable pub back_up :
      PreparedWrite → TransactionContext → Action (World j.File P) BackupManifest
  back_up write transaction = step_to transaction.id backing_up "backup-started" >>= λ _.
      on_platform (adapter.backup write transaction) >>= λ manifest.
      demand (manifest.transaction_id == transaction.id) (maintenance backup_corrupt)
        (in_store (save_backup_manifest datetime manifest))
      >>= λ _. read_clock now >>= λ at.
          record_transition sha256 datetime j
            (record (plain transaction.id applying "backup-completed" at) {
              entry_data = some (backup_data manifest);
            })
          >>= λ _. pure manifest

  unfoldable pub before_commit :
      SyncPlan
      → RegisteredInstance
      → TransactionContext
      → Action (World j.File P) (PreparedWrite × BackupManifest)
  before_commit plan platform_instance transaction =
      on_platform (adapter.prepare plan platform_instance transaction) >>= λ write.
      back_up write transaction >>= λ manifest. pure (write, manifest)

  unfoldable pub verified :
      TransactionContext → WriteReceipt → VerificationResult → Action (World j.File P) Committed
  verified transaction receipt verification w =
      if verification.is_ok
      then (read_clock now >>= λ at.
            record_transition sha256 datetime j
              (record (plain transaction.id completed "verification-completed" at) {
                result = some (receipt_json receipt);
              })
            >>= λ r. pure (finished (transaction_ref r)))
          w
      else pure unverified w

  unfoldable pub commit_and_verify :
      PreparedWrite → TransactionContext → Action (World j.File P) Committed
  commit_and_verify write transaction =
      on_platform (adapter.commit write transaction) >>= λ receipt.
      step_to transaction.id verifying "commit-completed" >>= λ _.
      on_platform (adapter.verify receipt write.expected) >>= verified transaction receipt

  -- The `catch` before the commit has started.
  unfoldable pub abort : TransactionContext → Failure → Action (World j.File P) TransactionRef
  abort transaction error =
      step_with_error transaction.id manual_review "write-aborted-before-commit"
        (some (error_code_of error))
      >>= λ _. raise error

  -- The last `return this.restoreOnce(...)` is not awaited, so what it throws is not caught.
  unfoldable pub settle :
      BackupManifest → TransactionContext → Committed → Action (World j.File P) TransactionRef
  settle backup transaction (finished r) = pure r
  settle backup transaction unverified =
      restore_once backup transaction "verification-failed" (some (maintenance verification_failed))

  unfoldable pub commit_or_restore :
      PreparedWrite × BackupManifest → TransactionContext → Action (World j.File P) TransactionRef
  commit_or_restore (write, backup) transaction =
      attempt (commit_and_verify write transaction) (λ error.
        restore_once backup transaction "write-threw-after-commit-start" (some error) >>= λ r.
        pure (finished r))
      >>= settle backup transaction

  unfoldable pub after_backup :
      TransactionContext
      → Outcome (PreparedWrite × BackupManifest) × World j.File P
      → Outcome TransactionRef × World j.File P
  after_backup transaction (ok made, w) = commit_or_restore made transaction w
  after_backup transaction (thrown error, w) = abort transaction error w

  unfoldable pub write_transaction :
      SyncPlan → RegisteredInstance → TransactionContext → Action (World j.File P) TransactionRef
  write_transaction plan platform_instance transaction w =
      after_backup transaction (before_commit plan platform_instance transaction w)

  unfoldable pub open_transaction :
      SyncPlan
      → RegisteredInstance
      → AdapterContractRef
      → String
      → String
      → String
      → Action (World j.File P) TransactionRecord
  open_transaction plan platform_instance adapter_contract root_identity id at =
      persist_plan_file id plan
      >> in_store (
          create_transaction datetime
            (new_row plan platform_instance adapter_contract root_identity id at))
      >>= λ _. record_transition sha256 datetime j (plain id prepared "transaction-created" at)

  unfoldable pub apply_locked :
      SyncPlan
      → RegisteredInstance
      → AdapterContractRef
      → String
      → Action (World j.File P) TransactionRef
  apply_locked plan platform_instance adapter_contract root_identity = read_clock now >>= λ at.
      take_id id_factory >>= λ id.
      open_transaction plan platform_instance adapter_contract root_identity id at >>= λ _.
      write_transaction plan platform_instance (context_of plan id at)
