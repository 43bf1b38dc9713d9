-- ===== src/Transaction/Restore.antt =====
-- packages/transaction-engine/src/executor.ts: `restoreScope` and `restore`, with a confirmation
-- service. Its clock is asked once, when the token is consumed: `confirmed_at`.
pub mod Confirmed
use Prim.Native.String as S
use dsh_session_maintenance.Prelude.{
  ℕ, String, Bool, true, false, ◌∷◌, [], Option, none, some, ◌==◌, list_eq, nat_eq, string_eq,
  Action, pure, raise, demand, ◌&&◌, ◌>>=◌, ◌>>◌, maintenance, transaction_not_restorable,
  adapter_incompatible, if◌then◌else◌,
}
use dsh_session_maintenance.Contracts.Json.{str}
use dsh_session_maintenance.Contracts.Plan.{PlatformKind, AdapterContractRef}
use dsh_session_maintenance.Contracts.Transaction.{
  TransactionStatus, completed, restored, TransactionRecord,
}
use dsh_session_maintenance.Contracts.Write.{
  RegisteredInstance, TransactionContext, BackupManifest, WriteProbe, WriteAdapter,
  ConfirmationScope,
}
use dsh_session_maintenance.Domain.Text.{Text}
use dsh_session_maintenance.Domain.CanonicalJson.{canonical_json}
use dsh_session_maintenance.Domain.Plan.Payload.{object, adapter_contract_json}
use dsh_session_maintenance.Transaction.Store.{Store, get_transaction}
use dsh_session_maintenance.Transaction.Store.Backups.{get_backup_manifest}
use dsh_session_maintenance.Transaction.World.{JournalFile, World, in_store, on_platform}
use dsh_session_maintenance.Transaction.Transition.{TransactionRef, transaction_ref}
use dsh_session_maintenance.Transaction.Confirmation.{consume_token}
use dsh_session_maintenance.Transaction.Executor.{restore_once}
use dsh_session_maintenance.Transaction.Lock.{with_lock}
use dsh_session_maintenance.Transaction.Apply.{is_compatible, capability}

unfoldable pub is_completed : TransactionStatus → Bool
is_completed completed = true
is_completed _ = false

unfoldable pub is_restored : TransactionStatus → Bool
is_restored restored = true
is_restored _ = false

-- `["completed", "restored"].includes(status)`
unfoldable pub is_restorable : TransactionStatus → Bool
is_restorable completed = true
is_restorable restored = true
is_restorable _ = false

unfoldable pub scope_of : (Text → String) → String → BackupManifest → ConfirmationScope
scope_of sha256 transaction_id backup = record {
  operation = "restore";
  resource_id = transaction_id;
  operation_hash = S.◌++◌ "sha256:" (
      sha256 (
        canonical_json
          (object (("transactionId", str transaction_id) ∷ ("backupHash", str backup.hash) ∷ []))));
}

unfoldable pub scope_for :
    {S : Type 0}
    → (Text → String)
    → String
    → Option TransactionRecord
    → Option BackupManifest
    → Action S ConfirmationScope
scope_for sha256 transaction_id (some transaction) (some backup) =
    demand (is_restorable transaction.status) (maintenance transaction_not_restorable)
      (pure (scope_of sha256 transaction_id backup))
scope_for sha256 transaction_id _ _ = raise (maintenance transaction_not_restorable)

unfoldable pub restore_scope :
    (Text → String) → (String → Bool) → String → Action Store ConfirmationScope
restore_scope sha256 datetime transaction_id =
    get_transaction datetime transaction_id >>= λ transaction.
    get_backup_manifest datetime transaction_id >>= λ backup.
    scope_for sha256 transaction_id transaction backup

unfoldable pub restore_context : TransactionRecord → TransactionContext
restore_context r = record {
  id = r.id;
  plan_id = r.plan_id;
  plan_hash = r.plan_hash;
  started_at = r.created_at;
}

module _ {P : Type 0} (sha256 : Text → String) (datetime : String → Bool)
    (j : JournalFile sha256 datetime) (now id_factory : ℕ → String) where
  -- Under the lock, with what the store then has.
  unfoldable pub restore_current :
      WriteAdapter P
      → BackupManifest
      → Option TransactionRecord
      → Action (World j.File P) TransactionRef
  unfolding restore_context is_restored is_completed
  restore_current adapter backup none = raise (maintenance transaction_not_restorable)
  restore_current adapter backup (some current) =
      if is_restored current.status
      then pure (transaction_ref current)
      else demand (is_completed current.status) (maintenance transaction_not_restorable) (
          restore_once sha256 datetime j now id_factory adapter backup (restore_context current)
            "explicit-restore" none)

  unfoldable pub restore_probed :
      ℕ
      → WriteAdapter P
      → BackupManifest
      → TransactionRecord
      → WriteProbe
      → Action (World j.File P) TransactionRef
  unfolding is_compatible
  restore_probed pid adapter backup transaction probe =
      demand
        (is_compatible probe.status
          && canonical_json (adapter_contract_json probe.contract)
            == canonical_json (adapter_contract_json transaction.adapter_contract))
        (maintenance adapter_incompatible)
        (with_lock sha256 pid transaction.instance_id transaction.root_identity
          (in_store (get_transaction datetime transaction.id) >>= restore_current adapter backup))

  module _ (pid : ℕ) (adapters : PlatformKind → Option (WriteAdapter P))
      (instances : String → Option RegisteredInstance) where
    unfoldable pub restore_with :
        TransactionRecord → BackupManifest → Action (World j.File P) TransactionRef
    restore_with transaction backup = capability (adapters transaction.platform) >>= λ adapter.
        capability (instances transaction.instance_id) >>= λ platform_instance.
        on_platform (adapter.probe_write platform_instance)
        >>= restore_probed pid adapter backup transaction

    -- Without a backup or in another state: only a restored transaction is answered.
    unfoldable pub restore_found :
        Option TransactionRecord → Option BackupManifest → Action (World j.File P) TransactionRef
    unfolding is_restored is_completed
    restore_found none _ = raise (maintenance transaction_not_restorable)
    restore_found (some transaction) none =
        demand (is_restored transaction.status) (maintenance transaction_not_restorable)
          (pure (transaction_ref transaction))
    restore_found (some transaction) (some backup) =
        if is_completed transaction.status
        then restore_with transaction backup
        else demand (is_restored transaction.status) (maintenance transaction_not_restorable)
            (pure (transaction_ref transaction))

    module _ (iso : ℕ → String) (time : String → ℕ) where
      unfoldable pub restore : String → String → ℕ → Action (World j.File P) TransactionRef
      restore transaction_id confirmation_token confirmed_at =
          in_store (restore_scope sha256 datetime transaction_id) >>= λ scope.
          in_store (consume_token sha256 datetime iso time confirmation_token scope confirmed_at)
          >> in_store (get_transaction datetime transaction_id)
          >>= λ transaction. in_store (get_backup_manifest datetime transaction_id) >>= λ backup.
              restore_found transaction backup
