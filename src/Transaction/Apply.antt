-- ===== src/Transaction/Apply.antt =====
-- packages/transaction-engine/src/executor.ts: `apply`, the guards in front of a write and under
-- the lock of its root. `root_identity_of` is `resolve(root).toLocaleLowerCase("en-US")`.
pub mod Blocked
use dsh_session_maintenance.Prelude.{
  ℕ, String, Bool, true, false, not, ◌&&◌, List, [], ◌∷◌, Option, none, some, ◌==◌, string_eq, any,
  Action, pure, raise, demand, lift, Outcome, ok, thrown, Failure, maintenance, ◌>>=◌, ◌>>◌,
  object_corrupt, write_capability_unavailable, adapter_incompatible, recovery_required,
  if◌then◌else◌,
}
use dsh_session_maintenance.Contracts.Plan.{
  PlatformKind, codex, dsh, StateFingerprint, AdapterContractRef, PlannedOperation,
  create_target_session, require_review, SyncPlan,
}
use dsh_session_maintenance.Contracts.Transaction.{TransactionRecord}
use dsh_session_maintenance.Contracts.Write.{
  CompatibilityStatus, compatible, RegisteredInstance, WriteProbe, WriteAdapter,
}
use dsh_session_maintenance.Domain.Text.{Text}
use dsh_session_maintenance.Domain.Plan.Payload.{platform_text}
use dsh_session_maintenance.Domain.Plan.Validate.{
  validate_plan_preconditions, find_create, is_safe, is_codex,
}
use dsh_session_maintenance.Transaction.Store.{
  Store, get_plan, get_transaction, find_transaction_by_plan,
}
use dsh_session_maintenance.Transaction.Store.Backups.{
  ProtectionReason, checkpoint, unresolved_transaction, BackupProtection, list_backup_protections,
}
use dsh_session_maintenance.Transaction.World.{JournalFile, World, in_store, on_platform}
use dsh_session_maintenance.Transaction.Transition.{TransactionRef, transaction_ref}
use dsh_session_maintenance.Transaction.Executor.{apply_locked}
use dsh_session_maintenance.Transaction.Lock.{with_lock}

unfoldable pub is_review : PlannedOperation → Bool
is_review (require_review reason) = true
is_review _ = false

abbrev pub is_unresolved : ProtectionReason → Bool
is_unresolved unresolved_transaction = true
is_unresolved checkpoint = false

-- `targetInstanceId(plan)`
unfoldable pub target_instance_id_of : SyncPlan → Outcome String
target_instance_id_of plan = elim plan.target [
  | some binding ↦ ok binding.key.instance_id
  | none ↦ elim (find_create plan.operations) [
    | some instance_id ↦ ok instance_id
    | none ↦ thrown (maintenance write_capability_unavailable)
  ]
]

-- `targetPlatform(plan)`
unfoldable pub target_platform : SyncPlan → PlatformKind
target_platform plan = elim plan.target [
  | some binding ↦ binding.key.platform
  | none ↦ if is_codex plan.source.key.platform then dsh else codex
]

unfoldable pub is_compatible : CompatibilityStatus → Bool
is_compatible compatible = true
is_compatible _ = false

unfoldable pub same_contract : AdapterContractRef → AdapterContractRef → Bool
same_contract a b =
    a.adapter == b.adapter
    && a.platform_version == b.platform_version
    && a.schema_fingerprint == b.schema_fingerprint

unfoldable pub is_platform : PlatformKind → PlatformKind → Bool
is_platform a b = platform_text a == platform_text b

-- A value that has to be there, or the error of a missing capability.
unfoldable pub capability : {S A : Type 0} → Option A → Action S A
capability none = raise (maintenance write_capability_unavailable)
capability (some a) = pure a

unfoldable pub is_on_root : RegisteredInstance → String → TransactionRecord → Bool
is_on_root platform_instance root_identity r =
    r.instance_id == platform_instance.id && r.root_identity == root_identity

unfoldable pub refuse_row :
    {S : Type 0} → RegisteredInstance → String → Option TransactionRecord → Action S Unit
unfolding is_on_root
refuse_row platform_instance root_identity none = pure tt
refuse_row platform_instance root_identity (some r) =
    demand (not (is_on_root platform_instance root_identity r)) (maintenance recovery_required)
      (pure tt)

module _ {P : Type 0} (sha256 : Text → String) (datetime : String → Bool)
    (j : JournalFile sha256 datetime) where
  -- The loop over the protections.
  unfoldable pub refuse_unresolved :
      RegisteredInstance → String → List BackupProtection → Action (World j.File P) Unit
  unfolding refuse_row
  refuse_unresolved platform_instance root_identity [] w = pure tt w
  refuse_unresolved platform_instance root_identity (p ∷ rest) w =
      let more : Action (World j.File P) Unit =
        refuse_unresolved platform_instance root_identity rest in
      if any is_unresolved p.reasons
      then (in_store (get_transaction datetime p.transaction_id)
            >>= refuse_row platform_instance root_identity
            >> more)
          w
      else more w

  module _ (now id_factory : ℕ → String) where
    -- What `findTransactionByPlan` found under the lock.
    unfoldable pub apply_unless :
        SyncPlan
        → RegisteredInstance
        → WriteAdapter P
        → AdapterContractRef
        → String
        → Option TransactionRecord
        → Action (World j.File P) TransactionRef
    apply_unless plan platform_instance adapter contract root_identity (some concurrent) =
        pure (transaction_ref concurrent)
    apply_unless plan platform_instance adapter contract root_identity none =
        in_store list_backup_protections
        >>= refuse_unresolved platform_instance root_identity
        >> apply_locked sha256 datetime j now id_factory adapter plan platform_instance contract
            root_identity

    unfoldable pub apply_under_lock :
        SyncPlan
        → RegisteredInstance
        → WriteAdapter P
        → AdapterContractRef
        → String
        → Action (World j.File P) TransactionRef
    apply_under_lock plan platform_instance adapter contract root_identity =
        in_store (find_transaction_by_plan datetime plan.id plan.hash)
        >>= apply_unless plan platform_instance adapter contract root_identity

    module _ (pid : ℕ) (root_identity_of : String → String)
        (adapters : PlatformKind → Option (WriteAdapter P))
        (instances : String → Option RegisteredInstance)
        (read_fingerprints : SyncPlan → Action P (List StateFingerprint)) where
      unfoldable pub apply_probed :
          SyncPlan
          → RegisteredInstance
          → WriteAdapter P
          → WriteProbe
          → Action (World j.File P) TransactionRef
      unfolding is_compatible same_contract
      apply_probed plan platform_instance adapter probe =
          demand
            (is_compatible probe.status
              && any (λ contract. same_contract contract probe.contract) plan.adapter_contracts)
            (maintenance adapter_incompatible)
            (on_platform (read_fingerprints plan) >>= λ fingerprints.
              lift (validate_plan_preconditions plan fingerprints)
              >> with_lock sha256 pid platform_instance.id (root_identity_of platform_instance.root)
                  (apply_under_lock plan platform_instance adapter probe.contract
                    (root_identity_of platform_instance.root)))

      unfoldable pub apply_new : SyncPlan → Action (World j.File P) TransactionRef
      unfolding is_review target_platform is_platform capability
      apply_new plan =
          demand (is_safe plan.risk && not (any is_review plan.operations))
            (maintenance write_capability_unavailable)
            (lift (target_instance_id_of plan) >>= λ instance_id.
              capability (instances instance_id) >>= λ platform_instance.
              demand (is_platform platform_instance.platform (target_platform plan))
                (maintenance write_capability_unavailable)
                (capability (adapters (target_platform plan)) >>= λ adapter.
                  on_platform (adapter.probe_write platform_instance)
                  >>= apply_probed plan platform_instance adapter))

      unfoldable pub apply_unless_applied :
          SyncPlan → Option TransactionRecord → Action (World j.File P) TransactionRef
      apply_unless_applied plan (some existing) = pure (transaction_ref existing)
      apply_unless_applied plan none = apply_new plan

      unfoldable pub apply_found : Option SyncPlan → Action (World j.File P) TransactionRef
      apply_found none = raise (maintenance object_corrupt)
      apply_found (some plan) =
          in_store (find_transaction_by_plan datetime plan.id plan.hash)
          >>= apply_unless_applied plan

      unfoldable pub apply : String → Action (World j.File P) TransactionRef
      apply plan_id = in_store (get_plan sha256 datetime plan_id) >>= apply_found
