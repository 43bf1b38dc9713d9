-- ===== src/Transaction/Recovery.antt =====
-- packages/transaction-engine/src/recovery.ts: what becomes of a transaction that was interrupted.
-- The journal is written before the store, so its steps that the store lacks are replayed first.
pub mod Replay
pub mod Endings
pub mod Interrupted
use dsh_session_maintenance.Prelude.{
  ℕ, suc, ◌≡◌, String, Bool, true, false, ◌&&◌, ◌||◌, not, List, [], ◌∷◌, ◌++◌, Option, none, some,
  ◌==◌, string_eq, nat_eq, list_eq, option_eq, if◌then◌else◌, length, drop, ltb, Action, pure,
  raise, demand, attempt, lift, ◌>>=◌, ◌>>◌, Outcome, ok, thrown, Failure, maintenance,
  object_corrupt, transaction_not_found, write_capability_unavailable,
}
use mathlib.Core.Option
use dsh_session_maintenance.Contracts.Json.{Json, bool}
use dsh_session_maintenance.Contracts.Errors.{error_code_text}
use dsh_session_maintenance.Contracts.Plan.{PlatformKind, SyncPlan}
use dsh_session_maintenance.Contracts.Transaction.{
  TransactionStatus, prepared, backing_up, applying, verifying, completed, restoring, restored,
  restore_failed, manual_review, TransactionRecord, TransactionStep,
}
use dsh_session_maintenance.Contracts.Write.{
  TransactionContext, BackupManifest, WriteReceipt, VerificationResult, RestoreReceipt,
  WriteAdapter,
}
use dsh_session_maintenance.Domain.Text.{Text}
use dsh_session_maintenance.Domain.CanonicalJson.{canonical_json}
use dsh_session_maintenance.Domain.Plan.Payload.{object}
use dsh_session_maintenance.Transaction.Rows.{receipt_json, restore_receipt_json}
use dsh_session_maintenance.Transaction.Journal.{step_json}
use dsh_session_maintenance.Transaction.Store.{
  Store, get_plan, get_transaction, list_transaction_steps, record_transaction_step,
  mark_transaction_manual_review,
}
use dsh_session_maintenance.Transaction.Store.Backups.{get_backup_manifest}
use dsh_session_maintenance.Transaction.World.{
  JournalFile, World, in_store, on_platform, in_journal, read_clock,
}
use dsh_session_maintenance.Transaction.Transition.{
  plain, TransactionRef, transaction_ref, record_transition,
}

unfoldable pub is_terminal : TransactionStatus → Bool
is_terminal completed = true
is_terminal restored = true
is_terminal restore_failed = true
is_terminal manual_review = true
is_terminal _ = false

unfoldable pub is_before_commit : TransactionStatus → Bool
is_before_commit prepared = true
is_before_commit backing_up = true
is_before_commit _ = false

unfoldable pub is_committing : TransactionStatus → Bool
is_committing applying = true
is_committing verifying = true
is_committing _ = false

unfoldable pub is_manual_review : TransactionStatus → Bool
is_manual_review manual_review = true
is_manual_review _ = false

-- The loop over the indices that both have, on their canonical texts.
unfoldable pub same_steps : List TransactionStep → List TransactionStep → Bool
same_steps [] ds = true
same_steps (s ∷ js) [] = true
same_steps (s ∷ js) (d ∷ ds) =
    let rest = same_steps js ds in
    canonical_json (step_json s) == canonical_json (step_json d) && rest

unfoldable pub agrees : List TransactionStep → List TransactionStep → Bool
unfolding same_steps
agrees journal_steps database_steps =
    same_steps journal_steps database_steps
    && not (ltb (length journal_steps) (length database_steps))

-- `if (value === undefined) throw failure`
unfoldable pub found : {S A : Type 0} → Failure → Option A → Action S A
found failure none = raise failure
found failure (some a) = pure a

unfoldable pub recovery_context : TransactionRecord → TransactionContext
recovery_context r = record {
  id = r.id;
  plan_id = r.plan_id;
  plan_hash = r.plan_hash;
  started_at = r.created_at;
}

unfoldable pub recovery_receipt : TransactionRecord → SyncPlan → WriteReceipt
recovery_receipt r plan = record {
  transaction_id = r.id;
  platform = r.platform;
  instance_id = r.instance_id;
  target_key = Option.map (λ b. b.key) plan.target;
  fingerprints = plan.preconditions;
  details = object (("recovery", bool true) ∷ []);
}

module _ {P : Type 0} (sha256 : Text → String) (datetime : String → Bool)
    (j : JournalFile sha256 datetime) (now : ℕ → String) where
  unfoldable pub mark_corrupt : String → Action (World j.File P) TransactionRecord
  mark_corrupt id = read_clock now >>= λ at.
      in_store (mark_transaction_manual_review datetime id at (error_code_text object_corrupt))

  -- The steps of the journal behind those of the store, one by one.
  unfoldable pub replay :
      TransactionRecord → List TransactionStep → Action (World j.File P) TransactionRecord
  replay transaction [] w = pure transaction w
  replay transaction (s ∷ rest) w =
      let next =
        (in_store (
              record_transaction_step datetime
                (record { step = s; result = none; error_code = none }))
            >>= λ row. replay row rest)
          w in
      if s.transaction_id == transaction.id then next else mark_corrupt transaction.id w

  unfoldable pub reconcile_steps :
      TransactionRecord
      → List TransactionStep
      → List TransactionStep
      → Action (World j.File P) TransactionRecord
  unfolding agrees
  reconcile_steps transaction journal_steps database_steps w =
      if agrees journal_steps database_steps
      then replay transaction (drop (length database_steps) journal_steps) w
      else mark_corrupt transaction.id w

  -- What `journal.read()` returned or threw.
  unfoldable pub reconcile_read :
      TransactionRecord → Outcome (List TransactionStep) → Action (World j.File P) TransactionRecord
  reconcile_read transaction (thrown failure) w = mark_corrupt transaction.id w
  reconcile_read transaction (ok journal_steps) w =
      (in_store (list_transaction_steps datetime transaction.id)
          >>= reconcile_steps transaction journal_steps)
        w

  unfoldable pub reconcile_journal : TransactionRecord → Action (World j.File P) TransactionRecord
  reconcile_journal transaction w =
      reconcile_read transaction (j.read (w.journals transaction.id)) w

  -- One recorded step, with what it carries, and the reference that is returned.
  unfoldable pub recover_to :
      String
      → TransactionStatus
      → String
      → Option Json
      → Option String
      → Action (World j.File P) TransactionRef
  recover_to id status step result error_code = read_clock now >>= λ at.
      record_transition sha256 datetime j
        (record (plain id status step at) { result = result; error_code = error_code })
      >>= λ row. pure (transaction_ref row)

  module _ (adapter : WriteAdapter P) where
    unfoldable pub restored_to :
        TransactionContext → RestoreReceipt → Action (World j.File P) TransactionRef
    restored_to context receipt =
        recover_to context.id (if receipt.is_restored then restored else restore_failed)
          (if receipt.is_restored then "recovery-restore-completed" else "recovery-restore-failed")
          (some (restore_receipt_json receipt))
          (if receipt.is_restored then none else some "RESTORE_FAILED")

    -- The backup that the store has, if any.
    unfoldable pub restore_backup :
        TransactionContext → Option BackupManifest → Action (World j.File P) TransactionRef
    restore_backup context none =
        recover_to context.id manual_review "recovery-backup-missing" none
          (some "BACKUP_INCOMPLETE")
    restore_backup context (some backup) =
        attempt (on_platform (adapter.restore backup context) >>= restored_to context) (λ error.
          recover_to context.id restore_failed "recovery-restore-threw" none
            (some "RESTORE_FAILED"))

    unfoldable pub recover_backup : TransactionContext → Action (World j.File P) TransactionRef
    recover_backup context =
        in_store (get_backup_manifest datetime context.id) >>= restore_backup context

    unfoldable pub after_check :
        TransactionContext
        → WriteReceipt
        → VerificationResult
        → Action (World j.File P) TransactionRef
    after_check context receipt verification w =
        if verification.is_ok
        then recover_to context.id completed "recovery-verification-completed"
            (some (receipt_json receipt)) none w
        else (recover_to context.id restoring "recovery-verification-failed" none
                (some "VERIFICATION_FAILED")
              >>= λ _. recover_backup context)
            w

    -- A transaction that agrees with its journal, by its status.
    unfoldable pub recover_reconciled :
        SyncPlan → TransactionRecord → Action (World j.File P) TransactionRef
    unfolding is_before_commit is_committing
    recover_reconciled plan transaction w =
        if is_before_commit transaction.status
        then recover_to transaction.id manual_review "recovery-found-pre-commit-transaction" none
            (some "RECOVERY_REQUIRED") w
        else if is_committing transaction.status
        then (on_platform (
                adapter.verify (recovery_receipt transaction plan)
                  (record { fingerprints = plan.preconditions }))
              >>= after_check (recovery_context transaction) (recovery_receipt transaction plan))
            w
        else recover_backup (recovery_context transaction) w

    unfoldable pub recover_open :
        SyncPlan → TransactionRecord → Action (World j.File P) TransactionRef
    recover_open plan transaction = reconcile_journal transaction >>= λ current w.
        if is_manual_review current.status
        then pure (transaction_ref current) w
        else recover_reconciled plan current w

  module _ (adapters : PlatformKind → Option (WriteAdapter P)) where
    unfoldable pub recover_interrupted : TransactionRecord → Action (World j.File P) TransactionRef
    recover_interrupted transaction =
        in_store (get_plan sha256 datetime transaction.plan_id)
        >>= found (maintenance object_corrupt)
        >>= λ plan. demand (plan.hash == transaction.plan_hash) (maintenance object_corrupt) (
            found (maintenance write_capability_unavailable) (adapters transaction.platform)
            >>= λ adapter. recover_open adapter plan transaction)

    unfoldable pub recover_locked : String → Action (World j.File P) TransactionRef
    unfolding is_terminal
    recover_locked id =
        in_store (get_transaction datetime id)
        >>= found (maintenance transaction_not_found)
        >>= λ transaction w.
            if is_terminal transaction.status
            then pure (transaction_ref transaction) w
            else recover_interrupted transaction w
