-- ===== src/Transaction/Recovery/Interrupted.antt =====
-- The recovery of an interrupted transaction, from a store that may be behind the journal.
use dsh_session_maintenance.Prelude.{
  ℕ, ◌≡◌, refl, ap, sym, ◌∙◌, subst, String, Bool, true, List, [], ◌++◌, none, some, find, ◌==◌,
  string_eq, all, All, arith, ok,
}
use dsh_session_maintenance.Contracts.Plan.{SyncPlan}
use dsh_session_maintenance.Contracts.Transaction.{
  completed, restored, TransactionRecord, TransactionStep,
}
use dsh_session_maintenance.Contracts.Schemas.{
  id_schema, transaction_step_schema, backup_manifest_schema,
}
use dsh_session_maintenance.Contracts.Write.{
  TransactionContext, BackupManifest, RestoreReceipt, WriteAdapter,
}
use dsh_session_maintenance.Domain.Text.{Text}
use dsh_session_maintenance.Domain.Plan.Payload.{object}
use dsh_session_maintenance.Transaction.Rows.{restore_receipt_json}
use dsh_session_maintenance.Transaction.Store.{parse_row}
use dsh_session_maintenance.Transaction.Store.Backups.{find_backup, get_backup_manifest}
use dsh_session_maintenance.Transaction.Store.Steps.{IsTracked}
use dsh_session_maintenance.Transaction.World.{JournalFile, World}
use dsh_session_maintenance.Transaction.Transition.Paths.{statuses, IsAt}
use dsh_session_maintenance.Transaction.Recovery.{
  reconcile_journal, is_manual_review, is_before_commit, is_committing, recover_reconciled,
  recover_open, recover_backup, restore_backup, restored_to, recovery_context,
}
use dsh_session_maintenance.Transaction.Recovery.Replay.{
  final_status, IsStepOf, IsCaughtUp, reconcile_journal-IsCaughtUp,
}
use dsh_session_maintenance.Transaction.Recovery.Endings.{recover_to-ok}

module _ {P : Type 0} (sha256 : Text → String) (datetime : String → Bool)
    (j : JournalFile sha256 datetime) (now : ℕ → String)
    (now_valid : (n : ℕ) → datetime (now n) ≡ true) (no_data_held : j.CanHold (object []))
    (adapter : WriteAdapter P) (plan : SyncPlan) (row : TransactionRecord)
    (ds rest : List TransactionStep) (w : World j.File P)
    (tracked : IsTracked datetime row.id row ds w.store)
    (steps_valid : all (transaction_step_schema datetime) ds ≡ true)
    (held : j.Holds (w.journals row.id) (ds ++ rest))
    (rest_valid : All (IsStepOf datetime row.id) rest)
    (backup_valid : (m : BackupManifest)
      → find_backup row.id w.store ≡ some m
      → backup_manifest_schema datetime m ≡ true) where
  abbrev caught_up :
      IsCaughtUp sha256 datetime j now row.id
        (final_status row.status rest)
        (ds ++ rest)
        w
        (reconcile_journal sha256 datetime j now row w)
  caught_up =
      reconcile_journal-IsCaughtUp sha256 datetime j now row ds rest w tracked steps_valid held
        rest_valid

  -- A write that its journal calls completed is rolled back, when the store missed the last step: the
  -- recovery does not look at the status that it has caught up to, and restores the backup.
  pub recover_open-completed :
      (manifest : BackupManifest) (receipt : RestoreReceipt)
      → final_status row.status rest ≡ completed
      → find_backup row.id w.store ≡ some manifest
      → ((context : TransactionContext)
          → (adapter.restore manifest context w.platform).0 ≡ ok receipt)
      → receipt.is_restored ≡ true
      → (recover_open sha256 datetime j now adapter plan row w).0
        ≡ ok (record { id = row.id; status = restored })
  unfolding recover_open recover_reconciled recover_backup get_backup_manifest parse_row
      restore_backup restored_to recovery_context is_manual_review is_before_commit is_committing
      id_schema
  recover_open-completed manifest receipt f b r t =
      let k = caught_up in
      let context = recovery_context k.row in
      let p = (adapter.restore manifest context w.platform).1 in
      let e : adapter.restore manifest context w.platform ≡ (ok receipt, p) =
        ap (λ o. (o, p)) (r context) in
      let w2 : World j.File P = record w { store = k.store; platform = p } in
      let found : find_backup k.row.id k.store ≡ some manifest =
        ap (λ id. find_backup id k.store) k.row_id
        ∙ ap (find (λ m. m.transaction_id == row.id)) k.same_backups
        ∙ b in
      let a : IsAt sha256 datetime j row.id (statuses (ds ++ rest)) w2.store (w2.journals row.id) =
        record {
          row = k.row;
          steps = ds ++ rest;
          tracked = k.tracked;
          held = held;
          path_taken = refl;
        } in
      let done =
        recover_to-ok sha256 datetime j now now_valid no_data_held k.row.id restored
          "recovery-restore-completed" (some (restore_receipt_json receipt)) none _ w2 refl
          (subst (λ x. IsAt sha256 datetime j x (statuses (ds ++ rest)) w2.store (w2.journals x))
            (sym k.row_id) a) in
      ground (arith, k.ran, k.row_status, f, found, backup_valid manifest b, e, t, done, k.row_id)
