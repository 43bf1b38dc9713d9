-- ===== src/Transaction/Recovery/Endings.antt =====
-- How a recovery ends.
use dsh_session_maintenance.Prelude.{
  ℕ, ◌≡◌, refl, ap, sym, ◌∙◌, subst, ◌⊎◌, inl, inr, String, Bool, true, false, List, [], ◌∷◌, ◌++◌,
  append_assoc, last?, Option, none, some, Option-cases, Bool-cases, arith, Outcome, ok, thrown,
  Failure, if◌then◌else◌, find, ◌==◌, string_eq,
}
use dsh_session_maintenance.Contracts.Json.{Json}
use dsh_session_maintenance.Contracts.Plan.{SyncPlan}
use dsh_session_maintenance.Contracts.Transaction.{
  TransactionStatus, completed, restoring, restored, restore_failed, manual_review,
  TransactionRecord,
}
use dsh_session_maintenance.Contracts.Schemas.{id_schema, backup_manifest_schema}
use dsh_session_maintenance.Contracts.Write.{
  TransactionContext, BackupManifest, WriteReceipt, VerificationResult, WriteAdapter,
}
use dsh_session_maintenance.Domain.Text.{Text}
use dsh_session_maintenance.Domain.Plan.Payload.{object}
use dsh_session_maintenance.Transaction.Rows.{receipt_json, restore_receipt_json}
use dsh_session_maintenance.Transaction.Store.{parse_row}
use dsh_session_maintenance.Transaction.Store.Backups.{find_backup, get_backup_manifest}
use dsh_session_maintenance.Transaction.World.{JournalFile, World, ticked}
use dsh_session_maintenance.Transaction.Transition.{
  Transition, plain, data_or_empty, TransactionRef, transaction_ref,
}
use dsh_session_maintenance.Transaction.Transition.Paths.{
  IsAt, record_transition-IsRecorded, Outcome-cases,
}
use dsh_session_maintenance.Transaction.Recovery.{
  is_terminal, is_before_commit, is_committing, recovery_context, recovery_receipt, recover_to,
  restored_to, restore_backup, recover_backup, after_check, recover_reconciled,
}

restore_step-given :
    (b : Bool)
    → id_schema (if b then "recovery-restore-completed" else "recovery-restore-failed") ≡ true
unfolding id_schema
restore_step-given true = refl
restore_step-given false = refl

last-concat :
    (path : List TransactionStatus) (s : TransactionStatus) → last? (path ++ s ∷ []) ≡ some s
last-concat [] s = refl
last-concat (a ∷ []) s = refl
last-concat (a ∷ b ∷ path) s = last-concat (b ∷ path) s

module _ {P : Type 0} (sha256 : Text → String) (datetime : String → Bool)
    (j : JournalFile sha256 datetime) (now : ℕ → String)
    (now_valid : (n : ℕ) → datetime (now n) ≡ true) (no_data_held : j.CanHold (object [])) where
  -- The recovery returns the transaction in a terminal status, which its steps end with: `more` is
  -- what was added to the path.
  pub record IsRecovered (id : String) (path : List TransactionStatus) (w : World j.File P)
      (result : Outcome TransactionRef × World j.File P) : Type 0 where
    pub more : List TransactionStatus
    pub status : TransactionStatus
    pub after : World j.File P
    pub ran : result ≡ (ok (record { id = id; status = status }), after)
    pub terminal : is_terminal status ≡ true
    pub is_last : last? (path ++ more) ≡ some status
    pub at_path : IsAt sha256 datetime j id (path ++ more) after.store (after.journals id)
    pub same_backups : after.store.backups ≡ w.store.backups

  recover_to-IsRecovered :
      (id : String) (status : TransactionStatus) (step : String) (result : Option Json)
      (error_code : Option String) (path : List TransactionStatus) (w : World j.File P)
      → id_schema step ≡ true
      → is_terminal status ≡ true
      → IsAt sha256 datetime j id path w.store (w.journals id)
      → IsRecovered id path w (recover_to sha256 datetime j now id status step result error_code w)
  unfolding recover_to transaction_ref data_or_empty
  recover_to-IsRecovered id status step result error_code path w n t a =
      let input : Transition = record (plain id status step (now w.ticks)) {
        result = result;
        error_code = error_code;
      } in
      let r =
        record_transition-IsRecorded sha256 datetime j input path (ticked w) n (now_valid w.ticks)
          no_data_held a in
      record {
        more = status ∷ [];
        status = status;
        after = r.after;
        ran = ground (arith, r.ran, r.row_id, r.row_status);
        terminal = t;
        is_last = last-concat path status;
        at_path = r.at_path;
        same_backups = r.frame.same_backups;
      }

  pub recover_to-ok :
      (id : String) (status : TransactionStatus) (step : String) (result : Option Json)
      (error_code : Option String) (path : List TransactionStatus) (w : World j.File P)
      → id_schema step ≡ true
      → IsAt sha256 datetime j id path w.store (w.journals id)
      → (recover_to sha256 datetime j now id status step result error_code w).0
        ≡ ok (record { id = id; status = status })
  unfolding recover_to transaction_ref data_or_empty
  recover_to-ok id status step result error_code path w n a =
      let input : Transition = record (plain id status step (now w.ticks)) {
        result = result;
        error_code = error_code;
      } in
      let r =
        record_transition-IsRecorded sha256 datetime j input path (ticked w) n (now_valid w.ticks)
          no_data_held a in
      ground (arith, r.ran, r.row_id, r.row_status)

  -- The same from an earlier state, over a step of the path or none.
  IsRecovered-append :
      (id : String) (path between : List TransactionStatus) (w w' : World j.File P)
      (result result' : Outcome TransactionRef × World j.File P)
      → w'.store.backups ≡ w.store.backups
      → (k : IsRecovered id (path ++ between) w' result')
      → result ≡ (ok (record { id = id; status = k.status }), k.after)
      → IsRecovered id path w result
  IsRecovered-append id path between w w' result result' b k e = record {
    more = between ++ k.more;
    status = k.status;
    after = k.after;
    ran = e;
    terminal = k.terminal;
    is_last = ap last? (sym (append_assoc path between k.more)) ∙ k.is_last;
    at_path =
        subst (λ p. IsAt sha256 datetime j id p k.after.store (k.after.journals id))
          (append_assoc path between k.more) k.at_path;
    same_backups = k.same_backups ∙ b;
  }

  pub IsRecovered-again :
      (id : String) (path : List TransactionStatus) (w w' : World j.File P)
      (result result' : Outcome TransactionRef × World j.File P)
      → w'.store.backups ≡ w.store.backups
      → (k : IsRecovered id path w' result')
      → result ≡ (ok (record { id = id; status = k.status }), k.after)
      → IsRecovered id path w result
  IsRecovered-again id path w w' result result' b k e = record {
    more = k.more;
    status = k.status;
    after = k.after;
    ran = e;
    terminal = k.terminal;
    is_last = k.is_last;
    at_path = k.at_path;
    same_backups = k.same_backups ∙ b;
  }

  module _ (adapter : WriteAdapter P) where
    restored_status : (b : Bool) → is_terminal (if b then restored else restore_failed) ≡ true
    unfolding is_terminal
    restored_status b = ground arith

    restore_backup-IsRecovered :
        (context : TransactionContext) (found : Option BackupManifest)
        (path : List TransactionStatus) (w : World j.File P)
        → IsAt sha256 datetime j context.id path w.store (w.journals context.id)
        → IsRecovered context.id path w
            (restore_backup sha256 datetime j now adapter context found w)
    unfolding restore_backup restored_to id_schema is_terminal
    restore_backup-IsRecovered context none path w a =
        recover_to-IsRecovered context.id manual_review "recovery-backup-missing" none
          (some "BACKUP_INCOMPLETE") path w refl refl a
    restore_backup-IsRecovered context (some backup) path w a =
        elim (Outcome-cases (adapter.restore backup context w.platform)) [
          | inl (receipt, p, e) ↦
              let w1 : World j.File P = record w { platform = p } in
              let k =
                recover_to-IsRecovered context.id
                  (if receipt.is_restored then restored else restore_failed)
                  (if receipt.is_restored
                    then "recovery-restore-completed"
                    else "recovery-restore-failed")
                  (some (restore_receipt_json receipt))
                  (if receipt.is_restored then none else some "RESTORE_FAILED") path w1
                  (restore_step-given receipt.is_restored) (restored_status receipt.is_restored)
                  a in
              IsRecovered-again context.id path w w1 _ _ refl k (ground (arith, e, k.ran))
          | inr (failure, p, e) ↦
              let w1 : World j.File P = record w { platform = p } in
              let k =
                recover_to-IsRecovered context.id restore_failed "recovery-restore-threw" none
                  (some "RESTORE_FAILED") path w1 refl refl a in
              IsRecovered-again context.id path w w1 _ _ refl k (ground (arith, e, k.ran))
        ]

    recover_backup-IsRecovered :
        (context : TransactionContext) (path : List TransactionStatus) (w : World j.File P)
        → ((m : BackupManifest)
            → find_backup context.id w.store ≡ some m
            → backup_manifest_schema datetime m ≡ true)
        → IsAt sha256 datetime j context.id path w.store (w.journals context.id)
        → IsRecovered context.id path w (recover_backup sha256 datetime j now adapter context w)
    unfolding recover_backup get_backup_manifest parse_row
    recover_backup-IsRecovered context path w v a =
        let k = restore_backup-IsRecovered context (find_backup context.id w.store) path w a in
        IsRecovered-again context.id path w w _ _ refl k
          (elim (Option-cases (find_backup context.id w.store)) [
            | inl e ↦ ground (arith, e, k.ran)
            | inr (m, e) ↦ ground (arith, e, v m e, k.ran)
          ])

    after_check-IsRecovered :
        (context : TransactionContext) (receipt : WriteReceipt) (verification : VerificationResult)
        (path : List TransactionStatus) (w : World j.File P)
        → ((m : BackupManifest)
            → find_backup context.id w.store ≡ some m
            → backup_manifest_schema datetime m ≡ true)
        → IsAt sha256 datetime j context.id path w.store (w.journals context.id)
        → IsRecovered context.id path w
            (after_check sha256 datetime j now adapter context receipt verification w)
    unfolding after_check id_schema is_terminal recover_to data_or_empty
    after_check-IsRecovered context receipt verification path w v a =
        elim (Bool-cases verification.is_ok) [
          | inl h ↦
              let k =
                recover_to-IsRecovered context.id completed "recovery-verification-completed"
                  (some (receipt_json receipt)) none path w refl refl a in
              IsRecovered-again context.id path w w _ _ refl k (ground (arith, k.ran))
          | inr h ↦
              let input : Transition =
                record (plain context.id restoring "recovery-verification-failed" (now w.ticks)) {
                  error_code = some "VERIFICATION_FAILED";
                } in
              let r =
                record_transition-IsRecorded sha256 datetime j input path (ticked w) refl
                  (now_valid w.ticks) no_data_held a in
              let same : find_backup context.id r.after.store ≡ find_backup context.id w.store =
                ap (find (λ m. m.transaction_id == context.id)) r.frame.same_backups in
              let k =
                recover_backup-IsRecovered context (path ++ restoring ∷ []) r.after
                  (λ m e. v m (sym same ∙ e)) r.at_path in
              IsRecovered-append context.id path (restoring ∷ []) w r.after _ _ r.frame.same_backups
                k (ground (arith, r.ran, k.ran))
        ]

    -- The recovery threw, and the transaction is as interrupted as before.
    pub record IsUnchecked (id : String) (path : List TransactionStatus)
        (result : Outcome TransactionRef × World j.File P) : Type 0 where
      pub failure : Failure
      pub after : World j.File P
      pub ran : result ≡ (thrown failure, after)
      pub at_path : IsAt sha256 datetime j id path after.store (after.journals id)

    recover_reconciled-ends :
        (plan : SyncPlan) (row : TransactionRecord) (path : List TransactionStatus)
        (w : World j.File P)
        → ((m : BackupManifest)
            → find_backup row.id w.store ≡ some m
            → backup_manifest_schema datetime m ≡ true)
        → IsAt sha256 datetime j row.id path w.store (w.journals row.id)
        → IsRecovered row.id path w (recover_reconciled sha256 datetime j now adapter plan row w)
          ⊎ IsUnchecked row.id path (recover_reconciled sha256 datetime j now adapter plan row w)
    unfolding recover_reconciled recovery_context id_schema is_terminal
    recover_reconciled-ends plan row path w v a = elim (Bool-cases (is_before_commit row.status)) [
      | inl h ↦
          let k =
            recover_to-IsRecovered row.id manual_review "recovery-found-pre-commit-transaction" none
              (some "RECOVERY_REQUIRED") path w refl refl a in
          inl (IsRecovered-again row.id path w w _ _ refl k (ground (arith, h, k.ran)))
      | inr h ↦ elim (Bool-cases (is_committing row.status)) [
        | inr g ↦
            let k = recover_backup-IsRecovered (recovery_context row) path w v a in
            inl (IsRecovered-again row.id path w w _ _ refl k (ground (arith, h, g, k.ran)))
        | inl g ↦
            elim (Outcome-cases (
              adapter.verify (recovery_receipt row plan)
                (record { fingerprints = plan.preconditions }) w.platform)) [
                  | inr (failure, p, e) ↦ inr (record {
                    failure = failure;
                    after = record w { platform = p };
                    ran = ground (arith, h, g, e);
                    at_path = a;
                  })
                  | inl (verification, p, e) ↦
                      let w1 : World j.File P = record w { platform = p } in
                      let k =
                        after_check-IsRecovered (recovery_context row) (recovery_receipt row plan)
                          verification path w1 v a in
                      inl (
                        IsRecovered-again row.id path w w1 _ _ refl k
                          (ground (arith, h, g, e, k.ran)))
                ]
      ]
    ]

    -- The same, for a row that is known to have the ID.
    pub recover_reconciled-ends_at :
        (id : String) (plan : SyncPlan) (row : TransactionRecord) (path : List TransactionStatus)
        (w : World j.File P)
        → row.id ≡ id
        → ((m : BackupManifest)
            → find_backup id w.store ≡ some m
            → backup_manifest_schema datetime m ≡ true)
        → IsAt sha256 datetime j id path w.store (w.journals id)
        → IsRecovered id path w (recover_reconciled sha256 datetime j now adapter plan row w)
          ⊎ IsUnchecked id path (recover_reconciled sha256 datetime j now adapter plan row w)
    recover_reconciled-ends_at id plan row path w i v a =
        subst
          (λ x.
            IsRecovered x path w (recover_reconciled sha256 datetime j now adapter plan row w)
            ⊎ IsUnchecked x path (recover_reconciled sha256 datetime j now adapter plan row w))
          i
          (recover_reconciled-ends plan row path w
            (λ m e. v m (ap (λ x. find_backup x w.store) (sym i) ∙ e))
            (subst (λ x. IsAt sha256 datetime j x path w.store (w.journals x)) (sym i) a))
