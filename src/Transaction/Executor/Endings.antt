-- ===== src/Transaction/Executor/Endings.antt =====
-- How a write ends: the result and the statuses that the transaction has gone through.
use dsh_session_maintenance.Prelude.{
  ℕ, ◌≡◌, refl, sym, ◌∙◌, subst, inl, inr, String, Bool, true, List, [], ◌∷◌, ◌++◌, some,
  Bool-cases, arith, Outcome, ok, thrown, Failure, maintenance, verification_failed,
}
use dsh_session_maintenance.Contracts.Json.{Json}
use dsh_session_maintenance.Contracts.Plan.{SyncPlan}
use dsh_session_maintenance.Contracts.Transaction.{
  TransactionStatus, prepared, backing_up, applying, verifying, completed, restoring, manual_review,
}
use dsh_session_maintenance.Contracts.Schemas.{id_schema}
use dsh_session_maintenance.Contracts.Write.{
  RegisteredInstance, TransactionContext, PreparedWrite, BackupManifest, WriteReceipt,
  VerificationResult, WriteAdapter,
}
use dsh_session_maintenance.Domain.Text.{Text}
use dsh_session_maintenance.Transaction.Rows.{receipt_json}
use dsh_session_maintenance.Transaction.World.{JournalFile, World, ticked}
use dsh_session_maintenance.Transaction.Transition.{
  Transition, plain, data_or_empty, TransactionRef, transaction_ref, error_code_of,
}
use dsh_session_maintenance.Transaction.Transition.Paths.{
  IsAt, record_transition-IsRecorded, Outcome-cases,
}
use dsh_session_maintenance.Transaction.Executor.{
  Committed, finished, unverified, step_to, step_with_error, verified, commit_and_verify, abort,
  settle, commit_or_restore, after_backup, write_transaction,
}
use dsh_session_maintenance.Transaction.Executor.Restore.{
  StepData, no_data, settled, IsSettled, restore_once-IsSettled,
}
use dsh_session_maintenance.Transaction.Executor.Backup.{
  HasBackup, IsPreparing, applying_path, before_commit-ends,
}

-- The paths on which a commit has started.
pub data IsCommitting : List TransactionStatus → Type 0 where
  was_applying : IsCommitting (prepared ∷ backing_up ∷ applying ∷ [])
  was_verifying : IsCommitting (prepared ∷ backing_up ∷ applying ∷ verifying ∷ [])

-- The result of a write with the path of its transaction.
pub data Ending (id : String) : Outcome TransactionRef → List TransactionStatus → Type 0 where
  completes :
      Ending id
        (ok (record { id = id; status = completed }))
        (prepared ∷ backing_up ∷ applying ∷ verifying ∷ completed ∷ [])
  restores :
      (b : Bool) (path : List TransactionStatus)
      → IsCommitting path
      → Ending id (ok (record { id = id; status = settled b })) (path ++ restoring ∷ settled b ∷ [])
  aborts :
      (failure : Failure) (path : List TransactionStatus)
      → IsPreparing path
      → Ending id (thrown failure) (path ++ manual_review ∷ [])

module _ {P : Type 0} (sha256 : Text → String) (datetime : String → Bool)
    (j : JournalFile sha256 datetime) (now id_factory : ℕ → String) (adapter : WriteAdapter P)
    (now_valid : (n : ℕ) → datetime (now n) ≡ true)
    (data_held : (value : Json) → StepData value → j.CanHold value) where
  -- The write has ended: the journal and the store agree on the path, and if a commit was started,
  -- a backup is stored.
  pub record HasEnded (id : String) (result : Outcome TransactionRef × World j.File P)
      : Type 0 where
    pub outcome : Outcome TransactionRef
    pub path : List TransactionStatus
    pub after : World j.File P
    pub ran : result ≡ (outcome, after)
    pub ending : Ending id outcome path
    pub at_path : IsAt sha256 datetime j id path after.store (after.journals id)
    pub backup_saved : (r : TransactionRef) → outcome ≡ ok r → HasBackup id after.store.backups

  abort-HasEnded :
      (transaction : TransactionContext) (error : Failure) (path : List TransactionStatus)
      (w : World j.File P)
      → IsPreparing path
      → IsAt sha256 datetime j transaction.id path w.store (w.journals transaction.id)
      → HasEnded transaction.id (abort sha256 datetime j now id_factory adapter transaction error w)
  unfolding abort step_with_error data_or_empty id_schema
  abort-HasEnded transaction error path w q a =
      let input : Transition =
        record (plain transaction.id manual_review "write-aborted-before-commit" (now w.ticks)) {
          error_code = some (error_code_of error);
        } in
      let r =
        record_transition-IsRecorded sha256 datetime j input path (ticked w) refl
          (now_valid w.ticks) (data_held _ no_data) a in
      record {
        outcome = thrown error;
        path = path ++ manual_review ∷ [];
        after = r.after;
        ran = ground (arith, r.ran);
        ending = aborts error path q;
        at_path = r.at_path;
        backup_saved = λ x h. ground arith;
      }

  restored-HasEnded :
      (transaction : TransactionContext) (path : List TransactionStatus) (b : Bool)
      (backups : List BackupManifest) (result restoration : Outcome TransactionRef × World j.File P)
      → IsCommitting path
      → HasBackup transaction.id backups
      → (k : IsSettled sha256 datetime j now id_factory adapter now_valid data_held transaction
          (path ++ restoring ∷ settled b ∷ [])
          (settled b)
          backups
          restoration)
      → result ≡ (ok (record { id = transaction.id; status = settled b }), k.after)
      → HasEnded transaction.id result
  restored-HasEnded transaction path b backups result restoration q m k e = record {
    outcome = ok (record { id = transaction.id; status = settled b });
    path = path ++ restoring ∷ settled b ∷ [];
    after = k.after;
    ran = e;
    ending = restores b path q;
    at_path = k.at_path;
    backup_saved = λ x h. subst (HasBackup transaction.id) (sym k.same_backups) m;
  }

  -- How the commit ends.
  data CommitEnd (transaction : TransactionContext) (w : World j.File P)
      (result : Outcome Committed × World j.File P) : Type 0 where
    commit_completed :
        (after : World j.File P)
        → result ≡ (ok (finished (record { id = transaction.id; status = completed })), after)
        → IsAt sha256 datetime j transaction.id
            (prepared ∷ backing_up ∷ applying ∷ verifying ∷ completed ∷ [])
            after.store
            (after.journals transaction.id)
        → after.store.backups ≡ w.store.backups
        → CommitEnd transaction w result
    commit_unverified :
        (after : World j.File P)
        → result ≡ (ok unverified, after)
        → IsAt sha256 datetime j transaction.id
            (prepared ∷ backing_up ∷ applying ∷ verifying ∷ [])
            after.store
            (after.journals transaction.id)
        → after.store.backups ≡ w.store.backups
        → CommitEnd transaction w result
    commit_threw :
        (failure : Failure) (path : List TransactionStatus) (after : World j.File P)
        → result ≡ (thrown failure, after)
        → IsCommitting path
        → IsAt sha256 datetime j transaction.id path after.store (after.journals transaction.id)
        → after.store.backups ≡ w.store.backups
        → CommitEnd transaction w result

  verified-CommitEnd :
      (transaction : TransactionContext) (receipt : WriteReceipt)
      (verification : VerificationResult) (w : World j.File P)
      → IsAt sha256 datetime j transaction.id
          (prepared ∷ backing_up ∷ applying ∷ verifying ∷ [])
          w.store
          (w.journals transaction.id)
      → CommitEnd transaction w
          (verified sha256 datetime j now id_factory adapter transaction receipt verification w)
  unfolding verified transaction_ref data_or_empty id_schema
  verified-CommitEnd transaction receipt verification w a = elim (Bool-cases verification.is_ok) [
    | inr h ↦ commit_unverified w (ground arith) a refl
    | inl h ↦
        let input : Transition =
          record (plain transaction.id completed "verification-completed" (now w.ticks)) {
            result = some (receipt_json receipt);
          } in
        let r =
          record_transition-IsRecorded sha256 datetime j input
            (prepared ∷ backing_up ∷ applying ∷ verifying ∷ []) (ticked w) refl (now_valid w.ticks)
            (data_held _ no_data) a in
        commit_completed r.after (ground (arith, r.ran, r.row_id, r.row_status)) r.at_path
          r.frame.same_backups
  ]

  commit-CommitEnd :
      (write : PreparedWrite) (transaction : TransactionContext) (w : World j.File P)
      → IsAt sha256 datetime j transaction.id applying_path w.store (w.journals transaction.id)
      → CommitEnd transaction w
          (commit_and_verify sha256 datetime j now id_factory adapter write transaction w)
  unfolding commit_and_verify step_to data_or_empty id_schema
  commit-CommitEnd write transaction w a =
      elim (Outcome-cases (adapter.commit write transaction w.platform)) [
        | inr (failure, p, e) ↦
            commit_threw failure applying_path (record w { platform = p }) (ground (arith, e))
              was_applying a refl
        | inl (receipt, p, e) ↦
            let w1 : World j.File P = record w { platform = p } in
            let input : Transition =
              plain transaction.id verifying "commit-completed" (now w1.ticks) in
            let r =
              record_transition-IsRecorded sha256 datetime j input applying_path (ticked w1) refl
                (now_valid w1.ticks) (data_held _ no_data) a in
            let w2 : World j.File P = r.after in
            elim (Outcome-cases (adapter.verify receipt write.expected w2.platform)) [
              | inr (failure, q, f) ↦
                  commit_threw failure _ (record w2 { platform = q }) (ground (arith, e, r.ran, f))
                    was_verifying r.at_path r.frame.same_backups
              | inl (verification, q, f) ↦
                  let w3 : World j.File P = record w2 { platform = q } in
                  elim (verified-CommitEnd transaction receipt verification w3 r.at_path) [
                    | commit_completed v x y z ↦
                        commit_completed v (ground (arith, e, r.ran, f, x)) y
                          (z ∙ r.frame.same_backups)
                    | commit_unverified v x y z ↦
                        commit_unverified v (ground (arith, e, r.ran, f, x)) y
                          (z ∙ r.frame.same_backups)
                    | commit_threw failure path v x q y z ↦
                        commit_threw failure path v (ground (arith, e, r.ran, f, x)) q y
                          (z ∙ r.frame.same_backups)
                  ]
            ]
      ]

  commit_or_restore-HasEnded :
      (write : PreparedWrite) (backup : BackupManifest) (transaction : TransactionContext)
      (w : World j.File P)
      → IsAt sha256 datetime j transaction.id applying_path w.store (w.journals transaction.id)
      → HasBackup transaction.id w.store.backups
      → HasEnded transaction.id
          (commit_or_restore sha256 datetime j now id_factory adapter (write, backup) transaction w)
  unfolding commit_or_restore settle id_schema
  commit_or_restore-HasEnded write backup transaction w a m =
      elim (commit-CommitEnd write transaction w a) [
        | commit_completed v x y z ↦ record {
          outcome = ok (record { id = transaction.id; status = completed });
          path = _;
          after = v;
          ran = ground (arith, x);
          ending = completes;
          at_path = y;
          backup_saved = λ r h. subst (HasBackup transaction.id) (sym z) m;
        }
        | commit_unverified v x y z ↦
            let (b, k) =
              restore_once-IsSettled sha256 datetime j now id_factory adapter now_valid data_held
                backup transaction "verification-failed" (some (maintenance verification_failed)) _
                v refl y in
            restored-HasEnded transaction _ b v.store.backups _ _ was_verifying
              (subst (HasBackup transaction.id) (sym z) m) k (ground (arith, x, k.ended))
        | commit_threw failure path v x q y z ↦
            let (b, k) =
              restore_once-IsSettled sha256 datetime j now id_factory adapter now_valid data_held
                backup transaction "write-threw-after-commit-start" (some failure) path v refl y in
            restored-HasEnded transaction path b v.store.backups _ _ q
              (subst (HasBackup transaction.id) (sym z) m) k (ground (arith, x, k.ended))
      ]

  -- Whatever the adapter does, a write of a prepared transaction ends in one of three ways. It
  -- completes; or it is restored, or the restore fails, once a commit was started; or it throws
  -- before a commit and stands for review. The journal and the store then hold the same steps, whose
  -- statuses are the path of that ending, and whenever a commit was started a backup is stored.
  pub write_transaction-HasEnded :
      (plan : SyncPlan) (platform_instance : RegisteredInstance) (transaction : TransactionContext)
      (w : World j.File P)
      → IsAt sha256 datetime j transaction.id (prepared ∷ []) w.store (w.journals transaction.id)
      → HasEnded transaction.id (
          write_transaction sha256 datetime j now id_factory adapter plan platform_instance
            transaction w)
  unfolding write_transaction after_backup
  write_transaction-HasEnded plan platform_instance transaction w a =
      elim (before_commit-ends sha256 datetime j now id_factory adapter now_valid data_held plan
        platform_instance transaction w a) [
          | inl b ↦
              let k =
                commit_or_restore-HasEnded b.made.0 b.made.1 transaction b.after b.at_path
                  b.backup_saved in
              record {
                outcome = k.outcome;
                path = k.path;
                after = k.after;
                ran = ground (arith, b.ran, k.ran);
                ending = k.ending;
                at_path = k.at_path;
                backup_saved = k.backup_saved;
              }
          | inr g ↦
              let k = abort-HasEnded transaction g.failure g.path g.after g.preparing g.at_path in
              record {
                outcome = k.outcome;
                path = k.path;
                after = k.after;
                ran = ground (arith, g.ran, k.ran);
                ending = k.ending;
                at_path = k.at_path;
                backup_saved = k.backup_saved;
              }
        ]
