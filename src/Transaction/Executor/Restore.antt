-- ===== src/Transaction/Executor/Restore.antt =====
-- The restore after a failed write: it ends restored or restore-failed, whatever the adapter does.
use mathlib.Core.Option
use dsh_session_maintenance.Prelude.{
  ℕ, ◌≡◌, refl, ap, ◌∙◌, subst, inl, inr, String, Bool, true, false, List, [], ◌∷◌, ◌++◌,
  append_assoc, Option, arith, Outcome, ok, Failure, if◌then◌else◌, ◌>>=◌, pure,
}
use dsh_session_maintenance.Contracts.Json.{Json}
use dsh_session_maintenance.Contracts.Transaction.{
  TransactionStatus, restoring, restored, restore_failed,
}
use dsh_session_maintenance.Contracts.Schemas.{id_schema}
use dsh_session_maintenance.Contracts.Write.{
  TransactionContext, BackupManifest, RestoreReceipt, WriteAdapter,
}
use dsh_session_maintenance.Domain.Text.{Text}
use dsh_session_maintenance.Domain.Plan.Payload.{object}
use dsh_session_maintenance.Transaction.World.{JournalFile, World, ticked}
use dsh_session_maintenance.Transaction.Transition.{
  Transition, plain, data_or_empty, TransactionRef, transaction_ref, record_transition,
  error_code_of,
}
use dsh_session_maintenance.Transaction.Transition.Paths.{
  IsAt, IsRecorded, record_transition-IsRecorded, Outcome-cases,
}
use dsh_session_maintenance.Transaction.Executor.{
  backup_data, restore_error_data, step_with_error, restore_recorded, restore_threw, restore_once,
}

-- The data that the executor gives its steps.
pub data StepData : Json → Type 0 where
  no_data : StepData (object [])
  backup_done : (manifest : BackupManifest) → StepData (backup_data manifest)
  restore_error :
      (original : Option Failure) (error : Failure) → StepData (restore_error_data original error)

abbrev pub settled : Bool → TransactionStatus
settled b = if b then restored else restore_failed

restore_step-given :
    (b : Bool) → id_schema (if b then "restore-completed" else "restore-failed") ≡ true
unfolding id_schema
restore_step-given true = refl
restore_step-given false = refl

module _ {P : Type 0} (sha256 : Text → String) (datetime : String → Bool)
    (j : JournalFile sha256 datetime) (now id_factory : ℕ → String) (adapter : WriteAdapter P)
    (now_valid : (n : ℕ) → datetime (now n) ≡ true)
    (data_held : (value : Json) → StepData value → j.CanHold value) where
  -- The action ends with a reference to the transaction, which has gone on along the path.
  pub record IsSettled (transaction : TransactionContext) (path : List TransactionStatus)
      (status : TransactionStatus) (backups : List BackupManifest)
      (result : Outcome TransactionRef × World j.File P) : Type 0 where
    pub after : World j.File P
    pub ended : result ≡ (ok (record { id = transaction.id; status = status }), after)
    pub at_path :
        IsAt sha256 datetime j transaction.id path after.store (after.journals transaction.id)
    pub same_backups : after.store.backups ≡ backups

  pub recorded_ref :
      (input : Transition) (path : List TransactionStatus) (w : World j.File P)
      → (r : IsRecorded sha256 datetime j input path w)
      → (record_transition sha256 datetime j input >>= λ row. pure (transaction_ref row)) w
        ≡ (ok (record { id = input.transaction_id; status = input.status }), r.after)
  unfolding transaction_ref
  recorded_ref input path w r = ground (arith, r.ran, r.row_id, r.row_status)

  -- A transition that ends the action.
  IsSettled-record_transition :
      (transaction : TransactionContext) (input : Transition) (path : List TransactionStatus)
      (w : World j.File P)
      → input.transaction_id ≡ transaction.id
      → IsRecorded sha256 datetime j input path w
      → IsSettled transaction
          (path ++ input.status ∷ [])
          input.status
          w.store.backups
          ((record_transition sha256 datetime j input >>= λ row. pure (transaction_ref row)) w)
  IsSettled-record_transition transaction input path w e r = record {
    after = r.after;
    ended =
        recorded_ref input path w r
        ∙ ap (λ id. (ok (record { id = id; status = input.status }), r.after)) e;
    at_path =
        subst
          (λ id.
            IsAt sha256 datetime j id (path ++ input.status ∷ []) r.after.store
              (r.after.journals id))
          e r.at_path;
    same_backups = r.frame.same_backups;
  }

  restore_recorded-IsSettled :
      (transaction : TransactionContext) (receipt : RestoreReceipt) (path : List TransactionStatus)
      (w : World j.File P)
      → IsAt sha256 datetime j transaction.id path w.store (w.journals transaction.id)
      → IsSettled transaction
          (path ++ settled receipt.is_restored ∷ [])
          (settled receipt.is_restored)
          w.store.backups
          (restore_recorded sha256 datetime j now id_factory adapter transaction receipt w)
  unfolding restore_recorded data_or_empty
  restore_recorded-IsSettled transaction receipt path w a =
      IsSettled-record_transition transaction _ path (ticked w) refl (
        record_transition-IsRecorded sha256 datetime j _ path (ticked w)
          (restore_step-given receipt.is_restored) (now_valid w.ticks) (data_held _ no_data) a)

  restore_threw-IsSettled :
      (transaction : TransactionContext) (original : Option Failure) (error : Failure)
      (path : List TransactionStatus) (w : World j.File P)
      → IsAt sha256 datetime j transaction.id path w.store (w.journals transaction.id)
      → IsSettled transaction
          (path ++ settled false ∷ [])
          (settled false)
          w.store.backups
          (restore_threw sha256 datetime j now id_factory adapter transaction original error w)
  unfolding restore_threw data_or_empty id_schema
  restore_threw-IsSettled transaction original error path w a =
      IsSettled-record_transition transaction _ path (ticked w) refl (
        record_transition-IsRecorded sha256 datetime j _ path (ticked w) refl (now_valid w.ticks)
          (data_held _ (restore_error original error)) a)

  -- The transition to `restoring`.
  abbrev restoring_input :
      TransactionContext → String → Option Failure → World j.File P → Transition
  restoring_input transaction trigger original w =
      record (plain transaction.id restoring trigger (now w.ticks)) {
        error_code = Option.map error_code_of original;
      }

  IsSettled-append :
      (transaction : TransactionContext) (path : List TransactionStatus) (a b : TransactionStatus)
      (before backups : List BackupManifest) (x y : Outcome TransactionRef × World j.File P)
      → before ≡ backups
      → y ≡ x
      → IsSettled transaction ((path ++ a ∷ []) ++ b ∷ []) b before x
      → IsSettled transaction (path ++ a ∷ b ∷ []) b backups y
  IsSettled-append transaction path a b before backups x y same e k =
      subst (λ p. IsSettled transaction p b backups y) (append_assoc path (a ∷ []) (b ∷ []))
        (record {
          after = k.after;
          ended = e ∙ k.ended;
          at_path = k.at_path;
          same_backups = k.same_backups ∙ same;
        })

  -- Restoring takes the transaction to `restoring`, and then to an end.
  pub restore_once-IsSettled :
      (backup : BackupManifest) (transaction : TransactionContext) (trigger : String)
      (original : Option Failure) (path : List TransactionStatus) (w : World j.File P)
      → id_schema trigger ≡ true
      → IsAt sha256 datetime j transaction.id path w.store (w.journals transaction.id)
      → (b : Bool) × IsSettled transaction
          (path ++ restoring ∷ settled b ∷ [])
          (settled b)
          w.store.backups
          (restore_once sha256 datetime j now id_factory adapter backup transaction trigger original
            w)
  unfolding restore_once step_with_error data_or_empty
  restore_once-IsSettled backup transaction trigger original path w t a =
      let r =
        record_transition-IsRecorded sha256 datetime j
          (restoring_input transaction trigger original w) path (ticked w) t (now_valid w.ticks)
          (data_held _ no_data) a in
      let w1 : World j.File P = r.after in
      elim (Outcome-cases (adapter.restore backup transaction w1.platform)) [
        | inl (receipt, p, e) ↦
            let w2 : World j.File P = record w1 { platform = p } in
            let k =
              restore_recorded-IsSettled transaction receipt (path ++ restoring ∷ []) w2
                r.at_path in
            (
              receipt.is_restored,
              IsSettled-append transaction path restoring (settled receipt.is_restored)
                  w2.store.backups w.store.backups _ _ r.frame.same_backups
                  (ground (arith, r.ran, e, k.ended)) k,
            )
        | inr (error, p, e) ↦
            let w2 : World j.File P = record w1 { platform = p } in
            let k =
              restore_threw-IsSettled transaction original error (path ++ restoring ∷ []) w2
                r.at_path in
            (
              false,
              IsSettled-append transaction path restoring (settled false) w2.store.backups
                  w.store.backups _ _ r.frame.same_backups (ground (arith, r.ran, e, k.ended)) k,
            )
      ]
