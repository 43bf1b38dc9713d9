-- ===== src/Transaction/Restore/Confirmed.antt =====
-- A restore is not begun without the token that confirms it.
use dsh_session_maintenance.Prelude.{
  Outcome-cases, ℕ, ◌≡◌, ◌⊎◌, inl, inr, String, Bool, Option, arith, ok, thrown, Failure,
}
use dsh_session_maintenance.Contracts.Plan.{PlatformKind}
use dsh_session_maintenance.Contracts.Write.{RegisteredInstance, WriteAdapter, ConfirmationScope}
use dsh_session_maintenance.Domain.Text.{Text}
use dsh_session_maintenance.Transaction.World.{JournalFile, World}
use dsh_session_maintenance.Transaction.Confirmation.{consume_token}
use dsh_session_maintenance.Transaction.Restore.{restore_scope, restore}

module _ {P : Type 0} (sha256 : Text → String) (datetime : String → Bool)
    (j : JournalFile sha256 datetime) (now id_factory : ℕ → String) (pid : ℕ)
    (adapters : PlatformKind → Option (WriteAdapter P))
    (instances : String → Option RegisteredInstance) (iso : ℕ → String) (time : String → ℕ) where
  -- Either the token can be consumed for the scope that the store gives for the transaction and its
  -- backup, or the restore throws and has changed no journal, no lock and nothing on the platform.
  pub restore-confirmed :
      (transaction_id token : String) (confirmed_at : ℕ) (w : World j.File P)
      → ((scope : ConfirmationScope) × ((restore_scope sha256 datetime transaction_id w.store).0
            ≡ ok scope)
          × ((consume_token sha256 datetime iso time token scope confirmed_at
                (restore_scope sha256 datetime transaction_id w.store).1).0
              ≡ ok tt))
        ⊎ ((e : Failure) × ((restore sha256 datetime j now id_factory pid adapters instances iso
                time transaction_id token confirmed_at w).0
              ≡ thrown e)
            × ((restore sha256 datetime j now id_factory pid adapters instances iso time
                  transaction_id token confirmed_at w).1.platform
                ≡ w.platform)
            × ((restore sha256 datetime j now id_factory pid adapters instances iso time
                  transaction_id token confirmed_at w).1.journals
                ≡ w.journals)
            × ((restore sha256 datetime j now id_factory pid adapters instances iso time
                  transaction_id token confirmed_at w).1.locks
                ≡ w.locks))
  unfolding restore
  restore-confirmed transaction_id token confirmed_at w =
      let scoped = restore_scope sha256 datetime transaction_id w.store in
      elim (Outcome-cases scoped.0) [
        | inr (e, h) ↦
            inr (e, ground (arith, h), ground (arith, h), ground (arith, h), ground (arith, h))
        | inl (scope, h) ↦
            elim (Outcome-cases
              (consume_token sha256 datetime iso time token scope confirmed_at scoped.1).0) [
                | inl (done, k) ↦ inl (scope, h, k)
                | inr (e, k) ↦ inr (
                  e,
                  ground (arith, h, k),
                  ground (arith, h, k),
                  ground (arith, h, k),
                  ground (arith, h, k),
                )
              ]
      ]
