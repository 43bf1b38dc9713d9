-- ===== src/Transaction/Executor/Backup.antt =====
-- Up to the commit: either a backup of the transaction is in the store and it is applying, or the
-- write was given up before.
use dsh_session_maintenance.Prelude.{
  ℕ, ◌≡◌, refl, ap, sym, ◌∙◌, subst, ◌⊎◌, inl, inr, String, Bool, true, false, List, [], ◌∷◌, ◌++◌,
  Option, none, some, Bool-cases, arith, Outcome, ok, thrown, Failure, find, ◌==◌, string_eq,
  eq_iff, ◌&&◌, list_eq, nat_eq, demand, pure, ◌>>=◌, Action, keep, maintenance, backup_corrupt,
  schema_error,
}
use dsh_session_maintenance.Contracts.Json.{Json}
use dsh_session_maintenance.Contracts.Plan.{SyncPlan}
use dsh_session_maintenance.Contracts.Transaction.{
  TransactionStatus, prepared, backing_up, applying,
}
use dsh_session_maintenance.Contracts.Schemas.{id_schema, backup_manifest_schema}
use dsh_session_maintenance.Domain.CanonicalJson.{canonical_json}
use dsh_session_maintenance.Transaction.Rows.{backup_manifest_json}
use dsh_session_maintenance.Contracts.Write.{
  RegisteredInstance, TransactionContext, PreparedWrite, BackupManifest, WriteAdapter,
}
use dsh_session_maintenance.Domain.Text.{Text}
use dsh_session_maintenance.Transaction.Store.{Store, has_id, is_step_of}
use dsh_session_maintenance.Transaction.Store.Backups.{
  find_backup, add_backup, save_backup_manifest,
}
use dsh_session_maintenance.Transaction.World.{JournalFile, World, ticked, in_store, read_clock}
use dsh_session_maintenance.Transaction.Transition.{
  Transition, plain, data_or_empty, record_transition,
}
use dsh_session_maintenance.Transaction.Transition.Paths.{
  IsAt, record_transition-IsRecorded, Outcome-cases,
}
use dsh_session_maintenance.Transaction.Executor.{backup_data, step_to, back_up, before_commit}
use dsh_session_maintenance.Transaction.Executor.Restore.{StepData, no_data, backup_done}

-- The store holds a backup of the transaction.
abbrev pub HasBackup : String → List BackupManifest → Type 0
HasBackup id backups =
    (m : BackupManifest) × (find (λ (b : BackupManifest). b.transaction_id == id) backups ≡ some m)

find-backup-concat :
    (m : BackupManifest) (ms : List BackupManifest) → HasBackup m.transaction_id (ms ++ m ∷ [])
find-backup-concat m [] = (m, ground (arith, eq_iff m.transaction_id m.transaction_id))
find-backup-concat m (b ∷ ms) = elim (Bool-cases (b.transaction_id == m.transaction_id)) [
  | inl h ↦ (b, ground arith)
  | inr h ↦ let (k, e) = find-backup-concat m ms in (k, ground (arith, e))
]

-- Saving a manifest touches the backups alone, and leaves one of its transaction if it succeeds.
record IsSaved (m : BackupManifest) (store : Store) (result : Outcome (Unit {0}) × Store)
    : Type 0 where
  outcome : Outcome (Unit {0})
  after : Store
  ran : result ≡ (outcome, after)
  same_transactions : after.transactions ≡ store.transactions
  same_steps : after.steps ≡ store.steps
  kept : outcome ≡ ok tt → HasBackup m.transaction_id after.backups

unchanged :
    (m : BackupManifest) (store : Store) (failure : Failure)
    → IsSaved m store (thrown failure, store)
unchanged m store failure = record {
  outcome = thrown failure;
  after = store;
  ran = refl;
  same_transactions = refl;
  same_steps = refl;
  kept = λ h. ground arith;
}

add-IsSaved :
    (datetime : String → Bool) (m : BackupManifest) (found : Option BackupManifest) (store : Store)
    → find_backup m.transaction_id store ≡ found
    → IsSaved m store (add_backup datetime m found store)
unfolding add_backup
add-IsSaved datetime m none store e = record {
  outcome = ok tt;
  after = record store { backups = store.backups ++ m ∷ [] };
  ran = refl;
  same_transactions = refl;
  same_steps = refl;
  kept = λ h. find-backup-concat m store.backups;
}
add-IsSaved datetime m (some old) store e =
    elim (old.hash == m.hash
        && canonical_json (backup_manifest_json old) == canonical_json (backup_manifest_json m))
      as (λ b. IsSaved m store (demand b (maintenance backup_corrupt) (pure tt) store)) [
        | true ↦ record {
          outcome = ok tt;
          after = store;
          ran = refl;
          same_transactions = refl;
          same_steps = refl;
          kept = λ h. (old, e);
        }
        | false ↦ unchanged m store (maintenance backup_corrupt)
      ]

save-IsSaved :
    (datetime : String → Bool) (m : BackupManifest) (store : Store)
    → IsSaved m store (save_backup_manifest datetime m store)
unfolding save_backup_manifest
save-IsSaved datetime m store =
    elim (backup_manifest_schema datetime m)
      as (λ b. IsSaved m store (
        demand b schema_error
          (λ (s : Store). add_backup datetime m (find_backup m.transaction_id s) s) store)) [
            | true ↦ add-IsSaved datetime m (find_backup m.transaction_id store) store refl
            | false ↦ unchanged m store schema_error
          ]

saved-after :
    (m : BackupManifest) (store after : Store) (outcome : Outcome (Unit {0}))
    (result : Outcome (Unit {0}) × Store)
    → IsSaved m store result
    → result ≡ (outcome, after)
    → (after.transactions ≡ store.transactions)
      × (after.steps ≡ store.steps)
      × (outcome ≡ ok tt → HasBackup m.transaction_id after.backups)
saved-after m store after outcome result s e =
    let q : (s.outcome, s.after) ≡ (outcome, after) = sym s.ran ∙ e in
    let a : s.after ≡ after = ap (λ p. p.1) q in
    (
      sym (ap (λ x. x.transactions) a) ∙ s.same_transactions,
      sym (ap (λ x. x.steps) a) ∙ s.same_steps,
      λ h. subst (λ x. HasBackup m.transaction_id x.backups) a (s.kept (ap (λ p. p.0) q ∙ h)),
    )

-- The paths on which no commit has started.
pub data IsPreparing : List TransactionStatus → Type 0 where
  was_prepared : IsPreparing (prepared ∷ [])
  was_backing_up : IsPreparing (prepared ∷ backing_up ∷ [])

abbrev pub applying_path : List TransactionStatus
applying_path = prepared ∷ backing_up ∷ applying ∷ []

module _ {P : Type 0} (sha256 : Text → String) (datetime : String → Bool)
    (j : JournalFile sha256 datetime) (now id_factory : ℕ → String) (adapter : WriteAdapter P)
    (now_valid : (n : ℕ) → datetime (now n) ≡ true)
    (data_held : (value : Json) → StepData value → j.CanHold value) where
  -- The write can be committed.
  pub record IsBackedUp {A : Type 0} (transaction : TransactionContext)
      (result : Outcome A × World j.File P) : Type 0 where
    pub made : A
    pub after : World j.File P
    pub ran : result ≡ (ok made, after)
    pub at_path :
        IsAt sha256 datetime j transaction.id applying_path after.store
          (after.journals transaction.id)
    pub backup_saved : HasBackup transaction.id after.store.backups

  -- Something threw before the commit.
  pub record IsGivenUp {A : Type 0} (transaction : TransactionContext)
      (result : Outcome A × World j.File P) : Type 0 where
    pub failure : Failure
    pub path : List TransactionStatus
    pub after : World j.File P
    pub ran : result ≡ (thrown failure, after)
    pub at_path :
        IsAt sha256 datetime j transaction.id path after.store (after.journals transaction.id)
    pub preparing : IsPreparing path

  IsAt-saved :
      (id : String) (path : List TransactionStatus) (store store' : Store) (file : j.File)
      → store'.transactions ≡ store.transactions
      → store'.steps ≡ store.steps
      → IsAt sha256 datetime j id path store file
      → IsAt sha256 datetime j id path store' file
  IsAt-saved id path store store' file t s a = record {
    row = a.row;
    steps = a.steps;
    tracked = record {
      row_found = ap (find (has_id id)) t ∙ a.tracked.row_found;
      row_valid = a.tracked.row_valid;
      steps_kept = ap (keep (is_step_of id)) s ∙ a.tracked.steps_kept;
    };
    held = a.held;
    path_taken = a.path_taken;
  }

  abbrev applying_input : TransactionContext → BackupManifest → World j.File P → Transition
  applying_input transaction manifest w =
      record (plain transaction.id applying "backup-completed" (now w.ticks)) {
        entry_data = some (backup_data manifest);
      }

  -- From the adapter's backup on.
  abbrev with_manifest :
      TransactionContext → BackupManifest → Action (World j.File P) BackupManifest
  with_manifest transaction manifest =
      demand (manifest.transaction_id == transaction.id) (maintenance backup_corrupt)
        (in_store (save_backup_manifest datetime manifest))
      >>= λ _. read_clock now >>= λ at.
          record_transition sha256 datetime j
            (record (plain transaction.id applying "backup-completed" at) {
              entry_data = some (backup_data manifest);
            })
          >>= λ _. pure manifest

  with_manifest-ends :
      (transaction : TransactionContext) (manifest : BackupManifest) (w : World j.File P)
      → IsAt sha256 datetime j transaction.id
          (prepared ∷ backing_up ∷ [])
          w.store
          (w.journals transaction.id)
      → IsBackedUp transaction (with_manifest transaction manifest w)
        ⊎ IsGivenUp transaction (with_manifest transaction manifest w)
  unfolding data_or_empty id_schema
  with_manifest-ends transaction manifest w a =
      elim (Bool-cases (manifest.transaction_id == transaction.id)) [
        | inr h ↦ inr (record {
          failure = maintenance backup_corrupt;
          path = _;
          after = w;
          ran = ground arith;
          at_path = a;
          preparing = was_backing_up;
        })
        | inl h ↦
            let id : manifest.transaction_id ≡ transaction.id =
              ground (arith, eq_iff manifest.transaction_id transaction.id) in
            elim (Outcome-cases (save_backup_manifest datetime manifest w.store)) [
              | inr (failure, store, e) ↦
                  let (t, s, k) =
                    saved-after manifest w.store store (thrown failure) _
                      (save-IsSaved datetime manifest w.store) e in
                  inr (record {
                    failure = failure;
                    path = _;
                    after = record w { store = store };
                    ran = ground arith;
                    at_path = IsAt-saved transaction.id _ w.store store _ t s a;
                    preparing = was_backing_up;
                  })
              | inl (u, store, e) ↦
                  let (t, s, k) =
                    saved-after manifest w.store store (ok u) _
                      (save-IsSaved datetime manifest w.store) e in
                  let w1 : World j.File P = record w { store = store } in
                  let r =
                    record_transition-IsRecorded sha256 datetime j
                      (applying_input transaction manifest w1) (prepared ∷ backing_up ∷ [])
                      (ticked w1) refl (now_valid w1.ticks) (data_held _ (backup_done manifest))
                      (IsAt-saved transaction.id _ w.store store _ t s a) in
                  inl (record {
                    made = manifest;
                    after = r.after;
                    ran = ground (arith, r.ran);
                    at_path = r.at_path;
                    backup_saved =
                        subst (HasBackup transaction.id) (sym r.frame.same_backups)
                          (subst (λ i. HasBackup i store.backups) id (k refl));
                  })
            ]
      ]

  abbrev backing_up_input : TransactionContext → World j.File P → Transition
  backing_up_input transaction w = plain transaction.id backing_up "backup-started" (now w.ticks)

  back_up-ends :
      (write : PreparedWrite) (transaction : TransactionContext) (w : World j.File P)
      → IsAt sha256 datetime j transaction.id (prepared ∷ []) w.store (w.journals transaction.id)
      → IsBackedUp transaction
          (back_up sha256 datetime j now id_factory adapter write transaction w)
        ⊎ IsGivenUp transaction
            (back_up sha256 datetime j now id_factory adapter write transaction w)
  unfolding back_up step_to data_or_empty id_schema
  back_up-ends write transaction w a =
      let r =
        record_transition-IsRecorded sha256 datetime j (backing_up_input transaction w)
          (prepared ∷ []) (ticked w) refl (now_valid w.ticks) (data_held _ no_data) a in
      let w1 : World j.File P = r.after in
      elim (Outcome-cases (adapter.backup write transaction w1.platform)) [
        | inr (failure, p, e) ↦ inr (record {
          failure = failure;
          path = _;
          after = record w1 { platform = p };
          ran = ground (arith, r.ran, e);
          at_path = r.at_path;
          preparing = was_backing_up;
        })
        | inl (manifest, p, e) ↦
            let w2 : World j.File P = record w1 { platform = p } in
            elim (with_manifest-ends transaction manifest w2 r.at_path) [
              | inl b ↦ inl (record {
                made = b.made;
                after = b.after;
                ran = ground (arith, r.ran, e, b.ran);
                at_path = b.at_path;
                backup_saved = b.backup_saved;
              })
              | inr g ↦ inr (record {
                failure = g.failure;
                path = g.path;
                after = g.after;
                ran = ground (arith, r.ran, e, g.ran);
                at_path = g.at_path;
                preparing = g.preparing;
              })
            ]
      ]

  -- Before the commit: a backup is stored and the transaction applies, or something threw on the way.
  pub before_commit-ends :
      (plan : SyncPlan) (platform_instance : RegisteredInstance) (transaction : TransactionContext)
      (w : World j.File P)
      → IsAt sha256 datetime j transaction.id (prepared ∷ []) w.store (w.journals transaction.id)
      → IsBackedUp transaction (
          before_commit sha256 datetime j now id_factory adapter plan platform_instance transaction
            w)
        ⊎ IsGivenUp transaction (
            before_commit sha256 datetime j now id_factory adapter plan platform_instance
              transaction w)
  unfolding before_commit
  before_commit-ends plan platform_instance transaction w a =
      elim (Outcome-cases (adapter.prepare plan platform_instance transaction w.platform)) [
        | inr (failure, p, e) ↦ inr (record {
          failure = failure;
          path = _;
          after = record w { platform = p };
          ran = ground (arith, e);
          at_path = a;
          preparing = was_prepared;
        })
        | inl (write, p, e) ↦
            let w1 : World j.File P = record w { platform = p } in
            elim (back_up-ends write transaction w1 a) [
              | inl b ↦ inl (record {
                made = (write, b.made);
                after = b.after;
                ran = ground (arith, e, b.ran);
                at_path = b.at_path;
                backup_saved = b.backup_saved;
              })
              | inr g ↦ inr (record {
                failure = g.failure;
                path = g.path;
                after = g.after;
                ran = ground (arith, e, g.ran);
                at_path = g.at_path;
                preparing = g.preparing;
              })
            ]
      ]
