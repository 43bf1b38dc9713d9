-- ===== src/Transaction/Transition/Paths.antt =====
-- The statuses that a transaction has gone through, and one more step on that path.
use dsh_session_maintenance.Prelude.{
  ◌≡◌, refl, ap, ◌∙◌, subst, ◌⊎◌, inl, inr, String, Bool, true, List, [], ◌∷◌, ◌++◌, map, some,
  string_eq, find, arith, eq_iff, Outcome, ok, thrown, Failure,
}
use mathlib.Core.List.{map-append}
use dsh_session_maintenance.Contracts.Transaction.{
  TransactionStatus, TransactionRecord, TransactionStep,
}
use dsh_session_maintenance.Contracts.Schemas.{id_schema, transaction_record_schema}
use dsh_session_maintenance.Domain.Text.{Text}
use dsh_session_maintenance.Transaction.Journal.{next_entry, make_entry}
use dsh_session_maintenance.Transaction.Store.{Store, has_id, apply_transition}
use dsh_session_maintenance.Transaction.Store.Steps.{IsTracked}
use dsh_session_maintenance.Transaction.World.{JournalFile, World}
use dsh_session_maintenance.Transaction.Transition.{
  Transition, data_or_empty, journal_input, store_input, record_transition,
}
use dsh_session_maintenance.Transaction.Transition.Synced.{
  IsSynced, IsRecordable, entry_of, moved_row, moved, record_transition_lem, moved-IsSynced,
}

pub Outcome-cases :
    {A S : Type 0} (r : Outcome A × S)
    → ((a : A) × (s : S) × (r ≡ (ok a, s))) ⊎ ((e : Failure) × (s : S) × (r ≡ (thrown e, s)))
Outcome-cases (ok a, s) = inl (a, s, refl)
Outcome-cases (thrown e, s) = inr (e, s, refl)

pub find-has_id :
    (id : String) (rs : List TransactionRecord) (row : TransactionRecord)
    → find (has_id id) rs ≡ some row
    → row.id ≡ id
find-has_id id [] row h = ground arith
find-has_id id (r ∷ rs) row h = ground (arith, find-has_id id rs row, eq_iff r.id id)

abbrev pub statuses : List TransactionStep → List TransactionStatus
statuses = map λ (s : TransactionStep). s.status

module _ (sha256 : Text → String) (datetime : String → Bool) (j : JournalFile sha256 datetime) where
  -- The journal and the store hold the same steps of the transaction, which took it along the path.
  pub record IsAt (id : String) (path : List TransactionStatus) (store : Store) (file : j.File)
      : Type 0 where
    pub row : TransactionRecord
    pub steps : List TransactionStep
    pub tracked : IsTracked datetime id row steps store
    pub held : j.Holds file steps
    pub path_taken : statuses steps ≡ path

  module _ {P : Type 0} where
    -- What a transition leaves alone.
    pub record IsFrame (w w' : World j.File P) : Type 0 where
      pub same_platform : w'.platform ≡ w.platform
      pub same_backups : w'.store.backups ≡ w.store.backups
      pub same_plans : w'.store.plans ≡ w.store.plans

    -- The transition was recorded.
    pub record IsRecorded (input : Transition) (path : List TransactionStatus) (w : World j.File P)
        : Type 0 where
      pub row : TransactionRecord
      pub after : World j.File P
      pub ran : record_transition sha256 datetime j input w ≡ (ok row, after)
      pub row_id : row.id ≡ input.transaction_id
      pub row_status : row.status ≡ input.status
      pub at_path :
          IsAt input.transaction_id
            (path ++ input.status ∷ [])
            after.store
            (after.journals input.transaction_id)
      pub frame : IsFrame w after

    id_given-of :
        (id : String) (path : List TransactionStatus) (w : World j.File P)
        → IsAt id path w.store (w.journals id)
        → id_schema id ≡ true
    unfolding transaction_record_schema
    id_given-of id path w a =
        let e = find-has_id id w.store.transactions a.row a.tracked.row_found in
        subst (λ i. id_schema i ≡ true) e (ground (arith, a.tracked.row_valid))

    pub record_transition-IsRecorded :
        (input : Transition) (path : List TransactionStatus) (w : World j.File P)
        → id_schema input.step ≡ true
        → datetime input.at ≡ true
        → j.CanHold (data_or_empty input.entry_data)
        → IsAt input.transaction_id path w.store (w.journals input.transaction_id)
        → IsRecorded input path w
    unfolding apply_transition store_input journal_input next_entry make_entry
    record_transition-IsRecorded input path w n v d a =
        let s : IsSynced sha256 datetime j input.transaction_id a.row a.steps w = record {
          tracked = a.tracked;
          held = a.held;
        } in
        let r : IsRecordable sha256 datetime j input = record {
          id_given = id_given-of input.transaction_id path w a;
          step_named = n;
          at_valid = v;
          data_held = d;
        } in
        let m = moved-IsSynced sha256 datetime j input a.row a.steps w r s in
        record {
          row = moved_row sha256 datetime j input a.steps a.row;
          after = moved sha256 datetime j input a.steps w;
          ran = record_transition_lem sha256 datetime j input a.row a.steps w r s;
          row_id = find-has_id input.transaction_id w.store.transactions a.row a.tracked.row_found;
          row_status = refl;
          at_path = record {
            row = moved_row sha256 datetime j input a.steps a.row;
            steps = a.steps ++ entry_of sha256 datetime j a.steps input ∷ [];
            tracked = m.tracked;
            held = m.held;
            path_taken =
                map-append (λ (s : TransactionStep). s.status) a.steps _
                ∙ ap (λ p. p ++ input.status ∷ []) a.path_taken;
          };
          frame = record { same_platform = refl; same_backups = refl; same_plans = refl };
        }
