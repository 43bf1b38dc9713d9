-- ===== src/Transaction/Transition/Synced.antt =====
-- A transaction whose journal and store agree stays so when it is moved by `recordTransition`.
use Prim.Native.String as S
use text.Mathlib.TextLemmas.{append-eq-nil_iff}
use dsh_session_maintenance.Prelude.{
  ◌≡◌, refl, ap, sym, subst, String, Bool, true, List, [], ◌∷◌, ◌++◌, string_eq, arith, eq_iff, ok,
}
use dsh_session_maintenance.Contracts.Json.{Json}
use dsh_session_maintenance.Contracts.Transaction.{TransactionRecord, TransactionStep}
use dsh_session_maintenance.Contracts.Schemas.{id_schema, transaction_step_schema}
use dsh_session_maintenance.Domain.Text.{Text}
use dsh_session_maintenance.Domain.CanonicalJson.{canonical_json}
use dsh_session_maintenance.Transaction.Journal.{next_entry, make_entry, hash_entry, step_payload}
use dsh_session_maintenance.Transaction.Store.{apply_transition}
use dsh_session_maintenance.Transaction.Store.Steps.{
  IsTracked, recorded, record_transaction_step_lem, recorded-IsTracked,
}
use dsh_session_maintenance.Transaction.World.{JournalFile, World, put_journal}
use dsh_session_maintenance.Transaction.Transition.{
  Transition, data_or_empty, journal_input, store_input, record_transition,
}

put_journal-same :
    {F : Type 0} (id : String) (file : F) (journals : String → F)
    → put_journal id file journals id ≡ file
put_journal-same id file journals = ground (arith, eq_iff id id)

module _ (sha256 : Text → String) (datetime : String → Bool) (j : JournalFile sha256 datetime) where
  abbrev pub entry_of : List TransactionStep → Transition → TransactionStep
  entry_of steps input = next_entry sha256 steps (journal_input input)

  -- The texts of the transition pass the schema, and its data can be written.
  pub record IsRecordable (input : Transition) : Type 0 where
    pub id_given : id_schema input.transaction_id ≡ true
    pub step_named : id_schema input.step ≡ true
    pub at_valid : datetime input.at ≡ true
    pub data_held : j.CanHold (data_or_empty input.entry_data)

  abbrev pub moved_row : Transition → List TransactionStep → TransactionRecord → TransactionRecord
  moved_row input steps row = apply_transition (store_input input (entry_of steps input)) row

  hash-given : (value : Json) → id_schema (hash_entry sha256 value) ≡ true
  unfolding id_schema hash_entry
  hash-given value =
      let hex = sha256 (canonical_json value) in
      ground (
        arith,
        eq_iff (S.◌++◌ "sha256:" hex) "",
        eq_iff "sha256:" "",
        append-eq-nil_iff {p = "sha256:"} {q = hex},
      )

  entry-valid :
      (steps : List TransactionStep) (input : Transition)
      → IsRecordable input
      → transaction_step_schema datetime (entry_of steps input) ≡ true
  unfolding transaction_step_schema next_entry make_entry journal_input step_payload
  entry-valid steps input r = ground (
    arith,
    r.id_given,
    r.step_named,
    r.at_valid,
    hash-given (step_payload (entry_of steps input)),
  )

  module _ {P : Type 0} where
    -- The row of the transaction and its steps, the same in the store and in the journal.
    pub record IsSynced (id : String) (row : TransactionRecord) (steps : List TransactionStep)
        (w : World j.File P) : Type 0 where
      pub tracked : IsTracked datetime id row steps w.store
      pub held : j.Holds (w.journals id) steps

    abbrev pub moved : Transition → List TransactionStep → World j.File P → World j.File P
    moved input steps w = record w {
      store = recorded (store_input input (entry_of steps input)) w.store;
      journals =
          put_journal input.transaction_id
            (j.append (journal_input input) (w.journals input.transaction_id)).1 w.journals;
    }

    -- The journal gets the next entry, the store the same step, and nothing else is touched.
    pub record_transition_lem :
        (input : Transition) (row : TransactionRecord) (steps : List TransactionStep)
        (w : World j.File P)
        → IsRecordable input
        → IsSynced input.transaction_id row steps w
        → record_transition sha256 datetime j input w
          ≡ (ok (moved_row input steps row), moved input steps w)
    unfolding record_transition store_input next_entry make_entry journal_input
    record_transition_lem input row steps w r s =
        let a =
          j.append_holds (w.journals input.transaction_id) steps (journal_input input) s.held
            r.data_held (entry-valid steps input r) in
        let t =
          record_transaction_step_lem sha256 datetime input.transaction_id row steps w.store
            (store_input input (entry_of steps input)) s.tracked (j.Holds-IsChain _ steps s.held)
            (entry-valid steps input r) refl refl refl in
        ground (arith, a.0, t)

    pub moved-IsSynced :
        (input : Transition) (row : TransactionRecord) (steps : List TransactionStep)
        (w : World j.File P)
        → IsRecordable input
        → IsSynced input.transaction_id row steps w
        → IsSynced input.transaction_id
            (moved_row input steps row)
            (steps ++ entry_of steps input ∷ [])
            (moved input steps w)
    unfolding store_input next_entry make_entry journal_input
    moved-IsSynced input row steps w r s = record {
      tracked =
          recorded-IsTracked sha256 datetime input.transaction_id row steps w.store
            (store_input input (entry_of steps input)) s.tracked (entry-valid steps input r) refl;
      held =
          subst (λ file. j.Holds file (steps ++ entry_of steps input ∷ []))
            (sym (put_journal-same input.transaction_id _ w.journals))
            (j.append_holds (w.journals input.transaction_id) steps (journal_input input) s.held
              r.data_held (entry-valid steps input r)).1;
    }

    -- A transaction whose journal and store hold the same steps is moved on in both: the entry that
    -- continues the journal becomes the next step of the store, whose row takes the new status.
    pub record_transition-IsSynced :
        (input : Transition) (row : TransactionRecord) (steps : List TransactionStep)
        (w : World j.File P)
        → IsRecordable input
        → IsSynced input.transaction_id row steps w
        → ((record_transition sha256 datetime j input w).0 ≡ ok (moved_row input steps row))
          × ((moved_row input steps row).status ≡ input.status)
          × IsSynced input.transaction_id
              (moved_row input steps row)
              (steps ++ entry_of steps input ∷ [])
              (record_transition sha256 datetime j input w).1
    unfolding apply_transition store_input next_entry make_entry journal_input
    record_transition-IsSynced input row steps w r s =
        let e = record_transition_lem input row steps w r s in
        (
          ap (λ p. p.0) e,
          refl,
          subst
              (IsSynced input.transaction_id (moved_row input steps row)
                (steps ++ entry_of steps input ∷ []))
              (sym (ap (λ p. p.1) e)) (moved-IsSynced input row steps w r s),
        )
