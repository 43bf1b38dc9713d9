-- ===== src/Transaction/Store/Steps.antt =====
-- A transaction's row and its steps in the store, and what recording one more step does to them.
use dsh_session_maintenance.Prelude.{
  ℕ, suc, ◌+◌, ◌<◌, ◌≡◌, refl, ap, ◌∙◌, String, Bool, true, List, [], ◌∷◌, ◌++◌, Option, none, some,
  string_eq, nat_eq, option_eq, find, keep, last?, length, arith, eq_iff, option_beq_iff, ok,
}
use dsh_session_maintenance.Contracts.Transaction.{TransactionRecord, TransactionStep}
use dsh_session_maintenance.Contracts.Schemas.{
  id_schema, transaction_record_schema, transaction_step_schema,
}
use dsh_session_maintenance.Domain.Text.{Text}
use dsh_session_maintenance.Transaction.Journal.{hash_of}
use dsh_session_maintenance.Transaction.Journal.Chain.{Linked, IsChain}
use dsh_session_maintenance.Transaction.Store.{
  Store, TransactionTransition, has_id, is_step_of, later_step, latest, last_step,
  expected_sequence, apply_transition, update_row, insert_step, transition_row,
  record_transaction_step,
}

-- The row of the transaction, valid, and its steps in the order in which they were recorded.
pub record IsTracked (datetime : String → Bool) (id : String) (row : TransactionRecord)
    (steps : List TransactionStep) (store : Store) : Type 0 where
  pub row_found : find (has_id id) store.transactions ≡ some row
  pub row_valid : transaction_record_schema datetime row ≡ true
  pub steps_kept : keep (is_step_of id) store.steps ≡ steps

pub keep-concat :
    (id : String) (xs : List TransactionStep) (s : TransactionStep)
    → s.transaction_id ≡ id
    → keep (is_step_of id) (xs ++ s ∷ []) ≡ keep (is_step_of id) xs ++ s ∷ []
keep-concat id [] s e = ground (arith, eq_iff s.transaction_id id)
keep-concat id (x ∷ xs) s e = ground (arith, keep-concat id xs s e)

pub find-update_row :
    (id : String) (change : TransactionRecord → TransactionRecord) (rs : List TransactionRecord)
    (row : TransactionRecord)
    → ((r : TransactionRecord) → (change r).id ≡ r.id)
    → find (has_id id) rs ≡ some row
    → find (has_id id) (update_row id change rs) ≡ some (change row)
unfolding update_row
find-update_row id change [] row k e = ground arith
find-update_row id change (r ∷ rs) row k e =
    ground (arith, k r, find-update_row id change rs row k, eq_iff r.id id, eq_iff (change r).id id)

module _ (sha256 : Text → String) where
  latest-Linked :
      (n : ℕ) (previous : Option String) (best : TransactionStep) (es : List TransactionStep)
      → Linked sha256 n previous es
      → best.sequence < n
      → latest (some best) es ≡ last? (best ∷ es)
  unfolding latest later_step
  latest-Linked n previous best [] l h = refl
  latest-Linked n previous best (s ∷ es) l h =
      ground (arith, latest-Linked (suc n) (some s.entry_hash) s es l.3)

  latest-IsChain : (es : List TransactionStep) → IsChain sha256 es → latest none es ≡ last? es
  unfolding latest later_step
  latest-IsChain [] c = refl
  latest-IsChain (s ∷ es) c = latest-Linked 1 (some s.entry_hash) s es c.3 (omega (arith, c.0))

  expected-Linked :
      (n : ℕ) (previous : Option String) (s : TransactionStep) (es : List TransactionStep)
      → Linked sha256 n previous (s ∷ es)
      → expected_sequence (last? (s ∷ es)) ≡ n + length (s ∷ es)
  unfolding expected_sequence
  expected-Linked n previous s [] l = omega (arith, l.0)
  expected-Linked n previous s (r ∷ es) l =
      let e = expected-Linked (suc n) (some s.entry_hash) r es l.3 in omega (arith, e)

  expected-IsChain :
      (es : List TransactionStep) → IsChain sha256 es → expected_sequence (last? es) ≡ length es
  unfolding expected_sequence
  expected-IsChain [] c = refl
  expected-IsChain (s ∷ es) c = let e = expected-Linked 0 none s es c in omega (arith, e)

apply_transition-valid :
    (datetime : String → Bool) (input : TransactionTransition) (row : TransactionRecord)
    → transaction_record_schema datetime row ≡ true
    → transaction_step_schema datetime input.step ≡ true
    → transaction_record_schema datetime (apply_transition input row) ≡ true
unfolding transaction_record_schema transaction_step_schema apply_transition
apply_transition-valid datetime input row r s = ground arith

-- The store with one more step and the row moved on.
abbrev pub recorded : TransactionTransition → Store → Store
recorded input store = record store {
  steps = store.steps ++ input.step ∷ [];
  transactions = update_row input.step.transaction_id (apply_transition input) store.transactions;
}

module _ (sha256 : Text → String) (datetime : String → Bool) (id : String) (row : TransactionRecord)
    (steps : List TransactionStep) (store : Store) (input : TransactionTransition) where
  last_step-IsTracked :
      IsTracked datetime id row steps store
      → IsChain sha256 steps
      → last_step id store ≡ last? steps
  unfolding last_step
  last_step-IsTracked t c = ap (latest none) t.steps_kept ∙ latest-IsChain sha256 steps c

  -- A step that continues the steps of the transaction is accepted.
  pub record_transaction_step_lem :
      IsTracked datetime id row steps store
      → IsChain sha256 steps
      → transaction_step_schema datetime input.step ≡ true
      → input.step.transaction_id ≡ id
      → input.step.sequence ≡ length steps
      → input.step.previous_hash ≡ hash_of (last? steps)
      → record_transaction_step datetime input store
        ≡ (ok (apply_transition input row), recorded input store)
  unfolding record_transaction_step transition_row insert_step transaction_step_schema id_schema
  record_transaction_step_lem t c v i n p = ground (
    arith,
    t.row_found,
    t.row_valid,
    last_step-IsTracked t c,
    expected-IsChain sha256 steps c,
    option_beq_iff input.step.previous_hash (hash_of (last? steps)),
  )

  pub recorded-IsTracked :
      IsTracked datetime id row steps store
      → transaction_step_schema datetime input.step ≡ true
      → input.step.transaction_id ≡ id
      → IsTracked datetime id
          (apply_transition input row)
          (steps ++ input.step ∷ [])
          (recorded input store)
  unfolding apply_transition
  recorded-IsTracked t v i = record {
    row_found = rw i (
        find-update_row id (apply_transition input) store.transactions row (λ r. refl) t.row_found);
    row_valid = apply_transition-valid datetime input row t.row_valid v;
    steps_kept =
        keep-concat id store.steps input.step i ∙ ap (λ es. es ++ input.step ∷ []) t.steps_kept;
  }
