-- ===== src/Transaction/Recovery/Replay.antt =====
-- A store that is behind its journal catches up.
use dsh_session_maintenance.Prelude.{
  ℕ, suc, ◌+◌, ◌≡◌, refl, sym, ◌∙◌, subst, String, Bool, true, List, [], ◌∷◌, ◌++◌, append-nil,
  append_assoc, Option, none, some, string_eq, nat_eq, list_eq, eq_iff, length, all, ltb, All,
  arith, Outcome, ok, length-append, drop-length-append, list_beq_iff,
}
use dsh_session_maintenance.Contracts.Transaction.{
  TransactionStatus, TransactionRecord, TransactionStep,
}
use dsh_session_maintenance.Contracts.Schemas.{transaction_step_schema}
use dsh_session_maintenance.Domain.Text.{Text, insert_sorted, sort}
use dsh_session_maintenance.Domain.CanonicalJson.{canonical_json}
use dsh_session_maintenance.Transaction.Journal.{step_json}
use dsh_session_maintenance.Transaction.Journal.Chain.{Linked, IsChain, end_hash, hash_of-last?}
use dsh_session_maintenance.Transaction.Store.{
  Store, TransactionTransition, apply_transition, list_transaction_steps,
}
use dsh_session_maintenance.Transaction.Store.Steps.{
  IsTracked, recorded, record_transaction_step_lem, recorded-IsTracked,
}
use dsh_session_maintenance.Transaction.World.{JournalFile, World}
use dsh_session_maintenance.Transaction.Recovery.{
  same_steps, agrees, replay, reconcile_steps, reconcile_read, reconcile_journal,
}

module _ (sha256 : Text → String) where
  Linked-at :
      (n : ℕ) (previous : Option String) (ds : List TransactionStep) (s : TransactionStep)
      (rest : List TransactionStep)
      → Linked sha256 n previous (ds ++ s ∷ rest)
      → (s.sequence ≡ n + length ds) × (s.previous_hash ≡ end_hash sha256 previous ds)
  Linked-at n previous [] s rest l = (omega (arith, l.0), l.1)
  Linked-at n previous (d ∷ ds) s rest l =
      let (q, p) = Linked-at (suc n) (some d.entry_hash) ds s rest l.3 in (omega (arith, q), p)

  Linked-prefix :
      (n : ℕ) (previous : Option String) (ds rest : List TransactionStep)
      → Linked sha256 n previous (ds ++ rest)
      → Linked sha256 n previous ds
  Linked-prefix n previous [] rest l = tt
  Linked-prefix n previous (d ∷ ds) rest l =
      (l.0, l.1, l.2, Linked-prefix (suc n) (some d.entry_hash) ds rest l.3)

  abbrev by_sequence : TransactionStep → TransactionStep → Bool
  by_sequence a b = ltb a.sequence b.sequence

  -- Steps that are linked are in the order of their numbers.
  sort-Linked :
      (n : ℕ) (previous : Option String) (ds : List TransactionStep)
      → Linked sha256 n previous ds
      → sort by_sequence ds ≡ ds
  unfolding sort insert_sorted
  sort-Linked n previous [] l = refl
  sort-Linked n previous (d ∷ []) l = refl
  sort-Linked n previous (d ∷ e ∷ ds) l =
      rw (sort-Linked (suc n) (some d.entry_hash) (e ∷ ds) l.3) (ground (arith, l.0, l.3))

  module _ (datetime : String → Bool) where
    database_steps :
        (id : String) (row : TransactionRecord) (ds : List TransactionStep) (store : Store)
        → IsTracked datetime id row ds store
        → IsChain sha256 ds
        → all (transaction_step_schema datetime) ds ≡ true
        → list_transaction_steps datetime id store ≡ (ok ds, store)
    unfolding list_transaction_steps
    database_steps id row ds store t c v = rw (t.steps_kept, sort-Linked 0 none ds c, v) refl

same_steps-append : (ds rest : List TransactionStep) → same_steps (ds ++ rest) ds ≡ true
unfolding same_steps
same_steps-append [] [] = refl
same_steps-append [] (s ∷ rest) = refl
same_steps-append (d ∷ ds) rest =
    let t = canonical_json (step_json d) in
    ground (arith, same_steps-append ds rest, list_beq_iff t t)

agrees-append : (ds rest : List TransactionStep) → agrees (ds ++ rest) ds ≡ true
unfolding agrees
agrees-append ds rest = ground (arith, same_steps-append ds rest, length-append ds rest)

-- The status after more steps.
abbrev pub final_status : TransactionStatus → List TransactionStep → TransactionStatus
final_status status [] = status
final_status status (s ∷ rest) = final_status s.status rest

abbrev pub IsStepOf : (String → Bool) → String → TransactionStep → Type 0
IsStepOf datetime id s = (s.transaction_id ≡ id) × (transaction_step_schema datetime s ≡ true)

abbrev step_input : TransactionStep → TransactionTransition
step_input s = record { step = s; result = none; error_code = none }

module _ {P : Type 0} (sha256 : Text → String) (datetime : String → Bool)
    (j : JournalFile sha256 datetime) (now : ℕ → String) where
  -- The store has all the steps of the journal, and nothing else has changed.
  pub record IsCaughtUp (id : String) (status : TransactionStatus) (steps : List TransactionStep)
      (w : World j.File P) (result : Outcome TransactionRecord × World j.File P) : Type 0 where
    pub row : TransactionRecord
    pub store : Store
    pub ran : result ≡ (ok row, record w { store = store })
    pub row_id : row.id ≡ id
    pub row_status : row.status ≡ status
    pub tracked : IsTracked datetime id row steps store
    pub same_backups : store.backups ≡ w.store.backups
    pub same_plans : store.plans ≡ w.store.plans

  replay-step :
      (row : TransactionRecord) (ds : List TransactionStep) (s : TransactionStep)
      (rest : List TransactionStep) (w : World j.File P)
      → IsTracked datetime row.id row ds w.store
      → IsChain sha256 (ds ++ s ∷ rest)
      → IsStepOf datetime row.id s
      → replay sha256 datetime j now row (s ∷ rest) w
        ≡ replay sha256 datetime j now
            (apply_transition (step_input s) row)
            rest
            (record w { store = recorded (step_input s) w.store })
  unfolding replay
  replay-step row ds s rest w t c h =
      let (q, p) = Linked-at sha256 0 none ds s rest c in
      let k =
        record_transaction_step_lem sha256 datetime row.id row ds w.store (step_input s) t
          (Linked-prefix sha256 0 none ds (s ∷ rest) c) h.1 h.0 (omega (arith, q))
          (p ∙ sym (hash_of-last? sha256 ds)) in
      ground (arith, k, eq_iff s.transaction_id row.id, h.0)

  replay-IsCaughtUp :
      (id : String) (row : TransactionRecord) (ds rest : List TransactionStep) (w : World j.File P)
      → row.id ≡ id
      → IsTracked datetime id row ds w.store
      → IsChain sha256 (ds ++ rest)
      → All (IsStepOf datetime id) rest
      → IsCaughtUp id
          (final_status row.status rest)
          (ds ++ rest)
          w
          (replay sha256 datetime j now row rest w)
  unfolding replay apply_transition
  replay-IsCaughtUp id row ds [] w i t c h = record {
    row = row;
    store = w.store;
    ran = refl;
    row_id = i;
    row_status = refl;
    tracked = subst (λ es. IsTracked datetime id row es w.store) (sym (append-nil ds)) t;
    same_backups = refl;
    same_plans = refl;
  }
  replay-IsCaughtUp id row ds (s ∷ rest) w i t c h =
      let t' = recorded-IsTracked sha256 datetime id row ds w.store (step_input s) t h.0.1 h.0.0 in
      let w' : World j.File P = record w { store = recorded (step_input s) w.store } in
      let k =
        replay-IsCaughtUp id (apply_transition (step_input s) row) (ds ++ s ∷ []) rest w' i t'
          (subst (IsChain sha256) (sym (append_assoc ds (s ∷ []) rest)) c) h.1 in
      let e =
        replay-step row ds s rest w (subst (λ x. IsTracked datetime x row ds w.store) (sym i) t) c
          (subst (λ x. IsStepOf datetime x s) (sym i) h.0) in
      record {
        row = k.row;
        store = k.store;
        ran = e ∙ k.ran;
        row_id = k.row_id;
        row_status = k.row_status;
        tracked =
            subst (λ es. IsTracked datetime id k.row es k.store) (append_assoc ds (s ∷ []) rest)
              k.tracked;
        same_backups = k.same_backups;
        same_plans = k.same_plans;
      }

  -- A store that has a prefix of the journal's steps of a transaction catches up: afterwards it has
  -- all of them, and the row has the status of the last one.
  pub reconcile_journal-IsCaughtUp :
      (row : TransactionRecord) (ds rest : List TransactionStep) (w : World j.File P)
      → IsTracked datetime row.id row ds w.store
      → all (transaction_step_schema datetime) ds ≡ true
      → j.Holds (w.journals row.id) (ds ++ rest)
      → All (IsStepOf datetime row.id) rest
      → IsCaughtUp row.id
          (final_status row.status rest)
          (ds ++ rest)
          w
          (reconcile_journal sha256 datetime j now row w)
  unfolding reconcile_journal reconcile_read reconcile_steps
  reconcile_journal-IsCaughtUp row ds rest w t v h o =
      let c = j.Holds-IsChain (w.journals row.id) (ds ++ rest) h in
      let e = j.read_holds (w.journals row.id) (ds ++ rest) h in
      let d =
        database_steps sha256 datetime row.id row ds w.store t
          (Linked-prefix sha256 0 none ds rest c) v in
      let k = replay-IsCaughtUp row.id row ds rest w refl t c o in
      record {
        row = k.row;
        store = k.store;
        ran = ground (arith, e, d, agrees-append ds rest, drop-length-append ds rest, k.ran);
        row_id = k.row_id;
        row_status = k.row_status;
        tracked = k.tracked;
        same_backups = k.same_backups;
        same_plans = k.same_plans;
      }
