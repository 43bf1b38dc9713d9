-- ===== src/Transaction/World.antt =====
-- What the transaction engine works on: the store, the journal files, the plan files and the lock
-- files below its state root, the platform behind the write adapters, the clock and the source of
-- IDs. A journal is an interface, which Transaction/Journal fills.
use dsh_session_maintenance.Prelude.{
  ℕ, suc, ◌≡◌, String, Option, Bool, true, List, [], ◌∷◌, ◌++◌, ◌==◌, string_eq, if◌then◌else◌,
  Action, Outcome, ok,
}
use dsh_session_maintenance.Contracts.Json.{Json}
use dsh_session_maintenance.Contracts.Transaction.{TransactionStep}
use dsh_session_maintenance.Contracts.Schemas.{transaction_step_schema}
use dsh_session_maintenance.Domain.Text.{Text}
use dsh_session_maintenance.Transaction.Journal.{JournalEntryInput, next_entry}
use dsh_session_maintenance.Transaction.Journal.Chain.{IsChain}
use dsh_session_maintenance.Transaction.Store.{Store}

-- `AppendOnlyJournal`: what the engine asks of the file of one transaction.
pub record JournalFile (sha256 : Text → String) (datetime : String → Bool) : Type 1 where
  pub File : Type 0
  -- The file that is not there yet.
  pub absent : File
  pub read : File → Outcome (List TransactionStep)
  pub append : JournalEntryInput → Action File TransactionStep
  -- The data that an entry may carry.
  pub CanHold : Json → Type 0
  pub Holds : File → List TransactionStep → Type 0
  pub absent-Holds : Holds absent []
  pub Holds-IsChain :
      (file : File) (steps : List TransactionStep) → Holds file steps → IsChain sha256 steps
  pub read_holds :
      (file : File) (steps : List TransactionStep) → Holds file steps → read file ≡ ok steps
  pub append_holds :
      (file : File) (steps : List TransactionStep) (input : JournalEntryInput)
      → Holds file steps
      → CanHold input.entry_data
      → transaction_step_schema datetime (next_entry sha256 steps input) ≡ true
      → ((append input file).0 ≡ ok (next_entry sha256 steps input))
        × Holds (append input file).1 (steps ++ next_entry sha256 steps input ∷ [])

-- A lock file; the owner is `none` where its record cannot be read.
pub record LockFile : Type 0 where
  pub path : String
  pub owner : Option ℕ

pub record World (F P : Type 0) : Type 0 where
  pub store : Store
  pub journals : String → F
  pub plan_files : List (String × Text)
  pub locks : List LockFile
  pub platform : P
  -- The readings of the clock and the IDs that were taken.
  pub ticks : ℕ
  pub ids : ℕ

abbrev pub put_journal : {F : Type 0} → String → F → (String → F) → String → F
put_journal id file journals j = if j == id then file else journals j

module _ {F P A : Type 0} where
  abbrev with_store : World F P → Outcome A × Store → Outcome A × World F P
  with_store w (r, s) = (r, record w { store = s })

  abbrev pub in_store : Action Store A → Action (World F P) A
  in_store m w = with_store w (m w.store)

  abbrev with_platform : World F P → Outcome A × P → Outcome A × World F P
  with_platform w (r, p) = (r, record w { platform = p })

  abbrev pub on_platform : Action P A → Action (World F P) A
  on_platform m w = with_platform w (m w.platform)

  abbrev with_journal : String → World F P → Outcome A × F → Outcome A × World F P
  with_journal id w (r, f) = (r, record w { journals = put_journal id f w.journals })

  abbrev pub in_journal : String → Action F A → Action (World F P) A
  in_journal id m w = with_journal id w (m (w.journals id))

module _ {F P : Type 0} where
  abbrev pub ticked : World F P → World F P
  ticked w = record w { ticks = suc w.ticks }

  -- `this.now().toISOString()`
  abbrev pub read_clock : (ℕ → String) → Action (World F P) String
  read_clock now w = (ok (now w.ticks), ticked w)

  -- `this.idFactory()`
  abbrev pub take_id : (ℕ → String) → Action (World F P) String
  take_id id_factory w = (ok (id_factory w.ids), record w { ids = suc w.ids })
