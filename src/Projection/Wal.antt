-- ===== src/Projection/Wal.antt =====
-- packages/projection-lifecycle/src/wal.ts: the write-ahead log of a projection, one file to an
-- operation. The files are found by the ID of their operation, of which their names are an encoding.
-- The payload of an operation and the receipt are any types with an equality, that of their
-- `JSON.stringify`.
pub mod Phases
pub mod Final
use Prim.Native.String as S
use dsh_session_maintenance.Prelude.{
  ℕ, String, Bool, true, false, not, ◌&&◌, List, [], ◌∷◌, map, keep, Option, none, some, Eq, ◌==◌,
  string_eq, nat_eq, is_some, if◌then◌else◌, Outcome, ok, thrown, type_error, other_error, Action,
  pure, raise, demand, continue, ◌>>=◌, map_get, map_set,
}
use dsh_session_maintenance.Domain.Text.{sort, js_lt}

pub record NativeAppendOperation (Payload : Type 0) : Type 0 where
  pub run_id : String
  pub operation_id : String
  pub native_session_id : String
  pub native_revision : ℕ
  pub payload : Payload
  pub observed_at : String

pub data WalState : Type 0 where
  pending committed : WalState

pub record ProjectionWalRecord (Payload Receipt : Type 0) : Type 0 where
  pub operation : NativeAppendOperation Payload
  pub state : WalState
  pub projection_applied : Bool
  pub receipt : Option Receipt
  pub created_at : String
  pub updated_at : String

-- The files of the folder, and those that were renamed as superseded.
pub record WriteAheadLog (Payload Receipt : Type 0) : Type 0 where
  pub files : List (String × ProjectionWalRecord Payload Receipt)
  pub superseded : List (ProjectionWalRecord Payload Receipt)

unfoldable pub is_pending : WalState → Bool
is_pending pending = true
is_pending committed = false

-- `path`: `encoded` is the base64url form of an ID.
unfoldable pub file_name : (String → String) → String → String
file_name encoded id = S.◌++◌ (encoded id) ".json"

module _ {Payload : Type 0} ⦃payloads : Eq Payload⦄ where
  unfoldable pub same_operation :
      NativeAppendOperation Payload → NativeAppendOperation Payload → Bool
  same_operation left right =
      left.run_id == right.run_id
      && left.operation_id == right.operation_id
      && left.native_session_id == right.native_session_id
      && left.native_revision == right.native_revision
      && left.payload == right.payload

module _ {Payload Receipt : Type 0} where
  unfoldable pub checked :
      String
      → Option (ProjectionWalRecord Payload Receipt)
      → Outcome (Option (ProjectionWalRecord Payload Receipt))
  checked id none = ok none
  checked id (some record') =
      if record'.operation.operation_id == id then ok (some record') else thrown type_error

  unfoldable pub get :
      String → Action (WriteAheadLog Payload Receipt) (Option (ProjectionWalRecord Payload Receipt))
  unfolding checked
  get id log = (checked id (map_get id log.files), log)

  -- `durableWrite`
  unfoldable pub durable_write :
      (ProjectionWalRecord Payload Receipt)
      → Action (WriteAheadLog Payload Receipt) (ProjectionWalRecord Payload Receipt)
  durable_write record' log =
      (ok record', record log { files = map_set record'.operation.operation_id record' log.files })

  abbrev pub new_record :
      NativeAppendOperation Payload → String → (ProjectionWalRecord Payload Receipt)
  new_record operation at = record {
    operation = operation;
    state = pending;
    projection_applied = false;
    receipt = none;
    created_at = at;
    updated_at = at;
  }

  unfoldable pub found :
      Option (ProjectionWalRecord Payload Receipt)
      → Action (WriteAheadLog Payload Receipt) (ProjectionWalRecord Payload Receipt)
  found none = raise other_error
  found (some record') = pure record'

  unfoldable pub required :
      String → Action (WriteAheadLog Payload Receipt) (ProjectionWalRecord Payload Receipt)
  unfolding get found
  required id = get id >>= found

  unfoldable pub apply_to :
      String
      → (ProjectionWalRecord Payload Receipt)
      → Action (WriteAheadLog Payload Receipt) (ProjectionWalRecord Payload Receipt)
  unfolding durable_write
  apply_to at current =
      if current.projection_applied
      then pure current
      else durable_write (record current { projection_applied = true; updated_at = at })

  unfoldable pub mark_projection_applied :
      String → String → Action (WriteAheadLog Payload Receipt) (ProjectionWalRecord Payload Receipt)
  unfolding required apply_to
  mark_projection_applied id at = required id >>= apply_to at

  unfoldable pub without :
      String
      → List (String × (ProjectionWalRecord Payload Receipt))
      → List (String × (ProjectionWalRecord Payload Receipt))
  without id files = keep (λ file. not (file.0 == id)) files

  unfoldable pub rename_away :
      String → (ProjectionWalRecord Payload Receipt) → Action (WriteAheadLog Payload Receipt) Unit
  unfolding without
  rename_away id current log =
      (ok tt, record log { files = without id log.files; superseded = current ∷ log.superseded })

  unfoldable pub supersede_record :
      String → (ProjectionWalRecord Payload Receipt) → Action (WriteAheadLog Payload Receipt) Unit
  unfolding is_pending rename_away
  supersede_record id current =
      demand (is_pending current.state) other_error (rename_away id current)

  unfoldable pub supersede : String → Action (WriteAheadLog Payload Receipt) Unit
  unfolding required supersede_record
  supersede id = required id >>= supersede_record id

  -- The files in the order of their names; superseded ones end otherwise. A record has the version
  -- and an operation with an ID by its type, which the method tests.
  unfoldable pub list_records :
      (String → String)
      → (WriteAheadLog Payload Receipt)
      → List (ProjectionWalRecord Payload Receipt)
  unfolding sort js_lt file_name
  list_records encoded log =
      map (λ file. file.1)
        (sort (λ a b. js_lt (file_name encoded a.0) (file_name encoded b.0)) log.files)

  unfoldable pub pending_records :
      (String → String)
      → (WriteAheadLog Payload Receipt)
      → List (ProjectionWalRecord Payload Receipt)
  unfolding list_records is_pending
  pending_records encoded log =
      keep (λ record'. is_pending record'.state) (list_records encoded log)

module _ {Payload Receipt : Type 0} ⦃payloads : Eq Payload⦄ where
  unfoldable pub put_over :
      NativeAppendOperation Payload
      → String
      → Option (ProjectionWalRecord Payload Receipt)
      → Action (WriteAheadLog Payload Receipt) (ProjectionWalRecord Payload Receipt)
  unfolding same_operation durable_write
  put_over operation at none = durable_write (new_record operation at)
  put_over operation at (some existing) =
      demand (same_operation existing.operation operation) other_error (pure existing)

  unfoldable pub put_pending :
      NativeAppendOperation Payload
      → String
      → Action (WriteAheadLog Payload Receipt) (ProjectionWalRecord Payload Receipt)
  unfolding get put_over
  put_pending operation at = get operation.operation_id >>= put_over operation at

-- `current.receipt === null || JSON.stringify(current.receipt) === JSON.stringify(receipt)`
unfoldable pub fits : {Receipt : Type 0} ⦃receipts : Eq Receipt⦄ → Receipt → Option Receipt → Bool
fits receipt none = true
fits receipt (some known) = known == receipt

module _ {Payload Receipt : Type 0} ⦃receipts : Eq Receipt⦄ where
  unfoldable pub commit_to :
      Receipt
      → String
      → (ProjectionWalRecord Payload Receipt)
      → Action (WriteAheadLog Payload Receipt) (ProjectionWalRecord Payload Receipt)
  unfolding fits durable_write
  commit_to receipt at current = demand current.projection_applied other_error (
      demand (fits receipt current.receipt) other_error (
        durable_write
          (record current { state = committed; receipt = some receipt; updated_at = at })))

  unfoldable pub mark_committed :
      String
      → Receipt
      → String
      → Action (WriteAheadLog Payload Receipt) (ProjectionWalRecord Payload Receipt)
  unfolding required commit_to
  mark_committed id receipt at = required id >>= commit_to receipt at
