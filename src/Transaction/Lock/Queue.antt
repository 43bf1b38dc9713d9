-- ===== src/Transaction/Lock/Queue.antt =====
-- The queues of `withLock` (packages/transaction-engine/src/lock-manager.ts): every manager lets the
-- calls for one root run one after the other. A call is known by a number, a manager too.
use dsh_session_maintenance.Prelude.{
  ℕ, ◌≡◌, String, List, [], ◌∷◌, ◌++◌, ◌&&◌, ◌==◌, nat_eq, list_eq, any, if◌then◌else◌,
}
use dsh_session_maintenance.Domain.Text.{Text}
use dsh_session_maintenance.Transaction.World.{World}
use dsh_session_maintenance.Transaction.Lock.{has_path, locked, without}

-- A call in `tails`, whose promise has not settled: it waits for the one before, or its action runs.
pub data Call : Type 0 where
  waiting : ℕ → Call
  running : ℕ → Call

pub record Managers (F P : Type 0) : Type 0 where
  -- The calls of a manager for a key that have not settled, in the order in which they were made.
  pub tails : ℕ → Text → List Call
  -- The calls that were refused as `TRANSACTION_IN_PROGRESS`, the last one first.
  pub refused : List ℕ
  pub world : World F P

abbrev pub put_tail : (ℕ → Text → List Call) → ℕ → Text → List Call → ℕ → Text → List Call
put_tail tails m k calls m' k' = if (m' == m) && (k' == k) then calls else tails m' k'

module _ {F P : Type 0} where
  -- `withLock`: the call is put behind those that have not settled.
  unfoldable pub make_call : ℕ → Text → ℕ → Managers F P → Managers F P
  make_call m k c s = record s { tails = put_tail s.tails m k (s.tails m k ++ waiting c ∷ []) }

  module _ (sha256 : Text → String) (pid : ℕ → ℕ) where
    -- `acquireFile`, once the promises of the calls before have settled.
    unfoldable pub begin_first : ℕ → Text → List Call → Managers F P → Managers F P
    begin_first m k [] s = s
    begin_first m k (running c ∷ calls) s = s
    begin_first m k (waiting c ∷ calls) s =
        if any (has_path (sha256 k)) s.world.locks
        then record s { tails = put_tail s.tails m k calls; refused = c ∷ s.refused }
        else record s {
          tails = put_tail s.tails m k (running c ∷ calls);
          world = locked (pid m) (sha256 k) s.world;
        }

    unfoldable pub begin_call : ℕ → Text → Managers F P → Managers F P
    unfolding begin_first
    begin_call m k s = begin_first m k (s.tails m k) s

  module _ (sha256 : Text → String) where
    -- The `finally` of `runLocked`: the action has returned or thrown.
    unfoldable pub end_first : ℕ → Text → List Call → Managers F P → Managers F P
    end_first m k [] s = s
    end_first m k (waiting c ∷ calls) s = s
    end_first m k (running c ∷ calls) s = record s {
      tails = put_tail s.tails m k calls;
      world = without (sha256 k) s.world;
    }

    unfoldable pub end_call : ℕ → Text → Managers F P → Managers F P
    unfolding end_first
    end_call m k s = end_first m k (s.tails m k) s

  -- What the managers do, in any order; the actions that run do what they like with the rest of the
  -- world.
  pub data Step (sha256 : Text → String) (pid : ℕ → ℕ) (s : Managers F P)
      : Managers F P → Type 0 where
    make : (m : ℕ) (k : Text) (c : ℕ) → Step sha256 pid s (make_call m k c s)
    begin : (m : ℕ) (k : Text) → Step sha256 pid s (begin_call sha256 pid m k s)
    work : (v : World F P) → v.locks ≡ s.world.locks → Step sha256 pid s (record s { world = v })
    settle : (m : ℕ) (k : Text) → Step sha256 pid s (end_call sha256 m k s)

  -- The managers of a world without lock files, before the first call.
  abbrev pub idle : World F P → Managers F P
  idle w = record { tails = λ m k. []; refused = []; world = record w { locks = [] } }

  pub data Reach (sha256 : Text → String) (pid : ℕ → ℕ) (w : World F P)
      : Managers F P → Type 0 where
    start : Reach sha256 pid w (idle w)
    later : {s t : Managers F P} → Reach sha256 pid w s → Step sha256 pid s t → Reach sha256 pid w t
