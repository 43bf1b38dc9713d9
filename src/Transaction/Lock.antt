-- ===== src/Transaction/Lock.antt =====
-- packages/transaction-engine/src/lock-manager.ts: the lock files of the roots, one to a root. Here
-- is one call, whose turn has come in its manager; the queues in which calls wait for their turn are
-- in Queue. The folder of the lock files is given; the path of a lock is the digest in its name.
pub mod Queue
pub mod Waiting
pub mod Invariant
pub mod Exclusive
use dsh_session_maintenance.Prelude.{
  ℕ, String, Bool, true, false, not, List, [], ◌∷◌, ◌++◌, Option, none, some, ◌==◌, string_eq, any,
  find, keep, Action, pure, raise, demand, Outcome, ok, thrown, maintenance, ◌>>=◌,
  transaction_in_progress, recovery_required, if◌then◌else◌,
}
use dsh_session_maintenance.Domain.Text.{Text, codes}
use dsh_session_maintenance.Transaction.World.{LockFile, World}

abbrev pub has_path : String → LockFile → Bool
has_path path lock = lock.path == path

module _ {F P : Type 0} where
  abbrev pub without : String → World F P → World F P
  without path w = record w { locks = keep (λ lock. not (has_path path lock)) w.locks }

  -- `finally { unlink(lockPath) }`
  unfoldable pub release : {A : Type 0} → String → Outcome A × World F P → Outcome A × World F P
  release path (result, w) = (result, without path w)

-- The key joins the two names with a zero.
abbrev pub lock_key : String → String → Text
lock_key instance_id root_identity = codes instance_id ++ 0 ∷ codes root_identity

-- `pathFor`: the digest of the key.
unfoldable pub lock_path : (Text → String) → String → String → String
lock_path sha256 instance_id root_identity = sha256 (lock_key instance_id root_identity)

module _ {F P : Type 0} (pid : ℕ) where
  -- The world in which the action runs.
  abbrev pub locked : String → World F P → World F P
  locked path w = record w { locks = record { path = path; owner = some pid } ∷ w.locks }

module _ {F P : Type 0} (sha256 : Text → String) (pid : ℕ) where
  unfoldable pub run_locked : {A : Type 0} → String → Action (World F P) A → Action (World F P) A
  unfolding release
  run_locked path action w =
      if any (has_path path) w.locks
      then raise (maintenance transaction_in_progress) w
      else release path (action (locked pid path w))

  -- `withLock`, when the calls for the same key that the manager had before have ended.
  unfoldable pub with_lock :
      {A : Type 0} → String → String → Action (World F P) A → Action (World F P) A
  unfolding lock_path run_locked
  with_lock instance_id root_identity = run_locked (lock_path sha256 instance_id root_identity)

  module _ (is_alive : ℕ → Bool) where
    -- The owner of the lock file, once it has been read.
    unfoldable pub clear_owned :
        String → Action (World F P) Bool → Option ℕ → Action (World F P) Unit
    clear_owned path inspect none = raise (maintenance recovery_required)
    clear_owned path inspect (some owner) =
        demand (not (is_alive owner)) (maintenance transaction_in_progress) (
          inspect >>= λ agrees.
          demand agrees (maintenance recovery_required) (λ w. pure tt (without path w)))

    unfoldable pub clear_found :
        String → Action (World F P) Bool → Option LockFile → Action (World F P) Unit
    unfolding clear_owned
    clear_found path inspect none = raise (maintenance recovery_required)
    clear_found path inspect (some lock) = clear_owned path inspect lock.owner

    unfoldable pub clear_stale_lock_after_inspection :
        String → String → Action (World F P) Bool → Action (World F P) Unit
    unfolding lock_path clear_found
    clear_stale_lock_after_inspection instance_id root_identity inspect w =
        let path = lock_path sha256 instance_id root_identity in
        clear_found path inspect (find (has_path path) w.locks) w
