-- ===== src/Retention.antt =====
-- packages/session-store/src/retention-policy.ts: what of the stored objects, runs, caches and
-- backups may be removed. Instants are milliseconds, from 1970 on; a date that is no date (NaN) is
-- none. `Date.parse` and the sign of `localeCompare` are parameters.
pub mod References
pub mod Databases
pub mod Selection
pub mod Items
pub mod Plan
pub mod Members
pub mod Unreferenced
pub mod Expendable
pub mod Admitted
pub mod Evicted
pub mod Eviction
pub mod Descending
pub mod Dates
pub mod Newest
pub mod Bodies
pub mod Accounts
use dsh_session_maintenance.Prelude.{
  ℕ, ◌+◌, ◌*◌, String, Bool, true, false, ◌||◌, List, [], ◌∷◌, ◌++◌, Option, none, some, ltb, leb,
  all, if◌then◌else◌, Outcome, ok, thrown, type_error,
}
use dsh_session_maintenance.Domain.Text.{Text, codes}
use dsh_session_maintenance.Contracts.Canonical.{safe_integer}
use dsh_session_maintenance.Contracts.Retention.{RetentionPolicy}

abbrev pub default_retention_policy : RetentionPolicy
default_retention_policy = record {
  finished_run_hours = 48;
  recovered_run_hours = 120;
  automatic_backups_to_keep = 3;
  cache_target_bytes = 1073741824;
  quarantine_hours = 48;
  orphan_grace_hours = 48;
}

unfoldable pub is_weak : RetentionPolicy → Bool
is_weak policy =
    ltb policy.automatic_backups_to_keep 3
    || ltb policy.quarantine_hours 48
    || ltb policy.finished_run_hours 48
    || ltb policy.recovered_run_hours 120
    || ltb policy.orphan_grace_hours 48

unfoldable pub validate_retention_policy : RetentionPolicy → Outcome (Unit {0})
unfolding is_weak safe_integer
validate_retention_policy policy =
    if all safe_integer (
      policy.finished_run_hours ∷ policy.recovered_run_hours ∷ policy.cache_target_bytes
      ∷ policy.automatic_backups_to_keep ∷ policy.quarantine_hours ∷ policy.orphan_grace_hours ∷ [])
    then (if is_weak policy then thrown type_error else ok tt)
    else thrown type_error

-- `${root}\0${id}`
abbrev pub Key : Type 0
Key = Text

unfoldable pub key : String → String → Key
key root id = codes root ++ 0 ∷ codes id

abbrev pub hours : ℕ → ℕ
hours n = n * 3600000

-- A date that is known and not after the instant.
unfoldable pub has_passed : ℕ → Option ℕ → Bool
has_passed at none = false
has_passed at (some date) = leb date at
