-- ===== src/Retention/Selection.antt =====
-- The newest backups, which are kept, and the caches to evict.
use dsh_session_maintenance.Prelude.{
  ℕ, ◌+◌, ◌-◌, String, Bool, true, false, not, ◌&&◌, List, [], ◌∷◌, ◌++◌, map, keep, take, Option,
  none, some, ◌==◌, string_eq, nat_eq, is_some, is_empty, ltb, leb, if◌then◌else◌, set_of,
}
use Prim.Native.String as S
use dsh_session_maintenance.Domain.Text.{sort}
use dsh_session_maintenance.Contracts.Retention.{
  ResourceKind, run, cache, backup, candidate, RetentionResourceInventory, RetentionInventory,
  RetentionPolicy,
}
use dsh_session_maintenance.Retention.{has_passed}

unfoldable pub kind_text : ResourceKind → String
kind_text run = "run"
kind_text cache = "cache"
kind_text backup = "backup"
kind_text candidate = "candidate"

unfoldable pub is_backup : ResourceKind → Bool
is_backup backup = true
is_backup candidate = true
is_backup _ = false

unfoldable pub is_cache : ResourceKind → Bool
is_cache cache = true
is_cache _ = false

unfoldable pub is_valid_backup : RetentionResourceInventory → Bool
unfolding is_backup
is_valid_backup entry =
    is_backup entry.resource.kind
    && entry.valid
    && not entry.resource.pinned
    && is_some entry.completed_at

-- `${kind}:${group}`
unfoldable pub group_of : RetentionResourceInventory → String
unfolding kind_text
group_of entry = S.◌++◌ (kind_text entry.resource.kind) (S.◌++◌ ":" entry.resource.group)

-- `reduce((sum, entry) => sum + entry.bytes, 0)`
unfoldable pub bytes_of : List RetentionResourceInventory → ℕ
bytes_of [] = 0
bytes_of (entry ∷ entries) = entry.bytes + bytes_of entries

unfoldable pub date_of : (String → Option ℕ) → Option String → Option ℕ
date_of parse_date none = none
date_of parse_date (some text) = parse_date text

-- Whether `earlier - later || byId` is negative; a difference with NaN counts as equal.
unfoldable pub compare_dates : Option ℕ → Option ℕ → Bool → Bool
compare_dates (some earlier) (some later) by_id =
    if earlier == later then by_id else ltb earlier later
compare_dates _ _ by_id = by_id

unfoldable pub is_evictable : RetentionResourceInventory → Bool
unfolding is_cache
is_evictable entry =
    is_cache entry.resource.kind
    && entry.valid
    && is_empty entry.reasons
    && is_some entry.resource.last_used_at

module _ (parse_date : String → Option ℕ) (locale_lt : String → String → Bool) where
  unfoldable pub is_newer : RetentionResourceInventory → RetentionResourceInventory → Bool
  unfolding date_of compare_dates
  is_newer a b =
      compare_dates (date_of parse_date b.completed_at) (date_of parse_date a.completed_at)
        (locale_lt a.resource.id b.resource.id)

  unfoldable pub newest_of :
      ℕ → List RetentionResourceInventory → List String → List RetentionResourceInventory
  unfolding group_of sort is_newer
  newest_of n backups [] = []
  newest_of n backups (group ∷ groups) =
      take n (sort is_newer (keep (λ entry. group_of entry == group) backups))
      ++ newest_of n backups groups

  -- `newestBackups`
  unfoldable pub newest_backups : RetentionPolicy → RetentionInventory → List String
  unfolding is_valid_backup group_of newest_of
  newest_backups policy inventory =
      let backups = keep is_valid_backup inventory.resources in
      set_of (
        map (λ entry. entry.resource.id)
          (newest_of policy.automatic_backups_to_keep backups (set_of (map group_of backups))))

  unfoldable pub is_older : RetentionResourceInventory → RetentionResourceInventory → Bool
  unfolding date_of compare_dates
  is_older a b =
      compare_dates (date_of parse_date a.resource.last_used_at)
        (date_of parse_date b.resource.last_used_at) (locale_lt a.resource.id b.resource.id)

  -- The loop that evicts: the caches that it takes, and the bytes that are left.
  unfoldable pub evict :
      ℕ → ℕ → List RetentionResourceInventory → ℕ → List RetentionResourceInventory × ℕ
  unfolding date_of has_passed
  evict at target [] bytes = ([], bytes)
  evict at target (entry ∷ entries) bytes =
      let skipped = evict at target entries bytes in
      let (evicted, left) = evict at target entries (bytes - entry.bytes) in
      if leb bytes target
      then ([], bytes)
      else if has_passed at (date_of parse_date entry.resource.last_used_at)
      then (entry ∷ evicted, left)
      else skipped

  unfoldable pub evict_caches :
      ℕ → RetentionPolicy → RetentionInventory → List RetentionResourceInventory × ℕ
  unfolding is_cache bytes_of is_evictable sort is_older evict
  evict_caches at policy inventory =
      evict at policy.cache_target_bytes (sort is_older (keep is_evictable inventory.resources))
        (bytes_of (keep (λ entry. is_cache entry.resource.kind) inventory.resources))
