-- ===== src/Retention/Eviction.antt =====
-- The loop that evicts caches frees what it must, and no more.
use dsh_session_maintenance.Prelude.{
  ℕ, ◌+◌, ◌<◌, ◌≤◌, ◌≡◌, refl, ap, inl, inr, String, Bool, [], keep, Option, arith, ◌⊎◌, sym, subst,
  ◌∙◌, ◌++◌, append-nil, is_some, true, All,
}
use mathlib.Core.List.{Memᴰ}
use mathlib.Core.List.Memᴰ.{append_left, append_cases}
use dsh_session_maintenance.Domain.Text.{sort}
use dsh_session_maintenance.Contracts.Retention.{
  RetentionResourceInventory, RetentionInventory, RetentionPolicy,
}
use dsh_session_maintenance.Retention.Dates.{or_zero, compare_dates-above, compare_dates-below}
use dsh_session_maintenance.Retention.Evicted.{
  Entries, bytes_of-sort, evictable_bytes-le, last_bytes, has_been_used, IsPrefix, evict-IsPrefix,
}
use dsh_session_maintenance.Retention.Members.{mem_sort}
use dsh_session_maintenance.Retention.Descending.{
  IsOrdered, sort-IsOrdered, keep-IsOrdered, IsOrdered-append, mem_kept, mem_keep, mem_sort_of,
}
use dsh_session_maintenance.Retention.Selection.{
  date_of, is_cache, bytes_of, is_older, is_evictable, evict_caches,
}

module _ (parse_date : String → Option ℕ) (locale_lt : String → String → Bool) (at target : ℕ) where
  -- The instant of the last use.
  abbrev pub last_use : RetentionResourceInventory → ℕ
  last_use entry = or_zero (date_of parse_date entry.resource.last_used_at)

  abbrev pub HasDate : RetentionResourceInventory → Type 0
  HasDate entry = is_some (date_of parse_date entry.resource.last_used_at) ≡ true

  -- The caches that may go: valid, without a reason to stay, and last used in the past.
  abbrev pub free_caches : Entries → Entries
  free_caches resources =
      keep (has_been_used parse_date locale_lt at target) (keep is_evictable resources)

  -- Which caches are evicted, and what is left of the bytes of all caches.
  pub record IsEviction (resources evicted : Entries) (left : ℕ) : Type 0 where
    pub accounted :
        left + bytes_of evicted
        ≡ bytes_of
            (keep (λ (entry : RetentionResourceInventory). is_cache entry.resource.kind) resources)
    pub free : (e : RetentionResourceInventory) → Memᴰ e evicted → Memᴰ e (free_caches resources)
    pub needed : (evicted ≡ []) ⊎ (target < left + last_bytes evicted)
    pub enough :
        (left ≤ target)
        ⊎ ((c : RetentionResourceInventory) → Memᴰ c (free_caches resources) → Memᴰ c evicted)
    pub oldest_first :
        (c : RetentionResourceInventory)
        → Memᴰ c (free_caches resources)
        → Memᴰ c evicted ⊎ All (λ e. last_use e ≤ last_use c) evicted

  older_first : Entries → Entries
  older_first resources = sort (is_older parse_date locale_lt) (keep is_evictable resources)

  older_first-IsOrdered :
      (resources : Entries)
      → All HasDate (keep is_evictable resources)
      → IsOrdered (λ x y. last_use x ≤ last_use y) (older_first resources)
  unfolding older_first is_older
  older_first-IsOrdered resources dated =
      sort-IsOrdered (λ x y. last_use x ≤ last_use y) (λ x y z a b. omega (arith, a, b)) HasDate
        (is_older parse_date locale_lt)
        (λ x y a b e.
          compare_dates-above (date_of parse_date y.resource.last_used_at)
            (date_of parse_date x.resource.last_used_at) (locale_lt y.resource.id x.resource.id) b a
            e)
        (λ x y a b e.
          compare_dates-below (date_of parse_date y.resource.last_used_at)
            (date_of parse_date x.resource.last_used_at) (locale_lt y.resource.id x.resource.id) b a
            e)
        (keep is_evictable resources) dated

  -- Sorting keeps the caches that may go.
  free-sorted :
      (resources : Entries) (c : RetentionResourceInventory)
      → Memᴰ c (free_caches resources)
      → Memᴰ c (keep (has_been_used parse_date locale_lt at target) (older_first resources))
  unfolding older_first
  free-sorted resources c m =
      let (n, used) =
        mem_kept (has_been_used parse_date locale_lt at target) (keep is_evictable resources) c m in
      mem_keep (has_been_used parse_date locale_lt at target)
        (sort (is_older parse_date locale_lt) (keep is_evictable resources)) c
        (mem_sort_of (is_older parse_date locale_lt) (keep is_evictable resources) c n) used

  sorted-free :
      (resources : Entries) (c : RetentionResourceInventory)
      → Memᴰ c (keep (has_been_used parse_date locale_lt at target) (older_first resources))
      → Memᴰ c (free_caches resources)
  unfolding older_first
  sorted-free resources c m =
      let (n, used) =
        mem_kept (has_been_used parse_date locale_lt at target)
          (sort (is_older parse_date locale_lt) (keep is_evictable resources)) c m in
      mem_keep (has_been_used parse_date locale_lt at target) (keep is_evictable resources) c
        (mem_sort (is_older parse_date locale_lt) (keep is_evictable resources) c n) used

  prefix-IsEviction :
      (resources evicted : Entries) (bytes left : ℕ)
      → bytes
        ≡ bytes_of
            (keep (λ (entry : RetentionResourceInventory). is_cache entry.resource.kind) resources)
      → All HasDate (keep is_evictable resources)
      → IsPrefix parse_date locale_lt at target (older_first resources) bytes evicted left
      → IsEviction resources evicted left
  prefix-IsEviction resources evicted bytes left total dated p =
      let ordered = subst (IsOrdered (λ x y. last_use x ≤ last_use y)) p.split (
        keep-IsOrdered (λ x y. last_use x ≤ last_use y)
          (has_been_used parse_date locale_lt at target) (older_first resources)
          (older_first-IsOrdered resources dated)) in
      let place : (c : RetentionResourceInventory)
          → Memᴰ c (free_caches resources)
          → Memᴰ c (evicted ++ p.kept) =
        λ c m. subst (Memᴰ c) p.split (free-sorted resources c m) in
      record {
        accounted = p.accounted ∙ total;
        free = λ e m. sorted-free resources e (subst (Memᴰ e) (sym p.split) (append_left p.kept m));
        needed = p.needed;
        enough = elim p.enough [
          | inl within ↦ inl within
          | inr none' ↦ inr (λ c m.
              subst (Memᴰ c) (ap (λ z. evicted ++ z) none' ∙ append-nil evicted) (place c m))
        ];
        oldest_first = λ c m. elim (append_cases evicted (place c m)) [
          | inl gone ↦ inl gone
          | inr stays ↦
              inr (IsOrdered-append (λ x y. last_use x ≤ last_use y) evicted p.kept c ordered stays)
        ];
      }

-- The eviction of caches, where the last use of each cache that is valid and has no reason to stay
-- is a date. The bytes of the evicted caches and those that are left make up the bytes of all caches.
-- Only caches are evicted that are valid, have no reason to stay and were last used in the past. The
-- last one that is evicted is needed: with it, the target is exceeded. What is left is within the
-- target, unless all these caches are evicted. And the oldest go first: one that is not evicted was
-- used no earlier than each of the evicted ones.
pub evict_caches-IsEviction :
    (parse_date : String → Option ℕ) (locale_lt : String → String → Bool) (at : ℕ)
    (policy : RetentionPolicy) (inventory : RetentionInventory)
    → All
        (HasDate parse_date locale_lt at policy.cache_target_bytes)
        (keep is_evictable inventory.resources)
    → IsEviction parse_date locale_lt at policy.cache_target_bytes inventory.resources
        (evict_caches parse_date locale_lt at policy inventory).0
        (evict_caches parse_date locale_lt at policy inventory).1
unfolding evict_caches older_first
evict_caches-IsEviction parse_date locale_lt at policy inventory dated =
    let total = bytes_of (
      keep (λ (entry : RetentionResourceInventory). is_cache entry.resource.kind)
        inventory.resources) in
    let sorted = sort (is_older parse_date locale_lt) (keep is_evictable inventory.resources) in
    let fits : bytes_of sorted ≤ total = omega (
      arith,
      bytes_of-sort (is_older parse_date locale_lt) (keep is_evictable inventory.resources),
      evictable_bytes-le inventory.resources,
    ) in
    prefix-IsEviction parse_date locale_lt at policy.cache_target_bytes inventory.resources
      (evict_caches parse_date locale_lt at policy inventory).0 total
      (evict_caches parse_date locale_lt at policy inventory).1 refl dated
      (evict-IsPrefix parse_date locale_lt at policy.cache_target_bytes sorted total fits)
