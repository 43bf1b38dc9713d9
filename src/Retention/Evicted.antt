-- ===== src/Retention/Evicted.antt =====
-- What the loop that evicts takes of the caches in their order.
use dsh_session_maintenance.Prelude.{
  ℕ, ◌+◌, ◌-◌, ◌<◌, ◌≤◌, ◌≡◌, refl, ap, inl, inr, String, Bool, List, [], ◌∷◌, keep, Option, leb,
  Bool-cases, arith, ◌⊎◌, ◌++◌,
}
use dsh_session_maintenance.Domain.Text.{insert_sorted, sort}
use dsh_session_maintenance.Contracts.Retention.{RetentionResourceInventory}
use dsh_session_maintenance.Retention.{has_passed}
use dsh_session_maintenance.Retention.Selection.{date_of, is_cache, bytes_of, is_evictable, evict}

abbrev pub Entries : Type 0
Entries = List RetentionResourceInventory

bytes_of-insert_sorted :
    (lt : RetentionResourceInventory → RetentionResourceInventory → Bool)
    (x : RetentionResourceInventory) (ys : Entries)
    → bytes_of (insert_sorted lt x ys) ≡ x.bytes + bytes_of ys
unfolding insert_sorted bytes_of
bytes_of-insert_sorted lt x [] = refl
bytes_of-insert_sorted lt x (y ∷ ys) = ground (arith, bytes_of-insert_sorted lt x ys)

pub bytes_of-sort :
    (lt : RetentionResourceInventory → RetentionResourceInventory → Bool) (xs : Entries)
    → bytes_of (sort lt xs) ≡ bytes_of xs
unfolding sort bytes_of
bytes_of-sort lt [] = refl
bytes_of-sort lt (x ∷ xs) =
    omega (arith, bytes_of-insert_sorted lt x (sort lt xs), bytes_of-sort lt xs)

pub evictable_bytes-le :
    (entries : Entries)
    → bytes_of (keep is_evictable entries)
      ≤ bytes_of
          (keep (λ (entry : RetentionResourceInventory). is_cache entry.resource.kind) entries)
unfolding bytes_of is_evictable
evictable_bytes-le [] = omega arith
evictable_bytes-le (entry ∷ entries) = ground (arith, evictable_bytes-le entries)

-- The last one of the evicted entries.
abbrev pub last_bytes : Entries → ℕ
last_bytes [] = 0
last_bytes (x ∷ []) = x.bytes
last_bytes (x ∷ y ∷ xs) = last_bytes (y ∷ xs)

module _ (parse_date : String → Option ℕ) (locale_lt : String → String → Bool) (at target : ℕ) where
  abbrev pub has_been_used : RetentionResourceInventory → Bool
  has_been_used entry = has_passed at (date_of parse_date entry.resource.last_used_at)

  -- What the loop has evicted, what is left of the bytes, and the entries that it has left.
  pub record IsPrefix (entries : Entries) (bytes : ℕ) (evicted : Entries) (left : ℕ) : Type 0 where
    pub kept : Entries
    pub accounted : left + bytes_of evicted ≡ bytes
    pub needed : (evicted ≡ []) ⊎ (target < left + last_bytes evicted)
    pub split : keep has_been_used entries ≡ evicted ++ kept
    pub enough : (left ≤ target) ⊎ (kept ≡ [])

  still_needed :
      (entry : RetentionResourceInventory) (bytes : ℕ) (evicted : Entries) (left : ℕ)
      → target < bytes
      → entry.bytes ≤ bytes
      → left + bytes_of evicted ≡ bytes - entry.bytes
      → (evicted ≡ []) ⊎ (target < left + last_bytes evicted)
      → target < left + last_bytes (entry ∷ evicted)
  unfolding bytes_of
  still_needed entry bytes [] left over fits accounted needed = omega (arith, over, fits, accounted)
  still_needed entry bytes (e ∷ es) left over fits accounted (inl none') =
      absurd (ground (arith, none'))
  still_needed entry bytes (e ∷ es) left over fits accounted (inr before) = before

  pub evict-IsPrefix :
      (entries : Entries) (bytes : ℕ)
      → bytes_of entries ≤ bytes
      → IsPrefix entries bytes
          (evict parse_date locale_lt at target entries bytes).0
          (evict parse_date locale_lt at target entries bytes).1
  unfolding evict bytes_of
  evict-IsPrefix [] bytes fits = record {
    kept = [];
    accounted = omega arith;
    needed = inl refl;
    split = refl;
    enough = inr refl;
  }
  evict-IsPrefix (entry ∷ entries) bytes fits = elim (Bool-cases (leb bytes target)) [
    | inl done ↦ rw done (record {
      kept = keep has_been_used (entry ∷ entries);
      accounted = omega arith;
      needed = inl refl;
      split = refl;
      enough = inl (ground (arith, done));
    })
    | inr over ↦ elim (Bool-cases (has_been_used entry)) [
      | inr skipped ↦
          let ih = evict-IsPrefix entries bytes (omega (arith, fits)) in
          rw (over, skipped)
            (record {
              kept = ih.kept;
              accounted = ih.accounted;
              needed = ih.needed;
              split = rw skipped ih.split;
              enough = ih.enough;
            })
      | inl used ↦
          let rest = evict parse_date locale_lt at target entries (bytes - entry.bytes) in
          let ih = evict-IsPrefix entries (bytes - entry.bytes) (omega (arith, fits)) in
          rw (over, used)
            (record {
              kept = ih.kept;
              accounted = omega (arith, ih.accounted, fits);
              needed = inr (
                  still_needed entry bytes rest.0 rest.1 (ground (arith, over))
                    (omega (arith, fits)) ih.accounted ih.needed);
              split = rw used (ap (λ xs. entry ∷ xs) ih.split);
              enough = ih.enough;
            })
    ]
  ]
