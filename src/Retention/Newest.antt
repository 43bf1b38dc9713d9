-- ===== src/Retention/Newest.antt =====
-- The backups that are not kept as the newest of their group have enough newer ones.
use dsh_session_maintenance.Prelude.{
  ℕ, ◌≤◌, ◌≡◌, refl, sym, ap, subst, ◌∙◌, inl, inr, String, Bool, true, false, not, ◌&&◌, ◌||◌,
  List, [], ◌∷◌, ◌++◌, map, Option, is_some, keep, take, length, leb, includes, includes-set_of,
  set_of, ◌==◌, string_eq, nat_eq, Bool-cases, All, arith, eq_iff,
}
use mathlib.Core.List.{Memᴰ}
use mathlib.Core.List.Memᴰ.{cases_cons}
use dsh_session_maintenance.Domain.Text.{sort}
use dsh_session_maintenance.Contracts.Retention.{
  RetentionResourceInventory, RetentionInventory, RetentionPolicy,
}
use dsh_session_maintenance.Retention.Selection.{
  date_of, group_of, is_valid_backup, is_newer, newest_of, newest_backups,
}
use dsh_session_maintenance.Retention.Dates.{or_zero, compare_dates-above, compare_dates-below}
use dsh_session_maintenance.Retention.Descending.{
  sort-IsOrdered, All-keep, length-keep-sort, length-keep_of_not_taken, mem_keep, mem_sort_of,
  keep-keep,
}

includes-map :
    (f : RetentionResourceInventory → String) (xs : List RetentionResourceInventory)
    (a : RetentionResourceInventory)
    → Memᴰ a xs
    → includes (map f xs) (f a) ≡ true
includes-map f [] a m = elim m [ ]
includes-map f (x ∷ xs) a m = elim (cases_cons m) [
  | inl e ↦ ground (arith, ap f e, eq_iff (f x) (f a))
  | inr later ↦ ground (arith, includes-map f xs a later)
]

includes-map_append :
    (f : RetentionResourceInventory → String) (xs ys : List RetentionResourceInventory) (k : String)
    → includes (map f (xs ++ ys)) k ≡ (includes (map f xs) k || includes (map f ys) k)
includes-map_append f [] ys k = refl
includes-map_append f (x ∷ xs) ys k = ground (arith, includes-map_append f xs ys k)

abbrev pub name_of : RetentionResourceInventory → String
name_of entry = entry.resource.id

module _ (parse_date : String → Option ℕ) (locale_lt : String → String → Bool) where
  -- The instant of completion.
  abbrev pub completion : RetentionResourceInventory → ℕ
  completion entry = or_zero (date_of parse_date entry.completed_at)

  abbrev pub IsDated : RetentionResourceInventory → Type 0
  IsDated entry = is_some (date_of parse_date entry.completed_at) ≡ true

  not_newest_of :
      (n : ℕ) (backups : List RetentionResourceInventory) (groups : List String)
      (group name : String)
      → includes groups group ≡ true
      → includes (map name_of (newest_of parse_date locale_lt n backups groups)) name ≡ false
      → includes
          (map name_of (
            take n (
              sort
                (is_newer parse_date locale_lt)
                (keep (λ entry. group_of entry == group) backups))))
          name
        ≡ false
  unfolding newest_of
  not_newest_of n backups [] group name m h = absurd (ground (arith, m))
  not_newest_of n backups (g ∷ groups) group name m h =
      let first =
        take n
          (sort (is_newer parse_date locale_lt) (keep (λ entry. group_of entry == g) backups)) in
      let split =
        includes-map_append name_of first (newest_of parse_date locale_lt n backups groups) name in
      elim (Bool-cases (g == group)) [
        | inl same ↦
            subst
              (λ (k : String).
                includes
                  (map name_of (
                    take n (
                      sort (is_newer parse_date locale_lt)
                        (keep (λ entry. group_of entry == k) backups))))
                  name
                ≡ false)
              ((eq_iff g group).0 same) (ground (arith, h, split))
        | inr other ↦
            not_newest_of n backups groups group name (ground (arith, m, other))
              (ground (arith, h, split))
      ]

  -- A valid backup that is not kept as one of the newest leaves the number of backups to keep, when
  -- the completion of each valid backup is a date: of the same kind and group there are as many other
  -- valid backups that were completed no earlier.
  pub newest_backups_kept :
      (policy : RetentionPolicy) (inventory : RetentionInventory)
      (entry : RetentionResourceInventory)
      → Memᴰ entry inventory.resources
      → is_valid_backup entry ≡ true
      → All IsDated (keep is_valid_backup inventory.resources)
      → includes (newest_backups parse_date locale_lt policy inventory) entry.resource.id ≡ false
      → policy.automatic_backups_to_keep
        ≤ length (
            keep
              (λ (other : RetentionResourceInventory).
                is_valid_backup other
                && (group_of other == group_of entry
                    && (not (other.resource.id == entry.resource.id)
                        && leb (completion entry) (completion other))))
              inventory.resources)
  unfolding newest_backups is_newer
  newest_backups_kept policy inventory entry m valid dated h =
      let n = policy.automatic_backups_to_keep in
      let lt = is_newer parse_date locale_lt in
      let backups = keep is_valid_backup inventory.resources in
      let in_group : RetentionResourceInventory → Bool = λ b. group_of b == group_of entry in
      let newer : RetentionResourceInventory → Bool =
        λ b. not (b.resource.id == entry.resource.id) && leb (completion entry) (completion b) in
      let group = keep in_group backups in
      let here : Memᴰ entry backups = mem_keep is_valid_backup inventory.resources entry m valid in
      let grouped : Memᴰ entry group =
        mem_keep in_group backups entry here ((eq_iff (group_of entry) (group_of entry)).1 refl) in
      let listed = newest_of parse_date locale_lt n backups (set_of (map group_of backups)) in
      let missed : includes (map name_of listed) entry.resource.id ≡ false =
        sym (includes-set_of (map name_of listed) entry.resource.id) ∙ h in
      let known =
        includes-set_of (map group_of backups) (group_of entry)
        ∙ includes-map group_of backups entry here in
      let untaken =
        not_newest_of n backups (set_of (map group_of backups)) (group_of entry) entry.resource.id
          known missed in
      let descending =
        sort-IsOrdered (λ x y. completion y ≤ completion x) (λ x y z a b. omega (arith, a, b))
          IsDated lt
          (λ x y a b e.
            compare_dates-above (date_of parse_date x.completed_at)
              (date_of parse_date y.completed_at) (locale_lt y.resource.id x.resource.id) a b e)
          (λ x y a b e.
            compare_dates-below (date_of parse_date x.completed_at)
              (date_of parse_date y.completed_at) (locale_lt y.resource.id x.resource.id) a b e)
          group (All-keep IsDated in_group backups dated) in
      let enough =
        length-keep_of_not_taken completion name_of n (sort lt group) entry descending
          (mem_sort_of lt group entry grouped) untaken in
      let flat = ap length (
        keep-keep newer in_group backups
        ∙ keep-keep (λ b. in_group b && newer b) is_valid_backup inventory.resources) in
      omega (arith, enough, length-keep-sort lt newer group, flat)
