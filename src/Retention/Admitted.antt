-- ===== src/Retention/Admitted.antt =====
-- What a plan of `planRetention` offers for removal.
use dsh_session_maintenance.Prelude.{
  ℕ, ◌+◌, ◌<◌, ◌≡◌, refl, sym, ap, subst, ◌∙◌, ◌⊎◌, inl, inr, String, Bool, true, false, List, [],
  ◌∷◌, ◌++◌, map, Option, some, Bool-cases, Option-cases, find, keep, not, ◌==◌, string_eq,
  is_empty, Outcome-cases, ok, All, arith,
}
use mathlib.Core.List.{Memᴰ}
use mathlib.Core.List.Memᴰ.{cases_cons, append_cases}
use dsh_session_maintenance.Domain.Text.{sort}
use dsh_session_maintenance.Contracts.Retention.{
  RetentionSource, RetentionFile, SourceFiles, RetentionInventory, RetentionPolicy, RetentionObject,
  RetentionBlocker, RetentionResourceInventory, content_object, database, resource, Disposition,
  protected, RetentionPlanItem, RetentionPreviewPlan,
}
use dsh_session_maintenance.Retention.{Key, key, hours, validate_retention_policy}
use dsh_session_maintenance.Retention.References.{active_sources, version_objects}
use dsh_session_maintenance.Retention.Databases.{
  items_of_files, source_items, database_items, count_files, is_active_source, is_governed,
}
use dsh_session_maintenance.Retention.Selection.{newest_backups, evict_caches}
use dsh_session_maintenance.Retention.Items.{object_item, resource_item}
use dsh_session_maintenance.Retention.Plan.{
  inventory_refs, is_blocked, unsorted_items, payload, plan_at, plan_retention,
}
use dsh_session_maintenance.Retention.Members.{mem_map, mem_sort}
use dsh_session_maintenance.Retention.Unreferenced.{
  IsUnnamed, refs_by_object-IsUnnamed, is_direct, All-direct, object_item-candidate,
}
use dsh_session_maintenance.Retention.Expendable.{IsExpendable, resource_item-IsExpendable}

-- The item of a database: it stays.
abbrev pub IsRetained : RetentionPlanItem → Type 0
IsRetained item =
    (item.kind ≡ database) × (item.disposition ≡ protected) × (item.executable ≡ false)

items_of_files-IsRetained :
    (source : SourceFiles) (registration : Option RetentionSource) (files : List RetentionFile)
    (counted : List Key) (bytes : ℕ) (item : RetentionPlanItem)
    → Memᴰ item (items_of_files source registration files (counted, bytes)).1
    → IsRetained item
unfolding items_of_files
items_of_files-IsRetained source registration [] counted bytes item m = elim m [ ]
items_of_files-IsRetained source registration (file ∷ files) counted bytes item m =
    elim (cases_cons m) [
      | inl e ↦ subst IsRetained (sym e) (refl, refl, refl)
      | inr later ↦ elim later [ ]
    ]

source_items-IsRetained :
    (inventory : RetentionInventory) (source : SourceFiles) (counted : List Key)
    (item : RetentionPlanItem)
    → Memᴰ item (source_items inventory source counted).1
    → IsRetained item
unfolding source_items
source_items-IsRetained inventory source counted item m =
    let registration =
      find (λ (entry : RetentionSource). entry.id == source.source_id) inventory.sources in
    let files =
      keep (λ (file : RetentionFile). not (is_governed inventory source.root_id file.relative_path))
        source.files in
    let total = count_files source.root_id files counted 0 in
    elim (Bool-cases (is_active_source registration)) [
      | inl active ↦ elim (rw active at m) [ ]
      | inr other ↦
          items_of_files-IsRetained source registration files total.0 total.1 item (rw other at m)
    ]

database_items-IsRetained :
    (inventory : RetentionInventory) (sources : List SourceFiles) (counted : List Key)
    (item : RetentionPlanItem)
    → Memᴰ item (database_items inventory sources counted)
    → IsRetained item
unfolding database_items
database_items-IsRetained inventory [] counted item m = elim m [ ]
database_items-IsRetained inventory (source ∷ sources) counted item m =
    elim (append_cases (source_items inventory source counted).1 m) [
      | inl here ↦ source_items-IsRetained inventory source counted item here
      | inr later ↦
          database_items-IsRetained inventory sources (source_items inventory source counted).0 item
            later
    ]

pub blockers_empty :
    (inventory : RetentionInventory) → is_blocked inventory ≡ false → inventory.blockers ≡ []
unfolding is_blocked
blockers_empty inventory h = none_of inventory.blockers h
  where
    none_of : (blockers : List RetentionBlocker) → not (is_empty blockers) ≡ false → blockers ≡ []
    none_of [] h = refl
    none_of (b ∷ bs) h = absurd (ground (arith, h))

module _ (parse_date : String → Option ℕ) (locale_lt : String → String → Bool) where
  -- The items of the entries that an item may come from.
  module _ (inventory : RetentionInventory) (policy : RetentionPolicy) (at : ℕ) where
    abbrev pub newest_ids : List String
    newest_ids = newest_backups parse_date locale_lt policy inventory

    abbrev pub evicted_ids : List String
    evicted_ids =
        map (λ (entry : RetentionResourceInventory). entry.resource.id)
          (evict_caches parse_date locale_lt at policy inventory).0

    -- The object that an item is about may go: nothing names it, and it is old enough.
    pub record IsReclaimable (item : RetentionPlanItem) : Type 0 where
      pub object : RetentionObject
      pub listed : Memᴰ object inventory.objects
      pub same_root : item.root_id ≡ object.root_id
      pub same_path : item.relative_path ≡ object.relative_path
      pub unblocked : inventory.blockers ≡ []
      pub old : object.mtime_ms + hours policy.orphan_grace_hours < at
      pub unnamed :
          All
            (IsUnnamed
              (version_objects (active_sources inventory.sources) inventory.versions [])
              (key object.root_id object.object_id))
            inventory.references
      pub not_direct :
          All
            (λ ref. is_direct ref ref.target_kind object.root_id object.object_id ≡ false)
            inventory.references

    -- The resource that an item is about may go.
    pub record IsRemovable (item : RetentionPlanItem) : Type 0 where
      pub entry : RetentionResourceInventory
      pub listed : Memᴰ entry inventory.resources
      pub same_id : item.id ≡ entry.resource.id
      pub same_path : item.relative_path ≡ entry.resource.relative_path
      pub unblocked : inventory.blockers ≡ []
      pub expendable : IsExpendable parse_date at policy newest_ids evicted_ids entry

    abbrev pub of_object : RetentionObject → RetentionPlanItem
    of_object = object_item at policy (is_blocked inventory) (inventory_refs inventory)

    abbrev pub of_resource : RetentionResourceInventory → RetentionPlanItem
    of_resource =
        resource_item parse_date at policy (is_blocked inventory) inventory.references newest_ids
          evicted_ids

    pub item_origin :
        (item : RetentionPlanItem)
        → Memᴰ item (unsorted_items parse_date locale_lt inventory policy at)
        → (IsRetained item)
          ⊎ (((object : RetentionObject) × Memᴰ object inventory.objects
                × (item ≡ of_object object))
              ⊎ ((entry : RetentionResourceInventory) × Memᴰ entry inventory.resources
                  × (item ≡ of_resource entry)))
    unfolding unsorted_items
    item_origin item m =
        elim (append_cases
          (database_items inventory inventory.source_files [] ++ map of_object inventory.objects)
          m) [
            | inr c ↦ inr (inr (mem_map of_resource inventory.resources item c))
            | inl ab ↦ elim (append_cases (database_items inventory inventory.source_files []) ab) [
              | inl a ↦ inl (database_items-IsRetained inventory inventory.source_files [] item a)
              | inr b ↦ inr (inl (mem_map of_object inventory.objects item b))
            ]
          ]

    object_idle : (object : RetentionObject) → (of_object object).executable ≡ false
    unfolding object_item
    object_idle object = refl

    entry_kind :
        (entry : RetentionResourceInventory)
        → (of_resource entry).kind ≡ resource entry.resource.kind
    unfolding resource_item
    entry_kind entry = refl

    object-IsReclaimable :
        (object : RetentionObject)
        → Memᴰ object inventory.objects
        → (of_object object).disposition ≡ Disposition.candidate
        → IsReclaimable (of_object object)
    unfolding inventory_refs object_item
    object-IsReclaimable object m c =
        let (open', unnamed, old) =
          object_item-candidate at policy (is_blocked inventory) (inventory_refs inventory) object
            c in
        let nameless =
          (refs_by_object-IsUnnamed
            (version_objects (active_sources inventory.sources) inventory.versions [])
            inventory.references (key object.root_id object.object_id) [] unnamed).1 in
        record {
          object = object;
          listed = m;
          same_root = refl;
          same_path = refl;
          unblocked = blockers_empty inventory open';
          old = old;
          unnamed = nameless;
          not_direct =
              All-direct (version_objects (active_sources inventory.sources) inventory.versions [])
                object.root_id object.object_id inventory.references nameless;
        }

    entry-IsRemovable :
        (entry : RetentionResourceInventory)
        → Memᴰ entry inventory.resources
        → (of_resource entry).executable ≡ true
        → IsRemovable (of_resource entry)
    unfolding resource_item
    entry-IsRemovable entry m h =
        let (open', expendable) =
          resource_item-IsExpendable parse_date at policy (is_blocked inventory)
            inventory.references newest_ids evicted_ids entry h in
        record {
          entry = entry;
          listed = m;
          same_id = refl;
          same_path = refl;
          unblocked = blockers_empty inventory open';
          expendable = expendable;
        }

  abbrev pub the_plan : RetentionInventory → RetentionPolicy → ℕ → RetentionPreviewPlan
  the_plan inventory policy at =
      payload parse_date locale_lt inventory policy
        (evict_caches parse_date locale_lt at policy inventory).1
        (sort (λ a b. locale_lt a.id b.id)
          (unsorted_items parse_date locale_lt inventory policy at))

  module _ (inventory : RetentionInventory) (policy : RetentionPolicy) (plan : RetentionPreviewPlan)
      (planned : plan_retention parse_date locale_lt inventory policy ≡ ok plan) where
    pub planned_at :
        (at : ℕ) × (parse_date inventory.as_of ≡ some at) × (the_plan inventory policy at ≡ plan)
    unfolding plan_retention plan_at
    planned_at = elim (Outcome-cases (validate_retention_policy policy)) [
      | inr (e, refused) ↦ absurd (ground (arith, refused, planned))
      | inl (valid, admitted) ↦ elim (Option-cases (parse_date inventory.as_of)) [
        | inl undated ↦ absurd (ground (arith, admitted, undated, planned))
        | inr (at, dated) ↦ (at, dated, ground (arith, admitted, dated, planned))
      ]
    ]

    pub planned_item :
        (item : RetentionPlanItem) (at : ℕ)
        → the_plan inventory policy at ≡ plan
        → Memᴰ item plan.items
        → Memᴰ item (unsorted_items parse_date locale_lt inventory policy at)
    unfolding payload
    planned_item item at same m =
        mem_sort (λ a b. locale_lt a.id b.id)
          (unsorted_items parse_date locale_lt inventory policy at) item
          (subst (λ (p : RetentionPreviewPlan). Memᴰ item p.items) (sym same) m)

    -- An item that the plan may execute is about a registered resource of the inventory that is
    -- valid and that nothing speaks for keeping: no blocker, no reason of its own; a run has finished
    -- and is out of its window, a cache was chosen for eviction, a backup is completed and none of
    -- the newest.
    pub plan_retention-IsRemovable :
        (item : RetentionPlanItem)
        → Memᴰ item plan.items
        → item.executable ≡ true
        → (at : ℕ) × (parse_date inventory.as_of ≡ some at) × IsRemovable inventory policy at item
    plan_retention-IsRemovable item m h =
        let (at, dated, same) = planned_at in
        elim (item_origin inventory policy at item (planned_item item at same m)) [
          | inl (kind, kept, idle) ↦ absurd (ground (arith, idle, h))
          | inr (inl (object, listed, e)) ↦ absurd (
              ground (
                arith,
                h,
                ap (λ (i : RetentionPlanItem). i.executable) e,
                object_idle inventory policy at object,
              ))
          | inr (inr (entry, listed, e)) ↦ (
            at,
            dated,
            subst (IsRemovable inventory policy at) (sym e) (
                entry-IsRemovable inventory policy at entry listed
                  (sym (ap (λ (i : RetentionPlanItem). i.executable) e) ∙ h)),
          )
        ]

    -- A stored object that the plan lists as a candidate is an object of the inventory that is older
    -- than the grace window and that no reference names, neither directly nor as the body of a
    -- version; and nothing blocks the plan.
    pub plan_retention-IsReclaimable :
        (item : RetentionPlanItem)
        → Memᴰ item plan.items
        → item.kind ≡ content_object
        → item.disposition ≡ Disposition.candidate
        → (at : ℕ) × (parse_date inventory.as_of ≡ some at) × IsReclaimable inventory policy at item
    plan_retention-IsReclaimable item m k h =
        let (at, dated, same) = planned_at in
        elim (item_origin inventory policy at item (planned_item item at same m)) [
          | inl (kind, kept, idle) ↦ absurd (ground (arith, kept, h))
          | inr (inr (entry, listed, e)) ↦ absurd (
              ground (
                arith,
                k,
                ap (λ (i : RetentionPlanItem). i.kind) e,
                entry_kind inventory policy at entry,
              ))
          | inr (inl (object, listed, e)) ↦ (
            at,
            dated,
            subst (IsReclaimable inventory policy at) (sym e) (
                object-IsReclaimable inventory policy at object listed
                  (sym (ap (λ (i : RetentionPlanItem). i.disposition) e) ∙ h)),
          )
        ]
