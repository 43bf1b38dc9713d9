-- ===== src/Retention/Plan.antt =====
-- `planRetention`, without the digest that is the plan's ID.
use dsh_session_maintenance.Prelude.{
  ℕ, ◌+◌, ◌-◌, String, Bool, true, false, not, List, [], ◌∷◌, ◌++◌, map, Option, none, some,
  is_empty, if◌then◌else◌, Outcome, ok, thrown, type_error, ◌=>>◌,
}
use dsh_session_maintenance.Domain.Text.{sort}
use dsh_session_maintenance.Contracts.Retention.{
  RetentionInventory, RetentionPolicy, Disposition, protected, RetentionPlanItem,
  RetentionPreviewPlan,
}
use dsh_session_maintenance.Retention.{validate_retention_policy}
use dsh_session_maintenance.Retention.References.{
  active_sources, version_objects, RefsByObject, refs_by_object,
}
use dsh_session_maintenance.Retention.Databases.{database_items}
use dsh_session_maintenance.Retention.Selection.{newest_backups, evict_caches}
use dsh_session_maintenance.Retention.Items.{object_item, resource_item, is_candidate}

unfoldable pub inventory_refs : RetentionInventory → RefsByObject
unfolding active_sources version_objects refs_by_object
inventory_refs inventory =
    refs_by_object (version_objects (active_sources inventory.sources) inventory.versions [])
      inventory.references []

unfoldable pub is_protected_item : Disposition → Bool
is_protected_item protected = true
is_protected_item _ = false

unfoldable pub sum_bytes : (RetentionPlanItem → Bool) → List RetentionPlanItem → ℕ
sum_bytes test [] = 0
sum_bytes test (item ∷ items) =
    let rest = sum_bytes test items in if test item then item.bytes + rest else rest

unfoldable pub is_blocked : RetentionInventory → Bool
is_blocked inventory = not (is_empty inventory.blockers)

module _ (parse_date : String → Option ℕ) (locale_lt : String → String → Bool) where
  unfoldable pub unsorted_items : RetentionInventory → RetentionPolicy → ℕ → List RetentionPlanItem
  unfolding database_items inventory_refs object_item newest_backups evict_caches resource_item
      is_blocked
  unsorted_items inventory policy at =
      let newest = newest_backups parse_date locale_lt policy inventory in
      let evicted =
        map (λ entry. entry.resource.id)
          (evict_caches parse_date locale_lt at policy inventory).0 in
      database_items inventory inventory.source_files []
      ++ map (object_item at policy (is_blocked inventory) (inventory_refs inventory))
          inventory.objects
      ++ map
          (resource_item parse_date at policy (is_blocked inventory) inventory.references newest
            evicted)
          inventory.resources

  unfoldable pub payload :
      RetentionInventory → RetentionPolicy → ℕ → List RetentionPlanItem → RetentionPreviewPlan
  unfolding sum_bytes is_protected_item is_candidate evict_caches
  payload inventory policy left items = record {
    as_of = inventory.as_of;
    policy = policy;
    source_revisions = inventory.source_revisions;
    registry_fingerprint = inventory.registry_fingerprint;
    reference_fingerprint = inventory.reference_fingerprint;
    object_fingerprint = inventory.object_fingerprint;
    resource_fingerprint = inventory.resource_fingerprint;
    blockers = inventory.blockers;
    items = items;
    protected_bytes = sum_bytes (λ item. is_protected_item item.disposition) items;
    candidate_bytes = sum_bytes (λ item. is_candidate item.disposition) items;
    executable_bytes = sum_bytes (λ item. item.executable) items;
    cache_bytes_above_target = left - policy.cache_target_bytes;
  }

  unfoldable pub plan_at :
      RetentionInventory → RetentionPolicy → Option ℕ → Outcome RetentionPreviewPlan
  unfolding unsorted_items payload sort evict_caches
  plan_at inventory policy none = thrown type_error
  plan_at inventory policy (some at) = ok (
      payload inventory policy (evict_caches parse_date locale_lt at policy inventory).1
        (sort (λ a b. locale_lt a.id b.id) (unsorted_items inventory policy at)))

  unfoldable pub plan_retention :
      RetentionInventory → RetentionPolicy → Outcome RetentionPreviewPlan
  unfolding validate_retention_policy plan_at
  plan_retention inventory policy = validate_retention_policy policy =>> λ valid.
      plan_at inventory policy (parse_date inventory.as_of)
