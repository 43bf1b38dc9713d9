-- ===== src/Tests/Retention.antt =====
-- The retention of a run, two objects, two caches and four backups.
use dsh_session_maintenance.Prelude.{
  ℕ, ◌≤◌, ◌≡◌, refl, String, true, false, not, ◌&&◌, List, [], ◌∷◌, keep, length, leb, includes,
  Option, none, some, ◌==◌, string_eq, nat_eq, list_eq, Outcome, ok, thrown, All, map_get, map_set,
  if◌then◌else◌, set_of,
}
use mathlib.Core.List.{Memᴰ}
use mathlib.Core.List.Memᴰ.{head, tail}
use dsh_session_maintenance.Domain.Text.{js_lt}
use dsh_session_maintenance.Contracts.Retention.{
  RetentionVersion, RetentionReference, active_database, ResourceKind, run, cache, backup,
  registered, version_body, RetentionObject, RetentionResourceInventory, RetentionInventory,
  ItemKind, content_object, Disposition, RetentionPlanItem, RetentionPreviewPlan,
}
use dsh_session_maintenance.Retention.References.{version_objects, targets_of}
use dsh_session_maintenance.Retention.Bodies.{object_key, body_keys, agrees, targets_of-body}
use dsh_session_maintenance.Retention.{key, default_retention_policy, hours}
use dsh_session_maintenance.Retention.Selection.{
  date_of, is_valid_backup, group_of, newest_backups, is_evictable, evict_caches,
}
use dsh_session_maintenance.Retention.Plan.{plan_retention}
use dsh_session_maintenance.Retention.Admitted.{
  IsRemovable, IsReclaimable, plan_retention-IsRemovable, plan_retention-IsReclaimable,
}
use dsh_session_maintenance.Retention.Eviction.{HasDate, IsEviction, evict_caches-IsEviction}
use dsh_session_maintenance.Retention.Newest.{completion, IsDated, newest_backups_kept}
use dsh_session_maintenance.Retention.Accounts.{IsBalanced, plan_retention-IsBalanced}

-- Dates are written as days here.
abbrev date : String → Option ℕ
date s =
    if s == "day 1"
    then some (hours 24)
    else if s == "day 2"
    then some (hours 48)
    else if s == "day 3"
    then some (hours 72)
    else if s == "day 4"
    then some (hours 96)
    else if s == "day 9"
    then some (hours 216)
    else none

abbrev entry : String → ResourceKind → ℕ → String → RetentionResourceInventory
entry id kind bytes finished = record {
  resource = record {
    id = id;
    root_id = "root";
    relative_path = id;
    kind = kind;
    owner_id = id;
    group = "all";
    pinned = false;
    recovery_required = false;
    verified_at = none;
    verified_fingerprint = none;
    last_used_at = some finished;
    state = registered;
    sqlite_bundle = [];
  };
  fingerprint = "";
  bytes = bytes;
  files = [];
  reasons = [];
  completed_at = some finished;
  recovery_completed = false;
  valid = true;
}

abbrev object : String → RetentionObject
object id = record {
  relative_path = id;
  identity = id;
  bytes = 7;
  mtime_ms = hours 24;
  root_id = "b";
  object_id = id;
}

abbrev version : RetentionVersion
version = record {
  source = "main";
  id = "v1";
  object_id = "o2";
  object_root_id = "b";
  parents = [];
  first_persisted_at = none;
}

abbrev use_of_body : RetentionReference
use_of_body = record {
  source = "runtime";
  owner = "process";
  target_kind = version_body;
  target_id = "v1";
  object_root_id = none;
  reason = "in-use";
}

abbrev inventory : RetentionInventory
inventory = record {
  as_of = "day 9";
  sources =
      record {
        id = "main";
        root_id = "root";
        relative_path = "main.db";
        object_root_id = "b";
        kind = active_database;
        retained = true;
      }
      ∷ [];
  source_revisions = [];
  versions = version ∷ [];
  references = use_of_body ∷ [];
  objects = object "o1" ∷ object "o2" ∷ [];
  resources =
      entry "a-run" run 5 "day 1"
      ∷ entry "c1" cache 1073741824 "day 1"
      ∷ entry "c2" cache 9 "day 2"
      ∷ entry "d1" backup 3 "day 1"
      ∷ entry "d2" backup 3 "day 2"
      ∷ entry "d3" backup 3 "day 3"
      ∷ entry "d4" backup 3 "day 4"
      ∷ [];
  source_files = [];
  blockers = [];
  registry_fingerprint = "";
  reference_fingerprint = "";
  object_fingerprint = "";
  resource_fingerprint = "";
}

abbrev items_of : Outcome RetentionPreviewPlan → List RetentionPlanItem
items_of (ok plan) = plan.items
items_of (thrown e) = []

abbrev plan : RetentionPreviewPlan
plan = record {
  as_of = "day 9";
  policy = default_retention_policy;
  source_revisions = [];
  registry_fingerprint = "";
  reference_fingerprint = "";
  object_fingerprint = "";
  resource_fingerprint = "";
  blockers = [];
  items = items_of (plan_retention date js_lt inventory default_retention_policy);
  protected_bytes = 25;
  candidate_bytes = 1073741839;
  executable_bytes = 1073741832;
  cache_bytes_above_target = 0;
}

planned : plan_retention date js_lt inventory default_retention_policy ≡ ok plan
unfolding plan_retention map_get map_set set_of
planned = refl

abbrev the_run : RetentionPlanItem
the_run = record {
  id = "a-run";
  kind = ItemKind.resource run;
  root_id = "root";
  relative_path = "a-run";
  bytes = 5;
  disposition = Disposition.candidate;
  reasons = "verified-governance-eligibility" ∷ [];
  references = [];
  executable = true;
}

abbrev the_object : RetentionPlanItem
the_object = record {
  id = "b:o1";
  kind = content_object;
  root_id = "b";
  relative_path = "o1";
  bytes = 7;
  disposition = Disposition.candidate;
  reasons = "unreferenced-object; preview-only" ∷ [];
  references = [];
  executable = false;
}

run_planned : Memᴰ the_run plan.items
unfolding plan_retention map_get map_set set_of
run_planned = head refl

object_planned : Memᴰ the_object plan.items
unfolding plan_retention map_get map_set set_of
object_planned = tail (head refl)

plan_retention-IsRemovable_example :
    (at : ℕ) × (date "day 9" ≡ some at)
    × IsRemovable date js_lt inventory default_retention_policy at the_run
plan_retention-IsRemovable_example =
    plan_retention-IsRemovable date js_lt inventory default_retention_policy plan planned the_run
      run_planned refl

plan_retention-IsReclaimable_example :
    (at : ℕ) × (date "day 9" ≡ some at)
    × IsReclaimable date js_lt inventory default_retention_policy at the_object
plan_retention-IsReclaimable_example =
    plan_retention-IsReclaimable date js_lt inventory default_retention_policy plan planned
      the_object object_planned refl refl

is_named : includes (body_keys ("main" ∷ []) version) (key "runtime" "v1") ≡ true
unfolding key
is_named = refl

All-agree :
    All
      (λ (w : RetentionVersion).
        agrees ("main" ∷ []) (key "runtime" "v1") (object_key version) w ≡ true)
      inventory.versions
unfolding key
All-agree = (refl, tt)

targets_of-body_example :
    targets_of (version_objects ("main" ∷ []) inventory.versions []) use_of_body version_body
    ≡ object_key version ∷ []
targets_of-body_example =
    targets_of-body ("main" ∷ []) inventory.versions version use_of_body (head refl) is_named
      All-agree

plan_retention-IsBalanced_example : IsBalanced inventory plan
plan_retention-IsBalanced_example =
    plan_retention-IsBalanced date js_lt inventory default_retention_policy plan planned

caches_dated :
    All (HasDate date js_lt (hours 216) 1073741824) (keep is_evictable inventory.resources)
unfolding is_evictable date_of
caches_dated = (refl, (refl, tt))

evict_caches-IsEviction_example :
    IsEviction date js_lt
      (hours 216)
      1073741824
      inventory.resources
      (evict_caches date js_lt (hours 216) default_retention_policy inventory).0
      (evict_caches date js_lt (hours 216) default_retention_policy inventory).1
evict_caches-IsEviction_example =
    evict_caches-IsEviction date js_lt (hours 216) default_retention_policy inventory caches_dated

abbrev oldest : RetentionResourceInventory
oldest = entry "d1" backup 3 "day 1"

oldest_is_valid : is_valid_backup oldest ≡ true
unfolding is_valid_backup
oldest_is_valid = refl

All-IsDated : All (IsDated date js_lt) (keep is_valid_backup inventory.resources)
unfolding is_valid_backup date_of
All-IsDated = (refl, (refl, (refl, (refl, tt))))

not_newest : includes (newest_backups date js_lt default_retention_policy inventory) "d1" ≡ false
unfolding newest_backups set_of
not_newest = refl

newest_backups_kept_example :
    3
    ≤ length (
        keep
          (λ (other : RetentionResourceInventory).
            is_valid_backup other
            && (group_of other == group_of oldest
                && (not (other.resource.id == "d1")
                    && leb (completion date js_lt oldest) (completion date js_lt other))))
          inventory.resources)
newest_backups_kept_example =
    newest_backups_kept date js_lt default_retention_policy inventory oldest
      (tail (tail (tail (head refl)))) oldest_is_valid All-IsDated not_newest
