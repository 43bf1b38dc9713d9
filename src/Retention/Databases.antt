-- ===== src/Retention/Databases.antt =====
-- The items of retained databases, whose files are counted once.
use dsh_session_maintenance.Prelude.{
  ℕ, ◌+◌, String, Bool, true, false, not, ◌&&◌, ◌||◌, List, [], ◌∷◌, ◌++◌, keep, find, any, Option,
  none, some, ◌==◌, string_eq, nat_eq, list_eq, includes, if◌then◌else◌,
}
use Prim.Native.String as S
use dsh_session_maintenance.Domain.Text.{Text, codes}
use dsh_session_maintenance.Contracts.Retention.{
  RetentionSource, RetentionFile, SourceFiles, RetentionInventory, RetentionPlanItem, database,
  protected,
}
use dsh_session_maintenance.Retention.{Key, key}
use dsh_session_maintenance.Retention.References.{is_active}

-- `text.startsWith(prefix)`
unfoldable pub starts_with : Text → Text → Bool
starts_with text [] = true
starts_with [] (p ∷ prefix) = false
starts_with (c ∷ text) (p ∷ prefix) = c == p && starts_with text prefix

unfoldable pub is_governed : RetentionInventory → String → String → Bool
unfolding starts_with
is_governed inventory root path =
    any
      (λ entry.
        entry.resource.root_id == root
        && (includes entry.resource.sqlite_bundle path
            || starts_with (codes path) (codes (S.◌++◌ entry.resource.relative_path "/"))))
      inventory.resources

unfoldable pub count_files : String → List RetentionFile → List Key → ℕ → List Key × ℕ
unfolding key
count_files root [] counted bytes = (counted, bytes)
count_files root (file ∷ files) counted bytes =
    if includes counted (key root file.relative_path)
    then count_files root files counted bytes
    else count_files root files (counted ++ key root file.relative_path ∷ []) (bytes + file.bytes)

unfoldable pub registered_path : Option RetentionSource → String → String
registered_path none path = path
registered_path (some registration) path = registration.relative_path

unfoldable pub is_active_source : Option RetentionSource → Bool
unfolding is_active
is_active_source none = false
is_active_source (some registration) = is_active registration.kind

unfoldable pub database_item : SourceFiles → Option RetentionSource → String → ℕ → RetentionPlanItem
unfolding registered_path
database_item source registration path bytes = record {
  id = S.◌++◌ "database:" source.source_id;
  kind = database;
  root_id = source.root_id;
  relative_path = registered_path registration path;
  bytes = bytes;
  disposition = protected;
  reasons = "retained-recovery-database; explicit-static-bundle-registration-required" ∷ [];
  references = [];
  executable = false;
}

unfoldable pub items_of_files :
    SourceFiles
    → Option RetentionSource
    → List RetentionFile
    → List Key × ℕ
    → List Key × List RetentionPlanItem
unfolding database_item
items_of_files source registration [] (counted, bytes) = (counted, [])
items_of_files source registration (file ∷ files) (counted, bytes) =
    (counted, database_item source registration file.relative_path bytes ∷ [])

unfoldable pub source_items :
    RetentionInventory → SourceFiles → List Key → List Key × List RetentionPlanItem
unfolding is_governed count_files is_active_source items_of_files
source_items inventory source counted =
    let registration = find (λ entry. entry.id == source.source_id) inventory.sources in
    let files =
      keep (λ file. not (is_governed inventory source.root_id file.relative_path)) source.files in
    if is_active_source registration
    then (counted, [])
    else items_of_files source registration files (count_files source.root_id files counted 0)

unfoldable pub database_items :
    RetentionInventory → List SourceFiles → List Key → List RetentionPlanItem
unfolding source_items
database_items inventory [] counted = []
database_items inventory (source ∷ sources) counted =
    let (counted', items) = source_items inventory source counted in
    items ++ database_items inventory sources counted'
