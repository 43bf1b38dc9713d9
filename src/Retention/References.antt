-- ===== src/Retention/References.antt =====
-- Which objects the references name, directly or as the body of a version.
use dsh_session_maintenance.Prelude.{
  String, Bool, true, false, List, [], ◌∷◌, ◌++◌, map, keep, Option, none, some, string_eq, nat_eq,
  list_eq, includes, map_get, map_set, if◌then◌else◌,
}
use dsh_session_maintenance.Contracts.Retention.{
  SourceKind, active_database, RetentionSource, TargetKind, version_body, content_object,
  RetentionReference, RetentionVersion,
}
use dsh_session_maintenance.Retention.{Key, key}

unfoldable pub is_active : SourceKind → Bool
is_active active_database = true
is_active _ = false

unfoldable pub active_sources : List RetentionSource → List String
unfolding is_active
active_sources sources = map (λ s. s.id) (keep (λ s. is_active s.kind) sources)

abbrev pub VersionObjects : Type 0
VersionObjects = List (Key × List Key)

unfoldable pub set_aliases : List String → RetentionVersion → VersionObjects → VersionObjects
unfolding key
set_aliases [] v m = m
set_aliases (alias ∷ aliases) v m =
    set_aliases aliases v (map_set (key alias v.id) (key v.object_root_id v.object_id ∷ []) m)

unfoldable pub add_version : List String → RetentionVersion → VersionObjects → VersionObjects
unfolding key set_aliases
add_version active v m =
    let own = map_set (key v.source v.id) (key v.object_root_id v.object_id ∷ []) m in
    if includes active v.source then set_aliases ("cache" ∷ "wal" ∷ "runtime" ∷ []) v own else own

unfoldable pub version_objects :
    List String → List RetentionVersion → VersionObjects → VersionObjects
unfolding add_version
version_objects active [] m = m
version_objects active (v ∷ vs) m = version_objects active vs (add_version active v m)

unfoldable pub or_empty : {A : Type 0} → Option (List A) → List A
or_empty none = []
or_empty (some xs) = xs

unfoldable pub direct_target : RetentionReference → Option String → List Key
unfolding key
direct_target ref none = []
direct_target ref (some root) = key root ref.target_id ∷ []

unfoldable pub targets_of : VersionObjects → RetentionReference → TargetKind → List Key
unfolding key or_empty direct_target
targets_of objects ref content_object = direct_target ref ref.object_root_id
targets_of objects ref version_body = or_empty (map_get (key ref.source ref.target_id) objects)
targets_of objects ref _ = []

abbrev pub RefsByObject : Type 0
RefsByObject = List (Key × List RetentionReference)

unfoldable pub add_reference : RetentionReference → List Key → RefsByObject → RefsByObject
unfolding or_empty
add_reference ref [] m = m
add_reference ref (target ∷ targets) m =
    add_reference ref targets (map_set target (or_empty (map_get target m) ++ ref ∷ []) m)

unfoldable pub refs_by_object :
    VersionObjects → List RetentionReference → RefsByObject → RefsByObject
unfolding targets_of add_reference
refs_by_object objects [] m = m
refs_by_object objects (ref ∷ refs) m =
    refs_by_object objects refs (add_reference ref (targets_of objects ref ref.target_kind) m)
