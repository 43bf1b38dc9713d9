-- ===== src/Retention/Bodies.antt =====
-- A reference to the body of a version has the version's object as its target.
use dsh_session_maintenance.Prelude.{
  ◌≡◌, refl, ap, subst, inl, inr, String, Bool, true, not, ◌||◌, List, [], ◌∷◌, some, ◌==◌,
  string_eq, nat_eq, list_eq, includes, if◌then◌else◌, Bool-cases, map_get, map_set,
  map_get-map_set, All, arith, list_beq_iff,
}
use mathlib.Core.List.{Memᴰ}
use mathlib.Core.List.Memᴰ.{cases_cons}
use dsh_session_maintenance.Contracts.Retention.{RetentionReference, RetentionVersion, version_body}
use dsh_session_maintenance.Retention.{Key, key}
use dsh_session_maintenance.Retention.References.{
  VersionObjects, set_aliases, add_version, version_objects, or_empty, targets_of,
}

-- The object of a version.
abbrev pub object_key : RetentionVersion → Key
object_key v = key v.object_root_id v.object_id

abbrev pub alias_keys : List String → RetentionVersion → List Key
alias_keys [] v = []
alias_keys (alias ∷ aliases) v = key alias v.id ∷ alias_keys aliases v

-- The names of a version's body: by its own source, and for an active source by the cache, the
-- write-ahead log and the runtime.
abbrev pub body_keys : List String → RetentionVersion → List Key
body_keys active v =
    key v.source v.id
    ∷ (if includes active v.source then alias_keys ("cache" ∷ "wal" ∷ "runtime" ∷ []) v else [])

map_get-set_aliases :
    (aliases : List String) (v : RetentionVersion) (m : VersionObjects) (k : Key)
    → map_get k (set_aliases aliases v m)
      ≡ (if includes (alias_keys aliases v) k then some (object_key v ∷ []) else map_get k m)
unfolding set_aliases
map_get-set_aliases [] v m k = refl
map_get-set_aliases (alias ∷ aliases) v m k = ground (
  arith,
  map_get-set_aliases aliases v (map_set (key alias v.id) (object_key v ∷ []) m) k,
  map_get-map_set (key alias v.id) k (object_key v ∷ []) m,
)

map_get-add_version :
    (active : List String) (v : RetentionVersion) (m : VersionObjects) (k : Key)
    → map_get k (add_version active v m)
      ≡ (if includes (body_keys active v) k then some (object_key v ∷ []) else map_get k m)
unfolding add_version
map_get-add_version active v m k =
    let own = map_set (key v.source v.id) (object_key v ∷ []) m in
    let first = map_get-map_set (key v.source v.id) k (object_key v ∷ []) m in
    elim (Bool-cases (includes active v.source)) [
      | inr other ↦ rw other (ground (arith, first))
      | inl alias ↦
          rw alias
            (ground (arith, first, map_get-set_aliases ("cache" ∷ "wal" ∷ "runtime" ∷ []) v own k))
    ]

-- The version has the object, if it is a body of this name at all.
abbrev pub agrees : List String → Key → Key → RetentionVersion → Bool
agrees active k object w = not (includes (body_keys active w) k) || object_key w == object

map_get-version_objects_kept :
    (active : List String) (vs : List RetentionVersion) (m : VersionObjects) (k object : Key)
    → All (λ w. agrees active k object w ≡ true) vs
    → map_get k m ≡ some (object ∷ [])
    → map_get k (version_objects active vs m) ≡ some (object ∷ [])
unfolding version_objects
map_get-version_objects_kept active [] m k object a h = h
map_get-version_objects_kept active (w ∷ vs) m k object a h =
    map_get-version_objects_kept active vs (add_version active w m) k object a.1
      (ground (arith, map_get-add_version active w m k, a.0, h, list_beq_iff (object_key w) object))

map_get-version_objects :
    (active : List String) (vs : List RetentionVersion) (m : VersionObjects) (k : Key)
    (v : RetentionVersion)
    → Memᴰ v vs
    → includes (body_keys active v) k ≡ true
    → All (λ w. agrees active k (object_key v) w ≡ true) vs
    → map_get k (version_objects active vs m) ≡ some (object_key v ∷ [])
unfolding version_objects
map_get-version_objects active [] m k v listed named a = elim listed [ ]
map_get-version_objects active (w ∷ vs) m k v listed named a = elim (cases_cons listed) [
  | inr later ↦ map_get-version_objects active vs (add_version active w m) k v later named a.1
  | inl e ↦ map_get-version_objects_kept active vs (add_version active w m) k (object_key v) a.1 (
      subst
        (λ (x : RetentionVersion). map_get k (add_version active x m) ≡ some (object_key v ∷ [])) e
        (ground (arith, map_get-add_version active v m k, named)))
]

-- A reference that names the body of a listed version has the version's object as its only target,
-- when no listed version with another object goes by the same name. A body is named by its source
-- and ID; a body of an active source also by the cache, the write-ahead log or the runtime.
pub targets_of-body :
    (active : List String) (versions : List RetentionVersion) (v : RetentionVersion)
    (ref : RetentionReference)
    → Memᴰ v versions
    → includes (body_keys active v) (key ref.source ref.target_id) ≡ true
    → All (λ w. agrees active (key ref.source ref.target_id) (object_key v) w ≡ true) versions
    → targets_of (version_objects active versions []) ref version_body ≡ object_key v ∷ []
unfolding targets_of or_empty
targets_of-body active versions v ref listed named a =
    ap or_empty
      (map_get-version_objects active versions [] (key ref.source ref.target_id) v listed named a)
