-- ===== src/Retention/Unreferenced.antt =====
-- An object that a reference names has an entry in the table of references, and so it is protected.
use dsh_session_maintenance.Prelude.{
  some, none, ap, ◌∙◌, Option, option_eq, list_beq_iff, eq_iff, ◌&&◌, ℕ, ◌+◌, ◌<◌, ◌≡◌, refl, inl,
  inr, String, Bool, true, false, List, [], ◌∷◌, ◌++◌, map, ◌==◌, string_eq, nat_eq, list_eq,
  includes, Bool-cases, map_get, map_set, map_get-map_set, All, arith, leb,
}
use dsh_session_maintenance.Contracts.Retention.{
  TargetKind, version_body, content_object, RetentionReference, RetentionObject, RetentionPolicy,
  Disposition,
}
use dsh_session_maintenance.Retention.{Key, key, hours}
use dsh_session_maintenance.Retention.References.{
  VersionObjects, RefsByObject, or_empty, direct_target, targets_of, add_reference, refs_by_object,
}
use dsh_session_maintenance.Retention.Items.{disposition_of, object_reasons, object_item, when}

-- The references that the table has for an object.
abbrev pub refs_at : Key → RefsByObject → List RetentionReference
refs_at k m = or_empty (map_get k m)

append_nonempty : {A : Type 0} (xs : List A) (x : A) → xs ++ x ∷ [] ≡ [] → ⊥
append_nonempty [] x e = ground (arith, e)
append_nonempty (y ∷ xs) x e = ground (arith, e)

refs_at-add_reference :
    (ref : RetentionReference) (targets : List Key) (k : Key) (m : RefsByObject)
    → refs_at k (add_reference ref targets m) ≡ []
    → (refs_at k m ≡ []) × (includes targets k ≡ false)
unfolding add_reference or_empty
refs_at-add_reference ref [] k m h = (h, refl)
refs_at-add_reference ref (target ∷ targets) k m h =
    let added = map_set target (or_empty (map_get target m) ++ ref ∷ []) m in
    let (before, other) = refs_at-add_reference ref targets k added h in
    let get = map_get-map_set target k (or_empty (map_get target m) ++ ref ∷ []) m in
    elim (Bool-cases (target == k)) [
      | inl same ↦
          absurd
            (append_nonempty (or_empty (map_get target m)) ref (ground (arith, get, same, before)))
      | inr differs ↦ (ground (arith, get, differs, before), ground (arith, differs, other))
    ]

-- No reference names the object.
abbrev pub IsUnnamed : VersionObjects → Key → RetentionReference → Type 0
IsUnnamed objects k ref = includes (targets_of objects ref ref.target_kind) k ≡ false

pub refs_by_object-IsUnnamed :
    (objects : VersionObjects) (refs : List RetentionReference) (k : Key) (m : RefsByObject)
    → refs_at k (refs_by_object objects refs m) ≡ []
    → (refs_at k m ≡ []) × All (IsUnnamed objects k) refs
unfolding refs_by_object
refs_by_object-IsUnnamed objects [] k m h = (h, tt)
refs_by_object-IsUnnamed objects (ref ∷ refs) k m h =
    let targets = targets_of objects ref ref.target_kind in
    let (before, others) =
      refs_by_object-IsUnnamed objects refs k (add_reference ref targets m) h in
    let (start, unnamed) = refs_at-add_reference ref targets k m before in
    (start, (unnamed, others))

pub disposition_of-candidate :
    (is_blocked : Bool) (reasons : List String)
    → disposition_of is_blocked reasons ≡ Disposition.candidate
    → (is_blocked ≡ false) × (reasons ≡ [])
unfolding disposition_of
disposition_of-candidate is_blocked [] h = (ground (arith, h), refl)
disposition_of-candidate is_blocked (reason ∷ reasons) h = absurd (ground (arith, h))

no_reasons :
    (refs : List RetentionReference) (is_young : Bool)
    → map (λ (ref : RetentionReference). ref.reason) refs ++ when is_young "orphan-grace-window"
      ≡ []
    → (refs ≡ []) × (is_young ≡ false)
no_reasons [] true h = absurd (ground (arith, h))
no_reasons [] false h = (refl, refl)
no_reasons (ref ∷ refs) is_young h = absurd (ground (arith, h))

-- An object whose item is a candidate has no references and is past the grace window.
pub object_item-candidate :
    (at : ℕ) (policy : RetentionPolicy) (is_blocked : Bool) (m : RefsByObject)
    (object : RetentionObject)
    → (object_item at policy is_blocked m object).disposition ≡ Disposition.candidate
    → (is_blocked ≡ false)
      × (refs_at (key object.root_id object.object_id) m ≡ [])
      × (object.mtime_ms + hours policy.orphan_grace_hours < at)
unfolding object_item object_reasons disposition_of
object_item-candidate at policy is_blocked m object h =
    let refs = refs_at (key object.root_id object.object_id) m in
    let (open', none_left) =
      disposition_of-candidate is_blocked (object_reasons at policy refs object) h in
    let (unnamed, old) =
      no_reasons refs (leb at (object.mtime_ms + hours policy.orphan_grace_hours)) none_left in
    (open', unnamed, ground (arith, old))

-- The reference names the object itself.
abbrev pub is_direct : RetentionReference → TargetKind → String → String → Bool
is_direct ref content_object root id = ref.object_root_id == some root && ref.target_id == id
is_direct ref _ root id = false

direct_target-other :
    (ref : RetentionReference) (target_root : Option String) (root id : String)
    → includes (direct_target ref target_root) (key root id) ≡ false
    → (target_root == some root && ref.target_id == id) ≡ false
unfolding direct_target
direct_target-other ref none root id h = refl
direct_target-other ref (some r) root id h = elim (Bool-cases (r == root && ref.target_id == id)) [
  | inr other ↦ other
  | inl both ↦
      let same : key r ref.target_id ≡ key root id =
        ap (λ x. key x ref.target_id) ((eq_iff r root).0 (ground (arith, both)))
        ∙ ap (key root) ((eq_iff ref.target_id id).0 (ground (arith, both))) in
      absurd (ground (arith, h, same, list_beq_iff (key r ref.target_id) (key root id)))
]

is_direct_of-IsUnnamed :
    (objects : VersionObjects) (ref : RetentionReference) (kind : TargetKind) (root id : String)
    → includes (targets_of objects ref kind) (key root id) ≡ false
    → is_direct ref kind root id ≡ false
unfolding targets_of
is_direct_of-IsUnnamed objects ref content_object root id h =
    direct_target-other ref ref.object_root_id root id h
is_direct_of-IsUnnamed objects ref version_body root id h = refl
is_direct_of-IsUnnamed objects ref TargetKind.version_metadata root id h = refl
is_direct_of-IsUnnamed objects ref TargetKind.run root id h = refl
is_direct_of-IsUnnamed objects ref TargetKind.cache root id h = refl
is_direct_of-IsUnnamed objects ref TargetKind.backup root id h = refl

pub All-direct :
    (objects : VersionObjects) (root id : String) (refs : List RetentionReference)
    → All (IsUnnamed objects (key root id)) refs
    → All (λ ref. is_direct ref ref.target_kind root id ≡ false) refs
All-direct objects root id [] a = tt
All-direct objects root id (ref ∷ refs) a = (
  is_direct_of-IsUnnamed objects ref ref.target_kind root id a.0,
  All-direct objects root id refs a.1,
)
