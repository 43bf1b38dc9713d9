-- ===== src/Retention/Items.antt =====
-- The items of content objects, and of runs, caches and backups, with the reasons to keep them.
use dsh_session_maintenance.Prelude.{
  ℕ, ◌+◌, String, Bool, true, false, not, ◌&&◌, List, [], ◌∷◌, ◌++◌, map, keep, Option, none, some,
  ◌==◌, string_eq, nat_eq, list_eq, includes, ltb, leb, if◌then◌else◌, map_get, set_of,
}
use Prim.Native.String as S
use dsh_session_maintenance.Domain.Text.{sort, js_lt}
use dsh_session_maintenance.Contracts.Retention.{
  ResourceKind, run, cache, backup, candidate, ResourceState, registered, TargetKind,
  RetentionReference, RetentionObject, RetentionResourceInventory, RetentionPolicy, content_object,
  resource, Disposition, protected, blocked, RetentionPlanItem,
}
use dsh_session_maintenance.Retention.{key, hours, has_passed}
use dsh_session_maintenance.Retention.References.{RefsByObject, or_empty}
use dsh_session_maintenance.Retention.Selection.{date_of}

unfoldable pub disposition_of : Bool → List String → Disposition
disposition_of is_blocked (reason ∷ reasons) = protected
disposition_of is_blocked [] = if is_blocked then blocked else Disposition.candidate

-- `[...new Set(...)].sort()`
unfoldable pub reasons_of : Bool → String → List String → List String
unfolding sort js_lt set_of
reasons_of is_blocked otherwise (reason ∷ reasons) = sort js_lt (set_of (reason ∷ reasons))
reasons_of is_blocked otherwise [] =
    (if is_blocked then "incomplete-reference-coverage" else otherwise) ∷ []

abbrev pub when : Bool → String → List String
when condition reason = if condition then reason ∷ [] else []

unfoldable pub object_reasons :
    ℕ → RetentionPolicy → List RetentionReference → RetentionObject → List String
object_reasons at policy refs object =
    map (λ ref. ref.reason) refs
    ++ when (leb at (object.mtime_ms + hours policy.orphan_grace_hours)) "orphan-grace-window"

unfoldable pub object_item :
    ℕ → RetentionPolicy → Bool → RefsByObject → RetentionObject → RetentionPlanItem
unfolding object_reasons disposition_of reasons_of or_empty key
object_item at policy is_blocked refs_by object =
    let refs = or_empty (map_get (key object.root_id object.object_id) refs_by) in
    let reasons = object_reasons at policy refs object in
    record {
      id = S.◌++◌ object.root_id (S.◌++◌ ":" object.object_id);
      kind = content_object;
      root_id = object.root_id;
      relative_path = object.relative_path;
      bytes = object.bytes;
      disposition = disposition_of is_blocked reasons;
      reasons = reasons_of is_blocked "unreferenced-object; preview-only" reasons;
      references = refs;
      executable = false;
    }

unfoldable pub is_target : ResourceKind → TargetKind → Bool
is_target run TargetKind.run = true
is_target cache TargetKind.cache = true
is_target backup TargetKind.backup = true
is_target _ _ = false

unfoldable pub is_candidate : Disposition → Bool
is_candidate Disposition.candidate = true
is_candidate _ = false

unfoldable pub is_registered : ResourceState → Bool
is_registered registered = true
is_registered _ = false

unfoldable pub window_reasons : ℕ → ℕ → Option ℕ → List String
unfolding has_passed
window_reasons at window none = "trusted-completion-time-unknown" ∷ []
window_reasons at window (some completed) =
    if has_passed at (some completed)
    then when (ltb at (completed + hours window)) "finished-run-retention-window"
    else "trusted-completion-time-unknown" ∷ []

module _ (parse_date : String → Option ℕ) (at : ℕ) (policy : RetentionPolicy) where
  unfoldable pub run_window : RetentionResourceInventory → ℕ
  run_window entry =
      if entry.recovery_completed then policy.recovered_run_hours else policy.finished_run_hours

  unfoldable pub kind_reasons :
      List String → List String → RetentionResourceInventory → ResourceKind → List String
  unfolding window_reasons run_window date_of has_passed
  kind_reasons newest evicted entry run =
      window_reasons at (run_window entry) (date_of parse_date entry.completed_at)
  kind_reasons newest evicted entry cache =
      when (not (includes evicted entry.resource.id)) "cache-capacity-target-or-protection"
  kind_reasons newest evicted entry backup =
      when (includes newest entry.resource.id) "newest-valid-automatic-backups"
      ++ when (not (has_passed at (date_of parse_date entry.completed_at)))
          "trusted-completion-time-unknown"
  kind_reasons newest evicted entry candidate =
      when (includes newest entry.resource.id) "newest-valid-automatic-backups"
      ++ when (not (has_passed at (date_of parse_date entry.completed_at)))
          "trusted-completion-time-unknown"

  unfoldable pub resource_reasons :
      List String → List String → RetentionResourceInventory → List String
  unfolding kind_reasons
  resource_reasons newest evicted entry =
      entry.reasons
      ++ when (not entry.valid) "validity-unproven"
      ++ kind_reasons newest evicted entry entry.resource.kind

  unfoldable pub resource_item :
      Bool
      → List RetentionReference
      → List String
      → List String
      → RetentionResourceInventory
      → RetentionPlanItem
  unfolding resource_reasons disposition_of reasons_of is_target is_candidate is_registered
  resource_item is_blocked references newest evicted entry =
      let reasons = resource_reasons newest evicted entry in
      let disposition = disposition_of is_blocked reasons in
      record {
        id = entry.resource.id;
        kind = resource entry.resource.kind;
        root_id = entry.resource.root_id;
        relative_path = entry.resource.relative_path;
        bytes = entry.bytes;
        disposition = disposition;
        reasons = reasons_of is_blocked "verified-governance-eligibility" reasons;
        references =
            keep
              (λ ref.
                is_target entry.resource.kind ref.target_kind
                && ref.target_id == entry.resource.owner_id)
              references;
        executable = is_candidate disposition && is_registered entry.resource.state;
      }
