-- ===== src/Retention/Expendable.antt =====
-- What may be removed: a resource has nothing that speaks for keeping it.
use dsh_session_maintenance.Prelude.{
  ℕ, ◌+◌, ◌≤◌, ◌≡◌, refl, String, Bool, true, false, not, List, [], ◌∷◌, ◌++◌, Option, none, some,
  string_eq, includes, arith,
}
use dsh_session_maintenance.Contracts.Retention.{
  ResourceKind, run, cache, backup, candidate, RetentionReference, RetentionPolicy, Disposition,
  RetentionResourceInventory,
}
use dsh_session_maintenance.Retention.{hours, has_passed}
use dsh_session_maintenance.Retention.Selection.{date_of}
use dsh_session_maintenance.Retention.Items.{
  disposition_of, when, window_reasons, run_window, kind_reasons, resource_reasons, resource_item,
  is_candidate, is_registered,
}
use dsh_session_maintenance.Retention.Unreferenced.{disposition_of-candidate}

append_empty : {A : Type 0} (xs ys : List A) → xs ++ ys ≡ [] → (xs ≡ []) × (ys ≡ [])
append_empty [] ys h = (refl, h)
append_empty (x ∷ xs) ys h = absurd (ground (arith, h))

when_empty : (b : Bool) (s : String) → when b s ≡ [] → b ≡ false
when_empty true s h = absurd (ground (arith, h))
when_empty false s h = refl

backup_due :
    (kept passed : Bool) (s t : String)
    → when kept s ++ when (not passed) t ≡ []
    → (kept ≡ false) × (passed ≡ true)
backup_due true passed s t h = absurd (ground (arith, h))
backup_due false true s t h = (refl, refl)
backup_due false false s t h = absurd (ground (arith, h))

candidate_of : (d : Disposition) → is_candidate d ≡ true → d ≡ Disposition.candidate
unfolding is_candidate
candidate_of Disposition.candidate h = refl
candidate_of Disposition.protected h = absurd (ground (arith, h))
candidate_of Disposition.blocked h = absurd (ground (arith, h))

module _ (parse_date : String → Option ℕ) (at : ℕ) (policy : RetentionPolicy) where
  -- The entry finished at a date that is known, has passed, and is out of the window of its run.
  abbrev pub HasExpired : RetentionResourceInventory → Type 0
  HasExpired entry =
      (finished : ℕ) × (date_of parse_date entry.completed_at ≡ some finished)
      × (finished + hours (run_window parse_date at policy entry) ≤ at)

  -- What is asked of a resource by its kind.
  abbrev pub IsDue : List String → List String → RetentionResourceInventory → ResourceKind → Type 0
  IsDue newest evicted entry run = HasExpired entry
  IsDue newest evicted entry cache = includes evicted entry.resource.id ≡ true
  IsDue newest evicted entry backup =
      (includes newest entry.resource.id ≡ false)
      × (has_passed at (date_of parse_date entry.completed_at) ≡ true)
  IsDue newest evicted entry candidate =
      (includes newest entry.resource.id ≡ false)
      × (has_passed at (date_of parse_date entry.completed_at) ≡ true)

  pub record IsExpendable (newest evicted : List String) (entry : RetentionResourceInventory)
      : Type 0 where
    pub registered : is_registered entry.resource.state ≡ true
    pub valid : entry.valid ≡ true
    pub no_reasons : entry.reasons ≡ []
    pub due : IsDue newest evicted entry entry.resource.kind

  window_reasons-expired :
      (window : ℕ) (date : Option ℕ)
      → window_reasons at window date ≡ []
      → (finished : ℕ) × (date ≡ some finished) × (finished + hours window ≤ at)
  unfolding window_reasons has_passed
  window_reasons-expired window none h = absurd (ground (arith, h))
  window_reasons-expired window (some date) h = (date, refl, ground (arith, h))

  kind_reasons-IsDue :
      (newest evicted : List String) (entry : RetentionResourceInventory) (kind : ResourceKind)
      → kind_reasons parse_date at policy newest evicted entry kind ≡ []
      → IsDue newest evicted entry kind
  unfolding kind_reasons
  kind_reasons-IsDue newest evicted entry run h =
      window_reasons-expired (run_window parse_date at policy entry)
        (date_of parse_date entry.completed_at) h
  kind_reasons-IsDue newest evicted entry cache h = ground (arith, h)
  kind_reasons-IsDue newest evicted entry backup h =
      backup_due (includes newest entry.resource.id)
        (has_passed at (date_of parse_date entry.completed_at)) "newest-valid-automatic-backups"
        "trusted-completion-time-unknown" h
  kind_reasons-IsDue newest evicted entry candidate h =
      backup_due (includes newest entry.resource.id)
        (has_passed at (date_of parse_date entry.completed_at)) "newest-valid-automatic-backups"
        "trusted-completion-time-unknown" h

  -- Only an expendable resource has an item that may be executed.
  pub resource_item-IsExpendable :
      (is_blocked : Bool) (references : List RetentionReference) (newest evicted : List String)
      (entry : RetentionResourceInventory)
      → (resource_item parse_date at policy is_blocked references newest evicted entry).executable
        ≡ true
      → (is_blocked ≡ false) × IsExpendable newest evicted entry
  unfolding resource_item resource_reasons is_candidate
  resource_item-IsExpendable is_blocked references newest evicted entry h =
      let reasons = resource_reasons parse_date at policy newest evicted entry in
      let is_chosen : is_candidate (disposition_of is_blocked reasons) ≡ true = ground (arith, h) in
      let (open', none_left) =
        disposition_of-candidate is_blocked reasons
          (candidate_of (disposition_of is_blocked reasons) is_chosen) in
      let invalid = when (not entry.valid) "validity-unproven" in
      let (early, by_kind) =
        append_empty (entry.reasons ++ invalid)
          (kind_reasons parse_date at policy newest evicted entry entry.resource.kind) none_left in
      let (own, proven) = append_empty entry.reasons invalid early in
      (
        open',
        record {
          registered = ground (arith, h);
          valid = ground (arith, when_empty (not entry.valid) "validity-unproven" proven);
          no_reasons = own;
          due = kind_reasons-IsDue newest evicted entry entry.resource.kind by_kind;
        },
      )
