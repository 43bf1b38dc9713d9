-- ===== src/Retention/Accounts.antt =====
-- The sums of a plan.
use dsh_session_maintenance.Prelude.{
  ℕ, ◌+◌, ◌≤◌, ◌≡◌, refl, sym, ap, subst, ◌∙◌, ◌⊎◌, inl, inr, String, Bool, true, false, List, [],
  ◌∷◌, Option, Bool-cases, if◌then◌else◌, ok, arith,
}
use mathlib.Core.List.{Memᴰ}
use mathlib.Core.List.Memᴰ.{head, tail}
use dsh_session_maintenance.Contracts.Retention.{
  RetentionInventory, RetentionPolicy, Disposition, protected, candidate, blocked,
  RetentionPlanItem, RetentionPreviewPlan,
}
use dsh_session_maintenance.Retention.{key}
use dsh_session_maintenance.Retention.Unreferenced.{refs_at}
use dsh_session_maintenance.Retention.Items.{
  object_item, object_reasons, resource_reasons, resource_item, disposition_of, is_candidate,
}
use dsh_session_maintenance.Retention.Plan.{
  inventory_refs, is_blocked, sum_bytes, is_protected_item, unsorted_items, plan_retention, payload,
}
use dsh_session_maintenance.Retention.Admitted.{
  newest_ids, evicted_ids, item_origin, planned_at, planned_item, the_plan, blockers_empty,
}

abbrev pub is_blocked_item : Disposition → Bool
is_blocked_item blocked = true
is_blocked_item _ = false

sum_bytes-le :
    (p q : RetentionPlanItem → Bool) (items : List RetentionPlanItem)
    → ((item : RetentionPlanItem) → Memᴰ item items → p item ≡ true → q item ≡ true)
    → sum_bytes p items ≤ sum_bytes q items
unfolding sum_bytes
sum_bytes-le p q [] h = omega arith
sum_bytes-le p q (item ∷ items) h =
    let ih = sum_bytes-le p q items λ i m. h i (tail m) in
    let here = h item (head refl) in ground (arith, ih, here)

sum_bytes-none :
    (p : RetentionPlanItem → Bool) (items : List RetentionPlanItem)
    → ((item : RetentionPlanItem) → Memᴰ item items → p item ≡ false)
    → sum_bytes p items ≡ 0
unfolding sum_bytes
sum_bytes-none p [] h = refl
sum_bytes-none p (item ∷ items) h =
    let ih = sum_bytes-none p items λ i m. h i (tail m) in
    let here = h item (head refl) in ground (arith, ih, here)

one_disposition :
    (d : Disposition) (n : ℕ)
    → (if is_protected_item d then n else 0)
        + (if is_candidate d then n else 0)
        + (if is_blocked_item d then n else 0)
      ≡ n
unfolding is_protected_item is_candidate
one_disposition protected n = omega arith
one_disposition candidate n = omega arith
one_disposition blocked n = omega arith

sum_bytes-split :
    (items : List RetentionPlanItem)
    → sum_bytes (λ item. is_protected_item item.disposition) items
        + sum_bytes (λ item. is_candidate item.disposition) items
        + sum_bytes (λ item. is_blocked_item item.disposition) items
      ≡ sum_bytes (λ item. true) items
unfolding sum_bytes
sum_bytes-split [] = omega arith
sum_bytes-split (item ∷ items) =
    ground (arith, sum_bytes-split items, one_disposition item.disposition item.bytes)

disposition_of-blocked :
    (reasons : List String) → is_candidate (disposition_of true reasons) ≡ false
unfolding disposition_of is_candidate
disposition_of-blocked [] = refl
disposition_of-blocked (r ∷ rs) = refl

-- The sums of a plan fit: each item is counted as protected, as a candidate or as blocked, what may
-- be executed is among the candidates, and a blocked plan has no candidates.
pub record IsBalanced (inventory : RetentionInventory) (plan : RetentionPreviewPlan) : Type 0 where
  pub executable : plan.executable_bytes ≤ plan.candidate_bytes
  pub split :
      plan.protected_bytes
        + plan.candidate_bytes
        + sum_bytes (λ (item : RetentionPlanItem). is_blocked_item item.disposition) plan.items
      ≡ sum_bytes (λ (item : RetentionPlanItem). true) plan.items
  pub unblocked : (inventory.blockers ≡ []) ⊎ (plan.candidate_bytes ≡ 0)

module _ (parse_date : String → Option ℕ) (locale_lt : String → String → Bool)
    (inventory : RetentionInventory) (policy : RetentionPolicy) (at : ℕ) where
  item-executable :
      (item : RetentionPlanItem)
      → Memᴰ item (unsorted_items parse_date locale_lt inventory policy at)
      → item.executable ≡ true
      → is_candidate item.disposition ≡ true
  unfolding object_item resource_item
  item-executable item m h = elim (item_origin parse_date locale_lt inventory policy at item m) [
    | inl (kind, kept, idle) ↦ absurd (ground (arith, idle, h))
    | inr (inl (object, listed, e)) ↦
        absurd (ground (arith, h, ap (λ (i : RetentionPlanItem). i.executable) e))
    | inr (inr (entry, listed, e)) ↦
        subst (λ (i : RetentionPlanItem). is_candidate i.disposition ≡ true) (sym e)
          (ground (arith, sym (ap (λ (i : RetentionPlanItem). i.executable) e) ∙ h))
  ]

  item-blocked :
      (item : RetentionPlanItem)
      → is_blocked inventory ≡ true
      → Memᴰ item (unsorted_items parse_date locale_lt inventory policy at)
      → is_candidate item.disposition ≡ false
  unfolding object_item resource_item is_candidate
  item-blocked item b m = elim (item_origin parse_date locale_lt inventory policy at item m) [
    | inl (kind, kept, idle) ↦ ap is_candidate kept
    | inr (inl (object, listed, e)) ↦
        subst (λ (i : RetentionPlanItem). is_candidate i.disposition ≡ false) (sym e)
          (rw b (
            disposition_of-blocked (
              object_reasons at policy
                (refs_at (key object.root_id object.object_id) (inventory_refs inventory)) object)))
    | inr (inr (entry, listed, e)) ↦
        subst (λ (i : RetentionPlanItem). is_candidate i.disposition ≡ false) (sym e)
          (rw b (
            disposition_of-blocked (
              resource_reasons parse_date at policy
                (newest_ids parse_date locale_lt inventory policy at)
                (evicted_ids parse_date locale_lt inventory policy at) entry)))
  ]

-- The sums of a plan of `planRetention` are balanced.
pub plan_retention-IsBalanced :
    (parse_date : String → Option ℕ) (locale_lt : String → String → Bool)
    (inventory : RetentionInventory) (policy : RetentionPolicy) (plan : RetentionPreviewPlan)
    → plan_retention parse_date locale_lt inventory policy ≡ ok plan
    → IsBalanced inventory plan
unfolding payload
plan_retention-IsBalanced parse_date locale_lt inventory policy plan h =
    let (at, dated, same) = planned_at parse_date locale_lt inventory policy plan h in
    let p = the_plan parse_date locale_lt inventory policy at in
    let origin : (item : RetentionPlanItem)
        → Memᴰ item p.items
        → Memᴰ item (unsorted_items parse_date locale_lt inventory policy at) =
      λ item m.
        planned_item parse_date locale_lt inventory policy plan h item at same
          (subst (λ (q : RetentionPreviewPlan). Memᴰ item q.items) same m) in
    subst (IsBalanced inventory) same (record {
      executable =
          sum_bytes-le (λ i. i.executable) (λ i. is_candidate i.disposition) p.items
            λ i m e. item-executable parse_date locale_lt inventory policy at i (origin i m) e;
      split = sum_bytes-split p.items;
      unblocked = elim (Bool-cases (is_blocked inventory)) [
        | inr free ↦ inl (blockers_empty inventory free)
        | inl stuck ↦ inr (
            sum_bytes-none (λ i. is_candidate i.disposition) p.items
              λ i m. item-blocked parse_date locale_lt inventory policy at i stuck (origin i m))
      ];
    })
