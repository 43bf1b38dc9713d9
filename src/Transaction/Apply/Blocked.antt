-- ===== src/Transaction/Apply/Blocked.antt =====
-- An unresolved transaction keeps every other write away from its root.
use dsh_session_maintenance.Prelude.{
  ℕ, ◌≡◌, refl, ◌∙◌, inl, inr, String, Bool, true, false, not, ◌&&◌, ◌||◌, List, [], ◌∷◌, map, none,
  some, Option-cases, ◌==◌, string_eq, any, find, keep, arith, eq_iff, thrown, maintenance,
  recovery_required,
}
use dsh_session_maintenance.Contracts.Plan.{SyncPlan, AdapterContractRef}
use dsh_session_maintenance.Contracts.Transaction.{TransactionRecord}
use dsh_session_maintenance.Contracts.Schemas.{transaction_record_schema}
use dsh_session_maintenance.Contracts.Write.{RegisteredInstance, WriteAdapter}
use dsh_session_maintenance.Domain.Text.{Text, insert_sorted, sort}
use dsh_session_maintenance.Transaction.Store.{
  Store, has_id, has_plan, is_resolved, parse_row, get_transaction, find_transaction_by_plan,
}
use dsh_session_maintenance.Transaction.Store.Backups.{
  BackupProtection, id_lt, is_protected, protection, list_backup_protections,
}
use dsh_session_maintenance.Transaction.World.{JournalFile, World}
use dsh_session_maintenance.Transaction.Apply.{
  is_unresolved, is_on_root, refuse_row, refuse_unresolved, apply_unless, apply_under_lock,
}

-- The row has the ID and is not resolved.
abbrev is_open : String → TransactionRecord → Bool
is_open id r = r.id == id && not (is_resolved r.status)

abbrev protects : String → BackupProtection → Bool
protects id p = p.transaction_id == id && any is_unresolved p.reasons

any-find :
    (id : String) (rs : List TransactionRecord) (r : TransactionRecord)
    → find (has_id id) rs ≡ some r
    → is_resolved r.status ≡ false
    → any (is_open id) rs ≡ true
any-find id [] r e u = ground arith
any-find id (x ∷ rs) r e u = ground (arith, any-find id rs r)

any-keep :
    (id : String) (store : Store) (rs : List TransactionRecord)
    → any (is_open id) rs ≡ true
    → any (is_open id) (keep (is_protected store) rs) ≡ true
unfolding is_protected
any-keep id store [] h = h
any-keep id store (x ∷ rs) h = ground (arith, any-keep id store rs)

any-insert :
    (id : String) (lt : TransactionRecord → TransactionRecord → Bool) (x : TransactionRecord)
    (rs : List TransactionRecord)
    → any (is_open id) (insert_sorted lt x rs) ≡ (is_open id x || any (is_open id) rs)
unfolding insert_sorted
any-insert id lt x [] = refl
any-insert id lt x (y ∷ rs) = ground (arith, any-insert id lt x rs)

any-sort :
    (id : String) (lt : TransactionRecord → TransactionRecord → Bool) (rs : List TransactionRecord)
    → any (is_open id) (sort lt rs) ≡ any (is_open id) rs
unfolding sort
any-sort id lt [] = refl
any-sort id lt (x ∷ rs) = ground (arith, any-insert id lt x (sort lt rs), any-sort id lt rs)

any-protection :
    (id : String) (store : Store) (rs : List TransactionRecord)
    → any (is_open id) rs ≡ true
    → any (protects id) (map (protection store) rs) ≡ true
unfolding protection
any-protection id store [] h = h
any-protection id store (x ∷ rs) h = ground (arith, any-protection id store rs)

-- An unresolved transaction is among the protections of the backups.
any-list :
    (store : Store) (r : TransactionRecord)
    → find (has_id r.id) store.transactions ≡ some r
    → is_resolved r.status ≡ false
    → any
        (protects r.id)
        (map (protection store) (sort id_lt (keep (is_protected store) store.transactions)))
      ≡ true
any-list store r found unresolved =
    let kept =
      any-keep r.id store store.transactions
        (any-find r.id store.transactions r found unresolved) in
    let rows = keep (is_protected store) store.transactions in
    any-protection r.id store (sort id_lt rows) (any-sort r.id id_lt rows ∙ kept)

module _ {P : Type 0} (sha256 : Text → String) (datetime : String → Bool)
    (j : JournalFile sha256 datetime) (platform_instance : RegisteredInstance)
    (root_identity : String) (w : World j.File P) (r : TransactionRecord)
    (rows_valid : (id : String) (row : TransactionRecord)
      → find (has_id id) w.store.transactions ≡ some row
      → transaction_record_schema datetime row ≡ true)
    (found : find (has_id r.id) w.store.transactions ≡ some r)
    (unresolved : is_resolved r.status ≡ false)
    (on_root : is_on_root platform_instance root_identity r ≡ true) where
  refuse-protects :
      (ps : List BackupProtection)
      → any (protects r.id) ps ≡ true
      → refuse_unresolved sha256 datetime j platform_instance root_identity ps w
        ≡ (thrown (maintenance recovery_required), w)
  unfolding refuse_unresolved get_transaction parse_row refuse_row
  refuse-protects [] h = ground arith
  refuse-protects (p ∷ ps) h =
      elim (Option-cases (find (has_id p.transaction_id) w.store.transactions)) [
        | inl e ↦ ground (arith, e, refuse-protects ps, eq_iff p.transaction_id r.id)
        | inr (q, e) ↦ ground (
          arith,
          e,
          rows_valid p.transaction_id q e,
          refuse-protects ps,
          eq_iff p.transaction_id r.id,
        )
      ]

  -- While a transaction on a root is not resolved, a plan that was not applied before is not
  -- applied on that root: the write is refused under the lock, before anything is changed or the
  -- adapter is called.
  pub apply_under_lock-blocked :
      (now id_factory : ℕ → String) (plan : SyncPlan) (adapter : WriteAdapter P)
      (contract : AdapterContractRef)
      → find (has_plan plan.id plan.hash) w.store.transactions ≡ none
      → apply_under_lock sha256 datetime j now id_factory plan platform_instance adapter contract
          root_identity w
        ≡ (thrown (maintenance recovery_required), w)
  unfolding apply_under_lock apply_unless find_transaction_by_plan parse_row list_backup_protections
  apply_under_lock-blocked now id_factory plan adapter contract fresh =
      let open_row = any-list w.store r found unresolved in
      ground (arith, fresh, refuse-protects _ open_row)
