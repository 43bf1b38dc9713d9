-- ===== src/Transaction/Store/Backups.antt =====
-- packages/session-store/src/repository.ts: backup manifests, and which of them are protected.
use dsh_session_maintenance.Prelude.{
  String, Bool, ◌&&◌, not, List, [], ◌∷◌, ◌++◌, map, Option, none, some, ◌==◌, string_eq, nat_eq,
  option_eq, list_eq, if◌then◌else◌, find, keep, ◌||◌, includes, lift, Action, pure, demand,
  maintenance, schema_error, backup_corrupt,
}
use dsh_session_maintenance.Contracts.Transaction.{TransactionRecord}
use dsh_session_maintenance.Contracts.Write.{BackupManifest}
use dsh_session_maintenance.Contracts.Schemas.{backup_manifest_schema}
use dsh_session_maintenance.Domain.Text.{codes, units_lt, sort}
use dsh_session_maintenance.Domain.CanonicalJson.{canonical_json}
use dsh_session_maintenance.Transaction.Rows.{backup_manifest_json}
use dsh_session_maintenance.Transaction.Store.{Store, parse_row, is_resolved}

pub data ProtectionReason : Type 0 where
  checkpoint unresolved_transaction : ProtectionReason

pub record BackupProtection : Type 0 where
  pub transaction_id : String
  pub reasons : List ProtectionReason

-- `ORDER BY t.id`, byte by byte.
abbrev pub id_lt : TransactionRecord → TransactionRecord → Bool
id_lt a b = units_lt (codes a.id) (codes b.id)

unfoldable pub is_protected : Store → TransactionRecord → Bool
unfolding is_resolved
is_protected store r = includes store.checkpointed r.id || not (is_resolved r.status)

unfoldable pub protection : Store → TransactionRecord → BackupProtection
unfolding is_resolved
protection store r = record {
  transaction_id = r.id;
  reasons =
      (if includes store.checkpointed r.id then checkpoint ∷ [] else [])
      ++ (if is_resolved r.status then [] else unresolved_transaction ∷ []);
}

unfoldable pub list_backup_protections : Action Store (List BackupProtection)
unfolding is_protected protection sort
list_backup_protections store =
    pure (map (protection store) (sort id_lt (keep (is_protected store) store.transactions))) store

-- `SELECT ... FROM backup_manifests WHERE transaction_id = ?`
abbrev pub find_backup : String → Store → Option BackupManifest
find_backup id store = find (λ m. m.transaction_id == id) store.backups

module _ (datetime : String → Bool) where
  unfoldable pub add_backup : BackupManifest → Option BackupManifest → Action Store Unit
  add_backup manifest none store =
      pure tt (record store { backups = store.backups ++ manifest ∷ [] })
  add_backup manifest (some existing) store =
      demand
        (existing.hash == manifest.hash
          && canonical_json (backup_manifest_json existing)
            == canonical_json (backup_manifest_json manifest))
        (maintenance backup_corrupt) (pure tt) store

  unfoldable pub save_backup_manifest : BackupManifest → Action Store Unit
  unfolding add_backup
  save_backup_manifest manifest =
      demand (backup_manifest_schema datetime manifest) schema_error
        λ store. add_backup manifest (find_backup manifest.transaction_id store) store

  unfoldable pub get_backup_manifest : String → Action Store (Option BackupManifest)
  unfolding parse_row
  get_backup_manifest id store =
      lift
        (parse_row (backup_manifest_schema datetime) (maintenance backup_corrupt)
          (find_backup id store))
        store
