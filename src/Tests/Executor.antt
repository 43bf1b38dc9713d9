-- ===== src/Tests/Executor.antt =====
-- The theorems on the executor and its store at concrete inputs: a plan that is applied on a
-- platform that counts the writes, with the journal in memory.
use dsh_session_maintenance.Prelude.{ℕ, suc, String, Bool, true, [], ◌∷◌, none, string_eq, ok}
use dsh_session_maintenance.Contracts.Json.{obj, end}
use dsh_session_maintenance.Contracts.Plan.{
  codex, dsh, BindingSnapshot, append_events, safe, SyncPlan, AdapterContractRef,
}
use dsh_session_maintenance.Contracts.Write.{
  compatible, RegisteredInstance, PreparedWrite, BackupManifest, WriteReceipt, WriteAdapter,
}
use dsh_session_maintenance.Domain.Text.{Text}
use dsh_session_maintenance.Transaction.Journal.File.{list_journal}
use dsh_session_maintenance.Transaction.Store.{Store}
use dsh_session_maintenance.Transaction.World.{JournalFile, World}

abbrev pub digest : Text → String
digest t = "00"

abbrev pub any_time : String → Bool
any_time s = true

abbrev pub now : ℕ → String
now n = "2026-01-01T00:00:00Z"

abbrev pub id_factory : ℕ → String
id_factory n = "tx_1"

abbrev pub contract : AdapterContractRef
contract = record { adapter = "dsh"; platform_version = "1"; schema_fingerprint = "s" }

abbrev pub home : RegisteredInstance
home = record {
  id = "d1";
  platform = dsh;
  display_name = "DSH";
  root = "/dsh";
  platform_version = "1";
}

abbrev snapshot : BindingSnapshot
snapshot = record {
  binding_id = "b1";
  key = record { platform = codex; instance_id = "c1"; session_id = "s1" };
  version_id = "v1";
  fingerprints = [];
}

abbrev pub plan : SyncPlan
plan = record {
  content = record {
    created_at = "2026-01-01T00:00:00Z";
    logical_session_id = "l1";
    base_version_id = none;
    source = snapshot;
    target = none;
    adapter_contracts = contract ∷ [];
    operations = append_events 0 ("e1" ∷ []) ∷ [];
    risk = safe;
    confirmations = [];
    preconditions = [];
  };
  id = "plan_1";
  hash = "h1";
}

abbrev write : PreparedWrite
write = record {
  id = "w1";
  plan_id = "plan_1";
  plan_hash = "h1";
  platform = dsh;
  instance_id = "d1";
  root_identity = "/dsh";
  target_key = none;
  expected = record { fingerprints = [] };
  payload = obj end;
}

abbrev pub manifest : BackupManifest
manifest = record {
  transaction_id = "tx_1";
  entries = [];
  created_at = "2026-01-01T00:00:00Z";
  hash = "b";
}

abbrev receipt : WriteReceipt
receipt = record {
  transaction_id = "tx_1";
  platform = dsh;
  instance_id = "d1";
  target_key = none;
  fingerprints = [];
  details = obj end;
}

abbrev pub counter : WriteAdapter ℕ
counter = record {
  probe_write = λ i p.
      (ok (record { status = compatible; contract = contract; capabilities = []; issues = [] }), p);
  prepare = λ x i t p. (ok write, p);
  backup = λ x t p. (ok manifest, p);
  commit = λ x t p. (ok receipt, suc p);
  verify = λ x e p. (ok (record { is_ok = true; fingerprints = []; issues = [] }), p);
  restore = λ m t p. (
    ok (record { transaction_id = "tx_1"; is_restored = true; fingerprints = []; issues = [] }),
    p,
  );
}

abbrev pub file : JournalFile digest any_time
file = list_journal digest any_time

abbrev pub store : Store
store = record {
  plans = plan ∷ [];
  transactions = [];
  steps = [];
  backups = [];
  checkpointed = [];
  confirmations = [];
}

abbrev pub world : World file.File ℕ
world = record {
  store = store;
  journals = λ id. [];
  plan_files = [];
  locks = [];
  platform = 0;
  ticks = 0;
  ids = 0;
}
