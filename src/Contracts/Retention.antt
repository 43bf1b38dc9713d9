-- ===== src/Contracts/Retention.antt =====
-- packages/contracts/src/retention.ts: the inventory of what the program stores, the policy of its
-- retention, and the plan that says what may be removed. Sizes and ages are whole numbers; the
-- fields of a fixed value (schemaVersion, history) are left out.
use dsh_session_maintenance.Prelude.{ℕ, String, Bool, List, Option}

pub data SourceKind : Type 0 where
  active_database backup_database candidate_database unknown : SourceKind

pub record RetentionSource : Type 0 where
  pub id : String
  pub root_id : String
  pub relative_path : String
  pub object_root_id : String
  pub kind : SourceKind
  pub retained : Bool

pub data ResourceKind : Type 0 where
  run cache backup candidate : ResourceKind

pub data ResourceState : Type 0 where
  registered quarantined purged : ResourceState

pub record RetentionResource : Type 0 where
  pub id : String
  pub root_id : String
  pub relative_path : String
  pub kind : ResourceKind
  pub owner_id : String
  pub group : String
  pub pinned : Bool
  pub recovery_required : Bool
  pub verified_at : Option String
  pub verified_fingerprint : Option String
  pub last_used_at : Option String
  pub state : ResourceState
  pub sqlite_bundle : List String

pub data BlockerCode : Type 0 where
  unregistered unreadable unknown_format unsafe_path missing_reference inconsistent_evidence
        coordination_unproven :
      BlockerCode

pub record RetentionBlocker : Type 0 where
  pub code : BlockerCode
  pub source : String
  pub detail : String

pub data TargetKind : Type 0 where
  version_metadata version_body content_object run cache backup : TargetKind

pub record RetentionReference : Type 0 where
  pub source : String
  pub owner : String
  pub target_kind : TargetKind
  pub target_id : String
  pub object_root_id : Option String
  pub reason : String

pub record RetentionVersion : Type 0 where
  pub source : String
  pub id : String
  pub object_id : String
  pub object_root_id : String
  pub parents : List String
  pub first_persisted_at : Option String

pub record RetentionFile : Type 0 where
  pub relative_path : String
  pub identity : String
  pub bytes : ℕ
  pub mtime_ms : ℕ

pub record RetentionObject : Type 0 where
  pub relative_path : String
  pub identity : String
  pub bytes : ℕ
  pub mtime_ms : ℕ
  pub root_id : String
  pub object_id : String

pub record RetentionResourceInventory : Type 0 where
  pub resource : RetentionResource
  pub fingerprint : String
  pub bytes : ℕ
  pub files : List RetentionFile
  pub reasons : List String
  pub completed_at : Option String
  pub recovery_completed : Bool
  pub valid : Bool

pub record SourceFiles : Type 0 where
  pub source_id : String
  pub root_id : String
  pub files : List RetentionFile

-- The roots, which the planner does not read, are left out.
pub record RetentionInventory : Type 0 where
  pub as_of : String
  pub sources : List RetentionSource
  pub source_revisions : List (String × String)
  pub versions : List RetentionVersion
  pub references : List RetentionReference
  pub objects : List RetentionObject
  pub resources : List RetentionResourceInventory
  pub source_files : List SourceFiles
  pub blockers : List RetentionBlocker
  pub registry_fingerprint : String
  pub reference_fingerprint : String
  pub object_fingerprint : String
  pub resource_fingerprint : String

pub record RetentionPolicy : Type 0 where
  pub finished_run_hours : ℕ
  pub recovered_run_hours : ℕ
  pub automatic_backups_to_keep : ℕ
  pub cache_target_bytes : ℕ
  pub quarantine_hours : ℕ
  pub orphan_grace_hours : ℕ

pub data ItemKind : Type 0 where
  content_object : ItemKind
  database : ItemKind
  resource : ResourceKind → ItemKind

pub data Disposition : Type 0 where
  protected candidate blocked : Disposition

pub record RetentionPlanItem : Type 0 where
  pub id : String
  pub kind : ItemKind
  pub root_id : String
  pub relative_path : String
  pub bytes : ℕ
  pub disposition : Disposition
  pub reasons : List String
  pub references : List RetentionReference
  pub executable : Bool

-- The plan without its ID.
pub record RetentionPreviewPlan : Type 0 where
  pub as_of : String
  pub policy : RetentionPolicy
  pub source_revisions : List (String × String)
  pub registry_fingerprint : String
  pub reference_fingerprint : String
  pub object_fingerprint : String
  pub resource_fingerprint : String
  pub blockers : List RetentionBlocker
  pub items : List RetentionPlanItem
  pub protected_bytes : ℕ
  pub candidate_bytes : ℕ
  pub executable_bytes : ℕ
  pub cache_bytes_above_target : ℕ
