-- ===== src/Contracts/Errors.antt =====
-- packages/contracts/src/errors.ts: the texts of the error codes.
use dsh_session_maintenance.Prelude.{String, ErrorCode}

unfoldable pub error_code_text : ErrorCode → String
error_code_text ErrorCode.unstable_read = "UNSTABLE_READ"
error_code_text ErrorCode.plan_stale = "PLAN_STALE"
error_code_text ErrorCode.adapter_incompatible = "ADAPTER_INCOMPATIBLE"
error_code_text ErrorCode.capability_not_available = "CAPABILITY_NOT_AVAILABLE"
error_code_text ErrorCode.live_home_forbidden = "LIVE_HOME_FORBIDDEN"
error_code_text ErrorCode.recovery_required = "RECOVERY_REQUIRED"
error_code_text ErrorCode.identity_conflict = "IDENTITY_CONFLICT"
error_code_text ErrorCode.object_corrupt = "OBJECT_CORRUPT"
error_code_text ErrorCode.historical_metadata_unavailable = "HISTORICAL_METADATA_UNAVAILABLE"
error_code_text ErrorCode.version_id_collision = "VERSION_ID_COLLISION"
error_code_text ErrorCode.loopback_only = "LOOPBACK_ONLY"
error_code_text ErrorCode.dsh_busy = "DSH_BUSY"
error_code_text ErrorCode.codex_busy = "CODEX_BUSY"
error_code_text ErrorCode.codex_version_unsupported = "CODEX_VERSION_UNSUPPORTED"
error_code_text ErrorCode.codex_schema_drift = "CODEX_SCHEMA_DRIFT"
error_code_text ErrorCode.codex_disk_space_low = "CODEX_DISK_SPACE_LOW"
error_code_text ErrorCode.mirror_not_enabled = "MIRROR_NOT_ENABLED"
error_code_text ErrorCode.mirror_conflict = "MIRROR_CONFLICT"
error_code_text ErrorCode.write_capability_unavailable = "WRITE_CAPABILITY_UNAVAILABLE"
error_code_text ErrorCode.transaction_in_progress = "TRANSACTION_IN_PROGRESS"
error_code_text ErrorCode.transaction_not_found = "TRANSACTION_NOT_FOUND"
error_code_text ErrorCode.transaction_not_restorable = "TRANSACTION_NOT_RESTORABLE"
error_code_text ErrorCode.backup_incomplete = "BACKUP_INCOMPLETE"
error_code_text ErrorCode.backup_corrupt = "BACKUP_CORRUPT"
error_code_text ErrorCode.verification_failed = "VERIFICATION_FAILED"
error_code_text ErrorCode.restore_failed = "RESTORE_FAILED"
error_code_text ErrorCode.confirmation_required = "CONFIRMATION_REQUIRED"
error_code_text ErrorCode.confirmation_expired = "CONFIRMATION_EXPIRED"
error_code_text ErrorCode.confirmation_scope_mismatch = "CONFIRMATION_SCOPE_MISMATCH"
error_code_text ErrorCode.ui_contract_incompatible = "UI_CONTRACT_INCOMPATIBLE"
error_code_text ErrorCode.content_too_large = "CONTENT_TOO_LARGE"
error_code_text ErrorCode.handoff_budget_exceeded = "HANDOFF_BUDGET_EXCEEDED"
error_code_text ErrorCode.handoff_request_invalid = "HANDOFF_REQUEST_INVALID"
error_code_text ErrorCode.continuation_not_found = "CONTINUATION_NOT_FOUND"
error_code_text ErrorCode.continuation_create_failed = "CONTINUATION_CREATE_FAILED"
error_code_text ErrorCode.continuation_verify_failed = "CONTINUATION_VERIFY_FAILED"
error_code_text ErrorCode.continuation_recovery_required = "CONTINUATION_RECOVERY_REQUIRED"
