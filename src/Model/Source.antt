-- ===== src/Model/Source.antt =====
-- Source generations (src/proactive_mcp/store/_source_generation.py) and synchronization state
-- (_sync_models.py).
use proactive_mcp.Prelude.{ℕ, String, Option, none, List}

pub data SourceName : Type 0 where
  gmail calendar : SourceName

pub data SourceGenerationStatus : Type 0 where
  complete degraded : SourceGenerationStatus

pub record SourceGeneration : Type 0 where
  pub source : SourceName
  pub number : ℕ

pub record SourceGenerationState : Type 0 where
  pub issued : ℕ
  pub applied : ℕ
  pub status : Option SourceGenerationStatus
  pub issued_at : Option ℕ
  pub applied_at : Option ℕ

pub data SourceCredentialState : Type 0 where
  unknown available missing unavailable : SourceCredentialState

pub data SourceAuthState : Type 0 where
  not_configured configured needs_reauth : SourceAuthState

-- The failure codes; `invalid_grant` is the one more of SourceErrorCode.
pub data SourceErrorCode : Type 0 where
  invalid_grant scope_mismatch http_4xx http_5xx network : SourceErrorCode
  resource_limit timeout degraded unknown : SourceErrorCode

pub record SourceSyncState : Type 0 where
  pub auth_state : SourceAuthState
  pub last_success_at : Option ℕ
  pub last_attempt_at : Option ℕ
  pub last_error_code : Option SourceErrorCode
  pub sync_cursor : Option String
  pub updated_at : Option ℕ

pub data SourceReadOutcome : Type 0 where
  healthy partial stale auth_error transport_error : SourceReadOutcome

-- The 24 reasons are a closed set of words, kept as text.
pub record SourceReadReasonCount : Type 0 where
  pub reason : String
  pub count : ℕ

pub record SourceReadDiagnostics : Type 0 where
  pub outcome : SourceReadOutcome
  pub request_count : ℕ
  pub page_count : ℕ
  pub projected_count : ℕ
  pub excluded_count : ℕ
  pub byte_budget : ℕ
  pub reason_counts : List SourceReadReasonCount

unfoldable pub unconfigured_state : SourceSyncState
unconfigured_state = record {
  auth_state = not_configured;
  last_success_at = none;
  last_attempt_at = none;
  last_error_code = none;
  sync_cursor = none;
  updated_at = none;
}
