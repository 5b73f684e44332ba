-- ===== src/Model/Fallback.antt =====
-- src/proactive_mcp/store/_fallback_models.py: claims and outcomes of OS notifications.
use proactive_mcp.Prelude.{ℕ, Bool, true, false, Option, none, some, List, ◌==◌}
use proactive_mcp.Model.Situation.{SituationPriority}

pub data FallbackClaimMode : Type 0 where
  configured_mode bootstrap_mode : FallbackClaimMode

pub data FallbackOutcome : Type 0 where
  claimed sent failed : FallbackOutcome

pub data FallbackFailureCode : Type 0 where
  unsupported_platform tool_missing nonzero_exit timeout unknown : FallbackFailureCode

pub record FallbackClaim : Type 0 where
  pub claimed_at : ℕ
  pub detected_before : ℕ
  pub priorities : List SituationPriority
  pub mode : FallbackClaimMode

-- A row of the table `situation_fallbacks`.
pub record FallbackRecord : Type 0 where
  pub situation_id : ℕ
  pub priority : SituationPriority
  pub outcome : FallbackOutcome
  pub failure_code : Option FallbackFailureCode
  pub claimed_at : ℕ
  pub completed_at : Option ℕ

pub record FallbackSummary : Type 0 where
  pub claimed_count : ℕ
  pub sent_count : ℕ
  pub failed_count : ℕ
  pub failure_codes : List FallbackFailureCode

abbrev pub is_claimed : FallbackOutcome → Bool
is_claimed claimed = true
is_claimed _ = false

abbrev pub is_sent : FallbackOutcome → Bool
is_sent sent = true
is_sent _ = false

abbrev pub is_failed : FallbackOutcome → Bool
is_failed failed = true
is_failed _ = false

-- `failure_code = code`, where NULL equals nothing
abbrev pub code_index : FallbackFailureCode → ℕ
code_index nonzero_exit = 0
code_index timeout = 1
code_index tool_missing = 2
code_index unknown = 3
code_index unsupported_platform = 4

abbrev pub has_code : FallbackFailureCode → Option FallbackFailureCode → Bool
has_code code none = false
has_code code (some c) = code_index c == code_index code
