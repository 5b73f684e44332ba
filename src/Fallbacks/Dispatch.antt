-- ===== src/Fallbacks/Dispatch.antt =====
-- FallbackDispatcher of src/proactive_mcp/delivery/fallback.py, with the payload of payload.py.
-- A notification attempt runs a program of the host, so its result is a parameter: the error code
-- of the attempt for a situation, or none.
pub mod Loop
pub mod Outcome
use proactive_mcp.Prelude.{
  ℕ, zero, suc, ◌+◌, ◌-◌, String, Bool, true, false, not, ◌||◌, Option, none, some, List, [], ◌∷◌,
  ltb, if◌then◌else◌, length,
}
use proactive_mcp.Model.Situation.{
  Situation, SituationType, SituationPriority, reply_deadline, calendar_conflict, personal_occasion,
}
use proactive_mcp.Model.Fallback
use proactive_mcp.Model.Fallback.{
  FallbackClaim, FallbackClaimMode, FallbackFailureCode, configured_mode, bootstrap_mode,
  tool_missing, nonzero_exit,
}
use proactive_mcp.Db.{Db, Session, overflow_error, pure, raise, query, ◌>>=◌, ◌>>◌}
use proactive_mcp.Fallbacks.{claim_next, record_sent, record_failed}

pub record FallbackSettings : Type 0 where
  pub priorities : List SituationPriority
  pub wait : ℕ
  pub enabled : Bool

pub data NotificationErrorCode : Type 0 where
  timeout unavailable failed unsupported_platform : NotificationErrorCode

pub record NotificationPayload : Type 0 where
  pub situation_type : SituationType
  pub title : String

pub data FallbackDispatch : Type 0 where
  fallback_sent : ℕ → FallbackDispatch
  fallback_failed : ℕ → FallbackFailureCode → FallbackDispatch

abbrev pub payload_title : SituationType → String
payload_title reply_deadline = "Reply needed"
payload_title calendar_conflict = "Calendar conflict"
payload_title personal_occasion = "Upcoming personal occasion"

unfoldable pub notification_payload : Situation → NotificationPayload
notification_payload s = record {
  situation_type = s.situation_type;
  title = payload_title s.situation_type;
}

unfoldable pub failure_code : NotificationErrorCode → FallbackFailureCode
failure_code timeout = Fallback.timeout
failure_code unavailable = tool_missing
failure_code failed = nonzero_exit
failure_code unsupported_platform = Fallback.unsupported_platform

-- _claim and _bootstrap_claim; `-` is exact, because `dispatch` refuses a wait beyond `now`.
unfoldable pub claim_at : FallbackSettings → ℕ → FallbackClaimMode → FallbackClaim
claim_at settings now mode = record {
  claimed_at = now;
  detected_before = now - settings.wait;
  priorities = settings.priorities;
  mode = mode;
}

abbrev pub no_priorities : List SituationPriority → Bool
no_priorities [] = true
no_priorities (p ∷ ps) = false

module _ (attempt : ℕ → NotificationPayload → Option NotificationErrorCode)
    (completed_at : ℕ → ℕ) where
  unfoldable pub record_attempt :
      Situation → Option NotificationErrorCode → Session FallbackDispatch
  record_attempt s none = do record_sent (completed_at s.id) s.id; pure (fallback_sent s.id)
  record_attempt s (some error) = do
    record_failed (completed_at s.id) s.id (failure_code error)
    pure (fallback_failed s.id (failure_code error))

  -- _notify
  unfoldable pub notify : Situation → Session FallbackDispatch
  notify s = record_attempt s (attempt s.id (notification_payload s))

  abbrev pub with_dispatch :
      FallbackDispatch → Option (List FallbackDispatch) → Option (List FallbackDispatch)
  with_dispatch d none = none
  with_dispatch d (some ds) = some (d ∷ ds)

  -- A claimed row is notified before the loop goes on.
  unfoldable pub notify_then :
      Session (Option (List FallbackDispatch))
      → Option Situation
      → Session (Option (List FallbackDispatch))
  notify_then rest none = pure (some [])
  notify_then rest (some s) = do d ← notify s; ds ← rest; pure (with_dispatch d ds)

  -- The `while True`, on fuel; `none` says that it ran out.
  unfoldable pub dispatch_all : ℕ → FallbackClaim → Session (Option (List FallbackDispatch))
  dispatch_all zero claim = pure none
  dispatch_all (suc fuel) claim = do
    claimed ← claim_next claim
    notify_then (dispatch_all fuel claim) claimed

  -- The bootstrap claim, and then the loop in either case.
  unfoldable pub bootstrap_then :
      Session (Option (List FallbackDispatch))
      → Option Situation
      → Session (Option (List FallbackDispatch))
  bootstrap_then rest none = rest
  bootstrap_then rest (some s) = notify_then rest (some s)

  unfoldable pub dispatch_claims :
      FallbackSettings → ℕ → ℕ → Session (Option (List FallbackDispatch))
  dispatch_claims settings now fuel = do
    bootstrap ← claim_next (claim_at settings now bootstrap_mode)
    bootstrap_then (dispatch_all fuel (claim_at settings now configured_mode)) bootstrap

  unfoldable pub dispatch : FallbackSettings → ℕ → ℕ → Session (Option (List FallbackDispatch))
  dispatch settings now fuel =
      if not settings.enabled || no_priorities settings.priorities
      then pure (some [])
      else if ltb now settings.wait
      then raise overflow_error
      else dispatch_claims settings now fuel
