-- ===== src/Examples/Notices.antt =====
-- The fallback's theorems at the sample: one notification fails, the other is sent.
use proactive_mcp.Prelude.{
  ◌≡◌, refl, ℕ, ◌+◌, true, false, Option, none, some, List, [], ◌∷◌, All, arith, map, ◌==◌,
  if◌then◌else◌,
}
use proactive_mcp.Model.Situation.{Situation, high, routine}
use proactive_mcp.Model.Fallback.{
  FallbackClaim, configured_mode, claimed, sent, failed, tool_missing,
}
use proactive_mcp.Db.{Db, returned, raised, fallback_not_claimed}
use proactive_mcp.Fallbacks.{claim_next, complete, is_eligible}
use proactive_mcp.Fallbacks.Claim.{Claimed, claim_next_outcome}
use proactive_mcp.Fallbacks.Record.{complete_once}
use proactive_mcp.Fallbacks.Dispatch.{
  FallbackSettings, NotificationPayload, NotificationErrorCode, unavailable, dispatch, claim_at,
}
use proactive_mcp.Fallbacks.Dispatch.Loop.{dispatch_of}
use proactive_mcp.Fallbacks.Dispatch.Outcome.{after_dispatch, dispatch_outcome}
use proactive_mcp.Examples.Data.{sample_db, sample-WellFormed}

abbrev fallback_settings : FallbackSettings
fallback_settings = record { priorities = high ∷ routine ∷ []; wait = 100; enabled = true }

abbrev fallback_claim : FallbackClaim
fallback_claim = record {
  claimed_at = 1000;
  detected_before = 900;
  priorities = high ∷ [];
  mode = configured_mode;
}

-- Stands for the desktop notification: it is unavailable for the first row.
abbrev attempt : ℕ → NotificationPayload → Option NotificationErrorCode
attempt i payload = if i == 1 then some unavailable else none

abbrev completed_at : ℕ → ℕ
completed_at i = 1000 + i

claim_next_outcome_example : Claimed fallback_claim sample_db (claim_next fallback_claim sample_db)
claim_next_outcome_example = claim_next_outcome fallback_claim sample_db sample-WellFormed

-- The first row, claimed
abbrev claimed_db : Db
claimed_db = record sample_db {
  fallbacks =
      (record {
        situation_id = 1;
        priority = high;
        outcome = claimed;
        failure_code = none;
        claimed_at = 1000;
        completed_at = none;
      })
      ∷ [];
}

complete_once_example :
    ((complete 1 sent none 1100 claimed_db).0 ≡ returned tt)
    × (complete 1 failed (some tool_missing) 1200 (complete 1 sent none 1100 claimed_db).1
        ≡ (raised (fallback_not_claimed 1), (complete 1 sent none 1100 claimed_db).1))
complete_once_example =
    complete_once 1 1100 1200 sent failed none (some tool_missing) claimed_db refl refl

dispatch_outcome_example :
    (ss : List Situation) × (dispatch attempt completed_at fallback_settings 1000 4 sample_db ≡ (
      returned (some (map (dispatch_of attempt completed_at) ss)),
      after_dispatch attempt completed_at fallback_settings 1000 sample_db ss,
    ))
    × All
        (λ t.
          is_eligible
            (claim_at fallback_settings 1000 configured_mode)
            (after_dispatch attempt completed_at fallback_settings 1000 sample_db ss)
            t
          ≡ false)
        sample_db.situations
dispatch_outcome_example =
    dispatch_outcome attempt completed_at fallback_settings 1000 4 sample_db sample-WellFormed refl
      refl (omega arith) (omega arith)
