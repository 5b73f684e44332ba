-- ===== src/Store.antt =====
-- SituationStore of src/proactive_mcp/store/situations.py, the source half of SyncStore of sync.py
-- and FallbackStore of fallbacks.py as one machine: every public call that writes, in any order.
pub mod Invariant
use proactive_mcp.Prelude.{ℕ, String, List, [], ◌∷◌}
use proactive_mcp.Model.Situation.{SituationType, SituationEvidence, Detection, DeliveryClaim}
use proactive_mcp.Model.Source.{SourceName, SourceGeneration, SourceGenerationStatus}
use proactive_mcp.Db.{Db, Session}
use proactive_mcp.Situations.Transitions.{
  Datetime, expire_lapsed, wake_snoozed, mark_delivered, acknowledge_situation, snooze_situation,
  mute_situation, mute_situation_type,
}
use proactive_mcp.Sources.Generations.{reserve}
use proactive_mcp.Sources.Consistency.{
  SourceTruth, Readings, upsert_detections, apply_source_generation, apply_local_detections,
  resolve_absent,
}
use proactive_mcp.Delivery.Claim.{claim_for_delivery}
use proactive_mcp.Delivery.Reserve.{reserve_for_delivery}
use proactive_mcp.Delivery.Confirm.{confirm_delivery}
use proactive_mcp.Model.Fallback.{FallbackClaim, FallbackFailureCode}
use proactive_mcp.Fallbacks.{claim_next, record_sent, record_failed}

-- A public method with its arguments; the first number is the reading of the clock.
pub data Call : Type 0 where
  upserts : ℕ → List Detection → Call
  applies_source : Readings → SourceTruth → Call
  applies_local : ℕ → List Detection → Call
  resolves_absent : ℕ → SituationType → List String → Call
  expires_lapsed : ℕ → Call
  wakes_snoozed : ℕ → Call
  marks_delivered : ℕ → List ℕ → Call
  claims : DeliveryClaim → Call
  reserves : DeliveryClaim → String → ℕ → Call
  confirms : String → ℕ → Call
  acknowledges : ℕ → ℕ → Call
  snoozes : ℕ → ℕ → Datetime → Call
  mutes : ℕ → ℕ → Call
  mutes_type : ℕ → ℕ → Call
  reserves_generation : ℕ → SourceName → Call
  claims_fallback : FallbackClaim → Call
  sends_fallback : ℕ → ℕ → Call
  fails_fallback : ℕ → ℕ → FallbackFailureCode → Call

module _ (evidence_bytes : SituationEvidence → ℕ) (receipt_digest : String → String) where
  -- The database after a call, whether it returned or raised.
  abbrev pub after : Call → Db → Db
  after (upserts now ds) db = (upsert_detections evidence_bytes now ds db).1
  after (applies_source at t) db = (apply_source_generation evidence_bytes at t db).1
  after (applies_local now ds) db = (apply_local_detections evidence_bytes now ds db).1
  after (resolves_absent now kind present) db = (resolve_absent now kind present db).1
  after (expires_lapsed now) db = (expire_lapsed now db).1
  after (wakes_snoozed now) db = (wake_snoozed now db).1
  after (marks_delivered now ids) db = (mark_delivered now ids db).1
  after (claims claim) db = (claim_for_delivery claim db).1
  after (reserves claim claim_token expires_at) db =
      (reserve_for_delivery receipt_digest claim claim_token expires_at db).1
  after (confirms claim_token now) db = (confirm_delivery receipt_digest claim_token now db).1
  after (acknowledges now i) db = (acknowledge_situation now i db).1
  after (snoozes now i until) db = (snooze_situation now i until db).1
  after (mutes now i) db = (mute_situation now i db).1
  after (mutes_type now i) db = (mute_situation_type now i db).1
  after (reserves_generation now source) db = (reserve now source db).1
  after (claims_fallback claim) db = (claim_next claim db).1
  after (sends_fallback now i) db = (record_sent now i db).1
  after (fails_fallback now i code) db = (record_failed now i code db).1

  unfoldable pub after_all : List Call → Db → Db
  after_all [] db = db
  after_all (c ∷ calls) db = after_all calls (after c db)
