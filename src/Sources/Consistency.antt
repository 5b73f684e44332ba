-- ===== src/Sources/Consistency.antt =====
-- src/proactive_mcp/store/_situation_consistency.py: one transaction that accepts a generation,
-- stores its detections, resolves what it says is gone, and records the attempt. The clock is read
-- three times in it: for the rows, for the generation and for the synchronization state.
pub mod Machine
pub mod Atomic
use proactive_mcp.Prelude.{
  ℕ, String, Bool, true, false, Option, none, some, List, [], ◌∷◌, map, if◌then◌else◌,
}
use proactive_mcp.Model.Situation.{
  SituationType, SituationSource, SituationEvidence, Detection, DetectionUpsertSummary,
  DetectionApplySummary, reply_deadline, calendar_conflict, personal_occasion,
}
use proactive_mcp.Model.Situation.{gmail as gmail_rows, calendar as calendar_rows, memory, local}
use proactive_mcp.Model.Source.{
  SourceName, gmail, calendar, SourceGeneration, SourceGenerationStatus, complete, degraded,
  SourceErrorCode, SourceReadDiagnostics,
}
use proactive_mcp.Model.Source
use proactive_mcp.Db.{Db, Session, pure, execute, transaction, ◌>>=◌, ◌>>◌}
use proactive_mcp.Situations.Upsert.{upsert_batch, no_outcomes, resolve_all, resolve_by_source_ids}
use proactive_mcp.Sources.SyncState.{
  accept_source_generation, record_success, record_failure, record_error,
}

-- _SOURCE_TYPES
unfoldable pub source_type : SourceName → SituationType
source_type gmail = reply_deadline
source_type calendar = calendar_conflict

-- The column `source_name` of a generation's rows.
unfoldable pub row_source : SourceName → SituationSource
row_source gmail = gmail_rows
row_source calendar = calendar_rows

-- The arguments of apply_source_generation.
pub record SourceTruth : Type 0 where
  pub generation : SourceGeneration
  pub detections : List Detection
  pub status : SourceGenerationStatus
  pub sync_cursor : Option String
  pub error_code : Option SourceErrorCode
  pub diagnostics : Option SourceReadDiagnostics
  pub resolve_absent : Bool
  pub resolution_scope_ids : List String
  pub resolution_excluded_ids : List String

pub record Readings : Type 0 where
  pub timestamp : ℕ
  pub accepted_at : ℕ
  pub recorded_at : ℕ

abbrev pub keys_of : List Detection → List String
keys_of = map (λ d. d.dedupe_key)

abbrev resolve_scope : SourceTruth → ℕ → List String → Session ℕ
resolve_scope t now [] = pure 0
resolve_scope t now (i ∷ ids) =
    resolve_by_source_ids (source_type t.generation.source) (keys_of t.detections) (i ∷ ids) now
      true (some (row_source t.generation.source))

-- The three-way choice of what to resolve; a complete source resolves all that is absent.
unfoldable pub resolve_truth : SourceTruth → ℕ → SourceGenerationStatus → Session ℕ
resolve_truth t now complete =
    resolve_all (source_type t.generation.source) (keys_of t.detections) now
      (some (row_source t.generation.source))
resolve_truth t now degraded =
    if t.resolve_absent
    then resolve_by_source_ids (source_type t.generation.source) (keys_of t.detections)
        t.resolution_excluded_ids now false (some (row_source t.generation.source))
    else resolve_scope t now t.resolution_scope_ids

-- The four-way record of the attempt.
unfoldable pub record_truth :
    SourceTruth → ℕ → Option SourceErrorCode → SourceGenerationStatus → Db → Db
record_truth t now none complete = record_success now t.generation.source t.sync_cursor
record_truth t now none degraded =
    record_failure now t.generation.source Source.SourceErrorCode.degraded
record_truth t now (some code) status = record_error now t.generation.source code

-- The part of the transaction behind the upsert.
unfoldable pub finish_truth :
    Readings → SourceTruth → DetectionUpsertSummary → Session DetectionApplySummary
finish_truth at t summary = do
  resolved ← resolve_truth t at.timestamp t.status
  execute (record_truth t at.recorded_at t.error_code t.status)
  pure (record { upsert = summary; resolved_count = resolved })

module _ (evidence_bytes : SituationEvidence → ℕ) where
  unfoldable pub upsert_detections : ℕ → List Detection → Session DetectionUpsertSummary
  upsert_detections now ds =
      transaction (upsert_batch evidence_bytes ds now none local none no_outcomes)

  -- The body of the transaction of apply_source_generation.
  unfoldable pub apply_truth : Readings → SourceTruth → Session DetectionApplySummary
  apply_truth at t = do
    accept_source_generation t.generation t.status at.accepted_at t.diagnostics
    summary ←
        upsert_batch evidence_bytes t.detections at.timestamp
          (some (source_type t.generation.source)) (row_source t.generation.source)
          (some t.generation.number) no_outcomes
    finish_truth at t summary

  unfoldable pub apply_source_generation : Readings → SourceTruth → Session DetectionApplySummary
  apply_source_generation at t = transaction (apply_truth at t)

  unfoldable pub apply_local_detections : ℕ → List Detection → Session DetectionApplySummary
  apply_local_detections now ds = transaction do
    summary ← upsert_batch evidence_bytes ds now (some personal_occasion) memory none no_outcomes
    resolved ← resolve_all personal_occasion (keys_of ds) now (some memory)
    pure (record { upsert = summary; resolved_count = resolved })

unfoldable pub resolve_absent : ℕ → SituationType → List String → Session ℕ
resolve_absent now kind present = transaction (resolve_all kind present now none)
