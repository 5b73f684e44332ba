-- ===== src/Evaluation/Engine.antt =====
-- SituationEngine of src/proactive_mcp/situations/engine.py, with the snapshots of inputs.py.
pub mod Report
pub mod Clear
use proactive_mcp.Prelude.{
  ℕ, ◌+◌, String, Bool, true, false, not, ◌&&◌, Option, none, some, List, [], ◌∷◌, ◌++◌, map, ◌==◌,
  if◌then◌else◌,
}
use proactive_mcp.Model.Situation.{SituationEvidence, Detection, DetectionApplySummary}
use proactive_mcp.Model.Source.{
  SourceName, gmail, calendar, SourceGeneration, complete, degraded, SourceErrorCode,
  SourceReadDiagnostics,
}
use proactive_mcp.Db.{
  Db, StoreError, delayed_generation, Outcome, returned, raised, Session, pure, raise, query, ◌>>=◌,
  ◌>>◌,
}
use proactive_mcp.Situations.Transitions.{wake_snoozed, expire_lapsed}
use proactive_mcp.Sources.Consistency.{
  SourceTruth, Readings, apply_source_generation, apply_local_detections,
}
use proactive_mcp.Sources.SyncState.{source_sync}
use proactive_mcp.Sources.Freshness.{
  SourceFreshness, SourceFreshnessStatus, ok, evaluate_source_freshness,
}

-- A snapshot, with the detections of its items in their place.
pub record SourceSnapshot : Type 0 where
  pub generation : SourceGeneration
  pub detections : List Detection
  pub is_complete : Bool
  pub sync_cursor : Option String
  pub warning_codes : List String
  pub error_code : Option SourceErrorCode
  pub resolve_absent : Bool
  pub resolution_scope_ids : List String
  pub resolution_excluded_ids : List String

-- The calendar snapshot with the verdict and the codes of the conflict run over its items.
pub record CalendarRun : Type 0 where
  pub snapshot : SourceSnapshot
  pub resolution_safe : Bool
  pub run_codes : List String

pub record EngineInputs : Type 0 where
  pub gmail_threads : Option SourceSnapshot
  pub calendar_events : Option CalendarRun
  pub gmail_diagnostics : Option SourceReadDiagnostics

pub data EvaluationWarning : Type 0 where
  delayed : SourceName → EvaluationWarning
  source_code : SourceName → String → EvaluationWarning
  capacity : ℕ → EvaluationWarning
  skipped : SourceName → EvaluationWarning
  source_is : SourceName → SourceFreshnessStatus → EvaluationWarning

pub record EvaluationResult : Type 0 where
  pub created : ℕ
  pub reactivated : ℕ
  pub refreshed : ℕ
  pub resolved : ℕ
  pub expired : ℕ
  pub woken : ℕ
  pub warnings : List EvaluationWarning
  pub gmail_freshness : SourceFreshness
  pub calendar_freshness : SourceFreshness
  pub accepted_gmail_diagnostics : Option SourceReadDiagnostics

-- The readings of the clock in one pass.
pub record EngineReadings : Type 0 where
  pub now : ℕ
  pub woken_at : ℕ
  pub expired_at : ℕ
  pub local_at : ℕ
  pub gmail_at : Readings
  pub calendar_at : Readings

-- What one source contributed.
abbrev pub Contribution : Type 0
Contribution = List DetectionApplySummary × List EvaluationWarning

abbrev pub is_delayed : StoreError → Bool
is_delayed (delayed_generation g n) = true
is_delayed _ = false

-- `except DelayedSourceGenerationError`
abbrev pub contribution : SourceName → DetectionApplySummary → Contribution
contribution source summary = (summary ∷ [], [])

abbrev pub unless_delayed :
    SourceName → Outcome DetectionApplySummary × Db → Outcome Contribution × Db
unless_delayed source (returned summary, db) = (returned (contribution source summary), db)
unless_delayed source (raised e, db) =
    (if is_delayed e then returned ([], delayed source ∷ []) else raised e, db)

abbrev pub with_codes : SourceName → List String → Contribution → Contribution
with_codes source codes c = (c.0, c.1 ++ map (λ code. source_code source code) codes)

abbrev pub sum_of : (DetectionApplySummary → ℕ) → List DetectionApplySummary → ℕ
sum_of f [] = 0
sum_of f (a ∷ rest) = f a + sum_of f rest

unfoldable pub gmail_truth : SourceSnapshot → Option SourceReadDiagnostics → SourceTruth
gmail_truth s diagnostics = record {
  generation = s.generation;
  detections = s.detections;
  status = if s.is_complete then complete else degraded;
  sync_cursor = s.sync_cursor;
  error_code = s.error_code;
  diagnostics = diagnostics;
  resolve_absent = s.resolve_absent;
  resolution_scope_ids = s.resolution_scope_ids;
  resolution_excluded_ids = s.resolution_excluded_ids;
}

unfoldable pub calendar_truth : CalendarRun → SourceTruth
calendar_truth c = record {
  generation = c.snapshot.generation;
  detections = c.snapshot.detections;
  status = if c.snapshot.is_complete && c.resolution_safe then complete else degraded;
  sync_cursor = c.snapshot.sync_cursor;
  error_code = c.snapshot.error_code;
  diagnostics = none;
  resolve_absent = false;
  resolution_scope_ids = [];
  resolution_excluded_ids = [];
}

abbrev pub is_ok_status : SourceFreshnessStatus → Bool
is_ok_status ok = true
is_ok_status _ = false

abbrev pub is_ok : SourceFreshness → Bool
is_ok f = is_ok_status f.status

abbrev pub is_skipped {ℓ} : {A : Type ℓ} → Option A → Bool
is_skipped none = true
is_skipped (some a) = false

abbrev pub skip_warning : SourceName → Bool → SourceFreshness → List EvaluationWarning
skip_warning source was_skipped f = if was_skipped && not (is_ok f) then skipped source ∷ [] else []

abbrev pub status_warning : SourceName → SourceFreshness → List EvaluationWarning
status_warning source f = if is_ok f then [] else source_is source f.status ∷ []

-- _warnings
unfoldable pub warnings_of :
    EngineInputs
    → SourceFreshness
    → SourceFreshness
    → List EvaluationWarning
    → List EvaluationWarning
warnings_of inputs gmail_fresh calendar_fresh source_warnings =
    source_warnings
    ++ skip_warning gmail (is_skipped inputs.gmail_threads) gmail_fresh
    ++ skip_warning calendar (is_skipped inputs.calendar_events) calendar_fresh
    ++ status_warning gmail gmail_fresh
    ++ status_warning calendar calendar_fresh

abbrev pub capacity_warning : ℕ → List EvaluationWarning
capacity_warning n = if n == 0 then [] else capacity n ∷ []

-- DEFAULT_STALE_AFTER is an argument of the freshness.
module _ (evidence_bytes : SituationEvidence → ℕ) (stale_after : ℕ) where
  unfoldable pub apply_or_delayed : SourceName → Readings → SourceTruth → Session Contribution
  apply_or_delayed source at t db =
      unless_delayed source (apply_source_generation evidence_bytes at t db)

  unfoldable pub apply_gmail :
      Readings → Option SourceReadDiagnostics → Option SourceSnapshot → Session Contribution
  apply_gmail at diagnostics none = pure ([], [])
  apply_gmail at diagnostics (some s) = do
    c ← apply_or_delayed gmail at (gmail_truth s diagnostics)
    pure (with_codes gmail s.warning_codes c)

  unfoldable pub apply_calendar : Readings → Option CalendarRun → Session Contribution
  apply_calendar at none = pure ([], [])
  apply_calendar at (some run) = do
    c ← apply_or_delayed calendar at (calendar_truth run)
    pure (with_codes calendar run.run_codes (with_codes calendar run.snapshot.warning_codes c))

  -- The part behind the last write: the health snapshot and the result.
  unfoldable pub report :
      ℕ
      → EngineInputs
      → ℕ
      → ℕ
      → List DetectionApplySummary
      → List EvaluationWarning
      → Db
      → EvaluationResult
  unfolding source_sync
  report now inputs woken expired applied source_warnings db =
      let gmail_fresh = evaluate_source_freshness (source_sync gmail db) now stale_after in
      let calendar_fresh = evaluate_source_freshness (source_sync calendar db) now stale_after in
      let capacity_skipped = sum_of (λ a. a.upsert.capacity_skipped) applied in
      record {
        created = sum_of (λ a. a.upsert.created) applied;
        reactivated = sum_of (λ a. a.upsert.reactivated) applied;
        refreshed = sum_of (λ a. a.upsert.refreshed) applied;
        resolved = sum_of (λ a. a.resolved_count) applied;
        expired = expired;
        woken = woken;
        warnings =
            warnings_of inputs gmail_fresh calendar_fresh
              (source_warnings ++ capacity_warning capacity_skipped);
        gmail_freshness = gmail_fresh;
        calendar_freshness = calendar_fresh;
        accepted_gmail_diagnostics = db.diagnostics;
      }

  -- `occasions` are the detections of the dated memories in the database at that point.
  module _ (occasions : ℕ → Db → List Detection) where
    unfoldable pub evaluate : EngineReadings → EngineInputs → Session EvaluationResult
    evaluate at inputs = do
      woken ← wake_snoozed at.woken_at
      expired ← expire_lapsed at.expired_at
      found ← query (occasions at.now)
      local_summary ← apply_local_detections evidence_bytes at.local_at found
      from_gmail ← apply_gmail at.gmail_at inputs.gmail_diagnostics inputs.gmail_threads
      from_calendar ← apply_calendar at.calendar_at inputs.calendar_events
      query (
          report at.now inputs woken expired (local_summary ∷ (from_gmail.0 ++ from_calendar.0))
            (from_gmail.1 ++ from_calendar.1))
