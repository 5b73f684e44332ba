-- ===== src/Evaluation/Service.antt =====
-- EvaluationService of src/proactive_mcp/delivery/evaluation.py.
use proactive_mcp.Prelude.{◌≡◌, ap, ◌∙◌, subst, ℕ, List, [], ◌∷◌, ◌++◌, map, none}
use proactive_mcp.Model.Situation.{SituationEvidence, Detection}
use proactive_mcp.Db.{Db, Session, through, pure, returned, ◌>>=◌}
use proactive_mcp.Evaluation.Engine.{
  EngineInputs, EngineReadings, EvaluationWarning, EvaluationResult, evaluate,
}
use proactive_mcp.Evaluation.Engine.Report.{append-nil, map-nil}
use proactive_mcp.Evaluation.Engine.Clear.{IsAllClear, evaluate-IsAllClear}

pub data SourceSkipReason : Type 0 where
  not_configured needs_reauth missing_credentials : SourceSkipReason
  credential_storage_unavailable daemon_running already_fresh sync_in_flight : SourceSkipReason

pub data SourceOutcome : Type 0 where
  prepared_sources : EngineInputs → SourceOutcome
  skipped_sources : SourceSkipReason → SourceOutcome

-- The guidance for a skipped read, or a warning of the engine.
pub data PassWarning : Type 0 where
  guidance : SourceSkipReason → PassWarning
  of_engine : EvaluationWarning → PassWarning

pub record EvaluationPass : Type 0 where
  pub result : EvaluationResult
  pub sources : SourceOutcome
  pub warnings : List PassWarning

-- _skip_warnings: two reasons need no guidance.
unfoldable pub skip_warnings : SourceSkipReason → List PassWarning
skip_warnings daemon_running = []
skip_warnings already_fresh = []
skip_warnings reason = guidance reason ∷ []

abbrev pub no_inputs : EngineInputs
no_inputs = record { gmail_threads = none; calendar_events = none; gmail_diagnostics = none }

abbrev pub inputs_of : SourceOutcome → EngineInputs
inputs_of (prepared_sources inputs) = inputs
inputs_of (skipped_sources reason) = no_inputs

abbrev pub skipped_of : SourceOutcome → List PassWarning
skipped_of (prepared_sources inputs) = []
skipped_of (skipped_sources reason) = skip_warnings reason

abbrev pub pass_of : SourceOutcome → EvaluationResult → EvaluationPass
pass_of sources result = record {
  result = result;
  sources = sources;
  warnings = skipped_of sources ++ map (λ w. of_engine w) result.warnings;
}

-- The reads of a pass that has nothing to say about them.
pub data NeedsNoGuidance : SourceOutcome → Type 0 where
  was_read : (inputs : EngineInputs) → NeedsNoGuidance (prepared_sources inputs)
  by_daemon : NeedsNoGuidance (skipped_sources daemon_running)
  was_fresh : NeedsNoGuidance (skipped_sources already_fresh)

skip_warnings-nil :
    (r : SourceSkipReason) → skip_warnings r ≡ [] → NeedsNoGuidance (skipped_sources r)
unfolding skip_warnings
skip_warnings-nil daemon_running e = by_daemon
skip_warnings-nil already_fresh e = was_fresh
skip_warnings-nil not_configured e = absurd (cc)
skip_warnings-nil needs_reauth e = absurd (cc)
skip_warnings-nil missing_credentials e = absurd (cc)
skip_warnings-nil credential_storage_unavailable e = absurd (cc)
skip_warnings-nil sync_in_flight e = absurd (cc)

skipped_of-nil : (s : SourceOutcome) → skipped_of s ≡ [] → NeedsNoGuidance s
skipped_of-nil (prepared_sources inputs) e = was_read inputs
skipped_of-nil (skipped_sources r) e = skip_warnings-nil r e

module _ (evidence_bytes : SituationEvidence → ℕ) (stale_after : ℕ)
    (occasions : ℕ → Db → List Detection) where
  unfoldable pub run_once : Session SourceOutcome → EngineReadings → Session EvaluationPass
  run_once prepare_sources at = do
    sources ← prepare_sources
    result ← evaluate evidence_bytes stale_after occasions at (inputs_of sources)
    pure (pass_of sources result)

  module _ (prepare_sources : Session SourceOutcome) (at : EngineReadings) (db : Db) where
    -- What a pass without warnings says, that leaves the database `after`.
    pub record IsClearPass (p : EvaluationPass) (after : Db) : Type 0 where
      pub prepared : (prepare_sources db).0 ≡ returned p.sources
      pub guided : NeedsNoGuidance p.sources
      pub clear :
          IsAllClear evidence_bytes stale_after occasions at
            (inputs_of p.sources)
            (prepare_sources db).1
            after

    finished :
        (p : EvaluationPass) (sources : SourceOutcome) (result : EvaluationResult) (after : Db)
        → (prepare_sources db).0 ≡ returned sources
        → (result.warnings ≡ []
            → IsAllClear evidence_bytes stale_after occasions at
                (inputs_of sources)
                (prepare_sources db).1
                after)
        → pass_of sources result ≡ p
        → p.warnings ≡ []
        → IsClearPass p after
    finished p sources result after prepared clear same quiet =
        let both = append-nil (skipped_of sources) _ (ap (λ q. q.warnings) same ∙ quiet) in
        let here : IsClearPass (pass_of sources result) after = record {
          prepared = prepared;
          guided = skipped_of-nil sources both.0;
          clear = clear (map-nil _ result.warnings both.1);
        } in
        subst (λ q. IsClearPass q after) same here

    -- A pass that returns without a warning: the sources were read, or were not because a live
    -- daemon reads them or because they were fresh before; the local detections, and those of each
    -- source that was read, were applied, none of them rejected for want of capacity, and no
    -- snapshot and no conflict run had reported a code; and both sources are fresh in the database
    -- that the pass leaves, which is the one after these writes.
    pub run_once-IsClearPass :
        (p : EvaluationPass)
        → (run_once prepare_sources at db).0 ≡ returned p
        → p.warnings ≡ []
        → IsClearPass p (run_once prepare_sources at db).1
    unfolding run_once pure
    run_once-IsClearPass p e quiet = through (IsClearPass p) _ _ _ p e λ sources e1 h1.
        through (IsClearPass p) _ _ _ p h1 λ result e2 h2.
          finished p sources result _ e1
            (evaluate-IsAllClear evidence_bytes stale_after occasions at (inputs_of sources) _
              result e2)
            (cc) quiet
