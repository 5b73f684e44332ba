-- ===== src/Examples/Passes.antt =====
-- The theorems of an evaluation pass and of a lazy read.
use proactive_mcp.Prelude.{◌≡◌, refl, ℕ, String, none, some, []}
use proactive_mcp.Model.Source.{configured, SourceSyncState, unconfigured_state}
use proactive_mcp.Sources.SyncState
use proactive_mcp.Db
use proactive_mcp.Situations.Transitions
use proactive_mcp.Situations.Reader
use proactive_mcp.Situations.Upsert
use proactive_mcp.Sources.Consistency
use proactive_mcp.Sources.Freshness
use proactive_mcp.Daemon.Status
use proactive_mcp.Guards.LazySync
use proactive_mcp.Model.Daemon.{never_started_status}
use proactive_mcp.Evaluation.Engine
use proactive_mcp.Evaluation.Service
use proactive_mcp.Evaluation.Reads
use proactive_mcp.Db.{Db, Session, empty_db, returned, pure}
use proactive_mcp.Sources.Consistency.{Readings}
use proactive_mcp.Sources.Freshness.{SourceFreshness, ok, seconds}
use proactive_mcp.Evaluation.Engine.{EngineReadings, EngineInputs, EvaluationResult, evaluate}
use proactive_mcp.Evaluation.Service.{
  EvaluationPass, SourceOutcome, prepared_sources, skipped_sources, already_fresh, no_inputs,
  run_once, IsClearPass, run_once-IsClearPass,
}
use proactive_mcp.Evaluation.Reads.{Loaded, present, LazySyncPolicy, prepare_lazy}
use proactive_mcp.Evaluation.Reads.Gate.{MayRead, prepare_lazy-MayRead}
use proactive_mcp.Examples.Data.{evidence_bytes}

abbrev synced : ℕ → SourceSyncState
unfolding unconfigured_state
synced at = record unconfigured_state { auth_state = configured; last_success_at = some at }

abbrev synced_db : Db
unfolding synced
synced_db = record empty_db { gmail_sync = some (synced 1000); calendar_sync = some (synced 1000) }

abbrev at_readings : EngineReadings
at_readings = record {
  now = 2000;
  woken_at = 2000;
  expired_at = 2000;
  local_at = 2000;
  gmail_at = record { timestamp = 2000; accepted_at = 2000; recorded_at = 2000 };
  calendar_at = record { timestamp = 2000; accepted_at = 2000; recorded_at = 2000 };
}

abbrev fresh_sources : Session SourceOutcome
unfolding pure
fresh_sources db = pure (skipped_sources already_fresh) db

abbrev fresh_at_1000 : SourceFreshness
fresh_at_1000 = record {
  status = ok;
  last_success_at = some 1000;
  last_attempt_at = none;
  age = some (seconds 0);
  error_code = none;
}

-- What the pass returns
abbrev clear_pass : EvaluationPass
clear_pass = record {
  result = record {
    created = 0;
    reactivated = 0;
    refreshed = 0;
    resolved = 0;
    expired = 0;
    woken = 0;
    warnings = [];
    gmail_freshness = fresh_at_1000;
    calendar_freshness = fresh_at_1000;
    accepted_gmail_diagnostics = none;
  };
  sources = skipped_sources already_fresh;
  warnings = [];
}

clear_pass_lem :
    (run_once evidence_bytes 3600000000 (λ now db. []) fresh_sources at_readings synced_db).0
    ≡ returned clear_pass
unfolding run_once Db.◌>>=◌ evaluate Transitions.wake_snoozed Transitions.expire_lapsed
    Consistency.apply_local_detections Db.transaction Upsert.upsert_batch Upsert.resolve_all
    Upsert.resolve_each Reader.active_by_type Db.update_where synced_db Engine.apply_gmail
    Engine.apply_calendar Engine.report Service.skip_warnings Engine.warnings_of
    Freshness.evaluate_source_freshness
clear_pass_lem = refl

run_once-IsClearPass_example :
    IsClearPass evidence_bytes 3600000000
      (λ now db. [])
      fresh_sources
      at_readings
      synced_db
      clear_pass
      (run_once evidence_bytes 3600000000 (λ now db. []) fresh_sources at_readings synced_db).1
run_once-IsClearPass_example =
    run_once-IsClearPass evidence_bytes 3600000000 (λ now db. []) fresh_sources at_readings
      synced_db clear_pass clear_pass_lem refl

abbrev policy : LazySyncPolicy
policy = record { daemon_stale_after = 180; min_attempt_interval = 60; stale_after = 500 }

abbrev prepare_evaluation : String → Session EngineInputs
unfolding pure
prepare_evaluation credential db = pure no_inputs db

lazy_read :
    (prepare_lazy (present "token") prepare_evaluation policy "lease" 2000000000 synced_db).0
    ≡ returned (prepared_sources no_inputs)
unfolding prepare_lazy Db.◌>>=◌ Reads.authorization_skip Reads.degraded_skip Status.status
    never_started_status Reads.all_fresh Freshness.evaluate_source_freshness synced_db
    prepare_evaluation Reads.read_with_lease Reads.acquire_lease Reads.read_under Reads.read
    LazySync.acquire Db.finally Reads.release_lease SyncState.record_credential_state
lazy_read = refl

prepare_lazy-MayRead_example :
    MayRead (present "token") prepare_evaluation policy 2000000000 synced_db
prepare_lazy-MayRead_example =
    prepare_lazy-MayRead (present "token") prepare_evaluation policy "lease" 2000000000 synced_db
      no_inputs lazy_read
