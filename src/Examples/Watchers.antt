-- ===== src/Examples/Watchers.antt =====
-- The watcher's theorems: one instance runs, another one wants to.
use proactive_mcp.Prelude.{
  ◌≡◌, refl, ℕ, Bool, false, none, some, List, [], ◌∷◌, All, arith, ltb, ◌==◌,
}
use proactive_mcp.Model.Daemon.{DaemonHeartbeat, running, continuous, never_run}
use proactive_mcp.Db.{Db, empty_db}
use proactive_mcp.Daemon.Lock.{
  held_by, DaemonCall, starts, beats, stops, sets_mode, after_calls, lock_after_calls, view,
}
use proactive_mcp.Daemon.Refinement.{after_calls-view}
use proactive_mcp.Daemon.Ownership.{
  IsForeign, foreign_start, foreign_beat, foreign_stop, any_mode, after_calls-foreign,
}
use proactive_mcp.Daemon.Takeover.{Agrees, takeover-Agrees}
use proactive_mcp.Daemon.Phase.{Watch, calls as called, completes}
use proactive_mcp.Daemon.Watcher.{PassReadings, run_once, run_forever}
use proactive_mcp.Daemon.Watcher.Release.{owns, run_once-owns}
use proactive_mcp.Daemon.Watcher.Totals.{Ended, run_forever-Ended}
use proactive_mcp.Fallbacks.Dispatch.{FallbackDispatch}
use proactive_mcp.Db.{Session, pure}
use proactive_mcp.Evaluation.Engine.{EngineReadings}
use proactive_mcp.Evaluation.Service.{EvaluationPass, SourceOutcome, skipped_sources, already_fresh}
use proactive_mcp.Evaluation.Service
use proactive_mcp.Sources.Consistency.{Readings}
use proactive_mcp.Examples.Data.{evidence_bytes}

abbrev heartbeat : DaemonHeartbeat
heartbeat = record {
  state = running;
  pid = 7;
  started_at = 100;
  heartbeat_at = 200;
  cycle_count = 2;
  owner_token = some "a";
  poll_interval = some 60;
  mode = some continuous;
  last_run_state = never_run;
  last_failure_phase = none;
  last_failure_code = none;
  last_failure_at = none;
  last_completed_at = none;
}

abbrev running_db : Db
running_db = record empty_db { daemon_status = some heartbeat }

abbrev calls : List DaemonCall
calls =
    starts "b" 8 (some 60) (some (λ p. p == 7)) 300
    ∷ beats "b" 310
    ∷ sets_mode "b" continuous
    ∷ stops "b" 320
    ∷ []

after_calls-view_example :
    view (after_calls calls running_db).daemon_status
    ≡ lock_after_calls calls (view running_db.daemon_status)
after_calls-view_example = after_calls-view calls running_db

calls-IsForeign : All (IsForeign (held_by "a" 7 (some 60) 200) 60) calls
calls-IsForeign = (
  foreign_start refl (omega arith) refl,
  (foreign_beat refl, (any_mode, (foreign_stop refl, tt))),
)

after_calls-foreign_example :
    view (after_calls calls running_db).daemon_status ≡ some (held_by "a" 7 (some 60) 200)
after_calls-foreign_example =
    after_calls-foreign (held_by "a" 7 (some 60) 200) 60 calls running_db refl refl calls-IsForeign

takeover-Agrees_example : Agrees "b" 8 (some 60) (some (λ p. p == 7)) 370 7 running_db
takeover-Agrees_example =
    takeover-Agrees "b" 8 (some 60) (some (λ p. p == 7)) 370 60 running_db heartbeat refl refl refl
      refl refl

abbrev source_readings : ℕ → Readings
source_readings now = record { timestamp = now; accepted_at = now; recorded_at = now }

abbrev engine_readings : ℕ → EngineReadings
engine_readings now = record {
  now = now;
  woken_at = now;
  expired_at = now;
  local_at = now;
  gmail_at = source_readings now;
  calendar_at = source_readings now;
}

abbrev fresh_sources : Session SourceOutcome
unfolding pure
fresh_sources db = pure (skipped_sources already_fresh) db

abbrev evaluate_once : Watch EvaluationPass
unfolding called Service.run_once
evaluate_once db =
    called (Service.run_once evidence_bytes 3600 (λ now d. []) fresh_sources (engine_readings 400))
      db

abbrev dispatch_at : ℕ → Watch (List FallbackDispatch)
unfolding completes
dispatch_at now db = completes [] db

abbrev pass_readings : ℕ → PassReadings
pass_readings n = record {
  started = 400;
  dispatched_at = 410;
  beat_at = 420;
  failure_at = 430;
  completed_at = 440;
  ended = 450;
}

-- The scheduler waits twice.
abbrev wait : ℕ → ℕ → Bool
wait n delay = ltb n 2

run_once-owns_example :
    owns "b"
      (run_once "b" 8 evaluate_once dispatch_at 400
        (pass_readings 0)
        460
        running_db).1.daemon_status
    ≡ false
run_once-owns_example =
    run_once-owns "b" 8 evaluate_once dispatch_at 400 (pass_readings 0) 460 running_db refl

run_forever-Ended_example :
    Ended wait 0 2
      (run_forever "b" 8 evaluate_once dispatch_at 60 pass_readings wait 3 400 460 running_db).0
run_forever-Ended_example =
    run_forever-Ended "b" 8 evaluate_once dispatch_at 60 pass_readings wait 2 (λ delay. refl) 3 400
      460 running_db (omega arith)
