-- ===== src/Daemon/Watcher.antt =====
-- WatcherDaemon of src/proactive_mcp/delivery/daemon.py over the liveness row of its own store. The
-- evaluation and the notifier are arguments, and so are the answers of the scheduler.
pub mod Release
pub mod Totals
use proactive_mcp.Prelude.{
  ℕ, zero, suc, ◌+◌, ◌-◌, String, Bool, true, false, Option, none, some, List, [], ◌∷◌,
  exists_where, if◌then◌else◌, length,
}
use proactive_mcp.Model.Daemon.{
  DaemonRunMode, once, continuous, DaemonLastRunState, succeeded, degraded, failed,
}
use proactive_mcp.Db.{Db}
use proactive_mcp.Fallbacks.Dispatch.{FallbackDispatch, fallback_sent, fallback_failed}
use proactive_mcp.Evaluation.Service.{
  EvaluationPass, SourceOutcome, prepared_sources, skipped_sources, SourceSkipReason,
  credential_storage_unavailable, PassWarning,
}
use proactive_mcp.Daemon.Status.{
  try_record_start, record_heartbeat, record_stop, record_run_started, record_run_outcome,
}
use proactive_mcp.Daemon.Phase.{
  DaemonFailureKind, evaluation_failed, credential_unavailable, notification_failed,
  heartbeat_failed, conflict, failure_phase, failure_code, Watch, calls, completes, fails,
  run_daemon_phase, on_failure, with_cleanup, ◌>>=◌, ◌>>◌,
}

pub record DaemonPass : Type 0 where
  pub evaluation : EvaluationPass
  pub notifications : List FallbackDispatch

pub record DaemonRun : Type 0 where
  pub pass_count : ℕ
  pub notification_count : ℕ

-- The readings of the clock in one pass.
pub record PassReadings : Type 0 where
  pub started : ℕ
  pub dispatched_at : ℕ
  pub beat_at : ℕ
  pub failure_at : ℕ
  pub completed_at : ℕ
  pub ended : ℕ

-- remaining_delay(interval, ended - started); the clock may have gone back.
unfoldable pub remaining_delay : ℕ → ℕ → ℕ → ℕ
remaining_delay interval started ended = (interval + started) - ended

abbrev pub is_failed_dispatch : FallbackDispatch → Bool
is_failed_dispatch (fallback_sent i) = false
is_failed_dispatch (fallback_failed i code) = true

abbrev pub is_storage_skip : SourceOutcome → Bool
is_storage_skip (prepared_sources inputs) = false
is_storage_skip (skipped_sources credential_storage_unavailable) = true
is_storage_skip (skipped_sources _) = false

abbrev pub success_state : List PassWarning → DaemonLastRunState
success_state [] = succeeded
success_state (w ∷ ws) = degraded

module _ (token : String) (pid : ℕ) (evaluate_once : Watch EvaluationPass)
    (dispatch_at : ℕ → Watch (List FallbackDispatch)) where
  -- _claim
  unfoldable pub claim : Option ℕ → ℕ → Watch (Unit {0})
  claim poll_interval now =
      run_daemon_phase heartbeat_failed (calls (try_record_start token pid poll_interval none now))
      >>= λ claimed. if claimed then completes tt else fails conflict

  unfoldable pub notify_and_beat : PassReadings → EvaluationPass → Watch DaemonPass
  notify_and_beat at evaluation =
      run_daemon_phase notification_failed (dispatch_at at.dispatched_at) >>= λ notifications.
      if exists_where is_failed_dispatch notifications
      then fails notification_failed
      else run_daemon_phase heartbeat_failed (calls (record_heartbeat token at.beat_at))
        >> completes (record { evaluation = evaluation; notifications = notifications })

  -- _run_pass
  unfoldable pub run_pass : PassReadings → Watch DaemonPass
  run_pass at = run_daemon_phase evaluation_failed evaluate_once >>= λ evaluation.
      if is_storage_skip evaluation.sources
      then fails credential_unavailable
      else notify_and_beat at evaluation

  unfoldable pub record_run_failure : PassReadings → DaemonFailureKind → Watch (Unit {0})
  record_run_failure at kind = calls (
      record_run_outcome token failed (some (failure_phase kind)) (some (failure_code kind))
        at.failure_at at.completed_at)

  unfoldable pub record_run_success : PassReadings → DaemonPass → Watch (Unit {0})
  record_run_success at pass = calls (
      record_run_outcome token (success_state pass.evaluation.warnings) none none at.failure_at
        at.completed_at)

  -- _release
  unfoldable pub release : ℕ → Watch (Unit {0})
  release now = run_daemon_phase heartbeat_failed (calls (record_stop token now))

  unfoldable pub pass_once : PassReadings → Watch DaemonPass
  pass_once at =
      on_failure (calls (record_run_started token once) >> run_pass at) (record_run_failure at)
      >>= λ pass. record_run_success at pass >> completes pass

  unfoldable pub run_once : ℕ → PassReadings → ℕ → Watch DaemonPass
  run_once claimed_at at stopped_at =
      claim none claimed_at >> with_cleanup (pass_once at) (release stopped_at)

  -- A turn of the loop, up to the wait.
  unfoldable pub pass_forever : PassReadings → Watch DaemonPass
  pass_forever at = on_failure (run_pass at) (record_run_failure at) >>= λ pass.
      record_run_success at pass >> completes pass

  module _ (poll_interval : ℕ) (readings : ℕ → PassReadings) (wait : ℕ → ℕ → Bool) where
    -- The `while running`, on fuel, after `n` passes; `none` says that it ran out.
    unfoldable pub loop : ℕ → ℕ → ℕ → Watch (Option DaemonRun)
    loop zero n notified = completes none
    loop (suc fuel) n notified = pass_forever (readings n) >>= λ pass.
        let sent = notified + length pass.notifications in
        let delay = remaining_delay poll_interval (readings n).started (readings n).ended in
        let rest = loop fuel (suc n) sent in
        if wait n delay
        then rest
        else completes (some (record { pass_count = suc n; notification_count = sent }))

    unfoldable pub run_forever : ℕ → ℕ → ℕ → Watch (Option DaemonRun)
    run_forever fuel claimed_at stopped_at =
        claim (some poll_interval) claimed_at
        >> with_cleanup (calls (record_run_started token continuous) >> loop fuel 0 0)
            (release stopped_at)
