-- ===== src/Model/Daemon.antt =====
-- src/proactive_mcp/store/_daemon_models.py: the liveness row of the watcher and its report.
use proactive_mcp.Prelude.{ℕ, String, Bool, true, false, Option, none}

pub data DaemonState : Type 0 where
  running stopped : DaemonState

pub data DaemonLiveness : Type 0 where
  never_started live stale halted : DaemonLiveness

pub data DaemonRunMode : Type 0 where
  once continuous : DaemonRunMode

pub data DaemonLastRunState : Type 0 where
  never_run unknown succeeded degraded failed : DaemonLastRunState

pub data DaemonFailurePhase : Type 0 where
  config database credential source_sync evaluation : DaemonFailurePhase
  notification heartbeat runtime_ownership service : DaemonFailurePhase

pub data DaemonFailureCode : Type 0 where
  invalid unsafe_path open_failed unavailable failure : DaemonFailureCode
  ownership_conflict notify_failed : DaemonFailureCode

-- The row of `daemon_status`; the cadence is in microseconds, where the column has seconds.
pub record DaemonHeartbeat : Type 0 where
  pub state : DaemonState
  pub pid : ℕ
  pub started_at : ℕ
  pub heartbeat_at : ℕ
  pub cycle_count : ℕ
  pub owner_token : Option String
  pub poll_interval : Option ℕ
  pub mode : Option DaemonRunMode
  pub last_run_state : DaemonLastRunState
  pub last_failure_phase : Option DaemonFailurePhase
  pub last_failure_code : Option DaemonFailureCode
  pub last_failure_at : Option ℕ
  pub last_completed_at : Option ℕ

pub record DaemonStatus : Type 0 where
  pub liveness : DaemonLiveness
  pub pid : Option ℕ
  pub started_at : Option ℕ
  pub heartbeat_at : Option ℕ
  pub cycle_count : ℕ
  pub poll_interval : Option ℕ
  pub mode : Option DaemonRunMode
  pub last_run_state : DaemonLastRunState
  pub last_failure_phase : Option DaemonFailurePhase
  pub last_failure_code : Option DaemonFailureCode
  pub last_failure_at : Option ℕ
  pub last_completed_at : Option ℕ

unfoldable pub never_started_status : DaemonStatus
never_started_status = record {
  liveness = never_started;
  pid = none;
  started_at = none;
  heartbeat_at = none;
  cycle_count = 0;
  poll_interval = none;
  mode = none;
  last_run_state = never_run;
  last_failure_phase = none;
  last_failure_code = none;
  last_failure_at = none;
  last_completed_at = none;
}

abbrev pub is_running : DaemonState → Bool
is_running running = true
is_running stopped = false
