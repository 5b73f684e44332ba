-- ===== src/Daemon/Status.antt =====
-- DaemonStatusStore of src/proactive_mcp/store/daemon_status.py. An instance is known by its owner
-- token; the readings of the clock are arguments.
use proactive_mcp.Prelude.{
  ℕ, ◌+◌, ◌*◌, String, Bool, true, false, not, ◌&&◌, Option, none, some, ltb, leb, if◌then◌else◌,
  str_eq,
}
use proactive_mcp.Model.Daemon.{
  running, stopped, DaemonLiveness, live, stale, halted, DaemonRunMode, DaemonLastRunState,
  never_run, unknown, failed, DaemonFailurePhase, DaemonFailureCode, DaemonHeartbeat, DaemonStatus,
  never_started_status, is_running,
}
use proactive_mcp.Db.{
  Db, Session, daemon_not_started, invalid_poll_interval, invalid_run_outcome, integrity_error,
  pure, raise, query, execute, transaction, ◌>>=◌, ◌>>◌,
}

-- _STALE_POLL_COUNT
abbrev pub stale_poll_count : ℕ
stale_poll_count = 3

abbrev pub owned_by : String → Option String → Bool
owned_by token none = false
owned_by token (some t) = str_eq token t

-- `state = 'running' AND owner_token = ?`
abbrev pub is_owned : String → DaemonHeartbeat → Bool
is_owned token h = is_running h.state && owned_by token h.owner_token

abbrev pub first_of : Option ℕ → Option ℕ → Option ℕ
first_of none b = b
first_of (some a) b = some a

abbrev pub later_than : ℕ → ℕ → Option ℕ → Bool
later_than now at none = false
later_than now at (some poll) = ltb (at + stale_poll_count * poll) now

-- _expired
unfoldable pub is_expired : DaemonHeartbeat → ℕ → Option ℕ → Bool
is_expired h now fallback_interval =
    later_than now h.heartbeat_at (first_of h.poll_interval fallback_interval)

abbrev pub started_row : String → ℕ → Option ℕ → ℕ → DaemonHeartbeat
started_row token pid interval now = record {
  state = running;
  pid = pid;
  started_at = now;
  heartbeat_at = now;
  cycle_count = 0;
  owner_token = some token;
  poll_interval = interval;
  mode = none;
  last_run_state = unknown;
  last_failure_phase = none;
  last_failure_code = none;
  last_failure_at = none;
  last_completed_at = none;
}

abbrev pub restarted_row : String → ℕ → Option ℕ → ℕ → DaemonHeartbeat → DaemonHeartbeat
restarted_row token pid interval now h = record h {
  state = running;
  pid = pid;
  started_at = now;
  heartbeat_at = now;
  cycle_count = 0;
  owner_token = some token;
  poll_interval = interval;
}

-- A write of the row, which CHECK(pid > 0) refuses for the process 0
unfoldable pub write_start : DaemonHeartbeat → Session Bool
write_start row =
    if ltb 0 row.pid
    then (execute (λ db. record db { daemon_status = some row }) >> pure true)
    else raise integrity_error

abbrev pub alive_test : Option (ℕ → Bool) → ℕ → Bool
alive_test none pid = true
alive_test (some is_alive) pid = is_alive pid

unfoldable pub start_over :
    String → ℕ → Option ℕ → Option (ℕ → Bool) → ℕ → Option DaemonHeartbeat → Session Bool
start_over token pid interval is_alive now none = write_start (started_row token pid interval now)
start_over token pid interval is_alive now (some h) =
    if is_owned token h
    then pure true
    else if is_running h.state && not (is_expired h now interval) && alive_test is_alive h.pid
    then pure false
    else write_start (restarted_row token pid interval now h)

-- _interval_seconds: a cadence of zero is refused.
abbrev pub is_positive : Option ℕ → Bool
is_positive none = true
is_positive (some n) = ltb 0 n

unfoldable pub try_record_start : String → ℕ → Option ℕ → Option (ℕ → Bool) → ℕ → Session Bool
try_record_start token pid interval is_alive now =
    if is_positive interval
    then transaction (query (λ db. db.daemon_status) >>= start_over token pid interval is_alive now)
    else raise invalid_poll_interval

unfoldable pub record_start : String → ℕ → Option ℕ → ℕ → Session Unit
record_start token pid interval now =
    try_record_start token pid interval none now >>= λ claimed. pure tt

-- An UPDATE of the row that the instance owns; without any row the method raises.
unfoldable pub update_owned :
    String → (DaemonHeartbeat → DaemonHeartbeat) → Option DaemonHeartbeat → Session Unit
update_owned token change none = raise daemon_not_started
update_owned token change (some h) =
    if is_owned token h
    then execute (λ db. record db { daemon_status = some (change h) })
    else pure tt

-- _record_owned
unfoldable pub record_owned : String → (DaemonHeartbeat → DaemonHeartbeat) → Session Unit
record_owned token change =
    transaction (query (λ db. db.daemon_status) >>= update_owned token change)

abbrev pub beaten : ℕ → DaemonHeartbeat → DaemonHeartbeat
beaten now h = record h { state = running; heartbeat_at = now; cycle_count = h.cycle_count + 1 }

abbrev pub stopped_row : ℕ → DaemonHeartbeat → DaemonHeartbeat
stopped_row now h = record h { state = stopped; heartbeat_at = now }

unfoldable pub record_heartbeat : String → ℕ → Session Unit
record_heartbeat token now = record_owned token (beaten now)

unfoldable pub record_stop : String → ℕ → Session Unit
record_stop token now = record_owned token (stopped_row now)

unfoldable pub record_run_started : String → DaemonRunMode → Session Unit
record_run_started token mode = record_owned token (λ h. record h { mode = some mode })

abbrev pub outcome_row :
    DaemonLastRunState
    → Option DaemonFailurePhase
    → Option DaemonFailureCode
    → Option ℕ
    → ℕ
    → DaemonHeartbeat
    → DaemonHeartbeat
outcome_row state phase code failure_at completed_at h = record h {
  last_run_state = state;
  last_failure_phase = phase;
  last_failure_code = code;
  last_failure_at = failure_at;
  last_completed_at = some completed_at;
}

-- The arguments of a failure, which must both be there.
abbrev pub failed_outcome :
    String → Option DaemonFailurePhase → Option DaemonFailureCode → ℕ → ℕ → Session Unit
failed_outcome token none code failure_at completed_at = raise invalid_run_outcome
failed_outcome token (some phase) none failure_at completed_at = raise invalid_run_outcome
failed_outcome token (some phase) (some code) failure_at completed_at =
    record_owned token (outcome_row failed (some phase) (some code) (some failure_at) completed_at)

-- CHECK(last_run_state IN ('unknown', 'succeeded', 'degraded', 'failed')) refuses the rest.
abbrev pub refuse_owned : String → Option DaemonHeartbeat → Session Unit
refuse_owned token none = raise daemon_not_started
refuse_owned token (some h) = if is_owned token h then raise integrity_error else pure tt

unfoldable pub record_run_outcome :
    String
    → DaemonLastRunState
    → Option DaemonFailurePhase
    → Option DaemonFailureCode
    → ℕ
    → ℕ
    → Session Unit
record_run_outcome token failed phase code failure_at completed_at =
    failed_outcome token phase code failure_at completed_at
record_run_outcome token never_run phase code failure_at completed_at =
    transaction (query (λ db. db.daemon_status) >>= refuse_owned token)
record_run_outcome token state phase code failure_at completed_at =
    record_owned token (outcome_row state none none none completed_at)

-- _liveness
unfoldable pub liveness : DaemonHeartbeat → ℕ → ℕ → DaemonLiveness
liveness h now stale_after =
    if is_running h.state
    then (if leb now (h.heartbeat_at + stale_after) then live else stale)
    else halted

abbrev pub default_threshold : Option ℕ → ℕ
default_threshold none = 0
default_threshold (some poll) = stale_poll_count * poll

abbrev pub threshold : Option ℕ → Option ℕ → ℕ
threshold none poll = default_threshold poll
threshold (some stale_after) poll = stale_after

abbrev pub status_of : Option ℕ → ℕ → Option DaemonHeartbeat → DaemonStatus
status_of stale_after now none = never_started_status
status_of stale_after now (some h) = record {
  liveness = liveness h now (threshold stale_after h.poll_interval);
  pid = some h.pid;
  started_at = some h.started_at;
  heartbeat_at = some h.heartbeat_at;
  cycle_count = h.cycle_count;
  poll_interval = h.poll_interval;
  mode = h.mode;
  last_run_state = h.last_run_state;
  last_failure_phase = h.last_failure_phase;
  last_failure_code = h.last_failure_code;
  last_failure_at = h.last_failure_at;
  last_completed_at = h.last_completed_at;
}

unfoldable pub status : Option ℕ → ℕ → Db → DaemonStatus
status stale_after now db = status_of stale_after now db.daemon_status
