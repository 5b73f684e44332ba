-- ===== src/Daemon/Lock.antt =====
-- What the liveness row promises, without its counters, modes and outcomes: a lock that is held
-- under a token until its holder releases it, and that lapses three poll intervals after its last
-- renewal.
use proactive_mcp.Prelude.{
  ℕ, String, Bool, true, false, not, ◌&&◌, Option, none, some, List, [], ◌∷◌, ltb, if◌then◌else◌,
}
use proactive_mcp.Model.Daemon.{
  DaemonRunMode, DaemonLastRunState, DaemonFailurePhase, DaemonFailureCode, DaemonHeartbeat,
  is_running,
}
use proactive_mcp.Db.{Db}
use proactive_mcp.Daemon.Status.{
  owned_by, first_of, later_than, alive_test, is_positive, try_record_start, record_heartbeat,
  record_stop, record_run_started, record_run_outcome,
}

pub record Hold : Type 0 where
  pub holder : Option String
  pub pid : ℕ
  pub beat : ℕ
  pub cadence : Option ℕ

abbrev pub held_by : String → ℕ → Option ℕ → ℕ → Hold
held_by token pid interval now = record {
  holder = some token;
  pid = pid;
  beat = now;
  cadence = interval;
}

-- The result, and the lock after it.
abbrev pub acquire :
    String → ℕ → Option ℕ → Option (ℕ → Bool) → ℕ → Option Hold → Bool × Option Hold
acquire token pid interval is_alive now none = (true, some (held_by token pid interval now))
acquire token pid interval is_alive now (some k) =
    if owned_by token k.holder
    then (true, some k)
    else if not (later_than now k.beat (first_of k.cadence interval)) && alive_test is_alive k.pid
    then (false, some k)
    else (true, some (held_by token pid interval now))

abbrev pub renew : String → ℕ → Option Hold → Option Hold
renew token now none = none
renew token now (some k) = some (if owned_by token k.holder then record k { beat = now } else k)

abbrev pub release : String → Option Hold → Option Hold
release token none = none
release token (some k) = if owned_by token k.holder then none else some k

-- What the lock sees of the row.
abbrev pub hold_of : DaemonHeartbeat → Hold
hold_of h = record {
  holder = h.owner_token;
  pid = h.pid;
  beat = h.heartbeat_at;
  cadence = h.poll_interval;
}

abbrev pub view : Option DaemonHeartbeat → Option Hold
view none = none
view (some h) = if is_running h.state then some (hold_of h) else none

-- A write of any instance.
pub data DaemonCall : Type 0 where
  starts : String → ℕ → Option ℕ → Option (ℕ → Bool) → ℕ → DaemonCall
  beats : String → ℕ → DaemonCall
  stops : String → ℕ → DaemonCall
  sets_mode : String → DaemonRunMode → DaemonCall
  sets_outcome :
      String
      → DaemonLastRunState
      → Option DaemonFailurePhase
      → Option DaemonFailureCode
      → ℕ
      → ℕ
      → DaemonCall

-- The database after a call, whether it returned or raised.
abbrev pub after_call : DaemonCall → Db → Db
after_call (starts token pid interval is_alive now) db =
    (try_record_start token pid interval is_alive now db).1
after_call (beats token now) db = (record_heartbeat token now db).1
after_call (stops token now) db = (record_stop token now db).1
after_call (sets_mode token mode) db = (record_run_started token mode db).1
after_call (sets_outcome token state phase code failure_at completed_at) db =
    (record_run_outcome token state phase code failure_at completed_at db).1

unfoldable pub after_calls : List DaemonCall → Db → Db
after_calls [] db = db
after_calls (c ∷ calls) db = after_calls calls (after_call c db)

-- A start is refused without a process or with a cadence of zero.
abbrev pub may_start : ℕ → Option ℕ → Bool
may_start pid interval = ltb 0 pid && is_positive interval

abbrev pub lock_after : DaemonCall → Option Hold → Option Hold
lock_after (starts token pid interval is_alive now) l =
    if may_start pid interval then (acquire token pid interval is_alive now l).1 else l
lock_after (beats token now) l = renew token now l
lock_after (stops token now) l = release token l
lock_after (sets_mode token mode) l = l
lock_after (sets_outcome token state phase code failure_at completed_at) l = l

unfoldable pub lock_after_calls : List DaemonCall → Option Hold → Option Hold
lock_after_calls [] l = l
lock_after_calls (c ∷ calls) l = lock_after_calls calls (lock_after c l)
