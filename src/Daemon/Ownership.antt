-- ===== src/Daemon/Ownership.antt =====
-- What the holder of the lock may rely on.
use proactive_mcp.Prelude.{
  ℕ, ◌+◌, ◌*◌, ◌≤◌, String, ◌≡◌, refl, ◌∙◌, ap, false, Option, none, some, List, [], ◌∷◌, arith,
  Bool, true, All, Bool-cases, inl, inr,
}
use proactive_mcp.Model.Daemon.{
  DaemonRunMode, DaemonLastRunState, DaemonFailurePhase, DaemonFailureCode,
}
use proactive_mcp.Db.{Db}
use proactive_mcp.Daemon.Status.{alive_test, owned_by, first_of, later_than, stale_poll_count}
use proactive_mcp.Daemon.Lock.{
  Hold, acquire, view, DaemonCall, starts, beats, stops, sets_mode, sets_outcome, after_calls,
  may_start, lock_after, lock_after_calls,
}
use proactive_mcp.Daemon.Refinement.{after_calls-view}

-- A call by another instance. A start happens no later than the hold lapses, and if it asks whether
-- the owner's process is alive, the answer is that it is.
pub data IsForeign (k : Hold) (poll : ℕ) : DaemonCall → Type 0 where
  foreign_start :
      {token : String} {pid now : ℕ} {interval : Option ℕ} {is_alive : Option (ℕ → Bool)}
      → owned_by token k.holder ≡ false
      → now ≤ k.beat + stale_poll_count * poll
      → alive_test is_alive k.pid ≡ true
      → IsForeign k poll (starts token pid interval is_alive now)
  foreign_beat :
      {token : String} {now : ℕ}
      → owned_by token k.holder ≡ false
      → IsForeign k poll (beats token now)
  foreign_stop :
      {token : String} {now : ℕ}
      → owned_by token k.holder ≡ false
      → IsForeign k poll (stops token now)
  any_mode : {token : String} {mode : DaemonRunMode} → IsForeign k poll (sets_mode token mode)
  any_outcome :
      {token : String} {state : DaemonLastRunState} {phase : Option DaemonFailurePhase}
      {code : Option DaemonFailureCode} {failure_at completed_at : ℕ}
      → IsForeign k poll (sets_outcome token state phase code failure_at completed_at)

later_than-soon :
    (now beat poll : ℕ) (cadence interval : Option ℕ)
    → cadence ≡ some poll
    → now ≤ beat + stale_poll_count * poll
    → later_than now beat (first_of cadence interval) ≡ false
later_than-soon now beat poll none interval e soon = cc
later_than-soon now beat poll (some q) interval e soon =
    let same : q ≡ poll = cc in rw same (ground arith)

acquire-foreign :
    (k : Hold) (token : String) (pid now poll : ℕ) (interval : Option ℕ)
    (is_alive : Option (ℕ → Bool))
    → k.cadence ≡ some poll
    → owned_by token k.holder ≡ false
    → now ≤ k.beat + stale_poll_count * poll
    → alive_test is_alive k.pid ≡ true
    → (acquire token pid interval is_alive now (some k)).1 ≡ some k
acquire-foreign k token pid now poll interval is_alive cadence other soon alive =
    rw (other, later_than-soon now k.beat poll k.cadence interval cadence soon, alive) refl

lock_after-foreign :
    (k : Hold) (poll : ℕ) (c : DaemonCall)
    → k.cadence ≡ some poll
    → IsForeign k poll c
    → lock_after c (some k) ≡ some k
lock_after-foreign k poll _ cadence
      (foreign_start {token = token} {pid = pid} {now = now} {interval = interval}
        {is_alive = is_alive} other soon alive) =
    elim (Bool-cases (may_start pid interval)) [
      | inl e ↦
          rw e (acquire-foreign k token pid now poll interval is_alive cadence other soon alive)
      | inr e ↦ rw e refl
    ]
lock_after-foreign k poll _ cadence (foreign_beat other) = rw other refl
lock_after-foreign k poll _ cadence (foreign_stop other) = rw other refl
lock_after-foreign k poll _ cadence any_mode = refl
lock_after-foreign k poll _ cadence any_outcome = refl

lock_after_calls-foreign :
    (k : Hold) (poll : ℕ) (calls : List DaemonCall)
    → k.cadence ≡ some poll
    → All (IsForeign k poll) calls
    → lock_after_calls calls (some k) ≡ some k
unfolding lock_after_calls
lock_after_calls-foreign k poll [] cadence foreign = refl
lock_after_calls-foreign k poll (c ∷ calls) cadence foreign =
    ap (lock_after_calls calls) (lock_after-foreign k poll c cadence foreign.0)
    ∙ lock_after_calls-foreign k poll calls cadence foreign.1

-- The owner's hold is safe: while a running row belongs to an owner that renewed it at `beat` with a
-- poll interval, no calls by other instances up to three poll intervals later change who holds it,
-- under which process, when it was renewed or its interval, unless a start's probe of the owner's
-- process says that it is dead.
pub after_calls-foreign :
    (k : Hold) (poll : ℕ) (calls : List DaemonCall) (db : Db)
    → view db.daemon_status ≡ some k
    → k.cadence ≡ some poll
    → All (IsForeign k poll) calls
    → view (after_calls calls db).daemon_status ≡ some k
after_calls-foreign k poll calls db held cadence foreign =
    after_calls-view calls db
    ∙ ap (lock_after_calls calls) held
    ∙ lock_after_calls-foreign k poll calls cadence foreign
