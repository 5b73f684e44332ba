-- ===== src/Daemon/Takeover.antt =====
-- The status report and the takeover rule agree.
use proactive_mcp.Prelude.{
  ℕ, ◌+◌, ◌*◌, String, ◌≡◌, refl, sym, subst, ◌∙◌, true, false, ◌⊎◌, Option, none, some, Bool,
  arith, Bool-cases, inl, inr, ltb, if◌then◌else◌,
}
use proactive_mcp.Model.Daemon.{DaemonHeartbeat, live, stale, is_running}
use proactive_mcp.Db.{Db, returned, pure, transaction, ◌>>=◌}
use proactive_mcp.Daemon.Status.{
  alive_test, owned_by, is_expired, first_of, later_than, is_positive, stale_poll_count, threshold,
  write_start, start_over, try_record_start, liveness, status,
}
use proactive_mcp.Daemon.Lock.{may_start}

expired_lem :
    (at now poll : ℕ) (cadence interval : Option ℕ)
    → cadence ≡ some poll
    → later_than now at (first_of cadence interval) ≡ ltb (at + stale_poll_count * poll) now
expired_lem at now poll none interval e = cc
expired_lem at now poll (some q) interval e = let same : q ≡ poll = cc in rw same refl

threshold_lem :
    (poll : ℕ) (cadence : Option ℕ)
    → cadence ≡ some poll
    → threshold none cadence ≡ stale_poll_count * poll
threshold_lem poll none e = cc
threshold_lem poll (some q) e = let same : q ≡ poll = cc in rw same refl

module _ (token : String) (pid : ℕ) (interval : Option ℕ) (is_alive : Option (ℕ → Bool))
    (now poll : ℕ) (h : DaemonHeartbeat) (run : is_running h.state ≡ true)
    (cadence : h.poll_interval ≡ some poll) where
  liveness_lem :
      liveness h now (threshold none h.poll_interval)
      ≡ (if ltb (h.heartbeat_at + stale_poll_count * poll) now then stale else live)
  unfolding liveness
  liveness_lem = rw (run, threshold_lem poll h.poll_interval cadence) (ground arith)

  start_over_stands :
      (db : Db)
      → owned_by token h.owner_token ≡ false
      → ltb (h.heartbeat_at + stale_poll_count * poll) now ≡ false
      → alive_test is_alive h.pid ≡ true
      → transaction (start_over token pid interval is_alive now (some h)) db ≡ (returned false, db)
  unfolding start_over is_expired transaction pure
  start_over_stands db other soon alive =
      rw (run, other, expired_lem h.heartbeat_at now poll h.poll_interval interval cadence)
        (rw (soon, alive) refl)

  start_over_takes :
      (db : Db)
      → owned_by token h.owner_token ≡ false
      → (ltb (h.heartbeat_at + stale_poll_count * poll) now ≡ true)
        ⊎ (alive_test is_alive h.pid ≡ false)
      → ltb 0 pid ≡ true
      → (transaction (start_over token pid interval is_alive now (some h)) db).0 ≡ returned true
  unfolding start_over is_expired write_start transaction pure ◌>>=◌
  start_over_takes db other (inl late) p =
      rw (run, other, expired_lem h.heartbeat_at now poll h.poll_interval interval cadence)
        (rw (late, p) refl)
  start_over_takes db other (inr dead) p =
      rw (run, other, expired_lem h.heartbeat_at now poll h.poll_interval interval cadence)
        (rw dead (elim (Bool-cases (ltb (h.heartbeat_at + stale_poll_count * poll) now)) [
          | inl late ↦ rw (late, p) refl
          | inr soon ↦ rw (soon, p) refl
        ]))

-- The report and a start at the same time, whose probe asks for the process `owner`: `running`, the
-- process not dead, and refused with no change; `running`, the process dead, and successful; or
-- `stale` and successful.
abbrev pub Agrees : String → ℕ → Option ℕ → Option (ℕ → Bool) → ℕ → ℕ → Db → Type 0
Agrees token pid interval is_alive now owner db =
    (((status none now db).liveness ≡ live)
      × (alive_test is_alive owner ≡ true)
      × (try_record_start token pid interval is_alive now db ≡ (returned false, db)))
    ⊎ (((status none now db).liveness ≡ live)
        × (alive_test is_alive owner ≡ false)
        × ((try_record_start token pid interval is_alive now db).0 ≡ returned true))
    ⊎ (((status none now db).liveness ≡ stale)
        × ((try_record_start token pid interval is_alive now db).0 ≡ returned true))

Agrees-at :
    (token : String) (pid : ℕ) (interval : Option ℕ) (is_alive : Option (ℕ → Bool)) (now poll : ℕ)
    (db : Db) (h : DaemonHeartbeat)
    → is_running h.state ≡ true
    → h.poll_interval ≡ some poll
    → owned_by token h.owner_token ≡ false
    → may_start pid interval ≡ true
    → Agrees token pid interval is_alive now h.pid (record db { daemon_status = some h })
unfolding status try_record_start ◌>>=◌ transaction
Agrees-at token pid interval is_alive now poll db h run cadence other allowed =
    let e : is_positive interval ≡ true = ground arith in
    let p : ltb 0 pid ≡ true = ground arith in
    let report = liveness_lem token pid interval is_alive now poll h run cadence in
    let row = record db { daemon_status = some h } in
    let takes = start_over_takes token pid interval is_alive now poll h run cadence row other in
    elim (Bool-cases (ltb (h.heartbeat_at + stale_poll_count * poll) now)) [
      | inl late ↦ inr (inr (report ∙ rw late refl, rw e (takes (inl late) p)))
      | inr soon ↦ elim (Bool-cases (alive_test is_alive h.pid)) [
        | inl alive ↦ inl (
          report ∙ rw soon refl,
          alive,
          rw e (
              start_over_stands token pid interval is_alive now poll h run cadence row other soon
                alive),
        )
        | inr dead ↦ inr (inl (report ∙ rw soon refl, dead, rw e (takes (inr dead) p)))
      ]
    ]

-- On a running row with a poll interval that another instance owns, where a start of the process is
-- allowed: the start is refused, and changes nothing, exactly when the report says `running` and the
-- start's probe, if it has one, does not say that the owner's process is dead; otherwise the report
-- says `stale` or the probe says that, and the start succeeds.
pub takeover-Agrees :
    (token : String) (pid : ℕ) (interval : Option ℕ) (is_alive : Option (ℕ → Bool)) (now poll : ℕ)
    (db : Db) (h : DaemonHeartbeat)
    → db.daemon_status ≡ some h
    → is_running h.state ≡ true
    → h.poll_interval ≡ some poll
    → owned_by token h.owner_token ≡ false
    → may_start pid interval ≡ true
    → Agrees token pid interval is_alive now h.pid db
takeover-Agrees token pid interval is_alive now poll db h row run cadence other allowed =
    subst (λ r. Agrees token pid interval is_alive now h.pid (record db { daemon_status = r }))
      (sym row) (Agrees-at token pid interval is_alive now poll db h run cadence other allowed)
