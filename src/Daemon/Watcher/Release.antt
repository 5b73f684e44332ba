-- ===== src/Daemon/Watcher/Release.antt =====
-- A run leaves no liveness behind.
use proactive_mcp.Prelude.{
  ℕ, String, ◌≡◌, refl, ◌∙◌, ap, Bool, true, false, not, ◌&&◌, ◌⊎◌, Option, none, some, List, arith,
  Bool-cases, inl, inr, ltb,
}
use proactive_mcp.Model.Daemon.{DaemonHeartbeat, is_running}
use proactive_mcp.Db.{Db, Outcome, returned, raised, Session, pure, transaction, execute}
use proactive_mcp.Db
use proactive_mcp.Fallbacks.Dispatch.{FallbackDispatch}
use proactive_mcp.Evaluation.Service.{EvaluationPass}
use proactive_mcp.Daemon.Status.{
  is_owned, is_expired, is_positive, write_start, start_over, try_record_start, record_stop,
  stopped_row, started_row, restarted_row,
}
use proactive_mcp.Daemon.Lock.{may_start}
use proactive_mcp.Daemon.Refinement.{owned_row, record_owned_lem}
use proactive_mcp.Daemon.Phase
use proactive_mcp.Daemon.Phase.{
  Ran, completed, daemon_failed, other_error, Watch, DaemonFailureKind, heartbeat_failed, conflict,
  calls, completes, fails, ran_of, continued, normalized, run_daemon_phase, with_cleanup, cleaned,
  ◌>>=◌, ◌>>◌,
}
use proactive_mcp.Daemon.Watcher.{PassReadings, claim, release, pass_once, run_once, run_forever}

-- Whether the row says that the instance runs.
abbrev pub owns : String → Option DaemonHeartbeat → Bool
owns token none = false
owns token (some h) = is_owned token h

owns-stopped :
    (token : String) (now : ℕ) (row : Option DaemonHeartbeat)
    → owns token (owned_row token (stopped_row now) row) ≡ false
owns-stopped token now none = refl
owns-stopped token now (some h) = elim (Bool-cases (is_owned token h)) [
  | inl e ↦ rw e refl
  | inr e ↦ rw e e
]

ran_of-db : {A : Type 0} (r : Outcome A × Db) → (ran_of r).1 ≡ r.1
ran_of-db (returned a, db) = refl
ran_of-db (raised e, db) = refl

normalized-db :
    {A : Type 0} (kind : DaemonFailureKind) (r : Ran A × Db) → (normalized kind r).1 ≡ r.1
normalized-db kind (completed a, db) = refl
normalized-db kind (daemon_failed inner, db) = refl
normalized-db kind (other_error e, db) = refl

cleaned-db : {A : Type 0} (r : Ran A) (c : Ran (Unit {0}) × Db) → (cleaned r c).1 ≡ c.1
cleaned-db r (completed u, db) = refl
cleaned-db r (daemon_failed kind, db) = refl
cleaned-db r (other_error e, db) = refl

module _ (token : String) (pid : ℕ) (evaluate_once : Watch EvaluationPass)
    (dispatch_at : ℕ → Watch (List FallbackDispatch)) where
  -- The release ends the ownership, whatever the row was.
  release-owns :
      (now : ℕ) (db : Db)
      → owns token (release token pid evaluate_once dispatch_at now db).1.daemon_status ≡ false
  unfolding release run_daemon_phase calls record_stop
  release-owns now db =
      ap (λ d. owns token d.daemon_status)
        (normalized-db heartbeat_failed (ran_of (record_stop token now db))
          ∙ ran_of-db (record_stop token now db))
      ∙ ap (owns token) (record_owned_lem token (stopped_row now) db db.daemon_status)
      ∙ owns-stopped token now db.daemon_status

  with_cleanup-owns :
      {A : Type 0} (m : Watch A) (now : ℕ) (db : Db)
      → owns token
          (with_cleanup m (release token pid evaluate_once dispatch_at now) db).1.daemon_status
        ≡ false
  unfolding with_cleanup
  with_cleanup-owns m now db =
      ap (λ d. owns token d.daemon_status) (cleaned-db (m db).0 _) ∙ release-owns now (m db).1

-- A start that is allowed succeeds, or another instance owns the row.
start_over-outcome :
    (token : String) (pid : ℕ) (interval : Option ℕ) (now : ℕ) (db : Db)
    (row : Option DaemonHeartbeat)
    → ltb 0 pid ≡ true
    → ((after : Db) × (transaction (start_over token pid interval none now row) db
          ≡ (returned true, after)))
      ⊎ ((transaction (start_over token pid interval none now row) db ≡ (returned false, db))
          × (owns token row ≡ false))
unfolding start_over write_start transaction pure Db.◌>>=◌
start_over-outcome token pid interval now db none p =
    inl (record db { daemon_status = some (started_row token pid interval now) }, rw p refl)
start_over-outcome token pid interval now db (some h) p = elim (Bool-cases (is_owned token h)) [
  | inl own ↦ inl (db, rw own refl)
  | inr own ↦ elim (Bool-cases (is_running h.state && not (is_expired h now interval) && true)) [
    | inl stands ↦ inr (rw (own, stands) refl, own)
    | inr stands ↦ inl (
      record db { daemon_status = some (restarted_row token pid interval now h) },
      rw (own, stands, p) refl,
    )
  ]
]

module _ (token : String) (pid : ℕ) (evaluate_once : Watch EvaluationPass)
    (dispatch_at : ℕ → Watch (List FallbackDispatch)) where
  claim_lem :
      (interval : Option ℕ) (now : ℕ) (db : Db)
      → may_start pid interval ≡ true
      → ((after : Db) × (claim token pid evaluate_once dispatch_at interval now db
            ≡ (completed tt, after)))
        ⊎ ((claim token pid evaluate_once dispatch_at interval now db
              ≡ (daemon_failed conflict, db))
            × (owns token db.daemon_status ≡ false))
  unfolding claim try_record_start run_daemon_phase calls completes fails Phase.◌>>=◌ Db.◌>>=◌
      start_over transaction
  claim_lem interval now db allowed =
      let positive : is_positive interval ≡ true = ground arith in
      elim (start_over-outcome token pid interval now db db.daemon_status (ground arith)) [
        | inl (after, e) ↦ inl (after, rw (positive, e) refl)
        | inr (e, other) ↦ inr (rw (positive, e) refl, other)
      ]

  claimed-owns :
      {A : Type 0} (interval : Option ℕ) (now stopped_at : ℕ) (m : Watch A) (db : Db)
      → may_start pid interval ≡ true
      → owns token
          ((claim token pid evaluate_once dispatch_at interval now
              >> with_cleanup m (release token pid evaluate_once dispatch_at stopped_at))
            db).1.daemon_status
        ≡ false
  unfolding Phase.◌>>=◌
  claimed-owns interval now stopped_at m db allowed = elim (claim_lem interval now db allowed) [
    | inl (after, e) ↦
        rw e (with_cleanup-owns token pid evaluate_once dispatch_at m stopped_at after)
    | inr (e, other) ↦ rw e other
  ]

  -- Whatever the evaluation and the notifier do, return or raise, and whatever the row was, after
  -- `run_once` of a process the liveness row does not say that this instance runs.
  pub run_once-owns :
      (claimed_at : ℕ) (at : PassReadings) (stopped_at : ℕ) (db : Db)
      → ltb 0 pid ≡ true
      → owns token
          (run_once token pid evaluate_once dispatch_at claimed_at at stopped_at db).1.daemon_status
        ≡ false
  unfolding run_once
  run_once-owns claimed_at at stopped_at db process =
      claimed-owns none claimed_at stopped_at (pass_once token pid evaluate_once dispatch_at at) db
        (ground arith)

  -- The same after `run_forever` with a cadence that is not zero, however many passes it ran.
  pub run_forever-owns :
      (poll_interval : ℕ) (readings : ℕ → PassReadings) (wait : ℕ → ℕ → Bool)
      (fuel claimed_at stopped_at : ℕ) (db : Db)
      → ltb 0 pid ≡ true
      → ltb 0 poll_interval ≡ true
      → owns token
          (run_forever token pid evaluate_once dispatch_at poll_interval readings wait fuel
            claimed_at stopped_at db).1.daemon_status
        ≡ false
  unfolding run_forever
  run_forever-owns poll_interval readings wait fuel claimed_at stopped_at db process cadence =
      claimed-owns (some poll_interval) claimed_at stopped_at _ db (ground arith)
