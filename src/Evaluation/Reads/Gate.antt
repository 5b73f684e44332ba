-- ===== src/Evaluation/Reads/Gate.antt =====
-- When a tool-time read happens.
use proactive_mcp.Prelude.{
  ℕ, String, ◌+◌, ◌≤◌, ◌<◌, ◌≡◌, ◌⊎◌, inl, inr, refl, ap, false, Option, none, some, arith,
}
use proactive_mcp.Model.Source
use proactive_mcp.Model.Source.{gmail, calendar, SourceAuthState, configured}
use proactive_mcp.Model.Daemon.{DaemonHeartbeat, DaemonState, running, stopped}
use proactive_mcp.Sources.Freshness.{ok, evaluate_source_freshness}
use proactive_mcp.Db.{Db, Session, returned, pure, raise, query, execute, finally, ◌>>=◌}
use proactive_mcp.Guards.LazySync.{LazySyncLease, Acquired, invalid_duration, outcome, acquire}
use proactive_mcp.Sources.SyncState.{source_sync, record_credential_state}
use proactive_mcp.Daemon.Status.{status, status_of, liveness}
use proactive_mcp.Evaluation.Engine.{EngineInputs}
use proactive_mcp.Evaluation.Service.{SourceSkipReason, prepared_sources}
use proactive_mcp.Evaluation.Reads.{
  Loaded, storage_error, absent, present, auth_skip, authorization_skip, daemon_owns_reads, latest,
  attempted_within, LazySyncPolicy, all_fresh, degraded_skip, first_skip, read_with, read,
  read_unless, acquired, acquire_lease, release_lease, read_under, read_with_lease, prepare_lazy,
}

-- No watcher runs that renewed its row within the threshold.
abbrev pub Unwatched : ℕ → ℕ → Option DaemonHeartbeat → Type 0
Unwatched stale_after now none = Unit {0}
Unwatched stale_after now (some h) = (h.state ≡ stopped) ⊎ (h.heartbeat_at + stale_after < now)

-- No attempt was made within the interval.
abbrev pub LongAgo : ℕ → ℕ → Option ℕ → Type 0
LongAgo interval now none = Unit {0}
LongAgo interval now (some attempt) = attempt + interval ≤ now

-- No lease runs.
abbrev pub Unleased : ℕ → Option LazySyncLease → Type 0
Unleased now none = Unit {0}
Unleased now (some lease) = lease.expires_at ≤ now

first_skip-none : (a b : Option SourceSkipReason) → first_skip a b ≡ none → (a ≡ none) × (b ≡ none)
first_skip-none none b e = (refl, e)
first_skip-none (some r) b e = absurd (cc)

auth_skip-none : (s : SourceAuthState) → auth_skip s ≡ none → s ≡ configured
auth_skip-none configured e = refl
auth_skip-none Source.SourceAuthState.not_configured e = absurd (cc)
auth_skip-none Source.SourceAuthState.needs_reauth e = absurd (cc)

status-Unwatched :
    (stale_after now : ℕ) (row : Option DaemonHeartbeat)
    → daemon_owns_reads (status_of (some stale_after) now row).liveness ≡ false
    → Unwatched stale_after now row
unfolding liveness
status-Unwatched stale_after now none e = tt
status-Unwatched stale_after now (some h) e = by_state h.state refl
  where
    by_state :
        (state : DaemonState)
        → h.state ≡ state
        → (state ≡ stopped) ⊎ (h.heartbeat_at + stale_after < now)
    by_state stopped s = inl refl
    by_state running s = inr (ground (arith, s, e))

attempted_within-LongAgo :
    (now interval : ℕ) (a b : Option ℕ)
    → attempted_within now interval (latest a b) ≡ false
    → LongAgo interval now a × LongAgo interval now b
attempted_within-LongAgo now interval none none e = (tt, tt)
attempted_within-LongAgo now interval none (some b) e = (tt, ground arith)
attempted_within-LongAgo now interval (some a) none e = (ground arith, tt)
attempted_within-LongAgo now interval (some a) (some b) e = (ground arith, ground arith)

acquire-Unleased :
    (token : String) (duration now : ℕ) (row : Option LazySyncLease) (lease : LazySyncLease)
    → (acquire token duration now row).0 ≡ outcome (some lease)
    → (0 < duration) × Unleased now row
unfolding acquire
acquire-Unleased token duration now none lease e = (ground arith, tt)
acquire-Unleased token duration now (some l) lease e = (ground arith, ground arith)

module _ {C : Type 0} (load : Loaded C) (prepare_evaluation : C → Session EngineInputs) where
  -- What must hold at the start of a lazy read.
  pub record MayRead (policy : LazySyncPolicy) (now : ℕ) (db : Db) : Type 0 where
    pub gmail_authorized : (source_sync gmail db).auth_state ≡ configured
    pub calendar_authorized : (source_sync calendar db).auth_state ≡ configured
    pub unwatched : Unwatched policy.daemon_stale_after now db.daemon_status
    pub outdated : ¬ (
        ((evaluate_source_freshness (source_sync gmail db) now policy.stale_after).status ≡ ok)
        × ((evaluate_source_freshness (source_sync calendar db) now policy.stale_after).status
            ≡ ok))
    pub gmail_quiet : LongAgo policy.min_attempt_interval now (source_sync gmail db).last_attempt_at
    pub calendar_quiet :
        LongAgo policy.min_attempt_interval now (source_sync calendar db).last_attempt_at
    pub interval : 0 < policy.min_attempt_interval
    pub unleased : Unleased now db.lazy_lease
    pub credential : C
    pub loaded : load ≡ present credential

  all_fresh-ok :
      (policy : LazySyncPolicy) (now : ℕ) (db : Db)
      → (evaluate_source_freshness (source_sync gmail db) now policy.stale_after).status ≡ ok
      → (evaluate_source_freshness (source_sync calendar db) now policy.stale_after).status ≡ ok
      → all_fresh policy.stale_after now db ≡ false
      → ⊥
  unfolding all_fresh
  all_fresh-ok policy now db g c e = let h = rw (g, c) at e in absurd (cc)

  degraded-none :
      (policy : LazySyncPolicy) (now : ℕ) (db : Db)
      → degraded_skip policy now db ≡ none
      → (daemon_owns_reads (status (some policy.daemon_stale_after) now db).liveness ≡ false)
        × (all_fresh policy.stale_after now db ≡ false)
        × (attempted_within now policy.min_attempt_interval (
              latest
                (source_sync gmail db).last_attempt_at
                (source_sync calendar db).last_attempt_at)
            ≡ false)
  unfolding degraded_skip
  degraded-none policy now db e = (ground arith, ground arith, ground arith)

  read_with-prepared :
      (now : ℕ) (l : Loaded C) (db : Db) (inputs : EngineInputs)
      → (read_with load prepare_evaluation now l db).0 ≡ returned (prepared_sources inputs)
      → (c : C) × (l ≡ present c)
  unfolding record_credential_state pure execute ◌>>=◌
  read_with-prepared now storage_error db inputs e = absurd (cc)
  read_with-prepared now absent db inputs e = absurd (cc)
  read_with-prepared now (present c) db inputs e = (c, refl)

  read_under-prepared :
      (now : ℕ) (l : Option LazySyncLease) (db : Db) (inputs : EngineInputs)
      → (read_under load prepare_evaluation now l db).0 ≡ returned (prepared_sources inputs)
      → (lease : LazySyncLease) × (l ≡ some lease) × ((c : C) × (load ≡ present c))
  unfolding read_under finally release_lease read pure execute
  read_under-prepared now none db inputs e = absurd (cc)
  read_under-prepared now (some lease) db inputs e =
      (lease, refl, read_with-prepared now load db inputs e)

  -- The lease comes from the row as it stands.
  leased-prepared :
      (now : ℕ) (a : Acquired × Option LazySyncLease) (db : Db) (inputs : EngineInputs)
      → ((acquired load prepare_evaluation a >>= read_under load prepare_evaluation now) db).0
        ≡ returned (prepared_sources inputs)
      → (lease : LazySyncLease) × (a.0 ≡ outcome (some lease)) × ((c : C) × (load ≡ present c))
  unfolding ◌>>=◌ raise pure execute
  leased-prepared now (invalid_duration, row) db inputs e = absurd (cc)
  leased-prepared now (outcome l, row) db inputs e =
      let (lease, same, loaded) = read_under-prepared now l _ inputs e in
      (lease, ap outcome same, loaded)

  -- A tool-time read that returns snapshots began when both sources were authorized, no watcher ran
  -- that had renewed its row within the policy's threshold, at least one source was not fresh,
  -- neither source had been attempted within the policy's interval, which was not zero, no lease
  -- was running, and a credential was stored.
  pub prepare_lazy-MayRead :
      (policy : LazySyncPolicy) (token : String) (now : ℕ) (db : Db) (inputs : EngineInputs)
      → (prepare_lazy load prepare_evaluation policy token now db).0
        ≡ returned (prepared_sources inputs)
      → MayRead policy now db
  unfolding prepare_lazy read_with_lease acquire_lease authorization_skip status ◌>>=◌ query pure
  prepare_lazy-MayRead policy token now db inputs e =
      by_skips (authorization_skip db) (degraded_skip policy now db) refl refl e
    where
      by_skips :
          (a d : Option SourceSkipReason)
          → authorization_skip db ≡ a
          → degraded_skip policy now db ≡ d
          → (read_unless load prepare_evaluation
              (first_skip a d)
              (read_with_lease load prepare_evaluation token policy.min_attempt_interval now)
              db).0
            ≡ returned (prepared_sources inputs)
          → MayRead policy now db
      by_skips (some r) d auth degraded h = absurd (cc)
      by_skips none (some r) auth degraded h = absurd (cc)
      by_skips none none auth degraded h =
          let (unwatched, outdated, quiet) = degraded-none policy now db degraded in
          let (lease, leased, (c, loaded)) =
            leased-prepared now (acquire token policy.min_attempt_interval now db.lazy_lease) db
              inputs h in
          let (gmail_ok, calendar_ok) = first_skip-none _ _ auth in
          let (old_gmail, old_calendar) =
            attempted_within-LongAgo now policy.min_attempt_interval
              (source_sync gmail db).last_attempt_at (source_sync calendar db).last_attempt_at
              quiet in
          let (positive, unleased) =
            acquire-Unleased token policy.min_attempt_interval now db.lazy_lease lease leased in
          record {
            gmail_authorized = auth_skip-none _ gmail_ok;
            calendar_authorized = auth_skip-none _ calendar_ok;
            unwatched = status-Unwatched policy.daemon_stale_after now db.daemon_status unwatched;
            outdated = λ both. all_fresh-ok policy now db both.0 both.1 outdated;
            gmail_quiet = old_gmail;
            calendar_quiet = old_calendar;
            interval = positive;
            unleased = unleased;
            credential = c;
            loaded = loaded;
          }
