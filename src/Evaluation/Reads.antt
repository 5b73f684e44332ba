-- ===== src/Evaluation/Reads.antt =====
-- src/proactive_mcp/sources/lazy_sync.py: when a pass may read the sources. The stored credential
-- and the remote reader are arguments.
pub mod Gate
use proactive_mcp.Prelude.{
  ℕ, ◌+◌, ◌-◌, ◌*◌, String, Bool, true, false, not, ◌&&◌, Option, none, some, ltb, leb,
  if◌then◌else◌, max,
}
use proactive_mcp.Model.Source.{
  SourceAuthState, configured, SourceSyncState, SourceCredentialState, gmail, calendar, available,
  missing, unavailable,
}
use proactive_mcp.Model.Source
use proactive_mcp.Model.Daemon.{DaemonLiveness, live}
use proactive_mcp.Db.{
  Db, Session, invalid_lease_duration, returned, raised, pure, raise, query, execute, finally,
  ◌>>=◌, ◌>>◌,
}
use proactive_mcp.Guards.LazySync.{
  LazySyncLease, Acquired, invalid_duration, outcome, acquire, release,
}
use proactive_mcp.Sources.SyncState.{source_sync, record_credential_state}
use proactive_mcp.Sources.Freshness.{evaluate_source_freshness}
use proactive_mcp.Daemon.Status.{status}
use proactive_mcp.Evaluation.Engine.{EngineInputs, is_ok}
use proactive_mcp.Evaluation.Service.{
  SourceSkipReason, not_configured, needs_reauth, missing_credentials,
  credential_storage_unavailable, daemon_running, already_fresh, sync_in_flight, SourceOutcome,
  prepared_sources, skipped_sources,
}

-- What the credential store holds.
pub data Loaded (C : Type 0) : Type 0 where
  storage_error : Loaded C
  absent : Loaded C
  present : C → Loaded C

abbrev pub auth_skip : SourceAuthState → Option SourceSkipReason
auth_skip Source.SourceAuthState.not_configured = some not_configured
auth_skip Source.SourceAuthState.needs_reauth = some needs_reauth
auth_skip configured = none

abbrev pub first_skip : Option SourceSkipReason → Option SourceSkipReason → Option SourceSkipReason
first_skip none next = next
first_skip (some reason) next = some reason

-- _authorization_skip, over Gmail and then Calendar
unfoldable pub authorization_skip : Db → Option SourceSkipReason
unfolding source_sync
authorization_skip db =
    first_skip (auth_skip (source_sync gmail db).auth_state)
      (auth_skip (source_sync calendar db).auth_state)

-- _daemon_owns_reads
abbrev pub daemon_owns_reads : DaemonLiveness → Bool
daemon_owns_reads live = true
daemon_owns_reads _ = false

abbrev pub latest : Option ℕ → Option ℕ → Option ℕ
latest none b = b
latest (some a) none = some a
latest (some a) (some b) = some (max a b)

-- `age is not None and age < interval`; an attempt in the future has a negative age.
abbrev pub attempted_within : ℕ → ℕ → Option ℕ → Bool
attempted_within now interval none = false
attempted_within now interval (some at) = ltb now (at + interval)

pub record LazySyncPolicy : Type 0 where
  pub daemon_stale_after : ℕ
  pub min_attempt_interval : ℕ
  pub stale_after : ℕ

unfoldable pub for_poll_interval : ℕ → ℕ → LazySyncPolicy
for_poll_interval default_stale_after poll_interval = record {
  daemon_stale_after = 3 * poll_interval;
  min_attempt_interval = poll_interval;
  stale_after = default_stale_after;
}

unfoldable pub all_fresh : ℕ → ℕ → Db → Bool
unfolding source_sync
all_fresh stale_after now db =
    is_ok (evaluate_source_freshness (source_sync gmail db) now stale_after)
    && is_ok (evaluate_source_freshness (source_sync calendar db) now stale_after)

-- _degraded_skip
unfoldable pub degraded_skip : LazySyncPolicy → ℕ → Db → Option SourceSkipReason
unfolding source_sync
degraded_skip policy now db =
    if daemon_owns_reads (status (some policy.daemon_stale_after) now db).liveness
    then some daemon_running
    else if all_fresh policy.stale_after now db
    then some already_fresh
    else if attempted_within now policy.min_attempt_interval
        (latest (source_sync gmail db).last_attempt_at (source_sync calendar db).last_attempt_at)
    then some sync_in_flight
    else none

module _ {C : Type 0} (load : Loaded C) (prepare_evaluation : C → Session EngineInputs) where
  abbrev pub read_with : ℕ → Loaded C → Session SourceOutcome
  read_with now storage_error = do
    record_credential_state now unavailable
    pure (skipped_sources credential_storage_unavailable)
  read_with now absent = do
    record_credential_state now missing
    pure (skipped_sources missing_credentials)
  read_with now (present credential) = do
    record_credential_state now available
    inputs ← prepare_evaluation credential
    pure (prepared_sources inputs)

  -- _read
  unfoldable pub read : ℕ → Session SourceOutcome
  read now = read_with now load

  abbrev pub read_unless : Option SourceSkipReason → Session SourceOutcome → Session SourceOutcome
  read_unless (some reason) go = pure (skipped_sources reason)
  read_unless none go = go

  -- ScheduledSourceProvider.prepare_sources
  unfoldable pub prepare_scheduled : ℕ → Session SourceOutcome
  prepare_scheduled now = do blocked ← query authorization_skip; read_unless blocked (read now)

  -- The statements of the lease, on the row of the database
  abbrev pub acquired : Acquired × Option LazySyncLease → Session (Option LazySyncLease)
  acquired (invalid_duration, row) = raise invalid_lease_duration
  acquired (outcome lease, row) = do execute (λ db. record db { lazy_lease = row }); pure lease

  unfoldable pub acquire_lease : String → ℕ → ℕ → Session (Option LazySyncLease)
  acquire_lease token duration now = do
    row ← query (λ db. db.lazy_lease)
    acquired (acquire token duration now row)

  unfoldable pub release_lease : LazySyncLease → Session Unit
  release_lease lease =
      execute (λ db. record db { lazy_lease = (release lease.token db.lazy_lease).1 })

  unfoldable pub read_under : ℕ → Option LazySyncLease → Session SourceOutcome
  read_under now none = pure (skipped_sources sync_in_flight)
  read_under now (some lease) = finally (read now) (release_lease lease)

  -- _read_with_lease
  unfoldable pub read_with_lease : String → ℕ → ℕ → Session SourceOutcome
  read_with_lease token duration now = do
    lease ← acquire_lease token duration now
    read_under now lease

  -- LazySourceProvider.prepare_sources
  unfoldable pub prepare_lazy : LazySyncPolicy → String → ℕ → Session SourceOutcome
  prepare_lazy policy token now = do
    unauthorized ← query authorization_skip
    degraded ← query (degraded_skip policy now)
    read_unless (first_skip unauthorized degraded)
        (read_with_lease token policy.min_attempt_interval now)
