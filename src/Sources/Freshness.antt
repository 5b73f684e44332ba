-- ===== src/Sources/Freshness.antt =====
-- src/proactive_mcp/store/freshness.py. Ages are whole seconds; a clock that stands before the
-- last success gives a negative age, which Python's `int` cuts towards zero.
use proactive_mcp.Prelude.{
  ℕ, ◌-◌, ◌*◌, ◌/◌, ◌≤◌, ◌+◌, ◌≡◌, ◌↔◌, refl, Bool, false, Option, none, some, leb, if◌then◌else◌,
  arith,
}
use proactive_mcp.Model.Source.{
  SourceSyncState, SourceAuthState, not_configured, configured, needs_reauth, SourceErrorCode,
}

pub data SourceFreshnessStatus : Type 0 where
  unconfigured never_synced ok stale error reauth : SourceFreshnessStatus

-- The age of a success in the past, or how far it lies in the future.
pub data Age : Type 0 where
  seconds : ℕ → Age
  seconds_ahead : ℕ → Age

pub record SourceFreshness : Type 0 where
  pub status : SourceFreshnessStatus
  pub last_success_at : Option ℕ
  pub last_attempt_at : Option ℕ
  pub age : Option Age
  pub error_code : Option SourceErrorCode

abbrev pub microseconds : ℕ
microseconds = 1000000

-- int((now - last_success_at).total_seconds())
unfoldable pub age_of : ℕ → ℕ → Age
age_of now last =
    if leb last now
    then seconds ((now - last) / microseconds)
    else seconds_ahead ((last - now) / microseconds)

-- age_seconds >= stale_after.total_seconds(), with the threshold in microseconds
unfoldable pub is_stale : Age → ℕ → Bool
is_stale (seconds n) stale_after = leb stale_after (n * microseconds)
is_stale (seconds_ahead n) stale_after = leb (n * microseconds + stale_after) 0

-- _AUTH_STATUSES
abbrev pub auth_status : SourceAuthState → Option SourceFreshnessStatus
auth_status not_configured = some unconfigured
auth_status configured = none
auth_status needs_reauth = some reauth

abbrev freshness : SourceSyncState → SourceFreshnessStatus → Option Age → SourceFreshness
freshness s status age = record {
  status = status;
  last_success_at = s.last_success_at;
  last_attempt_at = s.last_attempt_at;
  age = age;
  error_code = s.last_error_code;
}

abbrev by_age : SourceSyncState → Age → ℕ → SourceFreshness
by_age s age stale_after = freshness s (if is_stale age stale_after then stale else ok) (some age)

abbrev by_success : SourceSyncState → Option ℕ → ℕ → ℕ → SourceFreshness
by_success s none now stale_after = freshness s never_synced none
by_success s (some last) now stale_after = by_age s (age_of now last) stale_after

abbrev by_error : SourceSyncState → Option SourceErrorCode → ℕ → ℕ → SourceFreshness
by_error s (some code) now stale_after = freshness s error none
by_error s none now stale_after = by_success s s.last_success_at now stale_after

abbrev by_auth : SourceSyncState → Option SourceFreshnessStatus → ℕ → ℕ → SourceFreshness
by_auth s (some status) now stale_after = freshness s status none
by_auth s none now stale_after = by_error s s.last_error_code now stale_after

unfoldable pub evaluate_source_freshness : SourceSyncState → ℕ → ℕ → SourceFreshness
unfolding age_of is_stale
evaluate_source_freshness s now stale_after = by_auth s (auth_status s.auth_state) now stale_after

-- A source is fresh exactly when it is configured, its last attempt left no error, and its last
-- success lies, in whole seconds, less than the threshold back.
pub ok_iff :
    (s : SourceSyncState) (now stale_after : ℕ)
    → ((evaluate_source_freshness s now stale_after).status ≡ ok)
      ↔ (s.auth_state ≡ configured)
        × (s.last_error_code ≡ none)
        × ((last : ℕ) × (s.last_success_at ≡ some last)
            × (is_stale (age_of now last) stale_after ≡ false))
unfolding evaluate_source_freshness
ok_iff s now stale_after = (λ h. to_parts s.last_success_at refl h, λ h. ground arith)
  where
    to_parts :
        (success : Option ℕ)
        → s.last_success_at ≡ success
        → (evaluate_source_freshness s now stale_after).status ≡ ok
        → (s.auth_state ≡ configured)
          × (s.last_error_code ≡ none)
          × ((last : ℕ) × (s.last_success_at ≡ some last)
              × (is_stale (age_of now last) stale_after ≡ false))
    to_parts none e h = absurd (ground arith)
    to_parts (some last) e h = (ground arith, ground arith, (last, e, ground arith))

-- For a past success and a threshold in whole seconds: stale exactly from the threshold on.
pub stale_boundary :
    (now last n : ℕ)
    → last ≤ now
    → is_stale (age_of now last) (n * microseconds) ≡ leb (last + n * microseconds) now
unfolding age_of is_stale
stale_boundary now last n past = ground arith
