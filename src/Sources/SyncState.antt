-- ===== src/Sources/SyncState.antt =====
-- Synchronization state (src/proactive_mcp/store/_sync_source_state.py), Gmail diagnostics
-- (_sync_diagnostics.py) and the methods of SyncStore (sync.py) over them. `now` is the clock's
-- reading.
use proactive_mcp.Prelude.{
  ℕ, String, Bool, true, false, not, ◌&&◌, Option, none, some, List, [], ◌∷◌, leb, if◌then◌else◌,
  contains, exists_where, str_eq,
}
use proactive_mcp.Model.Source.{
  SourceName, gmail, calendar, SourceGeneration, SourceGenerationStatus, SourceSyncState,
  SourceAuthState, SourceCredentialState, not_configured, configured, needs_reauth, SourceErrorCode,
  invalid_grant, SourceReadDiagnostics, SourceReadReasonCount, unconfigured_state,
}
use proactive_mcp.Model.Source
use proactive_mcp.Db.{Db, invalid_diagnostics, Session, pure, raise, execute, transaction, ◌>>◌}
use proactive_mcp.Sources.Generations.{accept}

abbrev pub sync_row : SourceName → Db → Option SourceSyncState
sync_row gmail db = db.gmail_sync
sync_row calendar db = db.calendar_sync

abbrev pub write_sync : SourceName → SourceSyncState → Db → Db
write_sync gmail row db = record db { gmail_sync = some row }
write_sync calendar row db = record db { calendar_sync = some row }

-- The row that an INSERT starts from: the column defaults.
abbrev pub sync_or_default : SourceAuthState → Option SourceSyncState → SourceSyncState
sync_or_default auth none = record {
  auth_state = auth;
  last_success_at = none;
  last_attempt_at = none;
  last_error_code = none;
  sync_cursor = none;
  updated_at = none;
}
sync_or_default auth (some row) = row

-- get_source_sync
unfoldable pub source_sync : SourceName → Db → SourceSyncState
unfolding unconfigured_state
source_sync source db = elim (sync_row source db) [ none ↦ unconfigured_state | some row ↦ row ]

unfoldable pub set_auth : ℕ → SourceName → SourceAuthState → Db → Db
set_auth now source auth db =
    let row = sync_or_default auth (sync_row source db) in
    write_sync source (record row { auth_state = auth; updated_at = some now }) db

unfoldable pub record_success : ℕ → SourceName → Option String → Db → Db
record_success now source cursor db =
    let row = sync_or_default configured (sync_row source db) in
    write_sync source
      (record row {
        last_success_at = some now;
        last_attempt_at = some now;
        last_error_code = none;
        sync_cursor = cursor;
        updated_at = some now;
      })
      db

unfoldable pub record_failure : ℕ → SourceName → SourceErrorCode → Db → Db
record_failure now source code db =
    let row = sync_or_default configured (sync_row source db) in
    write_sync source
      (record row {
        last_attempt_at = some now;
        last_error_code = some code;
        updated_at = some now;
      })
      db

-- The two CASE expressions: without an error code the old columns stay.
abbrev attempt : ℕ → Option SourceErrorCode → Option ℕ → Option ℕ
attempt now none old = old
attempt now (some code) old = some now

abbrev error_or : Option SourceErrorCode → Option SourceErrorCode → Option SourceErrorCode
error_or none old = old
error_or (some code) old = some code

unfoldable pub write_auth_row : ℕ → SourceAuthState → Option SourceErrorCode → SourceName → Db → Db
write_auth_row now auth code source db =
    let row = sync_or_default auth (sync_row source db) in
    write_sync source
      (record row {
        auth_state = auth;
        last_attempt_at = attempt now code row.last_attempt_at;
        last_error_code = error_or code row.last_error_code;
        updated_at = some now;
      })
      db

-- write_google_auth: both rows, gmail first
unfoldable pub write_google_auth : ℕ → SourceAuthState → Option SourceErrorCode → Db → Db
unfolding write_auth_row
write_google_auth now auth code db =
    write_auth_row now auth code calendar (write_auth_row now auth code gmail db)

unfoldable pub set_google_auth_state : ℕ → SourceAuthState → Session Unit
set_google_auth_state now auth = transaction (execute (write_google_auth now auth none))

-- The column `credential_state` and when it was observed
unfoldable pub write_credential_state : ℕ → SourceCredentialState → Db → Db
write_credential_state now state db = record db { credential = some (state, now) }

unfoldable pub record_credential_state : ℕ → SourceCredentialState → Session Unit
record_credential_state now state = execute (write_credential_state now state)

unfoldable pub disconnect_google_auth : ℕ → Session Unit
disconnect_google_auth now = transaction do
  execute (write_google_auth now not_configured none)
  execute (write_credential_state now Source.SourceCredentialState.unknown)

abbrev pub no_repeats : List SourceReadReasonCount → Bool
no_repeats [] = true
no_repeats (r ∷ rest) = not (exists_where (λ q. str_eq q.reason r.reason) rest) && no_repeats rest

abbrev pub source_read_reasons : List String
source_read_reasons =
    "body_snippet_fallback" ∷ "body_truncated" ∷ "degraded" ∷ "direction_metadata_ambiguous"
    ∷ "direction_metadata_missing" ∷ "http_4xx" ∷ "http_5xx" ∷ "identity_headers_ambiguous"
    ∷ "invalid_grant" ∷ "mime_structure_truncated" ∷ "network" ∷ "never_synced" ∷ "not_configured"
    ∷ "pagination_limit" ∷ "resource_limit" ∷ "scope_mismatch" ∷ "stale" ∷ "sync_budget_exhausted"
    ∷ "thread_list_entry_skipped" ∷ "thread_projection_limit" ∷ "thread_response_too_large"
    ∷ "thread_without_projectable_message" ∷ "timeout" ∷ "unknown" ∷ []

abbrev reasons_in_contract : List SourceReadReasonCount → Bool
reasons_in_contract [] = true
reasons_in_contract (r ∷ rest) =
    contains r.reason source_read_reasons && leb r.count 200 && reasons_in_contract rest

-- validate(): what it does not reject. Outcomes and the signs of the counts hold by their types.
unfoldable pub valid_diagnostics : SourceReadDiagnostics → Bool
valid_diagnostics d =
    leb d.request_count 221
    && leb d.page_count 20
    && leb d.projected_count 200
    && leb d.excluded_count 2000
    && leb d.byte_budget 8000000
    && no_repeats d.reason_counts
    && reasons_in_contract d.reason_counts

unfoldable pub validate : SourceReadDiagnostics → Session Unit
validate d = if valid_diagnostics d then pure tt else raise invalid_diagnostics

-- write(): the row and its reason counts are replaced.
unfoldable pub write_diagnostics : SourceReadDiagnostics → Session Unit
write_diagnostics d = execute (λ db. record db { diagnostics = some d })

abbrev pub is_gmail : SourceName → Bool
is_gmail gmail = true
is_gmail calendar = false

-- SyncStore.accept_source_generation
unfoldable pub accept_source_generation :
    SourceGeneration → SourceGenerationStatus → ℕ → Option SourceReadDiagnostics → Session Unit
accept_source_generation generation status now none = accept generation status now
accept_source_generation generation status now (some d) =
    if is_gmail generation.source
    then (do validate d; accept generation status now; write_diagnostics d)
    else raise invalid_diagnostics

-- How `record_gmail_sync` and `apply_source_generation` record an attempt that has an error code.
abbrev pub is_invalid_grant : SourceErrorCode → Bool
is_invalid_grant invalid_grant = true
is_invalid_grant _ = false

abbrev pub record_error : ℕ → SourceName → SourceErrorCode → Db → Db
record_error now source code db =
    if is_invalid_grant code
    then write_google_auth now needs_reauth (some invalid_grant) db
    else record_failure now source code db

abbrev record_attempt : ℕ → Option String → Option SourceErrorCode → Db → Db
record_attempt now cursor none db = record_success now gmail cursor db
record_attempt now cursor (some code) db = record_error now gmail code db

unfoldable pub record_gmail_sync :
    ℕ → SourceReadDiagnostics → Option String → Option SourceErrorCode → Session Unit
record_gmail_sync now d cursor code = do
  validate d
  transaction (do execute (record_attempt now cursor code); write_diagnostics d)

abbrev validate_given : Option SourceReadDiagnostics → Session Unit
validate_given none = pure tt
validate_given (some d) = validate d

abbrev write_given : Option SourceReadDiagnostics → Session Unit
write_given none = pure tt
write_given (some d) = write_diagnostics d

unfoldable pub record_google_invalid_grant : ℕ → Option SourceReadDiagnostics → Session Unit
record_google_invalid_grant now given = do
  validate_given given
  transaction
      (do execute (write_google_auth now needs_reauth (some invalid_grant)); write_given given)
