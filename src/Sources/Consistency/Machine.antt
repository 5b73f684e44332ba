-- ===== src/Sources/Consistency/Machine.antt =====
-- The parts of the application of source truth keep to the history.
use proactive_mcp.Prelude.{
  ℕ, ◌≡◌, refl, String, true, false, Option, none, some, List, [], ◌∷◌, Bool-cases, inl, inr,
}
use proactive_mcp.Model.Situation.{DetectionUpsertSummary}
use proactive_mcp.Model.Source.{
  SourceName, gmail, calendar, SourceGeneration, SourceGenerationStatus, complete, degraded,
  SourceSyncState, SourceErrorCode, SourceReadDiagnostics, SourceAuthState,
}
use proactive_mcp.Db.{Db}
use proactive_mcp.Situations.Lifecycle.History.{
  History, History-unchanged, History-trans, Advances, Advances-raise, Advances-pure, Advances-bind,
  Advances-execute, Advances-if,
}
use proactive_mcp.Situations.Upsert.Machine.{resolve_all-Advances, resolve_by_source_ids-Advances}
use proactive_mcp.Sources.SyncState.{
  write_sync, record_success, record_failure, write_google_auth, write_auth_row, record_error,
  validate, valid_diagnostics, is_invalid_grant, write_diagnostics, accept_source_generation,
  is_gmail,
}
use proactive_mcp.Sources.Generations.Order.{accept-Advances}
use proactive_mcp.Sources.Consistency.{
  SourceTruth, Readings, resolve_truth, resolve_scope, record_truth, finish_truth,
}

write_sync-History :
    (source : SourceName) (row : SourceSyncState) (db : Db) → History db (write_sync source row db)
write_sync-History gmail row db = History-unchanged db _ refl refl refl refl (λ l. l)
write_sync-History calendar row db = History-unchanged db _ refl refl refl refl (λ l. l)

record_success-History :
    (now : ℕ) (source : SourceName) (cursor : Option String) (db : Db)
    → History db (record_success now source cursor db)
unfolding record_success
record_success-History now source cursor db = write_sync-History source _ db

record_failure-History :
    (now : ℕ) (source : SourceName) (code : SourceErrorCode) (db : Db)
    → History db (record_failure now source code db)
unfolding record_failure
record_failure-History now source code db = write_sync-History source _ db

write_google_auth-History :
    (now : ℕ) (auth : SourceAuthState) (code : Option SourceErrorCode) (db : Db)
    → History db (write_google_auth now auth code db)
unfolding write_google_auth write_auth_row
write_google_auth-History now auth code db =
    History-trans (write_sync-History gmail _ db) (write_sync-History calendar _ _)

record_error-History :
    (now : ℕ) (source : SourceName) (code : SourceErrorCode) (db : Db)
    → History db (record_error now source code db)
record_error-History now source code db = elim (Bool-cases (is_invalid_grant code)) [
  | inl grant ↦ rw grant (write_google_auth-History now _ _ db)
  | inr other ↦ rw other (record_failure-History now source code db)
]

pub record_truth-History :
    (t : SourceTruth) (now : ℕ) (code : Option SourceErrorCode) (status : SourceGenerationStatus)
    (db : Db)
    → History db (record_truth t now code status db)
unfolding record_truth
record_truth-History t now none complete db = record_success-History now _ _ db
record_truth-History t now none degraded db = record_failure-History now _ _ db
record_truth-History t now (some code) complete db = record_error-History now _ code db
record_truth-History t now (some code) degraded db = record_error-History now _ code db

pub accept_source_generation-Advances :
    (g : SourceGeneration) (status : SourceGenerationStatus) (now : ℕ)
    (d : Option SourceReadDiagnostics)
    → Advances (accept_source_generation g status now d)
unfolding accept_source_generation validate write_diagnostics
accept_source_generation-Advances g status now none = accept-Advances g status now
accept_source_generation-Advances g status now (some d) =
    Advances-if (is_gmail g.source) _ _
      (Advances-bind _ _
        (Advances-if (valid_diagnostics d) _ _ (Advances-pure _) (Advances-raise _))
        λ _.
          Advances-bind _ _ (accept-Advances g status now)
            λ _. Advances-execute _ (λ db. History-unchanged db _ refl refl refl refl (λ l. l)))
      (Advances-raise _)

pub resolve_scope-Advances :
    (t : SourceTruth) (now : ℕ) (ids : List String) → Advances (resolve_scope t now ids)
resolve_scope-Advances t now [] = Advances-pure _
resolve_scope-Advances t now (i ∷ ids) = resolve_by_source_ids-Advances _ _ _ now true _

pub resolve_truth-Advances :
    (t : SourceTruth) (now : ℕ) (status : SourceGenerationStatus)
    → Advances (resolve_truth t now status)
unfolding resolve_truth
resolve_truth-Advances t now complete = resolve_all-Advances _ _ now _
resolve_truth-Advances t now degraded =
    Advances-if t.resolve_absent _ _ (resolve_by_source_ids-Advances _ _ _ now false _)
      (resolve_scope-Advances t now t.resolution_scope_ids)

pub finish_truth-Advances :
    (at : Readings) (t : SourceTruth) (summary : DetectionUpsertSummary)
    → Advances (finish_truth at t summary)
unfolding finish_truth
finish_truth-Advances at t summary = Advances-bind _ _ (resolve_truth-Advances t _ _) λ resolved.
    Advances-bind _ _ (Advances-execute _ (λ db. record_truth-History t _ _ _ db))
      λ _. Advances-pure _

situations-write_sync :
    (source : SourceName) (row : SourceSyncState) (db : Db)
    → (write_sync source row db).situations ≡ db.situations
situations-write_sync gmail row db = refl
situations-write_sync calendar row db = refl

situations-record_error :
    (now : ℕ) (source : SourceName) (code : SourceErrorCode) (db : Db)
    → (record_error now source code db).situations ≡ db.situations
unfolding record_failure write_google_auth write_auth_row
situations-record_error now source code db = elim (Bool-cases (is_invalid_grant code)) [
  | inl grant ↦ rw grant refl
  | inr other ↦ rw other (situations-write_sync source _ db)
]

pub situations-record_truth :
    (t : SourceTruth) (now : ℕ) (code : Option SourceErrorCode) (status : SourceGenerationStatus)
    (db : Db)
    → (record_truth t now code status db).situations ≡ db.situations
unfolding record_truth record_success record_failure write_google_auth write_auth_row
situations-record_truth t now none complete db = situations-write_sync _ _ db
situations-record_truth t now none degraded db = situations-write_sync _ _ db
situations-record_truth t now (some code) complete db = situations-record_error now _ code db
situations-record_truth t now (some code) degraded db = situations-record_error now _ code db
