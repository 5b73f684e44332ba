-- ===== src/Examples/Sync.antt =====
-- The theorems on sources and guards at small inputs.
use proactive_mcp.Prelude.{ℕ, ◌≡◌, refl, false, none, some, [], ◌∷◌, All, arith, inr}
use proactive_mcp.Model.Situation.{DetectionApplySummary}
use proactive_mcp.Model.Source.{gmail, complete}
use proactive_mcp.Db.{
  Db, returned, raised, delayed_generation, unreserved_generation, transaction, ◌>>=◌, update_id,
}
use proactive_mcp.Situations.Upsert.{
  upsert_batch, upsert_detection, record_size, store_unless, store_detection, update_existing,
  row_update, reopen, renew, resolve_all, resolve_each, resolve_row,
}
use proactive_mcp.Situations.Statements.{refresh}
use proactive_mcp.Situations.Access.{update_row}
use proactive_mcp.Situations.Reader.{situation_by_dedupe_key, count_situations, active_by_type}
use proactive_mcp.Sources.SyncState.{accept_source_generation, record_success}
use proactive_mcp.Situations.Upsert.Resolution.{absent}
use proactive_mcp.Sources.Generations.{accept, accept_row, generation_state}
use proactive_mcp.Sources.Generations.Order.{accept_newer, accept_order}
use proactive_mcp.Sources.Consistency.{
  SourceTruth, Readings, apply_truth, finish_truth, resolve_truth, record_truth,
  apply_source_generation, keys_of, source_type, row_source,
}
use proactive_mcp.Sources.Consistency.Atomic.{
  apply_source_generation_refused, complete_truth_covers,
}
use proactive_mcp.Guards.LazySync.{
  LazySyncLease, acquires, releases, acquire, run, holder, acquire_excludes,
}
use proactive_mcp.Guards.Evaluation.{starts, IsSpaced, starts-IsSpaced}
use proactive_mcp.Examples.Data.{sample_db, sample-WellFormed, sample_detection, evidence_bytes}

abbrev issued_db : Db
issued_db = record sample_db {
  gmail_generation = some (record {
    issued = 3;
    applied = 1;
    status = some complete;
    issued_at = some 50;
    applied_at = some 60;
  });
}

newer_accepted :
    (accept (record { source = gmail; number = 2 }) complete 70 issued_db).0 ≡ returned tt
unfolding generation_state
newer_accepted = (accept_newer 2 gmail complete 70 issued_db (omega arith) (omega arith)).0

accept_order_example :
    accept
      (record { source = gmail; number = 1 })
      complete
      80
      (accept (record { source = gmail; number = 2 }) complete 70 issued_db).1
    ≡ (
      raised (delayed_generation (record { source = gmail; number = 1 }) 2),
      (accept (record { source = gmail; number = 2 }) complete 70 issued_db).1,
    )
accept_order_example =
    accept_order 2 1 gmail complete complete 70 80 issued_db newer_accepted (omega arith)

abbrev sample_truth : ℕ → SourceTruth
sample_truth n = record {
  generation = record { source = gmail; number = n };
  detections = sample_detection ∷ [];
  status = complete;
  sync_cursor = none;
  error_code = none;
  diagnostics = none;
  resolve_absent = false;
  resolution_scope_ids = [];
  resolution_excluded_ids = [];
}

abbrev sample_readings : Readings
sample_readings = record { timestamp = 100; accepted_at = 101; recorded_at = 102 }

apply_source_generation_refused_example :
    apply_source_generation evidence_bytes sample_readings (sample_truth 9) issued_db
    ≡ (raised (unreserved_generation (record { source = gmail; number = 9 })), issued_db)
unfolding generation_state
apply_source_generation_refused_example =
    apply_source_generation_refused evidence_bytes sample_readings (sample_truth 9) issued_db refl
      (inr (omega arith))

abbrev sample_summary : DetectionApplySummary
sample_summary = record {
  upsert = record {
    created = 0;
    reactivated = 0;
    refreshed = 1;
    skipped = 0;
    capacity_skipped = 0;
  };
  resolved_count = 0;
}

applied :
    (apply_source_generation evidence_bytes sample_readings (sample_truth 2) issued_db).0
    ≡ returned sample_summary
unfolding apply_source_generation apply_truth transaction ◌>>=◌ accept_source_generation accept
    accept_row upsert_batch upsert_detection record_size situation_by_dedupe_key count_situations
    store_unless store_detection update_existing row_update reopen renew update_row update_id
    finish_truth resolve_truth resolve_all active_by_type resolve_each resolve_row record_truth
    record_success source_type row_source refresh
applied = refl

complete_truth_covers_example :
    All
      (λ s.
        absent (source_type gmail) (some (row_source gmail)) (keys_of (sample_detection ∷ [])) s
        ≡ false)
      (apply_source_generation evidence_bytes sample_readings
        (sample_truth 2)
        issued_db).1.situations
complete_truth_covers_example =
    complete_truth_covers evidence_bytes sample_readings (sample_truth 2) issued_db sample_summary
      sample-WellFormed refl applied

abbrev first_lease : LazySyncLease
first_lease = record { token = "a"; acquired_at = 10; expires_at = 30 }

acquire_excludes_example :
    holder
      (acquire "c" 20 25 (run (acquires "b" 5 12 ∷ releases "b" ∷ []) (acquire "a" 20 10 none).1)).0
    ≡ none
acquire_excludes_example =
    acquire_excludes "a" 20 10 none first_lease (acquires "b" 5 12 ∷ releases "b" ∷ []) "c" 20 25
      (unfold acquire in refl) (omega arith, (refl, tt)) (omega arith)

starts-IsSpaced_example : IsSpaced 10 (some 5) (starts 10 (12 ∷ 15 ∷ 20 ∷ 30 ∷ []) (some 5))
starts-IsSpaced_example = starts-IsSpaced 10 (12 ∷ 15 ∷ 20 ∷ 30 ∷ []) (some 5)
