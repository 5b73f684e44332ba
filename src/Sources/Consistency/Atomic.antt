-- ===== src/Sources/Consistency/Atomic.antt =====
-- The application of source truth as a whole: it keeps to the history, a refused generation changes
-- nothing, and a complete source leaves no open row that it does not report.
use proactive_mcp.Prelude.{
  subst, ◌∙◌, ℕ, ◌≤◌, ◌<◌, ◌≡◌, refl, ◌⊎◌, inl, inr, arith, false, Option, none, some, List, All,
  leb, if◌then◌else◌,
}
use proactive_mcp.Model.Situation.{
  Situation, SituationEvidence, Detection, DetectionApplySummary, DetectionUpsertSummary,
}
use proactive_mcp.Model.Source.{
  complete, SourceGeneration, SourceGenerationState, SourceGenerationStatus,
}
use proactive_mcp.Sources.Generations.{
  accept, accept_row, generation_state, generation_row, or_initial,
}
use proactive_mcp.Db.{
  Db, StoreError, delayed_generation, unreserved_generation, returned, raised, query, raise,
  transaction, ◌>>=◌, bind-returned, transaction-returned,
}
use proactive_mcp.Situations.Lifecycle.History.{
  Advances, Advances-pure, Advances-bind, Advances-transaction,
}
use proactive_mcp.Situations.Upsert.{upsert_batch, no_outcomes}
use proactive_mcp.Situations.Upsert.Machine.{upsert_batch-Advances, resolve_all-Advances}
use proactive_mcp.Situations.Lifecycle.Keys.{WellFormed}
use proactive_mcp.Situations.Upsert.Resolution.{absent, resolve_all_lem, absent-update_where}
use proactive_mcp.Sources.SyncState.{accept_source_generation}
use proactive_mcp.Sources.Consistency.{
  SourceTruth, Readings, resolve_truth, finish_truth, apply_truth, apply_source_generation,
  apply_local_detections, upsert_detections, keys_of, source_type, row_source,
}
use proactive_mcp.Sources.Consistency.Machine.{
  accept_source_generation-Advances, finish_truth-Advances, situations-record_truth,
}

abbrev Covers : SourceTruth → List Situation → Type 0
Covers t = All λ s.
    absent (source_type t.generation.source) (some (row_source t.generation.source))
      (keys_of t.detections) s
    ≡ false

finish_truth-Covers :
    (at : Readings) (t : SourceTruth) (summary : DetectionUpsertSummary) (db : Db)
    → WellFormed db.situations
    → t.status ≡ complete
    → Covers t (finish_truth at t summary db).1.situations
unfolding finish_truth resolve_truth ◌>>=◌
finish_truth-Covers at t summary db w full = rw full (
    rw (resolve_all_lem _ _ _ _ db w) (
      rw
        (situations-record_truth (record t { status = complete }) at.recorded_at t.error_code
          complete)
        (absent-update_where _ (some (row_source t.generation.source)) (keys_of t.detections)
          at.timestamp db.situations)))

-- The exception for a generation that is not accepted.
abbrev pub refusal : SourceTruth → Db → StoreError
refusal t db =
    if leb t.generation.number (generation_state t.generation.source db).applied
    then delayed_generation t.generation (generation_state t.generation.source db).applied
    else unreserved_generation t.generation

accept_row-refused :
    (g : SourceGeneration) (status : SourceGenerationStatus) (now : ℕ)
    (row : Option SourceGenerationState) (db : Db)
    → (g.number ≤ (or_initial row).applied) ⊎ ((or_initial row).issued < g.number)
    → accept_row g status now row db ≡ (
      raised (
          if leb g.number (or_initial row).applied
          then delayed_generation g (or_initial row).applied
          else unreserved_generation g),
      db,
    )
unfolding accept_row raise
accept_row-refused g status now none db (inl old) = ground arith
accept_row-refused g status now none db (inr unissued) = ground arith
accept_row-refused g status now (some r) db (inl old) = ground arith
accept_row-refused g status now (some r) db (inr unissued) = ground arith

accept-refused :
    (t : SourceTruth) (now : ℕ) (db : Db)
    → (t.generation.number ≤ (generation_state t.generation.source db).applied)
      ⊎ ((generation_state t.generation.source db).issued < t.generation.number)
    → accept t.generation t.status now db ≡ (raised (refusal t db), db)
unfolding accept generation_state query ◌>>=◌
accept-refused t now db stale =
    accept_row-refused t.generation t.status now (generation_row t.generation.source db) db stale

module _ (evidence_bytes : SituationEvidence → ℕ) where
  apply_truth-Advances :
      (at : Readings) (t : SourceTruth) → Advances (apply_truth evidence_bytes at t)
  unfolding apply_truth
  apply_truth-Advances at t = Advances-bind _ _ (accept_source_generation-Advances _ _ _ _) λ _.
      Advances-bind _ _ (upsert_batch-Advances evidence_bytes _ _ _ _ _ _)
        λ summary. finish_truth-Advances at t summary

  pub apply_source_generation-Advances :
      (at : Readings) (t : SourceTruth) → Advances (apply_source_generation evidence_bytes at t)
  unfolding apply_source_generation
  apply_source_generation-Advances at t = Advances-transaction _ (apply_truth-Advances at t)

  pub apply_local_detections-Advances :
      (now : ℕ) (ds : List Detection) → Advances (apply_local_detections evidence_bytes now ds)
  unfolding apply_local_detections
  apply_local_detections-Advances now ds = Advances-transaction _ (
      Advances-bind _ _ (upsert_batch-Advances evidence_bytes _ _ _ _ _ _)
        λ summary. Advances-bind _ _ (resolve_all-Advances _ _ now _) λ resolved. Advances-pure _)

  pub upsert_detections-Advances :
      (now : ℕ) (ds : List Detection) → Advances (upsert_detections evidence_bytes now ds)
  unfolding upsert_detections
  upsert_detections-Advances now ds =
      Advances-transaction _ (upsert_batch-Advances evidence_bytes _ _ _ _ _ _)

  -- A result of a source, without diagnostics, that is not newer than the applied one, or that was
  -- never issued: applying it raises DelayedSourceGenerationError with the applied number in the
  -- first case, UnreservedSourceGenerationError in the second, and neither a situation nor anything
  -- else is changed.
  pub apply_source_generation_refused :
      (at : Readings) (t : SourceTruth) (db : Db)
      → t.diagnostics ≡ none
      → (t.generation.number ≤ (generation_state t.generation.source db).applied)
        ⊎ ((generation_state t.generation.source db).issued < t.generation.number)
      → apply_source_generation evidence_bytes at t db ≡ (raised (refusal t db), db)
  unfolding apply_source_generation apply_truth accept_source_generation transaction ◌>>=◌
  apply_source_generation_refused at t db plain stale =
      rw plain (rw (accept-refused t at.accepted_at db stale) refl)

  -- What `apply_truth` returned came from its last part, run on a well-formed table.
  apply_truth-finish :
      (at : Readings) (t : SourceTruth) (db : Db) (result : DetectionApplySummary)
      → WellFormed db.situations
      → (apply_truth evidence_bytes at t db).0 ≡ returned result
      → (summary : DetectionUpsertSummary) × (db' : Db) × WellFormed db'.situations
        × (apply_truth evidence_bytes at t db ≡ finish_truth at t summary db')
  unfolding apply_truth
  apply_truth-finish at t db result w h =
      let first = accept_source_generation t.generation t.status at.accepted_at t.diagnostics in
      let second =
        upsert_batch evidence_bytes t.detections at.timestamp
          (some (source_type t.generation.source)) (row_source t.generation.source)
          (some t.generation.number) no_outcomes in
      let (_, _, step) = bind-returned first _ db result h in
      let h' = subst (λ r. r.0 ≡ returned result) step h in
      let (summary, _, step') = bind-returned second (finish_truth at t) (first db).1 result h' in
      let w' = ((accept_source_generation-Advances _ _ _ _).at db w).well_formed w in
      let w'' =
        ((upsert_batch-Advances evidence_bytes _ _ _ _ _ _).at (first db).1 w').well_formed w' in
      (summary, (second (first db).1).1, w'', step ∙ step')

  -- When applying a complete source to a well-formed table has returned, every pending or delivered
  -- row of its type and source has the key of a detection.
  pub complete_truth_covers :
      (at : Readings) (t : SourceTruth) (db : Db) (summary : DetectionApplySummary)
      → WellFormed db.situations
      → t.status ≡ complete
      → (apply_source_generation evidence_bytes at t db).0 ≡ returned summary
      → All
          (λ s.
            absent
              (source_type t.generation.source)
              (some (row_source t.generation.source))
              (keys_of t.detections)
              s
            ≡ false)
          (apply_source_generation evidence_bytes at t db).1.situations
  unfolding apply_source_generation
  complete_truth_covers at t db summary w full h =
      let committed = transaction-returned (apply_truth evidence_bytes at t) db summary h in
      let (counts, db', w', end) =
        apply_truth-finish at t db summary w (subst (λ r. r.0 ≡ returned summary) committed h) in
      rw (committed ∙ end) (finish_truth-Covers at t counts db' w' full)
