-- ===== src/Sources/Generations.antt =====
-- src/proactive_mcp/store/_source_generation.py
pub mod Order
use proactive_mcp.Prelude.{ℕ, ◌+◌, Bool, false, ◌&&◌, Option, none, some, ltb, leb, if◌then◌else◌}
use proactive_mcp.Model.Source.{
  SourceName, gmail, calendar, SourceGeneration, SourceGenerationState, SourceGenerationStatus,
}
use proactive_mcp.Db.{
  Db, delayed_generation, unreserved_generation, Session, pure, raise, query, execute, transaction,
  ◌>>=◌, ◌>>◌,
}

-- The row of one source in source_detection_generations.
abbrev pub generation_row : SourceName → Db → Option SourceGenerationState
generation_row gmail db = db.gmail_generation
generation_row calendar db = db.calendar_generation

abbrev pub write_generation : SourceName → SourceGenerationState → Db → Db
write_generation gmail row db = record db { gmail_generation = some row }
write_generation calendar row db = record db { calendar_generation = some row }

abbrev pub no_generation : SourceGenerationState
no_generation = record {
  issued = 0;
  applied = 0;
  status = none;
  issued_at = none;
  applied_at = none;
}

abbrev pub or_initial : Option SourceGenerationState → SourceGenerationState
or_initial none = no_generation
or_initial (some row) = row

-- state()
unfoldable pub generation_state : SourceName → Db → SourceGenerationState
generation_state source db = or_initial (generation_row source db)

-- The upsert of `reserve`: a first row issues 1, an old one the next number.
abbrev issue : ℕ → SourceGenerationState → SourceGenerationState
issue now row = record row { issued = row.issued + 1; issued_at = some now }

unfoldable pub reserve : ℕ → SourceName → Session SourceGeneration
unfolding generation_state
reserve now source = transaction do
  execute (λ db. write_generation source (issue now (or_initial (generation_row source db))) db)
  state ← query (generation_state source)
  pure (record { source = source; number = state.issued })

-- The UPDATE of `accept`: its WHERE, on a row that may be missing.
abbrev pub may_accept : ℕ → Option SourceGenerationState → Bool
may_accept number none = false
may_accept number (some row) = leb number row.issued && ltb row.applied number

abbrev pub apply_generation :
    ℕ → SourceGenerationStatus → ℕ → SourceGenerationState → SourceGenerationState
apply_generation number status now row = record row {
  applied = number;
  status = some status;
  applied_at = some now;
}

-- What `accept` does, by the row that it finds.
unfoldable pub accept_row :
    SourceGeneration → SourceGenerationStatus → ℕ → Option SourceGenerationState → Session Unit
accept_row generation status now row =
    if may_accept generation.number row
    then execute (
        write_generation generation.source
          (apply_generation generation.number status now (or_initial row)))
    else if leb generation.number (or_initial row).applied
    then raise (delayed_generation generation (or_initial row).applied)
    else raise (unreserved_generation generation)

unfoldable pub accept : SourceGeneration → SourceGenerationStatus → ℕ → Session Unit
accept generation status now = do
  row ← query (generation_row generation.source)
  accept_row generation status now row
