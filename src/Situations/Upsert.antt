-- ===== src/Situations/Upsert.antt =====
-- src/proactive_mcp/store/_situation_upsert.py. `evidence_bytes` stands for pydantic's
-- `SITUATION_EVIDENCE_ADAPTER.dump_json`: the number of bytes of the JSON text of an evidence.
pub mod Machine
pub mod Resolution
use Prim.Native.String.{len}
use proactive_mcp.Prelude.{
  ℕ, suc, ◌+◌, ◌*◌, String, Bool, true, false, not, ◌&&◌, ◌||◌, Option, none, some, List, [], ◌∷◌,
  ◌++◌, ltb, leb, str_eq, if◌then◌else◌, contains, first_where,
}
use proactive_mcp.Model.Situation.{
  Detection, DetectionUpsertSummary, Situation, SituationType, SituationSource, SituationState,
  SituationPriority, SituationEvidence, reply_deadline, calendar_conflict, personal_occasion,
  critical, high, routine, pending, delivered, acknowledged, snoozed, muted, resolved, expired,
  is_open, is_personal_occasion, same_type,
}
use proactive_mcp.Db.{Db, source_mismatch, Session, pure, raise, query, execute, ◌>>=◌, ◌>>◌}
use proactive_mcp.Situations.Statements.{RowUpdate, next_id, inserted, refresh, reactivate, resolve}
use proactive_mcp.Situations.Reader.{
  active_by_type, count_situations, situation_by_dedupe_key, has_delivery,
}
use proactive_mcp.Situations.Lifecycle.Keys.{max_situation_rows}
use proactive_mcp.Situations.Access.{update_row}

abbrev pub max_situation_record_bytes : ℕ
max_situation_record_bytes = 16 * 1024

pub data UpsertOutcome : Type 0 where
  created reactivated refreshed skipped capacity_skipped : UpsertOutcome

abbrev type_name : SituationType → String
type_name reply_deadline = "reply_deadline"
type_name calendar_conflict = "calendar_conflict"
type_name personal_occasion = "personal_occasion"

abbrev priority_name : SituationPriority → String
priority_name critical = "critical"
priority_name high = "high"
priority_name routine = "routine"

abbrev pub is_none {ℓ} : {A : Type ℓ} → Option A → Bool
is_none none = true
is_none (some a) = false

-- The counters of `upsert_batch` after one more outcome.
abbrev pub count_outcome : UpsertOutcome → DetectionUpsertSummary → DetectionUpsertSummary
count_outcome created n = record n { created = suc n.created }
count_outcome reactivated n = record n { reactivated = suc n.reactivated }
count_outcome refreshed n = record n { refreshed = suc n.refreshed }
count_outcome skipped n = record n { skipped = suc n.skipped }
count_outcome capacity_skipped n = record n {
  skipped = suc n.skipped;
  capacity_skipped = suc n.capacity_skipped;
}

abbrev pub no_outcomes : DetectionUpsertSummary
no_outcomes = record {
  created = 0;
  reactivated = 0;
  refreshed = 0;
  skipped = 0;
  capacity_skipped = 0;
}

unfoldable pub row_update : Detection → SituationSource → Option ℕ → RowUpdate
row_update d source generation = record {
  priority = d.priority;
  title = d.title;
  why_now = d.why_now;
  evidence = d.evidence;
  expires_at = d.expires_at;
  source_name = source;
  source_generation = generation;
}

reopen_unless : Bool → RowUpdate → ℕ → Situation → Session UpsertOutcome
reopen_unless true u now s = pure skipped
reopen_unless false u now s = do
  moved ← update_row s.id (λ _. true) (reactivate u now)
  pure reactivated

-- A closed row opens again, but a personal occasion that was delivered stays closed.
unfoldable pub reopen : RowUpdate → ℕ → Situation → Session UpsertOutcome
unfolding reopen_unless
reopen u now s = do
  had_delivery ← query (has_delivery s.id)
  reopen_unless (is_personal_occasion s.situation_type && had_delivery) u now s

unfoldable pub renew : RowUpdate → ℕ → Situation → Session UpsertOutcome
renew u now s = do moved ← update_row s.id (λ _. true) (refresh u now); pure refreshed

-- What becomes of an existing row, by its state.
unfoldable pub update_existing : RowUpdate → ℕ → Situation → SituationState → Session UpsertOutcome
update_existing u now s resolved = reopen u now s
update_existing u now s expired = reopen u now s
update_existing u now s pending = renew u now s
update_existing u now s delivered = renew u now s
update_existing u now s snoozed = renew u now s
update_existing u now s acknowledged = pure skipped
update_existing u now s muted = pure skipped

unfoldable pub insert_situation : Detection → RowUpdate → ℕ → Db → Db
insert_situation d u now db = record db {
  situations =
      db.situations ++ inserted (next_id db.situations) d.situation_type d.dedupe_key u now ∷ [];
}

unfoldable pub store_detection :
    Detection → RowUpdate → ℕ → Option Situation → Session UpsertOutcome
store_detection d u now none = do execute (insert_situation d u now); pure created
store_detection d u now (some s) = update_existing u now s s.state

-- UPDATE … RESOLVE_SITUATION for one row of the list that the query gave: its rowcount.
unfoldable pub resolve_row : ℕ → ℕ → Session Bool
resolve_row now i = update_row i (λ s. is_open s.state) (resolve now)

abbrev pub as_count : Bool → ℕ
as_count b = if b then 1 else 0

-- The loop of `resolve` and of `resolve_by_source_ids`: `keep` is its `continue`.
unfoldable pub resolve_each : (Situation → Bool) → ℕ → List Situation → Session ℕ
resolve_each keep now [] = pure 0
resolve_each keep now (s ∷ rows) =
    let rest = resolve_each keep now rows in
    if keep s
    then rest
    else (do moved ← resolve_row now s.id; more ← rest; pure (as_count moved + more))

unfoldable pub resolve_all : SituationType → List String → ℕ → Option SituationSource → Session ℕ
resolve_all kind present now source = do
  rows ← query (active_by_type kind source)
  resolve_each (λ s. contains s.dedupe_key present) now rows

-- `facts.get("thread_id")`
abbrev pub fact : String → List (String × String) → Option String
fact name [] = none
fact name ((key, value) ∷ facts) = if str_eq key name then some value else fact name facts

-- The rows that `resolve_by_source_ids` passes over.
abbrev pub outside : List String → Bool → Option String → Bool
outside ids include none = true
outside ids true (some i) = not (contains i ids)
outside ids false (some i) = contains i ids

unfoldable pub resolve_by_source_ids :
    SituationType → List String → List String → ℕ → Bool → Option SituationSource → Session ℕ
resolve_by_source_ids kind present ids now include source = do
  rows ← query (active_by_type kind source)
  resolve_each
      (λ s.
        contains s.dedupe_key present || outside ids include (fact "thread_id" s.evidence.facts))
      now rows

unfoldable pub store_unless :
    Bool → Detection → RowUpdate → ℕ → Option Situation → Session UpsertOutcome
store_unless true d u now existing = pure capacity_skipped
store_unless false d u now existing = store_detection d u now existing

-- The test before the write: a record too large, or a new row in a full table.
abbrev pub over_capacity : ℕ → Option Situation → ℕ → Bool
over_capacity size existing rows =
    ltb max_situation_record_bytes size || (is_none existing && leb max_situation_rows rows)

abbrev pub wrong_type : Option SituationType → SituationType → Bool
wrong_type none kind = false
wrong_type (some wanted) kind = not (same_type kind wanted)

-- The type that the exception names; it is raised only where one is expected.
abbrev pub named : Option SituationType → SituationType → SituationType
named none kind = kind
named (some wanted) kind = wanted

module _ (evidence_bytes : SituationEvidence → ℕ) where
  unfoldable pub record_size : Detection → ℕ
  record_size d =
      evidence_bytes d.evidence
      + len (type_name d.situation_type)
      + len d.dedupe_key
      + len (priority_name d.priority)
      + len d.title
      + len d.why_now

  -- _upsert_detection
  unfoldable pub upsert_detection :
      Detection → ℕ → SituationSource → Option ℕ → Session UpsertOutcome
  upsert_detection d now source generation = do
    existing ← query (situation_by_dedupe_key d.dedupe_key)
    rows ← query (count_situations none)
    store_unless (over_capacity (record_size d) existing rows) d (row_update d source generation)
        now existing

  unfoldable pub upsert_batch :
      List Detection
      → ℕ
      → Option SituationType
      → SituationSource
      → Option ℕ
      → DetectionUpsertSummary
      → Session DetectionUpsertSummary
  upsert_batch [] now wanted source generation counts = pure counts
  upsert_batch (d ∷ detections) now wanted source generation counts =
      if wrong_type wanted d.situation_type
      then raise (source_mismatch (named wanted d.situation_type) d.situation_type)
      else (do
        outcome ← upsert_detection d now source generation
        upsert_batch detections now wanted source generation (count_outcome outcome counts))
