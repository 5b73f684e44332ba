-- ===== src/Situations/Upsert/Machine.antt =====
-- Upserts and resolutions keep to the state machine and keep the table well formed.
use proactive_mcp.Prelude.{
  ℕ, ◌≡◌, ◌<◌, refl, String, Bool, true, false, Option, none, some, List, [], ◌∷◌, arith, length,
  count_where,
}
use proactive_mcp.Model.Situation.{
  Situation, SituationState, SituationType, SituationSource, SituationEvidence, Detection,
  DetectionUpsertSummary, pending, delivered, acknowledged, snoozed, muted, resolved, expired,
}
use proactive_mcp.Db.{Db, ◌>>=◌, find_id}
use proactive_mcp.Situations.Statements.{next_id, RowUpdate, inserted, refresh, reactivate}
use proactive_mcp.Situations.Reader.{situation_by_dedupe_key, count_situations}
use proactive_mcp.Situations.Lifecycle.{refreshed, reactivated, resolves, is_active, is_closed}
use proactive_mcp.Situations.Lifecycle.Invariant.{
  refresh-SameIdentity, reactivate-SameIdentity, resolve-SameIdentity,
}
use proactive_mcp.Situations.Lifecycle.Keys.{
  WellFormed, by_key, max_situation_rows, WellFormed-insert, WellFormed-find_id,
}
use proactive_mcp.Situations.Lifecycle.Table.{Evolves-insert}
use proactive_mcp.Situations.Lifecycle.History.{
  History, History-refl, History-rows, History-bind, Advances, Advances-pure, Advances-raise,
  Advances-query, Advances-bind, Advances-if,
}
use proactive_mcp.Situations.Access.Laws.{Advances-update_row, History-update_row}
use proactive_mcp.Situations.Upsert.{
  store_unless, over_capacity, is_none, wrong_type, reopen_unless, reopen, renew, update_existing,
  insert_situation, store_detection, resolve_row, resolve_each, resolve_all, resolve_by_source_ids,
  upsert_detection, upsert_batch, row_update, record_size, UpsertOutcome,
}

pub resolve_row-Advances : (now i : ℕ) → Advances (resolve_row now i)
unfolding resolve_row
resolve_row-Advances now i =
    Advances-update_row i _ _ (λ s. resolve-SameIdentity s now) (λ s h. resolves now h refl)

pub resolve_each-Advances :
    (keep : Situation → Bool) (now : ℕ) (rows : List Situation)
    → Advances (resolve_each keep now rows)
unfolding resolve_each
resolve_each-Advances keep now [] = Advances-pure _
resolve_each-Advances keep now (s ∷ rows) =
    let rest = resolve_each-Advances keep now rows in
    Advances-if (keep s) _ _ rest (
      Advances-bind _ _ (resolve_row-Advances now s.id)
        λ moved. Advances-bind _ _ rest λ more. Advances-pure _)

pub resolve_all-Advances :
    (kind : SituationType) (present : List String) (now : ℕ) (source : Option SituationSource)
    → Advances (resolve_all kind present now source)
unfolding resolve_all
resolve_all-Advances kind present now source =
    Advances-bind _ _ (Advances-query _) (λ rows. resolve_each-Advances _ now rows)

pub resolve_by_source_ids-Advances :
    (kind : SituationType) (present ids : List String) (now : ℕ) (include : Bool)
    (source : Option SituationSource)
    → Advances (resolve_by_source_ids kind present ids now include source)
unfolding resolve_by_source_ids
resolve_by_source_ids-Advances kind present ids now include source =
    Advances-bind _ _ (Advances-query _) (λ rows. resolve_each-Advances _ now rows)

-- On the row that `update_existing` is given, at the database where it was read.
module _ (u : RowUpdate) (now : ℕ) (s : Situation) (db : Db) (w : WellFormed db.situations)
    (found : find_id s.id db.situations ≡ some s) where
  same_row : (r : Situation) → find_id s.id db.situations ≡ some r → r ≡ s
  same_row r e = cc

  reopen_unless-History :
      (stays : Bool) → is_closed s.state ≡ true → History db (reopen_unless stays u now s db).1
  unfolding reopen_unless
  reopen_unless-History true closed = (Advances-pure UpsertOutcome.skipped).at db w
  reopen_unless-History false closed =
      History-bind _ _ db w
        (History-update_row s.id (λ _. true) (reactivate u now) db
          (λ r. reactivate-SameIdentity r u now)
          (λ r e _. reactivated u now (rw (same_row r e) closed) refl))
        (λ _. Advances-pure _)

  reopen-History : is_closed s.state ≡ true → History db (reopen u now s db).1
  unfolding reopen ◌>>=◌
  reopen-History closed = reopen_unless-History _ closed

  renew-History : is_active s.state ≡ true → History db (renew u now s db).1
  unfolding renew
  renew-History active =
      History-bind _ _ db w
        (History-update_row s.id (λ _. true) (refresh u now) db (λ r. refresh-SameIdentity r u now)
          (λ r e _. refreshed u now (rw (same_row r e) active) refl))
        (λ _. Advances-pure _)

  update_existing-History :
      (state : SituationState) → s.state ≡ state → History db (update_existing u now s state db).1
  unfolding update_existing ◌>>=◌
  update_existing-History resolved e = reopen-History (rw e)
  update_existing-History expired e = reopen-History (rw e)
  update_existing-History pending e = renew-History (rw e)
  update_existing-History delivered e = renew-History (rw e)
  update_existing-History snoozed e = renew-History (rw e)
  update_existing-History acknowledged e = History-refl db
  update_existing-History muted e = History-refl db

module _ (d : Detection) (u : RowUpdate) (now : ℕ) (db : Db) (w : WellFormed db.situations) where
  insert-History :
      by_key d.dedupe_key db.situations ≡ none
      → length db.situations < max_situation_rows
      → History db (insert_situation d u now db)
  unfolding insert_situation inserted
  insert-History new room =
      History-rows db _
        (Evolves-insert db.situations (next_id db.situations) d.situation_type d.dedupe_key u now)
        (WellFormed-insert db.situations _ refl new room)

  store_detection-History :
      (existing : Option Situation)
      → by_key d.dedupe_key db.situations ≡ existing
      → (is_none existing ≡ true → length db.situations < max_situation_rows)
      → History db (store_detection d u now existing db).1
  unfolding store_detection ◌>>=◌
  store_detection-History none e room = insert-History e (room refl)
  store_detection-History (some s) e room =
      update_existing-History u now s db w (WellFormed-find_id d.dedupe_key db.situations s w e)
        s.state refl

count-length : (rows : List Situation) → count_where (λ s. true) rows ≡ length rows
count-length [] = refl
count-length (s ∷ rows) = omega (arith, count-length rows)

module _ (evidence_bytes : SituationEvidence → ℕ) where
  pub upsert_detection-Advances :
      (d : Detection) (now : ℕ) (source : SituationSource) (generation : Option ℕ)
      → Advances (upsert_detection evidence_bytes d now source generation)
  unfolding upsert_detection ◌>>=◌ situation_by_dedupe_key count_situations store_unless
      store_detection
  upsert_detection-Advances d now source generation = record {
    at = λ db w.
        stored db w
          (over_capacity (record_size evidence_bytes d) (by_key d.dedupe_key db.situations)
            (count_where (λ s. true) db.situations))
          refl;
  }
    where
      stored :
          (db : Db) (w : WellFormed db.situations) (full : Bool)
          → over_capacity
              (record_size evidence_bytes d)
              (by_key d.dedupe_key db.situations)
              (count_where (λ s. true) db.situations)
            ≡ full
          → History db
              (store_unless full d
                (row_update d source generation)
                now
                (by_key d.dedupe_key db.situations)
                db).1
      stored db w true e = History-refl db
      stored db w false e =
          store_detection-History d (row_update d source generation) now db w _ refl
            (λ new. ground (arith, count-length db.situations))

  pub upsert_batch-Advances :
      (ds : List Detection) (now : ℕ) (wanted : Option SituationType) (source : SituationSource)
      (generation : Option ℕ) (counts : DetectionUpsertSummary)
      → Advances (upsert_batch evidence_bytes ds now wanted source generation counts)
  unfolding upsert_batch
  upsert_batch-Advances [] now wanted source generation counts = Advances-pure _
  upsert_batch-Advances (d ∷ ds) now wanted source generation counts =
      Advances-if (wrong_type wanted d.situation_type) _ _ (Advances-raise _) (
        Advances-bind _ _ (upsert_detection-Advances d now source generation)
          λ outcome. upsert_batch-Advances ds now wanted source generation _)
