-- ===== src/Store/Invariant.antt =====
-- What holds whatever the calls and their order.
use proactive_mcp.Prelude.{ℕ, String, ◌≡◌, subst, true, some, List, [], ◌∷◌, All, arith}
use proactive_mcp.Model.Situation.{Situation, SituationEvidence, SituationType}
use proactive_mcp.Fallbacks.Record.{
  claim_next-Advances, record_sent-Advances, record_failed-Advances,
}
use proactive_mcp.Db.{NotifiedOnce, IsShaped, LeasedOnce, Db, empty_db, find_id}
use proactive_mcp.Situations.Lifecycle.Invariant.{is_final, Reach-is_final, IsConsistent}
use proactive_mcp.Situations.Lifecycle.Keys.{WellFormed}
use proactive_mcp.Situations.Lifecycle.Table.{Evolves-IsConsistent, Evolves-find_id}
use proactive_mcp.Situations.Lifecycle.History.{
  History, History-refl, History-trans, Advances, Advances-transaction,
}
use proactive_mcp.Situations.Transitions.Machine.{
  expire_lapsed-Advances, wake_snoozed-Advances, mark_delivered-Advances, acknowledge-Advances,
  snooze-Advances, mute-Advances, mute_situation_type-Advances,
}
use proactive_mcp.Situations.Upsert.Machine.{resolve_all-Advances}
use proactive_mcp.Sources.Generations.Order.{reserve-Advances}
use proactive_mcp.Sources.Consistency.{resolve_absent}
use proactive_mcp.Sources.Consistency.Atomic.{
  apply_source_generation-Advances, apply_local_detections-Advances, upsert_detections-Advances,
}
use proactive_mcp.Delivery.Confirm.Machine.{claim_for_delivery-Advances, confirm_delivery-Advances}
use proactive_mcp.Delivery.Reserve.Machine.{reserve_for_delivery-Advances}
use proactive_mcp.Store.{
  Call, upserts, applies_source, applies_local, resolves_absent, expires_lapsed, wakes_snoozed,
  marks_delivered, claims, reserves, confirms, acknowledges, snoozes, mutes, mutes_type,
  reserves_generation, claims_fallback, sends_fallback, fails_fallback, after, after_all,
}

resolve_absent-Advances :
    (now : ℕ) (kind : SituationType) (present : List String)
    → Advances (resolve_absent now kind present)
unfolding resolve_absent
resolve_absent-Advances now kind present = Advances-transaction _ (resolve_all-Advances _ _ now _)

module _ (evidence_bytes : SituationEvidence → ℕ) (receipt_digest : String → String) where
  after-History :
      (c : Call) (db : Db)
      → WellFormed db.situations
      → History db (after evidence_bytes receipt_digest c db)
  after-History (upserts now ds) db w = (upsert_detections-Advances evidence_bytes now ds).at db w
  after-History (applies_source at t) db w =
      (apply_source_generation-Advances evidence_bytes at t).at db w
  after-History (applies_local now ds) db w =
      (apply_local_detections-Advances evidence_bytes now ds).at db w
  after-History (resolves_absent now kind present) db w =
      (resolve_absent-Advances now kind present).at db w
  after-History (expires_lapsed now) db w = (expire_lapsed-Advances now).at db w
  after-History (wakes_snoozed now) db w = (wake_snoozed-Advances now).at db w
  after-History (marks_delivered now ids) db w = (mark_delivered-Advances now ids).at db w
  after-History (claims claim) db w = (claim_for_delivery-Advances claim).at db w
  after-History (reserves claim claim_token expires_at) db w =
      (reserve_for_delivery-Advances receipt_digest claim claim_token expires_at).at db w
  after-History (confirms claim_token now) db w =
      (confirm_delivery-Advances receipt_digest claim_token now).at db w
  after-History (acknowledges now i) db w = (acknowledge-Advances now i).at db w
  after-History (snoozes now i until) db w = (snooze-Advances now i until).at db w
  after-History (mutes now i) db w = (mute-Advances now i).at db w
  after-History (mutes_type now i) db w = (mute_situation_type-Advances now i).at db w
  after-History (reserves_generation now source) db w = (reserve-Advances now source).at db w
  after-History (claims_fallback claim) db w = (claim_next-Advances claim).at db w
  after-History (sends_fallback now i) db w = (record_sent-Advances now i).at db w
  after-History (fails_fallback now i code) db w = (record_failed-Advances now i code).at db w

  -- Any calls in any order, on a well-formed table: each row lives on in its place along the state
  -- machine, new rows are inserted behind, the records of deliveries and of confirmed receipts are
  -- kept and only appended to, the table stays well formed (ids rise, no dedupe key stands twice, and
  -- there are at most 10,000 rows), no situation comes under two leases or two fallback records, and a
  -- fallback record keeps the facts of its claim and changes only from `claimed` to one terminal
  -- outcome.
  pub after_all-History :
      (calls : List Call) (db : Db)
      → WellFormed db.situations
      → History db (after_all evidence_bytes receipt_digest calls db)
  unfolding after_all
  after_all-History [] db w = History-refl db
  after_all-History (c ∷ calls) db w =
      let one = after-History c db w in
      History-trans one (after_all-History calls _ (one.well_formed w))

  -- Every database that the calls reach from the empty one is well formed, the time columns of each
  -- of its rows fit the row's state, no situation stands under two leases or has two fallback
  -- records, and each fallback record has a completion time and a failure code just as its outcome
  -- asks.
  pub after_all_invariant :
      (calls : List Call)
      → WellFormed (after_all evidence_bytes receipt_digest calls empty_db).situations
        × All IsConsistent (after_all evidence_bytes receipt_digest calls empty_db).situations
        × LeasedOnce (after_all evidence_bytes receipt_digest calls empty_db).leases
        × NotifiedOnce (after_all evidence_bytes receipt_digest calls empty_db).fallbacks
        × All IsShaped (after_all evidence_bytes receipt_digest calls empty_db).fallbacks
  after_all_invariant calls =
      let h = after_all-History calls empty_db empty-WellFormed in
      (
        h.well_formed empty-WellFormed,
        Evolves-IsConsistent [] _ h.rows tt,
        h.leased tt,
        h.fallbacks.once tt,
        h.fallbacks.shaped tt,
      )
    where
      empty-WellFormed : WellFormed []
      empty-WellFormed = record { ids = tt; keys = tt; bounded = omega arith }

  -- On a well-formed table, an acknowledged or muted row stays as it is, in every column, through
  -- any calls.
  pub after_all_final :
      (calls : List Call) (db : Db) (i : ℕ) (s : Situation)
      → WellFormed db.situations
      → find_id i db.situations ≡ some s
      → is_final s.state ≡ true
      → find_id i (after_all evidence_bytes receipt_digest calls db).situations ≡ some s
  after_all_final calls db i s w found final =
      let h = after_all-History calls db w in
      let (t, still, reach) = Evolves-find_id i db.situations _ s h.rows found in
      subst (λ r. find_id i (after_all evidence_bytes receipt_digest calls db).situations ≡ some r)
        (Reach-is_final reach final) still
