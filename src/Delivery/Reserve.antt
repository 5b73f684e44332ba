-- ===== src/Delivery/Reserve.antt =====
-- reserve_for_delivery of src/proactive_mcp/store/_situation_claim.py. A lease is taken on a row
-- that stays pending until `confirm_delivery`.
pub mod Machine
pub mod Loop
pub mod Laws
pub mod Outcome
use proactive_mcp.Prelude.{
  ℕ, String, ◌+◌, ◌-◌, Bool, true, false, not, ◌&&◌, ◌||◌, Option, none, some, List, [], ◌∷◌, ◌++◌,
  ltb, if◌then◌else◌, exists_where, count_where,
}
use proactive_mcp.Model.Situation.{
  Situation, DeliveryClaim, DeliveryReservation, is_critical, is_reply_deadline,
}
use proactive_mcp.Db.{
  Db, DeliveryLease, integrity_error, Session, pure, raise, query, execute, transaction, ◌>>=◌,
  ◌>>◌, find_id,
}
use proactive_mcp.Situations.Reader.{
  in_window, is_leased, joined, pending_for_delivery, count_reserved_between,
}
use proactive_mcp.Delivery.Eligibility.{
  source_eligible, is_consumable, delivered_count, delivered_replies, reserved_non_reply_slots,
  is_held, is_leased_row,
}
use proactive_mcp.Delivery.Receipts.{expire_leases}
use proactive_mcp.Delivery.Claim.{max_delivery_candidates}

-- The active leases of the day's budget, and those of reply deadlines among them.
unfoldable pub reserved_count : DeliveryClaim → Db → ℕ
reserved_count claim db =
    count_reserved_between claim.local_day_start claim.local_day_end claim.delivered_at db

abbrev pub is_leased_reply : DeliveryClaim → Db → DeliveryLease → Bool
is_leased_reply claim db l =
    in_window claim.local_day_start claim.local_day_end l.claimed_at
    && is_leased claim.delivered_at l
    && joined (λ s. not (is_critical s.priority) && is_reply_deadline s.situation_type)
        (find_id l.situation_id db.situations)

unfoldable pub reserved_replies : DeliveryClaim → Db → ℕ
reserved_replies claim db = count_where (is_leased_reply claim db) db.leases

-- The WHERE of the leasing INSERT … SELECT, but for the id.
unfoldable pub may_reserve : DeliveryClaim → ℕ → Db → Situation → Bool
may_reserve claim slots db s =
    is_consumable claim db s
    && source_eligible db s
    && not (is_leased_row db s)
    && (is_critical s.priority
        || ltb (delivered_count claim db + reserved_count claim db) claim.daily_budget)
    && (is_critical s.priority
        || not (is_reply_deadline s.situation_type)
        || ltb (delivered_replies claim db + reserved_replies claim db)
            (claim.daily_budget - slots))

module _ (digest : String) (expires_at : ℕ) (claim : DeliveryClaim) where
  abbrev pub lease_of : Situation → DeliveryLease
  lease_of s = record {
    receipt_digest = digest;
    situation_id = s.id;
    claimed_at = claim.delivered_at;
    expires_at = expires_at;
  }

  -- CHECK(expires_at > claimed_at)
  unfoldable pub insert_lease : Situation → Session Bool
  insert_lease s =
      if ltb claim.delivered_at expires_at
      then (do execute (λ db. record db { leases = db.leases ++ lease_of s ∷ [] }); pure true)
      else raise integrity_error

  abbrev pub insert_selected : ℕ → Db → Option Situation → Session Bool
  insert_selected slots db none = pure false
  insert_selected slots db (some s) =
      if may_reserve claim slots db s then insert_lease s else pure false

  -- The statement: whether the rowcount is not 0.
  unfoldable pub lease_row : ℕ → ℕ → Session Bool
  lease_row slots i db = insert_selected slots db (find_id i db.situations) db

  unfoldable pub reserve_one : ℕ → Situation → Session Bool
  reserve_one slots c = if is_held claim c then pure false else lease_row slots c.id

  abbrev pub with_reserved : Situation → Bool → List Situation → List Situation
  with_reserved c false rest = rest
  with_reserved c true rest = c ∷ rest

  unfoldable pub reserve_each : ℕ → List Situation → Session (List Situation)
  reserve_each slots [] = pure []
  reserve_each slots (c ∷ cs) = do
    leased ← reserve_one slots c
    rest ← reserve_each slots cs
    pure (with_reserved c leased rest)

  unfoldable pub reserve_candidates : Session (List Situation)
  reserve_candidates = do
    execute (expire_leases claim.delivered_at)
    candidates ← query (pending_for_delivery max_delivery_candidates)
    slots ← query (reserved_non_reply_slots claim true candidates)
    reserve_each slots candidates

module _ (receipt_digest : String → String) where
  unfoldable pub reserve_for_delivery : DeliveryClaim → String → ℕ → Session DeliveryReservation
  reserve_for_delivery claim claim_token expires_at = do
    reserved ← transaction (reserve_candidates (receipt_digest claim_token) expires_at claim)
    pure (record { claim_token = claim_token; situations = reserved; expires_at = expires_at })
