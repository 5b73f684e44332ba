-- ===== src/Delivery/Eligibility.antt =====
-- The conditions that the claim and the lease share, and src/proactive_mcp/store/
-- _delivery_eligibility.py. Each is the SQL test on one row `s` of the database `db`.
use proactive_mcp.Prelude.{
  ℕ, Bool, true, false, not, ◌&&◌, ◌||◌, Option, none, some, List, [], ◌∷◌, ltb, ◌==◌,
  if◌then◌else◌, open_after, exists_where, count_where,
}
use proactive_mcp.Model.Situation.{
  Situation, DeliveryClaim, is_pending, is_critical, is_reply_deadline,
}
use proactive_mcp.Model.Source.{SourceGenerationState, SourceGenerationStatus, complete, degraded}
use proactive_mcp.Db.{Db, Delivery, find_id}
use proactive_mcp.Situations.Reader.{in_window, joined, is_muted}

abbrev is_complete : Option SourceGenerationStatus → Bool
is_complete none = false
is_complete (some complete) = true
is_complete (some degraded) = false

abbrev pub is_current : Option SourceGenerationState → Bool
is_current none = true
is_current (some row) = row.issued == row.applied && is_complete row.status

-- CURRENT_SOURCE_ELIGIBILITY
unfoldable pub source_eligible : Db → Situation → Bool
source_eligible db s = not (is_reply_deadline s.situation_type) || is_current db.gmail_generation

-- The cooldown: exempt after a snooze, or no delivery since.
unfoldable pub cooled_down : Db → ℕ → Situation → Bool
cooled_down db cooldown_after s =
    s.snooze_cooldown_exempt
    || not (
        exists_where (λ d. d.situation_id == s.id && ltb cooldown_after d.delivered_at)
          db.deliveries)

-- What a claim and a lease ask of a row before the budget.
unfoldable pub is_consumable : DeliveryClaim → Db → Situation → Bool
unfolding cooled_down is_muted
is_consumable claim db s =
    is_pending s.state
    && open_after s.expires_at claim.delivered_at
    && not (is_muted db s.situation_type)
    && cooled_down db claim.cooldown_after s

-- The deliveries of a day's budget, and those of reply deadlines among them.
abbrev pub is_budgeted : DeliveryClaim → Delivery → Bool
is_budgeted claim d =
    in_window claim.local_day_start claim.local_day_end d.delivered_at
    && not (is_critical d.priority)

abbrev pub is_reply : Db → ℕ → Bool
is_reply db i = joined (λ s. is_reply_deadline s.situation_type) (find_id i db.situations)

unfoldable pub delivered_count : DeliveryClaim → Db → ℕ
delivered_count claim db = count_where (is_budgeted claim) db.deliveries

unfoldable pub delivered_replies : DeliveryClaim → Db → ℕ
delivered_replies claim db =
    count_where (λ d. is_budgeted claim d && is_reply db d.situation_id) db.deliveries

abbrev is_empty : List Situation → Bool
is_empty [] = true
is_empty (c ∷ cs) = false

abbrev pub is_leased_row : Db → Situation → Bool
is_leased_row db s = exists_where (λ l. l.situation_id == s.id) db.leases

-- _SELECT_CONSUMABLE_NON_REPLY; `by_lease` is its 0 or 1 parameter.
unfoldable pub is_consumable_non_reply :
    DeliveryClaim → Bool → List Situation → Db → Situation → Bool
is_consumable_non_reply claim by_lease candidates db s =
    exists_where (λ c. c.id == s.id) candidates
    && not (is_critical s.priority)
    && not (is_reply_deadline s.situation_type)
    && is_consumable claim db s
    && (not by_lease || not (is_leased_row db s))

-- reserved_non_reply_slots_for_claim and _for_reservation
unfoldable pub reserved_non_reply_slots : DeliveryClaim → Bool → List Situation → Db → ℕ
reserved_non_reply_slots claim by_lease candidates db =
    if not claim.allow_noncritical || is_empty candidates
    then 0
    else if exists_where (is_consumable_non_reply claim by_lease candidates db) db.situations
    then 1
    else 0

-- The candidates that the loops pass over in quiet hours.
abbrev pub is_held : DeliveryClaim → Situation → Bool
is_held claim c = not claim.allow_noncritical && not (is_critical c.priority)
