-- ===== src/Delivery/Claim.antt =====
-- claim_for_delivery of src/proactive_mcp/store/_situation_claim.py.
pub mod Step
pub mod Loop
pub mod Budget
pub mod Outcome
use proactive_mcp.Prelude.{
  ℕ, ◌-◌, Bool, true, false, not, ◌&&◌, ◌||◌, Option, none, some, List, [], ◌∷◌, ltb, if◌then◌else◌,
}
use proactive_mcp.Model.Situation.{Situation, DeliveryClaim, is_critical, is_reply_deadline}
use proactive_mcp.Db.{Db, Session, pure, query, transaction, ◌>>=◌, ◌>>◌}
use proactive_mcp.Situations.Statements.{deliver}
use proactive_mcp.Situations.Reader.{pending_for_delivery}
use proactive_mcp.Situations.Access.{update_row, require_situation, record_delivery}
use proactive_mcp.Delivery.Eligibility.{
  source_eligible, is_consumable, delivered_count, delivered_replies, reserved_non_reply_slots,
  is_held,
}

-- _MAX_DELIVERY_CANDIDATES
abbrev pub max_delivery_candidates : ℕ
max_delivery_candidates = 100

-- The WHERE of the claiming UPDATE, but for the id; `-` stops at 0, as MAX(0, ? - ?) does.
unfoldable pub may_claim : DeliveryClaim → ℕ → Db → Situation → Bool
may_claim claim slots db s =
    is_consumable claim db s
    && source_eligible db s
    && (is_critical s.priority || ltb (delivered_count claim db) claim.daily_budget)
    && (is_critical s.priority
        || not (is_reply_deadline s.situation_type)
        || ltb (delivered_replies claim db) (claim.daily_budget - slots))

-- The statement, whose subqueries see the database as it stands.
unfoldable pub claim_row : DeliveryClaim → ℕ → ℕ → Session Bool
claim_row claim slots i db = update_row i (may_claim claim slots db) (deliver claim.delivered_at) db

unfoldable pub record_claimed : DeliveryClaim → ℕ → Bool → Session (Option Situation)
record_claimed claim i false = pure none
record_claimed claim i true = do
  situation ← require_situation i
  record_delivery situation claim.delivered_at
  pure (some situation)

-- The body of the loop; `none` is a `continue`.
unfoldable pub claim_one : DeliveryClaim → ℕ → Situation → Session (Option Situation)
claim_one claim slots c =
    if is_held claim c
    then pure none
    else (do moved ← claim_row claim slots c.id; record_claimed claim c.id moved)

abbrev pub with_claimed : Option Situation → List Situation → List Situation
with_claimed none rest = rest
with_claimed (some s) rest = s ∷ rest

unfoldable pub claim_each : DeliveryClaim → ℕ → List Situation → Session (List Situation)
claim_each claim slots [] = pure []
claim_each claim slots (c ∷ cs) = do
  taken ← claim_one claim slots c
  rest ← claim_each claim slots cs
  pure (with_claimed taken rest)

unfoldable pub claim_candidates : DeliveryClaim → Session (List Situation)
claim_candidates claim = do
  candidates ← query (pending_for_delivery max_delivery_candidates)
  slots ← query (reserved_non_reply_slots claim false candidates)
  claim_each claim slots candidates

unfoldable pub claim_for_delivery : DeliveryClaim → Session (List Situation)
claim_for_delivery claim = transaction (claim_candidates claim)
