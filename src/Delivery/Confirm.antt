-- ===== src/Delivery/Confirm.antt =====
-- confirm_delivery of src/proactive_mcp/store/_situation_claim.py.
pub mod Machine
pub mod Replay
use proactive_mcp.Prelude.{ℕ, String, Bool, true, false, Option, none, some, List, [], ◌∷◌, length}
use proactive_mcp.Model.Situation.{DeliveryConfirmation, is_pending}
use proactive_mcp.Db.{receipt_error, Session, pure, raise, query, execute, transaction, ◌>>=◌, ◌>>◌}
use proactive_mcp.Situations.Statements.{deliver}
use proactive_mcp.Situations.Reader.{delivery_claim_ids}
use proactive_mcp.Situations.Access.{update_row, require_situation, record_delivery}
use proactive_mcp.Delivery.Receipts.{expire_leases, consume, replay, record_receipt}

module _ (now : ℕ) where
  abbrev pub record_moved : ℕ → Bool → Session Unit
  record_moved i false = raise receipt_error
  record_moved i true = do situation ← require_situation i; record_delivery situation now

  -- The body of the loop.
  unfoldable pub confirm_row : ℕ → Session Unit
  confirm_row i = do
    moved ← update_row i (λ s. is_pending s.state) (deliver now)
    record_moved i moved

  unfoldable pub confirm_each : List ℕ → Session Unit
  confirm_each [] = pure tt
  confirm_each (i ∷ ids) = do confirm_row i; confirm_each ids

  module _ (digest : String) where
    unfoldable pub confirm_leased : List ℕ → Session DeliveryConfirmation
    confirm_leased [] = raise receipt_error
    confirm_leased (i ∷ ids) = do
      confirm_each (i ∷ ids)
      execute (consume digest)
      record_receipt digest (length (i ∷ ids)) now

    abbrev pub confirm_unless_replayed : Option DeliveryConfirmation → Session DeliveryConfirmation
    confirm_unless_replayed (some result) = pure result
    confirm_unless_replayed none = do
      execute (expire_leases now)
      ids ← query (delivery_claim_ids digest)
      confirm_leased ids

    unfoldable pub confirm_body : Session DeliveryConfirmation
    confirm_body = do result ← query (replay digest); confirm_unless_replayed result

module _ (receipt_digest : String → String) where
  unfoldable pub confirm_delivery : String → ℕ → Session DeliveryConfirmation
  confirm_delivery claim_token confirmed_at =
      transaction (confirm_body confirmed_at (receipt_digest claim_token))
