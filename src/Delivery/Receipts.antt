-- ===== src/Delivery/Receipts.antt =====
-- src/proactive_mcp/store/_delivery_receipt.py. The digest of a token is SHA-256, a parameter of
-- the modules that use it.
use proactive_mcp.Prelude.{
  ℕ, String, not, Option, none, some, [], ◌∷◌, ◌++◌, leb, str_eq, select_where, first_where,
}
use proactive_mcp.Model.Situation.{DeliveryConfirmation, confirmed, already_confirmed}
use proactive_mcp.Db.{Db, ConfirmedReceipt, Session, pure, execute, ◌>>◌}

unfoldable pub expire_leases : ℕ → Db → Db
expire_leases now db = record db {
  leases = select_where (λ l. not (leb l.expires_at now)) db.leases;
}

unfoldable pub consume : String → Db → Db
consume digest db = record db {
  leases = select_where (λ l. not (str_eq l.receipt_digest digest)) db.leases;
}

abbrev pub receipt_of : String → Db → Option ConfirmedReceipt
receipt_of digest db = first_where (λ r. str_eq r.receipt_digest digest) db.receipts

abbrev replayed : Option ConfirmedReceipt → Option DeliveryConfirmation
replayed none = none
replayed (some r) =
    some (record { status = already_confirmed; delivered_count = r.delivered_count })

unfoldable pub replay : String → Db → Option DeliveryConfirmation
replay digest db = replayed (receipt_of digest db)

unfoldable pub record_receipt : String → ℕ → ℕ → Session DeliveryConfirmation
record_receipt digest count now = do
  execute (λ db. record db {
    receipts =
        db.receipts
        ++ record { receipt_digest = digest; delivered_count = count; confirmed_at = now } ∷ [];
  })
  pure (record { status = confirmed; delivered_count = count })
