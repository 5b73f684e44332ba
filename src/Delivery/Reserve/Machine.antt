-- ===== src/Delivery/Reserve/Machine.antt =====
-- A reservation writes leases alone.
use proactive_mcp.Prelude.{
  arith, ◌≡◌, ltb, true, false, Bool-cases, inl, inr, ℕ, String, refl, Option, none, some, List, [],
  ◌∷◌,
}
use proactive_mcp.Model.Situation.{Situation, DeliveryClaim}
use proactive_mcp.Delivery.Eligibility.{is_leased_row}
use proactive_mcp.Db.{pure, LeasedOnce-append, LeasedOnce-select, ◌>>=◌, Db, find_id}
use proactive_mcp.Situations.Lifecycle.History.{
  History, History-refl, History-unchanged, Advances, Advances-pure, Advances-query, Advances-bind,
  Advances-execute, Advances-if, Advances-transaction,
}
use proactive_mcp.Delivery.Receipts.{expire_leases}
use proactive_mcp.Delivery.Reserve.{
  may_reserve, lease_of, insert_lease, insert_selected, lease_row, reserve_one, reserve_each,
  reserve_candidates, reserve_for_delivery,
}

module _ (digest : String) (expires_at : ℕ) (claim : DeliveryClaim) where
  insert_lease-History :
      (s : Situation) (db : Db)
      → is_leased_row db s ≡ false
      → History db (insert_lease digest expires_at claim s db).1
  unfolding insert_lease ◌>>=◌
  insert_lease-History s db free = elim (Bool-cases (ltb claim.delivered_at expires_at)) [
    | inl valid ↦ rw valid (
        History-unchanged db _ refl refl refl refl
          (λ l. LeasedOnce-append db.leases (lease_of digest expires_at claim s) l free))
    | inr over ↦ rw over (History-refl db)
  ]

  may_reserve-unleased :
      (slots : ℕ) (db : Db) (s : Situation)
      → may_reserve claim slots db s ≡ true
      → is_leased_row db s ≡ false
  unfolding may_reserve
  may_reserve-unleased slots db s h = ground arith

  lease_row-Advances : (slots i : ℕ) → Advances (lease_row digest expires_at claim slots i)
  unfolding lease_row pure
  lease_row-Advances slots i = record { at = λ db w. selected db (find_id i db.situations) }
    where
      selected :
          (db : Db) (o : Option Situation)
          → History db (insert_selected digest expires_at claim slots db o db).1
      selected db none = History-refl db
      selected db (some s) = elim (Bool-cases (may_reserve claim slots db s)) [
        | inl pass ↦ rw pass (insert_lease-History s db (may_reserve-unleased slots db s pass))
        | inr fail ↦ rw fail (History-refl db)
      ]

  reserve_each-Advances :
      (slots : ℕ) (cs : List Situation) → Advances (reserve_each digest expires_at claim slots cs)
  unfolding reserve_each reserve_one
  reserve_each-Advances slots [] = Advances-pure _
  reserve_each-Advances slots (c ∷ cs) =
      Advances-bind _ _ (Advances-if _ _ _ (Advances-pure _) (lease_row-Advances slots c.id))
        λ leased. Advances-bind _ _ (reserve_each-Advances slots cs) λ rest. Advances-pure _

pub reserve_for_delivery-Advances :
    (receipt_digest : String → String) (claim : DeliveryClaim) (claim_token : String)
    (expires_at : ℕ)
    → Advances (reserve_for_delivery receipt_digest claim claim_token expires_at)
unfolding reserve_for_delivery reserve_candidates expire_leases
reserve_for_delivery-Advances receipt_digest claim claim_token expires_at =
    Advances-bind _ _
      (Advances-transaction _ (
        Advances-bind _ _
          (Advances-execute _
            λ db. History-unchanged db _ refl refl refl refl (LeasedOnce-select _ db.leases))
          λ _. Advances-bind _ _ (Advances-query _) λ candidates.
            Advances-bind _ _ (Advances-query _) λ slots.
              reserve_each-Advances (receipt_digest claim_token) expires_at claim slots candidates))
      λ reserved. Advances-pure _
