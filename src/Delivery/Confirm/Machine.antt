-- ===== src/Delivery/Confirm/Machine.antt =====
-- A confirmation keeps to the state machine and the append-only history, and so does a claim.
use proactive_mcp.Prelude.{
  ℕ, String, ◌≡◌, refl, Bool, true, false, Option, none, some, List, [], ◌∷◌, arith,
}
use proactive_mcp.Model.Situation.{Situation, DeliveryClaim, DeliveryConfirmation, is_pending}
use proactive_mcp.Db.{FallbackHistory-refl, LeasedOnce-select, Db}
use proactive_mcp.Situations.Lifecycle.{delivers}
use proactive_mcp.Situations.Lifecycle.Invariant.{deliver-SameIdentity}
use proactive_mcp.Situations.Lifecycle.History.{
  History-unchanged, Grows-refl, by, Advances, Advances-pure, Advances-raise, Advances-query,
  Advances-bind, Advances-execute, Advances-transaction, history_rules,
}
use proactive_mcp.Situations.Lifecycle.Table.{Evolves-refl}
use proactive_mcp.Situations.Access.Laws.{History-update_row, Advances-update_row, access_history}
use proactive_mcp.Delivery.Eligibility.{is_consumable}
use proactive_mcp.Delivery.Receipts.{expire_leases, consume, record_receipt}
use proactive_mcp.Delivery.Claim.{
  may_claim, claim_row, record_claimed, claim_one, claim_each, claim_candidates, claim_for_delivery,
}
use proactive_mcp.Delivery.Confirm.{
  record_moved, confirm_row, confirm_each, confirm_leased, confirm_unless_replayed, confirm_body,
  confirm_delivery,
}

may_claim-is_pending :
    (claim : DeliveryClaim) (slots : ℕ) (db : Db) (s : Situation)
    → may_claim claim slots db s ≡ true
    → is_pending s.state ≡ true
unfolding may_claim is_consumable
may_claim-is_pending claim slots db s h = ground arith

claim_row-Advances : (claim : DeliveryClaim) (slots i : ℕ) → Advances (claim_row claim slots i)
unfolding claim_row
claim_row-Advances claim slots i = record {
  at = λ db w.
      History-update_row i _ _ db (λ s. deliver-SameIdentity s claim.delivered_at)
        (λ s _ h. delivers claim.delivered_at (may_claim-is_pending claim slots db s h) refl);
}

claim_one-Advances :
    (claim : DeliveryClaim) (slots : ℕ) (c : Situation) → Advances (claim_one claim slots c)
unfolding claim_one record_claimed
claim_one-Advances claim slots c = search (history_rules, claim_row-Advances, recorded)
  where
    recorded : (moved : Bool) → Advances (record_claimed claim c.id moved)
    recorded false = Advances-pure _
    recorded true = search (history_rules, access_history) depth 8

claim_each-Advances :
    (claim : DeliveryClaim) (slots : ℕ) (cs : List Situation) → Advances (claim_each claim slots cs)
unfolding claim_each
claim_each-Advances claim slots [] = Advances-pure _
claim_each-Advances claim slots (c ∷ cs) =
    Advances-bind _ _ (claim_one-Advances claim slots c)
      λ taken. Advances-bind _ _ (claim_each-Advances claim slots cs) λ rest. Advances-pure _

pub claim_for_delivery-Advances : (claim : DeliveryClaim) → Advances (claim_for_delivery claim)
unfolding claim_for_delivery claim_candidates
claim_for_delivery-Advances claim = search (history_rules, claim_each-Advances) depth 8

module _ (now : ℕ) where
  confirm_row-Advances : (i : ℕ) → Advances (confirm_row now i)
  unfolding confirm_row
  confirm_row-Advances i =
      Advances-bind _ _
        (Advances-update_row i _ _ (λ s. deliver-SameIdentity s now) (λ s h. delivers now h refl))
        moved
    where
      moved : (b : Bool) → Advances (record_moved now i b)
      moved false = Advances-raise _
      moved true = search (history_rules, access_history) depth 8

  confirm_each-Advances : (ids : List ℕ) → Advances (confirm_each now ids)
  unfolding confirm_each
  confirm_each-Advances [] = Advances-pure _
  confirm_each-Advances (i ∷ ids) =
      Advances-bind _ _ (confirm_row-Advances i) λ _. confirm_each-Advances ids

  record_receipt-Advances : (digest : String) (n : ℕ) → Advances (record_receipt digest n now)
  unfolding record_receipt
  record_receipt-Advances digest n =
      Advances-bind _ _
        (Advances-execute _ λ db. record {
          rows = Evolves-refl db.situations;
          deliveries = Grows-refl db.deliveries;
          receipts = by _ refl;
          fallbacks = FallbackHistory-refl db.fallbacks;
          well_formed = λ w. w;
          leased = λ l. l;
        })
        λ _. Advances-pure _

  confirm_leased-Advances :
      (digest : String) (ids : List ℕ) → Advances (confirm_leased now digest ids)
  unfolding confirm_leased consume
  confirm_leased-Advances digest [] = Advances-raise _
  confirm_leased-Advances digest (i ∷ ids) =
      Advances-bind _ _ (confirm_each-Advances (i ∷ ids)) λ _.
        Advances-bind _ _
          (Advances-execute _
            λ db. History-unchanged db _ refl refl refl refl (LeasedOnce-select _ db.leases))
          λ _. record_receipt-Advances digest _

  confirm_body-Advances : (digest : String) → Advances (confirm_body now digest)
  unfolding confirm_body expire_leases
  confirm_body-Advances digest = Advances-bind _ _ (Advances-query _) continued
    where
      continued :
          (r : Option DeliveryConfirmation) → Advances (confirm_unless_replayed now digest r)
      continued (some result) = Advances-pure _
      continued none =
          Advances-bind _ _
            (Advances-execute _
              λ db. History-unchanged db _ refl refl refl refl (LeasedOnce-select _ db.leases))
            λ _. Advances-bind _ _ (Advances-query _) λ ids. confirm_leased-Advances digest ids

pub confirm_delivery-Advances :
    (receipt_digest : String → String) (claim_token : String) (now : ℕ)
    → Advances (confirm_delivery receipt_digest claim_token now)
unfolding confirm_delivery
confirm_delivery-Advances receipt_digest claim_token now =
    Advances-transaction _ (confirm_body-Advances now (receipt_digest claim_token))
