-- ===== src/Delivery/Confirm/Replay.antt =====
-- A confirmation can be asked for again: the answer is on record.
use proactive_mcp.Prelude.{
  ℕ, String, ◌≡◌, refl, sym, ◌∙◌, ap, none, some, List, [], ◌∷◌, ◌++◌, length, first_where, str_eq,
  str_eq_iff, Bool-cases, Option-cases, inl, inr, arith,
}
use proactive_mcp.Model.Situation.{DeliveryConfirmation, already_confirmed, is_pending}
use proactive_mcp.Db.{
  Db, ConfirmedReceipt, returned, execute, transaction-returned, bind-returned, bind_fixes,
  transaction_commits, raise-returned, receipt_error, ◌>>◌, ◌>>=◌, find_id, update_id,
}
use proactive_mcp.Situations.Statements.{deliver}
use proactive_mcp.Situations.Reader.{delivery_claim_ids}
use proactive_mcp.Situations.Access.{update_row, require_situation, record_delivery}
use proactive_mcp.Delivery.Receipts.{expire_leases, consume, replay, receipt_of, record_receipt}
use proactive_mcp.Delivery.Confirm.{
  confirm_row, confirm_each, confirm_leased, confirm_body, confirm_delivery,
}

-- The loop writes no receipt.
module _ (now : ℕ) where
  confirm_row-receipts : (i : ℕ) (db : Db) → (confirm_row now i db).1.receipts ≡ db.receipts
  unfolding confirm_row update_row require_situation record_delivery ◌>>=◌
  confirm_row-receipts i db =
      elim (Option-cases (update_id i (λ s. is_pending s.state) (deliver now) db.situations)) [
        | inl e ↦ ground arith
        | inr (rows, e) ↦ elim (Option-cases (find_id i rows)) [
          | inl gone ↦ ground arith
          | inr (s, found) ↦ ground arith
        ]
      ]

  confirm_each-receipts :
      (ids : List ℕ) (db : Db) → (confirm_each now ids db).1.receipts ≡ db.receipts
  unfolding confirm_each ◌>>=◌
  confirm_each-receipts [] db = refl
  confirm_each-receipts (i ∷ ids) db =
      bind_fixes (λ d. d.receipts) (confirm_row now i) _ db (confirm_row-receipts i db)
        (λ _ d. confirm_each-receipts ids d)

-- The answer on record.
abbrev pub repeated : DeliveryConfirmation → DeliveryConfirmation
repeated r = record { status = already_confirmed; delivered_count = r.delivered_count }

first_where-append :
    (digest : String) (rs : List ConfirmedReceipt) (r : ConfirmedReceipt)
    → first_where (λ q. str_eq q.receipt_digest digest) rs ≡ none
    → r.receipt_digest ≡ digest
    → first_where (λ q. str_eq q.receipt_digest digest) (rs ++ r ∷ []) ≡ some r
first_where-append digest [] r h e = ground (arith, str_eq_iff r.receipt_digest digest, e)
first_where-append digest (q ∷ rs) r h e = elim (Bool-cases (str_eq q.receipt_digest digest)) [
  | inl hit ↦ ground arith
  | inr miss ↦ rw miss (first_where-append digest rs r (ground arith) e)
]

module _ (now : ℕ) (digest : String) where
  -- The end of a confirmation.
  recorded-replay :
      (n : ℕ) (db : Db) (r : DeliveryConfirmation)
      → receipt_of digest db ≡ none
      → ((execute (consume digest) >> record_receipt digest n now) db).0 ≡ returned r
      → replay digest ((execute (consume digest) >> record_receipt digest n now) db).1
        ≡ some (repeated r)
  unfolding ◌>>=◌ consume record_receipt replay
  recorded-replay n db r new h =
      let counted : n ≡ r.delivered_count = ground arith in
      rw
        (first_where-append digest db.receipts
          (record { receipt_digest = digest; delivered_count = n; confirmed_at = now }) new refl)
        (rw counted refl)

  confirm_leased-replay :
      (ids : List ℕ) (db : Db) (r : DeliveryConfirmation)
      → receipt_of digest db ≡ none
      → (confirm_leased now digest ids db).0 ≡ returned r
      → replay digest (confirm_leased now digest ids db).1 ≡ some (repeated r)
  unfolding confirm_leased
  confirm_leased-replay [] db r new h = absurd (raise-returned receipt_error db r h)
  confirm_leased-replay (i ∷ ids) db r new h =
      let (u, ran, rest) = bind-returned (confirm_each now (i ∷ ids)) _ db r h in
      let after = (confirm_each now (i ∷ ids) db).1 in
      rw rest (
        recorded-replay (length (i ∷ ids)) after r
          (ap (first_where (λ q. str_eq q.receipt_digest digest))
              (confirm_each-receipts now (i ∷ ids) db)
            ∙ new)
          (ap (λ o. o.0) (sym rest) ∙ h))

  confirm_body-replay :
      (db : Db) (r : DeliveryConfirmation)
      → (confirm_body now digest db).0 ≡ returned r
      → replay digest (confirm_body now digest db).1 ≡ some (repeated r)
  unfolding confirm_body ◌>>=◌ replay expire_leases
  confirm_body-replay db r h = elim (Option-cases (receipt_of digest db)) [
    | inl new ↦
        let same : confirm_body now digest db
            ≡ confirm_leased now digest (delivery_claim_ids digest (expire_leases now db))
                (expire_leases now db) =
          rw new refl in
        rw same
          (confirm_leased-replay _ (expire_leases now db) r new (ap (λ o. o.0) (sym same) ∙ h))
    | inr (old, e) ↦ ground arith
  ]

  replay-again :
      (db : Db) (r : DeliveryConfirmation)
      → replay digest db ≡ some r
      → confirm_body now digest db ≡ (returned r, db)
  unfolding confirm_body ◌>>=◌
  replay-again db r e = rw e refl

module _ (receipt_digest : String → String) (claim_token : String) where
  -- A confirmation that returned, at whatever time it is asked for again, returns the same count
  -- with the status `already_confirmed` and leaves the database as it is.
  pub confirm_again :
      (now later : ℕ) (db : Db) (first : DeliveryConfirmation)
      → (confirm_delivery receipt_digest claim_token now db).0 ≡ returned first
      → confirm_delivery receipt_digest claim_token later
          (confirm_delivery receipt_digest claim_token now db).1
        ≡ (returned (repeated first), (confirm_delivery receipt_digest claim_token now db).1)
  unfolding confirm_delivery
  confirm_again now later db first h =
      let digest = receipt_digest claim_token in
      let committed = transaction-returned (confirm_body now digest) db first h in
      rw committed (
        transaction_commits (confirm_body later digest) _ _ _ (
          replay-again later digest _ _
            (confirm_body-replay now digest db first (ap (λ o. o.0) (sym committed) ∙ h))))
