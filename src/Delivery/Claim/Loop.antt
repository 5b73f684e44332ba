-- ===== src/Delivery/Claim/Loop.antt =====
-- The claiming loop as a chain of turns.
use proactive_mcp.Prelude.{
  ℕ, ◌≡◌, refl, ap, ◌∙◌, subst, true, false, some, List, [], ◌∷◌, arith, inl, inr, All, All-take,
  All-map, All-select_where, ◌<◌, ==_refl, Bool-cases, ◌==◌, ==→eq,
}
use proactive_mcp.Prelude.Sort.{sort-All}
use proactive_mcp.Model.Situation.{Situation, DeliveryClaim}
use proactive_mcp.Db.{Db, returned, transaction, ◌>>=◌, find_id}
use proactive_mcp.Situations.Statements.{deliver}
use proactive_mcp.Situations.Reader.{pending_for_delivery, delivery_before}
use proactive_mcp.Situations.Lifecycle.Keys.{Ascending, WellFormed}
use proactive_mcp.Delivery.Eligibility.{reserved_non_reply_slots}
use proactive_mcp.Delivery.Claim.{
  max_delivery_candidates, claim_candidates, claim_for_delivery, claim_each,
}
use proactive_mcp.Delivery.Claim.Step.{Takes, Stands, claimed_db, Takes-find_id, claim_one_lem}

-- The loop: every turn that claims a row is followed by the rest of the loop on what it left.
pub data Runs (claim : DeliveryClaim) (slots : ℕ) : Db → List Situation → Db → Type 0 where
  done : {db : Db} → Runs claim slots db [] db
  took :
      {db after : Db} {rest : List Situation} (s : Situation) (rows : List Situation)
      → Takes claim slots db s rows
      → Runs claim slots (claimed_db claim db s rows) rest after
      → Runs claim slots db (deliver claim.delivered_at s ∷ rest) after

module _ (claim : DeliveryClaim) (slots : ℕ) where
  -- A candidate stands as well after a turn.
  Stands-claimed :
      (db : Db) (s c : Situation) (rows : List Situation)
      → Takes claim slots db s rows
      → Stands db c
      → Stands (claimed_db claim db s rows) c
  unfolding deliver
  Stands-claimed db s c rows t h = elim (Bool-cases (s.id == c.id)) [
    | inl same ↦ record {
      row = deliver claim.delivered_at s;
      found = rw (Takes-find_id claim slots db s rows t c.id) (rw same refl);
      same_priority = same_row same ∙ h.same_priority;
    }
    | inr other ↦ record {
      row = h.row;
      found = rw (Takes-find_id claim slots db s rows t c.id) (rw other h.found);
      same_priority = h.same_priority;
    }
  ]
    where
      same_row : (s.id == c.id) ≡ true → s.priority ≡ h.row.priority
      same_row same =
          let e = ==→eq s.id c.id same in
          let one : find_id c.id db.situations ≡ some s =
            subst (λ i. find_id i db.situations ≡ some s) e t.found in
          let two = h.found in let rows_same : s ≡ h.row = cc in ap (λ r. r.priority) rows_same

  Stands-All :
      (db : Db) (s : Situation) (rows : List Situation) (cs : List Situation)
      → Takes claim slots db s rows
      → All (Stands db) cs
      → All (Stands (claimed_db claim db s rows)) cs
  Stands-All db s rows [] t h = tt
  Stands-All db s rows (c ∷ cs) t h =
      (Stands-claimed db s c rows t h.0, Stands-All db s rows cs t h.1)

  -- The loop returns, and what it returns is a chain of turns.
  pub claim_each_lem :
      (cs : List Situation) (db : Db)
      → All (Stands db) cs
      → (taken : List Situation) × (after : Db) × (claim_each claim slots cs db
          ≡ (returned taken, after))
        × Runs claim slots db taken after
  unfolding claim_each ◌>>=◌
  claim_each_lem [] db h = ([], db, refl, done)
  claim_each_lem (c ∷ cs) db h = elim (claim_one_lem claim slots c db h.0) [
    | inl e ↦
        let (taken, after, ran, runs) = claim_each_lem cs db h.1 in
        (taken, after, rw e (rw ran refl), runs)
    | inr (rows, t, e) ↦
        let (taken, after, ran, runs) =
          claim_each_lem cs (claimed_db claim db h.0.row rows)
            (Stands-All db h.0.row rows cs t h.1) in
        (
          deliver claim.delivered_at h.0.row ∷ taken,
          after,
          rw e (rw ran refl),
          took h.0.row rows t runs,
        )
  ]

-- Every row is the one under its id.
pub Ascending-find_id :
    (n : ℕ) (rows : List Situation)
    → Ascending n rows
    → All (λ s. (n < s.id) × (find_id s.id rows ≡ some s)) rows
unfolding find_id
Ascending-find_id n [] a = tt
Ascending-find_id n (s ∷ rows) a = (
  (a.0, rw (==_refl s.id) refl),
  All-map _ _ rows (λ q h. (omega (arith, h.0, a.0), behind q h)) (Ascending-find_id s.id rows a.1),
)
  where
    behind :
        (q : Situation)
        → (s.id < q.id) × (find_id q.id rows ≡ some q)
        → find_id q.id (s ∷ rows) ≡ some q
    behind q h = let above = h.0 in let found = h.1 in ground arith

-- The candidates stand: ids are distinct.
Stands-pending :
    (db : Db)
    → WellFormed db.situations
    → All (Stands db) (pending_for_delivery max_delivery_candidates db)
unfolding pending_for_delivery
Stands-pending db w =
    All-take _ max_delivery_candidates _
      (sort-All delivery_before _ _ (All-select_where _ _ _ stand))
  where
    stand : All (Stands db) db.situations
    stand =
        All-map _ (Stands db) db.situations
          (λ s h. record { row = s; found = h.1; same_priority = refl })
          (Ascending-find_id 0 db.situations w.ids)

-- The whole claim.
pub claim_for_delivery-Runs :
    (claim : DeliveryClaim) (db : Db)
    → WellFormed db.situations
    → (taken : List Situation) × (after : Db) × (claim_for_delivery claim db
        ≡ (returned taken, after))
      × Runs claim
          (reserved_non_reply_slots claim false
            (pending_for_delivery max_delivery_candidates db)
            db)
          db
          taken
          after
unfolding claim_for_delivery claim_candidates transaction ◌>>=◌
claim_for_delivery-Runs claim db w =
    let (taken, after, ran, runs) = claim_each_lem claim _ _ db (Stands-pending db w) in
    (taken, after, rw ran refl, runs)
