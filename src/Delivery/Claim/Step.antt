-- ===== src/Delivery/Claim/Step.antt =====
-- One turn of the claiming loop.
use proactive_mcp.Prelude.{
  ℕ, ◌≡◌, refl, sym, subst, true, false, ◌||◌, ◌⊎◌, none, some, List, [], ◌∷◌, ◌++◌, arith, inl,
  inr, if◌then◌else◌, Bool-cases, Option-cases, ◌==◌, ==→eq,
}
use proactive_mcp.Model.Situation.{Situation, DeliveryClaim, is_critical}
use proactive_mcp.Db.{
  Db, Delivery, returned, ◌>>=◌, find_id, find_id-id, update_id, update_id-found, update_id-ne,
}
use proactive_mcp.Situations.Statements.{deliver}
use proactive_mcp.Situations.Lifecycle.Invariant.{deliver-SameIdentity}
use proactive_mcp.Situations.Access.{update_row, require_situation, record_delivery}
use proactive_mcp.Delivery.Eligibility.{is_held}
use proactive_mcp.Delivery.Claim.{may_claim, claim_one, claim_row, record_claimed}

abbrev pub delivery_of : ℕ → Situation → Delivery
delivery_of now s = record { situation_id = s.id; delivered_at = now; priority = s.priority }

-- The database after a claimed row.
abbrev pub claimed_db : DeliveryClaim → Db → Situation → List Situation → Db
claimed_db claim db s rows = record db {
  situations = rows;
  deliveries = db.deliveries ++ delivery_of claim.delivered_at s ∷ [];
}

-- A turn that claims the row `s`.
pub record Takes (claim : DeliveryClaim) (slots : ℕ) (db : Db) (s : Situation)
    (rows : List Situation) : Type 0 where
  pub found : find_id s.id db.situations ≡ some s
  pub eligible : may_claim claim slots db s ≡ true
  pub allowed : (claim.allow_noncritical || is_critical s.priority) ≡ true
  pub written :
      update_id s.id (may_claim claim slots db) (deliver claim.delivered_at) db.situations
      ≡ some rows

-- A candidate that still stands for a row of its priority.
pub record Stands (db : Db) (c : Situation) : Type 0 where
  pub row : Situation
  pub found : find_id c.id db.situations ≡ some row
  pub same_priority : row.priority ≡ c.priority

module _ (claim : DeliveryClaim) (slots : ℕ) (c : Situation) (db : Db) (stands : Stands db c) where
  abbrev keeps : (s : Situation) → (deliver claim.delivered_at s).id ≡ s.id
  keeps s = (deliver-SameIdentity s claim.delivered_at).same_id

  abbrev Updates : List Situation → Type 0
  Updates rows =
      update_id c.id (may_claim claim slots db) (deliver claim.delivered_at) db.situations
      ≡ some rows

  -- The row that passed the test is the one that stands, and it is changed.
  hit :
      (rows : List Situation)
      → Updates rows
      → (may_claim claim slots db stands.row ≡ true)
        × (find_id c.id rows ≡ some (deliver claim.delivered_at stands.row))
  hit rows e =
      let (s, found, pass, after) = update_id-found c.id _ _ keeps db.situations rows e in
      let standing = stands.found in
      let same : s ≡ stands.row = cc in
      (
        subst (λ r. may_claim claim slots db r ≡ true) same pass,
        subst (λ r. find_id c.id rows ≡ some (deliver claim.delivered_at r)) same after,
      )

  taken :
      is_held claim c ≡ false
      → (rows : List Situation) → Updates rows
      → Takes claim slots db stands.row rows
  taken free rows e =
      let same_id : c.id ≡ stands.row.id =
        sym (find_id-id c.id db.situations stands.row stands.found) in
      let same_priority = stands.same_priority in
      record {
        found = subst (λ i. find_id i db.situations ≡ some stands.row) same_id stands.found;
        eligible = (hit rows e).0;
        allowed = ground arith;
        written =
            subst
              (λ i.
                update_id i (may_claim claim slots db) (deliver claim.delivered_at) db.situations
                ≡ some rows)
              same_id e;
      }

  ran :
      is_held claim c ≡ false
      → (rows : List Situation) → Updates rows
      → claim_one claim slots c db ≡ (
        returned (some (deliver claim.delivered_at stands.row)),
        claimed_db claim db stands.row rows,
      )
  unfolding claim_one claim_row record_claimed update_row require_situation record_delivery deliver
      ◌>>=◌
  ran free rows e = rw (free, e) (rw (hit rows e).1 refl)

  -- The turn leaves everything as it is, or claims the row.
  pub claim_one_lem :
      (claim_one claim slots c db ≡ (returned none, db))
      ⊎ ((rows : List Situation) × Takes claim slots db stands.row rows
          × (claim_one claim slots c db ≡ (
            returned (some (deliver claim.delivered_at stands.row)),
            claimed_db claim db stands.row rows,
          )))
  unfolding claim_one claim_row record_claimed update_row require_situation record_delivery ◌>>=◌
  claim_one_lem = elim (Bool-cases (is_held claim c)) [
    | inl held ↦ inl (ground arith)
    | inr free ↦
        elim (Option-cases
          (update_id c.id (may_claim claim slots db) (deliver claim.delivered_at) db.situations)) [
            | inl e ↦ inl (ground arith)
            | inr (rows, e) ↦ inr (rows, taken free rows e, ran free rows e)
          ]
  ]

-- What a turn leaves under each id.
pub Takes-find_id :
    (claim : DeliveryClaim) (slots : ℕ) (db : Db) (s : Situation) (rows : List Situation)
    → Takes claim slots db s rows
    → (j : ℕ)
    → find_id j rows
      ≡ (if s.id == j then some (deliver claim.delivered_at s) else find_id j db.situations)
Takes-find_id claim slots db s rows t j = elim (Bool-cases (s.id == j)) [
  | inl same ↦ rw same (
      subst (λ i. find_id i rows ≡ some (deliver claim.delivered_at s)) (==→eq s.id j same) changed)
  | inr other ↦ rw other (update_id-ne s.id _ _ keeps_id db.situations rows j other t.written)
]
  where
    keeps_id : (r : Situation) → (deliver claim.delivered_at r).id ≡ r.id
    keeps_id r = (deliver-SameIdentity r claim.delivered_at).same_id

    changed : find_id s.id rows ≡ some (deliver claim.delivered_at s)
    changed =
        let (r, found, pass, after) =
          update_id-found s.id (may_claim claim slots db) (deliver claim.delivered_at) keeps_id
            db.situations rows t.written in
        let standing = t.found in
        let same : r ≡ s = cc in
        subst (λ q. find_id s.id rows ≡ some (deliver claim.delivered_at q)) same after
