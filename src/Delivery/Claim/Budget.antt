-- ===== src/Delivery/Claim/Budget.antt =====
-- The day's budget over a whole claim.
use proactive_mcp.Prelude.{
  ℕ, ◌≤◌, ◌-◌, ◌<◌, ◌≡◌, refl, subst, Bool, true, false, ◌&&◌, some, List, [], ◌∷◌, ◌++◌, arith,
  count_where, count_where-append, Bool-cases, inl, inr, ◌==◌, ==→eq,
}
use proactive_mcp.Model.Situation.{Situation, DeliveryClaim, is_critical, is_reply_deadline}
use proactive_mcp.Db.{Db, find_id}
use proactive_mcp.Situations.Statements.{deliver}
use proactive_mcp.Situations.Reader.{pending_for_delivery}
use proactive_mcp.Situations.Lifecycle.Keys.{WellFormed}
use proactive_mcp.Delivery.Eligibility.{
  is_budgeted, is_reply, delivered_count, delivered_replies, reserved_non_reply_slots,
}
use proactive_mcp.Delivery.Claim.{may_claim, max_delivery_candidates, claim_for_delivery}
use proactive_mcp.Delivery.Claim.Step.{Takes, claimed_db, delivery_of, Takes-find_id}
use proactive_mcp.Delivery.Claim.Loop.{Runs, done, took, claim_for_delivery-Runs}

pub count_where-ext {ℓ} :
    {A : Type ℓ} (p q : A → Bool) (xs : List A)
    → ((x : A) → p x ≡ q x)
    → count_where p xs ≡ count_where q xs
count_where-ext p q [] h = refl
count_where-ext p q (x ∷ xs) h = rw (h x, count_where-ext p q xs h) refl

-- One row more is within the bound, if it is only counted below the bound.
pub count_where-below {ℓ} :
    {A : Type ℓ} (p : A → Bool) (xs : List A) (x : A) (b : ℕ)
    → count_where p xs ≤ b
    → (p x ≡ true → count_where p xs < b)
    → count_where p (xs ++ x ∷ []) ≤ b
count_where-below p xs x b h k = elim (Bool-cases (p x)) [
  | inl e ↦ rw (count_where-append p xs (x ∷ [])) (rw e (omega (arith, k e)))
  | inr e ↦ rw (count_where-append p xs (x ∷ [])) (rw e (omega (arith, h)))
]

module _ (claim : DeliveryClaim) (slots : ℕ) (db : Db) (s : Situation) where
  may_claim-budget :
      may_claim claim slots db s ≡ true
      → is_critical s.priority ≡ false
      → delivered_count claim db < claim.daily_budget
  unfolding may_claim
  may_claim-budget h usual = ground arith

  may_claim-replies :
      may_claim claim slots db s ≡ true
      → is_critical s.priority ≡ false
      → is_reply_deadline s.situation_type ≡ true
      → delivered_replies claim db < claim.daily_budget - slots
  unfolding may_claim
  may_claim-replies h usual reply = ground arith

module _ (claim : DeliveryClaim) (slots : ℕ) where
  budget_step :
      (db : Db) (s : Situation) (rows : List Situation) (b : ℕ)
      → Takes claim slots db s rows
      → claim.daily_budget ≤ b
      → delivered_count claim db ≤ b
      → delivered_count claim (claimed_db claim db s rows) ≤ b
  unfolding delivered_count
  budget_step db s rows b t cap below =
      count_where-below (is_budgeted claim) db.deliveries _ b below λ counted.
        let room = may_claim-budget claim slots db s t.eligible (ground arith) in
        omega (arith, room, cap)

  budget-Runs :
      {db after : Db} {taken : List Situation} (b : ℕ)
      → claim.daily_budget ≤ b
      → Runs claim slots db taken after
      → delivered_count claim db ≤ b
      → delivered_count claim after ≤ b
  budget-Runs b cap done below = below
  budget-Runs b cap (took {db = db} s rows t more) below =
      budget-Runs b cap more (budget_step db s rows b t cap below)

  -- A turn changes the type of no row.
  is_reply-claimed :
      (db : Db) (s : Situation) (rows : List Situation)
      → Takes claim slots db s rows
      → (j : ℕ) → is_reply (claimed_db claim db s rows) j ≡ is_reply db j
  unfolding deliver
  is_reply-claimed db s rows t j = elim (Bool-cases (s.id == j)) [
    | inl same ↦ rw (Takes-find_id claim slots db s rows t j) (rw same (rw (there same) refl))
    | inr other ↦ rw (Takes-find_id claim slots db s rows t j) (rw other refl)
  ]
    where
      there : (s.id == j) ≡ true → find_id j db.situations ≡ some s
      there same = subst (λ i. find_id i db.situations ≡ some s) (==→eq s.id j same) t.found

  replies_step :
      (db : Db) (s : Situation) (rows : List Situation) (b : ℕ)
      → Takes claim slots db s rows
      → claim.daily_budget - slots ≤ b
      → delivered_replies claim db ≤ b
      → delivered_replies claim (claimed_db claim db s rows) ≤ b
  unfolding delivered_replies
  replies_step db s rows b t cap below =
      rw
        (count_where-ext
          (λ d. is_budgeted claim d && is_reply (claimed_db claim db s rows) d.situation_id)
          (λ d. is_budgeted claim d && is_reply db d.situation_id)
          (db.deliveries ++ delivery_of claim.delivered_at s ∷ [])
          (λ d. rw (is_reply-claimed db s rows t d.situation_id) refl))
        (count_where-below (λ d. is_budgeted claim d && is_reply db d.situation_id) db.deliveries
          (delivery_of claim.delivered_at s) b below
          λ counted.
            let room =
              may_claim-replies claim slots db s t.eligible (ground arith) (kind (ground arith)) in
            omega (arith, room, cap))
    where
      kind : is_reply db s.id ≡ true → is_reply_deadline s.situation_type ≡ true
      kind h = let found = t.found in ground arith

  replies-Runs :
      {db after : Db} {taken : List Situation} (b : ℕ)
      → claim.daily_budget - slots ≤ b
      → Runs claim slots db taken after
      → delivered_replies claim db ≤ b
      → delivered_replies claim after ≤ b
  replies-Runs b cap done below = below
  replies-Runs b cap (took {db = db} s rows t more) below =
      replies-Runs b cap more (replies_step db s rows b t cap below)

module _ (claim : DeliveryClaim) (db : Db) (w : WellFormed db.situations) (b : ℕ) where
  -- On a well-formed table, the non-critical deliveries in the claim's window number, after
  -- `claim_for_delivery`, at most any `b` that was no less than their number before and is no less
  -- than the daily budget.
  pub claim_for_delivery_budget :
      claim.daily_budget ≤ b
      → delivered_count claim db ≤ b
      → delivered_count claim (claim_for_delivery claim db).1 ≤ b
  claim_for_delivery_budget cap below =
      let (taken, after, ran, runs) = claim_for_delivery-Runs claim db w in
      rw ran (budget-Runs claim _ b cap runs below)

  -- On a well-formed table, the non-critical deliveries of reply deadlines in the claim's window
  -- number, after `claim_for_delivery`, at most any `b` that was no less than their number before
  -- and is no less than the daily budget less the slots reserved for the other types.
  pub claim_for_delivery_replies :
      claim.daily_budget
          - reserved_non_reply_slots claim false
              (pending_for_delivery max_delivery_candidates db)
              db
        ≤ b
      → delivered_replies claim db ≤ b
      → delivered_replies claim (claim_for_delivery claim db).1 ≤ b
  claim_for_delivery_replies cap below =
      let (taken, after, ran, runs) = claim_for_delivery-Runs claim db w in
      rw ran (replies-Runs claim _ b cap runs below)
