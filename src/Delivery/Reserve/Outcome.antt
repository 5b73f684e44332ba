-- ===== src/Delivery/Reserve/Outcome.antt =====
-- `reserve_for_delivery` as a whole.
use proactive_mcp.Prelude.{
  ℕ, String, ◌+◌, ◌≤◌, ◌≡◌, ap, true, false, ◌||◌, some, List, ◌++◌, map, All, All-map, ltb,
}
use proactive_mcp.Model.Situation.{Situation, DeliveryClaim, is_critical}
use proactive_mcp.Db.{Db, returned, find_id, ◌>>=◌}
use proactive_mcp.Situations.Reader.{is_muted}
use proactive_mcp.Situations.Lifecycle.Keys.{WellFormed}
use proactive_mcp.Delivery.Eligibility.{
  cooled_down, is_consumable, source_eligible, delivered_count, is_leased_row,
}
use proactive_mcp.Delivery.Receipts.{expire_leases}
use proactive_mcp.Delivery.Reserve.{reserved_count, lease_of, reserve_for_delivery}
use proactive_mcp.Delivery.Reserve.Loop.{reserve_candidates-Leases}
use proactive_mcp.Delivery.Reserve.Laws.{written_runs, consumable_runs, usage_runs}

-- A row of `db` that a reservation may hand out.
pub record IsReservable (claim : DeliveryClaim) (db : Db) (c : Situation) : Type 0 where
  pub row : find_id c.id db.situations ≡ some c
  pub consumable : is_consumable claim db c ≡ true
  pub current : source_eligible db c ≡ true
  pub allowed : (claim.allow_noncritical || is_critical c.priority) ≡ true
  pub unleased : is_leased_row (expire_leases claim.delivered_at db) c ≡ false

-- But for the leases, the database without those that have run out is asked the same.
reservable :
    (claim : DeliveryClaim) (db : Db) (c : Situation)
    → (find_id c.id (expire_leases claim.delivered_at db).situations ≡ some c)
      × (is_consumable claim (expire_leases claim.delivered_at db) c ≡ true)
      × (source_eligible (expire_leases claim.delivered_at db) c ≡ true)
      × ((claim.allow_noncritical || is_critical c.priority) ≡ true)
      × (is_leased_row (expire_leases claim.delivered_at db) c ≡ false)
    → IsReservable claim db c
unfolding expire_leases is_consumable is_muted cooled_down source_eligible
reservable claim db c (row, consumable, current, allowed, unleased) = record {
  row = row;
  consumable = consumable;
  current = current;
  allowed = allowed;
  unleased = unleased;
}

module _ (receipt_digest : String → String) (claim : DeliveryClaim) (claim_token : String)
    (expires_at : ℕ) (valid : ltb claim.delivered_at expires_at ≡ true) (db : Db)
    (w : WellFormed db.situations) where
  written :
      (digest : String) (taken : List Situation) (after : Db)
      → after ≡ record (expire_leases claim.delivered_at db) {
        leases =
            (expire_leases claim.delivered_at db).leases
            ++ map (lease_of digest expires_at claim) taken;
      }
      → after ≡ record db {
        leases =
            (expire_leases claim.delivered_at db).leases
            ++ map (lease_of digest expires_at claim) taken;
      }
  unfolding expire_leases
  written digest taken after h = h

  -- On a well-formed table and for a lease that ends after it begins, `reserve_for_delivery`
  -- returns rows of the table that are pending, unexpired, not muted, past their cooldown, under no
  -- lease that still runs, not held back by a Gmail generation that is not current, and critical if
  -- the claim allows no others. The leases that had run out are gone, there is one more lease for
  -- each returned row, in their order, and nothing else is changed.
  pub reserve_for_delivery_outcome :
      (taken : List Situation) × (reserve_for_delivery receipt_digest claim claim_token expires_at
          db
        ≡ (
          returned
              (record { claim_token = claim_token; situations = taken; expires_at = expires_at }),
          record db {
            leases =
                (expire_leases claim.delivered_at db).leases
                ++ map (lease_of (receipt_digest claim_token) expires_at claim) taken;
          },
        ))
      × All (IsReservable claim db) taken
  unfolding reserve_for_delivery ◌>>=◌
  reserve_for_delivery_outcome =
      let digest = receipt_digest claim_token in
      let (taken, after, ran, runs) =
        reserve_candidates-Leases digest expires_at claim valid db w in
      (
        taken,
        rw ran (
            ap
              (λ d. (
                returned (record {
                  claim_token = claim_token;
                  situations = taken;
                  expires_at = expires_at;
                }),
                d,
              ))
              (written digest taken after (written_runs digest expires_at claim _ runs))),
        All-map _ (IsReservable claim db) taken (λ c h. reservable claim db c h)
            (consumable_runs digest expires_at claim _ runs),
      )

  -- On a well-formed table and for a lease that ends after it begins, the non-critical deliveries
  -- and active leases of the claim's window together number, after `reserve_for_delivery`, at most
  -- any `b` that was no less than their number once the leases that had run out are gone, and is no
  -- less than the daily budget.
  pub reserve_for_delivery_budget :
      (b : ℕ)
      → claim.daily_budget ≤ b
      → delivered_count claim (expire_leases claim.delivered_at db)
          + reserved_count claim (expire_leases claim.delivered_at db)
        ≤ b
      → delivered_count claim
            (reserve_for_delivery receipt_digest claim claim_token expires_at db).1
          + reserved_count claim
              (reserve_for_delivery receipt_digest claim claim_token expires_at db).1
        ≤ b
  unfolding reserve_for_delivery ◌>>=◌
  reserve_for_delivery_budget b cap below =
      let digest = receipt_digest claim_token in
      let (taken, after, ran, runs) =
        reserve_candidates-Leases digest expires_at claim valid db w in
      rw ran (usage_runs digest expires_at claim _ b cap runs below)
