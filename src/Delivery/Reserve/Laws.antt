-- ===== src/Delivery/Reserve/Laws.antt =====
-- What a reservation hands out, writes down and keeps to.
use mathlib.Core.List.{append-nil, append_assoc}
use proactive_mcp.Prelude.{
  ℕ, String, ◌+◌, ◌-◌, ◌≤◌, ◌<◌, ◌≡◌, refl, ap, ◌∙◌, Bool, true, false, not, ◌&&◌, ◌||◌, some, List,
  [], ◌∷◌, ◌++◌, map, arith, All, All-map, ◌==◌, count_where,
}
use proactive_mcp.Model.Situation.{Situation, DeliveryClaim, is_critical}
use proactive_mcp.Db.{Db, DeliveryLease, find_id, exists_where-append}
use proactive_mcp.Situations.Reader.{in_window, is_leased, is_muted, joined, count_reserved_between}
use proactive_mcp.Delivery.Eligibility.{
  is_consumable, source_eligible, delivered_count, is_leased_row,
}
use proactive_mcp.Delivery.Claim.Budget.{count_where-below}
use proactive_mcp.Delivery.Reserve.{may_reserve, reserved_count, lease_of}
use proactive_mcp.Delivery.Reserve.Loop.{Leases, done, took, leased_db}

may_reserve-budget :
    (claim : DeliveryClaim) (slots : ℕ) (db : Db) (s : Situation)
    → may_reserve claim slots db s ≡ true
    → is_critical s.priority ≡ false
    → delivered_count claim db + reserved_count claim db < claim.daily_budget
unfolding may_reserve
may_reserve-budget claim slots db s h usual = ground arith

module _ (digest : String) (expires_at : ℕ) (claim : DeliveryClaim) (slots : ℕ) where
  -- The leases grow by one for each row, and nothing else changes.
  pub written_runs :
      {db after : Db} {taken : List Situation}
      → Leases digest expires_at claim slots db taken after
      → after ≡ record db { leases = db.leases ++ map (lease_of digest expires_at claim) taken }
  written_runs (done {db = db}) = rw (append-nil db.leases) refl
  written_runs (took {db = db} {rest = rest} c row pass allowed more) =
      written_runs more
      ∙ ap (λ ls. record db { leases = ls })
          (append_assoc db.leases (lease_of digest expires_at claim c ∷ [])
            (map (lease_of digest expires_at claim) rest))

  unleased_before :
      (db : Db) (c s : Situation)
      → is_leased_row (leased_db digest expires_at claim db c) s ≡ false
      → is_leased_row db s ≡ false
  unleased_before db c s free =
      let parts =
        exists_where-append (λ l. l.situation_id == s.id) db.leases
          (lease_of digest expires_at claim c ∷ []) in
      ground arith

  -- What is asked of a row, but for the budget, is the same before every turn.
  pub consumable_runs :
      {db after : Db} {taken : List Situation}
      → Leases digest expires_at claim slots db taken after
      → All
          (λ c.
            (find_id c.id db.situations ≡ some c)
            × (is_consumable claim db c ≡ true)
            × (source_eligible db c ≡ true)
            × ((claim.allow_noncritical || is_critical c.priority) ≡ true)
            × (is_leased_row db c ≡ false))
          taken
  unfolding may_reserve is_consumable is_muted source_eligible
  consumable_runs done = tt
  consumable_runs (took {db = db} c row pass allowed more) = (
    (row, ground arith, ground arith, allowed, ground arith),
    All-map _ _ _ (λ s (r, p, q, a, free). (r, p, q, a, unleased_before db c s free))
        (consumable_runs more),
  )

  usage_step :
      (db : Db) (c : Situation) (b : ℕ)
      → find_id c.id db.situations ≡ some c
      → may_reserve claim slots db c ≡ true
      → claim.daily_budget ≤ b
      → delivered_count claim db + reserved_count claim db ≤ b
      → delivered_count claim (leased_db digest expires_at claim db c)
          + reserved_count claim (leased_db digest expires_at claim db c)
        ≤ b
  unfolding delivered_count reserved_count count_reserved_between
  usage_step db c b row pass cap below =
      let more =
        count_where-below (is_reserved db) db.leases (lease_of digest expires_at claim c)
          (b - delivered_count claim db) (omega (arith, below))
          λ counted. let room = usual counted in omega (arith, room, cap, below) in
      omega (arith, more, below)
    where
      is_reserved : Db → DeliveryLease → Bool
      is_reserved d l =
          in_window claim.local_day_start claim.local_day_end l.claimed_at
          && is_leased claim.delivered_at l
          && joined (λ s. not (is_critical s.priority)) (find_id l.situation_id d.situations)

      usual :
          is_reserved db (lease_of digest expires_at claim c) ≡ true
          → delivered_count claim db + count_where (is_reserved db) db.leases < claim.daily_budget
      usual counted = may_reserve-budget claim slots db c pass (ground arith)

  pub usage_runs :
      {db after : Db} {taken : List Situation} (b : ℕ)
      → claim.daily_budget ≤ b
      → Leases digest expires_at claim slots db taken after
      → delivered_count claim db + reserved_count claim db ≤ b
      → delivered_count claim after + reserved_count claim after ≤ b
  usage_runs b cap done below = below
  usage_runs b cap (took {db = db} c row pass allowed more) below =
      usage_runs b cap more (usage_step db c b row pass cap below)
