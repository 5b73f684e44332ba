-- ===== src/Attention/Budget.antt =====
-- The day's budget under the policy.
use proactive_mcp.Prelude.{
  ℕ, String, ◌+◌, ◌-◌, ◌≤◌, ◌≡◌, refl, Bool, not, List, leb, arith, Bool-cases, inl, inr,
  select_where, count_where, [], ◌∷◌, ◌&&◌,
}
use proactive_mcp.Model.Situation.{DeliveryClaim, is_critical}
use proactive_mcp.Db.{Db, DeliveryLease, returned, ◌>>=◌, find_id}
use proactive_mcp.Situations.Reader.{
  in_window, is_leased, joined, count_delivered_between, count_reserved_between,
}
use proactive_mcp.Situations.Lifecycle.Keys.{WellFormed}
use proactive_mcp.Delivery.Eligibility.{delivered_count}
use proactive_mcp.Delivery.Receipts.{expire_leases}
use proactive_mcp.Delivery.Reserve.{reserve_for_delivery, reserved_count}
use proactive_mcp.Delivery.Reserve.Outcome.{reserve_for_delivery_budget}
use proactive_mcp.Attention.{
  Timezone, AttentionSettings, delivery_claim_lease, local_day_start, local_day_end, quiet_state,
  budget_usage, delivery_claim, attention_reserve,
}

count_where-select_where {ℓ} :
    {A : Type ℓ} (p q : A → Bool) (xs : List A)
    → count_where p (select_where q xs) ≤ count_where p xs
count_where-select_where p q [] = omega arith
count_where-select_where p q (x ∷ xs) = elim (Bool-cases (q x)) [
  | inl e ↦ rw e (omega (arith, count_where-select_where p q xs))
  | inr e ↦ rw e (omega (arith, count_where-select_where p q xs))
]

module _ (tz : Timezone) (settings : AttentionSettings) (now : ℕ) where
  -- The figure that `budget_usage` reports.
  abbrev pub usage_at : Db → ℕ
  usage_at db =
      count_delivered_between (local_day_start tz settings (tz.local_date now))
        (local_day_end tz settings (tz.local_date now)) db
      + count_reserved_between (local_day_start tz settings (tz.local_date now))
          (local_day_end tz settings (tz.local_date now)) now db

  abbrev claim_at : ℕ → DeliveryClaim
  claim_at start = record {
    delivered_at = now;
    cooldown_after = start;
    local_day_start = local_day_start tz settings (tz.local_date now);
    local_day_end = local_day_end tz settings (tz.local_date now);
    daily_budget = settings.daily_budget;
    allow_noncritical = not (quiet_state tz settings now);
  }

  -- The leases that ran out were not counted before either.
  expired_usage :
      (start : ℕ) (db : Db)
      → delivered_count (claim_at start) (expire_leases now db)
          + reserved_count (claim_at start) (expire_leases now db)
        ≤ usage_at db
  unfolding delivered_count reserved_count expire_leases count_delivered_between
      count_reserved_between
  expired_usage start db =
      let fewer =
        count_where-select_where (is_reserved db) (λ l. not (leb l.expires_at now)) db.leases in
      omega (arith, fewer)
    where
      is_reserved : Db → DeliveryLease → Bool
      is_reserved d l =
          in_window (local_day_start tz settings (tz.local_date now))
            (local_day_end tz settings (tz.local_date now)) l.claimed_at
          && is_leased now l
          && joined (λ s. not (is_critical s.priority)) (find_id l.situation_id d.situations)

  claim_usage :
      (start : ℕ) (db : Db)
      → delivered_count (claim_at start) db + reserved_count (claim_at start) db ≡ usage_at db
  unfolding delivered_count reserved_count count_delivered_between
  claim_usage start db = refl

  -- On a well-formed table, if the usage that `budget_usage` reports for `now` is within the daily
  -- budget, it is within it after the policy's reservation at `now`, whether that returns or raises.
  pub attention_reserve_budget :
      (receipt_digest : String → String) (claim_token : String) (db : Db)
      → WellFormed db.situations
      → usage_at db ≤ settings.daily_budget
      → usage_at (attention_reserve tz settings receipt_digest claim_token now db).1
        ≤ settings.daily_budget
  unfolding attention_reserve delivery_claim ◌>>=◌
  attention_reserve_budget receipt_digest claim_token db w below =
      elim (Bool-cases (leb settings.cooldown now)) [
        | inl fits ↦
            let start = now - settings.cooldown in
            let earlier = expired_usage start db in
            let kept =
              reserve_for_delivery_budget receipt_digest (claim_at start) claim_token
                (now + delivery_claim_lease) (ground arith) db w settings.daily_budget (omega arith)
                (omega (arith, earlier, below)) in
            rw fits (
              rw⁻¹
                (claim_usage start
                  (reserve_for_delivery receipt_digest (claim_at start) claim_token
                    (now + delivery_claim_lease) db).1)
                kept)
        | inr early ↦ rw early below
      ]

  -- `budget_usage` reports that figure, and what is left of the daily budget.
  pub budget_usage_lem :
      (db : Db)
      → budget_usage tz settings now db ≡ (
        returned (record {
          used = usage_at db;
          remaining = settings.daily_budget - usage_at db;
          daily_budget = settings.daily_budget;
        }),
        db,
      )
  unfolding budget_usage ◌>>=◌
  budget_usage_lem db = refl
