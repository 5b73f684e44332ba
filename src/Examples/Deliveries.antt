-- ===== src/Examples/Deliveries.antt =====
-- The theorems on deliveries and on the policy at the sample.
use proactive_mcp.Prelude.{
  ℕ, ◌+◌, ◌-◌, ◌*◌, ◌≤◌, ◌≡◌, refl, not, some, true, false, List, [], ◌∷◌, ◌++◌, map, All, arith,
  count_where, if◌then◌else◌, ltb,
}
use proactive_mcp.Model.Situation.{Situation, DeliveryConfirmation, confirmed, is_critical}
use proactive_mcp.Db.{Db, returned, find_id, update_id, transaction, ◌>>=◌}
use proactive_mcp.Situations.Reader.{
  delivery_claim_ids, is_muted, list_situations, count_delivered_between, count_reserved_between,
}
use proactive_mcp.Prelude.Sort.{sort}
use proactive_mcp.Situations.Statements.{deliver, snooze, wake}
use proactive_mcp.Situations.Access.{update_row, require_situation, record_delivery}
use proactive_mcp.Situations.Transitions.{list_page}
use proactive_mcp.Delivery.Eligibility.{cooled_down, delivered_count, delivered_replies}
use proactive_mcp.Delivery.Receipts.{expire_leases, replay, consume, record_receipt}
use proactive_mcp.Delivery.Claim.{claim_for_delivery}
use proactive_mcp.Delivery.Claim.Step.{delivery_of}
use proactive_mcp.Delivery.Claim.Outcome.{IsHandedOut, claim_for_delivery_outcome}
use proactive_mcp.Delivery.Claim.Budget.{claim_for_delivery_budget, claim_for_delivery_replies}
use proactive_mcp.Delivery.Reserve.{reserve_for_delivery, reserved_count, lease_of}
use proactive_mcp.Delivery.Reserve.Outcome.{
  IsReservable, reserve_for_delivery_outcome, reserve_for_delivery_budget,
}
use proactive_mcp.Delivery.Confirm.{
  confirm_delivery, confirm_body, confirm_leased, confirm_each, confirm_row,
}
use proactive_mcp.Delivery.Confirm.Replay.{repeated, confirm_again}
use proactive_mcp.Attention.{
  is_quiet_time, cooling_down, quiet_state, select_for_delivery, attention_reserve, budget_usage,
  candidates, choose,
}
use proactive_mcp.Attention.Quiet.{way_round, is_quiet_time_lem}
use proactive_mcp.Attention.Budget.{usage_at, attention_reserve_budget}
use proactive_mcp.Attention.Selection.{IsCandidate, select_for_delivery_outcome, woken_cooldown}
use proactive_mcp.Examples.Data.{
  sample_db, sample-WellFormed, sample_claim, receipt_digest, occasion_row, reply_row,
  delivered_row, utc, sample_settings, day,
}

claim_for_delivery_outcome_example :
    (taken : List Situation) × ((claim_for_delivery sample_claim sample_db).0 ≡ returned taken)
    × All (IsHandedOut sample_claim sample_db) taken
    × ((claim_for_delivery sample_claim sample_db).1.deliveries
        ≡ sample_db.deliveries ++ map (delivery_of sample_claim.delivered_at) taken)
claim_for_delivery_outcome_example =
    claim_for_delivery_outcome sample_claim sample_db sample-WellFormed

claim_for_delivery_budget_example :
    delivered_count sample_claim (claim_for_delivery sample_claim sample_db).1 ≤ 1
unfolding delivered_count
claim_for_delivery_budget_example =
    claim_for_delivery_budget sample_claim sample_db sample-WellFormed 1 (omega arith) (omega arith)

claim_for_delivery_replies_example :
    delivered_replies sample_claim (claim_for_delivery sample_claim sample_db).1 ≤ 1
unfolding delivered_replies
claim_for_delivery_replies_example =
    claim_for_delivery_replies sample_claim sample_db sample-WellFormed 1 (omega arith)
      (omega arith)

reserve_for_delivery_outcome_example :
    (taken : List Situation) × (reserve_for_delivery receipt_digest sample_claim "token" 2000
        sample_db
      ≡ (
        returned (record { claim_token = "token"; situations = taken; expires_at = 2000 }),
        record sample_db {
          leases =
              (expire_leases sample_claim.delivered_at sample_db).leases
              ++ map (lease_of (receipt_digest "token") 2000 sample_claim) taken;
        },
      ))
    × All (IsReservable sample_claim sample_db) taken
reserve_for_delivery_outcome_example =
    reserve_for_delivery_outcome receipt_digest sample_claim "token" 2000 refl sample_db
      sample-WellFormed

reserve_for_delivery_budget_example :
    delivered_count sample_claim
        (reserve_for_delivery receipt_digest sample_claim "token" 2000 sample_db).1
      + reserved_count sample_claim
          (reserve_for_delivery receipt_digest sample_claim "token" 2000 sample_db).1
    ≤ 1
unfolding delivered_count reserved_count expire_leases count_reserved_between
reserve_for_delivery_budget_example =
    reserve_for_delivery_budget receipt_digest sample_claim "token" 2000 refl sample_db
      sample-WellFormed 1 (omega arith) (omega arith)

-- The occasion is leased under the token.
abbrev leased_db : Db
leased_db = record sample_db {
  leases =
      record { receipt_digest = "token"; situation_id = 2; claimed_at = 1000; expires_at = 2000 }
      ∷ [];
}

abbrev first_confirmation : DeliveryConfirmation
first_confirmation = record { status = confirmed; delivered_count = 1 }

leased-confirmed :
    (confirm_delivery receipt_digest "token" 1500 leased_db).0 ≡ returned first_confirmation
unfolding confirm_delivery confirm_body transaction ◌>>=◌ replay expire_leases delivery_claim_ids
    confirm_leased confirm_each confirm_row update_row update_id require_situation find_id
    record_delivery consume record_receipt sort deliver
leased-confirmed = refl

confirm_again_example :
    confirm_delivery receipt_digest "token" 1600
      (confirm_delivery receipt_digest "token" 1500 leased_db).1
    ≡ (
      returned (repeated first_confirmation),
      (confirm_delivery receipt_digest "token" 1500 leased_db).1,
    )
confirm_again_example =
    confirm_again receipt_digest "token" 1500 1600 leased_db first_confirmation leased-confirmed

abbrev noon : ℕ
noon = 20 * day + 43200000000

attention_reserve_budget_example :
    usage_at utc sample_settings noon
      (attention_reserve utc sample_settings receipt_digest "token" noon sample_db).1
    ≤ 4
unfolding count_delivered_between count_reserved_between
attention_reserve_budget_example =
    attention_reserve_budget utc sample_settings noon receipt_digest "token" sample_db
      sample-WellFormed (omega arith)

is_quiet_time_lem_example : is_quiet_time 3 21 7 ≡ ltb (way_round 24 21 3) (way_round 24 21 7)
is_quiet_time_lem_example = is_quiet_time_lem 24 3 21 7 (omega arith) (omega arith) (omega arith)

abbrev recent_row : Situation
recent_row = record delivered_row { delivered_at = some (noon - 100) }

woken_cooldown_example :
    (cooling_down utc sample_settings noon (snooze (noon - 50) (noon - 90) recent_row) ≡ some false)
    × (cooling_down utc sample_settings noon
          (wake (noon - 40) (snooze (noon - 50) (noon - 90) recent_row))
        ≡ some true)
    × (cooled_down sample_db 400 (wake (noon - 40) (snooze (noon - 50) (noon - 90) recent_row))
        ≡ true)
woken_cooldown_example =
    woken_cooldown utc sample_settings noon sample_db recent_row (noon - 100) (noon - 50)
      (noon - 90) (noon - 40) 400 refl (omega arith) (omega arith)

abbrev selected : List Situation
selected = reply_row ∷ occasion_row ∷ []

sample-selected : (select_for_delivery utc sample_settings noon sample_db).0 ≡ returned selected
unfolding select_for_delivery list_page list_situations candidates cooling_down is_muted
    budget_usage count_delivered_between count_reserved_between quiet_state is_quiet_time choose
    sort ◌>>=◌
sample-selected = refl

select_for_delivery_outcome_example :
    ((select_for_delivery utc sample_settings noon sample_db).1 ≡ sample_db)
    × All (IsCandidate utc sample_settings noon sample_db) selected
    × (count_where (λ c. not (is_critical c.priority)) selected ≤ (
        if quiet_state utc sample_settings noon
        then 0
        else sample_settings.daily_budget - usage_at utc sample_settings noon sample_db))
select_for_delivery_outcome_example =
    select_for_delivery_outcome utc sample_settings noon sample_db selected sample-selected
