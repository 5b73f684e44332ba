-- ===== src/Attention.antt =====
-- src/proactive_mcp/situations/policy.py and the local days of src/proactive_mcp/situations/
-- _dates.py. Instants are microseconds since the first one that `datetime` has; the last one is not
-- modelled. The timezone is a parameter: the local date and time of day of an instant, and the
-- instant at which a local date starts.
pub mod Quiet
pub mod Selection
pub mod Budget
use proactive_mcp.Prelude.{
  ℕ, suc, String, ◌+◌, ◌-◌, Bool, true, false, not, ◌&&◌, ◌||◌, Option, none, some, List, [], ◌∷◌,
  ◌++◌, ltb, leb, ◌==◌, if◌then◌else◌, take, select_where,
}
use proactive_mcp.Prelude.Sort.{sort}
use proactive_mcp.Model.Situation.{
  Situation, SituationPriority, DeliveryClaim, DeliveryReservation, pending, critical, high,
  routine, is_critical,
}
use proactive_mcp.Db.{Db, overflow_error, Session, pure, raise, query, ◌>>=◌}
use proactive_mcp.Situations.Reader.{
  then_by, is_muted, count_delivered_between, count_reserved_between,
}
use proactive_mcp.Situations.Transitions.{list_page}
use proactive_mcp.Delivery.Claim.{claim_for_delivery}
use proactive_mcp.Delivery.Reserve.{reserve_for_delivery}

-- The four settings of config.AttentionSettings that the policy reads.
pub record AttentionSettings : Type 0 where
  pub quiet_hours_start : ℕ
  pub quiet_hours_end : ℕ
  pub daily_budget : ℕ
  pub cooldown : ℕ

pub record BudgetUsage : Type 0 where
  pub used : ℕ
  pub remaining : ℕ
  pub daily_budget : ℕ

pub record Timezone : Type 0 where
  pub local_date : ℕ → ℕ
  pub local_time : ℕ → ℕ
  pub midnight : ℕ → ℕ

unfoldable pub is_quiet_time : ℕ → ℕ → ℕ → Bool
is_quiet_time local_time start end =
    if start == end
    then false
    else if ltb start end
    then leb start local_time && ltb local_time end
    else leb start local_time || ltb local_time end

abbrev pub priority_rank : SituationPriority → ℕ
priority_rank critical = 0
priority_rank high = 1
priority_rank routine = 2

-- _delivery_order, on its tuples
abbrev pub order_before : Situation → Situation → Bool
order_before a b =
    then_by (priority_rank a.priority) (priority_rank b.priority)
      (then_by a.detected_at b.detected_at (ltb a.id b.id))

-- _DELIVERY_CLAIM_LEASE, two minutes
abbrev pub delivery_claim_lease : ℕ
delivery_claim_lease = 120000000

-- The default page of `list_situations`
abbrev pub default_page_size : ℕ
default_page_size = 20

-- The last lines of `select_for_delivery`.
unfoldable pub choose : Bool → ℕ → List Situation → List Situation
choose quiet remaining sorted =
    let urgent = select_where (λ c. is_critical c.priority) sorted in
    let others = select_where (λ c. not (is_critical c.priority)) sorted in
    if quiet then urgent else urgent ++ take remaining others

module _ (tz : Timezone) (settings : AttentionSettings) where
  abbrev pub local_day_start : ℕ → ℕ
  local_day_start day = tz.midnight day

  abbrev pub local_day_end : ℕ → ℕ
  local_day_end day = local_day_start (suc day)

  unfoldable pub quiet_state : ℕ → Bool
  unfolding is_quiet_time
  quiet_state now =
      is_quiet_time (tz.local_time now) settings.quiet_hours_start settings.quiet_hours_end

  abbrev pub usage_of : ℕ → BudgetUsage
  usage_of used = record {
    used = used;
    remaining = settings.daily_budget - used;
    daily_budget = settings.daily_budget;
  }

  unfoldable pub budget_usage : ℕ → Session BudgetUsage
  budget_usage now = do
    delivered ← query (
        count_delivered_between (local_day_start (tz.local_date now))
          (local_day_end (tz.local_date now)))
    reserved ← query (
        count_reserved_between (local_day_start (tz.local_date now))
          (local_day_end (tz.local_date now)) now)
    pure (usage_of (delivered + reserved))

  -- `now - cooldown`, which `datetime` refuses before its first instant.
  abbrev pub cooldown_start : ℕ → Option ℕ
  cooldown_start now = if leb settings.cooldown now then some (now - settings.cooldown) else none

  abbrev later_than : ℕ → Option ℕ → Option Bool
  later_than t none = none
  later_than t (some start) = some (ltb start t)

  -- _cooling_down: the delivery time, the wake time
  abbrev pub cooling_down_by : ℕ → Option ℕ → Option ℕ → Option Bool
  cooling_down_by now none wake = some false
  cooling_down_by now (some t) (some wake) = some false
  cooling_down_by now (some t) none = later_than t (cooldown_start now)

  unfoldable pub cooling_down : ℕ → Situation → Option Bool
  cooling_down now s = cooling_down_by now s.delivered_at s.snoozed_until

  abbrev pub keep_unless :
      Situation → Option Bool → Option (List Situation) → Option (List Situation)
  keep_unless s none rest = none
  keep_unless s (some cooling) none = none
  keep_unless s (some cooling) (some rest) = some (if cooling then rest else s ∷ rest)

  -- The comprehension over the page; `none` is the OverflowError.
  unfoldable pub candidates : ℕ → Db → List Situation → Option (List Situation)
  candidates now db [] = some []
  candidates now db (s ∷ rest) =
      let more = candidates now db rest in
      if is_muted db s.situation_type then more else keep_unless s (cooling_down now s) more

  abbrev pub choose_from : ℕ → Option (List Situation) → Session (List Situation)
  choose_from now none = raise overflow_error
  choose_from now (some found) = do
    usage ← budget_usage now
    pure (choose (quiet_state now) usage.remaining (sort order_before found))

  -- In quiet hours the source asks for no usage; the query changes nothing.
  unfoldable pub select_for_delivery : ℕ → Session (List Situation)
  select_for_delivery now = do
    page ← list_page (some pending) 0 default_page_size
    found ← query (λ db. candidates now db page)
    choose_from now found

  abbrev pub claim_from : ℕ → Option ℕ → Session DeliveryClaim
  claim_from now none = raise overflow_error
  claim_from now (some start) = pure (record {
    delivered_at = now;
    cooldown_after = start;
    local_day_start = local_day_start (tz.local_date now);
    local_day_end = local_day_end (tz.local_date now);
    daily_budget = settings.daily_budget;
    allow_noncritical = not (quiet_state now);
  })

  unfoldable pub delivery_claim : ℕ → Session DeliveryClaim
  delivery_claim now = claim_from now (cooldown_start now)

  unfoldable pub attention_claim : ℕ → Session (List Situation)
  attention_claim now = do claim ← delivery_claim now; claim_for_delivery claim

  -- The token of `token_urlsafe` is an argument.
  unfoldable pub attention_reserve : (String → String) → String → ℕ → Session DeliveryReservation
  attention_reserve receipt_digest claim_token now = do
    claim ← delivery_claim now
    reserve_for_delivery receipt_digest claim claim_token (now + delivery_claim_lease)
