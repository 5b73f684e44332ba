-- ===== src/Situations/Lifecycle.antt =====
-- The state machine of a situation row, as a step relation on rows: one constructor for each
-- statement that changes a row, with the state its WHERE (or its caller) asks for.
pub mod Invariant
pub mod Keys
pub mod Table
pub mod History
use proactive_mcp.Prelude.{ℕ, ◌≡◌, refl, ◌⊎◌, Bool, true, false, Option, arith}
use proactive_mcp.Model.Situation.{
  Situation, SituationState, pending, delivered, acknowledged, snoozed, muted, resolved, expired,
  is_pending, is_delivered, is_open,
}
use proactive_mcp.Situations.Statements.{
  RowUpdate, refresh, reactivate, deliver, acknowledge, snooze, mute, resolve, wake, is_due, expire,
  is_lapsed,
}

-- `upsert` reactivates a closed row only.
abbrev pub is_closed : SituationState → Bool
is_closed resolved = true
is_closed expired = true
is_closed _ = false

-- `upsert` refreshes an active row only.
abbrev pub is_active : SituationState → Bool
is_active pending = true
is_active delivered = true
is_active snoozed = true
is_active _ = false

pub data RowStep (s t : Situation) : Type 0 where
  refreshed :
      (u : RowUpdate) (now : ℕ) → is_active s.state ≡ true → t ≡ refresh u now s → RowStep s t
  reactivated :
      (u : RowUpdate) (now : ℕ) → is_closed s.state ≡ true → t ≡ reactivate u now s → RowStep s t
  delivers : (now : ℕ) → is_pending s.state ≡ true → t ≡ deliver now s → RowStep s t
  acknowledges : (now : ℕ) → is_delivered s.state ≡ true → t ≡ acknowledge now s → RowStep s t
  snoozes : (until now : ℕ) → is_delivered s.state ≡ true → t ≡ snooze until now s → RowStep s t
  mutes : (now : ℕ) → is_delivered s.state ≡ true → t ≡ mute now s → RowStep s t
  resolves : (now : ℕ) → is_open s.state ≡ true → t ≡ resolve now s → RowStep s t
  wakes : (now : ℕ) → is_due now s ≡ true → t ≡ wake now s → RowStep s t
  expires : (now : ℕ) → is_lapsed now s ≡ true → t ≡ expire now s → RowStep s t

-- Any number of steps.
pub data Reach (s : Situation) : Situation → Type 0 where
  here : Reach s s
  next : {t u : Situation} → Reach s t → RowStep t u → Reach s u

pub Reach-step : {s t : Situation} → RowStep s t → Reach s t
Reach-step st = next here st

pub Reach-trans : {s t u : Situation} → Reach s t → Reach t u → Reach s u
Reach-trans r here = r
Reach-trans r (next q st) = next (Reach-trans r q) st
