-- ===== src/Model/Situation.antt =====
-- src/proactive_mcp/store/_situation_models.py: situations, detections and the delivery records.
use proactive_mcp.Prelude.{ℕ, String, Bool, true, false, Option, List, ◌==◌}

pub data SituationType : Type 0 where
  reply_deadline calendar_conflict personal_occasion : SituationType

pub data SituationSource : Type 0 where
  gmail calendar memory local : SituationSource

pub data SituationState : Type 0 where
  pending delivered acknowledged snoozed muted resolved expired : SituationState

pub data SituationPriority : Type 0 where
  critical high routine : SituationPriority

pub record SituationEvidence : Type 0 where
  pub facts : List (String × String)
  pub quoted_external : List (String × String)
  pub quoted_memory : List (String × String)
  pub contradictory_dates : List String

pub record Detection : Type 0 where
  pub situation_type : SituationType
  pub dedupe_key : String
  pub priority : SituationPriority
  pub title : String
  pub why_now : String
  pub evidence : SituationEvidence
  pub expires_at : Option ℕ

-- A row of the table `situations`: the fields of the dataclass and the column
-- `snooze_cooldown_exempt`, which the dataclass does not show.
pub record Situation : Type 0 where
  pub id : ℕ
  pub situation_type : SituationType
  pub source_name : SituationSource
  pub source_generation : Option ℕ
  pub dedupe_key : String
  pub state : SituationState
  pub priority : SituationPriority
  pub title : String
  pub why_now : String
  pub evidence : SituationEvidence
  pub expires_at : Option ℕ
  pub detected_at : ℕ
  pub updated_at : ℕ
  pub delivered_at : Option ℕ
  pub acknowledged_at : Option ℕ
  pub snoozed_until : Option ℕ
  pub resolved_at : Option ℕ
  pub expired_at : Option ℕ
  pub muted_at : Option ℕ
  pub snooze_cooldown_exempt : Bool

pub record DetectionUpsertSummary : Type 0 where
  pub created : ℕ
  pub reactivated : ℕ
  pub refreshed : ℕ
  pub skipped : ℕ
  pub capacity_skipped : ℕ

pub record DetectionApplySummary : Type 0 where
  pub upsert : DetectionUpsertSummary
  pub resolved_count : ℕ

pub record DeliveryClaim : Type 0 where
  pub delivered_at : ℕ
  pub cooldown_after : ℕ
  pub local_day_start : ℕ
  pub local_day_end : ℕ
  pub daily_budget : ℕ
  pub allow_noncritical : Bool

pub record DeliveryReservation : Type 0 where
  pub claim_token : String
  pub situations : List Situation
  pub expires_at : ℕ

pub data ConfirmationStatus : Type 0 where
  confirmed already_confirmed : ConfirmationStatus

pub record DeliveryConfirmation : Type 0 where
  pub status : ConfirmationStatus
  pub delivered_count : ℕ

-- Tests on the closed sets of words.
abbrev pub is_pending : SituationState → Bool
is_pending pending = true
is_pending _ = false

abbrev pub is_delivered : SituationState → Bool
is_delivered delivered = true
is_delivered _ = false

abbrev pub is_snoozed : SituationState → Bool
is_snoozed snoozed = true
is_snoozed _ = false

-- `state IN ('pending', 'delivered')`
abbrev pub is_open : SituationState → Bool
is_open pending = true
is_open delivered = true
is_open _ = false

abbrev pub is_critical : SituationPriority → Bool
is_critical critical = true
is_critical _ = false

abbrev pub is_high : SituationPriority → Bool
is_high high = true
is_high _ = false

abbrev pub is_reply_deadline : SituationType → Bool
is_reply_deadline reply_deadline = true
is_reply_deadline _ = false

abbrev pub is_personal_occasion : SituationType → Bool
is_personal_occasion personal_occasion = true
is_personal_occasion _ = false

abbrev pub type_index : SituationType → ℕ
type_index reply_deadline = 0
type_index calendar_conflict = 1
type_index personal_occasion = 2

abbrev pub same_type : SituationType → SituationType → Bool
same_type a b = type_index a == type_index b

abbrev pub source_index : SituationSource → ℕ
source_index gmail = 0
source_index calendar = 1
source_index memory = 2
source_index local = 3

abbrev pub same_source : SituationSource → SituationSource → Bool
same_source a b = source_index a == source_index b

abbrev pub state_index : SituationState → ℕ
state_index pending = 0
state_index delivered = 1
state_index acknowledged = 2
state_index snoozed = 3
state_index muted = 4
state_index resolved = 5
state_index expired = 6

abbrev pub same_state : SituationState → SituationState → Bool
same_state a b = state_index a == state_index b
