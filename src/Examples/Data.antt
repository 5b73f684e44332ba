-- ===== src/Examples/Data.antt =====
-- Two pending rows, one delivered row, a claim that leaves room for one of them, and a timezone that
-- is UTC.
use proactive_mcp.Prelude.{ℕ, ◌*◌, ◌/◌, ◌%◌, refl, String, true, false, none, some, [], ◌∷◌, arith}
use proactive_mcp.Model.Situation.{
  Situation, SituationEvidence, Detection, DeliveryClaim, reply_deadline, personal_occasion, gmail,
  memory, routine, high, pending, delivered,
}
use proactive_mcp.Db.{Db, empty_db}
use proactive_mcp.Situations.Lifecycle.Keys.{WellFormed}
use proactive_mcp.Attention.{Timezone, AttentionSettings}

abbrev pub no_evidence : SituationEvidence
no_evidence = record {
  facts = ("thread_id", "t1") ∷ [];
  quoted_external = [];
  quoted_memory = [];
  contradictory_dates = [];
}

abbrev pub reply_row : Situation
reply_row = record {
  id = 1;
  situation_type = reply_deadline;
  source_name = gmail;
  source_generation = some 1;
  dedupe_key = "reply:t1";
  state = pending;
  priority = high;
  title = "Reply to Ada";
  why_now = "waiting";
  evidence = no_evidence;
  expires_at = none;
  detected_at = 100;
  updated_at = 100;
  delivered_at = none;
  acknowledged_at = none;
  snoozed_until = none;
  resolved_at = none;
  expired_at = none;
  muted_at = none;
  snooze_cooldown_exempt = false;
}

abbrev pub occasion_row : Situation
occasion_row = record reply_row {
  id = 2;
  situation_type = personal_occasion;
  source_name = memory;
  source_generation = none;
  dedupe_key = "occasion:ada";
  priority = routine;
  title = "Birthday";
  expires_at = some 9000;
  detected_at = 200;
}

abbrev pub delivered_row : Situation
delivered_row = record occasion_row {
  id = 3;
  dedupe_key = "occasion:bob";
  state = delivered;
  delivered_at = some 300;
}

abbrev pub sample_db : Db
sample_db = record empty_db { situations = reply_row ∷ occasion_row ∷ delivered_row ∷ [] }

pub sample-WellFormed : WellFormed sample_db.situations
sample-WellFormed = record {
  ids = (omega arith, (omega arith, (omega arith, tt)));
  keys = (refl, (refl, (refl, tt)));
  bounded = omega arith;
}

abbrev pub sample_claim : DeliveryClaim
sample_claim = record {
  delivered_at = 1000;
  cooldown_after = 400;
  local_day_start = 0;
  local_day_end = 5000;
  daily_budget = 1;
  allow_noncritical = true;
}

abbrev pub sample_detection : Detection
sample_detection = record {
  situation_type = reply_deadline;
  dedupe_key = "reply:t1";
  priority = high;
  title = "Reply to Ada";
  why_now = "waiting";
  evidence = no_evidence;
  expires_at = none;
}

abbrev pub evidence_bytes : SituationEvidence → ℕ
evidence_bytes e = 64

-- Stands for SHA-256: any function of the token.
abbrev pub receipt_digest : String → String
receipt_digest token = token

abbrev pub day : ℕ
day = 86400000000

abbrev pub utc : Timezone
utc = record {
  local_date = λ now. now / day;
  local_time = λ now. now % day;
  midnight = λ date. date * day;
}

abbrev pub sample_settings : AttentionSettings
sample_settings = record {
  quiet_hours_start = 75600000000;
  quiet_hours_end = 25200000000;
  daily_budget = 4;
  cooldown = 86400000000;
}
