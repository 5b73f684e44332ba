-- ===== src/Situations/Statements.antt =====
-- The row changes of src/proactive_mcp/store/_situation_sql.py: what each UPDATE sets, as a
-- function on the row, and the state that its WHERE asks for.
use proactive_mcp.Prelude.{
  ℕ, suc, String, Bool, true, false, ◌&&◌, Option, none, some, List, [], ◌∷◌, reached,
}
use proactive_mcp.Model.Situation.{
  Situation, SituationType, SituationSource, SituationPriority, SituationEvidence, pending,
  delivered, acknowledged, snoozed, muted, resolved, expired, is_open, is_snoozed,
}

-- The parameters that REFRESH_SITUATION and REACTIVATE_SITUATION share.
pub record RowUpdate : Type 0 where
  pub priority : SituationPriority
  pub title : String
  pub why_now : String
  pub evidence : SituationEvidence
  pub expires_at : Option ℕ
  pub source_name : SituationSource
  pub source_generation : Option ℕ

-- INTEGER PRIMARY KEY: one more than the largest id.
unfoldable pub next_id : List Situation → ℕ
next_id [] = 1
next_id (s ∷ []) = suc s.id
next_id (s ∷ t ∷ rest) = next_id (t ∷ rest)

-- INSERT_SITUATION
unfoldable pub inserted : ℕ → SituationType → String → RowUpdate → ℕ → Situation
inserted i kind key u now = record {
  id = i;
  situation_type = kind;
  source_name = u.source_name;
  source_generation = u.source_generation;
  dedupe_key = key;
  state = pending;
  priority = u.priority;
  title = u.title;
  why_now = u.why_now;
  evidence = u.evidence;
  expires_at = u.expires_at;
  detected_at = now;
  updated_at = now;
  delivered_at = none;
  acknowledged_at = none;
  snoozed_until = none;
  resolved_at = none;
  expired_at = none;
  muted_at = none;
  snooze_cooldown_exempt = false;
}

-- REFRESH_SITUATION
unfoldable pub refresh : RowUpdate → ℕ → Situation → Situation
refresh u now s = record s {
  priority = u.priority;
  title = u.title;
  why_now = u.why_now;
  evidence = u.evidence;
  expires_at = u.expires_at;
  source_name = u.source_name;
  source_generation = u.source_generation;
  updated_at = now;
}

-- REACTIVATE_SITUATION
unfoldable pub reactivate : RowUpdate → ℕ → Situation → Situation
reactivate u now s = record s {
  state = pending;
  priority = u.priority;
  title = u.title;
  why_now = u.why_now;
  evidence = u.evidence;
  expires_at = u.expires_at;
  source_name = u.source_name;
  source_generation = u.source_generation;
  detected_at = now;
  updated_at = now;
  resolved_at = none;
  expired_at = none;
  snoozed_until = none;
  snooze_cooldown_exempt = false;
}

-- MARK_DELIVERED, and the same assignments in `claim_for_delivery` and `confirm_delivery`.
unfoldable pub deliver : ℕ → Situation → Situation
deliver now s = record s {
  state = delivered;
  delivered_at = some now;
  snoozed_until = none;
  snooze_cooldown_exempt = false;
  updated_at = now;
}

-- ACKNOWLEDGE_SITUATION
unfoldable pub acknowledge : ℕ → Situation → Situation
acknowledge now s = record s { state = acknowledged; acknowledged_at = some now; updated_at = now }

-- SNOOZE_SITUATION
unfoldable pub snooze : ℕ → ℕ → Situation → Situation
snooze until now s = record s {
  state = snoozed;
  snoozed_until = some until;
  snooze_cooldown_exempt = true;
  updated_at = now;
}

-- MUTE_SITUATION
unfoldable pub mute : ℕ → Situation → Situation
mute now s = record s { state = muted; muted_at = some now; updated_at = now }

-- RESOLVE_SITUATION
unfoldable pub resolve : ℕ → Situation → Situation
resolve now s = record s { state = resolved; resolved_at = some now; updated_at = now }

-- WAKE_SNOOZED: its WHERE and its SET
unfoldable pub is_due : ℕ → Situation → Bool
is_due now s = is_snoozed s.state && reached s.snoozed_until now

unfoldable pub wake : ℕ → Situation → Situation
wake now s = record s { state = pending; snoozed_until = none; updated_at = now }

-- EXPIRE_LAPSED: its WHERE and its SET
unfoldable pub is_lapsed : ℕ → Situation → Bool
is_lapsed now s = is_open s.state && reached s.expires_at now

unfoldable pub expire : ℕ → Situation → Situation
expire now s = record s { state = expired; expired_at = some now; updated_at = now }
