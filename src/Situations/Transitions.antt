-- ===== src/Situations/Transitions.antt =====
-- The methods of SituationStore (src/proactive_mcp/store/situations.py) that move situations along
-- their life. `now` is the clock's reading; each method reads it once.
pub mod Machine
pub mod Effects
use proactive_mcp.Prelude.{
  ℕ, String, Bool, ◌&&◌, Option, none, some, List, [], ◌∷◌, ◌++◌, leb, if◌then◌else◌, count_where,
  exists_where,
}
use proactive_mcp.Model.Situation.{
  Situation, SituationState, SituationType, is_pending, is_delivered, same_type,
}
use proactive_mcp.Db.{
  Db, validation_error, Session, pure, raise, query, execute, transaction, ◌>>=◌, ◌>>◌,
  update_where,
}
use proactive_mcp.Situations.Statements.{
  deliver, acknowledge, snooze, mute, wake, is_due, expire, is_lapsed,
}
use proactive_mcp.Situations.Reader.{list_situations}
use proactive_mcp.Situations.Access.{
  update_row, require_situation, raise_transition_error, record_delivery,
}

-- One autocommitted UPDATE over the table; the rowcount is what the WHERE selects.
abbrev update_rows : (Situation → Bool) → (Situation → Situation) → Session ℕ
update_rows test change = do
  rowcount ← query (λ db. count_where test db.situations)
  execute (λ db. record db { situations = update_where test change db.situations })
  pure rowcount

unfoldable pub expire_lapsed : ℕ → Session ℕ
expire_lapsed now = update_rows (is_lapsed now) (expire now)

unfoldable pub wake_snoozed : ℕ → Session ℕ
wake_snoozed now = update_rows (is_due now) (wake now)

-- The body of the loop of `mark_delivered`.
unfoldable pub mark_one : ℕ → ℕ → Session Situation
mark_one now i = do
  moved ← update_row i (λ s. is_pending s.state) (deliver now)
  situation ← if moved then require_situation i else raise_transition_error i "deliver"
  record_delivery situation now
  pure situation

unfoldable pub mark_each : ℕ → List ℕ → Session (List Situation)
mark_each now [] = pure []
mark_each now (i ∷ ids) = do
  situation ← mark_one now i
  rest ← mark_each now ids
  pure (situation ∷ rest)

unfoldable pub mark_delivered : ℕ → List ℕ → Session (List Situation)
mark_delivered now ids = transaction (mark_each now ids)

-- _transition: the three statements that ask for a delivered row
unfoldable pub transition : (Situation → Situation) → String → ℕ → Session Situation
transition change action i = transaction do
  moved ← update_row i (λ s. is_delivered s.state) change
  if moved then require_situation i else raise_transition_error i action

unfoldable pub acknowledge_situation : ℕ → ℕ → Session Situation
acknowledge_situation now i = transition (acknowledge now) "acknowledge" i

-- A datetime with or without a timezone.
pub data Datetime : Type 0 where
  aware : ℕ → Datetime
  naive : Datetime

unfoldable pub snooze_situation : ℕ → ℕ → Datetime → Session Situation
snooze_situation now i naive = raise (validation_error "until")
snooze_situation now i (aware until) = transition (snooze until now) "snooze" i

unfoldable pub mute_situation : ℕ → ℕ → Session Situation
mute_situation now i = transition (mute now) "mute" i

-- INSERT_TYPE_MUTE: a second insertion of the type does nothing.
unfoldable pub insert_type_mute : SituationType → ℕ → Db → Db
insert_type_mute kind now db =
    if exists_where (λ m. same_type m.0 kind) db.type_mutes
    then db
    else record db { type_mutes = db.type_mutes ++ (kind, now) ∷ [] }

unfoldable pub mute_situation_type : ℕ → ℕ → Session Situation
unfolding insert_type_mute
mute_situation_type now i = transaction do
  moved ← update_row i (λ s. is_delivered s.state) (mute now)
  situation ← if moved then require_situation i else raise_transition_error i "mute type"
  execute (insert_type_mute situation.situation_type now)
  pure situation

-- MAX_SITUATION_PAGE_SIZE
abbrev pub max_situation_page_size : ℕ
max_situation_page_size = 100

-- The public `list_situations`, with its check of the page; a negative `after_id` has no model.
unfoldable pub list_page : Option SituationState → ℕ → ℕ → Session (List Situation)
unfolding list_situations
list_page state after_id limit =
    if leb 1 limit && leb limit max_situation_page_size
    then query (list_situations state after_id limit)
    else raise (validation_error "pagination")
