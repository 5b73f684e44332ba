-- ===== src/Situations/Transitions/Machine.antt =====
-- Every method of Transitions keeps to the state machine and to the append-only history.
use proactive_mcp.Prelude.{
  Bool-cases, inl, inr, exists_where, ℕ, String, ◌≡◌, refl, Bool, true, List, [], ◌∷◌,
}
use proactive_mcp.Model.Situation.{Situation, SituationType, same_type, is_pending, is_delivered}
use proactive_mcp.Db.{Db, update_where}
use proactive_mcp.Situations.Statements.{deliver}
use proactive_mcp.Situations.Lifecycle.{
  RowStep, delivers, acknowledges, snoozes, mutes, wakes, expires,
}
use proactive_mcp.Situations.Lifecycle.Keys.{Aligned-WellFormed, Aligned-update_where}
use proactive_mcp.Situations.Lifecycle.Invariant.{
  SameIdentity, deliver-SameIdentity, acknowledge-SameIdentity, snooze-SameIdentity,
  mute-SameIdentity, wake-SameIdentity, expire-SameIdentity,
}
use proactive_mcp.Situations.Lifecycle.Table.{Evolves-update_where}
use proactive_mcp.Situations.Lifecycle.History.{
  History, History-refl, History-unchanged, History-rows, Advances, Advances-pure, Advances-query,
  Advances-bind, Advances-execute, Advances-transaction, history_rules,
}
use proactive_mcp.Situations.Access.{update_row}
use proactive_mcp.Situations.Access.Laws.{Advances-update_row, access_history}
use proactive_mcp.Situations.Transitions.{
  update_rows, expire_lapsed, wake_snoozed, mark_one, mark_each, mark_delivered, transition,
  acknowledge_situation, Datetime, aware, naive, snooze_situation, mute_situation, insert_type_mute,
  mute_situation_type,
}

Advances-update_rows :
    (test : Situation → Bool) (change : Situation → Situation)
    → ((s : Situation) → SameIdentity s (change s))
    → ((s : Situation) → test s ≡ true → RowStep s (change s))
    → Advances (update_rows test change)
Advances-update_rows test change same step =
    Advances-bind _ _ (Advances-query _)
      (λ rowcount. Advances-bind _ _ (Advances-execute _ rewritten) (λ _. Advances-pure rowcount))
  where
    rewritten :
        (db : Db) → History db (record db { situations = update_where test change db.situations })
    rewritten db =
        History-rows db _ (Evolves-update_where test change db.situations step)
          (Aligned-WellFormed db.situations _ (Aligned-update_where change same test db.situations))

pub expire_lapsed-Advances : (now : ℕ) → Advances (expire_lapsed now)
unfolding expire_lapsed
expire_lapsed-Advances now =
    Advances-update_rows _ _ (λ s. expire-SameIdentity s now) (λ s h. expires now h refl)

pub wake_snoozed-Advances : (now : ℕ) → Advances (wake_snoozed now)
unfolding wake_snoozed
wake_snoozed-Advances now =
    Advances-update_rows _ _ (λ s. wake-SameIdentity s now) (λ s h. wakes now h refl)

Advances-deliver : (now i : ℕ) → Advances (update_row i (λ s. is_pending s.state) (deliver now))
Advances-deliver now i =
    Advances-update_row i _ _ (λ s. deliver-SameIdentity s now) (λ s h. delivers now h refl)

mark_one-Advances : (now i : ℕ) → Advances (mark_one now i)
unfolding mark_one
mark_one-Advances now i = search (history_rules, access_history, Advances-deliver) depth 8

mark_each-Advances : (now : ℕ) (ids : List ℕ) → Advances (mark_each now ids)
unfolding mark_each
mark_each-Advances now [] = Advances-pure _
mark_each-Advances now (i ∷ ids) = Advances-bind _ _ (mark_one-Advances now i) λ situation.
    Advances-bind _ _ (mark_each-Advances now ids) λ rest. Advances-pure (situation ∷ rest)

pub mark_delivered-Advances : (now : ℕ) (ids : List ℕ) → Advances (mark_delivered now ids)
unfolding mark_delivered
mark_delivered-Advances now ids = search (history_rules, mark_each-Advances)

transition-Advances :
    (change : Situation → Situation) (action : String) (i : ℕ)
    → ((s : Situation) → SameIdentity s (change s))
    → ((s : Situation) → is_delivered s.state ≡ true → RowStep s (change s))
    → Advances (transition change action i)
unfolding transition
transition-Advances change action i same step = Advances-transaction _ (
    Advances-bind _ _ (Advances-update_row i _ _ same step)
      (λ moved. search (history_rules, access_history)))

pub acknowledge-Advances : (now i : ℕ) → Advances (acknowledge_situation now i)
unfolding acknowledge_situation
acknowledge-Advances now i =
    transition-Advances _ _ i (λ s. acknowledge-SameIdentity s now) (λ s h. acknowledges now h refl)

pub snooze-Advances : (now i : ℕ) (until : Datetime) → Advances (snooze_situation now i until)
unfolding snooze_situation
snooze-Advances now i naive = search history_rules
snooze-Advances now i (aware until) =
    transition-Advances _ _ i (λ s. snooze-SameIdentity s until now)
      (λ s h. snoozes until now h refl)

pub mute-Advances : (now i : ℕ) → Advances (mute_situation now i)
unfolding mute_situation
mute-Advances now i =
    transition-Advances _ _ i (λ s. mute-SameIdentity s now) (λ s h. mutes now h refl)

insert_type_mute-History :
    (kind : SituationType) (now : ℕ) (db : Db) → History db (insert_type_mute kind now db)
unfolding insert_type_mute
insert_type_mute-History kind now db =
    elim (Bool-cases (exists_where (λ m. same_type m.0 kind) db.type_mutes)) [
      | inl old ↦ rw old (History-refl db)
      | inr new ↦ rw new (History-unchanged db _ refl refl refl refl (λ l. l))
    ]

pub mute_situation_type-Advances : (now i : ℕ) → Advances (mute_situation_type now i)
unfolding mute_situation_type
mute_situation_type-Advances now i = Advances-transaction _ (
    Advances-bind _ _
      (Advances-update_row i _ _ (λ s. mute-SameIdentity s now) (λ s h. mutes now h refl))
      λ moved. Advances-bind _ _ (search (history_rules, access_history)) λ situation.
        Advances-bind _ _
          (Advances-execute _ (insert_type_mute-History situation.situation_type now))
          λ _. Advances-pure situation)
