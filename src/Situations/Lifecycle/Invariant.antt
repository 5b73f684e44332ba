-- ===== src/Situations/Lifecycle/Invariant.antt =====
-- What holds of a row through its whole life, by induction on the step relation.
use proactive_mcp.Prelude.{ℕ, ◌≡◌, refl, ◌∙◌, ◌≢◌, Bool, true, false, none, arith}
use proactive_mcp.Model.Situation.{
  Situation, SituationState, pending, delivered, acknowledged, snoozed, muted, resolved, expired,
}
use proactive_mcp.Situations.Statements.{
  RowUpdate, refresh, reactivate, deliver, acknowledge, snooze, mute, resolve, wake, is_due, expire,
  is_lapsed,
}
use proactive_mcp.Situations.Lifecycle.{
  RowStep, refreshed, reactivated, delivers, acknowledges, snoozes, mutes, resolves, wakes, expires,
  Reach, here, next,
}

-- The columns that no statement changes.
pub record SameIdentity (s t : Situation) : Type 0 where
  pub same_id : t.id ≡ s.id
  pub same_key : t.dedupe_key ≡ s.dedupe_key
  pub same_kind : t.situation_type ≡ s.situation_type

pub SameIdentity-refl : (s : Situation) → SameIdentity s s
SameIdentity-refl s = record { same_id = refl; same_key = refl; same_kind = refl }

-- Every SET keeps the identity, whatever the row.
module _ (s : Situation) where
  pub refresh-SameIdentity : (u : RowUpdate) (now : ℕ) → SameIdentity s (refresh u now s)
  unfolding refresh
  refresh-SameIdentity u now = record { same_id = refl; same_key = refl; same_kind = refl }

  pub reactivate-SameIdentity : (u : RowUpdate) (now : ℕ) → SameIdentity s (reactivate u now s)
  unfolding reactivate
  reactivate-SameIdentity u now = record { same_id = refl; same_key = refl; same_kind = refl }

  pub deliver-SameIdentity : (now : ℕ) → SameIdentity s (deliver now s)
  unfolding deliver
  deliver-SameIdentity now = record { same_id = refl; same_key = refl; same_kind = refl }

  pub acknowledge-SameIdentity : (now : ℕ) → SameIdentity s (acknowledge now s)
  unfolding acknowledge
  acknowledge-SameIdentity now = record { same_id = refl; same_key = refl; same_kind = refl }

  pub snooze-SameIdentity : (until now : ℕ) → SameIdentity s (snooze until now s)
  unfolding snooze
  snooze-SameIdentity until now = record { same_id = refl; same_key = refl; same_kind = refl }

  pub mute-SameIdentity : (now : ℕ) → SameIdentity s (mute now s)
  unfolding mute
  mute-SameIdentity now = record { same_id = refl; same_key = refl; same_kind = refl }

  pub resolve-SameIdentity : (now : ℕ) → SameIdentity s (resolve now s)
  unfolding resolve
  resolve-SameIdentity now = record { same_id = refl; same_key = refl; same_kind = refl }

  pub wake-SameIdentity : (now : ℕ) → SameIdentity s (wake now s)
  unfolding wake
  wake-SameIdentity now = record { same_id = refl; same_key = refl; same_kind = refl }

  pub expire-SameIdentity : (now : ℕ) → SameIdentity s (expire now s)
  unfolding expire
  expire-SameIdentity now = record { same_id = refl; same_key = refl; same_kind = refl }

pub RowStep-SameIdentity : {s t : Situation} → RowStep s t → SameIdentity s t
RowStep-SameIdentity {s} (refreshed u now h e) = rw e (refresh-SameIdentity s u now)
RowStep-SameIdentity {s} (reactivated u now h e) = rw e (reactivate-SameIdentity s u now)
RowStep-SameIdentity {s} (delivers now h e) = rw e (deliver-SameIdentity s now)
RowStep-SameIdentity {s} (acknowledges now h e) = rw e (acknowledge-SameIdentity s now)
RowStep-SameIdentity {s} (snoozes until now h e) = rw e (snooze-SameIdentity s until now)
RowStep-SameIdentity {s} (mutes now h e) = rw e (mute-SameIdentity s now)
RowStep-SameIdentity {s} (resolves now h e) = rw e (resolve-SameIdentity s now)
RowStep-SameIdentity {s} (wakes now h e) = rw e (wake-SameIdentity s now)
RowStep-SameIdentity {s} (expires now h e) = rw e (expire-SameIdentity s now)

pub Reach-SameIdentity : {s t : Situation} → Reach s t → SameIdentity s t
Reach-SameIdentity {s} here = SameIdentity-refl s
Reach-SameIdentity (next r st) =
    let before = Reach-SameIdentity r in
    let after = RowStep-SameIdentity st in
    record {
      same_id = after.same_id ∙ before.same_id;
      same_key = after.same_key ∙ before.same_key;
      same_kind = after.same_kind ∙ before.same_kind;
    }

abbrev pub is_final : SituationState → Bool
is_final acknowledged = true
is_final muted = true
is_final _ = false

-- An acknowledged or muted row takes no step.
pub is_final-stuck : {s t : Situation} → is_final s.state ≡ true → ¬ RowStep s t
unfolding is_due is_lapsed
is_final-stuck f (refreshed u now h e) = ground arith
is_final-stuck f (reactivated u now h e) = ground arith
is_final-stuck f (delivers now h e) = ground arith
is_final-stuck f (acknowledges now h e) = ground arith
is_final-stuck f (snoozes until now h e) = ground arith
is_final-stuck f (mutes now h e) = ground arith
is_final-stuck f (resolves now h e) = ground arith
is_final-stuck f (wakes now h e) = ground arith
is_final-stuck f (expires now h e) = ground arith

pub Reach-is_final : {s t : Situation} → Reach s t → is_final s.state ≡ true → t ≡ s
Reach-is_final here f = refl
Reach-is_final {s} (next {t = t} r st) f =
    let same = Reach-is_final r f in absurd (is_final-stuck (ground (arith, same)) st)

-- The time column that a state stands for is set, a wake time is held only while snoozed, and the
-- exemption from the cooldown needs a snooze, and so a delivery, before it.
pub record IsConsistent (s : Situation) : Type 0 where
  pub wake_time : (s.state ≡ snoozed) → s.snoozed_until ≢ none
  pub awake : (s.state ≡ pending) → s.snoozed_until ≡ none
  pub delivered_time : (s.state ≡ delivered) → s.delivered_at ≢ none
  pub snooze_needs_delivery : (s.state ≡ snoozed) → s.delivered_at ≢ none
  pub final_delivery : is_final s.state ≡ true → s.delivered_at ≢ none
  pub resolved_time : (s.state ≡ resolved) → s.resolved_at ≢ none
  pub expired_time : (s.state ≡ expired) → s.expired_at ≢ none
  pub exempt_delivery : s.snooze_cooldown_exempt ≡ true → s.delivered_at ≢ none
  pub acknowledged_time : (s.state ≡ acknowledged) → s.acknowledged_at ≢ none
  pub muted_time : (s.state ≡ muted) → s.muted_at ≢ none

pub RowStep-IsConsistent : {s t : Situation} → RowStep s t → IsConsistent s → IsConsistent t
unfolding refresh reactivate deliver acknowledge snooze mute resolve wake expire is_due is_lapsed
RowStep-IsConsistent (refreshed u now h e) c = grind arith
RowStep-IsConsistent (reactivated u now h e) c = grind arith
RowStep-IsConsistent (delivers now h e) c = grind arith
RowStep-IsConsistent (acknowledges now h e) c = grind arith
RowStep-IsConsistent (snoozes until now h e) c = grind arith
RowStep-IsConsistent (mutes now h e) c = grind arith
RowStep-IsConsistent (resolves now h e) c = grind arith
RowStep-IsConsistent (wakes now h e) c = grind arith
RowStep-IsConsistent (expires now h e) c = grind arith

pub Reach-IsConsistent : {s t : Situation} → Reach s t → IsConsistent s → IsConsistent t
Reach-IsConsistent here c = c
Reach-IsConsistent (next r st) c = RowStep-IsConsistent st (Reach-IsConsistent r c)
