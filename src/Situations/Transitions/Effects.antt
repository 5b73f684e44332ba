-- ===== src/Situations/Transitions/Effects.antt =====
-- What one call of a transition does, on each branch.
use proactive_mcp.Prelude.{
  ℕ, String, ◌≡◌, false, if◌then◌else◌, ◌==◌, Option, none, some, Option-cases, inl, inr, arith,
}
use proactive_mcp.Model.Situation.{Situation, is_delivered}
use proactive_mcp.Db.{
  Db, situation_not_found, invalid_transition, Outcome, returned, raised, transaction, ◌>>=◌,
  find_id, update_id, update_id-found, update_id-ne, update_id-none,
}
use proactive_mcp.Situations.Access.{update_row, require_situation, raise_transition_error}
use proactive_mcp.Situations.Transitions.{transition}

-- What a call returns, by the row under the id.
abbrev pub expected : (Situation → Situation) → String → ℕ → Option Situation → Outcome Situation
expected change action i none = raised (situation_not_found i)
expected change action i (some s) =
    if is_delivered s.state
    then returned (change s)
    else raised (invalid_transition i s.state action)

abbrev pub stored : (Situation → Situation) → Option Situation → Option Situation
stored change none = none
stored change (some s) = some (if is_delivered s.state then change s else s)

module _ (change : Situation → Situation) (keeps : (s : Situation) → (change s).id ≡ s.id)
    (action : String) (i : ℕ) (db : Db) where
  -- For a change that keeps the id, a transition returns the changed row if the row is delivered; it
  -- raises an error that names the state and the action for a row in any other state, and not-found
  -- if there is no row.
  pub transition_lem :
      (transition change action i db).0 ≡ expected change action i (find_id i db.situations)
  unfolding transition ◌>>=◌ transaction update_row require_situation raise_transition_error
  transition_lem =
      elim (Option-cases (update_id i (λ s. is_delivered s.state) change db.situations)) [
        | inl e ↦ elim (update_id-none i _ change keeps db.situations e) [
          | inl gone ↦ ground arith
          | inr (s, found, wrong) ↦ ground arith
        ]
        | inr (rows, e) ↦
            let (s, found, test, after) = update_id-found i _ change keeps db.situations rows e in
            ground arith
      ]

  -- For a change that keeps the id, the row under the id is the changed one after a transition, if
  -- it was delivered, and as it was otherwise; every other row is as it was.
  pub transition_rows :
      (j : ℕ)
      → find_id j (transition change action i db).1.situations
        ≡ (if i == j then stored change (find_id i db.situations) else find_id j db.situations)
  unfolding transition ◌>>=◌ transaction update_row require_situation raise_transition_error
  transition_rows j =
      elim (Option-cases (update_id i (λ s. is_delivered s.state) change db.situations)) [
        | inl e ↦ elim (update_id-none i _ change keeps db.situations e) [
          | inl gone ↦ ground arith
          | inr (s, found, wrong) ↦ ground arith
        ]
        | inr (rows, e) ↦
            let (s, found, test, after) = update_id-found i _ change keeps db.situations rows e in
            ground (
              arith,
              λ (ne : (i == j) ≡ false).
                  update_id-ne i (λ s. is_delivered s.state) change keeps db.situations rows j ne e,
            )
      ]
