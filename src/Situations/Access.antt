-- ===== src/Situations/Access.antt =====
-- The statements and look-ups that the methods of src/proactive_mcp/store/situations.py and
-- _situation_claim.py share, as actions on the connection, and what they do to the history.
pub mod Laws
use proactive_mcp.Prelude.{ℕ, String, Bool, true, false, Option, none, some, List, [], ◌∷◌, ◌++◌}
use proactive_mcp.Model.Situation.{Situation}
use proactive_mcp.Db.{
  Db, Delivery, StoreError, situation_not_found, invalid_transition, Outcome, returned, raised,
  Session, pure, raise, query, execute, ◌>>=◌, ◌>>◌, find_id, update_id,
}

abbrev updated : Db → Option (List Situation) → Outcome Bool × Db
updated db none = (returned false, db)
updated db (some rows) = (returned true, record db { situations = rows })

-- UPDATE … WHERE id = ? AND test: whether the rowcount is not 0.
unfoldable pub update_row : ℕ → (Situation → Bool) → (Situation → Situation) → Session Bool
update_row i test change db = updated db (update_id i test change db.situations)

abbrev found_or_missing : ℕ → Option Situation → Session Situation
found_or_missing i none = raise (situation_not_found i)
found_or_missing i (some s) = pure s

-- _require_situation
unfoldable pub require_situation : ℕ → Session Situation
require_situation i = do found ← query (λ db. find_id i db.situations); found_or_missing i found

abbrev transition_error : {A : Type 0} → ℕ → String → Option Situation → Session A
transition_error i action none = raise (situation_not_found i)
transition_error i action (some s) = raise (invalid_transition i s.state action)

-- _raise_transition_error
unfoldable pub raise_transition_error : {A : Type 0} → ℕ → String → Session A
raise_transition_error i action = do
  existing ← query (λ db. find_id i db.situations)
  transition_error i action existing

-- record_delivery of _situation_claim.py
unfoldable pub record_delivery : Situation → ℕ → Session Unit
record_delivery s timestamp = execute λ db. record db {
  deliveries =
      db.deliveries
      ++ record { situation_id = s.id; delivered_at = timestamp; priority = s.priority } ∷ [];
}
