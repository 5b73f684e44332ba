-- ===== src/Situations/Access/Laws.antt =====
-- The shared actions keep to the history.
use proactive_mcp.Prelude.{ℕ, String, ◌≡◌, refl, Bool, true, Option, none, some, List}
use proactive_mcp.Model.Situation.{Situation}
use proactive_mcp.Db.{FallbackHistory-refl, find_id, Db, update_id, find_id}
use proactive_mcp.Situations.Lifecycle.{RowStep}
use proactive_mcp.Situations.Lifecycle.Invariant.{SameIdentity}
use proactive_mcp.Situations.Lifecycle.Keys.{Aligned-WellFormed, Aligned-update_id}
use proactive_mcp.Situations.Lifecycle.Table.{Evolves-update_id, Evolves-refl}
use proactive_mcp.Situations.Lifecycle.History.{
  History, History-refl, History-rows, Grows-refl, by, Advances, Advances-pure, Advances-raise,
  Advances-query, Advances-bind, Advances-execute,
}
use proactive_mcp.Situations.Access.{
  update_row, updated, require_situation, found_or_missing, raise_transition_error,
  transition_error, record_delivery,
}

-- One statement on one row, at one database.
pub History-update_row :
    (i : ℕ) (test : Situation → Bool) (change : Situation → Situation) (db : Db)
    → ((s : Situation) → SameIdentity s (change s))
    → ((s : Situation) → find_id i db.situations ≡ some s → test s ≡ true → RowStep s (change s))
    → History db (update_row i test change db).1
unfolding update_row
History-update_row i test change db same step = outcome (update_id i test change db.situations) refl
  where
    outcome :
        (r : Option (List Situation))
        → update_id i test change db.situations ≡ r
        → History db (updated db r).1
    outcome none e = History-refl db
    outcome (some rows) e =
        History-rows db rows (Evolves-update_id i test change db.situations rows step e) (
          Aligned-WellFormed db.situations rows
            (Aligned-update_id change same i test db.situations rows e))

pub Advances-update_row :
    (i : ℕ) (test : Situation → Bool) (change : Situation → Situation)
    → ((s : Situation) → SameIdentity s (change s))
    → ((s : Situation) → test s ≡ true → RowStep s (change s))
    → Advances (update_row i test change)
Advances-update_row i test change same step = record {
  at = λ db w. History-update_row i test change db same (λ s _. step s);
}

pub Advances-require_situation : (i : ℕ) → Advances (require_situation i)
unfolding require_situation
Advances-require_situation i = Advances-bind _ _ (Advances-query _) found
  where
    found : (o : Option Situation) → Advances (found_or_missing i o)
    found none = Advances-raise _
    found (some s) = Advances-pure s

pub Advances-raise_transition_error :
    {A : Type 0} (i : ℕ) (action : String) → Advances (raise_transition_error {A = A} i action)
unfolding raise_transition_error
Advances-raise_transition_error {A} i action = Advances-bind _ _ (Advances-query _) found
  where
    found : (o : Option Situation) → Advances (transition_error {A = A} i action o)
    found none = Advances-raise _
    found (some s) = Advances-raise _

pub Advances-record_delivery :
    (s : Situation) (timestamp : ℕ) → Advances (record_delivery s timestamp)
unfolding record_delivery
Advances-record_delivery s timestamp = Advances-execute _ λ db. record {
  rows = Evolves-refl db.situations;
  deliveries = by _ refl;
  receipts = Grows-refl db.receipts;
  fallbacks = FallbackHistory-refl db.fallbacks;
  well_formed = λ w. w;
  leased = λ l. l;
}

pub ruleset access_history =
    (Advances-require_situation, Advances-raise_transition_error, Advances-record_delivery)
