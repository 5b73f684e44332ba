-- ===== src/Examples/Stores.antt =====
-- The store's theorems at the sample.
use proactive_mcp.Prelude.{
  ◌≡◌, refl, true, none, some, List, [], ◌∷◌, All, count_where, if◌then◌else◌, ◌==◌, arith,
}
use proactive_mcp.Model.Situation.{Situation, acknowledged, reply_deadline, personal_occasion}
use proactive_mcp.Db.{
  LeasedOnce, NotifiedOnce, IsShaped, Db, returned, empty_db, find_id, update_where,
}
use proactive_mcp.Situations.Statements.{acknowledge, resolve}
use proactive_mcp.Situations.Lifecycle.Invariant.{IsConsistent, acknowledge-SameIdentity}
use proactive_mcp.Situations.Lifecycle.Keys.{WellFormed}
use proactive_mcp.Situations.Lifecycle.History.{History}
use proactive_mcp.Situations.Transitions.{transition}
use proactive_mcp.Situations.Transitions.Effects.{expected, stored, transition_lem, transition_rows}
use proactive_mcp.Situations.Upsert.{resolve_all, resolve_by_source_ids}
use proactive_mcp.Situations.Upsert.Resolution.{
  absent, absent_in_scope, resolve_all_lem, resolve_by_source_ids_lem,
}
use proactive_mcp.Store.{Call, upserts, acknowledges, claims, after_all}
use proactive_mcp.Store.Invariant.{after_all-History, after_all_invariant, after_all_final}
use proactive_mcp.Examples.Data.{
  sample_db, sample-WellFormed, sample_claim, sample_detection, evidence_bytes, receipt_digest,
  delivered_row,
}

abbrev sample_calls : List Call
sample_calls = upserts 900 (sample_detection ∷ []) ∷ claims sample_claim ∷ acknowledges 1100 1 ∷ []

after_all-History_example :
    History sample_db (after_all evidence_bytes receipt_digest sample_calls sample_db)
after_all-History_example =
    after_all-History evidence_bytes receipt_digest sample_calls sample_db sample-WellFormed

after_all_invariant_example :
    WellFormed (after_all evidence_bytes receipt_digest sample_calls empty_db).situations
    × All IsConsistent (after_all evidence_bytes receipt_digest sample_calls empty_db).situations
    × LeasedOnce (after_all evidence_bytes receipt_digest sample_calls empty_db).leases
    × NotifiedOnce (after_all evidence_bytes receipt_digest sample_calls empty_db).fallbacks
    × All IsShaped (after_all evidence_bytes receipt_digest sample_calls empty_db).fallbacks
after_all_invariant_example = after_all_invariant evidence_bytes receipt_digest sample_calls

abbrev acknowledged_row : Situation
acknowledged_row = record delivered_row { id = 1; state = acknowledged; acknowledged_at = some 500 }

abbrev final_db : Db
final_db = record sample_db { situations = acknowledged_row ∷ [] }

final-WellFormed : WellFormed final_db.situations
final-WellFormed = record { ids = (omega arith, tt); keys = (refl, tt); bounded = omega arith }

after_all_final_example :
    find_id 1 (after_all evidence_bytes receipt_digest sample_calls final_db).situations
    ≡ some acknowledged_row
unfolding find_id
after_all_final_example =
    after_all_final evidence_bytes receipt_digest sample_calls final_db 1 acknowledged_row
      final-WellFormed refl refl

transition_lem_example :
    (transition (acknowledge 700) "acknowledge" 3 sample_db).0
    ≡ expected (acknowledge 700) "acknowledge" 3 (find_id 3 sample_db.situations)
transition_lem_example =
    transition_lem (acknowledge 700) (λ s. (acknowledge-SameIdentity s 700).same_id) "acknowledge" 3
      sample_db

transition_rows_example :
    find_id 2 (transition (acknowledge 700) "acknowledge" 3 sample_db).1.situations ≡ (
      if 3 == 2
      then stored (acknowledge 700) (find_id 3 sample_db.situations)
      else find_id 2 sample_db.situations)
transition_rows_example =
    transition_rows (acknowledge 700) (λ s. (acknowledge-SameIdentity s 700).same_id) "acknowledge"
      3 sample_db 2

resolve_all_lem_example : resolve_all personal_occasion ("occasion:ada" ∷ []) 800 none sample_db ≡ (
  returned (count_where (absent personal_occasion none ("occasion:ada" ∷ [])) sample_db.situations),
  record sample_db {
    situations =
        update_where
          (absent personal_occasion none ("occasion:ada" ∷ []))
          (resolve 800)
          sample_db.situations;
  },
)
resolve_all_lem_example =
    resolve_all_lem personal_occasion ("occasion:ada" ∷ []) 800 none sample_db sample-WellFormed

resolve_by_source_ids_lem_example :
    resolve_by_source_ids reply_deadline [] ("t1" ∷ []) 800 true none sample_db ≡ (
      returned (
          count_where
            (absent_in_scope reply_deadline none [] ("t1" ∷ []) true)
            sample_db.situations),
      record sample_db {
        situations =
            update_where
              (absent_in_scope reply_deadline none [] ("t1" ∷ []) true)
              (resolve 800)
              sample_db.situations;
      },
    )
resolve_by_source_ids_lem_example =
    resolve_by_source_ids_lem reply_deadline [] ("t1" ∷ []) 800 true none sample_db
      sample-WellFormed
