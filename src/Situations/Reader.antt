-- ===== src/Situations/Reader.antt =====
-- src/proactive_mcp/store/_situation_reader.py: the reads, as functions of the database. The JSON
-- callbacks that carry rows out of SQLite are left out; a query returns its rows.
use proactive_mcp.Prelude.{
  ℕ, String, Bool, true, false, not, ◌&&◌, ◌||◌, Option, none, some, List, [], ◌∷◌, map, ltb, leb,
  ◌==◌, str_eq, if◌then◌else◌, length, take, count_where, exists_where, select_where, first_where,
}
use proactive_mcp.Prelude.Sort.{sort}
use proactive_mcp.Model.Situation.{
  Situation, SituationType, SituationSource, SituationState, reply_deadline, calendar_conflict,
  personal_occasion, is_pending, is_open, is_critical, is_high, is_reply_deadline, same_type,
  same_source, same_state,
}
use proactive_mcp.Db.{Db, DeliveryLease, find_id}

abbrev pub source_matches : Option SituationSource → SituationSource → Bool
source_matches none s = true
source_matches (some name) s = same_source s name

abbrev pub state_matches : Option SituationState → SituationState → Bool
state_matches none s = true
state_matches (some wanted) s = same_state s wanted

abbrev pub active_test : SituationType → Option SituationSource → Situation → Bool
active_test kind source s =
    same_type s.situation_type kind && source_matches source s.source_name && is_open s.state

-- SELECT_ACTIVE_BY_TYPE; the rows stand in the order of their ids
unfoldable pub active_by_type : SituationType → Option SituationSource → Db → List Situation
active_by_type kind source db = select_where (active_test kind source) db.situations

-- EXISTS on situation_type_mutes
unfoldable pub is_muted : Db → SituationType → Bool
is_muted db kind = exists_where (λ m. same_type m.0 kind) db.type_mutes

unfoldable pub muted_types : Db → List SituationType
unfolding is_muted
muted_types db =
    select_where (is_muted db) (reply_deadline ∷ calendar_conflict ∷ personal_occasion ∷ [])

unfoldable pub list_situations : Option SituationState → ℕ → ℕ → Db → List Situation
list_situations state after_id limit db =
    take limit (select_where (λ s. state_matches state s.state && ltb after_id s.id) db.situations)

-- One step of a lexicographic ORDER BY: a smaller key decides, an equal key leaves it to the next.
abbrev pub then_by : ℕ → ℕ → Bool → Bool
then_by a b next = ltb a b || (a == b && next)

abbrev pub rank : Bool → ℕ
rank b = if b then 0 else 1

-- The ORDER BY of SELECT_PENDING_FOR_DELIVERY
unfoldable pub delivery_before : Situation → Situation → Bool
delivery_before a b = then_by (rank (is_critical a.priority)) (rank (is_critical b.priority)) (
    then_by (rank (not (is_reply_deadline a.situation_type)))
      (rank (not (is_reply_deadline b.situation_type)))
      (then_by (rank (is_high a.priority)) (rank (is_high b.priority))
        (then_by a.detected_at b.detected_at (ltb a.id b.id))))

unfoldable pub pending_for_delivery : ℕ → Db → List Situation
unfolding delivery_before
pending_for_delivery limit db =
    take limit (sort delivery_before (select_where (λ s. is_pending s.state) db.situations))

unfoldable pub count_situations : Option SituationState → Db → ℕ
count_situations state db = count_where (λ s. state_matches state s.state) db.situations

-- Insertion by number, for the ORDER BY situation_id of `delivery_claim_ids`
unfoldable pub delivery_claim_ids : String → Db → List ℕ
delivery_claim_ids digest db = take 100 (
    sort ltb
      (map (λ l. l.situation_id) (select_where (λ l. str_eq l.receipt_digest digest) db.leases)))

abbrev pub is_leased : ℕ → DeliveryLease → Bool
is_leased now l = ltb now l.expires_at

abbrev pub lease_expiry : Option DeliveryLease → Option ℕ
lease_expiry none = none
lease_expiry (some l) = some l.expires_at

unfoldable pub active_lease_expires_at : ℕ → ℕ → Db → Option ℕ
active_lease_expires_at i now db =
    lease_expiry (first_where (λ l. l.situation_id == i && is_leased now l) db.leases)

unfoldable pub count_pending_unclaimed : ℕ → Db → ℕ
count_pending_unclaimed now db =
    count_where
      (λ s.
        is_pending s.state
        && not (exists_where (λ l. l.situation_id == s.id && is_leased now l) db.leases))
      db.situations

abbrev pub get_situation : ℕ → Db → Option Situation
get_situation i db = find_id i db.situations

unfoldable pub situation_by_dedupe_key : String → Db → Option Situation
situation_by_dedupe_key key db = first_where (λ s. str_eq s.dedupe_key key) db.situations

unfoldable pub has_delivery : ℕ → Db → Bool
has_delivery i db = ltb 0 (count_where (λ d. d.situation_id == i) db.deliveries)

abbrev pub in_window : ℕ → ℕ → ℕ → Bool
in_window start end t = leb start t && ltb t end

-- COUNT_DELIVERED_BETWEEN
unfoldable pub count_delivered_between : ℕ → ℕ → Db → ℕ
count_delivered_between start end db =
    count_where (λ d. in_window start end d.delivered_at && not (is_critical d.priority))
      db.deliveries

-- The column of the joined situation, for a join on its id
abbrev pub joined : (Situation → Bool) → Option Situation → Bool
joined test none = false
joined test (some s) = test s

unfoldable pub count_reserved_between : ℕ → ℕ → ℕ → Db → ℕ
count_reserved_between start end now db =
    count_where
      (λ l.
        in_window start end l.claimed_at
        && is_leased now l
        && joined (λ s. not (is_critical s.priority)) (find_id l.situation_id db.situations))
      db.leases

unfoldable pub count_deliveries : Db → ℕ
count_deliveries db = length db.deliveries
