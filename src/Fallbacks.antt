-- ===== src/Fallbacks.antt =====
-- FallbackStore of src/proactive_mcp/store/fallbacks.py, with the statements of _fallback_sql.py.
pub mod Claim
pub mod Record
pub mod Dispatch
use proactive_mcp.Prelude.{
  ℕ, Bool, true, false, not, ◌&&◌, ◌||◌, Option, none, some, List, [], ◌∷◌, ◌++◌, ltb, leb, ◌==◌,
  if◌then◌else◌, open_after, count_where, exists_where, select_where, first_where,
}
use proactive_mcp.Prelude.Sort.{sort}
use proactive_mcp.Model.Situation.{Situation, SituationPriority, is_pending, is_critical, is_high}
use proactive_mcp.Model.Fallback.{
  FallbackClaim, FallbackClaimMode, FallbackRecord, FallbackSummary, FallbackOutcome,
  FallbackFailureCode, configured_mode, bootstrap_mode, claimed, sent, failed, is_claimed, is_sent,
  is_failed, has_code, nonzero_exit, timeout, tool_missing, unknown, unsupported_platform,
}
use proactive_mcp.Db.{
  Db, Session, fallback_not_claimed, pure, raise, query, transaction, returned, ◌>>=◌, find_id,
}
use proactive_mcp.Situations.Reader.{is_muted, is_leased, then_by}

-- The CASE of _FALLBACK_ORDER
abbrev pub priority_rank : SituationPriority → ℕ
priority_rank p = if is_critical p then 0 else if is_high p then 1 else 2

-- `priority IN (SELECT value FROM json_each(?))`
abbrev pub priority_in : SituationPriority → List SituationPriority → Bool
priority_in p ps = exists_where (λ q. priority_rank q == priority_rank p) ps

abbrev pub has_record : ℕ → List FallbackRecord → Bool
has_record i records = exists_where (λ f. f.situation_id == i) records

-- _BASE_ELIGIBLE
unfoldable pub base_eligible : FallbackClaim → Db → Situation → Bool
base_eligible claim db s =
    is_pending s.state
    && leb s.detected_at claim.detected_before
    && open_after s.expires_at claim.claimed_at
    && not (is_muted db s.situation_type)
    && not (exists_where (λ d. d.situation_id == s.id) db.deliveries)
    && not (exists_where (λ l. l.situation_id == s.id && is_leased claim.claimed_at l) db.leases)
    && not (has_record s.id db.fallbacks)

-- _CONFIGURED_ELIGIBLE and _BOOTSTRAP_ELIGIBLE
abbrev pub eligible_in : FallbackClaimMode → FallbackClaim → Db → Situation → Bool
eligible_in configured_mode claim db s =
    priority_in s.priority claim.priorities && base_eligible claim db s
eligible_in bootstrap_mode claim db s =
    base_eligible claim db s
    && not (exists_where (λ d. true) db.deliveries)
    && not (exists_where (λ f. true) db.fallbacks)

unfoldable pub is_eligible : FallbackClaim → Db → Situation → Bool
is_eligible claim db s = eligible_in claim.mode claim db s

-- _FALLBACK_ORDER, and the order of the bootstrap statement
abbrev pub detected_before : Situation → Situation → Bool
detected_before a b = then_by a.detected_at b.detected_at (ltb a.id b.id)

unfoldable pub fallback_before : FallbackClaimMode → Situation → Situation → Bool
fallback_before configured_mode a b =
    then_by (priority_rank a.priority) (priority_rank b.priority) (detected_before a b)
fallback_before bootstrap_mode a b = detected_before a b

unfoldable pub candidates : FallbackClaim → Db → List Situation
candidates claim db =
    sort (fallback_before claim.mode) (select_where (is_eligible claim db) db.situations)

abbrev pub claimed_record : FallbackClaim → Situation → FallbackRecord
claimed_record claim s = record {
  situation_id = s.id;
  priority = s.priority;
  outcome = claimed;
  failure_code = none;
  claimed_at = claim.claimed_at;
  completed_at = none;
}

-- INSERT … SELECT … WHERE id = ? AND eligible; the result is `rowcount != 0`.
unfoldable pub insert_selected : FallbackClaim → Option Situation → Session Bool
insert_selected claim none db = (returned false, db)
insert_selected claim (some s) db =
    if is_eligible claim db s
    then (returned true, record db { fallbacks = db.fallbacks ++ claimed_record claim s ∷ [] })
    else (returned false, db)

unfoldable pub insert_claim : FallbackClaim → ℕ → Session Bool
insert_claim claim i db = insert_selected claim (find_id i db.situations) db

-- The loop over the candidates, which returns at the first claim.
unfoldable pub claim_first : FallbackClaim → List Situation → Session (Option Situation)
claim_first claim [] = pure none
claim_first claim (c ∷ cs) =
    let rest = claim_first claim cs in
    insert_claim claim c.id >>= λ done. if done then pure (some c) else rest

unfoldable pub claim_next : FallbackClaim → Session (Option Situation)
claim_next claim = transaction (query (candidates claim) >>= λ cs. claim_first claim cs)

-- RECORD_FALLBACK_OUTCOME
abbrev pub completed_record :
    FallbackOutcome → Option FallbackFailureCode → ℕ → FallbackRecord → FallbackRecord
completed_record outcome code now f = record f {
  outcome = outcome;
  failure_code = code;
  completed_at = some now;
}

abbrev pub is_open_claim : ℕ → FallbackRecord → Bool
is_open_claim i f = f.situation_id == i && is_claimed f.outcome

unfoldable pub complete_rows :
    ℕ → FallbackOutcome → Option FallbackFailureCode → ℕ → List FallbackRecord → List FallbackRecord
complete_rows i outcome code now [] = []
complete_rows i outcome code now (f ∷ fs) =
    (if is_open_claim i f then completed_record outcome code now f else f)
    ∷ complete_rows i outcome code now fs

-- The statement, whose result is `rowcount != 0`
unfoldable pub update_outcome : ℕ → FallbackOutcome → Option FallbackFailureCode → ℕ → Session Bool
update_outcome i outcome code now db = (
  returned (exists_where (is_open_claim i) db.fallbacks),
  record db { fallbacks = complete_rows i outcome code now db.fallbacks },
)

-- _complete
unfoldable pub complete : ℕ → FallbackOutcome → Option FallbackFailureCode → ℕ → Session Unit
complete i outcome code now = transaction do
  updated ← update_outcome i outcome code now
  if updated then pure tt else raise (fallback_not_claimed i)

unfoldable pub record_sent : ℕ → ℕ → Session Unit
record_sent now i = complete i sent none now

unfoldable pub record_failed : ℕ → ℕ → FallbackFailureCode → Session Unit
record_failed now i code = complete i failed (some code) now

unfoldable pub history : ℕ → Db → Option FallbackRecord
history i db = first_where (λ f. f.situation_id == i) db.fallbacks

-- SELECT DISTINCT failure_code … ORDER BY failure_code, over the five codes in the order of text
unfoldable pub distinct_codes : List FallbackRecord → List FallbackFailureCode
distinct_codes records =
    select_where (λ code. exists_where (λ f. has_code code f.failure_code) records)
      (nonzero_exit ∷ timeout ∷ tool_missing ∷ unknown ∷ unsupported_platform ∷ [])

unfoldable pub summary : Db → FallbackSummary
unfolding distinct_codes
summary db = record {
  claimed_count = count_where (λ f. is_claimed f.outcome) db.fallbacks;
  sent_count = count_where (λ f. is_sent f.outcome) db.fallbacks;
  failed_count = count_where (λ f. is_failed f.outcome) db.fallbacks;
  failure_codes = distinct_codes db.fallbacks;
}
