-- ===== src/Fallbacks/Dispatch/Loop.antt =====
-- The dispatching loop as a chain of claims and attempts, and why it ends.
use proactive_mcp.Prelude.{
  ℕ, ◌≡◌, refl, true, false, Option, none, some, List, [], ◌∷◌, ◌++◌, arith, Bool-cases, inl, inr,
  ◌==◌, ==_refl, exists_where,
}
use proactive_mcp.Model.Situation.{Situation}
use proactive_mcp.Model.Fallback
use proactive_mcp.Model.Fallback.{
  FallbackClaim, FallbackClaimMode, FallbackRecord, FallbackOutcome, FallbackFailureCode,
  configured_mode, bootstrap_mode, claimed, sent, is_claimed,
}
use proactive_mcp.Db.{Db, returned, exists_where-append, ◌>>=◌}
use proactive_mcp.Situations.Reader.{is_muted}
use proactive_mcp.Fallbacks.{
  base_eligible, eligible_in, is_eligible, has_record, claimed_record, completed_record,
  complete_rows, is_open_claim, record_sent, record_failed, complete,
}
use proactive_mcp.Fallbacks.Claim.{IsCandidate, claimed_db}
use proactive_mcp.Fallbacks.Record.{complete_lem, eligible-new}
use proactive_mcp.Fallbacks.Dispatch.{
  NotificationErrorCode, NotificationPayload, FallbackDispatch, fallback_sent, fallback_failed,
  notification_payload, failure_code, record_attempt, notify,
}

-- The claim of a situation that has no record is the last one, and its completion shows there.
module _ (i now : ℕ) (o : FallbackOutcome) (code : Option FallbackFailureCode) where
  complete_rows-last :
      (fs : List FallbackRecord) (f : FallbackRecord)
      → has_record i fs ≡ false
      → is_open_claim i f ≡ true
      → complete_rows i o code now (fs ++ f ∷ []) ≡ fs ++ completed_record o code now f ∷ []
  unfolding complete_rows
  complete_rows-last [] f new last = rw last refl
  complete_rows-last (g ∷ fs) f new last =
      let rest = complete_rows-last fs f (ground arith) last in
      let other : is_open_claim i g ≡ false = ground arith in rw (other, rest) refl

  exists_open-last :
      (fs : List FallbackRecord) (f : FallbackRecord)
      → is_open_claim i f ≡ true
      → exists_where (is_open_claim i) (fs ++ f ∷ []) ≡ true
  exists_open-last fs f last = rw (exists_where-append (is_open_claim i) fs (f ∷ [])) (ground arith)

module _ (attempt : ℕ → NotificationPayload → Option NotificationErrorCode)
    (completed_at : ℕ → ℕ) where
  abbrev pub result_of : Situation → Option NotificationErrorCode
  result_of s = attempt s.id (notification_payload s)

  abbrev pub dispatched : Situation → Option NotificationErrorCode → FallbackDispatch
  dispatched s none = fallback_sent s.id
  dispatched s (some e) = fallback_failed s.id (failure_code e)

  -- The dispatch that is returned for a claimed row.
  abbrev pub dispatch_of : Situation → FallbackDispatch
  dispatch_of s = dispatched s (result_of s)

  abbrev pub recorded : FallbackClaim → Situation → Option NotificationErrorCode → FallbackRecord
  recorded claim s none = completed_record sent none (completed_at s.id) (claimed_record claim s)
  recorded claim s (some e) =
      completed_record Fallback.failed (some (failure_code e)) (completed_at s.id)
        (claimed_record claim s)

  -- The record that is left for a claimed row.
  abbrev pub record_of : FallbackClaim → Situation → FallbackRecord
  record_of claim s = recorded claim s (result_of s)

  abbrev pub notified_db : FallbackClaim → Db → Situation → Db
  notified_db claim db s = record db { fallbacks = db.fallbacks ++ record_of claim s ∷ [] }

  complete-claimed :
      (claim : FallbackClaim) (db : Db) (s : Situation) (o : FallbackOutcome)
      (code : Option FallbackFailureCode) (now : ℕ)
      → has_record s.id db.fallbacks ≡ false
      → complete s.id o code now (claimed_db claim db s) ≡ (
        returned tt,
        record db {
          fallbacks = db.fallbacks ++ completed_record o code now (claimed_record claim s) ∷ [];
        },
      )
  complete-claimed claim db s o code now new =
      let last : is_open_claim s.id (claimed_record claim s) ≡ true = rw (==_refl s.id) refl in
      rw (complete_lem s.id now o code (claimed_db claim db s)) (
        rw (exists_open-last s.id now o code db.fallbacks (claimed_record claim s) last) (
          rw (complete_rows-last s.id now o code db.fallbacks (claimed_record claim s) new last)
            refl))

  record_attempt_lem :
      (claim : FallbackClaim) (db : Db) (s : Situation) (r : Option NotificationErrorCode)
      → has_record s.id db.fallbacks ≡ false
      → record_attempt attempt completed_at s r (claimed_db claim db s) ≡ (
        returned (dispatched s r),
        record db { fallbacks = db.fallbacks ++ recorded claim s r ∷ [] },
      )
  unfolding record_attempt record_sent record_failed ◌>>=◌
  record_attempt_lem claim db s none new =
      rw (complete-claimed claim db s sent none (completed_at s.id) new) refl
  record_attempt_lem claim db s (some e) new =
      rw
        (complete-claimed claim db s Fallback.failed (some (failure_code e)) (completed_at s.id)
          new)
        refl

  pub notify_lem :
      (claim : FallbackClaim) (db : Db) (s : Situation)
      → IsCandidate claim db s
      → notify attempt completed_at s (claimed_db claim db s)
        ≡ (returned (dispatch_of s), notified_db claim db s)
  unfolding notify
  notify_lem claim db s c =
      record_attempt_lem claim db s (result_of s) (eligible-new claim db s c.eligible)

-- A new record takes eligibility away from its situation and gives it to none.
module _ (claim : FallbackClaim) (db : Db) (f : FallbackRecord) where
  abbrev with_record : Db
  with_record = record db { fallbacks = db.fallbacks ++ f ∷ [] }

  base_eligible-fewer :
      (t : Situation) → base_eligible claim with_record t ≡ true → base_eligible claim db t ≡ true
  unfolding base_eligible is_muted
  base_eligible-fewer t e =
      let more = exists_where-append (λ g. g.situation_id == t.id) db.fallbacks (f ∷ []) in
      ground arith

  pub eligible-fewer :
      (t : Situation) → is_eligible claim with_record t ≡ true → is_eligible claim db t ≡ true
  unfolding is_eligible
  eligible-fewer t = by_mode claim.mode
    where
      by_mode :
          (m : FallbackClaimMode)
          → eligible_in m claim with_record t ≡ true
          → eligible_in m claim db t ≡ true
      by_mode configured_mode e = let base = base_eligible-fewer t (ground arith) in ground arith
      by_mode bootstrap_mode e =
          let base = base_eligible-fewer t (ground arith) in
          let more = exists_where-append (λ (g : FallbackRecord). true) db.fallbacks (f ∷ []) in
          ground arith

  pub eligible-gone :
      (t : Situation) → f.situation_id ≡ t.id → is_eligible claim with_record t ≡ false
  eligible-gone t same = elim (Bool-cases (is_eligible claim with_record t)) [
    | inl e ↦
        let new = eligible-new claim with_record t e in
        let more = exists_where-append (λ g. g.situation_id == t.id) db.fallbacks (f ∷ []) in
        ground arith
    | inr e ↦ e
  ]
