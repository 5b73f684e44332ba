-- ===== src/Fallbacks/Dispatch/Outcome.antt =====
-- What a dispatch ends with.
use proactive_mcp.Prelude.{
  ℕ, zero, suc, ◌<◌, ◌≤◌, ◌≡◌, refl, ap, sym, ◌∙◌, subst, Bool, true, false, not, ◌||◌, Option,
  none, some, List, [], ◌∷◌, ◌++◌, map, arith, All, Bool-cases, inl, inr, ◌==◌, ltb, length,
  count_where,
}
use mathlib.Core.List.{append-nil, append_assoc}
use proactive_mcp.Model.Situation.{Situation}
use proactive_mcp.Model.Fallback.{FallbackClaim, configured_mode, bootstrap_mode}
use proactive_mcp.Db.{Db, Session, returned, ◌>>=◌, find_id}
use proactive_mcp.Situations.Lifecycle.Keys.{WellFormed}
use proactive_mcp.Fallbacks.{is_eligible, claim_next}
use proactive_mcp.Fallbacks.Claim.{IsCandidate, claimed_db, Claimed-cases, claim_next_outcome}
use proactive_mcp.Fallbacks.Dispatch.{
  NotificationErrorCode, NotificationPayload, FallbackDispatch, FallbackSettings, claim_at,
  notify_then, dispatch_all, bootstrap_then, dispatch, dispatch_claims, no_priorities,
}
use proactive_mcp.Fallbacks.Dispatch.Loop.{
  result_of, recorded, dispatch_of, record_of, notified_db, notify_lem, eligible-fewer,
  eligible-gone,
}

count-le-length : (p : Situation → Bool) (rows : List Situation) → count_where p rows ≤ length rows
count-le-length p [] = omega arith
count-le-length p (r ∷ rows) = ground (arith, count-le-length p rows)

-- Tests that fewer rows pass, and one row no longer.
module _ (p q : Situation → Bool) (fewer : (t : Situation) → q t ≡ true → p t ≡ true) where
  count-fewer : (rows : List Situation) → count_where q rows ≤ count_where p rows
  count-fewer [] = omega arith
  count-fewer (r ∷ rows) = elim (Bool-cases (q r)) [
    | inl e ↦ rw (e, fewer r e) (omega (arith, count-fewer rows))
    | inr e ↦ ground (arith, count-fewer rows)
  ]

  count-less :
      (i : ℕ) (s : Situation) (rows : List Situation)
      → find_id i rows ≡ some s
      → p s ≡ true
      → q s ≡ false
      → count_where q rows < count_where p rows
  unfolding find_id
  count-less i s [] found yes_p no_q = cc
  count-less i s (r ∷ rows) found yes_p no_q = elim (Bool-cases (r.id == i)) [
    | inl hit ↦
        let same : s ≡ r = ground arith in
        let before : p r ≡ true = subst (λ t. p t ≡ true) same yes_p in
        let after : q r ≡ false = subst (λ t. q t ≡ false) same no_q in
        rw (before, after) (omega (arith, count-fewer rows))
    | inr miss ↦
        let less = count-less i s rows (ground arith) yes_p no_q in
        elim (Bool-cases (q r)) [
          | inl e ↦ rw (e, fewer r e) (omega (arith, less))
          | inr e ↦ ground (arith, less)
        ]
  ]

module _ (attempt : ℕ → NotificationPayload → Option NotificationErrorCode)
    (completed_at : ℕ → ℕ) where
  -- Claims and attempts, until no row is eligible.
  data Chain (claim : FallbackClaim) : Db → List Situation → Db → Type 0 where
    done :
        {db : Db} → All (λ t. is_eligible claim db t ≡ false) db.situations → Chain claim db [] db
    next :
        {db after : Db} {rest : List Situation} (s : Situation)
        → IsCandidate claim db s
        → Chain claim (notified_db attempt completed_at claim db s) rest after
        → Chain claim db (s ∷ rest) after

  -- Whatever its turns, a chain only appends one record for each row.
  Chain-db :
      (claim : FallbackClaim) {db after : Db} {ss : List Situation}
      → Chain claim db ss after
      → after
        ≡ record db { fallbacks = db.fallbacks ++ map (record_of attempt completed_at claim) ss }
  Chain-db claim (done {db = db} none_eligible) =
      ap (λ fs. record db { fallbacks = fs }) (sym (append-nil db.fallbacks))
  Chain-db claim (next {db = db} {rest = rest} s c more) =
      Chain-db claim more
      ∙ ap (λ fs. record db { fallbacks = fs })
          (append_assoc db.fallbacks (record_of attempt completed_at claim s ∷ [])
            (map (record_of attempt completed_at claim) rest))

  Chain-done :
      (claim : FallbackClaim) {db after : Db} {ss : List Situation}
      → Chain claim db ss after
      → All (λ t. is_eligible claim after t ≡ false) after.situations
  Chain-done claim (done none_eligible) = none_eligible
  Chain-done claim (next s c more) = Chain-done claim more

  -- A claim and its attempt leave fewer eligible rows.
  fewer-notified :
      (claim : FallbackClaim) (db : Db) (s : Situation)
      → IsCandidate claim db s
      → count_where (is_eligible claim (notified_db attempt completed_at claim db s)) db.situations
        < count_where (is_eligible claim db) db.situations
  fewer-notified claim db s c =
      count-less (is_eligible claim db) _ (eligible-fewer claim db _) s.id s db.situations c.found
        c.eligible (eligible-gone claim db _ s same)
    where
      same : (record_of attempt completed_at claim s).situation_id ≡ s.id
      same = by_result (result_of attempt completed_at s)
        where
          by_result :
              (r : Option NotificationErrorCode)
              → (recorded attempt completed_at claim s r).situation_id ≡ s.id
          by_result none = refl
          by_result (some e) = refl

  turn_none :
      (claim : FallbackClaim) (fuel : ℕ) (db : Db)
      → claim_next claim db ≡ (returned none, db)
      → dispatch_all attempt completed_at (suc fuel) claim db ≡ (returned (some []), db)
  unfolding dispatch_all notify_then ◌>>=◌
  turn_none claim fuel db e = rw e refl

  notify_then_lem :
      (claim : FallbackClaim) (db after : Db) (s : Situation) (ds : List FallbackDispatch)
      (rest : Session (Option (List FallbackDispatch)))
      → IsCandidate claim db s
      → rest (notified_db attempt completed_at claim db s) ≡ (returned (some ds), after)
      → notify_then attempt completed_at rest (some s) (claimed_db claim db s)
        ≡ (returned (some (dispatch_of attempt completed_at s ∷ ds)), after)
  unfolding notify_then ◌>>=◌
  notify_then_lem claim db after s ds rest c e =
      rw (notify_lem attempt completed_at claim db s c) (rw e refl)

  turn_some :
      (claim : FallbackClaim) (fuel : ℕ) (db after : Db) (s : Situation)
      (ds : List FallbackDispatch)
      → claim_next claim db ≡ (returned (some s), claimed_db claim db s)
      → IsCandidate claim db s
      → dispatch_all attempt completed_at fuel claim (notified_db attempt completed_at claim db s)
        ≡ (returned (some ds), after)
      → dispatch_all attempt completed_at (suc fuel) claim db
        ≡ (returned (some (dispatch_of attempt completed_at s ∷ ds)), after)
  unfolding dispatch_all ◌>>=◌
  turn_some claim fuel db after s ds e c more =
      rw e
        (notify_then_lem claim db after s ds (dispatch_all attempt completed_at fuel claim) c more)

  -- The loop ends, if its fuel exceeds the number of eligible rows.
  dispatch_all_lem :
      (claim : FallbackClaim) (fuel : ℕ) (db : Db)
      → WellFormed db.situations
      → count_where (is_eligible claim db) db.situations < fuel
      → (ss : List Situation) × (after : Db) × (dispatch_all attempt completed_at fuel claim db
          ≡ (returned (some (map (dispatch_of attempt completed_at) ss)), after))
        × Chain claim db ss after
  dispatch_all_lem claim zero db w enough = absurd (omega (arith, enough))
  dispatch_all_lem claim (suc fuel) db w enough =
      elim (Claimed-cases claim db _ (claim_next_outcome claim db w)) [
        | inl (e, none_eligible) ↦ ([], db, turn_none claim fuel db e, done none_eligible)
        | inr (s, c, e) ↦
            let less = fewer-notified claim db s c in
            let (ss, after, ran, chain) =
              dispatch_all_lem claim fuel (notified_db attempt completed_at claim db s) w
                (omega (arith, less, enough)) in
            (s ∷ ss, after, turn_some claim fuel db after s _ e c ran, next s c chain)
      ]

  -- What `ss` notified leave behind.
  abbrev pub after_dispatch : FallbackSettings → ℕ → Db → List Situation → Db
  after_dispatch settings now db ss = record db {
    fallbacks =
        db.fallbacks
        ++ map (record_of attempt completed_at (claim_at settings now configured_mode)) ss;
  }

  -- The dispatch with the loop's result.
  dispatch_lem :
      (settings : FallbackSettings) (now fuel : ℕ) (db : Db)
      → WellFormed db.situations
      → length db.situations < fuel
      → (ss : List Situation) × (after : Db) × (dispatch_claims attempt completed_at settings now
            fuel db
          ≡ (returned (some (map (dispatch_of attempt completed_at) ss)), after))
        × (after ≡ after_dispatch settings now db ss)
        × All
            (λ t. is_eligible (claim_at settings now configured_mode) after t ≡ false)
            after.situations
  unfolding dispatch_claims bootstrap_then ◌>>=◌ claim_at
  dispatch_lem settings now fuel db w enough =
      let first = claim_at settings now bootstrap_mode in
      let loop = claim_at settings now configured_mode in
      elim (Claimed-cases first db _ (claim_next_outcome first db w)) [
        | inl (e, none_eligible) ↦
            let bound = count-le-length (is_eligible loop db) db.situations in
            let (ss, after, ran, chain) =
              dispatch_all_lem loop fuel db w (omega (arith, enough, bound)) in
            (ss, after, rw e ran, Chain-db loop chain, Chain-done loop chain)
        | inr (s, c, e) ↦
            let bound =
              count-le-length (is_eligible loop (notified_db attempt completed_at first db s))
                db.situations in
            let (ss, after, ran, chain) =
              dispatch_all_lem loop fuel (notified_db attempt completed_at first db s) w
                (omega (arith, enough, bound)) in
            (
              s ∷ ss,
              after,
              rw e (
                  notify_then_lem first db after s (map (dispatch_of attempt completed_at) ss)
                    (dispatch_all attempt completed_at fuel loop) c ran),
              Chain-db loop chain
                  ∙ ap (λ fs. record db { fallbacks = fs })
                      (append_assoc db.fallbacks (record_of attempt completed_at first s ∷ [])
                        (map (record_of attempt completed_at loop) ss)),
              Chain-done loop chain,
            )
      ]

  -- On a well-formed table, with the fallback enabled for some priorities, a wait that does not
  -- exceed the time and more fuel than there are rows, `dispatch` ends and returns the results of
  -- notifying some rows `ss`; it appends exactly one record for each of them, in their order, with
  -- the outcome of its attempt, changes nothing else (what was notified stays pending and
  -- undelivered), and leaves no row that the configured claim could still take.
  pub dispatch_outcome :
      (settings : FallbackSettings) (now fuel : ℕ) (db : Db)
      → WellFormed db.situations
      → settings.enabled ≡ true
      → no_priorities settings.priorities ≡ false
      → settings.wait ≤ now
      → length db.situations < fuel
      → (ss : List Situation) × (dispatch attempt completed_at settings now fuel db ≡ (
        returned (some (map (dispatch_of attempt completed_at) ss)),
        after_dispatch settings now db ss,
      ))
        × All
            (λ t.
              is_eligible
                (claim_at settings now configured_mode)
                (after_dispatch settings now db ss)
                t
              ≡ false)
            db.situations
  unfolding dispatch
  dispatch_outcome settings now fuel db w enabled chosen reachable enough =
      let (ss, after, ran, written, over) = dispatch_lem settings now fuel db w enough in
      let on : (not settings.enabled || no_priorities settings.priorities) ≡ false = ground arith in
      let in_time : ltb now settings.wait ≡ false = ground arith in
      (
        ss,
        rw (on, in_time)
            (ran
              ∙ ap (λ (d : Db). (returned (some (map (dispatch_of attempt completed_at) ss)), d))
                  written),
        subst
            (λ d.
              All (λ t. is_eligible (claim_at settings now configured_mode) d t ≡ false)
                d.situations)
            written over,
      )
