-- ===== src/Fallbacks/Record.antt =====
-- The life of a fallback record: what the two writing methods do to the history.
use proactive_mcp.Prelude.{
  ℕ, ◌≡◌, refl, ◌∙◌, true, false, Option, none, some, List, [], ◌∷◌, arith, All, Bool-cases, inl,
  inr, exists_where, if◌then◌else◌,
}
use proactive_mcp.Model.Situation.{Situation}
use proactive_mcp.Model.Fallback.{
  FallbackClaim, FallbackClaimMode, FallbackRecord, FallbackOutcome, FallbackFailureCode, claimed,
  sent, failed, is_claimed, configured_mode, bootstrap_mode,
}
use proactive_mcp.Db.{
  Db, Outcome, returned, raised, fallback_not_claimed, transaction, ◌>>=◌, IsShaped, was_sent,
  has_failed, Settles, kept, settled, FallbacksEvolve, NotifiedOnce, FallbackHistory,
  FallbackHistory-append, open_claim,
}
use proactive_mcp.Situations.Lifecycle.Table.{Evolves-refl}
use proactive_mcp.Situations.Lifecycle.History.{
  History, History-refl, Grows-refl, Advances, Advances-transaction, Advances-bind, Advances-if,
  Advances-pure, Advances-raise,
}
use proactive_mcp.Fallbacks.{
  eligible_in, is_eligible, base_eligible, claimed_record, claim_next, completed_record,
  is_open_claim, complete_rows, update_outcome, complete, record_sent, record_failed, has_record,
}
use proactive_mcp.Fallbacks.Claim.{Claimed, none_left, took, claim_next_outcome}

-- A write to the fallback table alone.
History-fallbacks :
    (db : Db) (rows : List FallbackRecord)
    → FallbackHistory db.fallbacks rows
    → History db (record db { fallbacks = rows })
History-fallbacks db rows h = record {
  rows = Evolves-refl db.situations;
  deliveries = Grows-refl db.deliveries;
  receipts = Grows-refl db.receipts;
  fallbacks = h;
  well_formed = λ w. w;
  leased = λ l. l;
}

pub eligible-new :
    (claim : FallbackClaim) (db : Db) (s : Situation)
    → is_eligible claim db s ≡ true
    → has_record s.id db.fallbacks ≡ false
unfolding is_eligible base_eligible
eligible-new claim db s h = by_mode claim.mode h
  where
    by_mode :
        (m : FallbackClaimMode)
        → eligible_in m claim db s ≡ true
        → has_record s.id db.fallbacks ≡ false
    by_mode configured_mode e = ground arith
    by_mode bootstrap_mode e = ground arith

pub claim_next-Advances : (claim : FallbackClaim) → Advances (claim_next claim)
claim_next-Advances claim = record { at = λ db w. advanced (claim_next_outcome claim db w) }
  where
    advanced : {db : Db} {r : Outcome (Option Situation) × Db} → Claimed claim db r → History db r.1
    advanced {db} (none_left a) = History-refl db
    advanced {db} (took s c least) = History-fallbacks db _ (
        FallbackHistory-append db.fallbacks (claimed_record claim s) (open_claim refl refl refl)
          (eligible-new claim db s c.eligible))

-- A terminal outcome with the failure code it calls for.
pub data IsTerminal : FallbackOutcome → Option FallbackFailureCode → Type 0 where
  sent_plain : IsTerminal sent none
  failed_with : (code : FallbackFailureCode) → IsTerminal failed (some code)

module _ (i now : ℕ) where
  has_record-complete_rows :
      (o : FallbackOutcome) (code : Option FallbackFailureCode) (j : ℕ) (fs : List FallbackRecord)
      → has_record j (complete_rows i o code now fs) ≡ has_record j fs
  unfolding complete_rows
  has_record-complete_rows o code j [] = refl
  has_record-complete_rows o code j (f ∷ fs) = ground (arith, has_record-complete_rows o code j fs)

  -- No open claim of the situation is left.
  pub complete_rows-closed :
      (o : FallbackOutcome) (code : Option FallbackFailureCode) (fs : List FallbackRecord)
      → is_claimed o ≡ false
      → exists_where (is_open_claim i) (complete_rows i o code now fs) ≡ false
  unfolding complete_rows
  complete_rows-closed o code [] h = refl
  complete_rows-closed o code (f ∷ fs) h = ground (arith, complete_rows-closed o code fs h)

  module _ (o : FallbackOutcome) (code : Option FallbackFailureCode) where
    Settles-completed :
        (f : FallbackRecord)
        → IsTerminal o code
        → is_open_claim i f ≡ true
        → Settles f (completed_record o code now f)
    Settles-completed f t h =
        settled (open_outcome f.outcome (ground arith)) (terminal t) refl refl refl
      where
        open_outcome : (o' : FallbackOutcome) → is_claimed o' ≡ true → o' ≡ claimed
        open_outcome claimed e = refl
        open_outcome sent e = absurd (cc)
        open_outcome failed e = absurd (cc)

        terminal :
            {o' : FallbackOutcome} {c : Option FallbackFailureCode}
            → IsTerminal o' c
            → is_claimed o' ≡ false
        terminal sent_plain = refl
        terminal (failed_with c) = refl

    FallbacksEvolve-completed :
        IsTerminal o code
        → (fs : List FallbackRecord) → FallbacksEvolve fs (complete_rows i o code now fs)
    unfolding complete_rows
    FallbacksEvolve-completed t [] = tt
    FallbacksEvolve-completed t (f ∷ fs) = elim (Bool-cases (is_open_claim i f)) [
      | inl e ↦ rw e (Settles-completed f t e, FallbacksEvolve-completed t fs)
      | inr e ↦ rw e (kept refl, FallbacksEvolve-completed t fs)
    ]

    NotifiedOnce-completed :
        (fs : List FallbackRecord) → NotifiedOnce fs → NotifiedOnce (complete_rows i o code now fs)
    unfolding complete_rows
    NotifiedOnce-completed [] h = tt
    NotifiedOnce-completed (f ∷ fs) h = elim (Bool-cases (is_open_claim i f)) [
      | inl e ↦
          rw e
            (has_record-complete_rows o code f.situation_id fs ∙ h.0, NotifiedOnce-completed fs h.1)
      | inr e ↦
          rw e
            (has_record-complete_rows o code f.situation_id fs ∙ h.0, NotifiedOnce-completed fs h.1)
    ]

    All-IsShaped-completed :
        IsTerminal o code
        → (fs : List FallbackRecord) → All IsShaped fs
        → All IsShaped (complete_rows i o code now fs)
    unfolding complete_rows
    All-IsShaped-completed t [] h = tt
    All-IsShaped-completed t (f ∷ fs) h = elim (Bool-cases (is_open_claim i f)) [
      | inl e ↦ rw e (IsShaped-completed t f, All-IsShaped-completed t fs h.1)
      | inr e ↦ rw e (h.0, All-IsShaped-completed t fs h.1)
    ]
      where
        IsShaped-completed :
            {o' : FallbackOutcome} {c : Option FallbackFailureCode}
            → IsTerminal o' c
            → (f' : FallbackRecord) → IsShaped (completed_record o' c now f')
        IsShaped-completed sent_plain f' = was_sent now refl refl refl
        IsShaped-completed (failed_with c) f' = has_failed now c refl refl refl

    pub complete-Advances : IsTerminal o code → Advances (complete i o code now)
    unfolding complete update_outcome
    complete-Advances t = Advances-transaction _ (
        Advances-bind _ _
          (record {
            at = λ db w. History-fallbacks db _ (record {
              evolve = FallbacksEvolve-completed t db.fallbacks;
              once = NotifiedOnce-completed db.fallbacks;
              shaped = All-IsShaped-completed t db.fallbacks;
            });
          })
          (λ b. Advances-if b _ _ (Advances-pure _) (Advances-raise _)))

pub record_sent-Advances : (now i : ℕ) → Advances (record_sent now i)
unfolding record_sent
record_sent-Advances now i = complete-Advances i now sent none sent_plain

pub record_failed-Advances :
    (now i : ℕ) (code : FallbackFailureCode) → Advances (record_failed now i code)
unfolding record_failed
record_failed-Advances now i code = complete-Advances i now failed (some code) (failed_with code)

-- What `complete` does: the open claim of the situation is completed and nothing else changes, or
-- there is none and the exception names the situation.
pub complete_lem :
    (i now : ℕ) (o : FallbackOutcome) (code : Option FallbackFailureCode) (db : Db)
    → complete i o code now db ≡ (
        if exists_where (is_open_claim i) db.fallbacks
        then (returned tt, record db { fallbacks = complete_rows i o code now db.fallbacks })
        else (raised (fallback_not_claimed i), db))
unfolding complete update_outcome ◌>>=◌ transaction
complete_lem i now o code db = elim (Bool-cases (exists_where (is_open_claim i) db.fallbacks)) [
  | inl e ↦ rw e refl
  | inr e ↦ rw e refl
]

-- While a situation has an open claim, `complete` with an outcome other than `claimed` returns, and
-- every later `complete` for the same situation, with any outcome and code, raises
-- FallbackNotClaimedError and changes nothing: the first outcome stands.
pub complete_once :
    (i now later : ℕ) (o o' : FallbackOutcome) (code code' : Option FallbackFailureCode) (db : Db)
    → is_claimed o ≡ false
    → exists_where (is_open_claim i) db.fallbacks ≡ true
    → ((complete i o code now db).0 ≡ returned tt)
      × (complete i o' code' later (complete i o code now db).1
          ≡ (raised (fallback_not_claimed i), (complete i o code now db).1))
complete_once i now later o o' code code' db terminal standing =
    rw (complete_lem i now o code db) (rw standing (refl, refused))
  where
    refused :
        complete i o' code' later
          (record db { fallbacks = complete_rows i o code now db.fallbacks })
        ≡ (
          raised (fallback_not_claimed i),
          record db { fallbacks = complete_rows i o code now db.fallbacks },
        )
    refused =
        rw (complete_lem i later o' code' _)
          (rw (complete_rows-closed i now o code db.fallbacks terminal) refl)
