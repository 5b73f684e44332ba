-- ===== src/Fallbacks/Claim.antt =====
-- What `claim_next` claims and what it writes.
use proactive_mcp.Prelude.{
  ◌≡◌, refl, true, false, ◌⊎◌, inl, inr, Option, none, some, List, [], ◌∷◌, ◌++◌, arith, All,
  All-map, Bool-cases, All-selected, All-unselected,
}
use proactive_mcp.Prelude.Sort.{sort-All, sort_head, All-sort}
use proactive_mcp.Model.Situation.{Situation}
use proactive_mcp.Model.Fallback.{FallbackClaim, FallbackClaimMode, configured_mode, bootstrap_mode}
use proactive_mcp.Db.{Db, Outcome, returned, transaction, ◌>>=◌, find_id}
use proactive_mcp.Situations.Lifecycle.Keys.{WellFormed}
use proactive_mcp.Delivery.Claim.Loop.{Ascending-find_id}
use proactive_mcp.Fallbacks.{
  is_eligible, fallback_before, candidates, claimed_record, insert_claim, insert_selected,
  claim_first, claim_next,
}

before_asym :
    (mode : FallbackClaimMode) (a b : Situation)
    → fallback_before mode a b ≡ true
    → fallback_before mode b a ≡ false
unfolding fallback_before
before_asym configured_mode a b h = ground arith
before_asym bootstrap_mode a b h = ground arith

before_negtrans :
    (mode : FallbackClaimMode) (a b c : Situation)
    → fallback_before mode a b ≡ false
    → fallback_before mode b c ≡ false
    → fallback_before mode a c ≡ false
unfolding fallback_before
before_negtrans configured_mode a b c h k = ground arith
before_negtrans bootstrap_mode a b c h k = ground arith

-- A row that a claim may take.
pub record IsCandidate (claim : FallbackClaim) (db : Db) (s : Situation) : Type 0 where
  pub found : find_id s.id db.situations ≡ some s
  pub eligible : is_eligible claim db s ≡ true

-- The database after a claim.
abbrev pub claimed_db : FallbackClaim → Db → Situation → Db
claimed_db claim db s = record db { fallbacks = db.fallbacks ++ claimed_record claim s ∷ [] }

candidates-IsCandidate :
    (claim : FallbackClaim) (db : Db)
    → WellFormed db.situations
    → All (IsCandidate claim db) (candidates claim db)
unfolding candidates
candidates-IsCandidate claim db w = sort-All (fallback_before claim.mode) _ _ (
    All-map _ _ _ (λ s h. record { found = h.0.1; eligible = h.1 })
      (All-selected _ (is_eligible claim db) db.situations
        (Ascending-find_id 0 db.situations w.ids)))

insert_claim_lem :
    (claim : FallbackClaim) (db : Db) (s : Situation)
    → IsCandidate claim db s
    → insert_claim claim s.id db ≡ (returned true, claimed_db claim db s)
unfolding insert_claim insert_selected
insert_claim_lem claim db s c = rw (c.found) (rw (c.eligible) refl)

-- What a claim did: it found no row, or took a row of the first rank.
pub data Claimed (claim : FallbackClaim) (db : Db) : Outcome (Option Situation) × Db → Type 0 where
  none_left :
      All (λ t. is_eligible claim db t ≡ false) db.situations → Claimed claim db (returned none, db)
  took :
      (s : Situation)
      → IsCandidate claim db s
      → All
          (λ t. is_eligible claim db t ≡ true → fallback_before claim.mode t s ≡ false)
          db.situations
      → Claimed claim db (returned (some s), claimed_db claim db s)

-- What holds of the candidates holds of the eligible rows.
All-candidates :
    (claim : FallbackClaim) (db : Db) (P : Situation → Type 0)
    → All P (candidates claim db)
    → All (λ t. is_eligible claim db t ≡ true → P t) db.situations
unfolding candidates
All-candidates claim db P h =
    All-unselected P (is_eligible claim db) db.situations
      (All-sort (fallback_before claim.mode) P _ h)

not_eligible :
    (claim : FallbackClaim) (db : Db) (t : Situation)
    → (is_eligible claim db t ≡ true → ⊥)
    → is_eligible claim db t ≡ false
not_eligible claim db t refuted = elim (Bool-cases (is_eligible claim db t)) [
  | inl e ↦ absurd (refuted e)
  | inr e ↦ e
]

candidates-least :
    (claim : FallbackClaim) (db : Db) (c : Situation) (cs : List Situation)
    → candidates claim db ≡ c ∷ cs
    → All (λ t. fallback_before claim.mode t c ≡ false) (candidates claim db)
unfolding candidates
candidates-least claim db c cs e =
    sort_head (fallback_before claim.mode) (before_asym claim.mode) (before_negtrans claim.mode) _ c
      cs e

claim_first_lem :
    (claim : FallbackClaim) (db : Db) (cs : List Situation)
    → candidates claim db ≡ cs
    → All (IsCandidate claim db) cs
    → Claimed claim db (claim_first claim cs db)
unfolding claim_first ◌>>=◌
claim_first_lem claim db [] e h = none_left (
    All-map _ _ _ (λ t refuted. not_eligible claim db t refuted)
      (All-candidates claim db (λ _. ⊥) (rw e tt)))
claim_first_lem claim db (c ∷ cs) e h =
    rw (insert_claim_lem claim db c h.0)
      (took c h.0 (All-candidates claim db _ (candidates-least claim db c cs e)))

-- On a well-formed table, `claim_next` returns: either no row is eligible and nothing changes, or it
-- returns a row of the table that is eligible and that no eligible row precedes in the order of the
-- claim's mode, and what it writes is one record of an open claim for that row.
pub claim_next_outcome :
    (claim : FallbackClaim) (db : Db)
    → WellFormed db.situations
    → Claimed claim db (claim_next claim db)
unfolding claim_next ◌>>=◌ transaction
claim_next_outcome claim db w =
    settled
      (claim_first_lem claim db (candidates claim db) refl (candidates-IsCandidate claim db w))
  where
    settled :
        {r : Outcome (Option Situation) × Db}
        → Claimed claim db r
        → Claimed claim db (transaction (λ _. r) db)
    settled (none_left a) = none_left a
    settled (took s c least) = took s c least

pub Claimed-cases :
    (claim : FallbackClaim) (db : Db) (r : Outcome (Option Situation) × Db)
    → Claimed claim db r
    → ((r ≡ (returned none, db)) × All (λ t. is_eligible claim db t ≡ false) db.situations)
      ⊎ ((s : Situation) × IsCandidate claim db s
          × (r ≡ (returned (some s), claimed_db claim db s)))
Claimed-cases claim db _ (none_left a) = inl (refl, a)
Claimed-cases claim db _ (took s c least) = inr (s, c, refl)
