-- ===== src/Delivery/Claim/Outcome.antt =====
-- What a claim hands out and what it writes down.
use mathlib.Core.List.{append-nil, append_assoc}
use proactive_mcp.Prelude.{
  ℕ, ◌≤◌, ◌≡◌, refl, sym, ap, ◌∙◌, true, false, ◌&&◌, ◌||◌, ◌⊎◌, inl, inr, some, List, [], ◌∷◌,
  ◌++◌, map, arith, All, All-map, open_after, exists_where, ltb, ◌==◌, Bool-cases,
}
use proactive_mcp.Model.Situation.{
  Situation, SituationState, DeliveryClaim, pending, delivered, acknowledged, snoozed, muted,
  resolved, expired, is_critical, is_pending,
}
use proactive_mcp.Db.{Db, Delivery, returned, find_id}
use proactive_mcp.Situations.Statements.{deliver}
use proactive_mcp.Situations.Reader.{is_muted}
use proactive_mcp.Situations.Lifecycle.Keys.{WellFormed}
use proactive_mcp.Delivery.Eligibility.{cooled_down, is_consumable, source_eligible}
use proactive_mcp.Delivery.Claim.{may_claim, claim_for_delivery}
use proactive_mcp.Delivery.Claim.Step.{Takes, Takes-find_id, claimed_db, delivery_of}
use proactive_mcp.Delivery.Claim.Loop.{Runs, done, took, claim_for_delivery-Runs}

-- No delivery of the situation after the cutoff.
abbrev pub IsRested : ℕ → ℕ → List Delivery → Type 0
IsRested i cutoff deliveries = All (λ d. d.situation_id ≡ i → d.delivered_at ≤ cutoff) deliveries

-- The returned `t` is a pending row of the table, delivered, and it may be handed out at the claim's
-- time.
pub record IsHandedOut (claim : DeliveryClaim) (db : Db) (t : Situation) : Type 0 where
  pub row : Situation
  pub found : find_id row.id db.situations ≡ some row
  pub waiting : row.state ≡ pending
  pub same : t ≡ deliver claim.delivered_at row
  pub rested :
      (row.snooze_cooldown_exempt ≡ true) ⊎ IsRested row.id claim.cooldown_after db.deliveries
  pub state : t.state ≡ delivered
  pub time : t.delivered_at ≡ some claim.delivered_at
  pub unexpired : open_after t.expires_at claim.delivered_at ≡ true
  pub unmuted : is_muted db t.situation_type ≡ false
  pub allowed : (claim.allow_noncritical || is_critical t.priority) ≡ true
  pub current : source_eligible db t ≡ true

-- The subquery of the cooldown, delivery by delivery.
none_since :
    (i cutoff : ℕ) (deliveries : List Delivery)
    → exists_where (λ d. d.situation_id == i && ltb cutoff d.delivered_at) deliveries ≡ false
    → IsRested i cutoff deliveries
none_since i cutoff [] e = tt
none_since i cutoff (d ∷ rest) e =
    (λ mine. ground (arith, e, mine), none_since i cutoff rest (ground arith))

cooled_down-IsRested :
    (db : Db) (cutoff : ℕ) (s : Situation)
    → cooled_down db cutoff s ≡ true
    → (s.snooze_cooldown_exempt ≡ true) ⊎ IsRested s.id cutoff db.deliveries
unfolding cooled_down
cooled_down-IsRested db cutoff s e = elim (Bool-cases s.snooze_cooldown_exempt) [
  | inl exempt ↦ inl exempt
  | inr plain ↦ inr (none_since s.id cutoff db.deliveries (ground arith))
]

IsRested-before :
    (i cutoff : ℕ) (old new : List Delivery)
    → IsRested i cutoff (old ++ new)
    → IsRested i cutoff old
IsRested-before i cutoff [] new h = tt
IsRested-before i cutoff (d ∷ old) new h = (h.0, IsRested-before i cutoff old new h.1)

is_pending_lem : (s : SituationState) → is_pending s ≡ true → s ≡ pending
is_pending_lem pending e = refl
is_pending_lem delivered e = absurd (cc)
is_pending_lem acknowledged e = absurd (cc)
is_pending_lem snoozed e = absurd (cc)
is_pending_lem muted e = absurd (cc)
is_pending_lem resolved e = absurd (cc)
is_pending_lem expired e = absurd (cc)

module _ (claim : DeliveryClaim) (slots : ℕ) where
  handed_out :
      (db : Db) (s : Situation) (rows : List Situation)
      → Takes claim slots db s rows
      → IsHandedOut claim db (deliver claim.delivered_at s)
  unfolding deliver may_claim is_consumable source_eligible
  handed_out db s rows t =
      let eligible = t.eligible in
      record {
        row = s;
        found = t.found;
        waiting = is_pending_lem s.state (ground arith);
        same = refl;
        rested = cooled_down-IsRested db claim.cooldown_after s (ground arith);
        state = refl;
        time = refl;
        unexpired = ground arith;
        unmuted = ground arith;
        allowed = t.allowed;
        current = ground arith;
      }

  -- The row of a later turn is not the one that was just delivered.
  found_before :
      (db : Db) (s r : Situation) (rows : List Situation)
      → Takes claim slots db s rows
      → r.state ≡ pending
      → find_id r.id rows ≡ some r
      → find_id r.id db.situations ≡ some r
  unfolding deliver
  found_before db s r rows t waiting found =
      let standing = Takes-find_id claim slots db s rows t r.id in
      elim (Bool-cases (s.id == r.id)) [
        | inl same ↦
            let now : find_id r.id rows ≡ some (deliver claim.delivered_at s) =
              standing ∙ rw same refl in
            let one : deliver claim.delivered_at s ≡ r = cc in
            let over = ap (λ q. q.state) one in absurd (cc)
        | inr other ↦ sym (standing ∙ rw other refl) ∙ found
      ]

  rest_before :
      (db : Db) (s r : Situation)
      → (r.snooze_cooldown_exempt ≡ true)
        ⊎ IsRested r.id claim.cooldown_after
            (db.deliveries ++ delivery_of claim.delivered_at s ∷ [])
      → (r.snooze_cooldown_exempt ≡ true) ⊎ IsRested r.id claim.cooldown_after db.deliveries
  rest_before db s r (inl exempt) = inl exempt
  rest_before db s r (inr since) =
      inr (IsRested-before r.id claim.cooldown_after db.deliveries _ since)

  -- The mutes and the generations stay as they are.
  back :
      (db : Db) (s : Situation) (rows : List Situation) (t : Situation)
      → Takes claim slots db s rows
      → IsHandedOut claim (claimed_db claim db s rows) t
      → IsHandedOut claim db t
  unfolding is_muted source_eligible
  back db s rows t taken h = record {
    row = h.row;
    found = found_before db s h.row rows taken h.waiting h.found;
    waiting = h.waiting;
    same = h.same;
    rested = rest_before db s h.row h.rested;
    state = h.state;
    time = h.time;
    unexpired = h.unexpired;
    unmuted = h.unmuted;
    allowed = h.allowed;
    current = h.current;
  }

  All-IsHandedOut-back :
      (db : Db) (s : Situation) (rows : List Situation) (ts : List Situation)
      → Takes claim slots db s rows
      → All (IsHandedOut claim (claimed_db claim db s rows)) ts
      → All (IsHandedOut claim db) ts
  All-IsHandedOut-back db s rows ts taken h = All-map _ _ ts (λ t k. back db s rows t taken k) h

  Runs-IsHandedOut :
      {db after : Db} {taken : List Situation}
      → Runs claim slots db taken after
      → All (IsHandedOut claim db) taken
  Runs-IsHandedOut done = tt
  Runs-IsHandedOut (took {db = db} {rest = rest} s rows t more) =
      (handed_out db s rows t, All-IsHandedOut-back db s rows rest t (Runs-IsHandedOut more))

  Runs-deliveries :
      {db after : Db} {taken : List Situation}
      → Runs claim slots db taken after
      → after.deliveries ≡ db.deliveries ++ map (delivery_of claim.delivered_at) taken
  unfolding deliver
  Runs-deliveries (done {db = db}) = sym (append-nil db.deliveries)
  Runs-deliveries (took {db = db} {rest = rest} s rows t more) =
      Runs-deliveries more
      ∙ append_assoc db.deliveries (delivery_of claim.delivered_at s ∷ [])
          (map (delivery_of claim.delivered_at) rest)

-- On a well-formed table, `claim_for_delivery` returns, and each situation that it returns is a
-- pending row of the table, now delivered at the claim's time: it is exempt from the cooldown or was
-- not delivered after the cooldown's cutoff, is unexpired at the claim's time, is of a type that is
-- not muted, is critical if the claim allows no others, and is no reply deadline while Gmail's
-- detection is not current; the history of deliveries grows by exactly one record for each of them,
-- in their order.
pub claim_for_delivery_outcome :
    (claim : DeliveryClaim) (db : Db)
    → WellFormed db.situations
    → (taken : List Situation) × ((claim_for_delivery claim db).0 ≡ returned taken)
      × All (IsHandedOut claim db) taken
      × ((claim_for_delivery claim db).1.deliveries
          ≡ db.deliveries ++ map (delivery_of claim.delivered_at) taken)
claim_for_delivery_outcome claim db w =
    let (taken, after, ran, runs) = claim_for_delivery-Runs claim db w in
    (taken, rw ran refl, Runs-IsHandedOut claim _ runs, rw ran (Runs-deliveries claim _ runs))
