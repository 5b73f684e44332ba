-- ===== src/Delivery/Reserve/Loop.antt =====
-- The leasing loop as a chain of turns. It writes no row of `situations`, so a candidate is the
-- row that the statement sees.
use proactive_mcp.Prelude.{
  ℕ, String, ◌≡◌, refl, true, ◌||◌, some, List, [], ◌∷◌, ◌++◌, arith, All, All-map, All-take,
  All-select_where, Bool-cases, inl, inr, ltb,
}
use proactive_mcp.Prelude.Sort.{sort-All}
use proactive_mcp.Model.Situation.{Situation, DeliveryClaim, is_critical}
use proactive_mcp.Db.{Db, returned, ◌>>=◌, find_id, transaction}
use proactive_mcp.Situations.Reader.{pending_for_delivery, delivery_before}
use proactive_mcp.Situations.Lifecycle.Keys.{WellFormed}
use proactive_mcp.Delivery.Eligibility.{reserved_non_reply_slots, is_held}
use proactive_mcp.Delivery.Receipts.{expire_leases}
use proactive_mcp.Delivery.Claim.{max_delivery_candidates}
use proactive_mcp.Delivery.Claim.Loop.{Ascending-find_id}
use proactive_mcp.Delivery.Reserve.{
  may_reserve, lease_of, insert_lease, lease_row, reserve_one, reserve_each, reserve_candidates,
}

module _ (digest : String) (expires_at : ℕ) (claim : DeliveryClaim) where
  -- The database after a lease.
  abbrev pub leased_db : Db → Situation → Db
  leased_db db s = record db { leases = db.leases ++ lease_of digest expires_at claim s ∷ [] }

  module _ (slots : ℕ) where
    pub data Leases : Db → List Situation → Db → Type 0 where
      done : {db : Db} → Leases db [] db
      took :
          {db after : Db} {rest : List Situation} (c : Situation)
          → find_id c.id db.situations ≡ some c
          → may_reserve claim slots db c ≡ true
          → (claim.allow_noncritical || is_critical c.priority) ≡ true
          → Leases (leased_db db c) rest after
          → Leases db (c ∷ rest) after

    abbrev IsRow : Db → Situation → Type 0
    IsRow db c = find_id c.id db.situations ≡ some c

    -- The loop returns when the lease ends after it begins.
    pub reserve_each-Leases :
        ltb claim.delivered_at expires_at ≡ true
        → (cs : List Situation) (db : Db) → All (IsRow db) cs
        → (taken : List Situation) × (after : Db) × (reserve_each digest expires_at claim slots cs
              db
            ≡ (returned taken, after))
          × Leases db taken after
    unfolding reserve_each ◌>>=◌ reserve_one lease_row insert_lease
    reserve_each-Leases valid [] db h = ([], db, refl, done)
    reserve_each-Leases valid (c ∷ cs) db h = elim (Bool-cases (is_held claim c)) [
      | inl held ↦
          let (taken, after, ran, runs) = reserve_each-Leases valid cs db h.1 in
          (taken, after, rw held (rw ran refl), runs)
      | inr free ↦ elim (Bool-cases (may_reserve claim slots db c)) [
        | inl pass ↦
            let (taken, after, ran, runs) = reserve_each-Leases valid cs (leased_db db c) h.1 in
            (
              c ∷ taken,
              after,
              rw (free, h.0) (rw (pass, valid) (rw ran refl)),
              took c h.0 pass (ground arith) runs,
            )
        | inr fail ↦
            let (taken, after, ran, runs) = reserve_each-Leases valid cs db h.1 in
            (taken, after, rw (free, h.0) (rw fail (rw ran refl)), runs)
      ]
    ]

  -- The candidates are rows: ids are distinct.
  candidates-IsRow :
      (db : Db)
      → WellFormed db.situations
      → All (IsRow 0 db) (pending_for_delivery max_delivery_candidates db)
  unfolding pending_for_delivery
  candidates-IsRow db w =
      All-take _ max_delivery_candidates _
        (sort-All delivery_before _ _ (All-select_where _ _ _ rows))
    where
      rows : All (IsRow 0 db) db.situations
      rows =
          All-map _ (IsRow 0 db) db.situations (λ s h. h.1)
            (Ascending-find_id 0 db.situations w.ids)

  abbrev pub slots_of : Db → ℕ
  slots_of db =
      let expired = expire_leases claim.delivered_at db in
      reserved_non_reply_slots claim true (pending_for_delivery max_delivery_candidates expired)
        expired

  pub reserve_candidates-Leases :
      ltb claim.delivered_at expires_at ≡ true
      → (db : Db) → WellFormed db.situations
      → (taken : List Situation) × (after : Db) × (transaction
            (reserve_candidates digest expires_at claim)
            db
          ≡ (returned taken, after))
        × Leases (slots_of db) (expire_leases claim.delivered_at db) taken after
  unfolding reserve_candidates transaction ◌>>=◌
  reserve_candidates-Leases valid db w =
      let expired = expire_leases claim.delivered_at db in
      let (taken, after, ran, runs) =
        reserve_each-Leases (slots_of db) valid
          (pending_for_delivery max_delivery_candidates expired) expired
          (candidates-IsRow expired (still_well_formed w)) in
      (taken, after, rw ran refl, runs)
    where
      still_well_formed :
          WellFormed db.situations → WellFormed (expire_leases claim.delivered_at db).situations
      still_well_formed h = unfold expire_leases in h
