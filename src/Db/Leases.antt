-- ===== src/Db/Leases.antt =====
-- The UNIQUE constraint on situation_delivery_claims.situation_id.
use proactive_mcp.Prelude.{
  ◌≡◌, refl, Bool, false, ◌||◌, List, [], ◌∷◌, ◌++◌, arith, Bool-cases, inl, inr, ◌==◌,
  exists_where, select_where,
}
use proactive_mcp.Db.Tables.{DeliveryLease}

-- No situation is leased twice (UNIQUE on situation_id).
abbrev pub LeasedOnce : List DeliveryLease → Type 0
LeasedOnce [] = Unit {0}
LeasedOnce (l ∷ ls) =
    (exists_where (λ k. k.situation_id == l.situation_id) ls ≡ false) × LeasedOnce ls

pub exists_where-append {ℓ} :
    {A : Type ℓ} (p : A → Bool) (xs ys : List A)
    → exists_where p (xs ++ ys) ≡ (exists_where p xs || exists_where p ys)
exists_where-append p [] ys = refl
exists_where-append p (x ∷ xs) ys = rw (exists_where-append p xs ys) (ground arith)

pub LeasedOnce-append :
    (ls : List DeliveryLease) (l : DeliveryLease)
    → LeasedOnce ls
    → exists_where (λ k. k.situation_id == l.situation_id) ls ≡ false
    → LeasedOnce (ls ++ l ∷ [])
LeasedOnce-append [] l h new = (refl, tt)
LeasedOnce-append (k ∷ ls) l h new = (
  rw (exists_where-append (λ q. q.situation_id == k.situation_id) ls (l ∷ []))
      (let old = h.0 in ground arith),
  LeasedOnce-append ls l h.1 (ground arith),
)

exists_where-select {ℓ} :
    {A : Type ℓ} (p q : A → Bool) (xs : List A)
    → exists_where p xs ≡ false
    → exists_where p (select_where q xs) ≡ false
exists_where-select p q [] h = refl
exists_where-select p q (x ∷ xs) h = elim (Bool-cases (q x)) [
  | inl e ↦ rw e (rw (exists_where-select p q xs (ground arith)) (ground arith))
  | inr e ↦ rw e (exists_where-select p q xs (ground arith))
]

pub LeasedOnce-select :
    (q : DeliveryLease → Bool) (ls : List DeliveryLease)
    → LeasedOnce ls
    → LeasedOnce (select_where q ls)
LeasedOnce-select q [] h = tt
LeasedOnce-select q (l ∷ ls) h = elim (Bool-cases (q l)) [
  | inl e ↦ rw e (
    exists_where-select (λ k. k.situation_id == l.situation_id) q ls h.0,
    LeasedOnce-select q ls h.1,
  )
  | inr e ↦ rw e (LeasedOnce-select q ls h.1)
]
