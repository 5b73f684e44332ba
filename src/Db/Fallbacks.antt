-- ===== src/Db/Fallbacks.antt =====
-- The table `situation_fallbacks`: its UNIQUE and CHECK constraints, and what its triggers allow.
use proactive_mcp.Prelude.{
  ℕ, ◌≡◌, refl, ◌∙◌, false, none, some, List, [], ◌∷◌, ◌++◌, arith, ◌==◌, All, All-append,
  exists_where,
}
use proactive_mcp.Db.Leases.{exists_where-append}
use proactive_mcp.Model.Fallback.{
  FallbackRecord, FallbackFailureCode, is_claimed, claimed, sent, failed,
}

-- CHECK((outcome = 'claimed') = (completed_at IS NULL)) and
-- CHECK((outcome = 'failed') = (failure_code IS NOT NULL))
pub data IsShaped (f : FallbackRecord) : Type 0 where
  open_claim : f.outcome ≡ claimed → f.completed_at ≡ none → f.failure_code ≡ none → IsShaped f
  was_sent :
      (at : ℕ) → f.outcome ≡ sent → f.completed_at ≡ some at → f.failure_code ≡ none → IsShaped f
  has_failed :
      (at : ℕ) (code : FallbackFailureCode)
      → f.outcome ≡ failed
      → f.completed_at ≡ some at
      → f.failure_code ≡ some code
      → IsShaped f

-- The trigger `situation_fallbacks_claim_is_immutable`: a record stays, or an open claim gets its
-- one terminal outcome, and the facts of the claim are kept.
pub data Settles (f g : FallbackRecord) : Type 0 where
  kept : g ≡ f → Settles f g
  settled :
      f.outcome ≡ claimed
      → is_claimed g.outcome ≡ false
      → g.situation_id ≡ f.situation_id
      → g.priority ≡ f.priority
      → g.claimed_at ≡ f.claimed_at
      → Settles f g

-- Records are appended and never deleted.
abbrev pub FallbacksEvolve : List FallbackRecord → List FallbackRecord → Type 0
FallbacksEvolve [] ys = Unit {0}
FallbacksEvolve (x ∷ xs) [] = ⊥
FallbacksEvolve (x ∷ xs) (y ∷ ys) = Settles x y × FallbacksEvolve xs ys

-- No situation has two records (UNIQUE on situation_id).
abbrev pub NotifiedOnce : List FallbackRecord → Type 0
NotifiedOnce [] = Unit {0}
NotifiedOnce (f ∷ fs) =
    (exists_where (λ g. g.situation_id == f.situation_id) fs ≡ false) × NotifiedOnce fs

Settles-trans : {f g h : FallbackRecord} → Settles f g → Settles g h → Settles f h
Settles-trans (kept e) (kept e') = kept (e' ∙ e)
Settles-trans {f} {g} {h} (kept e) (settled o t i p c) =
    settled (let x = o in cc) t (let x = i in cc) (let x = p in cc) (let x = c in cc)
Settles-trans {f} {g} {h} (settled o t i p c) (kept e) =
    settled o (let x = t in cc) (let x = i in cc) (let x = p in cc) (let x = c in cc)
Settles-trans (settled o t i p c) (settled o' t' i' p' c') = absurd (cc)

pub FallbacksEvolve-refl : (xs : List FallbackRecord) → FallbacksEvolve xs xs
FallbacksEvolve-refl [] = tt
FallbacksEvolve-refl (x ∷ xs) = (kept refl, FallbacksEvolve-refl xs)

FallbacksEvolve-trans :
    (xs ys zs : List FallbackRecord)
    → FallbacksEvolve xs ys
    → FallbacksEvolve ys zs
    → FallbacksEvolve xs zs
FallbacksEvolve-trans [] ys zs h k = tt
FallbacksEvolve-trans (x ∷ xs) [] zs h k = elim h [ ]
FallbacksEvolve-trans (x ∷ xs) (y ∷ ys) [] h k = elim k [ ]
FallbacksEvolve-trans (x ∷ xs) (y ∷ ys) (z ∷ zs) h k =
    (Settles-trans h.0 k.0, FallbacksEvolve-trans xs ys zs h.1 k.1)

FallbacksEvolve-append : (xs more : List FallbackRecord) → FallbacksEvolve xs (xs ++ more)
FallbacksEvolve-append [] more = tt
FallbacksEvolve-append (x ∷ xs) more = (kept refl, FallbacksEvolve-append xs more)

-- What a method may do to the table.
pub record FallbackHistory (before after : List FallbackRecord) : Type 0 where
  pub evolve : FallbacksEvolve before after
  pub once : NotifiedOnce before → NotifiedOnce after
  pub shaped : All IsShaped before → All IsShaped after

pub FallbackHistory-refl : (xs : List FallbackRecord) → FallbackHistory xs xs
FallbackHistory-refl xs = record {
  evolve = FallbacksEvolve-refl xs;
  once = λ h. h;
  shaped = λ h. h;
}

pub FallbackHistory-trans :
    {xs ys zs : List FallbackRecord}
    → FallbackHistory xs ys
    → FallbackHistory ys zs
    → FallbackHistory xs zs
FallbackHistory-trans {xs} {ys} {zs} h k = record {
  evolve = FallbacksEvolve-trans xs ys zs h.evolve k.evolve;
  once = λ o. k.once (h.once o);
  shaped = λ s. k.shaped (h.shaped s);
}

-- An INSERT of a claim for a situation that has no record.
pub FallbackHistory-append :
    (xs : List FallbackRecord) (f : FallbackRecord)
    → IsShaped f
    → exists_where (λ g. g.situation_id == f.situation_id) xs ≡ false
    → FallbackHistory xs (xs ++ f ∷ [])
FallbackHistory-append xs f shape new = record {
  evolve = FallbacksEvolve-append xs (f ∷ []);
  once = λ o. NotifiedOnce-append xs o new;
  shaped = λ s. All-append IsShaped xs (f ∷ []) s (shape, tt);
}
  where
    NotifiedOnce-append :
        (fs : List FallbackRecord)
        → NotifiedOnce fs
        → exists_where (λ g. g.situation_id == f.situation_id) fs ≡ false
        → NotifiedOnce (fs ++ f ∷ [])
    NotifiedOnce-append [] h n = (refl, tt)
    NotifiedOnce-append (k ∷ fs) h n = (
      rw (exists_where-append (λ q. q.situation_id == k.situation_id) fs (f ∷ []))
          (let old = h.0 in ground arith),
      NotifiedOnce-append fs h.1 (ground arith),
    )
