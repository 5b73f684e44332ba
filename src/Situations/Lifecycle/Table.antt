-- ===== src/Situations/Lifecycle/Table.antt =====
-- The life of a whole table: rows move along the state machine in their places, and new rows are
-- inserted behind them. Nothing is deleted.
use proactive_mcp.Prelude.{
  ℕ, String, ◌≡◌, Bool, true, false, ◌==◌, some, List, [], ◌∷◌, ◌++◌, arith, All, Bool-cases,
  Option-cases, inl, inr, subst,
}
use proactive_mcp.Model.Situation.{Situation, SituationType}
use proactive_mcp.Db.{find_id, update_id, update_where}
use proactive_mcp.Situations.Statements.{RowUpdate, inserted}
use proactive_mcp.Situations.Lifecycle.{RowStep, Reach, here, Reach-step, Reach-trans}
use proactive_mcp.Situations.Lifecycle.Invariant.{
  Reach-SameIdentity, IsConsistent, Reach-IsConsistent,
}

-- A row that came from an INSERT.
pub data Arises (t : Situation) : Type 0 where
  from :
      (i : ℕ) (kind : SituationType) (key : String) (u : RowUpdate) (now : ℕ)
      → Reach (inserted i kind key u now) t
      → Arises t

abbrev pub Evolves : List Situation → List Situation → Type 0
Evolves [] ys = All Arises ys
Evolves (x ∷ xs) [] = ⊥
Evolves (x ∷ xs) (y ∷ ys) = Reach x y × Evolves xs ys

pub Evolves-refl : (xs : List Situation) → Evolves xs xs
Evolves-refl [] = tt
Evolves-refl (x ∷ xs) = (here, Evolves-refl xs)

Arises-Reach : {s t : Situation} → Arises s → Reach s t → Arises t
Arises-Reach (from i kind key u now r) q = from i kind key u now (Reach-trans r q)

All-Arises-Evolves : (xs ys : List Situation) → All Arises xs → Evolves xs ys → All Arises ys
All-Arises-Evolves [] ys a e = e
All-Arises-Evolves (x ∷ xs) [] a e = elim e [ ]
All-Arises-Evolves (x ∷ xs) (y ∷ ys) a e = (Arises-Reach a.0 e.0, All-Arises-Evolves xs ys a.1 e.1)

pub Evolves-trans : (xs ys zs : List Situation) → Evolves xs ys → Evolves ys zs → Evolves xs zs
Evolves-trans [] ys zs e f = All-Arises-Evolves ys zs e f
Evolves-trans (x ∷ xs) [] zs e f = elim e [ ]
Evolves-trans (x ∷ xs) (y ∷ ys) [] e f = elim f [ ]
Evolves-trans (x ∷ xs) (y ∷ ys) (z ∷ zs) e f = (Reach-trans e.0 f.0, Evolves-trans xs ys zs e.1 f.1)

-- A statement on one row, which may take the step.
pub Evolves-update_id :
    (i : ℕ) (test : Situation → Bool) (change : Situation → Situation) (xs ys : List Situation)
    → ((s : Situation) → find_id i xs ≡ some s → test s ≡ true → RowStep s (change s))
    → update_id i test change xs ≡ some ys
    → Evolves xs ys
unfolding update_id find_id
Evolves-update_id i test change [] ys step h = cc
Evolves-update_id i test change (x ∷ xs) ys step h = elim (Bool-cases (x.id == i)) [
  | inl hit ↦ elim (Bool-cases (test x)) [
    | inl pass ↦ rw (updated hit pass) (Reach-step (step x (ground arith) pass), Evolves-refl xs)
    | inr fail ↦ ground arith
  ]
  | inr miss ↦ elim (Option-cases (update_id i test change xs)) [
    | inl gone ↦ ground arith
    | inr (more, e) ↦
        rw (passed_by miss more e)
          (here, Evolves-update_id i test change xs more (λ s f. step s (ground arith)) e)
  ]
]
  where
    updated : (x.id == i) ≡ true → test x ≡ true → ys ≡ change x ∷ xs
    updated hit pass = ground arith

    passed_by :
        (x.id == i) ≡ false
        → (more : List Situation) → update_id i test change xs ≡ some more
        → ys ≡ x ∷ more
    passed_by miss more e = ground arith

-- A statement on the whole table.
pub Evolves-update_where :
    (test : Situation → Bool) (change : Situation → Situation) (xs : List Situation)
    → ((s : Situation) → test s ≡ true → RowStep s (change s))
    → Evolves xs (update_where test change xs)
unfolding update_where
Evolves-update_where test change [] step = tt
Evolves-update_where test change (x ∷ xs) step = elim (Bool-cases (test x)) [
  | inl pass ↦ rw pass (Reach-step (step x pass), Evolves-update_where test change xs step)
  | inr fail ↦ rw fail (here, Evolves-update_where test change xs step)
]

pub Evolves-insert :
    (xs : List Situation) (i : ℕ) (kind : SituationType) (key : String) (u : RowUpdate) (now : ℕ)
    → Evolves xs (xs ++ inserted i kind key u now ∷ [])
Evolves-insert [] i kind key u now = (from i kind key u now here, tt)
Evolves-insert (x ∷ xs) i kind key u now = (here, Evolves-insert xs i kind key u now)

-- A row that was there is there still, under its id, further along its life.
pub Evolves-find_id :
    (i : ℕ) (xs ys : List Situation) (s : Situation)
    → Evolves xs ys
    → find_id i xs ≡ some s
    → (t : Situation) × (find_id i ys ≡ some t) × Reach s t
unfolding find_id
Evolves-find_id i [] ys s e h = cc
Evolves-find_id i (x ∷ xs) [] s e h = elim e [ ]
Evolves-find_id i (x ∷ xs) (y ∷ ys) s e h = elim (Bool-cases (x.id == i)) [
  | inl hit ↦ (y, ground (arith, same), subst (λ r. Reach r y) (ground arith) e.0)
  | inr miss ↦
      let (t, found, r) = Evolves-find_id i xs ys s e.1 (ground arith) in
      (t, ground (arith, same), r)
]
  where
    same : y.id ≡ x.id
    same = (Reach-SameIdentity e.0).same_id

inserted-IsConsistent :
    (i : ℕ) (kind : SituationType) (key : String) (u : RowUpdate) (now : ℕ)
    → IsConsistent (inserted i kind key u now)
unfolding inserted
inserted-IsConsistent i kind key u now = grind arith

Arises-IsConsistent : {t : Situation} → Arises t → IsConsistent t
Arises-IsConsistent (from i kind key u now r) =
    Reach-IsConsistent r (inserted-IsConsistent i kind key u now)

pub Evolves-IsConsistent :
    (xs ys : List Situation) → Evolves xs ys → All IsConsistent xs → All IsConsistent ys
Evolves-IsConsistent [] [] e c = tt
Evolves-IsConsistent [] (y ∷ ys) e c = (Arises-IsConsistent e.0, Evolves-IsConsistent [] ys e.1 tt)
Evolves-IsConsistent (x ∷ xs) [] e c = elim e [ ]
Evolves-IsConsistent (x ∷ xs) (y ∷ ys) e c =
    (Reach-IsConsistent e.0 c.0, Evolves-IsConsistent xs ys e.1 c.1)
