-- ===== src/Db/Rows.antt =====
-- Statements on one row: `id` is the primary key, so a WHERE on it meets at most one row.
use proactive_mcp.Prelude.{
  Option-cases, ◌⊎◌, ℕ, ◌≡◌, refl, Bool, true, false, Option, none, some, List, [], ◌∷◌, arith,
  ◌==◌, if◌then◌else◌, Bool-cases, inl, inr,
}
use mathlib.Core.Option
use proactive_mcp.Model.Situation.{Situation}

-- SELECT … WHERE id = ?
unfoldable pub find_id : ℕ → List Situation → Option Situation
find_id i [] = none
find_id i (s ∷ rest) = if s.id == i then some s else find_id i rest

-- UPDATE … SET change WHERE id = ? AND test; `none` means that the rowcount is 0.
unfoldable pub update_id :
    ℕ → (Situation → Bool) → (Situation → Situation) → List Situation → Option (List Situation)
update_id i test change [] = none
update_id i test change (s ∷ rest) =
    let later = Option.map (λ r. s ∷ r) (update_id i test change rest) in
    if s.id == i then (if test s then some (change s ∷ rest) else none) else later

-- UPDATE … SET change WHERE test, over the whole table: the rows, and the rowcount.
unfoldable pub update_where :
    (Situation → Bool) → (Situation → Situation) → List Situation → List Situation
update_where test change [] = []
update_where test change (s ∷ rest) =
    (if test s then change s else s) ∷ update_where test change rest

pub find_id-id :
    (i : ℕ) (rows : List Situation) (s : Situation) → find_id i rows ≡ some s → s.id ≡ i
unfolding find_id
find_id-id i [] s h = cc
find_id-id i (r ∷ rows) s h = ground (arith, find_id-id i rows s)

module _ (i : ℕ) (test : Situation → Bool) (change : Situation → Situation)
    (keeps : (s : Situation) → (change s).id ≡ s.id) where
  -- The update found a row that passes the test, and that row is changed.
  pub update_id-found :
      (rows after : List Situation)
      → update_id i test change rows ≡ some after
      → (s : Situation) × (find_id i rows ≡ some s)
        × (test s ≡ true)
        × (find_id i after ≡ some (change s))
  unfolding update_id find_id
  update_id-found [] after h = cc
  update_id-found (r ∷ rows) after h = elim (Bool-cases (r.id == i)) [
    | inl hit ↦ elim (Bool-cases (test r)) [
      | inl pass ↦ (r, rw hit, pass, ground (arith, keeps r))
      | inr fail ↦ cc
    ]
    | inr miss ↦ elim (Option-cases (update_id i test change rows)) [
      | inl gone ↦ ground arith
      | inr (more, e) ↦
          let (s, found, pass, changed) = update_id-found rows more e in
          (s, ground arith, pass, ground arith)
    ]
  ]

  -- Every other row is as it was.
  pub update_id-ne :
      (rows after : List Situation) (j : ℕ)
      → (i == j) ≡ false
      → update_id i test change rows ≡ some after
      → find_id j after ≡ find_id j rows
  unfolding update_id find_id
  update_id-ne [] after j ne h = cc
  update_id-ne (r ∷ rows) after j ne h = elim (Option-cases (update_id i test change rows)) [
    | inl gone ↦ ground (arith, keeps r)
    | inr (more, e) ↦ ground (arith, keeps r, update_id-ne rows more j ne e)
  ]

  -- It refuses when no row has the id, or the row fails the test.
  pub update_id-none :
      (rows : List Situation)
      → update_id i test change rows ≡ none
      → (find_id i rows ≡ none) ⊎ ((s : Situation) × (find_id i rows ≡ some s) × (test s ≡ false))
  unfolding update_id find_id
  update_id-none [] h = inl refl
  update_id-none (r ∷ rows) h = elim (Bool-cases (r.id == i)) [
    | inl hit ↦ elim (Bool-cases (test r)) [
      | inl pass ↦ ground arith
      | inr fail ↦ inr (r, rw hit, fail)
    ]
    | inr miss ↦ elim (update_id-none rows (ground arith)) [
      | inl gone ↦ inl (ground arith)
      | inr (s, found, fail) ↦ inr (s, ground arith, fail)
    ]
  ]
