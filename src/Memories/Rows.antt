-- ===== src/Memories/Rows.antt =====
-- The row under an id, and what the statements on `memory_items` do to it.
use proactive_mcp.Prelude.{
  ℕ, ◌<◌, ◌≡◌, refl, ap, subst, Bool, true, false, Option, none, some, List, [], ◌∷◌, ◌++◌, arith,
  All, Bool-cases, inl, inr, ◌==◌, ==_refl, first_where, exists_where,
}
use proactive_mcp.Model.Memory.{MemoryRow}
use proactive_mcp.Memories.Items.{update_memory, touched}
use proactive_mcp.Memories.Unique.{DistinctIds}

-- The row under an id
abbrev pub row_of : ℕ → List MemoryRow → Option MemoryRow
row_of j rows = first_where (λ q. q.id == j) rows

pub row_of-none : (j : ℕ) (rows : List MemoryRow) → All (λ q. q.id < j) rows → row_of j rows ≡ none
row_of-none j [] h = refl
row_of-none j (q ∷ rows) h = ground (arith, row_of-none j rows h.1, h.0)

pub row_of-new :
    (rows : List MemoryRow) (n : MemoryRow)
    → All (λ q. q.id < n.id) rows
    → row_of n.id (rows ++ n ∷ []) ≡ some n
row_of-new [] n h = rw (==_refl n.id) refl
row_of-new (q ∷ rows) n h = ground (arith, row_of-new rows n h.1, h.0)

pub row_of-append :
    (j : ℕ) (rows : List MemoryRow) (n : MemoryRow)
    → (n.id == j) ≡ false
    → row_of j (rows ++ n ∷ []) ≡ row_of j rows
row_of-append j [] n other = rw other refl
row_of-append j (q ∷ rows) n other = rw (row_of-append j rows n other) refl

pub row_of-update :
    (i now : ℕ) (rows : List MemoryRow) (old : MemoryRow)
    → row_of i rows ≡ some old
    → row_of i (update_memory i (touched now) rows) ≡ some (touched now old)
unfolding update_memory
row_of-update i now [] old e = absurd (cc)
row_of-update i now (q ∷ rows) old e = elim (Bool-cases (q.id == i)) [
  | inl same ↦
      let k = rw same at e in
      let one : q ≡ old = cc in rw (same, same) (ap (λ x. some (touched now x)) one)
  | inr other ↦
      let k = rw other at e in let rest = row_of-update i now rows old k in rw (other, other) rest
]

pub row_of-update_other :
    (i j now : ℕ) (rows : List MemoryRow)
    → (i == j) ≡ false
    → row_of j (update_memory i (touched now) rows) ≡ row_of j rows
unfolding update_memory
row_of-update_other i j now [] other = refl
row_of-update_other i j now (q ∷ rows) other =
    let rest = row_of-update_other i j now rows other in ground arith

-- A row that a lookup finds is the row under its id.
found-absent :
    (p : MemoryRow → Bool) (i : ℕ) (rows : List MemoryRow) (old : MemoryRow)
    → exists_where (λ r. r.id == i) rows ≡ false
    → first_where p rows ≡ some old
    → (old.id == i) ≡ false
found-absent p i [] old absent e = absurd (cc)
found-absent p i (q ∷ rows) old absent e = elim (Bool-cases (p q)) [
  | inl hit ↦
      let k = rw hit at e in
      let one : q ≡ old = cc in subst (λ x. (x.id == i) ≡ false) one (ground arith)
  | inr miss ↦ let k = rw miss at e in found-absent p i rows old (ground arith) k
]

pub found-row_of :
    (p : MemoryRow → Bool) (rows : List MemoryRow) (old : MemoryRow)
    → DistinctIds rows
    → first_where p rows ≡ some old
    → (row_of old.id rows ≡ some old) × (p old ≡ true)
found-row_of p [] old d e = absurd (cc)
found-row_of p (q ∷ rows) old d e = elim (Bool-cases (p q)) [
  | inl hit ↦
      let k = rw hit at e in
      let one : q ≡ old = cc in
      subst (λ x. (row_of x.id (q ∷ rows) ≡ some x) × (p x ≡ true)) one
        (rw (==_refl q.id) refl, hit)
  | inr miss ↦
      let k = rw miss at e in
      let (found, pass) = found-row_of p rows old d.1 k in
      let other = found-absent p q.id rows old d.0 k in (ground (arith, other, found), pass)
]
