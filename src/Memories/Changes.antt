-- ===== src/Memories/Changes.antt =====
-- UPDATE statements on `memory_items` keep the unique indexes.
use proactive_mcp.Prelude.{
  ℕ, ◌≡◌, refl, subst, ◌∙◌, true, false, List, [], ◌∷◌, arith, All, Bool-cases, inl, inr, ◌==◌,
  ==→eq, exists_where,
}
use proactive_mcp.Model.Memory.{MemoryRow}
use proactive_mcp.Memories.Items.{update_memory}
use proactive_mcp.Memories.Unique.{clashes, clashes-false, UniqueDated, DistinctIds, IsSound}

module _ (i : ℕ) (change : MemoryRow → MemoryRow)
    (keeps_id : (r : MemoryRow) → (change r).id ≡ r.id) where
  has_id-update :
      (j : ℕ) (rows : List MemoryRow)
      → exists_where (λ r. r.id == j) (update_memory i change rows)
        ≡ exists_where (λ r. r.id == j) rows
  unfolding update_memory
  has_id-update j [] = refl
  has_id-update j (r ∷ rows) = ground (arith, keeps_id r, has_id-update j rows)

  DistinctIds-update :
      (rows : List MemoryRow) → DistinctIds rows → DistinctIds (update_memory i change rows)
  unfolding update_memory
  DistinctIds-update [] h = tt
  DistinctIds-update (r ∷ rows) h = elim (Bool-cases (r.id == i)) [
    | inl e ↦ rw (e, keeps_id r) (has_id-update r.id rows ∙ h.0, DistinctIds-update rows h.1)
    | inr e ↦ rw e (has_id-update r.id rows ∙ h.0, DistinctIds-update rows h.1)
  ]

  -- A change after which a row clashes with no more rows.
  module _ (fewer : (r x : MemoryRow) → clashes (change r) x ≡ true → clashes r x ≡ true) where
    fewer_left : (r x : MemoryRow) → clashes r x ≡ false → clashes (change r) x ≡ false
    fewer_left r x h = elim (Bool-cases (clashes (change r) x)) [
      | inl e ↦ let back = fewer r x e in absurd (cc)
      | inr e ↦ e
    ]

    fewer_right : (r x : MemoryRow) → clashes x r ≡ false → clashes x (change r) ≡ false
    fewer_right r x h = clashes-false (change r) x (fewer_left r x (clashes-false x r h))

    no_clash-update :
        (x : MemoryRow) (rows : List MemoryRow)
        → exists_where (clashes x) rows ≡ false
        → exists_where (clashes x) (update_memory i change rows) ≡ false
    unfolding update_memory
    no_clash-update x [] h = refl
    no_clash-update x (r ∷ rows) h =
        let rest = no_clash-update x rows (ground arith) in
        let head = fewer_right r x (ground arith) in ground arith

    no_clash-left :
        (r : MemoryRow) (rows : List MemoryRow)
        → exists_where (clashes r) rows ≡ false
        → exists_where (clashes (change r)) rows ≡ false
    no_clash-left r [] h = refl
    no_clash-left r (x ∷ rows) h =
        let rest = no_clash-left r rows (ground arith) in
        let head = fewer_left r x (ground arith) in ground arith

    UniqueDated-weaken :
        (rows : List MemoryRow) → UniqueDated rows → UniqueDated (update_memory i change rows)
    unfolding update_memory
    UniqueDated-weaken [] h = tt
    UniqueDated-weaken (r ∷ rows) h = elim (Bool-cases (r.id == i)) [
      | inl e ↦ rw e (no_clash-left r _ (no_clash-update r rows h.0), UniqueDated-weaken rows h.1)
      | inr e ↦ rw e (no_clash-update r rows h.0, UniqueDated-weaken rows h.1)
    ]

    pub IsSound-weaken :
        (rows : List MemoryRow) → IsSound rows → IsSound (update_memory i change rows)
    IsSound-weaken rows s = record {
      ids = DistinctIds-update rows s.ids;
      dated = UniqueDated-weaken rows s.dated;
    }

  -- No row has the id.
  update_memory-absent :
      (rows : List MemoryRow)
      → exists_where (λ r. r.id == i) rows ≡ false
      → update_memory i change rows ≡ rows
  unfolding update_memory
  update_memory-absent [] h = refl
  update_memory-absent (r ∷ rows) h =
      let rest = update_memory-absent rows (ground arith) in
      let miss : (r.id == i) ≡ false = ground arith in rw (miss, rest) refl

  -- A change after which the row clashes with none of the others.
  abbrev pub Others : MemoryRow → List MemoryRow → Type 0
  Others r rows = All (λ x. (x.id == i) ≡ false → clashes (change r) x ≡ false) rows

  no_clash-Others :
      (r : MemoryRow) (rows : List MemoryRow)
      → exists_where (λ x. x.id == i) rows ≡ false
      → Others r rows
      → exists_where (clashes (change r)) rows ≡ false
  no_clash-Others r [] h o = refl
  no_clash-Others r (x ∷ rows) h o =
      let head = o.0 (ground arith) in
      let rest = no_clash-Others r rows (ground arith) o.1 in ground arith

  no_clash-replaced :
      (x : MemoryRow) (rows : List MemoryRow)
      → ((r : MemoryRow) → clashes (change r) x ≡ false)
      → exists_where (clashes x) rows ≡ false
      → exists_where (clashes x) (update_memory i change rows) ≡ false
  unfolding update_memory
  no_clash-replaced x [] c h = refl
  no_clash-replaced x (r ∷ rows) c h =
      let rest = no_clash-replaced x rows c (ground arith) in
      let head = clashes-false (change r) x (c r) in ground arith

  UniqueDated-replace :
      (rows : List MemoryRow)
      → ((r : MemoryRow) → Others r rows)
      → DistinctIds rows
      → UniqueDated rows
      → UniqueDated (update_memory i change rows)
  unfolding update_memory
  UniqueDated-replace [] o d h = tt
  UniqueDated-replace (r ∷ rows) o d h = elim (Bool-cases (r.id == i)) [
    | inl e ↦
        let absent : exists_where (λ x. x.id == i) rows ≡ false =
          subst (λ j. exists_where (λ x. x.id == j) rows ≡ false) (==→eq r.id i e) d.0 in
        rw (e, update_memory-absent rows absent) (no_clash-Others r rows absent (o r).1, h.1)
    | inr e ↦ rw e (
      no_clash-replaced r rows (λ q. (o q).0 e) h.0,
      UniqueDated-replace rows (λ q. (o q).1) d.1 h.1,
    )
  ]

  pub IsSound-replace :
      (rows : List MemoryRow)
      → ((r : MemoryRow) → Others r rows)
      → IsSound rows
      → IsSound (update_memory i change rows)
  IsSound-replace rows o s = record {
    ids = DistinctIds-update rows s.ids;
    dated = UniqueDated-replace rows o s.ids s.dated;
  }
