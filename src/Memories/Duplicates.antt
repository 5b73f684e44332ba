-- ===== src/Memories/Duplicates.antt =====
-- The lookup of a dated memory: the row that it finds.
use proactive_mcp.Prelude.{
  ℕ, ◌≡◌, refl, sym, ◌∙◌, ap, subst, String, true, false, ◌&&◌, Option, none, some, List, arith,
  Bool-cases, inl, inr, str_eq_iff, first_where,
}
use proactive_mcp.Model.Memory.{
  NewMemory, MemoryRow, MemoryAttribute, free, birthday, anniversary, deadline, relationship,
  is_free, attribute_index,
}
use proactive_mcp.Memories.Items.{
  DatedKey, free_key, fact_key, matches, dated_key, fact_key_of, equals_text, lookup_key, id_of_row,
}
use proactive_mcp.Memories.Unique.{DistinctIds}
use proactive_mcp.Memories.Rows.{row_of, found-row_of}

equals_text-some : (d : Option String) (t : String) → equals_text d t ≡ true → d ≡ some t
equals_text-some none t h = absurd (cc)
equals_text-some (some s) t h = ap some ((str_eq_iff s t).0 h)

is_free-index : (a : MemoryAttribute) → is_free a ≡ true → attribute_index a ≡ 4
is_free-index free h = refl
is_free-index birthday h = absurd (cc)
is_free-index anniversary h = absurd (cc)
is_free-index deadline h = absurd (cc)
is_free-index relationship h = absurd (cc)

-- What the lookup of a memory's key asks of a row
pub record IsDuplicate (m : NewMemory) (content : String) (old : MemoryRow) : Type 0 where
  pub active : old.archived ≡ false
  pub anchor : old.date_anchor ≡ m.date_anchor
  pub attribute : attribute_index old.attribute ≡ attribute_index m.attribute
  pub text : is_free m.attribute ≡ true → old.content_norm ≡ content

matches-free :
    (m : NewMemory) (entity : Option ℕ) (t content : String) (old : MemoryRow)
    → m.date_anchor ≡ some t
    → is_free m.attribute ≡ true
    → matches (free_key m.kind entity t m.recurrence content) old ≡ true
    → IsDuplicate m content old
unfolding matches
matches-free m entity t content old e unbound h = record {
  active = ground arith;
  anchor = equals_text-some old.date_anchor t (ground arith) ∙ sym e;
  attribute = is_free-index old.attribute (ground arith) ∙ sym (is_free-index m.attribute unbound);
  text = λ _. (str_eq_iff old.content_norm content).0 (ground arith);
}

matches-fact :
    (m : NewMemory) (i : ℕ) (t content : String) (old : MemoryRow)
    → m.date_anchor ≡ some t
    → is_free m.attribute ≡ false
    → matches (fact_key i m.attribute t) old ≡ true
    → IsDuplicate m content old
unfolding matches
matches-fact m i t content old e bound h = record {
  active = ground arith;
  anchor = equals_text-some old.date_anchor t (ground arith) ∙ sym e;
  attribute = ground arith;
  text = λ free. absurd (cc);
}

key-IsDuplicate :
    (m : NewMemory) (entity : Option ℕ) (content : String) (anchor : Option String) (key : DatedKey)
    (old : MemoryRow)
    → m.date_anchor ≡ anchor
    → dated_key m.kind entity m.attribute anchor m.recurrence content ≡ some key
    → matches key old ≡ true
    → IsDuplicate m content old
key-IsDuplicate m entity content none key old e k h = absurd (cc)
key-IsDuplicate m entity content (some t) key old e k h = elim (Bool-cases (is_free m.attribute)) [
  | inl unbound ↦
      let k' = rw unbound at k in
      let same : free_key m.kind entity t m.recurrence content ≡ key = cc in
      matches-free m entity t content old e unbound (subst (λ x. matches x old ≡ true) (sym same) h)
  | inr bound ↦ let k' = rw bound at k in by_entity entity bound k'
]
  where
    by_entity :
        (o : Option ℕ)
        → is_free m.attribute ≡ false
        → fact_key_of o m.attribute t ≡ some key
        → IsDuplicate m content old
    by_entity none bound f = absurd (cc)
    by_entity (some i) bound f =
        let same : fact_key i m.attribute t ≡ key = cc in
        matches-fact m i t content old e bound (subst (λ x. matches x old ≡ true) (sym same) h)

pub lookup_key-IsDuplicate :
    (m : NewMemory) (key : Option DatedKey) (content : String) (entity : Option ℕ)
    (rows : List MemoryRow) (i : ℕ)
    → dated_key m.kind entity m.attribute m.date_anchor m.recurrence content ≡ key
    → DistinctIds rows
    → lookup_key (λ r. true) key rows ≡ some i
    → (old : MemoryRow) × (row_of i rows ≡ some old) × (old.id ≡ i) × IsDuplicate m content old
lookup_key-IsDuplicate m none content entity rows i k d e = absurd (cc)
lookup_key-IsDuplicate m (some key) content entity rows i k d e =
    of_found (first_where (λ r. matches key r && true) rows) refl e
  where
    of_found :
        (o : Option MemoryRow)
        → first_where (λ r. matches key r && true) rows ≡ o
        → id_of_row o ≡ some i
        → (old : MemoryRow) × (row_of i rows ≡ some old) × (old.id ≡ i) × IsDuplicate m content old
    of_found none f e' = absurd (cc)
    of_found (some old) f e' =
        let (found, pass) = found-row_of _ rows old d f in
        let same : old.id ≡ i = cc in
        (
          old,
          subst (λ j. row_of j rows ≡ some old) same found,
          same,
          key-IsDuplicate m entity content m.date_anchor key old refl k (ground arith),
        )
