-- ===== src/Memories/Unique.antt =====
-- The unique indexes on `memory_items` (src/proactive_mcp/store/migrations/004_memory_model_v2.sql
-- and 012_free_dated_dedupe.sql) and the primary key, as an invariant of the rows.
use proactive_mcp.Prelude.{
  ℕ, ◌<◌, String, ◌≡◌, refl, sym, subst, Bool, true, false, not, ◌&&◌, ◌||◌, Option, none, some,
  List, [], ◌∷◌, ◌++◌, arith, All, All-map, Bool-cases, inl, inr, ◌==◌, str_eq, str_eq_iff,
  exists_where, first_where,
}
use proactive_mcp.Model.Memory.{MemoryRow, is_free, kind_index, attribute_index, recurrence_index}
use proactive_mcp.Db.{exists_where-append}
use proactive_mcp.Memories.Items.{
  DatedKey, free_key, fact_key, matches, dated_key, lookup_key, id_of_row, entity_or_zero,
  equals_id, equals_text, same_entity, next_memory_id,
}

abbrev pub same_text : Option String → Option String → Bool
same_text (some a) (some b) = str_eq b a
same_text _ _ = false

-- Two active rows that one of the two indexes does not allow beside each other.
unfoldable pub clashes : MemoryRow → MemoryRow → Bool
clashes a b =
    not a.archived
    && not b.archived
    && same_text a.date_anchor b.date_anchor
    && (is_free a.attribute
          && is_free b.attribute
          && kind_index b.kind == kind_index a.kind
          && entity_or_zero b.entity_id == entity_or_zero a.entity_id
          && recurrence_index b.recurrence == recurrence_index a.recurrence
          && str_eq b.content_norm a.content_norm
        || not (is_free a.attribute)
          && not (is_free b.attribute)
          && same_entity a.entity_id b.entity_id
          && attribute_index b.attribute == attribute_index a.attribute)

str_eq_comm : (a b : String) → str_eq a b ≡ str_eq b a
str_eq_comm a b = ground (arith, str_eq_iff a b, str_eq_iff b a)

same_text_comm : (a b : Option String) → same_text a b ≡ same_text b a
same_text_comm none none = refl
same_text_comm none (some b) = refl
same_text_comm (some a) none = refl
same_text_comm (some a) (some b) = str_eq_comm b a

same_entity_comm : (a b : Option ℕ) → same_entity a b ≡ same_entity b a
same_entity_comm none none = refl
same_entity_comm none (some b) = refl
same_entity_comm (some a) none = refl
same_entity_comm (some a) (some b) = ground arith

pub clashes_comm : (a b : MemoryRow) → clashes a b ≡ true → clashes b a ≡ true
unfolding clashes
clashes_comm a b h =
    let text = same_text_comm a.date_anchor b.date_anchor in
    let entity = same_entity_comm a.entity_id b.entity_id in
    let norm = str_eq_comm a.content_norm b.content_norm in ground arith

same_text-some : (t : String) (d : Option String) → same_text (some t) d ≡ equals_text d t
same_text-some t none = refl
same_text-some t (some d) = refl

same_entity-some : (i : ℕ) (e : Option ℕ) → same_entity (some i) e ≡ equals_id e i
same_entity-some i none = refl
same_entity-some i (some e) = refl

-- The lookup of a key asks for the rows that clash with a row of that key.
abbrev pub key_of_row : MemoryRow → Option DatedKey
key_of_row a = dated_key a.kind a.entity_id a.attribute a.date_anchor a.recurrence a.content_norm

abbrev at_values : MemoryRow → Option String → Option ℕ → MemoryRow
at_values a anchor entity = record a { date_anchor = anchor; entity_id = entity }

matches-clashes_at :
    (key : DatedKey) (a r : MemoryRow) (anchor : Option String) (entity : Option ℕ)
    → key_of_row (at_values a anchor entity) ≡ some key
    → clashes (at_values a anchor entity) r ≡ true
    → matches key r ≡ true
unfolding clashes matches
matches-clashes_at key a r none entity e h = absurd (cc)
matches-clashes_at key a r (some t) none e h = elim (Bool-cases (is_free a.attribute)) [
  | inl free ↦
      let same : free_key a.kind none t a.recurrence a.content_norm ≡ key = ground arith in
      subst (λ k. matches k r ≡ true) same
        (let text = same_text-some t r.date_anchor in ground arith)
  | inr bound ↦ ground arith
]
matches-clashes_at key a r (some t) (some i) e h = elim (Bool-cases (is_free a.attribute)) [
  | inl free ↦
      let same : free_key a.kind (some i) t a.recurrence a.content_norm ≡ key = ground arith in
      subst (λ k. matches k r ≡ true) same
        (let text = same_text-some t r.date_anchor in ground arith)
  | inr bound ↦
      let same : fact_key i a.attribute t ≡ key = ground arith in
      subst (λ k. matches k r ≡ true) same
        (let text = same_text-some t r.date_anchor in
          let entity = same_entity-some i r.entity_id in ground arith)
]

no_key-clashes_at :
    (a r : MemoryRow) (anchor : Option String) (entity : Option ℕ)
    → key_of_row (at_values a anchor entity) ≡ none
    → clashes (at_values a anchor entity) r ≡ false
unfolding clashes
no_key-clashes_at a r none entity e = ground arith
no_key-clashes_at a r (some t) none e = ground arith
no_key-clashes_at a r (some t) (some i) e = ground arith

first_where-none :
    (p : MemoryRow → Bool) (rows : List MemoryRow)
    → id_of_row (first_where p rows) ≡ none
    → All (λ r. p r ≡ false) rows
first_where-none p [] e = tt
first_where-none p (r ∷ rows) e = elim (Bool-cases (p r)) [
  | inl hit ↦ absurd (ground arith)
  | inr miss ↦ (miss, first_where-none p rows (ground arith))
]

-- A lookup that finds nothing: no row that it looks at clashes.
pub lookup-clashes :
    (test : MemoryRow → Bool) (a : MemoryRow) (rows : List MemoryRow)
    → lookup_key test (key_of_row a) rows ≡ none
    → All (λ r. test r ≡ true → clashes a r ≡ false) rows
lookup-clashes test a rows = by_key (key_of_row a) refl
  where
    all_of :
        (rs : List MemoryRow)
        → ((r : MemoryRow) → clashes a r ≡ false)
        → All (λ r. test r ≡ true → clashes a r ≡ false) rs
    all_of [] h = tt
    all_of (r ∷ rs) h = (λ t. h r, all_of rs h)

    unmatched :
        (key : DatedKey)
        → key_of_row a ≡ some key
        → (r : MemoryRow) → (matches key r && test r) ≡ false
        → test r ≡ true
        → clashes a r ≡ false
    unmatched key k r none_match t = elim (Bool-cases (clashes a r)) [
      | inl clash ↦
          let found = matches-clashes_at key a r a.date_anchor a.entity_id k clash in
          absurd (ground arith)
      | inr free ↦ free
    ]

    by_key :
        (k : Option DatedKey)
        → key_of_row a ≡ k
        → lookup_key test k rows ≡ none
        → All (λ r. test r ≡ true → clashes a r ≡ false) rows
    by_key none k e = all_of rows (λ r. no_key-clashes_at a r a.date_anchor a.entity_id k)
    by_key (some key) k e = All-map _ _ rows (unmatched key k) (first_where-none _ rows e)

-- What the two indexes and the primary key say of the rows.
abbrev pub UniqueDated : List MemoryRow → Type 0
UniqueDated [] = Unit {0}
UniqueDated (x ∷ xs) = (exists_where (clashes x) xs ≡ false) × UniqueDated xs

abbrev pub DistinctIds : List MemoryRow → Type 0
DistinctIds [] = Unit {0}
DistinctIds (x ∷ xs) = (exists_where (λ r. r.id == x.id) xs ≡ false) × DistinctIds xs

pub record IsSound (rows : List MemoryRow) : Type 0 where
  pub ids : DistinctIds rows
  pub dated : UniqueDated rows

-- An INSERT behind the others
pub below_next : (rows : List MemoryRow) → All (λ r. r.id < next_memory_id rows) rows
unfolding next_memory_id
below_next [] = tt
below_next (r ∷ rows) = (omega arith, All-map _ _ rows (λ q h. omega (arith, h)) (below_next rows))

DistinctIds-append :
    (rows : List MemoryRow) (n : MemoryRow)
    → DistinctIds rows
    → All (λ r. r.id < n.id) rows
    → DistinctIds (rows ++ n ∷ [])
DistinctIds-append [] n h below = (refl, tt)
DistinctIds-append (r ∷ rows) n h below = (
  rw (exists_where-append (λ q. q.id == r.id) rows (n ∷ []))
      (let old = h.0 in let less = below.0 in ground arith),
  DistinctIds-append rows n h.1 below.1,
)

pub clashes-false : (a b : MemoryRow) → clashes a b ≡ false → clashes b a ≡ false
clashes-false a b h = elim (Bool-cases (clashes b a)) [
  | inl e ↦ let back = clashes_comm b a e in absurd (cc)
  | inr e ↦ e
]

UniqueDated-append :
    (rows : List MemoryRow) (n : MemoryRow)
    → UniqueDated rows
    → All (λ r. clashes n r ≡ false) rows
    → UniqueDated (rows ++ n ∷ [])
UniqueDated-append [] n h free = (refl, tt)
UniqueDated-append (r ∷ rows) n h free = (
  rw (exists_where-append (clashes r) rows (n ∷ []))
      (let old = h.0 in let fresh = clashes-false n r free.0 in ground arith),
  UniqueDated-append rows n h.1 free.1,
)

pub IsSound-append :
    (rows : List MemoryRow) (n : MemoryRow)
    → n.id ≡ next_memory_id rows
    → All (λ r. clashes n r ≡ false) rows
    → IsSound rows
    → IsSound (rows ++ n ∷ [])
IsSound-append rows n e free s = record {
  ids =
      DistinctIds-append rows n s.ids
        (subst (λ i. All (λ r. r.id < i) rows) (sym e) (below_next rows));
  dated = UniqueDated-append rows n s.dated free;
}
