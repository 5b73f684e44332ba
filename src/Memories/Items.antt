-- ===== src/Memories/Items.antt =====
-- The writing methods of MemoryStore (src/proactive_mcp/store/memory.py) with the queries of
-- _memory_queries.py. A method returns the row, where the source joins it with its entity.
use proactive_mcp.Prelude.{
  ℕ, suc, String, Bool, true, false, not, ◌&&◌, Option, none, some, List, [], ◌∷◌, ◌++◌, max, leb,
  ◌==◌, str_eq, if◌then◌else◌, length, count_where, exists_where, first_where, select_where,
}
use proactive_mcp.Model.Memory.{
  NewMemory, Entity, MemoryRow, MemoryKind, MemoryAttribute, MemoryRecurrence, is_free, kind_index,
  attribute_index, recurrence_index,
}
use proactive_mcp.Db.{
  Db, Session, memory_error, memory_not_found, pure, raise, query, execute, transaction, ◌>>=◌,
  ◌>>◌,
}
use proactive_mcp.Memories.Rules.{TextRules, new_memory_error}
use proactive_mcp.Memories.Entities.{resolve_entity}

-- _MAX_MEMORY_ROWS, _MAX_ENTITY_ROWS and _MAX_ENTITY_ALIAS_ROWS
abbrev pub max_memory_rows : ℕ
max_memory_rows = 10000

abbrev pub max_entity_rows : ℕ
max_entity_rows = 5000

abbrev pub max_entity_alias_rows : ℕ
max_entity_alias_rows = 15000

-- COALESCE(entity_id, 0)
abbrev pub entity_or_zero : Option ℕ → ℕ
entity_or_zero none = 0
entity_or_zero (some i) = i

-- `column = ?`, where NULL equals nothing
abbrev pub equals_id : Option ℕ → ℕ → Bool
equals_id none i = false
equals_id (some j) i = j == i

abbrev pub equals_text : Option String → String → Bool
equals_text none t = false
equals_text (some s) t = str_eq s t

-- What a dated memory is looked up by: _FREE_DATED_DUPLICATE or _DATED_DUPLICATE.
pub data DatedKey : Type 0 where
  free_key : MemoryKind → Option ℕ → String → MemoryRecurrence → String → DatedKey
  fact_key : ℕ → MemoryAttribute → String → DatedKey

-- The WHERE of the two lookups
unfoldable pub matches : DatedKey → MemoryRow → Bool
matches (free_key kind entity anchor recurrence content) r =
    not r.archived
    && is_free r.attribute
    && kind_index r.kind == kind_index kind
    && entity_or_zero r.entity_id == entity_or_zero entity
    && equals_text r.date_anchor anchor
    && recurrence_index r.recurrence == recurrence_index recurrence
    && str_eq r.content_norm content
matches (fact_key entity attribute anchor) r =
    not r.archived
    && equals_id r.entity_id entity
    && attribute_index r.attribute == attribute_index attribute
    && equals_text r.date_anchor anchor

abbrev pub fact_key_of : Option ℕ → MemoryAttribute → String → Option DatedKey
fact_key_of none attribute anchor = none
fact_key_of (some i) attribute anchor = some (fact_key i attribute anchor)

-- The key of a memory with these values
abbrev pub dated_key :
    MemoryKind
    → Option ℕ
    → MemoryAttribute
    → Option String
    → MemoryRecurrence
    → String
    → Option DatedKey
dated_key kind entity attribute none recurrence content_norm = none
dated_key kind entity attribute (some anchor) recurrence content_norm =
    if is_free attribute
    then some (free_key kind entity anchor recurrence content_norm)
    else fact_key_of entity attribute anchor

abbrev pub id_of_row : Option MemoryRow → Option ℕ
id_of_row none = none
id_of_row (some r) = some r.id

abbrev pub lookup_key : (MemoryRow → Bool) → Option DatedKey → List MemoryRow → Option ℕ
lookup_key test none rows = none
lookup_key test (some key) rows = id_of_row (first_where (λ r. matches key r && test r) rows)

unfoldable pub memory_by_id : ℕ → Db → Option MemoryRow
memory_by_id i db = first_where (λ r. r.id == i) db.memory_items

unfoldable pub next_memory_id : List MemoryRow → ℕ
next_memory_id [] = 1
next_memory_id (r ∷ rest) = max (suc r.id) (next_memory_id rest)

-- UPDATE memory_items SET change WHERE id = ?
unfoldable pub update_memory : ℕ → (MemoryRow → MemoryRow) → List MemoryRow → List MemoryRow
update_memory i change [] = []
update_memory i change (r ∷ rest) =
    (if r.id == i then change r else r) ∷ update_memory i change rest

abbrev pub entity_id_of : Option Entity → Option ℕ
entity_id_of none = none
entity_id_of (some e) = some e.id

-- _require_entity_capacity
unfoldable pub within_quota : Db → Bool
within_quota db =
    leb (length db.entities) max_entity_rows && leb (length db.entity_aliases) max_entity_alias_rows

unfoldable pub require_entity_capacity : Session Unit
require_entity_capacity = do
  ok ← query within_quota
  if ok then pure tt else raise (memory_error "quota")

abbrev pub or_not_found : ℕ → Option MemoryRow → Session MemoryRow
or_not_found i none = raise (memory_not_found i)
or_not_found i (some r) = pure r

unfoldable pub require_memory : ℕ → Session MemoryRow
require_memory i = query (memory_by_id i) >>= or_not_found i

abbrev pub validated : Option String → Session Unit
validated none = pure tt
validated (some field) = raise (memory_error field)

abbrev pub touched : ℕ → MemoryRow → MemoryRow
touched now r = record r { updated_at = now }

abbrev pub active_count : Db → ℕ
active_count db = count_where (λ r. not r.archived) db.memory_items

module _ (rules : TextRules) where
  abbrev pub key_of : NewMemory → Option Entity → Option DatedKey
  key_of m entity =
      dated_key m.kind (entity_id_of entity) m.attribute m.date_anchor m.recurrence
        (rules.content_norm m.content)

  -- INSERT_MEMORY_ITEM
  abbrev pub inserted_row : ℕ → NewMemory → Option Entity → ℕ → MemoryRow
  inserted_row i m entity now = record {
    id = i;
    kind = m.kind;
    entity_id = entity_id_of entity;
    attribute = m.attribute;
    content = m.content;
    content_norm = rules.content_norm m.content;
    date_anchor = m.date_anchor;
    recurrence = m.recurrence;
    lead_days = some m.lead_days;
    source = m.source;
    created_at = now;
    updated_at = now;
    archived = false;
  }

  -- UPDATE_MEMORY_ITEM
  abbrev pub replaced_row : NewMemory → Option Entity → ℕ → MemoryRow → MemoryRow
  replaced_row m entity now r = record r {
    kind = m.kind;
    entity_id = entity_id_of entity;
    attribute = m.attribute;
    content = m.content;
    content_norm = rules.content_norm m.content;
    date_anchor = m.date_anchor;
    recurrence = m.recurrence;
    lead_days = some m.lead_days;
    source = m.source;
    updated_at = now;
  }

  unfoldable pub insert_memory : NewMemory → Option Entity → ℕ → Session MemoryRow
  insert_memory m entity now = do
    i ← query (λ db. next_memory_id db.memory_items)
    execute (λ db. record db { memory_items = db.memory_items ++ inserted_row i m entity now ∷ [] })
    require_memory i

  -- A duplicate is touched; otherwise the quota is checked and the row is inserted.
  unfoldable pub merge_or_insert : NewMemory → Option Entity → ℕ → Option ℕ → Session MemoryRow
  merge_or_insert m entity now (some i) = do
    execute (λ db. record db { memory_items = update_memory i (touched now) db.memory_items })
    require_memory i
  merge_or_insert m entity now none = do
    full ← query (λ db. leb max_memory_rows (active_count db))
    if full then raise (memory_error "quota") else insert_memory m entity now

  unfoldable pub remember_body : NewMemory → ℕ → Session MemoryRow
  remember_body m now = do
    entity ← resolve_entity rules m now
    require_entity_capacity
    duplicate ← query (λ db. lookup_key (λ r. true) (key_of m entity) db.memory_items)
    merge_or_insert m entity now duplicate

  unfoldable pub remember : NewMemory → ℕ → Session MemoryRow
  remember m now = do validated (new_memory_error rules m); transaction (remember_body m now)

  abbrev pub replace_unless : ℕ → NewMemory → Option Entity → ℕ → Option ℕ → Session MemoryRow
  replace_unless i m entity now (some j) = raise (memory_error "date_anchor")
  replace_unless i m entity now none = do
    execute (λ db. record db {
      memory_items = update_memory i (replaced_row m entity now) db.memory_items;
    })
    require_memory i

  unfoldable pub update_body : ℕ → NewMemory → ℕ → Session MemoryRow
  update_body i m now = do
    existing ← require_memory i
    entity ← resolve_entity rules m now
    require_entity_capacity
    duplicate ← query (λ db. lookup_key (λ r. not (r.id == i)) (key_of m entity) db.memory_items)
    replace_unless i m entity now duplicate

  unfoldable pub update : ℕ → NewMemory → ℕ → Session MemoryRow
  update i m now = do validated (new_memory_error rules m); transaction (update_body i m now)

-- ARCHIVE_MEMORY_ITEM
abbrev pub archived_row : ℕ → MemoryRow → MemoryRow
archived_row now r = record r { archived = true; updated_at = now }

abbrev pub archive : ℕ → MemoryRow → Session MemoryRow
archive now r = if r.archived then pure r else (do
  execute (λ db. record db { memory_items = update_memory r.id (archived_row now) db.memory_items })
  pure (archived_row now r))

unfoldable pub forget : ℕ → ℕ → Session MemoryRow
forget i now = do r ← require_memory i; archive now r

-- SELECT_DATED_MEMORY_ITEMS; the rows stand in the order of their ids.
abbrev pub is_dated : Option String → Bool
is_dated none = false
is_dated (some anchor) = true

unfoldable pub list_dated_memories : Db → List MemoryRow
list_dated_memories db =
    select_where (λ r. not r.archived && is_dated r.date_anchor) db.memory_items

-- The EXISTS of `is_contradictory`
abbrev pub other_anchor : Option String → Option String → Bool
other_anchor (some a) (some b) = not (str_eq b a)
other_anchor _ _ = false

abbrev pub same_entity : Option ℕ → Option ℕ → Bool
same_entity (some i) (some j) = j == i
same_entity _ _ = false

unfoldable pub is_contradictory : Db → MemoryRow → Bool
is_contradictory db r =
    exists_where
      (λ o.
        same_entity r.entity_id o.entity_id
        && attribute_index o.attribute == attribute_index r.attribute
        && other_anchor r.date_anchor o.date_anchor
        && not o.archived
        && not (is_free o.attribute))
      db.memory_items
