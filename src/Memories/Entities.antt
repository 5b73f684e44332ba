-- ===== src/Memories/Entities.antt =====
-- src/proactive_mcp/store/_memory_entities.py: the entity that a memory names, found by its alias or
-- created with its aliases.
use proactive_mcp.Prelude.{
  ℕ, suc, String, Bool, true, false, ◌||◌, Option, none, some, List, [], ◌∷◌, ◌++◌, map, max, ◌==◌,
  str_eq, if◌then◌else◌, first_where,
}
use proactive_mcp.Model.Memory.{
  NewMemory, Entity, EntityAlias, EntityKind, MemorySource, active, entity_kind_index,
}
use proactive_mcp.Db.{
  Db, Session, memory_error, alias_conflict, pure, raise, query, execute, ◌>>=◌, ◌>>◌,
}
use proactive_mcp.Memories.Rules.{TextRules, normalize_path, entity_aliases, is_empty}

-- SELECT_ENTITY_ID_BY_ALIAS; alias_norm is unique.
abbrev pub id_of_alias : Option EntityAlias → Option ℕ
id_of_alias none = none
id_of_alias (some a) = some a.entity_id

unfoldable pub entity_by_alias : String → Db → Option ℕ
entity_by_alias norm db =
    id_of_alias (first_where (λ a. str_eq a.alias_norm norm) db.entity_aliases)

unfoldable pub entity_by_id : ℕ → Db → Option Entity
entity_by_id i db = first_where (λ e. e.id == i) db.entities

-- INTEGER PRIMARY KEY: one more than the greatest id
unfoldable pub next_entity_id : List Entity → ℕ
next_entity_id [] = 1
next_entity_id (e ∷ rest) = max (suc e.id) (next_entity_id rest)

abbrev pub conflicting : List String → (String → Option ℕ) → Option String
conflicting [] lookup = none
conflicting (a ∷ rest) lookup = elim (lookup a) [ none ↦ conflicting rest lookup | some i ↦ some a ]

module _ (rules : TextRules) where
  -- The rows of the aliases
  abbrev pub alias_rows : ℕ → MemorySource → ℕ → List String → List EntityAlias
  alias_rows i source now names =
      map
        (λ name. record {
          entity_id = i;
          alias = name;
          alias_norm = rules.alias_norm name;
          source = source;
          created_at = now;
        })
        names

  abbrev pub new_entity : ℕ → EntityKind → Option (List String) → String → ℕ → Entity
  new_entity i kind path label now = record {
    id = i;
    kind = kind;
    path = path;
    label = label;
    status = active;
    created_at = now;
    updated_at = now;
  }

  -- INSERT_ENTITY and INSERT_ENTITY_ALIAS for each alias
  abbrev pub with_entity :
      EntityKind → Option (List String) → String → List String → MemorySource → ℕ → Db → Db
  with_entity kind path label names source now db = record db {
    entities = db.entities ++ new_entity (next_entity_id db.entities) kind path label now ∷ [];
    entity_aliases = db.entity_aliases ++ alias_rows (next_entity_id db.entities) source now names;
  }

  abbrev pub create_unless :
      EntityKind
      → Option (List String)
      → String
      → List String
      → MemorySource
      → ℕ
      → Option String
      → Session (Option Entity)
  create_unless kind path label names source now (some alias) = raise (alias_conflict alias)
  create_unless kind path label names source now none = do
    i ← query (λ db. next_entity_id db.entities)
    execute (with_entity kind path label names source now)
    pure (some (new_entity i kind path label now))

  -- _create_entity
  unfoldable pub create_entity :
      NewMemory → EntityKind → String → Option (List String) → ℕ → Session (Option Entity)
  create_entity memory kind label path now = do
    taken ← query (λ db.
        conflicting (entity_aliases rules label path)
          (λ a. entity_by_alias (rules.alias_norm a) db))
    create_unless kind path label (entity_aliases rules label path) memory.source now taken

  abbrev pub same_kind : EntityKind → Option Entity → Session (Option Entity)
  same_kind kind none = raise (memory_error "entity")
  same_kind kind (some e) =
      if entity_kind_index e.kind == entity_kind_index kind
      then pure (some e)
      else raise (memory_error "entity_kind")

  abbrev pub found_or_created :
      NewMemory
      → EntityKind
      → String
      → Option (List String)
      → ℕ
      → Option ℕ
      → Session (Option Entity)
  found_or_created memory kind label path now none = create_entity memory kind label path now
  found_or_created memory kind label path now (some i) = do
    e ← query (entity_by_id i)
    same_kind kind e

  unfoldable pub resolve_labelled :
      NewMemory → EntityKind → String → Option (List String) → ℕ → Session (Option Entity)
  resolve_labelled memory kind label path now = do
    i ← query (entity_by_alias (rules.alias_norm label))
    found_or_created memory kind label path now i

  abbrev pub with_normalized :
      NewMemory → EntityKind → String → ℕ → Option (List String) → Session (Option Entity)
  with_normalized memory kind label now none = raise (memory_error "entity_path")
  with_normalized memory kind label now (some path) =
      resolve_labelled memory kind label (some path) now

  abbrev pub with_path :
      NewMemory → EntityKind → String → ℕ → Option (List String) → Session (Option Entity)
  with_path memory kind label now none = resolve_labelled memory kind label none now
  with_path memory kind label now (some path) =
      with_normalized memory kind label now (normalize_path rules path)

  abbrev pub with_kind : NewMemory → String → ℕ → Option EntityKind → Session (Option Entity)
  with_kind memory label now none = raise (memory_error "entity_kind")
  with_kind memory label now (some kind) = with_path memory kind label now memory.entity_path

  abbrev pub given {ℓ} : {A : Type ℓ} → Option A → Bool
  given none = false
  given (some a) = true

  abbrev pub with_label : NewMemory → ℕ → Option String → Session (Option Entity)
  with_label memory now none =
      if given memory.entity_kind || given memory.entity_path
      then raise (memory_error "entity")
      else pure none
  with_label memory now (some name) =
      if is_empty (rules.stripped name)
      then raise (memory_error "entity")
      else with_kind memory (rules.stripped name) now memory.entity_kind

  -- resolve_entity
  unfoldable pub resolve_entity : NewMemory → ℕ → Session (Option Entity)
  resolve_entity memory now = with_label memory now memory.entity
