-- ===== src/Model/Memory.antt =====
-- src/proactive_mcp/store/_memory_models.py: memory items, entities and their rows. A path is the
-- list of its segments, which the source keeps joined by "/".
use proactive_mcp.Prelude.{ℕ, String, Bool, true, false, Option, List}

pub data EntityKind : Type 0 where
  person place org thing activity : EntityKind

pub data EntityStatus : Type 0 where
  active merged archived : EntityStatus

pub data MemoryKind : Type 0 where
  fact commitment preference note : MemoryKind

pub data MemoryAttribute : Type 0 where
  birthday anniversary deadline relationship free : MemoryAttribute

pub data MemoryRecurrence : Type 0 where
  never yearly : MemoryRecurrence

pub data MemorySource : Type 0 where
  agent_conversation manual : MemorySource

pub record NewMemory : Type 0 where
  pub kind : MemoryKind
  pub content : String
  pub entity : Option String
  pub entity_kind : Option EntityKind
  pub entity_path : Option (List String)
  pub attribute : MemoryAttribute
  pub date_anchor : Option String
  pub recurrence : MemoryRecurrence
  pub lead_days : ℕ
  pub source : MemorySource

-- A row of `entities`.
pub record Entity : Type 0 where
  pub id : ℕ
  pub kind : EntityKind
  pub path : Option (List String)
  pub label : String
  pub status : EntityStatus
  pub created_at : ℕ
  pub updated_at : ℕ

-- A row of `entity_aliases`.
pub record EntityAlias : Type 0 where
  pub entity_id : ℕ
  pub alias : String
  pub alias_norm : String
  pub source : MemorySource
  pub created_at : ℕ

-- A row of `memory_items`.
pub record MemoryRow : Type 0 where
  pub id : ℕ
  pub kind : MemoryKind
  pub entity_id : Option ℕ
  pub attribute : MemoryAttribute
  pub content : String
  pub content_norm : String
  pub date_anchor : Option String
  pub recurrence : MemoryRecurrence
  pub lead_days : Option ℕ
  pub source : MemorySource
  pub created_at : ℕ
  pub updated_at : ℕ
  pub archived : Bool

abbrev pub entity_kind_index : EntityKind → ℕ
entity_kind_index activity = 0
entity_kind_index org = 1
entity_kind_index person = 2
entity_kind_index place = 3
entity_kind_index thing = 4

abbrev pub kind_index : MemoryKind → ℕ
kind_index fact = 0
kind_index commitment = 1
kind_index preference = 2
kind_index note = 3

abbrev pub attribute_index : MemoryAttribute → ℕ
attribute_index birthday = 0
attribute_index anniversary = 1
attribute_index deadline = 2
attribute_index relationship = 3
attribute_index free = 4

abbrev pub recurrence_index : MemoryRecurrence → ℕ
recurrence_index never = 0
recurrence_index yearly = 1

abbrev pub is_free : MemoryAttribute → Bool
is_free free = true
is_free _ = false

abbrev pub is_yearly : MemoryRecurrence → Bool
is_yearly yearly = true
is_yearly never = false

abbrev pub is_active : EntityStatus → Bool
is_active active = true
is_active _ = false

-- The lengths of the words
abbrev pub kind_bytes : MemoryKind → ℕ
kind_bytes fact = 4
kind_bytes commitment = 10
kind_bytes preference = 10
kind_bytes note = 4

abbrev pub entity_kind_bytes : EntityKind → ℕ
entity_kind_bytes person = 6
entity_kind_bytes place = 5
entity_kind_bytes org = 3
entity_kind_bytes thing = 5
entity_kind_bytes activity = 8

abbrev pub attribute_bytes : MemoryAttribute → ℕ
attribute_bytes birthday = 8
attribute_bytes anniversary = 11
attribute_bytes deadline = 8
attribute_bytes relationship = 12
attribute_bytes free = 4

abbrev pub recurrence_bytes : MemoryRecurrence → ℕ
recurrence_bytes never = 4
recurrence_bytes yearly = 6

abbrev pub source_bytes : MemorySource → ℕ
source_bytes agent_conversation = 18
source_bytes manual = 6
