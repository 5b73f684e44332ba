-- ===== src/Examples/Items.antt =====
-- The memory store's theorems: a birthday is remembered, changed and forgotten.
use proactive_mcp.Prelude.{true, false, none, some, List, [], ◌∷◌}
use proactive_mcp.Model.Memory.{NewMemory, MemoryRow, fact, person, birthday, yearly, manual}
use proactive_mcp.Db
use proactive_mcp.Memories.Items
use proactive_mcp.Memories.Rules
use proactive_mcp.Memories.Entities
use proactive_mcp.Db.{Db, empty_db}
use proactive_mcp.Memories.Rules.{TextRules}
use proactive_mcp.Memories.Unique.{IsSound}
use proactive_mcp.Memories.Machine.{
  MemoryCall, remembers, updates, forgets, after_memory_calls, after_memory_calls-IsSound,
}

-- Stands for the library's text functions, on text that is normal.
abbrev plain_rules : TextRules
plain_rules = record {
  stripped = λ t. t;
  alias_norm = λ t. t;
  content_norm = λ t. t;
  byte_length = λ t. 10;
  is_yearless = λ t. false;
  is_date = λ t. true;
}

abbrev ada_birthday : NewMemory
ada_birthday = record {
  kind = fact;
  content = "ada has a birthday";
  entity = some "ada";
  entity_kind = some person;
  entity_path = none;
  attribute = birthday;
  date_anchor = some "2024-12-10";
  recurrence = yearly;
  lead_days = 7;
  source = manual;
}

abbrev memory_calls : List MemoryCall
memory_calls =
    remembers ada_birthday 100
    ∷ remembers ada_birthday 200
    ∷ updates 1 (record ada_birthday { lead_days = 3 }) 300
    ∷ forgets 1 400
    ∷ []

no_rows-IsSound : IsSound empty_db.memory_items
no_rows-IsSound = record { ids = tt; dated = tt }

after_memory_calls-IsSound_example :
    IsSound (after_memory_calls plain_rules memory_calls empty_db).memory_items
after_memory_calls-IsSound_example =
    after_memory_calls-IsSound plain_rules memory_calls empty_db no_rows-IsSound

abbrev pub ada_row : MemoryRow
ada_row = record {
  id = 1;
  kind = fact;
  entity_id = some 1;
  attribute = birthday;
  content = "ada has a birthday";
  content_norm = "ada has a birthday";
  date_anchor = some "2024-12-10";
  recurrence = yearly;
  lead_days = some 7;
  source = manual;
  created_at = 100;
  updated_at = 100;
  archived = false;
}
