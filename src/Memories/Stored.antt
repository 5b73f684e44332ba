-- ===== src/Memories/Stored.antt =====
-- `remember` (src/proactive_mcp/store/memory.py): the row that it returns and the rows that it leaves.
use proactive_mcp.Prelude.{ℕ, ◌≡◌, true, false, none, some, ◌==◌}
use proactive_mcp.Model.Memory.{NewMemory, is_free, MemoryRow, attribute_index}
use proactive_mcp.Db.{Db, ◌>>◌}
use proactive_mcp.Memories.Rules.{TextRules}
use proactive_mcp.Memories.Items.{memory_by_id}

-- The row has what the agent asked to remember.
pub record HoldsMemory (rules : TextRules) (m : NewMemory) (now : ℕ) (r : MemoryRow) : Type 0 where
  pub kind : r.kind ≡ m.kind
  pub attribute : r.attribute ≡ m.attribute
  pub content : r.content ≡ m.content
  pub content_norm : r.content_norm ≡ rules.content_norm m.content
  pub date_anchor : r.date_anchor ≡ m.date_anchor
  pub recurrence : r.recurrence ≡ m.recurrence
  pub lead_days : r.lead_days ≡ some m.lead_days
  pub source : r.source ≡ m.source
  pub created_at : r.created_at ≡ now
  pub updated_at : r.updated_at ≡ now
  pub active : r.archived ≡ false

-- Where a remembered row comes from: it is new, or it is an active row of the same date and
-- attribute, and of the same text where the attribute is free, with a new time of its last change.
pub data Origin (rules : TextRules) (m : NewMemory) (now : ℕ) (before : Db) (r : MemoryRow)
    : Type 0 where
  inserted :
      memory_by_id r.id before ≡ none → HoldsMemory rules m now r → Origin rules m now before r
  merged :
      (old : MemoryRow)
      → memory_by_id r.id before ≡ some old
      → old.archived ≡ false
      → old.date_anchor ≡ m.date_anchor
      → attribute_index old.attribute ≡ attribute_index m.attribute
      → (is_free m.attribute ≡ true → old.content_norm ≡ rules.content_norm m.content)
      → r ≡ record old { updated_at = now }
      → Origin rules m now before r

pub record IsRemembered (rules : TextRules) (m : NewMemory) (now : ℕ) (before : Db) (r : MemoryRow)
    (after : Db) : Type 0 where
  pub stored : memory_by_id r.id after ≡ some r
  pub others : (j : ℕ) → (r.id == j) ≡ false → memory_by_id j after ≡ memory_by_id j before
  pub origin : Origin rules m now before r
