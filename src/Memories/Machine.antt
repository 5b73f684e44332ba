-- ===== src/Memories/Machine.antt =====
-- The memory store as a machine: its writing methods, in any order.
use proactive_mcp.Prelude.{ℕ, List, [], ◌∷◌}
use proactive_mcp.Model.Memory.{NewMemory}
use proactive_mcp.Db.{Db}
use proactive_mcp.Memories.Rules.{TextRules}
use proactive_mcp.Memories.Items.{remember, update, forget}
use proactive_mcp.Memories.Unique.{IsSound}
use proactive_mcp.Memories.Keeps.{remember-Keeps, update-Keeps, forget-Keeps}

pub data MemoryCall : Type 0 where
  remembers : NewMemory → ℕ → MemoryCall
  updates : ℕ → NewMemory → ℕ → MemoryCall
  forgets : ℕ → ℕ → MemoryCall

module _ (rules : TextRules) where
  -- The database after a call, whether it returned or raised.
  abbrev pub after_memory_call : MemoryCall → Db → Db
  after_memory_call (remembers m now) db = (remember rules m now db).1
  after_memory_call (updates i m now) db = (update rules i m now db).1
  after_memory_call (forgets i now) db = (forget i now db).1

  unfoldable pub after_memory_calls : List MemoryCall → Db → Db
  after_memory_calls [] db = db
  after_memory_calls (c ∷ calls) db = after_memory_calls calls (after_memory_call c db)

  IsSound-after :
      (c : MemoryCall) (db : Db)
      → IsSound db.memory_items
      → IsSound (after_memory_call c db).memory_items
  IsSound-after (remembers m now) db s = (remember-Keeps rules m now).at db s
  IsSound-after (updates i m now) db s = (update-Keeps rules i m now).at db s
  IsSound-after (forgets i now) db s = (forget-Keeps i now).at db s

  -- Whatever calls are made, in any order, from rows that satisfy the primary key and the two unique
  -- indexes, the rows still do: no two rows have one id, and no two active rows are the same dated
  -- fact of an entity or the same free dated memory.
  pub after_memory_calls-IsSound :
      (calls : List MemoryCall) (db : Db)
      → IsSound db.memory_items
      → IsSound (after_memory_calls calls db).memory_items
  unfolding after_memory_calls
  after_memory_calls-IsSound [] db s = s
  after_memory_calls-IsSound (c ∷ calls) db s =
      after_memory_calls-IsSound calls _ (IsSound-after c db s)
