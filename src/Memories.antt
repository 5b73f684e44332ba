-- ===== src/Memories.antt =====
-- MemoryStore of src/proactive_mcp/store/memory.py: what an agent is asked to remember, as rows that
-- may belong to an entity and carry a date. Its reads by page are left out.
pub mod Rules
pub mod Entities
pub mod Items
pub mod Unique
pub mod Changes
pub mod Keeps
pub mod Machine
pub mod Rows
pub mod Duplicates
pub mod Stored
