-- ===== src/Situations.antt =====
-- The situation table's statements, reads and life cycle (src/proactive_mcp/store/situations.py,
-- _situation_sql.py, _situation_reader.py, _situation_upsert.py).
pub mod Statements
pub mod Reader
pub mod Lifecycle
pub mod Access
pub mod Transitions
pub mod Upsert
