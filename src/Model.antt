-- ===== src/Model.antt =====
-- The records that the store's parts exchange (src/proactive_mcp/store/_situation_models.py,
-- _source_generation.py, _sync_models.py, _fallback_models.py, _daemon_models.py and
-- _memory_models.py). An instant is the number of microseconds since the first day of year 1 in UTC,
-- where the source has a datetime or its ISO text in UTC.
pub mod Situation
pub mod Source
pub mod Fallback
pub mod Daemon
pub mod Memory
