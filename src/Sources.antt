-- ===== src/Sources.antt =====
-- Source truth: ordered generations, synchronization state and Gmail diagnostics
-- (src/proactive_mcp/store/_source_generation.py, _sync_source_state.py, _sync_diagnostics.py,
-- sync.py), its freshness (freshness.py), and its atomic application (_situation_consistency.py).
pub mod Generations
pub mod SyncState
pub mod Freshness
pub mod Consistency
