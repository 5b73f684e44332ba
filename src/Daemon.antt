-- ===== src/Daemon.antt =====
-- The watcher process: the liveness row (src/proactive_mcp/store/daemon_status.py) and the runs
-- (src/proactive_mcp/delivery/daemon.py).
pub mod Status
pub mod Lock
pub mod Refinement
pub mod Ownership
pub mod Takeover
pub mod Phase
pub mod Watcher
