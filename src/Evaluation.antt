-- ===== src/Evaluation.antt =====
-- One evaluation pass: the engine (src/proactive_mcp/situations/engine.py) and the service around it
-- (src/proactive_mcp/delivery/evaluation.py). The detectors' outputs come in as arguments; the texts
-- of warnings stand as values.
pub mod Engine
pub mod Service
pub mod Reads
