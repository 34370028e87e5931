-- ===== src/Backtest.antt =====
-- src/replay/timeline_merge.cpp, src/signals/engine.cpp and src/sim/latency_backtest.cpp: recorded
-- events, the moves of the spot price among them, and what a latency would have cost.
pub mod Events
pub mod Sweep
pub mod Attempts
pub mod Timeline
pub mod Alignment
