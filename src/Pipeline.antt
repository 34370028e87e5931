-- ===== src/Pipeline.antt =====
-- apps/live_pipeline.cpp: the recorder of prices and quotes.
pub mod Volatility
pub mod Hot
pub mod Writer
pub mod Rows
pub mod Market
pub mod Loop
pub mod Switches
pub mod Rounds
pub mod Runs
pub mod Start
pub mod Started
