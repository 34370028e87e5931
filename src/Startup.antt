-- ===== src/Startup.antt =====
-- apps/btc_poly_runner.cpp: what `run_live_impl` does before its consumer thread works, and the main
-- thread beside it.
pub mod Options
pub mod Parsed
pub mod Arguments
pub mod Checks
pub mod Valid
pub mod Strikes
pub mod Monitor
pub mod Fills
pub mod Rollovers
pub mod Began
pub mod Monitors
pub mod Dotenv
pub mod Variables
