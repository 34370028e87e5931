-- ===== src/Trader.antt =====
-- apps/live_trader.cpp: one order from the command line.
pub mod Dotenv
pub mod Order
pub mod Checks
