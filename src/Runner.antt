-- ===== src/Runner.antt =====
-- apps/btc_poly_runner.cpp, the strategy runner.
pub mod State
pub mod Pricing
pub mod Schedule
pub mod Venue
pub mod Clob
pub mod Fill
pub mod StopSell
pub mod Book
pub mod Execute
pub mod Rollover
pub mod Volatility
pub mod Spot
pub mod Entry
pub mod Timers
pub mod Outcomes
pub mod Outcome
pub mod Events
pub mod Induction
pub mod Invariant
pub mod Journal
pub mod Risk
pub mod Carryover
pub mod Retries
pub mod Bounds
pub mod Amounts
pub mod Resampling
pub mod CarryForward
pub mod Resamples
pub mod Sigma
pub mod Exit
