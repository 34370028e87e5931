-- ===== src/Gamma.antt =====
-- src/polymarket/gamma_bootstrap.cpp and rest_quote.cpp: one market or one quote over HTTP.
pub mod Bootstrap
pub mod Order
pub mod Outcomes
pub mod Latest
pub mod Rest
