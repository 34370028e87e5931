-- ===== src/Web.antt =====
-- src/polymarket/polymarket_web_ptb.cpp: the price to beat from the page of an event.
pub mod Page
pub mod Search
pub mod Priced
