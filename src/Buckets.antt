-- ===== src/Buckets.antt =====
-- src/polymarket/bucket_market_discovery.cpp: the discovery of the market of the present five minutes.
pub mod Slug
pub mod RoundTrip
pub mod Market
pub mod Discover
pub mod Window
