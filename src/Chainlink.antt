-- ===== src/Chainlink.antt =====
-- src/polymarket/rtds_chainlink_feed.cpp and rtds_chainlink_strike.cpp: the ticks of the price feed, the
-- choice of the strike among them, and the feed itself.
pub mod Ticks
pub mod Selection
pub mod Strikes
pub mod Waits
pub mod Strike
pub mod Feed
pub mod Buffer
pub mod History
