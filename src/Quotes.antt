-- ===== src/Quotes.antt =====
-- src/polymarket, the feeds of quotes: the market socket, books of orders, the feed of one token that
-- the strategy runner uses, and the feed that follows new markets by itself.
pub mod Socket
pub mod Book
pub mod Best
pub mod Fixed
pub mod Relays
pub mod Following
pub mod Switching
pub mod Subscriptions
pub mod Switched
pub mod Rolling
pub mod Ticks
pub mod Moves
pub mod Rollovers
pub mod Contexts
