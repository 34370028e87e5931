-- ===== src/Tests.antt =====
-- Concrete instances of the parameters, and the tests and examples over them.
mod Fixed
mod World
mod Fixtures
mod Machine
mod Examples
mod Pools
mod Spots
mod Daemons
mod Feeds
mod Recorders
mod Startups
mod Strikes
mod Sweeps
