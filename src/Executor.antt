-- ===== src/Executor.antt =====
-- src/execution/poly_daemon_client.cpp and live_executor.cpp: the client of the trading daemon, and the
-- orders and queries that go through it.
pub mod System
pub mod Daemon
pub mod Live
pub mod Transfers
pub mod Descriptors
pub mod Starts
pub mod Sessions
pub mod Answers
