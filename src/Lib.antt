-- ===== src/Lib.antt =====
-- A verification library for the Prediction-Market-Arbitrage-Bot, a C++ program that trades the
-- five-minute "bitcoin up or down" markets of Polymarket.
--
-- The program: feeds (src/polymarket, src/binance) push quotes, spot prices and rollovers of the market
-- into a queue; the consumer thread of apps/btc_poly_runner.cpp takes them one by one, keeps market
-- data (HotState) and one position (PaperState), computes fair values, and calls `schedule`, which
-- orders at most one BUY or SELL, and `execute_due`, which carries the order out once it is due. The
-- paper build fills at the quote; the live build asks a daemon through src/execution.
--
-- The parts of the library, all for apps/btc_poly_runner.cpp unless said otherwise:
-- - Base, Double, Json: shared helpers, and the parameters for `double` and nlohmann::json.
-- - Runner/State: the settings of `run_live_impl`, HotState, PaperState and the trade rows.
-- - Runner/Pricing: `clamp01`, `clamp_sigma`, `normal_cdf`, `poly_taker_fee` and the fair values.
-- - Runner/Schedule: `stop_loss_signal`, `entry_elapsed_ok` and `schedule`.
-- - Runner/Venue: the calls of LiveExecutor (include/execution/executor.hpp), as a parameter.
-- - Runner/Clob, Runner/Fill: the `clob_*` readers, `try_market_buy_fill_from_post_resp` and
--   `live_resolve_market_buy_fill`.
-- - Runner/StopSell: `live_stop_sell_until_flat`.
-- - Runner/Book, Runner/Execute: `execute_due`, its tests and bookkeeping.
-- - Runner/Rollover: the Rollover and PolyQuote events, and `on_hot_update`.
-- - Runner/Volatility, Runner/Spot: `resample_mids_from_hist`, `realized_vol_from_resampled_mids` and
--   the spot events.
-- - Runner/Events: the consumer thread over a history of events.
-- - Runner/Entry, Timers, Exit, Outcomes, Outcome, Induction, Invariant, Journal, Risk, Carryover, Retries,
--   Amounts, Resampling, CarryForward, Resamples, Sigma, Bounds: proofs about these.
-- - ThreadPool: the worker pool of src/core/thread_pool.cpp as a step relation, with proofs
--   in ThreadPool/Invariant and ThreadPool/Wakeup.
-- - Quotes/Socket, Book, Fixed, Switching: src/polymarket/ws_market_client.cpp, the books of orders,
--   ws_fixed_token_feed.cpp, and the actions of its `switch_token` one by one, with proofs in
--   Quotes/Best, Relays, Following, Subscriptions and Switched.
-- - Quotes/Rolling, Ticks: src/polymarket/poly_ws_quote_feed.cpp, with proofs in Quotes/Moves and
--   Rollovers.
-- - Executor/System, Daemon, Live: src/execution/poly_daemon_client.cpp and live_executor.cpp, with
--   proofs in Executor/Transfers, Descriptors, Starts, Sessions and Answers.
-- - Chainlink/Ticks, Selection, Feed, Strike: src/polymarket/rtds_chainlink_feed.cpp and
--   rtds_chainlink_strike.cpp, with proofs in Chainlink/Strikes, Waits, Buffer and History.
-- - Buckets/Slug, Market, Discover: src/polymarket/bucket_market_discovery.cpp, with proofs in
--   Buckets/RoundTrip and Window.
-- - Backtest/Events, Sweep: the readers of src/replay/timeline_merge.cpp, src/signals/engine.cpp and
--   src/sim/latency_backtest.cpp, with a proof in Backtest/Attempts.
-- - Backtest/Timeline: `load_jsonl`, `merge_sorted` and `print_alignment_stats` of
--   src/replay/timeline_merge.cpp, with a proof in Backtest/Alignment.
-- - Startup/Options, Parsed, Arguments, Checks, Dotenv: the options of `run_live_impl`, their
--   defaults, what the environment (src/binance/stream_env.cpp too) and the arguments set, the checks,
--   and `load_dotenv`, with proofs in Startup/Valid and Variables.
-- - Startup/Strikes, Monitor: which market is taken at the start and at a rollover, and the main thread
--   from there to the end of the feeds, with proofs in Startup/Fills, Began, Rollovers, Monitors and
--   Quotes/Contexts.
-- - Trader/Dotenv, Order: apps/live_trader.cpp, with proofs in Trader/Checks.
-- - Pipeline/Start, Volatility, Hot, Market, Loop: apps/live_pipeline.cpp, its start, the callbacks and
--   the loop, with proofs in Pipeline/Switches, Rounds, Runs and Started.
-- - Pipeline/Writer: its `AsyncJsonlWriter` as a step relation, with proofs in Pipeline/Rows.
-- - Gamma/Bootstrap, Rest: src/polymarket/gamma_bootstrap.cpp and rest_quote.cpp, with proofs in
--   Gamma/Order, Outcomes and Latest.
-- - Web/Page: src/polymarket/polymarket_web_ptb.cpp, with proofs in Web/Search and Priced.
-- - Tests: concrete doubles, documents, a venue and a desk, with the theorems at concrete inputs.
--
-- How the code is modelled. A lambda of `run_live_impl` that changes `hot` and `paper` is a function
-- from a desk to a desk; one that calls the venue or the clock also passes on an environment, which
-- answers as it likes. The consumer is one thread and holds the mutexes around each step, so an event
-- is a step of its own. Doubles are an abstract type with the program's constants and operations; only
-- Bounds, Sigma and Quotes/Best assume laws, those of IEEE comparisons, and Startup/Valid assumes the
-- order of three constants. Integers of 64 bits are unbounded: times in
-- milliseconds and nanoseconds stay far below 2^63. The loops with a bound of their own (20 and 15
-- polls, 30 attempts) recurse on that bound, so no fuel is added.
-- The resampling grid has no bound in the code; the model gives it 3,600,001 points, which is enough
-- for an hour at any step of at least a millisecond. With a step of 0 or less the code does not end.
--
-- A feed is a state; what a caller, the socket or the watchdog does to it is one step, and a handler
-- that an exception leaves is told apart. The parse workers and the consumer's calls may interleave with
-- a delivery in the code; the two critical sections of the fixed feed's `emit_quote` are functions of
-- their own, which the model runs one after the other. `switch_token` is one function for its callers,
-- and Quotes/Switching takes its four actions as steps, with connections, ends of connections and
-- messages in between. The socket library, the operating system, HTTP
-- and ISO times are parameters. The reads and writes of the daemon's client have no bound in the code;
-- the model gives them a number of rounds, and as many as the system calls of a request are enough.
-- System calls are modelled as they return: a write to a daemon that has ended raises SIGPIPE, which
-- the program does not handle. `dump` is taken to succeed, and the runner's venue not to throw. Of the
-- file of the pipeline's writer only the calls of `append` are modelled.
--
-- The main thread and the loop of the pipeline are functions of a list of rounds, each with its clock;
-- what other threads do between two rounds is an argument of the round. `std::sort` is a parameter,
-- with the documented result as a hypothesis where a theorem needs it, since it does not say in which
-- order equal elements come; `std::atoi`, `getenv` and `curl_easy_escape` are parameters too. A text
-- that is searched or cut is the list of its character codes.
--
-- Left out: console output, error rows and series rows, the waits between polls, the clock reads that
-- only logs and `mono_ns` use, the contents of the rows of apps/live_pipeline.cpp, the prefill of
-- the price history, telemetry, the Binance client, the other applications, and the daemon itself, which is a
-- Python program.
pub mod Backtest
pub mod Base
pub mod Buckets
pub mod Chainlink
pub mod Double
pub mod Executor
pub mod Gamma
pub mod Json
pub mod Pipeline
pub mod Quotes
pub mod Runner
pub mod Startup
pub mod Tests
pub mod ThreadPool
pub mod Trader
pub mod Web
