-- ===== src/Runner/Venue.antt =====
-- What the runner asks of `ll::execution::LiveExecutor` (src/execution/live_executor.cpp) and of the
-- clock. The daemon behind it answers as it likes: the answers come from an environment that each
-- call moves on. `none` is the result `false`. The calls return: an exception of LiveExecutor, as on a
-- response that is no object, would end the consumer thread and is left out here.
use prediction_market_arbitr.Base.{ℤ, String, List, Option}
use prediction_market_arbitr.Runner.State.{Action}

-- `OrderIntent` of a market order
pub record OrderIntent (W : Type 0) : Type 0 where
  pub market_token_id : String
  pub side : Action
  pub qty : W
  pub market_worst_price : W

-- The outputs of `submit`: the order id, empty if none, and the response.
pub record Receipt (J : Type 0) : Type 0 where
  pub order_id : String
  pub submit_resp : J

pub record Venue (W J E : Type 0) : Type 0 where
  pub query_conditional_balance : String → E → Option W × E
  pub submit : OrderIntent W → E → Option (Receipt J) × E
  pub query_order : String → E → Option J × E
  pub query_garch_sigma : List W → ℤ → E → Option W × E
  pub steady_ns : E → ℤ × E
  pub system_ms : E → ℤ × E
