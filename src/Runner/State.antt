-- ===== src/Runner/State.antt =====
-- apps/btc_poly_runner.cpp: the settings of `run_live_impl` and the state that its consumer thread
-- works on. Strings that the code only compares with a few constants are data types, with a
-- constructor for any other text.
use prediction_market_arbitr.Base.{ℤ, negsuc, String, Bool, List}
use prediction_market_arbitr.Double.{Double}

-- `side`, `pending_side`, and `outcome` of a quote
pub data Side : Type 0 where
  no_side up down : Side

pub data Action : Type 0 where
  no_action buy sell : Action

pub data ExitReason : Type 0 where
  no_reason take_profit stop_loss : ExitReason

pub data SigmaVolMode : Type 0 where
  rolling slug_fixed constant : SigmaVolMode

pub record Config (W : Type 0) : Type 0 where
  pub live_execution : Bool
  pub r : W
  pub sigma_rv_min : W
  pub sigma_rv_max : W
  pub sigma_clamp_min : W
  pub sigma_clamp_max : W
  pub sigma_fallback : W
  pub sigma_step_ms : ℤ
  pub sigma_try_garch : Bool
  pub sigma_vol_mode : SigmaVolMode
  pub initial_cash : W
  pub risk_frac : W
  pub entry : W
  pub close_eps : W
  pub close_early_threshold : W
  pub use_entry_elapsed_window : Bool
  pub entry_elapsed_min_sec : W
  pub entry_elapsed_max_sec : W
  pub edge_persist_ns : ℤ
  pub lat_ms : ℤ
  pub fee_rate : W
  pub stop_loss_frac : W
  pub max_loss_usd : W
  pub fixed_spend_usd : W
  pub use_buy_ask_range : Bool
  pub buy_ask_min : W
  pub buy_ask_max : W
  pub disable_rollover_force_sell : Bool

pub record HotState (W : Type 0) : Type 0 where
  pub active_epoch : ℤ
  pub slug : String
  pub have_bin : Bool
  pub bin_mid : W
  pub bin_wall_ms : ℤ
  pub bin_entry_clock_wall_ms : ℤ
  pub bin_hist : List (ℤ × W)
  pub have_k : Bool
  pub k : W
  pub sigma_bucket : W
  pub have_sigma : Bool
  pub sigma_vol_window_full : Bool
  pub have_up : Bool
  pub up_bid : W
  pub up_ask : W
  pub have_down : Bool
  pub down_bid : W
  pub down_ask : W
  pub edge_up_ok_since_mono_ns : ℤ
  pub edge_dn_ok_since_mono_ns : ℤ

pub record PaperState (W : Type 0) : Type 0 where
  pub have_pos : Bool
  pub side : Side
  pub token_id : String
  pub slug : String
  pub qty : W
  pub pos_cost_basis : W
  pub entry_fill_price : W
  pub cash : W
  pub pending : Bool
  pub pending_action : Action
  pub pending_side : Side
  pub pending_exit_reason : ExitReason
  pub due_ns : ℤ
  pub risk_stop : Bool
  pub cooldown_until_ns : ℤ
  pub stop_sell_retry : Bool

-- The trade rows of `trades_writer` that move cash, with the amounts they record. Newest first.
pub data TradeRow (W : Type 0) : Type 0 where
  bought : (cost fee : W) → TradeRow W
  sold : (proceeds fee : W) → TradeRow W
  force_sold : (proceeds fee : W) → TradeRow W

-- All that the consumer thread reads and writes, but for the venue.
pub record Desk (W : Type 0) : Type 0 where
  pub hot : HotState W
  pub paper : PaperState W
  pub trading_enabled : Bool
  pub trades : List (TradeRow W)

-- The sentinel of the int64 fields.
abbrev pub minus_one : ℤ
minus_one = negsuc 0

module _ {W : Type 0} ⦃d : Double W⦄ where
  -- The assignments that close a position, which the code repeats at each exit.
  abbrev pub flatten : PaperState W → PaperState W
  flatten p = record p {
    have_pos = Bool.false;
    side = no_side;
    token_id = "";
    slug = "";
    qty = d.lit 0 0;
    pos_cost_basis = d.lit 0 0;
    entry_fill_price = d.lit 0 0;
  }
