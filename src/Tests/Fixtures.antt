-- ===== src/Tests/Fixtures.antt =====
-- A configuration, a desk and events for the tests and examples.
use prediction_market_arbitr.Base.{pos, true, false, List, [], ◌∷◌}
use prediction_market_arbitr.Runner.Book.{Feeds}
use prediction_market_arbitr.Runner.Events.{Event, quoted, rolled}
use prediction_market_arbitr.Runner.Rollover.{PolymarketWsQuote, RolloverEvent}
use prediction_market_arbitr.Runner.State.{
  Config, HotState, PaperState, Desk, rolling, no_side, no_action, no_reason, up, down, Side,
  minus_one,
}
use prediction_market_arbitr.Tests.Fixed.{Fixed, dec}
use prediction_market_arbitr.Tests.World.{Script}

abbrev pub settings : Config Fixed
settings = record {
  live_execution = false;
  r = dec 0 0;
  sigma_rv_min = dec 0 0;
  sigma_rv_max = dec 1 0;
  sigma_clamp_min = dec 1 1;
  sigma_clamp_max = dec 2 0;
  sigma_fallback = dec 8 1;
  sigma_step_ms = pos 1000;
  sigma_try_garch = false;
  sigma_vol_mode = rolling;
  initial_cash = dec 100 0;
  risk_frac = dec 1 1;
  entry = dec 1 1;
  close_eps = dec 1 2;
  close_early_threshold = dec 0 0;
  use_entry_elapsed_window = false;
  entry_elapsed_min_sec = dec 0 0;
  entry_elapsed_max_sec = dec 300 0;
  edge_persist_ns = pos 0;
  lat_ms = pos 0;
  fee_rate = dec 0 0;
  stop_loss_frac = dec 2 1;
  max_loss_usd = dec 50 0;
  fixed_spend_usd = dec 0 0;
  use_buy_ask_range = true;
  buy_ask_min = dec 1 1;
  buy_ask_max = dec 9 1;
  disable_rollover_force_sell = false;
}

abbrev pub market : HotState Fixed
market = record {
  active_epoch = pos 1000;
  slug = "btc-1000";
  have_bin = true;
  bin_mid = dec 100 0;
  bin_wall_ms = pos 1000000;
  bin_entry_clock_wall_ms = pos 1000000;
  bin_hist = [];
  have_k = true;
  k = dec 100 0;
  sigma_bucket = dec 0 0;
  have_sigma = false;
  sigma_vol_window_full = false;
  have_up = true;
  up_bid = dec 28 2;
  up_ask = dec 3 1;
  have_down = true;
  down_bid = dec 68 2;
  down_ask = dec 7 1;
  edge_up_ok_since_mono_ns = minus_one;
  edge_dn_ok_since_mono_ns = minus_one;
}

abbrev pub flat_paper : PaperState Fixed
flat_paper = record {
  have_pos = false;
  side = no_side;
  token_id = "";
  slug = "";
  qty = dec 0 0;
  pos_cost_basis = dec 0 0;
  entry_fill_price = dec 0 0;
  cash = dec 100 0;
  pending = false;
  pending_action = no_action;
  pending_side = no_side;
  pending_exit_reason = no_reason;
  due_ns = pos 0;
  risk_stop = false;
  cooldown_until_ns = pos 0;
  stop_sell_retry = false;
}

abbrev pub held_paper : PaperState Fixed
held_paper = record flat_paper {
  have_pos = true;
  side = up;
  token_id = "up";
  slug = "btc-1000";
  qty = dec 20 0;
  pos_cost_basis = dec 10 0;
  entry_fill_price = dec 5 1;
}

abbrev pub desk : Desk Fixed
desk = record { hot = market; paper = flat_paper; trading_enabled = true; trades = [] }

abbrev pub held_desk : Desk Fixed
held_desk = record desk { paper = held_paper }

abbrev pub live : Config Fixed
live = record settings { live_execution = true }

abbrev pub silent : Script
silent = record { balances = []; receipts = []; orders = []; clock = 5 }

abbrev pub feeds : Feeds
feeds = record { token_up = "up"; token_down = "down"; later_up = "up"; later_down = "next" }

abbrev pub quote : Side → Fixed → Fixed → PolymarketWsQuote Fixed
quote side bid ask = record {
  token_id = "up";
  event_slug = "btc-1000";
  market_bucket_epoch = pos 1000;
  outcome = side;
  best_bid = bid;
  best_ask = ask;
}

abbrev pub next_bucket : RolloverEvent Fixed
next_bucket = record {
  rollover_epoch = pos 1300;
  rollover_slug = "btc-1300";
  rollover_up_bid = dec 4 1;
  rollover_down_bid = dec 6 1;
  rollover_price_to_beat = dec 101 0;
}

abbrev pub history : List (Feeds × Event Fixed)
history =
    (feeds, quoted (quote up (dec 28 2) (dec 3 1)))
    ∷ (feeds, quoted (quote down (dec 6 1) (dec 65 2)))
    ∷ (feeds, rolled next_bucket)
    ∷ []
