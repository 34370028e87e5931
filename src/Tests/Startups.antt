-- ===== src/Tests/Startups.antt =====
-- The start of the programs at concrete inputs: arguments, .env files, the markets of the main thread,
-- and an order of the trader.
use prediction_market_arbitr.Base.{
  ℕ, zero, suc, pos, negsuc, Bool, true, false, ◌≡◌, refl, ◌+ℤ◌, ◌*ℤ◌, String, List, [], ◌∷◌,
  Option, none, some, codes, codes_eq, or_else, to_lower, arith,
}
use prediction_market_arbitr.Buckets.Discover.{
  try_slug, fetch_events, validate_and_extract, extract, market_of, start_iso,
}
use prediction_market_arbitr.Buckets.Slug.{
  slug_for_bucket, to_string, digits, parse_bucket_epoch_from_slug, stoll, scan, drop, magnitude,
}
use prediction_market_arbitr.Buckets.Market.{
  is_live, find_in, find_market_for_slug, index_outcome, up_and_down, strings, strings_field,
  json_scalar_id_string, extract_price_to_beat_from_gamma_event, event_metadata_object,
}
use prediction_market_arbitr.Json.{value_string, value_boolean}
use prediction_market_arbitr.Quotes.Fixed.{start, set_market_context}
use prediction_market_arbitr.Startup.Checks.{configure}
use prediction_market_arbitr.Startup.Dotenv.{Variables, getenv, load_dotenv, read_line}
use prediction_market_arbitr.Startup.Monitor.{
  start_feeds, open_market, first_hot, Monitor, Bids, monitor_loop, start_monitor,
}
use prediction_market_arbitr.Startup.Monitors.{IfRan, monitor_advances}
use prediction_market_arbitr.Startup.Options.{Options, Environment, initial}
use prediction_market_arbitr.Startup.Strikes.{
  discover_initial, maybe_fill_strike_web_then_rtds, maybe_fill_strike_rtds, Sources,
}
use prediction_market_arbitr.Startup.Valid.{IfGoes, IsSettled, configure-IsSettled}
use prediction_market_arbitr.Startup.Variables.{first_value, dotenv_variables}
use prediction_market_arbitr.Tests.Feeds.{new_feed}
use prediction_market_arbitr.Tests.Fixed.{Fixed, dec, Double-Fixed}
use prediction_market_arbitr.Tests.Fixtures.{desk}
use prediction_market_arbitr.Tests.Strikes.{snapshot}
use prediction_market_arbitr.Tests.World.{Json-Doc}
use prediction_market_arbitr.Trader.Checks.{IfOrder, Submitted, Previewed, trader_verdict-IfOrder}
use prediction_market_arbitr.Trader.Dotenv.{load_dotenv_if_present}
use prediction_market_arbitr.Trader.Dotenv
use prediction_market_arbitr.Trader.Order.{trader_verdict}

abbrev environment : Environment
environment = record { get = λ key. none; atoi = λ s. pos 0 }

abbrev run_args : List String
run_args = "--stop-loss-frac" ∷ "0" ∷ "--sigma-clamp-max" ∷ "3" ∷ "--edge-persist-ms" ∷ "250" ∷ []

configure-IsSettled_example :
    IfGoes (λ (o : Options Fixed). IsSettled o.settings) (configure true environment run_args)
unfolding Double-Fixed
configure-IsSettled_example = configure-IsSettled Fixed true environment run_args refl refl refl

abbrev dotenv : List (List ℕ)
dotenv = codes "# keys" ∷ codes "POLY_TOKEN_ID = '7'" ∷ codes "POLY_REQUIRE_CONFIRM=1" ∷ []

abbrev variables : Variables
variables = (codes "POLY_TOKEN_ID", codes "8") ∷ []

dotenv_variables_example :
    (getenv (codes "POLY_TOKEN_ID") (load_dotenv dotenv variables)
      ≡ or_else
          (getenv (codes "POLY_TOKEN_ID") variables)
          (first_value read_line (codes "POLY_TOKEN_ID") dotenv))
    × (getenv (codes "POLY_TOKEN_ID") (load_dotenv_if_present dotenv variables)
        ≡ or_else
            (getenv (codes "POLY_TOKEN_ID") variables)
            (first_value Dotenv.read_line (codes "POLY_TOKEN_ID") dotenv))
dotenv_variables_example = dotenv_variables (codes "POLY_TOKEN_ID") dotenv variables

abbrev trade_args : List String
trade_args = "--market" ∷ "--side" ∷ "BUY" ∷ "--spend" ∷ "5" ∷ "--yes" ∷ []

trader_verdict-IfOrder_example :
    IfOrder
      (Submitted Fixed (load_dotenv_if_present dotenv variables) trade_args)
      (Previewed Fixed (load_dotenv_if_present dotenv variables) trade_args)
      (trader_verdict dotenv variables trade_args)
trader_verdict-IfOrder_example = trader_verdict-IfOrder Fixed dotenv variables trade_args

-- Gamma has the bucket of 1200 at first, and then that of 1500.
abbrev pub response : ℕ → String
response zero = "events"
response (suc n) = "later_events"

abbrev pub sources : Sources Fixed ℕ
sources = record {
  gamma = record { http_get = λ url e. (some (response e), suc e); iso_ms = λ s. none };
  snapshots = λ e. ((true, snapshot ∷ [], snapshot), e);
}

abbrev options : Options Fixed
options = initial false environment

abbrev monitor : Monitor Fixed
monitor = record {
  active_epoch = negsuc 0;
  next_epoch = negsuc 0;
  current_slug = [];
  feed_up = new_feed;
  feed_down = new_feed;
  stopped = false;
  hot = desk.hot;
  trading_enabled = false;
}

abbrev monitor_of : Option (Monitor Fixed) → Monitor Fixed
monitor_of none = monitor
monitor_of (some m) = m

abbrev begun : Option (Monitor Fixed) × ℕ
begun = start_monitor Json-Doc sources options 1234 monitor 0

abbrev rounds : List (ℕ × Bids Fixed × Bool)
rounds =
    (1240, record { up_bid = dec 40 2; down_bid = dec 60 2 }, false)
    ∷ (1502, record { up_bid = dec 99 2; down_bid = dec 1 2 }, false)
    ∷ []

begins : begun ≡ (some (monitor_of begun.0), begun.1)
unfolding start_monitor start_feeds open_market first_hot discover_initial
    maybe_fill_strike_web_then_rtds maybe_fill_strike_rtds try_slug fetch_events
    validate_and_extract extract market_of start_iso slug_for_bucket to_string digits
    parse_bucket_epoch_from_slug stoll scan drop magnitude is_live find_in find_market_for_slug
    index_outcome up_and_down strings strings_field json_scalar_id_string
    extract_price_to_beat_from_gamma_event event_metadata_object value_string value_boolean initial
    start set_market_context codes_eq to_lower Json-Doc Double-Fixed ◌+ℤ◌ ◌*ℤ◌
begins = refl

begun_runs : (monitor_of begun.0).stopped ≡ false
unfolding start_monitor start_feeds open_market first_hot discover_initial
    maybe_fill_strike_web_then_rtds maybe_fill_strike_rtds try_slug fetch_events
    validate_and_extract extract market_of start_iso slug_for_bucket to_string digits
    parse_bucket_epoch_from_slug stoll scan drop magnitude is_live find_in find_market_for_slug
    index_outcome up_and_down strings strings_field json_scalar_id_string
    extract_price_to_beat_from_gamma_event event_metadata_object value_string value_boolean initial
    start set_market_context codes_eq to_lower Json-Doc Double-Fixed ◌+ℤ◌ ◌*ℤ◌
begun_runs = refl

monitor_advances_example :
    IfRan
      (monitor_of begun.0).active_epoch
      (monitor_loop Json-Doc sources options rounds (monitor_of begun.0) [] begun.1)
unfolding initial
monitor_advances_example =
    monitor_advances Json-Doc sources options 1234 monitor 0 rounds (monitor_of begun.0) begun.1
      refl (omega arith) (omega arith) begins begun_runs
