-- ===== src/Startup/Checks.antt =====
-- apps/btc_poly_runner.cpp: the checks of the options after the loop over the arguments.
use prediction_market_arbitr.Startup.Arguments.{with_settings, parse_arguments}
use prediction_market_arbitr.Startup.Parsed.{Parsed, exits, go, persist_ns, then_parse}
use prediction_market_arbitr.Base.{String, Bool, not, if◌then◌else◌, ◌&&◌, ◌||◌, List, is_empty}
use prediction_market_arbitr.Double.{Double}
use prediction_market_arbitr.Runner.Pricing.{clamp_sigma}
use prediction_market_arbitr.Runner.State.{Config}
use prediction_market_arbitr.Startup.Options.{Options, Environment, initial}

module _ {W : Type 0} ⦃d : Double W⦄ where
  open d use {lit, lt, le, is_finite, stod}

  -- The checks after the loop, in the order in which they are made.
  abbrev pub window_refused : Config W → Bool
  window_refused c =
      c.use_entry_elapsed_window && lt c.entry_elapsed_max_sec c.entry_elapsed_min_sec

  abbrev pub range_refused : Config W → Bool
  range_refused c =
      c.use_buy_ask_range
      && (not (is_finite c.buy_ask_min)
          || not (is_finite c.buy_ask_max)
          || lt c.buy_ask_min (lit 0 0)
          || lt (lit 1 0) c.buy_ask_max
          || lt c.buy_ask_max c.buy_ask_min)

  abbrev pub clamps_refused : Config W → Bool
  clamps_refused c =
      le c.sigma_clamp_min (lit 0 0)
      || le c.sigma_clamp_max (lit 0 0)
      || lt c.sigma_clamp_max c.sigma_clamp_min

  abbrev pub settled : Options W → Config W
  settled o =
      let c : Config W = o.settings in
      record c {
        edge_persist_ns = persist_ns o.edge_persist_ms;
        sigma_fallback = clamp_sigma c.sigma_fallback c.sigma_clamp_min c.sigma_clamp_max;
      }

  unfoldable pub check_options : Options W → Parsed (Options W)
  unfolding clamp_sigma
  check_options o =
      if window_refused o.settings
      then exits 2
      else if range_refused o.settings
      then exits 2
      else if not o.poly_discover && is_empty o.poly_event_slug
      then exits 2
      else if clamps_refused o.settings
      then exits 2
      else go (with_settings o (settled o))

  -- The settings that `run_live_impl` works with.
  unfoldable pub configure :
      (live_execution : Bool) → Environment → List String → Parsed (Options W)
  configure live_execution env args =
      then_parse (parse_arguments args (initial live_execution env)) check_options
