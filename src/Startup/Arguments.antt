-- ===== src/Startup/Arguments.antt =====
-- apps/btc_poly_runner.cpp: the arguments of `run_live_impl` and the checks of what they set.
use prediction_market_arbitr.Startup.Parsed.{
  Parsed, after_option, exits, go, is_chainlink, model_of, or_crash, or_usage, stream_of,
}
use prediction_market_arbitr.Base.{
  pos, ltb_ℤ, String, true, false, if◌then◌else◌, ◌||◌, List, [], ◌∷◌, Option, none, some, same,
  codes, or_else,
}
use prediction_market_arbitr.Buckets.Slug.{stoll}
use prediction_market_arbitr.Double.{Double}
use prediction_market_arbitr.Runner.State.{Config}
use prediction_market_arbitr.Startup.Options.{Options, StreamClientConfig, stoi, stoul, to_size}

module _ {W : Type 0} where
  abbrev pub with_settings : Options W → Config W → Options W
  with_settings o c = record o { settings = c }

  abbrev pub with_stream : Options W → StreamClientConfig → Options W
  with_stream o cfg = record o { bin_cfg = cfg }

  -- An option of the feeds, with its value. `none` if it is no such option.
  unfoldable pub feed_option : (a v : String) → Options W → Option (Parsed (Options W))
  feed_option a v o =
      if same a "--stream" || same a "--binance-stream"
      then some
          (or_usage (stream_of v) (λ path. with_stream o (record o.bin_cfg { stream_path = path })))
      else if same a "--host"
      then some (go (with_stream o (record o.bin_cfg { ws_host = v })))
      else if same a "--port"
      then some
          (or_crash (stoi (codes v)) (λ n. go (with_stream o (record o.bin_cfg { ws_port = n }))))
      else if same a "--parse-workers"
      then some (
          or_crash (stoi (codes v))
            (λ n. go (with_stream o (record o.bin_cfg { parse_workers = to_size n }))))
      else if same a "--poly-parse-workers"
      then some (or_crash (stoul (codes v)) (λ n. go (record o { poly_parse_workers = n })))
      else if same a "--spot-feed"
      then some (or_usage (is_chainlink v) (λ cl. record o { spot_feed_chainlink = cl }))
      else if same a "--out-prefix"
      then some (go (record o { out_prefix = v }))
      else if same a "--poly-token"
      then some (go (record o { poly_discover = false; poly_manual_token = v }))
      else if same a "--poly-event-slug"
      then some (go (record o { poly_event_slug = v }))
      else none

module _ {W : Type 0} ⦃d : Double W⦄ where
  open d use {lit, lt, le, is_finite, stod}

  -- The value as a double, which must not be below `least` where there is such a bound.
  abbrev pub real : (v : String) → (W → Config W) → Options W → Option (Parsed (Options W))
  real v set o = some (or_crash (stod v) (λ x. go (with_settings o (set x))))

  abbrev pub unsigned_real : (v : String) → (W → Config W) → Options W → Option (Parsed (Options W))
  unsigned_real v set o =
      some
        (or_crash (stod v) (λ x. if lt x (lit 0 0) then exits 2 else go (with_settings o (set x))))

  -- An option of the volatility, with its value.
  unfoldable pub sigma_option : (a v : String) → Options W → Option (Parsed (Options W))
  sigma_option a v o =
      let c : Config W = o.settings in
      if same a "--sigma"
      then real v (λ x. record c { sigma_fallback = x }) o
      else if same a "--sigma-clamp-min"
      then real v (λ x. record c { sigma_clamp_min = x }) o
      else if same a "--sigma-clamp-max"
      then real v (λ x. record c { sigma_clamp_max = x }) o
      else if same a "--sigma-step-ms"
      then some
          (or_crash (stoll (codes v)) (λ n. go (with_settings o (record c { sigma_step_ms = n }))))
      else if same a "--sigma-model"
      then some (
          or_usage (model_of v)
            (λ m. with_settings o (record c { sigma_try_garch = m.0; sigma_vol_mode = m.1 })))
      else none

  -- An option of the strategy, with its value.
  unfoldable pub strategy_option : (a v : String) → Options W → Option (Parsed (Options W))
  strategy_option a v o =
      let c : Config W = o.settings in
      if same a "--initial-cash"
      then real v (λ x. record c { initial_cash = x }) o
      else if same a "--risk-frac"
      then real v (λ x. record c { risk_frac = x }) o
      else if same a "--entry"
      then real v (λ x. record c { entry = x }) o
      else if same a "--close"
      then real v (λ x. record c { close_eps = x }) o
      else if same a "--close-early-threshold"
      then unsigned_real v (λ x. record c { close_early_threshold = x }) o
      else if same a "--lat-ms"
      then some (or_crash (stoi (codes v)) (λ n. go (with_settings o (record c { lat_ms = n }))))
      else if same a "--fee-rate"
      then real v (λ x. record c { fee_rate = x }) o
      else if same a "--stop-loss-frac"
      then unsigned_real v (λ x. record c { stop_loss_frac = x }) o
      else if same a "--max-loss-usd"
      then real v (λ x. record c { max_loss_usd = x }) o
      else if same a "--fixed-spend-usd"
      then unsigned_real v (λ x. record c { fixed_spend_usd = x }) o
      else none

  -- An option of the tests before a BUY, or of the latency reports, with its value.
  unfoldable pub entry_option : (a v : String) → Options W → Option (Parsed (Options W))
  entry_option a v o =
      let c : Config W = o.settings in
      if same a "--entry-elapsed-min-sec"
      then real v (λ x. record c { entry_elapsed_min_sec = x }) o
      else if same a "--entry-elapsed-max-sec"
      then real v (λ x. record c { entry_elapsed_max_sec = x }) o
      else if same a "--edge-persist-ms"
      then some (
          or_crash (stoi (codes v))
            (λ n. if ltb_ℤ n (pos 0) then exits 2 else go (record o { edge_persist_ms = n })))
      else if same a "--buy-ask-min"
      then real v (λ x. record c { buy_ask_min = x }) o
      else if same a "--buy-ask-max"
      then real v (λ x. record c { buy_ask_max = x }) o
      else if same a "--spot-latency-report-sec"
      then some (
          or_crash (stod v) (λ x.
            if lt x (lit 25 2) then exits 2 else go (record o { spot_latency_report_sec = x })))
      else none

  -- An option without a value; anything else is not known.
  unfoldable pub flag : String → Options W → Parsed (Options W)
  flag a o =
      let c : Config W = o.settings in
      if same a "--no-entry-elapsed-window"
      then go (with_settings o (record c { use_entry_elapsed_window = false }))
      else if same a "--no-buy-ask-range"
      then go (with_settings o (record c { use_buy_ask_range = false }))
      else if same a "--poly-discover"
      then go (record o { poly_discover = true })
      else if same a "--poly-rollover-web-ptb"
      then go (record o { poly_rollover_web_ptb = true })
      else if same a "--disable-rollover-force-sell"
      then go (with_settings o (record c { disable_rollover_force_sell = true }))
      else if same a "--spot-latency-monitor"
      then go (record o { spot_latency_monitor = true })
      else if same a "--help"
      then exits 0
      else exits 2

  unfoldable pub valued : (a v : String) → Options W → Option (Parsed (Options W))
  valued a v o =
      or_else (feed_option a v o)
        (or_else (sigma_option a v o) (or_else (strategy_option a v o) (entry_option a v o)))

  -- The loop over the arguments.
  unfoldable pub parse_arguments : List String → Options W → Parsed (Options W)
  parse_arguments [] o = go o
  parse_arguments (a ∷ []) o = flag a o
  parse_arguments (a ∷ v ∷ rest) o =
      after_option (valued a v o) (parse_arguments rest) (flag a o) (parse_arguments (v ∷ rest))
