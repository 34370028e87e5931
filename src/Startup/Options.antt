-- ===== src/Startup/Options.antt =====
-- apps/btc_poly_runner.cpp: the options of `run_live_impl`, their defaults, and what the environment
-- sets. `std::atoi` and `getenv` are parameters.
use prediction_market_arbitr.Base.{
  ℕ, ◌-◌, ◌%◌, ◌^◌, ℤ, pos, negsuc, ltb_ℤ, leb_ℤ, String, Bool, true, false, not, if◌then◌else◌,
  ◌||◌, [], ◌∷◌, Option, none, some, is_empty, codes, ◌==◌, leb,
}
use prediction_market_arbitr.Buckets.Slug.{Text, stoll, scan, starts_digit, is_blank}
use prediction_market_arbitr.Double.{Double}
use prediction_market_arbitr.Runner.State.{Config, slug_fixed}

-- `ll::binance::StreamClientConfig`
pub record StreamClientConfig : Type 0 where
  pub ws_host : String
  pub ws_port : ℤ
  pub stream_path : String
  pub parse_workers : ℕ

pub record Options (W : Type 0) : Type 0 where
  pub settings : Config W
  pub edge_persist_ms : ℤ
  pub out_prefix : String
  pub poly_discover : Bool
  pub poly_rollover_web_ptb : Bool
  pub poly_manual_token : String
  pub poly_event_slug : String
  pub poly_parse_workers : ℕ
  pub spot_feed_chainlink : Bool
  pub spot_latency_monitor : Bool
  pub spot_latency_report_sec : W
  pub bin_cfg : StreamClientConfig

-- `getenv`, and `std::atoi`.
pub record Environment : Type 0 where
  pub get : String → Option String
  pub atoi : String → ℤ

-- The text begins with a sign of consent.
abbrev pub first_agrees : Text → Bool
first_agrees [] = false
first_agrees (c ∷ cs) = c == 49 || c == 116 || c == 84 || c == 121 || c == 89

abbrev pub agrees : Option String → Bool
agrees none = false
agrees (some v) = first_agrees (codes v)

-- `if (const char* h = getenv(key)) if (h[0]) …`
abbrev pub nonempty_or : {A : Type 0} → Option String → A → (String → A) → A
nonempty_or none a f = a
nonempty_or (some v) a f = if is_empty v then a else f v

abbrev pub default_stream : StreamClientConfig
default_stream = record {
  ws_host = "stream.binance.com";
  ws_port = pos 9443;
  stream_path = "/ws/btcusdt@bookTicker";
  parse_workers = 0;
}

unfoldable pub apply_stream_env_overrides : Environment → StreamClientConfig → StreamClientConfig
apply_stream_env_overrides env cfg =
    let with_host : StreamClientConfig =
      nonempty_or (env.get "LL_BINANCE_WS_HOST") cfg (λ h. record cfg { ws_host = h }) in
    nonempty_or (env.get "LL_BINANCE_WS_PORT") with_host
      (λ p. record with_host { ws_port = env.atoi p })

-- `std::stoi`
unfoldable pub stoi : Text → Option ℤ
stoi cs = elim (stoll cs) [
  | none ↦ none
  | some n ↦ if ltb_ℤ n (negsuc (2 ^ 31 - 1)) || leb_ℤ (pos (2 ^ 31)) n then none else some n
]

-- `std::stoul`, which takes a minus sign and wraps.
unfoldable pub unsigned : (negate : Bool) → Text → Option ℕ
unsigned negate cs =
    let n = scan cs 0 in
    if not (starts_digit cs) || leb (2 ^ 64) n
    then none
    else some (if negate then (2 ^ 64 - n) % 2 ^ 64 else n)

unfoldable pub stoul : Text → Option ℕ
stoul [] = none
stoul (c ∷ cs) =
    let rest = stoul cs in
    if is_blank c
    then rest
    else if c == 45
    then unsigned true cs
    else if c == 43
    then unsigned false cs
    else unsigned false (c ∷ cs)

-- The conversion of an int to `std::size_t`.
abbrev pub to_size : ℤ → ℕ
to_size (pos n) = n
to_size (negsuc n) = 2 ^ 64 - 1 - n

module _ {W : Type 0} ⦃d : Double W⦄ where
  open d use {lit, infinity}

  unfoldable pub defaults : (live_execution : Bool) → Environment → Config W
  defaults live_execution env = record {
    live_execution = live_execution;
    r = lit 35 3;
    sigma_rv_min = lit 5 2;
    sigma_rv_max = lit 5 0;
    sigma_clamp_min = lit 15 2;
    sigma_clamp_max = lit 2 1;
    sigma_fallback = lit 15 2;
    sigma_step_ms = pos 300;
    sigma_try_garch = false;
    sigma_vol_mode = slug_fixed;
    initial_cash = lit 100 0;
    risk_frac = lit 1 2;
    entry = lit 15 2;
    close_eps = lit 0 0;
    close_early_threshold = lit 0 0;
    use_entry_elapsed_window = true;
    entry_elapsed_min_sec = lit 260 0;
    entry_elapsed_max_sec = lit 300 0;
    edge_persist_ns = pos 0;
    lat_ms = pos 0;
    fee_rate = lit 0 0;
    stop_loss_frac = lit 4 1;
    max_loss_usd = infinity;
    fixed_spend_usd = lit 1 0;
    use_buy_ask_range = true;
    buy_ask_min = lit 6 1;
    buy_ask_max = lit 9 1;
    disable_rollover_force_sell = agrees (env.get "POLY_DISABLE_ROLLOVER_FORCE_SELL");
  }

  unfoldable pub initial : (live_execution : Bool) → Environment → Options W
  initial live_execution env = record {
    settings = defaults live_execution env;
    edge_persist_ms = pos 500;
    out_prefix = if live_execution then "live" else "paper";
    poly_discover = true;
    poly_rollover_web_ptb = false;
    poly_manual_token = "";
    poly_event_slug = "";
    poly_parse_workers = 0;
    spot_feed_chainlink = true;
    spot_latency_monitor = agrees (env.get "LL_SPOT_LATENCY_MONITOR");
    spot_latency_report_sec = lit 5 0;
    bin_cfg = apply_stream_env_overrides env default_stream;
  }
