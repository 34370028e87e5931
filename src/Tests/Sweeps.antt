-- ===== src/Tests/Sweeps.antt =====
-- A sweep of latencies over a few recorded events.
use prediction_market_arbitr.Backtest.Events.{LogEvent, Signal, is_event, poly_mid}
use prediction_market_arbitr.Backtest.Sweep.{
  SimConfig, SimResultRow, run_latency_sweep, sweep_rows, sweep_row, signal_gain,
  deterministic_miss, first_poly_at_or_after, first_quote,
}
use prediction_market_arbitr.Base.{
  ℕ, pos, ◌+ℤ◌, ◌*ℤ◌, List, [], ◌∷◌, Option, none, some, map, ◌≡◌, refl, same, codes_eq,
}
use prediction_market_arbitr.Json.{value_string}
use prediction_market_arbitr.Tests.Fixed.{Fixed, dec, Double-Fixed}
use prediction_market_arbitr.Tests.World.{Doc, Json-Doc, quote_row}

abbrev timeline : List (LogEvent Doc)
timeline =
    record { sort_key_ns = pos 30000000; source = "polymarket"; row = quote_row 40 42 }
    ∷ record { sort_key_ns = pos 60000000; source = "polymarket"; row = quote_row 44 46 }
    ∷ []

abbrev signals : List (Signal Fixed)
signals = record { at_mono_ns = pos 1000000; price = dec 100 0; symbol = "btcusdt" } ∷ []

abbrev sweep : SimConfig Fixed
sweep = record {
  latencies_ms = pos 25 ∷ pos 200 ∷ [];
  fee_bps = dec 10 0;
  slippage_bps = dec 5 0;
  missed_fill_probability = dec 0 0;
  exit_horizon_ms = pos 20;
}

abbrev counts : Option (List (SimResultRow Fixed)) → List (ℕ × ℕ)
counts none = []
counts (some rows) = map (λ (r : SimResultRow Fixed). (r.attempts, r.fills)) rows

-- At 25 ms the signal is filled between the two quotes; at 200 ms there is no quote left.
filled_once : counts (run_latency_sweep Json-Doc signals timeline sweep) ≡ (1, 1) ∷ (1, 0) ∷ []
unfolding run_latency_sweep sweep_rows sweep_row signal_gain deterministic_miss
    first_poly_at_or_after first_quote is_event poly_mid value_string same codes_eq Double-Fixed
    Json-Doc ◌+ℤ◌ ◌*ℤ◌
filled_once = refl
