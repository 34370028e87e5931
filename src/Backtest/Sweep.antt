-- ===== src/Backtest/Sweep.antt =====
-- src/sim/latency_backtest.cpp. `std::lower_bound` finds the first event that is not before the time,
-- on a timeline in order.
use prediction_market_arbitr.Base.{
  ℕ, suc, ◌*◌, ◌%◌, ◌^◌, ℤ, pos, ◌+ℤ◌, ◌*ℤ◌, ltb_ℤ, Bool, false, if◌then◌else◌, List, [], ◌∷◌,
  Option, none, some,
}
use prediction_market_arbitr.Backtest.Events.{
  LogEvent, Signal, ◌>>=◌, is_polymarket_quote, poly_mid,
}
use prediction_market_arbitr.Double.{Double}
use prediction_market_arbitr.Json.{Json}

pub record SimConfig (W : Type 0) : Type 0 where
  pub latencies_ms : List ℤ
  pub fee_bps : W
  pub slippage_bps : W
  pub missed_fill_probability : W
  pub exit_horizon_ms : ℤ

pub record SimResultRow (W : Type 0) : Type 0 where
  pub latency_ms : ℤ
  pub attempts : ℕ
  pub fills : ℕ
  pub pnl_probability_points : W

abbrev pub lower_bound : {J : Type 0} → List (LogEvent J) → ℤ → List (LogEvent J)
lower_bound [] t = []
lower_bound (e ∷ es) t =
    let rest = lower_bound es t in if ltb_ℤ e.sort_key_ns t then rest else e ∷ es

-- The product is of `size_t`, and the cast to `unsigned` keeps 32 bits.
unfoldable pub deterministic_miss : {W : Type 0} ⦃d : Double W⦄ → (signal_index : ℕ) (p : W) → Bool
deterministic_miss ⦃d⦄ signal_index p =
    if d.le p (d.lit 0 0)
    then false
    else d.lt (d.div (d.of_int (pos (signal_index * 2654435761 % 2 ^ 32 % 10000))) (d.lit 10000 0))
        p

module _ {W J : Type 0} ⦃d : Double W⦄ (json : Json W J) where
  -- The first quote of these events.
  unfoldable pub first_quote : List (LogEvent J) → Option (Option (LogEvent J))
  first_quote [] = some none
  first_quote (e ∷ es) =
      let rest = first_quote es in
      is_polymarket_quote json e >>= λ quote. if quote then some (some e) else rest

  unfoldable pub first_poly_at_or_after : List (LogEvent J) → ℤ → Option (Option (LogEvent J))
  first_poly_at_or_after m t_ns = first_quote (lower_bound m t_ns)

  abbrev pub fee_frac : SimConfig W → W
  fee_frac cfg = d.mul (d.div cfg.fee_bps (d.lit 10000 0)) (d.lit 2 0)

  abbrev pub slip_frac : SimConfig W → W
  slip_frac cfg = d.div cfg.slippage_bps (d.lit 10000 0)

  abbrev pub after_ms : ℤ → (ms : ℤ) → ℤ
  after_ms t ms = t +ℤ (ms *ℤ pos 1000000)

  -- The gain between the two quotes, if both are there.
  abbrev pub gain_at : SimConfig W → LogEvent J → Option (LogEvent J) → Option (Option W)
  gain_at cfg e0 none = some none
  gain_at cfg e0 (some e1) = poly_mid json e0 >>= λ m0. poly_mid json e1 >>= λ m1.
      some (some (d.sub (d.sub (d.sub m1 m0) (fee_frac cfg)) (slip_frac cfg)))

  abbrev pub exit_gain : List (LogEvent J) → SimConfig W → Option (LogEvent J) → Option (Option W)
  exit_gain m cfg none = some none
  exit_gain m cfg (some e0) =
      first_poly_at_or_after m (after_ms e0.sort_key_ns cfg.exit_horizon_ms) >>= gain_at cfg e0

  -- What one signal gains at a latency; none where it is missed or a quote is lacking.
  unfoldable pub signal_gain :
      List (LogEvent J)
      → SimConfig W
      → (latency_ms : ℤ) (signal_index : ℕ) → Signal W
      → Option (Option W)
  signal_gain m cfg latency_ms si s =
      if deterministic_miss si cfg.missed_fill_probability
      then some none
      else (first_poly_at_or_after m (after_ms s.at_mono_ns latency_ms) >>= exit_gain m cfg)

  abbrev pub attempted : SimResultRow W → Option W → SimResultRow W
  attempted row none = record row { attempts = suc row.attempts }
  attempted row (some adj) = record row {
    attempts = suc row.attempts;
    fills = suc row.fills;
    pnl_probability_points = d.add row.pnl_probability_points adj;
  }

  -- The loop over the signals, from the index `si` on.
  unfoldable pub sweep_row :
      List (LogEvent J)
      → SimConfig W
      → (si : ℕ) → List (Signal W)
      → SimResultRow W
      → Option (SimResultRow W)
  sweep_row m cfg si [] row = some row
  sweep_row m cfg si (s ∷ ss) row = signal_gain m cfg row.latency_ms si s >>= λ gain.
      sweep_row m cfg (suc si) ss (attempted row gain)

  abbrev pub new_row : ℤ → SimResultRow W
  new_row latency_ms = record {
    latency_ms = latency_ms;
    attempts = 0;
    fills = 0;
    pnl_probability_points = d.lit 0 0;
  }

  unfoldable pub sweep_rows :
      List (LogEvent J)
      → SimConfig W
      → List (Signal W)
      → (latencies_ms : List ℤ) → Option (List (SimResultRow W))
  sweep_rows m cfg signals [] = some []
  sweep_rows m cfg signals (latency ∷ latencies) =
      sweep_row m cfg 0 signals (new_row latency) >>= λ row.
      sweep_rows m cfg signals latencies >>= λ rows. some (row ∷ rows)

  unfoldable pub run_latency_sweep :
      List (Signal W)
      → (merged_timeline : List (LogEvent J)) → SimConfig W
      → Option (List (SimResultRow W))
  run_latency_sweep signals m cfg = sweep_rows m cfg signals cfg.latencies_ms
