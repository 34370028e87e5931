-- ===== src/Backtest/Timeline.antt =====
-- src/replay/timeline_merge.cpp: loading, merging and the statistics of the lags. A file is the list of
-- its lines, and `std::sort` by `sort_key_ns` is a parameter. `none` is an exception.
use prediction_market_arbitr.Base.{
  ℕ, ◌+◌, ◌^◌, ◌-◌, ℤ, pos, ◌+ℤ◌, ◌-ℤ◌, ltb_ℤ, String, if◌then◌else◌, List, [], ◌∷◌, ◌++◌, Option,
  none, some, is_empty,
}
use prediction_market_arbitr.Backtest.Events.{
  LogEvent, ◌>>=◌, sort_key_from_row, is_binance_trade, is_polymarket_quote,
}
use prediction_market_arbitr.Json.{Json, value_string}

-- The numbers that `print_alignment_stats` computes.
pub record AlignmentStats : Type 0 where
  pub pairs : ℕ
  pub sum_delay_ns : ℤ
  pub min_delay_ns : ℤ
  pub max_delay_ns : ℤ

abbrev pub no_pairs : AlignmentStats
no_pairs = record {
  pairs = 0;
  sum_delay_ns = pos 0;
  min_delay_ns = pos (2 ^ 63 - 1);
  max_delay_ns = pos 0;
}

-- `std::min` and `std::max`
abbrev pub min_ℤ : ℤ → ℤ → ℤ
min_ℤ a b = if ltb_ℤ b a then b else a

abbrev pub max_ℤ : ℤ → ℤ → ℤ
max_ℤ a b = if ltb_ℤ a b then b else a

-- One trade, with the lag to its quote if there is one.
unfoldable pub add_lag : AlignmentStats → Option ℤ → AlignmentStats
add_lag s none = s
add_lag s (some lag) = record {
  pairs = s.pairs + 1;
  sum_delay_ns = s.sum_delay_ns +ℤ lag;
  min_delay_ns = min_ℤ s.min_delay_ns lag;
  max_delay_ns = max_ℤ s.max_delay_ns lag;
}

module _ {W J : Type 0} (json : Json W J) where
  abbrev pub event_of : J → Option (LogEvent J)
  event_of j = sort_key_from_row json j >>= λ key. value_string json j "source" "" >>= λ source.
      some (record { sort_key_ns = key; source = source; row = j })

  unfoldable pub read_lines : List String → Option (List (LogEvent J))
  read_lines [] = some []
  read_lines (line ∷ lines) =
      let rest = read_lines lines in
      if is_empty line
      then rest
      else (json.parse line >>= λ j. event_of j >>= λ ev. rest >>= λ evs. some (ev ∷ evs))

  -- The lag from the time `t0` to the first quote, if it comes before an event outside the window.
  unfoldable pub lag_within : (window_ns t0 : ℤ) → List (LogEvent J) → Option (Option ℤ)
  lag_within window_ns t0 [] = some none
  lag_within window_ns t0 (e ∷ es) =
      let rest = lag_within window_ns t0 es in
      if ltb_ℤ window_ns (e.sort_key_ns -ℤ t0)
      then some none
      else (is_polymarket_quote json e >>= λ quote.
          if quote then some (some (e.sort_key_ns -ℤ t0)) else rest)

  abbrev pub lag_of : (window_ns : ℤ) → LogEvent J → List (LogEvent J) → Option (Option ℤ)
  lag_of window_ns e es = is_binance_trade json e >>= λ trade.
      if trade then lag_within window_ns e.sort_key_ns es else some none

  -- The loop of `print_alignment_stats`.
  unfoldable pub stats_from :
      (window_ns : ℤ) → List (LogEvent J) → AlignmentStats → Option AlignmentStats
  stats_from window_ns [] s = some s
  stats_from window_ns (e ∷ es) s =
      lag_of window_ns e es >>= λ lag. stats_from window_ns es (add_lag s lag)

  unfoldable pub alignment_stats : List (LogEvent J) → (window_ns : ℤ) → Option AlignmentStats
  alignment_stats merged window_ns = stats_from window_ns merged no_pairs

  module _ (sort : List (LogEvent J) → List (LogEvent J)) where
    abbrev pub sorted : Option (List (LogEvent J)) → Option (List (LogEvent J))
    sorted none = none
    sorted (some evs) = some (sort evs)

    unfoldable pub load_jsonl : List String → Option (List (LogEvent J))
    load_jsonl lines = sorted (read_lines lines)

    unfoldable pub merge_sorted : (a b : List (LogEvent J)) → List (LogEvent J)
    merge_sorted a b = sort (a ++ b)
