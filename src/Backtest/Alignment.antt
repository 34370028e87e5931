-- ===== src/Backtest/Alignment.antt =====
-- src/replay/timeline_merge.cpp: the lags that the statistics count.
use prediction_market_arbitr.Backtest.Events.{
  LogEvent, ◌>>=◌, is_binance_trade, is_polymarket_quote,
}
use prediction_market_arbitr.Backtest.Timeline.{
  AlignmentStats, no_pairs, add_lag, lag_within, lag_of, stats_from, alignment_stats, merge_sorted,
}
use prediction_market_arbitr.Base.{
  ℤ, ◌-ℤ◌, ◌≤ℤ◌, -ℤ_parts, ltb_ℤ, Bool, true, false, if◌then◌else◌, ◌≡◌, refl, ap, ◌∙◌, Bool-cases,
  inl, inr, List, [], ◌∷◌, ◌++◌, foldl, All, Option, none, some, arith,
}
use prediction_market_arbitr.Json.{Json}

abbrev pub holds : Option Bool → Bool
holds none = false
holds (some b) = b

module _ {W J : Type 0} (json : Json W J) where
  -- The key of the first quote.
  abbrev pub first_quote_key : List (LogEvent J) → Option ℤ
  first_quote_key [] = none
  first_quote_key (e ∷ es) =
      if holds (is_polymarket_quote json e) then some e.sort_key_ns else first_quote_key es

  abbrev pub in_window : (window_ns t0 : ℤ) → Option ℤ → Option ℤ
  in_window window_ns t0 none = none
  in_window window_ns t0 (some key) = if ltb_ℤ window_ns (key -ℤ t0) then none else some (key -ℤ t0)

  -- The lag that is counted for an event.
  abbrev pub lag_at : (window_ns : ℤ) → LogEvent J → List (LogEvent J) → Option ℤ
  lag_at window_ns e es =
      if holds (is_binance_trade json e)
      then in_window window_ns e.sort_key_ns (first_quote_key es)
      else none

  -- For each event: the lag to the first later quote, if it is a trade and the lag is in the window.
  abbrev pub lags : (window_ns : ℤ) → List (LogEvent J) → List (Option ℤ)
  lags window_ns [] = []
  lags window_ns (e ∷ es) = lag_at window_ns e es ∷ lags window_ns es

  -- The types of the event can be read.
  abbrev pub Readable : LogEvent J → Type 0
  Readable e =
      ((q : Bool) × (is_polymarket_quote json e ≡ some q))
      × ((t : Bool) × (is_binance_trade json e ≡ some t))

  abbrev pub NotBefore : ℤ → LogEvent J → Type 0
  NotBefore t e = t ≤ℤ e.sort_key_ns

  abbrev pub IsSorted : List (LogEvent J) → Type 0
  IsSorted [] = Unit
  IsSorted (e ∷ es) = All (NotBefore e.sort_key_ns) es × IsSorted es

  -- Past an event outside the window there is no quote inside it.
  nothing_after :
      (window_ns t0 t : ℤ) (es : List (LogEvent J))
      → ltb_ℤ window_ns (t -ℤ t0) ≡ true
      → All (NotBefore t) es
      → in_window window_ns t0 (first_quote_key es) ≡ none
  nothing_after window_ns t0 t [] h k = refl
  nothing_after window_ns t0 t (e ∷ es) h k =
      elim (Bool-cases (holds (is_polymarket_quote json e))) [
        | inl quote ↦ rw quote (ground (arith, h, k.0, -ℤ_parts t t0, -ℤ_parts e.sort_key_ns t0))
        | inr other ↦ rw other (nothing_after window_ns t0 t es h k.1)
      ]

  lag_within-eq :
      (window_ns t0 : ℤ) (es : List (LogEvent J))
      → IsSorted es
      → All Readable es
      → lag_within json window_ns t0 es ≡ some (in_window window_ns t0 (first_quote_key es))
  unfolding lag_within
  lag_within-eq window_ns t0 [] s r = refl
  lag_within-eq window_ns t0 (e ∷ es) s r =
      let rest = lag_within-eq window_ns t0 es s.1 r.1 in
      elim (Bool-cases (ltb_ℤ window_ns (e.sort_key_ns -ℤ t0))) [
        | inl out ↦
            ground (arith, out, r.0.0.1, nothing_after window_ns t0 e.sort_key_ns es out s.0)
        | inr inside ↦ ground (arith, inside, r.0.0.1, rest)
      ]

  lag_of-eq :
      (window_ns : ℤ) (e : LogEvent J) (es : List (LogEvent J))
      → IsSorted es
      → All Readable es
      → Readable e
      → lag_of json window_ns e es ≡ some (lag_at window_ns e es)
  lag_of-eq window_ns e es h r q =
      ground (arith, q.1.1, lag_within-eq window_ns e.sort_key_ns es h r)

  stats_from-eq :
      (window_ns : ℤ) (es : List (LogEvent J)) (s : AlignmentStats)
      → IsSorted es
      → All Readable es
      → stats_from json window_ns es s ≡ some (foldl add_lag s (lags window_ns es))
  unfolding stats_from
  stats_from-eq window_ns [] s h r = refl
  stats_from-eq window_ns (e ∷ es) s h r =
      ap (λ (o : Option (Option ℤ)). o >>= λ lag. stats_from json window_ns es (add_lag s lag))
        (lag_of-eq window_ns e es h.1 r.1 r.0)
      ∙ stats_from-eq window_ns es (add_lag s (lag_at window_ns e es)) h.1 r.1

  -- Where `std::sort` has sorted by the times, and the types of the events can be read, the statistics of two merged
  -- recordings are those of the lags from each trade to the first later quote, as far as they lie in the
  -- window: the search that stops at the first event outside the window misses none.
  pub alignment_stats-lags :
      (sort : List (LogEvent J) → List (LogEvent J)) (a b : List (LogEvent J)) (window_ns : ℤ)
      → IsSorted (merge_sorted json sort a b)
      → All Readable (merge_sorted json sort a b)
      → alignment_stats json (merge_sorted json sort a b) window_ns
        ≡ some (foldl add_lag no_pairs (lags window_ns (merge_sorted json sort a b)))
  unfolding alignment_stats merge_sorted
  alignment_stats-lags sort a b window_ns sorted r =
      stats_from-eq window_ns (sort (a ++ b)) no_pairs sorted r
