-- ===== src/Tests/Spots.antt =====
-- Spot prices and volatility at concrete inputs.
use prediction_market_arbitr.Base.{ℤ, pos, ◌-ℤ◌, ◌≡◌, refl, inl, List, [], ◌∷◌, ◌≤ℤ◌, arith}
use prediction_market_arbitr.Runner.Book.{Feeds}
use prediction_market_arbitr.Runner.Resamples.{
  IsFirst, Resampled, resample_mids_from_hist-Resampled,
}
use prediction_market_arbitr.Runner.Events.{Event, spotted, run}
use prediction_market_arbitr.Runner.Resampling.{resample_complete}
use prediction_market_arbitr.Runner.Sigma.{IsClamped, run-IsClamped}
use prediction_market_arbitr.Runner.Spot.{chainlink_spot, bin_book}
use prediction_market_arbitr.Runner.Volatility.{
  max_points, hour_ms, skip_to, sample, resample_mids_from_hist,
}
use prediction_market_arbitr.Tests.Fixed.{Fixed, dec, Double-Fixed, Fixed-IsOrdered}
use prediction_market_arbitr.Tests.Fixtures.{settings, desk, silent, feeds, history}
use prediction_market_arbitr.Tests.World.{venue, Json-Doc}

abbrev spots : List (Feeds × Event Fixed)
spots =
    (feeds, spotted (chainlink_spot (pos 1001000) (dec 101 0)))
    ∷ (feeds, spotted (bin_book (dec 99 0) (dec 100 0) (pos 1002000)))
    ∷ history

run-IsClamped_example : IsClamped settings (run venue settings spots desk silent).0.hot
unfolding Double-Fixed
run-IsClamped_example =
    run-IsClamped Fixed-IsOrdered venue settings refl spots desk silent (inl refl)

abbrev observed : List (ℤ × Fixed)
observed = (pos 1800000, dec 101 0) ∷ (pos 3000000, dec 102 0) ∷ []

-- An hour by half hours.
resample_complete_example :
    resample_mids_from_hist ((pos 0, dec 100 0) ∷ observed) (pos 3600000) (pos 1800000)
    ≡ sample 4000000
        (pos 1800000)
        (pos 3600000 -ℤ hour_ms)
        (pos 3600000)
        (skip_to (pos 3600000 -ℤ hour_ms) (pos 0, dec 100 0) observed).0.1
        (skip_to (pos 3600000 -ℤ hour_ms) (pos 0, dec 100 0) observed).1
resample_complete_example =
    resample_complete (pos 0, dec 100 0) observed (pos 3600000) 1800000 4000000 (omega arith)
      (omega arith) (omega arith)

resample_mids_from_hist-Resampled_example :
    (first : ℤ × Fixed) × (rest : List (ℤ × Fixed)) × IsFirst
      (pos 3600000 -ℤ hour_ms)
      ((pos 0, dec 100 0) ∷ observed)
      first
      rest
    × Resampled first.1 rest
        (pos 1800000)
        (pos 3600000)
        max_points
        (pos 3600000 -ℤ hour_ms)
        (resample_mids_from_hist ((pos 0, dec 100 0) ∷ observed) (pos 3600000) (pos 1800000))
resample_mids_from_hist-Resampled_example =
    resample_mids_from_hist-Resampled (pos 0, dec 100 0) observed (pos 3600000) 1800000
      (omega arith)

first_in_time : (skip_to (pos 500) (pos 0, dec 100 0) observed).0.0 ≤ℤ pos 2000000
unfolding skip_to
first_in_time = omega arith
