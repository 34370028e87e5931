-- ===== src/Pipeline/Volatility.antt =====
-- apps/live_pipeline.cpp: the volatility of an hour and the probability of a price above the strike.
use prediction_market_arbitr.Base.{
  ℕ, ◌+◌, ◌/◌, ℤ, pos, negsuc, ◌-ℤ◌, ltb, ltb_ℤ, leb_ℤ, if◌then◌else◌, ◌&&◌, ◌||◌, List, [], ◌∷◌,
  length,
}
use prediction_market_arbitr.Double.{Double}
use prediction_market_arbitr.Runner.Volatility.{hour_ms, max_points, sample, variance_of}

-- The number of points of the grid over an hour.
abbrev pub grid_points : ℤ → ℕ
grid_points (pos step) = 3600000 / step + 1
grid_points (negsuc n) = 0

module _ {W : Type 0} where
  -- The observations from `start` on; those before it at the front are dropped.
  unfoldable pub drop_before : ℤ → List (ℤ × W) → List (ℤ × W)
  drop_before start [] = []
  drop_before start (x ∷ xs) =
      let rest = drop_before start xs in if ltb_ℤ x.0 start then rest else x ∷ xs

module _ {W : Type 0} ⦃d : Double W⦄ where
  open d use {lit, of_int, nan, add, sub, mul, div, neg, lt, le, is_finite, log, sqrt, erfc}

  unfoldable pub normal_cdf : W → W
  normal_cdf x = mul (lit 5 1) (erfc (mul (neg x) (lit 70710678118654752440 20)))

  unfoldable pub d2 : (spot strike years sigma : W) → W
  d2 spot strike years sigma =
      let v = mul sigma (sqrt years) in
      let m = sub (log (div spot strike)) (mul (mul (mul (lit 5 1) sigma) sigma) years) in
      if le sigma (lit 0 0) || le years (lit 0 0) || le spot (lit 0 0) || le strike (lit 0 0)
      then (if lt strike spot then lit 1000000000 0 else neg (lit 1000000000 0))
      else div m v

  unfoldable pub digital_call_prob : (spot strike years sigma : W) → W
  digital_call_prob spot strike years sigma = normal_cdf (d2 spot strike years sigma)

  -- The logarithms of the returns between positive mids.
  unfoldable pub log_returns : W → List W → List W
  log_returns last [] = []
  log_returns last (x ∷ xs) =
      let rets = log_returns x xs in
      if lt (lit 0 0) last && lt (lit 0 0) x then log (div x last) ∷ rets else rets

  abbrev pub annualized : (step_ms : ℤ) → List W → W
  annualized step_ms rets =
      let per_year =
        div (mul (mul (mul (lit 365 0) (lit 24 0)) (lit 3600 0)) (lit 1000 0)) (of_int step_ms) in
      if ltb (length rets) 2 then nan else sqrt (mul (variance_of rets) per_year)

  abbrev pub vol_of_mids : (step_ms : ℤ) → List W → W
  vol_of_mids step_ms [] = nan
  vol_of_mids step_ms (x ∷ xs) =
      if ltb (length (x ∷ xs)) 3 then nan else annualized step_ms (log_returns x xs)

  abbrev pub vol_from : (t_end step_ms : ℤ) → List (ℤ × W) → W
  vol_from t_end step_ms [] = nan
  vol_from t_end step_ms (x ∷ xs) =
      if ltb (grid_points step_ms) 3
      then nan
      else vol_of_mids step_ms (sample max_points step_ms (t_end -ℤ hour_ms) t_end x.1 (x ∷ xs))

  unfoldable pub realized_vol_1h_resampled_from_hist :
      List (ℤ × W) → (t_end_wall_ms step_ms : ℤ) → W
  realized_vol_1h_resampled_from_hist hist t_end step_ms =
      if leb_ℤ step_ms (pos 0)
      then nan
      else vol_from t_end step_ms (drop_before (t_end -ℤ hour_ms) hist)
