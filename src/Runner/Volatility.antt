-- ===== src/Runner/Volatility.antt =====
-- apps/btc_poly_runner.cpp: `resample_mids_from_hist` and `realized_vol_from_resampled_mids`.
use prediction_market_arbitr.Base.{
  ℕ, zero, suc, ℤ, pos, ◌+ℤ◌, ◌-ℤ◌, not, ◌||◌, if◌then◌else◌, ltb, ltb_ℤ, leb_ℤ, List, [], ◌∷◌,
  length, foldl, Option, none, some,
}
use prediction_market_arbitr.Double.{Double}
use prediction_market_arbitr.Runner.State.{Config}

abbrev pub hour_ms : ℤ
hour_ms = pos 3600000

-- An hour has at most this many points on a grid of whole milliseconds.
abbrev pub max_points : ℕ
max_points = 3600001

module _ {W : Type 0} where
  -- The first observation at or after `start`, or the last one if there is none, and what follows it.
  unfoldable pub skip_to : ℤ → ℤ × W → List (ℤ × W) → (ℤ × W) × List (ℤ × W)
  skip_to start cur [] = (cur, [])
  skip_to start cur (x ∷ xs) =
      let rest = skip_to start x xs in if ltb_ℤ cur.0 start then rest else (cur, x ∷ xs)

  -- The mid of the last observation at or before `t`, and what follows it.
  unfoldable pub catch_up : ℤ → W → List (ℤ × W) → W × List (ℤ × W)
  catch_up t last [] = (last, [])
  catch_up t last (x ∷ xs) =
      let rest = catch_up t x.1 xs in if leb_ℤ x.0 t then rest else (last, x ∷ xs)

  -- The grid from `t` to `now`, for at most `n` points.
  unfoldable pub sample : ℕ → (step t now : ℤ) → W → List (ℤ × W) → List W
  sample zero step t now last obs = []
  sample (suc n) step t now last obs =
      let r = catch_up t last obs in
      let rest = sample n step (t +ℤ step) now r.0 r.1 in if leb_ℤ t now then r.0 ∷ rest else []

  unfoldable pub resample_mids_from_hist : List (ℤ × W) → (now step : ℤ) → List W
  resample_mids_from_hist [] now step = []
  resample_mids_from_hist (x ∷ xs) now step =
      let start = now -ℤ hour_ms in
      let r = skip_to start x xs in
      if ltb (length (x ∷ xs)) 3 then [] else sample max_points step start now r.0.1 r.1

module _ {W : Type 0} ⦃d : Double W⦄ where
  open d use {lit, of_int, add, sub, mul, div, lt, is_finite, log, sqrt}

  -- The logarithms of the returns that are finite.
  unfoldable pub log_returns : W → List W → List W
  log_returns last [] = []
  log_returns last (x ∷ xs) =
      let rets = log_returns x xs in
      if is_finite (log (div x last)) then log (div x last) ∷ rets else rets

  abbrev pub count : List W → W
  count xs = of_int (pos (length xs))

  unfoldable pub mean_of : List W → W
  mean_of rets = div (foldl add (lit 0 0) rets) (count rets)

  -- `var` after its division by the number of returns less one.
  unfoldable pub variance_of : List W → W
  variance_of rets =
      let mean = mean_of rets in
      div (foldl (λ v x. add v (mul (sub x mean) (sub x mean))) (lit 0 0) rets)
        (of_int (pos (length rets) -ℤ pos 1))

  unfoldable pub steps_per_year : ℤ → W
  steps_per_year step =
      let whole = if ltb_ℤ (pos 1) step then step else pos 1 in
      div (mul (mul (mul (lit 365 0) (lit 24 0)) (lit 3600 0)) (lit 1000 0)) (of_int whole)

  unfoldable pub sigma_of_returns : Config W → (step : ℤ) → List W → Option W
  sigma_of_returns c step rets =
      let sig = sqrt (mul (variance_of rets) (steps_per_year step)) in
      if ltb (length rets) 10
      then none
      else if not (is_finite sig) || lt sig c.sigma_rv_min || lt c.sigma_rv_max sig
      then none
      else some sig

  unfoldable pub realized_vol_from_resampled_mids : Config W → (step : ℤ) → List W → Option W
  realized_vol_from_resampled_mids c step [] = none
  realized_vol_from_resampled_mids c step (x ∷ xs) =
      if ltb (length (x ∷ xs)) 10 then none else sigma_of_returns c step (log_returns x xs)
