-- ===== src/Runner/Pricing.antt =====
-- apps/btc_poly_runner.cpp: fair values, the volatility clamp and the taker fee.
use prediction_market_arbitr.Base.{pos, ◌+ℤ◌, ◌-ℤ◌, ◌*ℤ◌, Bool, not, if◌then◌else◌, ◌||◌, ltb_ℤ}
use prediction_market_arbitr.Double.{Double, fmax}
use prediction_market_arbitr.Runner.State.{Config, HotState}

module _ {W : Type 0} ⦃d : Double W⦄ where
  open d use {lit, add, sub, mul, div, neg, lt, le, is_finite, exp, log, sqrt, erfc, round, of_int}

  unfoldable pub clamp01 : W → W
  clamp01 x = if lt x (lit 0 0) then lit 0 0 else if lt (lit 1 0) x then lit 1 0 else x

  unfoldable pub clamp_sigma : W → W → W → W
  clamp_sigma s lo hi =
      if not (is_finite s) then lo else if lt s lo then lo else if lt hi s then hi else s

  unfoldable pub normal_cdf : W → W
  normal_cdf x = mul (lit 5 1) (erfc (div (neg x) (sqrt (lit 2 0))))

  -- Fee of a Polymarket taker order, rounded to 5 decimals.
  unfoldable pub poly_taker_fee : W → W → W → W
  poly_taker_fee notional_usdc price fee_rate =
      let raw = mul (mul (mul notional_usdc fee_rate) price) (sub (lit 1 0) price) in
      let fee = div (round (mul raw (lit 100000 0))) (lit 100000 0) in
      if le (lit 1 5) fee then fee else lit 0 0

  -- Seconds left in the bucket, at least a millisecond.
  unfoldable pub rem_s : HotState W → W
  rem_s h =
      fmax (lit 1 3)
        (div (of_int ((h.active_epoch +ℤ pos 300) *ℤ pos 1000 -ℤ h.bin_wall_ms)) (lit 1000 0))

  unfoldable pub sigma_use : Config W → HotState W → W
  unfolding clamp_sigma
  sigma_use c h =
      clamp_sigma (if h.have_sigma then h.sigma_bucket else c.sigma_fallback) c.sigma_clamp_min
        c.sigma_clamp_max

  -- `T_years` from the seconds left
  unfoldable pub years : W → W
  years rem = div rem (mul (mul (lit 365 0) (lit 24 0)) (lit 3600 0))

  -- The two fair values that `execute_due` and `on_hot_update` compute from the hot state.
  unfoldable pub theo : Config W → HotState W → W × W
  unfolding rem_s sigma_use years normal_cdf clamp01
  theo c h =
      let t = years (rem_s h) in
      let sigma = sigma_use c h in
      let drift = mul (sub c.r (mul (mul (lit 5 1) sigma) sigma)) t in
      let d2 = div (add (log (div h.bin_mid h.k)) drift) (mul sigma (sqrt t)) in
      let disc = exp (mul (neg c.r) t) in
      (clamp01 (mul disc (normal_cdf d2)), clamp01 (mul disc (normal_cdf (neg d2))))

module _ {W : Type 0} where
  -- The test with which `execute_due` and `on_hot_update` begin.
  abbrev pub is_ready : HotState W → Bool
  is_ready h = not (
      not h.have_bin
      || not h.have_k
      || not h.have_up
      || not h.have_down
      || ltb_ℤ h.active_epoch (pos 0))
