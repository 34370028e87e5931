-- ===== src/Runner/Bounds.antt =====
-- Bounds on fair values and volatility.
use prediction_market_arbitr.Base.{false, ◌≡◌, arith}
use prediction_market_arbitr.Double.{Double, ◌≼◌, IsOrdered}
use prediction_market_arbitr.Runner.Pricing.{clamp01, clamp_sigma, sigma_use, theo}
use prediction_market_arbitr.Runner.State.{Config, HotState}

module _ {W : Type 0} ⦃d : Double W⦄ (laws : IsOrdered W) where
  open d use {lit, lt, le, is_finite, add, sub, mul, div}
  open laws use {le_trans, refl_of_le, le_total, lt-eq-not-le, le_of_lt, finite_refl}

  le_of_not-lt : (x y : W) → x ≼ x → y ≼ y → lt x y ≡ false → y ≼ x
  le_of_not-lt x y rx ry h = ground (arith, lt-eq-not-le x y rx ry)

  pub clamp_sigma_bounds :
      (s lo hi : W) → lo ≼ hi → (lo ≼ clamp_sigma s lo hi) × (clamp_sigma s lo hi ≼ hi)
  unfolding clamp_sigma
  clamp_sigma_bounds s lo hi h =
      ground (arith, refl_of_le lo hi h, finite_refl s, le_of_not-lt s lo, le_of_not-lt hi s)

  -- The volatility that prices are computed with lies between the two clamps, whatever the estimate
  -- is, a NaN included, if the clamps stand in order.
  pub sigma_use_bounds :
      (c : Config W) (h : HotState W)
      → c.sigma_clamp_min ≼ c.sigma_clamp_max
      → (c.sigma_clamp_min ≼ sigma_use c h) × (sigma_use c h ≼ c.sigma_clamp_max)
  unfolding sigma_use
  sigma_use_bounds c h k = clamp_sigma_bounds _ c.sigma_clamp_min c.sigma_clamp_max k

  clamp01_bounds :
      (x : W)
      → lit 0 0 ≼ lit 1 0
      → clamp01 x ≼ clamp01 x
      → (lit 0 0 ≼ clamp01 x) × (clamp01 x ≼ lit 1 0)
  unfolding clamp01
  clamp01_bounds x h r =
      ground (
        arith,
        refl_of_le (lit 0 0) (lit 1 0) h,
        le_of_not-lt x (lit 0 0),
        le_of_not-lt (lit 1 0) x,
      )

  -- The two fair values lie between 0 and 1, if they are not NaN.
  pub theo_bounds :
      (c : Config W) (h : HotState W)
      → lit 0 0 ≼ lit 1 0
      → (theo c h).0 ≼ (theo c h).0
      → (theo c h).1 ≼ (theo c h).1
      → ((lit 0 0 ≼ (theo c h).0) × ((theo c h).0 ≼ lit 1 0))
        × ((lit 0 0 ≼ (theo c h).1) × ((theo c h).1 ≼ lit 1 0))
  unfolding theo
  theo_bounds c h o up down = (clamp01_bounds _ o up, clamp01_bounds _ o down)
