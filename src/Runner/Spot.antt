-- ===== src/Runner/Spot.antt =====
-- apps/btc_poly_runner.cpp: the ChainlinkSpot, BinBook and BinTrade events of the consumer thread.
-- The latency monitor and the tick log are left out.
use prediction_market_arbitr.Base.{
  suc, ◌/◌, ℤ, pos, negsuc, ◌-ℤ◌, ◌*ℤ◌, Bool, true, false, not, ◌&&◌, if◌then◌else◌, ltb, ltb_ℤ,
  leb_ℤ, List, [], ◌∷◌, ◌++◌, length, Option, none, some,
}
use prediction_market_arbitr.Double.{Double}
use prediction_market_arbitr.Json.{Json}
use prediction_market_arbitr.Runner.Book.{Feeds}
use prediction_market_arbitr.Runner.Pricing.{clamp_sigma}
use prediction_market_arbitr.Runner.Rollover.{on_hot_update}
use prediction_market_arbitr.Runner.State.{
  Config, HotState, Desk, SigmaVolMode, rolling, slug_fixed, constant,
}
use prediction_market_arbitr.Runner.Venue.{Venue}
use prediction_market_arbitr.Runner.Volatility.{
  hour_ms, resample_mids_from_hist, realized_vol_from_resampled_mids,
}

pub data SpotTick (W : Type 0) : Type 0 where
  chainlink_spot : (ts_ms : ℤ) (px : W) → SpotTick W
  bin_book : (bid_price ask_price : W) (local_wall_ms : ℤ) → SpotTick W
  bin_trade : (price : W) (local_wall_ms : ℤ) → SpotTick W

-- `wall_ms / 1000`
abbrev pub whole_seconds : ℤ → ℤ
whole_seconds (pos n) = pos (n / 1000)
whole_seconds (negsuc n) = pos 0 -ℤ pos (suc n / 1000)

abbrev pub is_rolling : SigmaVolMode → Bool
is_rolling rolling = true
is_rolling _ = false

abbrev pub is_slug_fixed : SigmaVolMode → Bool
is_slug_fixed slug_fixed = true
is_slug_fixed _ = false

abbrev pub is_constant : SigmaVolMode → Bool
is_constant constant = true
is_constant _ = false

module _ {W : Type 0} where
  abbrev pub tick_wall_ms : SpotTick W → ℤ
  tick_wall_ms (chainlink_spot ts px) = ts
  tick_wall_ms (bin_book bid ask wall) = wall
  tick_wall_ms (bin_trade price wall) = wall

  -- `hist_trim_floor_ms`
  unfoldable pub trim_floor : Config W → HotState W → ℤ → ℤ
  trim_floor c h wall =
      let floor = wall -ℤ hour_ms in
      let slug_start = h.active_epoch *ℤ pos 1000 -ℤ hour_ms in
      if is_slug_fixed c.sigma_vol_mode
        && not (ltb_ℤ h.active_epoch (pos 0))
        && ltb_ℤ slug_start floor
      then slug_start
      else floor

  unfoldable pub trim : ℤ → List (ℤ × W) → List (ℤ × W)
  trim floor [] = []
  trim floor (x ∷ xs) = let rest = trim floor xs in if ltb_ℤ x.0 floor then rest else x ∷ xs

  unfoldable pub note_spot : Config W → (mid : W) (wall entry_clock : ℤ) → HotState W → HotState W
  note_spot c mid wall entry_clock h = record h {
    have_bin = true;
    bin_mid = mid;
    bin_wall_ms = wall;
    bin_entry_clock_wall_ms = entry_clock;
    bin_hist = trim (trim_floor c h wall) (h.bin_hist ++ ((wall, mid) ∷ []));
  }

  abbrev pub in_bucket : ℤ → HotState W → Bool
  in_bucket wall h = not (ltb_ℤ h.active_epoch (pos 0)) && leb_ℤ h.active_epoch (whole_seconds wall)

  -- `sigma_anchor_wall_ms`
  abbrev pub anchor_ms : Config W → ℤ → HotState W → ℤ
  anchor_ms c wall h = if is_slug_fixed c.sigma_vol_mode then h.active_epoch *ℤ pos 1000 else wall

  -- Does the history reach back an hour before `anchor`?
  abbrev pub full_hour : ℤ → List (ℤ × W) → Bool
  full_hour anchor [] = false
  full_hour anchor (x ∷ xs) = leb_ℤ x.0 (anchor -ℤ hour_ms)

module _ {W : Type 0} ⦃d : Double W⦄ where
  open d use {lit, nan, add, mul, le, is_finite}

  abbrev pub tick_mid : SpotTick W → W
  tick_mid (chainlink_spot ts px) = px
  tick_mid (bin_book bid ask wall) = mul (lit 5 1) (add bid ask)
  tick_mid (bin_trade price wall) = price

  abbrev pub in_rv_range : Config W → W → Bool
  in_rv_range c sig = is_finite sig && le c.sigma_rv_min sig && le sig c.sigma_rv_max

  abbrev pub set_sigma : Config W → W → HotState W → HotState W
  set_sigma c sig h = record h {
    have_sigma = true;
    sigma_bucket = clamp_sigma sig c.sigma_clamp_min c.sigma_clamp_max;
  }

  abbrev pub drop_sigma : HotState W → HotState W
  drop_sigma h = record h { have_sigma = false; sigma_bucket = lit 0 0 }

  unfoldable pub accept_sigma : Config W → W → HotState W → HotState W
  accept_sigma c sig h = if in_rv_range c sig then set_sigma c sig h else drop_sigma h

  unfoldable pub take_sigma : Config W → Option W → HotState W → HotState W
  take_sigma c none h = h
  take_sigma c (some sig) h = set_sigma c sig h

  -- Rolling realized volatility, at every tick.
  unfoldable pub rolling_sigma : Config W → ℤ → HotState W → HotState W
  rolling_sigma c wall h =
      let mids = resample_mids_from_hist h.bin_hist wall c.sigma_step_ms in
      let h' : HotState W = record h { sigma_vol_window_full = true } in
      if not (is_rolling c.sigma_vol_mode)
      then h
      else if not (in_bucket wall h && full_hour wall h.bin_hist)
      then h
      else if ltb (length mids) 10
      then h'
      else take_sigma c (realized_vol_from_resampled_mids c c.sigma_step_ms mids) h'

  abbrev pub or_nan : Option W → W
  or_nan none = nan
  or_nan (some x) = x

module _ {W J E : Type 0} ⦃d : Double W⦄ ⦃json : Json W J⦄ (v : Venue W J E) where
  -- `final_sig`: the GARCH forecast if it is wanted and in range, else the realized volatility.
  unfoldable pub estimate_sigma : Config W → List W → E → W × E
  estimate_sigma c mids e =
      let realized = or_nan (realized_vol_from_resampled_mids c c.sigma_step_ms mids) in
      let r = v.query_garch_sigma mids c.sigma_step_ms e in
      if not c.sigma_try_garch then (realized, e) else elim r.0 [
        | none ↦ (realized, r.1)
        | some garch ↦ (if in_rv_range c garch then garch else realized, r.1)
      ]

  unfoldable pub sigma_of_mids : Config W → List W → HotState W → E → HotState W × E
  sigma_of_mids c [] h e = (drop_sigma h, e)
  sigma_of_mids c (m ∷ ms) h e = let r = estimate_sigma c (m ∷ ms) e in (accept_sigma c r.0 h, r.1)

  -- A full hour of history gives the bucket's volatility; without it there is none.
  unfoldable pub snapshot_sigma : Config W → ℤ → HotState W → E → HotState W × E
  snapshot_sigma c wall h e =
      let anchor = anchor_ms c wall h in
      let mids = resample_mids_from_hist h.bin_hist anchor c.sigma_step_ms in
      let h' : HotState W = record h { sigma_vol_window_full = true } in
      if not (full_hour anchor h.bin_hist) then (drop_sigma h, e) else sigma_of_mids c mids h' e

  unfoldable pub bucket_sigma : Config W → ℤ → HotState W → E → HotState W × E
  bucket_sigma c wall h e =
      if is_constant c.sigma_vol_mode && in_bucket wall h
      then (set_sigma c c.sigma_fallback h, e)
      else if in_bucket wall h && not h.have_sigma
      then snapshot_sigma c wall h e
      else (h, e)

  -- `entry_clock_wall_ms`
  unfoldable pub entry_clock : SpotTick W → E → ℤ × E
  entry_clock (chainlink_spot ts px) e = v.system_ms e
  entry_clock (bin_book bid ask wall) e = (wall, e)
  entry_clock (bin_trade price wall) e = (wall, e)

  unfoldable pub on_spot : Config W → Feeds → SpotTick W → Desk W → E → Desk W × E
  on_spot c f tick s e =
      let wall = tick_wall_ms tick in
      let clock = entry_clock tick e in
      let noted = note_spot c (tick_mid tick) wall clock.0 s.hot in
      let priced = bucket_sigma c wall noted clock.1 in
      on_hot_update v c f (record s { hot = rolling_sigma c wall priced.0 }) priced.1
