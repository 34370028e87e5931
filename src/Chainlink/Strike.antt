-- ===== src/Chainlink/Strike.antt =====
-- src/polymarket/rtds_chainlink_strike.cpp: the strike of a market that was found without one.
use prediction_market_arbitr.Base.{
  ℤ, pos, ◌*ℤ◌, ltb_ℤ, leb_ℤ, Bool, true, not, if◌then◌else◌, ◌&&◌, List, Option, none, some,
}
use prediction_market_arbitr.Buckets.Discover.{BtcFiveMinuteBucketDiscovery}
use prediction_market_arbitr.Chainlink.Selection.{Pick, wait_strike}
use prediction_market_arbitr.Chainlink.Ticks.{Tick}
use prediction_market_arbitr.Double.{Double}

module _ {W : Type 0} where
  -- The boundary that the strike is taken at; negative if there is none.
  abbrev pub target_ms : BtcFiveMinuteBucketDiscovery W → ℤ
  target_ms disc =
      if ltb_ℤ disc.event_start_wall_ms (pos 0) && leb_ℤ (pos 0) disc.bucket_epoch_seconds
      then disc.bucket_epoch_seconds *ℤ pos 1000
      else disc.event_start_wall_ms

  abbrev pub struck :
      BtcFiveMinuteBucketDiscovery W
      → Option (Tick W × Pick × Bool)
      → Option (BtcFiveMinuteBucketDiscovery W)
  struck disc none = none
  struck disc (some (t, pick, immediate)) =
      some (record disc { price_to_beat = t.1; strike_from_polymarket_rtds_chainlink = true })

  -- The market has a price of its own.
  abbrev pub has_strike : ⦃d : Double W⦄ → BtcFiveMinuteBucketDiscovery W → Bool
  has_strike ⦃d⦄ disc =
      disc.gamma_has_price_to_beat
      && d.is_finite disc.price_to_beat
      && d.lt (d.lit 0 0) disc.price_to_beat

  -- `started` says whether the feed has started; `polls` and `last` are the snapshots of its buffer.
  -- `none` is the result `false`.
  unfoldable pub fill_strike_from_polymarket_rtds_chainlink :
      ⦃d : Double W⦄ (started : Bool) (max_timestamp_skew_ms : ℤ) (polls : List (List (Tick W)))
      (last : List (Tick W))
      → BtcFiveMinuteBucketDiscovery W
      → Option (BtcFiveMinuteBucketDiscovery W)
  fill_strike_from_polymarket_rtds_chainlink started max_skew polls last disc =
      let skew = if ltb_ℤ max_skew (pos 1000) then pos 1000 else max_skew in
      if has_strike disc
      then some disc
      else if ltb_ℤ (target_ms disc) (pos 0)
      then none
      else if not started
      then none
      else struck disc (wait_strike (target_ms disc) skew polls last)
