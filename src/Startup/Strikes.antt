-- ===== src/Startup/Strikes.antt =====
-- apps/btc_poly_runner.cpp: which market is taken at the start and at a rollover, and its strike. The
-- same functions stand in apps/live_pipeline.cpp. An exception of a discovery ends the program.
use prediction_market_arbitr.Base.{
  ℕ, ℤ, pos, leb_ℤ, Bool, true, false, if◌then◌else◌, ◌&&◌, List, [], Option, none, some,
}
use prediction_market_arbitr.Buckets.Discover.{
  BtcFiveMinuteBucketDiscovery, Gamma, epoch_or, epoch_of, in_window, bucket_of, try_slug,
  discover_active_btc_updown_5m_via_bucket,
}
use prediction_market_arbitr.Buckets.Market.{Outcome, found, rejected, raised}
use prediction_market_arbitr.Buckets.Slug.{slug_for_bucket}
use prediction_market_arbitr.Chainlink.Strike.{
  has_strike, fill_strike_from_polymarket_rtds_chainlink,
}
use prediction_market_arbitr.Chainlink.Ticks.{Tick}
use prediction_market_arbitr.Double.{Double}
use prediction_market_arbitr.Json.{Json}
use prediction_market_arbitr.Runner.State.{minus_one}
use prediction_market_arbitr.Web.Page.{fill_strike_from_polymarket_web_event_page}

-- HTTP, and what a wait for a strike sees of the price feed: whether it has started, the snapshots of
-- its buffer at each poll, and the last one.
pub record Sources (W E : Type 0) : Type 0 where
  pub gamma : Gamma E
  pub snapshots : E → (Bool × List (List (Tick W)) × List (Tick W)) × E

-- `kRtdsStrikeMaxSkewMs`
abbrev pub max_skew_ms : ℤ
max_skew_ms = pos 180000

abbrev pub or_same : {A : Type 0} → A → Option A → A
or_same a none = a
or_same a (some b) = b

module _ {W : Type 0} where
  -- The epoch of a market, -1 if there is none.
  abbrev pub disc_epoch : BtcFiveMinuteBucketDiscovery W → ℤ
  disc_epoch disc = epoch_or (epoch_of disc)

  abbrev pub scan_checked :
      {E : Type 0}
      → (accepts : BtcFiveMinuteBucketDiscovery W → Bool)
      → Outcome (BtcFiveMinuteBucketDiscovery W) × E
      → Outcome (BtcFiveMinuteBucketDiscovery W) × E
  scan_checked accepts (found disc, e) =
      (if accepts disc then found disc else rejected "before the next bucket", e)
  scan_checked accepts (rejected m, e) = (rejected m, e)
  scan_checked accepts (raised, e) = (raised, e)

module _ {W : Type 0} ⦃d : Double W⦄ where
  abbrev pub bucket_disc_has_strike : BtcFiveMinuteBucketDiscovery W → Bool
  bucket_disc_has_strike disc =
      d.is_finite disc.price_to_beat && d.lt (d.lit 0 0) disc.price_to_beat

  -- `BtcFiveMinuteBucketDiscovery{}`
  abbrev pub blank : BtcFiveMinuteBucketDiscovery W
  blank = record {
    confirmed_slug = [];
    bucket_epoch_seconds = minus_one;
    up_token_id = "";
    down_token_id = "";
    condition_id = "";
    market_numeric_id = [];
    price_to_beat = d.lit 0 0;
    gamma_has_price_to_beat = true;
    strike_from_polymarket_rtds_chainlink = false;
    strike_from_polymarket_web_event_page = false;
    event_start_wall_ms = minus_one;
  }

module _ {W J E : Type 0} ⦃d : Double W⦄ (json : Json W J) (sources : Sources W E) where
  unfoldable pub maybe_fill_strike_rtds :
      BtcFiveMinuteBucketDiscovery W → E → BtcFiveMinuteBucketDiscovery W × E
  maybe_fill_strike_rtds disc e =
      let ((started, polls, last), e') = sources.snapshots e in
      if has_strike disc then (disc, e) else (
        or_same disc
            (fill_strike_from_polymarket_rtds_chainlink started max_skew_ms polls last disc),
        e',
      )

  abbrev pub or_rtds :
      BtcFiveMinuteBucketDiscovery W
      → Option (BtcFiveMinuteBucketDiscovery W) × E
      → BtcFiveMinuteBucketDiscovery W × E
  or_rtds disc (some disc', e) = (disc', e)
  or_rtds disc (none, e) = maybe_fill_strike_rtds disc e

  unfoldable pub maybe_fill_strike_web_then_rtds :
      BtcFiveMinuteBucketDiscovery W
      → (try_web_first : Bool) → E
      → BtcFiveMinuteBucketDiscovery W × E
  maybe_fill_strike_web_then_rtds disc try_web_first e =
      if has_strike disc
      then (disc, e)
      else if try_web_first
      then or_rtds disc (fill_strike_from_polymarket_web_event_page json sources.gamma disc e)
      else maybe_fill_strike_rtds disc e

  -- What is found by its slug if it passes the test, else what the scan finds that passes the second.
  abbrev pub or_scan :
      (now_s : ℕ)
      → (accepts scan_accepts : BtcFiveMinuteBucketDiscovery W → Bool)
      → Outcome (BtcFiveMinuteBucketDiscovery W) × E
      → Outcome (BtcFiveMinuteBucketDiscovery W) × E
  or_scan now_s accepts scan_accepts (raised, e) = (raised, e)
  or_scan now_s accepts scan_accepts (rejected m, e) =
      scan_checked scan_accepts
        (discover_active_btc_updown_5m_via_bucket json sources.gamma now_s blank e)
  or_scan now_s accepts scan_accepts (found disc, e) =
      if accepts disc
      then (found disc, e)
      else scan_checked scan_accepts
          (discover_active_btc_updown_5m_via_bucket json sources.gamma now_s disc e)

  -- The first market: the one of the present bucket by its slug, else what the scan finds.
  unfoldable pub discover_initial : (now_s : ℕ) → E → Outcome (BtcFiveMinuteBucketDiscovery W) × E
  discover_initial now_s e =
      or_scan now_s
        (λ disc. leb_ℤ (pos 0) (disc_epoch disc) && in_window (pos now_s) (disc_epoch disc))
        (λ disc. true) (try_slug json sources.gamma (slug_for_bucket (bucket_of now_s)) blank e)

  -- The market of a rollover: the next one by its slug, else what the scan finds, not before it.
  unfoldable pub discover_next :
      (now_s : ℕ) → (next_epoch : ℤ) → E → Outcome (BtcFiveMinuteBucketDiscovery W) × E
  discover_next now_s next_epoch e =
      or_scan now_s (λ disc. leb_ℤ next_epoch (disc_epoch disc))
        (λ disc. leb_ℤ next_epoch disc.bucket_epoch_seconds)
        (try_slug json sources.gamma (slug_for_bucket next_epoch) blank e)
