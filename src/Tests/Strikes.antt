-- ===== src/Tests/Strikes.antt =====
-- The price feed and the discovery of markets at concrete inputs.
use prediction_market_arbitr.Base.{ℕ, pos, true, false, ◌≡◌, List, [], ◌∷◌, none, some, arith}
use prediction_market_arbitr.Buckets.Discover.{
  BtcFiveMinuteBucketDiscovery, Gamma, discover_active_btc_updown_5m_via_bucket,
}
use prediction_market_arbitr.Buckets.RoundTrip.{parse_bucket_epoch_from_slug-slug_for_bucket}
use prediction_market_arbitr.Buckets.Slug.{parse_bucket_epoch_from_slug, slug_for_bucket}
use prediction_market_arbitr.Buckets.Window.{IfFound, IsPresent, discover_active-IsPresent}
use prediction_market_arbitr.Chainlink.Feed.{max_buffer, new_feed, run_watchdog, stop_inner}
use prediction_market_arbitr.Chainlink.Buffer.{IsLast}
use prediction_market_arbitr.Chainlink.History.{
  Turn, message, wanted, run, log_all, run-IsLast, stop_inner-no_watchdog,
}
use prediction_market_arbitr.Chainlink.Selection.{wait_strike}
use prediction_market_arbitr.Chainlink.Ticks.{Tick}
use prediction_market_arbitr.Chainlink.Waits.{Struck, allowed, wait_strike-Struck}
use prediction_market_arbitr.Tests.Fixed.{Fixed, dec, Double-Fixed}
use prediction_market_arbitr.Tests.World.{Json-Doc}

abbrev pub snapshot : List (Tick Fixed)
snapshot = (pos 1199800, dec 99 0) ∷ (pos 1200300, dec 100 0) ∷ (pos 1200900, dec 101 0) ∷ []

wait_strike-Struck_example :
    Struck
      (pos 1200000)
      (allowed (pos 2000))
      ([] ∷ snapshot ∷ [])
      snapshot
      (wait_strike (pos 1200000) (pos 2000) ([] ∷ snapshot ∷ []) snapshot)
wait_strike-Struck_example =
    wait_strike-Struck (pos 1200000) (pos 2000) ([] ∷ snapshot ∷ []) snapshot

abbrev turns : List Turn
turns = wanted true (pos 1000) ∷ message (pos 2000) "tick" ∷ message (pos 3000) "tick" ∷ []

run-IsLast_example :
    IsLast max_buffer (log_all Json-Doc turns new_feed []) (run Json-Doc turns new_feed).buffer
run-IsLast_example = run-IsLast Json-Doc turns

stop_inner-no_watchdog_example :
    run_watchdog false (pos 9000) true (pos 9500) (run Json-Doc turns (stop_inner new_feed))
    ≡ run Json-Doc turns (stop_inner new_feed)
stop_inner-no_watchdog_example =
    stop_inner-no_watchdog Json-Doc turns new_feed false (pos 9000) true (pos 9500)

parse_bucket_epoch_from_slug-slug_for_bucket_example :
    parse_bucket_epoch_from_slug (slug_for_bucket (pos 1200)) ≡ some (pos 1200)
parse_bucket_epoch_from_slug-slug_for_bucket_example =
    parse_bucket_epoch_from_slug-slug_for_bucket 1200 (omega arith)

abbrev gamma : Gamma ℕ
gamma = record { http_get = λ url e. (some "events", e); iso_ms = λ s. none }

abbrev nothing_yet : BtcFiveMinuteBucketDiscovery Fixed
nothing_yet = record {
  confirmed_slug = [];
  bucket_epoch_seconds = pos 0;
  up_token_id = "";
  down_token_id = "";
  condition_id = "";
  market_numeric_id = [];
  price_to_beat = dec 0 0;
  gamma_has_price_to_beat = true;
  strike_from_polymarket_rtds_chainlink = false;
  strike_from_polymarket_web_event_page = false;
  event_start_wall_ms = pos 0;
}

discover_active-IsPresent_example :
    IfFound
      (IsPresent 1234)
      (discover_active_btc_updown_5m_via_bucket Json-Doc gamma 1234 nothing_yet 0).0
discover_active-IsPresent_example =
    discover_active-IsPresent Json-Doc gamma 1234 nothing_yet 0 (omega arith) (omega arith)
