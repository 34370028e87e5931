-- ===== src/Startup/Fills.antt =====
-- apps/btc_poly_runner.cpp: filling in a strike leaves the market as it is.
use prediction_market_arbitr.Base.{
  ℤ, pos, ltb_ℤ, Bool, not, ◌≡◌, refl, if_intro, List, Option, none, some,
}
use prediction_market_arbitr.Buckets.Discover.{BtcFiveMinuteBucketDiscovery}
use prediction_market_arbitr.Buckets.Market.{Outcome, found, rejected, raised}
use prediction_market_arbitr.Chainlink.Strike.{
  has_strike, fill_strike_from_polymarket_rtds_chainlink, struck, target_ms,
}
use prediction_market_arbitr.Chainlink.Selection.{Pick}
use prediction_market_arbitr.Chainlink.Ticks.{Tick}
use prediction_market_arbitr.Double.{Double}
use prediction_market_arbitr.Json.{Json}
use prediction_market_arbitr.Startup.Strikes.{
  Sources, or_same, or_rtds, maybe_fill_strike_rtds, maybe_fill_strike_web_then_rtds,
}
use prediction_market_arbitr.Web.Page.{
  fill_strike_from_polymarket_web_event_page, with_web_price, no_slug,
}

module _ {W : Type 0} where
  -- A strike was filled in, and the market is the same.
  pub record IsSameMarket (a b : BtcFiveMinuteBucketDiscovery W) : Type 0 where
    pub slug : b.confirmed_slug ≡ a.confirmed_slug
    pub epoch : b.bucket_epoch_seconds ≡ a.bucket_epoch_seconds
    pub up_token : b.up_token_id ≡ a.up_token_id
    pub down_token : b.down_token_id ≡ a.down_token_id

  same_market : (a : BtcFiveMinuteBucketDiscovery W) → IsSameMarket a a
  same_market a = record { slug = refl; epoch = refl; up_token = refl; down_token = refl }

  abbrev IfSome :
      (a : BtcFiveMinuteBucketDiscovery W) → Option (BtcFiveMinuteBucketDiscovery W) → Type 0
  IfSome a none = Unit
  IfSome a (some b) = IsSameMarket a b

  or_same-IsSameMarket :
      (a : BtcFiveMinuteBucketDiscovery W) (o : Option (BtcFiveMinuteBucketDiscovery W))
      → IfSome a o
      → IsSameMarket a (or_same a o)
  or_same-IsSameMarket a none h = same_market a
  or_same-IsSameMarket a (some b) h = h

  struck-IfSome :
      (a : BtcFiveMinuteBucketDiscovery W) (o : Option (Tick W × Pick × Bool))
      → IfSome a (struck a o)
  struck-IfSome a none = tt
  struck-IfSome a (some t) = record {
    slug = refl;
    epoch = refl;
    up_token = refl;
    down_token = refl;
  }

module _ {W : Type 0} ⦃d : Double W⦄ where
  rtds-IfSome :
      (started : Bool) (skew : ℤ) (polls : List (List (Tick W))) (last : List (Tick W))
      (a : BtcFiveMinuteBucketDiscovery W)
      → IfSome a (fill_strike_from_polymarket_rtds_chainlink started skew polls last a)
  unfolding fill_strike_from_polymarket_rtds_chainlink
  rtds-IfSome started skew polls last a =
      if_intro (IfSome a) (has_strike a) _ _ (λ k. same_market a)
        λ _.
          if_intro (IfSome a) (ltb_ℤ (target_ms a) (pos 0)) _ _ (λ k. tt)
            λ _. if_intro (IfSome a) (not started) _ _ (λ k. tt) λ _. struck-IfSome a _

module _ {W J E : Type 0} ⦃d : Double W⦄ (json : Json W J) (sources : Sources W E) where
  maybe_fill_strike_rtds-IsSameMarket :
      (a : BtcFiveMinuteBucketDiscovery W) (e : E)
      → IsSameMarket a (maybe_fill_strike_rtds json sources a e).0
  unfolding maybe_fill_strike_rtds
  maybe_fill_strike_rtds-IsSameMarket a e =
      if_intro (λ (r : BtcFiveMinuteBucketDiscovery W × E). IsSameMarket a r.0) (has_strike a) _ _
        (λ k. same_market a) (λ k. or_same-IsSameMarket a _ (rtds-IfSome _ _ _ _ a))

  or_rtds-IsSameMarket :
      (a : BtcFiveMinuteBucketDiscovery W) (o : Option (BtcFiveMinuteBucketDiscovery W)) (e : E)
      → IfSome a o
      → IsSameMarket a (or_rtds json sources a (o, e)).0
  or_rtds-IsSameMarket a none e h = maybe_fill_strike_rtds-IsSameMarket a e
  or_rtds-IsSameMarket a (some b) e h = h

  with_web_price-IfSome :
      (a : BtcFiveMinuteBucketDiscovery W) (o : Outcome W)
      → IfSome a (with_web_price json sources.gamma a o)
  with_web_price-IfSome a (found x) = record {
    slug = refl;
    epoch = refl;
    up_token = refl;
    down_token = refl;
  }
  with_web_price-IfSome a (rejected m) = tt
  with_web_price-IfSome a raised = tt

  web-IfSome :
      (a : BtcFiveMinuteBucketDiscovery W) (e : E)
      → IfSome a (fill_strike_from_polymarket_web_event_page json sources.gamma a e).0
  unfolding fill_strike_from_polymarket_web_event_page
  web-IfSome a e =
      let P = λ (r : Option (BtcFiveMinuteBucketDiscovery W) × E). IfSome a r.0 in
      if_intro P (has_strike a) _ _ (λ k. same_market a)
        λ _. if_intro P (no_slug a.confirmed_slug) _ _ (λ k. tt) λ _. with_web_price-IfSome a _

  -- Filling in a strike changes neither the slug nor the epoch nor the tokens.
  pub fill-IsSameMarket :
      (a : BtcFiveMinuteBucketDiscovery W) (web_first : Bool) (e : E)
      → IsSameMarket a (maybe_fill_strike_web_then_rtds json sources a web_first e).0
  unfolding maybe_fill_strike_web_then_rtds
  fill-IsSameMarket a web_first e =
      let P = λ (r : BtcFiveMinuteBucketDiscovery W × E). IsSameMarket a r.0 in
      if_intro P (has_strike a) _ _ (λ k. same_market a)
        λ _.
          if_intro P web_first _ _ (λ _. or_rtds-IsSameMarket a _ _ (web-IfSome a e))
            (λ _. maybe_fill_strike_rtds-IsSameMarket a e)
