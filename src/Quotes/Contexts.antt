-- ===== src/Quotes/Contexts.antt =====
-- src/polymarket/ws_fixed_token_feed.cpp: the market that a fixed feed names in its quotes, which only
-- `set_market_context` changes.
use prediction_market_arbitr.Base.{ℤ, String, true, ◌≡◌, refl, spell, eq_of_same, arith}
use prediction_market_arbitr.Buckets.Slug.{Text}
use prediction_market_arbitr.Quotes.Fixed.{FixedFeed, start, stop, switch_token, set_market_context}
use prediction_market_arbitr.Runner.State.{Side}

module _ {W : Type 0} where
  -- A feed gives its quotes this slug, epoch and outcome.
  pub record IsFor (slug : Text) (epoch : ℤ) (side : Side) (s : FixedFeed W) : Type 0 where
    pub names : s.quote_event_slug ≡ spell slug
    pub dates : s.quote_market_bucket_epoch ≡ epoch
    pub sides : s.quote_outcome ≡ side

  pub set_market_context-IsFor :
      (slug : Text) (epoch : ℤ) (side : Side) (s : FixedFeed W)
      → IsFor slug epoch side (set_market_context (spell slug) epoch side s)
  unfolding set_market_context
  set_market_context-IsFor slug epoch side s = record { names = refl; dates = refl; sides = refl }

  module _ (slug : Text) (epoch : ℤ) (side : Side) (s : FixedFeed W)
      (h : IsFor slug epoch side s) where
    pub switch_token-IsFor : (token : String) → IsFor slug epoch side (switch_token token s).0
    unfolding switch_token
    switch_token-IsFor token = ground (arith, h)

    pub start-IsFor : (token : String) → IsFor slug epoch side (start token s).0
    unfolding start
    start-IsFor token = ground (arith, h)

    pub stop-IsFor : IsFor slug epoch side (stop s)
    unfolding stop
    stop-IsFor = ground (arith, h)

  -- A switch that succeeds leaves the feed on the token.
  pub token-switch_token :
      (token : String) (s : FixedFeed W)
      → (switch_token token s).1 ≡ true
      → (switch_token token s).0.token_id ≡ token
  unfolding switch_token
  token-switch_token token s h = ground (arith, h, eq_of_same token s.token_id)
