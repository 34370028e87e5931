-- ===== src/Runner/Amounts.antt =====
-- What the amounts read out of CLOB responses satisfy.
use prediction_market_arbitr.Base.{String, true, false, ◌≡◌, arith, Option, none, some, ◌⊎◌}
use prediction_market_arbitr.Double.{Double}
use prediction_market_arbitr.Json.{Json}
use prediction_market_arbitr.Runner.Clob.{off_range, orient, fill_of_amounts}
use prediction_market_arbitr.Runner.Fill.{
  LiveMarketBuyFill, settle, live_resolve_market_buy_fill, Guess,
}
use prediction_market_arbitr.Runner.Pricing.{poly_taker_fee}
use prediction_market_arbitr.Runner.Venue.{Venue}

-- A property of what an optional result holds.
abbrev pub Each : {A : Type 0} → (A → Type 0) → Option A → Type 0
Each P none = Unit
Each P (some a) = P a

module _ {W : Type 0} ⦃d : Double W⦄ where
  open d use {lit, div, mul, le, is_finite}

  -- Cost and shares at a price within [0.001, 0.999].
  pub record IsPriced (r : W × W) : Type 0 where
    pub cost_positive : le r.0 (lit 0 0) ≡ false
    pub shares_positive : le r.1 (lit 0 0) ≡ false
    pub in_range : off_range (div r.0 r.1) ≡ false

  orient-IsPriced : (cost shares : W) → Each IsPriced (orient cost shares)
  unfolding orient
  orient-IsPriced cost shares = ground arith

  -- The two amounts of a response are read as a cost and a number of shares, in one of the two
  -- orders; both are positive, and their quotient is a price within [0.001, 0.999].
  pub fill_of_amounts-IsPriced :
      (making taking : W)
      → Each
          (λ r. IsPriced r × ((r ≡ (making, taking)) ⊎ (r ≡ (taking, making))))
          (fill_of_amounts making taking)
  unfolding fill_of_amounts orient
  fill_of_amounts-IsPriced making taking = ground arith

  -- A fill that is booked: more than 1e-6 shares, and the average price and the fee that go with its
  -- cost, which is reported or, if marked estimated, computed.
  pub record IsFill (fee_rate : W) (fill : LiveMarketBuyFill W) : Type 0 where
    pub finite : is_finite fill.fill_qty ≡ true
    pub visible : le fill.fill_qty (lit 1 6) ≡ false
    pub average : fill.fill_avg_price ≡ div fill.cost_usd fill.fill_qty
    pub fee : fill.fee_usd ≡ poly_taker_fee fill.cost_usd fill.fill_avg_price fee_rate
    pub reported :
        (fill.fill_price_estimated ≡ true)
        ⊎ ((is_finite fill.cost_usd ≡ true) × (le fill.cost_usd (lit 0 0) ≡ false))

  settle-IsFill :
      (spend ask fee_rate : W) (g : Guess W) → Each (IsFill fee_rate) (settle spend ask fee_rate g)
  unfolding settle
  settle-IsFill spend ask fee_rate g = ground arith

module _ {W J E : Type 0} ⦃d : Double W⦄ ⦃json : Json W J⦄ (v : Venue W J E) where
  -- Whatever the response, the polls and the balance say, a market BUY that is resolved as filled has
  -- more than 1e-6 shares, an average price of cost over shares, the taker fee of its cost at that
  -- price, and a finite positive cost unless the cost is marked as estimated.
  pub live_resolve_market_buy_fill-IsFill :
      (token order_id : String) (before spend ask fee_rate : W) (resp : J) (e : E)
      → Each
          (IsFill fee_rate)
          (live_resolve_market_buy_fill v token order_id before spend ask fee_rate resp e).0
  unfolding live_resolve_market_buy_fill
  live_resolve_market_buy_fill-IsFill token order_id before spend ask fee_rate resp e =
      settle-IsFill spend ask fee_rate _
