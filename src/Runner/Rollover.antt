-- ===== src/Runner/Rollover.antt =====
-- apps/btc_poly_runner.cpp: the `Rollover` and `PolyQuote` events of the consumer thread, and
-- `on_hot_update`, without the series rows.
use prediction_market_arbitr.Base.{
  ℤ, pos, String, true, false, not, if◌then◌else◌, ◌&&◌, ltb_ℤ, ◌∷◌, none, some,
}
use prediction_market_arbitr.Double.{Double, fmax}
use prediction_market_arbitr.Json.{Json}
use prediction_market_arbitr.Runner.Book.{Feeds, with_paper}
use prediction_market_arbitr.Runner.Execute.{execute_due, dust}
use prediction_market_arbitr.Runner.Pricing.{poly_taker_fee, theo, is_ready}
use prediction_market_arbitr.Runner.Schedule.{Prices, schedule, is_up}
use prediction_market_arbitr.Runner.State.{
  Config, HotState, PaperState, Desk, Side, no_side, up, down, sell, force_sold, flatten, minus_one,
}
use prediction_market_arbitr.Runner.Venue.{Venue, OrderIntent}

pub record RolloverEvent (W : Type 0) : Type 0 where
  pub rollover_epoch : ℤ
  pub rollover_slug : String
  pub rollover_up_bid : W
  pub rollover_down_bid : W
  pub rollover_price_to_beat : W

-- `PolymarketWsQuote`
pub record PolymarketWsQuote (W : Type 0) : Type 0 where
  pub token_id : String
  pub event_slug : String
  pub market_bucket_epoch : ℤ
  pub outcome : Side
  pub best_bid : W
  pub best_ask : W

module _ {W : Type 0} where
  abbrev pub old_bid : RolloverEvent W → Side → W
  old_bid ev side = if is_up side then ev.rollover_up_bid else ev.rollover_down_bid

module _ {W : Type 0} ⦃d : Double W⦄ where
  open d use {lit, add, sub, mul, lt, le, is_finite}

  -- The position is given up, with no cash movement.
  abbrev pub abandon : PaperState W → PaperState W
  abandon p = flatten (record p { pending = false })

  abbrev pub force_order : (qty : W) → Desk W → OrderIntent W
  force_order qty s = record {
    market_token_id = s.paper.token_id;
    side = sell;
    qty = qty;
    market_worst_price = lit 0 0;
  }

  unfoldable pub book_force_sell : Config W → (bid qty : W) → Desk W → Desk W
  book_force_sell c bid qty s =
      let proceeds = mul qty bid in
      let fee = poly_taker_fee proceeds bid c.fee_rate in
      record s {
        paper = abandon (record s.paper { cash = add s.paper.cash (sub proceeds fee) });
        trades = force_sold proceeds fee ∷ s.trades;
      }

  -- The market data of the new bucket. Quotes stay as they are.
  unfoldable pub reset_hot : RolloverEvent W → HotState W → HotState W
  reset_hot ev h =
      let has_strike =
        is_finite ev.rollover_price_to_beat && lt (lit 0 0) ev.rollover_price_to_beat in
      record h {
        slug = ev.rollover_slug;
        active_epoch = ev.rollover_epoch;
        have_k = has_strike;
        k = if has_strike then ev.rollover_price_to_beat else h.k;
        have_sigma = false;
        sigma_bucket = lit 0 0;
        edge_up_ok_since_mono_ns = minus_one;
        edge_dn_ok_since_mono_ns = minus_one;
      }

  unfoldable pub enter_bucket : RolloverEvent W → Desk W → Desk W
  enter_bucket ev s = record s { hot = reset_hot ev s.hot; trading_enabled = true }

  -- A quote of one outcome; the first quote with an epoch names the bucket.
  unfoldable pub note_quote : PolymarketWsQuote W → HotState W → HotState W
  note_quote q h =
      let h' : HotState W = elim q.outcome [
        | up ↦ record h { have_up = true; up_bid = q.best_bid; up_ask = q.best_ask }
        | down ↦ record h { have_down = true; down_bid = q.best_bid; down_ask = q.best_ask }
        | no_side ↦ h
      ] in
      if not (ltb_ℤ q.market_bucket_epoch (pos 0)) && ltb_ℤ h.active_epoch (pos 0)
      then record h' {
        active_epoch = q.market_bucket_epoch;
        slug = q.event_slug;
        edge_up_ok_since_mono_ns = minus_one;
        edge_dn_ok_since_mono_ns = minus_one;
      }
      else h'

  abbrev pub prices_of : Config W → HotState W → Prices W
  prices_of c h = record {
    p_up = (theo c h).0;
    p_dn = (theo c h).1;
    up_ask = h.up_ask;
    up_bid = h.up_bid;
    dn_ask = h.down_ask;
    dn_bid = h.down_bid;
  }

module _ {W J E : Type 0} ⦃d : Double W⦄ ⦃json : Json W J⦄ (v : Venue W J E) where
  open d use {lit, le}

  unfoldable pub submit_force_sell :
      Config W → RolloverEvent W → (qty : W) → Desk W → E → Desk W × E
  submit_force_sell c ev qty s e =
      let o = v.submit (force_order qty s) e in
      elim o.0 [
        | none ↦ (s, o.1)
        | some _ ↦ (book_force_sell c (old_bid ev s.paper.side) qty s, o.1)
      ]

  unfoldable pub sell_shares : Config W → RolloverEvent W → (balance : W) → Desk W → E → Desk W × E
  sell_shares c ev balance s e =
      let qty = fmax (lit 0 0) balance in
      if le qty dust then (with_paper s (abandon s.paper), e) else submit_force_sell c ev qty s e

  -- The position that is open at a rollover is sold at the old bucket's bid. If the venue refuses
  -- the balance or the order, it stays open.
  unfoldable pub live_force_sell : Config W → RolloverEvent W → Desk W → E → Desk W × E
  live_force_sell c ev s e =
      let q = v.query_conditional_balance s.paper.token_id e in
      elim q.0 [ none ↦ (s, q.1) | some balance ↦ sell_shares c ev balance s q.1 ]

  unfoldable pub force_sell : Config W → RolloverEvent W → Desk W → E → Desk W × E
  force_sell c ev s e =
      if not s.paper.have_pos
      then (s, e)
      else if c.disable_rollover_force_sell
      then (with_paper s (abandon s.paper), e)
      else if c.live_execution
      then live_force_sell c ev s e
      else if le s.paper.qty dust
      then (with_paper s (abandon s.paper), e)
      else (book_force_sell c (old_bid ev s.paper.side) s.paper.qty s, e)

  unfoldable pub rollover : Config W → RolloverEvent W → Desk W → E → Desk W × E
  rollover c ev s e = let sold = force_sell c ev s e in (enter_bucket ev sold.0, sold.1)

  -- `on_hot_update(true)`
  unfoldable pub on_hot_update : Config W → Feeds → Desk W → E → Desk W × E
  on_hot_update c f s e =
      let t = v.steady_ns e in
      let planned = schedule c t.0 (prices_of c s.hot) s in
      let t' = v.steady_ns t.1 in
      if not (is_ready s.hot)
      then (s, e)
      else if not s.trading_enabled
      then (s, e)
      else if not planned.paper.pending
      then (planned, t.1)
      else execute_due v c f t'.0 planned t'.1

  unfoldable pub on_quote : Config W → Feeds → PolymarketWsQuote W → Desk W → E → Desk W × E
  on_quote c f q s e = on_hot_update c f (record s { hot = note_quote q s.hot }) e
