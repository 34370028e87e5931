-- ===== src/Runner/Outcomes.antt =====
-- What one call of `execute_due` can do to the desk, and under which conditions.
use prediction_market_arbitr.Base.{◌⊎◌, ℤ, String, some, true, false, ◌≡◌, ltb_ℤ}
use prediction_market_arbitr.Double.{Double, fmax}
use prediction_market_arbitr.Json.{Json}
use prediction_market_arbitr.Runner.Book.{
  Feeds, book_buy, book_sell, token_of, later_token_of, with_paper, ask_of, mid_of, theo_of,
  spend_for, buy_refused, cap_exceeded, is_stop, bid_of,
}
use prediction_market_arbitr.Runner.Execute.{paper_buy, dust, buy_order, profit_order}
use prediction_market_arbitr.Runner.Pricing.{is_ready, poly_taker_fee}
use prediction_market_arbitr.Runner.Fill.{LiveMarketBuyFill, live_resolve_market_buy_fill}
use prediction_market_arbitr.Runner.StopSell.{StopSellUntilFlatResult, live_stop_sell_until_flat}
use prediction_market_arbitr.Runner.State.{Config, PaperState, Desk, Action, buy, sell, flatten}
use prediction_market_arbitr.Runner.Venue.{Venue, Receipt}

module _ {W : Type 0} where
  -- The order is gone, and the position and the cash are as before.
  pub record IsDropped (p p' : PaperState W) : Type 0 where
    pub pending : p'.pending ≡ false
    pub have_pos : p'.have_pos ≡ p.have_pos
    pub side : p'.side ≡ p.side
    pub token_id : p'.token_id ≡ p.token_id
    pub slug : p'.slug ≡ p.slug
    pub qty : p'.qty ≡ p.qty
    pub pos_cost_basis : p'.pos_cost_basis ≡ p.pos_cost_basis
    pub entry_fill_price : p'.entry_fill_price ≡ p.entry_fill_price
    pub cash : p'.cash ≡ p.cash
    pub risk_stop : (p'.risk_stop ≡ p.risk_stop) ⊎ (p'.risk_stop ≡ true)

  -- A pending order that is due, on a desk with market data.
  pub record IsDue (now : ℤ) (action : Action) (s : Desk W) : Type 0 where
    pub pending : s.paper.pending ≡ true
    pub ordered : s.paper.pending_action ≡ action
    pub due : ltb_ℤ now s.paper.due_ns ≡ false
    pub ready : is_ready s.hot ≡ true

module _ {W : Type 0} ⦃d : Double W⦄ where
  open d use {lit, lt}

  abbrev pub spend_of : Config W → Desk W → W
  spend_of c s = spend_for c s.paper.cash (ask_of s.hot s.paper.pending_side)

  -- The checks that a BUY passes when it is carried out.
  pub record IsBuyAllowed (c : Config W) (s : Desk W) : Type 0 where
    pub flat : s.paper.have_pos ≡ false
    pub accepted : buy_refused c s.hot s.paper.pending_side ≡ false
    pub affordable : lt (spend_of c s) (lit 1 0) ≡ false
    pub capped :
        cap_exceeded c s.paper
          (spend_of c s)
          (ask_of s.hot s.paper.pending_side)
          (mid_of s.hot s.paper.pending_side)
        ≡ false

  abbrev pub vanished : Desk W → Desk W
  vanished s = with_paper s (flatten (record s.paper { stop_sell_retry = false; pending = false }))

module _ {W J E : Type 0} ⦃d : Double W⦄ ⦃json : Json W J⦄ (v : Venue W J E) where
  open d use {lit, sub, mul, le, lt, is_finite}

  -- The venue gave this balance of a token, asked at `e`.
  abbrev pub Answered : String → E → W → Type 0
  Answered token e balance = (v.query_conditional_balance token e).0 ≡ some balance

  abbrev pub asked : String → E → E
  asked token e = (v.query_conditional_balance token e).1

  -- The fill that a live BUY books: the venue told the balance and took the order of the spend, and the
  -- fill of that order was resolved.
  pub record IsFilled (c : Config W) (f : Feeds) (s : Desk W) (e : E) (fill : LiveMarketBuyFill W)
      : Type 0 where
    pub token : String
    pub of_side : token ≡ token_of f s.paper.pending_side
    pub before : W
    pub told : Answered token e before
    pub receipt : Receipt J
    pub taken :
        (v.submit
          (record {
            market_token_id = token;
            side = buy;
            qty = spend_of c s;
            market_worst_price = ask_of s.hot s.paper.pending_side;
          })
          (asked token e)).0
        ≡ some receipt
    pub resolved :
        (live_resolve_market_buy_fill v token receipt.order_id before
          (spend_of c s)
          (ask_of s.hot s.paper.pending_side)
          c.fee_rate
          receipt.submit_resp
          (v.submit
            (buy_order token (spend_of c s) (ask_of s.hot s.paper.pending_side))
            (asked token e)).1).0
        ≡ some fill

  -- The bid of a take-profit sale has not fallen below the level that it was ordered for.
  abbrev pub IsStillProfit : Config W → Desk W → Type 0
  IsStillProfit c s =
      lt (bid_of s.hot s.paper.side)
        (sub (sub (theo_of c s.hot s.paper.side) c.close_eps) c.close_early_threshold)
      ≡ false

  -- What a SELL books as proceeds and fee, and why it may: the paper build sells the position at the
  -- bid; the live build sells the balance that the venue told, at the bid once the venue has taken the
  -- order of a take profit, or as the stop-loss sale tells once it has ended flat.
  pub data IsSale (c : Config W) (s : Desk W) (e : E) : W → W → Type 0 where
    on_paper :
        c.live_execution ≡ false
        → (is_stop s.paper.pending_exit_reason ≡ true) ⊎ IsStillProfit c s
        → le s.paper.qty dust ≡ false
        → IsSale c s e (mul s.paper.qty (bid_of s.hot s.paper.side)) (
            poly_taker_fee
              (mul s.paper.qty (bid_of s.hot s.paper.side))
              (bid_of s.hot s.paper.side)
              c.fee_rate)
    at_profit :
        c.live_execution ≡ true
        → is_stop s.paper.pending_exit_reason ≡ false
        → IsStillProfit c s
        → (balance : W) → Answered s.paper.token_id e balance
        → le (fmax (lit 0 0) balance) dust ≡ false
        → (receipt : Receipt J)
        → (v.submit (profit_order (fmax (lit 0 0) balance) s) (asked s.paper.token_id e)).0
          ≡ some receipt
        → IsSale c s e (mul (fmax (lit 0 0) balance) (bid_of s.hot s.paper.side)) (
            poly_taker_fee
              (mul (fmax (lit 0 0) balance) (bid_of s.hot s.paper.side))
              (bid_of s.hot s.paper.side)
              c.fee_rate)
    stopped :
        c.live_execution ≡ true
        → is_stop s.paper.pending_exit_reason ≡ true
        → (balance : W) → Answered s.paper.token_id e balance
        → le (fmax (lit 0 0) balance) dust ≡ false
        → (r : StopSellUntilFlatResult W)
        → (live_stop_sell_until_flat v s.paper.token_id
            (bid_of s.hot s.paper.side)
            c.fee_rate
            (asked s.paper.token_id e)).0
          ≡ r
        → r.flat ≡ true
        → IsSale c s e r.total_proceeds r.total_fee

  pub data Outcome (c : Config W) (f : Feeds) (now : ℤ) (s : Desk W) (e : E) : Desk W → Type 0 where
    stays : Outcome c f now s e s
    drops : (p : PaperState W) → IsDropped s.paper p → Outcome c f now s e (with_paper s p)
    paper_buys :
        IsDue now buy s
        → IsBuyAllowed c s
        → c.live_execution ≡ false
        → Outcome c f now s e (paper_buy c f (spend_of c s) s)
    live_buys :
        IsDue now buy s
        → IsBuyAllowed c s
        → c.live_execution ≡ true
        → (fill : LiveMarketBuyFill W) → IsFilled c f s e fill
        → Outcome c f now s e (
            book_buy c s.paper.pending_side
              (later_token_of f s.paper.pending_side)
              fill.fill_qty
              fill.cost_usd
              fill.fee_usd
              fill.fill_avg_price
              s)
    sells :
        IsDue now sell s
        → s.paper.have_pos ≡ true
        → (proceeds fee : W) → IsSale c s e proceeds fee
        → Outcome c f now s e (book_sell c proceeds fee s)
    vanishes :
        IsDue now sell s
        → s.paper.have_pos ≡ true
        → c.live_execution ≡ true
        → is_stop s.paper.pending_exit_reason ≡ true
        → (balance : W) → Answered s.paper.token_id e balance
        → is_finite balance ≡ true
        → le balance dust ≡ true
        → Outcome c f now s e (vanished s)
