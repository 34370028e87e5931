-- ===== src/Runner/Execute.antt =====
-- apps/btc_poly_runner.cpp: `execute_due`, which carries out a pending order once it is due. The
-- paper build fills at the quote; the live build asks the venue. Logging is left out, but for the
-- trade rows.
use prediction_market_arbitr.Base.{
  ℤ, pos, ◌+ℤ◌, String, Bool, true, false, not, if◌then◌else◌, ◌&&◌, ltb_ℤ, none, some,
}
use prediction_market_arbitr.Double.{Double, fmax}
use prediction_market_arbitr.Json.{Json}
use prediction_market_arbitr.Runner.Book.{
  Feeds, token_of, later_token_of, is_stop, with_paper, drop_order, bid_of, ask_of, mid_of, theo_of,
  buy_refused, spend_for, cap_exceeded, book_buy, book_sell, worst_sell_price,
}
use prediction_market_arbitr.Runner.Fill.{live_resolve_market_buy_fill}
use prediction_market_arbitr.Runner.Pricing.{poly_taker_fee, is_ready}
use prediction_market_arbitr.Runner.State.{
  Config, PaperState, Desk, Action, no_action, buy, sell, no_reason, flatten,
}
use prediction_market_arbitr.Runner.StopSell.{live_stop_sell_until_flat}
use prediction_market_arbitr.Runner.Venue.{Venue, OrderIntent}

-- A failed order sets `cooldown_until_ns` this far ahead, an incomplete stop-loss sale less far.
abbrev pub cooldown_ns : ℤ
cooldown_ns = pos 10000000000

abbrev pub retry_ns : ℤ
retry_ns = pos 200000000

module _ {W : Type 0} where
  abbrev pub lapse : Desk W → Desk W
  lapse s = with_paper s (drop_order s.paper)

  abbrev pub cooled : ℤ → PaperState W → PaperState W
  cooled until p = record p { cooldown_until_ns = until; pending = false }

module _ {W : Type 0} ⦃d : Double W⦄ where
  open d use {lit, sub, mul, div, lt, le, is_finite}

  -- Has the bid of a take-profit sale fallen below the level that it was scheduled for?
  unfoldable pub profit_gone : Config W → Desk W → Bool
  profit_gone c s =
      lt (bid_of s.hot s.paper.side)
        (sub (sub (theo_of c s.hot s.paper.side) c.close_eps) c.close_early_threshold)

  abbrev pub dust : W
  dust = lit 1 12

  abbrev pub buy_order : String → (spend ask : W) → OrderIntent W
  buy_order token spend ask = record {
    market_token_id = token;
    side = buy;
    qty = spend;
    market_worst_price = ask;
  }

  abbrev pub profit_order : (qty : W) → Desk W → OrderIntent W
  profit_order qty s = record {
    market_token_id = s.paper.token_id;
    side = sell;
    qty = qty;
    market_worst_price = worst_sell_price (bid_of s.hot s.paper.side);
  }

  -- The paper build's BUY fills at the ask.
  unfoldable pub paper_buy : Config W → Feeds → (spend : W) → Desk W → Desk W
  paper_buy c f spend s =
      let side = s.paper.pending_side in
      let ask = ask_of s.hot side in
      book_buy c side (token_of f side) (div spend ask) spend (poly_taker_fee spend ask c.fee_rate)
        ask s

  -- The paper build's SELL fills at the bid.
  unfoldable pub sell_at_bid : Config W → (qty : W) → Desk W → Desk W
  sell_at_bid c qty s =
      let bid = bid_of s.hot s.paper.side in
      book_sell c (mul qty bid) (poly_taker_fee (mul qty bid) bid c.fee_rate) s

module _ {W J E : Type 0} ⦃d : Double W⦄ ⦃json : Json W J⦄ (v : Venue W J E) where
  open d use {lit, le, lt, is_finite}

  unfoldable pub cool_down : ℤ → Desk W → E → Desk W × E
  cool_down ns s e = let t = v.steady_ns e in (with_paper s (cooled (t.0 +ℤ ns) s.paper), t.1)

  unfoldable pub live_buy : Config W → Feeds → (spend : W) → Desk W → E → Desk W × E
  live_buy c f spend s e =
      let side = s.paper.pending_side in
      let ask = ask_of s.hot side in
      let token = token_of f side in
      let q = v.query_conditional_balance token e in
      elim q.0 [
        | none ↦ cool_down cooldown_ns s q.1
        | some before ↦
            let o = v.submit (buy_order token spend ask) q.1 in
            elim o.0 [
              | none ↦ cool_down cooldown_ns s o.1
              | some receipt ↦
                  let bf =
                    live_resolve_market_buy_fill v token receipt.order_id before spend ask
                      c.fee_rate receipt.submit_resp o.1 in
                  elim bf.0 [
                    | none ↦ cool_down cooldown_ns s bf.1
                    | some fill ↦ (
                      book_buy c side (later_token_of f side) fill.fill_qty fill.cost_usd
                          fill.fee_usd fill.fill_avg_price s,
                      bf.1,
                    )
                  ]
            ]
      ]

  unfoldable pub execute_buy : Config W → Feeds → Desk W → E → Desk W × E
  execute_buy c f s e =
      let side = s.paper.pending_side in
      let ask = ask_of s.hot side in
      let spend = spend_for c s.paper.cash ask in
      if s.paper.have_pos
      then (lapse s, e)
      else if buy_refused c s.hot side
      then (lapse s, e)
      else if lt spend (lit 1 0)
      then (lapse s, e)
      else if cap_exceeded c s.paper spend ask (mid_of s.hot side)
      then (with_paper s (record s.paper { risk_stop = true; pending = false }), e)
      else if c.live_execution
      then live_buy c f spend s e
      else (paper_buy c f spend s, e)

  -- The rest of a live SELL that knows the balance to sell.
  unfoldable pub live_stop_sell : Config W → Desk W → E → Desk W × E
  live_stop_sell c s e =
      let bid = bid_of s.hot s.paper.side in
      let r = live_stop_sell_until_flat v s.paper.token_id bid c.fee_rate e in
      elim r.0.flat [
        | true ↦ (book_sell c r.0.total_proceeds r.0.total_fee s, r.1)
        | false ↦ cool_down retry_ns (with_paper s (record s.paper { stop_sell_retry = true })) r.1
      ]

  unfoldable pub live_profit_sell : Config W → (qty : W) → Desk W → E → Desk W × E
  live_profit_sell c qty s e =
      let o = v.submit (profit_order qty s) e in
      elim o.0 [ none ↦ cool_down cooldown_ns s o.1 | some _ ↦ (sell_at_bid c qty s, o.1) ]

  -- A live SELL that knows the balance: all of it is sold.
  unfoldable pub sell_balance : Config W → (balance : W) → Desk W → E → Desk W × E
  sell_balance c balance s e =
      let qty = fmax (lit 0 0) balance in
      let stop = is_stop s.paper.pending_exit_reason in
      if le qty dust
      then (if stop && is_finite balance && le balance dust
          then (
            with_paper s (flatten (record s.paper { stop_sell_retry = false; pending = false })),
            e,
          )
          else cool_down cooldown_ns s e)
      else if stop
      then live_stop_sell c s e
      else live_profit_sell c qty s e

  unfoldable pub live_sell : Config W → Desk W → E → Desk W × E
  live_sell c s e =
      let q = v.query_conditional_balance s.paper.token_id e in
      elim q.0 [ none ↦ cool_down cooldown_ns s q.1 | some balance ↦ sell_balance c balance s q.1 ]

  unfoldable pub execute_sell : Config W → Desk W → E → Desk W × E
  execute_sell c s e =
      if not (is_stop s.paper.pending_exit_reason) && profit_gone c s
      then (lapse s, e)
      else if c.live_execution
      then live_sell c s e
      else if le s.paper.qty dust
      then (lapse s, e)
      else (sell_at_bid c s.paper.qty s, e)

  -- An order in a state that the code does not expect is cleared.
  unfoldable pub clear_order : Desk W → E → Desk W × E
  clear_order s e =
      (with_paper s (record s.paper { pending = false; pending_exit_reason = no_reason }), e)

  unfoldable pub execute_action : Action → Config W → Feeds → Desk W → E → Desk W × E
  execute_action buy c f s e = execute_buy c f s e
  execute_action sell c f s e = if s.paper.have_pos then execute_sell c s e else clear_order s e
  execute_action no_action c f s e = clear_order s e

  unfoldable pub execute_due : Config W → Feeds → ℤ → Desk W → E → Desk W × E
  execute_due c f now s e =
      if not s.paper.pending
      then (s, e)
      else if ltb_ℤ now s.paper.due_ns
      then (s, e)
      else if not (is_ready s.hot)
      then (s, e)
      else execute_action s.paper.pending_action c f s e
