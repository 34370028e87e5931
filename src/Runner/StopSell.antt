-- ===== src/Runner/StopSell.antt =====
-- apps/btc_poly_runner.cpp: `live_stop_sell_until_flat`, the retry loop of a stop-loss sale. Waits
-- and the texts of errors are left out.
use prediction_market_arbitr.Base.{
  ℕ, zero, suc, ◌+◌, String, Bool, true, false, if◌then◌else◌, none, some,
}
use prediction_market_arbitr.Double.{Double, fmax}
use prediction_market_arbitr.Json.{Json}
use prediction_market_arbitr.Runner.Clob.{clob_order_status_upper, clob_order_status_terminal}
use prediction_market_arbitr.Runner.Pricing.{poly_taker_fee}
use prediction_market_arbitr.Runner.State.{sell}
use prediction_market_arbitr.Runner.Venue.{Venue, OrderIntent}
use prediction_market_arbitr.Base.{is_empty}

pub record StopSellUntilFlatResult (W : Type 0) : Type 0 where
  pub flat : Bool
  pub total_proceeds : W
  pub total_fee : W
  pub final_balance : W
  pub last_sell_qty : W
  pub attempts : ℕ

abbrev pub max_attempts : ℕ
max_attempts = 30

abbrev pub max_sell_polls : ℕ
max_sell_polls = 15

module _ {W : Type 0} ⦃d : Double W⦄ where
  open d use {lit, add, sub, mul, lt, le}

  abbrev pub flat_eps : W
  flat_eps = lit 1 6

  abbrev pub no_sale : StopSellUntilFlatResult W
  no_sale = record {
    flat = false;
    total_proceeds = lit 0 0;
    total_fee = lit 0 0;
    final_balance = lit 0 0;
    last_sell_qty = lit 0 0;
    attempts = 0;
  }

  abbrev pub see_balance : W → StopSellUntilFlatResult W → StopSellUntilFlatResult W
  see_balance bal out = record out { final_balance = bal }

  abbrev pub done : StopSellUntilFlatResult W → StopSellUntilFlatResult W
  done out = record out { flat = true }

  -- Books what the balance has lost since before the order.
  unfoldable pub book_sale :
      (mark_bid fee_rate before after : W) → StopSellUntilFlatResult W → StopSellUntilFlatResult W
  book_sale mark_bid fee_rate before after out =
      let sold = fmax (lit 0 0) (sub before after) in
      let proceeds = mul sold mark_bid in
      let out' = record out { final_balance = after; last_sell_qty = sold } in
      if lt flat_eps sold
      then record out' {
        total_proceeds = add out'.total_proceeds proceeds;
        total_fee = add out'.total_fee (poly_taker_fee proceeds mark_bid fee_rate);
      }
      else out'

  abbrev pub stop_order : String → W → W → OrderIntent W
  stop_order token_id mark_bid qty = record {
    market_token_id = token_id;
    side = sell;
    qty = qty;
    market_worst_price = fmax (lit 1 2) mark_bid;
  }

module _ {W J E : Type 0} ⦃d : Double W⦄ ⦃json : Json W J⦄ (v : Venue W J E) where
  open d use {lit, le}

  unfoldable pub wait_order : ℕ → String → E → E
  wait_order zero oid e = e
  wait_order (suc n) oid e =
      let r = v.query_order oid e in
      elim r.0 [
        | none ↦ wait_order n oid r.1
        | some order ↦ elim (clob_order_status_terminal (clob_order_status_upper json order)) [
          | true ↦ r.1
          | false ↦ wait_order n oid r.1
        ]
      ]

  -- The end of an attempt whose order went out: the new balance, if it can be read. `true` says that
  -- the loop goes on.
  unfoldable pub after_order :
      (token_id : String) (mark_bid fee_rate before : W)
      → StopSellUntilFlatResult W
      → E
      → Bool × StopSellUntilFlatResult W × E
  after_order token_id mark_bid fee_rate before out e =
      let r = v.query_conditional_balance token_id e in
      elim r.0 [
        | none ↦ (true, out, r.1)
        | some after ↦
            let out' = book_sale mark_bid fee_rate before after out in
            if le after flat_eps then (false, done out', r.1) else (true, out', r.1)
      ]

  -- One attempt of the loop.
  unfoldable pub attempt_sale :
      (token_id : String) (mark_bid fee_rate : W)
      → StopSellUntilFlatResult W
      → E
      → Bool × StopSellUntilFlatResult W × E
  unfolding after_order
  attempt_sale token_id mark_bid fee_rate out e =
      let q = v.query_conditional_balance token_id e in
      elim q.0 [
        | none ↦ (true, out, q.1)
        | some bal ↦ elim (le bal flat_eps) [
          | true ↦ (false, done (see_balance bal out), q.1)
          | false ↦
              let s = v.submit (stop_order token_id mark_bid bal) q.1 in
              elim s.0 [
                | none ↦ (true, see_balance bal out, s.1)
                | some receipt ↦ after_order token_id mark_bid fee_rate bal (see_balance bal out) (
                    if is_empty receipt.order_id
                    then s.1
                    else wait_order max_sell_polls receipt.order_id s.1)
              ]
        ]
      ]

  -- The loop, with `n` attempts left.
  unfoldable pub sell_loop :
      ℕ
      → (token_id : String) (mark_bid fee_rate : W) → StopSellUntilFlatResult W
      → E
      → StopSellUntilFlatResult W × E
  sell_loop zero token_id mark_bid fee_rate out e = (out, e)
  sell_loop (suc n) token_id mark_bid fee_rate out e =
      let counted = record out { attempts = out.attempts + 1 } in
      let r = attempt_sale token_id mark_bid fee_rate counted e in
      elim r.0 [ true ↦ sell_loop n token_id mark_bid fee_rate r.1 r.2 | false ↦ (r.1, r.2) ]

  unfoldable pub live_stop_sell_until_flat :
      (token_id : String) (mark_bid fee_rate : W) → E → StopSellUntilFlatResult W × E
  unfolding sell_loop
  live_stop_sell_until_flat token_id mark_bid fee_rate =
      sell_loop max_attempts token_id mark_bid fee_rate no_sale
