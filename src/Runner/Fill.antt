-- ===== src/Runner/Fill.antt =====
-- apps/btc_poly_runner.cpp: `live_resolve_market_buy_fill`, what a market BUY filled. Waits and the
-- texts of errors are left out.
use prediction_market_arbitr.Base.{
  ℕ, zero, suc, String, Bool, true, false, not, if◌then◌else◌, ◌||◌, ◌&&◌, Option, none, some,
}
use prediction_market_arbitr.Double.{Double}
use prediction_market_arbitr.Json.{Json}
use prediction_market_arbitr.Runner.Clob.{
  clob_order_status_upper, clob_order_status_terminal, clob_json_amount_field,
  clob_order_size_matched_shares, try_market_buy_fill_from_post_resp,
}
use prediction_market_arbitr.Runner.Pricing.{poly_taker_fee}
use prediction_market_arbitr.Runner.Venue.{Venue}
use prediction_market_arbitr.Base.{is_empty}

pub record LiveMarketBuyFill (W : Type 0) : Type 0 where
  pub fill_qty : W
  pub fill_avg_price : W
  pub cost_usd : W
  pub fee_usd : W
  pub fill_price_estimated : Bool

-- The variables of the function that the polls work on.
pub record Guess (W : Type 0) : Type 0 where
  pub cost_usd : W
  pub fill_qty : W
  pub estimated : Bool

abbrev pub max_buy_polls : ℕ
max_buy_polls = 20

module _ {W : Type 0} ⦃d : Double W⦄ where
  open d use {lit, mul, sub, div, lt, le, is_finite, nan}

  abbrev pub unknown : W → Bool
  unknown x = not (is_finite x) || le x (lit 0 0)

  unfoldable pub start_guess : Option (W × W) → Guess W
  start_guess none = record { cost_usd = nan; fill_qty = nan; estimated = false }
  start_guess (some (cost, shares)) = record {
    cost_usd = cost;
    fill_qty = shares;
    estimated = false;
  }

  abbrev pub note_qty : W → Guess W → Guess W
  note_qty matched g = if unknown g.fill_qty then record g { fill_qty = matched } else g

  abbrev pub note_price : Option W → Guess W → Guess W
  note_price none g = g
  note_price (some px) g =
      if unknown g.cost_usd && lt (lit 0 0) px && lt px (lit 1 0)
      then record g { cost_usd = mul g.fill_qty px; estimated = true }
      else g

  -- What the balance says counts, if it has grown visibly.
  unfoldable pub note_balance : Option W → W → Guess W → Guess W
  note_balance none before g = g
  note_balance (some after) before g =
      if lt (lit 1 6) (sub after before) then record g { fill_qty = sub after before } else g

  abbrev filled : W → W → W → Bool → LiveMarketBuyFill W
  filled fee_rate qty cost estimated = record {
    fill_qty = qty;
    fill_avg_price = div cost qty;
    cost_usd = cost;
    fee_usd = poly_taker_fee cost (div cost qty) fee_rate;
    fill_price_estimated = estimated;
  }

  -- The end of the function: `none` is a result that is not `ok`.
  unfoldable pub settle : W → W → W → Guess W → Option (LiveMarketBuyFill W)
  settle spend_target_usd signal_ask fee_rate g =
      let expected_qty = div spend_target_usd signal_ask in
      if not (is_finite g.fill_qty) || le g.fill_qty (lit 1 6)
      then none
      else if not (unknown g.cost_usd)
      then some (filled fee_rate g.fill_qty g.cost_usd g.estimated)
      else if not (lt (lit 0 0) spend_target_usd && lt (lit 0 0) signal_ask)
      then none
      else if lt (lit 0 0) expected_qty && le (mul expected_qty (lit 98 2)) g.fill_qty
      then some (filled fee_rate g.fill_qty spend_target_usd true)
      else some (filled fee_rate g.fill_qty (mul g.fill_qty signal_ask) true)

module _ {W J : Type 0} ⦃d : Double W⦄ ⦃json : Json W J⦄ where
  open d use {lit, lt}

  -- One order that a poll has read.
  unfoldable pub note_order : J → Guess W → Guess W
  note_order order g = elim (clob_order_size_matched_shares order) [
    | none ↦ g
    | some matched ↦
        if lt (lit 1 6) matched
        then note_price (clob_json_amount_field order "price") (note_qty matched g)
        else g
  ]

  module _ {E : Type 0} (v : Venue W J E) where
    -- The polls of an order, `n` of them left.
    unfoldable pub poll_order : ℕ → String → Guess W → E → Guess W × E
    poll_order zero order_id g e = (g, e)
    poll_order (suc n) order_id g e =
        let r = v.query_order order_id e in
        elim r.0 [
          | none ↦ poll_order n order_id g r.1
          | some order ↦ elim (clob_order_status_terminal (clob_order_status_upper json order)) [
            | true ↦ (note_order order g, r.1)
            | false ↦ poll_order n order_id (note_order order g) r.1
          ]
        ]

    unfoldable pub live_resolve_market_buy_fill :
        (token_id order_id : String) (before spend_target_usd signal_ask fee_rate : W) (resp : J)
        → E
        → Option (LiveMarketBuyFill W) × E
    live_resolve_market_buy_fill token_id order_id before spend_target_usd signal_ask fee_rate resp
          e =
        let g = start_guess (try_market_buy_fill_from_post_resp resp) in
        let polled =
          (if is_empty order_id then (g, e) else poll_order max_buy_polls order_id g e) in
        let r = v.query_conditional_balance token_id polled.1 in
        (settle spend_target_usd signal_ask fee_rate (note_balance r.0 before polled.0), r.1)
