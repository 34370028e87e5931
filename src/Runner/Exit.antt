-- ===== src/Runner/Exit.antt =====
-- When a position is sold: by `schedule`, and at a rollover.
use mathlib.Core.Path.{subst}
use prediction_market_arbitr.Base.{
  ℤ, pos, ◌+ℤ◌, ◌*ℤ◌, true, false, ◌≡◌, refl, arith, ◌⊎◌, inl, inr, Bool-cases,
}
use prediction_market_arbitr.Double.{Double}
use prediction_market_arbitr.Json.{Json}
use prediction_market_arbitr.Runner.Events.{
  Handover, keeps, abandons, force_sells, force_sell-Handover,
}
use prediction_market_arbitr.Runner.Rollover.{
  RolloverEvent, rollover, force_sell, enter_bucket, reset_hot, book_force_sell,
}
use prediction_market_arbitr.Runner.Pricing.{poly_taker_fee}
use prediction_market_arbitr.Runner.Schedule.{
  Prices, schedule, schedule_entry, schedule_exit, wants_stop, wants_profit, stop_loss_signal,
  held_bid, held_theo,
}
use prediction_market_arbitr.Runner.State.{
  Config, Desk, PaperState, Side, up, sell, ExitReason, stop_loss, take_profit,
}
use prediction_market_arbitr.Runner.Venue.{Venue}

module _ {W : Type 0} ⦃d : Double W⦄ where
  open d use {lit, add, sub, mul, div, neg, lt, le, is_finite}

  -- The bid of the side that is held, and its fair value.
  abbrev pub bid_held : Prices W → Side → W
  bid_held q up = q.up_bid
  bid_held q _ = q.dn_bid

  abbrev pub value_held : Prices W → Side → W
  value_held q up = q.p_up
  value_held q _ = q.p_dn

  -- What the sale of the position at this bid would lose of its cost basis, as a fraction below 0.
  abbrev pub return_at : Config W → PaperState W → W → W
  return_at c p bid =
      div
        (sub (sub (mul p.qty bid) (poly_taker_fee (mul p.qty bid) bid c.fee_rate)) p.pos_cost_basis)
        p.pos_cost_basis

  -- The position has lost the fraction at which it is to be sold.
  pub record HasLost (c : Config W) (q : Prices W) (p : PaperState W) : Type 0 where
    pub enabled : le c.stop_loss_frac (lit 0 0) ≡ false
    pub basis : le p.pos_cost_basis (lit 0 0) ≡ false
    pub shares : le p.qty (lit 0 0) ≡ false
    pub finite_bid : is_finite (bid_held q p.side) ≡ true
    pub positive_bid : le (bid_held q p.side) (lit 0 0) ≡ false
    pub lost : le (return_at c p (bid_held q p.side)) (neg c.stop_loss_frac) ≡ true

  -- The reason for which a position is sold.
  abbrev pub Because : Config W → Prices W → PaperState W → ExitReason → Type 0
  Because c q p why =
      ((why ≡ stop_loss) × (HasLost c q p ⊎ (p.stop_sell_retry ≡ true)))
      ⊎ ((why ≡ take_profit)
          × (p.stop_sell_retry ≡ false)
          × (le (sub (sub (value_held q p.side) c.close_eps) c.close_early_threshold)
                (bid_held q p.side)
              ≡ true))

  held_bid-eq : (q : Prices W) (side : Side) → held_bid q side ≡ bid_held q side
  held_bid-eq q side = ground arith

  held_theo-eq : (q : Prices W) (side : Side) → held_theo q side ≡ value_held q side
  held_theo-eq q side = ground arith

  lost_of_signal :
      (c : Config W) (p : PaperState W) (q : Prices W)
      → stop_loss_signal c p (bid_held q p.side) p.qty ≡ true
      → HasLost c q p
  unfolding stop_loss_signal
  lost_of_signal c p q h = record {
    enabled = ground (arith, h);
    basis = ground (arith, h);
    shares = ground (arith, h);
    finite_bid = ground (arith, h);
    positive_bid = ground (arith, h);
    lost = ground (arith, h);
  }

  stop_cases :
      (c : Config W) (q : Prices W) (p : PaperState W)
      → wants_stop c q p ≡ true
      → HasLost c q p ⊎ (p.stop_sell_retry ≡ true)
  unfolding wants_stop
  stop_cases c q p h = elim (Bool-cases p.stop_sell_retry) [
    | inl retry ↦ inr retry
    | inr n ↦ inl (
        lost_of_signal c p q (
          subst (λ bid. stop_loss_signal c p bid p.qty ≡ true) (held_bid-eq q p.side)
            (ground (arith, h, n))))
  ]

  retry_of_stop :
      (c : Config W) (q : Prices W) (p : PaperState W)
      → wants_stop c q p ≡ false
      → p.stop_sell_retry ≡ false
  unfolding wants_stop
  retry_of_stop c q p h = ground (arith, h)

  profit_bid :
      (c : Config W) (q : Prices W) (p : PaperState W)
      → wants_profit c q p ≡ true
      → le (sub (sub (value_held q p.side) c.close_eps) c.close_early_threshold) (bid_held q p.side)
        ≡ true
  unfolding wants_profit
  profit_bid c q p h =
      subst
        (λ bid. le (sub (sub (value_held q p.side) c.close_eps) c.close_early_threshold) bid ≡ true)
        (held_bid-eq q p.side)
        (subst
          (λ theo.
            le (sub (sub theo c.close_eps) c.close_early_threshold) (held_bid q p.side) ≡ true)
          (held_theo-eq q p.side) (ground (arith, h)))

  exit-Because :
      (c : Config W) (q : Prices W) (p : PaperState W) (why : ExitReason)
      → ((why ≡ stop_loss) × (wants_stop c q p ≡ true))
        ⊎ ((why ≡ take_profit) × (wants_stop c q p ≡ false) × (wants_profit c q p ≡ true))
      → Because c q p why
  exit-Because c q p why (inl (e, h)) = inl (e, stop_cases c q p h)
  exit-Because c q p why (inr (e, n, h)) = inr (e, retry_of_stop c q p n, profit_bid c q p h)

  -- `schedule` orders a SELL only of an open position, on a desk that no loss cap has stopped, of the
  -- held side, due after the latency. It is a stop loss only if the sale at the held side's bid would
  -- lose the stop-loss fraction of the cost basis or an earlier stop loss is to be tried again, and a
  -- take profit only if none is to be tried again and the bid has reached the fair value less the two
  -- slacks. No order may pend before.
  pub schedule-Because :
      (c : Config W) (now : ℤ) (q : Prices W) (s : Desk W)
      → s.paper.pending ≡ false
      → (schedule c now q s).paper.pending ≡ true
      → (schedule c now q s).paper.pending_action ≡ sell
      → (s.paper.have_pos ≡ true)
        × (s.paper.risk_stop ≡ false)
        × ((schedule c now q s).paper.pending_side ≡ s.paper.side)
        × ((schedule c now q s).paper.due_ns ≡ now +ℤ c.lat_ms *ℤ pos 1000000)
        × Because c q s.paper (schedule c now q s).paper.pending_exit_reason
  unfolding schedule schedule_entry schedule_exit
  schedule-Because c now q s idle ordered sold =
      ground (arith, exit-Because c q s.paper stop_loss, exit-Because c q s.paper take_profit)

module _ {W J E : Type 0} ⦃d : Double W⦄ ⦃json : Json W J⦄ (v : Venue W J E) where
  -- After a rollover the paper build holds no position; trading is enabled, and the market data carry
  -- the new epoch and wait for a new volatility.
  pub rollover-flat :
      (c : Config W) (ev : RolloverEvent W) (s : Desk W) (e : E)
      → c.live_execution ≡ false
      → ((rollover v c ev s e).0.paper.have_pos ≡ false)
        × ((rollover v c ev s e).0.trading_enabled ≡ true)
        × ((rollover v c ev s e).0.hot.active_epoch ≡ ev.rollover_epoch)
        × ((rollover v c ev s e).0.hot.have_sigma ≡ false)
  unfolding rollover enter_bucket reset_hot book_force_sell
  rollover-flat c ev s e paper =
      (closed (force_sell v c ev s e).0 (force_sell-Handover v c ev s e), refl, refl, refl)
    where
      closed : (t : Desk W) → Handover c ev s t → t.paper.have_pos ≡ false
      closed t (keeps (inl flat)) = flat
      closed t (keeps (inr live)) = ground arith
      closed t (abandons held) = refl
      closed t (force_sells held qty) = refl
