-- ===== src/Runner/Carryover.antt =====
-- Fields of `PaperState` that outlive what they were set for.
use prediction_market_arbitr.Base.{ℤ, String, true, false, ◌≡◌, refl, ◌∙◌, arith}
use prediction_market_arbitr.Double.{Double}
use prediction_market_arbitr.Json.{Json}
use prediction_market_arbitr.Runner.Book.{book_buy, bid_of}
use prediction_market_arbitr.Runner.Events.{
  Handover, keeps, abandons, force_sells, force_sell-Handover,
}
use prediction_market_arbitr.Runner.Execute.{live_stop_sell, cool_down}
use prediction_market_arbitr.Runner.Rollover.{
  RolloverEvent, book_force_sell, rollover, enter_bucket,
}
use prediction_market_arbitr.Runner.Schedule.{
  Prices, schedule, schedule_entry, schedule_exit, wants_stop, wants_profit, order_sell,
  stop_loss_signal,
}
use prediction_market_arbitr.Runner.State.{Config, Desk, Side, stop_loss}
use prediction_market_arbitr.Runner.StopSell.{live_stop_sell_until_flat}
use prediction_market_arbitr.Runner.Venue.{Venue}

module _ {W : Type 0} where
  abbrev pub set_cooldown : ℤ → Desk W → Desk W
  set_cooldown t s = record s { paper = record s.paper { cooldown_until_ns = t } }

module _ {W : Type 0} ⦃d : Double W⦄ where
  Handover-stop_sell_retry :
      {c : Config W} {ev : RolloverEvent W} {s t : Desk W}
      → Handover c ev s t
      → t.paper.stop_sell_retry ≡ s.paper.stop_sell_retry
  unfolding book_force_sell
  Handover-stop_sell_retry (keeps why) = refl
  Handover-stop_sell_retry (abandons held) = refl
  Handover-stop_sell_retry (force_sells held qty) = refl

  schedule-retry :
      (c : Config W) (now : ℤ) (q : Prices W) (s : Desk W)
      → s.paper.pending ≡ false
      → s.paper.risk_stop ≡ false
      → s.paper.have_pos ≡ true
      → s.paper.stop_sell_retry ≡ true
      → (schedule c now q s).paper ≡ order_sell c now stop_loss s.paper
  unfolding schedule schedule_exit wants_stop
  schedule-retry c now q s idle free held retry = ground arith

  wants_stop-set_cooldown :
      (c : Config W) (t : ℤ) (q : Prices W) (s : Desk W)
      → wants_stop c q (set_cooldown t s).paper ≡ wants_stop c q s.paper
  unfolding wants_stop stop_loss_signal
  wants_stop-set_cooldown c t q s = refl

  wants_profit-set_cooldown :
      (c : Config W) (t : ℤ) (q : Prices W) (s : Desk W)
      → wants_profit c q (set_cooldown t s).paper ≡ wants_profit c q s.paper
  unfolding wants_profit
  wants_profit-set_cooldown c t q s = refl

  -- The cooldown that a failed order sets has no effect on `schedule`: whatever the field holds, the
  -- same orders are placed at the same prices and times.
  pub schedule-set_cooldown :
      (c : Config W) (t now : ℤ) (q : Prices W) (s : Desk W)
      → schedule c now q (set_cooldown t s) ≡ set_cooldown t (schedule c now q s)
  unfolding schedule schedule_entry schedule_exit
  schedule-set_cooldown c t now q s =
      ground (arith, wants_stop-set_cooldown c t q s, wants_profit-set_cooldown c t q s)

module _ {W J E : Type 0} ⦃d : Double W⦄ ⦃json : Json W J⦄ (v : Venue W J E) where
  -- The desk after a rollover and a BUY that has filled since.
  abbrev pub rebought :
      Config W
      → RolloverEvent W
      → Desk W
      → E
      → (side : Side) (token : String) (qty cost fee avg : W) → Desk W
  rebought c ev s e side token qty cost fee avg =
      book_buy c side token qty cost fee avg (rollover v c ev s e).0

  -- A rollover does not clear `stop_sell_retry`. If it was set, the next position that is bought is
  -- ordered to be sold as a stop loss at the first `schedule`, at whatever prices, unless the loss
  -- cap has stopped the desk.
  pub rollover-stop_sell_retry :
      (c : Config W) (ev : RolloverEvent W) (s : Desk W) (e : E) (side : Side) (token : String)
      (qty cost fee avg : W) (now : ℤ) (q : Prices W)
      → s.paper.stop_sell_retry ≡ true
      → (rebought c ev s e side token qty cost fee avg).paper.risk_stop ≡ false
      → (schedule c now q (rebought c ev s e side token qty cost fee avg)).paper
        ≡ order_sell c now stop_loss (rebought c ev s e side token qty cost fee avg).paper
  unfolding rollover enter_bucket book_buy
  rollover-stop_sell_retry c ev s e side token qty cost fee avg now q retry free =
      schedule-retry c now q _ refl free refl
        (Handover-stop_sell_retry (force_sell-Handover v c ev s e) ∙ retry)

  -- A stop-loss sale that does not empty the balance leaves the cash, the trade rows and the quantity
  -- as they were, so what its attempts have sold so far is never booked; the sale is tried again.
  pub live_stop_sell_incomplete :
      (c : Config W) (s : Desk W) (e : E)
      → (live_stop_sell_until_flat v s.paper.token_id
          (bid_of s.hot s.paper.side)
          c.fee_rate
          e).0.flat
        ≡ false
      → let t = (live_stop_sell v c s e).0 in
        (t.paper.cash ≡ s.paper.cash)
        × (t.trades ≡ s.trades)
        × (t.paper.qty ≡ s.paper.qty)
        × (t.paper.have_pos ≡ s.paper.have_pos)
        × (t.paper.stop_sell_retry ≡ true)
  unfolding live_stop_sell cool_down
  live_stop_sell_incomplete c s e n = rw (n, live_stop_sell) (refl, refl, refl, refl, refl)
