-- ===== src/Runner/Risk.antt =====
-- The loss cap: proofs about `risk_stop`.
use prediction_market_arbitr.Base.{true, false, ◌≡◌, refl, ap, ◌∙◌, arith, List, [], ◌∷◌}
use prediction_market_arbitr.Double.{Double}
use prediction_market_arbitr.Json.{Json}
use prediction_market_arbitr.Runner.Book.{Feeds, book_buy, book_sell}
use prediction_market_arbitr.Runner.Events.{Event, quoted, consume, run}
use prediction_market_arbitr.Runner.Execute.{execute_due}
use prediction_market_arbitr.Runner.Induction.{IsKept, run-IsKept}
use prediction_market_arbitr.Runner.Rollover.{
  PolymarketWsQuote, book_force_sell, on_quote, on_hot_update, note_quote,
}
use prediction_market_arbitr.Runner.Schedule.{schedule}
use prediction_market_arbitr.Runner.State.{Config, PaperState, Desk, TradeRow}
use prediction_market_arbitr.Runner.Venue.{Venue}

module _ {W : Type 0} ⦃d : Double W⦄ where
  abbrev pub Stopped : PaperState W → List (TradeRow W) → Type 0
  Stopped p ts = p.risk_stop ≡ true

  Stopped-IsKept : (c : Config W) → IsKept c Stopped
  unfolding book_buy book_sell book_force_sell
  Stopped-IsKept c = record {
    ordered_buy = λ now side p ts ne flat h. h;
    ordered_sell = λ now why p ts held h. h;
    dropped = λ p p' ts k h. ground (arith, k.risk_stop);
    booked_buy = λ s token qty cost fee avg pending ordered h. ground arith;
    booked_sell = λ s proceeds fee h. ground arith;
    cleared = λ s h. h;
    abandoned = λ p ts h. h;
    forced = λ s bid qty h. h;
  }

module _ {W : Type 0} where
  -- A history of quotes.
  abbrev pub quotes : List (Feeds × PolymarketWsQuote W) → List (Feeds × Event W)
  quotes [] = []
  quotes ((f, q) ∷ qs) = (f, quoted q) ∷ quotes qs

module _ {W J E : Type 0} ⦃d : Double W⦄ ⦃json : Json W J⦄ (v : Venue W J E) where
  -- A loss cap that has stopped the desk stays set through every history of events.
  pub run-Stopped :
      (c : Config W) (evs : List (Feeds × Event W)) (s : Desk W) (e : E)
      → s.paper.risk_stop ≡ true
      → (run v c evs s e).0.paper.risk_stop ≡ true
  run-Stopped c evs s e h = run-IsKept v c Stopped (Stopped-IsKept c) evs s e h

  on_hot_update_stopped :
      (c : Config W) (f : Feeds) (s : Desk W) (e : E)
      → s.paper.risk_stop ≡ true
      → s.paper.pending ≡ false
      → (on_hot_update v c f s e).0.paper ≡ s.paper
  unfolding on_hot_update execute_due schedule
  on_hot_update_stopped c f s e stop idle = ground arith

  -- On a desk that the loss cap has stopped, with no order pending, quotes alone change nothing of
  -- the paper state: no BUY is opened, and an open position is neither taken in profit nor stopped
  -- out, at whatever bids.
  pub run_stopped :
      (c : Config W) (qs : List (Feeds × PolymarketWsQuote W)) (s : Desk W) (e : E)
      → s.paper.risk_stop ≡ true
      → s.paper.pending ≡ false
      → (run v c (quotes qs) s e).0.paper ≡ s.paper
  unfolding run consume on_quote
  run_stopped c [] s e stop idle = refl
  run_stopped c ((f, q) ∷ qs) s e stop idle =
      run_stopped c qs r.0 r.1 (ap (λ (p : PaperState W). p.risk_stop) same ∙ stop)
        (ap (λ (p : PaperState W). p.pending) same ∙ idle)
      ∙ same
    where
      s' : Desk W
      s' = record s { hot = note_quote q s.hot }

      r : Desk W × E
      r = on_hot_update v c f s' e

      same : r.0.paper ≡ s.paper
      same = on_hot_update_stopped c f s' e stop idle
