-- ===== src/Runner/Journal.antt =====
-- The trade rows and the cash: the journal that a dashboard reads back.
use prediction_market_arbitr.Base.{◌≡◌, ap, arith, List, [], ◌∷◌}
use prediction_market_arbitr.Double.{Double}
use prediction_market_arbitr.Json.{Json}
use prediction_market_arbitr.Runner.Book.{Feeds, book_buy, book_sell}
use prediction_market_arbitr.Runner.Events.{Event, run}
use prediction_market_arbitr.Runner.Induction.{IsKept, run-IsKept}
use prediction_market_arbitr.Runner.Rollover.{book_force_sell}
use prediction_market_arbitr.Runner.State.{
  Config, PaperState, Desk, TradeRow, bought, sold, force_sold,
}
use prediction_market_arbitr.Runner.Venue.{Venue}

module _ {W : Type 0} ⦃d : Double W⦄ where
  open d use {add, sub}

  -- The cash that the rows account for, from a starting amount; rows stand newest first.
  unfoldable pub replay : W → List (TradeRow W) → W
  replay start [] = start
  replay start (bought cost fee ∷ rows) = sub (replay start rows) (add cost fee)
  replay start (sold proceeds fee ∷ rows) = add (replay start rows) (sub proceeds fee)
  replay start (force_sold proceeds fee ∷ rows) = add (replay start rows) (sub proceeds fee)

  abbrev pub Balanced : W → PaperState W → List (TradeRow W) → Type 0
  Balanced start p rows = p.cash ≡ replay start rows

  Balanced-IsKept : (c : Config W) (start : W) → IsKept c (Balanced start)
  unfolding replay book_buy book_sell book_force_sell
  Balanced-IsKept c start = record {
    ordered_buy = λ now side p ts ne flat h. h;
    ordered_sell = λ now why p ts held h. h;
    dropped = λ p p' ts k h. ground (arith, k.cash);
    booked_buy =
        λ s token qty cost fee avg pending ordered h. ap (λ (x : W). sub x (add cost fee)) h;
    booked_sell = λ s proceeds fee h. ap (λ (x : W). add x (sub proceeds fee)) h;
    cleared = λ s h. h;
    abandoned = λ p ts h. h;
    forced = λ s bid qty h. unfold book_force_sell in ground arith;
  }

module _ {W J E : Type 0} ⦃d : Double W⦄ ⦃json : Json W J⦄ (v : Venue W J E) where
  -- After every history of events, whatever the venue answers, the cash is exactly what
  -- the trade rows account for: no event moves cash without a row, or writes a row without the cash.
  -- It is an equation of doubles, so the rows are replayed with the program's own roundings.
  pub run-Balanced :
      (c : Config W) (start : W) (evs : List (Feeds × Event W)) (s : Desk W) (e : E)
      → s.paper.cash ≡ replay start s.trades
      → let t = (run v c evs s e).0 in t.paper.cash ≡ replay start t.trades
  run-Balanced c start evs s e h =
      run-IsKept v c (Balanced start) (Balanced-IsKept c start) evs s e h
