-- ===== src/Runner/Invariant.antt =====
-- The shape of `PaperState`: what a flat desk has cleared, and what a pending order says.
use prediction_market_arbitr.Base.{true, false, ◌≡◌, ◌≢◌, ◌⊎◌, arith, List}
use prediction_market_arbitr.Double.{Double}
use prediction_market_arbitr.Json.{Json}
use prediction_market_arbitr.Runner.Book.{Feeds, book_buy, book_sell}
use prediction_market_arbitr.Runner.Events.{Event, run}
use prediction_market_arbitr.Runner.Induction.{IsKept, run-IsKept}
use prediction_market_arbitr.Runner.Rollover.{book_force_sell}
use prediction_market_arbitr.Runner.State.{Config, PaperState, Desk, no_side, buy, sell}
use prediction_market_arbitr.Runner.Venue.{Venue}

module _ {W : Type 0} ⦃d : Double W⦄ where
  open d use {lit}

  abbrev pub IsCleared : PaperState W → Type 0
  IsCleared p =
      (p.side ≡ no_side)
      × (p.token_id ≡ "")
      × (p.slug ≡ "")
      × (p.qty ≡ lit 0 0)
      × (p.pos_cost_basis ≡ lit 0 0)
      × (p.entry_fill_price ≡ lit 0 0)

  -- A pending order is a BUY of one outcome on a flat desk, or a SELL of the side that is held.
  abbrev pub IsOrder : PaperState W → Type 0
  IsOrder p =
      ((p.pending_action ≡ buy) × (p.have_pos ≡ false) × (p.pending_side ≢ no_side))
      ⊎ ((p.pending_action ≡ sell) × (p.have_pos ≡ true) × (p.pending_side ≡ p.side))

  pub record IsConsistent (p : PaperState W) : Type 0 where
    pub position : ((p.have_pos ≡ false) × IsCleared p) ⊎ ((p.have_pos ≡ true) × (p.side ≢ no_side))
    pub order : (p.pending ≡ false) ⊎ IsOrder p

  IsConsistent-IsKept : (c : Config W) → IsKept c (λ p ts. IsConsistent p)
  unfolding book_buy book_sell book_force_sell
  IsConsistent-IsKept c = record {
    ordered_buy = λ now side p ts ne flat i. ground arith;
    ordered_sell = λ now why p ts held i. ground arith;
    dropped = λ p p' ts k i. ground arith;
    booked_buy = λ s token qty cost fee avg pending ordered i. ground arith;
    booked_sell = λ s proceeds fee i. ground arith;
    cleared = λ s i. ground arith;
    abandoned = λ p ts i. ground arith;
    forced = λ s bid qty i. ground arith;
  }

module _ {W J E : Type 0} ⦃d : Double W⦄ ⦃json : Json W J⦄ (v : Venue W J E) where
  -- Whatever the venue answers, every history of events keeps the paper state
  -- consistent: a flat desk has no side, token, slug, quantity or cost, an open position has a side,
  -- and a pending order is a BUY of one outcome on a flat desk or a SELL of the held side.
  pub run-IsConsistent :
      (c : Config W) (evs : List (Feeds × Event W)) (s : Desk W) (e : E)
      → IsConsistent s.paper
      → IsConsistent (run v c evs s e).0.paper
  run-IsConsistent c evs s e i =
      run-IsKept v c (λ p ts. IsConsistent p) (IsConsistent-IsKept c) evs s e i
