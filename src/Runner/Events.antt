-- ===== src/Runner/Events.antt =====
-- apps/btc_poly_runner.cpp: the consumer thread over a history of events, and all that a rollover
-- can do to the position.
use prediction_market_arbitr.Base.{
  true, false, not, ◌≡◌, ◌⊎◌, inl, inr, if_intro, List, [], ◌∷◌, Option-cases, arith,
}
use prediction_market_arbitr.Double.{Double, fmax}
use prediction_market_arbitr.Json.{Json}
use prediction_market_arbitr.Runner.Book.{Feeds, with_paper}
use prediction_market_arbitr.Runner.Execute.{dust}
use prediction_market_arbitr.Runner.Rollover.{
  RolloverEvent, PolymarketWsQuote, old_bid, abandon, book_force_sell, submit_force_sell,
  sell_shares, live_force_sell, force_sell, rollover, on_quote, force_order,
}
use prediction_market_arbitr.Runner.Spot.{SpotTick, on_spot}
use prediction_market_arbitr.Runner.State.{Config, Desk}
use prediction_market_arbitr.Runner.Venue.{Venue}

-- The events that the consumer thread takes from its queue, but for its end.
pub data Event (W : Type 0) : Type 0 where
  quoted : PolymarketWsQuote W → Event W
  rolled : RolloverEvent W → Event W
  spotted : SpotTick W → Event W

module _ {W J E : Type 0} ⦃d : Double W⦄ ⦃json : Json W J⦄ (v : Venue W J E) (c : Config W) where
  unfoldable pub consume : Feeds → Event W → Desk W → E → Desk W × E
  consume f (quoted q) s e = on_quote v c f q s e
  consume f (rolled ev) s e = rollover v c ev s e
  consume f (spotted tick) s e = on_spot v c f tick s e

  -- A history of events, the oldest first, each with the tokens that the feeds then follow.
  unfoldable pub run : List (Feeds × Event W) → Desk W → E → Desk W × E
  run [] s e = (s, e)
  run ((f, ev) ∷ evs) s e = let r = consume f ev s e in run evs r.0 r.1

module _ {W : Type 0} ⦃d : Double W⦄ where
  -- What the force sale at a rollover leaves.
  pub data Handover (c : Config W) (ev : RolloverEvent W) (s : Desk W) : Desk W → Type 0 where
    keeps : (s.paper.have_pos ≡ false) ⊎ (c.live_execution ≡ true) → Handover c ev s s
    abandons : s.paper.have_pos ≡ true → Handover c ev s (with_paper s (abandon s.paper))
    force_sells :
        s.paper.have_pos ≡ true
        → (qty : W) → Handover c ev s (book_force_sell c (old_bid ev s.paper.side) qty s)

module _ {W J E : Type 0} ⦃d : Double W⦄ ⦃json : Json W J⦄ (v : Venue W J E) where
  open d use {lit, le}

  module _ (c : Config W) (ev : RolloverEvent W) (s : Desk W) where
    submit_force_sell-Handover :
        (qty : W) (e : E)
        → s.paper.have_pos ≡ true
        → c.live_execution ≡ true
        → Handover c ev s (submit_force_sell v c ev qty s e).0
    unfolding submit_force_sell
    submit_force_sell-Handover qty e held live =
        elim (Option-cases (v.submit (force_order qty s) e).0) [
          | inl n ↦ rw (n, submit_force_sell) (keeps (inr live))
          | inr (receipt, r) ↦ rw (r, submit_force_sell) (force_sells held qty)
        ]

    sell_shares-Handover :
        (balance : W) (e : E)
        → s.paper.have_pos ≡ true
        → c.live_execution ≡ true
        → Handover c ev s (sell_shares v c ev balance s e).0
    unfolding sell_shares
    sell_shares-Handover balance e held live =
        let qty = fmax (lit 0 0) balance in
        let P = λ (r : Desk W × E). Handover c ev s r.0 in
        if_intro P (le qty dust) (with_paper s (abandon s.paper), e) _ (λ _. abandons held)
          λ _. submit_force_sell-Handover qty e held live

    live_force_sell-Handover :
        (e : E)
        → s.paper.have_pos ≡ true
        → c.live_execution ≡ true
        → Handover c ev s (live_force_sell v c ev s e).0
    unfolding live_force_sell
    live_force_sell-Handover e held live =
        elim (Option-cases (v.query_conditional_balance s.paper.token_id e).0) [
          | inl n ↦ rw (n, live_force_sell) (keeps (inr live))
          | inr (balance, b) ↦ rw (b, live_force_sell) (sell_shares-Handover balance _ held live)
        ]

    -- A rollover keeps the position, gives it up, or sells it at the old bucket's bid; the paper
    -- build never keeps one.
    pub force_sell-Handover : (e : E) → Handover c ev s (force_sell v c ev s e).0
    unfolding force_sell
    force_sell-Handover e =
        let P = λ (r : Desk W × E). Handover c ev s r.0 in
        if_intro P (not s.paper.have_pos) (s, e) _ (λ flat. keeps (inl (ground arith)))
          λ h.
            let held : s.paper.have_pos ≡ true = ground arith in
            if_intro P c.disable_rollover_force_sell (with_paper s (abandon s.paper), e) _
              (λ _. abandons held)
              λ _.
                if_intro P c.live_execution (live_force_sell v c ev s e) _
                  (live_force_sell-Handover e held)
                  λ _.
                    if_intro P (le s.paper.qty dust) (with_paper s (abandon s.paper), e) _
                      (λ _. abandons held) (λ _. force_sells held s.paper.qty)
