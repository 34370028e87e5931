-- ===== src/Runner/Induction.antt =====
-- A rule for what every event keeps: it is enough to look at the moves of the paper state.
use prediction_market_arbitr.Base.{
  ℤ, String, Bool, true, false, not, ◌&&◌, ◌≡◌, ◌≢◌, arith, Bool-cases, inl, inr, if_intro, List,
  [], ◌∷◌,
}
use prediction_market_arbitr.Double.{Double}
use prediction_market_arbitr.Json.{Json}
use prediction_market_arbitr.Runner.Book.{Feeds, book_buy, book_sell}
use prediction_market_arbitr.Runner.Events.{
  Event, quoted, spotted, rolled, consume, run, Handover, keeps, abandons, force_sells,
  force_sell-Handover,
}
use prediction_market_arbitr.Runner.Execute.{paper_buy}
use prediction_market_arbitr.Runner.Outcome.{execute_due-Outcome}
use prediction_market_arbitr.Runner.Outcomes.{
  IsDropped, Outcome, stays, drops, paper_buys, live_buys, sells, vanishes, vanished,
}
use prediction_market_arbitr.Runner.Pricing.{is_ready}
use prediction_market_arbitr.Runner.Rollover.{
  RolloverEvent, book_force_sell, abandon, enter_bucket, rollover, on_hot_update, on_quote,
  prices_of, old_bid,
}
use prediction_market_arbitr.Runner.Schedule.{
  Prices, schedule, schedule_entry, schedule_exit, choose_side, order_buy, order_sell, arm_edges,
  up_lasted, dn_lasted, entry_elapsed_ok, wants_stop, wants_profit,
}
use prediction_market_arbitr.Runner.Spot.{on_spot}
use prediction_market_arbitr.Runner.State.{
  Config, PaperState, Desk, Side, no_side, TradeRow, buy, ExitReason,
}
use prediction_market_arbitr.Runner.Venue.{Venue}

module _ {W : Type 0} ⦃d : Double W⦄ where
  choose_side-ne : (q : Prices W) (a b : Bool) → choose_side q a b ≢ no_side
  unfolding choose_side
  choose_side-ne q a b = ground arith

  schedule_entry_cases {ℓ} :
      (P : PaperState W → Type ℓ) (c : Config W) (now : ℤ) (q : Prices W) (s : Desk W)
      → P s.paper
      → ((side : Side) → side ≢ no_side → P (order_buy c now side s.paper))
      → P (schedule_entry c now q s).paper
  unfolding schedule_entry
  schedule_entry_cases P c now q s same entries =
      let hot = arm_edges c now q s.hot in
      elim (Bool-cases (not (up_lasted c now q hot) && not (dn_lasted c now q hot))) [
        | inl e ↦ rw e same
        | inr e ↦ elim (Bool-cases (not (entry_elapsed_ok c hot))) [
          | inl late ↦ rw (e, late) same
          | inr open' ↦ rw (e, open') (entries _ (choose_side-ne q _ _))
        ]
      ]

  schedule_exit_cases {ℓ} :
      (P : PaperState W → Type ℓ) (c : Config W) (now : ℤ) (q : Prices W) (s : Desk W)
      → P s.paper
      → ((why : ExitReason) → P (order_sell c now why s.paper))
      → P (schedule_exit c now q s).paper
  unfolding schedule_exit
  schedule_exit_cases P c now q s same exits =
      elim (Bool-cases (not (wants_stop c q s.paper) && not (wants_profit c q s.paper))) [
        | inl e ↦ rw e same
        | inr e ↦ rw e (exits _)
      ]

  -- What `schedule` can do to the paper state.
  pub schedule_cases {ℓ} :
      (P : PaperState W → Type ℓ) (c : Config W) (now : ℤ) (q : Prices W) (s : Desk W)
      → P s.paper
      → ((side : Side)
          → side ≢ no_side
          → s.paper.have_pos ≡ false
          → P (order_buy c now side s.paper))
      → ((why : ExitReason) → s.paper.have_pos ≡ true → P (order_sell c now why s.paper))
      → P (schedule c now q s).paper
  unfolding schedule
  schedule_cases P c now q s same entries exits = elim (Bool-cases s.paper.pending) [
    | inl e ↦ simp e same
    | inr e ↦ elim (Bool-cases s.paper.risk_stop) [
      | inl f ↦ simp (e, f) same
      | inr f ↦ elim (Bool-cases s.paper.have_pos) [
        | inl g ↦ simp (e, f, g) (schedule_exit_cases P c now q s same (λ why. exits why g))
        | inr g ↦ elim (Bool-cases s.trading_enabled) [
          | inl h ↦
              simp (e, f, g, h)
                (schedule_entry_cases P c now q s same (λ side ne. entries side ne g))
          | inr h ↦ simp (e, f, g, h) same
        ]
      ]
    ]
  ]

  -- `Q` of the paper state and the trade rows is kept by every move.
  pub record IsKept (c : Config W) (Q : PaperState W → List (TradeRow W) → Type 0) : Type 0 where
    pub ordered_buy :
        (now : ℤ) (side : Side) (p : PaperState W) (ts : List (TradeRow W))
        → side ≢ no_side
        → p.have_pos ≡ false
        → Q p ts
        → Q (order_buy c now side p) ts
    pub ordered_sell :
        (now : ℤ) (why : ExitReason) (p : PaperState W) (ts : List (TradeRow W))
        → p.have_pos ≡ true
        → Q p ts
        → Q (order_sell c now why p) ts
    pub dropped : (p p' : PaperState W) (ts : List (TradeRow W)) → IsDropped p p' → Q p ts → Q p' ts
    pub booked_buy :
        (s : Desk W) (token : String) (qty cost fee avg : W)
        → s.paper.pending ≡ true
        → s.paper.pending_action ≡ buy
        → Q s.paper s.trades
        → let t = book_buy c s.paper.pending_side token qty cost fee avg s in Q t.paper t.trades
    pub booked_sell :
        (s : Desk W) (proceeds fee : W)
        → Q s.paper s.trades
        → let t = book_sell c proceeds fee s in Q t.paper t.trades
    pub cleared : (s : Desk W) → Q s.paper s.trades → Q (vanished s).paper s.trades
    pub abandoned : (p : PaperState W) (ts : List (TradeRow W)) → Q p ts → Q (abandon p) ts
    pub forced :
        (s : Desk W) (bid qty : W)
        → Q s.paper s.trades
        → let t = book_force_sell c bid qty s in Q t.paper t.trades

module _ {W J E : Type 0} ⦃d : Double W⦄ ⦃json : Json W J⦄ (v : Venue W J E) where
  module _ (c : Config W) (Q : PaperState W → List (TradeRow W) → Type 0) (kept : IsKept c Q) where
    abbrev On : Desk W → Type 0
    On s = Q s.paper s.trades

    Outcome-IsKept :
        {f : Feeds} {now : ℤ} {s t : Desk W} {e : E} → Outcome v c f now s e t → On s → On t
    unfolding paper_buy
    Outcome-IsKept stays q = q
    Outcome-IsKept {s = s} (drops p k) q = kept.dropped s.paper p s.trades k q
    Outcome-IsKept {s = s} (paper_buys due ok paper) q =
        kept.booked_buy s _ _ _ _ _ due.pending due.ordered q
    Outcome-IsKept {s = s} (live_buys due ok live fill filled) q =
        kept.booked_buy s _ fill.fill_qty fill.cost_usd fill.fee_usd fill.fill_avg_price due.pending
          due.ordered q
    Outcome-IsKept {s = s} (sells due held proceeds fee sale) q = kept.booked_sell s proceeds fee q
    Outcome-IsKept {s = s} (vanishes due held live stop balance told finite none_left) q =
        kept.cleared s q

    Handover-IsKept : {ev : RolloverEvent W} {s t : Desk W} → Handover c ev s t → On s → On t
    Handover-IsKept (keeps why) q = q
    Handover-IsKept {s = s} (abandons held) q = kept.abandoned s.paper s.trades q
    Handover-IsKept {ev} {s} (force_sells held qty) q =
        kept.forced s (old_bid ev s.paper.side) qty q

    schedule-trades : (now : ℤ) (p : Prices W) (s : Desk W) → (schedule c now p s).trades ≡ s.trades
    unfolding schedule schedule_entry schedule_exit
    schedule-trades now p s = ground arith

    schedule-IsKept : (now : ℤ) (p : Prices W) (s : Desk W) → On s → On (schedule c now p s)
    schedule-IsKept now p s q = rw (schedule-trades now p s) (
        schedule_cases (λ x. Q x s.trades) c now p s q
          (λ side ne flat. kept.ordered_buy now side s.paper s.trades ne flat q)
          (λ why held. kept.ordered_sell now why s.paper s.trades held q))

    on_hot_update-IsKept : (f : Feeds) (s : Desk W) (e : E) → On s → On (on_hot_update v c f s e).0
    unfolding on_hot_update
    on_hot_update-IsKept f s e q =
        let P = λ (r : Desk W × E). On r.0 in
        if_intro P (not (is_ready s.hot)) (s, e) _ (λ _. q)
          λ _.
            if_intro P (not s.trading_enabled) (s, e) _ (λ _. q)
              λ _.
                if_intro P (not (schedule c (v.steady_ns e).0 (prices_of c s.hot) s).paper.pending)
                  _ _ (λ _. schedule-IsKept _ _ s q)
                  (λ _. Outcome-IsKept (execute_due-Outcome v c f _ _ _) (schedule-IsKept _ _ s q))

    consume-IsKept :
        (f : Feeds) (ev : Event W) (s : Desk W) (e : E) → On s → On (consume v c f ev s e).0
    unfolding consume on_quote on_spot rollover enter_bucket
    consume-IsKept f (quoted x) s e q = on_hot_update-IsKept f _ e q
    consume-IsKept f (spotted tick) s e q = on_hot_update-IsKept f _ _ q
    consume-IsKept f (rolled ev) s e q = Handover-IsKept (force_sell-Handover v c ev s e) q

    -- What every move keeps, every history of events keeps.
    pub run-IsKept :
        (evs : List (Feeds × Event W)) (s : Desk W) (e : E) → On s → On (run v c evs s e).0
    unfolding run
    run-IsKept [] s e q = q
    run-IsKept ((f, ev) ∷ evs) s e q = run-IsKept evs _ _ (consume-IsKept f ev s e q)
