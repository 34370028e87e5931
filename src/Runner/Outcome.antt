-- ===== src/Runner/Outcome.antt =====
-- All that `execute_due` can do to the desk, as a relation.
use prediction_market_arbitr.Base.{
  ◌⊎◌, ℤ, true, false, not, ◌&&◌, ◌≡◌, refl, arith, Option-cases, Bool-cases, if_intro, ltb_ℤ, inl,
  inr,
}
use prediction_market_arbitr.Double.{Double, fmax}
use prediction_market_arbitr.Json.{Json}
use prediction_market_arbitr.Runner.Book.{
  Feeds, token_of, ask_of, mid_of, buy_refused, cap_exceeded, is_stop, bid_of,
}
use prediction_market_arbitr.Runner.Execute.{
  cool_down, live_buy, execute_buy, live_stop_sell, live_profit_sell, sell_at_bid, sell_balance,
  live_sell, execute_sell, clear_order, execute_action, execute_due, lapse, cooldown_ns, dust,
  profit_gone, buy_order, profit_order,
}
use prediction_market_arbitr.Runner.Pricing.{is_ready}
use prediction_market_arbitr.Runner.Fill.{live_resolve_market_buy_fill}
use prediction_market_arbitr.Runner.StopSell.{live_stop_sell_until_flat}
use prediction_market_arbitr.Runner.State.{Config, Desk, Action, no_action, buy, sell}
use prediction_market_arbitr.Runner.Venue.{Venue}
use prediction_market_arbitr.Runner.Outcomes.{
  IsDue, IsBuyAllowed, Outcome, spend_of, vanished, Answered, asked, IsStillProfit, on_paper,
  at_profit, stopped, stays, drops, paper_buys, live_buys, sells, vanishes,
}

module _ {W J E : Type 0} ⦃d : Double W⦄ ⦃json : Json W J⦄ (v : Venue W J E) where
  open d use {lit, sub, mul, le, lt, is_finite}

  module _ (c : Config W) (f : Feeds) (now : ℤ) where
    lapse-Outcome : (s : Desk W) (e : E) → Outcome v c f now s e (lapse s)
    lapse-Outcome s e = drops _ (ground arith)

    cool_down-Outcome :
        (ns : ℤ) (s : Desk W) (e0 e : E) → Outcome v c f now s e0 (cool_down v ns s e).0
    unfolding cool_down
    cool_down-Outcome ns s e0 e = drops _ (ground arith)

    live_buy-Outcome :
        (s : Desk W) (e : E)
        → IsDue now buy s
        → IsBuyAllowed c s
        → c.live_execution ≡ true
        → Outcome v c f now s e (live_buy v c f (spend_of c s) s e).0
    unfolding live_buy
    live_buy-Outcome s e due ok live =
        let spend = spend_of c s in
        let side = s.paper.pending_side in
        let ask = ask_of s.hot side in
        let token = token_of f side in
        let q = v.query_conditional_balance token e in
        let o = v.submit (buy_order token spend ask) q.1 in
        elim (Option-cases q.0) [
          | inl n ↦ rw (n, live_buy) (cool_down-Outcome cooldown_ns s e q.1)
          | inr (before, b) ↦ elim (Option-cases o.0) [
            | inl n ↦ rw (b, n, live_buy) (cool_down-Outcome cooldown_ns s e o.1)
            | inr (receipt, r) ↦
                let bf =
                  live_resolve_market_buy_fill v token receipt.order_id before spend ask c.fee_rate
                    receipt.submit_resp o.1 in
                elim (Option-cases bf.0) [
                  | inl n ↦ rw (b, r, n, live_buy) (cool_down-Outcome cooldown_ns s e bf.1)
                  | inr (fill, k) ↦
                      rw (b, r, k, live_buy)
                        (live_buys due ok live fill (record {
                          token = token;
                          of_side = refl;
                          before = before;
                          told = b;
                          receipt = receipt;
                          taken = r;
                          resolved = k;
                        }))
                ]
          ]
        ]

    execute_buy-Outcome :
        (s : Desk W) (e : E) → IsDue now buy s → Outcome v c f now s e (execute_buy v c f s e).0
    unfolding execute_buy
    execute_buy-Outcome s e due =
        let P = λ (r : Desk W × E). Outcome v c f now s e r.0 in
        if_intro P s.paper.have_pos _ _ (λ _. lapse-Outcome s e)
          λ flat.
            if_intro P _ _ _ (λ _. lapse-Outcome s e)
              λ accepted.
                if_intro P _ _ _ (λ _. lapse-Outcome s e)
                  λ affordable.
                    if_intro P _ _ _ (λ _. drops _ (ground arith))
                      λ capped.
                        if_intro P _ _ _
                          (live_buy-Outcome s e due (allowed flat accepted affordable capped))
                          (paper_buys due (allowed flat accepted affordable capped))
      where
        allowed :
            s.paper.have_pos ≡ false
            → buy_refused c s.hot s.paper.pending_side ≡ false
            → lt (spend_of c s) (lit 1 0) ≡ false
            → cap_exceeded c s.paper
                (spend_of c s)
                (ask_of s.hot s.paper.pending_side)
                (mid_of s.hot s.paper.pending_side)
              ≡ false
            → IsBuyAllowed c s
        allowed flat accepted affordable capped = record {
          flat = flat;
          accepted = accepted;
          affordable = affordable;
          capped = capped;
        }

    live_stop_sell-Outcome :
        (balance : W) (s : Desk W) (e : E)
        → IsDue now sell s
        → s.paper.have_pos ≡ true
        → c.live_execution ≡ true
        → is_stop s.paper.pending_exit_reason ≡ true
        → Answered v s.paper.token_id e balance
        → le (fmax (lit 0 0) balance) dust ≡ false
        → Outcome v c f now s e (live_stop_sell v c s (asked v s.paper.token_id e)).0
    unfolding live_stop_sell cool_down
    live_stop_sell-Outcome balance s e due held live stop told more =
        let r =
          live_stop_sell_until_flat v s.paper.token_id (bid_of s.hot s.paper.side) c.fee_rate
            (asked v s.paper.token_id e) in
        elim (Bool-cases r.0.flat) [
          | inl y ↦
              rw (y, live_stop_sell)
                (sells due held _ _ (stopped live stop balance told more r.0 refl y))
          | inr n ↦ rw (n, live_stop_sell) (drops _ (ground arith))
        ]

    live_profit_sell-Outcome :
        (balance : W) (s : Desk W) (e : E)
        → IsDue now sell s
        → s.paper.have_pos ≡ true
        → c.live_execution ≡ true
        → is_stop s.paper.pending_exit_reason ≡ false
        → IsStillProfit v c s
        → Answered v s.paper.token_id e balance
        → le (fmax (lit 0 0) balance) dust ≡ false
        → Outcome v c f now s e
            (live_profit_sell v c (fmax (lit 0 0) balance) s (asked v s.paper.token_id e)).0
    unfolding live_profit_sell sell_at_bid
    live_profit_sell-Outcome balance s e due held live other still told more =
        let qty = fmax (lit 0 0) balance in
        elim (Option-cases (v.submit (profit_order qty s) (asked v s.paper.token_id e)).0) [
          | inl n ↦ rw (n, live_profit_sell) (cool_down-Outcome cooldown_ns s e _)
          | inr (receipt, r) ↦
              rw (r, live_profit_sell)
                (sells due held _ _ (at_profit live other still balance told more receipt r))
        ]

    still_profit :
        (s : Desk W)
        → is_stop s.paper.pending_exit_reason ≡ false
        → (not (is_stop s.paper.pending_exit_reason) && profit_gone c s) ≡ false
        → IsStillProfit v c s
    unfolding profit_gone
    still_profit s other kept = ground (arith, other, kept)

    sell_balance-Outcome :
        (balance : W) (s : Desk W) (e : E)
        → IsDue now sell s
        → s.paper.have_pos ≡ true
        → c.live_execution ≡ true
        → (not (is_stop s.paper.pending_exit_reason) && profit_gone c s) ≡ false
        → Answered v s.paper.token_id e balance
        → Outcome v c f now s e (sell_balance v c balance s (asked v s.paper.token_id e)).0
    unfolding sell_balance
    sell_balance-Outcome balance s e due held live kept told =
        let P = λ (r : Desk W × E). Outcome v c f now s e r.0 in
        let e1 = asked v s.paper.token_id e in
        let qty = fmax (lit 0 0) balance in
        let stop = is_stop s.paper.pending_exit_reason in
        if_intro P (le qty dust) _ _
          (λ _.
            if_intro P (stop && is_finite balance && le balance dust) (vanished s, e1)
              (cool_down v cooldown_ns s e1)
              (λ none_left.
                vanishes due held live (ground (arith, none_left)) balance told
                  (ground (arith, none_left)) (ground (arith, none_left)))
              (λ _. cool_down-Outcome cooldown_ns s e e1))
          λ more.
            if_intro P stop (live_stop_sell v c s e1) (live_profit_sell v c qty s e1)
              (λ y. live_stop_sell-Outcome balance s e due held live y told more)
              (λ n.
                live_profit_sell-Outcome balance s e due held live n (still_profit s n kept) told
                  more)

    live_sell-Outcome :
        (s : Desk W) (e : E)
        → IsDue now sell s
        → s.paper.have_pos ≡ true
        → (not (is_stop s.paper.pending_exit_reason) && profit_gone c s) ≡ false
        → c.live_execution ≡ true
        → Outcome v c f now s e (live_sell v c s e).0
    unfolding live_sell
    live_sell-Outcome s e due held kept live =
        elim (Option-cases (v.query_conditional_balance s.paper.token_id e).0) [
          | inl n ↦ rw (n, live_sell) (cool_down-Outcome cooldown_ns s e _)
          | inr (balance, b) ↦
              rw (b, live_sell) (sell_balance-Outcome balance s e due held live kept b)
        ]

    stop_or_profit :
        (s : Desk W)
        → (not (is_stop s.paper.pending_exit_reason) && profit_gone c s) ≡ false
        → (is_stop s.paper.pending_exit_reason ≡ true) ⊎ IsStillProfit v c s
    stop_or_profit s kept = elim (Bool-cases (is_stop s.paper.pending_exit_reason)) [
      | inl y ↦ inl y
      | inr n ↦ inr (still_profit s n kept)
    ]

    execute_sell-Outcome :
        (s : Desk W) (e : E)
        → IsDue now sell s
        → s.paper.have_pos ≡ true
        → Outcome v c f now s e (execute_sell v c s e).0
    unfolding execute_sell
    execute_sell-Outcome s e due held =
        let P = λ (r : Desk W × E). Outcome v c f now s e r.0 in
        let fell = not (is_stop s.paper.pending_exit_reason) && profit_gone c s in
        if_intro P fell (lapse s, e) _ (λ _. lapse-Outcome s e)
          λ kept.
            if_intro P c.live_execution (live_sell v c s e) _ (live_sell-Outcome s e due held kept)
              λ paper.
                if_intro P (le s.paper.qty dust) (lapse s, e) (sell_at_bid c s.paper.qty s, e)
                  (λ _. lapse-Outcome s e)
                  (λ more.
                    unfold sell_at_bid in
                    sells due held _ _ (on_paper paper (stop_or_profit s kept) more))

    clear_order-Outcome : (s : Desk W) (e : E) → Outcome v c f now s e (clear_order v s e).0
    unfolding clear_order
    clear_order-Outcome s e = drops _ (ground arith)

    execute_action-Outcome :
        (a : Action) (s : Desk W) (e : E)
        → IsDue now a s
        → Outcome v c f now s e (execute_action v a c f s e).0
    unfolding execute_action
    execute_action-Outcome buy s e due = execute_buy-Outcome s e due
    execute_action-Outcome no_action s e due = clear_order-Outcome s e
    execute_action-Outcome sell s e due =
        if_intro (λ (r : Desk W × E). Outcome v c f now s e r.0) s.paper.have_pos _ _
          (execute_sell-Outcome s e due) (λ _. clear_order-Outcome s e)

    pub execute_due-Outcome :
        (s : Desk W) (e : E) → Outcome v c f now s e (execute_due v c f now s e).0
    unfolding execute_due
    execute_due-Outcome s e =
        let P = λ (r : Desk W × E). Outcome v c f now s e r.0 in
        if_intro P (not s.paper.pending) (s, e) _ (λ _. stays)
          λ pending.
            if_intro P (ltb_ℤ now s.paper.due_ns) (s, e) _ (λ _. stays)
              λ due.
                if_intro P (not (is_ready s.hot)) (s, e) _ (λ _. stays)
                  λ ready. execute_action-Outcome s.paper.pending_action s e (record {
                    pending = ground arith;
                    ordered = refl;
                    due = due;
                    ready = ground arith;
                  })
