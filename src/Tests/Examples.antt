-- ===== src/Tests/Examples.antt =====
-- The theorems at concrete inputs.
use prediction_market_arbitr.Base.{
  ℤ, pos, ◌-ℤ◌, ◌+ℤ◌, ◌*ℤ◌, ◌≤ℤ◌, true, false, ◌≡◌, refl, arith, ◌⊎◌, inl, List, [], ◌∷◌, some,
}
use prediction_market_arbitr.Double.{◌≼◌}
use prediction_market_arbitr.Runner.Amounts.{Each, IsFill, live_resolve_market_buy_fill-IsFill}
use prediction_market_arbitr.Runner.Book.{loss_reached, book_buy}
use prediction_market_arbitr.Runner.Carryover.{rebought}
use prediction_market_arbitr.Runner.Entry.{Watched, schedule-HeldSince, HeldSince, edge_of, arm_all}
use prediction_market_arbitr.Runner.Events.{run}
use prediction_market_arbitr.Runner.Execute.{execute_due}
use prediction_market_arbitr.Runner.Exit.{Because, schedule-Because}
use prediction_market_arbitr.Runner.Fill.{live_resolve_market_buy_fill}
use prediction_market_arbitr.Runner.Invariant.{IsConsistent, run-IsConsistent}
use prediction_market_arbitr.Runner.Journal.{replay, run-Balanced}
use prediction_market_arbitr.Runner.Outcome.{execute_due-Outcome}
use prediction_market_arbitr.Runner.Outcomes.{Outcome}
use prediction_market_arbitr.Runner.Pricing.{
  poly_taker_fee, rem_s, years, normal_cdf, clamp01, clamp_sigma, sigma_use, theo,
}
use prediction_market_arbitr.Runner.Retries.{IsEnd, live_stop_sell_until_flat-IsEnd}
use prediction_market_arbitr.Runner.Risk.{quotes, run_stopped}
use prediction_market_arbitr.Runner.Rollover.{
  rollover, enter_bucket, force_sell, book_force_sell, reset_hot,
}
use prediction_market_arbitr.Runner.Schedule.{
  Prices, schedule, due, schedule_entry, schedule_exit, arm_edges, arm, up_lasted, dn_lasted,
  persisted, edge_up_raw, edge_dn_raw, buy_ask_ok, entry_elapsed_ok, choose_side, wants_stop,
  wants_profit, stop_loss_signal,
}
use prediction_market_arbitr.Runner.State.{Config, Desk, up, buy, sell}
use prediction_market_arbitr.Runner.StopSell.{
  sell_loop, attempt_sale, after_order, book_sale, max_attempts, no_sale, live_stop_sell_until_flat,
}
use prediction_market_arbitr.Runner.Timers.{AreTimers, observed, schedule-AreTimers}
use prediction_market_arbitr.Tests.Fixed.{Fixed, dec, Double-Fixed}
use prediction_market_arbitr.Tests.Fixtures.{
  settings, desk, held_desk, held_paper, silent, feeds, quote, next_bucket, history, flat_paper,
}
use prediction_market_arbitr.Tests.World.{Script, Doc, Json-Doc, venue, null, number, entry}

flat_paper-IsConsistent : IsConsistent flat_paper
unfolding Double-Fixed
flat_paper-IsConsistent = record {
  position = inl (refl, (refl, refl, refl, refl, refl, refl));
  order = inl refl;
}

run-IsConsistent_example : IsConsistent (run venue settings history desk silent).0.paper
run-IsConsistent_example =
    run-IsConsistent venue settings history desk silent flat_paper-IsConsistent

run-Balanced_example :
    (run venue settings history desk silent).0.paper.cash
    ≡ replay (dec 100 0) (run venue settings history desk silent).0.trades
unfolding replay
run-Balanced_example = run-Balanced venue settings (dec 100 0) history desk silent refl

-- A BUY that is due.
abbrev due_desk : Desk Fixed
due_desk = record desk {
  paper = record flat_paper { pending = true; pending_action = buy; pending_side = up };
}

execute_due-Outcome_example :
    Outcome venue settings feeds
      (pos 5)
      due_desk
      silent
      (execute_due venue settings feeds (pos 5) due_desk silent).0
execute_due-Outcome_example = execute_due-Outcome venue settings feeds (pos 5) due_desk silent

-- One second of persistence, and prices with an edge of 0.2 on the first outcome.
abbrev patient : Config Fixed
patient = record settings { edge_persist_ns = pos 1000000000 }

abbrev edge : Prices Fixed
edge = record {
  p_up = dec 5 1;
  p_dn = dec 5 1;
  up_ask = dec 3 1;
  up_bid = dec 28 2;
  dn_ask = dec 7 1;
  dn_bid = dec 68 2;
}

abbrev seen : List (ℤ × Prices Fixed)
seen = (pos 7, edge) ∷ []

abbrev armed : Desk Fixed
armed = record desk { hot = record desk.hot { edge_up_ok_since_mono_ns = pos 7 } }

live_stop_sell_until_flat-IsEnd_example :
    IsEnd venue "up" max_attempts no_sale
      (live_stop_sell_until_flat venue "up" (dec 28 2) (dec 0 0) silent)
live_stop_sell_until_flat-IsEnd_example =
    live_stop_sell_until_flat-IsEnd venue "up" (dec 28 2) (dec 0 0) silent

abbrev stopped : Desk Fixed
stopped = record held_desk { paper = record held_paper { risk_stop = true } }

-- The bid falls to 0.05, and the position stays.
run_stopped_example :
    (run venue settings
      (quotes ((feeds, quote up (dec 5 2) (dec 6 2)) ∷ []))
      stopped
      silent).0.paper
    ≡ stopped.paper
run_stopped_example =
    run_stopped venue settings ((feeds, quote up (dec 5 2) (dec 6 2)) ∷ []) stopped silent refl refl

abbrev response : Doc
response = entry "makingAmount" (number (dec 3 0)) (entry "takingAmount" (number (dec 10 0)) null)

live_resolve_market_buy_fill-IsFill_example :
    Each
      (IsFill (dec 0 0))
      (live_resolve_market_buy_fill venue "up" ""
        (dec 0 0)
        (dec 3 0)
        (dec 3 1)
        (dec 0 0)
        response
        silent).0
live_resolve_market_buy_fill-IsFill_example =
    live_resolve_market_buy_fill-IsFill venue "up" "" (dec 0 0) (dec 3 0) (dec 3 1) (dec 0 0)
      response silent

schedule-AreTimers_example :
    AreTimers patient (observed (pos 9, edge) desk []) (schedule patient (pos 9) edge desk).hot
schedule-AreTimers_example =
    schedule-AreTimers patient (pos 9) edge [] desk (omega arith) (inl (tt, refl), inl (tt, refl))

window : (schedule patient (pos 2000000007) edge armed).paper.pending ≡ true
unfolding schedule schedule_entry arm_edges arm up_lasted dn_lasted persisted edge_up_raw
    edge_dn_raw buy_ask_ok entry_elapsed_ok choose_side Double-Fixed ◌-ℤ◌ ◌+ℤ◌ ◌*ℤ◌
window = refl

ordered : (schedule patient (pos 2000000007) edge armed).paper.pending_action ≡ buy
unfolding schedule schedule_entry arm_edges arm up_lasted dn_lasted persisted edge_up_raw
    edge_dn_raw buy_ask_ok entry_elapsed_ok choose_side Double-Fixed ◌-ℤ◌ ◌+ℤ◌ ◌*ℤ◌
ordered = refl

watched : Watched patient seen armed.hot
unfolding arm_all arm edge_up_raw edge_dn_raw buy_ask_ok Double-Fixed ◌-ℤ◌
watched = (refl, refl)

schedule-HeldSince_example :
    ((false ≡ false)
      × (false ≡ false)
      × (true ≡ true)
      × (entry_elapsed_ok patient armed.hot ≡ true)
      × (edge_of patient (schedule patient (pos 2000000007) edge armed).paper.pending_side edge
          ≡ true))
    × ((pos 1000000000 ≤ℤ pos 0)
        ⊎ ((since : ℤ) × (pos 1000000000 ≤ℤ pos 2000000007 -ℤ since)
            × HeldSince
                (edge_of patient (schedule patient (pos 2000000007) edge armed).paper.pending_side)
                ((pos 2000000007, edge) ∷ seen)
                since))
schedule-HeldSince_example =
    schedule-HeldSince patient (pos 2000000007) edge seen armed (omega arith, (omega arith, tt))
      watched refl window ordered

-- Prices at which a position on the first outcome is taken in profit.
abbrev rich : Prices Fixed
rich = record edge { up_bid = dec 6 1; up_ask = dec 62 2 }

profitable :
    ((schedule settings (pos 9) rich held_desk).paper.pending ≡ true)
    × ((schedule settings (pos 9) rich held_desk).paper.pending_action ≡ sell)
unfolding schedule schedule_exit wants_stop wants_profit stop_loss_signal poly_taker_fee
    Double-Fixed ◌-ℤ◌ ◌+ℤ◌ ◌*ℤ◌
profitable = (refl, refl)

schedule-Because_example :
    (true ≡ true)
    × (false ≡ false)
    × ((schedule settings (pos 9) rich held_desk).paper.pending_side ≡ up)
    × ((schedule settings (pos 9) rich held_desk).paper.due_ns ≡ due settings (pos 9))
    × Because settings rich held_paper
        (schedule settings (pos 9) rich held_desk).paper.pending_exit_reason
schedule-Because_example =
    schedule-Because settings (pos 9) rich held_desk refl profitable.0 profitable.1

theo_number :
    ((theo settings desk.hot).0 ≼ (theo settings desk.hot).0)
    × ((theo settings desk.hot).1 ≼ (theo settings desk.hot).1)
unfolding theo rem_s sigma_use years normal_cdf clamp01 clamp_sigma Double-Fixed ◌-ℤ◌ ◌+ℤ◌ ◌*ℤ◌
theo_number = (refl, refl)

-- A stop loss that did not complete before the rollover.
abbrev retrying : Desk Fixed
retrying = record held_desk { paper = record held_paper { stop_sell_retry = true } }

abbrev second_desk : Desk Fixed
second_desk =
    rebought venue settings next_bucket retrying silent up "up" (dec 10 0) (dec 3 0) (dec 0 0)
      (dec 3 1)

second_desk-free : second_desk.paper.risk_stop ≡ false
unfolding rollover enter_bucket book_buy loss_reached force_sell book_force_sell poly_taker_fee
    Double-Fixed reset_hot ◌-ℤ◌ ◌+ℤ◌ ◌*ℤ◌
second_desk-free = refl

-- The venue sells half of the shares, and then no longer tells the balance.
abbrev halved : Script
halved = record silent {
  balances = some (dec 20 0) ∷ some (dec 10 0) ∷ [];
  receipts = some (record { order_id = ""; submit_resp = null }) ∷ [];
}

unsold : (live_stop_sell_until_flat venue "up" (dec 28 2) (dec 0 0) halved).0.flat ≡ false
unfolding live_stop_sell_until_flat sell_loop attempt_sale after_order book_sale poly_taker_fee
    venue Double-Fixed ◌-ℤ◌ ◌+ℤ◌ ◌*ℤ◌
unsold = refl
