-- ===== src/Runner/Book.antt =====
-- apps/btc_poly_runner.cpp: the tests, amounts and bookkeeping of `execute_due`.
use prediction_market_arbitr.Base.{String, Bool, true, false, not, if◌then◌else◌, ◌||◌, ◌&&◌, ◌∷◌}
use prediction_market_arbitr.Double.{Double, fmax, fmin}
use prediction_market_arbitr.Runner.Pricing.{poly_taker_fee, theo}
use prediction_market_arbitr.Runner.Schedule.{entry_elapsed_ok, is_up}
use prediction_market_arbitr.Runner.State.{
  Config, HotState, PaperState, Desk, Side, bought, sold, ExitReason, no_reason, stop_loss, flatten,
}

-- `feed_up.token_id()` and `feed_down.token_id()`
pub record Feeds : Type 0 where
  pub token_up : String
  pub token_down : String
  -- read again after the polls of a live BUY, when the main thread may have switched the feeds
  pub later_up : String
  pub later_down : String

abbrev pub token_of : Feeds → Side → String
token_of f side = if is_up side then f.token_up else f.token_down

abbrev pub later_token_of : Feeds → Side → String
later_token_of f side = if is_up side then f.later_up else f.later_down

abbrev pub is_stop : ExitReason → Bool
is_stop stop_loss = true
is_stop _ = false

module _ {W : Type 0} where
  abbrev pub with_paper : Desk W → PaperState W → Desk W
  with_paper s p = record s { paper = p }

  -- `paper.pending = false`
  abbrev pub drop_order : PaperState W → PaperState W
  drop_order p = record p { pending = false }

  abbrev pub bid_of : HotState W → Side → W
  bid_of h side = if is_up side then h.up_bid else h.down_bid

  abbrev pub ask_of : HotState W → Side → W
  ask_of h side = if is_up side then h.up_ask else h.down_ask

module _ {W : Type 0} ⦃d : Double W⦄ where
  open d use {lit, add, sub, mul, div, lt, le, is_finite}

  abbrev pub mid_of : HotState W → Side → W
  mid_of h side = mul (lit 5 1) (add (bid_of h side) (ask_of h side))

  abbrev pub theo_of : Config W → HotState W → Side → W
  theo_of c h side = if is_up side then (theo c h).0 else (theo c h).1

  -- The tests on the ask that make a BUY lapse when it is due.
  unfoldable pub ask_refused : Config W → W → Bool
  ask_refused c ask =
      if c.use_buy_ask_range
      then not (is_finite ask) || le ask (lit 0 0) || lt ask c.buy_ask_min || lt c.buy_ask_max ask
      else lt ask (lit 2 2)

  unfoldable pub buy_refused : Config W → HotState W → Side → Bool
  buy_refused c h side =
      lt (sub (theo_of c h side) (ask_of h side)) c.entry
      || not (entry_elapsed_ok c h)
      || ask_refused c (ask_of h side)

  -- The notional of a BUY: the target, as far as cash pays for it with its fee.
  unfoldable pub spend_for : Config W → W → W → W
  spend_for c cash ask =
      let spend_target =
        (if lt (lit 0 0) c.fixed_spend_usd
          then c.fixed_spend_usd
          else fmax (mul cash c.risk_frac) (lit 1 0)) in
      let fee_mult = mul (mul c.fee_rate ask) (sub (lit 1 0) ask) in
      fmin spend_target (div cash (add (lit 1 0) fee_mult))

  -- Would the projected equity pass the loss cap?
  unfoldable pub cap_exceeded : Config W → PaperState W → (spend ask mid : W) → Bool
  cap_exceeded c p spend ask mid =
      let fee = poly_taker_fee spend ask c.fee_rate in
      let proj_eq = add (sub (sub p.cash spend) fee) (mul (div spend ask) mid) in
      is_finite c.max_loss_usd && lt (add c.max_loss_usd (lit 1 9)) (sub c.initial_cash proj_eq)

  -- `isfinite(max_loss_usd) && initial_cash - eq >= max_loss_usd - 1e-9`
  unfoldable pub loss_reached : Config W → W → Bool
  loss_reached c eq =
      is_finite c.max_loss_usd && le (sub c.max_loss_usd (lit 1 9)) (sub c.initial_cash eq)

  -- The bookkeeping of a BUY that has filled.
  unfoldable pub book_buy :
      Config W → (side : Side) (token : String) (qty cost fee avg : W) → Desk W → Desk W
  book_buy c side token qty cost fee avg s =
      let cash = sub s.paper.cash (add cost fee) in
      let eq = add cash (mul qty (mid_of s.hot side)) in
      record s {
        paper = record s.paper {
          cash = cash;
          have_pos = true;
          side = side;
          slug = s.hot.slug;
          token_id = token;
          qty = qty;
          entry_fill_price = avg;
          pos_cost_basis = add cost fee;
          risk_stop = s.paper.risk_stop || loss_reached c eq;
          pending = false;
        };
        trades = bought cost fee ∷ s.trades;
      }

  -- The bookkeeping of a SELL that has gone through.
  unfoldable pub book_sell : Config W → (proceeds fee : W) → Desk W → Desk W
  book_sell c proceeds fee s =
      let cash = add s.paper.cash (sub proceeds fee) in
      record s {
        paper = flatten (record s.paper {
          cash = cash;
          risk_stop = s.paper.risk_stop || loss_reached c cash;
          pending_exit_reason = no_reason;
          stop_sell_retry = false;
          pending = false;
        });
        trades = sold proceeds fee ∷ s.trades;
      }

  -- The worst price that a live SELL accepts; 0 leaves it to the daemon.
  abbrev pub worst_sell_price : W → W
  worst_sell_price bid = if lt (lit 0 0) bid && is_finite bid then fmax (lit 1 2) bid else lit 0 0
