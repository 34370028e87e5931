-- ===== src/Runner/Schedule.antt =====
-- apps/btc_poly_runner.cpp: `stop_loss_signal`, `entry_elapsed_ok` and `schedule`, which turns fair
-- values and quotes into at most one pending order.
use prediction_market_arbitr.Base.{
  ℤ, pos, ◌+ℤ◌, ◌-ℤ◌, ◌*ℤ◌, Bool, true, false, not, if◌then◌else◌, ◌||◌, ◌&&◌, ltb_ℤ, leb_ℤ,
}
use prediction_market_arbitr.Double.{Double}
use prediction_market_arbitr.Runner.Pricing.{poly_taker_fee}
use prediction_market_arbitr.Runner.State.{
  Config, HotState, PaperState, Desk, Side, up, down, buy, sell, ExitReason, take_profit, stop_loss,
  minus_one,
}

-- The arguments of `schedule`.
pub record Prices (W : Type 0) : Type 0 where
  pub p_up : W
  pub p_dn : W
  pub up_ask : W
  pub up_bid : W
  pub dn_ask : W
  pub dn_bid : W

-- One edge timer: the time since which the edge has held, or -1.
unfoldable pub arm : Bool → ℤ → ℤ → ℤ
arm raw now since = if raw then (if ltb_ℤ since (pos 0) then now else since) else minus_one

-- `edge_up_raw && (edge_persist_ns <= 0 || now_ns - since >= edge_persist_ns)`
unfoldable pub persisted : Bool → ℤ → ℤ → ℤ → Bool
persisted raw persist now since = raw && (leb_ℤ persist (pos 0) || leb_ℤ persist (now -ℤ since))

-- A side that is up is read as `Up`, and any other as `Down`, as in the code's conditionals.
abbrev pub is_up : Side → Bool
is_up up = true
is_up _ = false

module _ {W : Type 0} where
  abbrev pub disarm : HotState W → HotState W
  disarm h = record h { edge_up_ok_since_mono_ns = minus_one; edge_dn_ok_since_mono_ns = minus_one }

module _ {W : Type 0} ⦃d : Double W⦄ where
  open d use {lit, add, sub, mul, div, neg, lt, le, is_finite, of_int}

  unfoldable pub stop_loss_signal : Config W → PaperState W → W → W → Bool
  stop_loss_signal c p bid qty =
      let proceeds = mul qty bid in
      let fee = poly_taker_fee proceeds bid c.fee_rate in
      let pnl_frac = div (sub (sub proceeds fee) p.pos_cost_basis) p.pos_cost_basis in
      if le c.stop_loss_frac (lit 0 0) || le p.pos_cost_basis (lit 0 0) || le qty (lit 0 0)
      then false
      else if not (is_finite bid) || le bid (lit 0 0)
      then false
      else le pnl_frac (neg c.stop_loss_frac)

  unfoldable pub entry_elapsed_ok : Config W → HotState W → Bool
  entry_elapsed_ok c h =
      let bucket_start_ms = h.active_epoch *ℤ pos 1000 in
      let elapsed_sec = div (of_int (h.bin_entry_clock_wall_ms -ℤ bucket_start_ms)) (lit 1000 0) in
      if not c.use_entry_elapsed_window
      then true
      else if ltb_ℤ h.active_epoch (pos 0)
      then false
      else le c.entry_elapsed_min_sec elapsed_sec && le elapsed_sec c.entry_elapsed_max_sec

  unfoldable pub buy_ask_ok : Config W → W → Bool
  buy_ask_ok c ask =
      if not (is_finite ask) || le ask (lit 0 0)
      then false
      else if c.use_buy_ask_range
      then le c.buy_ask_min ask && le ask c.buy_ask_max
      else le (lit 2 2) ask

  unfoldable pub edge_up_raw : Config W → Prices W → Bool
  edge_up_raw c q = le c.entry (sub q.p_up q.up_ask) && buy_ask_ok c q.up_ask

  unfoldable pub edge_dn_raw : Config W → Prices W → Bool
  edge_dn_raw c q = le c.entry (sub q.p_dn q.dn_ask) && buy_ask_ok c q.dn_ask

  unfoldable pub arm_edges : Config W → ℤ → Prices W → HotState W → HotState W
  arm_edges c now q h = record h {
    edge_up_ok_since_mono_ns = arm (edge_up_raw c q) now h.edge_up_ok_since_mono_ns;
    edge_dn_ok_since_mono_ns = arm (edge_dn_raw c q) now h.edge_dn_ok_since_mono_ns;
  }

  -- The outcome that would be bought, given which edges have lasted long enough.
  unfoldable pub choose_side : Prices W → Bool → Bool → Side
  choose_side q up_ok dn_ok =
      if up_ok && dn_ok
      then (if le (sub q.p_dn q.dn_ask) (sub q.p_up q.up_ask) then up else down)
      else if up_ok
      then up
      else down

  unfoldable pub up_lasted : Config W → ℤ → Prices W → HotState W → Bool
  up_lasted c now q h = persisted (edge_up_raw c q) c.edge_persist_ns now h.edge_up_ok_since_mono_ns

  unfoldable pub dn_lasted : Config W → ℤ → Prices W → HotState W → Bool
  dn_lasted c now q h = persisted (edge_dn_raw c q) c.edge_persist_ns now h.edge_dn_ok_since_mono_ns

  -- `due_ns`
  abbrev pub due : Config W → ℤ → ℤ
  due c now = now +ℤ c.lat_ms *ℤ pos 1000000

  abbrev pub order_buy : Config W → ℤ → Side → PaperState W → PaperState W
  order_buy c now side p = record p {
    pending = true;
    pending_action = buy;
    pending_side = side;
    due_ns = due c now;
  }

  abbrev pub order_sell : Config W → ℤ → ExitReason → PaperState W → PaperState W
  order_sell c now why p = record p {
    pending = true;
    pending_action = sell;
    pending_side = p.side;
    pending_exit_reason = why;
    due_ns = due c now;
  }

  unfoldable pub schedule_entry : Config W → ℤ → Prices W → Desk W → Desk W
  schedule_entry c now q s =
      let hot = arm_edges c now q s.hot in
      let up_ok = up_lasted c now q hot in
      let dn_ok = dn_lasted c now q hot in
      if not up_ok && not dn_ok
      then record s { hot = hot }
      else if not (entry_elapsed_ok c hot)
      then record s { hot = hot }
      else record s { hot = hot; paper = order_buy c now (choose_side q up_ok dn_ok) s.paper }

  -- The bid and the fair value of the side that is held.
  abbrev pub held_bid : Prices W → Side → W
  held_bid q side = if is_up side then q.up_bid else q.dn_bid

  abbrev pub held_theo : Prices W → Side → W
  held_theo q side = if is_up side then q.p_up else q.p_dn

  unfoldable pub wants_stop : Config W → Prices W → PaperState W → Bool
  wants_stop c q p = stop_loss_signal c p (held_bid q p.side) p.qty || p.stop_sell_retry

  unfoldable pub wants_profit : Config W → Prices W → PaperState W → Bool
  wants_profit c q p =
      le (sub (sub (held_theo q p.side) c.close_eps) c.close_early_threshold) (held_bid q p.side)

  unfoldable pub schedule_exit : Config W → ℤ → Prices W → Desk W → Desk W
  schedule_exit c now q s =
      let stop = wants_stop c q s.paper in
      let profit = wants_profit c q s.paper in
      if not stop && not profit then record s { hot = disarm s.hot } else record s {
        hot = disarm s.hot;
        paper = order_sell c now (if stop then stop_loss else take_profit) s.paper;
      }

  unfoldable pub schedule : Config W → ℤ → Prices W → Desk W → Desk W
  schedule c now q s =
      if s.paper.pending
      then s
      else if s.paper.risk_stop
      then s
      else if s.paper.have_pos
      then schedule_exit c now q s
      else if not s.trading_enabled
      then record s { hot = disarm s.hot }
      else schedule_entry c now q s
