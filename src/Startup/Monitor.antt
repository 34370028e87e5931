-- ===== src/Startup/Monitor.antt =====
-- apps/btc_poly_runner.cpp: the main thread, from the first market to the end of the rollovers. What
-- it reads of the hot state at a rollover are arguments, since the consumer thread writes it.
use prediction_market_arbitr.Base.{
  ℕ, ℤ, pos, ◌+ℤ◌, leb_ℤ, String, Bool, true, false, not, if◌then◌else◌, ◌&&◌, ◌||◌, List, [], ◌∷◌,
  ◌++◌, Option, none, some, same, is_empty, codes, spell,
}
use prediction_market_arbitr.Buckets.Discover.{BtcFiveMinuteBucketDiscovery, epoch_of, try_slug}
use prediction_market_arbitr.Buckets.Market.{Outcome, found, rejected, raised}
use prediction_market_arbitr.Buckets.Slug.{Text}
use prediction_market_arbitr.Double.{Double}
use prediction_market_arbitr.Json.{Json}
use prediction_market_arbitr.Quotes.Fixed.{FixedFeed, start, stop, switch_token, set_market_context}
use prediction_market_arbitr.Runner.Rollover.{RolloverEvent}
use prediction_market_arbitr.Runner.State.{HotState, up, down}
use prediction_market_arbitr.Startup.Options.{Options}
use prediction_market_arbitr.Startup.Strikes.{
  Sources, blank, bucket_disc_has_strike, maybe_fill_strike_web_then_rtds, discover_initial,
  discover_next,
}

-- The variables of the main thread. `stopped` is `g_stop`; `hot` and `trading_enabled` are what the
-- consumer thread begins with. A signal before the loop is left out.
pub record Monitor (W : Type 0) : Type 0 where
  pub active_epoch : ℤ
  pub next_epoch : ℤ
  pub current_slug : Text
  pub feed_up : FixedFeed W
  pub feed_down : FixedFeed W
  pub stopped : Bool
  pub hot : HotState W
  pub trading_enabled : Bool

-- The bids of the hot state.
pub record Bids (W : Type 0) : Type 0 where
  pub up_bid : W
  pub down_bid : W

module _ {W : Type 0} where
  abbrev pub halted : Monitor W → Monitor W
  halted m = record m { stopped = true }

  abbrev pub with_contexts : Monitor W → Monitor W
  with_contexts m = record m {
    feed_up = set_market_context (spell m.current_slug) m.active_epoch up m.feed_up;
    feed_down = set_market_context (spell m.current_slug) m.active_epoch down m.feed_down;
  }

  -- Both feeds are started; the second only if the first has.
  unfoldable pub start_feeds : (token_up token_dn : String) → Monitor W → Monitor W
  start_feeds token_up token_dn m =
      let u = start token_up m.feed_up in
      let w = start token_dn m.feed_down in
      if not u.1
      then halted (record m { feed_up = u.0 })
      else if not w.1
      then halted (record m { feed_up = u.0; feed_down = w.0 })
      else record m { feed_up = u.0; feed_down = w.0 }

  abbrev pub no_token : BtcFiveMinuteBucketDiscovery W → Bool
  no_token disc = is_empty disc.up_token_id || is_empty disc.down_token_id

  -- The feeds are switched; the second only if the first is.
  unfoldable pub switch_feeds : (token_up token_dn : String) → Monitor W → Monitor W × Bool
  switch_feeds token_up token_dn m =
      let u = switch_token token_up m.feed_up in
      let w = switch_token token_dn m.feed_down in
      if not u.1
      then (record m { feed_up = u.0 }, false)
      else (record m { feed_up = u.0; feed_down = w.0 }, w.1)

  -- The market is entered: its slug and epoch.
  abbrev pub enter : BtcFiveMinuteBucketDiscovery W → ℤ → Monitor W → Monitor W
  enter disc epoch m = record m {
    current_slug = disc.confirmed_slug;
    active_epoch = epoch;
    next_epoch = epoch +ℤ pos 300;
  }

  -- The first market; without discovery there is no next one.
  abbrev pub enter_first :
      (discover : Bool) → BtcFiveMinuteBucketDiscovery W → ℤ → Monitor W → Monitor W
  enter_first discover disc epoch m = record m {
    current_slug = disc.confirmed_slug;
    active_epoch = epoch;
    next_epoch = if discover then epoch +ℤ pos 300 else m.next_epoch;
  }

  -- `active_epoch` of a market: where its slug has no epoch, the value from before the parse stays.
  abbrev pub entered_epoch : BtcFiveMinuteBucketDiscovery W → ℤ
  entered_epoch disc = elim (epoch_of disc) [ none ↦ disc.bucket_epoch_seconds | some n ↦ n ]

module _ {W : Type 0} ⦃d : Double W⦄ where
  unfoldable pub first_hot : BtcFiveMinuteBucketDiscovery W → ℤ → HotState W → HotState W
  first_hot disc epoch h = record h {
    slug = spell disc.confirmed_slug;
    active_epoch = epoch;
    have_k = bucket_disc_has_strike disc;
    k = if bucket_disc_has_strike disc then disc.price_to_beat else h.k;
  }

  -- Once the feeds run, the hot state is set; without discovery trading begins with the first market.
  unfoldable pub open_market :
      (discover : Bool) → BtcFiveMinuteBucketDiscovery W → ℤ → Monitor W → Monitor W
  open_market discover disc epoch m = if m.stopped then m else record m {
    hot = first_hot disc epoch m.hot;
    trading_enabled = m.trading_enabled || not discover;
  }

  abbrev pub rollover_event : Bids W → BtcFiveMinuteBucketDiscovery W → RolloverEvent W
  rollover_event bids disc = record {
    rollover_epoch = disc.bucket_epoch_seconds;
    rollover_slug = spell disc.confirmed_slug;
    rollover_up_bid = bids.up_bid;
    rollover_down_bid = bids.down_bid;
    rollover_price_to_beat = if bucket_disc_has_strike disc then disc.price_to_beat else d.nan;
  }

  -- The event is pushed if both feeds were switched.
  unfoldable pub enter_next :
      Bids W
      → BtcFiveMinuteBucketDiscovery W
      → Monitor W × Bool
      → Monitor W × List (RolloverEvent W)
  enter_next bids disc (m, switched) =
      if switched
      then (with_contexts (enter disc (entered_epoch disc) m), rollover_event bids disc ∷ [])
      else (m, [])

module _ {W J E : Type 0} ⦃d : Double W⦄ (json : Json W J) (sources : Sources W E) where
  abbrev pub begin_at :
      Options W → Monitor W → BtcFiveMinuteBucketDiscovery W → Option ℤ → E → Option (Monitor W) × E
  begin_at o m disc none e = (some (halted (enter_first false disc disc.bucket_epoch_seconds m)), e)
  begin_at o m disc (some epoch) e =
      let m1 = enter_first o.poly_discover disc epoch m in
      let r = maybe_fill_strike_web_then_rtds json sources disc o.poly_rollover_web_ptb e in
      (
        some (
            open_market o.poly_discover r.0 epoch
              (start_feeds disc.up_token_id disc.down_token_id (with_contexts m1))),
        r.1,
      )

  -- What is done with the first market. `none` is an exception.
  abbrev pub begin :
      Options W → Monitor W → Outcome (BtcFiveMinuteBucketDiscovery W) × E → Option (Monitor W) × E
  begin o m (raised, e) = (none, e)
  begin o m (rejected s, e) = (some (halted m), e)
  begin o m (found disc, e) =
      if no_token disc then (some (halted m), e) else begin_at o m disc (epoch_of disc) e

  -- A manual token must be the Up token of the market.
  abbrev pub checked_token :
      (token : String)
      → Outcome (BtcFiveMinuteBucketDiscovery W) × E
      → Outcome (BtcFiveMinuteBucketDiscovery W) × E
  checked_token token (found disc, e) = (
    if no_token disc || same token disc.up_token_id
        then found disc
        else rejected "--poly-token must match Gamma Up token",
    e,
  )
  checked_token token (rejected m, e) = (rejected m, e)
  checked_token token (raised, e) = (raised, e)

  -- The main thread up to its loop.
  unfoldable pub start_monitor : Options W → (now_s : ℕ) → Monitor W → E → Option (Monitor W) × E
  start_monitor o now_s m e = begin o m (
      if o.poly_discover
      then discover_initial json sources now_s e
      else checked_token o.poly_manual_token
          (try_slug json sources.gamma (codes o.poly_event_slug) blank e))

  abbrev pub roll :
      (web_first : Bool)
      → Bids W
      → Monitor W
      → Outcome (BtcFiveMinuteBucketDiscovery W) × E
      → Option (Monitor W × List (RolloverEvent W)) × E
  roll web_first bids m (raised, e) = (none, e)
  roll web_first bids m (rejected s, e) = (some (m, []), e)
  roll web_first bids m (found disc, e) =
      let r = maybe_fill_strike_web_then_rtds json sources disc web_first e in
      (some (enter_next bids r.0 (switch_feeds r.0.up_token_id r.0.down_token_id m)), r.1)

  -- One round of the loop, with the events that it pushes. `none` is an exception.
  unfoldable pub monitor_round :
      (web_first : Bool) (now_s : ℕ)
      → Bids W
      → Monitor W
      → E
      → Option (Monitor W × List (RolloverEvent W)) × E
  monitor_round web_first now_s bids m e =
      if leb_ℤ (pos 0) m.active_epoch && leb_ℤ (m.next_epoch +ℤ pos 1) (pos now_s)
      then roll web_first bids m (discover_next json sources now_s m.next_epoch e)
      else (some (m, []), e)

module _ {W : Type 0} where
  -- What is done after the loop.
  unfoldable pub end_monitor : Options W → Monitor W → Monitor W
  end_monitor o m = record m {
    feed_up = stop m.feed_up;
    feed_down = if o.poly_discover then stop m.feed_down else m.feed_down;
  }

module _ {W J E : Type 0} ⦃d : Double W⦄ (json : Json W J) (sources : Sources W E) where
  abbrev pub after_round :
      List (RolloverEvent W)
      → (Monitor W → List (RolloverEvent W) → E → Option (Monitor W × List (RolloverEvent W)) × E)
      → Option (Monitor W × List (RolloverEvent W)) × E
      → Option (Monitor W × List (RolloverEvent W)) × E
  after_round evs next (none, e) = (none, e)
  after_round evs next (some (m, more), e) = next m (evs ++ more) e

  -- The loop, over the clock and the bids at each round, and whether a signal has come before it. When
  -- the list is over the program still runs.
  unfoldable pub monitor_loop :
      Options W
      → List (ℕ × Bids W × Bool)
      → Monitor W
      → List (RolloverEvent W)
      → E
      → Option (Monitor W × List (RolloverEvent W)) × E
  monitor_loop o [] m evs e = (some (m, evs), e)
  monitor_loop o ((now_s, bids, signal) ∷ rounds) m evs e =
      if m.stopped || signal || not o.poly_discover
      then (some (end_monitor o (record m { stopped = m.stopped || signal }), evs), e)
      else after_round evs (monitor_loop o rounds)
          (monitor_round json sources o.poly_rollover_web_ptb now_s bids m e)
