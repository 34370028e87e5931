-- ===== src/Pipeline/Market.antt =====
-- apps/live_pipeline.cpp: the market that the loop of `main` is at, and the switch to another one.
use prediction_market_arbitr.Base.{
  ℕ, ℤ, pos, ◌+ℤ◌, leb_ℤ, String, Bool, true, false, not, if◌then◌else◌, ◌&&◌, List, [], ◌∷◌,
  Option, none, some, is_empty, spell,
}
use prediction_market_arbitr.Buckets.Discover.{BtcFiveMinuteBucketDiscovery}
use prediction_market_arbitr.Buckets.Slug.{Text, slug_for_bucket}
use prediction_market_arbitr.Double.{Double}
use prediction_market_arbitr.Pipeline.Hot.{HotState}
use prediction_market_arbitr.Quotes.Fixed.{FixedFeed, switch_token, set_market_context}
use prediction_market_arbitr.Runner.State.{up, down}

-- The market that was looked up ahead of time.
pub record Prefetched (W : Type 0) : Type 0 where
  pub next_up_token : String
  pub next_down_token : String
  pub next_confirmed_slug : Text
  pub next_prefetch_price_to_beat : W

-- The variables of `main`, with the hot state. `prefetched` holds a market if `next_ready`.
pub record Pipeline (W : Type 0) : Type 0 where
  pub active_epoch : ℤ
  pub next_epoch : ℤ
  pub current_slug : Text
  pub prefetched : Option (Prefetched W)
  pub last_prefetch_mono_ns : ℤ
  pub feed_up : FixedFeed W
  pub feed_down : FixedFeed W
  pub hot : HotState W

-- The row of a rollover.
pub record RolloverRow (W : Type 0) : Type 0 where
  pub old_slug : Text
  pub new_slug : Text
  pub old_up : String
  pub new_up : String
  pub old_down : String
  pub new_down : String
  pub price_to_beat : W

-- What a rollover goes to: `new_up`, `new_down`, `new_slug`, `new_active` and `new_strike_ptb`.
pub record Target (W : Type 0) : Type 0 where
  pub target_up : String
  pub target_down : String
  pub target_slug : Text
  pub target_epoch : ℤ
  pub target_strike : W

-- `kPrefetchInterval`
abbrev pub prefetch_interval_ns : ℤ
prefetch_interval_ns = pos 3000000000

abbrev pub no_text : Text → Bool
no_text [] = true
no_text (c ∷ cs) = false

module _ {W : Type 0} where
  abbrev pub is_ready : Pipeline W → Bool
  is_ready p = elim p.prefetched [ none ↦ false | some q ↦ true ]

  -- A prefetched market whose bucket is over is dropped.
  abbrev pub drop_stale : (wall_now_s : ℕ) → Pipeline W → Pipeline W
  drop_stale wall_now_s p =
      if is_ready p && leb_ℤ (p.next_epoch +ℤ pos 300) (pos wall_now_s)
      then record p { prefetched = none }
      else p

module _ {W : Type 0} ⦃d : Double W⦄ where
  open d use {lit, lt, le, nan, is_finite}

  abbrev pub has_price : W → Bool
  has_price x = is_finite x && lt (lit 0 0) x

  -- The price of a market that was looked up, if Gamma has one.
  abbrev pub gamma_price : BtcFiveMinuteBucketDiscovery W → W
  gamma_price nd =
      if nd.gamma_has_price_to_beat && lt (lit 0 0) nd.price_to_beat then nd.price_to_beat else nan

  abbrev pub prefetched_of : BtcFiveMinuteBucketDiscovery W → W → Prefetched W
  prefetched_of nd price = record {
    next_up_token = nd.up_token_id;
    next_down_token = nd.down_token_id;
    next_confirmed_slug = nd.confirmed_slug;
    next_prefetch_price_to_beat = price;
  }

  abbrev pub target_of : BtcFiveMinuteBucketDiscovery W → ℤ → Target W
  target_of disc epoch = record {
    target_up = disc.up_token_id;
    target_down = disc.down_token_id;
    target_slug = disc.confirmed_slug;
    target_epoch = epoch;
    target_strike = disc.price_to_beat;
  }

  abbrev pub target_of_prefetched : ℤ → Prefetched W → Target W
  target_of_prefetched next_epoch p = record {
    target_up = p.next_up_token;
    target_down = p.next_down_token;
    target_slug =
        if no_text p.next_confirmed_slug then slug_for_bucket next_epoch else p.next_confirmed_slug;
    target_epoch = next_epoch;
    target_strike = p.next_prefetch_price_to_beat;
  }

  -- The hot state of the new market. The quotes stay.
  unfoldable pub reset_hot : Target W → HotState W → HotState W
  reset_hot t h = record h {
    slug = spell t.target_slug;
    active_epoch = t.target_epoch;
    have_k = has_price t.target_strike;
    k = if has_price t.target_strike then t.target_strike else h.k;
    have_sigma = false;
    sigma_bucket = lit 0 0;
    last_print_mono_ns = pos 0;
  }

  abbrev pub row_of : Pipeline W → Target W → RolloverRow W
  row_of p t = record {
    old_slug = p.current_slug;
    new_slug = t.target_slug;
    old_up = p.feed_up.token_id;
    new_up = t.target_up;
    old_down = p.feed_down.token_id;
    new_down = t.target_down;
    price_to_beat = t.target_strike;
  }

  abbrev pub is_complete : Target W → Bool
  is_complete t =
      not (is_empty t.target_up)
      && not (is_empty t.target_down)
      && leb_ℤ (pos 0) t.target_epoch
      && not (no_text t.target_slug)

  -- Both feeds follow the new market.
  abbrev pub entered : Target W → Pipeline W → Pipeline W
  entered t p = record p {
    feed_up = set_market_context (spell t.target_slug) t.target_epoch up p.feed_up;
    feed_down = set_market_context (spell t.target_slug) t.target_epoch down p.feed_down;
    hot = reset_hot t p.hot;
    active_epoch = t.target_epoch;
    next_epoch = t.target_epoch +ℤ pos 300;
    current_slug = t.target_slug;
    prefetched = none;
  }

  -- The switch, with the row that is written if both feeds were switched.
  unfoldable pub switch_market : Target W → Pipeline W → Pipeline W × List (RolloverRow W)
  switch_market t p =
      let u = switch_token t.target_up p.feed_up in
      let w = switch_token t.target_down p.feed_down in
      if not (is_complete t)
      then (p, [])
      else if not u.1
      then (record p { feed_up = u.0 }, [])
      else if not w.1
      then (record p { feed_up = u.0; feed_down = w.0 }, [])
      else (entered t (record p { feed_up = u.0; feed_down = w.0 }), row_of p t ∷ [])
