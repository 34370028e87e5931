-- ===== src/Pipeline/Hot.antt =====
-- apps/live_pipeline.cpp: the hot state, its volatility, and the signals printed from it. Rows, counters
-- and the text of a signal are left out.
use prediction_market_arbitr.Pipeline.Volatility.{
  digital_call_prob, drop_before, realized_vol_1h_resampled_from_hist,
}
use prediction_market_arbitr.Base.{
  ℤ, pos, ◌+ℤ◌, ◌-ℤ◌, ◌*ℤ◌, ltb_ℤ, leb_ℤ, String, Bool, true, false, not, if◌then◌else◌, ◌&&◌, ◌||◌,
  List, [], ◌∷◌, ◌++◌, Option, none, some,
}
use prediction_market_arbitr.Double.{Double, fmax}
use prediction_market_arbitr.Runner.Rollover.{PolymarketWsQuote}
use prediction_market_arbitr.Runner.Volatility.{hour_ms}

pub record HotState (W : Type 0) : Type 0 where
  pub active_epoch : ℤ
  pub slug : String
  pub have_bin : Bool
  pub bin_mid : W
  pub bin_wall_ms : ℤ
  pub bin_hist : List (ℤ × W)
  pub have_k : Bool
  pub k : W
  pub sigma_bucket : W
  pub have_sigma : Bool
  pub have_up : Bool
  pub up_bid : W
  pub up_ask : W
  pub have_down : Bool
  pub down_bid : W
  pub down_ask : W
  pub last_print_mono_ns : ℤ

-- The settings of `main` that the hot path reads.
pub record HotConfig (W : Type 0) : Type 0 where
  pub sigma_fallback : W
  pub sigma_step_ms : ℤ
  pub edge_threshold : W

-- What a signal tells.
pub record Signal (W : Type 0) : Type 0 where
  pub signal_slug : String
  pub spot : W
  pub strike : W
  pub rem_s : W
  pub sigma_use : W
  pub p_theo_up : W
  pub signal_up_ask : W
  pub edge_up : W
  pub signal_down_ask : W
  pub edge_down : W

-- `kMinPrintEveryNs`
abbrev pub min_print_every_ns : ℤ
min_print_every_ns = pos 200000000

module _ {W : Type 0} ⦃d : Double W⦄ where
  open d use {lit, of_int, nan, add, sub, mul, div, neg, lt, le, is_finite, log, sqrt, erfc}

  -- The price is noted, and the history trimmed to an hour.
  abbrev pub note_price : (ts_ms : ℤ) → W → HotState W → HotState W
  note_price ts_ms px h = record h {
    have_bin = true;
    bin_mid = px;
    bin_wall_ms = ts_ms;
    bin_hist = drop_before (ts_ms -ℤ hour_ms) (h.bin_hist ++ ((ts_ms, px) ∷ []));
  }

  abbrev pub set_sigma : W → HotState W → HotState W
  set_sigma sigma h =
      if is_finite sigma && lt (lit 0 0) sigma
      then record h { have_sigma = true; sigma_bucket = sigma }
      else record h { have_sigma = false; sigma_bucket = lit 0 0 }

  -- The bucket's volatility is taken once, from the first price in the bucket that gives one.
  abbrev pub take_sigma : HotConfig W → HotState W → HotState W
  take_sigma c h =
      if leb_ℤ (pos 0) h.active_epoch
        && h.have_k
        && not h.have_sigma
        && leb_ℤ (h.active_epoch *ℤ pos 1000) h.bin_wall_ms
      then set_sigma
          (realized_vol_1h_resampled_from_hist h.bin_hist (h.active_epoch *ℤ pos 1000)
            c.sigma_step_ms)
          h
      else h

  unfoldable pub note_tick : HotConfig W → (ts_ms : ℤ) → W → HotState W → HotState W
  note_tick c ts_ms px h = take_sigma c (note_price ts_ms px h)

  -- What the callbacks of the two feeds note, the one of the Up feed if `from_up`. `fallback` is
  -- `active_epoch` of `main`.
  unfoldable pub note_quote :
      (from_up : Bool) (fallback : ℤ) → PolymarketWsQuote W → HotState W → HotState W
  note_quote from_up fallback q h =
      let h' : HotState W = record h {
        slug = q.event_slug;
        active_epoch =
            if leb_ℤ (pos 0) q.market_bucket_epoch then q.market_bucket_epoch else fallback;
      } in
      if from_up
      then record h' { have_up = true; up_bid = q.best_bid; up_ask = q.best_ask }
      else record h' { have_down = true; down_bid = q.best_bid; down_ask = q.best_ask }

  abbrev pub can_price : HotState W → Bool
  can_price h = not (
      ltb_ℤ h.active_epoch (pos 0)
      || not h.have_k
      || not h.have_bin
      || not h.have_up
      || not h.have_down)

  unfoldable pub signal_of : HotConfig W → HotState W → Signal W
  signal_of c h =
      let rem =
        fmax (lit 1 3)
          (div (of_int ((h.active_epoch +ℤ pos 300) *ℤ pos 1000 -ℤ h.bin_wall_ms)) (lit 1000 0)) in
      let years = div rem (mul (mul (lit 365 0) (lit 24 0)) (lit 3600 0)) in
      let sigma = if h.have_sigma then h.sigma_bucket else c.sigma_fallback in
      let p = digital_call_prob h.bin_mid h.k years sigma in
      record {
        signal_slug = h.slug;
        spot = h.bin_mid;
        strike = h.k;
        rem_s = rem;
        sigma_use = sigma;
        p_theo_up = p;
        signal_up_ask = h.up_ask;
        edge_up = sub p h.up_ask;
        signal_down_ask = h.down_ask;
        edge_down = sub (sub (lit 1 0) p) h.down_ask;
      }

  -- A signal was printed less than 200 ms ago.
  abbrev pub is_limited : (now_ns : ℤ) → HotState W → Bool
  is_limited now_ns h =
      not (leb_ℤ h.last_print_mono_ns (pos 0) && leb_ℤ (pos 0) h.last_print_mono_ns)
      && ltb_ℤ (now_ns -ℤ h.last_print_mono_ns) min_print_every_ns

  abbrev pub has_edge : HotConfig W → Signal W → Bool
  has_edge c s = le c.edge_threshold s.edge_up || le c.edge_threshold s.edge_down

  unfoldable pub maybe_print_signal :
      HotConfig W → (now_ns : ℤ) → HotState W → HotState W × Option (Signal W)
  maybe_print_signal c now_ns h =
      if not (can_price h)
      then (h, none)
      else if is_limited now_ns h
      then (h, none)
      else if has_edge c (signal_of c h)
      then (record h { last_print_mono_ns = now_ns }, some (signal_of c h))
      else (h, none)

  -- `set_on_tick`: the callback of the price feed.
  unfoldable pub on_tick :
      HotConfig W → (ts_ms : ℤ) → W → (now_ns : ℤ) → HotState W → HotState W × Option (Signal W)
  on_tick c ts_ms px now_ns h = maybe_print_signal c now_ns (note_tick c ts_ms px h)

  -- `set_on_quote`: the callback of either quote feed.
  unfoldable pub on_quote :
      HotConfig W
      → (from_up : Bool) (fallback : ℤ) → PolymarketWsQuote W
      → (now_ns : ℤ) → HotState W
      → HotState W × Option (Signal W)
  on_quote c from_up fallback q now_ns h =
      maybe_print_signal c now_ns (note_quote from_up fallback q h)
