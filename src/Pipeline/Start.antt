-- ===== src/Pipeline/Start.antt =====
-- apps/live_pipeline.cpp: the arguments of `main`, and the first market. The texts of the usage and of
-- the errors are left out.
use prediction_market_arbitr.Base.{
  ℕ, ℤ, pos, ◌+ℤ◌, ◌-ℤ◌, String, Bool, true, false, not, if◌then◌else◌, ◌&&◌, ◌||◌, List, [], ◌∷◌,
  Option, none, some, same, is_empty, codes, spell,
}
use prediction_market_arbitr.Buckets.Discover.{BtcFiveMinuteBucketDiscovery, epoch_of, try_slug}
use prediction_market_arbitr.Buckets.Market.{Outcome, found, rejected, raised}
use prediction_market_arbitr.Buckets.Slug.{stoll}
use prediction_market_arbitr.Double.{Double}
use prediction_market_arbitr.Json.{Json}
use prediction_market_arbitr.Pipeline.Hot.{HotState, HotConfig}
use prediction_market_arbitr.Pipeline.Market.{Pipeline}
use prediction_market_arbitr.Quotes.Fixed.{FixedFeed, start, set_market_context}
use prediction_market_arbitr.Runner.State.{up, down}
use prediction_market_arbitr.Startup.Monitor.{no_token}
use prediction_market_arbitr.Startup.Parsed.{
  Parsed, go, exits, crashes, then_parse, or_crash, after_option,
}
use prediction_market_arbitr.Startup.Strikes.{
  Sources, blank, bucket_disc_has_strike, maybe_fill_strike_web_then_rtds, discover_initial,
}

-- The options of `main`.
pub record PipelineOptions (W : Type 0) : Type 0 where
  pub bin_out : String
  pub poly_out : String
  pub config : HotConfig W
  pub poly_discover : Bool
  pub poly_rollover_web_ptb : Bool
  pub poly_manual_token : String
  pub poly_event_slug : String

-- An option that is taken and has no effect.
abbrev pub is_ignored : String → Bool
is_ignored a =
    same a "--poly-slug-prefix"
    || same a "--poly-slug-filter"
    || same a "--poly-rollover-prefix"
    || same a "--poly-rollover-slug"

module _ {W : Type 0} ⦃d : Double W⦄ where
  open d use {lit, stod}

  abbrev pub default_options : (bin_out poly_out : String) → PipelineOptions W
  default_options bin_out poly_out = record {
    bin_out = bin_out;
    poly_out = poly_out;
    config = record {
      sigma_fallback = lit 7 1;
      sigma_step_ms = pos 1000;
      edge_threshold = lit 3 2;
    };
    poly_discover = true;
    poly_rollover_web_ptb = false;
    poly_manual_token = "";
    poly_event_slug = "";
  }

  abbrev pub with_config : PipelineOptions W → HotConfig W → PipelineOptions W
  with_config o c = record o { config = c }

  -- An option with its value. `none` if it is no such option.
  unfoldable pub pipeline_option :
      (a v : String) → PipelineOptions W → Option (Parsed (PipelineOptions W))
  pipeline_option a v o =
      let c : HotConfig W = o.config in
      if same a "--poly-token"
      then some (go (record o { poly_manual_token = v; poly_discover = false }))
      else if same a "--poly-event-slug"
      then some (go (record o { poly_event_slug = v }))
      else if is_ignored a
      then some (go o)
      else if same a "--sigma"
      then some (or_crash (stod v) (λ x. go (with_config o (record c { sigma_fallback = x }))))
      else if same a "--sigma-step-ms"
      then some
          (or_crash (stoll (codes v)) (λ n. go (with_config o (record c { sigma_step_ms = n }))))
      else if same a "--edge-threshold"
      then some (or_crash (stod v) (λ x. go (with_config o (record c { edge_threshold = x }))))
      else none

  unfoldable pub pipeline_flag : String → PipelineOptions W → Parsed (PipelineOptions W)
  pipeline_flag a o =
      if same a "--poly-discover"
      then go (record o { poly_discover = true; poly_manual_token = ""; poly_event_slug = "" })
      else if same a "--poly-rollover-web-ptb"
      then go (record o { poly_rollover_web_ptb = true })
      else exits 2

  unfoldable pub parse_options : List String → PipelineOptions W → Parsed (PipelineOptions W)
  parse_options [] o = go o
  parse_options (a ∷ []) o = pipeline_flag a o
  parse_options (a ∷ v ∷ rest) o =
      after_option (pipeline_option a v o) (parse_options rest) (pipeline_flag a o)
        (parse_options (v ∷ rest))

  -- Without discovery a token and a slug are needed.
  abbrev pub check_manual : PipelineOptions W → Parsed (PipelineOptions W)
  check_manual o =
      if not o.poly_discover && (is_empty o.poly_manual_token || is_empty o.poly_event_slug)
      then exits 2
      else go o

  unfoldable pub options_of : List String → Parsed (PipelineOptions W)
  options_of [] = exits 2
  options_of (bin_out ∷ []) = exits 2
  options_of (bin_out ∷ poly_out ∷ args) =
      then_parse (parse_options args (default_options bin_out poly_out)) check_manual

  -- `HotState` with the first market.
  abbrev pub hot_of : BtcFiveMinuteBucketDiscovery W → ℤ → HotState W
  hot_of disc epoch = record {
    active_epoch = epoch;
    slug = spell disc.confirmed_slug;
    have_bin = false;
    bin_mid = lit 0 0;
    bin_wall_ms = pos 0;
    bin_hist = [];
    have_k = bucket_disc_has_strike disc;
    k = if bucket_disc_has_strike disc then disc.price_to_beat else lit 0 0;
    sigma_bucket = lit 0 0;
    have_sigma = false;
    have_up = false;
    up_bid = lit 0 0;
    up_ask = lit 0 0;
    have_down = false;
    down_bid = lit 0 0;
    down_ask = lit 0 0;
    last_print_mono_ns = pos 0;
  }

  -- `main` before the loop: the two feeds, and the clock in nanoseconds.
  abbrev pub pipeline_at :
      (feed_up feed_down : FixedFeed W) (now_ns : ℤ)
      → BtcFiveMinuteBucketDiscovery W
      → ℤ
      → Pipeline W
  pipeline_at feed_up feed_down now_ns disc epoch = record {
    active_epoch = epoch;
    next_epoch = epoch +ℤ pos 300;
    current_slug = disc.confirmed_slug;
    prefetched = none;
    last_prefetch_mono_ns = now_ns -ℤ pos 10000000000;
    feed_up = set_market_context (spell disc.confirmed_slug) epoch up feed_up;
    feed_down = set_market_context (spell disc.confirmed_slug) epoch down feed_down;
    hot = hot_of disc epoch;
  }

  -- The feeds are started. If one does not start, the program ends.
  unfoldable pub start_both : (token_up token_dn : String) → Pipeline W → Parsed (Pipeline W)
  start_both token_up token_dn p =
      let u = start token_up p.feed_up in
      let w = start token_dn p.feed_down in
      if not u.1 || not w.1 then exits 1 else go (record p { feed_up = u.0; feed_down = w.0 })

module _ {W J E : Type 0} ⦃d : Double W⦄ (json : Json W J) (sources : Sources W E) where
  abbrev pub open_at :
      PipelineOptions W
      → (feed_up feed_down : FixedFeed W) (now_ns : ℤ) → BtcFiveMinuteBucketDiscovery W
      → Option ℤ
      → E
      → Parsed (Pipeline W) × E
  open_at o feed_up feed_down now_ns disc none e = (exits 1, e)
  open_at o feed_up feed_down now_ns disc (some epoch) e =
      let r = maybe_fill_strike_web_then_rtds json sources disc o.poly_rollover_web_ptb e in
      (
        start_both r.0.up_token_id r.0.down_token_id
            (pipeline_at feed_up feed_down now_ns r.0 epoch),
        r.1,
      )

  -- What is done with the first market.
  abbrev pub open_with :
      PipelineOptions W
      → (feed_up feed_down : FixedFeed W) (now_ns : ℤ)
      → Outcome (BtcFiveMinuteBucketDiscovery W) × E
      → Parsed (Pipeline W) × E
  open_with o feed_up feed_down now_ns (raised, e) = (crashes, e)
  open_with o feed_up feed_down now_ns (rejected m, e) = (exits 1, e)
  open_with o feed_up feed_down now_ns (found disc, e) =
      if not o.poly_discover && not (same o.poly_manual_token disc.up_token_id)
      then (exits 1, e)
      else if no_token disc
      then (exits 1, e)
      else open_at o feed_up feed_down now_ns disc (epoch_of disc) e

  -- `main` up to its loop.
  unfoldable pub start_pipeline :
      PipelineOptions W
      → (now_s : ℕ) (now_ns : ℤ) (feed_up feed_down : FixedFeed W) → E
      → Parsed (Pipeline W) × E
  start_pipeline o now_s now_ns feed_up feed_down e = open_with o feed_up feed_down now_ns (
      if o.poly_discover
      then discover_initial json sources now_s e
      else try_slug json sources.gamma (codes o.poly_event_slug) blank e)
