-- ===== src/Pipeline/Started.antt =====
-- apps/live_pipeline.cpp: `main` from the first market to the last round of its loop.
use mathlib.Core.Path.{subst}
use prediction_market_arbitr.Base.{
  ℕ, ◌+◌, ◌≤◌, ℤ, pos, ◌≤ℤ◌, Bool, true, not, ◌&&◌, ◌||◌, ◌≡◌, refl, sym, if_intro, List, [],
  String, Option, none, some, same, codes, if◌then◌else◌,
}
use prediction_market_arbitr.Buckets.Discover.{BtcFiveMinuteBucketDiscovery, epoch_of, try_slug}
use prediction_market_arbitr.Buckets.Market.{Outcome, found, rejected, raised}
use prediction_market_arbitr.Buckets.Slug.{max_i64}
use prediction_market_arbitr.Buckets.Window.{IfFound}
use prediction_market_arbitr.Double.{Double}
use prediction_market_arbitr.Json.{Json}
use prediction_market_arbitr.Pipeline.Hot.{HotState}
use prediction_market_arbitr.Pipeline.Loop.{run}
use prediction_market_arbitr.Pipeline.Market.{Pipeline}
use prediction_market_arbitr.Pipeline.Runs.{IfGone, run-Gone}
use prediction_market_arbitr.Pipeline.Start.{
  PipelineOptions, pipeline_at, start_both, open_at, open_with, start_pipeline,
}
use prediction_market_arbitr.Pipeline.Switches.{IsAligned}
use prediction_market_arbitr.Quotes.Contexts.{set_market_context-IsFor, start-IsFor}
use prediction_market_arbitr.Quotes.Fixed.{FixedFeed, start}
use prediction_market_arbitr.Runner.State.{up, down}
use prediction_market_arbitr.Startup.Began.{Begun, HasBegun, discover_initial-HasBegun}
use prediction_market_arbitr.Startup.Monitor.{no_token}
use prediction_market_arbitr.Startup.Parsed.{Parsed, go, exits}
use prediction_market_arbitr.Startup.Strikes.{
  Sources, maybe_fill_strike_web_then_rtds, discover_initial, blank,
}
use prediction_market_arbitr.Startup.Valid.{IfGoes}

module _ {W : Type 0} ⦃d : Double W⦄ where
  pipeline_at-IsAligned :
      (feed_up feed_down : FixedFeed W) (now_ns : ℤ) (disc : BtcFiveMinuteBucketDiscovery W)
      (epoch : ℤ)
      → pos 0 ≤ℤ epoch
      → IsAligned (pipeline_at feed_up feed_down now_ns disc epoch)
  pipeline_at-IsAligned feed_up feed_down now_ns disc epoch h = record {
    begun = h;
    next = refl;
    for_up = set_market_context-IsFor disc.confirmed_slug epoch up feed_up;
    for_down = set_market_context-IsFor disc.confirmed_slug epoch down feed_down;
  }

  start_both-IfGoes :
      (token_up token_dn : String) (p : Pipeline W)
      → IsAligned p
      → IfGoes (λ (q : Pipeline W). IsAligned q) (start_both token_up token_dn p)
  unfolding start_both
  start_both-IfGoes token_up token_dn p h =
      if_intro (IfGoes (λ (q : Pipeline W). IsAligned q))
        (not (start token_up p.feed_up).1 || not (start token_dn p.feed_down).1) (exits 1) _
        (λ _. tt)
        λ _. record {
          begun = h.begun;
          next = h.next;
          for_up = start-IsFor p.current_slug p.active_epoch up p.feed_up h.for_up token_up;
          for_down = start-IsFor p.current_slug p.active_epoch down p.feed_down h.for_down token_dn;
        }

module _ {W J E : Type 0} ⦃d : Double W⦄ (json : Json W J) (sources : Sources W E) where
  -- The loop is reached with the feeds on the market.
  abbrev IfOpen : Parsed (Pipeline W) × E → Type 0
  IfOpen r = IfGoes (λ (p : Pipeline W). IsAligned p) r.0

  open_at-IfOpen :
      (o : PipelineOptions W) (feed_up feed_down : FixedFeed W) (now_ns : ℤ)
      (disc : BtcFiveMinuteBucketDiscovery W) (k : Option ℤ) (e : E)
      → Begun k
      → IfOpen (open_at json sources o feed_up feed_down now_ns disc k e)
  open_at-IfOpen o feed_up feed_down now_ns disc none e h = tt
  open_at-IfOpen o feed_up feed_down now_ns disc (some epoch) e h =
      let disc' = (maybe_fill_strike_web_then_rtds json sources disc o.poly_rollover_web_ptb e).0 in
      start_both-IfGoes disc'.up_token_id disc'.down_token_id _
        (pipeline_at-IsAligned feed_up feed_down now_ns disc' epoch h)

  open_with-IfOpen :
      (o : PipelineOptions W) (feed_up feed_down : FixedFeed W) (now_ns : ℤ)
      (r : Outcome (BtcFiveMinuteBucketDiscovery W)) (e : E)
      → IfFound HasBegun r
      → IfOpen (open_with json sources o feed_up feed_down now_ns (r, e))
  open_with-IfOpen o feed_up feed_down now_ns (found disc) e h =
      if_intro IfOpen (not o.poly_discover && not (same o.poly_manual_token disc.up_token_id))
        (exits 1, e) _ (λ _. tt)
        λ _.
          if_intro IfOpen (no_token disc) (exits 1, e)
            (open_at json sources o feed_up feed_down now_ns disc (epoch_of disc) e) (λ _. tt)
            λ _. open_at-IfOpen o feed_up feed_down now_ns disc (epoch_of disc) e h
  open_with-IfOpen o feed_up feed_down now_ns (rejected m) e h = tt
  open_with-IfOpen o feed_up feed_down now_ns raised e h = tt

  start_pipeline-IfOpen :
      (o : PipelineOptions W) (now_s : ℕ) (now_ns : ℤ) (feed_up feed_down : FixedFeed W) (e : E)
      → o.poly_discover ≡ true
      → 300 ≤ now_s
      → now_s + 300 ≤ max_i64
      → IfOpen (start_pipeline json sources o now_s now_ns feed_up feed_down e)
  unfolding start_pipeline
  start_pipeline-IfOpen o now_s now_ns feed_up feed_down e p h k =
      let first = discover_initial json sources now_s e in
      subst
        (λ (b : Bool). IfOpen (
          open_with json sources o feed_up feed_down now_ns (
            if b
            then discover_initial json sources now_s e
            else try_slug json sources.gamma (codes o.poly_event_slug) blank e)))
        (sym p)
        (open_with-IfOpen o feed_up feed_down now_ns first.0 first.1
          (discover_initial-HasBegun json sources now_s e h k))

  pub recorder_advances :
      (o : PipelineOptions W) (now_s : ℕ) (now_ns : ℤ) (feed_up feed_down : FixedFeed W) (e : E)
      (turns : List ((HotState W → HotState W) × ℤ × ℕ)) (p : Pipeline W) (e1 : E)
      → o.poly_discover ≡ true
      → 300 ≤ now_s
      → now_s + 300 ≤ max_i64
      → start_pipeline json sources o now_s now_ns feed_up feed_down e ≡ (go p, e1)
      → IfGone p (run json sources o.poly_rollover_web_ptb turns p [] e1)
  recorder_advances o now_s now_ns feed_up feed_down e turns p e1 discover h k started =
      run-Gone json sources o.poly_rollover_web_ptb turns p e1 (
        subst (λ (r : Parsed (Pipeline W) × E). IfOpen r) started
          (start_pipeline-IfOpen o now_s now_ns feed_up feed_down e discover h k))
