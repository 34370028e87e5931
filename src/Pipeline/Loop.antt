-- ===== src/Pipeline/Loop.antt =====
-- apps/live_pipeline.cpp: the loop of `main`, which looks up the next market ahead of time and switches
-- to it. The strike functions and the discoveries are those of Startup/Strikes. An exception ends the
-- program.
use prediction_market_arbitr.Pipeline.Market.{
  Pipeline, Prefetched, RolloverRow, Target, drop_stale, gamma_price, has_price, is_ready,
  prefetch_interval_ns, prefetched_of, switch_market, target_of, target_of_prefetched,
}
use prediction_market_arbitr.Base.{
  ℕ, ℤ, pos, ◌+ℤ◌, ◌-ℤ◌, ltb_ℤ, leb_ℤ, Bool, if◌then◌else◌, ◌||◌, List, [], ◌∷◌, ◌++◌, Option, none,
  some, is_empty,
}
use prediction_market_arbitr.Buckets.Discover.{BtcFiveMinuteBucketDiscovery, try_slug}
use prediction_market_arbitr.Buckets.Market.{Outcome, found, rejected, raised}
use prediction_market_arbitr.Buckets.Slug.{slug_for_bucket}
use prediction_market_arbitr.Double.{Double}
use prediction_market_arbitr.Json.{Json}
use prediction_market_arbitr.Pipeline.Hot.{HotState}
use prediction_market_arbitr.Startup.Strikes.{
  Sources, blank, disc_epoch, bucket_disc_has_strike, maybe_fill_strike_rtds,
  maybe_fill_strike_web_then_rtds, discover_next,
}

module _ {W J E : Type 0} ⦃d : Double W⦄ (json : Json W J) (sources : Sources W E) where
  abbrev pub with_prefetched : BtcFiveMinuteBucketDiscovery W → Pipeline W → E → Pipeline W × E
  with_prefetched nd p e =
      let r = maybe_fill_strike_rtds json sources nd e in
      let price = if bucket_disc_has_strike r.0 then r.0.price_to_beat else gamma_price nd in
      if has_price (gamma_price nd)
      then (record p { prefetched = some (prefetched_of nd (gamma_price nd)) }, e)
      else (record p { prefetched = some (prefetched_of nd price) }, r.1)

  abbrev pub after_lookup :
      Pipeline W → Outcome (BtcFiveMinuteBucketDiscovery W) × E → Option (Pipeline W) × E
  after_lookup p (raised, e) = (none, e)
  after_lookup p (rejected m, e) = (some p, e)
  after_lookup p (found nd, e) =
      let r = with_prefetched nd p e in
      if is_empty nd.up_token_id || is_empty nd.down_token_id then (some p, e) else (some r.0, r.1)

  -- The next market is looked up, at most once in three seconds. `none` is an exception.
  unfoldable pub prefetch : (now_mono_ns : ℤ) → Pipeline W → E → Option (Pipeline W) × E
  prefetch now_mono_ns p e =
      let looked : Pipeline W = record p { last_prefetch_mono_ns = now_mono_ns } in
      if is_ready p || ltb_ℤ (now_mono_ns -ℤ p.last_prefetch_mono_ns) prefetch_interval_ns
      then (some p, e)
      else after_lookup looked (try_slug json sources.gamma (slug_for_bucket p.next_epoch) blank e)

  -- The strike of a prefetched market that has none.
  abbrev pub strike_of_prefetched :
      (web_first : Bool)
      → Target W
      → Outcome (BtcFiveMinuteBucketDiscovery W) × E
      → Option (Target W) × E
  strike_of_prefetched web_first t (raised, e) = (none, e)
  strike_of_prefetched web_first t (rejected m, e) = (some t, e)
  strike_of_prefetched web_first t (found pf, e) =
      let r = maybe_fill_strike_web_then_rtds json sources pf web_first e in
      (
        some (
            if bucket_disc_has_strike r.0
            then record t { target_strike = r.0.price_to_beat }
            else t),
        r.1,
      )

  unfoldable pub target_of_ready : (web_first : Bool) → ℤ → Prefetched W → E → Option (Target W) × E
  target_of_ready web_first next_epoch q e =
      let t = target_of_prefetched next_epoch q in
      if has_price t.target_strike
      then (some t, e)
      else strike_of_prefetched web_first t (try_slug json sources.gamma t.target_slug blank e)

  -- The market of a rollover that was not prefetched. Without one the target is empty.
  abbrev pub no_target : Target W
  no_target = target_of blank (ℤ.negsuc 0)

  abbrev pub target_of_found :
      (web_first : Bool) → Outcome (BtcFiveMinuteBucketDiscovery W) × E → Option (Target W) × E
  target_of_found web_first (raised, e) = (none, e)
  target_of_found web_first (rejected m, e) = (some no_target, e)
  target_of_found web_first (found disc, e) =
      let r = maybe_fill_strike_web_then_rtds json sources disc web_first e in
      let t = target_of disc (disc_epoch disc) in
      if disc.gamma_has_price_to_beat then (some t, e) else (
        some (
            if bucket_disc_has_strike r.0
            then record t { target_strike = r.0.price_to_beat }
            else t),
        r.1,
      )

  abbrev pub find_target :
      (web_first : Bool) (wall_now_s : ℕ) → ℤ → Option (Prefetched W) → E → Option (Target W) × E
  find_target web_first wall_now_s next_epoch (some q) e = target_of_ready web_first next_epoch q e
  find_target web_first wall_now_s next_epoch none e =
      target_of_found web_first (discover_next json sources wall_now_s next_epoch e)

  abbrev pub after_target :
      Pipeline W → Option (Target W) × E → Option (Pipeline W × List (RolloverRow W)) × E
  after_target p (none, e) = (none, e)
  after_target p (some t, e) = (some (switch_market t p), e)

  -- The end of a bucket. `none` is an exception.
  unfoldable pub roll_over :
      (web_first : Bool) (wall_now_s : ℕ)
      → Pipeline W
      → E
      → Option (Pipeline W × List (RolloverRow W)) × E
  roll_over web_first wall_now_s p e =
      let p' = drop_stale wall_now_s p in
      if leb_ℤ (p.active_epoch +ℤ pos 300) (pos wall_now_s)
      then after_target p' (find_target web_first wall_now_s p'.next_epoch p'.prefetched e)
      else (some (p, []), e)

  abbrev pub then_roll :
      (web_first : Bool) (wall_now_s : ℕ)
      → Option (Pipeline W) × E
      → Option (Pipeline W × List (RolloverRow W)) × E
  then_roll web_first wall_now_s (none, e) = (none, e)
  then_roll web_first wall_now_s (some p, e) = roll_over web_first wall_now_s p e

  -- One round of the loop with `--poly-discover`.
  unfoldable pub round :
      (web_first : Bool) (now_mono_ns : ℤ) (wall_now_s : ℕ)
      → Pipeline W
      → E
      → Option (Pipeline W × List (RolloverRow W)) × E
  round web_first now_mono_ns wall_now_s p e =
      then_roll web_first wall_now_s (prefetch now_mono_ns p e)

  -- What the callbacks have made of the hot state since the last round.
  abbrev pub with_hot : (HotState W → HotState W) → Pipeline W → Pipeline W
  with_hot change p = record p { hot = change p.hot }

  abbrev pub after_round :
      List (RolloverRow W)
      → (Pipeline W → List (RolloverRow W) → E → Option (Pipeline W × List (RolloverRow W)) × E)
      → Option (Pipeline W × List (RolloverRow W)) × E
      → Option (Pipeline W × List (RolloverRow W)) × E
  after_round rows next (none, e) = (none, e)
  after_round rows next (some (p, more), e) = next p (rows ++ more) e

  -- The loop, over the changes of the hot state and the clocks at each round, with the rows written.
  unfoldable pub run :
      (web_first : Bool)
      → List ((HotState W → HotState W) × ℤ × ℕ)
      → Pipeline W
      → List (RolloverRow W)
      → E
      → Option (Pipeline W × List (RolloverRow W)) × E
  run web_first [] p rows e = (some (p, rows), e)
  run web_first ((change, now_mono_ns, wall_now_s) ∷ turns) p rows e =
      after_round rows (run web_first turns)
        (round web_first now_mono_ns wall_now_s (with_hot change p) e)
