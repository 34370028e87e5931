-- ===== src/Pipeline/Rounds.antt =====
-- apps/live_pipeline.cpp: one round of the loop: the look-up ahead, and the market that follows.
use prediction_market_arbitr.Base.{
  ℕ, ℤ, pos, ◌-ℤ◌, ◌≤ℤ◌, ltb_ℤ, Bool, ◌||◌, ◌≡◌, refl, if_intro, Option, none, some, arith,
}
use prediction_market_arbitr.Buckets.Discover.{BtcFiveMinuteBucketDiscovery}
use prediction_market_arbitr.Buckets.Market.{Outcome, found, rejected, raised}
use prediction_market_arbitr.Buckets.Window.{IfFound}
use prediction_market_arbitr.Double.{Double}
use prediction_market_arbitr.Json.{Json}
use prediction_market_arbitr.Pipeline.Loop.{
  after_lookup, prefetch, strike_of_prefetched, target_of_ready, target_of_found, find_target,
  after_target,
}
use prediction_market_arbitr.Pipeline.Market.{
  Prefetched, Pipeline, Target, target_of, target_of_prefetched, has_price, is_ready,
  prefetch_interval_ns, drop_stale,
}
use prediction_market_arbitr.Pipeline.Switches.{IsAligned, IfWent, IsAhead, switch_market-Went}
use prediction_market_arbitr.Startup.Rollovers.{IsNext, discover_next-IsNext}
use prediction_market_arbitr.Startup.Strikes.{Sources, disc_epoch, discover_next}

module _ {W : Type 0} where
  -- The loop is at the same market, with the feeds as they were.
  pub record IsSamePlace (p q : Pipeline W) : Type 0 where
    pub same_epoch : q.active_epoch ≡ p.active_epoch
    pub same_next : q.next_epoch ≡ p.next_epoch
    pub same_slug : q.current_slug ≡ p.current_slug
    pub same_up : q.feed_up ≡ p.feed_up
    pub same_down : q.feed_down ≡ p.feed_down

  pub same_place : (p : Pipeline W) → IsSamePlace p p
  same_place p = record {
    same_epoch = refl;
    same_next = refl;
    same_slug = refl;
    same_up = refl;
    same_down = refl;
  }

  pub drop_stale-IsSamePlace : (wall_s : ℕ) (p : Pipeline W) → IsSamePlace p (drop_stale wall_s p)
  drop_stale-IsSamePlace wall_s p = ground arith

module _ {W J E : Type 0} ⦃d : Double W⦄ (json : Json W J) (sources : Sources W E) where
  abbrev pub IfSame : Pipeline W → Option (Pipeline W) × E → Type 0
  IfSame p (none, e) = Unit
  IfSame p (some q, e) = IsSamePlace p q

  after_lookup-IfSame :
      (p q : Pipeline W) (r : Outcome (BtcFiveMinuteBucketDiscovery W)) (e : E)
      → IsSamePlace p q
      → IfSame p (after_lookup json sources q (r, e))
  after_lookup-IfSame p q (found nd) e h = ground (arith, h)
  after_lookup-IfSame p q (rejected m) e h = h
  after_lookup-IfSame p q raised e h = tt

  pub prefetch-IfSame :
      (now_ns : ℤ) (p : Pipeline W) (e : E) → IfSame p (prefetch json sources now_ns p e)
  unfolding prefetch
  prefetch-IfSame now_ns p e =
      if_intro (IfSame p)
        (is_ready p || ltb_ℤ (now_ns -ℤ p.last_prefetch_mono_ns) prefetch_interval_ns) (some p, e) _
        (λ _. same_place p)
        (λ _.
          after_lookup-IfSame p (record p { last_prefetch_mono_ns = now_ns }) _ _
            (record {
              same_epoch = refl;
              same_next = refl;
              same_slug = refl;
              same_up = refl;
              same_down = refl;
            }))

  found-IsAhead :
      (p : Pipeline W) (disc : BtcFiveMinuteBucketDiscovery W)
      → pos 0 ≤ℤ p.next_epoch
      → IsNext p.next_epoch disc
      → p.next_epoch ≤ℤ disc_epoch disc
  found-IsAhead p disc h n = ground (arith, h, n.not_before, n.own)

  abbrev pub IfAhead : Pipeline W → Option (Target W) × E → Type 0
  IfAhead p (none, e) = Unit
  IfAhead p (some t, e) = IsAhead p t

  strike_of_prefetched-IfAhead :
      (p : Pipeline W) (web_first : Bool) (t : Target W)
      (r : Outcome (BtcFiveMinuteBucketDiscovery W)) (e : E)
      → p.next_epoch ≤ℤ t.target_epoch
      → IfAhead p (strike_of_prefetched json sources web_first t (r, e))
  strike_of_prefetched-IfAhead p web_first t (found pf) e h =
      if_intro (IsAhead p) _ _ _ (λ _ _. h) (λ _ _. h)
  strike_of_prefetched-IfAhead p web_first t (rejected m) e h = λ _. h
  strike_of_prefetched-IfAhead p web_first t raised e h = tt

  target_of_ready-IfAhead :
      (p : Pipeline W) (web_first : Bool) (q : Prefetched W) (e : E)
      → IfAhead p (target_of_ready json sources web_first p.next_epoch q e)
  unfolding target_of_ready
  target_of_ready-IfAhead p web_first q e =
      let t = target_of_prefetched p.next_epoch q in
      if_intro (IfAhead p) (has_price t.target_strike) (some t, e) _ (λ _ _. omega arith)
        (λ _. strike_of_prefetched-IfAhead p web_first t _ _ (omega arith))

  target_of_found-IfAhead :
      (p : Pipeline W) (web_first : Bool) (r : Outcome (BtcFiveMinuteBucketDiscovery W)) (e : E)
      → pos 0 ≤ℤ p.next_epoch
      → IfFound (IsNext p.next_epoch) r
      → IfAhead p (target_of_found json sources web_first (r, e))
  target_of_found-IfAhead p web_first (found disc) e h n =
      if_intro (IfAhead p) disc.gamma_has_price_to_beat (some (target_of disc (disc_epoch disc)), e)
        _ (λ _ _. found-IsAhead p disc h n)
        (λ _.
          if_intro (IsAhead p) _ _ _ (λ _ _. found-IsAhead p disc h n)
            (λ _ _. found-IsAhead p disc h n))
  target_of_found-IfAhead p web_first (rejected m) e h n = λ c. absurd (cc (c))
  target_of_found-IfAhead p web_first raised e h n = tt

  pub find_target-IfAhead :
      (p : Pipeline W) (web_first : Bool) (wall_s : ℕ) (o : Option (Prefetched W)) (e : E)
      → pos 0 ≤ℤ p.next_epoch
      → IfAhead p (find_target json sources web_first wall_s p.next_epoch o e)
  find_target-IfAhead p web_first wall_s (some q) e h = target_of_ready-IfAhead p web_first q e
  find_target-IfAhead p web_first wall_s none e h =
      target_of_found-IfAhead p web_first (discover_next json sources wall_s p.next_epoch e).0
        (discover_next json sources wall_s p.next_epoch e).1 h
        (discover_next-IsNext json sources wall_s p.next_epoch e h)

  pub after_target-IfWent :
      (p : Pipeline W) (r : Option (Target W)) (e : E)
      → IsAligned p
      → IfAhead p (r, e)
      → IfWent p (after_target json sources p (r, e))
  after_target-IfWent p none e h k = tt
  after_target-IfWent p (some t) e h k = switch_market-Went t p h k
