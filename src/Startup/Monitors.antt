-- ===== src/Startup/Monitors.antt =====
-- apps/btc_poly_runner.cpp: the main thread from its start to its end.
use mathlib.Core.Path.{subst}
use prediction_market_arbitr.Base.{
  ℕ, ◌+◌, ◌≤◌, ℤ, pos, ◌≤ℤ◌, Bool, true, false, not, if◌then◌else◌, ◌||◌, ◌≡◌, refl, sym, if_intro,
  List, [], ◌∷◌, ◌++◌, Option, none, some, String, codes, arith,
}
use prediction_market_arbitr.Buckets.Discover.{BtcFiveMinuteBucketDiscovery, epoch_of, try_slug}
use prediction_market_arbitr.Buckets.Market.{Outcome, found, rejected, raised}
use prediction_market_arbitr.Buckets.Slug.{max_i64}
use prediction_market_arbitr.Buckets.Window.{IfFound}
use prediction_market_arbitr.Double.{Double}
use prediction_market_arbitr.Json.{Json}
use prediction_market_arbitr.Quotes.Contexts.{set_market_context-IsFor, start-IsFor, stop-IsFor}
use prediction_market_arbitr.Runner.Rollover.{RolloverEvent}
use prediction_market_arbitr.Runner.State.{up, down}
use prediction_market_arbitr.Startup.Began.{Begun, HasBegun, discover_initial-HasBegun}
use prediction_market_arbitr.Startup.Monitor.{
  Monitor, Bids, halted, with_contexts, start_feeds, no_token, enter_first, open_market, begin_at,
  begin, checked_token, start_monitor, monitor_round, after_round, monitor_loop, end_monitor,
}
use prediction_market_arbitr.Startup.Options.{Options}
use prediction_market_arbitr.Startup.Rollovers.{
  Advance, Advance-append, IsAligned, IfWent, round-IfWent,
}
use prediction_market_arbitr.Startup.Strikes.{Sources, blank, discover_initial}

module _ {W : Type 0} where
  end_monitor-IsAligned :
      (o : Options W) (m : Monitor W) → IsAligned m → IsAligned (end_monitor o m)
  unfolding end_monitor
  end_monitor-IsAligned o m h = ground (
    arith,
    h,
    stop-IsFor m.current_slug m.active_epoch up m.feed_up h.for_up,
    stop-IsFor m.current_slug m.active_epoch down m.feed_down h.for_down,
  )

  restopped-IsAligned :
      (b : Bool) (m : Monitor W) → IsAligned m → IsAligned (record m { stopped = b })
  restopped-IsAligned b m h = record {
    begun = h.begun;
    next = h.next;
    for_up = h.for_up;
    for_down = h.for_down;
  }

  start_feeds-IsAligned :
      (up_token down_token : String) (m : Monitor W)
      → IsAligned m
      → IsAligned (start_feeds up_token down_token m)
  unfolding start_feeds
  start_feeds-IsAligned up_token down_token m h = ground (
    arith,
    h,
    start-IsFor m.current_slug m.active_epoch up m.feed_up h.for_up up_token,
    start-IsFor m.current_slug m.active_epoch down m.feed_down h.for_down down_token,
  )

  contexts-IsAligned :
      (disc : BtcFiveMinuteBucketDiscovery W) (epoch : ℤ) (m : Monitor W)
      → pos 0 ≤ℤ epoch
      → IsAligned (with_contexts (enter_first true disc epoch m))
  contexts-IsAligned disc epoch m h = record {
    begun = h;
    next = refl;
    for_up = set_market_context-IsFor disc.confirmed_slug epoch up m.feed_up;
    for_down = set_market_context-IsFor disc.confirmed_slug epoch down m.feed_down;
  }

  open_market-IsAligned :
      ⦃d : Double W⦄ (discover : Bool) (disc : BtcFiveMinuteBucketDiscovery W) (epoch : ℤ)
      (m : Monitor W)
      → IsAligned m
      → IsAligned (open_market discover disc epoch m)
  unfolding open_market
  open_market-IsAligned discover disc epoch m h = ground (arith, h)

  abbrev IfBegan : {E : Type 0} → Option (Monitor W) × E → Type 0
  IfBegan (none, e) = Unit
  IfBegan (some m, e) = m.stopped ≡ false → IsAligned m

  -- The main thread is at a market, and its rollovers have gone on to it from the epoch `lo`.
  abbrev pub IfRan : {E : Type 0} → ℤ → Option (Monitor W × List (RolloverEvent W)) × E → Type 0
  IfRan lo (none, e) = Unit
  IfRan lo (some (m, evs), e) = IsAligned m × Advance lo evs m.active_epoch

module _ {W J E : Type 0} ⦃d : Double W⦄ (json : Json W J) (sources : Sources W E) where
  after_round-IfRan :
      (lo : ℤ) (m : Monitor W) (evs : List (RolloverEvent W))
      (next : Monitor W
        → List (RolloverEvent W)
        → E
        → Option (Monitor W × List (RolloverEvent W)) × E)
      (r : Option (Monitor W × List (RolloverEvent W)) × E)
      → Advance lo evs m.active_epoch
      → IfWent m r
      → ((m' : Monitor W) (more : List (RolloverEvent W)) (e : E)
          → IsAligned m'
          → Advance lo more m'.active_epoch
          → IfRan lo (next m' more e))
      → IfRan lo (after_round json sources evs next r)
  after_round-IfRan lo m evs next (none, e) a w k = tt
  after_round-IfRan lo m evs next (some (m', more), e) a w k =
      k m' (evs ++ more) e w.0 (Advance-append lo m.active_epoch m'.active_epoch evs more a w.1)

  pub monitor_loop-IfRan :
      (lo : ℤ) (o : Options W) (rounds : List (ℕ × Bids W × Bool)) (m : Monitor W)
      (evs : List (RolloverEvent W)) (e : E)
      → IsAligned m
      → Advance lo evs m.active_epoch
      → IfRan lo (monitor_loop json sources o rounds m evs e)
  unfolding monitor_loop end_monitor
  monitor_loop-IfRan lo o [] m evs e h a = (h, a)
  monitor_loop-IfRan lo o ((now_s, bids, signal) ∷ rounds) m evs e h a =
      if_intro (IfRan lo) (m.stopped || signal || not o.poly_discover) _ _
        (λ _. (
          end_monitor-IsAligned o (record m { stopped = m.stopped || signal })
              (restopped-IsAligned (m.stopped || signal) m h),
          a,
        ))
        (λ _.
          after_round-IfRan lo m evs (monitor_loop json sources o rounds)
            (monitor_round json sources o.poly_rollover_web_ptb now_s bids m e) a
            (round-IfWent json sources o.poly_rollover_web_ptb now_s bids m e h)
            (λ m' more e' h' a'. monitor_loop-IfRan lo o rounds m' more e' h' a'))

  begin_at-IfBegan :
      (o : Options W) (m : Monitor W) (disc : BtcFiveMinuteBucketDiscovery W) (k : Option ℤ) (e : E)
      → o.poly_discover ≡ true
      → Begun k
      → IfBegan (begin_at json sources o m disc k e)
  begin_at-IfBegan o m disc none e p h = absurd h
  begin_at-IfBegan o m disc (some epoch) e p h = rw p (λ _. open_market-IsAligned true _ epoch _ (
      start_feeds-IsAligned disc.up_token_id disc.down_token_id _
        (contexts-IsAligned disc epoch m h)))

  begin-IfBegan :
      (o : Options W) (m : Monitor W) (r : Outcome (BtcFiveMinuteBucketDiscovery W)) (e : E)
      → o.poly_discover ≡ true
      → IfFound HasBegun r
      → IfBegan (begin json sources o m (r, e))
  begin-IfBegan o m (found disc) e p h =
      if_intro IfBegan (no_token disc) (some (halted m), e)
        (begin_at json sources o m disc (epoch_of disc) e) (λ _ going. absurd (cc (going)))
        (λ _. begin_at-IfBegan o m disc (epoch_of disc) e p h)
  begin-IfBegan o m (rejected s) e p h = λ going. absurd (cc (going))
  begin-IfBegan o m raised e p h = tt

module _ {W J E : Type 0} ⦃d : Double W⦄ (json : Json W J) (sources : Sources W E) where
  start_monitor-IfBegan :
      (o : Options W) (now_s : ℕ) (m : Monitor W) (e : E)
      → o.poly_discover ≡ true
      → 300 ≤ now_s
      → now_s + 300 ≤ max_i64
      → IfBegan (start_monitor json sources o now_s m e)
  unfolding start_monitor
  start_monitor-IfBegan o now_s m e p h k =
      subst
        (λ (b : Bool). IfBegan (
          begin json sources o m (
            if b
            then discover_initial json sources now_s e
            else checked_token json sources o.poly_manual_token
                (try_slug json sources.gamma (codes o.poly_event_slug) blank e))))
        (sym p)
        (begin-IfBegan json sources o m (discover_initial json sources now_s e).0
          (discover_initial json sources now_s e).1 p
          (discover_initial-HasBegun json sources now_s e h k))

  -- With discovery, once the start has succeeded, after every history of rounds both feeds name the
  -- market that the main thread is at, and the rollovers that it has pushed lead from the first market
  -- to that one, each to a bucket that begins no earlier than the last one ends. The clock at the start
  -- is between five minutes after 1970 and five minutes before the greatest 64-bit value.
  pub monitor_advances :
      (o : Options W) (now_s : ℕ) (m : Monitor W) (e : E) (rounds : List (ℕ × Bids W × Bool))
      (m1 : Monitor W) (e1 : E)
      → o.poly_discover ≡ true
      → 300 ≤ now_s
      → now_s + 300 ≤ max_i64
      → start_monitor json sources o now_s m e ≡ (some m1, e1)
      → m1.stopped ≡ false
      → IfRan m1.active_epoch (monitor_loop json sources o rounds m1 [] e1)
  monitor_advances o now_s m e rounds m1 e1 p h k began going =
      monitor_loop-IfRan json sources m1.active_epoch o rounds m1 [] e1
        (subst (λ (r : Option (Monitor W) × E). IfBegan r) began
          (start_monitor-IfBegan o now_s m e p h k) going)
        refl
