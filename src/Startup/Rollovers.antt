-- ===== src/Startup/Rollovers.antt =====
-- apps/btc_poly_runner.cpp: the markets that the main thread goes through.
use mathlib.Core.Path.{subst}
use prediction_market_arbitr.Base.{
  ℕ, ℤ, pos, ◌+ℤ◌, ◌≤ℤ◌, leb_ℤ, leb→leℤ, pos_part, neg_part, Bool, true, ◌&&◌, ◌≡◌, refl, sym, ap,
  ◌∙◌, if_intro, List, [], ◌∷◌, ◌++◌, Option, none, some, String, +ℤ_parts, arith,
}
use prediction_market_arbitr.Buckets.Discover.{BtcFiveMinuteBucketDiscovery, epoch_or, try_slug}
use prediction_market_arbitr.Buckets.Market.{Outcome, found, rejected, raised}
use prediction_market_arbitr.Buckets.Slug.{slug_for_bucket, parse_bucket_epoch_from_slug}
use prediction_market_arbitr.Buckets.Window.{IfFound, IsBucket, try_slug-IsBucket}
use prediction_market_arbitr.Double.{Double}
use prediction_market_arbitr.Json.{Json}
use prediction_market_arbitr.Quotes.Contexts.{IsFor, set_market_context-IsFor, switch_token-IsFor}
use prediction_market_arbitr.Runner.Rollover.{RolloverEvent}
use prediction_market_arbitr.Runner.State.{up, down}
use prediction_market_arbitr.Startup.Fills.{IsSameMarket, fill-IsSameMarket}
use prediction_market_arbitr.Startup.Monitor.{
  Monitor, Bids, with_contexts, switch_feeds, enter, entered_epoch, enter_next, roll, monitor_round,
}
use prediction_market_arbitr.Startup.Strikes.{
  Sources, blank, disc_epoch, scan_checked, or_scan, maybe_fill_strike_web_then_rtds, discover_next,
}

module _ {W : Type 0} where
  -- The rollovers go on from the epoch `lo`, each to a bucket that begins when the last one ends or
  -- later, and arrive at `hi`.
  abbrev pub Advance : ℤ → List (RolloverEvent W) → ℤ → Type 0
  Advance lo [] hi = hi ≡ lo
  Advance lo (ev ∷ evs) hi = (lo +ℤ pos 300 ≤ℤ ev.rollover_epoch) × Advance ev.rollover_epoch evs hi

  pub Advance-append :
      (lo mid hi : ℤ) (evs more : List (RolloverEvent W))
      → Advance lo evs mid
      → Advance mid more hi
      → Advance lo (evs ++ more) hi
  Advance-append lo mid hi [] more h k = subst (λ (n : ℤ). Advance n more hi) h k
  Advance-append lo mid hi (ev ∷ evs) more h k =
      (h.0, Advance-append ev.rollover_epoch mid hi evs more h.1 k)

  -- Both feeds name the market that the main thread is at, and the next market follows it.
  pub record IsAligned (m : Monitor W) : Type 0 where
    pub begun : pos 0 ≤ℤ m.active_epoch
    pub next : m.next_epoch ≡ m.active_epoch +ℤ pos 300
    pub for_up : IsFor m.current_slug m.active_epoch up m.feed_up
    pub for_down : IsFor m.current_slug m.active_epoch down m.feed_down

  -- A market that may follow: its epoch is its own, and not before `next`.
  pub record IsNext (next : ℤ) (disc : BtcFiveMinuteBucketDiscovery W) : Type 0 where
    pub not_before : next ≤ℤ disc.bucket_epoch_seconds
    pub own : entered_epoch disc ≡ disc.bucket_epoch_seconds

  own_epoch :
      (next : ℤ) (disc : BtcFiveMinuteBucketDiscovery W)
      → pos 0 ≤ℤ next
      → next ≤ℤ disc.bucket_epoch_seconds
      → IsNext next disc
  own_epoch next disc h k = record { not_before = k; own = ground (arith, h, k) }

  disc_epoch-IsNext :
      (next : ℤ) (disc : BtcFiveMinuteBucketDiscovery W)
      → pos 0 ≤ℤ next
      → disc.bucket_epoch_seconds ≡ epoch_or (parse_bucket_epoch_from_slug disc.confirmed_slug)
      → leb_ℤ next (disc_epoch disc) ≡ true
      → next ≤ℤ disc.bucket_epoch_seconds
  disc_epoch-IsNext next disc h e k = ground (arith, h, e, k)

  scan_checked-IsNext :
      {E : Type 0} (next : ℤ) (r : Outcome (BtcFiveMinuteBucketDiscovery W)) (e : E)
      → pos 0 ≤ℤ next
      → IfFound (IsNext next) (scan_checked (λ disc. leb_ℤ next disc.bucket_epoch_seconds) (r, e)).0
  scan_checked-IsNext next (found disc) e h =
      if_intro (IfFound (IsNext next)) (leb_ℤ next disc.bucket_epoch_seconds) _ _
        (λ k. own_epoch next disc h (leb→leℤ next disc.bucket_epoch_seconds k)) (λ k. tt)
  scan_checked-IsNext next (rejected m) e h = tt
  scan_checked-IsNext next raised e h = tt

module _ {W J E : Type 0} ⦃d : Double W⦄ (json : Json W J) (sources : Sources W E) where
  or_scan-IsNext :
      (now_s : ℕ) (next : ℤ) (r : Outcome (BtcFiveMinuteBucketDiscovery W)) (e : E)
      → pos 0 ≤ℤ next
      → IfFound (IsBucket (slug_for_bucket next)) r
      → IfFound
          (IsNext next)
          (or_scan json sources now_s
            (λ disc. leb_ℤ next (disc_epoch disc))
            (λ disc. leb_ℤ next disc.bucket_epoch_seconds)
            (r, e)).0
  or_scan-IsNext now_s next (found disc) e h b =
      if_intro (λ (r : Outcome (BtcFiveMinuteBucketDiscovery W) × E). IfFound (IsNext next) r.0)
        (leb_ℤ next (disc_epoch disc)) _ _
        (λ k. own_epoch next disc h (
          disc_epoch-IsNext next disc h
            (b.epoch ∙ ap (λ s. epoch_or (parse_bucket_epoch_from_slug s)) (sym b.slug)) k))
        (λ k. scan_checked-IsNext next _ _ h)
  or_scan-IsNext now_s next (rejected m) e h b = scan_checked-IsNext next _ _ h
  or_scan-IsNext now_s next raised e h b = tt

  pub discover_next-IsNext :
      (now_s : ℕ) (next : ℤ) (e : E)
      → pos 0 ≤ℤ next
      → IfFound (IsNext next) (discover_next json sources now_s next e).0
  unfolding discover_next
  discover_next-IsNext now_s next e h =
      or_scan-IsNext now_s next (try_slug json sources.gamma (slug_for_bucket next) blank e).0
        (try_slug json sources.gamma (slug_for_bucket next) blank e).1 h
        (try_slug-IsBucket json sources.gamma (slug_for_bucket next) blank e)

module _ {W : Type 0} where
  switch_feeds-IsAligned :
      (up_token down_token : String) (m : Monitor W)
      → IsAligned m
      → IsAligned (switch_feeds up_token down_token m).0
        × ((switch_feeds up_token down_token m).0.active_epoch ≡ m.active_epoch)
  unfolding switch_feeds
  switch_feeds-IsAligned up_token down_token m h =
      let u = switch_token-IsFor m.current_slug m.active_epoch up m.feed_up h.for_up up_token in
      let w =
        switch_token-IsFor m.current_slug m.active_epoch down m.feed_down h.for_down down_token in
      ground (arith, h, u, w)

  -- What a round leaves: the feeds aligned, and the rollovers gone on.
  abbrev pub Went : Monitor W → Monitor W × List (RolloverEvent W) → Type 0
  Went m r = IsAligned r.0 × Advance m.active_epoch r.1 r.0.active_epoch

  abbrev pub IfWent :
      {E : Type 0} → Monitor W → Option (Monitor W × List (RolloverEvent W)) × E → Type 0
  IfWent m (none, e) = Unit
  IfWent m (some r, e) = Went m r

  entered-IsAligned :
      (disc : BtcFiveMinuteBucketDiscovery W) (m : Monitor W)
      → pos 0 ≤ℤ entered_epoch disc
      → IsAligned (with_contexts (enter disc (entered_epoch disc) m))
  entered-IsAligned disc m h = record {
    begun = h;
    next = refl;
    for_up = set_market_context-IsFor disc.confirmed_slug (entered_epoch disc) up m.feed_up;
    for_down = set_market_context-IsFor disc.confirmed_slug (entered_epoch disc) down m.feed_down;
  }

  begun_after : (m : Monitor W) (n : ℤ) → IsAligned m → m.next_epoch ≤ℤ n → pos 0 ≤ℤ n
  begun_after m n h k =
      omega (
        arith,
        h.begun,
        k,
        ap pos_part h.next,
        ap neg_part h.next,
        +ℤ_parts m.active_epoch (pos 300),
      )

module _ {W : Type 0} ⦃d : Double W⦄ where
  enter_next-Went :
      (bids : Bids W) (disc : BtcFiveMinuteBucketDiscovery W) (up_token down_token : String)
      (m : Monitor W)
      → IsAligned m
      → IsNext m.next_epoch disc
      → Went m (enter_next bids disc (switch_feeds up_token down_token m))
  unfolding enter_next
  enter_next-Went bids disc up_token down_token m h n =
      let s = switch_feeds-IsAligned up_token down_token m h in
      if_intro (Went m) (switch_feeds up_token down_token m).1 _ _
        (λ _. (
          entered-IsAligned disc (switch_feeds up_token down_token m).0 (
              subst (λ (k : ℤ). pos 0 ≤ℤ k) (sym n.own)
                (begun_after m disc.bucket_epoch_seconds h n.not_before)),
          (subst (λ (k : ℤ). k ≤ℤ disc.bucket_epoch_seconds) h.next n.not_before, n.own),
        ))
        (λ _. s)

module _ {W J E : Type 0} ⦃d : Double W⦄ (json : Json W J) (sources : Sources W E) where
  IsNext-filled :
      (next : ℤ) (a b : BtcFiveMinuteBucketDiscovery W)
      → IsNext next a
      → IsSameMarket a b
      → IsNext next b
  IsNext-filled next a b h s = ground (arith, h.not_before, h.own, s.slug, s.epoch)

  roll-IfWent :
      (web_first : Bool) (bids : Bids W) (m : Monitor W)
      (o : Outcome (BtcFiveMinuteBucketDiscovery W)) (e : E)
      → IsAligned m
      → IfFound (IsNext m.next_epoch) o
      → IfWent m (roll json sources web_first bids m (o, e))
  roll-IfWent web_first bids m (found disc) e h n =
      let r = maybe_fill_strike_web_then_rtds json sources disc web_first e in
      enter_next-Went bids r.0 r.0.up_token_id r.0.down_token_id m h
        (IsNext-filled m.next_epoch disc r.0 n (fill-IsSameMarket json sources disc web_first e))
  roll-IfWent web_first bids m (rejected s) e h n = (h, refl)
  roll-IfWent web_first bids m raised e h n = tt

  pub round-IfWent :
      (web_first : Bool) (now_s : ℕ) (bids : Bids W) (m : Monitor W) (e : E)
      → IsAligned m
      → IfWent m (monitor_round json sources web_first now_s bids m e)
  unfolding monitor_round
  round-IfWent web_first now_s bids m e h =
      if_intro (IfWent m)
        (leb_ℤ (pos 0) m.active_epoch && leb_ℤ (m.next_epoch +ℤ pos 1) (pos now_s)) _
        (some (m, []), e)
        (λ _.
          roll-IfWent web_first bids m (discover_next json sources now_s m.next_epoch e).0
            (discover_next json sources now_s m.next_epoch e).1 h
            (discover_next-IsNext json sources now_s m.next_epoch e
              (begun_after m m.next_epoch h (omega arith))))
        (λ _. (h, refl))
