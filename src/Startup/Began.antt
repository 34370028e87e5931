-- ===== src/Startup/Began.antt =====
-- apps/btc_poly_runner.cpp: the first market has a beginning.
use mathlib.Core.Path.{subst}
use prediction_market_arbitr.Base.{
  ℕ, ◌+◌, ◌*◌, ◌/◌, ◌≤◌, ℤ, pos, ◌≤ℤ◌, leb_ℤ, leb→leℤ, Bool, true, ◌&&◌, ◌≡◌, sym, if_intro, Option,
  none, some, arith,
}
use prediction_market_arbitr.Buckets.Discover.{
  BtcFiveMinuteBucketDiscovery, epoch_of, epoch_or, bucket_of, in_window, try_slug,
}
use prediction_market_arbitr.Buckets.Market.{Outcome, found, rejected, raised}
use prediction_market_arbitr.Buckets.Slug.{max_i64, slug_for_bucket}
use prediction_market_arbitr.Buckets.Window.{
  IfFound, IsPresent, epoch_at, discover_active-IsPresent,
}
use prediction_market_arbitr.Double.{Double}
use prediction_market_arbitr.Json.{Json}
use prediction_market_arbitr.Startup.Strikes.{
  Sources, blank, disc_epoch, scan_checked, or_scan, discover_initial,
}

-- The beginning of the market is known.
abbrev pub Begun : Option ℤ → Type 0
Begun none = ⊥
Begun (some n) = pos 0 ≤ℤ n

abbrev pub HasBegun : {W : Type 0} → BtcFiveMinuteBucketDiscovery W → Type 0
HasBegun disc = Begun (epoch_of disc)

Begun-epoch : (k : Option ℤ) → leb_ℤ (pos 0) (epoch_or k) ≡ true → Begun k
Begun-epoch none h = ground (arith, h)
Begun-epoch (some n) h = leb→leℤ (pos 0) n h

left_of_and : (a b : Bool) → a && b ≡ true → a ≡ true
left_of_and a b h = ground arith

module _ {W : Type 0} where
  scanned-HasBegun :
      {E : Type 0} (now_s : ℕ) (r : Outcome (BtcFiveMinuteBucketDiscovery W)) (e : E)
      → IfFound (IsPresent now_s) r
      → IfFound HasBegun (scan_checked (λ disc. true) (r, e)).0
  scanned-HasBegun now_s (found disc) e h =
      subst (λ (k : Option ℤ). Begun k) (sym (epoch_at now_s disc (now_s / 300 * 300) h.epoch))
        (omega arith)
  scanned-HasBegun now_s (rejected m) e h = tt
  scanned-HasBegun now_s raised e h = tt

module _ {W J E : Type 0} ⦃d : Double W⦄ (json : Json W J) (sources : Sources W E) where
  or_scan-HasBegun :
      (now_s : ℕ) (r : Outcome (BtcFiveMinuteBucketDiscovery W)) (e : E)
      → 300 ≤ now_s
      → now_s + 300 ≤ max_i64
      → IfFound HasBegun
          (or_scan json sources now_s
            (λ disc. leb_ℤ (pos 0) (disc_epoch disc) && in_window (pos now_s) (disc_epoch disc))
            (λ disc. true)
            (r, e)).0
  or_scan-HasBegun now_s (found disc) e h k =
      if_intro (λ (r : Outcome (BtcFiveMinuteBucketDiscovery W) × E). IfFound HasBegun r.0)
        (leb_ℤ (pos 0) (disc_epoch disc) && in_window (pos now_s) (disc_epoch disc)) (found disc, e)
        _
        (λ c.
          Begun-epoch (epoch_of disc) (left_of_and _ (in_window (pos now_s) (disc_epoch disc)) c))
        (λ c.
          scanned-HasBegun now_s _ _
            (discover_active-IsPresent json sources.gamma now_s disc e h k))
  or_scan-HasBegun now_s (rejected m) e h k =
      scanned-HasBegun now_s _ _ (discover_active-IsPresent json sources.gamma now_s blank e h k)
  or_scan-HasBegun now_s raised e h k = tt

  pub discover_initial-HasBegun :
      (now_s : ℕ) (e : E)
      → 300 ≤ now_s
      → now_s + 300 ≤ max_i64
      → IfFound HasBegun (discover_initial json sources now_s e).0
  unfolding discover_initial
  discover_initial-HasBegun now_s e h k =
      let r = try_slug json sources.gamma (slug_for_bucket (bucket_of now_s)) blank e in
      or_scan-HasBegun now_s r.0 r.1 h k
