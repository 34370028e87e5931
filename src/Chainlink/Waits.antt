-- ===== src/Chainlink/Waits.antt =====
-- src/polymarket/rtds_chainlink_feed.cpp: what the wait for the strike returns.
use prediction_market_arbitr.Base.{
  ℤ, pos, pos_part, neg_part, ◌-ℤ◌, -ℤ_parts, abs_parts, ◌≤ℤ◌, ◌<ℤ◌, ◌≤◌, leb_ℤ, ltb_ℤ, Bool, true,
  false, ◌≡◌, refl, ◌⊎◌, inl, inr, if◌then◌else◌, if_intro, List, [], ◌∷◌, Option, none, some, All,
  arith,
}
use prediction_market_arbitr.Chainlink.Selection.{
  Pick, after, skew, is_before, is_after, near_enough, or_before, or_after, assign_fallback, late,
  at_once, poll_strike, wait_strike,
}
use prediction_market_arbitr.Chainlink.Strikes.{Among, Chosen, consider_all-Chosen}
use prediction_market_arbitr.Chainlink.Ticks.{Tick}

-- One of the elements has the property.
abbrev pub Any : {A : Type 0} → (A → Type 0) → List A → Type 0
Any P [] = ⊥
Any P (x ∷ xs) = P x ⊎ Any P xs

canonical : (a : ℤ) → (pos_part a ≡ 0) ⊎ (neg_part a ≡ 0)
canonical a = ground arith

module _ {W : Type 0} (target_ms max_skew_ms : ℤ) where
  -- The tick lies within the skew of the boundary.
  abbrev pub Near : Tick W → Type 0
  Near t = pos (skew target_ms max_skew_ms t) ≤ℤ max_skew_ms

  abbrev pub Far : Tick W → Type 0
  Far t = max_skew_ms <ℤ pos (skew target_ms max_skew_ms t)

  -- What the wait comes to: a price before the deadline is the first tick at or after the boundary,
  -- within the skew, of some snapshot; a later one is a tick of the last snapshot within the skew; and
  -- there is none only if no tick of the last snapshot lies within the skew.
  abbrev pub Struck : List (List (Tick W)) → List (Tick W) → Option (Tick W × Pick × Bool) → Type 0
  Struck polls last none = All Far last
  Struck polls last (some (t, pick, true)) =
      (pick ≡ after)
      × Any (λ snap. Chosen (is_after target_ms max_skew_ms) (λ a b. a.0 ≤ℤ b.0) snap (some t))
          polls
  Struck polls last (some (t, pick, false)) = Among t last × Near t

  after-Near : (t : Tick W) → is_after target_ms max_skew_ms t ≡ true → Near t
  after-Near t h =
      ground
        (arith, abs_parts (t.0 -ℤ target_ms), -ℤ_parts t.0 target_ms, canonical (t.0 -ℤ target_ms))

  before-Near : (t : Tick W) → is_before target_ms max_skew_ms t ≡ true → Near t
  before-Near t h = ground (
    arith,
    abs_parts (t.0 -ℤ target_ms),
    -ℤ_parts t.0 target_ms,
    -ℤ_parts target_ms t.0,
    canonical (t.0 -ℤ target_ms),
    canonical (target_ms -ℤ t.0),
  )

  abbrev NearestOf : List (Tick W) → Option (Tick W) → Type 0
  NearestOf =
      Chosen (λ u. true) (λ a b. skew target_ms max_skew_ms a ≤ skew target_ms max_skew_ms b)

  all_beyond :
      (ts : List (Tick W)) (b : Tick W)
      → Far b
      → All
          (λ t.
            (◌≡◌ {A = Bool} true false)
            ⊎ (skew target_ms max_skew_ms b ≤ skew target_ms max_skew_ms t))
          ts
      → All Far ts
  all_beyond [] b h k = tt
  all_beyond (t ∷ ts) b h (inl e, k) = cc (e)
  all_beyond (t ∷ ts) b h (inr e, k) = (omega (arith, h, e), all_beyond ts b h k)

  none_beyond : (ts : List (Tick W)) → All (λ t. ◌≡◌ {A = Bool} true false) ts → All Far ts
  none_beyond [] k = tt
  none_beyond (t ∷ ts) (e, k) = cc (e)

  near_enough-Struck :
      (polls : List (List (Tick W))) (last : List (Tick W)) (o : Option (Tick W))
      → NearestOf last o
      → Struck polls last (late target_ms max_skew_ms (near_enough target_ms max_skew_ms o))
  near_enough-Struck polls last none h = none_beyond last h
  near_enough-Struck polls last (some t) h =
      if_intro (λ (r : Option (Tick W × Pick)). Struck polls last (late target_ms max_skew_ms r))
        (leb_ℤ (pos (skew target_ms max_skew_ms t)) max_skew_ms) _ _ (λ e. (h.0, ground arith))
        (λ e. all_beyond last t (ground arith) h.2)

  fallback-Struck :
      (polls : List (List (Tick W))) (last : List (Tick W)) (a b n : Option (Tick W))
      → Chosen (is_after target_ms max_skew_ms) (λ x y. x.0 ≤ℤ y.0) last a
      → Chosen (is_before target_ms max_skew_ms) (λ x y. y.0 ≤ℤ x.0) last b
      → NearestOf last n
      → Struck polls last (
          late target_ms max_skew_ms (
            or_after target_ms max_skew_ms a
              (or_before target_ms max_skew_ms b (near_enough target_ms max_skew_ms n))))
  fallback-Struck polls last (some t) b n h k l = (h.0, after-Near t h.1)
  fallback-Struck polls last none (some t) n h k l = (k.0, before-Near t k.1)
  fallback-Struck polls last none none n h k l = near_enough-Struck polls last n l

  Struck-next :
      (snap : List (Tick W)) (polls : List (List (Tick W))) (last : List (Tick W))
      (r : Option (Tick W × Pick × Bool))
      → Struck polls last r
      → Struck (snap ∷ polls) last r
  Struck-next snap polls last none h = h
  Struck-next snap polls last (some (t, pick, true)) h = (h.0, inr h.1)
  Struck-next snap polls last (some (t, pick, false)) h = h

  at_once-Struck :
      (snap : List (Tick W)) (polls : List (List (Tick W))) (last : List (Tick W))
      (o : Option (Tick W)) (r : Option (Tick W × Pick × Bool))
      → Chosen (is_after target_ms max_skew_ms) (λ a b. a.0 ≤ℤ b.0) snap o
      → Struck polls last r
      → Struck (snap ∷ polls) last (at_once target_ms max_skew_ms o r)
  at_once-Struck snap polls last none r h k = Struck-next snap polls last r k
  at_once-Struck snap polls last (some t) r h k = (refl, inl h)

  poll_strike-Struck :
      (polls : List (List (Tick W))) (last : List (Tick W))
      → Struck polls last (poll_strike target_ms max_skew_ms polls last)
  unfolding poll_strike assign_fallback
  poll_strike-Struck [] last =
      let c = consider_all-Chosen target_ms max_skew_ms last in
      fallback-Struck [] last _ _ _ c.0 c.1 c.2
  poll_strike-Struck (snap ∷ polls) last =
      at_once-Struck snap polls last _ _ (consider_all-Chosen target_ms max_skew_ms snap).0
        (poll_strike-Struck polls last)

-- The skew that is allowed: at least a second.
abbrev pub allowed : ℤ → ℤ
allowed max_skew_ms = if ltb_ℤ max_skew_ms (pos 1000) then pos 1000 else max_skew_ms

module _ {W : Type 0} where
  -- The strike that the wait returns before its deadline is the first tick at or after the boundary of a
  -- snapshot, within the allowed skew. The one that it falls back to is a tick of the last snapshot
  -- within the skew. It fails only if no tick of the last snapshot lies within the skew.
  pub wait_strike-Struck :
      (boundary_ms max_skew_ms : ℤ) (polls : List (List (Tick W))) (last : List (Tick W))
      → Struck boundary_ms
          (allowed max_skew_ms)
          polls
          last
          (wait_strike boundary_ms max_skew_ms polls last)
  unfolding wait_strike
  wait_strike-Struck boundary_ms max_skew_ms polls last =
      poll_strike-Struck boundary_ms (allowed max_skew_ms) polls last
