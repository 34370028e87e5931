-- ===== src/Buckets/Window.antt =====
-- src/polymarket/bucket_market_discovery.cpp: which market a discovery finds.
use mathlib.Core.Path.{subst}
use prediction_market_arbitr.Base.{
  ℕ, ◌+◌, ◌-◌, ◌*◌, ◌/◌, ◌≤◌, ◌<◌, ℤ, pos, negsuc, ◌+ℤ◌, true, not, ◌≡◌, refl, sym, ap, ◌∙◌,
  if_intro, List, [], ◌∷◌, Option, none, some, arith,
}
use prediction_market_arbitr.Buckets.Discover.{
  BtcFiveMinuteBucketDiscovery, Gamma, epoch_or, with_price, market_of, start_iso, extract,
  refreshed, fetch_by_id, strike, validate_and_extract, try_first, try_slug, in_window, epoch_of,
  accept, accepted, or_next, try_offsets, discover_active_btc_updown_5m_via_bucket,
}
use prediction_market_arbitr.Buckets.Market.{
  Outcome, found, rejected, raised, ◌>>=◌, up_and_down, text_of,
}
use prediction_market_arbitr.Buckets.RoundTrip.{parse_bucket_epoch_from_slug-slug_for_bucket}
use prediction_market_arbitr.Buckets.Slug.{
  Text, max_i64, slug_for_bucket, parse_bucket_epoch_from_slug,
}
use prediction_market_arbitr.Double.{Double}
use prediction_market_arbitr.Json.{Json}

same_bucket : (b : ℕ) → pos b +ℤ pos 0 ≡ pos b
unfolding ◌+ℤ◌
same_bucket b = ground arith

next_bucket : (b : ℕ) → pos b +ℤ pos 300 ≡ pos (b + 300)
unfolding ◌+ℤ◌
next_bucket b = ground arith

last_bucket : (b : ℕ) → 300 ≤ b → pos b +ℤ negsuc 299 ≡ pos (b - 300)
unfolding ◌+ℤ◌
last_bucket b h = ground arith

-- The bucket after the present one has not begun, and the one before it is over.
not_yet :
    (now_s b : ℕ) → in_window (pos now_s) (pos (b + 300)) ≡ true → now_s < b + 300 → b + 300 ≡ b
not_yet now_s b k h = ground arith

over :
    (now_s b : ℕ) → in_window (pos now_s) (pos (b - 300)) ≡ true → 300 ≤ b → b ≤ now_s → b - 300 ≡ b
unfolding ◌+ℤ◌
over now_s b k h l = ground arith

-- A property of what was found, if anything was.
abbrev pub IfFound : {A : Type 0} → (A → Type 0) → Outcome A → Type 0
IfFound P (found a) = P a
IfFound P (rejected m) = Unit
IfFound P raised = Unit

bind-IfFound :
    {A B : Type 0} (P : B → Type 0) (o : Outcome A) (f : A → Outcome B)
    → ((a : A) → IfFound P (f a))
    → IfFound P (o >>= f)
bind-IfFound P (found a) f h = h a
bind-IfFound P (rejected m) f h = tt
bind-IfFound P raised f h = tt

module _ {W : Type 0} where
  -- The market has this slug, with the epoch that is read from it.
  pub record IsBucket (want : Text) (out : BtcFiveMinuteBucketDiscovery W) : Type 0 where
    pub slug : out.confirmed_slug ≡ want
    pub epoch : out.bucket_epoch_seconds ≡ epoch_or (parse_bucket_epoch_from_slug want)

module _ {W J E : Type 0} ⦃d : Double W⦄ (json : Json W J) (gamma : Gamma E) where
  extract-IsBucket :
      (event : J) (want : Text) (out : BtcFiveMinuteBucketDiscovery W)
      → IfFound (IsBucket want) (extract json gamma event want out)
  unfolding extract
  extract-IsBucket event want out =
      bind-IfFound (IsBucket want) (market_of json gamma event want) _ λ m.
        bind-IfFound (IsBucket want) (up_and_down _ _) _ λ tokens.
          bind-IfFound (IsBucket want) (text_of json m "conditionId") _ λ condition.
            bind-IfFound (IsBucket want) (start_iso json gamma event m) _
              λ iso. record { slug = refl; epoch = refl }

  with_price-IsBucket :
      (want : Text) (out : BtcFiveMinuteBucketDiscovery W) (o : Option W)
      → IsBucket want out
      → IsBucket want (with_price out o)
  with_price-IsBucket want out none h = record { slug = h.slug; epoch = h.epoch }
  with_price-IsBucket want out (some p) h = record { slug = h.slug; epoch = h.epoch }

  strike-IsBucket :
      (event : J) (want : Text) (o : Outcome (BtcFiveMinuteBucketDiscovery W)) (e : E)
      → IfFound (IsBucket want) o
      → IfFound (IsBucket want) (strike json gamma event want o e).0
  strike-IsBucket event want (found out) e h =
      bind-IfFound (IsBucket want)
        (refreshed json gamma event want (fetch_by_id json gamma event e).0) _
        (λ ev. with_price-IsBucket want out _ h)
  strike-IsBucket event want (rejected m) e h = tt
  strike-IsBucket event want raised e h = tt

  try_first-IsBucket :
      (want : Text) (out : BtcFiveMinuteBucketDiscovery W) (o : Outcome (List J)) (e : E)
      → IfFound (IsBucket want) (try_first json gamma want out o e).0
  unfolding validate_and_extract
  try_first-IsBucket want out (found []) e = tt
  try_first-IsBucket want out (found (ev ∷ evs)) e =
      if_intro (λ (r : Outcome (BtcFiveMinuteBucketDiscovery W) × E). IfFound (IsBucket want) r.0)
        (not (json.is_object ev)) _ _ (λ k. tt)
        (λ k.
          strike-IsBucket ev want (extract json gamma ev want out) e (extract-IsBucket ev want out))
  try_first-IsBucket want out (rejected m) e = tt
  try_first-IsBucket want out raised e = tt

  pub try_slug-IsBucket :
      (want : Text) (out : BtcFiveMinuteBucketDiscovery W) (e : E)
      → IfFound (IsBucket want) (try_slug json gamma want out e).0
  unfolding try_slug
  try_slug-IsBucket want out e = try_first-IsBucket want out _ _

module _ {W : Type 0} (now_s : ℕ) where
  -- The market of the five minutes that the clock stands in.
  pub record IsPresent (out : BtcFiveMinuteBucketDiscovery W) : Type 0 where
    pub slug : out.confirmed_slug ≡ slug_for_bucket (pos (now_s / 300 * 300))
    pub epoch : out.bucket_epoch_seconds ≡ pos (now_s / 300 * 300)
    pub begun : now_s / 300 * 300 ≤ now_s
    pub not_over : now_s < now_s / 300 * 300 + 300

  pub epoch_at :
      (out : BtcFiveMinuteBucketDiscovery W) (n : ℕ)
      → out.bucket_epoch_seconds ≡ pos n
      → epoch_of out ≡ some (pos n)
  epoch_at out n h = ground arith

  present :
      (out : BtcFiveMinuteBucketDiscovery W) (n : ℕ)
      → out.confirmed_slug ≡ slug_for_bucket (pos n)
      → n ≡ now_s / 300 * 300
      → IsPresent (record out { bucket_epoch_seconds = pos n })
  present out n h e = record {
    slug = h ∙ ap (λ (m : ℕ). slug_for_bucket (pos m)) e;
    epoch = ap pos e;
    begun = omega arith;
    not_over = omega arith;
  }

  accepted-IsPresent :
      ⦃d : Double W⦄ (n : ℕ) (r : Outcome (BtcFiveMinuteBucketDiscovery W))
      → n ≤ max_i64
      → (in_window (pos now_s) (pos n) ≡ true → n ≡ now_s / 300 * 300)
      → IfFound (IsBucket (slug_for_bucket (pos n))) r
      → IfFound IsPresent (accepted (pos now_s) r)
  accepted-IsPresent n (found out) m w h =
      let e = h.epoch ∙ ap epoch_or (parse_bucket_epoch_from_slug-slug_for_bucket n m) in
      subst (λ (o : Option ℤ). IfFound IsPresent (accept (pos now_s) out o))
        (sym (epoch_at out n e))
        (if_intro (IfFound IsPresent) (in_window (pos now_s) (pos n)) _ _
          (λ k. present out n h.slug (w k)) (λ k. tt))
  accepted-IsPresent n (rejected s) m w h = tt
  accepted-IsPresent n raised m w h = tt

module _ {W J E : Type 0} ⦃d : Double W⦄ (json : Json W J) (gamma : Gamma E) where
  or_next-IfFound :
      (P : BtcFiveMinuteBucketDiscovery W → Type 0) (r : Outcome (BtcFiveMinuteBucketDiscovery W))
      (e : E) (next : E → Outcome (BtcFiveMinuteBucketDiscovery W) × E)
      → IfFound P r
      → ((t : E) → IfFound P (next t).0)
      → IfFound P (or_next json gamma (r, e) next).0
  or_next-IfFound P (found out) e next h k = h
  or_next-IfFound P (rejected m) e next h k = k e
  or_next-IfFound P raised e next h k = tt

  -- What the bucket `n` gives.
  offset-IsPresent :
      (now_s n : ℕ) (bucket : ℤ) (out : BtcFiveMinuteBucketDiscovery W) (e : E)
      → bucket ≡ pos n
      → n ≤ max_i64
      → (in_window (pos now_s) (pos n) ≡ true → n ≡ now_s / 300 * 300)
      → IfFound
          (IsPresent now_s)
          (accepted (pos now_s) (try_slug json gamma (slug_for_bucket bucket) out e).0)
  offset-IsPresent now_s n bucket out e b m w = rw b (
      accepted-IsPresent now_s n (try_slug json gamma (slug_for_bucket (pos n)) out e).0 m w
        (try_slug-IsBucket json gamma (slug_for_bucket (pos n)) out e))

  -- The market that the discovery finds is the one named by the five minutes that the clock stands in,
  -- with their beginning as its epoch: the attempts at the buckets before and after it find nothing.
  pub discover_active-IsPresent :
      (now_s : ℕ) (out : BtcFiveMinuteBucketDiscovery W) (e : E)
      → 300 ≤ now_s
      → now_s + 300 ≤ max_i64
      → IfFound
          (IsPresent now_s)
          (discover_active_btc_updown_5m_via_bucket json gamma now_s out e).0
  unfolding discover_active_btc_updown_5m_via_bucket try_offsets
  discover_active-IsPresent now_s out e h m =
      let b : ℕ = now_s / 300 * 300 in
      or_next-IfFound (IsPresent now_s) _ _ _
        (offset-IsPresent now_s b _ out e (same_bucket b) (omega (arith, m)) (λ k. refl))
        (λ t.
          or_next-IfFound (IsPresent now_s) _ _ _
            (offset-IsPresent now_s (b + 300) _ out t (next_bucket b) (omega (arith, m))
              (λ k. not_yet now_s b k (omega arith)))
            (λ u.
              or_next-IfFound (IsPresent now_s) _ _ _
                (offset-IsPresent now_s (b - 300) _ out u (last_bucket b (omega (arith, h)))
                  (omega (arith, m)) (λ k. over now_s b k (omega (arith, h)) (omega arith)))
                (λ v. tt)))
