-- ===== src/Buckets/Discover.antt =====
-- src/polymarket/bucket_market_discovery.cpp: `validate_and_extract`, `try_slug` and the two discoveries.
-- What a discovery that fails leaves in its output is left out. Calls of HTTP and of the clock are
-- parameters.
use prediction_market_arbitr.Base.{
  ℕ, ◌*◌, ◌/◌, ℤ, pos, negsuc, ◌+ℤ◌, ◌*ℤ◌, ltb_ℤ, leb_ℤ, String, Bool, true, false, not,
  if◌then◌else◌, ◌&&◌, List, [], ◌∷◌, ◌++◌, Option, none, some, codes, codes_eq, is_empty,
}
use prediction_market_arbitr.Buckets.Market.{
  Outcome, found, rejected, raised, ◌>>=◌, or_reject, text_of, is_live, find_market_for_slug,
  strings_field, up_and_down, json_scalar_id_string, extract_price_to_beat_from_gamma_event,
}
use prediction_market_arbitr.Buckets.Slug.{Text, slug_for_bucket, parse_bucket_epoch_from_slug}
use prediction_market_arbitr.Double.{Double}
use prediction_market_arbitr.Json.{Json}
use prediction_market_arbitr.Runner.State.{minus_one}

pub record BtcFiveMinuteBucketDiscovery (W : Type 0) : Type 0 where
  pub confirmed_slug : Text
  pub bucket_epoch_seconds : ℤ
  pub up_token_id : String
  pub down_token_id : String
  pub condition_id : String
  pub market_numeric_id : Text
  pub price_to_beat : W
  pub gamma_has_price_to_beat : Bool
  pub strike_from_polymarket_rtds_chainlink : Bool
  pub strike_from_polymarket_web_event_page : Bool
  pub event_start_wall_ms : ℤ

-- HTTP, whose failure is `none`, and the time that an ISO text stands for.
pub record Gamma (E : Type 0) : Type 0 where
  pub http_get : Text → E → Option String × E
  pub iso_ms : String → Option ℤ

abbrev pub epoch_or : Option ℤ → ℤ
epoch_or none = minus_one
epoch_or (some epoch) = epoch

-- `event_start_wall_ms`, from Gamma's time or else from the epoch.
abbrev pub start_ms : Option ℤ → (epoch : ℤ) → ℤ
start_ms none epoch = if ltb_ℤ epoch (pos 0) then minus_one else epoch *ℤ pos 1000
start_ms (some ms) epoch = if ltb_ℤ ms (pos 0) && leb_ℤ (pos 0) epoch then epoch *ℤ pos 1000 else ms

abbrev pub in_window : (now_s epoch : ℤ) → Bool
in_window now_s epoch = leb_ℤ epoch now_s && ltb_ℤ now_s (epoch +ℤ pos 300)

abbrev pub bucket_of : ℕ → ℤ
bucket_of now_s = pos (now_s / 300 * 300)

module _ {W : Type 0} where
  abbrev pub epoch_of : BtcFiveMinuteBucketDiscovery W → Option ℤ
  epoch_of out =
      if ltb_ℤ out.bucket_epoch_seconds (pos 0)
      then parse_bucket_epoch_from_slug out.confirmed_slug
      else some out.bucket_epoch_seconds

  -- A market that was found counts if the clock is within its bucket.
  abbrev pub accept :
      (now_s : ℤ)
      → BtcFiveMinuteBucketDiscovery W
      → Option ℤ
      → Outcome (BtcFiveMinuteBucketDiscovery W)
  accept now_s out none = rejected "confirmed slug missing bucket epoch"
  accept now_s out (some epoch) =
      if in_window now_s epoch
      then found (record out { bucket_epoch_seconds = epoch })
      else rejected "wall clock is outside [epoch, epoch+300)"

  abbrev pub accepted :
      (now_s : ℤ)
      → Outcome (BtcFiveMinuteBucketDiscovery W)
      → Outcome (BtcFiveMinuteBucketDiscovery W)
  accepted now_s r = r >>= λ out. accept now_s out (epoch_of out)

module _ {W : Type 0} ⦃d : Double W⦄ where
  abbrev pub with_price : BtcFiveMinuteBucketDiscovery W → Option W → BtcFiveMinuteBucketDiscovery W
  with_price out none = record out {
    price_to_beat = d.lit 0 0;
    gamma_has_price_to_beat = false;
    strike_from_polymarket_rtds_chainlink = false;
  }
  with_price out (some price) = record out {
    price_to_beat = price;
    gamma_has_price_to_beat = true;
    strike_from_polymarket_rtds_chainlink = false;
  }

module _ {W J E : Type 0} ⦃d : Double W⦄ (json : Json W J) (gamma : Gamma E) where
  open json use {is_object, is_array, elements, parse}

  abbrev pub events_in : Option J → Outcome (List J)
  events_in none = rejected "parse error"
  events_in (some j) =
      if is_array j then found (elements j) else rejected "gamma events response is not an array"

  abbrev pub events_of : Option String → Outcome (List J)
  events_of none = rejected "HTTP"
  events_of (some body) = events_in (parse body)

  -- `fetch_events_for_slug` and `fetch_events_by_id_for_metadata`
  unfoldable pub fetch_events : (url : Text) → E → Outcome (List J) × E
  fetch_events url e = let r = gamma.http_get url e in (events_of r.0, r.1)

  abbrev pub slug_url : Text → Text
  slug_url slug =
      codes "https://gamma-api.polymarket.com/events?slug="
      ++ (slug ++ codes "&includeMetadata=true")

  abbrev pub id_url : Text → Text
  id_url id =
      codes "https://gamma-api.polymarket.com/events?id=" ++ (id ++ codes "&includeMetadata=true")

  -- The live market of a live event of this slug.
  unfoldable pub market_of : J → Text → Outcome J
  market_of event want = text_of json event "slug" >>= λ slug.
      if not (codes_eq (codes slug) want)
      then rejected "event slug mismatch after fetch"
      else (is_live json event >>= λ live.
          if not live
          then rejected "event not active or already closed"
          else (find_market_for_slug json event want >>= λ o.
              or_reject "no market object in gamma event" o >>= λ m. is_live json m >>= λ open_.
              if not open_ then rejected "market not active or closed" else found m))

  unfoldable pub start_iso : (event m : J) → Outcome String
  start_iso event m = text_of json m "eventStartTime" >>= λ iso.
      if is_empty iso then text_of json event "startTime" else found iso

  abbrev pub iso_or_none : String → Option ℤ
  iso_or_none iso = if is_empty iso then none else gamma.iso_ms iso

  -- All that `validate_and_extract` reads but for the price.
  unfoldable pub extract :
      (event : J) → Text → BtcFiveMinuteBucketDiscovery W → Outcome (BtcFiveMinuteBucketDiscovery W)
  extract event want out = market_of event want >>= λ m.
      up_and_down (strings_field json m "outcomes") (strings_field json m "clobTokenIds")
      >>= λ tokens. text_of json m "conditionId" >>= λ condition. start_iso event m >>= λ iso.
          let epoch = epoch_or (parse_bucket_epoch_from_slug want) in
          found (record out {
            confirmed_slug = want;
            up_token_id = tokens.0;
            down_token_id = tokens.1;
            condition_id = condition;
            market_numeric_id = json_scalar_id_string json m "id";
            bucket_epoch_seconds = epoch;
            event_start_wall_ms = start_ms (iso_or_none iso) epoch;
            strike_from_polymarket_rtds_chainlink = false;
          })

  -- The event fetched by its id, if it is still of this slug, else the event itself.
  abbrev pub refreshed : (event : J) → Text → Outcome (List J) → Outcome J
  refreshed event want (found (ev ∷ evs)) =
      if not (is_object ev)
      then found event
      else (text_of json ev "slug" >>= λ slug.
          if codes_eq (codes slug) want then found ev else found event)
  refreshed event want (found []) = found event
  refreshed event want (rejected m) = found event
  refreshed event want raised = found event

  abbrev pub priced :
      BtcFiveMinuteBucketDiscovery W → Outcome J → Outcome (BtcFiveMinuteBucketDiscovery W)
  priced out source =
      source >>= λ ev. found (with_price out (extract_price_to_beat_from_gamma_event json ev))

  abbrev pub fetch_by_id : (event : J) → E → Outcome (List J) × E
  fetch_by_id event e = elim (json_scalar_id_string json event "id") [
    | [] ↦ (rejected "gamma event id empty", e)
    | c ∷ id ↦ fetch_events (id_url (c ∷ id)) e
  ]

  -- The rest of `validate_and_extract`: the price.
  abbrev pub strike :
      (event : J)
      → Text
      → Outcome (BtcFiveMinuteBucketDiscovery W)
      → E
      → Outcome (BtcFiveMinuteBucketDiscovery W) × E
  strike event want (found out) e =
      let r = fetch_by_id event e in (priced out (refreshed event want r.0), r.1)
  strike event want (rejected m) e = (rejected m, e)
  strike event want raised e = (raised, e)

  unfoldable pub validate_and_extract :
      (event : J)
      → Text
      → BtcFiveMinuteBucketDiscovery W
      → E
      → Outcome (BtcFiveMinuteBucketDiscovery W) × E
  validate_and_extract event want out e = strike event want (extract event want out) e

  abbrev pub try_first :
      Text
      → BtcFiveMinuteBucketDiscovery W
      → Outcome (List J)
      → E
      → Outcome (BtcFiveMinuteBucketDiscovery W) × E
  try_first slug out (found (ev ∷ evs)) e =
      if not (is_object ev)
      then (rejected "first event is not an object", e)
      else validate_and_extract ev slug out e
  try_first slug out (found []) e = (rejected "empty events list for slug", e)
  try_first slug out (rejected m) e = (rejected m, e)
  try_first slug out raised e = (raised, e)

  -- `try_slug`, which is `discover_btc_updown_5m_for_exact_slug`
  unfoldable pub try_slug :
      Text → BtcFiveMinuteBucketDiscovery W → E → Outcome (BtcFiveMinuteBucketDiscovery W) × E
  try_slug slug out e = let r = fetch_events (slug_url slug) e in try_first slug out r.0 r.1

  abbrev pub or_next :
      Outcome (BtcFiveMinuteBucketDiscovery W) × E
      → (E → Outcome (BtcFiveMinuteBucketDiscovery W) × E)
      → Outcome (BtcFiveMinuteBucketDiscovery W) × E
  or_next (found out, e) next = (found out, e)
  or_next (rejected m, e) next = next e
  or_next (raised, e) next = (raised, e)

  -- The loop over the offsets.
  unfoldable pub try_offsets :
      (now_s base : ℤ)
      → List ℤ
      → BtcFiveMinuteBucketDiscovery W
      → E
      → Outcome (BtcFiveMinuteBucketDiscovery W) × E
  try_offsets now_s base [] out e = (rejected "no btc-updown-5m market", e)
  try_offsets now_s base (off ∷ offs) out e =
      let r = try_slug (slug_for_bucket (base +ℤ off)) out e in
      or_next (accepted now_s r.0, r.1) (try_offsets now_s base offs out)

  unfoldable pub discover_active_btc_updown_5m_via_bucket :
      (now_s : ℕ)
      → BtcFiveMinuteBucketDiscovery W
      → E
      → Outcome (BtcFiveMinuteBucketDiscovery W) × E
  discover_active_btc_updown_5m_via_bucket now_s out e =
      try_offsets (pos now_s) (bucket_of now_s) (pos 0 ∷ pos 300 ∷ negsuc 299 ∷ []) out e
