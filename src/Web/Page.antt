-- ===== src/Web/Page.antt =====
-- src/polymarket/polymarket_web_ptb.cpp: the price to beat from the page of an event. HTTP is a
-- parameter, and error texts are left out of what the callers ignore.
use prediction_market_arbitr.Base.{
  String, Bool, true, false, not, if◌then◌else◌, ◌&&◌, ◌||◌, List, [], ◌∷◌, ◌++◌, Option, none,
  some, same, or_else, codes, spell, find_text, before_text, drop_text,
}
use prediction_market_arbitr.Backtest.Events.{at?}
use prediction_market_arbitr.Buckets.Discover.{BtcFiveMinuteBucketDiscovery, Gamma}
use prediction_market_arbitr.Buckets.Market.{Outcome, found, rejected, raised, ◌>>=◌, or_reject}
use prediction_market_arbitr.Buckets.Slug.{Text}
use prediction_market_arbitr.Chainlink.Strike.{has_strike}
use prediction_market_arbitr.Double.{Double}
use prediction_market_arbitr.Json.{Json}

abbrev pub and_then : {A B : Type 0} → Option A → (A → Option B) → Option B
and_then none f = none
and_then (some a) f = f a

abbrev pub body_after : Option String → Outcome String
body_after o = or_reject "__NEXT_DATA__ malformed" o >>= λ opened.
    or_reject "__NEXT_DATA__ closing </script> not found"
      (before_text "</script>" (drop_text 1 opened))

-- The text of the page's `__NEXT_DATA__` script.
unfoldable pub extract_next_data_json : String → Outcome String
extract_next_data_json html =
    or_reject "__NEXT_DATA__ script tag not found" (find_text "<script id=\"__NEXT_DATA__\"" html)
    >>= λ tag. body_after (find_text ">" tag)

module _ {W J : Type 0} ⦃d : Double W⦄ (json : Json W J) where
  open json use {contains, at, is_object, is_array, is_number, is_string, get_double, get_string}

  abbrev pub positive : Option W → Option W
  positive none = none
  positive (some x) = if d.is_finite x && d.lt (d.lit 0 0) x then some x else none

  unfoldable pub json_to_positive_double : J → Option W
  json_to_positive_double j =
      if is_number j
      then positive (some (get_double j))
      else if is_string j
      then positive (d.stod (get_string j))
      else none

  -- The price of an event, if it is the wanted one.
  unfoldable pub ptb_from_event_obj : J → (want_slug : String) → Option W
  ptb_from_event_obj ev want =
      if not (is_object ev)
      then none
      else if not (contains ev "slug") || not (is_string (at ev "slug"))
      then none
      else if not (same (get_string (at ev "slug")) want)
      then none
      else if not (contains ev "eventMetadata") || not (is_object (at ev "eventMetadata"))
      then none
      else if not (contains (at ev "eventMetadata") "priceToBeat")
      then none
      else json_to_positive_double (at (at ev "eventMetadata") "priceToBeat")

  -- The loop over `data["events"]`.
  unfoldable pub scan_events : List J → (want_slug : String) → Option W
  scan_events [] want = none
  scan_events (ev ∷ evs) want = or_else (ptb_from_event_obj ev want) (scan_events evs want)

  abbrev pub events_in : J → List J
  events_in page =
      if contains page "events" && is_array (at page "events")
      then json.elements (at page "events")
      else []

  -- One query: its data, and then the events in it.
  unfoldable pub scan_query : J → (want_slug : String) → Option W
  scan_query q want =
      let page = at (at q "state") "data" in
      if not (contains q "state") || not (contains (at q "state") "data")
      then none
      else if not (is_object page)
      then none
      else or_else (ptb_from_event_obj page want) (scan_events (events_in page) want)

  unfoldable pub scan_queries : List J → (want_slug : String) → Option W
  scan_queries [] want = none
  scan_queries (q ∷ qs) want = or_else (scan_query q want) (scan_queries qs want)

  -- `root.at("props").at("pageProps").at("dehydratedState").at("queries")`; `none` is an exception.
  abbrev pub queries_of : J → Option J
  queries_of root = and_then (at? json root "props") λ props.
      and_then (at? json props "pageProps") λ page_props.
        and_then (at? json page_props "dehydratedState") λ dehydrated. at? json dehydrated "queries"

  abbrev pub scan_in : Option J → (want_slug : String) → Option W
  scan_in none want = none
  scan_in (some qs) want = if not (is_array qs) then none else scan_queries (json.elements qs) want

  unfoldable pub scan_next_data_for_slug_ptb : J → (want_slug : String) → Option W
  scan_next_data_for_slug_ptb root want = scan_in (queries_of root) want

  abbrev pub price_in_page : (slug : Text) → Option String → Outcome W
  price_in_page slug html = or_reject "HTTP" html >>= extract_next_data_json >>= λ raw_json.
      or_reject "__NEXT_DATA__ JSON parse failed" (json.parse raw_json) >>= λ root.
      or_reject "priceToBeat not found" (scan_next_data_for_slug_ptb root (spell slug))

abbrev pub event_url : Text → Text
event_url slug = codes "https://polymarket.com/event/" ++ slug

abbrev pub no_slug : Text → Bool
no_slug [] = true
no_slug (c ∷ cs) = false

module _ {W J E : Type 0} ⦃d : Double W⦄ (json : Json W J) (web : Gamma E) where
  unfoldable pub fetch_price_to_beat_from_event_html : (slug : Text) → E → Outcome W × E
  fetch_price_to_beat_from_event_html slug e =
      let r = web.http_get (event_url slug) e in (price_in_page json slug r.0, r.1)

  abbrev pub with_web_price :
      BtcFiveMinuteBucketDiscovery W → Outcome W → Option (BtcFiveMinuteBucketDiscovery W)
  with_web_price disc (found price) = some (record disc {
    price_to_beat = price;
    strike_from_polymarket_web_event_page = true;
    strike_from_polymarket_rtds_chainlink = false;
  })
  with_web_price disc (rejected m) = none
  with_web_price disc raised = none

  -- `none` is the result `false`.
  unfoldable pub fill_strike_from_polymarket_web_event_page :
      BtcFiveMinuteBucketDiscovery W → E → Option (BtcFiveMinuteBucketDiscovery W) × E
  fill_strike_from_polymarket_web_event_page disc e =
      let r = fetch_price_to_beat_from_event_html disc.confirmed_slug e in
      if has_strike disc
      then (some disc, e)
      else if no_slug disc.confirmed_slug
      then (none, e)
      else (with_web_price disc r.0, r.1)
