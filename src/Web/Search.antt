-- ===== src/Web/Search.antt =====
-- src/polymarket/polymarket_web_ptb.cpp: the nested search of the page's document, as one search of a
-- list of events.
use prediction_market_arbitr.Base.{
  String, Bool, if◌then◌else◌, ◌&&◌, ◌≡◌, refl, sym, ap, ◌∙◌, List, [], ◌∷◌, ◌++◌, Option, none,
  some, or_else, or_else_assoc, arith,
}
use prediction_market_arbitr.Double.{Double}
use prediction_market_arbitr.Json.{Json}
use prediction_market_arbitr.Web.Page.{
  ptb_from_event_obj, scan_events, events_in, scan_query, scan_queries, queries_of, scan_in,
  scan_next_data_for_slug_ptb,
}

module _ {W J : Type 0} ⦃d : Double W⦄ (json : Json W J) where
  open json use {contains, at, is_object, is_array, is_string, get_string, elements}

  -- The events of the data of one query.
  abbrev listed : J → List J
  listed page =
      if contains page "events" && is_array (at page "events")
      then elements (at page "events")
      else []

  -- The objects of one query that the price is looked for in: its data, then the events in it.
  abbrev pub query_events : J → List J
  query_events q =
      let page = at (at q "state") "data" in
      if contains q "state" && contains (at q "state") "data" && is_object page
      then page ∷ listed page
      else []

  abbrev pub all_events : List J → List J
  all_events [] = []
  all_events (q ∷ qs) = query_events q ++ all_events qs

  abbrev has : J → String → Bool
  has j key = is_object j && contains j key

  -- The queries of a page's document.
  abbrev pub page_queries : J → List J
  page_queries root =
      let props = at root "props" in
      let page_props = at props "pageProps" in
      let dehydrated = at page_props "dehydratedState" in
      let qs = at dehydrated "queries" in
      if has root "props"
        && (has props "pageProps"
            && (has page_props "dehydratedState" && (has dehydrated "queries" && is_array qs)))
      then elements qs
      else []

  abbrev queries_list : Option J → List J
  queries_list none = []
  queries_list (some qs) = if is_array qs then elements qs else []

  -- The events of a page's document, in the order in which the page lists them.
  abbrev pub page_events : J → List J
  page_events root = all_events (page_queries root)

  queries_list-eq-page_queries :
      (root : J) → queries_list (queries_of json root) ≡ page_queries root
  queries_list-eq-page_queries root = ground arith

  -- The price of the first event of the slug that has one.
  abbrev pub first_price : List J → (want_slug : String) → Option W
  first_price [] want = none
  first_price (ev ∷ evs) want = or_else (ptb_from_event_obj json ev want) (first_price evs want)

  scan_events-eq-first_price :
      (evs : List J) (want : String) → scan_events json evs want ≡ first_price evs want
  unfolding scan_events
  scan_events-eq-first_price [] want = refl
  scan_events-eq-first_price (ev ∷ evs) want =
      ap (or_else (ptb_from_event_obj json ev want)) (scan_events-eq-first_price evs want)

  first_price-append :
      (xs ys : List J) (want : String)
      → first_price (xs ++ ys) want ≡ or_else (first_price xs want) (first_price ys want)
  first_price-append [] ys want = refl
  first_price-append (x ∷ xs) ys want =
      ap (or_else (ptb_from_event_obj json x want)) (first_price-append xs ys want)
      ∙ sym (or_else_assoc (ptb_from_event_obj json x want) _ _)

  scan_query-eq-first_price :
      (q : J) (want : String) → scan_query json q want ≡ first_price (query_events q) want
  unfolding scan_query
  scan_query-eq-first_price q want =
      ground (arith, scan_events-eq-first_price (events_in json (at (at q "state") "data")) want)

  scan_queries-eq-first_price :
      (qs : List J) (want : String) → scan_queries json qs want ≡ first_price (all_events qs) want
  unfolding scan_queries
  scan_queries-eq-first_price [] want = refl
  scan_queries-eq-first_price (q ∷ qs) want = rw (
    scan_query-eq-first_price q want,
    scan_queries-eq-first_price qs want,
    first_price-append (query_events q) (all_events qs) want,
  )

  -- The nested loops over queries and events find the first price of one list of events.
  scan_in-eq-first_price :
      (o : Option J) (want : String)
      → scan_in json o want ≡ first_price (all_events (queries_list o)) want
  scan_in-eq-first_price none want = refl
  scan_in-eq-first_price (some qs) want =
      ground (arith, scan_queries-eq-first_price (elements qs) want)

  pub scan_next_data-eq-first_price :
      (root : J) (want : String)
      → scan_next_data_for_slug_ptb json root want ≡ first_price (page_events root) want
  unfolding scan_next_data_for_slug_ptb
  scan_next_data-eq-first_price root want =
      scan_in-eq-first_price (queries_of json root) want
      ∙ ap (λ qs. first_price (all_events qs) want) (queries_list-eq-page_queries root)
