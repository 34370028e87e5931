-- ===== src/Quotes/Ticks.antt =====
-- src/polymarket/poly_ws_quote_feed.cpp: `on_ws_message` and `emit_quote` of the feed that moves to new
-- markets.
use prediction_market_arbitr.Base.{
  ℕ, String, not, if◌then◌else◌, ◌&&◌, ◌||◌, List, [], ◌∷◌, ◌++◌, Option, none, some, same,
  is_empty, codes, ◌⊕◌,
}
use prediction_market_arbitr.Buckets.Slug.{Text}
use prediction_market_arbitr.Double.{Double, is_nan}
use prediction_market_arbitr.Json.{Json, array_field, value_string}
use prediction_market_arbitr.Quotes.Book.{json_to_double, parse_top_of_book_from_book}
use prediction_market_arbitr.Quotes.Rolling.{
  RollingFeed, Output, quote_tick, Handled, guard_active_quote_asset, try_hydrate_from_message,
  maybe_handle_new_market,
}

abbrev pub id_or : Text → String → Text
id_or [] condition = codes condition
id_or (c ∷ cs) condition = c ∷ cs

module _ {W : Type 0} where
  abbrev pub joined : List (Output W) → Handled W → Handled W
  joined out none = none
  joined out (some (s, more)) = some (s, out ++ more)

  abbrev pub then_handle : Handled W → (RollingFeed → Handled W) → Handled W
  then_handle none f = none
  then_handle (some (s, out)) f = joined out (f s)

  -- Only a message on the token that the feed follows is handled.
  abbrev pub for_token : RollingFeed → Option String → (String → Handled W) → Handled W
  for_token s none f = none
  for_token s (some aid) f = if not (guard_active_quote_asset aid s) then some (s, []) else f aid

-- `show` is `std::to_string` on doubles.
module _ {W : Type 0} ⦃d : Double W⦄ (show : W → String) where
  abbrev pub dedup_key : (asset_id : String) (bid ask : W) (dedup_ts : String) → String
  dedup_key asset_id bid ask dedup_ts = asset_id ⊕ "|" ⊕ show bid ⊕ "|" ⊕ show ask ⊕ "|" ⊕ dedup_ts

  unfoldable pub emit_quote :
      (asset_id : String) (bid ask : W) (dedup_ts : String)
      → RollingFeed
      → RollingFeed × List (Output W)
  emit_quote asset_id bid ask dedup_ts s =
      let k = dedup_key asset_id bid ask dedup_ts in
      if not (guard_active_quote_asset asset_id s)
      then (s, [])
      else if is_nan bid || is_nan ask
      then (s, [])
      else if same k s.last_quote_dedup
      then (s, [])
      else (
        record s { last_quote_dedup = k },
        quote_tick asset_id s.active.slug (id_or s.active.market_id s.active.condition_id) bid ask
            ∷ [],
      )

  abbrev pub emit_some :
      String → (dedup_ts : String) → Handled W → RollingFeed → Option (W × W) → Handled W
  emit_some aid dedup_ts otherwise s none = otherwise
  emit_some aid dedup_ts otherwise s (some (bid, ask)) = some (emit_quote aid bid ask dedup_ts s)

module _ {W J : Type 0} ⦃d : Double W⦄ (json : Json W J) (show : W → String) where
  open json use {contains, at, is_object, parse, dump}

  abbrev pub best_fields : J → Option (W × W)
  best_fields j =
      if contains j "best_bid" && contains j "best_ask"
      then some (json_to_double json (at j "best_bid"), json_to_double json (at j "best_ask"))
      else none

  abbrev pub timestamp_or : J → String → String
  timestamp_or j dflt = if contains j "timestamp" then dump (at j "timestamp") else dflt

  abbrev pub unless_empty : String → String → String
  unless_empty pts dedup_ts = if is_empty pts then dedup_ts else pts

  unfoldable pub on_best_bid_ask : (dedup_ts : String) → J → RollingFeed → Handled W
  on_best_bid_ask dedup_ts j s =
      for_token s (value_string json j "asset_id" "")
        (λ aid. emit_some show aid dedup_ts none s (best_fields j))

  unfoldable pub on_book : (dedup_ts : String) → J → RollingFeed → Handled W
  on_book dedup_ts j s =
      for_token s (value_string json j "asset_id" "")
        (λ aid. emit_some show aid dedup_ts (some (s, [])) s (parse_top_of_book_from_book json j))

  -- One element of `price_changes`.
  unfoldable pub on_change : (dedup_ts : String) → J → RollingFeed → Handled W
  on_change dedup_ts ch s =
      if not (is_object ch)
      then some (s, [])
      else for_token s (value_string json ch "asset_id" "") (λ aid.
        emit_some show aid (unless_empty (timestamp_or ch dedup_ts) dedup_ts) (some (s, [])) s
          (best_fields ch))

  unfoldable pub on_changes : (dedup_ts : String) → List J → RollingFeed → Handled W
  on_changes dedup_ts [] s = some (s, [])
  on_changes dedup_ts (ch ∷ chs) s = then_handle (on_change dedup_ts ch s) (on_changes dedup_ts chs)

  abbrev pub on_array : (dedup_ts : String) → RollingFeed → Option (List J) → Handled W
  on_array dedup_ts s none = some (s, [])
  on_array dedup_ts s (some chs) = on_changes dedup_ts chs s

  unfoldable pub on_typed :
      (prefix : String) (now_ms : ℕ) → J → RollingFeed → (event_type : String) → Handled W
  on_typed prefix now_ms j s et =
      if same et "new_market"
      then maybe_handle_new_market json prefix now_ms j s
      else if is_empty s.active_up_token
      then some (s, [])
      else if same et "best_bid_ask"
      then on_best_bid_ask (timestamp_or j "") j s
      else if same et "book"
      then on_book (timestamp_or j "") j s
      else if same et "price_change"
      then on_array (timestamp_or j "") s (array_field json j "price_changes")
      else some (s, [])

  abbrev pub on_type : (prefix : String) (now_ms : ℕ) → J → RollingFeed → Option String → Handled W
  on_type prefix now_ms j s none = none
  on_type prefix now_ms j s (some et) = on_typed prefix now_ms j s et

  abbrev pub on_parsed : (prefix : String) (now_ms : ℕ) → RollingFeed → Option J → Handled W
  on_parsed prefix now_ms s none = some (s, [])
  on_parsed prefix now_ms s (some j) =
      if not (is_object j)
      then some (s, [])
      else on_type prefix now_ms j (try_hydrate_from_message json j s)
          (value_string json j "event_type" "")

  unfoldable pub on_ws_message : (prefix : String) (now_ms : ℕ) → String → RollingFeed → Handled W
  on_ws_message prefix now_ms text s = on_parsed prefix now_ms s (parse text)
