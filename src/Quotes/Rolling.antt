-- ===== src/Quotes/Rolling.antt =====
-- src/polymarket/poly_ws_quote_feed.cpp: `PolyWsQuoteFeed`, which moves to each new market of its family
-- by itself. Telemetry is left out, and `system_ms` is an argument.
use prediction_market_arbitr.Base.{
  ℕ, ◌-◌, ◌%◌, ◌^◌, pos_part, String, Bool, true, false, not, if◌then◌else◌, ◌&&◌, ◌||◌, ltb, leb,
  ◌==◌, List, [], ◌∷◌, Option, none, some, same, is_empty, codes, codes_eq, lower, prefix_of,
  length, get_elem?,
}
use prediction_market_arbitr.Buckets.Market.{strings, json_scalar_id_string, index_outcome}
use prediction_market_arbitr.Buckets.Slug.{Text, scan, starts_digit, is_blank}
use prediction_market_arbitr.Json.{Json, value_string, value_boolean}
use prediction_market_arbitr.Quotes.Fixed.{subscribe_to}
use prediction_market_arbitr.Quotes.Socket
use prediction_market_arbitr.Quotes.Socket.{
  Socket, Frame, unsubscribe, send, set_subscription_snapshot, connect, disconnect,
}

pub record PolymarketMarketRef : Type 0 where
  pub market_id : Text
  pub condition_id : String
  pub slug : String
  pub up_token_id : String
  pub down_token_id : String
  pub active : Bool

abbrev pub no_market : PolymarketMarketRef
no_market = record {
  market_id = [];
  condition_id = "";
  slug = "";
  up_token_id = "";
  down_token_id = "";
  active = false;
}

pub record RollingFeed : Type 0 where
  pub running : Bool
  pub active : PolymarketMarketRef
  pub active_up_token : String
  pub active_announced_ts_ms : ℕ
  pub last_quote_dedup : String
  pub socket : Socket

-- The calls of `on_quote_` and of `on_rollover_`.
pub data Output (W : Type 0) : Type 0 where
  quote_tick : (token_id market_slug : String) (market_id : Text) (best_bid best_ask : W) → Output W
  rollover : (old next : PolymarketMarketRef) → Output W

-- The new state and the calls, in order. `none` is an exception that leaves the handler.
abbrev pub Handled : Type 0 → Type 0
Handled W = Option (RollingFeed × List (Output W))

unfoldable pub slug_has_prefix_ci : (slug prefix : String) → Bool
slug_has_prefix_ci slug prefix = prefix_of (lower prefix) (lower slug)

abbrev pub index_or : ℕ → Option ℕ → ℕ
index_or n none = n
index_or n (some i) = i

unfoldable pub index_up : List String → ℕ
index_up outs = index_or 0 (index_outcome (codes "up") outs)

unfoldable pub index_down : List String → ℕ
index_down outs =
    index_or (if ltb 1 (length outs) then 1 else 0) (index_outcome (codes "down") outs)

unfoldable pub condition_same : String → String → Bool
condition_same a b = codes_eq (lower a) (lower b)

-- `std::stoull`, which wraps a negative number around.
abbrev pub magnitude_u64 : (negative : Bool) → Text → Option ℕ
magnitude_u64 negative cs =
    let n = scan cs 0 in
    if not (starts_digit cs)
    then none
    else if leb (2 ^ 64) n
    then none
    else if negative
    then some ((2 ^ 64 - n) % 2 ^ 64)
    else some n

unfoldable pub stoull : Text → Option ℕ
stoull [] = none
stoull (c ∷ cs) =
    let rest = stoull cs in
    if is_blank c
    then rest
    else if c == 45
    then magnitude_u64 true cs
    else if c == 43
    then magnitude_u64 false cs
    else magnitude_u64 false (c ∷ cs)

abbrev pub string_or : Option String → String
string_or none = ""
string_or (some s) = s

unfoldable pub guard_active_quote_asset : String → RollingFeed → Bool
guard_active_quote_asset asset_id s = not (is_empty asset_id) && same asset_id s.active_up_token

-- `start`, with the market of the configuration or of the discovery; `none` is a discovery that fails.
unfoldable pub start :
    (boot : Option PolymarketMarketRef) (now_ms : ℕ) → RollingFeed → RollingFeed × Bool
start none now_ms s = (s, false)
start (some boot) now_ms s = if s.running then (s, false) else (
  record s {
    running = true;
    active = boot;
    active_up_token = boot.up_token_id;
    active_announced_ts_ms = now_ms;
    socket = Socket.start (set_subscription_snapshot (boot.up_token_id ∷ []) s.socket);
  },
  true,
)

unfoldable pub stop : RollingFeed → RollingFeed
stop s = if not s.running then s else record {
  running = false;
  active = no_market;
  active_up_token = "";
  active_announced_ts_ms = 0;
  last_quote_dedup = "";
  socket = Socket.stop s.socket;
}

unfoldable pub opened : RollingFeed → RollingFeed
opened s = record s { last_quote_dedup = ""; socket = connect s.socket }

unfoldable pub dropped : RollingFeed → RollingFeed
dropped s = record s { socket = disconnect s.socket }

-- The token that the feed leaves is unsubscribed.
abbrev pub left : (old next : String) → Socket → Socket
left old next socket =
    if not (is_empty old) && not (same old next)
    then send (unsubscribe (old ∷ [])) socket
    else socket

unfoldable pub switch_to_market :
    PolymarketMarketRef → (announce_ts_ms now_ms : ℕ) → RollingFeed → RollingFeed
switch_to_market next announce_ts_ms now_ms s = record s {
  active = next;
  active_up_token = next.up_token_id;
  active_announced_ts_ms = if ltb 0 announce_ts_ms then announce_ts_ms else now_ms;
  socket = subscribe_to next.up_token_id (left s.active_up_token next.up_token_id s.socket);
  last_quote_dedup = "";
}

module _ {W J : Type 0} (json : Json W J) where
  open json use {
    contains, at, is_object, is_array, is_string, is_integer, get_string, get_int, elements,
  }

  unfoldable pub outcomes_from_new_market : J → List String
  outcomes_from_new_market j =
      if contains j "outcomes" && is_array (at j "outcomes")
      then strings json (elements (at j "outcomes"))
      else []

  -- The texts under the first of the keys that has any.
  unfoldable pub tokens_under : List String → J → List String
  tokens_under [] j = []
  tokens_under (k ∷ ks) j =
      let rest = tokens_under ks j in
      let here : List String =
        (if contains j k && is_array (at j k) then strings json (elements (at j k)) else []) in
      elim here [ [] ↦ rest | id ∷ ids ↦ id ∷ ids ]

  unfoldable pub tokens_from_new_market : J → List String
  tokens_from_new_market j = tokens_under ("clob_token_ids" ∷ "clobTokenIds" ∷ "assets_ids" ∷ []) j

  abbrev pub number_or_zero : Option ℕ → ℕ
  number_or_zero none = 0
  number_or_zero (some n) = n

  unfoldable pub parse_ts_ms : J → ℕ
  parse_ts_ms j =
      let t = at j "timestamp" in
      if not (contains j "timestamp")
      then 0
      else if is_integer t
      then pos_part (get_int t)
      else if is_string t
      then number_or_zero (stoull (codes (get_string t)))
      else 0

  unfoldable pub try_hydrate_from_message : J → RollingFeed → RollingFeed
  try_hydrate_from_message j s =
      if not (is_empty s.active.condition_id)
      then s
      else if not (contains j "asset_id" && is_string (at j "asset_id"))
      then s
      else if not (same (get_string (at j "asset_id")) s.active_up_token)
      then s
      else if not (contains j "market" && is_string (at j "market"))
      then s
      else record s { active = record s.active { condition_id = get_string (at j "market") } }

  abbrev pub has_outcome : Text → List String → Bool
  has_outcome want [] = false
  has_outcome want (o ∷ os) = codes_eq (lower o) want || has_outcome want os

  -- `new_market_matches_family` of the slug that is read from the message.
  unfoldable pub new_market_matches_family : (prefix slug : String) → J → Bool
  new_market_matches_family prefix slug j =
      slug_has_prefix_ci slug prefix
      && (has_outcome (codes "up") (outcomes_from_new_market j)
          && has_outcome (codes "down") (outcomes_from_new_market j))

  abbrev pub up_token : (outs toks : List String) → String
  up_token outs toks =
      if length outs == length toks then string_or (get_elem? toks (index_up outs)) else ""

  abbrev pub down_token : (outs toks : List String) → String
  down_token outs toks =
      if length outs == length toks then string_or (get_elem? toks (index_down outs)) else ""

  abbrev pub condition_of : J → Option String → Option String
  condition_of j none = none
  condition_of j (some c) = if is_empty c then value_string json j "condition_id" "" else some c

  abbrev pub market_with :
      J → Option String → Option String → Option Bool → Option PolymarketMarketRef
  market_with j (some condition) (some slug) (some active) = some (record {
    market_id = json_scalar_id_string json j "id";
    condition_id = condition;
    slug = slug;
    up_token_id = up_token (outcomes_from_new_market j) (tokens_from_new_market j);
    down_token_id = down_token (outcomes_from_new_market j) (tokens_from_new_market j);
    active = active;
  })
  market_with j none slug active = none
  market_with j (some condition) none active = none
  market_with j (some condition) (some slug) none = none

  unfoldable pub market_ref_from_new_market : J → Option PolymarketMarketRef
  market_ref_from_new_market j =
      market_with j (condition_of j (value_string json j "market" ""))
        (value_string json j "slug" "") (value_boolean json j "active" true)

  abbrev pub moved : (ts now_ms : ℕ) → RollingFeed → Option PolymarketMarketRef → Handled W
  moved ts now_ms s none = none
  moved ts now_ms s (some next) =
      if is_empty next.up_token_id
      then some (s, [])
      else if not (is_empty s.active.condition_id)
          && not (is_empty next.condition_id)
          && condition_same s.active.condition_id next.condition_id
      then some (s, [])
      else some (switch_to_market next ts now_ms s, rollover s.active next ∷ [])

  abbrev pub in_family :
      (prefix : String) (now_ms : ℕ) → J → RollingFeed → Option String → Handled W
  in_family prefix now_ms j s none = none
  in_family prefix now_ms j s (some slug) =
      if not (new_market_matches_family prefix slug j)
      then some (s, [])
      else moved (parse_ts_ms j) now_ms s (market_ref_from_new_market j)

  unfoldable pub maybe_handle_new_market :
      (prefix : String) (now_ms : ℕ) → J → RollingFeed → Handled W
  maybe_handle_new_market prefix now_ms j s =
      in_family prefix now_ms j s (value_string json j "slug" "")
