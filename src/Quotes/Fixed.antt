-- ===== src/Quotes/Fixed.antt =====
-- src/polymarket/ws_fixed_token_feed.cpp: `WsFixedTokenQuoteFeed`. Each handler is one step; the mutex
-- is held while the state is read and written. Telemetry and the clocks are left out.
use prediction_market_arbitr.Base.{
  ℤ, String, Bool, true, false, not, if◌then◌else◌, ◌&&◌, ◌||◌, List, [], ◌∷◌, ◌++◌, Option, none,
  some, same, is_empty,
}
use prediction_market_arbitr.Double.{Double, is_nan, feq}
use prediction_market_arbitr.Json.{Json, array_field, value_string}
use prediction_market_arbitr.Quotes.Book.{json_to_double, parse_top_of_book_from_book}
use prediction_market_arbitr.Quotes.Socket.{
  Socket, Frame, baseline, subscribe, unsubscribe, closed_socket, send, set_subscription_snapshot,
  connect, disconnect,
}
use prediction_market_arbitr.Quotes.Socket
use prediction_market_arbitr.Runner.Rollover.{PolymarketWsQuote}
use prediction_market_arbitr.Runner.State.{Side}

pub record FixedFeed (W : Type 0) : Type 0 where
  pub running : Bool
  pub token_id : String
  pub quote_event_slug : String
  pub quote_market_bucket_epoch : ℤ
  pub quote_outcome : Side
  pub have_last_emitted_quote : Bool
  pub last_emitted_bid : W
  pub last_emitted_ask : W
  pub socket : Socket

-- The new state and the quotes that `on_quote_` is called with. `none` is an exception that leaves the
-- handler.
abbrev pub Handled : Type 0 → Type 0
Handled W = Option (FixedFeed W × List (PolymarketWsQuote W))

abbrev pub subscribe_to : String → Socket → Socket
subscribe_to token s = send (subscribe (token ∷ [])) (set_subscription_snapshot (token ∷ []) s)

module _ {W : Type 0} where
  abbrev pub forget_quote : FixedFeed W → FixedFeed W
  forget_quote s = record s { have_last_emitted_quote = false }

  unfoldable pub set_market_context : String → ℤ → Side → FixedFeed W → FixedFeed W
  set_market_context slug epoch outcome s = record s {
    quote_event_slug = slug;
    quote_market_bucket_epoch = epoch;
    quote_outcome = outcome;
  }

  -- `start`, with its result.
  unfoldable pub start : String → FixedFeed W → FixedFeed W × Bool
  start token s = if s.running then (s, false) else if is_empty token then (s, false) else (
    record s {
      running = true;
      token_id = token;
      socket = Socket.start (set_subscription_snapshot (token ∷ []) s.socket);
    },
    true,
  )

  unfoldable pub stop : FixedFeed W → FixedFeed W
  stop s = if not s.running then s else record s {
    running = false;
    token_id = "";
    have_last_emitted_quote = false;
    socket = Socket.stop s.socket;
  }

  -- The socket connects, and `on_ws_open` runs.
  unfoldable pub opened : FixedFeed W → FixedFeed W
  opened s = record (forget_quote s) { socket = connect s.socket }

  unfoldable pub dropped : FixedFeed W → FixedFeed W
  dropped s = record s { socket = disconnect s.socket }

  -- The four actions of `switch_token` as one. The code holds no lock across them, so that a connection
  -- may open in between; Quotes/Switching runs them one by one.
  unfoldable pub switch_token : String → FixedFeed W → FixedFeed W × Bool
  switch_token token s =
      let left : Socket =
        (if is_empty s.token_id then s.socket else send (unsubscribe (s.token_id ∷ [])) s.socket) in
      if not s.running
      then (s, false)
      else if is_empty token
      then (s, false)
      else if same token s.token_id
      then (s, true)
      else (record (forget_quote s) { token_id = token; socket = subscribe_to token left }, true)

module _ {W : Type 0} where
  -- Only a message on the present token is handled.
  abbrev pub for_token : FixedFeed W → Option String → (String → Handled W) → Handled W
  for_token s none f = none
  for_token s (some aid) f = if not (same aid s.token_id) then some (s, []) else f aid

  -- The quotes of one handler, then those of the next.
  abbrev pub joined : List (PolymarketWsQuote W) → Handled W → Handled W
  joined quotes none = none
  joined quotes (some (s, more)) = some (s, quotes ++ more)

  abbrev pub then_handle : Handled W → (FixedFeed W → Handled W) → Handled W
  then_handle none f = none
  then_handle (some (s, quotes)) f = joined quotes (f s)

module _ {W : Type 0} ⦃d : Double W⦄ where
  abbrev pub quote_of : FixedFeed W → W → W → PolymarketWsQuote W
  quote_of s bid ask = record {
    token_id = s.token_id;
    event_slug = s.quote_event_slug;
    market_bucket_epoch = s.quote_market_bucket_epoch;
    outcome = s.quote_outcome;
    best_bid = bid;
    best_ask = ask;
  }

  -- The quote equals the one that was last emitted.
  abbrev pub repeats : FixedFeed W → W → W → Bool
  repeats s bid ask =
      s.have_last_emitted_quote && feq bid s.last_emitted_bid && feq ask s.last_emitted_ask

  -- The first part of `emit_quote` under the lock: the quote to deliver.
  unfoldable pub prepare_quote :
      (asset_id : String) (bid ask : W) → FixedFeed W → Option (PolymarketWsQuote W)
  prepare_quote asset_id bid ask s =
      if not (same asset_id s.token_id)
      then none
      else if is_nan bid || is_nan ask
      then none
      else if repeats s bid ask
      then none
      else some (quote_of s bid ask)

  -- Its last part, after `on_quote_` has returned.
  unfoldable pub record_emitted : (asset_id : String) (bid ask : W) → FixedFeed W → FixedFeed W
  record_emitted asset_id bid ask s = if not (same asset_id s.token_id) then s else record s {
    last_emitted_bid = bid;
    last_emitted_ask = ask;
    have_last_emitted_quote = true;
  }

  abbrev pub delivered :
      (asset_id : String) (bid ask : W)
      → FixedFeed W
      → Option (PolymarketWsQuote W)
      → FixedFeed W × List (PolymarketWsQuote W)
  delivered asset_id bid ask s none = (s, [])
  delivered asset_id bid ask s (some q) = (record_emitted asset_id bid ask s, q ∷ [])

  unfoldable pub emit_quote :
      (asset_id : String) (bid ask : W) → FixedFeed W → FixedFeed W × List (PolymarketWsQuote W)
  emit_quote asset_id bid ask s = delivered asset_id bid ask s (prepare_quote asset_id bid ask s)

  -- What a handler does with the quote of a message, `otherwise` where it has none.
  abbrev pub emit_some : String → Handled W → FixedFeed W → Option (W × W) → Handled W
  emit_some aid otherwise s none = otherwise
  emit_some aid otherwise s (some (bid, ask)) = some (emit_quote aid bid ask s)

module _ {W J : Type 0} ⦃d : Double W⦄ (json : Json W J) where
  open json use {contains, at, is_object, parse}

  -- `best_bid` and `best_ask` of a message; `at` throws where one is missing.
  abbrev pub best_fields : J → Option (W × W)
  best_fields j =
      if contains j "best_bid" && contains j "best_ask"
      then some (json_to_double json (at j "best_bid"), json_to_double json (at j "best_ask"))
      else none

  unfoldable pub on_best_bid_ask : J → FixedFeed W → Handled W
  on_best_bid_ask j s =
      for_token s (value_string json j "asset_id" "") (λ aid. emit_some aid none s (best_fields j))

  unfoldable pub on_book : J → FixedFeed W → Handled W
  on_book j s =
      for_token s (value_string json j "asset_id" "")
        (λ aid. emit_some aid (some (s, [])) s (parse_top_of_book_from_book json j))

  -- One element of `price_changes`.
  unfoldable pub on_change : J → FixedFeed W → Handled W
  on_change ch s =
      if not (is_object ch)
      then some (s, [])
      else for_token s (value_string json ch "asset_id" "")
          (λ aid. emit_some aid (some (s, [])) s (best_fields ch))

  unfoldable pub on_changes : List J → FixedFeed W → Handled W
  on_changes [] s = some (s, [])
  on_changes (ch ∷ chs) s = then_handle (on_change ch s) (on_changes chs)

  abbrev pub on_array : FixedFeed W → Option (List J) → Handled W
  on_array s none = some (s, [])
  on_array s (some chs) = on_changes chs s

  -- What is done with a message of each type.
  unfoldable pub on_typed : J → FixedFeed W → (event_type : String) → Handled W
  on_typed j s et =
      if same et "best_bid_ask"
      then on_best_bid_ask j s
      else if same et "book"
      then on_book j s
      else if same et "price_change"
      then on_array s (array_field json j "price_changes")
      else some (s, [])

  abbrev pub on_type : J → FixedFeed W → Option String → Handled W
  on_type j s none = none
  on_type j s (some et) = on_typed j s et

  abbrev pub on_parsed : FixedFeed W → Option J → Handled W
  on_parsed s none = some (s, [])
  on_parsed s (some j) =
      if not (is_object j) then some (s, []) else on_type j s (value_string json j "event_type" "")

  unfoldable pub on_ws_message_inner : String → FixedFeed W → Handled W
  on_ws_message_inner text s = on_parsed s (parse text)
