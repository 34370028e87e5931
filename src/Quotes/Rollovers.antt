-- ===== src/Quotes/Rollovers.antt =====
-- src/polymarket/poly_ws_quote_feed.cpp: what the feed is subscribed to while it moves to new markets.
use mathlib.Core.Path.{subst}
use prediction_market_arbitr.Base.{
  ℕ, String, true, false, not, ◌≡◌, refl, ◌∙◌, if_intro, ◌&&◌, ◌||◌, List, [], ◌∷◌, Option, none,
  some, same, is_empty,
}
use prediction_market_arbitr.Double.{Double, is_nan}
use prediction_market_arbitr.Json.{Json, array_field, value_string}
use prediction_market_arbitr.Quotes.Book.{parse_top_of_book_from_book}
use prediction_market_arbitr.Quotes.Following.{Follows}
use prediction_market_arbitr.Quotes.Rolling.{
  PolymarketMarketRef, RollingFeed, Output, Handled, guard_active_quote_asset, condition_same,
  start, stop, opened, dropped, try_hydrate_from_message, parse_ts_ms, new_market_matches_family,
  market_ref_from_new_market, moved, in_family, maybe_handle_new_market,
}
use prediction_market_arbitr.Quotes.Ticks.{
  dedup_key, joined, then_handle, for_token, emit_quote, emit_some, best_fields, timestamp_or,
  on_best_bid_ask, on_book, on_change, on_changes, on_array, on_typed, on_type, on_parsed,
  on_ws_message,
}
use prediction_market_arbitr.Quotes.Moves.{
  Steady, idle, following, switch_to_market-Steady, start-Steady, stop-Steady, opened-Steady,
  dropped-Steady, with_condition, with_dedup,
}

module _ {W : Type 0} where
  abbrev Kept : Handled W → Type 0
  Kept none = Unit
  Kept (some (s, out)) = Steady s

  joined-Kept : (out : List (Output W)) (h : Handled W) → Kept h → Kept (joined out h)
  joined-Kept out none k = tt
  joined-Kept out (some (s, more)) k = k

  then_handle-Kept :
      (h : Handled W) (f : RollingFeed → Handled W)
      → Kept h
      → ((s : RollingFeed) → Steady s → Kept (f s))
      → Kept (then_handle h f)
  then_handle-Kept none f h k = tt
  then_handle-Kept (some (s, out)) f h k = joined-Kept out (f s) (k s h)

  for_token-Kept :
      (s : RollingFeed) (o : Option String) (f : String → Handled W)
      → Steady s
      → ((aid : String) → Kept (f aid))
      → Kept (for_token s o f)
  for_token-Kept s none f h k = tt
  for_token-Kept s (some aid) f h k =
      if_intro Kept (not (guard_active_quote_asset aid s)) _ _ (λ e. h) (λ e. k aid)

module _ {W J : Type 0} ⦃d : Double W⦄ (json : Json W J) where
  hydrate-Steady : (j : J) (s : RollingFeed) → Steady s → Steady (try_hydrate_from_message json j s)
  unfolding try_hydrate_from_message
  hydrate-Steady j s h =
      if_intro Steady (not (is_empty s.active.condition_id)) _ _ (λ e. h)
        (λ e.
          if_intro Steady
            (not (json.contains j "asset_id" && json.is_string (json.at j "asset_id"))) _ _
            (λ e1. h)
            (λ e1.
              if_intro Steady
                (not (same (json.get_string (json.at j "asset_id")) s.active_up_token)) _ _
                (λ e2. h)
                (λ e2.
                  if_intro Steady
                    (not (json.contains j "market" && json.is_string (json.at j "market"))) _ _
                    (λ e3. h) (λ e3. with_condition s (json.get_string (json.at j "market")) h))))

  hydrate_socket :
      (j : J) (s : RollingFeed)
      → (try_hydrate_from_message json j s).socket.connected ≡ s.socket.connected
  unfolding try_hydrate_from_message
  hydrate_socket j s =
      let P = λ (t : RollingFeed). t.socket.connected ≡ s.socket.connected in
      if_intro P (not (is_empty s.active.condition_id)) _ _ (λ e. refl)
        (λ e.
          if_intro P (not (json.contains j "asset_id" && json.is_string (json.at j "asset_id"))) _ _
            (λ e1. refl)
            (λ e1.
              if_intro P (not (same (json.get_string (json.at j "asset_id")) s.active_up_token)) _ _
                (λ e2. refl)
                (λ e2.
                  if_intro P (not (json.contains j "market" && json.is_string (json.at j "market")))
                    _ _ (λ e3. refl) (λ e3. refl))))

  moved-Kept :
      (ts now_ms : ℕ) (s : RollingFeed) (o : Option PolymarketMarketRef)
      → s.running ≡ true
      → is_empty s.active_up_token ≡ false
      → Follows s.active_up_token s.socket
      → Steady s
      → Kept (moved json ts now_ms s o)
  moved-Kept ts now_ms s none r n f h = tt
  moved-Kept ts now_ms s (some next) r n f h =
      if_intro (Kept {W = W}) (is_empty next.up_token_id) _ _ (λ e. h)
        (λ e.
          if_intro (Kept {W = W})
            (not (is_empty s.active.condition_id)
              && not (is_empty next.condition_id)
              && condition_same s.active.condition_id next.condition_id)
            _ _ (λ k. h) (λ k. switch_to_market-Steady next ts now_ms s r n e f))

  in_family-Kept :
      (prefix : String) (now_ms : ℕ) (j : J) (s : RollingFeed) (o : Option String)
      → s.socket.connected ≡ true
      → Steady s
      → Kept (in_family json prefix now_ms j s o)
  in_family-Kept prefix now_ms j s none c h = tt
  in_family-Kept prefix now_ms j s (some slug) c (idle r n) = cc
  in_family-Kept prefix now_ms j s (some slug) c (following r k a f) =
      if_intro (Kept {W = W}) (not (new_market_matches_family json prefix slug j)) _ _
        (λ e. following r k a f)
        (λ e.
          moved-Kept (parse_ts_ms json j) now_ms s (market_ref_from_new_market json j) r k f
            (following r k a f))

  module _ (show : W → String) where
    emit_quote-Steady :
        (aid : String) (bid ask : W) (ts : String) (s : RollingFeed)
        → Steady s
        → Steady (emit_quote show aid bid ask ts s).0
    unfolding emit_quote
    emit_quote-Steady aid bid ask ts s h =
        if_intro (λ (p : RollingFeed × List (Output W)). Steady p.0)
          (not (guard_active_quote_asset aid s)) _ _ (λ e. h)
          (λ e.
            if_intro (λ (p : RollingFeed × List (Output W)). Steady p.0) (is_nan bid || is_nan ask)
              _ _ (λ e1. h)
              (λ e1.
                if_intro (λ (p : RollingFeed × List (Output W)). Steady p.0)
                  (same (dedup_key show aid bid ask ts) s.last_quote_dedup) _ _ (λ e2. h)
                  (λ e2. with_dedup s (dedup_key show aid bid ask ts) h)))

    emit_some-Kept :
        (aid ts : String) (otherwise : Handled W) (s : RollingFeed) (o : Option (W × W))
        → Steady s
        → Kept otherwise
        → Kept (emit_some show aid ts otherwise s o)
    emit_some-Kept aid ts otherwise s none h k = k
    emit_some-Kept aid ts otherwise s (some (bid, ask)) h k = emit_quote-Steady aid bid ask ts s h

    on_change-Kept :
        (ts : String) (ch : J) (s : RollingFeed) → Steady s → Kept (on_change json show ts ch s)
    unfolding on_change
    on_change-Kept ts ch s h =
        if_intro (Kept {W = W}) (not (json.is_object ch)) _ _ (λ e. h)
          (λ e.
            for_token-Kept s (value_string json ch "asset_id" "") _ h
              (λ aid. emit_some-Kept aid _ (some (s, [])) s (best_fields json show ch) h h))

    on_changes-Kept :
        (ts : String) (chs : List J) (s : RollingFeed)
        → Steady s
        → Kept (on_changes json show ts chs s)
    unfolding on_changes
    on_changes-Kept ts [] s h = h
    on_changes-Kept ts (ch ∷ chs) s h =
        then_handle-Kept (on_change json show ts ch s) _ (on_change-Kept ts ch s h)
          (on_changes-Kept ts chs)

    on_array-Kept :
        (ts : String) (s : RollingFeed) (o : Option (List J))
        → Steady s
        → Kept (on_array json show ts s o)
    on_array-Kept ts s none h = h
    on_array-Kept ts s (some chs) h = on_changes-Kept ts chs s h

    on_typed-Kept :
        (prefix : String) (now_ms : ℕ) (j : J) (s : RollingFeed) (et : String)
        → s.socket.connected ≡ true
        → Steady s
        → Kept (on_typed json show prefix now_ms j s et)
    unfolding on_typed on_best_bid_ask on_book maybe_handle_new_market
    on_typed-Kept prefix now_ms j s et c h =
        if_intro (Kept {W = W}) (same et "new_market") _ _
          (λ e. in_family-Kept prefix now_ms j s (value_string json j "slug" "") c h)
          (λ e.
            if_intro (Kept {W = W}) (is_empty s.active_up_token) _ _ (λ e1. h)
              (λ e1.
                if_intro (Kept {W = W}) (same et "best_bid_ask") _ _
                  (λ k.
                    for_token-Kept s (value_string json j "asset_id" "") _ h
                      (λ aid. emit_some-Kept aid _ none s (best_fields json show j) h tt))
                  (λ k.
                    if_intro (Kept {W = W}) (same et "book") _ _
                      (λ k1. for_token-Kept s (value_string json j "asset_id" "") _ h (λ aid.
                        emit_some-Kept aid _ (some (s, [])) s (parse_top_of_book_from_book json j) h
                          h))
                      (λ k1.
                        if_intro (Kept {W = W}) (same et "price_change") _ _
                          (λ k2.
                            on_array-Kept (timestamp_or json show j "") s
                              (array_field json j "price_changes") h)
                          (λ k2. h)))))

    on_type-Kept :
        (prefix : String) (now_ms : ℕ) (j : J) (s : RollingFeed) (o : Option String)
        → s.socket.connected ≡ true
        → Steady s
        → Kept (on_type json show prefix now_ms j s o)
    on_type-Kept prefix now_ms j s none c h = tt
    on_type-Kept prefix now_ms j s (some et) c h = on_typed-Kept prefix now_ms j s et c h

    on_parsed-Kept :
        (prefix : String) (now_ms : ℕ) (s : RollingFeed) (o : Option J)
        → s.socket.connected ≡ true
        → Steady s
        → Kept (on_parsed json show prefix now_ms s o)
    on_parsed-Kept prefix now_ms s none c h = h
    on_parsed-Kept prefix now_ms s (some j) c h =
        if_intro (Kept {W = W}) (not (json.is_object j)) _ _ (λ e. h)
          (λ e.
            on_type-Kept prefix now_ms j (try_hydrate_from_message json j s)
              (value_string json j "event_type" "") (hydrate_socket j s ∙ c) (hydrate-Steady j s h))

    -- What happens to the feed. A message arrives on a connection only.
    pub data Step (prefix : String) (s : RollingFeed) : RollingFeed → Type 0 where
      started :
          (boot : PolymarketMarketRef) (now_ms : ℕ)
          → is_empty boot.up_token_id ≡ false
          → Step prefix s (start (some boot) now_ms s).0
      stopped : Step prefix s (stop s)
      connects : s.running ≡ true → Step prefix s (opened s)
      drops : Step prefix s (dropped s)
      received :
          (now_ms : ℕ) (text : String) (s' : RollingFeed) (out : List (Output W))
          → s.socket.connected ≡ true
          → on_ws_message json show prefix now_ms text s ≡ some (s', out)
          → Step prefix s s'

    pub data Run (prefix : String) (s : RollingFeed) : RollingFeed → Type 0 where
      at_first : Run prefix s s
      and_then : (t u : RollingFeed) → Run prefix s t → Step prefix t u → Run prefix s u

    step-Steady : (prefix : String) (s u : RollingFeed) → Steady s → Step prefix s u → Steady u
    unfolding on_ws_message
    step-Steady prefix s u h (started boot now_ms n) = start-Steady boot now_ms s n h
    step-Steady prefix s u h stopped = stop-Steady s h
    step-Steady prefix s u h (connects r) = opened-Steady s r h
    step-Steady prefix s u h drops = dropped-Steady s h
    step-Steady prefix s u h (received now_ms text s' out c e) =
        subst (Kept {W = W}) e (on_parsed-Kept prefix now_ms s (json.parse text) c h)

    -- Over any history of starts, stops, connections and messages, with any moves to new markets, a feed
    -- that runs has the `Up` token of its market as its only subscription, on the present connection and
    -- on the next one.
    pub follows_one_market :
        (prefix : String) (s u : RollingFeed) → Steady s → Run prefix s u → Steady u
    follows_one_market prefix s u h at_first = h
    follows_one_market prefix s u h (and_then t u' r k) =
        step-Steady prefix t u' (follows_one_market prefix s t h r) k
