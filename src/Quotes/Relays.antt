-- ===== src/Quotes/Relays.antt =====
-- src/polymarket/ws_fixed_token_feed.cpp: the quotes that a message gives.
use prediction_market_arbitr.Base.{
  String, Bool, true, false, not, ◌≡◌, refl, ◌∙◌, ◌&&◌, if◌then◌else◌, if_intro, List, [], ◌∷◌,
  ◌++◌, ◌⊎◌, inl, inr, Option, none, some, All, All-append, same, arith,
}
use prediction_market_arbitr.Double.{Double, is_nan, feq}
use prediction_market_arbitr.Json.{Json, value_string, array_field}
use prediction_market_arbitr.Quotes.Book.{parse_top_of_book_from_book}
use prediction_market_arbitr.Quotes.Fixed.{
  FixedFeed, Handled, repeats, quote_of, prepare_quote, record_emitted, emit_quote, best_fields,
  emit_some, for_token, on_best_bid_ask, on_book, on_change, joined, then_handle, on_changes,
  on_array, on_typed, on_type, on_parsed, on_ws_message_inner,
}
use prediction_market_arbitr.Runner.Rollover.{PolymarketWsQuote}

module _ {W : Type 0} ⦃d : Double W⦄ where
  -- The quote is about the market that the feed follows, and has two prices.
  pub record IsQuoteOf (s : FixedFeed W) (q : PolymarketWsQuote W) : Type 0 where
    pub token : q.token_id ≡ s.token_id
    pub slug : q.event_slug ≡ s.quote_event_slug
    pub epoch : q.market_bucket_epoch ≡ s.quote_market_bucket_epoch
    pub outcome : q.outcome ≡ s.quote_outcome
    pub bid : is_nan q.best_bid ≡ false
    pub ask : is_nan q.best_ask ≡ false

  abbrev pub differs : Option (W × W) → PolymarketWsQuote W → Bool
  differs none q = true
  differs (some (bid, ask)) q = not (feq q.best_bid bid && feq q.best_ask ask)

  -- Each quote differs from the one before it, the first from `last`; `last'` is then the last one.
  abbrev pub Changes : Option (W × W) → List (PolymarketWsQuote W) → Option (W × W) → Type 0
  Changes last [] last' = last ≡ last'
  Changes last (q ∷ qs) last' =
      (differs last q ≡ true) × Changes (some (q.best_bid, q.best_ask)) qs last'

  -- The quote that the feed compares the next one with.
  abbrev pub last_quote : FixedFeed W → Option (W × W)
  last_quote s =
      if s.have_last_emitted_quote then some (s.last_emitted_bid, s.last_emitted_ask) else none

  -- What a message does to the feed, and the quotes that it gives.
  pub record Relays (s s' : FixedFeed W) (qs : List (PolymarketWsQuote W)) : Type 0 where
    pub running : s'.running ≡ s.running
    pub token : s'.token_id ≡ s.token_id
    pub slug : s'.quote_event_slug ≡ s.quote_event_slug
    pub epoch : s'.quote_market_bucket_epoch ≡ s.quote_market_bucket_epoch
    pub outcome : s'.quote_outcome ≡ s.quote_outcome
    pub socket : s'.socket ≡ s.socket
    pub quotes : All (IsQuoteOf s) qs
    pub changes : Changes (last_quote s) qs (last_quote s')

  abbrev pub Relayed : FixedFeed W → Handled W → Type 0
  Relayed s none = Unit
  Relayed s (some (s', qs)) = Relays s s' qs

  quiet : (s : FixedFeed W) → Relays s s []
  quiet s = record {
    running = refl;
    token = refl;
    slug = refl;
    epoch = refl;
    outcome = refl;
    socket = refl;
    quotes = tt;
    changes = refl;
  }

  Changes-append :
      (l : Option (W × W)) (qs : List (PolymarketWsQuote W)) (m : Option (W × W))
      (rs : List (PolymarketWsQuote W)) (n : Option (W × W))
      → Changes l qs m
      → Changes m rs n
      → Changes l (qs ++ rs) n
  Changes-append l [] m rs n e k = rw e k
  Changes-append l (q ∷ qs) m rs n (h, hs) k =
      (h, Changes-append (some (q.best_bid, q.best_ask)) qs m rs n hs k)

  All_same :
      (s s' : FixedFeed W) (a b : List (PolymarketWsQuote W))
      → Relays s s' a
      → All (IsQuoteOf s') b
      → All (IsQuoteOf s) b
  All_same s s' a [] r h = h
  All_same s s' a (q ∷ b) r (h, hs) = (
    record {
      token = h.token ∙ r.token;
      slug = h.slug ∙ r.slug;
      epoch = h.epoch ∙ r.epoch;
      outcome = h.outcome ∙ r.outcome;
      bid = h.bid;
      ask = h.ask;
    },
    All_same s s' a b r hs,
  )

  Relays-trans :
      (s t u : FixedFeed W) (a b : List (PolymarketWsQuote W))
      → Relays s t a
      → Relays t u b
      → Relays s u (a ++ b)
  Relays-trans s t u a b r r' = record {
    running = r'.running ∙ r.running;
    token = r'.token ∙ r.token;
    slug = r'.slug ∙ r.slug;
    epoch = r'.epoch ∙ r.epoch;
    outcome = r'.outcome ∙ r.outcome;
    socket = r'.socket ∙ r.socket;
    quotes = All-append (IsQuoteOf s) a b r.quotes (All_same s t a b r r'.quotes);
    changes = Changes-append (last_quote s) a (last_quote t) b (last_quote u) r.changes r'.changes;
  }

  prepare_quote-cases :
      (aid : String) (bid ask : W) (s : FixedFeed W)
      → (prepare_quote aid bid ask s ≡ none)
        ⊎ ((same aid s.token_id ≡ true)
            × (is_nan bid ≡ false)
            × (is_nan ask ≡ false)
            × (repeats s bid ask ≡ false)
            × (prepare_quote aid bid ask s ≡ some (quote_of s bid ask)))
  unfolding prepare_quote
  prepare_quote-cases aid bid ask s = ground arith

  differs_of_not-repeats :
      (bid ask : W) (s : FixedFeed W)
      → repeats s bid ask ≡ false
      → differs (last_quote s) (quote_of s bid ask) ≡ true
  differs_of_not-repeats bid ask s h = ground arith

  emit_quote-Relays :
      (aid : String) (bid ask : W) (s : FixedFeed W)
      → Relays s (emit_quote aid bid ask s).0 (emit_quote aid bid ask s).1
  unfolding emit_quote record_emitted
  emit_quote-Relays aid bid ask s = elim (prepare_quote-cases aid bid ask s) [
    | inl e ↦ rw (e, emit_quote) (quiet s)
    | inr (at, b, a, r, e) ↦
        rw (e, at, emit_quote, record_emitted)
          record {
            running = refl;
            token = refl;
            slug = refl;
            epoch = refl;
            outcome = refl;
            socket = refl;
            quotes = (
              record { token = refl; slug = refl; epoch = refl; outcome = refl; bid = b; ask = a },
              tt,
            );
            changes = (differs_of_not-repeats bid ask s r, refl);
          }
  ]

  then_step :
      (s t : FixedFeed W) (qs : List (PolymarketWsQuote W)) (h : Handled W)
      → Relays s t qs
      → Relayed t h
      → Relayed s (joined qs h)
  then_step s t qs none r k = tt
  then_step s t qs (some (u, more)) r k = Relays-trans s t u qs more r k

  then_handle-Relayed :
      (s : FixedFeed W) (h : Handled W) (f : FixedFeed W → Handled W)
      → Relayed s h
      → ((t : FixedFeed W) → Relayed t (f t))
      → Relayed s (then_handle h f)
  then_handle-Relayed s none f r k = tt
  then_handle-Relayed s (some (t, qs)) f r k = then_step s t qs (f t) r (k t)

  emit_some-Relayed :
      (aid : String) (otherwise : Handled W) (s : FixedFeed W) (o : Option (W × W))
      → Relayed s otherwise
      → Relayed s (emit_some aid otherwise s o)
  emit_some-Relayed aid otherwise s none h = h
  emit_some-Relayed aid otherwise s (some (bid, ask)) h = emit_quote-Relays aid bid ask s

  for_token-Relayed :
      (s : FixedFeed W) (o : Option String) (f : String → Handled W)
      → ((aid : String) → Relayed s (f aid))
      → Relayed s (for_token s o f)
  for_token-Relayed s none f h = tt
  for_token-Relayed s (some aid) f h =
      if_intro (Relayed s) (not (same aid s.token_id)) _ _ (λ e. quiet s) (λ e. h aid)

module _ {W J : Type 0} ⦃d : Double W⦄ (json : Json W J) where
  on_change-Relayed : (ch : J) (s : FixedFeed W) → Relayed s (on_change json ch s)
  unfolding on_change
  on_change-Relayed ch s =
      if_intro (Relayed s) (not (json.is_object ch)) _ _ (λ e. quiet s)
        (λ e.
          for_token-Relayed s (value_string json ch "asset_id" "") _
            (λ aid. emit_some-Relayed aid _ s (best_fields json ch) (quiet s)))

  on_changes-Relayed : (chs : List J) (s : FixedFeed W) → Relayed s (on_changes json chs s)
  unfolding on_changes
  on_changes-Relayed [] s = quiet s
  on_changes-Relayed (ch ∷ chs) s =
      then_handle-Relayed s (on_change json ch s) _ (on_change-Relayed ch s)
        (on_changes-Relayed chs)

  on_array-Relayed : (s : FixedFeed W) (o : Option (List J)) → Relayed s (on_array json s o)
  on_array-Relayed s none = quiet s
  on_array-Relayed s (some chs) = on_changes-Relayed chs s

  on_typed-Relayed : (j : J) (s : FixedFeed W) (et : String) → Relayed s (on_typed json j s et)
  unfolding on_typed on_best_bid_ask on_book
  on_typed-Relayed j s et =
      if_intro (Relayed s) (same et "best_bid_ask") _ _
        (λ e.
          for_token-Relayed s (value_string json j "asset_id" "") _
            (λ aid. emit_some-Relayed aid _ s (best_fields json j) tt))
        (λ e.
          if_intro (Relayed s) (same et "book") _ _
            (λ e'.
              for_token-Relayed s (value_string json j "asset_id" "") _
                (λ aid. emit_some-Relayed aid _ s (parse_top_of_book_from_book json j) (quiet s)))
            (λ e'.
              if_intro (Relayed s) (same et "price_change") _ _
                (λ e''. on_array-Relayed s (array_field json j "price_changes")) (λ e''. quiet s)))

  on_type-Relayed : (j : J) (s : FixedFeed W) (o : Option String) → Relayed s (on_type json j s o)
  on_type-Relayed j s none = tt
  on_type-Relayed j s (some et) = on_typed-Relayed j s et

  on_parsed-Relayed : (s : FixedFeed W) (o : Option J) → Relayed s (on_parsed json s o)
  on_parsed-Relayed s none = quiet s
  on_parsed-Relayed s (some j) =
      if_intro (Relayed s) (not (json.is_object j)) _ _ (λ e. quiet s)
        (λ e. on_type-Relayed j s (value_string json j "event_type" ""))

  -- The quotes of a message, if no exception leaves its handler: each is about the token and the market
  -- that the feed follows and has two prices that are not NaN, and each differs from the one before it,
  -- the first from the last one of earlier messages since the connection opened. The handler changes
  -- nothing of the feed but the last quote, which is then the last of these.
  pub on_ws_message_inner-Relayed :
      (text : String) (s : FixedFeed W) → Relayed s (on_ws_message_inner json text s)
  unfolding on_ws_message_inner
  on_ws_message_inner-Relayed text s = on_parsed-Relayed s (json.parse text)
