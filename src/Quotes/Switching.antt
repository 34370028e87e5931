-- ===== src/Quotes/Switching.antt =====
-- src/polymarket/ws_fixed_token_feed.cpp: `switch_token` action by action, with what the thread of the
-- socket does in between.
use prediction_market_arbitr.Base.{
  ℤ, String, Bool, true, false, ◌≡◌, if◌then◌else◌, List, [], ◌∷◌, some, same, is_empty, arith,
}
use prediction_market_arbitr.Double.{Double}
use prediction_market_arbitr.Json.{Json}
use prediction_market_arbitr.Quotes.Fixed.{
  FixedFeed, set_market_context, start, stop, opened, dropped, switch_token, forget_quote,
  on_ws_message_inner,
}
use prediction_market_arbitr.Quotes.Socket.{subscribe, unsubscribe, send, set_subscription_snapshot}
use prediction_market_arbitr.Runner.Rollover.{PolymarketWsQuote}
use prediction_market_arbitr.Runner.State.{Side}

-- Where the calling thread is: in no call of `switch_token`, or in one for this token, after its
-- unsubscription, after `token_id_` is set, or after the snapshot is set.
pub data Call : Type 0 where
  no_call : Call
  left named aimed : String → Call

-- The feed, with the call, and whether the present connection opened inside a call, between the
-- unsubscription and the snapshot.
pub record Calling (W : Type 0) : Type 0 where
  pub feed : FixedFeed W
  pub call : Call
  pub overlapped : Bool

-- A connection that opens now subscribes to a snapshot that the call is going to replace.
abbrev pub replaces : Call → Bool
replaces (left token) = true
replaces (named token) = true
replaces _ = false

module _ {W : Type 0} where
  -- `ws_.send_json(un)`
  unfoldable pub leave_token : FixedFeed W → FixedFeed W
  leave_token s = record s {
    socket =
        (if is_empty s.token_id then s.socket else send (unsubscribe (s.token_id ∷ [])) s.socket);
  }

  -- `token_id_ = new_token_id`, with the last quote forgotten
  unfoldable pub name_token : String → FixedFeed W → FixedFeed W
  name_token token s = record (forget_quote s) { token_id = token }

  -- `ws_.set_subscription_snapshot({new_token_id})`
  unfoldable pub aim_snapshot : String → FixedFeed W → FixedFeed W
  aim_snapshot token s = record s { socket = set_subscription_snapshot (token ∷ []) s.socket }

  -- `ws_.send_json(sub)`
  unfoldable pub ask_token : String → FixedFeed W → FixedFeed W
  ask_token token s = record s { socket = send (subscribe (token ∷ [])) s.socket }

  -- The four actions one after the other are `switch_token`.
  switch_token-eq :
      (token : String) (s : FixedFeed W)
      → s.running ≡ true
      → is_empty token ≡ false
      → same token s.token_id ≡ false
      → (switch_token token s).0
        ≡ ask_token token (aim_snapshot token (name_token token (leave_token s)))
  unfolding switch_token leave_token name_token aim_snapshot ask_token
  switch_token-eq token s r n d = ground (arith, r, n, d)

module _ {W J : Type 0} ⦃d : Double W⦄ (json : Json W J) where
  pub data Step (c : Calling W) : Calling W → Type 0 where
    -- the calling thread, outside `switch_token`
    given :
        (slug : String) (epoch : ℤ) (side : Side)
        → c.call ≡ no_call
        → Step c (record c { feed = set_market_context slug epoch side c.feed })
    started :
        (token : String) → c.call ≡ no_call → Step c (record c { feed = (start token c.feed).0 })
    stopped : c.call ≡ no_call → Step c (record c { feed = stop c.feed })
    -- inside it; a call that is refused, or for the present token, does nothing
    leaves :
        (token : String)
        → c.call ≡ no_call
        → c.feed.running ≡ true
        → is_empty token ≡ false
        → same token c.feed.token_id ≡ false
        → Step c (record c { feed = leave_token c.feed; call = left token })
    names :
        (token : String)
        → c.call ≡ left token
        → Step c (record c { feed = name_token token c.feed; call = named token })
    aims :
        (token : String)
        → c.call ≡ named token
        → Step c (record c { feed = aim_snapshot token c.feed; call = aimed token })
    asks :
        (token : String)
        → c.call ≡ aimed token
        → Step c (record c { feed = ask_token token c.feed; call = no_call })
    -- the thread of the socket, at any time
    connects :
        c.feed.socket.running ≡ true
        → Step c (record c { feed = opened c.feed; overlapped = replaces c.call })
    drops : Step c (record c { feed = dropped c.feed; overlapped = false })
    received :
        (text : String) (s : FixedFeed W) (qs : List (PolymarketWsQuote W))
        → on_ws_message_inner json text c.feed ≡ some (s, qs)
        → Step c (record c { feed = s })

  pub data Run (c : Calling W) : Calling W → Type 0 where
    at_first : Run c c
    and_then : {t u : Calling W} → Run c t → Step t u → Run c u
