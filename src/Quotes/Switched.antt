-- ===== src/Quotes/Switched.antt =====
-- src/polymarket/ws_fixed_token_feed.cpp: what the feed is subscribed to, with connections that open
-- and end inside the calls of `switch_token`.
use mathlib.Core.Path.{subst}
use prediction_market_arbitr.Base.{
  String, Bool, false, ◌≡◌, refl, not, ◌∙◌, sym, if_intro, List, some, arith,
}
use prediction_market_arbitr.Double.{Double}
use prediction_market_arbitr.Json.{Json}
use prediction_market_arbitr.Quotes.Fixed.{
  FixedFeed, Handled, set_market_context, start, stop, dropped, on_ws_message_inner,
}
use prediction_market_arbitr.Quotes.Following.{socket_stops, socket_closes}
use prediction_market_arbitr.Quotes.Relays.{on_ws_message_inner-Relayed, Relays, Relayed}
use prediction_market_arbitr.Quotes.Socket
use prediction_market_arbitr.Quotes.Socket.{
  Socket, Frame, subscribe, unsubscribe, send, set_subscription_snapshot, connect, disconnect,
  subscribed, send_snapshot_subscribe_if_any, add_id,
}
use prediction_market_arbitr.Runner.Rollover.{PolymarketWsQuote}
use prediction_market_arbitr.Quotes.Switching.{
  Call, no_call, Calling, Step, Run, given, started, stopped, leaves, names, aims, asks, connects,
  drops, received, at_first, and_then,
}
use prediction_market_arbitr.Quotes.Subscriptions.{
  Follows, Steady, idle, following, leaves-Follows, names-Follows, aims-Follows, asks-Follows,
  opened-Follows, dropped-Follows, started-Follows,
}

module _ {W : Type 0} where
  stopped-Steady : (s : FixedFeed W) (o : Bool) → Follows s no_call o → Steady (stop s) no_call o
  unfolding stop Socket.stop
  stopped-Steady s o h =
      if_intro (λ (t : FixedFeed W). Steady t no_call o) (not s.running) _ _ (λ _. following h)
        λ _.
          idle refl refl (socket_stops s.socket h.socket_runs)
            (socket_closes s.socket h.socket_runs)

  stop_idle :
      (s : FixedFeed W) (o : Bool)
      → s.running ≡ false
      → Steady s no_call o
      → Steady (stop s) no_call o
  unfolding stop
  stop_idle s o r h =
      if_intro (λ (t : FixedFeed W). Steady t no_call o) (not s.running) _ _ (λ _. h)
        (λ x. absurd (ground (arith, x, r)))

  start_again :
      (s : FixedFeed W) (o : Bool) (token : String)
      → Follows s no_call o
      → Steady (start token s).0 no_call o
  unfolding start
  start_again s o token h =
      if_intro (λ (p : FixedFeed W × Bool). Steady p.0 no_call o) s.running _ _ (λ _. following h)
        (λ x. absurd (ground (arith, x, h.running)))

  no_call-Follows :
      (s : FixedFeed W) (call : Call) (o : Bool)
      → call ≡ no_call
      → Follows s call o
      → Follows s no_call o
  no_call-Follows s call o e h = subst (λ k. Follows s k o) e h

module _ {W J : Type 0} ⦃d : Double W⦄ (json : Json W J) where
  of_handled :
      (s s' : FixedFeed W) (qs : List (PolymarketWsQuote W)) (h : Handled W)
      → Relayed s h
      → h ≡ some (s', qs)
      → Relays s s' qs
  of_handled s s' qs h r e = subst (Relayed s) e r

  step-Steady :
      (c u : Calling W)
      → Steady c.feed c.call c.overlapped
      → Step json c u
      → Steady u.feed u.call u.overlapped
  unfolding set_market_context dropped disconnect
  step-Steady c u (idle n a b k) (given slug epoch side e) = idle n a b k
  step-Steady c u (idle n a b k) (started token e) =
      subst (λ x. Steady (start token c.feed).0 x c.overlapped) (sym e)
        (started-Follows c.feed c.overlapped token b k a)
  step-Steady c u (idle n a b k) (stopped e) =
      subst (λ x. Steady (stop c.feed) x c.overlapped) (sym e)
        (stop_idle c.feed c.overlapped a (idle refl a b k))
  step-Steady c u (idle n a b k) (leaves token e r m o) = cc
  step-Steady c u (idle n a b k) (names token e) = absurd (cc)
  step-Steady c u (idle n a b k) (aims token e) = absurd (cc)
  step-Steady c u (idle n a b k) (asks token e) = absurd (cc)
  step-Steady c u (idle n a b k) (connects r) = cc
  step-Steady c u (idle n a b k) drops = idle n a b refl
  step-Steady c u (idle n a b k) (received text s qs e) =
      let r =
        of_handled c.feed s qs (on_ws_message_inner json text c.feed)
          (on_ws_message_inner-Relayed json text c.feed) e in
      idle n (r.running ∙ a) (rw (r.socket) b) (rw (r.socket) k)
  step-Steady c u (following h) (given slug epoch side e) = following (record {
    running = h.running;
    socket_runs = h.socket_runs;
    token = h.token;
    target = h.target;
    snapshot = h.snapshot;
    live = h.live;
  })
  step-Steady c u (following h) (started token e) =
      subst (λ x. Steady (start token c.feed).0 x c.overlapped) (sym e)
        (start_again c.feed c.overlapped token (no_call-Follows c.feed c.call c.overlapped e h))
  step-Steady c u (following h) (stopped e) =
      subst (λ x. Steady (stop c.feed) x c.overlapped) (sym e)
        (stopped-Steady c.feed c.overlapped (no_call-Follows c.feed c.call c.overlapped e h))
  step-Steady c u (following h) (leaves token e r m o) =
      following (
        leaves-Follows token c.feed c.overlapped m (no_call-Follows c.feed c.call c.overlapped e h))
  step-Steady c u (following h) (names token e) =
      following
        (names-Follows token c.feed c.overlapped (subst (λ k. Follows c.feed k c.overlapped) e h))
  step-Steady c u (following h) (aims token e) =
      following
        (aims-Follows token c.feed c.overlapped (subst (λ k. Follows c.feed k c.overlapped) e h))
  step-Steady c u (following h) (asks token e) =
      following
        (asks-Follows token c.feed c.overlapped (subst (λ k. Follows c.feed k c.overlapped) e h))
  step-Steady c u (following h) (connects r) =
      following (opened-Follows c.feed c.call c.overlapped h)
  step-Steady c u (following h) drops = following (dropped-Follows c.feed c.call c.overlapped h)
  step-Steady c u (following h) (received text s qs e) =
      let r =
        of_handled c.feed s qs (on_ws_message_inner json text c.feed)
          (on_ws_message_inner-Relayed json text c.feed) e in
      following (record {
        running = r.running ∙ h.running;
        socket_runs = rw (r.socket) h.socket_runs;
        token = rw (r.token) h.token;
        target = h.target;
        snapshot = rw (r.token, r.socket) h.snapshot;
        live = rw (r.token, r.socket) h.live;
      })

  pub run_interleaved-Steady :
      (c u : Calling W)
      → Steady c.feed c.call c.overlapped
      → Run json c u
      → Steady u.feed u.call u.overlapped
  run_interleaved-Steady c u st at_first = st
  run_interleaved-Steady c u st (and_then r k) = step-Steady _ u (run_interleaved-Steady c _ st r) k
