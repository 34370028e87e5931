-- ===== src/Quotes/Following.antt =====
-- src/polymarket/ws_market_client.cpp: what a socket is subscribed to, as the feeds change it.
use prediction_market_arbitr.Base.{
  String, true, false, ◌≡◌, ◌≢◌, refl, ap, ◌⊎◌, inl, [], ◌∷◌, same_refl, is_empty, arith,
}
use prediction_market_arbitr.Quotes.Fixed.{subscribe_to}
use prediction_market_arbitr.Quotes.Socket
use prediction_market_arbitr.Quotes.Socket.{
  Socket, Frame, baseline, subscribe, unsubscribe, closed_socket, send, set_subscription_snapshot,
  send_snapshot_subscribe_if_any, connect, disconnect, subscribed,
}

-- The present connection, if there is one, is subscribed to this token and to no other, and so will be
-- the next one.
pub record Follows (token : String) (s : Socket) : Type 0 where
  pub running : s.running ≡ true
  pub snapshot : s.snapshot_ids ≡ token ∷ []
  pub live : (s.connected ≡ false) ⊎ (subscribed s.sent ≡ token ∷ [])

pub start-Follows :
    (token : String) (s : Socket)
    → s.connected ≡ false
    → Follows token (Socket.start (set_subscription_snapshot (token ∷ []) s))
unfolding Socket.start set_subscription_snapshot
start-Follows token s h = ground arith

pub connect-Follows : (token : String) (s : Socket) → Follows token s → Follows token (connect s)
unfolding connect send_snapshot_subscribe_if_any send subscribed
connect-Follows token s h = ground (arith, h.snapshot, h.running)

pub disconnected : (s : Socket) → (disconnect s).connected ≡ false
unfolding disconnect
disconnected s = refl

pub disconnect-Follows :
    (token : String) (s : Socket) → Follows token s → Follows token (disconnect s)
unfolding disconnect
disconnect-Follows token s h = record {
  running = h.running;
  snapshot = h.snapshot;
  live = inl refl;
}

pub subscribe_to-Follows :
    (old token : String) (s : Socket)
    → Follows old s
    → Follows token (subscribe_to token (send (unsubscribe (old ∷ [])) s))
unfolding send set_subscription_snapshot subscribed
subscribe_to-Follows old token s h = ground (arith, h.snapshot, h.running, h.live, same_refl old)

pub subscribe_again-Follows :
    (token : String) (s : Socket) → Follows token s → Follows token (subscribe_to token s)
unfolding send set_subscription_snapshot subscribed
subscribe_again-Follows token s h = ground (arith, h.snapshot, h.running, h.live, same_refl token)

pub not_empty : (t : String) → is_empty t ≡ false → t ≢ ""
not_empty String.[] h e = cc
not_empty (String.◌∷◌ c t) h e = cc (ap is_empty e)

pub empty : (t : String) → is_empty t ≡ true → t ≡ ""
empty String.[] h = refl
empty (String.◌∷◌ c t) h = cc

pub socket_stops : (s : Socket) → s.running ≡ true → (Socket.stop s).running ≡ false
unfolding Socket.stop
socket_stops s h = ground arith

pub socket_closes : (s : Socket) → s.running ≡ true → (Socket.stop s).connected ≡ false
unfolding Socket.stop
socket_closes s h = ground arith
