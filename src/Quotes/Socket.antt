-- ===== src/Quotes/Socket.antt =====
-- src/polymarket/ws_market_client.cpp: `MarketWsClient`, over a WebSocket library that connects again
-- by itself. A frame that is sent while the socket is not connected is lost.
use prediction_market_arbitr.Base.{
  String, Bool, true, false, not, if◌then◌else◌, List, [], ◌∷◌, same,
}

-- The texts that the client sends, but for `PING`.
pub data Frame : Type 0 where
  -- the subscription that opens a connection
  baseline : List String → Frame
  subscribe unsubscribe : List String → Frame

-- `sent` holds the frames of the present connection, the newest first.
pub record Socket : Type 0 where
  pub running : Bool
  pub connected : Bool
  pub snapshot_ids : List String
  pub sent : List Frame

abbrev pub closed_socket : Socket
closed_socket = record { running = false; connected = false; snapshot_ids = []; sent = [] }

-- `send_json`, and `sendText` of the library.
unfoldable pub send : Frame → Socket → Socket
send f s = if s.connected then record s { sent = f ∷ s.sent } else s

unfoldable pub set_subscription_snapshot : List String → Socket → Socket
set_subscription_snapshot ids s = record s { snapshot_ids = ids }

unfoldable pub send_snapshot_subscribe_if_any : Socket → Socket
unfolding send
send_snapshot_subscribe_if_any s = elim s.snapshot_ids [
  | [] ↦ s
  | id ∷ ids ↦ send (baseline (id ∷ ids)) s
]

-- The library reports a new connection, or the end of one.
unfoldable pub connect : Socket → Socket
connect s = send_snapshot_subscribe_if_any (record s { connected = true; sent = [] })

unfoldable pub disconnect : Socket → Socket
disconnect s = record s { connected = false; sent = [] }

-- `start`: the library connects later. It does not fail.
unfoldable pub start : Socket → Socket
start s = if s.running then s else record s { running = true }

unfoldable pub stop : Socket → Socket
stop s = if not s.running then s else record s { running = false; connected = false; sent = [] }

abbrev pub add_id : String → List String → List String
add_id id [] = id ∷ []
add_id id (x ∷ xs) = if same id x then x ∷ xs else x ∷ add_id id xs

abbrev pub remove_id : String → List String → List String
remove_id id [] = []
remove_id id (x ∷ xs) = if same id x then remove_id id xs else x ∷ remove_id id xs

abbrev pub add_ids : List String → List String → List String
add_ids [] subs = subs
add_ids (id ∷ ids) subs = add_ids ids (add_id id subs)

abbrev pub remove_ids : List String → List String → List String
remove_ids [] subs = subs
remove_ids (id ∷ ids) subs = remove_ids ids (remove_id id subs)

-- What the market channel is subscribed to after these frames, as its API documents it.
unfoldable pub subscribed : List Frame → List String
subscribed [] = []
subscribed (baseline ids ∷ older) = add_ids ids (subscribed older)
subscribed (subscribe ids ∷ older) = add_ids ids (subscribed older)
subscribed (unsubscribe ids ∷ older) = remove_ids ids (subscribed older)
