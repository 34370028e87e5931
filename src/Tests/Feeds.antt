-- ===== src/Tests/Feeds.antt =====
-- The feeds of quotes at concrete inputs.
use prediction_market_arbitr.Base.{pos, true, false, ◌≡◌, refl, [], ◌∷◌, some, same}
use prediction_market_arbitr.Quotes.Best.{IsTop, parse_top_of_book_from_book-IsTop}
use prediction_market_arbitr.Quotes.Book.{parse_top_of_book_from_book}
use prediction_market_arbitr.Quotes.Fixed.{FixedFeed, on_ws_message_inner, start, opened}
use prediction_market_arbitr.Quotes.Subscriptions.{Steady, idle}
use prediction_market_arbitr.Quotes.Switched.{run_interleaved-Steady}
use prediction_market_arbitr.Quotes.Switching.{
  Calling, no_call, Run, at_first, and_then, started, leaves, names, aims, asks, connects,
  leave_token,
}
use prediction_market_arbitr.Quotes.Moves
use prediction_market_arbitr.Quotes.Relays.{Relayed, on_ws_message_inner-Relayed}
use prediction_market_arbitr.Quotes.Rolling.{RollingFeed, PolymarketMarketRef, no_market}
use prediction_market_arbitr.Quotes.Rolling
use prediction_market_arbitr.Quotes.Rollovers
use prediction_market_arbitr.Quotes.Socket.{closed_socket}
use prediction_market_arbitr.Quotes.Socket
use prediction_market_arbitr.Runner.State.{up}
use prediction_market_arbitr.Tests.Fixed.{Fixed, dec, Double-Fixed, Fixed-IsOrdered}
use prediction_market_arbitr.Tests.World.{Doc, Json-Doc, level, entry, chain, null}

abbrev pub new_feed : FixedFeed Fixed
new_feed = record {
  running = false;
  token_id = "";
  quote_event_slug = "";
  quote_market_bucket_epoch = pos 0;
  quote_outcome = up;
  have_last_emitted_quote = false;
  last_emitted_bid = dec 0 0;
  last_emitted_ask = dec 0 0;
  socket = closed_socket;
}

abbrev on_up : FixedFeed Fixed
on_up = record new_feed { running = true; token_id = "up" }

on_ws_message_inner-Relayed_example : Relayed on_up (on_ws_message_inner Json-Doc "book" on_up)
on_ws_message_inner-Relayed_example = on_ws_message_inner-Relayed Json-Doc "book" on_up

-- The feed starts, connects, and leaves its token; a connection opens before the next token is set.
abbrev at_rest : FixedFeed Fixed → Calling Fixed
at_rest s = record { feed = s; call = no_call; overlapped = false }

abbrev feed_started : FixedFeed Fixed
feed_started = (start "up" new_feed).0

feed_runs : feed_started.socket.running ≡ true
unfolding start Socket.start Socket.set_subscription_snapshot
feed_runs = refl

interleaved : (u : Calling Fixed) × Run Json-Doc (at_rest new_feed) u × (u.overlapped ≡ true)
unfolding start opened leave_token Socket.start Socket.set_subscription_snapshot Socket.connect
    Socket.send_snapshot_subscribe_if_any Socket.send same
interleaved = (
  _,
  and_then
      (and_then
        (and_then
          (and_then
            (and_then (and_then (and_then at_first (started "up" refl)) (connects refl))
              (leaves "down" refl refl refl refl))
            (connects refl))
          (names "down" refl))
        (aims "down" refl))
      (asks "down" refl),
  refl,
)

run_interleaved-Steady_example :
    Steady interleaved.0.feed interleaved.0.call interleaved.0.overlapped
run_interleaved-Steady_example =
    run_interleaved-Steady Json-Doc (at_rest new_feed) interleaved.0 (idle refl refl refl refl)
      interleaved.1

abbrev book : Doc
book =
    entry "bids" (chain (level 28 5 ∷ level 29 1 ∷ level 30 0 ∷ []))
      (entry "asks" (chain (level 33 5 ∷ level 31 2 ∷ [])) null)

parse_top_of_book_from_book-IsTop_example :
    IsTop Json-Doc Fixed-IsOrdered book (parse_top_of_book_from_book Json-Doc book)
parse_top_of_book_from_book-IsTop_example =
    parse_top_of_book_from_book-IsTop Json-Doc Fixed-IsOrdered book

abbrev new_rolling : RollingFeed
new_rolling = record {
  running = false;
  active = no_market;
  active_up_token = "";
  active_announced_ts_ms = 0;
  last_quote_dedup = "";
  socket = closed_socket;
}

abbrev a_market : PolymarketMarketRef
a_market = record no_market { up_token_id = "up" }

abbrev rolling_started : RollingFeed
rolling_started = (Rolling.start (some a_market) 5 new_rolling).0

follows_one_market_example : Moves.Steady (Rolling.opened rolling_started)
unfolding Rolling.start
follows_one_market_example =
    Rollovers.follows_one_market Json-Doc (λ x. "") "btc" new_rolling
      (Rolling.opened rolling_started) (Moves.idle refl refl)
      (Rollovers.and_then rolling_started (Rolling.opened rolling_started)
        (Rollovers.and_then new_rolling rolling_started Rollovers.at_first
          (Rollovers.started a_market 5 refl))
        (Rollovers.connects refl))
