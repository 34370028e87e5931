-- ===== src/Chainlink/Feed.antt =====
-- src/polymarket/rtds_chainlink_feed.cpp: `RtdsChainlinkFeedImpl`. A thread's turn is one step; the
-- socket, which may open or not, and the clock are given to it. The log of errors is left out.
use prediction_market_arbitr.Base.{
  ℕ, ℤ, pos, ◌-ℤ◌, ltb_ℤ, ltb, String, Bool, true, false, not, if◌then◌else◌, ◌&&◌, ◌||◌, List, [],
  ◌∷◌, ◌++◌, Option, none, some, length,
}
use prediction_market_arbitr.Chainlink.Ticks.{Tick, collect_ticks_from_message}
use prediction_market_arbitr.Double.{Double}
use prediction_market_arbitr.Json.{Json}

abbrev pub max_buffer : ℕ
max_buffer = 900

abbrev pub stale_tick_ms : ℤ
stale_tick_ms = pos 120000

abbrev pub no_tick_after_open_ms : ℤ
no_tick_after_open_ms = pos 90000

-- `watching` says that the watchdog's thread runs.
pub record Feed (W : Type 0) : Type 0 where
  pub started : Bool
  pub stop_feed : Bool
  pub watching : Bool
  pub ever_got_tick : Bool
  pub last_tick_wall_ms : ℤ
  pub session_start_wall_ms : ℤ
  pub buffer : List (Tick W)

-- Elements are taken from the front while there are more than `cap`.
unfoldable pub pop_front : {A : Type 0} → (cap : ℕ) → List A → List A
pop_front cap [] = []
pop_front cap (x ∷ xs) =
    let rest = pop_front cap xs in if ltb cap (length (x ∷ xs)) then rest else x ∷ xs

-- Each tick is put at the back.
unfoldable pub push_back : {A : Type 0} → (cap : ℕ) → List A → List A → List A
push_back cap buffer [] = buffer
push_back cap buffer (x ∷ xs) = push_back cap (pop_front cap (buffer ++ (x ∷ []))) xs

module _ {W : Type 0} where
  unfoldable pub push_ticks : (now : ℤ) → List (Tick W) → Feed W → Feed W
  push_ticks now [] f = f
  push_ticks now (t ∷ ts) f = record f {
    ever_got_tick = true;
    last_tick_wall_ms = now;
    buffer = push_back max_buffer f.buffer (t ∷ ts);
  }

  -- `opens` says whether the socket opens in time.
  unfoldable pub reconnect_inner : (opens : Bool) (now : ℤ) → Feed W → Feed W
  reconnect_inner opens now f =
      let cleared : Feed W = (record f {
        ever_got_tick = false;
        last_tick_wall_ms = pos 0;
        session_start_wall_ms = pos 0;
        buffer = [];
      }) in
      if f.stop_feed
      then f
      else if not f.started
      then f
      else if not opens
      then record cleared { started = false }
      else record cleared { session_start_wall_ms = now }

  -- The watchdog finds the feed silent.
  abbrev pub is_stalled : (socket_open : Bool) (now : ℤ) → Feed W → Bool
  is_stalled socket_open now f =
      not socket_open
      || ((f.ever_got_tick
            && ltb_ℤ (pos 0) f.last_tick_wall_ms
            && ltb_ℤ stale_tick_ms (now -ℤ f.last_tick_wall_ms))
          || (not f.ever_got_tick
              && ltb_ℤ (pos 0) f.session_start_wall_ms
              && ltb_ℤ no_tick_after_open_ms (now -ℤ f.session_start_wall_ms)))

  -- One round of `run_watchdog`.
  unfoldable pub run_watchdog :
      (socket_open : Bool) (now : ℤ) (opens : Bool) (later : ℤ) → Feed W → Feed W
  run_watchdog socket_open now opens later f =
      if not f.watching
      then f
      else if not f.started
      then f
      else if f.stop_feed
      then f
      else if is_stalled socket_open now f
      then reconnect_inner opens later f
      else f

  unfoldable pub ensure_started_inner : (opens : Bool) (now : ℤ) → Feed W → Feed W
  ensure_started_inner opens now f =
      if f.started
      then f
      else if not opens
      then f
      else record f { session_start_wall_ms = now; started = true; watching = true }

  unfoldable pub stop_inner : Feed W → Feed W
  stop_inner f = record f {
    stop_feed = true;
    watching = false;
    started = false;
    ever_got_tick = false;
    last_tick_wall_ms = pos 0;
    session_start_wall_ms = pos 0;
  }

  abbrev pub new_feed : Feed W
  new_feed = record {
    started = false;
    stop_feed = false;
    watching = false;
    ever_got_tick = false;
    last_tick_wall_ms = pos 0;
    session_start_wall_ms = pos 0;
    buffer = [];
  }

module _ {W J : Type 0} ⦃d : Double W⦄ (json : Json W J) where
  abbrev pub push_all : (now : ℤ) → Feed W → Option (List (Tick W)) → Feed W
  push_all now f none = f
  push_all now f (some ticks) = push_ticks now ticks f

  abbrev pub on_parsed : (now : ℤ) → Feed W → Option J → Feed W
  on_parsed now f none = f
  on_parsed now f (some j) = push_all now f (collect_ticks_from_message json j)

  -- A message from the socket; exceptions are caught.
  unfoldable pub on_message : (now : ℤ) → String → Feed W → Feed W
  on_message now text f = on_parsed now f (json.parse text)
