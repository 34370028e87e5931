-- ===== src/Chainlink/History.antt =====
-- src/polymarket/rtds_chainlink_feed.cpp: the feed over a history of messages, starts, stops and rounds
-- of the watchdog.
use mathlib.Core.Path.{subst}
use mathlib.Core.List.{append-nil}
use prediction_market_arbitr.Base.{
  ℤ, String, Bool, true, not, ◌≡◌, refl, ◌∙◌, sym, ◌⊎◌, inl, inr, if◌then◌else◌, if_intro, ◌&&◌,
  List, [], ◌∷◌, ◌++◌, Option, none, some, arith,
}
use prediction_market_arbitr.Chainlink.Feed.{
  Feed, max_buffer, push_back, push_ticks, reconnect_inner, is_stalled, run_watchdog,
  ensure_started_inner, stop_inner, new_feed, push_all, on_parsed, on_message,
}
use prediction_market_arbitr.Chainlink.Ticks.{Tick, collect_ticks_from_message}
use prediction_market_arbitr.Double.{Double}
use prediction_market_arbitr.Json.{Json}
use prediction_market_arbitr.Chainlink.Buffer.{IsLast, push_back-IsLast}

-- What happens to the feed: a message, a request that it be started, a round of the watchdog, a stop.
pub data Turn : Type 0 where
  message : (now : ℤ) → String → Turn
  wanted : (opens : Bool) (now : ℤ) → Turn
  watched : (socket_open : Bool) (now : ℤ) (opens : Bool) (later : ℤ) → Turn
  stopped : Turn

module _ {W J : Type 0} ⦃d : Double W⦄ (json : Json W J) where
  unfoldable pub turn : Turn → Feed W → Feed W
  turn (message now text) f = on_message json now text f
  turn (wanted opens now) f = ensure_started_inner opens now f
  turn (watched socket_open now opens later) f = run_watchdog socket_open now opens later f
  turn stopped f = stop_inner f

  abbrev pub run : List Turn → Feed W → Feed W
  run [] f = f
  run (t ∷ ts) f = run ts (turn t f)

  abbrev pub ticks_or_none : Option (List (Tick W)) → List (Tick W)
  ticks_or_none none = []
  ticks_or_none (some ticks) = ticks

  abbrev pub ticks_parsed : Option J → List (Tick W)
  ticks_parsed none = []
  ticks_parsed (some j) = ticks_or_none (collect_ticks_from_message json j)

  -- All ticks received since the watchdog last reconnected.
  abbrev pub log : Turn → Feed W → List (Tick W) → List (Tick W)
  log (message now text) f all = all ++ ticks_parsed (json.parse text)
  log (wanted opens now) f all = all
  log (watched socket_open now opens later) f all =
      if f.watching && f.started && not f.stop_feed && is_stalled socket_open now f then [] else all
  log stopped f all = all

  abbrev pub log_all : List Turn → Feed W → List (Tick W) → List (Tick W)
  log_all [] f all = all
  log_all (t ∷ ts) f all = log_all ts (turn t f) (log t f all)

  abbrev Buffered : List (Tick W) → Feed W → Type 0
  Buffered all f = IsLast max_buffer all f.buffer

  push_ticks-Buffered :
      (now : ℤ) (ticks all : List (Tick W)) (f : Feed W)
      → Buffered all f
      → Buffered (all ++ ticks) (push_ticks now ticks f)
  unfolding push_ticks push_back
  push_ticks-Buffered now [] all f h = push_back-IsLast max_buffer all f.buffer [] h
  push_ticks-Buffered now (t ∷ ts) all f h = push_back-IsLast max_buffer all f.buffer (t ∷ ts) h

  push_all-Buffered :
      (now : ℤ) (o : Option (List (Tick W))) (all : List (Tick W)) (f : Feed W)
      → Buffered all f
      → Buffered (all ++ ticks_or_none o) (push_all json now f o)
  push_all-Buffered now none all f h = subst (λ ys. Buffered ys f) (sym (append-nil all)) h
  push_all-Buffered now (some ticks) all f h = push_ticks-Buffered now ticks all f h

  on_parsed-Buffered :
      (now : ℤ) (o : Option J) (all : List (Tick W)) (f : Feed W)
      → Buffered all f
      → Buffered (all ++ ticks_parsed o) (on_parsed json now f o)
  on_parsed-Buffered now none all f h = subst (λ ys. Buffered ys f) (sym (append-nil all)) h
  on_parsed-Buffered now (some j) all f h =
      push_all-Buffered now (collect_ticks_from_message json j) all f h

  nothing_kept : (f : Feed W) → f.buffer ≡ [] → Buffered [] f
  nothing_kept f h =
      rw h record { gone = []; split = refl; at_most = omega arith; no_less = inl refl }

  watched-cases :
      (socket_open : Bool) (now : ℤ) (opens : Bool) (later : ℤ) (all : List (Tick W)) (f : Feed W)
      → ((log (watched socket_open now opens later) f all ≡ all)
          × (run_watchdog socket_open now opens later f ≡ f))
        ⊎ ((log (watched socket_open now opens later) f all ≡ [])
            × ((run_watchdog socket_open now opens later f).buffer ≡ []))
  unfolding run_watchdog reconnect_inner
  watched-cases socket_open now opens later all f = ground arith

  watched-Buffered :
      (socket_open : Bool) (now : ℤ) (opens : Bool) (later : ℤ) (all : List (Tick W)) (f : Feed W)
      → Buffered all f
      → Buffered
          (log (watched socket_open now opens later) f all)
          (run_watchdog socket_open now opens later f)
  watched-Buffered socket_open now opens later all f h =
      elim (watched-cases socket_open now opens later all f) [
        | inl (a, b) ↦ rw (a, b) h
        | inr (a, b) ↦ rw a (nothing_kept (run_watchdog socket_open now opens later f) b)
      ]

  turn-Buffered :
      (t : Turn) (all : List (Tick W)) (f : Feed W)
      → Buffered all f
      → Buffered (log t f all) (turn t f)
  unfolding turn on_message ensure_started_inner stop_inner
  turn-Buffered (message now text) all f h = on_parsed-Buffered now (json.parse text) all f h
  turn-Buffered (wanted opens now) all f h =
      if_intro (Buffered all) f.started _ _ (λ e. h)
        (λ e. if_intro (Buffered all) (not opens) _ _ (λ e'. h) (λ e'. h))
  turn-Buffered (watched socket_open now opens later) all f h =
      watched-Buffered socket_open now opens later all f h
  turn-Buffered stopped all f h = h

  run-Buffered :
      (ts : List Turn) (all : List (Tick W)) (f : Feed W)
      → Buffered all f
      → Buffered (log_all ts f all) (run ts f)
  run-Buffered [] all f h = h
  run-Buffered (t ∷ ts) all f h = run-Buffered ts (log t f all) (turn t f) (turn-Buffered t all f h)

  -- After any history the buffer holds the last 900 of the ticks received since the watchdog last
  -- reconnected, in the order of their arrival, or all of them if there are no more.
  pub run-IsLast :
      (ts : List Turn) → IsLast max_buffer (log_all ts new_feed []) (run ts new_feed).buffer
  run-IsLast ts = run-Buffered ts [] new_feed (nothing_kept new_feed refl)

  push_ticks-stop_feed :
      (now : ℤ) (ticks : List (Tick W)) (f : Feed W)
      → (push_ticks now ticks f).stop_feed ≡ f.stop_feed
  unfolding push_ticks
  push_ticks-stop_feed now [] f = refl
  push_ticks-stop_feed now (t ∷ ts) f = refl

  push_all-stop_feed :
      (now : ℤ) (f : Feed W) (o : Option (List (Tick W)))
      → (push_all json now f o).stop_feed ≡ f.stop_feed
  push_all-stop_feed now f none = refl
  push_all-stop_feed now f (some ticks) = push_ticks-stop_feed now ticks f

  on_parsed-stop_feed :
      (now : ℤ) (f : Feed W) (o : Option J) → (on_parsed json now f o).stop_feed ≡ f.stop_feed
  on_parsed-stop_feed now f none = refl
  on_parsed-stop_feed now f (some j) = push_all-stop_feed now f (collect_ticks_from_message json j)

  -- `stop_feed` stays.
  turn-stop_feed : (t : Turn) (f : Feed W) → f.stop_feed ≡ true → (turn t f).stop_feed ≡ true
  unfolding turn on_message ensure_started_inner run_watchdog reconnect_inner stop_inner
  turn-stop_feed (message now text) f h = on_parsed-stop_feed now f (json.parse text) ∙ h
  turn-stop_feed (wanted opens now) f h = ground arith
  turn-stop_feed (watched socket_open now opens later) f h = ground arith
  turn-stop_feed stopped f h = refl

  run-stop_feed : (ts : List Turn) (f : Feed W) → f.stop_feed ≡ true → (run ts f).stop_feed ≡ true
  run-stop_feed [] f h = h
  run-stop_feed (t ∷ ts) f h = run-stop_feed ts (turn t f) (turn-stop_feed t f h)

  stopped_watchdog :
      (socket_open : Bool) (now : ℤ) (opens : Bool) (later : ℤ) (f : Feed W)
      → f.stop_feed ≡ true
      → run_watchdog socket_open now opens later f ≡ f
  unfolding run_watchdog
  stopped_watchdog socket_open now opens later f h = ground arith

  -- Once the feed has been stopped its watchdog does nothing for ever, even when the feed has been
  -- started again and its socket is closed or silent.
  pub stop_inner-no_watchdog :
      (ts : List Turn) (f : Feed W) (socket_open : Bool) (now : ℤ) (opens : Bool) (later : ℤ)
      → run_watchdog socket_open now opens later (run ts (stop_inner f)) ≡ run ts (stop_inner f)
  unfolding stop_inner
  stop_inner-no_watchdog ts f socket_open now opens later =
      stopped_watchdog socket_open now opens later (run ts (stop_inner f))
        (run-stop_feed ts (stop_inner f) refl)
