-- ===== src/Backtest/Events.antt =====
-- src/replay/timeline_merge.cpp and src/signals/engine.cpp. `none` is an exception, of `value`, `at` or
-- `get`.
use prediction_market_arbitr.Base.{
  ℤ, pos, ◌*ℤ◌, String, Bool, true, false, not, if◌then◌else◌, ◌&&◌, List, [], ◌∷◌, ◌++◌, Option,
  none, some, same,
}
use prediction_market_arbitr.Double.{Double, fabs}
use prediction_market_arbitr.Json.{Json, value_string}

pub record LogEvent (J : Type 0) : Type 0 where
  pub sort_key_ns : ℤ
  pub source : String
  pub row : J

pub record Signal (W : Type 0) : Type 0 where
  pub at_mono_ns : ℤ
  pub price : W
  pub symbol : String

infixl 20 ◌>>=◌
abbrev pub ◌>>=◌ : {A B : Type 0} → Option A → (A → Option B) → Option B
none >>= f = none
some a >>= f = f a

module _ {W J : Type 0} (json : Json W J) where
  open json use {contains, at, is_object, is_number, is_integer, get_int, get_double}

  -- `j.at(key)`
  abbrev pub at? : J → String → Option J
  at? j key = if is_object j && contains j key then some (at j key) else none

  abbrev pub double_of : J → Option W
  double_of j = if is_number j then some (get_double j) else none

  abbrev pub int_of : J → Option ℤ
  int_of j = if is_number j then some (get_int j) else none

  unfoldable pub sort_key_from_row : J → Option ℤ
  sort_key_from_row j =
      if contains j "local_ts_mono_ns"
      then int_of (at j "local_ts_mono_ns")
      else if contains j "exchange_ts_ms"
      then (int_of (at j "exchange_ts_ms") >>= λ ms. some (ms *ℤ pos 1000000))
      else some (pos 0)

  -- The event is of this source and type; the type is read only of what is of the source.
  unfoldable pub is_event : (source type : String) → LogEvent J → Option Bool
  is_event source type e =
      if not (same e.source source)
      then some false
      else (value_string json e.row "event_type" "" >>= λ t. some (same t type))

  abbrev pub is_binance_trade : LogEvent J → Option Bool
  is_binance_trade e = is_event "binance" "trade" e

  abbrev pub is_polymarket_quote : LogEvent J → Option Bool
  is_polymarket_quote e = is_event "polymarket" "quote" e

  unfoldable pub poly_mid : ⦃d : Double W⦄ → LogEvent J → Option W
  poly_mid ⦃d⦄ e = at? e.row "payload" >>= λ p. at? p "best_bid" >>= λ b. double_of b >>= λ bid.
      at? p "best_ask" >>= λ a. double_of a >>= λ ask. some (d.mul (d.lit 5 1) (d.add bid ask))

  unfoldable pub trade_price : LogEvent J → Option W
  trade_price e = at? e.row "payload" >>= λ p. at? p "price" >>= λ x. double_of x

  -- The trade moves the price by `move_bps` or more.
  abbrev pub is_move : ⦃d : Double W⦄ → (move_bps last_px px : W) → Bool
  is_move ⦃d⦄ move_bps last_px px =
      d.le move_bps (d.mul (d.div (fabs (d.sub px last_px)) last_px) (d.lit 10000 0))

  abbrev pub then_signal : List (Signal W) → Option (List (Signal W)) → Option (List (Signal W))
  then_signal out none = none
  then_signal out (some more) = some (out ++ more)

  abbrev pub signal_at : LogEvent J → W → Option (List (Signal W))
  signal_at ev px = value_string json ev.row "symbol" "" >>= λ symbol.
      some (record { at_mono_ns = ev.sort_key_ns; price = px; symbol = symbol } ∷ [])

  -- The signals of one trade, if there was a price before it.
  unfoldable pub trade_signals :
      ⦃d : Double W⦄ → (move_bps last_px px : W) → LogEvent J → Option (List (Signal W))
  trade_signals ⦃d⦄ move_bps last_px px ev =
      if d.le last_px (d.lit 0 0)
      then some []
      else if is_move move_bps last_px px
      then signal_at ev px
      else some []

  -- The loop of `detect_binance_moves`; `last_px` is the price of the last trade.
  unfoldable pub moves_from :
      ⦃d : Double W⦄ → (move_bps last_px : W) → List (LogEvent J) → Option (List (Signal W))
  moves_from move_bps last_px [] = some []
  moves_from move_bps last_px (ev ∷ evs) = is_binance_trade ev >>= λ trade. elim trade [
    | false ↦ moves_from move_bps last_px evs
    | true ↦
        (trade_price ev >>= λ px. trade_signals move_bps last_px px ev >>= λ out.
        then_signal out (moves_from move_bps px evs))
  ]

  unfoldable pub detect_binance_moves :
      ⦃d : Double W⦄ → (move_bps : W) → List (LogEvent J) → Option (List (Signal W))
  detect_binance_moves ⦃d⦄ move_bps evs = moves_from move_bps (d.lit 0 0) evs
