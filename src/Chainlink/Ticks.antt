-- ===== src/Chainlink/Ticks.antt =====
-- src/polymarket/rtds_chainlink_feed.cpp: the ticks that a message holds. `none` is an exception, which
-- drops the whole message. Where a row has no `timestamp` or no `value` the behaviour of the source is
-- undefined; the model reads whatever `at` gives for a key that is missing.
use prediction_market_arbitr.Base.{
  ℤ, String, Bool, not, if◌then◌else◌, ◌&&◌, ◌||◌, List, [], ◌∷◌, ◌++◌, Option, none, some, codes,
  codes_eq, lower,
}
use prediction_market_arbitr.Double.{Double}
use prediction_market_arbitr.Json.{Json}

-- The time of a tick in milliseconds, and its price.
abbrev pub Tick : Type 0 → Type 0
Tick W = ℤ × W

unfoldable pub btc_usd_symbol_match : String → Bool
btc_usd_symbol_match raw =
    codes_eq (lower raw) (codes "btc/usd") || codes_eq (lower raw) (codes "btcusd")

abbrev pub and_both : {A B : Type 0} → Option A → Option B → Option (A × B)
and_both none b = none
and_both (some a) none = none
and_both (some a) (some b) = some (a, b)

abbrev pub listed : {A : Type 0} → Option A → List A
listed none = []
listed (some a) = a ∷ []

abbrev pub joined : {A : Type 0} → Option (List A) → Option (List A) → Option (List A)
joined none more = none
joined (some xs) none = none
joined (some xs) (some ys) = some (xs ++ ys)

module _ {W : Type 0} ⦃d : Double W⦄ where
  open d use {lit, le, is_finite}

  -- A tick counts if its price is finite and positive.
  abbrev pub counted : Option (Tick W) → Option (Tick W)
  counted none = none
  counted (some (ts, val)) =
      if not (is_finite val) || le val (lit 0 0) then none else some (ts, val)

module _ {W J : Type 0} ⦃d : Double W⦄ (json : Json W J) where
  open json use {
    contains, at, is_object, is_array, is_string, is_number, is_integer, get_double, get_int,
    get_string, elements,
  }

  unfoldable pub json_to_ms : J → Option ℤ
  json_to_ms j =
      if is_integer j then some (get_int j) else if is_number j then some (get_int j) else none

  unfoldable pub json_to_double : J → Option W
  json_to_double j =
      if is_number j
      then some (get_double j)
      else if is_string j
      then d.stod (get_string j)
      else none

  -- `timestamp` and `value` of an object.
  unfoldable pub tick_of : J → Option (Tick W)
  tick_of row =
      counted (and_both (json_to_ms (at row "timestamp")) (json_to_double (at row "value")))

  -- One row of the array `data`.
  unfoldable pub ticks_of_row : J → Option (List (Tick W))
  ticks_of_row row =
      if not (is_object row)
      then some []
      else if not (contains row "symbol")
      then some []
      else if not (is_string (at row "symbol"))
      then none
      else if not (btc_usd_symbol_match (get_string (at row "symbol")))
      then some []
      else some (listed (tick_of row))

  unfoldable pub ticks_of_rows : List J → Option (List (Tick W))
  ticks_of_rows [] = some []
  ticks_of_rows (row ∷ rows) = joined (ticks_of_row row) (ticks_of_rows rows)

  unfoldable pub collect_ticks_from_payload : J → Option (List (Tick W))
  collect_ticks_from_payload p =
      if not (is_object p)
      then some []
      else if contains p "data" && is_array (at p "data")
      then ticks_of_rows (elements (at p "data"))
      else if not (contains p "symbol") || not (is_string (at p "symbol"))
      then some []
      else if not (btc_usd_symbol_match (get_string (at p "symbol")))
      then some []
      else some (listed (tick_of p))

  -- One message of `crypto_prices_chainlink`.
  unfoldable pub collect_one : J → Option (List (Tick W))
  collect_one o =
      if not (is_object o) || (not (contains o "topic") || not (is_string (at o "topic")))
      then some []
      else if not (codes_eq (lower (get_string (at o "topic"))) (codes "crypto_prices_chainlink"))
      then some []
      else if not (contains o "payload")
      then some []
      else collect_ticks_from_payload (at o "payload")

  unfoldable pub collect_each : List J → Option (List (Tick W))
  collect_each [] = some []
  collect_each (o ∷ os) = joined (collect_one o) (collect_each os)

  unfoldable pub collect_ticks_from_message : J → Option (List (Tick W))
  collect_ticks_from_message j = if is_array j then collect_each (elements j) else collect_one j
