-- ===== src/Quotes/Book.antt =====
-- src/polymarket/poly_ws_quote_feed.cpp: `json_to_double`, `json_level_size_positive` and
-- `parse_top_of_book_from_book`; ws_fixed_token_feed.cpp has the same code.
use prediction_market_arbitr.Base.{
  String, Bool, false, not, if◌then◌else◌, List, [], ◌∷◌, Option, none, some,
}
use prediction_market_arbitr.Double.{Double, is_nan}
use prediction_market_arbitr.Json.{Json, array_field}

module _ {W : Type 0} ⦃d : Double W⦄ where
  open d use {lit, nan, lt}

  abbrev pub or_nan : Option W → W
  or_nan none = nan
  or_nan (some x) = x

  abbrev pub exceeds_dust : Option W → Bool
  exceeds_dust none = false
  exceeds_dust (some x) = lt (lit 1 18) x

  abbrev pub higher : W → W → Bool
  higher p best = lt best p

module _ {W : Type 0} where
  -- `best` is `none` while `any_bid` or `any_ask` is false.
  abbrev pub improve : (better : W → W → Bool) → Option W → Option W → Option W
  improve better none best = best
  improve better (some p) none = some p
  improve better (some p) (some best) = if better p best then some p else some best

  abbrev pub both : Option W → Option W → Option (W × W)
  both none _ = none
  both (some bid) none = none
  both (some bid) (some ask) = some (bid, ask)

module _ {W J : Type 0} ⦃d : Double W⦄ (json : Json W J) where
  open d use {lit, nan, lt, stod}
  open json use {contains, at, is_string, is_number, get_double, get_string}

  unfoldable pub json_to_double : J → W
  json_to_double j =
      if is_number j
      then get_double j
      else if is_string j
      then or_nan (stod (get_string j))
      else nan

  unfoldable pub json_level_size_positive : J → Bool
  json_level_size_positive lvl =
      let sz = at lvl "size" in
      if not (contains lvl "size")
      then false
      else if is_number sz
      then lt (lit 1 18) (get_double sz)
      else if is_string sz
      then exceeds_dust (stod (get_string sz))
      else false

  -- The price of a level that counts.
  unfoldable pub level_price : J → Option W
  level_price lvl =
      let p = json_to_double (at lvl "price") in
      if not (contains lvl "price")
      then none
      else if not (json_level_size_positive lvl)
      then none
      else if is_nan p
      then none
      else some p

  unfoldable pub best_of : (better : W → W → Bool) → List J → Option W → Option W
  best_of better [] best = best
  best_of better (lvl ∷ lvls) best = best_of better lvls (improve better (level_price lvl) best)

  abbrev pub side_levels : J → String → List J
  side_levels j side = elim (array_field json j side) [ none ↦ [] | some lvls ↦ lvls ]

  unfoldable pub parse_top_of_book_from_book : J → Option (W × W)
  parse_top_of_book_from_book j =
      both (best_of higher (side_levels j "bids") none) (best_of lt (side_levels j "asks") none)
