-- ===== src/Gamma/Rest.antt =====
-- src/polymarket/rest_quote.cpp: the order book of one token over HTTP. `curl_easy_escape` is part of
-- the parameter for HTTP, the clocks and error texts are left out. `none` is the result `false`.
use prediction_market_arbitr.Backtest.Events.{◌>>=◌, at?}
use prediction_market_arbitr.Base.{if◌then◌else◌, String, List, ◌++◌, Option, some, codes}
use prediction_market_arbitr.Buckets.Discover.{Gamma}
use prediction_market_arbitr.Buckets.Slug.{Text}
use prediction_market_arbitr.Double.{Double}
use prediction_market_arbitr.Gamma.Bootstrap.{last}
use prediction_market_arbitr.Json.{Json}

pub record BookQuote (W : Type 0) : Type 0 where
  pub token_id : String
  pub best_bid : W
  pub best_ask : W

module _ {W J : Type 0} ⦃d : Double W⦄ (json : Json W J) where
  open json use {is_string, is_number, get_string, get_double, elements, parse}

  unfoldable pub parse_price_field : J → Option W
  parse_price_field j =
      if is_string j
      then d.stod (get_string j)
      else some (if is_number j then get_double j else d.lit 0 0)

  -- The price of the last level, which is the top of the book.
  abbrev pub top_price : List J → Option W
  top_price levels = last levels >>= λ level. at? json level "price" >>= parse_price_field

  unfoldable pub quote_of_book : (token_id : String) → J → Option (BookQuote W)
  quote_of_book token_id j = at? json j "bids" >>= λ bids. at? json j "asks" >>= λ asks.
      top_price (elements bids) >>= λ bid. top_price (elements asks) >>= λ ask.
      some (record { token_id = token_id; best_bid = bid; best_ask = ask })

  -- `escape` is `curl_easy_escape`.
  unfoldable pub fetch_order_book :
      {E : Type 0} → Gamma E → (escape : String → Text) → String → E → Option (BookQuote W) × E
  fetch_order_book web escape token_id e =
      let r =
        web.http_get (codes "https://clob.polymarket.com/book?token_id=" ++ escape token_id) e in
      (r.0 >>= λ body. parse body >>= λ j. quote_of_book token_id j, r.1)
