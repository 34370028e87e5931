-- ===== src/Tests/World.antt =====
-- Documents and a venue for the tests: the venue gives the answers of a list, one after another.
use prediction_market_arbitr.Base.{
  ℤ, ◌*ℤ◌, ℕ, suc, pos, String, Bool, true, false, if◌then◌else◌, List, [], ◌∷◌, Option, none, some,
}
use prediction_market_arbitr.Json.{Json}
use prediction_market_arbitr.Base.{codes, codes_eq}
use prediction_market_arbitr.Runner.Venue.{Venue, Receipt}
use prediction_market_arbitr.Tests.Fixed.{Fixed, fin, dec, not_a_number}

-- An object is a chain of entries, and an array is a chain of items that ends in `null`.
pub data Doc : Type 0 where
  null : Doc
  number : Fixed → Doc
  text : String → Doc
  entry : String → Doc → Doc → Doc
  item : Doc → Doc → Doc
  boolean : Bool → Doc
  integer : ℤ → Doc

abbrev pub find : Doc → String → Option Doc
find (entry key value rest) k = if codes_eq (codes key) (codes k) then some value else find rest k
find _ k = none

abbrev present : Option Doc → Bool
present none = false
present (some x) = true

abbrev pub or_null : Option Doc → Doc
or_null none = null
or_null (some x) = x

abbrev object : Doc → Bool
object (entry key value rest) = true
object _ = false

abbrev textual : Doc → Bool
textual (text s) = true
textual _ = false

abbrev numeric : Doc → Bool
numeric (number x) = true
numeric (integer x) = true
numeric _ = false

abbrev amount : Doc → Fixed
amount (number x) = x
amount (integer n) = fin (n *ℤ pos 1000000000)
amount _ = not_a_number

abbrev listed : Doc → Bool
listed (item x xs) = true
listed _ = false

abbrev missing : Doc → Bool
missing null = true
missing _ = false

abbrev truth : Doc → Bool
truth (boolean b) = true
truth _ = false

abbrev whole : Doc → Bool
whole (integer n) = true
whole _ = false

abbrev verdict : Doc → Bool
verdict (boolean b) = b
verdict _ = false

abbrev count_of : Doc → ℤ
count_of (integer n) = n
count_of _ = pos 0

abbrev items : Doc → List Doc
items (item x xs) = x ∷ items xs
items _ = []

abbrev entries : List (String × Doc) → Doc
entries [] = null
entries ((k, v) ∷ rest) = entry k v (entries rest)

abbrev pub chain : List Doc → Doc
chain [] = null
chain (x ∷ xs) = item x (chain xs)

abbrev content : Doc → String
content (text s) = s
content _ = ""

abbrev pub level : ℕ → ℕ → Doc
level price size = entry "price" (number (dec price 2)) (entry "size" (number (dec size 0)) null)

abbrev pub quote_row : ℕ → ℕ → Doc
quote_row bid ask = entry "event_type" (text "quote") (
    entry "payload"
      (entry "best_bid" (number (dec bid 2)) (entry "best_ask" (number (dec ask 2)) null)) null)

-- The event and the market of a bucket.
abbrev pub market : String → Doc
market slug = entry "slug" (text slug) (
    entry "active" (boolean true) (
      entry "closed" (boolean false) (
        entry "outcomes" (chain (text "Up" ∷ text "Down" ∷ [])) (
          entry "clobTokenIds" (chain (text "up" ∷ text "down" ∷ []))
            (entry "conditionId" (text "0xc") null)))))

abbrev event : String → Doc
event slug = entry "slug" (text slug) (
    entry "active" (boolean true)
      (entry "closed" (boolean false) (entry "markets" (chain (market slug ∷ [])) null)))

abbrev tick_message : Doc
tick_message = entry "topic" (text "crypto_prices_chainlink") (
    entry "payload"
      (entry "symbol" (text "btc/usd")
        (entry "timestamp" (integer (pos 1200500)) (entry "value" (number (dec 101 0)) null)))
      null)

-- The texts of messages are their names here, and these are the documents that they stand for.
abbrev pub messages : Doc
messages =
    entry "book"
      (entry "event_type" (text "book") (
        entry "asset_id" (text "up") (
          entry "bids" (chain (level 28 5 ∷ level 29 1 ∷ level 30 0 ∷ []))
            (entry "asks" (chain (level 33 5 ∷ level 31 2 ∷ [])) null))))
      (entry "untyped" (entry "event_type" (number (dec 1 0)) null) (
        entry "balance" (entry "ok" (boolean true) (entry "balance" (number (dec 20 0)) null)) (
          entry "refused" (entry "ok" (boolean false) (entry "error" (text "no") null)) (
            entry "placed" (entry "ok" (boolean true) (entry "order_id" (text "0x1") null)) (
              entry "events" (chain (event "btc-updown-5m-1200" ∷ [])) (
                entry "later_events" (chain (event "btc-updown-5m-1500" ∷ []))
                  (entry "tick" tick_message null)))))))

instance unfoldable pub Json-Doc : Json Fixed Doc
Json-Doc = record {
  contains = λ x k. present (find x k);
  at = λ x k. or_null (find x k);
  is_object = object;
  is_array = listed;
  is_string = textual;
  is_number = numeric;
  is_null = missing;
  is_boolean = truth;
  is_integer = whole;
  get_double = amount;
  get_string = content;
  get_boolean = verdict;
  get_int = count_of;
  elements = items;
  object = entries;
  of_string = text;
  of_double = number;
  of_int = integer;
  of_list = chain;
  parse = λ s. find messages s;
  dump = λ x. "";
}

pub record Script : Type 0 where
  pub balances : List (Option Fixed)
  pub receipts : List (Option (Receipt Doc))
  pub orders : List (Option Doc)
  pub clock : ℕ

abbrev next_balance : List (Option Fixed) → Script → Option Fixed × Script
next_balance [] e = (none, e)
next_balance (x ∷ xs) e = (x, record e { balances = xs })

abbrev next_receipt : List (Option (Receipt Doc)) → Script → Option (Receipt Doc) × Script
next_receipt [] e = (none, e)
next_receipt (x ∷ xs) e = (x, record e { receipts = xs })

abbrev next_order : List (Option Doc) → Script → Option Doc × Script
next_order [] e = (none, e)
next_order (x ∷ xs) e = (x, record e { orders = xs })

unfoldable pub venue : Venue Fixed Doc Script
venue = record {
  query_conditional_balance = λ token e. next_balance e.balances e;
  submit = λ intent e. next_receipt e.receipts e;
  query_order = λ id e. next_order e.orders e;
  query_garch_sigma = λ mids step e. (none, e);
  system_ms = λ e. (pos e.clock, e);
  steady_ns = λ e. (pos e.clock, record e { clock = suc e.clock });
}
