-- ===== src/Gamma/Bootstrap.antt =====
-- src/polymarket/gamma_bootstrap.cpp: the choice of a market in Gamma's response. HTTP, `std::sort` by
-- the end date and the printing of a floating-point id are parameters; error texts are left out. `none`
-- is the result `false`, which an exception gives too.
use prediction_market_arbitr.Backtest.Events.{◌>>=◌}
use prediction_market_arbitr.Base.{
  ℕ, ltb, Bool, true, false, not, if◌then◌else◌, ◌&&◌, ◌||◌, ◌==◌, String, List, [], ◌∷◌, Option,
  none, some, codes, codes_eq, lower, length, get_elem?,
}
use prediction_market_arbitr.Buckets.Discover.{Gamma}
use prediction_market_arbitr.Buckets.Market.{strings_field, index_outcome}
use prediction_market_arbitr.Buckets.Market
use prediction_market_arbitr.Buckets.Slug.{Text}
use prediction_market_arbitr.Json.{Json, value_string, value_boolean}
use prediction_market_arbitr.Quotes.Rolling.{PolymarketMarketRef, slug_has_prefix_ci, index_or}

pub record GammaBootstrapParams : Type 0 where
  pub slug_prefix : String
  pub require_up_down_outcomes : Bool

-- `PolymarketMarketRef`, with its two times.
pub record GammaMarket : Type 0 where
  pub ref : PolymarketMarketRef
  pub start_time : String
  pub end_time : String

abbrev pub markets_url : Text
markets_url = codes "https://gamma-api.polymarket.com/markets?active=true&closed=false&limit=500"

-- `<` on strings, by the character codes.
unfoldable pub text_lt : Text → Text → Bool
text_lt [] [] = false
text_lt [] (y ∷ ys) = true
text_lt (x ∷ xs) [] = false
text_lt (x ∷ xs) (y ∷ ys) = let rest = text_lt xs ys in if x == y then rest else ltb x y

-- Some outcome is `want`, which is in lower case.
unfoldable pub has_outcome : Text → List String → Bool
has_outcome want [] = false
has_outcome want (o ∷ os) = codes_eq (lower o) want || has_outcome want os

unfoldable pub index_up_outcome : List String → ℕ
index_up_outcome outs = index_or 0 (index_outcome (codes "up") outs)

-- `down_i`, which stays 0 if there is none.
unfoldable pub index_down_outcome : List String → ℕ
index_down_outcome outs = index_or 0 (index_outcome (codes "down") outs)

-- `back()`
unfoldable pub last : {A : Type 0} → List A → Option A
last [] = none
last (x ∷ []) = some x
last (x ∷ y ∷ xs) = last (y ∷ xs)

abbrev pub no_items : {A : Type 0} → List A → Bool
no_items [] = true
no_items (x ∷ xs) = false

module _ {W J : Type 0} (json : Json W J) where
  open json use {
    contains, at, is_object, is_array, is_string, is_integer, is_number, get_double, elements,
    parse,
  }

  abbrev pub is_up_down : List String → Bool
  is_up_down outs = has_outcome (codes "up") outs && has_outcome (codes "down") outs

  -- The market is a candidate.
  unfoldable pub is_candidate : GammaBootstrapParams → J → Option Bool
  is_candidate params m =
      if not (is_object m)
      then some false
      else (value_string json m "slug" "" >>= λ slug.
          if not (slug_has_prefix_ci slug params.slug_prefix)
          then some false
          else if params.require_up_down_outcomes
          then some (is_up_down (strings_field json m "outcomes"))
          else some true)

  -- The loop over the response.
  unfoldable pub candidates_of : GammaBootstrapParams → List J → Option (List J)
  candidates_of params [] = some []
  candidates_of params (m ∷ ms) = is_candidate params m >>= λ c.
      candidates_of params ms >>= λ rest. some (if c then m ∷ rest else rest)

  abbrev pub end_date : J → Option String
  end_date m = value_string json m "endDate" ""

  -- The markets with their end dates, which the comparison reads.
  unfoldable pub keyed : List J → Option (List (Text × J))
  keyed [] = some []
  keyed (m ∷ ms) = end_date m >>= λ date. keyed ms >>= λ rest. some ((codes date, m) ∷ rest)

  -- An id as text; `show` prints a floating-point one.
  unfoldable pub json_scalar_id_string : (show : W → Text) → J → String → Text
  json_scalar_id_string show j key =
      if contains j key && is_number (at j key) && not (is_integer (at j key))
      then show (get_double (at j key))
      else Market.json_scalar_id_string json j key

  module _ (sort : List (Text × J) → List (Text × J)) (show : W → Text) where
    abbrev pub market_in : Option (Text × J) → Option J
    market_in none = none
    market_in (some p) = some p.1

    -- The candidate that ends last. A single one is not compared with anything.
    unfoldable pub latest : List J → Option J
    latest [] = none
    latest (m ∷ []) = some m
    latest (m ∷ m' ∷ ms) = keyed (m ∷ m' ∷ ms) >>= λ ks. market_in (last (sort ks))

    -- What is read of the market that was chosen.
    unfoldable pub read_market : J → Option GammaMarket
    read_market m =
        let outs = strings_field json m "outcomes" in
        let toks = strings_field json m "clobTokenIds" in
        if no_items toks || not (length outs == length toks)
        then none
        else (value_string json m "conditionId" "" >>= λ condition.
            value_string json m "slug" "" >>= λ slug.
            value_boolean json m "active" true >>= λ active.
            value_string json m "startDate" "" >>= λ start_time. end_date m >>= λ end_time.
            get_elem? toks (index_up_outcome outs) >>= λ up.
            get_elem? toks (index_down_outcome outs) >>= λ down. some (record {
              ref = record {
                market_id = json_scalar_id_string show m "id";
                condition_id = condition;
                slug = slug;
                up_token_id = up;
                down_token_id = down;
                active = active;
              };
              start_time = start_time;
              end_time = end_time;
            }))

    unfoldable pub choose_market : GammaBootstrapParams → J → Option GammaMarket
    choose_market params arr =
        if not (is_array arr)
        then none
        else (candidates_of params (elements arr) >>= λ ms. latest ms >>= λ m. read_market m)

    unfoldable pub gamma_discover_active_market :
        {E : Type 0} → Gamma E → GammaBootstrapParams → E → Option GammaMarket × E
    gamma_discover_active_market gamma params e =
        let r = gamma.http_get markets_url e in
        (r.0 >>= λ body. parse body >>= λ arr. choose_market params arr, r.1)
